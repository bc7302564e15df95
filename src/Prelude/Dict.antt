-- ===== src/Prelude/Dict.antt =====
-- Maps from strings of bytes as association lists: `std::unordered_map` with paths or content ids as
-- keys. The order of the entries stands for the order of an iteration.
use Prim.Native.Nat.{ℕ}
use mathlib.Core.Path.{◌≡◌, refl, sym, ap, ◌∙◌}
use mathlib.Core.Logic.{inl, inr}
use mathlib.Core.Bool.{Bool, true, false, ◌&&◌, false≢true}
use mathlib.Core.List.{List, [], ◌∷◌}
use mathlib.Core.Option.{Option, none, some, some-ne-none}
use cdc_file_transfer.Prelude.Tests.{◌==◌, ==_iff, if◌then◌else◌, Bool-cases}

-- Two strings of bytes are equal.
abbrev pub same : List ℕ → List ℕ → Bool
same [] [] = true
same [] (b ∷ bs) = false
same (a ∷ as') [] = false
same (a ∷ as') (b ∷ bs) = (a == b) && same as' bs

pub same_refl : (a : List ℕ) → same a a ≡ true
same_refl [] = refl
same_refl (a ∷ as') = rw ((==_iff a a).1 refl) (same_refl as')

pub same→≡ : (a b : List ℕ) → same a b ≡ true → a ≡ b
same→≡ [] [] e = refl
same→≡ [] (b ∷ bs) e = absurd (false≢true e)
same→≡ (a ∷ as') [] e = absurd (false≢true e)
same→≡ (a ∷ as') (b ∷ bs) e = elim (Bool-cases (a == b)) [
  | inl t ↦ ap (λ x. x ∷ as') ((==_iff a b).0 t) ∙ ap (◌∷◌ b) (same→≡ as' bs (rw t at e))
  | inr t ↦ absurd (false≢true (rw t at e))
]

pub record Entry {ℓ} (V : Type ℓ) : Type ℓ where
  pub key : List ℕ
  pub value : V

module _ {ℓ} {V : Type ℓ} where
  abbrev pub lookup : List ℕ → List (Entry V) → Option V
  lookup k [] = none
  lookup k (e ∷ m) = if same e.key k then some e.value else lookup k m

  -- `m[k] = v`
  abbrev pub insert : List ℕ → V → List (Entry V) → List (Entry V)
  insert k v [] = record { key = k; value = v } ∷ []
  insert k v (e ∷ m) = if same e.key k then record e { value = v } ∷ m else e ∷ insert k v m

  -- `m.erase(k)`
  abbrev pub remove : List ℕ → List (Entry V) → List (Entry V)
  remove k [] = []
  remove k (e ∷ m) = if same e.key k then remove k m else e ∷ remove k m

  lookup_step :
      (j k : List ℕ) (v w : V) (m : List (Entry V)) (e : Entry V)
      → e.key ≡ k
      → lookup j (record e { value = v } ∷ m)
        ≡ (if same k j then some v else (if same e.key j then some w else lookup j m))
  lookup_step j k v w m e h = elim (Bool-cases (same k j)) [
    | inl t ↦ simp (h, t) refl
    | inr t ↦ simp (h, t) refl
  ]

  pub lookup-insert :
      (j k : List ℕ) (v : V) (m : List (Entry V))
      → lookup j (insert k v m) ≡ (if same k j then some v else lookup j m)
  lookup-insert j k v [] = refl
  lookup-insert j k v (e ∷ m) = elim (Bool-cases (same e.key k)) [
    | inl t ↦ simp t (lookup_step j k v e.value m e (same→≡ e.key k t))
    | inr t ↦ simp t (elim (Bool-cases (same k j)) [
      | inl s ↦ simp s (elim (Bool-cases (same e.key j)) [
        | inl r ↦ absurd (false≢true (sym t ∙ (ap (same e.key) (same→≡ k j s) ∙ r)))
        | inr r ↦ simp r (lookup-insert j k v m ∙ rw s refl)
      ])
      | inr s ↦ simp s (elim (Bool-cases (same e.key j)) [
        | inl r ↦ simp r refl
        | inr r ↦ simp r (lookup-insert j k v m ∙ rw s refl)
      ])
    ])
  ]

  pub lookup-remove :
      (j k : List ℕ) (m : List (Entry V))
      → lookup j (remove k m) ≡ (if same k j then none else lookup j m)
  lookup-remove j k [] = elim (Bool-cases (same k j)) [ inl t ↦ simp t refl | inr t ↦ simp t refl ]
  lookup-remove j k (e ∷ m) = elim (Bool-cases (same e.key k)) [
    | inl t ↦ simp t (elim (Bool-cases (same k j)) [
      | inl s ↦ simp s (lookup-remove j k m ∙ rw s refl)
      | inr s ↦ simp s (elim (Bool-cases (same e.key j)) [
        | inl r ↦ absurd (false≢true (sym s ∙ (ap (λ x. same x j) (sym (same→≡ e.key k t)) ∙ r)))
        | inr r ↦ simp r (lookup-remove j k m ∙ rw s refl)
      ])
    ])
    | inr t ↦ simp t (elim (Bool-cases (same k j)) [
      | inl s ↦ simp s (elim (Bool-cases (same e.key j)) [
        | inl r ↦ absurd (false≢true (sym t ∙ (ap (same e.key) (same→≡ k j s) ∙ r)))
        | inr r ↦ simp r (lookup-remove j k m ∙ rw s refl)
      ])
      | inr s ↦ simp s (elim (Bool-cases (same e.key j)) [
        | inl r ↦ simp r refl
        | inr r ↦ simp r (lookup-remove j k m ∙ rw s refl)
      ])
    ])
  ]

  -- No key has two entries.
  abbrev pub IsUnique : List (Entry V) → Type ℓ
  IsUnique [] = Unit
  IsUnique (e ∷ m) = (lookup e.key m ≡ none) × IsUnique m

  none_if : (b : Bool) (o : Option V) → ◌≡◌ {A = Option V} o none → (if b then none else o) ≡ none
  none_if true o h = refl
  none_if false o h = h

  pub insert-IsUnique :
      (k : List ℕ) (v : V) (m : List (Entry V)) → IsUnique m → IsUnique (insert k v m)
  insert-IsUnique k v [] h = (refl, tt)
  insert-IsUnique k v (e ∷ m) (n, h) = elim (Bool-cases (same e.key k)) [
    | inl t ↦ simp t (n, h)
    | inr t ↦ simp t (lookup-insert e.key k v m ∙ (rw (other t) n), insert-IsUnique k v m h)
  ]
    where
      other : same e.key k ≡ false → same k e.key ≡ false
      other t = elim (Bool-cases (same k e.key)) [
        | inl s ↦
            absurd (false≢true (sym t ∙ (ap (same e.key) (same→≡ k e.key s) ∙ same_refl e.key)))
        | inr s ↦ s
      ]

  pub remove-IsUnique : (k : List ℕ) (m : List (Entry V)) → IsUnique m → IsUnique (remove k m)
  remove-IsUnique k [] h = tt
  remove-IsUnique k (e ∷ m) (n, h) = elim (Bool-cases (same e.key k)) [
    | inl t ↦ simp t (remove-IsUnique k m h)
    | inr t ↦
        simp t (
          lookup-remove e.key k m ∙ none_if (same k e.key) (lookup e.key m) n,
          remove-IsUnique k m h,
        )
  ]

  pub remove_absent : (k : List ℕ) (m : List (Entry V)) → lookup k m ≡ none → remove k m ≡ m
  remove_absent k [] h = refl
  remove_absent k (e ∷ m) h = elim (Bool-cases (same e.key k)) [
    | inl t ↦ absurd (some-ne-none e.value (rw t at h))
    | inr t ↦ simp t (ap (◌∷◌ e) (remove_absent k m (rw t at h)))
  ]
