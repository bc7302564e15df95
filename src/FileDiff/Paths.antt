-- ===== src/FileDiff/Paths.antt =====
-- cdc_rsync_server/file_diff_generator.cc: the order of paths that the loops over sorted lists rely on.
use mathlib.Core.Bool.{false≢true}
use cdc_file_transfer.Prelude.{
  ℕ, ◌<◌, ◌≡◌, ◌≢◌, ◌⊎◌, inl, inr, refl, sym, ap, ◌∙◌, true, false, List, [], ◌∷◌, arith, ltb,
}
use cdc_file_transfer.FileDiff.{Sign, less, equal, greater, compare_paths, is_less, is_equal}

less≢equal : less ≢ equal
less≢equal e = false≢true (sym (ap is_less e))

less≢greater : less ≢ greater
less≢greater e = false≢true (sym (ap is_less e))

pub equal≢greater : equal ≢ greater
equal≢greater e = false≢true (sym (ap is_equal e))

pub Sign-cases : (o : Sign) → (o ≡ less) ⊎ ((o ≡ equal) ⊎ (o ≡ greater))
Sign-cases less = inl refl
Sign-cases equal = inr (inl refl)
Sign-cases greater = inr (inr refl)

head_less : (x y : ℕ) (xs ys : List ℕ) → x < y → compare_paths (x ∷ xs) (y ∷ ys) ≡ less
unfolding compare_paths
head_less x y xs ys h = let t : ltb x y ≡ true = ground (arith, h) in rw t refl

head_greater : (x y : ℕ) (xs ys : List ℕ) → y < x → compare_paths (x ∷ xs) (y ∷ ys) ≡ greater
unfolding compare_paths
head_greater x y xs ys h =
    let t : ltb x y ≡ false = ground (arith, h) in
    let u : ltb y x ≡ true = ground (arith, h) in rw t (rw u refl)

head_same :
    (x y : ℕ) (xs ys : List ℕ) → x ≡ y → compare_paths (x ∷ xs) (y ∷ ys) ≡ compare_paths xs ys
unfolding compare_paths
head_same x y xs ys h =
    let t : ltb x y ≡ false = ground (arith, h) in
    let u : ltb y x ≡ false = ground (arith, h) in rw t (rw u refl)

three : (x y : ℕ) → (x < y) ⊎ ((x ≡ y) ⊎ (y < x))
three x y = ground arith

-- A path is less by its first byte or by the bytes behind it.
less-cases :
    (x y : ℕ) (xs ys : List ℕ)
    → compare_paths (x ∷ xs) (y ∷ ys) ≡ less
    → (x < y) ⊎ ((x ≡ y) × (compare_paths xs ys ≡ less))
less-cases x y xs ys e = elim (three x y) [
  | inl h ↦ inl h
  | inr (inl h) ↦ inr (h, sym (head_same x y xs ys h) ∙ e)
  | inr (inr h) ↦ absurd (less≢greater (sym e ∙ head_greater x y xs ys h))
]

pub less_trans :
    (a b c : List ℕ)
    → compare_paths a b ≡ less
    → compare_paths b c ≡ less
    → compare_paths a c ≡ less
unfolding compare_paths
less_trans [] b [] e f = absurd (nothing b f)
  where
    nothing : (b : List ℕ) → compare_paths b [] ≡ less → ⊥
    nothing [] f = less≢equal (sym f)
    nothing (y ∷ b) f = less≢greater (sym f)
less_trans [] b (z ∷ c) e f = refl
less_trans (x ∷ a) [] c e f = absurd (less≢greater (sym e))
less_trans (x ∷ a) (y ∷ b) [] e f = absurd (less≢greater (sym f))
less_trans (x ∷ a) (y ∷ b) (z ∷ c) e f = elim (less-cases x y a b e) [
  | inl h ↦ elim (less-cases y z b c f) [
    | inl k ↦ head_less x z a c (omega (arith, h, k))
    | inr (k, g) ↦ head_less x z a c (omega (arith, h, k))
  ]
  | inr (h, g) ↦ elim (less-cases y z b c f) [
    | inl k ↦ head_less x z a c (omega (arith, h, k))
    | inr (k, g') ↦ head_same x z a c (h ∙ k) ∙ less_trans a b c g g'
  ]
]

pub less-greater : (a b : List ℕ) → compare_paths a b ≡ less → compare_paths b a ≡ greater
unfolding compare_paths
less-greater [] [] e = absurd (less≢equal (sym e))
less-greater [] (y ∷ b) e = refl
less-greater (x ∷ a) [] e = absurd (less≢greater (sym e))
less-greater (x ∷ a) (y ∷ b) e = elim (less-cases x y a b e) [
  | inl h ↦ head_greater y x b a h
  | inr (h, g) ↦ head_same y x b a (sym h) ∙ less-greater a b g
]

pub greater-less : (a b : List ℕ) → compare_paths a b ≡ greater → compare_paths b a ≡ less
unfolding compare_paths
greater-less [] [] e = absurd (equal≢greater e)
greater-less [] (y ∷ b) e = absurd (less≢greater e)
greater-less (x ∷ a) [] e = refl
greater-less (x ∷ a) (y ∷ b) e = elim (three x y) [
  | inl h ↦ absurd (less≢greater (sym (head_less x y a b h) ∙ e))
  | inr (inl h) ↦ head_same y x b a (sym h) ∙ greater-less a b (sym (head_same x y a b h) ∙ e)
  | inr (inr h) ↦ head_less y x b a h
]

pub equal-≡ : (a b : List ℕ) → compare_paths a b ≡ equal → a ≡ b
unfolding compare_paths
equal-≡ [] [] e = refl
equal-≡ [] (y ∷ b) e = absurd (less≢equal e)
equal-≡ (x ∷ a) [] e = absurd (equal≢greater (sym e))
equal-≡ (x ∷ a) (y ∷ b) e = elim (three x y) [
  | inl h ↦ absurd (less≢equal (sym (head_less x y a b h) ∙ e))
  | inr (inl h) ↦ ap2_cons x y a b h (equal-≡ a b (sym (head_same x y a b h) ∙ e))
  | inr (inr h) ↦ absurd (equal≢greater (sym e ∙ head_greater x y a b h))
]
  where
    ap2_cons : (x y : ℕ) (a b : List ℕ) → x ≡ y → a ≡ b → ◌≡◌ {A = List ℕ} (x ∷ a) (y ∷ b)
    ap2_cons x y a b h k = ap (λ z. z ∷ a) h ∙ ap (λ l. y ∷ l) k

pub equal_refl : (a : List ℕ) → compare_paths a a ≡ equal
unfolding compare_paths
equal_refl [] = refl
equal_refl (x ∷ a) = head_same x x a a refl ∙ equal_refl a

pub is_equal_less : (o : Sign) → o ≡ less → is_equal o ≡ false
is_equal_less o e = ap is_equal e

pub is_equal_greater : (o : Sign) → o ≡ greater → is_equal o ≡ false
is_equal_greater o e = ap is_equal e
