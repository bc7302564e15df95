-- ===== src/DataStore/Mem/Serve.antt =====
-- data_store/mem_data_store.cc: `MemDataStore` as a reader of lists of tasks.
use cdc_file_transfer.Prelude.{
  ℕ, ◌-◌, ◌≤◌, ◌≡◌, inl, inr, refl, ap, subst, ◌∙◌, min, Bool, false, List, [], ◌∷◌, Option, none,
  some, length, take, drop, leb, ltb, arith, ==_iff, ◌==◌, Bool-cases, Option-cases, All,
  length-take, length-drop, if◌then◌else◌,
}
use cdc_file_transfer.Prelude.Status.{ok, ok-injective, err≢ok}
use cdc_file_transfer.Prelude.Dict.{lookup}
use cdc_file_transfer.Prelude.Parts.{take-min}
use cdc_file_transfer.DataStore.{ChunkTask, Reader}
use cdc_file_transfer.DataStore.Right.{Holds, IsRight, IsRightList, request, IsReader, cons_tasks}
use cdc_file_transfer.DataStore.Mem.{MemStore, get_all, serve, serve_found, get_list, mem_writer}

not_short : (m n : ℕ) → ltb (min m n) n ≡ false → n ≤ m
not_short m n e = ground (arith, e)

module _ (content : List ℕ → Option (List ℕ)) where
  serve-IsRight :
      (bytes : List ℕ) (t t' : ChunkTask)
      → content t.id ≡ some bytes
      → serve bytes t ≡ ok t'
      → IsRight content t' × (request t' ≡ request t)
  unfolding serve
  serve-IsRight bytes t t' c e = elim (Bool-cases (t.size == 0)) [
    | inl z ↦
        subst (λ y. IsRight content y × (request y ≡ request t))
          (ok-injective _ t' (rw (serve, z) at e))
          (((λ d n. absurd (n ((==_iff t.size 0).0 z))), inr c), refl)
    | inr z ↦ elim (Bool-cases (leb (length bytes) t.offset)) [
      | inl o ↦ absurd (err≢ok (rw (serve, z, o) at e))
      | inr o ↦ elim (Bool-cases (ltb (min (length bytes - t.offset) t.size) t.size)) [
        | inl l ↦ absurd (err≢ok (rw (serve, z, o, l) at e))
        | inr l ↦
            subst (λ y. IsRight content y × (request y ≡ request t))
              (ok-injective _ t' (rw (serve, z, o, l) at e))
              (((λ d n. (bytes, c, part, full (not_short _ _ l))), inr c), refl)
      ]
    ]
  ]
    where
      part :
          take (min (length bytes - t.offset) t.size) (drop t.offset bytes)
          ≡ take t.size (drop t.offset bytes)
      part =
          take-min t.size (length bytes - t.offset) (drop t.offset bytes)
            (length-drop t.offset bytes)

      full :
          t.size ≤ length bytes - t.offset
          → length (take (min (length bytes - t.offset) t.size) (drop t.offset bytes)) ≡ t.size
      full h = omega (
        arith,
        h,
        ap length part,
        length-take t.size (drop t.offset bytes),
        length-drop t.offset bytes,
      )

  found-IsRight :
      (m : MemStore) (t t' : ChunkTask) (o : Option (List ℕ))
      → lookup t.id m ≡ o
      → Holds content mem_writer m
      → serve_found o t ≡ ok t'
      → IsRight content t
      → IsRight content t' × (request t' ≡ request t)
  unfolding serve_found get_all
  found-IsRight m t t' none l h e r =
      subst (λ y. IsRight content y × (request y ≡ request t)) (ok-injective t t' e) (r, refl)
  found-IsRight m t t' (some bytes) l h e r =
      serve-IsRight bytes t t' (h t.id bytes (rw (get_all, l) refl)) e

  -- The list read of a store with right data.
  pub get_list-IsRightList :
      (m : MemStore) (tasks tasks' : List ChunkTask)
      → Holds content mem_writer m
      → get_list m tasks ≡ ok tasks'
      → All (IsRight content) tasks
      → IsRightList content tasks tasks'
  unfolding get_list
  get_list-IsRightList m [] tasks' h e a =
      subst (IsRightList content []) (ok-injective [] tasks' e) (tt, refl)
  get_list-IsRightList m (t ∷ tasks) tasks' h e (r, a) =
      cons_tasks content _ _ t tasks tasks' first (λ ts f. get_list-IsRightList m tasks ts h f a) e
    where
      first :
          (t' : ChunkTask)
          → (if t.done then ok t else serve_found (lookup t.id m) t) ≡ ok t'
          → IsRight content t' × (request t' ≡ request t)
      first t' f = elim (Bool-cases t.done) [
        | inl d ↦
            subst (λ y. IsRight content y × (request y ≡ request t))
              (ok-injective t t' (
                subst (λ (b : Bool). (if b then ok t else serve_found (lookup t.id m) t) ≡ ok t') d
                  f))
              (r, refl)
        | inr d ↦
            found-IsRight m t t' (lookup t.id m) refl h
              (subst (λ (b : Bool). (if b then ok t else serve_found (lookup t.id m) t) ≡ ok t') d
                f)
              r
      ]

  -- The store as a reader of the provider.
  pub mem_reader : MemStore → Reader
  mem_reader m = record { get = λ id. get_all id m; get_list = get_list m }

  pub mem_reader-IsReader :
      (m : MemStore) → Holds content mem_writer m → IsReader content (mem_reader m)
  unfolding mem_reader
  mem_reader-IsReader m h = record {
    get_right = λ id b e. h id b e;
    get_list_right = λ tasks tasks' e a. get_list-IsRightList m tasks tasks' h e a;
  }

-- A store's own data are right for it.
pub mem-Holds : (m : MemStore) → Holds (λ id. lookup id m) mem_writer m
unfolding get_all
mem-Holds m id b e = elim (Option-cases (lookup id m)) [
  | inl t ↦ absurd (err≢ok (rw (get_all, t) at e))
  | inr (a, t) ↦ t ∙ ap some (ok-injective a b (rw (get_all, t) at e))
]
