-- ===== src/DataProvider/Reads.antt =====
-- data_store/data_provider.cc: what the reads of single chunks return.
use mathlib.Core.Bool.{false≢true}
use mathlib.Core.Option.{some-injective, some-ne-none}
use cdc_file_transfer.Prelude.{
  ℕ, ◌≡◌, ◌⊎◌, inl, inr, refl, sym, ap, subst, ◌∙◌, true, false, List, [], ◌∷◌, Option, none, some,
  take, drop, Bool-cases, All,
}
use cdc_file_transfer.Prelude.Status.{Code, Result, ok, err, not_found, Result-cases}
use cdc_file_transfer.Prelude.Parts.{take-min-drop}
use cdc_file_transfer.DataStore.{Reader, Writer, is_not_found}
use cdc_file_transfer.DataStore.Right.{IsLawful, Holds, IsReader}
use cdc_file_transfer.DataProvider.{
  Cache, copy_part, cache_chunk, from_readers, read_again, from_cache, get_chunk, copy_result,
  get_part,
}

-- No reader has the chunk.
abbrev pub NoneHas : List ℕ → List Reader → Type 0
NoneHas id readers =
    All (λ (r : Reader). (code : Code) × (r.get id ≡ err code) × (is_not_found code ≡ true)) readers

module _ (content : List ℕ → Option (List ℕ)) where
  -- A read of the chunk returns a view of its right data, or an error, and `NotFound` only where no
  -- reader has it.
  abbrev pub IsAnswer : List ℕ → List Reader → (List ℕ → List ℕ) → Result (List ℕ) → Type 0
  IsAnswer id readers view r =
      ((b : List ℕ) × (content id ≡ some b) × (r ≡ ok (view b)))
      ⊎ ((code : Code) × (r ≡ err code) × (is_not_found code ≡ true → NoneHas id readers))

  module _ {S : Type 0} (w : Writer S) (law : IsLawful w) where
    -- All data of the cache are right.
    abbrev pub CacheHolds : Option (Cache S) → Type 0
    CacheHolds none = Unit
    CacheHolds (some c) = Holds content w c.store

    pub put-Holds :
        (id b : List ℕ) (s : S)
        → content id ≡ some b
        → Holds content w s
        → Holds content w (w.put id b s).0
    put-Holds id b s e h j d f = elim (law.put_lem id j b s d f) [
      | inl (p, q) ↦ subst (λ x. content x ≡ some d) p (e ∙ ap some q)
      | inr g ↦ h j d g
    ]

    pub cache_chunk-CacheHolds :
        (id b : List ℕ) (c : Option (Cache S))
        → content id ≡ some b
        → CacheHolds c
        → CacheHolds (cache_chunk w id b c)
    unfolding cache_chunk
    cache_chunk-CacheHolds id b none e h = tt
    cache_chunk-CacheHolds id b (some c) e h = put-Holds id b c.store e h

    from_readers_ok :
        (id b : List ℕ) (r : Reader) (readers : List Reader) (c : Option (Cache S))
        → r.get id ≡ ok b
        → from_readers w id (r ∷ readers) c ≡ (ok b, cache_chunk w id b c)
    unfolding from_readers
    from_readers_ok id b r readers c e = rw (from_readers, e) refl

    from_readers_next :
        (id : List ℕ) (code : Code) (r : Reader) (readers : List Reader) (c : Option (Cache S))
        → r.get id ≡ err code
        → is_not_found code ≡ true
        → from_readers w id (r ∷ readers) c ≡ from_readers w id readers c
    unfolding from_readers
    from_readers_next id code r readers c e f = rw (from_readers, e, f) refl

    from_readers_err :
        (id : List ℕ) (code : Code) (r : Reader) (readers : List Reader) (c : Option (Cache S))
        → r.get id ≡ err code
        → is_not_found code ≡ false
        → from_readers w id (r ∷ readers) c ≡ (err code, c)
    unfolding from_readers
    from_readers_err id code r readers c e f = rw (from_readers, e, f) refl

    -- A pair of an answer and a cache that holds right data.
    abbrev IsServed :
        List ℕ → List Reader → (List ℕ → List ℕ) → Result (List ℕ) × Option (Cache S) → Type 0
    IsServed id readers view (r, c) = IsAnswer id readers view r × CacheHolds c

    from_readers_lem :
        (id : List ℕ) (readers : List Reader) (c : Option (Cache S))
        → All (IsReader content) readers
        → CacheHolds c
        → IsServed id readers (λ b. b) (from_readers w id readers c)
    unfolding from_readers
    from_readers_lem id [] c a h = (inr (not_found, refl, (λ e. tt)), h)
    from_readers_lem id (r ∷ readers) c (p, a) h = elim (Result-cases (r.get id)) [
      | inl (b, e) ↦
          subst (IsServed id (r ∷ readers) (λ x. x)) (sym (from_readers_ok id b r readers c e)) (
            inl (b, p.get_right id b e, refl),
            cache_chunk-CacheHolds id b c (p.get_right id b e) h,
          )
      | inr (code, e) ↦ elim (Bool-cases (is_not_found code)) [
        | inl f ↦
            subst (IsServed id (r ∷ readers) (λ x. x))
              (sym (from_readers_next id code r readers c e f))
              (next_reader id code r readers (from_readers w id readers c) e f
                (from_readers_lem id readers c a h))
        | inr f ↦
            subst (IsServed id (r ∷ readers) (λ x. x))
              (sym (from_readers_err id code r readers c e f))
              (inr (code, refl, (λ t. absurd (false≢true (sym f ∙ t)))), h)
      ]
    ]
      where
        next_reader :
            (id : List ℕ) (code : Code) (r : Reader) (readers : List Reader)
            (x : Result (List ℕ) × Option (Cache S))
            → r.get id ≡ err code
            → is_not_found code ≡ true
            → IsServed id readers (λ b. b) x
            → IsServed id (r ∷ readers) (λ b. b) x
        next_reader id code r readers x e f (inl y, h) = (inl y, h)
        next_reader id code r readers x e f (inr (code', g, k), h) =
            (inr (code', g, (λ t. ((code, e, f), k t))), h)

    -- A hit of the cache is right.
    abbrev IsHit : (List ℕ → List ℕ) → List ℕ → Option (List ℕ) × Cache S → Type 0
    IsHit view id (hit, c) =
        ((hit ≡ none) ⊎ ((b : List ℕ) × (content id ≡ some b) × (hit ≡ some (view b))))
        × Holds content w c.store

    from_cache_lem :
        (other : S → S) (read : S → Result (List ℕ)) (view : List ℕ → List ℕ) (id : List ℕ)
        (c : Cache S)
        → ((s : S) → Holds content w s → Holds content w (other s))
        → ((s : S) (x : List ℕ)
            → read s ≡ ok x
            → (b : List ℕ) × (w.get_all id s ≡ ok b) × (x ≡ view b))
        → Holds content w c.store
        → IsHit view id (from_cache w other read c)
    unfolding from_cache read_again
    from_cache_lem other read view id c o v h = elim (Result-cases (read c.store)) [
      | inl (x, e) ↦
          let (b, f, g) = v c.store x e in rw (from_cache, e) (inr (b, h id b f, ap some g), h)
      | inr (code, e) ↦ elim (Bool-cases (is_not_found code)) [
        | inl t ↦ elim (Result-cases (read (other c.store))) [
          | inl (x, e') ↦
              let (b, f, g) = v (other c.store) x e' in
              simp (from_cache, read_again, e, t, e')
                (inr (b, o c.store h id b f, ap some g), o c.store h)
          | inr (code', e') ↦ simp (from_cache, read_again, e, t, e') (inl refl, o c.store h)
        ]
        | inr t ↦ simp (from_cache, read_again, e, t) (inl refl, o c.store h)
      ]
    ]

    -- Other threads keep the cache right.
    abbrev pub Keeps : (S → S) → Type 0
    Keeps other = (s : S) → Holds content w s → Holds content w (other s)

    -- A hit, or what the readers give.
    choose :
        (view : List ℕ → List ℕ) (id : List ℕ) (readers : List Reader) (hit : Option (List ℕ))
        (c : Cache S) (miss : Result (List ℕ) × Option (Cache S))
        → IsHit view id (hit, c)
        → IsServed id readers view miss
        → IsServed id readers view (elim hit [ none ↦ miss | some bytes ↦ (ok bytes, some c) ])
    choose view id readers none c miss h m = m
    choose view id readers (some x) c miss (inl e, h) m = absurd (some-ne-none x e)
    choose view id readers (some x) c miss (inr (b, f, g), h) m =
        (inl (b, f, ap ok (some-injective x (view b) g)), h)

    -- The readers' answer, cut to the part.
    copy_result-IsServed :
        (id : List ℕ) (readers : List Reader) (offset size : ℕ)
        (x : Result (List ℕ) × Option (Cache S))
        → IsServed id readers (λ b. b) x
        → IsServed id readers (λ b. take size (drop offset b)) (copy_result w offset size x.0, x.1)
    unfolding copy_result copy_part
    copy_result-IsServed id readers offset size (r, c) (inl (b, e, f), h) =
        (inl (b, e, ap (copy_result w offset size) f ∙ ap ok (take-min-drop offset size b)), h)
    copy_result-IsServed id readers offset size (r, c) (inr (code, f, k), h) =
        (inr (code, ap (copy_result w offset size) f, k), h)

    pub get_chunk_lem :
        (other : S → S) (readers : List Reader) (id : List ℕ) (c : Option (Cache S))
        → Keeps other
        → All (IsReader content) readers
        → CacheHolds c
        → let (r, c') = get_chunk w other readers id c in
          IsAnswer id readers (λ b. b) r × CacheHolds c'
    unfolding get_chunk
    get_chunk_lem other readers id none o a h = from_readers_lem id readers none a h
    get_chunk_lem other readers id (some c) o a h =
        let hit = from_cache_lem other (w.get_all id) (λ b. b) id c o (λ s x e. (x, e, refl)) h in
        choose (λ b. b) id readers _ _ _ hit (from_readers_lem id readers (some _) a hit.1)

    -- For a cache that keeps the writer's laws and holds right data, other threads that keep it so
    -- and readers that return right data, Get for a part of a chunk returns that part of the data
    -- that the id names, or an error, and NotFound only if every reader has answered so; the cache
    -- still holds right data.
    pub get_part_lem :
        (other : S → S) (readers : List Reader) (id : List ℕ) (offset size : ℕ)
        (c : Option (Cache S))
        → Keeps other
        → All (IsReader content) readers
        → CacheHolds c
        → let (r, c') = get_part w other readers id offset size c in
          IsAnswer id readers (λ b. take size (drop offset b)) r × CacheHolds c'
    unfolding get_part
    get_part_lem other readers id offset size none o a h =
        copy_result-IsServed id readers offset size _ (from_readers_lem id readers none a h)
    get_part_lem other readers id offset size (some c) o a h =
        let hit =
          from_cache_lem other (w.get_range id offset size) (λ b. take size (drop offset b)) id c o
            (law.range_lem id offset size) h in
        choose (λ b. take size (drop offset b)) id readers _ _ _ hit
          (copy_result-IsServed id readers offset size _
            (from_readers_lem id readers (some _) a hit.1))
