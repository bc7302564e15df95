-- ===== src/DataStore/Mem/Refines.antt =====
-- data_store/mem_data_store.cc: `MemDataStore` is a map from ids to data.
use mathlib.Core.Bool.{false≢true}
use cdc_file_transfer.Prelude.{
  ℕ, ◌≡◌, ◌⊎◌, inl, inr, refl, sym, ap, ◌∙◌, Bool, true, false, List, [], none, some, take, drop,
  Option-cases, if◌then◌else◌, ◌↔◌,
}
use cdc_file_transfer.Prelude.Status.{
  Result, ok, err, ok-injective, err≢ok, Result-cases, not_found, ◌>>=◌,
}
use cdc_file_transfer.Prelude.Dict.{
  lookup, insert, remove, same, same→≡, lookup-insert, lookup-remove,
}
use cdc_file_transfer.Prelude.Parts.{take-min-drop}
use cdc_file_transfer.DataStore.Right.{IsLawful}
use cdc_file_transfer.DataStore.Mem.{
  MemStore, part_of, get_range, get_all, contains, put, remove_chunk, mem_writer,
}

pub part_of_lem :
    (offset size : ℕ) (bytes : List ℕ) → part_of offset size bytes ≡ take size (drop offset bytes)
unfolding part_of
part_of_lem offset size bytes = take-min-drop offset size bytes

get_all_if :
    (id : List ℕ) (b : Bool) (v : List ℕ) (m : MemStore) (m' : MemStore)
    → lookup id m' ≡ (if b then some v else lookup id m)
    → get_all id m' ≡ (if b then ok v else get_all id m)
unfolding get_all
get_all_if id true v m m' h = rw (get_all, h) refl
get_all_if id false v m m' h = rw (get_all, h) refl

get_all_none :
    (id : List ℕ) (b : Bool) (m m' : MemStore)
    → lookup id m' ≡ (if b then none else lookup id m)
    → get_all id m' ≡ (if b then err not_found else get_all id m)
unfolding get_all
get_all_none id true m m' h = rw (get_all, h) refl
get_all_none id false m m' h = rw (get_all, h) refl

get_range_lem :
    (id : List ℕ) (offset size : ℕ) (m : MemStore)
    → get_range id offset size m ≡ (get_all id m >>= λ b. ok (take size (drop offset b)))
unfolding get_range get_all
get_range_lem id offset size m = elim (Option-cases (lookup id m)) [
  | inl t ↦ rw (get_range, get_all, t) refl
  | inr (b, t) ↦ rw (get_range, get_all, t) (ap ok (part_of_lem offset size b))
]

-- The store is a map: a read after a write finds what was written under that id and what was there
-- under another one, a read after a removal finds nothing under that id and what was there under
-- another one, a read of a part is that part of the chunk, and Contains tells whether a read
-- succeeds.
pub mem_data_store_lem :
    (i j d : List ℕ) (offset size : ℕ) (m : MemStore)
    → (get_all j (put i d m).0 ≡ (if same i j then ok d else get_all j m))
      × (get_all j (remove_chunk i m).0 ≡ (if same i j then err not_found else get_all j m))
      × (get_range j offset size m ≡ (get_all j m >>= λ b. ok (take size (drop offset b))))
      × ((contains j m ≡ true) ↔ ((b : List ℕ) × (get_all j m ≡ ok b)))
unfolding put remove_chunk contains get_all
mem_data_store_lem i j d offset size m = (
  get_all_if j (same i j) d m (insert i d m) (lookup-insert j i d m),
  get_all_none j (same i j) m (remove i m) (lookup-remove j i m),
  get_range_lem j offset size m,
  contains_iff j m,
)
  where
    contains_iff :
        (j : List ℕ) (m : MemStore) → (contains j m ≡ true) ↔ ((b : List ℕ) × (get_all j m ≡ ok b))
    contains_iff j m = elim (Option-cases (lookup j m)) [
      | inl t ↦ rw (contains, get_all, t) ((λ e. absurd (false≢true e)), (λ (b, e). cc))
      | inr (b, t) ↦ rw (contains, get_all, t) ((λ e. (b, refl)), (λ e. refl))
    ]

of_get_all :
    (b : Bool) (d a : List ℕ) (r : Result (List ℕ))
    → (if b then ok d else r) ≡ ok a
    → ((b ≡ true) × (d ≡ a)) ⊎ (r ≡ ok a)
of_get_all true d a r e = inl (refl, ok-injective d a e)
of_get_all false d a r e = inr e

-- The store as a cache.
pub mem_writer-IsLawful : IsLawful mem_writer
mem_writer-IsLawful = record {
  range_lem =
      λ id offset size s b e. part id offset size s b (sym (get_range_lem id offset size s) ∙ e);
  put_lem = λ i j d s b e.
      named i j d s b
        (of_get_all (same i j) d b (get_all j s) (sym (mem_data_store_lem i j d 0 0 s).0 ∙ e));
  remove_lem = λ i j s b e. other (same i j) j s b (sym (mem_data_store_lem i j [] 0 0 s).1 ∙ e);
}
  where
    part :
        (id : List ℕ) (offset size : ℕ) (s : MemStore) (b : List ℕ)
        → (get_all id s >>= λ x. ok (take size (drop offset x))) ≡ ok b
        → (a : List ℕ) × (get_all id s ≡ ok a) × (b ≡ take size (drop offset a))
    part id offset size s b e = elim (Result-cases (get_all id s)) [
      | inl (a, t) ↦ (a, t, sym (ok-injective _ b (rw t at e)))
      | inr (c, t) ↦ absurd (err≢ok (rw t at e))
    ]

    named :
        (i j d : List ℕ) (s : MemStore) (b : List ℕ)
        → ((same i j ≡ true) × (d ≡ b)) ⊎ (get_all j s ≡ ok b)
        → ((i ≡ j) × (d ≡ b)) ⊎ (get_all j s ≡ ok b)
    named i j d s b (inl (t, e)) = inl (same→≡ i j t, e)
    named i j d s b (inr e) = inr e

    other :
        (b : Bool) (j : List ℕ) (s : MemStore) (a : List ℕ)
        → (if b then err not_found else get_all j s) ≡ ok a
        → get_all j s ≡ ok a
    other true j s a e = absurd (err≢ok e)
    other false j s a e = e
