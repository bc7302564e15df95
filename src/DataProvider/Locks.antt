-- ===== src/DataProvider/Locks.antt =====
-- data_store/data_provider.cc: the order in which `WriteLockAll` takes its locks.
use mathlib.Core.Bool.{false≢true}
use cdc_file_transfer.Prelude.{
  ℕ, ◌≤◌, ◌<◌, ◌≡◌, inl, inr, refl, sym, subst, true, false, List, [], ◌∷◌, ◌++◌, ltb, ltb→lt,
  arith, ◌==◌, ==_iff, Bool-cases, All,
}
use cdc_file_transfer.ContentId.{get_byte}
use cdc_file_transfer.DataProvider.{
  content_mutex, id_less, insert_id, sort_ids, is_locked, lock_each, write_lock_all,
}

-- The mutexes rise: no thread waits for a mutex below one that it holds.
abbrev pub IsRising : List ℕ → Type 0
IsRising [] = Unit
IsRising (n ∷ ns) = All (λ m. n < m) ns × IsRising ns

-- The ids' mutexes do not fall.
abbrev MutexSorted : List (List ℕ) → Type 0
MutexSorted [] = Unit
MutexSorted (id ∷ ids) = All (λ k. content_mutex id ≤ content_mutex k) ids × MutexSorted ids

-- The order of strings is the order of their first bytes.
id_less-mutex : (a b : List ℕ) → id_less a b ≡ true → content_mutex a ≤ content_mutex b
unfolding id_less content_mutex get_byte
id_less-mutex [] [] e = absurd (false≢true e)
id_less-mutex [] (b ∷ bs) e = omega arith
id_less-mutex (a ∷ as') [] e = absurd (false≢true e)
id_less-mutex (a ∷ as') (b ∷ bs) e = elim (Bool-cases (ltb a b)) [
  | inl t ↦ omega (arith, ltb→lt a b t)
  | inr t ↦ elim (Bool-cases (ltb b a)) [
    | inl s ↦ absurd (false≢true (simp (id_less, t, s) at e))
    | inr s ↦ ground (arith, s, t)
  ]
]

id_less-not_mutex : (a b : List ℕ) → id_less a b ≡ false → content_mutex b ≤ content_mutex a
unfolding id_less content_mutex get_byte
id_less-not_mutex [] [] e = omega arith
id_less-not_mutex [] (b ∷ bs) e = absurd (false≢true (sym e))
id_less-not_mutex (a ∷ as') [] e = omega arith
id_less-not_mutex (a ∷ as') (b ∷ bs) e = elim (Bool-cases (ltb a b)) [
  | inl t ↦ absurd (false≢true (sym (simp (id_less, t) at e)))
  | inr t ↦ ground (arith, t)
]

All-le :
    (n m : ℕ) (ids : List (List ℕ))
    → n ≤ m
    → All (λ k. m ≤ content_mutex k) ids
    → All (λ k. n ≤ content_mutex k) ids
All-le n m [] l h = tt
All-le n m (k ∷ ids) l (a, h) = (omega arith, All-le n m ids l h)

insert_id-All :
    (n : ℕ) (id : List ℕ) (ids : List (List ℕ))
    → n ≤ content_mutex id
    → All (λ k. n ≤ content_mutex k) ids
    → All (λ k. n ≤ content_mutex k) (insert_id id ids)
unfolding insert_id
insert_id-All n id [] l h = (l, tt)
insert_id-All n id (k ∷ ids) l (a, h) = elim (Bool-cases (id_less k id)) [
  | inl t ↦ rw t (a, insert_id-All n id ids l h)
  | inr t ↦ rw t (l, (a, h))
]

insert_id-MutexSorted :
    (id : List ℕ) (ids : List (List ℕ)) → MutexSorted ids → MutexSorted (insert_id id ids)
unfolding insert_id
insert_id-MutexSorted id [] h = (tt, tt)
insert_id-MutexSorted id (k ∷ ids) (a, h) = elim (Bool-cases (id_less k id)) [
  | inl t ↦ rw t (
    insert_id-All (content_mutex k) id ids (id_less-mutex k id t) a,
    insert_id-MutexSorted id ids h,
  )
  | inr t ↦ rw t (
    (
      id_less-not_mutex k id t,
      All-le (content_mutex id) (content_mutex k) ids (id_less-not_mutex k id t) a,
    ),
    (a, h),
  )
]

sort_ids-MutexSorted : (ids : List (List ℕ)) → MutexSorted (sort_ids ids)
unfolding sort_ids
sort_ids-MutexSorted [] = tt
sort_ids-MutexSorted (id ∷ ids) = insert_id-MutexSorted id (sort_ids ids) (sort_ids-MutexSorted ids)

All-snoc {κ} :
    {A : Type 0} (P : A → Type κ) (xs : List A) (x : A) → All P xs → P x → All P (xs ++ x ∷ [])
All-snoc P [] x h p = (p, tt)
All-snoc P (y ∷ xs) x (q, h) p = (q, All-snoc P xs x h p)

-- A greater mutex goes to the end.
snoc-IsRising :
    (locked : List ℕ) (n : ℕ)
    → IsRising locked
    → All (λ m. m ≤ n) locked
    → is_locked n locked ≡ false
    → IsRising (locked ++ n ∷ [])
unfolding is_locked
snoc-IsRising [] n h a e = (tt, tt)
snoc-IsRising (m ∷ locked) n (l, h) (b, a) e = elim (Bool-cases (m == n)) [
  | inl t ↦ absurd (false≢true (sym (simp (is_locked, t) at e)))
  | inr t ↦ (
    All-snoc (λ k. m < k) locked n l (ground (arith, b, t)),
    snoc-IsRising locked n h a (simp (is_locked, t) at e),
  )
]

All-weaken : (n m : ℕ) (locked : List ℕ) → n ≤ m → All (λ k. k ≤ n) locked → All (λ k. k ≤ m) locked
All-weaken n m [] l h = tt
All-weaken n m (k ∷ locked) l (a, h) = (omega arith, All-weaken n m locked l h)

lock_each-IsRising :
    (ids : List (List ℕ)) (n : ℕ) (locked : List ℕ)
    → MutexSorted ids
    → All (λ k. n ≤ content_mutex k) ids
    → IsRising locked
    → All (λ m. m ≤ n) locked
    → IsRising (lock_each ids locked)
unfolding lock_each
lock_each-IsRising [] n locked s a h b = h
lock_each-IsRising (id ∷ ids) n locked (l, s) (c, a) h b =
    elim (Bool-cases (is_locked (content_mutex id) locked)) [
      | inl t ↦ rw t (
          lock_each-IsRising ids (content_mutex id) locked s l h
            (All-weaken n (content_mutex id) locked c b))
      | inr t ↦ rw t (
          lock_each-IsRising ids (content_mutex id) (locked ++ content_mutex id ∷ []) s l
            (snoc-IsRising locked (content_mutex id) h (All-weaken n (content_mutex id) locked c b)
              t)
            (All-snoc (λ m. m ≤ content_mutex id) locked (content_mutex id)
              (All-weaken n (content_mutex id) locked c b) (omega arith)))
    ]

zero_below : (ids : List (List ℕ)) → All (λ k. 0 ≤ content_mutex k) ids
zero_below [] = tt
zero_below (id ∷ ids) = (omega arith, zero_below ids)

-- Locked mutexes stay locked.
is_locked-snoc :
    (n m : ℕ) (locked : List ℕ) → is_locked n locked ≡ true → is_locked n (locked ++ m ∷ []) ≡ true
unfolding is_locked
is_locked-snoc n m [] e = absurd (false≢true e)
is_locked-snoc n m (k ∷ locked) e = elim (Bool-cases (k == n)) [
  | inl t ↦ simp (is_locked, t) refl
  | inr t ↦ simp (is_locked, t) (is_locked-snoc n m locked (simp (is_locked, t) at e))
]

is_locked_new : (n : ℕ) (locked : List ℕ) → is_locked n (locked ++ n ∷ []) ≡ true
unfolding is_locked
is_locked_new n [] = simp (is_locked, (==_iff n n).1 refl) refl
is_locked_new n (k ∷ locked) = elim (Bool-cases (k == n)) [
  | inl t ↦ simp (is_locked, t) refl
  | inr t ↦ simp (is_locked, t) (is_locked_new n locked)
]

lock_each-keeps :
    (n : ℕ) (ids : List (List ℕ)) (locked : List ℕ)
    → is_locked n locked ≡ true
    → is_locked n (lock_each ids locked) ≡ true
unfolding lock_each
lock_each-keeps n [] locked e = e
lock_each-keeps n (id ∷ ids) locked e = elim (Bool-cases (is_locked (content_mutex id) locked)) [
  | inl t ↦ rw t (lock_each-keeps n ids locked e)
  | inr t ↦ rw t (lock_each-keeps n ids _ (is_locked-snoc n (content_mutex id) locked e))
]

lock_each_step :
    (id : List ℕ) (ids : List (List ℕ)) (locked : List ℕ)
    → (locked' : List ℕ) × (lock_each (id ∷ ids) locked ≡ lock_each ids locked')
      × (is_locked (content_mutex id) locked' ≡ true)
unfolding lock_each
lock_each_step id ids locked = elim (Bool-cases (is_locked (content_mutex id) locked)) [
  | inl t ↦ (locked, rw t refl, t)
  | inr t ↦ (locked ++ content_mutex id ∷ [], rw t refl, is_locked_new (content_mutex id) locked)
]

lock_each-All :
    (ids : List (List ℕ)) (locked : List ℕ)
    → All (λ id. is_locked (content_mutex id) (lock_each ids locked) ≡ true) ids
lock_each-All [] locked = tt
lock_each-All (id ∷ ids) locked =
    let (locked', e, t) = lock_each_step id ids locked in
    subst (λ x. All (λ k. is_locked (content_mutex k) x ≡ true) (id ∷ ids)) (sym e)
      (lock_each-keeps (content_mutex id) ids locked' t, lock_each-All ids locked')

-- Sorting loses no id.
insert_id-inverse {κ} :
    (P : List ℕ → Type κ) (id : List ℕ) (ids : List (List ℕ))
    → All P (insert_id id ids)
    → P id × All P ids
unfolding insert_id
insert_id-inverse P id [] h = h
insert_id-inverse P id (k ∷ ids) h = elim (Bool-cases (id_less k id)) [
  | inl t ↦ after k ids (rw t at h) (λ b. insert_id-inverse P id ids b)
  | inr t ↦ rw t at h
]
  where
    after :
        (k : List ℕ) (ids : List (List ℕ))
        → All P (k ∷ insert_id id ids)
        → (All P (insert_id id ids) → P id × All P ids)
        → P id × All P (k ∷ ids)
    after k ids (a, b) f = let (c, d) = f b in (c, (a, d))

sort_ids-inverse {κ} :
    (P : List ℕ → Type κ) (ids : List (List ℕ)) → All P (sort_ids ids) → All P ids
unfolding sort_ids
sort_ids-inverse P [] h = tt
sort_ids-inverse P (id ∷ ids) h =
    let (a, b) = insert_id-inverse P id (sort_ids ids) h in (a, sort_ids-inverse P ids b)

-- WriteLockAll takes mutexes of rising index, none twice, so that no thread waits for a mutex below
-- one that it holds, and it takes the mutex of every chunk.
pub write_lock_all_lem :
    (chunk_ids : List (List ℕ))
    → IsRising (write_lock_all chunk_ids)
      × All (λ id. is_locked (content_mutex id) (write_lock_all chunk_ids) ≡ true) chunk_ids
unfolding write_lock_all
write_lock_all_lem chunk_ids = (
  lock_each-IsRising (sort_ids chunk_ids) 0 [] (sort_ids-MutexSorted chunk_ids)
      (zero_below (sort_ids chunk_ids)) tt tt,
  sort_ids-inverse (λ id. is_locked (content_mutex id) (write_lock_all chunk_ids) ≡ true) chunk_ids
      (lock_each-All (sort_ids chunk_ids) []),
)
