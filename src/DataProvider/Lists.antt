-- ===== src/DataProvider/Lists.antt =====
-- data_store/data_provider.cc: what the read of a list of tasks returns.
use mathlib.Core.List.{map-append}
use cdc_file_transfer.Prelude.{
  ℕ, suc, ◌+◌, ◌≡◌, ◌⊎◌, inl, inr, refl, sym, ap, subst, ◌∙◌, Bool, true, false, not, ◌&&◌, ◌||◌,
  List, [], ◌∷◌, ◌++◌, map, append_assoc, append-nil, Option, none, some, length, ◌==◌, ==_iff,
  Bool-cases, All, if◌then◌else◌,
}
use cdc_file_transfer.Prelude.Status.{Code, Result, ok, err, Result-cases}
use cdc_file_transfer.DataStore.{ChunkTask, read_done, prefetch_done, Reader, Writer}
use cdc_file_transfer.DataStore.Right.{IsLawful, Holds, IsRight, IsRightList, request, IsReader}
use cdc_file_transfer.DataProvider.{
  Cache, cache_chunk, fill_task, fill_tasks, get_from_writer, ask_readers, is_empty, cache_tasks,
  meanwhile, after_readers, get_tasks,
}
use cdc_file_transfer.DataProvider.Reads.{CacheHolds, Keeps, cache_chunk-CacheHolds}

module _ (content : List ℕ → Option (List ℕ)) {S : Type 0} (w : Writer S) (law : IsLawful w) where
  -- One task and the store behind it.
  abbrev Fills : ChunkTask → ChunkTask × S → Type 0
  Fills t (t', s') = (IsRight content t' × (request t' ≡ request t)) × Holds content w s'

  remove-Holds : (id : List ℕ) (s : S) → Holds content w s → Holds content w (w.remove id s).0
  remove-Holds id s h j b e = h j b (law.remove_lem id j s b e)

  fill_task-Fills :
      (lock : Bool) (t : ChunkTask) (s : S)
      → IsRight content t
      → Holds content w s
      → Fills t (fill_task w lock t s)
  unfolding fill_task
  fill_task-Fills lock t s (r, k) h = elim (Bool-cases (t.size == 0)) [
    | inl z ↦ simp (fill_task, z) ((((λ d n. absurd (n ((==_iff t.size 0).0 z))), k), refl), h)
    | inr z ↦ elim (Result-cases (w.get_range t.id t.offset t.size s)) [
      | inr (c, e) ↦ simp (fill_task, z, e) (((r, k), refl), h)
      | inl (x, e) ↦ elim (Bool-cases (length x == t.size)) [
        | inl l ↦
            let (b, f, g) = law.range_lem t.id t.offset t.size s x e in
            simp (fill_task, z, e, l)
              ((((λ d n. (b, h t.id b f, g, (==_iff (length x) t.size).0 l)), k), refl), h)
        | inr l ↦ elim (Bool-cases lock) [
          | inl y ↦ simp (fill_task, z, e, l, y) (((r, k), refl), h)
          | inr y ↦ simp (fill_task, z, e, l, y) (((r, k), refl), remove-Holds t.id s h)
        ]
      ]
    ]
  ]

  next-Fills :
      (lock : Bool) (t : ChunkTask) (s : S)
      → IsRight content t
      → Holds content w s
      → Fills t (if t.done then (t, s) else fill_task w lock t s)
  next-Fills lock t s r h = elim (Bool-cases t.done) [
    | inl d ↦
        subst (λ (b : Bool). Fills t (if b then (t, s) else fill_task w lock t s)) (sym d)
          ((r, refl), h)
    | inr d ↦
        subst (λ (b : Bool). Fills t (if b then (t, s) else fill_task w lock t s)) (sym d)
          (fill_task-Fills lock t s r h)
  ]

  All-append {κ} :
      (P : ChunkTask → Type κ) (xs ys : List ChunkTask) → All P xs → All P ys → All P (xs ++ ys)
  All-append P [] ys a b = b
  All-append P (x ∷ xs) ys (p, a) b = (p, All-append P xs ys a b)

  -- All tasks and the store behind them.
  abbrev FillsAll : List ChunkTask → List ChunkTask × S → Type 0
  FillsAll tasks (tasks', s') = IsRightList content tasks tasks' × Holds content w s'

  fill_tasks-FillsAll :
      (other : ℕ → S → S) (lock : Bool) (n : ℕ) (before tasks : List ChunkTask) (s : S)
      → ((n : ℕ) → Keeps content w law (other n))
      → All (IsRight content) before
      → All (IsRight content) tasks
      → Holds content w s
      → FillsAll (before ++ tasks) (fill_tasks w other lock n before tasks s)
  unfolding fill_tasks
  fill_tasks-FillsAll other lock n before [] s o a b h =
      ((a, ap (map request) (sym (append-nil before))), h)
  fill_tasks-FillsAll other lock n before (t ∷ tasks) s o a (r, b) h =
      next_task (if t.done then (t, other n s) else fill_task w lock t (other n s))
        (next-Fills lock t (other n s) r (o n s h))
        (λ t' s' f h'.
          fill_tasks-FillsAll other lock (suc n) (before ++ t' ∷ []) tasks s' o
            (All-append (IsRight content) before (t' ∷ []) a (f, tt)) b h')
    where
      same_requests :
          (t' : ChunkTask)
          → request t' ≡ request t
          → map request (before ++ t' ∷ tasks) ≡ map request (before ++ t ∷ tasks)
      same_requests t' e =
          map-append request before (t' ∷ tasks)
          ∙ ap (λ x. map request before ++ x ∷ map request tasks) e
          ∙ sym (map-append request before (t ∷ tasks))

      next_task :
          (x : ChunkTask × S)
          → Fills t x
          → ((t' : ChunkTask) (s' : S)
              → IsRight content t'
              → Holds content w s'
              → FillsAll
                  ((before ++ t' ∷ []) ++ tasks)
                  (fill_tasks w other lock (suc n) (before ++ t' ∷ []) tasks s'))
          → FillsAll (before ++ t ∷ tasks) (
              if not t.done && x.0.done && not (t.size == 0) && read_done (before ++ x.0 ∷ tasks)
              then (before ++ x.0 ∷ tasks, x.1)
              else fill_tasks w other lock (suc n) (before ++ x.0 ∷ []) tasks x.1)
      next_task (t', s') ((f, e), h') k =
          elim (Bool-cases
            (not t.done && t'.done && not (t.size == 0) && read_done (before ++ t' ∷ tasks))) [
              | inl y ↦ rw y (
                (All-append (IsRight content) before (t' ∷ tasks) a (f, b), same_requests t' e),
                h',
              )
              | inr y ↦ rw y (
                  let ((p, q), u) = k t' s' f h' in
                  (
                    (
                      p,
                      q
                          ∙ (ap (map request) (append_assoc before (t' ∷ []) tasks)
                              ∙ same_requests t' e),
                    ),
                    u,
                  ))
            ]

  -- Tasks and a cache.
  abbrev pub IsFilled : List ChunkTask → List ChunkTask × Option (Cache S) → Type 0
  IsFilled tasks (tasks', c) = IsRightList content tasks tasks' × CacheHolds content w law c

  get_from_writer-IsFilled :
      (other : ℕ → S → S) (lock : Bool) (n : ℕ) (tasks : List ChunkTask) (c : Option (Cache S))
      → ((n : ℕ) → Keeps content w law (other n))
      → All (IsRight content) tasks
      → CacheHolds content w law c
      → IsFilled tasks (get_from_writer w other lock n tasks c)
  unfolding get_from_writer
  get_from_writer-IsFilled other lock n tasks none o a h = ((a, refl), tt)
  get_from_writer-IsFilled other lock n tasks (some c) o a h = elim (Bool-cases (read_done tasks)) [
    | inl y ↦ rw y ((a, refl), h)
    | inr y ↦ rw y (fill_tasks-FillsAll other lock n [] tasks c.store o tt a h)
  ]

  -- The readers fail, or they serve the tasks.
  ask_readers-IsRightList :
      (readers : List Reader) (tasks : List ChunkTask)
      → All (IsReader content) readers
      → All (IsRight content) tasks
      → ((code : Code) × (ask_readers w readers tasks ≡ err code))
        ⊎ ((tasks' : List ChunkTask) × (ask_readers w readers tasks ≡ ok tasks')
            × IsRightList content tasks tasks')
  unfolding ask_readers
  ask_readers-IsRightList [] tasks p a = inr (tasks, refl, (a, refl))
  ask_readers-IsRightList (r ∷ readers) tasks (p, ps) a = elim (Result-cases (r.get_list tasks)) [
    | inr (code, e) ↦ inl (code, rw (ask_readers, e) refl)
    | inl (tasks1, e) ↦
        let (b, q) = p.get_list_right tasks tasks1 e a in
        elim (Bool-cases (prefetch_done tasks1)) [
          | inl d ↦ inr (tasks1, rw (ask_readers, e) (rw d refl), (b, q))
          | inr d ↦ elim (ask_readers-IsRightList readers tasks1 ps b) [
            | inl (code, f) ↦ inl (code, rw (ask_readers, e) (rw d f))
            | inr (tasks2, f, (b2, q2)) ↦ inr (tasks2, rw (ask_readers, e) (rw d f), (b2, q2 ∙ q))
          ]
        ]
  ]

  meanwhile-CacheHolds :
      (other : S → S) (c : Option (Cache S))
      → Keeps content w law other
      → CacheHolds content w law c
      → CacheHolds content w law (meanwhile w other c)
  unfolding meanwhile
  meanwhile-CacheHolds other none o h = tt
  meanwhile-CacheHolds other (some c) o h = o c.store h

  cached_task-CacheHolds :
      (t : ChunkTask) (c : Option (Cache S))
      → IsRight content t
      → CacheHolds content w law c
      → CacheHolds content w law
          (if not t.done || is_empty w t.chunk_data then c else cache_chunk w t.id t.chunk_data c)
  cached_task-CacheHolds t c (r, k) h = one k
    where
      skipped :
          (b : Bool) (d : Option (Cache S))
          → CacheHolds content w law d
          → CacheHolds content w law (if b then c else d)
      skipped true d g = h
      skipped false d g = g

      one :
          ((t.chunk_data ≡ []) ⊎ (content t.id ≡ some t.chunk_data))
          → CacheHolds content w law (
              if not t.done || is_empty w t.chunk_data
              then c
              else cache_chunk w t.id t.chunk_data c)
      one (inl e) = rw e (nothing t.done)
        where
          nothing :
              (b : Bool)
              → CacheHolds content w law (if not b || true then c else cache_chunk w t.id [] c)
          nothing true = h
          nothing false = h
      one (inr e) =
          skipped (not t.done || is_empty w t.chunk_data) _
            (cache_chunk-CacheHolds content w law t.id t.chunk_data c e h)

  cache_tasks-CacheHolds :
      (other : ℕ → S → S) (n : ℕ) (tasks : List ChunkTask) (c : Option (Cache S))
      → ((n : ℕ) → Keeps content w law (other n))
      → All (IsRight content) tasks
      → CacheHolds content w law c
      → CacheHolds content w law (cache_tasks w other n tasks c)
  unfolding cache_tasks
  cache_tasks-CacheHolds other n [] c o a h = h
  cache_tasks-CacheHolds other n (t ∷ tasks) c o (r, a) h =
      cache_tasks-CacheHolds other (suc n) tasks _ o a
        (cached_task-CacheHolds t _ r (meanwhile-CacheHolds (other n) c (o n) h))

  -- A served list with its cache, or an error of a reader.
  abbrev pub IsServedList : List ChunkTask → Result (List ChunkTask) × Option (Cache S) → Type 0
  IsServedList tasks (r, c) =
      (((code : Code) × (r ≡ err code))
        ⊎ ((tasks' : List ChunkTask) × (r ≡ ok tasks') × IsRightList content tasks tasks'))
      × CacheHolds content w law c

  after_readers-IsServedList :
      (other : ℕ → S → S) (n : ℕ) (tasks : List ChunkTask) (r : Result (List ChunkTask))
      (c : Option (Cache S))
      → ((n : ℕ) → Keeps content w law (other n))
      → ((code : Code) × (r ≡ err code))
        ⊎ ((tasks' : List ChunkTask) × (r ≡ ok tasks') × IsRightList content tasks tasks')
      → CacheHolds content w law c
      → IsServedList tasks (after_readers w other n r c)
  unfolding after_readers
  after_readers-IsServedList other n tasks r c o (inl (code, e)) h = rw e (inl (code, refl), h)
  after_readers-IsServedList other n tasks r c o (inr (tasks', e, (a, q))) h =
      rw e (inr (tasks', refl, (a, q)), cache_tasks-CacheHolds other n tasks' c o a h)

  served_through :
      (tasks tasks' : List ChunkTask) (x : Result (List ChunkTask) × Option (Cache S))
      → map request tasks' ≡ map request tasks
      → IsServedList tasks' x
      → IsServedList tasks x
  served_through tasks tasks' x q (inl e, h) = (inl e, h)
  served_through tasks tasks' x q (inr (tasks'', e, (a, p)), h) = (inr (tasks'', e, (a, p ∙ q)), h)

  -- For a cache that keeps the writer's laws and holds right data, other threads that keep it so
  -- and come in before every task of each loop, and readers that return right data, Get for a list
  -- of right tasks returns an error of a reader or the tasks with the same requests, where each one
  -- that is done has exactly the bytes of its part of the chunk in its buffer, and the cache still
  -- holds right data.
  pub get_tasks_lem :
      (other : ℕ → S → S) (readers : List Reader) (tasks : List ChunkTask) (c : Option (Cache S))
      → ((n : ℕ) → Keeps content w law (other n))
      → All (IsReader content) readers
      → All (IsRight content) tasks
      → CacheHolds content w law c
      → IsServedList tasks (get_tasks w other readers tasks c)
  unfolding get_tasks
  get_tasks_lem other readers tasks c o p a h =
      let ((a1, q1), h1) = get_from_writer-IsFilled other true 0 tasks c o a h in
      let (tasks1, c1) = get_from_writer w other true 0 tasks c in
      let ((a2, q2), h2) = get_from_writer-IsFilled other false (length tasks) tasks1 c1 o a1 h1 in
      let (tasks2, c2) = get_from_writer w other false (length tasks) tasks1 c1 in
      elim (Bool-cases (read_done tasks1)) [
        | inl d ↦ rw d (inr (tasks1, refl, (a1, q1)), h1)
        | inr d ↦ elim (Bool-cases (read_done tasks2)) [
          | inl e ↦ rw (d, e) (inr (tasks2, refl, (a2, q2 ∙ q1)), h2)
          | inr e ↦
              rw (d, e)
                (served_through tasks tasks2 _ (q2 ∙ q1) (
                  after_readers-IsServedList other (length tasks + length tasks) tasks2 _ c2 o
                    (ask_readers-IsRightList readers tasks2 p a2) h2))
        ]
      ]
