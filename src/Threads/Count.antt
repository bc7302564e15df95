-- ===== src/Threads/Count.antt =====
-- common/threadpool.cc: the count of outstanding tasks.
use mathlib.Core.Option.{some-injective}
use cdc_file_transfer.Prelude.{
  ℕ, zero, suc, ◌+◌, ◌≤◌, ◌≡◌, refl, ap, inl, inr, ◌&&◌, List, [], ◌∷◌, arith, Bool-cases,
  Option-cases, length, some, get_elem?, set, replicate, length-append,
}
use cdc_file_transfer.Threads.{
  Worker, starting, waiting, running, finished, stopped, Pool, new_pool, queue_task, grab, work,
  work_at, all_stopped, discard, Act, act_queue, act_get, act_work, act_shutdown, act_discard,
  Trace, perform, run, start,
}

-- A worker has a task, or has one finished that is still counted.
abbrev pub busy : Worker → ℕ
busy (running task) = 1
busy finished = 1
busy _ = 0

abbrev pub all_busy : List Worker → ℕ
all_busy [] = 0
all_busy (w ∷ ws) = busy w + all_busy ws

abbrev pub IsCounted : Pool → Type 0
IsCounted p = p.outstanding_task_count ≡ length p.task_queue + all_busy p.workers

set-busy :
    (ws : List Worker) (i : ℕ) (w w' : Worker)
    → get_elem? ws i ≡ some w
    → all_busy (set ws i w') + busy w ≡ all_busy ws + busy w'
set-busy [] i w w' h = cc
set-busy (x ∷ ws) zero w w' h =
    let e : busy x ≡ busy w = ap busy (some-injective x w h) in omega (arith, e)
set-busy (x ∷ ws) (suc i) w w' h = omega (arith, set-busy ws i w w' h)

-- A worker's action moves a task from the queue to the worker, or drops a finished one.
work-count :
    (w : Worker) (p : Pool)
    → busy w ≤ p.outstanding_task_count
    → let (w', p') = work w p in
      (p'.outstanding_task_count + (length p.task_queue + busy w)
        ≡ p.outstanding_task_count + (length p'.task_queue + busy w'))
      × (p'.workers ≡ p.workers)
unfolding work grab
work-count starting p h = (refl, refl)
work-count waiting p h = elim (Bool-cases p.shutdown) [
  | inl e ↦ rw e (omega arith, refl)
  | inr e ↦ simp e (go p.task_queue refl)
]
  where
    go :
        (q : List ℕ)
        → p.task_queue ≡ q
        → ((grab q p).1.outstanding_task_count + (length p.task_queue + 0)
            ≡ p.outstanding_task_count + (length (grab q p).1.task_queue + busy (grab q p).0))
          × ((grab q p).1.workers ≡ p.workers)
    go [] e = (refl, refl)
    go (task ∷ q) e = (omega (arith, ap length e), refl)
work-count (running task) p h = (refl, refl)
work-count finished p h = (omega arith, refl)
work-count stopped p h = (refl, refl)

work_at-IsCounted : (i : ℕ) (p : Pool) → IsCounted p → IsCounted (work_at i p)
unfolding work_at
work_at-IsCounted i p h = elim (Option-cases (get_elem? p.workers i)) [
  | inl e ↦ rw (e, work_at) h
  | inr (w, e) ↦
      let s = set-busy p.workers i w (work w p).0 e in
      let (c, same) = work-count w p (omega (arith, h, set-busy p.workers i w starting e)) in
      rw (e, work_at) (omega (arith, s, c))
]

perform-IsCounted : (a : Act) (t : Trace) → IsCounted t.pool → IsCounted (perform a t).pool
unfolding perform queue_task discard
perform-IsCounted (act_queue task) t h =
    omega (arith, h, length-append t.pool.task_queue (task ∷ []))
perform-IsCounted act_get t h = h
perform-IsCounted (act_work i) t h = work_at-IsCounted i t.pool h
perform-IsCounted act_shutdown t h = h
perform-IsCounted act_discard t h =
    elim (Bool-cases (t.pool.shutdown && all_stopped t.pool.workers)) [
      | inl e ↦ rw e h
      | inr e ↦ rw e h
    ]

run-IsCounted : (acts : List Act) (t : Trace) → IsCounted t.pool → IsCounted (run acts t).pool
unfolding run
run-IsCounted [] t h = h
run-IsCounted (a ∷ acts) t h = run-IsCounted acts (perform a t) (perform-IsCounted a t h)

none_busy : (n : ℕ) → all_busy (replicate n starting) ≡ 0
none_busy zero = refl
none_busy (suc n) = omega (arith, none_busy n)

-- With any number of workers, under any interleaving, the count of outstanding tasks is the number
-- of tasks in the queue and of workers that run a task or have yet to count it off.
pub outstanding_task_count_lem :
    (num_threads : ℕ) (acts : List Act) → IsCounted (run acts (start num_threads)).pool
unfolding start new_pool
outstanding_task_count_lem num_threads acts =
    run-IsCounted acts (start num_threads) (omega (arith, none_busy num_threads))
