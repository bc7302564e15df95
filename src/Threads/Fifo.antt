-- ===== src/Threads/Fifo.antt =====
-- common/threadpool.cc: the order of one worker's tasks.
use mathlib.Core.Bool.{false≢true}
use cdc_file_transfer.Prelude.{
  ℕ, zero, suc, ◌≡◌, ◌⊎◌, refl, sym, ap, ◌∙◌, inl, inr, Bool, true, false, ◌&&◌, List, [], ◌∷◌,
  ◌++◌, Bool-cases, append_assoc, subst,
}
use cdc_file_transfer.Threads.{
  Worker, starting, waiting, running, finished, stopped, Pool, new_pool, queue_task,
  try_get_completed_task, grab, work, work_at, all_stopped, discard, Act, act_queue, act_get,
  act_work, act_shutdown, act_discard, Trace, perform, run, start, append_task,
}

-- The task that a worker runs.
abbrev pub in_hand : Worker → List ℕ
in_hand (running task) = task ∷ []
in_hand _ = []

-- With one worker: the tasks gotten, completed, at hand and in the queue are those queued, in order;
-- or completed tasks have been discarded, and no more come.
abbrev pub IsFifo : Trace → Type 0
IsFifo t =
    ((w : Worker) × (t.pool.workers ≡ w ∷ [])
      × (t.queued ≡ t.gotten ++ (t.pool.completed_tasks ++ (in_hand w ++ t.pool.task_queue))))
    ⊎ ((t.pool.workers ≡ stopped ∷ [])
        × (t.pool.completed_tasks ≡ [])
        × ((rest : List ℕ) × (t.queued ≡ t.gotten ++ rest)))

abbrev reorder :
    (g c h q : List ℕ) (t : ℕ) → (g ++ (c ++ (h ++ q))) ++ t ∷ [] ≡ g ++ (c ++ (h ++ (q ++ t ∷ [])))
reorder g c h q t =
    append_assoc g (c ++ (h ++ q)) (t ∷ [])
    ∙ ap (λ x. g ++ x)
        (append_assoc c (h ++ q) (t ∷ []) ∙ ap (λ x. c ++ x) (append_assoc h q (t ∷ [])))

Bool-and_right : (a b : Bool) → (a && b) ≡ true → b ≡ true
Bool-and_right true b h = h
Bool-and_right false b h = absurd (false≢true h)

-- A worker's action keeps its task, the queue and the completed tasks in order.
work-IsFifo :
    (w : Worker) (p : Pool)
    → let (w', p') = work w p in
      p'.completed_tasks ++ (in_hand w' ++ p'.task_queue)
      ≡ p.completed_tasks ++ (in_hand w ++ p.task_queue)
unfolding work grab
work-IsFifo starting p = refl
work-IsFifo waiting p = elim (Bool-cases p.shutdown) [
  | inl e ↦ rw e refl
  | inr e ↦ simp e (go p.task_queue refl)
]
  where
    go :
        (q : List ℕ)
        → p.task_queue ≡ q
        → (grab q p).1.completed_tasks ++ (in_hand (grab q p).0 ++ (grab q p).1.task_queue)
          ≡ p.completed_tasks ++ p.task_queue
    go [] e = refl
    go (task ∷ q) e = ap (λ x. p.completed_tasks ++ x) (sym e)
work-IsFifo (running task) p = append_assoc p.completed_tasks (task ∷ []) p.task_queue
work-IsFifo finished p = refl
work-IsFifo stopped p = refl

work_at-zero :
    (p : Pool) (w : Worker)
    → p.workers ≡ w ∷ []
    → work_at 0 p ≡ record ((work w p).1) { workers = (work w p).0 ∷ [] }
unfolding work_at
work_at-zero p w one = simp (work_at, one) refl

work_at-suc : (i : ℕ) (p : Pool) (w : Worker) → p.workers ≡ w ∷ [] → work_at (suc i) p ≡ p
unfolding work_at
work_at-suc i p w one = simp (work_at, one) refl

work_at-IsFifo : (i : ℕ) (t : Trace) → IsFifo t → IsFifo (record t { pool = work_at i t.pool })
unfolding work
work_at-IsFifo zero t (inl (w, one, e)) =
    subst (λ (q : Pool). IsFifo (record t { pool = q })) (sym (work_at-zero t.pool w one))
      (inl ((work w t.pool).0, refl, e ∙ ap (λ x. t.gotten ++ x) (sym (work-IsFifo w t.pool))))
work_at-IsFifo (suc i) t (inl (w, one, e)) =
    subst (λ (q : Pool). IsFifo (record t { pool = q })) (sym (work_at-suc i t.pool w one))
      (inl (w, one, e))
work_at-IsFifo zero t (inr (one, none_left, rest)) =
    subst (λ (q : Pool). IsFifo (record t { pool = q })) (sym (work_at-zero t.pool stopped one))
      (inr (refl, none_left, rest))
work_at-IsFifo (suc i) t (inr (one, none_left, rest)) =
    subst (λ (q : Pool). IsFifo (record t { pool = q })) (sym (work_at-suc i t.pool stopped one))
      (inr (one, none_left, rest))

act_get-IsFifo : (t : Trace) → IsFifo t → IsFifo (perform act_get t)
unfolding perform append_task try_get_completed_task
act_get-IsFifo t h = go t.pool.completed_tasks refl h
  where
    go : (c : List ℕ) → t.pool.completed_tasks ≡ c → IsFifo t → IsFifo (perform act_get t)
    go [] e (inl (w, one, f)) =
        inl (w, one, rw e (f ∙ ap (λ x. t.gotten ++ (x ++ (in_hand w ++ t.pool.task_queue))) e))
    go [] e (inr (one, none_left, (rest, f))) = inr (one, rw e refl, (rest, rw e f))
    go (task ∷ c) e (inl (w, one, f)) = inl (
      w,
      one,
      rw e (
          f
          ∙ (ap (λ x. t.gotten ++ (x ++ (in_hand w ++ t.pool.task_queue))) e
              ∙ sym (append_assoc t.gotten (task ∷ []) (c ++ (in_hand w ++ t.pool.task_queue))))),
    )
    go (task ∷ c) e (inr (one, none_left, rest)) = cc

is_stopped : (w : Worker) → all_stopped (w ∷ []) ≡ true → w ≡ stopped
unfolding all_stopped
is_stopped starting e = absurd (false≢true e)
is_stopped waiting e = absurd (false≢true e)
is_stopped (running task) e = absurd (false≢true e)
is_stopped finished e = absurd (false≢true e)
is_stopped stopped e = refl

discard-IsFifo : (t : Trace) → IsFifo t → IsFifo (perform act_discard t)
unfolding perform discard
discard-IsFifo t h = elim (Bool-cases (t.pool.shutdown && all_stopped t.pool.workers)) [
  | inl e ↦ rw e (gone h (Bool-and_right t.pool.shutdown (all_stopped t.pool.workers) e))
  | inr e ↦ rw e h
]
  where
    gone :
        IsFifo t
        → all_stopped t.pool.workers ≡ true
        → IsFifo (record t { pool = record (t.pool) { completed_tasks = [] } })
    gone (inl (w, one, f)) e = inr (
      one ∙ ap (λ x. x ∷ []) (is_stopped w (rw one at e)),
      refl,
      (t.pool.completed_tasks ++ (in_hand w ++ t.pool.task_queue), f),
    )
    gone (inr (one, none_left, rest)) e = inr (one, refl, rest)

perform-IsFifo : (a : Act) (t : Trace) → IsFifo t → IsFifo (perform a t)
unfolding perform queue_task
perform-IsFifo (act_queue task) t (inl (w, one, e)) = inl (
  w,
  one,
  ap (λ x. x ++ task ∷ []) e
      ∙ reorder t.gotten t.pool.completed_tasks (in_hand w) t.pool.task_queue task,
)
perform-IsFifo (act_queue task) t (inr (one, none_left, (rest, e))) = inr (
  one,
  none_left,
  (rest ++ task ∷ [], ap (λ x. x ++ task ∷ []) e ∙ append_assoc t.gotten rest (task ∷ [])),
)
perform-IsFifo act_get t h = act_get-IsFifo t h
perform-IsFifo (act_work i) t h = work_at-IsFifo i t h
perform-IsFifo act_shutdown t h = h
perform-IsFifo act_discard t h = discard-IsFifo t h

run-IsFifo : (acts : List Act) (t : Trace) → IsFifo t → IsFifo (run acts t)
unfolding run
run-IsFifo [] t h = h
run-IsFifo (a ∷ acts) t h = run-IsFifo acts (perform a t) (perform-IsFifo a t h)

-- With one worker, under any interleaving of queueing, getting, working, shutdown and discarding,
-- the tasks gotten are the first of the tasks queued, in their order.
pub gotten_lem :
    (acts : List Act)
    → (rest : List ℕ) × ((run acts (start 1)).queued ≡ (run acts (start 1)).gotten ++ rest)
unfolding start new_pool
gotten_lem acts = go (run-IsFifo acts (start 1) (inl (starting, refl, refl)))
  where
    go :
        IsFifo (run acts (start 1))
        → (rest : List ℕ) × ((run acts (start 1)).queued ≡ (run acts (start 1)).gotten ++ rest)
    go (inl (w, one, e)) = (_, e)
    go (inr (one, none_left, rest)) = rest
