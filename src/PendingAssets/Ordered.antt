-- ===== src/PendingAssets/Ordered.antt =====
-- manifest/pending_assets_queue.cc: tasks with a deadline come first.
use mathlib.Core.Bool.{false≢true}
use cdc_file_transfer.Prelude.{
  ℕ, suc, ◌+◌, ◌≡◌, refl, sym, ap, subst, ◌∙◌, ◌⊎◌, inl, inr, Bool, true, false, not, ◌&&◌, List,
  [], ◌∷◌, ◌++◌, All, arith, Bool-cases, Option-cases, length, Option, some, none,
}
use cdc_file_transfer.PendingAssets.{
  PendingAsset, PriorityAsset, Asset, is_infinite, add, dequeue, move_to_front, prioritize_one,
  is_task_of, prioritize_asset, prioritize_all, prioritize,
}

abbrev pub Waits : PendingAsset → Type 0
Waits a = is_infinite a.deadline ≡ true

-- A task without a deadline has only such tasks behind it.
abbrev pub IsOrdered : List PendingAsset → Type 0
IsOrdered [] = Unit {0}
IsOrdered (a ∷ queue) = (Waits a → All Waits queue) × IsOrdered queue

-- The tasks that wait stay so where one is taken or put.
add-Waits :
    (p : PendingAsset) (queue : List PendingAsset)
    → Waits p
    → All Waits queue
    → All Waits (add p queue)
unfolding add
add-Waits p [] w h = (w, tt)
add-Waits p (a ∷ queue) w h =
    elim (Bool-cases (not (is_infinite p.deadline) && is_infinite a.deadline)) [
      | inl e ↦ rw e (w, h)
      | inr e ↦ rw e (h.0, add-Waits p queue w h.1)
    ]

All-Waits-IsOrdered : (queue : List PendingAsset) → All Waits queue → IsOrdered queue
All-Waits-IsOrdered [] h = tt
All-Waits-IsOrdered (a ∷ queue) h = ((λ _. h.1), All-Waits-IsOrdered queue h.1)

-- In a queue in which no task without a deadline stands before one with a deadline, Add keeps that
-- order.
pub add-IsOrdered :
    (p : PendingAsset) (queue : List PendingAsset) → IsOrdered queue → IsOrdered (add p queue)
unfolding add
add-IsOrdered p [] h = ((λ _. tt), tt)
add-IsOrdered p (a ∷ queue) h =
    elim (Bool-cases (not (is_infinite p.deadline) && is_infinite a.deadline)) [
      | inl e ↦ rw e ((λ w. ground (arith, e)), h)
      | inr e ↦ rw e ((λ w. add-Waits p queue (ground arith) (h.0 w)), add-IsOrdered p queue h.1)
    ]

-- What `Dequeue` does: the first task that is accepted is taken out, and the others stay in order.
pub record Taken (accept : PendingAsset → Bool) (queue : List PendingAsset) (p : PendingAsset)
    (left : List PendingAsset) : Type 0 where
  pub before : List PendingAsset
  pub after : List PendingAsset
  pub split : queue ≡ before ++ p ∷ after
  pub rest : left ≡ before ++ after
  pub refused : All (λ a. accept a ≡ false) before
  pub accepted : accept p ≡ true

dequeue-some :
    (accept : PendingAsset → Bool) (a : PendingAsset) (queue : List PendingAsset)
    → accept a ≡ true
    → dequeue accept (a ∷ queue) ≡ some (a, queue)
unfolding dequeue
dequeue-some accept a queue e = rw e refl

dequeue_next :
    (accept : PendingAsset → Bool) (a p : PendingAsset) (queue left : List PendingAsset)
    → accept a ≡ false
    → dequeue accept queue ≡ some (p, left)
    → dequeue accept (a ∷ queue) ≡ some (p, a ∷ left)
unfolding dequeue
dequeue_next accept a p queue left e f = rw e (rw (f, dequeue) refl)

dequeue-none :
    (accept : PendingAsset → Bool) (a : PendingAsset) (queue : List PendingAsset)
    → accept a ≡ false
    → dequeue accept queue ≡ none
    → dequeue accept (a ∷ queue) ≡ none
unfolding dequeue
dequeue-none accept a queue e f = rw e (rw (f, dequeue) refl)

-- Dequeue takes out the first task that the function accepts and leaves the others in their order;
-- it fails only if no task is accepted.
pub dequeue_lem :
    (accept : PendingAsset → Bool) (queue : List PendingAsset)
    → ((dequeue accept queue ≡ none) × All (λ a. accept a ≡ false) queue)
      ⊎ ((p : PendingAsset) × (left : List PendingAsset) × (dequeue accept queue ≡ some (p, left))
          × Taken accept queue p left)
unfolding dequeue
dequeue_lem accept [] = inl (refl, tt)
dequeue_lem accept (a ∷ queue) = elim (Bool-cases (accept a)) [
  | inl e ↦ inr (
    a,
    queue,
    dequeue-some accept a queue e,
    record { before = []; after = queue; split = refl; rest = refl; refused = tt; accepted = e },
  )
  | inr e ↦ elim (dequeue_lem accept queue) [
    | inl (f, all) ↦ inl (dequeue-none accept a queue e f, (e, all))
    | inr (p, left, f, t) ↦ inr (
      p,
      a ∷ left,
      dequeue_next accept a p queue left e f,
      record {
        before = a ∷ t.before;
        after = t.after;
        split = ap (◌∷◌ a) t.split;
        rest = ap (◌∷◌ a) t.rest;
        refused = (e, t.refused);
        accepted = t.accepted;
      },
    )
  ]
]

All-remove :
    (P : PendingAsset → Type 0) (xs : List PendingAsset) (p : PendingAsset) (ys : List PendingAsset)
    → All P (xs ++ p ∷ ys)
    → All P (xs ++ ys)
All-remove P [] p ys h = h.1
All-remove P (x ∷ xs) p ys h = (h.0, All-remove P xs p ys h.1)

length-remove :
    (xs : List PendingAsset) (p : PendingAsset) (ys : List PendingAsset)
    → length (xs ++ p ∷ ys) ≡ suc (length (xs ++ ys))
length-remove [] p ys = refl
length-remove (x ∷ xs) p ys = ap suc (length-remove xs p ys)

-- The queue keeps its order and its number of tasks.
Kept : List PendingAsset → List PendingAsset → Type 0
Kept queue queue' = IsOrdered queue' × (length queue' ≡ length queue)

move_to_front-Kept :
    (matches : PendingAsset → Bool) (time : ℕ) (queue : List PendingAsset)
    → All Waits queue
    → Kept queue (move_to_front time (dequeue matches queue) queue)
unfolding Kept move_to_front
move_to_front-Kept matches time queue w = elim (dequeue_lem matches queue) [
  | inl (e, _) ↦ rw e (All-Waits-IsOrdered queue w, refl)
  | inr (it, left, e, t) ↦
      let w' = subst (All Waits) t.split w in
      let left_waits = subst (All Waits) (sym t.rest) (All-remove Waits t.before it t.after w') in
      elim (Bool-cases (is_infinite it.deadline)) [
        | inl waits ↦ rw e (
            rw (waits, move_to_front)
              (
                ((λ f. absurd (false≢true f)), All-Waits-IsOrdered left left_waits),
                omega
                    (arith, ap length t.split, ap length t.rest, length-remove t.before it t.after),
              ))
        | inr timed ↦ rw e (rw (timed, move_to_front) (All-Waits-IsOrdered queue w, refl))
      ]
]

prioritize_one-Kept :
    (matches : PendingAsset → Bool) (time : ℕ) (queue : List PendingAsset)
    → IsOrdered queue
    → Kept queue (prioritize_one matches time queue)
unfolding Kept prioritize_one
prioritize_one-Kept matches time [] h = (tt, refl)
prioritize_one-Kept matches time (a ∷ queue) h = elim (Bool-cases (is_infinite a.deadline)) [
  | inl waits ↦ rw waits (move_to_front-Kept matches time (a ∷ queue) (waits, h.0 waits))
  | inr timed ↦ elim (Bool-cases (matches a)) [
    | inl here ↦ rw timed (rw here (h, refl))
    | inr other ↦
        let (ordered, same) = prioritize_one-Kept matches time queue h.1 in
        rw timed
          (rw other (((λ waits. absurd (false≢true (sym timed ∙ waits))), ordered), ap suc same))
  ]
]

module _ (min_processing_time : ℕ) (same : List ℕ → List ℕ → Bool)
    (lookup : List ℕ → Option Asset) where
  prioritize_asset-Kept :
      (prio : PriorityAsset) (queue : List PendingAsset)
      → IsOrdered queue
      → Kept queue (prioritize_asset min_processing_time same lookup prio queue)
  unfolding Kept prioritize_asset is_task_of
  prioritize_asset-Kept prio queue h = elim (Option-cases (lookup prio.rel_file_path)) [
    | inl missing ↦ rw (missing, prioritize_asset) (h, refl)
    | inr (asset, found) ↦ elim (Bool-cases asset.in_progress) [
      | inl e ↦
          rw (found, prioritize_asset)
            (rw e (
              prioritize_one-Kept (is_task_of same asset) (prio.received + min_processing_time)
                queue h))
      | inr e ↦ rw (found, prioritize_asset) (rw e (h, refl))
    ]
  ]

  prioritize_all-Kept :
      (prios : List PriorityAsset) (queue : List PendingAsset) (m : Option ℕ)
      → IsOrdered queue
      → Kept queue (prioritize_all min_processing_time same lookup prios queue m).0
  unfolding Kept prioritize_all
  prioritize_all-Kept [] queue m h = (h, refl)
  prioritize_all-Kept (prio ∷ prios) queue m h =
      let (h1, e1) = prioritize_asset-Kept prio queue h in
      let (h2, e2) = prioritize_all-Kept prios _ _ h1 in (h2, e2 ∙ e1)

  -- In a queue in which no task without a deadline stands before one with a deadline, Prioritize
  -- keeps that order and the number of tasks, for any assets to prioritize and whatever the
  -- manifest builder answers.
  pub prioritize-IsOrdered :
      (prios : List PriorityAsset) (queue : List PendingAsset)
      → IsOrdered queue
      → IsOrdered (prioritize min_processing_time same lookup prios queue).0
        × (length (prioritize min_processing_time same lookup prios queue).0 ≡ length queue)
  unfolding prioritize Kept
  prioritize-IsOrdered prios queue h = prioritize_all-Kept prios queue none h
