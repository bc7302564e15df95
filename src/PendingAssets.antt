-- ===== src/PendingAssets.antt =====
-- manifest/pending_assets_queue.cc: `PendingAssetsQueue`. Times are natural numbers, and a deadline of
-- `absl::InfiniteFuture()` is `none`; the queue's minimal processing time is an argument.
pub mod Ordered
use cdc_file_transfer.Prelude.{
  ℕ, ◌+◌, Bool, true, false, not, ◌&&◌, List, [], ◌∷◌, Option, none, some, ltb, if◌then◌else◌,
}

-- `AssetProto::Type`
pub data AssetType : Type 0 where
  unknown : AssetType
  file : AssetType
  directory : AssetType
  symlink : AssetType

pub record PendingAsset : Type 0 where
  pub asset_type : AssetType
  pub relative_path : List ℕ
  pub filename : List ℕ
  pub prioritized : Bool
  pub deadline : Option ℕ

pub record PriorityAsset : Type 0 where
  pub rel_file_path : List ℕ
  pub received : ℕ

-- What `Prioritize` asks of the `AssetBuilder` that `GetOrCreateAsset` returns.
pub record Asset : Type 0 where
  pub in_progress : Bool
  pub asset_path : List ℕ
  pub name : List ℕ

abbrev pub is_infinite : Option ℕ → Bool
is_infinite none = true
is_infinite (some t) = false

pub add : PendingAsset → List PendingAsset → List PendingAsset
add pending [] = pending ∷ []
add pending (a ∷ queue) =
    let rest = add pending queue in
    if not (is_infinite pending.deadline) && is_infinite a.deadline
    then pending ∷ a ∷ queue
    else a ∷ rest

-- `Dequeue`, with the accept function; one that is empty accepts all.
pub dequeue : (PendingAsset → Bool) → List PendingAsset → Option (PendingAsset × List PendingAsset)
dequeue accept [] = none
dequeue accept (a ∷ queue) =
    let rest = dequeue accept queue in
    if accept a
    then some (a, queue)
    else elim rest [ none ↦ none | some (pending, left) ↦ some (pending, a ∷ left) ]

-- The inner loop of `Prioritize` where no task is prioritized any more: the task is found and moved
-- out, or the loop ends.
pub move_to_front :
    ℕ → Option (PendingAsset × List PendingAsset) → List PendingAsset → List PendingAsset
move_to_front time none queue = queue
move_to_front time (some (it, left)) queue =
    if is_infinite it.deadline
    then record it { deadline = some time; prioritized = true } ∷ left
    else queue

-- The inner loop of `Prioritize`. `matches` compares a task with the asset.
pub prioritize_one : (PendingAsset → Bool) → ℕ → List PendingAsset → List PendingAsset
prioritize_one matches time [] = []
prioritize_one matches time (a ∷ queue) =
    let rest = prioritize_one matches time queue in
    if is_infinite a.deadline
    then move_to_front time (dequeue matches (a ∷ queue)) (a ∷ queue)
    else (if matches a then a ∷ queue else a ∷ rest)

-- `it->relative_path == asset->RelativePath() && it->filename == asset->Name()`
pub is_task_of : (List ℕ → List ℕ → Bool) → Asset → PendingAsset → Bool
is_task_of same asset it = same it.relative_path asset.asset_path && same it.filename asset.name

-- `if (prio_asset.received < min_received) min_received = prio_asset.received;`
pub earlier : ℕ → Option ℕ → Option ℕ
earlier t none = some t
earlier t (some m) = if ltb t m then some t else some m

-- `same` is the comparison of strings, and `lookup` is `GetOrCreateAsset`, with `none` for an error.
module _ (min_processing_time : ℕ) (same : List ℕ → List ℕ → Bool)
    (lookup : List ℕ → Option Asset) where
  -- The body of the loop over the assets to prioritize.
  pub prioritize_asset : PriorityAsset → List PendingAsset → List PendingAsset
  prioritize_asset prio queue = elim (lookup prio.rel_file_path) [
    | none ↦ queue
    | some asset ↦
        if asset.in_progress
        then prioritize_one (is_task_of same asset) (prio.received + min_processing_time) queue
        else queue
  ]

  pub prioritize_all :
      List PriorityAsset → List PendingAsset → Option ℕ → List PendingAsset × Option ℕ
  prioritize_all [] queue min_received = (queue, min_received)
  prioritize_all (prio ∷ prio_assets) queue min_received =
      prioritize_all prio_assets (prioritize_asset prio queue) (earlier prio.received min_received)

  -- The queue and the time returned.
  pub prioritize : List PriorityAsset → List PendingAsset → List PendingAsset × Option ℕ
  prioritize prio_assets queue =
      let (queue', min_received) = prioritize_all prio_assets queue none in
      (queue', elim min_received [ none ↦ none | some t ↦ some (t + min_processing_time) ])
