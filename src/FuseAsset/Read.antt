-- ===== src/FuseAsset/Read.antt =====
-- cdc_fuse_fs/asset.cc: `Asset::Read`. A round of a loop takes one unit of fuel; the bytes that the
-- source copies into the buffer are those of the tasks, one behind the other.
pub mod Loop
pub mod Steps
pub mod Rounds
pub mod Start
pub mod Buffer
pub mod Correct
pub mod File
use cdc_file_transfer.Prelude.{
  ℕ, zero, suc, ◌+◌, ◌-◌, ◌^◌, ◌%◌, min, Bool, true, false, not, ◌&&◌, ◌||◌, List, [], ◌∷◌, ◌++◌,
  map, Option, none, some, length, get_elem?, flatten, ltb, leb, ◌==◌, if◌then◌else◌,
}
use cdc_file_transfer.Prelude.Status.{
  Result, ok, err, invalid_argument, internal, data_loss, out_of_fuel, ◌>>=◌,
}
use cdc_file_transfer.Prelude.Words.{add64}
use cdc_file_transfer.PendingAssets.{AssetType, file}
use cdc_file_transfer.FileChunkMap.{ChunkRef}
use cdc_file_transfer.DataStore.{ChunkTask, new_task, read_done}
use cdc_file_transfer.FuseAsset.{
  AssetProto, Asset, sub64, find_chunk_list, find_chunk_index, chunk_list_offset, chunk_size,
  get_chunk_ref_list,
}

-- A place in the lists: the number of the list, its chunks and the index of one.
pub record Place : Type 0 where
  pub list_no : ℕ
  pub chunk_refs : List ChunkRef
  pub chunk_idx : ℕ

-- The variables of the loop
pub record Reading : Type 0 where
  pub offset : ℕ
  pub data_bytes_left : ℕ
  pub prefetch_bytes_left : ℕ
  pub chunks : List ChunkTask

unfoldable pub is_file : AssetType → Bool
is_file file = true
is_file _ = false

-- A transfer task for a chunk.
pub enqueue : {Child : Type 0} → AssetProto Child → Place → ChunkRef → Reading → Reading
enqueue p at_place c r =
    let absolute = add64 (chunk_list_offset at_place.list_no p) c.ref_offset in
    let chunk_offset = if ltb absolute r.offset then r.offset - absolute else 0 in
    let size =
      chunk_size at_place.list_no c (get_elem? at_place.chunk_refs (suc at_place.chunk_idx)) p in
    let bytes_to_read = min (sub64 size chunk_offset) r.data_bytes_left in
    let bytes_to_prefetch = min (sub64 size chunk_offset) r.prefetch_bytes_left in
    record {
      offset = add64 r.offset bytes_to_prefetch;
      data_bytes_left = r.data_bytes_left - bytes_to_read;
      prefetch_bytes_left = r.prefetch_bytes_left - bytes_to_prefetch;
      chunks = r.chunks ++ new_task c.chunk_id chunk_offset bytes_to_read ∷ [];
    }

-- The next chunk begins where the last one ends.
pub is_at_boundary : {Child : Type 0} → AssetProto Child → Place → ℕ → Bool
is_at_boundary p at_place offset = elim (get_elem? at_place.chunk_refs at_place.chunk_idx) [
  | none ↦ false
  | some c ↦ offset == add64 (chunk_list_offset at_place.list_no p) c.ref_offset
]

-- A task without a size has no buffer.
pub into_buffer : ChunkTask → List ℕ
into_buffer t = if t.size == 0 then [] else t.copied

-- The transfer of the tasks. What comes into the buffer is returned with its size.
pub transfer : (List ChunkTask → Result (List ChunkTask)) → ℕ → Reading → Result (List ℕ × ℕ)
transfer get_tasks size r = get_tasks r.chunks >>= λ tasks.
    if read_done tasks
    then ok (flatten (map into_buffer tasks), size - r.data_bytes_left)
    else err data_loss

module _ {Child : Type 0} (get_list : List ℕ → Result (List ChunkRef)) where
  -- The inner loop: the next place that holds a chunk, or `none` at the end of the file.
  pub next_place : ℕ → Place → ℕ → Asset Child → Result (Option Place × Asset Child)
  next_place zero at_place offset a = err out_of_fuel
  next_place (suc fuel) at_place offset a =
      if ltb at_place.chunk_idx (length at_place.chunk_refs)
      then ok (some at_place, a)
      else (get_chunk_ref_list get_list (suc at_place.list_no) a >>= λ x. elim x.0 [
        | none ↦ if offset == a.proto.file_size then ok (none, x.1) else err internal
        | some refs ↦
            next_place fuel
              (record { list_no = suc at_place.list_no; chunk_refs = refs; chunk_idx = 0 }) offset
              x.1
      ])

  -- The outer loop over the chunks.
  pub read_loop : ℕ → Place → Reading → Asset Child → Result (Reading × Asset Child)
  read_loop zero at_place r a = err out_of_fuel
  read_loop (suc fuel) at_place r a = elim (get_elem? at_place.chunk_refs at_place.chunk_idx) [
    | none ↦ err internal
    | some c ↦
        let r' = enqueue a.proto at_place c r in
        if r'.prefetch_bytes_left == 0
        then ok (r', a)
        else (next_place fuel (record at_place { chunk_idx = suc at_place.chunk_idx }) r'.offset a
            >>= λ x. elim x.0 [
              | none ↦ ok (r', x.1)
              | some at_next ↦
                  let rest = read_loop fuel at_next r' x.1 in
                  if is_at_boundary a.proto at_next r'.offset then rest else err internal
            ])
  ]

  -- The tasks, from the chunk of an index on.
  pub plan_from :
      ℕ
      → ℕ
      → Reading
      → List ChunkRef
      → Option ℕ
      → Asset Child
      → Result (Option Reading × Asset Child)
  plan_from fuel list_no r refs none a = err internal
  plan_from fuel list_no r refs (some n) a =
      read_loop fuel (record { list_no = list_no; chunk_refs = refs; chunk_idx = n }) r a >>= λ y.
      ok (some y.0, y.1)

  -- The place of the first chunk in its list.
  pub plan_at :
      ℕ → ℕ → Reading → Option (List ChunkRef) → Asset Child → Result (Option Reading × Asset Child)
  plan_at fuel list_no r none a = ok (none, a)
  plan_at fuel list_no r (some refs) a =
      plan_from fuel list_no r refs
        (find_chunk_index refs (chunk_list_offset list_no a.proto) r.offset) a

  pub plan : ℕ → ℕ → ℕ → ℕ → Asset Child → Result (Option Reading × Asset Child)
  plan fuel offset size prefetch_size a =
      let list_no = find_chunk_list offset a.proto in
      get_chunk_ref_list get_list list_no a >>= λ x.
      plan_at fuel list_no
        (record {
          offset = offset;
          data_bytes_left = size;
          prefetch_bytes_left = prefetch_size;
          chunks = [];
        })
        x.0 x.1

  pub read :
      (List ChunkTask → Result (List ChunkTask))
      → (ℕ → ℕ)
      → ℕ
      → ℕ
      → ℕ
      → Asset Child
      → Result ((List ℕ × ℕ) × Asset Child)
  read get_tasks prefetch_size fuel offset size a =
      if not (is_file a.proto.asset_type)
      then err invalid_argument
      else (if size == 0
          then ok (([], 0), a)
          else (plan fuel offset size (prefetch_size size) a >>= λ x. elim x.0 [
            | none ↦ ok (([], 0), x.1)
            | some r ↦ transfer get_tasks size r >>= λ y. ok (y, x.1)
          ]))
