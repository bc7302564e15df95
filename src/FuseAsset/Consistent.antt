-- ===== src/FuseAsset/Consistent.antt =====
-- cdc_fuse_fs/asset.cc: `Asset::IsConsistent`, without the text of the warning.
pub mod Ascending
use cdc_file_transfer.Prelude.{
  ℕ, zero, suc, Bool, true, false, not, ◌&&◌, ◌||◌, List, [], ◌∷◌, Option, none, some, length,
  get_elem?, ltb, leb, ◌==◌, if◌then◌else◌,
}
use cdc_file_transfer.Prelude.Words.{add64}
use cdc_file_transfer.PendingAssets.{AssetType, file, directory, symlink, unknown}
use cdc_file_transfer.FileChunkMap.{ChunkRef}
use cdc_file_transfer.FuseAsset.{IndirectChunkList, AssetProto, Asset}
use cdc_file_transfer.FuseAsset.Read.{is_file}

unfoldable pub is_nil : {A : Type 0} → List A → Bool
is_nil [] = true
is_nil (x ∷ xs) = false

-- The direct chunks: the last offset, or `none` where one is out of order.
unfoldable pub check_direct : ℕ → List ChunkRef → Option ℕ
check_direct total [] = some total
check_direct total (c ∷ cs) =
    let rest = check_direct c.ref_offset cs in if ltb c.ref_offset total then none else rest

-- The chunks of a list at `list_offset`; `first` is true for its first chunk.
unfoldable pub check_chunks : ℕ → Bool → ℕ → List ChunkRef → Option ℕ
check_chunks list_offset first total [] = some total
check_chunks list_offset first total (c ∷ cs) =
    let absolute = add64 c.ref_offset list_offset in
    let rest = check_chunks list_offset false absolute cs in
    if first && not (c.ref_offset == 0) || ltb absolute total then none else rest

-- A list that is not loaded has only its offset.
unfoldable pub check_loaded : ℕ → ℕ → Option (Option (List ChunkRef)) → Option ℕ
check_loaded list_offset total none = some list_offset
check_loaded list_offset total (some none) = some list_offset
check_loaded list_offset total (some (some list)) = check_chunks list_offset true total list

-- `prev` is the last offset of the direct chunks; the source never changes it.
unfoldable pub is_list_disordered : Bool → ℕ → ℕ → ℕ → ℕ → Bool
is_list_disordered no_direct prev list_idx list_offset total =
    list_idx == 0 && no_direct && not (list_offset == 0)
    || not (list_idx == 0) && (leb list_offset prev || leb list_offset total)

unfoldable pub check_lists :
    Bool → ℕ → List (Option (List ChunkRef)) → ℕ → ℕ → List IndirectChunkList → Option ℕ
check_lists no_direct prev loaded list_idx total [] = some total
check_lists no_direct prev loaded list_idx total (l ∷ lists) =
    if is_list_disordered no_direct prev list_idx l.list_offset total
    then none
    else elim (check_loaded l.list_offset total (get_elem? loaded list_idx)) [
      | none ↦ none
      | some next ↦ check_lists no_direct prev loaded (suc list_idx) next lists
    ]

-- The last offset is inside the file, or the file is empty.
unfoldable pub is_below_size : ℕ → Option ℕ → Bool
is_below_size size none = false
is_below_size size (some total) = total == 0 && size == 0 || ltb total size

module _ {Child : Type 0} where
  unfoldable pub has_no_children : Asset Child → Bool
  has_no_children a =
      is_nil a.proto_lookup && is_nil a.proto.dir_assets && is_nil a.proto.dir_indirect_assets

  unfoldable pub has_no_chunks : Asset Child → Bool
  has_no_chunks a =
      is_nil a.proto.file_chunks && is_nil a.file_chunk_lists && is_nil a.proto.file_indirect_chunks

  -- Only what the type of the asset may have
  unfoldable pub fits_type : AssetType → Asset Child → Bool
  fits_type file a = has_no_children a && is_nil a.proto.symlink_target
  fits_type directory a = has_no_chunks a && is_nil a.proto.symlink_target && a.proto.file_size == 0
  fits_type symlink a = has_no_children a && has_no_chunks a && a.proto.file_size == 0
  fits_type unknown a = false

  -- The last offset of all chunks and lists
  unfoldable pub last_offset : Asset Child → Option ℕ
  last_offset a = elim (check_direct 0 a.proto.file_chunks) [
    | none ↦ none
    | some prev ↦
        check_lists (is_nil a.proto.file_chunks) prev a.file_chunk_lists 0 prev
          a.proto.file_indirect_chunks
  ]

  unfoldable pub is_consistent : Asset Child → Bool
  is_consistent a =
      fits_type a.proto.asset_type a
      && (not (is_file a.proto.asset_type) || is_below_size a.proto.file_size (last_offset a))
