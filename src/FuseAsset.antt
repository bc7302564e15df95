-- ===== src/FuseAsset.antt =====
-- cdc_fuse_fs/asset.cc: `Asset`, a file or a directory of a manifest whose lists are fetched when they
-- are needed. Protos of children are of the type `Child`. The index of a list of chunks is one more
-- than in the source, where the direct list has -1.
pub mod Children
pub mod Cached
pub mod Layout
pub mod Read
pub mod Consistent
use cdc_file_transfer.Prelude.{
  ℕ, zero, suc, ◌+◌, ◌-◌, ◌^◌, ◌%◌, min, Bool, true, false, not, ◌&&◌, ◌||◌, List, [], ◌∷◌, ◌++◌,
  map, Option, none, some, length, get_elem?, set, replicate, flatten, ltb, leb, ◌==◌,
  if◌then◌else◌,
}
use cdc_file_transfer.Prelude.Status.{
  Result, ok, err, invalid_argument, internal, data_loss, out_of_fuel, ◌>>=◌,
}
use cdc_file_transfer.Prelude.Dict.{Entry, lookup, insert}
use cdc_file_transfer.PendingAssets.{AssetType, file, directory, symlink, unknown}
use cdc_file_transfer.FileChunkMap.{ChunkRef}
use cdc_file_transfer.DataStore.{ChunkTask, new_task, read_done}

-- `IndirectChunkListProto`
pub record IndirectChunkList : Type 0 where
  pub list_offset : ℕ
  pub chunk_list_id : List ℕ

-- `AssetProto`, as far as `Asset` reads it.
pub record AssetProto (Child : Type 0) : Type 0 where
  pub asset_type : AssetType
  pub file_size : ℕ
  pub file_chunks : List ChunkRef
  pub file_indirect_chunks : List IndirectChunkList
  pub dir_assets : List Child
  pub dir_indirect_assets : List (List ℕ)
  pub symlink_target : List ℕ

-- The lists fetched so far, and the children by name.
pub record Asset (Child : Type 0) : Type 0 where
  pub proto : AssetProto Child
  pub file_chunk_lists : List (Option (List ChunkRef))
  pub dir_asset_lists : List (List Child)
  pub proto_lookup : List (Entry Child)

pub loaded_child_protos : {Child : Type 0} → Asset Child → List Child
loaded_child_protos a = map (λ e. e.value) a.proto_lookup

unfoldable pub is_directory : AssetType → Bool
is_directory directory = true
is_directory _ = false

module _ {Child : Type 0} (name : Child → List ℕ) where
  pub update_proto_lookup : List Child → List (Entry Child) → List (Entry Child)
  update_proto_lookup [] m = m
  update_proto_lookup (c ∷ list) m = update_proto_lookup list (insert (name c) c m)

  -- `Initialize`, and `UpdateProto` with a proto
  unfoldable pub initialize : AssetProto Child → Asset Child
  initialize proto = record {
    proto = proto;
    file_chunk_lists = [];
    dir_asset_lists = [];
    proto_lookup = update_proto_lookup proto.dir_assets [];
  }

  -- `get_list` is `GetProto` for an `AssetListProto`.
  module _ (get_list : List ℕ → Result (List Child)) where
    pub add_list : List Child → Asset Child → Asset Child
    add_list list a = record a {
      dir_asset_lists = a.dir_asset_lists ++ list ∷ [];
      proto_lookup = update_proto_lookup list a.proto_lookup;
    }

    -- Whether a list was fetched. No other thread is between the two tests of its size.
    pub fetch_next_dir_asset_list : Asset Child → Result (Bool × Asset Child)
    fetch_next_dir_asset_list a =
        elim (get_elem? a.proto.dir_indirect_assets (length a.dir_asset_lists)) [
          | none ↦ ok (false, a)
          | some id ↦ get_list id >>= λ list. ok (true, add_list list a)
        ]

    -- The loop of `Lookup`, with more fuel than there are lists to fetch.
    pub lookup_loop : ℕ → List ℕ → Asset Child → Result (Option Child × Asset Child)
    lookup_loop zero wanted a = err out_of_fuel
    lookup_loop (suc fuel) wanted a = elim (lookup wanted a.proto_lookup) [
      | some c ↦ ok (some c, a)
      | none ↦ fetch_next_dir_asset_list a >>= λ x.
          let more = lookup_loop fuel wanted x.1 in if x.0 then more else ok (none, x.1)
    ]

    pub lookup_child : List ℕ → Asset Child → Result (Option Child × Asset Child)
    lookup_child wanted a =
        if is_directory a.proto.asset_type
        then lookup_loop (suc (length a.proto.dir_indirect_assets)) wanted a
        else err invalid_argument

    -- The loop of `GetAllChildProtos`
    pub fetch_all : ℕ → Asset Child → Result (Asset Child)
    fetch_all zero a = err out_of_fuel
    fetch_all (suc fuel) a = fetch_next_dir_asset_list a >>= λ x.
        let more = fetch_all fuel x.1 in if x.0 then more else ok x.1

    pub get_all_child_protos : Asset Child → Result (List Child × Asset Child)
    get_all_child_protos a =
        if is_directory a.proto.asset_type
        then (fetch_all (suc (length a.proto.dir_indirect_assets)) a >>= λ a'.
            ok (loaded_child_protos a', a'))
        else err invalid_argument

-- `std::upper_bound` on a list in which the offsets above `value` are all at the end: the number of
-- the others.
pub upper_bound : ℕ → List ℕ → ℕ
upper_bound value [] = 0
upper_bound value (o ∷ offsets) =
    let rest = upper_bound value offsets in if ltb value o then 0 else suc rest

-- The difference of 64-bit words.
pub sub64 : ℕ → ℕ → ℕ
sub64 a b = (a + 2 ^ 64 - b) % 2 ^ 64

-- `none` for -1
pub find_chunk_index : List ChunkRef → ℕ → ℕ → Option ℕ
find_chunk_index chunks chunk_list_offset chunk_offset =
    elim (upper_bound (sub64 chunk_offset chunk_list_offset) (map (λ c. c.ref_offset) chunks)) [
      | zero ↦ none
      | suc n ↦ some n
    ]

-- The resized list of lists
pub resized : ℕ → List (Option (List ChunkRef)) → List (Option (List ChunkRef))
resized n lists = lists ++ replicate (n - length lists) none

module _ {Child : Type 0} where
  pub find_chunk_list : ℕ → AssetProto Child → ℕ
  find_chunk_list offset p =
      if leb p.file_size offset
      then suc (length p.file_indirect_chunks)
      else upper_bound offset (map (λ l. l.list_offset) p.file_indirect_chunks)

  unfoldable pub chunk_list_offset : ℕ → AssetProto Child → ℕ
  chunk_list_offset zero p = 0
  chunk_list_offset (suc i) p = elim (get_elem? p.file_indirect_chunks i) [
    | none ↦ p.file_size
    | some l ↦ l.list_offset
  ]

  -- The size of a chunk, given the one behind it in its list, if any.
  pub chunk_size : ℕ → ChunkRef → Option ChunkRef → AssetProto Child → ℕ
  chunk_size list_no c (some next) p = sub64 next.ref_offset c.ref_offset
  chunk_size list_no c none p =
      sub64 (chunk_list_offset (suc list_no) p) (c.ref_offset + chunk_list_offset list_no p)

  -- `get_list` is `GetProto` for a `ChunkListProto`.
  module _ (get_list : List ℕ → Result (List ChunkRef)) where
    pub fetch_chunk_list : ℕ → List ℕ → Asset Child → Result (Option (List ChunkRef) × Asset Child)
    fetch_chunk_list i id a = get_list id >>= λ list. ok (
      some list,
      record a { file_chunk_lists = set (resized (suc i) a.file_chunk_lists) i (some list) },
    )

    -- A list of chunks that is loaded, or is fetched; `none` at the end of the file.
    pub get_chunk_ref_list : ℕ → Asset Child → Result (Option (List ChunkRef) × Asset Child)
    get_chunk_ref_list zero a = ok (some a.proto.file_chunks, a)
    get_chunk_ref_list (suc i) a = elim (get_elem? a.proto.file_indirect_chunks i) [
      | none ↦ ok (none, a)
      | some l ↦ elim (get_elem? a.file_chunk_lists i) [
        | none ↦ fetch_chunk_list i l.chunk_list_id a
        | some none ↦ fetch_chunk_list i l.chunk_list_id a
        | some (some list) ↦ ok (some list, a)
      ]
    ]
