-- ===== src/Tests/Assets.antt =====
-- A file and a directory of a manifest, read and looked up.
use cdc_file_transfer.Prelude.{
  get_elem?, ℕ, ◌≡◌, ◌⊎◌, inr, refl, ap, sym, ◌+◌, List, [], ◌∷◌, Option, some, none, arith, zero,
  suc, true, ◌<◌,
}
use mathlib.Core.Option.{some-ne-none}
use cdc_file_transfer.Prelude.Status.{Code, Result, ok, err, not_found}
use cdc_file_transfer.Prelude.Dict.{lookup}
use cdc_file_transfer.PendingAssets.{file, directory}
use cdc_file_transfer.FileChunkMap.{ChunkRef}
use cdc_file_transfer.DataStore.{ChunkTask}
use cdc_file_transfer.DataStore.Mem.{MemStore, get_list, mem_writer}
use cdc_file_transfer.DataStore.Right.{Holds}
use cdc_file_transfer.DataStore.Mem.Serve.{mem-Holds, get_list-IsRightList}
use cdc_file_transfer.FuseAsset.{
  AssetProto, Asset, initialize, is_directory, chunk_list_offset, lookup_child,
}
use cdc_file_transfer.FuseAsset.Cached.{AreStored, IsCached}
use cdc_file_transfer.FuseAsset.Layout.{Rest}
use cdc_file_transfer.FuseAsset.Children.{Finds, lookup_child_lem}
use cdc_file_transfer.Prelude.Words.{add64}
use cdc_file_transfer.FuseAsset.Consistent.{
  is_nil, check_direct, check_chunks, check_loaded, is_list_disordered, check_lists, last_offset,
  is_below_size, has_no_children, fits_type, is_consistent,
}
use cdc_file_transfer.FuseAsset.Consistent.Ascending.{Ascends, list_offsets, is_consistent_lem}
use cdc_file_transfer.FuseAsset.Read.{is_file, read}
use cdc_file_transfer.FuseAsset.Read.Loop.{slices}
use cdc_file_transfer.FuseAsset.Read.Buffer.{Fails, content}
use cdc_file_transfer.FuseAsset.Read.File.{read_lem}

-- Children are their names here.
abbrev folder : AssetProto (List ℕ)
folder = record {
  asset_type = directory;
  file_size = 0;
  file_chunks = [];
  file_indirect_chunks = [];
  dir_assets = (97 ∷ []) ∷ [];
  dir_indirect_assets = (1 ∷ []) ∷ [];
  symlink_target = [];
}

abbrev folder_list : List ℕ → List (List ℕ)
folder_list id = (98 ∷ []) ∷ (99 ∷ []) ∷ []

lookup_child_lem_example :
    Finds
      (λ x. x)
      (99 ∷ [])
      (λ id. ok (folder_list id))
      folder_list
      folder
      (lookup_child (λ x. x) (λ id. ok (folder_list id)) (99 ∷ []) (initialize (λ x. x) folder))
unfolding is_directory
lookup_child_lem_example =
    lookup_child_lem (λ x. x) (99 ∷ []) (λ id. ok (folder_list id)) folder_list folder refl
      (refl, tt)

abbrev chunks : MemStore
chunks =
    record { key = 5 ∷ []; value = 1 ∷ 2 ∷ [] }
    ∷ record { key = 6 ∷ []; value = 3 ∷ 4 ∷ 5 ∷ [] }
    ∷ []

abbrev or_empty : Option (List ℕ) → List ℕ
or_empty none = []
or_empty (some b) = b

abbrev chunk_of : List ℕ → List ℕ
chunk_of id = or_empty (lookup id chunks)

chunks-Holds : Holds (content chunk_of) mem_writer chunks
chunks-Holds id b e = ap (λ x. some (or_empty x)) (mem-Holds chunks id b e)

abbrev text : AssetProto (List ℕ)
text = record {
  asset_type = file;
  file_size = 5;
  file_chunks =
      record { chunk_id = 5 ∷ []; ref_offset = 0 }
      ∷ record { chunk_id = 6 ∷ []; ref_offset = 2 }
      ∷ [];
  file_indirect_chunks = [];
  dir_assets = [];
  dir_indirect_assets = [];
  symlink_target = [];
}

abbrev no_lists : List ℕ → Result (List ChunkRef)
no_lists id = err not_found

text-AreStored : AreStored no_lists (λ id. []) text
text-AreStored i l e = absurd (some-ne-none l (sym e))

text-IsCached : IsCached no_lists (λ id. []) text (initialize (λ x. x) text)
unfolding initialize
text-IsCached = (refl, (λ i list l e f. absurd (some-ne-none (some list) (sym e))))

text-Rest : Rest (λ id. []) chunk_of text 3 0 text.file_chunks 0 (1 ∷ 2 ∷ 3 ∷ 4 ∷ 5 ∷ [])
unfolding chunk_list_offset
text-Rest = (refl, (3 ∷ 4 ∷ 5 ∷ []), refl, (refl, [], refl, inr (refl, refl, refl)))

read_lem_example :
    ((code : Code) × (tasks : List ChunkTask) × (read no_lists
          (get_list chunks)
          (λ n. n + 1)
          3
          1
          3
          (initialize (λ x. x) text)
        ≡ err code)
      × (slices chunk_of tasks ≡ 2 ∷ 3 ∷ 4 ∷ [])
      × Fails chunk_of (get_list chunks) code tasks)
    ⊎ ((a' : Asset (List ℕ)) × (read no_lists
            (get_list chunks)
            (λ n. n + 1)
            3
            1
            3
            (initialize (λ x. x) text)
          ≡ ok ((2 ∷ 3 ∷ 4 ∷ [], 3), a'))
        × IsCached no_lists (λ id. []) text a')
unfolding is_file
read_lem_example =
    read_lem no_lists (get_list chunks) (λ n. n + 1) (λ id. []) chunk_of text 3 3 1 3
      (1 ∷ 2 ∷ 3 ∷ 4 ∷ 5 ∷ []) (initialize (λ x. x) text) (omega arith) text-AreStored refl
      (omega arith) text-Rest text-IsCached (omega arith)
      (λ tasks tasks' e a.
        get_list-IsRightList (content chunk_of) chunks tasks tasks' chunks-Holds e a)

-- A file with a direct chunk and a loaded list
abbrev long : Asset (List ℕ)
long = record {
  proto = record text {
    file_size = 9;
    file_indirect_chunks = record { list_offset = 5; chunk_list_id = 1 ∷ [] } ∷ [];
  };
  file_chunk_lists = some (record { chunk_id = 7 ∷ []; ref_offset = 0 } ∷ []) ∷ [];
  dir_asset_lists = [];
  proto_lookup = [];
}

abbrev long_lists : ℕ → List ChunkRef
long_lists i = record { chunk_id = 7 ∷ []; ref_offset = 0 } ∷ []

long-loaded : (i : ℕ) → i < 1 → get_elem? long.file_chunk_lists i ≡ some (some (long_lists i))
long-loaded zero h = refl
long-loaded (suc i) h = absurd (omega (arith, h))

long-is_consistent : is_consistent long ≡ true
unfolding is_consistent is_file fits_type has_no_children is_nil last_offset check_direct
    check_lists check_loaded check_chunks add64 is_list_disordered is_below_size
long-is_consistent = refl

is_consistent_lem_example :
    (last : ℕ) × Ascends 0 (0 ∷ 2 ∷ list_offsets long_lists 0 long.proto.file_indirect_chunks) last
    × ((last < long.proto.file_size) ⊎ ((last ≡ 0) × (long.proto.file_size ≡ 0)))
unfolding is_file
is_consistent_lem_example = is_consistent_lem long long_lists refl long-loaded long-is_consistent

-- The list that is not loaded begins before the second direct chunk.
abbrev disordered : Asset (List ℕ)
disordered = record {
  proto = record text {
    file_size = 2;
    file_indirect_chunks = record { list_offset = 1; chunk_list_id = 1 ∷ [] } ∷ [];
  };
  file_chunk_lists = [];
  dir_asset_lists = [];
  proto_lookup = [];
}

disordered-is_consistent : is_consistent disordered ≡ true
unfolding is_consistent is_file fits_type has_no_children is_nil last_offset check_direct
    check_lists check_loaded is_list_disordered is_below_size
disordered-is_consistent = refl
