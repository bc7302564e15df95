-- ===== src/FileDiff.antt =====
-- cdc_rsync_server/file_diff_generator.cc and file_info.h: the diff between the client's and the
-- server's files and directories. A `const char*` base directory is its address, 0 for null; times
-- and sizes are the words that hold them. Each list of the result has its files in the order in which
-- they are pushed.
pub mod Buckets
pub mod Paths
pub mod Sorting
pub mod Sorted
pub mod SamePaths
pub mod Generate
use cdc_file_transfer.Prelude.{
  ℕ, zero, suc, ◌+◌, Bool, true, false, not, ◌&&◌, ◌||◌, List, [], ◌∷◌, ◌++◌, Option, none, some,
  map, length, ltb, ◌==◌, if◌then◌else◌,
}
use cdc_file_transfer.Prelude.Words.{add64, to_u32}

-- `kInvalidIndex`
abbrev pub invalid_index : ℕ
invalid_index = 0xffffffff

pub record FileInfo : Type 0 where
  pub filepath : List ℕ
  pub modified_time : ℕ
  pub size : ℕ
  pub client_index : ℕ
  pub base_dir : ℕ

pub record DirInfo : Type 0 where
  pub filepath : List ℕ
  pub client_index : ℕ
  pub base_dir : ℕ

pub record ChangedFileInfo : Type 0 where
  pub filepath : List ℕ
  pub client_modified_time : ℕ
  pub client_size : ℕ
  pub server_size : ℕ
  pub client_index : ℕ
  pub base_dir : ℕ

-- The constructor of `ChangedFileInfo`.
pub changed_file : FileInfo → FileInfo → ChangedFileInfo
changed_file server_file client_file = record {
  filepath = client_file.filepath;
  client_modified_time = client_file.modified_time;
  client_size = client_file.size;
  server_size = server_file.size;
  client_index = client_file.client_index;
  base_dir = server_file.base_dir;
}

-- `file_diff::Result`
pub record Diff : Type 0 where
  pub missing_files : List FileInfo
  pub extraneous_files : List FileInfo
  pub changed_files : List ChangedFileInfo
  pub matching_files : List FileInfo
  pub missing_dirs : List DirInfo
  pub extraneous_dirs : List DirInfo
  pub matching_dirs : List DirInfo

abbrev pub empty_diff : Diff
empty_diff = record {
  missing_files = [];
  extraneous_files = [];
  changed_files = [];
  matching_files = [];
  missing_dirs = [];
  extraneous_dirs = [];
  matching_dirs = [];
}

-- The sign of `compare`.
pub data Sign : Type 0 where
  less : Sign
  equal : Sign
  greater : Sign

-- `std::string::compare`: byte by byte, and a prefix comes first.
unfoldable pub compare_paths : List ℕ → List ℕ → Sign
compare_paths [] [] = equal
compare_paths [] (y ∷ ys) = less
compare_paths (x ∷ xs) [] = greater
compare_paths (x ∷ xs) (y ∷ ys) =
    let rest = compare_paths xs ys in if ltb x y then less else (if ltb y x then greater else rest)

abbrev pub is_less : Sign → Bool
is_less less = true
is_less _ = false

abbrev pub is_equal : Sign → Bool
is_equal equal = true
is_equal _ = false

-- `std::sort` and `std::unique` on what `path` tells of the elements.
module _ {A : Type 0} (path : A → List ℕ) where
  unfoldable pub insert_by : A → List A → List A
  insert_by a [] = a ∷ []
  insert_by a (b ∷ bs) =
      let rest = insert_by a bs in
      if is_less (compare_paths (path b) (path a)) then b ∷ rest else a ∷ b ∷ bs

  unfoldable pub sort_by : List A → List A
  sort_by [] = []
  sort_by (a ∷ xs) = insert_by a (sort_by xs)

  -- The elements behind `last` that differ from the one before.
  pub unique_from : A → List A → List A
  unique_from last [] = []
  unique_from last (a ∷ xs) =
      let kept = a ∷ unique_from a xs in
      let dropped = unique_from last xs in
      if is_equal (compare_paths (path last) (path a)) then dropped else kept

  pub unique_by : List A → List A
  unique_by [] = []
  unique_by (a ∷ xs) = a ∷ unique_from a xs

abbrev pub file_path : FileInfo → List ℕ
file_path f = f.filepath

abbrev pub dir_path : DirInfo → List ℕ
dir_path d = d.filepath

-- A directory argument: the address of its text, and whether the text is empty.
pub record Directory : Type 0 where
  pub address : ℕ
  pub is_empty : Bool

pub files_match : FileInfo → FileInfo → Directory → Bool
files_match client_file server_file copy_dest =
    client_file.size == server_file.size
    && (client_file.modified_time == server_file.modified_time
        && (copy_dest.is_empty || not (server_file.base_dir == copy_dest.address)))

-- `get_stats` is `path::GetStats` on a path in a directory: time and size, if the file is there.
module _ (get_stats : Directory → List ℕ → Option (ℕ × ℕ)) where
  pub find_file : Directory → List ℕ → Option FileInfo
  find_file dir relative_path = elim (get_stats dir relative_path) [
    | none ↦ none
    | some (time, size) ↦ some (record {
      filepath = relative_path;
      modified_time = time;
      size = size;
      client_index = invalid_index;
      base_dir = dir.address;
    })
  ]

  module _ (base_dir copy_dest : Directory) (double_check_missing : Bool) where
    -- The file that the double check finds.
    pub found_file : List ℕ → Option FileInfo
    found_file relative_path =
        if double_check_missing
        then elim (find_file base_dir relative_path) [
          | some f ↦ some f
          | none ↦ if copy_dest.is_empty then none else find_file copy_dest relative_path
        ]
        else none

    -- A client's file and the server's file of that path.
    pub pair_files : FileInfo → FileInfo → Diff → Diff
    pair_files client_file server_file diff =
        if files_match client_file server_file copy_dest
        then record diff { matching_files = client_file ∷ diff.matching_files }
        else record diff {
          changed_files = changed_file server_file client_file ∷ diff.changed_files;
        }

    -- `order < 0`
    pub client_only : FileInfo → Diff → Diff
    client_only client_file diff = elim (found_file client_file.filepath) [
      | none ↦ record diff { missing_files = client_file ∷ diff.missing_files }
      | some server_file ↦ pair_files client_file server_file diff
    ]

    -- The loop over the files, with fuel for each of them.
    pub compare_files : ℕ → List FileInfo → List FileInfo → Diff
    compare_files zero cs ss = empty_diff
    compare_files (suc fuel) [] [] = empty_diff
    compare_files (suc fuel) [] (s ∷ ss) =
        let diff = compare_files fuel [] ss in
        record diff { extraneous_files = s ∷ diff.extraneous_files }
    compare_files (suc fuel) (c ∷ cs) [] = client_only c (compare_files fuel cs [])
    compare_files (suc fuel) (c ∷ cs) (s ∷ ss) = elim (compare_paths c.filepath s.filepath) [
      | less ↦ client_only c (compare_files fuel cs (s ∷ ss))
      | greater ↦
          let diff = compare_files fuel (c ∷ cs) ss in
          record diff { extraneous_files = s ∷ diff.extraneous_files }
      | equal ↦ pair_files c s (compare_files fuel cs ss)
    ]

    -- A directory on both sides.
    pub pair_dirs : DirInfo → DirInfo → Diff → Diff
    pair_dirs client_dir server_dir diff =
        if not copy_dest.is_empty && server_dir.base_dir == copy_dest.address
        then record diff { missing_dirs = client_dir ∷ diff.missing_dirs }
        else record diff { matching_dirs = client_dir ∷ diff.matching_dirs }

    -- The loop over the directories, which adds to the lists for files.
    pub compare_dirs : ℕ → Diff → List DirInfo → List DirInfo → Diff
    compare_dirs zero files cs ss = files
    compare_dirs (suc fuel) files [] [] = files
    compare_dirs (suc fuel) files [] (s ∷ ss) =
        let diff = compare_dirs fuel files [] ss in
        record diff { extraneous_dirs = s ∷ diff.extraneous_dirs }
    compare_dirs (suc fuel) files (c ∷ cs) [] =
        let diff = compare_dirs fuel files cs [] in
        record diff { missing_dirs = c ∷ diff.missing_dirs }
    compare_dirs (suc fuel) files (c ∷ cs) (s ∷ ss) = elim (compare_paths c.filepath s.filepath) [
      | less ↦
          let diff = compare_dirs fuel files cs (s ∷ ss) in
          record diff { missing_dirs = c ∷ diff.missing_dirs }
      | greater ↦
          let diff = compare_dirs fuel files (c ∷ cs) ss in
          record diff { extraneous_dirs = s ∷ diff.extraneous_dirs }
      | equal ↦ pair_dirs c s (compare_dirs fuel files cs ss)
    ]

    -- `std::remove_if` for what lies in the directory
    pub outside_files : List FileInfo → List FileInfo
    outside_files [] = []
    outside_files (f ∷ fs) =
        let rest = outside_files fs in if copy_dest.address == f.base_dir then rest else f ∷ rest

    pub outside_dirs : List DirInfo → List DirInfo
    outside_dirs [] = []
    outside_dirs (d ∷ ds) =
        let rest = outside_dirs ds in if copy_dest.address == d.base_dir then rest else d ∷ rest

    pub keep_copy_dest : Diff → Diff
    keep_copy_dest diff = if copy_dest.is_empty then diff else record diff {
      extraneous_files = outside_files diff.extraneous_files;
      extraneous_dirs = outside_dirs diff.extraneous_dirs;
    }

    pub generate : List FileInfo → List FileInfo → List DirInfo → List DirInfo → Diff
    generate client_files server_files client_dirs server_dirs =
        let cf = unique_by file_path (sort_by file_path client_files) in
        let sf = sort_by file_path server_files in
        let cd = unique_by dir_path (sort_by dir_path client_dirs) in
        let sd = sort_by dir_path server_dirs in
        let files = compare_files (length cf + length sf) cf sf in
        keep_copy_dest (compare_dirs (length cd + length sd) files cd sd)

-- `SendFileStatsResponse`
pub record FileStats : Type 0 where
  pub num_missing_files : ℕ
  pub num_extraneous_files : ℕ
  pub num_matching_files : ℕ
  pub num_changed_files : ℕ
  pub num_missing_dirs : ℕ
  pub num_extraneous_dirs : ℕ
  pub num_matching_dirs : ℕ
  pub total_missing_bytes : ℕ
  pub total_changed_client_bytes : ℕ
  pub total_changed_server_bytes : ℕ

-- `existing`: missing files are not copied.
pub drop_missing : Bool → Diff → Diff
drop_missing existing diff =
    if existing then record diff { missing_files = []; missing_dirs = [] } else diff

-- `checksum`: matching files become changed files. A file is its own server file.
pub match_to_changed : Bool → Diff → Diff
match_to_changed checksum diff =
    if checksum
    then record diff {
      changed_files = diff.changed_files ++ map (λ f. changed_file f f) diff.matching_files;
      matching_files = [];
    }
    else diff

pub as_missing : ChangedFileInfo → FileInfo
as_missing f = record {
  filepath = f.filepath;
  modified_time = f.client_modified_time;
  size = f.client_size;
  client_index = f.client_index;
  base_dir = 0;
}

-- `whole_file`: changed files become missing files.
pub changed_to_missing : Bool → Diff → Diff
changed_to_missing whole_file diff =
    if whole_file
    then record diff {
      missing_files = diff.missing_files ++ map as_missing diff.changed_files;
      changed_files = [];
    }
    else diff

-- The loops that add sizes up, on 64 bits.
pub total_of {ℓ} : {A : Type ℓ} → (A → ℕ) → ℕ → List A → ℕ
total_of size total [] = total
total_of size total (a ∷ xs) = total_of size (add64 total (size a)) xs

pub adjust_to_flags : Bool → Bool → Bool → Diff → Diff
adjust_to_flags existing checksum whole_file diff =
    changed_to_missing whole_file (match_to_changed checksum (drop_missing existing diff))

pub adjust_to_flags_and_get_stats : Bool → Bool → Bool → Diff → Diff × FileStats
adjust_to_flags_and_get_stats existing checksum whole_file diff =
    let adjusted = adjust_to_flags existing checksum whole_file diff in
    (
      adjusted,
      record {
        num_missing_files = to_u32 (length diff.missing_files);
        num_extraneous_files = to_u32 (length diff.extraneous_files);
        num_matching_files = to_u32 (length diff.matching_files);
        num_changed_files = to_u32 (length diff.changed_files);
        num_missing_dirs = to_u32 (length diff.missing_dirs);
        num_extraneous_dirs = to_u32 (length diff.extraneous_dirs);
        num_matching_dirs = to_u32 (length diff.matching_dirs);
        total_missing_bytes = total_of (λ (f : FileInfo). f.size) 0 adjusted.missing_files;
        total_changed_client_bytes =
            total_of (λ (f : ChangedFileInfo). f.client_size) 0 adjusted.changed_files;
        total_changed_server_bytes =
            total_of (λ (f : ChangedFileInfo). f.server_size) 0 adjusted.changed_files;
      },
    )
