-- ===== src/FileDiff/Generate.antt =====
-- cdc_rsync_server/file_diff_generator.cc: `Generate` on lists of files in any order.
use cdc_file_transfer.Prelude.{ℕ, ◌≡◌, Bool, List, Option, if◌then◌else◌}
use cdc_file_transfer.FileDiff.{FileInfo, Diff, Directory, outside_files}
use cdc_file_transfer.FileDiff.Sorting.{searched}

-- The same lists of files.
abbrev HasFiles : Diff → Diff → Type 0
HasFiles d e =
    (d.missing_files ≡ e.missing_files)
    × (d.changed_files ≡ e.changed_files)
    × (d.matching_files ≡ e.matching_files)
    × (d.extraneous_files ≡ e.extraneous_files)

module _ (get_stats : Directory → List ℕ → Option (ℕ × ℕ)) (base_dir copy_dest : Directory)
    (double_check_missing : Bool) where
  -- What Generate says of the files, by searches.
  abbrev pub Places : List FileInfo → List FileInfo → Diff → Type 0
  Places cs ss d =
      let files = searched get_stats base_dir copy_dest double_check_missing cs ss in
      (d.missing_files ≡ files.missing_files)
      × (d.changed_files ≡ files.changed_files)
      × (d.matching_files ≡ files.matching_files)
      × (d.extraneous_files ≡ (
          if copy_dest.is_empty
          then files.extraneous_files
          else outside_files get_stats base_dir copy_dest double_check_missing
              files.extraneous_files))
