-- ===== src/FileDiff/Buckets.antt =====
-- cdc_rsync_server/file_diff_generator.cc: the flags keep the client's files.
use mathlib.Core.List.{map-append}
use cdc_file_transfer.Prelude.{
  ℕ, ◌≡◌, refl, ap, ◌∙◌, Bool, true, false, List, [], ◌∷◌, ◌++◌, map, append-nil, append_assoc,
}
use cdc_file_transfer.FileDiff.{
  FileInfo, ChangedFileInfo, Diff, changed_file, drop_missing, match_to_changed, as_missing,
  changed_to_missing, adjust_to_flags,
}

-- The client's indices of all its files, list by list.
abbrev pub client_indices : Diff → List ℕ
client_indices diff =
    map (λ (f : FileInfo). f.client_index) diff.missing_files
    ++ (map (λ (f : ChangedFileInfo). f.client_index) diff.changed_files
        ++ map (λ (f : FileInfo). f.client_index) diff.matching_files)

map-changed :
    (fs : List FileInfo)
    → map (λ (f : ChangedFileInfo). f.client_index) (map (λ f. changed_file f f) fs)
      ≡ map (λ (f : FileInfo). f.client_index) fs
unfolding changed_file
map-changed [] = refl
map-changed (f ∷ fs) = ap (◌∷◌ f.client_index) (map-changed fs)

map-as_missing :
    (fs : List ChangedFileInfo)
    → map (λ (f : FileInfo). f.client_index) (map as_missing fs)
      ≡ map (λ (f : ChangedFileInfo). f.client_index) fs
unfolding as_missing
map-as_missing [] = refl
map-as_missing (f ∷ fs) = ap (◌∷◌ f.client_index) (map-as_missing fs)

match_to_changed-keeps :
    (b : Bool) (d : Diff) → client_indices (match_to_changed b d) ≡ client_indices d
unfolding match_to_changed
match_to_changed-keeps false d = refl
match_to_changed-keeps true d =
    ap (λ x. map (λ (f : FileInfo). f.client_index) d.missing_files ++ x)
      (append-nil _
        ∙ (map-append (λ (f : ChangedFileInfo). f.client_index) d.changed_files
              (map (λ f. changed_file f f) d.matching_files)
            ∙ ap (λ x. map (λ (f : ChangedFileInfo). f.client_index) d.changed_files ++ x)
                (map-changed d.matching_files)))

changed_to_missing-keeps :
    (b : Bool) (d : Diff) → client_indices (changed_to_missing b d) ≡ client_indices d
unfolding changed_to_missing
changed_to_missing-keeps false d = refl
changed_to_missing-keeps true d =
    ap (λ x. x ++ map (λ (f : FileInfo). f.client_index) d.matching_files)
      (map-append (λ (f : FileInfo). f.client_index) d.missing_files
          (map as_missing d.changed_files)
        ∙ ap (λ x. map (λ (f : FileInfo). f.client_index) d.missing_files ++ x)
            (map-as_missing d.changed_files))
    ∙ append_assoc (map (λ (f : FileInfo). f.client_index) d.missing_files)
        (map (λ (f : ChangedFileInfo). f.client_index) d.changed_files)
        (map (λ (f : FileInfo). f.client_index) d.matching_files)

-- Without --existing, the flags --checksum and --whole keep the client indices of the missing,
-- changed and matching files, list behind list, in their order; with --existing, those of the
-- changed and matching files.
pub adjust_to_flags-client_indices :
    (checksum whole_file : Bool) (diff : Diff)
    → (client_indices (adjust_to_flags false checksum whole_file diff) ≡ client_indices diff)
      × (client_indices (adjust_to_flags true checksum whole_file diff)
          ≡ map (λ (f : ChangedFileInfo). f.client_index) diff.changed_files
            ++ map (λ (f : FileInfo). f.client_index) diff.matching_files)
unfolding adjust_to_flags drop_missing
adjust_to_flags-client_indices checksum whole_file diff = (
  changed_to_missing-keeps whole_file (match_to_changed checksum diff)
      ∙ match_to_changed-keeps checksum diff,
  changed_to_missing-keeps whole_file
        (match_to_changed checksum (record diff { missing_files = []; missing_dirs = [] }))
      ∙ match_to_changed-keeps checksum (record diff { missing_files = []; missing_dirs = [] }),
)
