-- ===== src/Tests/Server.antt =====
-- The server's and the manifest's parts on small inputs.
use cdc_file_transfer.Prelude.{
  ℕ, ◌<◌, ◌≡◌, ◌⊎◌, refl, List, [], ◌∷◌, ◌++◌, Option, some, none, arith, length, All, Bool, true,
  false, map,
}
use cdc_file_transfer.AnsiFilter.{remove_escape_sequences, esc, dcsi, csi}
use cdc_file_transfer.AnsiFilter.Output.{
  IsText, remove_escape_sequences-IsText, remove_escape_sequences_control,
}
use cdc_file_transfer.PendingAssets.{PendingAsset, Asset, file, add, dequeue, prioritize}
use cdc_file_transfer.PendingAssets.Ordered.{
  IsOrdered, Taken, add-IsOrdered, dequeue_lem, prioritize-IsOrdered,
}
use cdc_file_transfer.FileDiff.{
  FileInfo, ChangedFileInfo, Diff, Directory, changed_file, compare_files, adjust_to_flags,
  empty_diff,
}
use cdc_file_transfer.FileDiff.{compare_paths}
use cdc_file_transfer.FileDiff.Sorting.{IsRising, searched, compare_files_lem}
use cdc_file_transfer.FileDiff.Buckets.{client_indices, adjust_to_flags-client_indices}
use cdc_file_transfer.Threads.{Act, act_queue, act_get, act_work, run, start}
use cdc_file_transfer.Threads.Count.{IsCounted, outstanding_task_count_lem}
use cdc_file_transfer.Threads.Fifo.{gotten_lem}
use cdc_file_transfer.ContentId.{to_hex_string, from_hex_string}
use cdc_file_transfer.ContentId.Hex.{from_hex_string-to_hex_string, to_hex_string-from_hex_string}

remove_escape_sequences-IsText_example :
    All IsText (remove_escape_sequences (b'a' ∷ csi ∷ b'm' ∷ b'b' ∷ dcsi ∷ []))
remove_escape_sequences-IsText_example =
    remove_escape_sequences-IsText (b'a' ∷ csi ∷ b'm' ∷ b'b' ∷ dcsi ∷ [])

-- The colour of a terminal's text.
remove_escape_sequences_control_example :
    remove_escape_sequences (esc ∷ b'[' ∷ (b'3' ∷ b'1' ∷ []) ++ b'm' ∷ b'x' ∷ [])
    ≡ remove_escape_sequences (b'x' ∷ [])
remove_escape_sequences_control_example =
    remove_escape_sequences_control (b'3' ∷ b'1' ∷ []) b'm' (b'x' ∷ [])
      (omega arith, (omega arith, tt)) (omega arith) (omega arith)

abbrev task : ℕ → Option ℕ → PendingAsset
task name deadline = record {
  asset_type = file;
  relative_path = [];
  filename = name ∷ [];
  prioritized = false;
  deadline = deadline;
}

abbrev tasks : List PendingAsset
tasks = task 1 (some 7) ∷ task 2 none ∷ task 3 none ∷ []

tasks-IsOrdered : IsOrdered tasks
tasks-IsOrdered = ((λ e. cc), ((λ e. (refl, tt)), ((λ e. tt), tt)))

add-IsOrdered_example : IsOrdered (add (task 4 (some 9)) tasks)
add-IsOrdered_example = add-IsOrdered (task 4 (some 9)) tasks tasks-IsOrdered

abbrev accept_all : PendingAsset → Bool
accept_all p = true

dequeue_lem_example :
    ((dequeue accept_all tasks ≡ none) × All (λ a. accept_all a ≡ false) tasks)
    ⊎ ((p : PendingAsset) × (left : List PendingAsset) × (dequeue accept_all tasks ≡ some (p, left))
        × Taken accept_all tasks p left)
dequeue_lem_example = dequeue_lem accept_all tasks

abbrev same_name : List ℕ → List ℕ → Bool
same_name a b = true

abbrev all_in_progress : List ℕ → Option Asset
all_in_progress path = some (record { in_progress = true; asset_path = []; name = 3 ∷ [] })

prioritize-IsOrdered_example :
    IsOrdered
      (prioritize 5 same_name all_in_progress
        (record { rel_file_path = 3 ∷ []; received = 8 } ∷ [])
        tasks).0
    × (length
          (prioritize 5 same_name all_in_progress
            (record { rel_file_path = 3 ∷ []; received = 8 } ∷ [])
            tasks).0
        ≡ 3)
prioritize-IsOrdered_example =
    prioritize-IsOrdered 5 same_name all_in_progress
      (record { rel_file_path = 3 ∷ []; received = 8 } ∷ []) tasks tasks-IsOrdered

abbrev info : ℕ → ℕ → ℕ → FileInfo
info name time index = record {
  filepath = name ∷ [];
  modified_time = time;
  size = 10;
  client_index = index;
  base_dir = 0;
}

abbrev nowhere : Directory
nowhere = record { address = 0; is_empty = true }

abbrev no_stats : Directory → List ℕ → Option (ℕ × ℕ)
no_stats dir path = none

abbrev client_files : List FileInfo
client_files = info 1 100 0 ∷ info 2 100 1 ∷ []

abbrev server_files : List FileInfo
server_files = info 2 50 9 ∷ info 3 100 9 ∷ []

client_files-IsRising : IsRising client_files
unfolding compare_paths
client_files-IsRising = ((refl, tt), (tt, tt))

server_files-IsRising : IsRising server_files
unfolding compare_paths
server_files-IsRising = ((refl, tt), (tt, tt))

compare_files_lem_example :
    compare_files no_stats nowhere nowhere false 4 client_files server_files
    ≡ searched no_stats nowhere nowhere false client_files server_files
compare_files_lem_example =
    compare_files_lem no_stats nowhere nowhere false 4 client_files server_files (omega arith)
      client_files-IsRising server_files-IsRising

-- The client names a file twice, and neither side is sorted.
abbrev mixed_files : List FileInfo
mixed_files = info 2 100 1 ∷ info 1 100 0 ∷ info 2 100 2 ∷ []

abbrev some_diff : Diff
some_diff = record empty_diff {
  missing_files = info 1 100 0 ∷ [];
  changed_files = changed_file (info 2 50 9) (info 2 100 1) ∷ [];
  matching_files = info 4 1 2 ∷ [];
}

adjust_to_flags-client_indices_example :
    (client_indices (adjust_to_flags false true true some_diff) ≡ client_indices some_diff)
    × (client_indices (adjust_to_flags true true true some_diff)
        ≡ map (λ (f : ChangedFileInfo). f.client_index) some_diff.changed_files
          ++ map (λ (f : FileInfo). f.client_index) some_diff.matching_files)
adjust_to_flags-client_indices_example = adjust_to_flags-client_indices true true some_diff

abbrev acts : List Act
acts =
    act_work 0
    ∷ act_queue 5
    ∷ act_queue 6
    ∷ act_work 0
    ∷ act_work 0
    ∷ act_get
    ∷ act_work 0
    ∷ act_work 0
    ∷ []

outstanding_task_count_lem_example : IsCounted (run acts (start 2)).pool
outstanding_task_count_lem_example = outstanding_task_count_lem 2 acts

gotten_lem_example :
    (rest : List ℕ) × ((run acts (start 1)).queued ≡ (run acts (start 1)).gotten ++ rest)
gotten_lem_example = gotten_lem acts

abbrev some_id : List ℕ
some_id =
    1 ∷ 2 ∷ 0xab ∷ 0xcd ∷ 255 ∷ 0 ∷ 7 ∷ 8 ∷ 9 ∷ 10 ∷ 11 ∷ 12 ∷ 13 ∷ 14 ∷ 15 ∷ 16 ∷ 17 ∷ 18 ∷ 19 ∷ 20
    ∷ []

some_id-All : All (λ b. b < 256) some_id
some_id-All = (
  omega arith,
  (
    omega arith,
    (
      omega arith,
      (
        omega arith,
        (
          omega arith,
          (
            omega arith,
            (
              omega arith,
              (
                omega arith,
                (
                  omega arith,
                  (
                    omega arith,
                    (
                      omega arith,
                      (
                        omega arith,
                        (
                          omega arith,
                          (
                            omega arith,
                            (
                              omega arith,
                              (
                                omega arith,
                                (omega arith, (omega arith, (omega arith, (omega arith, tt)))),
                              ),
                            ),
                          ),
                        ),
                      ),
                    ),
                  ),
                ),
              ),
            ),
          ),
        ),
      ),
    ),
  ),
)

from_hex_string-to_hex_string_example : from_hex_string (to_hex_string some_id) ≡ some some_id
from_hex_string-to_hex_string_example = from_hex_string-to_hex_string some_id refl some_id-All

readable : from_hex_string (to_hex_string some_id) ≡ some some_id
readable = from_hex_string-to_hex_string some_id refl some_id-All

to_hex_string-from_hex_string_example : to_hex_string some_id ≡ to_hex_string some_id
to_hex_string-from_hex_string_example =
    to_hex_string-from_hex_string (to_hex_string some_id) some_id readable
