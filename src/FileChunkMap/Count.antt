-- ===== src/FileChunkMap/Count.antt =====
-- manifest/file_chunk_map.cc: the count of chunks.
use cdc_file_transfer.Prelude.{
  ℕ, ◌+◌, ◌-◌, ◌≡◌, ◌≤◌, inl, inr, refl, sym, ap, ◌∙◌, true, false, List, [], ◌∷◌, ◌++◌, Option,
  none, some, length, length-append, arith, Bool-cases,
}
use cdc_file_transfer.Prelude.Dict.{
  Entry, lookup, insert, remove, same, IsUnique, insert-IsUnique, remove-IsUnique, remove_absent,
  same→≡,
}
use cdc_file_transfer.FileChunkMap.{
  File, FileUpdate, update_init, update_append, update_remove, update_clear, FileChunkMap, file_at,
  apply_update, remove_found, apply_updates, flush_with, flush_updates,
}

-- The chunks of all files.
abbrev pub chunk_count : List (Entry File) → ℕ
chunk_count [] = 0
chunk_count (e ∷ files) = length e.value.chunks + chunk_count files

abbrev pub chunks_at : List ℕ → List (Entry File) → ℕ
chunks_at path files = length (file_at path files).chunks

-- A path has one file, and the count is that of the chunks.
abbrev pub IsCounted : List (Entry File) × ℕ → Type 0
IsCounted (files, total) = IsUnique files × (total ≡ chunk_count files)

file_at_here :
    (path : List ℕ) (e : Entry File) (files : List (Entry File))
    → same e.key path ≡ true
    → file_at path (e ∷ files) ≡ e.value
unfolding file_at
file_at_here path e files t = rw (file_at, t) refl

file_at_there :
    (path : List ℕ) (e : Entry File) (files : List (Entry File))
    → same e.key path ≡ false
    → file_at path (e ∷ files) ≡ file_at path files
unfolding file_at
file_at_there path e files t = rw (file_at, t) refl

-- The chunks of an inserted file take the place of those of its path.
chunk_count-insert :
    (path : List ℕ) (f : File) (files : List (Entry File))
    → chunk_count (insert path f files) + chunks_at path files ≡ chunk_count files + length f.chunks
unfolding file_at
chunk_count-insert path f [] = omega arith
chunk_count-insert path f (e ∷ files) = elim (Bool-cases (same e.key path)) [
  | inl t ↦ simp t (omega (arith, ap (λ x. length x.chunks) (file_at_here path e files t)))
  | inr t ↦ simp t (
      omega (
        arith,
        chunk_count-insert path f files,
        ap (λ x. length x.chunks) (file_at_there path e files t),
      ))
]

chunk_count-remove :
    (path : List ℕ) (files : List (Entry File))
    → IsUnique files
    → chunk_count (remove path files) + chunks_at path files ≡ chunk_count files
unfolding file_at
chunk_count-remove path [] h = refl
chunk_count-remove path (e ∷ files) (n, h) = elim (Bool-cases (same e.key path)) [
  | inl t ↦ simp t (
      omega (
        arith,
        ap (λ x. length x.chunks) (file_at_here path e files t),
        ap chunk_count
            (remove_absent path files (ap (λ x. lookup x files) (sym (same→≡ e.key path t)) ∙ n)),
      ))
  | inr t ↦ simp t (
      omega (
        arith,
        chunk_count-remove path files h,
        ap (λ x. length x.chunks) (file_at_there path e files t),
      ))
]

chunks_at_le :
    (path : List ℕ) (files : List (Entry File)) → chunks_at path files ≤ chunk_count files
unfolding file_at
chunks_at_le path [] = omega arith
chunks_at_le path (e ∷ files) = elim (Bool-cases (same e.key path)) [
  | inl t ↦ omega (arith, ap (λ x. length x.chunks) (file_at_here path e files t))
  | inr t ↦
      omega
        (arith, ap (λ x. length x.chunks) (file_at_there path e files t), chunks_at_le path files)
]

replaced :
    (total count old new count' : ℕ)
    → total ≡ count
    → old ≤ count
    → count' + old ≡ count + new
    → total - old + new ≡ count'
replaced total count old new count' e l f = omega arith

file_at-some :
    (path : List ℕ) (files : List (Entry File)) (file : File)
    → lookup path files ≡ some file
    → file_at path files ≡ file
unfolding file_at
file_at-some path files file t = rw (file_at, t) refl

remove_found-IsCounted :
    (path : List ℕ) (o : Option File) (files : List (Entry File)) (total : ℕ)
    → lookup path files ≡ o
    → IsCounted (files, total)
    → IsCounted (remove_found path o files total)
unfolding remove_found
remove_found-IsCounted path none files total t h = h
remove_found-IsCounted path (some file) files total t (h, e) = (
  remove-IsUnique path files h,
  omega (
    arith,
    e,
    chunk_count-remove path files h,
    ap (λ x. length x.chunks) (file_at-some path files file t),
  ),
)

apply_update-IsCounted :
    (u : FileUpdate) (files : List (Entry File)) (total : ℕ)
    → IsCounted (files, total)
    → IsCounted (apply_update u (files, total))
unfolding apply_update
apply_update-IsCounted (update_init path size chunks) files total (h, e) = (
  insert-IsUnique path _ files h,
  replaced total (chunk_count files) (chunks_at path files) (length chunks) _ e
      (chunks_at_le path files)
      (chunk_count-insert path (record { chunks = chunks; file_size = size }) files),
)
apply_update-IsCounted (update_append path chunks) files total (h, e) = (
  insert-IsUnique path _ files h,
  omega (
    arith,
    e,
    length-append (file_at path files).chunks chunks,
    chunk_count-insert path
        (record (file_at path files) { chunks = (file_at path files).chunks ++ chunks }) files,
  ),
)
apply_update-IsCounted (update_remove path) files total h =
    remove_found-IsCounted path (lookup path files) files total refl h
apply_update-IsCounted update_clear files total h = (tt, refl)

apply_updates-IsCounted :
    (us : List FileUpdate) (state : List (Entry File) × ℕ)
    → IsCounted state
    → IsCounted (apply_updates us state)
unfolding apply_updates
apply_updates-IsCounted [] state h = h
apply_updates-IsCounted (u ∷ us) (files, total) h =
    apply_updates-IsCounted us (apply_update u (files, total))
      (apply_update-IsCounted u files total h)

abbrev pub HasCount : FileChunkMap → Type 0
HasCount m = IsCounted (m.path_to_file, m.total_chunks)

flush_with-IsCounted :
    (us : List FileUpdate) (m : FileChunkMap) → HasCount m → HasCount (flush_with us m)
unfolding flush_with
flush_with-IsCounted [] m h = h
flush_with-IsCounted (u ∷ us) m h =
    apply_updates-IsCounted (u ∷ us) (m.path_to_file, m.total_chunks) h

pub flush_updates-IsCounted : (m : FileChunkMap) → HasCount m → HasCount (flush_updates m)
unfolding flush_updates
flush_updates-IsCounted m h = flush_with-IsCounted m.file_updates m h
