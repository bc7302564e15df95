-- ===== src/FileChunkMap/Find.antt =====
-- manifest/file_chunk_map.cc: what a lookup finds is in the files.
use mathlib.Core.Bool.{false≢true}
use mathlib.Core.Option.{some-injective, some-ne-none}
use cdc_file_transfer.Prelude.{
  ℕ, zero, suc, ◌+◌, ◌^◌, ◌<◌, ◌≤◌, ◌==◌, ==_iff, ◌≡◌, ◌⊎◌, inl, inr, refl, sym, ap, subst, ◌∙◌,
  true, false, List, [], ◌∷◌, none, some, length, take, get_elem?, arith, Bool-cases, Option-cases,
  All,
}
use cdc_file_transfer.Prelude.Words.{to_u32}
use cdc_file_transfer.Prelude.Dict.{
  Entry, lookup, insert, same, IsUnique, same→≡, same_refl, lookup-insert,
}
use cdc_file_transfer.FileChunkMap.{
  FileChunk, File, FileUpdate, ChunkLocation, FileChunkMap, add_chunks, add_files,
  update_id_to_chunk_map, flush_with, Found, size_between, next_offset_of, find_in, find_chunk,
}
use cdc_file_transfer.FileChunkMap.Count.{HasCount}

-- The chunk of that id is at that place of a file.
abbrev pub IsAt : List (Entry File) → List ℕ → ChunkLocation → Type 0
IsAt files id loc =
    (file : File) × (c : FileChunk) × (lookup loc.path files ≡ some file)
    × (get_elem? file.chunks loc.index ≡ some c)
    × (c.content_id ≡ id)

-- Every id that is found is at its place.
abbrev pub IsInSync : List (Entry File) → List (Entry ChunkLocation) → Type 0
IsInSync files ids =
    (id : List ℕ) (loc : ChunkLocation) → lookup id ids ≡ some loc → IsAt files id loc

pub insert_found :
    (k id : List ℕ) (at_k : ChunkLocation) (ids : List (Entry ChunkLocation))
    → same k id ≡ true
    → lookup id (insert k at_k ids) ≡ some at_k
insert_found k id at_k ids t = lookup-insert id k at_k ids ∙ rw t refl

pub insert_other :
    (k id : List ℕ) (at_k : ChunkLocation) (ids : List (Entry ChunkLocation))
    → same k id ≡ false
    → lookup id (insert k at_k ids) ≡ lookup id ids
insert_other k id at_k ids t = lookup-insert id k at_k ids ∙ rw t refl

insert-IsInSync :
    (files : List (Entry File)) (k : List ℕ) (at_k : ChunkLocation)
    (ids : List (Entry ChunkLocation))
    → IsAt files k at_k
    → IsInSync files ids
    → IsInSync files (insert k at_k ids)
insert-IsInSync files k at_k ids a h id loc e = elim (Bool-cases (same k id)) [
  | inl t ↦
      subst (λ (x : List ℕ × ChunkLocation). IsAt files x.0 x.1)
        (ap (λ x. (x, at_k)) (same→≡ k id t)
          ∙ ap (λ x. (id, x)) (some-injective at_k loc (sym (insert_found k id at_k ids t) ∙ e)))
        a
  | inr t ↦ h id loc (sym (insert_other k id at_k ids t) ∙ e)
]

-- The chunks from index `n` on are those of the file.
add_chunks-IsInSync :
    (files : List (Entry File)) (path : List ℕ) (file : File) (n : ℕ) (chunks : List FileChunk)
    (ids : List (Entry ChunkLocation))
    → lookup path files ≡ some file
    → ((i : ℕ) (c : FileChunk)
        → get_elem? chunks i ≡ some c
        → get_elem? file.chunks (n + i) ≡ some c)
    → IsInSync files ids
    → IsInSync files (add_chunks path n chunks ids)
unfolding add_chunks
add_chunks-IsInSync files path file n [] ids l g h = h
add_chunks-IsInSync files path file n (c ∷ chunks) ids l g h =
    add_chunks-IsInSync files path file (suc n) chunks
      (insert c.content_id (record { path = path; index = n }) ids) l
      (λ i d e. ap (get_elem? file.chunks) (omega arith) ∙ g (suc i) d e)
      (insert-IsInSync files c.content_id _ ids
        (file, c, l, ap (get_elem? file.chunks) (omega arith) ∙ g 0 c refl, refl) h)

get_elem?-take :
    (n i : ℕ) (xs : List FileChunk) (c : FileChunk)
    → get_elem? (take n xs) i ≡ some c
    → get_elem? xs i ≡ some c
get_elem?-take zero i xs c e = absurd (some-ne-none c (sym e))
get_elem?-take (suc n) i [] c e = e
get_elem?-take (suc n) zero (x ∷ xs) c e = e
get_elem?-take (suc n) (suc i) (x ∷ xs) c e = get_elem?-take n i xs c e

add_files-IsInSync :
    (files todo : List (Entry File)) (ids : List (Entry ChunkLocation))
    → All (λ e. lookup e.key files ≡ some e.value) todo
    → IsInSync files ids
    → IsInSync files (add_files todo ids)
unfolding add_files
add_files-IsInSync files [] ids a h = h
add_files-IsInSync files (e ∷ todo) ids (l, a) h = add_files-IsInSync files todo _ a (
    add_chunks-IsInSync files e.key e.value 0 _ ids l
      (λ i c f.
        ap (get_elem? e.value.chunks) (omega arith)
        ∙ get_elem?-take (to_u32 (length e.value.chunks)) i e.value.chunks c f)
      h)

IsUnique-All :
    (todo files : List (Entry File))
    → ((path : List ℕ) (f : File) → lookup path todo ≡ some f → lookup path files ≡ some f)
    → IsUnique todo
    → All (λ e. lookup e.key files ≡ some e.value) todo
IsUnique-All [] files s h = tt
IsUnique-All (e ∷ todo) files s (n, h) = (
  s e.key e.value (rw (same_refl e.key) refl),
  IsUnique-All todo files (λ path f l. s path f (later path f l)) h,
)
  where
    later : (path : List ℕ) (f : File) → lookup path todo ≡ some f → lookup path (e ∷ todo) ≡ some f
    later path f l = elim (Bool-cases (same e.key path)) [
      | inl t ↦
          absurd
            (some-ne-none f (sym l ∙ (ap (λ x. lookup x todo) (sym (same→≡ e.key path t)) ∙ n)))
      | inr t ↦ rw t l
    ]

-- A chunk of a file ends where the next one begins, or the last one with the file.
abbrev pub EndsAt : File → ℕ → ℕ → Type 0
EndsAt file i end =
    ((c : FileChunk) × (get_elem? file.chunks (suc i) ≡ some c) × (end ≡ c.offset))
    ⊎ ((suc i ≡ length file.chunks) × (end ≡ file.file_size))

-- The size that was found reaches from the chunk's offset to its end, unless the end is before the
-- offset or 2^32 bytes or more behind it.
abbrev pub ReachesEnd : Found → ℕ → Type 0
ReachesEnd f end =
    (f.found_offset + f.found_size ≡ end)
    ⊎ ((end < f.found_offset) ⊎ (f.found_offset + 2 ^ 32 ≤ end))

-- What is found is the chunk of an index in a file.
abbrev pub IsFoundAt : Found → File → FileChunk → Type 0
IsFoundAt f file c =
    (get_elem? file.chunks f.found_index ≡ some c)
    × (f.found_offset ≡ c.offset)
    × ((end : ℕ) × EndsAt file f.found_index end × ReachesEnd f end)

found_at : ChunkLocation → File → FileChunk → Found
found_at loc file c = record {
  found_path = loc.path;
  found_offset = c.offset;
  found_size = size_between (next_offset_of file loc.index) c.offset;
  found_index = loc.index;
}

get_elem?-next :
    (xs : List FileChunk) (i : ℕ) (c : FileChunk)
    → get_elem? xs i ≡ some c
    → (suc i ≡ length xs) ⊎ ((d : FileChunk) × (get_elem? xs (suc i) ≡ some d))
get_elem?-next [] i c e = absurd (some-ne-none c (sym e))
get_elem?-next (x ∷ []) zero c e = inl refl
get_elem?-next (x ∷ y ∷ xs) zero c e = inr (y, refl)
get_elem?-next (x ∷ xs) (suc i) c e = elim (get_elem?-next xs i c e) [
  | inl l ↦ inl (omega (arith, l))
  | inr d ↦ inr d
]

get_elem?-lt :
    (xs : List FileChunk) (i : ℕ) (c : FileChunk) → get_elem? xs i ≡ some c → i < length xs
get_elem?-lt [] i c e = absurd (some-ne-none c (sym e))
get_elem?-lt (x ∷ xs) zero c e = omega arith
get_elem?-lt (x ∷ xs) (suc i) c e = omega (arith, get_elem?-lt xs i c e)

next_offset_of-EndsAt :
    (file : File) (i : ℕ) (c : FileChunk)
    → get_elem? file.chunks i ≡ some c
    → EndsAt file i (next_offset_of file i)
unfolding next_offset_of
next_offset_of-EndsAt file i c e = elim (Bool-cases (i + 1 == length file.chunks)) [
  | inl t ↦ inr (last t, rw (next_offset_of, t) refl)
  | inr t ↦ elim (get_elem?-next file.chunks i c e) [
    | inl l ↦ absurd (false≢true (sym t ∙ not_last l))
    | inr (d, g) ↦ inl (d, g, rw (next_offset_of, t) (rw (plus_one i) (rw g refl)))
  ]
]
  where
    last : (i + 1 == length file.chunks) ≡ true → suc i ≡ length file.chunks
    last t = omega (arith, (==_iff (i + 1) (length file.chunks)).0 t)

    not_last : suc i ≡ length file.chunks → (i + 1 == length file.chunks) ≡ true
    not_last l = (==_iff (i + 1) (length file.chunks)).1 (omega (arith, l))

    plus_one : (i : ℕ) → i + 1 ≡ suc i
    plus_one i = omega arith

size_between-ReachesEnd :
    (offset end : ℕ)
    → (offset + size_between end offset ≡ end) ⊎ ((end < offset) ⊎ (offset + 2 ^ 32 ≤ end))
unfolding size_between to_u32
size_between-ReachesEnd offset end = elim (three offset end) [
  | inl (l, h) ↦ inl (omega (arith, l, h))
  | inr e ↦ inr e
]
  where
    three : (a b : ℕ) → ((a ≤ b) × (b < a + 2 ^ 32)) ⊎ ((b < a) ⊎ (a + 2 ^ 32 ≤ b))
    three a b = ground arith

found_at-IsFoundAt :
    (loc : ChunkLocation) (file : File) (c : FileChunk)
    → get_elem? file.chunks loc.index ≡ some c
    → IsFoundAt (found_at loc file c) file c
unfolding found_at
found_at-IsFoundAt loc file c e = (
  e,
  refl,
  (
    next_offset_of file loc.index,
    next_offset_of-EndsAt file loc.index c e,
    size_between-ReachesEnd c.offset (next_offset_of file loc.index),
  ),
)

pub flush_with-IsInSync :
    (us : List FileUpdate) (m : FileChunkMap)
    → HasCount (flush_with us m)
    → IsInSync m.path_to_file m.id_to_chunk
    → IsInSync (flush_with us m).path_to_file (flush_with us m).id_to_chunk
unfolding flush_with update_id_to_chunk_map
flush_with-IsInSync [] m c h = h
flush_with-IsInSync (u ∷ us) m c h =
    add_files-IsInSync _ _ [] (IsUnique-All _ _ (λ path f l. l) c.0)
      (λ id loc e. absurd (some-ne-none loc (sym e)))

find_in_step :
    (id : List ℕ) (m : FileChunkMap) (loc : ChunkLocation) (file : File) (c : FileChunk)
    → lookup id m.id_to_chunk ≡ some loc
    → lookup loc.path m.path_to_file ≡ some file
    → get_elem? file.chunks loc.index ≡ some c
    → find_chunk id m ≡ some (found_at loc file c)
unfolding find_chunk find_in found_at
find_in_step id m loc file c e f g = rw (find_chunk, e) (rw f (rw (find_in, g) refl))

find_none :
    (id : List ℕ) (m : FileChunkMap) → lookup id m.id_to_chunk ≡ none → find_chunk id m ≡ none
unfolding find_chunk
find_none id m e = rw (find_chunk, e) refl

-- `FindChunk` where the maps are in sync.
pub find_chunk-cases :
    (id : List ℕ) (m : FileChunkMap)
    → IsInSync m.path_to_file m.id_to_chunk
    → ((find_chunk id m ≡ none) × (lookup id m.id_to_chunk ≡ none))
      ⊎ ((f : Found) × (file : File) × (c : FileChunk) × (find_chunk id m ≡ some f)
          × (lookup f.found_path m.path_to_file ≡ some file)
          × (c.content_id ≡ id)
          × IsFoundAt f file c)
unfolding found_at
find_chunk-cases id m h = elim (Option-cases (lookup id m.id_to_chunk)) [
  | inl t ↦ inl (find_none id m t, t)
  | inr (loc, t) ↦
      let (file, c, l, g, e) = h id loc t in
      inr (
        found_at loc file c,
        file,
        c,
        find_in_step id m loc file c t l g,
        l,
        e,
        found_at-IsFoundAt loc file c g,
      )
]
