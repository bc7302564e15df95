-- ===== src/FuseAsset/Read/Loop.antt =====
-- cdc_fuse_fs/asset.cc: the loop of `Asset::Read` asks for the bytes from an offset on.
use mathlib.Core.Bool.{false≢true}
use mathlib.Core.List.{map-append}
use cdc_file_transfer.Prelude.{
  ℕ, zero, suc, ◌+◌, ◌-◌, ◌^◌, ◌≤◌, ◌<◌, ◌≡◌, refl, sym, ap, ◌∙◌, min, false, List, [], ◌∷◌, ◌++◌,
  map, append-nil, Option, none, some, length, get_elem?, take, drop, flatten, flatten-append, ltb,
  arith, drop-nil, All, if◌then◌else◌,
}
use cdc_file_transfer.Prelude.Words.{add64, add64_exact}
use cdc_file_transfer.FileChunkMap.{ChunkRef}
use cdc_file_transfer.DataStore.{ChunkTask, new_task}
use cdc_file_transfer.FuseAsset.{AssetProto, sub64, chunk_list_offset, chunk_size}
use cdc_file_transfer.FuseAsset.Layout.{Rest, Rest-file_size, chunk_size_lem, head?, sub64_exact}
use cdc_file_transfer.FuseAsset.Read.{Place, Reading, enqueue}

zero-sub : (m : ℕ) → 0 ≡ 0 - m
zero-sub m = omega arith

sub-zero : (n : ℕ) → n ≡ n - 0
sub-zero n = omega arith

suc-sub : (n m : ℕ) → n - m ≡ suc n - suc m
suc-sub n m = omega arith

pub take-append :
    (n : ℕ) (xs ys : List ℕ) → take n (xs ++ ys) ≡ take n xs ++ take (n - length xs) ys
take-append zero xs ys = ap (λ k. take k ys) (zero-sub (length xs))
take-append (suc n) [] ys = ap (λ k. take k ys) (sub-zero (suc n))
take-append (suc n) (x ∷ xs) ys =
    ap (◌∷◌ x) (take-append n xs ys ∙ ap (λ k. take n xs ++ take k ys) (suc-sub n (length xs)))

pub drop-suc :
    (i : ℕ) (xs : List ChunkRef) (c : ChunkRef) (cs : List ChunkRef)
    → drop i xs ≡ c ∷ cs
    → (get_elem? xs i ≡ some c) × (drop (suc i) xs ≡ cs)
drop-suc zero [] c cs e = absurd (omega (arith, ap length e))
drop-suc zero (x ∷ xs) c cs e = (ap head_of e, ap (drop 1) e)
  where
    head_of : List ChunkRef → Option ChunkRef
    head_of [] = none
    head_of (y ∷ ys) = some y
drop-suc (suc i) [] c cs e = absurd (omega (arith, ap length e))
drop-suc (suc i) (x ∷ xs) c cs e = drop-suc i xs c cs e

pub get_elem?-drop : (i : ℕ) (xs : List ChunkRef) → get_elem? xs i ≡ head? (drop i xs)
get_elem?-drop i [] = ap head? (sym (drop-nil i))
get_elem?-drop zero (x ∷ xs) = refl
get_elem?-drop (suc i) (x ∷ xs) = get_elem?-drop i xs

-- What a task asks for, of the data of its chunk.
abbrev pub slice : (List ℕ → List ℕ) → ChunkTask → List ℕ
slice chunk_of t = take t.size (drop t.offset (chunk_of t.id))

-- The bytes that the tasks ask for, one behind the other.
abbrev pub slices : (List ℕ → List ℕ) → List ChunkTask → List ℕ
slices chunk_of tasks = flatten (map (slice chunk_of) tasks)

-- A task that nothing has answered.
abbrev pub IsNew : ChunkTask → Type 0
IsNew t = (t.done ≡ false) × (t.chunk_data ≡ [])

pub All-snoc :
    (tasks : List ChunkTask) (t : ChunkTask)
    → IsNew t
    → All IsNew tasks
    → All IsNew (tasks ++ t ∷ [])
All-snoc [] t a h = (a, tt)
All-snoc (u ∷ tasks) t a (b, h) = (b, All-snoc tasks t a h)

pub slices-snoc :
    (chunk_of : List ℕ → List ℕ) (tasks : List ChunkTask) (t : ChunkTask)
    → slices chunk_of (tasks ++ t ∷ []) ≡ slices chunk_of tasks ++ slice chunk_of t
slices-snoc chunk_of tasks t =
    ap flatten (map-append (slice chunk_of) tasks (t ∷ []))
    ∙ flatten-append (map (slice chunk_of) tasks) (slice chunk_of t ∷ [])
    ∙ ap (λ x. slices chunk_of tasks ++ x) (append-nil (slice chunk_of t))

offset_in : (a o k : ℕ) → o ≡ a + k → (if ltb a o then o - a else 0) ≡ k
offset_in a o k e = ground (arith, e)

-- The task for the part of a chunk of which `rest` bytes are left behind its offset `k`.
abbrev pub task_for : ChunkRef → ℕ → ℕ → Reading → Reading
task_for c k rest r = record {
  offset = r.offset + min rest r.prefetch_bytes_left;
  data_bytes_left = r.data_bytes_left - min rest r.data_bytes_left;
  prefetch_bytes_left = r.prefetch_bytes_left - min rest r.prefetch_bytes_left;
  chunks = r.chunks ++ new_task c.chunk_id k (min rest r.data_bytes_left) ∷ [];
}

module _ {Child : Type 0} (lists : List ℕ → List ChunkRef) (chunk_of : List ℕ → List ℕ)
    (p : AssetProto Child) (small : p.file_size < 2 ^ 64) where
  -- The place is at the chunks `cs`.
  abbrev pub IsHere : ℕ → List ChunkRef → Place → Type 0
  IsHere nr cs s = (s.list_no ≡ nr) × (drop s.chunk_idx s.chunk_refs ≡ cs)

  pub absolute_of :
      (n nr : ℕ) (c : ChunkRef) (cs : List ChunkRef) (start : ℕ) (bytes : List ℕ)
      → Rest lists chunk_of p n nr (c ∷ cs) start bytes
      → add64 (chunk_list_offset nr p) c.ref_offset ≡ start
  absolute_of zero nr c cs start bytes h = absurd (false≢true h)
  absolute_of (suc n) nr c cs start bytes (o, rest, b, h) =
      add64_exact (chunk_list_offset nr p) c.ref_offset (
        omega (
          arith,
          o,
          small,
          Rest-file_size lists chunk_of p (suc n) nr (c ∷ cs) start bytes (o, rest, b, h),
        ))
      ∙ sym o

  chunk_end :
      (n nr : ℕ) (c : ChunkRef) (cs : List ChunkRef) (start : ℕ) (bytes : List ℕ)
      → Rest lists chunk_of p n nr (c ∷ cs) start bytes
      → start + length (chunk_of c.chunk_id) ≤ p.file_size
  chunk_end zero nr c cs start bytes h = absurd (false≢true h)
  chunk_end (suc n) nr c cs start bytes (o, rest, b, h) =
      omega (arith, Rest-file_size lists chunk_of p n nr cs _ rest h)

  pub enqueue_lem :
      (n nr k : ℕ) (c : ChunkRef) (cs : List ChunkRef) (start : ℕ) (bytes : List ℕ) (s : Place)
      (r : Reading)
      → Rest lists chunk_of p n nr (c ∷ cs) start bytes
      → IsHere nr (c ∷ cs) s
      → r.offset ≡ start + k
      → k ≤ length (chunk_of c.chunk_id)
      → enqueue p s c r ≡ task_for c k (length (chunk_of c.chunk_id) - k) r
  unfolding enqueue
  enqueue_lem n nr k c cs start bytes s r h (e, d) o l =
      rw (e, absolute, offset, next, size, left, sum) refl
    where
      end : start + length (chunk_of c.chunk_id) ≤ p.file_size
      end = chunk_end n nr c cs start bytes h

      absolute : add64 (chunk_list_offset nr p) c.ref_offset ≡ start
      absolute = absolute_of n nr c cs start bytes h

      offset : (if ltb start r.offset then r.offset - start else 0) ≡ k
      offset = offset_in start r.offset k o

      next : get_elem? s.chunk_refs (suc s.chunk_idx) ≡ head? cs
      next =
          get_elem?-drop (suc s.chunk_idx) s.chunk_refs
          ∙ ap head? (drop-suc s.chunk_idx s.chunk_refs c cs d).1

      size : chunk_size nr c (head? cs) p ≡ length (chunk_of c.chunk_id)
      size = chunk_size_lem lists chunk_of p n nr c cs start bytes small h

      left : sub64 (length (chunk_of c.chunk_id)) k ≡ length (chunk_of c.chunk_id) - k
      left = sub64_exact (length (chunk_of c.chunk_id)) k l (omega (arith, end, small))

      sum :
          add64 r.offset (min (length (chunk_of c.chunk_id) - k) r.prefetch_bytes_left)
          ≡ r.offset + min (length (chunk_of c.chunk_id) - k) r.prefetch_bytes_left
      sum = add64_exact r.offset _ (omega (arith, end, small, o, l))
