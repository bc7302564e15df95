-- ===== src/FuseAsset/Read/Steps.antt =====
-- cdc_fuse_fs/asset.cc: single rounds of the loops of `Asset::Read`.
use cdc_file_transfer.Prelude.{
  ℕ, suc, ◌+◌, ◌-◌, ◌≤◌, ◌≡◌, refl, true, false, List, none, some, length, get_elem?, ltb, ◌==◌,
  arith,
}
use cdc_file_transfer.Prelude.Status.{Result, ok}
use cdc_file_transfer.FileChunkMap.{ChunkRef}
use cdc_file_transfer.FuseAsset.{Asset, get_chunk_ref_list}
use cdc_file_transfer.FuseAsset.Read.{
  Place, Reading, enqueue, next_place, is_at_boundary, read_loop,
}

module _ {Child : Type 0} (get_list : List ℕ → Result (List ChunkRef)) where
  pub here_step :
      (fuel : ℕ) (s : Place) (o : ℕ) (a : Asset Child)
      → ltb s.chunk_idx (length s.chunk_refs) ≡ true
      → next_place get_list (suc fuel) s o a ≡ ok (some s, a)
  unfolding next_place
  here_step fuel s o a t = rw (next_place, t) refl

  pub end_step :
      (fuel : ℕ) (s : Place) (o : ℕ) (a a' : Asset Child)
      → ltb s.chunk_idx (length s.chunk_refs) ≡ false
      → get_chunk_ref_list get_list (suc s.list_no) a ≡ ok (none, a')
      → (o == a.proto.file_size) ≡ true
      → next_place get_list (suc fuel) s o a ≡ ok (none, a')
  unfolding next_place
  end_step fuel s o a a' t e f = rw (next_place, t) (rw e (rw f refl))

  pub next_step :
      (fuel : ℕ) (s : Place) (o : ℕ) (a a' : Asset Child) (refs : List ChunkRef)
      → ltb s.chunk_idx (length s.chunk_refs) ≡ false
      → get_chunk_ref_list get_list (suc s.list_no) a ≡ ok (some refs, a')
      → next_place get_list (suc fuel) s o a
        ≡ next_place get_list fuel
            (record { list_no = suc s.list_no; chunk_refs = refs; chunk_idx = 0 })
            o
            a'
  unfolding next_place
  next_step fuel s o a a' refs t e = rw (next_place, t) (rw e refl)

  pub loop_end :
      (fuel : ℕ) (s : Place) (c : ChunkRef) (r r' : Reading) (a : Asset Child)
      → get_elem? s.chunk_refs s.chunk_idx ≡ some c
      → enqueue a.proto s c r ≡ r'
      → (r'.prefetch_bytes_left == 0) ≡ true
      → read_loop get_list (suc fuel) s r a ≡ ok (r', a)
  unfolding read_loop
  loop_end fuel s c r r' a e f t = simp (read_loop, e, f, t) refl

  pub loop_none :
      (fuel : ℕ) (s : Place) (c : ChunkRef) (r r' : Reading) (a a' : Asset Child)
      → get_elem? s.chunk_refs s.chunk_idx ≡ some c
      → enqueue a.proto s c r ≡ r'
      → (r'.prefetch_bytes_left == 0) ≡ false
      → next_place get_list fuel (record s { chunk_idx = suc s.chunk_idx }) r'.offset a
        ≡ ok (none, a')
      → read_loop get_list (suc fuel) s r a ≡ ok (r', a')
  unfolding read_loop
  loop_none fuel s c r r' a a' e f t g = simp (read_loop, e, f, t, g) refl

  pub loop_some :
      (fuel : ℕ) (s s' : Place) (c : ChunkRef) (r r' : Reading) (a a' : Asset Child)
      → get_elem? s.chunk_refs s.chunk_idx ≡ some c
      → enqueue a.proto s c r ≡ r'
      → (r'.prefetch_bytes_left == 0) ≡ false
      → next_place get_list fuel (record s { chunk_idx = suc s.chunk_idx }) r'.offset a
        ≡ ok (some s', a')
      → is_at_boundary a.proto s' r'.offset ≡ true
      → read_loop get_list (suc fuel) s r a ≡ read_loop get_list fuel s' r' a'
  unfolding read_loop
  loop_some fuel s s' c r r' a a' e f t g b = simp (read_loop, e, f, t, g, b) refl

pub positive : (n : ℕ) → (n == 0) ≡ false → 1 ≤ n
positive n t = ground (arith, t)

pub plus_zero : (n : ℕ) → n ≡ n + 0
plus_zero n = omega arith

pub idx_in : (i : ℕ) (xs : List ChunkRef) (n : ℕ) → length xs - i ≡ suc n → ltb i (length xs) ≡ true
idx_in i xs n e = ground (arith, e)

pub idx_out : (i : ℕ) (xs : List ChunkRef) → length xs - i ≡ 0 → ltb i (length xs) ≡ false
idx_out i xs e = ground (arith, e)
