-- ===== src/FuseAsset/Read/File.antt =====
-- cdc_fuse_fs/asset.cc: `Asset::Read` on a file.
use cdc_file_transfer.Prelude.{
  ℕ, zero, suc, ◌-◌, ◌^◌, ◌≤◌, ◌<◌, ◌≡◌, ◌⊎◌, inl, inr, refl, sym, ap, ◌∙◌, true, false, List, [],
  ◌∷◌, none, some, length, get_elem?, take, drop, length-take, ltb, ltb→lt, leb, ◌==◌, arith,
  Bool-cases, All,
}
use cdc_file_transfer.Prelude.Parts.{take-drop_none}
use cdc_file_transfer.Prelude.Status.{Code, Result, ok, err, ◌>>=◌}
use cdc_file_transfer.FileChunkMap.{ChunkRef}
use cdc_file_transfer.DataStore.{ChunkTask}
use cdc_file_transfer.DataStore.Right.{IsRight, IsRightList}
use cdc_file_transfer.FuseAsset.{IndirectChunkList, AssetProto, Asset, find_chunk_list}
use cdc_file_transfer.FuseAsset.Layout.{Rest, Rest-file_size}
use cdc_file_transfer.FuseAsset.Cached.{refs_none, AreStored, IsCached, get_chunk_ref_list_lem}
use cdc_file_transfer.FuseAsset.Read.{Reading, is_file, transfer, plan, read}
use cdc_file_transfer.FuseAsset.Read.Loop.{slices}
use cdc_file_transfer.FuseAsset.Read.Buffer.{content, Fails, transfer_lem}
use cdc_file_transfer.FuseAsset.Read.Correct.{plan-Plans, plan_end}

suc_not_zero : (m : ℕ) → (suc m == 0) ≡ false
suc_not_zero m = ground arith

past_end : (xs : List IndirectChunkList) → get_elem? xs (length xs) ≡ none
past_end [] = refl
past_end (x ∷ xs) = past_end xs

module _ {Child : Type 0} (get_list : List ℕ → Result (List ChunkRef))
    (get_tasks : List ChunkTask → Result (List ChunkTask)) (prefetch_size : ℕ → ℕ) where
  find_chunk_list_outside :
      (o : ℕ) (p : AssetProto Child)
      → p.file_size ≤ o
      → find_chunk_list o p ≡ suc (length p.file_indirect_chunks)
  unfolding find_chunk_list
  find_chunk_list_outside o p h = rw outside refl
    where
      outside : leb p.file_size o ≡ true
      outside = ground (arith, h)

  read_nothing :
      (fuel o : ℕ) (a : Asset Child)
      → is_file a.proto.asset_type ≡ true
      → read get_list get_tasks prefetch_size fuel o 0 a ≡ ok (([], 0), a)
  unfolding read
  read_nothing fuel o a f = rw (read, f) refl

  read_end :
      (fuel o size : ℕ) (a a' : Asset Child)
      → is_file a.proto.asset_type ≡ true
      → (size == 0) ≡ false
      → plan get_list fuel o size (prefetch_size size) a ≡ ok (none, a')
      → read get_list get_tasks prefetch_size fuel o size a ≡ ok (([], 0), a')
  unfolding read
  read_end fuel o size a a' f z e = rw (read, f) (rw z (rw e refl))

  read-some :
      (fuel o size : ℕ) (a a' : Asset Child) (r : Reading)
      → is_file a.proto.asset_type ≡ true
      → (size == 0) ≡ false
      → plan get_list fuel o size (prefetch_size size) a ≡ ok (some r, a')
      → read get_list get_tasks prefetch_size fuel o size a
        ≡ (transfer get_tasks size r >>= λ y. ok (y, a'))
  unfolding read
  read-some fuel o size a a' r f z e = rw (read, f) (rw z (rw e refl))

  -- For a file of less than 2^64 bytes whose chunks and lists lie one behind the other without
  -- gaps, with fuel for each chunk and list, lists that can be fetched, a prefetch size of at least
  -- the requested size and a store that gives right data: Read returns exactly the requested bytes
  -- from the offset on, as far as the file has them, with their number; or it fails because the
  -- store fails on tasks that ask for just these bytes. Loaded lists stay right.
  pub read_lem :
      (lists : List ℕ → List ChunkRef) (chunk_of : List ℕ → List ℕ) (p : AssetProto Child)
      (fuel n offset size : ℕ) (bytes : List ℕ) (a : Asset Child)
      → p.file_size < 2 ^ 64
      → AreStored get_list lists p
      → is_file p.asset_type ≡ true
      → n ≤ fuel
      → Rest lists chunk_of p n 0 p.file_chunks 0 bytes
      → IsCached get_list lists p a
      → size ≤ prefetch_size size
      → ((tasks tasks' : List ChunkTask)
          → get_tasks tasks ≡ ok tasks'
          → All (IsRight (content chunk_of)) tasks
          → IsRightList (content chunk_of) tasks tasks')
      → ((code : Code) × (tasks : List ChunkTask) × (read get_list get_tasks prefetch_size fuel
              offset size a
            ≡ err code)
          × (slices chunk_of tasks ≡ take size (drop offset bytes))
          × Fails chunk_of get_tasks code tasks)
        ⊎ ((a' : Asset Child) × (read get_list get_tasks prefetch_size fuel offset size a
              ≡ ok ((take size (drop offset bytes), length (take size (drop offset bytes))), a'))
            × IsCached get_list lists p a')
  read_lem lists chunk_of p fuel n o zero bytes a small stored f l h k v right =
      inr (a, read_nothing fuel o a (ap (λ x. is_file x.asset_type) k.0 ∙ f), k)
  read_lem lists chunk_of p fuel n o (suc m) bytes a small stored f l h k v right =
      elim (Bool-cases (ltb o p.file_size)) [
        | inl t ↦
            let (r, a', e, k', sl, dl, new) =
              plan-Plans get_list lists chunk_of p small stored fuel n o (suc m)
                (prefetch_size (suc m)) bytes a l h k (ltb→lt _ _ t) v in
            let step = read-some fuel o (suc m) a a' r here (suc_not_zero m) e in
            elim (transfer_lem chunk_of get_tasks (suc m) r right new) [
              | inl (code, g, fails) ↦ inl (code, r.chunks, step ∙ rw g refl, sl, fails)
              | inr g ↦ inr (
                a',
                step
                    ∙ (ap (λ y. y >>= λ x. ok (x, a')) g
                        ∙ ap (λ x. ok (x, a'))
                            (counted (slices chunk_of r.chunks) r.data_bytes_left sl dl)),
                k',
              )
            ]
        | inr t ↦
            let (a', g, k') =
              get_chunk_ref_list_lem get_list lists p (suc (length p.file_indirect_chunks)) a stored
                k in
            inr (
              a',
              read_end fuel o (suc m) a a' here (suc_not_zero m) (
                    plan_end get_list fuel o (suc m) (prefetch_size (suc m))
                      (suc (length p.file_indirect_chunks)) a a'
                      (ap (find_chunk_list o) k.0 ∙ find_chunk_list_outside o p (past_size t))
                      (g
                        ∙ ap (λ x. ok (x, a'))
                            (refs_none get_list lists p (length p.file_indirect_chunks)
                              (past_end p.file_indirect_chunks))))
                  ∙ ap (λ x. ok ((x, length x), a')) (sym (nothing (past_size t))),
              k',
            )
      ]
    where
      here : is_file a.proto.asset_type ≡ true
      here = ap (λ x. is_file x.asset_type) k.0 ∙ f

      past_size : ltb o p.file_size ≡ false → p.file_size ≤ o
      past_size t = ground (arith, t)

      nothing : p.file_size ≤ o → take (suc m) (drop o bytes) ≡ []
      nothing u =
          take-drop_none (suc m) o bytes
            (omega (arith, u, Rest-file_size lists chunk_of p n 0 p.file_chunks 0 bytes h))

      counted :
          (x : List ℕ) (left : ℕ)
          → x ≡ take (suc m) (drop o bytes)
          → left ≡ suc m - length (drop o bytes)
          → ◌≡◌ {A = List ℕ × ℕ}
              (x, suc m - left)
              (take (suc m) (drop o bytes), length (take (suc m) (drop o bytes)))
      counted x left e d =
          ap (λ y. (y, suc m - left)) e
          ∙ ap (λ y. (take (suc m) (drop o bytes), y))
              (omega (arith, d, length-take (suc m) (drop o bytes)))
