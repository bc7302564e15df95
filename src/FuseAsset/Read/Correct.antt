-- ===== src/FuseAsset/Read/Correct.antt =====
-- cdc_fuse_fs/asset.cc: `Asset::Read` reads the bytes of the file.
use cdc_file_transfer.Prelude.{
  ℕ, suc, ◌+◌, ◌-◌, ◌^◌, ◌≤◌, ◌<◌, ◌≡◌, refl, sym, ap, ◌∙◌, false, List, [], ◌∷◌, map, Option, none,
  some, length, take, drop, leb, arith, All,
}
use cdc_file_transfer.Prelude.Status.{Result, ok, ◌>>=◌}
use cdc_file_transfer.FileChunkMap.{ChunkRef}
use cdc_file_transfer.FuseAsset.{
  AssetProto, Asset, sub64, upper_bound, find_chunk_list, find_chunk_index, chunk_list_offset,
  get_chunk_ref_list,
}
use cdc_file_transfer.FuseAsset.Layout.{Rest, Rest-nil, sub64_exact}
use cdc_file_transfer.FuseAsset.Cached.{AreStored, IsCached, get_chunk_ref_list_lem}
use cdc_file_transfer.FuseAsset.Read.{Reading, read_loop, plan_from, plan_at, plan}
use cdc_file_transfer.FuseAsset.Read.Loop.{IsNew, slices}
use cdc_file_transfer.FuseAsset.Read.Rounds.{read_loop-Reads}
use cdc_file_transfer.FuseAsset.Read.Start.{HasChunk, find_in_list, find_list}

find_chunk_index-some :
    (refs : List ChunkRef) (start o j : ℕ)
    → sub64 o start ≡ o - start
    → upper_bound (o - start) (map (λ c. c.ref_offset) refs) ≡ suc j
    → find_chunk_index refs start o ≡ some j
unfolding find_chunk_index
find_chunk_index-some refs start o j e f = rw (find_chunk_index, e) (rw f refl)

-- The loop's variables before the first round.
abbrev first : ℕ → ℕ → ℕ → Reading
first o size prefetch = record {
  offset = o;
  data_bytes_left = size;
  prefetch_bytes_left = prefetch;
  chunks = [];
}

module _ {Child : Type 0} (get_list : List ℕ → Result (List ChunkRef)) where
  find_chunk_list_inside :
      (o : ℕ) (p : AssetProto Child)
      → o < p.file_size
      → find_chunk_list o p ≡ upper_bound o (map (λ l. l.list_offset) p.file_indirect_chunks)
  unfolding find_chunk_list
  find_chunk_list_inside o p h = rw inside refl
    where
      inside : leb p.file_size o ≡ false
      inside = ground (arith, h)

  -- The plan, from the number of the first list on.
  planned :
      (fuel o size prefetch q : ℕ) (refs : Option (List ChunkRef)) (a a' : Asset Child)
      → find_chunk_list o a.proto ≡ q
      → get_chunk_ref_list get_list q a ≡ ok (refs, a')
      → plan get_list fuel o size prefetch a
        ≡ plan_at get_list fuel q (first o size prefetch) refs a'
  unfolding plan
  planned fuel o size prefetch q refs a a' e f =
      ap
        (λ y. get_chunk_ref_list get_list y a >>= λ x.
          plan_at get_list fuel y (first o size prefetch) x.0 x.1)
        e
      ∙ ap (λ y. y >>= λ x. plan_at get_list fuel q (first o size prefetch) x.0 x.1) f

  plan_step :
      (fuel o size prefetch q i : ℕ) (refs : List ChunkRef) (a a' a'' : Asset Child) (r : Reading)
      → find_chunk_list o a.proto ≡ q
      → get_chunk_ref_list get_list q a ≡ ok (some refs, a')
      → find_chunk_index refs (chunk_list_offset q a'.proto) o ≡ some i
      → read_loop get_list fuel
          (record { list_no = q; chunk_refs = refs; chunk_idx = i })
          (first o size prefetch)
          a'
        ≡ ok (r, a'')
      → plan get_list fuel o size prefetch a ≡ ok (some r, a'')
  unfolding plan_at plan_from
  plan_step fuel o size prefetch q i refs a a' a'' r e f g h =
      planned fuel o size prefetch q (some refs) a a' e f
      ∙ (ap (λ x. plan_from get_list fuel q (first o size prefetch) refs x a') g
          ∙ ap (λ y. y >>= λ x. ok (some x.0, x.1)) h)

  pub plan_end :
      (fuel o size prefetch q : ℕ) (a a' : Asset Child)
      → find_chunk_list o a.proto ≡ q
      → get_chunk_ref_list get_list q a ≡ ok (none, a')
      → plan get_list fuel o size prefetch a ≡ ok (none, a')
  unfolding plan_at
  plan_end fuel o size prefetch q a a' e f = planned fuel o size prefetch q none a a' e f

module _ {Child : Type 0} (get_list : List ℕ → Result (List ChunkRef))
    (lists : List ℕ → List ChunkRef) (chunk_of : List ℕ → List ℕ) (p : AssetProto Child)
    (small : p.file_size < 2 ^ 64) (stored : AreStored get_list lists p) where
  -- The tasks ask for the bytes from the offset on.
  abbrev pub Plans : ℕ → ℕ → List ℕ → Result (Option Reading × Asset Child) → Type 0
  Plans o size bytes x =
      (r : Reading) × (a' : Asset Child) × (x ≡ ok (some r, a'))
      × IsCached get_list lists p a'
      × (slices chunk_of r.chunks ≡ take size (drop o bytes))
      × (r.data_bytes_left ≡ size - length (drop o bytes))
      × All IsNew r.chunks

  some_chunk :
      (n q : ℕ) (refs : List ChunkRef) (bytes : List ℕ) (o : ℕ)
      → Rest lists chunk_of p n q refs (chunk_list_offset q p) bytes
      → chunk_list_offset q p ≤ o
      → o < chunk_list_offset (suc q) p
      → HasChunk lists chunk_of p n q refs (chunk_list_offset q p) bytes o
  some_chunk n q [] bytes o h l u = absurd (omega (arith, Rest-nil lists chunk_of p n q _ bytes h))
  some_chunk n q (c ∷ cs) bytes o h l u = find_in_list lists chunk_of p n q c cs _ bytes o h l u

  pub plan-Plans :
      (fuel n o size prefetch : ℕ) (bytes : List ℕ) (a : Asset Child)
      → n ≤ fuel
      → Rest lists chunk_of p n 0 p.file_chunks 0 bytes
      → IsCached get_list lists p a
      → o < p.file_size
      → size ≤ prefetch
      → Plans o size bytes (plan get_list fuel o size prefetch a)
  unfolding chunk_list_offset
  plan-Plans fuel n o size prefetch bytes a l h k u v =
      let (j, n1, q, refs, bytes1, i, b, c, h1, g, f, w, y) =
        find_list get_list lists chunk_of p n n 0 p.file_chunks bytes o (omega arith) h refl
          (omega arith) u in
      let (m, n2, d, ch, cs, start, bytes2, b2, e2, h2, o2, l2, w2, y2) =
        some_chunk n1 q refs bytes1 o h1 g f in
      let (a1, s1, k1) = get_chunk_ref_list_lem get_list lists p q a stored k in
      let (r, a2, s2, k2, sl, dl, nl) =
        read_loop-Reads get_list lists chunk_of p small stored fuel n2 q d ch cs start bytes2
          (record { list_no = q; chunk_refs = refs; chunk_idx = m })
          (record {
            offset = o;
            data_bytes_left = size;
            prefetch_bytes_left = prefetch;
            chunks = [];
          })
          a1 (omega (arith, w2, w, l)) h2 (refl, e2) k1 o2 l2 v in
      (
        r,
        a2,
        plan_step get_list fuel o size prefetch q m refs a a1 a2 r
            (ap (find_chunk_list o) k.0
              ∙ (find_chunk_list_inside get_list o p u ∙ (b ∙ sym (plus_left q j i))))
            (s1 ∙ ap (λ z. ok (z, a1)) c)
            (ap (λ z. find_chunk_index refs (chunk_list_offset q z) o) k1.0
              ∙ find_chunk_index-some refs (chunk_list_offset q p) o m
                  (sub64_exact o (chunk_list_offset q p) g (omega (arith, u, small))) b2)
            s2,
        k2,
        sl ∙ ap (take size) (sym y2 ∙ (sym y ∙ ap (λ z. drop z bytes) (minus_zero o))),
        dl ∙ ap (λ z. size - length z) (sym y2 ∙ (sym y ∙ ap (λ z. drop z bytes) (minus_zero o))),
        nl tt,
      )
    where
      minus_zero : (o : ℕ) → o - 0 ≡ o
      minus_zero o = omega arith

      plus_left : (q j : ℕ) → q ≡ 0 + j → q ≡ j
      plus_left q j e = omega (arith, e)
