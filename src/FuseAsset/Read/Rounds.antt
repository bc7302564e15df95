-- ===== src/FuseAsset/Read/Rounds.antt =====
-- cdc_fuse_fs/asset.cc: the rounds of the loop of `Asset::Read`.
use mathlib.Core.Bool.{false≢true}
use cdc_file_transfer.Prelude.{
  ℕ, zero, suc, ◌+◌, ◌-◌, ◌^◌, ◌≤◌, ◌<◌, ◌≡◌, ◌⊎◌, inl, inr, refl, sym, ap, subst, ◌∙◌, true, false,
  List, [], ◌∷◌, ◌++◌, append_assoc, append-nil, Option, none, some, length, get_elem?, take, drop,
  length-append, length-drop, take-nil, drop-append_le, ltb, ◌==◌, ==_iff, arith, Bool-cases, All,
}
use cdc_file_transfer.Prelude.Parts.{take-min}
use cdc_file_transfer.Prelude.Status.{Result, ok}
use cdc_file_transfer.FileChunkMap.{ChunkRef}
use cdc_file_transfer.DataStore.{new_task}
use cdc_file_transfer.FuseAsset.{AssetProto, Asset, get_chunk_ref_list}
use cdc_file_transfer.FuseAsset.Layout.{Rest}
use cdc_file_transfer.FuseAsset.Cached.{
  refs_some, refs_none, AreStored, IsCached, get_chunk_ref_list_lem,
}
use cdc_file_transfer.FuseAsset.Read.{
  Place, Reading, enqueue, next_place, is_at_boundary, read_loop,
}
use cdc_file_transfer.FuseAsset.Read.Loop.{
  take-append, drop-suc, IsNew, All-snoc, slices, slices-snoc, task_for, IsHere, absolute_of,
  enqueue_lem,
}
use cdc_file_transfer.FuseAsset.Read.Steps.{
  idx_out, idx_in, positive, plus_zero, here_step, end_step, next_step, loop_end, loop_none,
  loop_some,
}

module _ {Child : Type 0} (get_list : List ℕ → Result (List ChunkRef))
    (lists : List ℕ → List ChunkRef) (chunk_of : List ℕ → List ℕ) (p : AssetProto Child)
    (small : p.file_size < 2 ^ 64) (stored : AreStored get_list lists p) where
  -- The next chunk, or the end of the file.
  abbrev Arrives : ℕ → ℕ → List ℕ → Result (Option Place × Asset Child) → Type 0
  Arrives n start bytes x =
      (a' : Asset Child) × IsCached get_list lists p a'
      × (((x ≡ ok (none, a')) × (bytes ≡ []))
          ⊎ ((s' : Place) × (n' : ℕ) × (nr : ℕ) × (c : ChunkRef) × (cs : List ChunkRef) × (x
                ≡ ok (some s', a'))
              × IsHere lists chunk_of p small nr (c ∷ cs) s'
              × Rest lists chunk_of p n' nr (c ∷ cs) start bytes
              × (n' ≤ n)))

  next_place-Arrives :
      (fuel n nr : ℕ) (cs : List ChunkRef) (start : ℕ) (bytes : List ℕ) (s : Place)
      (a : Asset Child)
      → n ≤ fuel
      → Rest lists chunk_of p n nr cs start bytes
      → IsHere lists chunk_of p small nr cs s
      → IsCached get_list lists p a
      → Arrives n start bytes (next_place get_list fuel s start a)
  next_place-Arrives fuel zero nr cs start bytes s a l h here k = absurd (false≢true h)
  next_place-Arrives zero (suc n) nr cs start bytes s a l h here k = absurd (omega arith)
  next_place-Arrives (suc fuel) (suc n) nr (c ∷ cs) start bytes s a l h (e, d) k = (
    a,
    k,
    inr (s, suc n, nr, c, cs, here_step get_list fuel s start a inside, (e, d), h, omega arith),
  )
    where
      inside : ltb s.chunk_idx (length s.chunk_refs) ≡ true
      inside =
          idx_in s.chunk_idx s.chunk_refs (length cs)
            (sym (length-drop s.chunk_idx s.chunk_refs) ∙ ap length d)
  next_place-Arrives (suc fuel) (suc n) nr [] start bytes s a l (inl (m, e', o, h)) (e, d) k =
      let (a', g, k') = get_chunk_ref_list_lem get_list lists p (suc nr) a stored k in
      let (b, kb, found) =
        next_place-Arrives fuel n (suc nr) (lists m.chunk_list_id) start bytes
          (record { list_no = suc s.list_no; chunk_refs = lists m.chunk_list_id; chunk_idx = 0 }) a'
          (omega arith) h (ap suc e, refl) k' in
      subst (Arrives (suc n) start bytes)
        (sym (
          next_step get_list fuel s start a a' (lists m.chunk_list_id) outside (
            ap (λ x. get_chunk_ref_list get_list (suc x) a) e
            ∙ (g ∙ ap (λ x. ok (x, a')) (refs_some get_list lists p nr m e')))))
        (
          b,
          kb,
          elim found [
            | inl y ↦ inl y
            | inr (s', n', nr', c, cs, y, z, w, v) ↦ inr (s', n', nr', c, cs, y, z, w, omega arith)
          ],
        )
    where
      outside : ltb s.chunk_idx (length s.chunk_refs) ≡ false
      outside =
          idx_out s.chunk_idx s.chunk_refs
            (sym (length-drop s.chunk_idx s.chunk_refs) ∙ ap length d)
  next_place-Arrives (suc fuel) (suc n) nr [] start bytes s a l (inr (e', o, b)) (e, d) k =
      let (a', g, k') = get_chunk_ref_list_lem get_list lists p (suc nr) a stored k in
      (
        a',
        k',
        inl (
          end_step get_list fuel s start a a' outside
              (ap (λ x. get_chunk_ref_list get_list (suc x) a) e
                ∙ (g ∙ ap (λ x. ok (x, a')) (refs_none get_list lists p nr e')))
              ((==_iff start a.proto.file_size).1 (sym (ap (λ x. x.file_size) k.0 ∙ o))),
          b,
        ),
      )
    where
      outside : ltb s.chunk_idx (length s.chunk_refs) ≡ false
      outside =
          idx_out s.chunk_idx s.chunk_refs
            (sym (length-drop s.chunk_idx s.chunk_refs) ∙ ap length d)

  -- The tasks that are added ask for the next bytes, as many as are left to read.
  abbrev pub Reads : Reading → List ℕ → Result (Reading × Asset Child) → Type 0
  Reads r bytes x =
      (r' : Reading) × (a' : Asset Child) × (x ≡ ok (r', a'))
      × IsCached get_list lists p a'
      × (slices chunk_of r'.chunks ≡ slices chunk_of r.chunks ++ take r.data_bytes_left bytes)
      × (r'.data_bytes_left ≡ r.data_bytes_left - length bytes)
      × (All IsNew r.chunks → All IsNew r'.chunks)

  boundary :
      (n nr : ℕ) (c : ChunkRef) (cs : List ChunkRef) (start : ℕ) (bytes : List ℕ) (s : Place)
      → IsHere lists chunk_of p small nr (c ∷ cs) s
      → Rest lists chunk_of p n nr (c ∷ cs) start bytes
      → is_at_boundary p s start ≡ true
  unfolding is_at_boundary
  boundary n nr c cs start bytes s (e, d) h =
      rw (is_at_boundary, (drop-suc s.chunk_idx s.chunk_refs c cs d).0, e)
        ((==_iff start _).1 (sym (absolute_of lists chunk_of p small n nr c cs start bytes h)))

  -- The slice of the new task is what the chunk has of the bytes to read.
  new_slice :
      (c : ChunkRef) (k : ℕ) (r : Reading)
      → slices chunk_of (task_for c k (length (chunk_of c.chunk_id) - k) r).chunks
        ≡ slices chunk_of r.chunks ++ take r.data_bytes_left (drop k (chunk_of c.chunk_id))
  unfolding new_task
  new_slice c k r =
      slices-snoc chunk_of r.chunks _
      ∙ ap (λ x. slices chunk_of r.chunks ++ x)
          (take-min r.data_bytes_left (length (chunk_of c.chunk_id) - k)
            (drop k (chunk_of c.chunk_id)) (length-drop k (chunk_of c.chunk_id)))

  -- The bytes of a chunk, then those behind it.
  split_read :
      (m k : ℕ) (d rest bytes : List ℕ)
      → k ≤ length d
      → bytes ≡ d ++ rest
      → take m (drop k bytes) ≡ take m (drop k d) ++ take (m - (length d - k)) rest
  split_read m k d rest bytes h e =
      ap (λ x. take m (drop k x)) e
      ∙ (ap (take m) (drop-append_le k d rest h)
          ∙ (take-append m (drop k d) rest
              ∙ ap (λ x. take m (drop k d) ++ take (m - x) rest) (length-drop k d)))

  split_length :
      (k : ℕ) (d rest bytes : List ℕ)
      → k ≤ length d
      → bytes ≡ d ++ rest
      → length (drop k bytes) ≡ (length d - k) + length rest
  split_length k d rest bytes h e =
      omega (arith, length-drop k bytes, ap length e, length-append d rest)

  pub read_loop-Reads :
      (fuel n nr k : ℕ) (c : ChunkRef) (cs : List ChunkRef) (start : ℕ) (bytes : List ℕ) (s : Place)
      (r : Reading) (a : Asset Child)
      → n ≤ fuel
      → Rest lists chunk_of p n nr (c ∷ cs) start bytes
      → IsHere lists chunk_of p small nr (c ∷ cs) s
      → IsCached get_list lists p a
      → r.offset ≡ start + k
      → k ≤ length (chunk_of c.chunk_id)
      → r.data_bytes_left ≤ r.prefetch_bytes_left
      → Reads r (drop k bytes) (read_loop get_list fuel s r a)
  unfolding new_task
  read_loop-Reads fuel zero nr k c cs start bytes s r a l h here q o m v = absurd (false≢true h)
  read_loop-Reads zero (suc n) nr k c cs start bytes s r a l h here q o m v = absurd (omega arith)
  read_loop-Reads (suc fuel) (suc n) nr k c cs start bytes s r a l (o', rest, b, h) (e, d) q o m v =
      elim (Bool-cases (r1.prefetch_bytes_left == 0)) [
        | inl t ↦ (
          r1,
          a,
          loop_end get_list fuel s c r r1 a at_c is_r1 t,
          q,
          new_slice c k r ∙ ap (λ x. slices chunk_of r.chunks ++ x) (enough ((==_iff _ 0).0 t)),
          omega (
            arith,
            v,
            (==_iff r1.prefetch_bytes_left 0).0 t,
            split_length k (chunk_of c.chunk_id) rest bytes m b,
          ),
          all_new,
        )
        | inr t ↦
            let (a', q', found) =
              next_place-Arrives fuel n nr cs (start + length (chunk_of c.chunk_id)) rest after a
                (omega arith) h (e, (drop-suc s.chunk_idx s.chunk_refs c cs d).1) q in
            elim found [
              | inl (y, z) ↦ (
                r1,
                a',
                loop_none get_list fuel s c r r1 a a' at_c is_r1 t (moved t ∙ y),
                q',
                new_slice c k r ∙ ap (λ x. slices chunk_of r.chunks ++ x) (whole z),
                omega (arith, v, ap length z, split_length k (chunk_of c.chunk_id) rest bytes m b),
                all_new,
              )
              | inr (s', n', nr', c', cs', y, here', h', le) ↦
                  let (r2, a2, y2, q2, sl, dl, nl) =
                    read_loop-Reads fuel n' nr' 0 c' cs' (start + length (chunk_of c.chunk_id)) rest
                      s' r1 a' (omega arith) h' here' q' (reaches_size t ∙ plus_zero _)
                      (omega arith) (omega (arith, v)) in
                  (
                    r2,
                    a2,
                    loop_some get_list fuel s s' c r r1 a a' at_c is_r1 t (moved t ∙ y) (
                          ap (λ x. is_at_boundary x s' r1.offset) q.0
                          ∙ (ap (is_at_boundary p s') (reaches_size t)
                              ∙ boundary n' nr' c' cs' _ rest s' here' h'))
                        ∙ y2,
                    q2,
                    sl ∙ joined,
                    omega (arith, dl, split_length k (chunk_of c.chunk_id) rest bytes m b),
                    (λ y. nl (all_new y)),
                  )
            ]
      ]
    where
      r1 : Reading
      r1 = task_for c k (length (chunk_of c.chunk_id) - k) r

      after : Place
      after = record s { chunk_idx = suc s.chunk_idx }

      at_c : get_elem? s.chunk_refs s.chunk_idx ≡ some c
      at_c = (drop-suc s.chunk_idx s.chunk_refs c cs d).0

      is_r1 : enqueue a.proto s c r ≡ r1
      is_r1 =
          ap (λ x. enqueue x s c r) q.0
          ∙ enqueue_lem lists chunk_of p small (suc n) nr k c cs start bytes s r (o', rest, b, h)
              (e, d) o m

      all_new : All IsNew r.chunks → All IsNew r1.chunks
      all_new h = All-snoc r.chunks _ (refl, refl) h

      len : ℕ
      len = length (chunk_of c.chunk_id)

      reaches_size : (r1.prefetch_bytes_left == 0) ≡ false → r1.offset ≡ start + len
      reaches_size t = omega (arith, o, m, positive r1.prefetch_bytes_left t)

      moved :
          (r1.prefetch_bytes_left == 0) ≡ false
          → next_place get_list fuel after r1.offset a
            ≡ next_place get_list fuel after (start + len) a
      moved t = ap (λ x. next_place get_list fuel after x a) (reaches_size t)

      split :
          take r.data_bytes_left (drop k bytes)
          ≡ take r.data_bytes_left (drop k (chunk_of c.chunk_id))
            ++ take (r.data_bytes_left - (len - k)) rest
      split = split_read r.data_bytes_left k (chunk_of c.chunk_id) rest bytes m b

      nothing_left : r1.prefetch_bytes_left ≡ 0 → 0 ≡ r.data_bytes_left - (len - k)
      nothing_left z = omega (arith, v, z)

      enough :
          r1.prefetch_bytes_left ≡ 0
          → take r.data_bytes_left (drop k (chunk_of c.chunk_id))
            ≡ take r.data_bytes_left (drop k bytes)
      enough z =
          sym (append-nil _)
          ∙ (ap (λ x. take r.data_bytes_left (drop k (chunk_of c.chunk_id)) ++ take x rest)
                (nothing_left z)
              ∙ sym split)

      whole :
          rest ≡ []
          → take r.data_bytes_left (drop k (chunk_of c.chunk_id))
            ≡ take r.data_bytes_left (drop k bytes)
      whole z =
          sym (append-nil _)
          ∙ (ap (λ x. take r.data_bytes_left (drop k (chunk_of c.chunk_id)) ++ x)
                (sym (take-nil (r.data_bytes_left - (len - k)))
                  ∙ ap (take (r.data_bytes_left - (len - k))) (sym z))
              ∙ sym split)

      left_over : r1.data_bytes_left ≡ r.data_bytes_left - (len - k)
      left_over = omega arith

      joined :
          slices chunk_of r1.chunks ++ take r1.data_bytes_left rest
          ≡ slices chunk_of r.chunks ++ take r.data_bytes_left (drop k bytes)
      joined =
          ap (λ x. x ++ take r1.data_bytes_left rest) (new_slice c k r)
          ∙ (append_assoc (slices chunk_of r.chunks)
                (take r.data_bytes_left (drop k (chunk_of c.chunk_id)))
                (take r1.data_bytes_left rest)
              ∙ ap (λ x. slices chunk_of r.chunks ++ x)
                  (ap (λ x. take r.data_bytes_left (drop k (chunk_of c.chunk_id)) ++ take x rest)
                      left_over
                    ∙ sym split))
