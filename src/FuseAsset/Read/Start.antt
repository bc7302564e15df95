-- ===== src/FuseAsset/Read/Start.antt =====
-- cdc_fuse_fs/asset.cc: `FindChunkList` and `FindChunk` find the chunk with an offset.
use mathlib.Core.Bool.{false≢true}
use mathlib.Core.Option.{some-injective, some-ne-none}
use cdc_file_transfer.Prelude.{
  ℕ, zero, suc, ◌+◌, ◌-◌, ◌≤◌, ◌<◌, ◌≡◌, inl, inr, refl, sym, ap, subst, ◌∙◌, true, false, List, [],
  ◌∷◌, ◌++◌, map, none, some, length, get_elem?, drop, drop-nil, ltb, ltb→lt, arith, Bool-cases,
  Option-cases,
}
use cdc_file_transfer.Prelude.Status.{Result}
use cdc_file_transfer.FileChunkMap.{ChunkRef}
use cdc_file_transfer.FuseAsset.{IndirectChunkList, AssetProto, upper_bound, chunk_list_offset}
use cdc_file_transfer.FuseAsset.Cached.{refs_of, refs_some}
use cdc_file_transfer.FuseAsset.Layout.{Rest, Rest-nil, list_offset_some, list_offset_none}

drop-behind : (o : ℕ) (xs ys : List ℕ) → length xs ≤ o → drop o (xs ++ ys) ≡ drop (o - length xs) ys
drop-behind o [] ys h = ap (λ k. drop k ys) (sub-nil o)
  where
    sub-nil : (n : ℕ) → n ≡ n - 0
    sub-nil n = omega arith
drop-behind zero (x ∷ xs) ys h = absurd (omega arith)
drop-behind (suc o) (x ∷ xs) ys h =
    drop-behind o xs ys (omega arith) ∙ ap (λ k. drop k ys) (sub-suc o (length xs))
  where
    sub-suc : (n m : ℕ) → n - m ≡ suc n - suc m
    sub-suc n m = omega arith

upper_bound-nil : (v : ℕ) → upper_bound v [] ≡ 0
unfolding upper_bound
upper_bound-nil v = refl

upper_bound_below :
    (v o : ℕ) (os : List ℕ) → ltb v o ≡ false → upper_bound v (o ∷ os) ≡ suc (upper_bound v os)
unfolding upper_bound
upper_bound_below v o os t = rw (upper_bound, t) refl

upper_bound_above : (v o : ℕ) (os : List ℕ) → ltb v o ≡ true → upper_bound v (o ∷ os) ≡ 0
unfolding upper_bound
upper_bound_above v o os t = rw (upper_bound, t) refl

not_above : (v o : ℕ) → o ≤ v → ltb v o ≡ false
not_above v o h = ground (arith, h)

not_below : (v o : ℕ) → ltb v o ≡ false → o ≤ v
not_below v o h = ground (arith, h)

module _ {Child : Type 0} (lists : List ℕ → List ChunkRef) (chunk_of : List ℕ → List ℕ)
    (p : AssetProto Child) where
  -- The chunk with the offset `o`, among chunks from `start` on.
  abbrev pub HasChunk : ℕ → ℕ → List ChunkRef → ℕ → List ℕ → ℕ → Type 0
  HasChunk n nr refs start bytes o =
      (j n' k : ℕ) × (c : ChunkRef) × (cs : List ChunkRef) × (start' : ℕ) × (bytes' : List ℕ)
      × (upper_bound (o - chunk_list_offset nr p) (map (λ x. x.ref_offset) refs) ≡ suc j)
      × (drop j refs ≡ c ∷ cs)
      × Rest lists chunk_of p n' nr (c ∷ cs) start' bytes'
      × (o ≡ start' + k)
      × (k ≤ length (chunk_of c.chunk_id))
      × (n' ≤ n)
      × (drop (o - start) bytes ≡ drop k bytes')

  pub find_in_list :
      (n nr : ℕ) (c : ChunkRef) (cs : List ChunkRef) (start : ℕ) (bytes : List ℕ) (o : ℕ)
      → Rest lists chunk_of p n nr (c ∷ cs) start bytes
      → start ≤ o
      → o < chunk_list_offset (suc nr) p
      → HasChunk n nr (c ∷ cs) start bytes o
  find_in_list zero nr c cs start bytes o h l u = absurd (false≢true h)
  find_in_list (suc n) nr c [] start bytes o (s, rest, b, h) l u = (
    0,
    suc n,
    o - start,
    c,
    [],
    start,
    bytes,
    upper_bound_below _ c.ref_offset [] (not_above _ _ (omega (arith, s, l)))
        ∙ ap suc (upper_bound-nil (o - chunk_list_offset nr p)),
    refl,
    (s, rest, b, h),
    omega (arith, l),
    omega (arith, u, Rest-nil lists chunk_of p n nr _ rest h),
    omega arith,
    refl,
  )
  find_in_list (suc zero) nr c (d ∷ cs) start bytes o (s, rest, b, h) l u = absurd (false≢true h)
  find_in_list (suc (suc n)) nr c (d ∷ cs) start bytes o (s, rest, b, (s', rest', b', h)) l u =
      elim (Bool-cases (ltb (o - chunk_list_offset nr p) d.ref_offset)) [
        | inl t ↦ (
          0,
          suc (suc n),
          o - start,
          c,
          d ∷ cs,
          start,
          bytes,
          upper_bound_below _ c.ref_offset _ (not_above _ _ (omega (arith, s, l)))
              ∙ ap suc (upper_bound_above _ d.ref_offset _ t),
          refl,
          (s, rest, b, (s', rest', b', h)),
          omega (arith, l),
          omega (arith, s, s', ltb→lt _ _ t),
          omega arith,
          refl,
        )
        | inr t ↦
            let (j, n', k, c', cs', start', bytes', e, f, g, m, v, w, x) =
              find_in_list (suc n) nr d cs (start + length (chunk_of c.chunk_id)) rest o
                (s', rest', b', h) (omega (arith, s', l, s, not_below _ _ t)) u in
            (
              suc j,
              n',
              k,
              c',
              cs',
              start',
              bytes',
              upper_bound_below _ c.ref_offset _ (not_above _ _ (omega (arith, s, l))) ∙ ap suc e,
              f,
              g,
              m,
              v,
              omega (arith, w),
              ap (drop (o - start)) b
                  ∙ (drop-behind (o - start) (chunk_of c.chunk_id) rest
                        (omega (arith, s', l, s, not_below _ _ t))
                      ∙ (ap (λ y. drop y rest) (sub-sub o start (length (chunk_of c.chunk_id)))
                          ∙ x)),
            )
      ]
    where
      sub-sub : (a b c : ℕ) → (a - b) - c ≡ a - (b + c)
      sub-sub a b c = omega arith

  -- A list begins before the next one.
  before_list :
      (n nr : ℕ) (cs : List ChunkRef) (start : ℕ) (bytes : List ℕ) (l : IndirectChunkList)
      → Rest lists chunk_of p n nr cs start bytes
      → get_elem? p.file_indirect_chunks nr ≡ some l
      → start ≤ l.list_offset
  before_list zero nr cs start bytes l h e = absurd (false≢true h)
  before_list (suc n) nr [] start bytes l h e = omega (
    arith,
    Rest-nil lists chunk_of p (suc n) nr start bytes h,
    list_offset_some lists chunk_of p nr l e,
  )
  before_list (suc n) nr (c ∷ cs) start bytes l (s, rest, b, h) e =
      omega (arith, before_list n nr cs _ rest l h e)

  -- Behind the chunks of a list stands the next one.
  skip_list :
      (n nr : ℕ) (cs : List ChunkRef) (start : ℕ) (bytes : List ℕ) (l : IndirectChunkList) (o : ℕ)
      → Rest lists chunk_of p n nr cs start bytes
      → get_elem? p.file_indirect_chunks nr ≡ some l
      → l.list_offset ≤ o
      → (n' : ℕ) × (bytes' : List ℕ) × (n' < n)
        × Rest lists chunk_of p n' (suc nr) (lists l.chunk_list_id) l.list_offset bytes'
        × (drop (o - start) bytes ≡ drop (o - l.list_offset) bytes')
  skip_list zero nr cs start bytes l o h e u = absurd (false≢true h)
  skip_list (suc n) nr [] start bytes l o (inl (m, e', s, h)) e u =
      subst
        (λ x.
          (n' : ℕ) × (bytes' : List ℕ) × (n' < suc n)
          × Rest lists chunk_of p n' (suc nr) (lists x.chunk_list_id) x.list_offset bytes'
          × (drop (o - start) bytes ≡ drop (o - x.list_offset) bytes'))
        (some-injective m l (sym e' ∙ e))
        (
          n,
          bytes,
          omega arith,
          subst (λ y. Rest lists chunk_of p n (suc nr) (lists m.chunk_list_id) y bytes) (sym s) h,
          ap (λ y. drop (o - y) bytes) (sym s),
        )
  skip_list (suc n) nr [] start bytes l o (inr (e', s, b)) e u =
      absurd (some-ne-none l (sym e ∙ e'))
  skip_list (suc n) nr (c ∷ cs) start bytes l o (s, rest, b, h) e u =
      let (n', bytes', v, h', x) =
        skip_list n nr cs (start + length (chunk_of c.chunk_id)) rest l o h e u in
      (
        n',
        bytes',
        omega (arith, v),
        h',
        ap (drop (o - start)) b
            ∙ (drop-behind (o - start) (chunk_of c.chunk_id) rest
                  (omega (arith, u, before_list n nr cs _ rest l h e))
                ∙ (ap (λ y. drop y rest) (sub-sub o start (length (chunk_of c.chunk_id))) ∙ x)),
      )
    where
      sub-sub : (a b c : ℕ) → (a - b) - c ≡ a - (b + c)
      sub-sub a b c = omega arith

drop-at :
    (i : ℕ) (xs : List IndirectChunkList) (l : IndirectChunkList)
    → get_elem? xs i ≡ some l
    → drop i xs ≡ l ∷ drop (suc i) xs
drop-at i [] l e = absurd (some-ne-none l (sym e))
drop-at zero (x ∷ xs) l e = ap (λ y. y ∷ xs) (some-injective x l e)
drop-at (suc i) (x ∷ xs) l e = drop-at i xs l e

drop_past : (i : ℕ) (xs : List IndirectChunkList) → get_elem? xs i ≡ none → drop i xs ≡ []
drop_past i [] e = drop-nil i
drop_past zero (x ∷ xs) e = absurd (some-ne-none x e)
drop_past (suc i) (x ∷ xs) e = drop_past i xs e

plus_zero : (n : ℕ) → n ≡ n + 0
plus_zero n = omega arith

plus_suc : (q n j : ℕ) → q ≡ suc n + j → q ≡ n + suc j
plus_suc q n j e = omega (arith, e)

module _ {Child : Type 0} (get_list : List ℕ → Result (List ChunkRef))
    (lists : List ℕ → List ChunkRef) (chunk_of : List ℕ → List ℕ) (p : AssetProto Child) where
  -- The list `q` with the offset `o`, from the list `nr` on.
  abbrev pub HasList : ℕ → ℕ → ℕ → List ℕ → ℕ → Type 0
  HasList n nr start bytes o =
      (j n' q : ℕ) × (refs : List ChunkRef) × (bytes' : List ℕ) × (q ≡ nr + j)
      × (upper_bound o (map (λ x. x.list_offset) (drop nr p.file_indirect_chunks)) ≡ j)
      × (refs_of get_list lists q p ≡ some refs)
      × Rest lists chunk_of p n' q refs (chunk_list_offset q p) bytes'
      × (chunk_list_offset q p ≤ o)
      × (o < chunk_list_offset (suc q) p)
      × (n' ≤ n)
      × (drop (o - start) bytes ≡ drop (o - chunk_list_offset q p) bytes')

  pub find_list :
      (m n nr : ℕ) (refs : List ChunkRef) (bytes : List ℕ) (o : ℕ)
      → n ≤ m
      → Rest lists chunk_of p n nr refs (chunk_list_offset nr p) bytes
      → refs_of get_list lists nr p ≡ some refs
      → chunk_list_offset nr p ≤ o
      → o < p.file_size
      → HasList n nr (chunk_list_offset nr p) bytes o
  find_list m zero nr refs bytes o a h r l u = absurd (false≢true h)
  find_list zero (suc n) nr refs bytes o a h r l u = absurd (omega arith)
  find_list (suc m) (suc n) nr refs bytes o a h r l u =
      elim (Option-cases (get_elem? p.file_indirect_chunks nr)) [
        | inl e ↦ (
          0,
          suc n,
          nr,
          refs,
          bytes,
          plus_zero nr,
          ap (λ x. upper_bound o (map (λ y. y.list_offset) x))
                (drop_past nr p.file_indirect_chunks e)
              ∙ upper_bound-nil o,
          r,
          h,
          l,
          omega (arith, u, list_offset_none lists chunk_of p nr e),
          omega arith,
          refl,
        )
        | inr (d, e) ↦ elim (Bool-cases (ltb o d.list_offset)) [
          | inl t ↦ (
            0,
            suc n,
            nr,
            refs,
            bytes,
            plus_zero nr,
            ap (λ x. upper_bound o (map (λ y. y.list_offset) x))
                  (drop-at nr p.file_indirect_chunks d e)
                ∙ upper_bound_above o d.list_offset _ t,
            r,
            h,
            l,
            omega (arith, ltb→lt _ _ t, list_offset_some lists chunk_of p nr d e),
            omega arith,
            refl,
          )
          | inr t ↦
              let (n', bytes', v, h', x) =
                skip_list lists chunk_of p (suc n) nr refs _ bytes d o h e
                  (not_below o d.list_offset t) in
              let off = list_offset_some lists chunk_of p nr d e in
              let (j, n'', q, refs'', bytes'', i, b, c, f, g, k, w, y) =
                find_list m n' (suc nr) (lists d.chunk_list_id) bytes' o (omega (arith, v, a))
                  (subst (λ z. Rest lists chunk_of p n' (suc nr) (lists d.chunk_list_id) z bytes')
                    (sym off) h')
                  (refs_some get_list lists p nr d e)
                  (omega (arith, off, not_below o d.list_offset t)) u in
              (
                suc j,
                n'',
                q,
                refs'',
                bytes'',
                plus_suc q nr j i,
                ap (λ z. upper_bound o (map (λ y. y.list_offset) z))
                      (drop-at nr p.file_indirect_chunks d e)
                    ∙ (upper_bound_below o d.list_offset _ t ∙ ap suc b),
                c,
                f,
                g,
                k,
                omega (arith, w, v),
                x ∙ (ap (λ z. drop (o - z) bytes') (sym off) ∙ y),
              )
        ]
      ]
