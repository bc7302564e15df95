-- ===== src/FuseAsset/Cached.antt =====
-- cdc_fuse_fs/asset.cc: a list of chunks is the same whether it is loaded or fetched.
use mathlib.Core.Bool.{false≢true}
use mathlib.Core.Option.{some-injective, some-ne-none}
use cdc_file_transfer.Prelude.{
  ℕ, zero, suc, ◌-◌, ◌<◌, ◌≡◌, ◌≢◌, ◌⊎◌, inl, inr, refl, sym, ap, ◌∙◌, false, List, [], ◌∷◌, ◌++◌,
  Option, none, some, length, get_elem?, set, replicate, get_elem?-set_self, get_elem?-set_ne,
  length-append, length-replicate, arith, ◌==◌, ==_iff, Bool-cases, Option-cases,
}
use cdc_file_transfer.Prelude.Status.{Result, ok}
use cdc_file_transfer.FileChunkMap.{ChunkRef}
use cdc_file_transfer.FuseAsset.{
  IndirectChunkList, AssetProto, Asset, resized, fetch_chunk_list, get_chunk_ref_list,
}

not_padded :
    (xs : List (Option (List ChunkRef))) (k j : ℕ) (x : List ChunkRef)
    → get_elem? (xs ++ replicate k none) j ≡ some (some x)
    → get_elem? xs j ≡ some (some x)
not_padded [] zero j x e = e
not_padded [] (suc k) zero x e = absurd (some-ne-none x (sym (some-injective none (some x) e)))
not_padded [] (suc k) (suc j) x e = absurd (some-ne-none (some x) (sym (not_padded [] k j x e)))
not_padded (y ∷ xs) k zero x e = e
not_padded (y ∷ xs) k (suc j) x e = not_padded xs k j x e

differ : (i j : ℕ) → (i == j) ≡ false → i ≢ j
differ i j t e = absurd (false≢true (sym t ∙ (==_iff i j).1 e))

-- `lists` are the lists that the data store has.
module _ {Child : Type 0} (get_list : List ℕ → Result (List ChunkRef))
    (lists : List ℕ → List ChunkRef) where
  -- The list of a number
  abbrev pub refs_of : ℕ → AssetProto Child → Option (List ChunkRef)
  refs_of zero p = some p.file_chunks
  refs_of (suc i) p = elim (get_elem? p.file_indirect_chunks i) [
    | none ↦ none
    | some l ↦ some (lists l.chunk_list_id)
  ]

  -- All lists can be fetched.
  abbrev pub AreStored : AssetProto Child → Type 0
  AreStored p =
      (i : ℕ) (l : IndirectChunkList)
      → get_elem? p.file_indirect_chunks i ≡ some l
      → get_list l.chunk_list_id ≡ ok (lists l.chunk_list_id)

  -- The lists that are loaded are those of the data store.
  abbrev pub IsCached : AssetProto Child → Asset Child → Type 0
  IsCached p a =
      (a.proto ≡ p)
      × ((i : ℕ) (list : List ChunkRef) (l : IndirectChunkList)
          → get_elem? a.file_chunk_lists i ≡ some (some list)
          → get_elem? p.file_indirect_chunks i ≡ some l
          → list ≡ lists l.chunk_list_id)

  -- What a fetch gives.
  abbrev pub Gives : AssetProto Child → ℕ → Result (Option (List ChunkRef) × Asset Child) → Type 0
  Gives p nr r = (a' : Asset Child) × (r ≡ ok (refs_of nr p, a')) × IsCached p a'

  fetch-Gives :
      (p : AssetProto Child) (i : ℕ) (l : IndirectChunkList) (a : Asset Child)
      → AreStored p
      → get_elem? p.file_indirect_chunks i ≡ some l
      → IsCached p a
      → (a' : Asset Child) × (fetch_chunk_list get_list i l.chunk_list_id a
          ≡ ok (some (lists l.chunk_list_id), a'))
        × IsCached p a'
  unfolding fetch_chunk_list resized
  fetch-Gives p i l a s e (q, h) = (
    record a { file_chunk_lists = set grown i (some (lists l.chunk_list_id)) },
    rw (fetch_chunk_list, s i l e) refl,
    (q, cached),
  )
    where
      grown : List (Option (List ChunkRef))
      grown = resized (suc i) a.file_chunk_lists

      long : i < length grown
      long = omega (
        arith,
        length-append a.file_chunk_lists (replicate (suc i - length a.file_chunk_lists) none),
        length-replicate {A = Option (List ChunkRef)} (suc i - length a.file_chunk_lists) none,
      )

      cached :
          (j : ℕ) (list : List ChunkRef) (m : IndirectChunkList)
          → get_elem? (set grown i (some (lists l.chunk_list_id))) j ≡ some (some list)
          → get_elem? p.file_indirect_chunks j ≡ some m
          → list ≡ lists m.chunk_list_id
      cached j list m f g = elim (Bool-cases (i == j)) [
        | inl t ↦
            some-injective list (lists l.chunk_list_id) (
              some-injective (some list) (some (lists l.chunk_list_id)) (
                sym f
                ∙ (ap (get_elem? (set grown i (some (lists l.chunk_list_id))))
                      (sym ((==_iff i j).0 t))
                    ∙ get_elem?-set_self grown i (some (lists l.chunk_list_id)) long)))
            ∙ ap (λ x. lists x.chunk_list_id)
                (some-injective l m
                  (sym e ∙ (ap (get_elem? p.file_indirect_chunks) ((==_iff i j).0 t) ∙ g)))
        | inr t ↦
            h j list m
              (not_padded a.file_chunk_lists _ j list
                (sym (get_elem?-set_ne grown (some (lists l.chunk_list_id)) (differ i j t)) ∙ f))
              g
      ]

  found_step :
      (i : ℕ) (l : IndirectChunkList) (list : List ChunkRef) (a : Asset Child)
      → get_elem? a.proto.file_indirect_chunks i ≡ some l
      → get_elem? a.file_chunk_lists i ≡ some (some list)
      → get_chunk_ref_list get_list (suc i) a ≡ ok (some list, a)
  unfolding get_chunk_ref_list
  found_step i l list a e f = rw (get_chunk_ref_list, e) (rw f refl)

  fetch_step :
      (i : ℕ) (l : IndirectChunkList) (a : Asset Child)
      → get_elem? a.proto.file_indirect_chunks i ≡ some l
      → ((get_elem? a.file_chunk_lists i ≡ none) ⊎ (get_elem? a.file_chunk_lists i ≡ some none))
      → get_chunk_ref_list get_list (suc i) a ≡ fetch_chunk_list get_list i l.chunk_list_id a
  unfolding get_chunk_ref_list
  fetch_step i l a e (inl f) = rw (get_chunk_ref_list, e) (rw f refl)
  fetch_step i l a e (inr f) = rw (get_chunk_ref_list, e) (rw f refl)

  end_step :
      (i : ℕ) (a : Asset Child)
      → get_elem? a.proto.file_indirect_chunks i ≡ none
      → get_chunk_ref_list get_list (suc i) a ≡ ok (none, a)
  unfolding get_chunk_ref_list
  end_step i a e = rw (get_chunk_ref_list, e) refl

  pub refs_some :
      (p : AssetProto Child) (i : ℕ) (l : IndirectChunkList)
      → get_elem? p.file_indirect_chunks i ≡ some l
      → refs_of (suc i) p ≡ some (lists l.chunk_list_id)
  refs_some p i l e = rw (refs_of, e) refl

  pub refs_none :
      (p : AssetProto Child) (i : ℕ)
      → get_elem? p.file_indirect_chunks i ≡ none
      → refs_of (suc i) p ≡ none
  refs_none p i e = rw (refs_of, e) refl

  -- Loaded or fetched, it is the same list.
  pub get_chunk_ref_list_lem :
      (p : AssetProto Child) (nr : ℕ) (a : Asset Child)
      → AreStored p
      → IsCached p a
      → Gives p nr (get_chunk_ref_list get_list nr a)
  unfolding get_chunk_ref_list
  get_chunk_ref_list_lem p zero a s (q, h) = (a, ap (λ x. ok (some x.file_chunks, a)) q, (q, h))
  get_chunk_ref_list_lem p (suc i) a s (q, h) =
      elim (Option-cases (get_elem? p.file_indirect_chunks i)) [
        | inl e ↦ (a, end_step i a (here ∙ e) ∙ ap (λ x. ok (x, a)) (sym (refs_none p i e)), (q, h))
        | inr (l, e) ↦ elim (Option-cases (get_elem? a.file_chunk_lists i)) [
          | inl f ↦ fetched l e (inl f)
          | inr (o, f) ↦ elim (Option-cases o) [
            | inl g ↦ fetched l e (inr (f ∙ ap some g))
            | inr (list, g) ↦ (
              a,
              found_step i l list a (here ∙ e) (f ∙ ap some g)
                  ∙ ap (λ x. ok (x, a))
                      (ap some (h i list l (f ∙ ap some g) e) ∙ sym (refs_some p i l e)),
              (q, h),
            )
          ]
        ]
      ]
    where
      here : get_elem? a.proto.file_indirect_chunks i ≡ get_elem? p.file_indirect_chunks i
      here = ap (λ x. get_elem? x.file_indirect_chunks i) q

      fetched :
          (l : IndirectChunkList)
          → get_elem? p.file_indirect_chunks i ≡ some l
          → ((get_elem? a.file_chunk_lists i ≡ none) ⊎ (get_elem? a.file_chunk_lists i ≡ some none))
          → Gives p (suc i) (get_chunk_ref_list get_list (suc i) a)
      fetched l e f =
          let (a', g, k) = fetch-Gives p i l a s e (q, h) in
          (
            a',
            fetch_step i l a (here ∙ e) f ∙ (g ∙ ap (λ x. ok (x, a')) (sym (refs_some p i l e))),
            k,
          )
