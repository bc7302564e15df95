-- ===== src/FuseAsset/Children.antt =====
-- cdc_fuse_fs/asset.cc: `Asset::Lookup` finds the children of all lists.
use mathlib.Core.Option.{some-injective, some-ne-none}
use cdc_file_transfer.Prelude.{
  ℕ, zero, suc, ◌+◌, ◌≤◌, ◌<◌, ◌≡◌, ◌⊎◌, inl, inr, refl, sym, ap, subst, ◌∙◌, true, false, List, [],
  ◌∷◌, Option, none, some, length, get_elem?, length-append, arith, Bool-cases, Option-cases, All,
}
use cdc_file_transfer.Prelude.Status.{Result, ok}
use cdc_file_transfer.Prelude.Dict.{Entry, lookup, insert, same, same→≡, lookup-insert}
use cdc_file_transfer.FuseAsset.{
  AssetProto, Asset, update_proto_lookup, initialize, is_directory, add_list,
  fetch_next_dir_asset_list, lookup_loop, lookup_child,
}

All-get {κ} :
    (P : List ℕ → Type κ) (ids : List (List ℕ)) (i : ℕ) (id : List ℕ)
    → All P ids
    → get_elem? ids i ≡ some id
    → P id
All-get P [] i id h e = absurd (some-ne-none id (sym e))
All-get P (k ∷ ids) zero id (p, h) e = subst P (some-injective k id e) p
All-get P (k ∷ ids) (suc i) id (p, h) e = All-get P ids i id h e

All-index {κ} :
    (P : List ℕ → Type κ) (ids : List (List ℕ))
    → ((i : ℕ) (id : List ℕ) → get_elem? ids i ≡ some id → P id)
    → All P ids
All-index P [] f = tt
All-index P (k ∷ ids) f = (f 0 k refl, All-index P ids (λ i id e. f (suc i) id e))

in_bounds : (ids : List (List ℕ)) (i : ℕ) (id : List ℕ) → get_elem? ids i ≡ some id → i < length ids
in_bounds [] i id e = absurd (some-ne-none id (sym e))
in_bounds (k ∷ ids) zero id e = omega arith
in_bounds (k ∷ ids) (suc i) id e = omega (arith, in_bounds ids i id e)

before :
    (ids : List (List ℕ)) (i n : ℕ) (id : List ℕ)
    → get_elem? ids n ≡ none
    → get_elem? ids i ≡ some id
    → i < n
before [] i n id e f = absurd (some-ne-none id (sym f))
before (k ∷ ids) i zero id e f = absurd (some-ne-none k e)
before (k ∷ ids) zero (suc n) id e f = omega arith
before (k ∷ ids) (suc i) (suc n) id e f = omega (arith, before ids i n id e f)

module _ {Child : Type 0} (name : Child → List ℕ) (wanted : List ℕ) where
  -- What is found has the name.
  abbrev IsNamed : List (Entry Child) → Type 0
  IsNamed m = (c : Child) → lookup wanted m ≡ some c → name c ≡ wanted

  abbrev pub IsOther : Child → Type 0
  IsOther c = same (name c) wanted ≡ false

  -- A lookup behind an insertion
  insert_found :
      (c : Child) (m : List (Entry Child))
      → same (name c) wanted ≡ true
      → lookup wanted (insert (name c) c m) ≡ some c
  insert_found c m t = lookup-insert wanted (name c) c m ∙ rw t refl

  insert_other :
      (c : Child) (m : List (Entry Child))
      → IsOther c
      → lookup wanted (insert (name c) c m) ≡ lookup wanted m
  insert_other c m t = lookup-insert wanted (name c) c m ∙ rw t refl

  update-IsNamed :
      (list : List Child) (m : List (Entry Child))
      → IsNamed m
      → IsNamed (update_proto_lookup name list m)
  unfolding update_proto_lookup
  update-IsNamed [] m h = h
  update-IsNamed (c ∷ list) m h = update-IsNamed list _ one
    where
      one : IsNamed (insert (name c) c m)
      one d e = elim (Bool-cases (same (name c) wanted)) [
        | inl t ↦
            ap name (some-injective d c (sym e ∙ insert_found c m t)) ∙ same→≡ (name c) wanted t
        | inr t ↦ h d (sym (insert_other c m t) ∙ e)
      ]

  -- Nothing found means that no child has the name, and nothing was found before.
  update_none :
      (list : List Child) (m : List (Entry Child))
      → lookup wanted (update_proto_lookup name list m) ≡ none
      → All IsOther list × (lookup wanted m ≡ none)
  unfolding update_proto_lookup
  update_none [] m e = (tt, e)
  update_none (c ∷ list) m e =
      let (a, f) = update_none list (insert (name c) c m) e in
      elim (Bool-cases (same (name c) wanted)) [
        | inl t ↦ absurd (some-ne-none c (sym (insert_found c m t) ∙ f))
        | inr t ↦ ((t, a), sym (insert_other c m t) ∙ f)
      ]

  module _ (get_list : List ℕ → Result (List Child)) (lists : List ℕ → List Child) where
    -- A failed lookup has seen the direct children and those of the lists fetched so far.
    abbrev Covers : Asset Child → Type 0
    Covers a =
        lookup wanted a.proto_lookup ≡ none
        → All IsOther a.proto.dir_assets
          × ((i : ℕ) (id : List ℕ)
              → i < length a.dir_asset_lists
              → get_elem? a.proto.dir_indirect_assets i ≡ some id
              → All IsOther (lists id))

    add_list-Covers :
        (id : List ℕ) (a : Asset Child)
        → get_elem? a.proto.dir_indirect_assets (length a.dir_asset_lists) ≡ some id
        → Covers a
        → Covers (add_list name get_list (lists id) a)
    unfolding add_list
    add_list-Covers id a g h e =
        let (n, f) = update_none (lists id) a.proto_lookup e in
        let (d, k) = h f in
        (
          d,
          (λ i j l u.
              elim (lt_or_eq i (length a.dir_asset_lists)
                (omega (arith, l, length-append a.dir_asset_lists (lists id ∷ [])))) [
                  | inl s ↦ k i j s u
                  | inr s ↦
                      subst (λ x. All IsOther (lists x))
                        (some-injective id j
                          (sym g ∙ (ap (get_elem? a.proto.dir_indirect_assets) (sym s) ∙ u)))
                        n
                ]),
        )
      where
        lt_or_eq : (i n : ℕ) → i < n + 1 → (i < n) ⊎ (i ≡ n)
        lt_or_eq i n h = ground (arith, h)

    -- The child by that name, or none has it; the lists can all be fetched.
    abbrev pub Finds : AssetProto Child → Result (Option Child × Asset Child) → Type 0
    Finds p r =
        (a : Asset Child) × (((c : Child) × (r ≡ ok (some c, a)) × (name c ≡ wanted))
          ⊎ ((r ≡ ok (none, a))
              × All IsOther p.dir_assets
              × All (λ id. All IsOther (lists id)) p.dir_indirect_assets))

    found_step :
        (fuel : ℕ) (a : Asset Child) (c : Child)
        → lookup wanted a.proto_lookup ≡ some c
        → lookup_loop name get_list (suc fuel) wanted a ≡ ok (some c, a)
    unfolding lookup_loop
    found_step fuel a c e = rw (lookup_loop, e) refl

    end_step :
        (fuel : ℕ) (a : Asset Child)
        → lookup wanted a.proto_lookup ≡ none
        → get_elem? a.proto.dir_indirect_assets (length a.dir_asset_lists) ≡ none
        → lookup_loop name get_list (suc fuel) wanted a ≡ ok (none, a)
    unfolding lookup_loop fetch_next_dir_asset_list
    end_step fuel a e f = rw (lookup_loop, e) (rw (fetch_next_dir_asset_list, f) refl)

    fetch_step :
        (fuel : ℕ) (a : Asset Child) (id : List ℕ) (list : List Child)
        → lookup wanted a.proto_lookup ≡ none
        → get_elem? a.proto.dir_indirect_assets (length a.dir_asset_lists) ≡ some id
        → get_list id ≡ ok list
        → lookup_loop name get_list (suc fuel) wanted a
          ≡ lookup_loop name get_list fuel wanted (add_list name get_list list a)
    unfolding lookup_loop fetch_next_dir_asset_list
    fetch_step fuel a id list e f g =
        rw (lookup_loop, e) (rw (fetch_next_dir_asset_list, f) (rw g refl))

    lookup_loop-Finds :
        (fuel : ℕ) (a : Asset Child)
        → All (λ id. get_list id ≡ ok (lists id)) a.proto.dir_indirect_assets
        → length a.proto.dir_indirect_assets < fuel + length a.dir_asset_lists
        → length a.dir_asset_lists ≤ length a.proto.dir_indirect_assets
        → IsNamed a.proto_lookup
        → Covers a
        → Finds a.proto (lookup_loop name get_list fuel wanted a)
    unfolding add_list
    lookup_loop-Finds zero a g l b n k = absurd (omega arith)
    lookup_loop-Finds (suc fuel) a g l b n k = elim (Option-cases (lookup wanted a.proto_lookup)) [
      | inr (c, e) ↦ (a, inl (c, found_step fuel a c e, n c e))
      | inl e ↦
          elim (Option-cases (get_elem? a.proto.dir_indirect_assets (length a.dir_asset_lists))) [
            | inl f ↦ (
              a,
              inr (
                end_step fuel a e f,
                (k e).0,
                All-index _ a.proto.dir_indirect_assets (λ i id u.
                    (k e).1 i id
                      (before a.proto.dir_indirect_assets i (length a.dir_asset_lists) id f u) u),
              ),
            )
            | inr (id, f) ↦
                subst (Finds a.proto)
                  (sym (
                    fetch_step fuel a id (lists id) e f
                      (All-get _ a.proto.dir_indirect_assets (length a.dir_asset_lists) id g f)))
                  (lookup_loop-Finds fuel (add_list name get_list (lists id) a) g
                    (omega (arith, l, length-append a.dir_asset_lists (lists id ∷ [])))
                    (omega (
                      arith,
                      length-append a.dir_asset_lists (lists id ∷ []),
                      in_bounds a.proto.dir_indirect_assets (length a.dir_asset_lists) id f,
                    ))
                    (update-IsNamed (lists id) a.proto_lookup n) (add_list-Covers id a f k))
          ]
    ]

    -- In a directory that was just initialized and all of whose lists can be fetched, Lookup
    -- returns a child of the name asked for, or no child if no child has that name, neither a
    -- direct one nor one of any list.
    pub lookup_child_lem :
        (p : AssetProto Child)
        → is_directory p.asset_type ≡ true
        → All (λ id. get_list id ≡ ok (lists id)) p.dir_indirect_assets
        → Finds p (lookup_child name get_list wanted (initialize name p))
    unfolding lookup_child initialize
    lookup_child_lem p d g = simp d (
        lookup_loop-Finds (suc (length p.dir_indirect_assets)) (initialize name p) g (omega arith)
          (omega arith) (update-IsNamed p.dir_assets [] (λ c e. absurd (some-ne-none c (sym e))))
          (λ e. ((update_none p.dir_assets [] e).0, (λ i id l u. absurd (omega arith)))))
