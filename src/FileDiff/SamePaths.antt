-- ===== src/FileDiff/SamePaths.antt =====
-- cdc_rsync_server/file_diff_generator.cc: sorting and `std::unique` keep the paths of files.
use mathlib.Core.Bool.{false≢true}
use cdc_file_transfer.Prelude.{
  ◌≡◌, ◌⊎◌, inl, inr, refl, sym, ap, ◌∙◌, true, List, [], ◌∷◌, Bool-cases,
}
use cdc_file_transfer.FileDiff.{
  FileInfo, Sign, less, equal, greater, compare_paths, is_less, is_equal, file_path, insert_by,
  sort_by, unique_from, unique_by,
}
use cdc_file_transfer.FileDiff.Paths.{equal-≡}

-- Membership
abbrev pub In : FileInfo → List FileInfo → Type 0
In f [] = ⊥
In f (x ∷ xs) = (f ≡ x) ⊎ In f xs

-- Only files of `fs`, and each path of them.
abbrev pub HasPathsOf : List FileInfo → List FileInfo → Type 0
HasPathsOf fs cs =
    ((f : FileInfo) → In f cs → In f fs)
    × ((f : FileInfo) → In f fs → (g : FileInfo) × In g cs × (g.filepath ≡ f.filepath))

HasPathsOf-trans :
    (xs ys zs : List FileInfo) → HasPathsOf xs ys → HasPathsOf ys zs → HasPathsOf xs zs
HasPathsOf-trans xs ys zs (a, b) (c, d) = (
  (λ f m. a f (c f m)),
  (λ f m. let (g, n, e) = b f m in let (h, o, e') = d g n in (h, o, e' ∙ e)),
)

HasPathsOf-cons :
    (a : FileInfo) (fs cs : List FileInfo) → HasPathsOf fs cs → HasPathsOf (a ∷ fs) (a ∷ cs)
HasPathsOf-cons a fs cs (h, k) = (only, each)
  where
    only : (f : FileInfo) → In f (a ∷ cs) → In f (a ∷ fs)
    only f (inl e) = inl e
    only f (inr m) = inr (h f m)

    each :
        (f : FileInfo) → In f (a ∷ fs) → (g : FileInfo) × In g (a ∷ cs) × (g.filepath ≡ f.filepath)
    each f (inl e) = (a, inl refl, sym (ap (λ x. x.filepath) e))
    each f (inr m) = let (g, n, e) = k f m in (g, inr n, e)

HasPathsOf-swap : (a b : FileInfo) (fs : List FileInfo) → HasPathsOf (a ∷ b ∷ fs) (b ∷ a ∷ fs)
HasPathsOf-swap a b fs = (only, each)
  where
    only : (f : FileInfo) → In f (b ∷ a ∷ fs) → In f (a ∷ b ∷ fs)
    only f (inl e) = inr (inl e)
    only f (inr (inl e)) = inl e
    only f (inr (inr m)) = inr (inr m)

    each :
        (f : FileInfo)
        → In f (a ∷ b ∷ fs)
        → (g : FileInfo) × In g (b ∷ a ∷ fs) × (g.filepath ≡ f.filepath)
    each f (inl e) = (f, inr (inl e), refl)
    each f (inr (inl e)) = (f, inl e, refl)
    each f (inr (inr m)) = (f, inr (inr m), refl)

HasPathsOf-refl : (fs : List FileInfo) → HasPathsOf fs fs
HasPathsOf-refl fs = ((λ f m. m), (λ f m. (f, m, refl)))

insert_by-HasPathsOf :
    (a : FileInfo) (fs : List FileInfo) → HasPathsOf (a ∷ fs) (insert_by file_path a fs)
unfolding insert_by
insert_by-HasPathsOf a [] = HasPathsOf-refl (a ∷ [])
insert_by-HasPathsOf a (b ∷ bs) =
    elim (Bool-cases (is_less (compare_paths b.filepath a.filepath))) [
      | inl t ↦ rw t (
          HasPathsOf-trans (a ∷ b ∷ bs) (b ∷ a ∷ bs) (b ∷ insert_by file_path a bs)
            (HasPathsOf-swap a b bs)
            (HasPathsOf-cons b (a ∷ bs) (insert_by file_path a bs) (insert_by-HasPathsOf a bs)))
      | inr t ↦ rw t (HasPathsOf-refl (a ∷ b ∷ bs))
    ]

sort_by-HasPathsOf : (fs : List FileInfo) → HasPathsOf fs (sort_by file_path fs)
unfolding sort_by
sort_by-HasPathsOf [] = HasPathsOf-refl []
sort_by-HasPathsOf (f ∷ fs) =
    HasPathsOf-trans (f ∷ fs) (f ∷ sort_by file_path fs)
      (insert_by file_path f (sort_by file_path fs))
      (HasPathsOf-cons f fs (sort_by file_path fs) (sort_by-HasPathsOf fs))
      (insert_by-HasPathsOf f (sort_by file_path fs))

-- A file that is left out has the path of the one before it.
dropped-HasPathsOf :
    (last f : FileInfo) (fs : List FileInfo)
    → last.filepath ≡ f.filepath
    → HasPathsOf (last ∷ f ∷ fs) (last ∷ fs)
dropped-HasPathsOf last f fs p = (only, each)
  where
    only : (g : FileInfo) → In g (last ∷ fs) → In g (last ∷ f ∷ fs)
    only g (inl e) = inl e
    only g (inr m) = inr (inr m)

    each :
        (g : FileInfo)
        → In g (last ∷ f ∷ fs)
        → (h : FileInfo) × In h (last ∷ fs) × (h.filepath ≡ g.filepath)
    each g (inl e) = (last, inl refl, sym (ap (λ x. x.filepath) e))
    each g (inr (inl e)) = (last, inl refl, p ∙ sym (ap (λ x. x.filepath) e))
    each g (inr (inr m)) = (g, inr m, refl)

is_equal-≡ : (o : Sign) → is_equal o ≡ true → o ≡ equal
is_equal-≡ less e = absurd (false≢true e)
is_equal-≡ equal e = refl
is_equal-≡ greater e = absurd (false≢true e)

unique_from-HasPathsOf :
    (last : FileInfo) (fs : List FileInfo)
    → HasPathsOf (last ∷ fs) (last ∷ unique_from file_path last fs)
unfolding unique_from
unique_from-HasPathsOf last [] = HasPathsOf-refl (last ∷ [])
unique_from-HasPathsOf last (f ∷ fs) =
    elim (Bool-cases (is_equal (compare_paths last.filepath f.filepath))) [
      | inl t ↦ rw t (
          HasPathsOf-trans (last ∷ f ∷ fs) (last ∷ fs) (last ∷ unique_from file_path last fs)
            (dropped-HasPathsOf last f fs (equal-≡ last.filepath f.filepath (is_equal-≡ _ t)))
            (unique_from-HasPathsOf last fs))
      | inr t ↦ rw t (
          HasPathsOf-cons last (f ∷ fs) (f ∷ unique_from file_path f fs)
            (unique_from-HasPathsOf f fs))
    ]

pub unique_sorted-HasPathsOf :
    (fs : List FileInfo) → HasPathsOf fs (unique_by file_path (sort_by file_path fs))
unfolding unique_by
unique_sorted-HasPathsOf fs =
    HasPathsOf-trans fs (sort_by file_path fs) (unique_by file_path (sort_by file_path fs))
      (sort_by-HasPathsOf fs) (go (sort_by file_path fs))
  where
    go : (xs : List FileInfo) → HasPathsOf xs (unique_by file_path xs)
    go [] = HasPathsOf-refl []
    go (x ∷ xs) = unique_from-HasPathsOf x xs
