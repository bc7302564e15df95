-- ===== src/FileDiff/Sorted.antt =====
-- cdc_rsync_server/file_diff_generator.cc: what sorting and `std::unique` do with lists of files.
use mathlib.Core.List.{Perm}
use mathlib.Core.List.Perm
use mathlib.Core.Bool.{false≢true}
use cdc_file_transfer.Prelude.{
  ◌≡◌, ◌≢◌, ◌⊎◌, inl, inr, refl, sym, ap, ◌∙◌, true, false, List, [], ◌∷◌, All, Bool-cases,
}
use cdc_file_transfer.FileDiff.{
  FileInfo, Sign, less, equal, greater, compare_paths, is_less, is_equal, file_path, insert_by,
  sort_by, unique_from, unique_by,
}
use cdc_file_transfer.FileDiff.Paths.{Sign-cases, less_trans, greater-less, equal-≡, equal_refl}
use cdc_file_transfer.FileDiff.Sorting.{All-map, IsRising}

-- Not behind
abbrev IsUpTo : FileInfo → FileInfo → Type 0
IsUpTo f g = (compare_paths f.filepath g.filepath ≡ less) ⊎ (f.filepath ≡ g.filepath)

abbrev IsSorted : List FileInfo → Type 0
IsSorted [] = Unit
IsSorted (f ∷ fs) = All (IsUpTo f) fs × IsSorted fs

IsUpTo-trans : (f g h : FileInfo) → IsUpTo f g → IsUpTo g h → IsUpTo f h
IsUpTo-trans f g h (inl a) (inl b) = inl (less_trans f.filepath g.filepath h.filepath a b)
IsUpTo-trans f g h (inl a) (inr b) = inl (ap (compare_paths f.filepath) (sym b) ∙ a)
IsUpTo-trans f g h (inr a) (inl b) = inl (ap (λ x. compare_paths x h.filepath) a ∙ b)
IsUpTo-trans f g h (inr a) (inr b) = inr (a ∙ b)

All-insert {κ} :
    (P : FileInfo → Type κ) (a : FileInfo) (fs : List FileInfo)
    → P a
    → All P fs
    → All P (insert_by file_path a fs)
unfolding insert_by
All-insert P a [] p h = (p, tt)
All-insert P a (b ∷ bs) p (q, h) =
    elim (Bool-cases (is_less (compare_paths b.filepath a.filepath))) [
      | inl t ↦ rw t (q, All-insert P a bs p h)
      | inr t ↦ rw t (p, (q, h))
    ]

is_less-≡ : (o : Sign) → is_less o ≡ true → o ≡ less
is_less-≡ less e = refl
is_less-≡ equal e = absurd (false≢true e)
is_less-≡ greater e = absurd (false≢true e)

not_less-IsUpTo :
    (a b : FileInfo) → is_less (compare_paths b.filepath a.filepath) ≡ false → IsUpTo a b
not_less-IsUpTo a b e = elim (Sign-cases (compare_paths b.filepath a.filepath)) [
  | inl l ↦ absurd (false≢true (sym e ∙ ap is_less l))
  | inr (inl l) ↦ inr (sym (equal-≡ b.filepath a.filepath l))
  | inr (inr l) ↦ inl (greater-less b.filepath a.filepath l)
]

insert_by-IsSorted :
    (a : FileInfo) (fs : List FileInfo) → IsSorted fs → IsSorted (insert_by file_path a fs)
unfolding insert_by
insert_by-IsSorted a [] h = (tt, tt)
insert_by-IsSorted a (b ∷ bs) (k, h) =
    elim (Bool-cases (is_less (compare_paths b.filepath a.filepath))) [
      | inl t ↦ rw t (All-insert (IsUpTo b) a bs (inl (is_less-≡ _ t)) k, insert_by-IsSorted a bs h)
      | inr t ↦
          let up = not_less-IsUpTo a b t in
          rw t ((up, All-map _ _ bs (λ g. IsUpTo-trans a b g up) k), (k, h))
    ]

sort_by-IsSorted : (fs : List FileInfo) → IsSorted (sort_by file_path fs)
unfolding sort_by
sort_by-IsSorted [] = tt
sort_by-IsSorted (f ∷ fs) = insert_by-IsSorted f (sort_by file_path fs) (sort_by-IsSorted fs)

differs-less :
    (f g : FileInfo)
    → IsUpTo f g
    → is_equal (compare_paths f.filepath g.filepath) ≡ false
    → compare_paths f.filepath g.filepath ≡ less
differs-less f g (inl l) e = l
differs-less f g (inr l) e = absurd (
    false≢true
      (sym e ∙ ap is_equal (ap (compare_paths f.filepath) (sym l) ∙ equal_refl f.filepath)))

unique_from-IsRising :
    (last : FileInfo) (fs : List FileInfo)
    → IsSorted (last ∷ fs)
    → IsRising (last ∷ unique_from file_path last fs)
unfolding unique_from
unique_from-IsRising last [] h = (tt, tt)
unique_from-IsRising last (f ∷ fs) ((u, k), (l, h)) =
    elim (Bool-cases (is_equal (compare_paths last.filepath f.filepath))) [
      | inl t ↦ rw t (unique_from-IsRising last fs (k, h))
      | inr t ↦
          let less_f = differs-less last f u t in
          let (a, r) = unique_from-IsRising f fs (l, h) in
          rw t (
            (
              less_f,
              All-map _ _ (unique_from file_path f fs)
                  (λ g. less_trans last.filepath f.filepath g.filepath less_f) a,
            ),
            (a, r),
          )
    ]

-- The client's files after sorting and `std::unique`.
pub unique_sorted-IsRising :
    (fs : List FileInfo) → IsRising (unique_by file_path (sort_by file_path fs))
unfolding unique_by
unique_sorted-IsRising fs = go (sort_by file_path fs) (sort_by-IsSorted fs)
  where
    go : (fs : List FileInfo) → IsSorted fs → IsRising (unique_by file_path fs)
    go [] h = tt
    go (f ∷ fs) h = unique_from-IsRising f fs h

-- No two files have one path.
abbrev pub IsDistinct : List FileInfo → Type 0
IsDistinct [] = Unit
IsDistinct (f ∷ fs) = All (λ g. f.filepath ≢ g.filepath) fs × IsDistinct fs

All-sort {κ} :
    (P : FileInfo → Type κ) (fs : List FileInfo) → All P fs → All P (sort_by file_path fs)
unfolding sort_by
All-sort P [] h = tt
All-sort P (f ∷ fs) (p, h) = All-insert P f (sort_by file_path fs) p (All-sort P fs h)

insert_by-IsDistinct :
    (a : FileInfo) (fs : List FileInfo)
    → All (λ g. a.filepath ≢ g.filepath) fs
    → IsDistinct fs
    → IsDistinct (insert_by file_path a fs)
unfolding insert_by
insert_by-IsDistinct a [] k h = (tt, tt)
insert_by-IsDistinct a (b ∷ bs) (n, k) (l, h) =
    elim (Bool-cases (is_less (compare_paths b.filepath a.filepath))) [
      | inl t ↦ rw t (
        All-insert (λ g. b.filepath ≢ g.filepath) a bs (λ e. n (sym e)) l,
        insert_by-IsDistinct a bs k h,
      )
      | inr t ↦ rw t ((n, k), (l, h))
    ]

sort_by-IsDistinct : (fs : List FileInfo) → IsDistinct fs → IsDistinct (sort_by file_path fs)
unfolding sort_by
sort_by-IsDistinct [] h = tt
sort_by-IsDistinct (f ∷ fs) (k, h) =
    insert_by-IsDistinct f (sort_by file_path fs) (All-sort (λ g. f.filepath ≢ g.filepath) fs k)
      (sort_by-IsDistinct fs h)

IsSorted-IsRising : (fs : List FileInfo) → IsSorted fs → IsDistinct fs → IsRising fs
IsSorted-IsRising [] h d = tt
IsSorted-IsRising (f ∷ fs) (k, h) (n, d) = (both fs k n, IsSorted-IsRising fs h d)
  where
    one :
        (g : FileInfo)
        → IsUpTo f g
        → f.filepath ≢ g.filepath
        → compare_paths f.filepath g.filepath ≡ less
    one g (inl l) m = l
    one g (inr l) m = absurd (m l)

    both :
        (gs : List FileInfo)
        → All (IsUpTo f) gs
        → All (λ g. f.filepath ≢ g.filepath) gs
        → All (λ g. compare_paths f.filepath g.filepath ≡ less) gs
    both [] u m = tt
    both (g ∷ gs) (a, u) (b, m) = (one g a b, both gs u m)

pub distinct_sorted-IsRising :
    (fs : List FileInfo) → IsDistinct fs → IsRising (sort_by file_path fs)
distinct_sorted-IsRising fs d =
    IsSorted-IsRising (sort_by file_path fs) (sort_by-IsSorted fs) (sort_by-IsDistinct fs d)

insert_by-Perm : (a : FileInfo) (fs : List FileInfo) → Perm (insert_by file_path a fs) (a ∷ fs)
unfolding insert_by
insert_by-Perm a [] = Perm.refl (a ∷ [])
insert_by-Perm a (b ∷ bs) = elim (Bool-cases (is_less (compare_paths b.filepath a.filepath))) [
  | inl t ↦ rw t (Perm.trans (Perm.cons b (insert_by-Perm a bs)) (Perm.swap a b bs))
  | inr t ↦ rw t (Perm.refl (a ∷ b ∷ bs))
]

pub sort_by-Perm : (fs : List FileInfo) → Perm (sort_by file_path fs) fs
unfolding sort_by
sort_by-Perm [] = Perm.refl []
sort_by-Perm (f ∷ fs) =
    Perm.trans (insert_by-Perm f (sort_by file_path fs)) (Perm.cons f (sort_by-Perm fs))
