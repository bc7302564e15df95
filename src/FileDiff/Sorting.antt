-- ===== src/FileDiff/Sorting.antt =====
-- cdc_rsync_server/file_diff_generator.cc: the loop over two sorted lists of files puts each file where
-- a search for its path on the other side says.
use cdc_file_transfer.Prelude.{
  ℕ, zero, suc, ◌+◌, ◌≤◌, ◌≡◌, inl, inr, refl, sym, ap, subst, ◌∙◌, Bool, true, false, List, [],
  ◌∷◌, All, Option, none, some, length, arith, Bool-cases, Option-cases, if◌then◌else◌,
}
use cdc_file_transfer.FileDiff.{
  FileInfo, ChangedFileInfo, Diff, Directory, less, equal, greater, changed_file, compare_paths,
  is_equal, files_match, found_file, pair_files, client_only, compare_files,
}
use cdc_file_transfer.FileDiff.Paths.{
  Sign-cases, less_trans, less-greater, greater-less, equal-≡, equal_refl, is_equal_less,
  is_equal_greater,
}

-- Sorted by path, no path twice.
abbrev pub IsRising : List FileInfo → Type 0
IsRising [] = Unit
IsRising (f ∷ fs) = All (λ g. compare_paths f.filepath g.filepath ≡ less) fs × IsRising fs

-- The first file of a path
abbrev pub search : List ℕ → List FileInfo → Option FileInfo
search path [] = none
search path (f ∷ fs) = if is_equal (compare_paths path f.filepath) then some f else search path fs

-- The files that have no partner.
abbrev if_none : FileInfo → Option FileInfo → List FileInfo → List FileInfo
if_none f none fs = f ∷ fs
if_none f (some g) fs = fs

abbrev pub without_partner : (FileInfo → Option FileInfo) → List FileInfo → List FileInfo
without_partner partner [] = []
without_partner partner (f ∷ fs) = if_none f (partner f) (without_partner partner fs)

search-none :
    (path : List ℕ) (fs : List FileInfo)
    → All (λ f. is_equal (compare_paths path f.filepath) ≡ false) fs
    → search path fs ≡ none
search-none path [] h = refl
search-none path (f ∷ fs) (e, h) = rw e (search-none path fs h)

search-skip :
    (path : List ℕ) (f : FileInfo) (fs : List FileInfo)
    → is_equal (compare_paths path f.filepath) ≡ false
    → search path (f ∷ fs) ≡ search path fs
search-skip path f fs e = rw e refl

search-hit :
    (path : List ℕ) (f : FileInfo) (fs : List FileInfo)
    → compare_paths path f.filepath ≡ equal
    → search path (f ∷ fs) ≡ some f
search-hit path f fs e =
    let t : is_equal (compare_paths path f.filepath) ≡ true = ap is_equal e in rw t refl

pub All-map {κ μ} :
    (P : FileInfo → Type κ) (Q : FileInfo → Type μ) (fs : List FileInfo)
    → ((f : FileInfo) → P f → Q f)
    → All P fs
    → All Q fs
All-map P Q [] g h = tt
All-map P Q (f ∷ fs) g (p, h) = (g f p, All-map P Q fs g h)

without_partner-cong :
    (p q : FileInfo → Option FileInfo) (fs : List FileInfo)
    → All (λ f. p f ≡ q f) fs
    → without_partner p fs ≡ without_partner q fs
without_partner-cong p q [] h = refl
without_partner-cong p q (f ∷ fs) (e, h) =
    ap (λ x. if_none f x (without_partner p fs)) e
    ∙ ap (if_none f (q f)) (without_partner-cong p q fs h)

-- Files ahead of all of a sorted list, and what that says of a search.
less-All :
    (c s : FileInfo) (ss : List FileInfo)
    → compare_paths c.filepath s.filepath ≡ less
    → IsRising (s ∷ ss)
    → All (λ t. compare_paths c.filepath t.filepath ≡ less) (s ∷ ss)
less-All c s ss e (h, r) =
    (e, All-map _ _ ss (λ t k. less_trans c.filepath s.filepath t.filepath e k) h)

ahead-none :
    (c : FileInfo) (ss : List FileInfo)
    → All (λ t. compare_paths c.filepath t.filepath ≡ less) ss
    → search c.filepath ss ≡ none
ahead-none c ss h = search-none c.filepath ss (All-map _ _ ss (λ t k. is_equal_less _ k) h)

-- The files behind one do not find it.
behind-skip :
    (c : FileInfo) (cs ss : List FileInfo)
    → All (λ t. compare_paths c.filepath t.filepath ≡ less) ss
    → All (λ t. search t.filepath (c ∷ cs) ≡ search t.filepath cs) ss
behind-skip c cs ss h =
    All-map _ _ ss
      (λ t k.
        search-skip t.filepath c cs (is_equal_greater _ (less-greater c.filepath t.filepath k)))
      h

module _ (get_stats : Directory → List ℕ → Option (ℕ × ℕ)) (base_dir copy_dest : Directory)
    (double_check_missing : Bool) where
  -- The server's file for a client's file: the one of its path, or the one that the double check finds.
  abbrev pub server_file_of : List FileInfo → FileInfo → Option FileInfo
  server_file_of ss c = elim (search c.filepath ss) [
    | some s ↦ some s
    | none ↦ found_file get_stats base_dir copy_dest double_check_missing c.filepath
  ]

  abbrev if_matching : FileInfo → Option FileInfo → List FileInfo → List FileInfo
  if_matching c none cs = cs
  if_matching c (some s) cs = if files_match c s copy_dest then c ∷ cs else cs

  abbrev pub matching_of : (FileInfo → Option FileInfo) → List FileInfo → List FileInfo
  matching_of partner [] = []
  matching_of partner (c ∷ cs) = if_matching c (partner c) (matching_of partner cs)

  abbrev if_changed : FileInfo → Option FileInfo → List ChangedFileInfo → List ChangedFileInfo
  if_changed c none cs = cs
  if_changed c (some s) cs =
      if files_match c s copy_dest
      then cs
      else record {
        filepath = c.filepath;
        client_modified_time = c.modified_time;
        client_size = c.size;
        server_size = s.size;
        client_index = c.client_index;
        base_dir = s.base_dir;
      }
        ∷ cs

  abbrev pub changed_of : (FileInfo → Option FileInfo) → List FileInfo → List ChangedFileInfo
  changed_of partner [] = []
  changed_of partner (c ∷ cs) = if_changed c (partner c) (changed_of partner cs)

  -- The client's files by their partners, and the extraneous files.
  abbrev clients : (FileInfo → Option FileInfo) → List FileInfo → List FileInfo → Diff
  clients partner cs extraneous = record {
    missing_files = without_partner partner cs;
    extraneous_files = extraneous;
    changed_files = changed_of partner cs;
    matching_files = matching_of partner cs;
    missing_dirs = [];
    extraneous_dirs = [];
    matching_dirs = [];
  }

  -- The diff of files, by searches.
  abbrev pub searched : List FileInfo → List FileInfo → Diff
  searched cs ss = clients (server_file_of ss) cs (without_partner (λ s. search s.filepath cs) ss)

  matching_of-cong :
      (p q : FileInfo → Option FileInfo) (fs : List FileInfo)
      → All (λ f. p f ≡ q f) fs
      → matching_of p fs ≡ matching_of q fs
  matching_of-cong p q [] h = refl
  matching_of-cong p q (f ∷ fs) (e, h) =
      ap (λ x. if_matching f x (matching_of p fs)) e
      ∙ ap (if_matching f (q f)) (matching_of-cong p q fs h)

  changed_of-cong :
      (p q : FileInfo → Option FileInfo) (fs : List FileInfo)
      → All (λ f. p f ≡ q f) fs
      → changed_of p fs ≡ changed_of q fs
  changed_of-cong p q [] h = refl
  changed_of-cong p q (f ∷ fs) (e, h) =
      ap (λ x. if_changed f x (changed_of p fs)) e
      ∙ ap (if_changed f (q f)) (changed_of-cong p q fs h)

  clients-cong :
      (p q : FileInfo → Option FileInfo) (fs xs ys : List FileInfo)
      → All (λ f. p f ≡ q f) fs
      → xs ≡ ys
      → clients p fs xs ≡ clients q fs ys
  clients-cong p q fs xs ys h e i = record {
    missing_files = without_partner-cong p q fs h i;
    extraneous_files = e i;
    changed_files = changed_of-cong p q fs h i;
    matching_files = matching_of-cong p q fs h i;
    missing_dirs = [];
    extraneous_dirs = [];
    matching_dirs = [];
  }

  pair_files-clients :
      (p : FileInfo → Option FileInfo) (c s : FileInfo) (cs xs : List FileInfo)
      → p c ≡ some s
      → pair_files get_stats base_dir copy_dest double_check_missing c s (clients p cs xs)
        ≡ clients p (c ∷ cs) xs
  unfolding pair_files changed_file
  pair_files-clients p c s cs xs e = elim (Bool-cases (files_match c s copy_dest)) [
    | inl t ↦ rw (pair_files, t) (rw e (rw t refl))
    | inr t ↦ rw (pair_files, t) (rw e (rw t refl))
  ]

  client_only-clients :
      (p : FileInfo → Option FileInfo) (c : FileInfo) (cs xs : List FileInfo)
      → p c ≡ found_file get_stats base_dir copy_dest double_check_missing c.filepath
      → client_only get_stats base_dir copy_dest double_check_missing c (clients p cs xs)
        ≡ clients p (c ∷ cs) xs
  unfolding client_only
  client_only-clients p c cs xs e =
      elim (Option-cases
        (found_file get_stats base_dir copy_dest double_check_missing c.filepath)) [
          | inl f ↦ rw (client_only, f) (rw (e ∙ f) refl)
          | inr (s, f) ↦ rw (client_only, f) (pair_files-clients p c s cs xs (e ∙ f))
        ]

  server_file_of-none :
      (ss : List FileInfo) (c : FileInfo)
      → search c.filepath ss ≡ none
      → server_file_of ss c
        ≡ found_file get_stats base_dir copy_dest double_check_missing c.filepath
  server_file_of-none ss c e = rw (server_file_of, e) refl

  server_file_of-some :
      (ss : List FileInfo) (c s : FileInfo)
      → search c.filepath ss ≡ some s
      → server_file_of ss c ≡ some s
  server_file_of-some ss c s e = rw (server_file_of, e) refl

  -- A server's file that no client's file has does not matter for them.
  partners-skip :
      (s : FileInfo) (cs ss : List FileInfo)
      → All (λ c. search c.filepath (s ∷ ss) ≡ search c.filepath ss) cs
      → All (λ c. server_file_of ss c ≡ server_file_of (s ∷ ss) c) cs
  partners-skip s cs ss h = All-map _ _ cs (λ c e. same c _ _ (sym e)) h
    where
      same :
          (c : FileInfo) (x y : Option FileInfo)
          → x ≡ y
          → ◌≡◌ {A = Option FileInfo}
              (elim x [
                | some s ↦ some s
                | none ↦ found_file get_stats base_dir copy_dest double_check_missing c.filepath
              ])
              (elim y [
                | some s ↦ some s
                | none ↦ found_file get_stats base_dir copy_dest double_check_missing c.filepath
              ])
      same c x y e = rw e refl

  -- The steps of the loop, on searches.
  less-step :
      (c s : FileInfo) (cs ss : List FileInfo)
      → compare_paths c.filepath s.filepath ≡ less
      → IsRising (s ∷ ss)
      → client_only get_stats base_dir copy_dest double_check_missing c (searched cs (s ∷ ss))
        ≡ searched (c ∷ cs) (s ∷ ss)
  less-step c s cs ss e r =
      let ahead = less-All c s ss e r in
      client_only-clients (server_file_of (s ∷ ss)) c cs _
        (server_file_of-none (s ∷ ss) c (ahead-none c (s ∷ ss) ahead))
      ∙ ap (clients (server_file_of (s ∷ ss)) (c ∷ cs))
          (sym (without_partner-cong _ _ (s ∷ ss) (behind-skip c cs (s ∷ ss) ahead)))

  equal-step :
      (c s : FileInfo) (cs ss : List FileInfo)
      → compare_paths c.filepath s.filepath ≡ equal
      → IsRising (c ∷ cs)
      → IsRising (s ∷ ss)
      → pair_files get_stats base_dir copy_dest double_check_missing c s (searched cs ss)
        ≡ searched (c ∷ cs) (s ∷ ss)
  equal-step c s cs ss e (h, r) (k, r') =
      let same = equal-≡ c.filepath s.filepath e in
      let ahead_c : All (λ t. compare_paths c.filepath t.filepath ≡ less) ss =
        subst (λ path. All (λ t. compare_paths path t.filepath ≡ less) ss) (sym same) k in
      let ahead_s : All (λ t. compare_paths s.filepath t.filepath ≡ less) cs =
        subst (λ path. All (λ t. compare_paths path t.filepath ≡ less) cs) same h in
      let back : compare_paths s.filepath c.filepath ≡ equal =
        ap (λ path. compare_paths path c.filepath) (sym same) ∙ equal_refl c.filepath in
      ap (pair_files get_stats base_dir copy_dest double_check_missing c s) (
        clients-cong _ _ cs _ (without_partner (λ t. search t.filepath (c ∷ cs)) ss)
          (partners-skip s cs ss (behind-skip s ss cs ahead_s))
          (sym (without_partner-cong _ _ ss (behind-skip c cs ss ahead_c))))
      ∙ (pair_files-clients (server_file_of (s ∷ ss)) c s cs _
            (server_file_of-some (s ∷ ss) c s (search-hit c.filepath s ss e))
          ∙ ap (clients (server_file_of (s ∷ ss)) (c ∷ cs)) (
              ap (λ x. if_none s x (without_partner (λ t. search t.filepath (c ∷ cs)) ss))
                (sym (search-hit s.filepath c cs back))))

  greater-step :
      (c s : FileInfo) (cs ss : List FileInfo)
      → compare_paths c.filepath s.filepath ≡ greater
      → IsRising (c ∷ cs)
      → clients
          (server_file_of ss)
          (c ∷ cs)
          (s ∷ without_partner (λ t. search t.filepath (c ∷ cs)) ss)
        ≡ searched (c ∷ cs) (s ∷ ss)
  greater-step c s cs ss e r =
      let ahead = less-All s c cs (greater-less c.filepath s.filepath e) r in
      clients-cong _ _ (c ∷ cs) _ _ (partners-skip s (c ∷ cs) ss (behind-skip s ss (c ∷ cs) ahead))
        (ap (λ x. if_none s x (without_partner (λ t. search t.filepath (c ∷ cs)) ss))
          (sym (ahead-none s (c ∷ cs) ahead)))

  -- For two lists of files sorted by path without a path twice, and fuel for each file, the loop of
  -- Generate over the files gives the diff that searches for paths give, each list in the order of
  -- its side: missing are the client's files that neither the server's list nor the double check
  -- has, matching are those whose server file matches, changed are the others, with the data of
  -- both sides, and extraneous are the server's files whose path no client's file has.
  pub compare_files_lem :
      (fuel : ℕ) (cs ss : List FileInfo)
      → length cs + length ss ≤ fuel
      → IsRising cs
      → IsRising ss
      → compare_files get_stats base_dir copy_dest double_check_missing fuel cs ss ≡ searched cs ss
  unfolding compare_files
  compare_files_lem zero [] [] h r q = refl
  compare_files_lem zero (c ∷ cs) ss h r q = absurd (omega arith)
  compare_files_lem zero [] (s ∷ ss) h r q = absurd (omega arith)
  compare_files_lem (suc fuel) [] [] h r q = refl
  compare_files_lem (suc fuel) [] (s ∷ ss) h r (k, q) =
      ap (λ (d : Diff). record d { extraneous_files = s ∷ d.extraneous_files })
        (compare_files_lem fuel [] ss (omega arith) tt q)
  compare_files_lem (suc fuel) (c ∷ cs) [] h (k, r) q =
      ap (client_only get_stats base_dir copy_dest double_check_missing c)
        (compare_files_lem fuel cs [] (omega arith) r tt)
      ∙ client_only-clients (server_file_of []) c cs [] refl
  compare_files_lem (suc fuel) (c ∷ cs) (s ∷ ss) h (k, r) (l, q) =
      elim (Sign-cases (compare_paths c.filepath s.filepath)) [
        | inl e ↦
            rw (e, compare_files)
              (ap (client_only get_stats base_dir copy_dest double_check_missing c)
                  (compare_files_lem fuel cs (s ∷ ss) (omega arith) r (l, q))
                ∙ less-step c s cs ss e (l, q))
        | inr (inl e) ↦
            rw (e, compare_files)
              (ap (pair_files get_stats base_dir copy_dest double_check_missing c s)
                  (compare_files_lem fuel cs ss (omega arith) r q)
                ∙ equal-step c s cs ss e (k, r) (l, q))
        | inr (inr e) ↦
            rw (e, compare_files)
              (ap (λ (d : Diff). record d { extraneous_files = s ∷ d.extraneous_files })
                  (compare_files_lem fuel (c ∷ cs) ss (omega arith) (k, r) q)
                ∙ greater-step c s cs ss e (k, r))
      ]
