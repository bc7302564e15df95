-- ===== src/PathFilter/Literal.antt =====
-- common/path_filter.cc: patterns without an asterisk.
use cdc_file_transfer.Prelude.{
  ℕ, ◌≡◌, ◌≢◌, refl, ap, inl, inr, Bool, true, false, List, [], ◌∷◌, ◌++◌, some, ◌==◌,
  if◌then◌else◌, All, arith, Bool-cases,
}
use cdc_file_transfer.PathFilter.{at_end, step, not_end, is_match}

-- What such a pattern says of a path: character by character, with a question mark for any.
abbrev pub says : List ℕ → List ℕ → Bool
says [] [] = true
says [] (c ∷ path) = false
says (p ∷ pattern) [] = false
says (p ∷ pattern) (c ∷ path) =
    if p == b'?' then says pattern path else (if c == p then says pattern path else false)

-- A pattern without asterisks is compared character by character with the path, a question mark
-- fits any character, and whatever stands behind the end of the path is not read.
pub is_match_lem :
    (pattern path behind : List ℕ) (path_len : ℕ)
    → All (λ p. (p ≢ b'*') × (p ≢ 0)) pattern
    → All (λ c. c ≢ 0) path
    → is_match pattern (path ++ 0 ∷ behind) path_len ≡ some (says pattern path)
unfolding is_match step not_end at_end
is_match_lem [] [] behind path_len h k = refl
is_match_lem [] (c ∷ path) behind path_len h k =
    let t : (c == 0) ≡ false = ground (arith, k.0) in ap some t
is_match_lem (p ∷ pattern) [] behind path_len h k =
    let t : (p == b'*') ≡ false = ground (arith, h.0.0) in
    let z : (0 == p) ≡ false = ground (arith, h.0.1) in
    elim (Bool-cases (p == b'?')) [ inl q ↦ rw q refl | inr q ↦ rw q (rw t (rw z refl)) ]
is_match_lem (p ∷ pattern) (c ∷ path) behind path_len h k =
    let t : (p == b'*') ≡ false = ground (arith, h.0.0) in
    let z : (c == 0) ≡ false = ground (arith, k.0) in
    let ih = is_match_lem pattern path behind path_len h.1 k.1 in
    elim (Bool-cases (p == b'?')) [
      | inl q ↦ rw q (rw z ih)
      | inr q ↦ elim (Bool-cases (c == p)) [
        | inl s ↦ rw q (rw t (rw s ih))
        | inr s ↦ rw q (rw t (rw s refl))
      ]
    ]
