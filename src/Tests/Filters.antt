-- ===== src/Tests/Filters.antt =====
-- Path patterns on small inputs.
use cdc_file_transfer.Prelude.{◌≡◌, refl, [], ◌∷◌, ◌++◌, some, none, arith, false}
use cdc_file_transfer.PathFilter.{is_match, step, not_end, at_end, try_places}
use cdc_file_transfer.PathFilter.Literal.{says, is_match_lem}

is_match_lem_example :
    is_match (b'a' ∷ b'?' ∷ b'c' ∷ []) ((b'a' ∷ b'x' ∷ b'c' ∷ []) ++ 0 ∷ []) 3
    ≡ some (says (b'a' ∷ b'?' ∷ b'c' ∷ []) (b'a' ∷ b'x' ∷ b'c' ∷ []))
is_match_lem_example =
    is_match_lem (b'a' ∷ b'?' ∷ b'c' ∷ []) (b'a' ∷ b'x' ∷ b'c' ∷ []) [] 3
      ((omega arith, omega arith), ((omega arith, omega arith), ((omega arith, omega arith), tt)))
      (omega arith, (omega arith, (omega arith, tt)))

-- An asterisk behind other characters: the loop goes on behind the end of the path.
reads_behind : is_match (b'a' ∷ b'b' ∷ b'*' ∷ b'c' ∷ []) (b'a' ∷ b'b' ∷ b'd' ∷ 0 ∷ []) 3 ≡ none
unfolding is_match step not_end at_end try_places
reads_behind = refl

-- At the start of the pattern the loop stays within the path.
stays_within : is_match (b'*' ∷ b'c' ∷ []) (b'b' ∷ b'd' ∷ 0 ∷ []) 2 ≡ some false
unfolding is_match step not_end at_end try_places
stays_within = refl
