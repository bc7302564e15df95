-- ===== src/PathFilter.antt =====
-- common/path_filter.cc: glob patterns and rules. A pattern is its characters, without the one that
-- ends it; a path is the memory from its first character on, and a read behind that memory is `none`.
pub mod Literal
use cdc_file_transfer.Prelude.{
  ℕ, zero, suc, Bool, true, false, List, [], ◌∷◌, ◌++◌, Option, none, some, length, ◌==◌,
  if◌then◌else◌,
}

-- The loop over the places where the rest of the pattern may match; `n` of them are left, and as many
-- characters are taken to be.
unfoldable pub try_places : (List ℕ → ℕ → Option Bool) → ℕ → List ℕ → Option Bool
try_places rest_matches zero path = some false
try_places rest_matches (suc n) [] = rest_matches [] (suc n)
try_places rest_matches (suc n) (c ∷ path) = elim (rest_matches (c ∷ path) (suc n)) [
  | none ↦ none
  | some true ↦ some true
  | some false ↦ try_places rest_matches n path
]

-- `*path == '\0'`
unfoldable pub at_end : List ℕ → Option Bool
at_end [] = none
at_end (c ∷ path) = some (c == 0)

-- A step over one character, if it is as it must be.
unfoldable pub step : (ℕ → Bool) → (List ℕ → Option Bool) → List ℕ → Option Bool
step fits rest_matches [] = none
step fits rest_matches (c ∷ path) = if fits c then rest_matches path else some false

unfoldable pub not_end : ℕ → Bool
not_end c = if c == 0 then false else true

-- `internal::IsMatch`; `path_len` stays as it is where `path` advances.
unfoldable pub is_match : List ℕ → List ℕ → ℕ → Option Bool
is_match [] path path_len = at_end path
is_match (p ∷ pattern) path path_len =
    let next = step not_end (λ rest. is_match pattern rest path_len) path in
    let places = try_places (λ rest n. is_match pattern rest n) path_len path in
    let same = step (λ c. c == p) (λ rest. is_match pattern rest path_len) path in
    if p == b'?'
    then next
    else (if p == b'*' then (if length pattern == 0 then some true else places) else same)

pub data RuleType : Type 0 where
  include : RuleType
  exclude : RuleType

pub record Rule : Type 0 where
  pub rule_type : RuleType
  pub pattern : List ℕ

abbrev pub is_include : RuleType → Bool
is_include include = true
is_include exclude = false

pub add_rule : RuleType → List ℕ → List Rule → List Rule
add_rule rule_type pattern rules = rules ++ record { rule_type = rule_type; pattern = pattern } ∷ []

-- `PathFilter::IsMatch`, on the path's memory and length
pub filter_matches : List Rule → List ℕ → ℕ → Option Bool
filter_matches [] path path_len = some true
filter_matches (rule ∷ rules) path path_len = elim (is_match rule.pattern path path_len) [
  | none ↦ none
  | some true ↦ some (is_include rule.rule_type)
  | some false ↦ filter_matches rules path path_len
]
