-- ===== src/AnsiFilter/Output.antt =====
-- common/ansi_filter.cc: what is left of the input.
use mathlib.Core.Bool.{false≢true}
use cdc_file_transfer.Prelude.{
  ℕ, ◌≤◌, ◌<◌, ◌≡◌, ◌≢◌, refl, ap, inl, inr, Bool, true, false, ◌&&◌, ◌||◌, List, [], ◌∷◌, ◌++◌,
  ◌==◌, leb, All, arith, Bool-cases,
}
use cdc_file_transfer.AnsiFilter.{
  State, not_in_sequence, dcs, cs, osc, stay, bel, esc, dcsi, csi, osci, next_of, starts, ends,
  action, remove, remove_escape_sequences,
}

-- A byte that introduces no sequence by itself.
abbrev pub IsText : ℕ → Type 0
IsText b = (b ≢ dcsi) × (b ≢ csi) × (b ≢ osci)

keep-IsText : (s : State) (ch next_ch : ℕ) → (action s ch next_ch).keep ≡ true → IsText ch
unfolding action starts
keep-IsText not_in_sequence ch next_ch h = ground arith
keep-IsText dcs ch next_ch h = elim (Bool-cases (ends ch next_ch)) [
  | inl e ↦ absurd (false≢true (rw e at h))
  | inr e ↦ absurd (false≢true (rw e at h))
]
keep-IsText cs ch next_ch h = ground arith
keep-IsText osc ch next_ch h = elim (Bool-cases (ch == bel || ends ch next_ch)) [
  | inl e ↦ absurd (false≢true (rw e at h))
  | inr e ↦ absurd (false≢true (rw e at h))
]

remove-IsText :
    (input : List ℕ) (skipping : Bool) (s : State) → All IsText (remove input skipping s)
unfolding remove
remove-IsText [] skipping s = tt
remove-IsText (ch ∷ input) true s = remove-IsText input false s
remove-IsText (ch ∷ input) false s =
    let a = action s ch (next_of input) in
    let rest = remove-IsText input a.skip a.state in
    elim (Bool-cases a.keep) [
      | inl k ↦ rw k (keep-IsText s ch (next_of input) k, rest)
      | inr k ↦ rw k rest
    ]

-- The result holds none of the one-byte introducers of sequences, whatever the input is.
pub remove_escape_sequences-IsText : (input : List ℕ) → All IsText (remove_escape_sequences input)
unfolding remove_escape_sequences
remove_escape_sequences-IsText input = remove-IsText input false not_in_sequence

text_action :
    (ch next_ch : ℕ)
    → ch ≢ esc
    → IsText ch
    → action not_in_sequence ch next_ch
      ≡ record { keep = true; skip = false; state = not_in_sequence }
unfolding action starts
text_action ch next_ch h t =
    let a : starts b'P' dcsi ch next_ch ≡ false = ground arith in
    let b : starts b'[' csi ch next_ch ≡ false = ground arith in
    let c : starts b']' osci ch next_ch ≡ false = ground arith in rw a (rw b (rw c refl))

final_action :
    (ch next_ch : ℕ) → 0x40 ≤ ch → ch ≤ 0x7e → action cs ch next_ch ≡ stay not_in_sequence
unfolding action
final_action ch next_ch lo hi =
    let t : (leb 0x40 ch && leb ch 0x7e) ≡ true = ground arith in rw t refl

param_action : (ch next_ch : ℕ) → ch < 0x40 → action cs ch next_ch ≡ stay cs
unfolding action
param_action ch next_ch low =
    let t : (leb 0x40 ch && leb ch 0x7e) ≡ false = ground arith in rw t refl

-- An input without the escape byte and without the one-byte introducers is not changed.
remove_escape_sequences_plain :
    (input : List ℕ) → All (λ b. (b ≢ esc) × IsText b) input → remove_escape_sequences input ≡ input
unfolding remove_escape_sequences remove
remove_escape_sequences_plain [] h = refl
remove_escape_sequences_plain (ch ∷ input) h =
    rw (text_action ch (next_of input) h.0.0 h.0.1)
      (ap (◌∷◌ ch) (remove_escape_sequences_plain input h.1))

inside :
    (params : List ℕ) (final : ℕ) (rest : List ℕ)
    → All (λ b. b < 0x40) params
    → 0x40 ≤ final
    → final ≤ 0x7e
    → remove (params ++ final ∷ rest) false cs ≡ remove rest false not_in_sequence
unfolding remove
inside [] final rest h lo hi = rw (final_action final (next_of rest) lo hi) refl
inside (b ∷ params) final rest h lo hi =
    rw (param_action b (next_of (params ++ final ∷ rest)) h.0) (inside params final rest h.1 lo hi)

-- A control sequence of ESC, an opening bracket, bytes below 0x40 and a final byte from 0x40 to
-- 0x7e is removed from the start of an input, and the rest is filtered as if it stood alone.
pub remove_escape_sequences_control :
    (params : List ℕ) (final : ℕ) (rest : List ℕ)
    → All (λ b. b < 0x40) params
    → 0x40 ≤ final
    → final ≤ 0x7e
    → remove_escape_sequences (esc ∷ b'[' ∷ params ++ final ∷ rest) ≡ remove_escape_sequences rest
unfolding remove_escape_sequences remove action starts next_of
remove_escape_sequences_control params final rest h lo hi = inside params final rest h lo hi
