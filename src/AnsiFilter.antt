-- ===== src/AnsiFilter.antt =====
-- common/ansi_filter.cc: `RemoveEscapeSequences`, on bytes.
pub mod Output
use cdc_file_transfer.Prelude.{
  ℕ, ◌+◌, Bool, true, false, ◌&&◌, ◌||◌, List, [], ◌∷◌, ◌==◌, leb, if◌then◌else◌,
}

pub data State : Type 0 where
  not_in_sequence : State
  dcs : State
  cs : State
  osc : State

-- `kBEL`, `kESC`, `kST`, `kDCSI`, `kCSI`, `kOSCI`
abbrev pub bel : ℕ
bel = 0x07

abbrev pub esc : ℕ
esc = 0x1b

abbrev pub st : ℕ
st = 0x9c

abbrev pub dcsi : ℕ
dcsi = 0x90

abbrev pub csi : ℕ
csi = 0x9b

abbrev pub osci : ℕ
osci = 0x9d

-- The byte behind, or 0 at the end.
pub next_of : List ℕ → ℕ
next_of [] = 0
next_of (b ∷ input) = b

-- What the loop does with a byte: whether the byte goes to the result, whether the byte behind it is
-- skipped as well, and the new state.
pub record Action : Type 0 where
  pub keep : Bool
  pub skip : Bool
  pub state : State

pub starts : ℕ → ℕ → ℕ → ℕ → Bool
starts second single ch next_ch = (ch == esc && next_ch == second) || ch == single

-- ESC + \, or ST.
pub ends : ℕ → ℕ → Bool
ends ch next_ch = ch == st || (ch == esc && next_ch == b'\\')

abbrev pub enter : ℕ → State → Action
enter ch state = record { keep = false; skip = ch == esc; state = state }

abbrev pub stay : State → Action
stay state = record { keep = false; skip = false; state = state }

pub action : State → ℕ → ℕ → Action
action not_in_sequence ch next_ch =
    if starts b'P' dcsi ch next_ch
    then enter ch dcs
    else (if starts b'[' csi ch next_ch
        then enter ch cs
        else (if starts b']' osci ch next_ch
            then enter ch osc
            else record { keep = true; skip = false; state = not_in_sequence }))
action dcs ch next_ch = if ends ch next_ch then enter ch not_in_sequence else stay dcs
action cs ch next_ch = if leb 0x40 ch && leb ch 0x7e then stay not_in_sequence else stay cs
action osc ch next_ch = if ch == bel || ends ch next_ch then enter ch not_in_sequence else stay osc

-- The loop, with `skipping`: the byte at hand was read already with the one before it.
pub remove : List ℕ → Bool → State → List ℕ
remove [] skipping s = []
remove (ch ∷ input) true s = remove input false s
remove (ch ∷ input) false s =
    let a = action s ch (next_of input) in
    let rest = remove input a.skip a.state in if a.keep then ch ∷ rest else rest

pub remove_escape_sequences : List ℕ → List ℕ
remove_escape_sequences input = remove input false not_in_sequence
