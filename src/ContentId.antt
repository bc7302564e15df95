-- ===== src/ContentId.antt =====
-- manifest/content_id.cc: hexadecimal content ids. A character is its code, and a content id is the
-- bytes of its hash.
pub mod Hex
use cdc_file_transfer.Prelude.{
  ℕ, zero, suc, ◌+◌, ◌-◌, ◌*◌, ◌/◌, ◌%◌, Bool, true, false, ◌&&◌, ◌||◌, List, [], ◌∷◌, Option, none,
  some, length, take, leb, ◌==◌, get_or, if◌then◌else◌,
}

-- `kHashSize`
abbrev pub hash_size : ℕ
hash_size = 20

-- The character -1 is 255.
pub int_to_hex : ℕ → ℕ
int_to_hex n = if leb n 9 then b'0' + n else (if leb n 15 then b'a' + n - 10 else 255)

-- `none` for -1
pub hex_to_int : ℕ → Option ℕ
hex_to_int c =
    if leb b'0' c && leb c b'9'
    then some (c - b'0')
    else (if leb b'a' c && leb c b'f' then some (c - b'a' + 10) else none)

-- `blake3 data` is the output of the hasher for `data`.
pub from_array : (List ℕ → List ℕ) → List ℕ → List ℕ
from_array blake3 bytes = take hash_size (blake3 bytes)

pub to_hex_string : List ℕ → List ℕ
to_hex_string [] = []
to_hex_string (b ∷ bytes) = int_to_hex (b / 16) ∷ int_to_hex (b % 16) ∷ to_hex_string bytes

-- The loop of `FromHexString` over pairs of characters. A pushed value is cast to a byte.
pub read_hex : List ℕ → Option (List ℕ)
read_hex [] = some []
read_hex (h ∷ []) = none
read_hex (h ∷ l ∷ str) = elim (hex_to_int h) [
  | none ↦ none
  | some high ↦ elim (hex_to_int l) [
    | none ↦ none
    | some low ↦ elim (read_hex str) [
      | none ↦ none
      | some bytes ↦ some ((high * 16 + low) % 256 ∷ bytes)
    ]
  ]
]

pub from_hex_string : List ℕ → Option (List ℕ)
from_hex_string str = if length str == hash_size * 2 then read_hex str else none

unfoldable pub get_byte : List ℕ → ℕ → ℕ
get_byte content_id pos = get_or content_id pos 0
