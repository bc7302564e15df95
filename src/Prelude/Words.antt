-- ===== src/Prelude/Words.antt =====
-- Unsigned machine words: sums that wrap, and little-endian bytes.
use Prim.Native.Nat.{ℕ, zero, suc, ◌+◌, ◌*◌, ◌/◌, ◌%◌, ◌^◌, ◌<◌}
use native.Mathlib.Nat.{pow-suc}
use native.Mathlib.Omega.{arith}
use mathlib.Core.Path.{◌≡◌, refl, ap}
use mathlib.Core.List.{List, [], ◌∷◌}
use cdc_file_transfer.Prelude.Lists.{length}

-- Sums of `uint64_t` and of `uint32_t`.
unfoldable pub add64 : ℕ → ℕ → ℕ
add64 a b = (a + b) % 2 ^ 64

pub add32 : ℕ → ℕ → ℕ
add32 a b = (a + b) % 2 ^ 32

unfoldable pub to_u32 : ℕ → ℕ
to_u32 a = a % 2 ^ 32

pub add64_exact : (a b : ℕ) → a + b < 2 ^ 64 → add64 a b ≡ a + b
unfolding add64
add64_exact a b h = omega arith

pub add32_exact : (a b : ℕ) → a + b < 2 ^ 32 → add32 a b ≡ a + b
unfolding add32
add32_exact a b h = omega arith

pub to_u32_exact : (a : ℕ) → a < 2 ^ 32 → to_u32 a ≡ a
unfolding to_u32
to_u32_exact a h = omega arith

-- The bytes of a number in memory, least significant first.
abbrev pub le_bytes : ℕ → ℕ → List ℕ
le_bytes zero x = []
le_bytes (suc n) x = (x % 256) ∷ le_bytes n (x / 256)

abbrev pub of_le_bytes : List ℕ → ℕ
of_le_bytes [] = 0
of_le_bytes (b ∷ bs) = b + 256 * of_le_bytes bs

pub length-le_bytes : (n x : ℕ) → length (le_bytes n x) ≡ n
length-le_bytes zero x = refl
length-le_bytes (suc n) x = ap suc (length-le_bytes n (x / 256))

pub of_le_bytes-le_bytes : (n x : ℕ) → x < 256 ^ n → of_le_bytes (le_bytes n x) ≡ x
of_le_bytes-le_bytes zero x h = omega arith
of_le_bytes-le_bytes (suc n) x h =
    omega (arith, of_le_bytes-le_bytes n (x / 256) (omega (arith, pow-suc 256 n)))
