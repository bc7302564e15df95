-- ===== src/Delta/Receiver/Hashes.antt =====
-- cdc_rsync/base/cdc_interface.cc: hashes as bytes, and the members of a list of chunks.
use native.Mathlib.Nat.{pow-suc}
use cdc_file_transfer.Prelude.{
  ℕ, zero, suc, ◌^◌, ◌<◌, ◌≡◌, refl, sym, ◌⊎◌, inl, inr, true, List, [], ◌∷◌, ◌++◌, take, drop,
  arith, All, subst,
}
use cdc_file_transfer.Prelude.Words.{of_le_bytes, of_le_bytes-le_bytes}
use cdc_file_transfer.Delta.{Hash, hash_eq, hash_bytes, hash_of_bytes}

abbrev pub Member : List ℕ → List (List ℕ) → Type 0
Member d [] = ⊥
Member d (x ∷ xs) = (d ≡ x) ⊎ Member d xs

pub All-Member :
    (P : List ℕ → Type 0) (xs : List (List ℕ)) (d : List ℕ) → All P xs → Member d xs → P d
All-Member P (x ∷ xs) d h (inl e) = subst P (sym e) h.0
All-Member P (x ∷ xs) d h (inr m) = All-Member P xs d h.1 m
All-Member P [] d h m = absurd m

pub Member-middle : (xs : List (List ℕ)) (d : List ℕ) (ys : List (List ℕ)) → Member d (xs ++ d ∷ ys)
Member-middle [] d ys = inl refl
Member-middle (x ∷ xs) d ys = inr (Member-middle xs d ys)

pub hash_eq-eq : (a b : Hash) → hash_eq a b ≡ true → a ≡ b
hash_eq-eq a b h = ground arith

pow-pos256 : (n : ℕ) → 0 < 256 ^ n
pow-pos256 zero = omega arith
pow-pos256 (suc n) = omega (arith, pow-suc 256 n, pow-pos256 n)

pub of_le_bytes-lt :
    (n : ℕ) (bytes : List ℕ) → All (λ b. b < 256) bytes → of_le_bytes (take n bytes) < 256 ^ n
of_le_bytes-lt zero bytes h = omega arith
of_le_bytes-lt (suc n) [] h = pow-pos256 (suc n)
of_le_bytes-lt (suc n) (b ∷ bytes) h = omega (arith, of_le_bytes-lt n bytes h.1, pow-suc 256 n)

pub All-take-drop :
    (n : ℕ) (bytes : List ℕ)
    → All (λ b. b < 256) bytes
    → All (λ b. b < 256) (take n bytes) × All (λ b. b < 256) (drop n bytes)
All-take-drop zero bytes h = (tt, h)
All-take-drop (suc n) [] h = (tt, tt)
All-take-drop (suc n) (b ∷ bytes) h = let (a, c) = All-take-drop n bytes h.1 in ((h.0, a), c)

-- A hash of two 64-bit halves that is appended to a response and read back is the same, and the
-- bytes behind it are left.
pub hash_of_bytes-hash_bytes :
    (h : Hash) (rest : List ℕ)
    → h.low < 256 ^ 8
    → h.high < 256 ^ 8
    → (hash_of_bytes (take 16 (hash_bytes h ++ rest)) ≡ h) × (drop 16 (hash_bytes h ++ rest) ≡ rest)
unfolding hash_bytes hash_of_bytes
hash_of_bytes-hash_bytes h rest low high = (
  λ i. record {
    low = of_le_bytes-le_bytes 8 h.low low i;
    high = of_le_bytes-le_bytes 8 h.high high i;
  },
  refl,
)

-- The hasher's output is bytes.
abbrev pub IsHasher : (List ℕ → List ℕ) → Type 0
IsHasher blake3 = (d : List ℕ) → All (λ b. b < 256) (blake3 d)
