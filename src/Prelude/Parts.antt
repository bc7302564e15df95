-- ===== src/Prelude/Parts.antt =====
-- A part of a list, as the stores copy it.
use Prim.Native.Nat.{ℕ, zero, suc, ◌-◌, ◌≤◌, min}
use mathlib.Core.Path.{◌≡◌, refl, sym, ap, ◌∙◌}
use mathlib.Core.Logic.{inl, inr}
use mathlib.Core.List.{List, [], ◌∷◌}
use native.Mathlib.Omega.{arith}
use cdc_file_transfer.Prelude.Tests.{leb, leb→le, if◌then◌else◌, Bool-cases}
use cdc_file_transfer.Prelude.Lists.{length, take, drop, take-nil, drop-nil, length-drop}

pub take-drop_none : (n k : ℕ) (xs : List ℕ) → length xs ≤ k → take n (drop k xs) ≡ []
take-drop_none zero k xs h = refl
take-drop_none (suc n) k [] h = ap (take (suc n)) (drop-nil k)
take-drop_none (suc n) zero (x ∷ xs) h = absurd (omega arith)
take-drop_none (suc n) (suc k) (x ∷ xs) h = take-drop_none (suc n) k xs (omega arith)

min-zero : (m : ℕ) → min m 0 ≡ 0
min-zero m = omega arith

min-suc : (m n : ℕ) → min (suc m) (suc n) ≡ suc (min m n)
min-suc m n = omega arith

pub take-min : (n m : ℕ) (xs : List ℕ) → length xs ≡ m → take (min m n) xs ≡ take n xs
take-min zero m xs h = ap (λ k. take k xs) (min-zero m)
take-min (suc n) m [] h = take-nil (min m (suc n))
take-min (suc n) zero (x ∷ xs) h = absurd (omega (arith, h))
take-min (suc n) (suc m) (x ∷ xs) h =
    ap (λ k. take k (x ∷ xs)) (min-suc m n) ∙ ap (◌∷◌ x) (take-min n m xs (omega (arith, h)))

-- Bytes from an offset on, at most so many, with nothing behind the end.
pub take-min-drop :
    (offset size : ℕ) (bytes : List ℕ)
    → (if leb (length bytes) offset
        then []
        else take (min (length bytes - offset) size) (drop offset bytes))
      ≡ take size (drop offset bytes)
take-min-drop offset size bytes = elim (Bool-cases (leb (length bytes) offset)) [
  | inl t ↦ rw t (sym (take-drop_none size offset bytes (leb→le _ _ t)))
  | inr t ↦
      rw t (take-min size (length bytes - offset) (drop offset bytes) (length-drop offset bytes))
]
