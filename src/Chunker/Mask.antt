-- ===== src/Chunker/Mask.antt =====
-- fastcdc/fastcdc.h: what `hash & rc_mask` and the loop that narrows `rc_mask` compute.
use Prim.Native.Nat.{digits, bit_and-bitwise}
use native.Mathlib.Nat.{
  pow-suc, mod-lt, dvd_refl, dvd-mul_right_of_dvd, dvd-mod_iff, mul-dvd-mul_right, le_of_dvd,
  one-dvd,
}
use cdc_file_transfer.Prelude.{
  ℕ, zero, suc, ◌+◌, ◌-◌, ◌*◌, ◌/◌, ◌%◌, ◌^◌, ◌≤◌, ◌<◌, ◌≡◌, refl, sym, ◌∙◌, ap, min, bit_and,
  arith, ◌==◌, ==_iff, Bool-cases, inl, inr, ◌∣◌,
}
use cdc_file_transfer.Chunker.{narrow, regression_mask, hash_max}

-- The recursion on binary digits that `bit_and` stands for, `d` digits deep.
abbrev digitwise : ℕ → ℕ → ℕ → ℕ
digitwise d x y = digits (λ _. zero) min d x y

digitwise_depth : (d e x y : ℕ) → x ≤ d → x ≤ e → digitwise d x y ≡ digitwise e x y
digitwise_depth zero zero x y p q = refl
digitwise_depth (suc d) (suc e) (suc x) y p q =
    omega (arith, digitwise_depth d e (suc x / 2) (y / 2) (omega arith) (omega arith))
digitwise_depth zero (suc e) (suc x) y p q = absurd (omega arith)
digitwise_depth (suc d) zero (suc x) y p q = absurd (omega arith)
digitwise_depth zero (suc e) zero y p q = refl
digitwise_depth (suc d) zero zero y p q = refl
digitwise_depth (suc d) (suc e) zero y p q = refl

bit_and-last : (x y : ℕ) → bit_and x y ≡ bit_and (x / 2) (y / 2) * 2 + min (x % 2) (y % 2)
bit_and-last zero y = omega (arith, bit_and-bitwise 0 y, bit_and-bitwise 0 (y / 2))
bit_and-last (suc x) y =
    let half = suc x / 2 in
    omega (
      arith,
      bit_and-bitwise half (y / 2),
      digitwise_depth x half half (y / 2) (omega arith) (omega arith),
      bit_and-bitwise (suc x) y,
    )

and_zero_below : (d x : ℕ) → x ≤ d → bit_and x 0 ≡ 0
and_zero_below d zero h = bit_and-bitwise 0 0
and_zero_below zero (suc x) h = absurd (omega arith)
and_zero_below (suc d) (suc x) h =
    omega (arith, and_zero_below d (suc x / 2) (omega arith), bit_and-last (suc x) 0)

-- An empty mask passes every hash.
pub and_zero : (x : ℕ) → bit_and x 0 ≡ 0
and_zero x = and_zero_below x x (omega arith)

pub pow-pos : (k : ℕ) → 0 < 2 ^ k
pow-pos zero = omega arith
pow-pos (suc k) = omega (arith, pow-suc 2 k, pow-pos k)

-- The hash of all ones passes only what the mask leaves.
pub and_ones : (k m : ℕ) → m < 2 ^ k → bit_and (hash_max k) m ≡ m
and_ones zero m h = omega (arith, and_zero 0, rw_zero m (omega arith))
  where
    rw_zero : (n : ℕ) → n ≡ 0 → bit_and 0 n ≡ 0
    rw_zero n e = rw e (and_zero 0)
and_ones (suc k) m h =
    let p = pow-suc 2 k in
    let q = pow-pos k in
    let high : (2 ^ suc k - 1) / 2 ≡ 2 ^ k - 1 = omega arith in
    omega (
      arith,
      bit_and-last (2 ^ suc k - 1) m,
      ap (λ (x : ℕ). bit_and x (m / 2)) high,
      and_ones k (m / 2) (omega arith),
    )

pow-dvd : (j r w : ℕ) → j + r ≡ w → 2 ^ j ∣ 2 ^ w
pow-dvd j zero w e = let e' : j ≡ w = omega arith in rw (← e') (dvd_refl (2 ^ j))
pow-dvd j (suc r) zero e = absurd (omega arith)
pow-dvd j (suc r) (suc w) e =
    rw (pow-suc 2 w) (dvd-mul_right_of_dvd (2 ^ j) (pow-dvd j r w (omega arith)) 2)

multiple_below : (w m : ℕ) → 2 ^ w ∣ m → m < 2 ^ w → m ≡ 0
multiple_below w zero d h = refl
multiple_below w (suc m) d h =
    absurd (omega (arith, le_of_dvd {m = 2 ^ w} {n = suc m} (omega arith) d))

-- After `j` rounds the mask ends in `j` zeros, so that `w` rounds empty it.
narrow_passes :
    (w hash r j m : ℕ)
    → j + r ≡ w
    → 2 ^ j ∣ m
    → m < 2 ^ w
    → bit_and hash (narrow w (suc r) hash m) ≡ 0
unfolding narrow
narrow_passes w hash zero j m e d h =
    let e' : j ≡ w = omega arith in
    let z : m ≡ 0 = multiple_below w m (rw e' at d) h in
    rw z (rw (and_zero hash, narrow) (and_zero hash))
narrow_passes w hash (suc r) j m e d h = elim (Bool-cases (bit_and hash m == 0)) [
  | inl stop ↦ rw (stop, narrow) ((==_iff _ _).0 stop)
  | inr go ↦
      rw (go, narrow)
        (narrow_passes w hash r (suc j) (m * 2 % 2 ^ w) (omega arith)
          ((dvd-mod_iff (2 ^ suc j) (pow-dvd (suc j) r w (omega arith))).1
            (rw (pow-suc 2 j) (mul-dvd-mul_right (2 ^ j) d 2)))
          (mod-lt (m * 2) (pow-pos w)))
]

-- The loop that narrows the regression mask ends, for any hash, with a mask that the hash passes.
pub regression_mask-passes : (w hash : ℕ) → bit_and hash (regression_mask w hash) ≡ 0
unfolding regression_mask
regression_mask-passes w hash =
    narrow_passes w hash w 0 (hash_max w) (omega arith) (one-dvd (hash_max w))
      (omega (arith, pow-pos w))

narrow-lt : (w hash fuel m : ℕ) → m < 2 ^ w → narrow w fuel hash m < 2 ^ w
unfolding narrow
narrow-lt w hash zero m h = h
narrow-lt w hash (suc fuel) m h = elim (Bool-cases (bit_and hash m == 0)) [
  | inl stop ↦ rw (stop, narrow) h
  | inr go ↦ rw (go, narrow) (narrow-lt w hash fuel (m * 2 % 2 ^ w) (mod-lt (m * 2) (pow-pos w)))
]

-- The hash of all ones, which the scan begins with, empties the mask.
pub regression_mask-ones : (w : ℕ) → regression_mask w (hash_max w) ≡ 0
regression_mask-ones w =
    sym (and_ones w _ (narrow_lt_all w)) ∙ regression_mask-passes w (hash_max w)
  where
    narrow_lt_all : (w : ℕ) → regression_mask w (hash_max w) < 2 ^ w
    narrow_lt_all w =
        unfold regression_mask in
        narrow-lt w (hash_max w) (suc w) (hash_max w) (omega (arith, pow-pos w))
