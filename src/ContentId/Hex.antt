-- ===== src/ContentId/Hex.antt =====
-- manifest/content_id.cc: what is written is read back.
use mathlib.Core.Option.{some-injective}
use cdc_file_transfer.Prelude.{
  ℕ, ◌+◌, ◌*◌, ◌/◌, ◌%◌, ◌<◌, ◌≡◌, refl, ap, subst, inl, inr, true, List, [], ◌∷◌, arith, some,
  length, ◌==◌, All, Bool-cases, Option-cases,
}
use cdc_file_transfer.ContentId.{
  hash_size, int_to_hex, hex_to_int, to_hex_string, read_hex, from_hex_string,
}

hex_to_int-int_to_hex : (n : ℕ) → n < 16 → hex_to_int (int_to_hex n) ≡ some n
unfolding hex_to_int int_to_hex
hex_to_int-int_to_hex n h = ground arith

int_to_hex-hex_to_int : (c n : ℕ) → hex_to_int c ≡ some n → (int_to_hex n ≡ c) × (n < 16)
unfolding hex_to_int int_to_hex
int_to_hex-hex_to_int c n h = ground arith

read_hex-to_hex_string :
    (bytes : List ℕ) → All (λ b. b < 256) bytes → read_hex (to_hex_string bytes) ≡ some bytes
unfolding read_hex to_hex_string
read_hex-to_hex_string [] h = refl
read_hex-to_hex_string (b ∷ bytes) h =
    rw (hex_to_int-int_to_hex (b / 16) (omega arith), read_hex)
      (rw (hex_to_int-int_to_hex (b % 16) (omega arith))
        (rw (read_hex-to_hex_string bytes h.1) (ap (λ x. some (x ∷ bytes)) (omega arith))))

length-to_hex_string : (bytes : List ℕ) → length (to_hex_string bytes) ≡ length bytes * 2
unfolding to_hex_string
length-to_hex_string [] = refl
length-to_hex_string (b ∷ bytes) = omega (arith, length-to_hex_string bytes)

-- The text of a content id of 20 bytes is read back as that id.
pub from_hex_string-to_hex_string :
    (id : List ℕ)
    → length id ≡ hash_size
    → All (λ b. b < 256) id
    → from_hex_string (to_hex_string id) ≡ some id
unfolding from_hex_string
from_hex_string-to_hex_string id size h =
    let t : (length (to_hex_string id) == hash_size * 2) ≡ true =
      ground (arith, length-to_hex_string id) in
    rw t (read_hex-to_hex_string id h)

to_hex_string-read_hex :
    (str bytes : List ℕ) → read_hex str ≡ some bytes → to_hex_string bytes ≡ str
unfolding read_hex to_hex_string
to_hex_string-read_hex [] [] h = refl
to_hex_string-read_hex [] (b ∷ bytes) h = cc
to_hex_string-read_hex (c ∷ []) bytes h = cc
to_hex_string-read_hex (c ∷ l ∷ str) bytes h = elim (Option-cases (hex_to_int c)) [
  | inl e ↦ cc (rw (e, read_hex) at h)
  | inr (high, e) ↦ elim (Option-cases (hex_to_int l)) [
    | inl f ↦ cc (rw f at (rw (e, read_hex) at h))
    | inr (low, f) ↦ elim (Option-cases (read_hex str)) [
      | inl g ↦ cc (rw g at (rw f at (rw (e, read_hex) at h)))
      | inr (rest, g) ↦
          subst (λ x. to_hex_string x ≡ c ∷ l ∷ str)
            (some-injective _ _ (rw g at (rw f at (rw (e, read_hex) at h))))
            (pair high low rest (int_to_hex-hex_to_int c high e) (int_to_hex-hex_to_int l low f)
              (to_hex_string-read_hex str rest g))
    ]
  ]
]
  where
    pair :
        (high low : ℕ) (rest : List ℕ)
        → (int_to_hex high ≡ c) × (high < 16)
        → (int_to_hex low ≡ l) × (low < 16)
        → to_hex_string rest ≡ str
        → to_hex_string ((high * 16 + low) % 256 ∷ rest) ≡ c ∷ l ∷ str
    pair high low rest p q t =
        let a : (high * 16 + low) % 256 / 16 ≡ high = omega (arith, p.1, q.1) in
        let b : (high * 16 + low) % 256 % 16 ≡ low = omega (arith, p.1, q.1) in
        rw a (rw b (rw (p.0, q.0, t) refl))

-- A text that is read as a content id is the text of that id: nothing but its own text is read as
-- an id.
pub to_hex_string-from_hex_string :
    (str id : List ℕ) → from_hex_string str ≡ some id → to_hex_string id ≡ str
unfolding from_hex_string
to_hex_string-from_hex_string str id h = elim (Bool-cases (length str == hash_size * 2)) [
  | inl e ↦ to_hex_string-read_hex str id (rw e at h)
  | inr e ↦ cc (rw e at h)
]
