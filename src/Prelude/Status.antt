-- ===== src/Prelude/Status.antt =====
-- Results of fallible code: a value, or a status with its code. The texts of messages are left out.

use mathlib.Core.Path.{◌≡◌, refl, ap}
use mathlib.Core.Logic.{◌≢◌, ◌⊎◌, inl, inr}

-- `absl::StatusCode`, as far as the program makes such statuses; `out_of_fuel` and
-- `out_of_bounds` are none of the program's: they mark a loop of the model that has not ended and a
-- read behind a buffer.
pub data Code : Type 0 where
  not_found : Code
  invalid_argument : Code
  failed_precondition : Code
  out_of_range : Code
  data_loss : Code
  cancelled : Code
  internal : Code
  out_of_fuel : Code
  out_of_bounds : Code

pub data Result {ℓ} (A : Type ℓ) : Type ℓ where
  ok : A → Result A
  err : Code → Result A

-- `absl::Status`
abbrev pub Status : Type 0
Status = Result (Unit {0})

infixl 5 ◌>>=◌
-- `RETURN_IF_ERROR` and `ASSIGN_OR_RETURN`
abbrev pub ◌>>=◌ {ℓ κ} : {A : Type ℓ} {B : Type κ} → Result A → (A → Result B) → Result B
err code >>= next = err code
ok value >>= next = next value

-- A continuation moves into the last step of one or of two.
pub >>=-push {ℓ κ} :
    {B : Type ℓ} {C D : Type κ} (m : Result B) (f : B → Result D) (g : B → Result C)
    (k : C → Result D)
    → ((b : B) → f b ≡ (g b >>= k))
    → (m >>= f) ≡ ((m >>= g) >>= k)
>>=-push (ok b) f g k h = h b
>>=-push (err e) f g k h = refl

pub >>=-push_two {ℓ κ} :
    {A B : Type ℓ} {C D : Type κ} (m : Result A) (n : A → Result B) (f : B → Result D)
    (g : B → Result C) (k : C → Result D)
    → ((b : B) → f b ≡ (g b >>= k))
    → (m >>= λ a. n a >>= f) ≡ ((m >>= λ a. n a >>= g) >>= k)
>>=-push_two (ok a) n f g k h = >>=-push (n a) f g k h
>>=-push_two (err e) n f g k h = refl

value_or {ℓ} : {A : Type ℓ} → A → Result A → A
value_or d (ok a) = a
value_or d (err e) = d

pub ok-injective {ℓ} : {A : Type ℓ} (a b : A) → ok a ≡ ok b → a ≡ b
unfolding value_or
ok-injective a b e = ap (value_or a) e

pub err≢ok {ℓ} : {A : Type ℓ} {c : Code} {a : A} → ◌≢◌ {A = Result A} (err c) (ok a)
err≢ok e = cc

pub Result-cases {ℓ} :
    {A : Type ℓ} (r : Result A) → ((a : A) × (r ≡ ok a)) ⊎ ((c : Code) × (r ≡ err c))
Result-cases (ok a) = inl (a, refl)
Result-cases (err c) = inr (c, refl)
