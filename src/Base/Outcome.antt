-- ===== src/Base/Outcome.antt =====
-- The outcome of a Go call: a value with a nil error, an error, or a run-time panic (an index or a
-- slice bound out of range, a division by zero). `Error` has a constructor for each message.
use mathlib.Core.Path.{◌≡◌, refl}

pub data Error : Type 0 where
  short_data bad_zip_length bad_length inflate_failed end_of_input : Error
  too_many bad_code_length bad_time : Error
  empty_code unknown_code lone_prefix needs_prefix bad_symbol code_too_long : Error
  unknown_exchange closed dial_failed task_failed : Error
  bad_range no_file bad_frame : Error
  no_codes no_model bad_count : Error
  bad_period no_kline bad_session overlap outside : Error

pub data Outcome {ℓ} (A : Type ℓ) : Type ℓ where
  ok : A → Outcome A
  err : Error → Outcome A
  panic : Outcome A

infixl 5 ◌>>=◌
abbrev pub ◌>>=◌ {ℓ κ} : {A : Type ℓ} {B : Type κ} → Outcome A → (A → Outcome B) → Outcome B
ok a >>= f = f a
err e >>= f = err e
panic >>= f = panic

pub >>=-eq_ok {ℓ κ} :
    {A : Type ℓ} {B : Type κ} (m : Outcome A) (f : A → Outcome B) {b : B}
    → (m >>= f) ≡ ok b
    → (a : A) × (m ≡ ok a) × (f a ≡ ok b)
>>=-eq_ok (ok a) f h = (a, refl, h)
>>=-eq_ok (err e) f h = cc
>>=-eq_ok panic f h = cc
