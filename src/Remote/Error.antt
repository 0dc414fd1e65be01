-- ===== src/Remote/Error.antt =====
-- `Error` and `Result` of crates/shoestring-remote/src/lib.rs. The texts that an error carries for
-- people are left out, and the I/O error is the end of the stream, the only one that a byte list has.
use shoestring_wm.Prelude.{◌⊎◌, inl, inr, refl, ℕ, ◌≡◌, ap}

pub data Error : Type 0 where
  unexpected_eof : Error
  bad_tag : ℕ → Error
  unknown_message : ℕ → Error
  bad_bool : ℕ → Error
  utf8 : Error
  too_large : ℕ → Error
  codec : Error
  bad_frame : Error
  io : Error

pub data Result {ℓ} (A : Type ℓ) : Type ℓ where
  ok : A → Result A
  err : Error → Result A

-- `?`.
abbrev pub and_then {ℓ κ} : {A : Type ℓ} {B : Type κ} → Result A → (A → Result B) → Result B
and_then (ok a) f = f a
and_then (err e) f = err e

-- The value of a result, with one at hand for an error.
abbrev value_or {ℓ} : {A : Type ℓ} → A → Result A → A
value_or d (ok a) = a
value_or d (err e) = d

pub ok-injective {ℓ} : {A : Type ℓ} {a b : A} → ok a ≡ ok b → a ≡ b
ok-injective {a} h = ap (value_or a) h

pub Result-cases {ℓ} :
    {A : Type ℓ} (r : Result A) → ((a : A) × (r ≡ ok a)) ⊎ ((e : Error) × (r ≡ err e))
Result-cases (ok a) = inl (a, refl)
Result-cases (err e) = inr (e, refl)
