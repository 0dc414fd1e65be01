-- ===== src/Remote/Utf8.antt =====
-- `String::from_utf8`, which crates/shoestring-remote/src/lib.rs (`Reader::string`) reads texts with:
-- which byte strings are well-formed UTF-8.
use shoestring_wm.Prelude.{
  ℕ, ◌-◌, ◌≡◌, refl, Bool, true, false, List, [], ◌∷◌, if◌then◌else◌, ltb, leb, ◌==◌, ◌&&◌,
}

-- What is expected next: a first byte, or continuation bytes of which the next lies in a range.
pub record Pending : Type 0 where
  pub count : ℕ
  pub low : ℕ
  pub high : ℕ

abbrev pub boundary : Pending
boundary = record { count = 0; low = 128; high = 191 }

-- After a first byte, by the table of well-formed sequences; `false` marks a byte that starts none.
abbrev pub first_byte : ℕ → Bool × Pending
first_byte b =
    if ltb b 128
    then (true, boundary)
    else if ltb b 194
    then (false, boundary)
    else if ltb b 224
    then (true, record { count = 1; low = 128; high = 191 })
    else if b == 224
    then (true, record { count = 2; low = 160; high = 191 })
    else if b == 237
    then (true, record { count = 2; low = 128; high = 159 })
    else if ltb b 240
    then (true, record { count = 2; low = 128; high = 191 })
    else if b == 240
    then (true, record { count = 3; low = 144; high = 191 })
    else if ltb b 244
    then (true, record { count = 3; low = 128; high = 191 })
    else if b == 244
    then (true, record { count = 3; low = 128; high = 143 })
    else (false, boundary)

abbrev pub next_byte : Pending → ℕ → Bool × Pending
next_byte p b =
    if p.count == 0
    then first_byte b
    else (leb p.low b && leb b p.high, record { count = p.count - 1; low = 128; high = 191 })

unfoldable pub utf8_from : Pending → List ℕ → Bool
utf8_from p [] = p.count == 0
utf8_from p (b ∷ bs) = let (fits, p') = next_byte p b in fits && utf8_from p' bs

unfoldable pub utf8_valid : List ℕ → Bool
unfolding utf8_from
utf8_valid bs = utf8_from boundary bs

-- "é", and the same without its second byte.
accent : utf8_valid (195 ∷ 169 ∷ []) ≡ true
unfolding utf8_valid
accent = refl

cut_accent : utf8_valid (195 ∷ []) ≡ false
unfolding utf8_valid
cut_accent = refl
