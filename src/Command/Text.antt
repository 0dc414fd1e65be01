-- ===== src/Command/Text.antt =====
-- `String::from_utf8_lossy`, with which src/remote_command.rs makes a text of the output of a command:
-- each longest start of a character that is broken off, and each byte that starts none, becomes U+FFFD.
use shoestring_wm.Prelude.{
  ℕ, suc, ◌+◌, ◌*◌, ◌≤◌, ◌≡◌, refl, Bool, true, false, List, [], ◌∷◌, ◌++◌, if◌then◌else◌, ◌==◌,
  length, length-append, arith, inl, inr, Bool-cases, ap, sym, ◌∙◌, ◌&&◌,
}
use mathlib.Core.List.{append_assoc}
use shoestring_wm.Remote.Utf8.{Pending, boundary, first_byte, next_byte, utf8_from, utf8_valid}

abbrev pub replacement : List ℕ
replacement = 239 ∷ 191 ∷ 189 ∷ []

-- For the bytes of a character that does not go on.
abbrev pub broken_off : List ℕ → List ℕ
broken_off [] = []
broken_off (b ∷ seen) = replacement

-- After a byte that goes on with a character, or ends it.
abbrev pub went_on : (List ℕ → Pending → List ℕ) → List ℕ → Pending → List ℕ
went_on next seen p = if p.count == 0 then seen ++ next [] boundary else next seen p

abbrev pub restarted : (List ℕ → Pending → List ℕ) → ℕ → Bool × Pending → List ℕ
restarted next b (true, p) = went_on next (b ∷ []) p
restarted next b (false, p) = replacement ++ next [] boundary

abbrev pub after_byte : (List ℕ → Pending → List ℕ) → List ℕ → ℕ → Bool × Pending → List ℕ
after_byte next seen b (true, p) = went_on next (seen ++ b ∷ []) p
after_byte next seen b (false, p) = broken_off seen ++ restarted next b (first_byte b)

-- With the bytes of the character so far, and what it expects.
unfoldable pub lossy_from : List ℕ → Pending → List ℕ → List ℕ
lossy_from seen p [] = broken_off seen
lossy_from seen p (b ∷ bs) = after_byte (λ s q. lossy_from s q bs) seen b (next_byte p b)

unfoldable pub from_utf8_lossy : List ℕ → List ℕ
from_utf8_lossy bs = lossy_from [] boundary bs

-- "h", a cut "é", and a byte that starts nothing.
cut_text :
    from_utf8_lossy (104 ∷ 195 ∷ 105 ∷ 255 ∷ [])
    ≡ 104 ∷ 239 ∷ 191 ∷ 189 ∷ 105 ∷ 239 ∷ 191 ∷ 189 ∷ []
unfolding from_utf8_lossy lossy_from
cut_text = refl

-- "€" cut after two of its bytes is replaced once.
cut_euro : from_utf8_lossy (226 ∷ 130 ∷ 33 ∷ []) ≡ 239 ∷ 191 ∷ 189 ∷ 33 ∷ []
unfolding from_utf8_lossy lossy_from
cut_euro = refl

abbrev Within : ℕ → (List ℕ → Pending → List ℕ) → Type 0
Within m next = (s : List ℕ) (p : Pending) → length (next s p) ≤ 3 * (length s + m)

length-broken_off : (seen : List ℕ) → length (broken_off seen) ≤ 3 * length seen
length-broken_off [] = omega arith
length-broken_off (b ∷ seen) = omega arith

went_on-Within :
    (m : ℕ) (next : List ℕ → Pending → List ℕ) (seen : List ℕ) (p : Pending)
    → Within m next
    → length (went_on next seen p) ≤ 3 * (length seen + m)
went_on-Within m next seen p w = elim (Bool-cases (p.count == 0)) [
  | inl over ↦ rw over (omega (arith, length-append seen (next [] boundary), w [] boundary))
  | inr more ↦ rw more (w seen p)
]

restarted-Within :
    (m : ℕ) (next : List ℕ → Pending → List ℕ) (b : ℕ) (r : Bool × Pending)
    → Within m next
    → length (restarted next b r) ≤ 3 * suc m
restarted-Within m next b (true, p) w = omega (arith, went_on-Within m next (b ∷ []) p w)
restarted-Within m next b (false, p) w = omega (arith, w [] boundary)

after_byte-Within :
    (m : ℕ) (next : List ℕ → Pending → List ℕ) (seen : List ℕ) (b : ℕ) (r : Bool × Pending)
    → Within m next
    → length (after_byte next seen b r) ≤ 3 * (length seen + suc m)
after_byte-Within m next seen b (true, p) w =
    omega (arith, went_on-Within m next (seen ++ b ∷ []) p w, length-append seen (b ∷ []))
after_byte-Within m next seen b (false, p) w = omega (
  arith,
  length-broken_off seen,
  restarted-Within m next b (first_byte b) w,
  length-append (broken_off seen) (restarted next b (first_byte b)),
)

lossy_from-Within : (bs : List ℕ) → Within (length bs) (λ s p. lossy_from s p bs)
unfolding lossy_from
lossy_from-Within [] s p = omega (arith, length-broken_off s)
lossy_from-Within (b ∷ bs) s p =
    after_byte-Within (length bs) (λ s q. lossy_from s q bs) s b (next_byte p b)
      (lossy_from-Within bs)

-- Each byte becomes one replacement, of three bytes, at most.
pub length-from_utf8_lossy : (bs : List ℕ) → length (from_utf8_lossy bs) ≤ 3 * length bs
unfolding from_utf8_lossy
length-from_utf8_lossy bs = omega (arith, lossy_from-Within bs [] boundary)

utf8_from-boundary :
    (p : Pending) (bs : List ℕ) → (p.count == 0) ≡ true → utf8_from p bs ≡ utf8_from boundary bs
unfolding utf8_from
utf8_from-boundary p [] h = h
utf8_from-boundary p (b ∷ bs) h = rw h refl

-- What is well-formed goes on unchanged.
went_on-utf8_from :
    (next : List ℕ → Pending → List ℕ) (seen bs : List ℕ) (p : Pending)
    → ((s : List ℕ) (q : Pending)
        → ((q.count == 0) ≡ true → s ≡ [])
        → utf8_from q bs ≡ true
        → next s q ≡ s ++ bs)
    → utf8_from p bs ≡ true
    → went_on next seen p ≡ seen ++ bs
went_on-utf8_from next seen bs p ih v = elim (Bool-cases (p.count == 0)) [
  | inl over ↦
      rw over (ap (◌++◌ seen) (ih [] boundary (λ h. refl) (sym (utf8_from-boundary p bs over) ∙ v)))
  | inr more ↦ rw more (ih seen p (λ h. absurd (cc (more, h))) v)
]

after_byte-utf8_from :
    (next : List ℕ → Pending → List ℕ) (seen bs : List ℕ) (b : ℕ) (r : Bool × Pending)
    → ((s : List ℕ) (q : Pending)
        → ((q.count == 0) ≡ true → s ≡ [])
        → utf8_from q bs ≡ true
        → next s q ≡ s ++ bs)
    → (r.0 && utf8_from r.1 bs) ≡ true
    → after_byte next seen b r ≡ seen ++ b ∷ bs
after_byte-utf8_from next seen bs b (true, p) ih v =
    went_on-utf8_from next (seen ++ b ∷ []) bs p ih v ∙ append_assoc seen (b ∷ []) bs
after_byte-utf8_from next seen bs b (false, p) ih v = absurd (cc v)

lossy_from-utf8_from :
    (bs seen : List ℕ) (p : Pending)
    → ((p.count == 0) ≡ true → seen ≡ [])
    → utf8_from p bs ≡ true
    → lossy_from seen p bs ≡ seen ++ bs
unfolding lossy_from utf8_from
lossy_from-utf8_from [] seen p at_end v = rw (at_end v) refl
lossy_from-utf8_from (b ∷ bs) seen p at_end v =
    after_byte-utf8_from (λ s q. lossy_from s q bs) seen bs b (next_byte p b)
      (λ s q. lossy_from-utf8_from bs s q) v

-- A text that is well-formed is kept as it is.
from_utf8_lossy-valid : (bs : List ℕ) → utf8_valid bs ≡ true → from_utf8_lossy bs ≡ bs
unfolding from_utf8_lossy utf8_valid
from_utf8_lossy-valid bs v = lossy_from-utf8_from bs [] boundary (λ h. refl) v
