-- ===== src/Notify/Expiry.antt =====
-- When notifications expire, crates/shoestring-notify/src/state.rs.
use shoestring_wm.Prelude.{
  ℕ, ◌≡◌, refl, ◌==◌, ◌↔◌, Bool, false, Option, none, some, List, [], ◌∷◌, arith, if◌then◌else◌,
  ◌||◌,
}
use shoestring_wm.Notify.{
  Notification, Queue, get, find_id, next_of, next_expiry, earlier, retain, drain_expired,
  is_expired,
}
use shoestring_wm.Notify.Identity.{IsQueue, Distinct}
use shoestring_wm.Notify.Lookup.{find_id-gone}

-- A live notification that has expired.
abbrev pub is_due : ℕ → Option Notification → Bool
is_due now none = false
is_due now (some n) = is_expired now n.expires_at

abbrev pub has : ℕ → List ℕ → Bool
has j [] = false
has j (i ∷ is) = i == j || has j is

is_expired-earlier :
    (now : ℕ) (a b : Option ℕ)
    → is_expired now (earlier a b) ≡ (is_expired now a || is_expired now b)
is_expired-earlier now none b = refl
is_expired-earlier now (some a) none = ground arith
is_expired-earlier now (some a) (some b) = ground arith

retain_none :
    (now : ℕ) (ns : List Notification)
    → ((retain now ns).1 ≡ []) ↔ (is_expired now (next_of ns) ≡ false)
unfolding retain next_of
retain_none now [] = ground arith
retain_none now (n ∷ ns) =
    ground (arith, retain_none now ns, is_expired-earlier now n.expires_at (next_of ns))

next_of-retain :
    (now : ℕ) (ns : List Notification) → is_expired now (next_of (retain now ns).0) ≡ false
unfolding retain next_of
next_of-retain now [] = refl
next_of-retain now (n ∷ ns) =
    ground (
      arith,
      next_of-retain now ns,
      is_expired-earlier now n.expires_at (next_of (retain now ns).0),
    )

find_id-retain :
    (now j : ℕ) (ns : List Notification)
    → Distinct ns
    → find_id j (retain now ns).0 ≡ (if is_due now (find_id j ns) then none else find_id j ns)
unfolding retain find_id
find_id-retain now j [] d = ground arith
find_id-retain now j (n ∷ ns) d =
    ground (arith, find_id-retain now j ns d.1, find_id-gone n.id ns d.0)

has-retain :
    (now j : ℕ) (ns : List Notification)
    → Distinct ns
    → has j (retain now ns).1 ≡ is_due now (find_id j ns)
unfolding retain find_id
has-retain now j [] d = refl
has-retain now j (n ∷ ns) d = ground (arith, has-retain now j ns d.1, find_id-gone n.id ns d.0)

-- Draining the expired notifications returns the ids of exactly those whose time is not after now
-- and removes these and no others; when `next_expiry` names no time up to now there are none, and
-- afterwards it names none.
pub drain_expired_lem :
    (q : Queue) (now : ℕ)
    → IsQueue q
    → let (after, expired) = drain_expired q now in
      ((j : ℕ) → has j expired ≡ is_due now (get q j))
      × ((j : ℕ) → get after j ≡ (if is_due now (get q j) then none else get q j))
      × ((expired ≡ []) ↔ (is_expired now (next_expiry q) ≡ false))
      × (is_expired now (next_expiry after) ≡ false)
unfolding drain_expired
drain_expired_lem q now w = (
  λ j. has-retain now j q.items w.distinct,
  λ j. find_id-retain now j q.items w.distinct,
  retain_none now q.items,
  next_of-retain now q.items,
)
