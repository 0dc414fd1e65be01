-- ===== src/Lease/Status.antt =====
-- The time left that src/remote_lease.rs reports.
use shoestring_wm.Prelude.{
  ℕ, ◌-◌, ◌≡◌, ◌↔◌, arith, Bool, true, false, Option, none, some, if◌then◌else◌, ltb, ◌⊎◌,
}
use shoestring_wm.Lease.{Lease, secs_ceil, left_at, idle_end, status, deadline, earlier}

abbrev pub is_up : ℕ → Option ℕ → Bool
is_up now none = false
is_up now (some at) = if ltb now at then false else true

abbrev pub IsZero : Option ℕ → Type 0
IsZero o = o ≡ some 0

secs_ceil_zero : (d : ℕ) → (secs_ceil d ≡ 0) ↔ (d ≡ 0)
unfolding secs_ceil
secs_ceil_zero d = ground arith

left_at-IsZero : (now : ℕ) (at : Option ℕ) → IsZero (left_at now at) ↔ (is_up now at ≡ true)
left_at-IsZero now none = ground arith
left_at-IsZero now (some at) = ground (arith, secs_ceil_zero (at - now))

is_up-earlier :
    (now : ℕ) (a b : Option ℕ)
    → (is_up now (earlier a b) ≡ true) ↔ ((is_up now a ≡ true) ⊎ (is_up now b ≡ true))
is_up-earlier now none b = ground arith
is_up-earlier now (some a) none = ground arith
is_up-earlier now (some a) (some b) = ground arith

-- A lease reports no time left, on the limit or on the idle clock, exactly when its deadline has
-- come.
pub status_lem :
    (l : Lease) (now : ℕ)
    → (IsZero (status l now).expires_in_secs ⊎ IsZero (status l now).idle_expires_in_secs)
      ↔ (is_up now (deadline l) ≡ true)
unfolding status deadline
status_lem l now = (
  λ h. ground (
    arith,
    h,
    left_at-IsZero now l.until,
    left_at-IsZero now (idle_end l.idle_since l.idle),
    is_up-earlier now l.until (idle_end l.idle_since l.idle),
  ),
  λ h. ground (
    arith,
    h,
    left_at-IsZero now l.until,
    left_at-IsZero now (idle_end l.idle_since l.idle),
    is_up-earlier now l.until (idle_end l.idle_since l.idle),
  ),
)
