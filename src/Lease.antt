-- ===== src/Lease.antt =====
-- src/remote_lease.rs: the lease that ends a shared session. Times and durations are nanoseconds.
use shoestring_wm.Prelude.{
  ℕ, zero, suc, ◌+◌, ◌*◌, ◌/◌, ◌%◌, ◌-◌, ◌==◌, Bool, true, false, Option, none, some, if◌then◌else◌,
  ltb, leb,
}
pub mod Gate
pub mod Enforced
pub mod Status
mod Examples

pub record Lease : Type 0 where
  pub until : Option ℕ
  pub idle : Option ℕ
  pub idle_since : Option ℕ

abbrev pub second : ℕ
second = 1000000000

abbrev pub remote_lease_max_secs : ℕ
remote_lease_max_secs = 2592000

-- `d.min(max)`.
abbrev pub capped : ℕ → ℕ
capped d = if ltb (remote_lease_max_secs * second) d then remote_lease_max_secs * second else d

abbrev pub limit_end : ℕ → Option ℕ → Option ℕ
limit_end now none = none
limit_end now (some d) = some (now + capped d)

abbrev pub capped_limit : Option ℕ → Option ℕ
capped_limit none = none
capped_limit (some d) = some (capped d)

abbrev pub idle_from : ℕ → ℕ → Option ℕ
idle_from now zero = some now
idle_from now (suc viewers) = none

abbrev pub begun : ℕ → Option ℕ → Option ℕ → ℕ → Lease
begun now limit idle viewers = record {
  until = limit_end now limit;
  idle = capped_limit idle;
  idle_since = idle_from now viewers;
}

abbrev pub new : ℕ → Option ℕ → Option ℕ → ℕ → Option Lease
new now none none viewers = none
new now (some d) idle viewers = some (begun now (some d) idle viewers)
new now none (some d) viewers = some (begun now none (some d) viewers)

-- The `match` on the viewers and the clock.
abbrev pub clock_after : ℕ → ℕ → Option ℕ → Option ℕ
clock_after now zero none = some now
clock_after now zero (some since) = some since
clock_after now (suc viewers) since = none

abbrev pub viewers_changed : Lease → ℕ → ℕ → Lease
viewers_changed l now viewers = record l { idle_since = clock_after now viewers l.idle_since }

abbrev pub idle_end : Option ℕ → Option ℕ → Option ℕ
idle_end none idle = none
idle_end (some since) none = none
idle_end (some since) (some d) = some (since + d)

abbrev pub earlier : Option ℕ → Option ℕ → Option ℕ
earlier (some a) (some b) = some (if ltb b a then b else a)
earlier (some a) none = some a
earlier none b = b

unfoldable pub deadline : Lease → Option ℕ
deadline l = earlier l.until (idle_end l.idle_since l.idle)

abbrev pub deadline_of : Option Lease → Option ℕ
deadline_of none = none
deadline_of (some l) = deadline l

-- `secs_ceil`, on the nanoseconds.
unfoldable pub secs_ceil : ℕ → ℕ
secs_ceil d = d / second + (if ltb 0 (d % second) then 1 else 0)

abbrev pub left_at : ℕ → Option ℕ → Option ℕ
left_at now none = none
left_at now (some at) = some (secs_ceil (at - now))

abbrev pub as_secs : Option ℕ → Option ℕ
as_secs none = none
as_secs (some d) = some (d / second)

pub record RemoteLease : Type 0 where
  pub expires_in_secs : Option ℕ
  pub idle_secs : Option ℕ
  pub idle_expires_in_secs : Option ℕ

unfoldable pub status : Lease → ℕ → RemoteLease
status l now = record {
  expires_in_secs = left_at now l.until;
  idle_secs = as_secs l.idle;
  idle_expires_in_secs = left_at now (idle_end l.idle_since l.idle);
}
