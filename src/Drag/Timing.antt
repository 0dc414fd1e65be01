-- ===== src/Drag/Timing.antt =====
-- How long a drag of src/drag.rs takes.
use shoestring_wm.Prelude.{
  ℕ, zero, suc, ◌+◌, ◌*◌, ◌/◌, ◌%◌, ◌≤◌, ◌<◌, ◌≡◌, refl, subst, sym, ap, ◌∙◌, ◌&&◌, ◌||◌, not, Bool,
  true, false, Option, arith, if◌then◌else◌, ltb, leb, inl, inr,
}
use shoestring_wm.Drag.{
  DragTiming, from_request, gap, too_long, bad_steps, from_millis, checked, unwrap_or, drag_max_ms,
  drag_max_steps, drag_default_hold_ms, drag_default_duration_ms, drag_default_steps,
}

-- From the press to the `k`-th event after it.
abbrev pub elapsed : DragTiming → ℕ → ℕ
elapsed t zero = 0
elapsed t (suc k) = elapsed t k + gap t (suc k)

gap_first : (t : DragTiming) → gap t 1 ≡ t.hold + t.duration / t.steps
unfolding gap
gap_first t = refl

gap_motion :
    (t : DragTiming) (k : ℕ) → suc (suc k) ≤ t.steps → gap t (suc (suc k)) ≡ t.duration / t.steps
unfolding gap
gap_motion t k h = ground arith

gap_release : (t : DragTiming) → 1 ≤ t.steps → gap t (suc t.steps) ≡ t.hold
unfolding gap
gap_release t h = ground arith

times_suc : (q k : ℕ) → q * suc k ≡ q * k + q
times_suc q k = grind arith

elapsed_motion :
    (t : DragTiming) (k : ℕ)
    → suc k ≤ t.steps
    → elapsed t (suc k) ≡ t.hold + (t.duration / t.steps) * suc k
elapsed_motion t zero h = omega (arith, gap_first t, times_suc (t.duration / t.steps) 0)
elapsed_motion t (suc k) h = omega (
  arith,
  gap_motion t k h,
  elapsed_motion t k (omega arith),
  times_suc (t.duration / t.steps) (suc k),
)

elapsed_motions :
    (t : DragTiming) (k : ℕ)
    → 1 ≤ k
    → k ≤ t.steps
    → elapsed t k ≡ t.hold + (t.duration / t.steps) * k
elapsed_motions t zero l h = absurd (omega arith)
elapsed_motions t (suc k) l h = elapsed_motion t k h

elapsed_release :
    (t : DragTiming)
    → 1 ≤ t.steps
    → elapsed t (suc t.steps) ≡ t.hold + (t.duration / t.steps) * t.steps + t.hold
elapsed_release t h = omega (arith, elapsed_motions t t.steps h (omega arith), gap_release t h)

div_mod : (n d : ℕ) → n ≡ n / d * d + n % d
div_mod n d = grind arith

mod_small : (n d : ℕ) → 1 ≤ d → n % d < d
mod_small n d h = grind arith

accepted :
    (long bad : Bool) (value t : DragTiming)
    → (if long then inl too_long else if bad then inl bad_steps else inr value) ≡ inr t
    → (long ≡ false) × (bad ≡ false) × (t ≡ value)
accepted true bad value t h = absurd (cc)
accepted false true value t h = absurd (cc)
accepted false false value t h = (refl, refl, cc)

in_range :
    (h d s : ℕ)
    → (ltb drag_max_ms h || ltb drag_max_ms d) ≡ false
    → not (leb 1 s && leb s drag_max_steps) ≡ false
    → (h ≤ drag_max_ms) × (d ≤ drag_max_ms) × (1 ≤ s) × (s ≤ drag_max_steps)
in_range h d s short few = ground arith

-- The bounds that an accepted timing keeps.
abbrev pub Accepted : DragTiming → Type 0
Accepted t =
    (t.hold ≤ from_millis drag_max_ms)
    × (t.duration ≤ from_millis drag_max_ms)
    × (1 ≤ t.steps)
    × (t.steps ≤ drag_max_steps)

checked-Accepted : (h d s : ℕ) (t : DragTiming) → checked h d s ≡ inr t → Accepted t
checked-Accepted h d s t e =
    let (short, few, same) : (_ ≡ false) × (_ ≡ false) × (t ≡ _) = accepted _ _ _ t e in
    subst Accepted (sym same) (times_range (in_range h d s short few))
  where
    times_range :
        (h ≤ drag_max_ms) × (d ≤ drag_max_ms) × (1 ≤ s) × (s ≤ drag_max_steps)
        → Accepted (record { hold = from_millis h; duration = from_millis d; steps = s })
    times_range r = (omega (arith, r.0), omega (arith, r.1), r.2, r.3)

-- A drag whose timing is accepted takes, from the press to the release, its two holds and its duration,
-- less than a microsecond short of them, and so at most three minutes.
pub drag_takes :
    (hold_ms duration_ms steps : Option ℕ) (t : DragTiming)
    → from_request hold_ms duration_ms steps ≡ inr t
    → Accepted t
      × (elapsed t (t.steps + 1) ≤ t.hold + t.duration + t.hold)
      × (t.hold + t.duration + t.hold < elapsed t (t.steps + 1) + 1000)
      × (elapsed t (t.steps + 1) ≤ from_millis 180000)
unfolding from_request
drag_takes hold_ms duration_ms steps t e = takes t (
    checked-Accepted (unwrap_or hold_ms drag_default_hold_ms)
      (unwrap_or duration_ms drag_default_duration_ms) (unwrap_or steps drag_default_steps) t e)
  where
    takes :
        (t : DragTiming)
        → Accepted t
        → Accepted t
          × (elapsed t (t.steps + 1) ≤ t.hold + t.duration + t.hold)
          × (t.hold + t.duration + t.hold < elapsed t (t.steps + 1) + 1000)
          × (elapsed t (t.steps + 1) ≤ from_millis 180000)
    takes t a =
        let total : elapsed t (t.steps + 1) ≡ t.hold + (t.duration / t.steps) * t.steps + t.hold =
          ap (elapsed t) {y = suc t.steps} (omega arith) ∙ elapsed_release t a.2 in
        (
          a,
          omega (arith, total, div_mod t.duration t.steps),
          omega (arith, total, div_mod t.duration t.steps, mod_small t.duration t.steps a.2, a.3),
          omega (arith, total, div_mod t.duration t.steps, a.0, a.1),
        )
