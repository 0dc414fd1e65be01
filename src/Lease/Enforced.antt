-- ===== src/Lease/Enforced.antt =====
-- A lease of src/remote_lease.rs ends the session.
use shoestring_wm.Prelude.{
  ℕ, zero, suc, ◌≤◌, ◌<◌, ◌≡◌, ◌↔◌, refl, ap, sym, ◌∙◌, arith, ◌==◌, ◌&&◌, Bool, true, false,
  Bool-cases, inl, inr, Option, none, some, if◌then◌else◌, ltb, not, subst, List, [], ◌∷◌,
}
use shoestring_wm.Lease.{Lease, new, viewers_changed, deadline_of, clock_after, idle_from}
use shoestring_wm.Lease.Gate.{
  Wm, arm_for, arm_remote_lease, set_remote, or_fail_closed, leased, remote_lease_viewers_changed,
  tick_at, remote_lease_tick, set_remote_request, report_remote_viewers, drop_remote_server, Event,
  register_server, drop_server, set_remote_asked, viewers_reported, timer_due, automation_asked,
  capture_asked, timer_fires, check_remote_lease, from_secs, on_event, on_events, started,
}

-- The idle clock stands exactly while there are viewers.
abbrev pub ClockFits : ℕ → Option Lease → Type 0
ClockFits viewers none = Unit
ClockFits viewers (some l) = (l.idle_since ≡ none) ↔ (0 < viewers)

pub record IsEnforced (wm : Wm) : Type 0 where
  -- Only an open gate has a lease, and only a registered server an open gate.
  pub closed : wm.remote_enabled ≡ false → wm.remote_lease ≡ none
  pub served : wm.remote_enabled ≡ true → wm.remote_server ≡ true
  -- A timer is registered for the lease's deadline, and for nothing else.
  pub armed : wm.remote_lease_timer ≡ deadline_of wm.remote_lease
  pub clock : ClockFits wm.remote_viewers wm.remote_lease

-- What holds of both branches, each under its condition, holds of the conditional.
either-if :
    {A : Type 0} (P : A → Type 0) (b : Bool) (x y : A)
    → (b ≡ true → P x)
    → (b ≡ false → P y)
    → P (if b then x else y)
either-if P true x y f g = f refl
either-if P false x y f g = g refl

closed-IsEnforced : (wm : Wm) → IsEnforced (set_remote false wm)
unfolding set_remote
closed-IsEnforced wm = record {
  closed = λ h. refl;
  served = λ h. absurd (cc h);
  armed = refl;
  clock = tt;
}

armed-IsEnforced :
    (inserted : Bool) (wm : Wm)
    → (wm.remote_enabled ≡ false → wm.remote_lease ≡ none)
    → (wm.remote_enabled ≡ true → wm.remote_server ≡ true)
    → ClockFits wm.remote_viewers wm.remote_lease
    → (d : Option ℕ) → deadline_of wm.remote_lease ≡ d
    → IsEnforced (or_fail_closed (arm_for inserted wm d))
armed-IsEnforced inserted wm shut server fits none h = record {
  closed = shut;
  served = server;
  armed = sym h;
  clock = fits;
}
armed-IsEnforced true wm shut server fits (some at) h = record {
  closed = shut;
  served = server;
  armed = sym h;
  clock = fits;
}
armed-IsEnforced false wm shut server fits (some at) h =
    closed-IsEnforced (record wm { remote_lease_timer = none })

clock_after_lem :
    (now viewers : ℕ) (since : Option ℕ) → (clock_after now viewers since ≡ none) ↔ (0 < viewers)
clock_after_lem now zero none = ground arith
clock_after_lem now zero (some since) = ground arith
clock_after_lem now (suc viewers) since = ground arith

idle_from_lem : (now viewers : ℕ) → (idle_from now viewers ≡ none) ↔ (0 < viewers)
idle_from_lem now zero = ground arith
idle_from_lem now (suc viewers) = ground arith

new-ClockFits :
    (now : ℕ) (limit idle : Option ℕ) (viewers : ℕ) → ClockFits viewers (new now limit idle viewers)
new-ClockFits now none none viewers = tt
new-ClockFits now (some d) idle viewers = idle_from_lem now viewers
new-ClockFits now none (some d) viewers = idle_from_lem now viewers

leased-IsEnforced :
    (inserted : Bool) (now : ℕ) (limit idle : Option ℕ) (wm : Wm)
    → wm.remote_enabled ≡ true
    → wm.remote_server ≡ true
    → IsEnforced (leased inserted (new now limit idle wm.remote_viewers) wm)
leased-IsEnforced inserted now limit idle wm on server =
    let lease = new now limit idle wm.remote_viewers in
    armed-IsEnforced inserted (record wm { remote_lease = lease }) (λ off. absurd (cc (on, off)))
      (λ h. server) (new-ClockFits now limit idle wm.remote_viewers) (deadline_of lease) refl

set_remote_request-IsEnforced :
    (inserted : Bool) (now : ℕ) (enabled : Bool) (for_secs idle_secs : Option ℕ) (wm : Wm)
    → IsEnforced wm
    → IsEnforced (set_remote_request inserted now enabled for_secs idle_secs wm).0
unfolding set_remote_request
set_remote_request-IsEnforced inserted now enabled for_secs idle_secs wm w =
    let Answers : Wm × Bool → Type 0 = λ r. IsEnforced r.0 in
    either-if Answers (enabled && not wm.remote_server) _ _ (λ h. w)
      λ server.
        either-if Answers (not (check_remote_lease enabled for_secs idle_secs)) _ _ (λ h. w)
          λ fine.
            either-if Answers enabled _ _
              (λ on.
                leased-IsEnforced inserted now (from_secs for_secs) (from_secs idle_secs)
                  (set_remote true wm) (unfold set_remote in refl)
                  (unfold set_remote in ground (arith, server, on)))
              (λ off. closed-IsEnforced wm)

viewers_changed-IsEnforced :
    (inserted : Bool) (now viewers : ℕ) (wm : Wm)
    → IsEnforced wm
    → (lease : Option Lease) → wm.remote_lease ≡ lease
    → IsEnforced
        (remote_lease_viewers_changed inserted now (record wm { remote_viewers = viewers }) lease)
viewers_changed-IsEnforced inserted now viewers wm w none h = record {
  closed = λ off. h;
  served = w.served;
  armed = w.armed;
  clock = rw h tt;
}
viewers_changed-IsEnforced inserted now viewers wm w (some l) h =
    let changed = viewers_changed l now viewers in
    armed-IsEnforced inserted (record wm { remote_viewers = viewers; remote_lease = some changed })
      (λ off. absurd (cc (w.closed off, h))) w.served (clock_after_lem now viewers l.idle_since)
      (deadline_of (some changed)) refl

report_remote_viewers-IsEnforced :
    (inserted : Bool) (now viewers : ℕ) (wm : Wm)
    → IsEnforced wm
    → IsEnforced (report_remote_viewers inserted now viewers wm)
unfolding report_remote_viewers
report_remote_viewers-IsEnforced inserted now viewers wm w =
    elim (Bool-cases (wm.remote_viewers == viewers)) [
      | inl same ↦ rw same (record {
        closed = w.closed;
        served = w.served;
        armed = w.armed;
        clock = subst (λ v. ClockFits v wm.remote_lease) (ground (arith, same)) w.clock;
      })
      | inr other ↦
          rw other (viewers_changed-IsEnforced inserted now viewers wm w wm.remote_lease refl)
    ]

tick-IsEnforced :
    (inserted : Bool) (now : ℕ) (wm : Wm)
    → IsEnforced wm
    → IsEnforced (remote_lease_tick inserted now wm)
unfolding remote_lease_tick
tick-IsEnforced inserted now wm w = go (deadline_of wm.remote_lease) refl
  where
    go :
        (d : Option ℕ)
        → deadline_of wm.remote_lease ≡ d
        → IsEnforced (tick_at inserted now (record wm { remote_lease_timer = none }) d)
    go none h = record { closed = w.closed; served = w.served; armed = sym h; clock = w.clock }
    go (some at) h = elim (Bool-cases (ltb now at)) [
      | inl before ↦ rw before (
          armed-IsEnforced inserted (record wm { remote_lease_timer = none }) w.closed w.served
            w.clock (deadline_of wm.remote_lease) refl)
      | inr due ↦ rw due (closed-IsEnforced (record wm { remote_lease_timer = none }))
    ]

drop_remote_server-IsEnforced : (wm : Wm) → IsEnforced wm → IsEnforced (drop_remote_server wm)
unfolding drop_remote_server set_remote
drop_remote_server-IsEnforced wm w =
    either-if (λ v. IsEnforced (record v { remote_viewers = 0 })) wm.remote_enabled _ _
      (λ on. record { closed = λ h. refl; served = λ h. absurd (cc h); armed = refl; clock = tt })
      λ off. record {
        closed = w.closed;
        served = λ on. absurd (cc (on, off));
        armed = w.armed;
        clock = subst (ClockFits 0) (sym (w.closed off)) tt;
      }

on_event-IsEnforced : (e : Event) (wm : Wm) → IsEnforced wm → IsEnforced (on_event e wm)
unfolding on_event
on_event-IsEnforced register_server wm w = record {
  closed = w.closed;
  served = λ h. refl;
  armed = w.armed;
  clock = w.clock;
}
on_event-IsEnforced drop_server wm w =
    either-if IsEnforced wm.remote_server _ _ (λ h. drop_remote_server-IsEnforced wm w) λ h. w
on_event-IsEnforced (set_remote_asked inserted now enabled for_secs idle_secs) wm w =
    set_remote_request-IsEnforced inserted now enabled for_secs idle_secs wm w
on_event-IsEnforced (viewers_reported inserted now viewers) wm w =
    report_remote_viewers-IsEnforced inserted now viewers wm w
on_event-IsEnforced (timer_due inserted now) wm w = go wm.remote_lease_timer
  where
    go : (t : Option ℕ) → IsEnforced (timer_fires inserted now wm t)
    go none = w
    go (some at) = elim (Bool-cases (ltb now at)) [
      | inl before ↦ rw before w
      | inr due ↦ rw due (tick-IsEnforced inserted now wm w)
    ]
on_event-IsEnforced (automation_asked enabled) wm w = record {
  closed = w.closed;
  served = w.served;
  armed = w.armed;
  clock = w.clock;
}
on_event-IsEnforced (capture_asked enabled) wm w = record {
  closed = w.closed;
  served = w.served;
  armed = w.armed;
  clock = w.clock;
}

on_events-IsEnforced : (es : List Event) (wm : Wm) → IsEnforced wm → IsEnforced (on_events es wm)
unfolding on_events
on_events-IsEnforced [] wm w = w
on_events-IsEnforced (e ∷ es) wm w =
    on_events-IsEnforced es (on_event e wm) (on_event-IsEnforced e wm w)

-- After any history, whichever timers could not be registered: only an open gate has a lease, the
-- gate is open only while a server is registered, a timer is registered for exactly the deadline of
-- the lease, and the idle clock stands exactly while there are viewers.
pub history-IsEnforced : (es : List Event) → IsEnforced (on_events es started)
history-IsEnforced es =
    on_events-IsEnforced es started
      (record { closed = λ h. refl; served = λ h. absurd (cc h); armed = refl; clock = tt })

on_event-timer_due :
    (inserted : Bool) (now at : ℕ) (wm : Wm)
    → IsEnforced wm
    → wm.remote_lease_timer ≡ some at
    → at ≤ now
    → on_event (timer_due inserted now) wm
      ≡ set_remote false (record wm { remote_lease_timer = none })
unfolding on_event remote_lease_tick
on_event-timer_due inserted now at wm w h due =
    let unset : Wm = record wm { remote_lease_timer = none } in
    let late : ltb now at ≡ false = ground arith in
    ap (timer_fires inserted now wm) h
    ∙ ap (λ b. if b then wm else remote_lease_tick inserted now wm) late
    ∙ ap (tick_at inserted now unset) (sym w.armed ∙ h)
    ∙ ap
        (λ b.
          if b then or_fail_closed (arm_remote_lease inserted unset) else set_remote false unset)
        late

-- After any history, once the timer of a lease is due, its callback turns the gate off together with
-- the automation and the capture gates, counts no viewers, and leaves no lease and no timer.
pub lease_ends :
    (es : List Event) (inserted : Bool) (now at : ℕ)
    → (on_events es started).remote_lease_timer ≡ some at
    → at ≤ now
    → let after = on_event (timer_due inserted now) (on_events es started) in
      (after.remote_enabled ≡ false)
      × (after.automation_enabled ≡ false)
      × (after.screen_capture_enabled ≡ false)
      × (after.remote_viewers ≡ 0)
      × (after.remote_lease ≡ none)
      × (after.remote_lease_timer ≡ none)
unfolding set_remote
lease_ends es inserted now at h due =
    let closes =
      on_event-timer_due inserted now at (on_events es started) (history-IsEnforced es) h due in
    (
      ap (λ v. v.remote_enabled) closes,
      ap (λ v. v.automation_enabled) closes,
      ap (λ v. v.screen_capture_enabled) closes,
      ap (λ v. v.remote_viewers) closes,
      ap (λ v. v.remote_lease) closes,
      ap (λ v. v.remote_lease_timer) closes,
    )
