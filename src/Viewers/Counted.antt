-- ===== src/Viewers/Counted.antt =====
-- The count of crates/shoestring-remote-server/src/viewers.rs, and what was reported of it last.
use shoestring_wm.Prelude.{
  ℕ, zero, suc, ◌+◌, ◌-◌, ◌≤◌, ◌<◌, ◌≡◌, refl, sym, ap, subst, ◌∙◌, ◌==◌, ==_refl, Bool, Bool-cases,
  inl, inr, Option, none, some, List, [], ◌∷◌, arith, if◌then◌else◌, u32, u64, All, count_if,
  count_if-le-length, to_nat, length,
}
use shoestring_wm.Viewers.{
  Viewers, ViewerGuard, join, reset, leave, Server, Event, connect, close_gate, end_session,
  at_start, taken_out, dropped, on_viewer_event, on_viewer_events,
}

-- The guards of the current generation.
abbrev pub current : ℕ → ViewerGuard → Bool
current generation g = generation == g.generation

abbrev pub connected : Server → ℕ
connected s = count_if (current s.shared.count.generation) s.guards

-- What the compositor was told last.
abbrev pub reported : List ℕ → ℕ
reported [] = 0
reported (n ∷ ns) = n

record Inv (n : ℕ) (s : Server) : Type 0 where
  pub exact : s.shared.count.viewers ≡ connected s
  pub told : reported s.shared.reports ≡ s.shared.count.viewers
  pub old : All (λ (g : ViewerGuard). g.generation ≤ s.shared.count.generation) s.guards
  pub generations : s.shared.count.generation ≤ n
  pub few : length s.guards ≤ n

abbrev found_count : (ViewerGuard → Bool) → Option ViewerGuard → ℕ
found_count p none = 0
found_count p (some g) = to_nat (p g)

count_if-taken_out :
    (p : ViewerGuard → Bool) (i : ℕ) (gs : List ViewerGuard)
    → count_if p gs ≡ found_count p (taken_out i gs).0 + count_if p (taken_out i gs).1
unfolding taken_out
count_if-taken_out p i [] = refl
count_if-taken_out p zero (g ∷ gs) = refl
count_if-taken_out p (suc i) (g ∷ gs) = omega (arith, count_if-taken_out p i gs)

length-taken_out : (i : ℕ) (gs : List ViewerGuard) → length (taken_out i gs).1 ≤ length gs
unfolding taken_out
length-taken_out i [] = omega arith
length-taken_out zero (g ∷ gs) = omega arith
length-taken_out (suc i) (g ∷ gs) = omega (arith, length-taken_out i gs)

All-taken_out :
    (P : ViewerGuard → Type 0) (i : ℕ) (gs : List ViewerGuard) → All P gs → All P (taken_out i gs).1
unfolding taken_out
All-taken_out P i [] a = tt
All-taken_out P zero (g ∷ gs) a = a.1
All-taken_out P (suc i) (g ∷ gs) a = (a.0, All-taken_out P i gs a.1)

-- After a reset no guard is of the current generation.
stale :
    (generation next : ℕ) (gs : List ViewerGuard)
    → All (λ (g : ViewerGuard). g.generation ≤ generation) gs
    → generation < next
    → count_if (current next) gs ≡ 0
stale generation next [] a h = refl
stale generation next (g ∷ gs) a h = ground (arith, stale generation next gs a.1 h, a.0)

All-mono :
    (m n : ℕ) (gs : List ViewerGuard)
    → m ≤ n
    → All (λ (g : ViewerGuard). g.generation ≤ m) gs
    → All (λ (g : ViewerGuard). g.generation ≤ n) gs
All-mono m n [] h a = tt
All-mono m n (g ∷ gs) h a = (omega (arith, a.0), All-mono m n gs h a.1)

-- The machine words do not wrap on as many events as fit in one.
u32_small : (n : ℕ) → n < 4294967296 → u32 n ≡ n
u32_small n h = omega arith

u64_small : (n : ℕ) → n < 4294967296 → u64 n ≡ n
u64_small n h = omega arith

connect-Inv :
    (n : ℕ) (s : Server) → suc n < 4294967296 → Inv n s → Inv (suc n) (on_viewer_event connect s)
unfolding on_viewer_event join
connect-Inv n s h v = record {
  exact =
      u32_small (s.shared.count.viewers + 1) (
        omega
          (arith, v.exact, v.few, count_if-le-length (current s.shared.count.generation) s.guards))
      ∙ joined;
  told = refl;
  old = (omega arith, v.old);
  generations = omega (arith, v.generations);
  few = omega (arith, v.few);
}
  where
    joined :
        s.shared.count.viewers + 1
        ≡ to_nat (s.shared.count.generation == s.shared.count.generation) + connected s
    joined = rw (==_refl s.shared.count.generation) (omega (arith, v.exact))

close_gate-Inv :
    (n : ℕ) (s : Server) → suc n < 4294967296 → Inv n s → Inv (suc n) (on_viewer_event close_gate s)
unfolding on_viewer_event reset
close_gate-Inv n s h v = record {
  exact =
      sym (stale s.shared.count.generation _ s.guards v.old (omega (arith, next, v.generations)));
  told = refl;
  old = All-mono s.shared.count.generation _ s.guards (omega (arith, next, v.generations)) v.old;
  generations = omega (arith, next, v.generations);
  few = omega (arith, v.few);
}
  where
    next : u64 (s.shared.count.generation + 1) ≡ s.shared.count.generation + 1
    next = u64_small (s.shared.count.generation + 1) (omega (arith, v.generations))

end_session-Inv : (n i : ℕ) (s : Server) → Inv n s → Inv (suc n) (on_viewer_event (end_session i) s)
unfolding on_viewer_event leave
end_session-Inv n i s v = ended (taken_out i s.guards).0 refl
  where
    rest : List ViewerGuard
    rest = (taken_out i s.guards).1

    ended :
        (found : Option ViewerGuard)
        → (taken_out i s.guards).0 ≡ found
        → Inv (suc n) (dropped (found, rest) s)
    ended none e = record {
      exact = v.exact;
      told = v.told;
      old = v.old;
      generations = omega (arith, v.generations);
      few = omega (arith, v.few);
    }
    ended (some g) e = elim (Bool-cases (current s.shared.count.generation g)) [
      | inl mine ↦ subst after (sym mine) (record {
        exact = omega (arith, v.exact, counted, ap to_nat mine);
        told = refl;
        old = All-taken_out _ i s.guards v.old;
        generations = omega (arith, v.generations);
        few = omega (arith, v.few, length-taken_out i s.guards);
      })
      | inr other ↦ subst after (sym other) (record {
        exact = omega (arith, v.exact, counted, ap to_nat other);
        told = v.told;
        old = All-taken_out _ i s.guards v.old;
        generations = omega (arith, v.generations);
        few = omega (arith, v.few, length-taken_out i s.guards);
      })
    ]
      where
        counted :
            connected s
            ≡ to_nat (current s.shared.count.generation g)
              + count_if (current s.shared.count.generation) rest
        counted =
            count_if-taken_out (current s.shared.count.generation) i s.guards
            ∙ ap
                (λ o.
                  found_count (current s.shared.count.generation) o
                  + count_if (current s.shared.count.generation) rest)
                e

        fewer : Viewers
        fewer = record {
          count = record s.shared.count { viewers = s.shared.count.viewers - 1 };
          reports = (s.shared.count.viewers - 1) ∷ s.shared.reports;
        }

        after : Bool → Type 0
        after b = Inv (suc n) (record { shared = if b then fewer else s.shared; guards = rest })

on_viewer_event-Inv :
    (e : Event) (n : ℕ) (s : Server)
    → suc n < 4294967296
    → Inv n s
    → Inv (suc n) (on_viewer_event e s)
on_viewer_event-Inv connect n s h v = connect-Inv n s h v
on_viewer_event-Inv close_gate n s h v = close_gate-Inv n s h v
on_viewer_event-Inv (end_session i) n s h v = end_session-Inv n i s v

on_viewer_events-Inv :
    (es : List Event) (n : ℕ) (s : Server)
    → n + length es < 4294967296
    → Inv n s
    → Inv (n + length es) (on_viewer_events es s)
unfolding on_viewer_events
on_viewer_events-Inv [] n s h v = subst (λ m. Inv m s) (omega arith) v
on_viewer_events-Inv (e ∷ es) n s h v =
    subst (λ m. Inv m (on_viewer_events es (on_viewer_event e s))) (omega arith)
      (on_viewer_events-Inv es (suc n) (on_viewer_event e s) (omega arith)
        (on_viewer_event-Inv e n s (omega arith) v))

at_start-Inv : Inv 0 at_start
at_start-Inv = record {
  exact = refl;
  told = refl;
  old = tt;
  generations = omega arith;
  few = omega arith;
}

-- After fewer than 2^32 connections, closings of the gate and ends of sessions, in any order, the last
-- number reported is that of the sessions still connected that joined since the gate was last closed.
pub reported_viewers :
    (es : List Event)
    → length es < 4294967296
    → reported (on_viewer_events es at_start).shared.reports
      ≡ connected (on_viewer_events es at_start)
reported_viewers es h =
    let v : Inv (0 + length es) (on_viewer_events es at_start) =
      on_viewer_events-Inv es 0 at_start (omega arith) at_start-Inv in
    v.told ∙ v.exact
