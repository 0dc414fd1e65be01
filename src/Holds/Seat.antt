-- ===== src/Holds/Seat.antt =====
-- What crates/shoestring-remote-server/src/holds.rs promises the served seat, over every history of
-- connections, transitions, departures and gate closings.
use shoestring_wm.Prelude.{
  ℕ, suc, ◌+◌, ◌%◌, ◌≤◌, ◌<◌, ◌≡◌, refl, Bool, true, false, some, List, [], ◌∷◌, ◌++◌, arith, ◌==◌,
  ◌&&◌, ltb, ap, All, All-append, get_elem?, length, count_if, count_if-append, length-append,
  Option-cases, inl, inr, ◌∙◌, sym, subst, not, count_if-le-length, count_if-get_elem?,
  All-get_elem?,
}
use shoestring_wm.Holds.{
  SessionHolds, Counts, session, transition, end_session, reset, press, let_go, drop_entry,
}
use shoestring_wm.Holds.HeldSet.{
  Held, contains, held_eq_refl, contains-insert_sorted, contains-filter,
}
use shoestring_wm.Holds.Server.{
  Server, Event, connect, input, leave, close_gate, init, step, run, on_input, on_leave, holding,
  holders,
}
use shoestring_wm.Holds.Local.{as_count}
use shoestring_wm.Holds.Invariant.{Inv, init-Inv, on_input-Inv, on_leave-Inv, end_session_releases}

-- A session that has just connected holds nothing.
holders-connect :
    (s : Server) (k : Held)
    → count_if (holding s.inner.generation k) (s.sessions ++ session s.inner ∷ []) ≡ holders s k
holders-connect s k =
    ground (arith, count_if-append (holding s.inner.generation k) s.sessions (session s.inner ∷ []))

-- After a reset no session is of the current generation.
holders_stale :
    (g g' : ℕ) (k : Held) (xs : List SessionHolds)
    → All (λ (mine : SessionHolds). mine.generation ≤ g) xs
    → g < g'
    → count_if (holding g' k) xs ≡ 0
holders_stale g g' k [] o h = refl
holders_stale g g' k (x ∷ xs) o h = ground (arith, holders_stale g g' k xs o.1)

All-mono :
    (g g' : ℕ) (xs : List SessionHolds)
    → g ≤ g'
    → All (λ (mine : SessionHolds). mine.generation ≤ g) xs
    → All (λ (mine : SessionHolds). mine.generation ≤ g') xs
All-mono g g' [] h o = tt
All-mono g g' (x ∷ xs) h o = (omega arith, All-mono g g' xs h o.1)

weaken-Inv : (n : ℕ) (s : Server) → Inv n s → Inv (suc n) s
weaken-Inv n s v = record {
  exact = v.exact;
  shown = v.shown;
  old = v.old;
  distinct = v.distinct;
  generations = omega arith;
  few = omega arith;
}

connect-Inv : (n : ℕ) (s : Server) → Inv n s → Inv (suc n) (step s connect)
unfolding step
connect-Inv n s v = record {
  exact = λ k. v.exact k ∙ ap as_count (sym (holders-connect s k));
  shown = λ k. v.shown k ∙ ap (ltb 0) (sym (holders-connect s k));
  old = All-append _ s.sessions _ v.old (omega arith);
  distinct = All-append _ s.sessions _ v.distinct ((λ k. omega arith), tt);
  generations = omega arith;
  few = omega (arith, length-append s.sessions (session s.inner ∷ []), v.few);
}

close_gate-Inv :
    (n : ℕ) (s : Server) → n < 18446744073709551615 → Inv n s → Inv (suc n) (step s close_gate)
unfolding step reset
close_gate-Inv n s b v =
    let g = s.inner.generation in
    let next : (g + 1) % 18446744073709551616 ≡ g + 1 = omega (arith, v.generations) in
    let stale : (k : Held) → count_if (holding ((g + 1) % 18446744073709551616) k) s.sessions ≡ 0 =
      λ k. holders_stale g _ k s.sessions v.old (omega (arith, next)) in
    record {
      exact = λ k. ap as_count (sym (stale k));
      shown = λ k. ap (ltb 0) (sym (stale k));
      old = All-mono g _ s.sessions (omega (arith, next)) v.old;
      distinct = v.distinct;
      generations = omega (arith, next, v.generations);
      few = omega (arith, v.few);
    }

pub step-Inv :
    (n : ℕ) (s : Server) (e : Event) → n < 18446744073709551615 → Inv n s → Inv (suc n) (step s e)
unfolding step on_input on_leave
step-Inv n s connect b v = connect-Inv n s v
step-Inv n s (input i h pressed) b v = elim (Option-cases (get_elem? s.sessions i)) [
  | inl e ↦ rw e (weaken-Inv n s v)
  | inr (mine, e) ↦ rw e (weaken-Inv n _ (on_input-Inv n s i h pressed mine e b v))
]
step-Inv n s (leave i) b v = elim (Option-cases (get_elem? s.sessions i)) [
  | inl e ↦ rw e (weaken-Inv n s v)
  | inr (mine, e) ↦ rw e (weaken-Inv n _ (on_leave-Inv n s i mine e v))
]
step-Inv n s close_gate b v = close_gate-Inv n s b v

pub run-Inv :
    (n : ℕ) (s : Server) (es : List Event)
    → n + length es < 18446744073709551616
    → Inv n s
    → Inv (n + length es) (run s es)
unfolding run
run-Inv n s [] b v = let e : n + 0 ≡ n = omega arith in rw e v
run-Inv n s (e ∷ es) b v =
    let shift : n + suc (length es) ≡ suc n + length es = omega arith in
    rw shift (run-Inv (suc n) (step s e) es (omega arith) (step-Inv n s e (omega arith) v))

history-Inv : (es : List Event) → length es < 18446744073709551616 → Inv (length es) (run init es)
history-Inv es b =
    let e : 0 + length es ≡ length es = omega arith in
    subst (λ n. Inv n (run init es)) e (run-Inv 0 init es (omega arith) (init-Inv 0))

-- After any history of fewer than 2^64 events, a key or button is down on the served seat exactly
-- when some session of the current generation holds it.
pub pressed_iff_held :
    (es : List Event) (k : Held)
    → length es < 18446744073709551616
    → (run init es).pressed k ≡ ltb 0 (holders (run init es) k)
pressed_iff_held es k b = (history-Inv es b).shown k

module _ (es : List Event) (i : ℕ) (mine : SessionHolds) (b : length es < 18446744073709551615)
    (at_i : get_elem? (run init es).sessions i ≡ some mine) where
  -- After any history of fewer than 2^64 - 1 events, a transition of a connected session that is
  -- delivered changes the seat: a press is delivered only where the key is up, a release only
  -- where it is down.
  pub delivery_alternates :
      (h : Held) (pressed : Bool)
      → (transition (run init es).inner mine h pressed).2 ≡ true
      → (run init es).pressed h ≡ not pressed
  unfolding transition press let_go drop_entry
  delivery_alternates h pressed fires =
      let v = history-Inv es (omega arith) in
      let few : holders (run init es) h < 18446744073709551615 = omega (
        arith,
        count_if-le-length (holding (run init es).inner.generation h) (run init es).sessions,
        v.few,
      ) in
      ground (
        arith,
        v.exact h,
        v.shown h,
        count_if-get_elem? (holding (run init es).inner.generation h) (run init es).sessions i mine
            at_i,
      )

  -- After any history of fewer than 2^64 - 1 events, a departing session releases exactly the keys
  -- that it holds in the current generation as their only holder.
  pub released_iff_last :
      (k : Held)
      → contains k (end_session (run init es).inner mine).2
        ≡ (holding (run init es).inner.generation k mine && holders (run init es) k == 1)
  released_iff_last k =
      end_session_releases _ (run init es) i mine k at_i (history-Inv es (omega arith))

  -- After any history of fewer than 2^64 - 1 events, once the gate closes no session that was
  -- connected before can change the new counts or have anything delivered or released.
  pub reset_isolates :
      (h : Held) (pressed : Bool)
      → let new_inner = reset (run init es).inner in
        (transition new_inner mine h pressed ≡ (new_inner, mine, false))
        × ((end_session new_inner mine).0 ≡ new_inner)
        × ((end_session new_inner mine).2 ≡ [])
  unfolding transition end_session reset
  reset_isolates h pressed =
      let v = history-Inv es (omega arith) in
      let o = All-get_elem? _ (run init es).sessions i mine v.old at_i in
      ground (arith, v.generations)

-- Whatever a transition did, making it again changes nothing and delivers nothing: a repeated press
-- and a stray release stay with the server.
pub repeat_absorbed :
    (inner : Counts) (mine : SessionHolds) (h : Held) (pressed : Bool)
    → let r = transition inner mine h pressed in transition r.0 r.1 h pressed ≡ (r.0, r.1, false)
unfolding transition press let_go
repeat_absorbed inner mine h true =
    ground (arith, contains-insert_sorted h h mine.held, held_eq_refl h)
repeat_absorbed inner mine h false = ground (arith, contains-filter h h mine.held, held_eq_refl h)
