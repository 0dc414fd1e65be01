-- ===== src/Holds/Invariant.antt =====
-- What holds of the server of crates/shoestring-remote-server/src/holds.rs after any history.
use shoestring_wm.Prelude.{
  ℕ, ◌+◌, ◌-◌, ◌≤◌, ◌<◌, ◌≡◌, refl, Bool, some, arith, ◌==◌, ltb, to_nat, ap, All, All-get_elem?,
  All-set, get_elem?, set, length, count_if, count_if-set, count_if-get_elem?, count_if-le-length,
  length-set, sym, ◌∙◌, ◌&&◌,
}
use shoestring_wm.Holds.{SessionHolds, Counts, end_session}
use shoestring_wm.Holds.HeldSet.{Held, contains}
use shoestring_wm.Holds.Server.{Server, init, on_input, on_leave, holding, holders}
use shoestring_wm.Holds.Local.{
  as_count, IsExact, IsShown, IsDistinct, transition-IsExact, transition-IsShown,
  transition-IsDistinct, end_session-IsExact, end_session-IsShown, transition_generations,
  end_session_generations, end_session-released,
}

-- The state after at most `n` events.
pub record Inv (n : ℕ) (s : Server) : Type 0 where
  pub exact : (k : Held) → s.inner.counts k ≡ as_count (holders s k)
  pub shown : (k : Held) → s.pressed k ≡ ltb 0 (holders s k)
  pub old : All (λ (mine : SessionHolds). mine.generation ≤ s.inner.generation) s.sessions
  pub distinct : All IsDistinct s.sessions
  pub generations : s.inner.generation ≤ n
  pub few : length s.sessions ≤ n

pub init-Inv : (n : ℕ) → Inv n init
unfolding init
init-Inv n = record {
  exact = λ k. refl;
  shown = λ k. refl;
  old = tt;
  distinct = tt;
  generations = omega arith;
  few = omega arith;
}

-- The other sessions' share of a key.
others : Server → SessionHolds → Held → ℕ
others s mine k = holders s k - to_nat (holding s.inner.generation k mine)

module _ (s : Server) (i : ℕ) (mine : SessionHolds) (h : get_elem? s.sessions i ≡ some mine) where
  holders_split :
      (k : Held) → others s mine k + to_nat (holding s.inner.generation k mine) ≡ holders s k
  unfolding others
  holders_split k =
      omega (arith, count_if-get_elem? (holding s.inner.generation k) s.sessions i mine h)

  holders_after :
      (g : ℕ) (mine' : SessionHolds) (k : Held)
      → g ≡ s.inner.generation
      → count_if (holding g k) (set s.sessions i mine')
        ≡ others s mine k + to_nat (holding g k mine')
  unfolding others
  holders_after g mine' k e = rw e (
      omega (
        arith,
        count_if-get_elem? (holding s.inner.generation k) s.sessions i mine h,
        count_if-set (holding s.inner.generation k) s.sessions i mine mine' h,
      ))

-- A step that rewrites one session and keeps the generation keeps the invariant, once it is known
-- to keep the counts exact and the view right beside the other sessions.
module _ (n : ℕ) (s : Server) (i : ℕ) (mine : SessionHolds)
    (at_i : get_elem? s.sessions i ≡ some mine) (v : Inv n s) (inner' : Counts)
    (mine' : SessionHolds) (down : Held → Bool) where
  rewrite_session-Inv :
      (inner'.generation ≡ s.inner.generation)
      → mine'.generation ≡ mine.generation
      → IsDistinct mine'
      → IsExact inner' mine' (others s mine)
      → IsShown inner' mine' (others s mine) down
      → Inv n (record { inner = inner'; sessions = set s.sessions i mine'; pressed = down })
  rewrite_session-Inv g g' d e w = record {
    exact = λ k. e k ∙ ap as_count (sym (holders_after s i mine at_i inner'.generation mine' k g));
    shown = λ k. w k ∙ ap (ltb 0) (sym (holders_after s i mine at_i inner'.generation mine' k g));
    old =
        rw g (
          All-set _ s.sessions i mine' v.old
            (rw g' (All-get_elem? _ s.sessions i mine v.old at_i)));
    distinct = All-set _ s.sessions i mine' v.distinct d;
    generations = rw g v.generations;
    few = rw (length-set s.sessions i mine') v.few;
  }

module _ (n : ℕ) (s : Server) (i : ℕ) (mine : SessionHolds)
    (at_i : get_elem? s.sessions i ≡ some mine) (v : Inv n s) where
  before-IsExact : IsExact s.inner mine (others s mine)
  before-IsExact k = v.exact k ∙ ap as_count (sym (holders_split s i mine at_i k))

  before-IsShown : IsShown s.inner mine (others s mine) s.pressed
  before-IsShown k = v.shown k ∙ ap (ltb 0) (sym (holders_split s i mine at_i k))

  others_lt : (h : Held) → others s mine h ≤ n
  others_lt h = omega (
    arith,
    holders_split s i mine at_i h,
    count_if-le-length (holding s.inner.generation h) s.sessions,
    v.few,
  )

  before-IsDistinct : IsDistinct mine
  before-IsDistinct = All-get_elem? IsDistinct s.sessions i mine v.distinct at_i

pub on_input-Inv :
    (n : ℕ) (s : Server) (i : ℕ) (h : Held) (pressed : Bool) (mine : SessionHolds)
    → get_elem? s.sessions i ≡ some mine
    → n < 18446744073709551615
    → Inv n s
    → Inv n (on_input s i h pressed (some mine))
unfolding on_input
on_input-Inv n s i h pressed mine at_i b v =
    let g = transition_generations s.inner mine h pressed in
    let few : others s mine h < 18446744073709551615 =
      omega (arith, others_lt n s i mine at_i v h) in
    rewrite_session-Inv n s i mine at_i v _ _ _ g.0 g.1
      (transition-IsDistinct s.inner mine h pressed (before-IsDistinct n s i mine at_i v))
      (transition-IsExact s.inner mine (others s mine) h pressed (before-IsExact n s i mine at_i v)
        few)
      (transition-IsShown s.inner mine (others s mine) h pressed s.pressed
        (before-IsExact n s i mine at_i v) few (before-IsShown n s i mine at_i v))

pub on_leave-Inv :
    (n : ℕ) (s : Server) (i : ℕ) (mine : SessionHolds)
    → get_elem? s.sessions i ≡ some mine
    → Inv n s
    → Inv n (on_leave s i (some mine))
unfolding on_leave
on_leave-Inv n s i mine at_i v =
    let g = end_session_generations s.inner mine in
    rewrite_session-Inv n s i mine at_i v _ _ _ g.0 g.1 (λ k. rw g.2 (omega arith))
      (end_session-IsExact s.inner mine (others s mine) (before-IsDistinct n s i mine at_i v)
        (before-IsExact n s i mine at_i v))
      (end_session-IsShown s.inner mine (others s mine) s.pressed
        (before-IsDistinct n s i mine at_i v) (before-IsExact n s i mine at_i v)
        (before-IsShown n s i mine at_i v))

pub end_session_releases :
    (n : ℕ) (s : Server) (i : ℕ) (mine : SessionHolds) (k : Held)
    → get_elem? s.sessions i ≡ some mine
    → Inv n s
    → contains k (end_session s.inner mine).2
      ≡ (holding s.inner.generation k mine && holders s k == 1)
end_session_releases n s i mine k at_i v =
    end_session-released s.inner mine (others s mine) k (before-IsDistinct n s i mine at_i v)
      (before-IsExact n s i mine at_i v)
    ∙ shift
  where
    shift :
        (holding s.inner.generation k mine && others s mine k == 0)
        ≡ (holding s.inner.generation k mine && holders s k == 1)
    shift = ground (arith, holders_split s i mine at_i k)
