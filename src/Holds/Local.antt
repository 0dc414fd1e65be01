-- ===== src/Holds/Local.antt =====
-- One operation of crates/shoestring-remote-server/src/holds.rs, seen by the session that makes it:
-- the other sessions' holds are a fixed number for each key.
use shoestring_wm.Prelude.{
  ℕ, ◌+◌, ◌≤◌, ◌<◌, ◌≡◌, refl, Bool, true, false, Option, none, some, List, [], ◌∷◌, arith,
  if◌then◌else◌, ◌==◌, ltb, to_nat, ◌&&◌, Bool-cases, ==_iff, ap, inl, inr,
}
use shoestring_wm.Holds.{
  SessionHolds, Counts, transition, end_session, drop_all, press, let_go, drop_one, drop_entry,
}
use shoestring_wm.Holds.HeldSet.{
  Held, held_eq_iff, held_eq_refl, contains, occurrences, occurrences-insert_sorted,
  occurrences-filter, contains_iff-occurrences, contains-insert_sorted, contains-filter,
}
use shoestring_wm.Holds.Server.{holding, deliver, release_all}

-- The map's entry for a key with that many holders.
abbrev pub as_count : ℕ → Option ℕ
as_count n = if n == 0 then none else some n

module _ (inner : Counts) (mine : SessionHolds) (others : Held → ℕ) where
  -- The counts are exact: the others' holds and one's own.
  abbrev pub IsExact : Type 0
  IsExact =
      (k : Held) → inner.counts k ≡ as_count (others k + to_nat (holding inner.generation k mine))

press-IsExact :
    (inner : Counts) (mine : SessionHolds) (others : Held → ℕ) (h : Held)
    → mine.generation ≡ inner.generation
    → IsExact inner mine others
    → others h < 18446744073709551615
    → let r = press inner mine h in IsExact r.0 r.1 others
unfolding press
press-IsExact inner mine others h g e b k =
    ground (arith, e h, e k, held_eq_iff h k, held_eq_iff k h, contains-insert_sorted k h mine.held)

let_go-IsExact :
    (inner : Counts) (mine : SessionHolds) (others : Held → ℕ) (h : Held)
    → mine.generation ≡ inner.generation
    → IsExact inner mine others
    → let r = let_go inner mine h in IsExact r.0 r.1 others
unfolding let_go drop_entry
let_go-IsExact inner mine others h g e k =
    ground (arith, e h, e k, held_eq_iff h k, held_eq_iff k h, contains-filter k h mine.held)

-- A transition keeps the counts exact, the wrap-around of the count out of reach.
pub transition-IsExact :
    (inner : Counts) (mine : SessionHolds) (others : Held → ℕ) (h : Held) (pressed : Bool)
    → IsExact inner mine others
    → others h < 18446744073709551615
    → let r = transition inner mine h pressed in IsExact r.0 r.1 others
unfolding transition
transition-IsExact inner mine others h true e b k =
    elim (Bool-cases (mine.generation == inner.generation)) [
      | inl now ↦ rw now (press-IsExact inner mine others h ((==_iff _ _).0 now) e b k)
      | inr old ↦ rw old (e k)
    ]
transition-IsExact inner mine others h false e b k =
    elim (Bool-cases (mine.generation == inner.generation)) [
      | inl now ↦ rw now (let_go-IsExact inner mine others h ((==_iff _ _).0 now) e k)
      | inr old ↦ rw old (e k)
    ]

-- What the window manager sees is what somebody holds.
abbrev pub IsShown : Counts → SessionHolds → (Held → ℕ) → (Held → Bool) → Type 0
IsShown inner mine others down =
    (k : Held) → down k ≡ ltb 0 (others k + to_nat (holding inner.generation k mine))

pub transition-IsShown :
    (inner : Counts) (mine : SessionHolds) (others : Held → ℕ) (h : Held) (pressed : Bool)
    (down : Held → Bool)
    → IsExact inner mine others
    → others h < 18446744073709551615
    → IsShown inner mine others down
    → let r = transition inner mine h pressed in
      IsShown r.0 r.1 others (if r.2 then deliver down h pressed else down)
unfolding transition press let_go drop_entry
transition-IsShown inner mine others h true down e b s k =
    ground
      (arith, e h, s h, s k, held_eq_iff h k, held_eq_iff k h, contains-insert_sorted k h mine.held)
transition-IsShown inner mine others h false down e b s k =
    ground (arith, e h, s h, s k, held_eq_iff h k, held_eq_iff k h, contains-filter k h mine.held)

module _ (m : Held → Option ℕ) (others : Held → ℕ) where
  -- Keys still to drop count as held.
  abbrev IsPending : List Held → Type 0
  IsPending hs = (k : Held) → m k ≡ as_count (others k + occurrences k hs)

drop_one-IsPending :
    (m : Held → Option ℕ) (others : Held → ℕ) (h : Held) (hs : List Held)
    → IsPending m others (h ∷ hs)
    → IsPending (drop_one m h).0 others hs
unfolding drop_one
drop_one-IsPending m others h hs e k =
    ground (arith, e h, e k, held_eq_iff k h, held_eq_iff h k, held_eq_refl h)

drop_one-last :
    (m : Held → Option ℕ) (others : Held → ℕ) (h : Held) (hs : List Held)
    → IsPending m others (h ∷ hs)
    → (drop_one m h).1 ≡ (others h + occurrences h hs == 0)
unfolding drop_one
drop_one-last m others h hs e = ground (arith, e h, held_eq_refl h)

-- The loop of `end_then`: what was pending is dropped, and released where nobody else holds it.
pub drop_all-exact :
    (m : Held → Option ℕ) (hs : List Held) (others : Held → ℕ)
    → IsPending m others hs
    → (k : Held)
    → ((drop_all m hs).0 k ≡ as_count (others k))
      × (contains k (drop_all m hs).1 ≡ (contains k hs && others k == 0))
unfolding drop_all
drop_all-exact m [] others e k = (rw (e k) (ap as_count (omega arith)), refl)
drop_all-exact m (h ∷ hs) others e k =
    let rest = drop_all-exact (drop_one m h).0 hs others (drop_one-IsPending m others h hs e) k in
    ground
      (arith, rest, drop_one-last m others h hs e, held_eq_iff k h, contains_iff-occurrences h hs)

-- A key stands in a session's set once at most.
abbrev pub IsDistinct : SessionHolds → Type 0
IsDistinct mine = (k : Held) → occurrences k mine.held ≤ 1

pub transition-IsDistinct :
    (inner : Counts) (mine : SessionHolds) (h : Held) (pressed : Bool)
    → IsDistinct mine
    → IsDistinct (transition inner mine h pressed).1
unfolding transition press let_go
transition-IsDistinct inner mine h pressed d k = ground (
  arith,
  d k,
  occurrences-insert_sorted k h mine.held,
  occurrences-filter k h mine.held,
  contains_iff-occurrences h mine.held,
  held_eq_iff k h,
)

-- The window manager's view after the releases.
pub release_all_lem :
    (down : Held → Bool) (hs : List Held) (k : Held)
    → release_all down hs k ≡ (if contains k hs then false else down k)
unfolding release_all
release_all_lem down [] k = refl
release_all_lem down (h ∷ hs) k =
    ground (arith, release_all_lem (deliver down h false) hs k, held_eq_iff k h, held_eq_iff h k)

module _ (inner : Counts) (mine : SessionHolds) (others : Held → ℕ) (d : IsDistinct mine)
    (e : IsExact inner mine others) (g : (mine.generation == inner.generation) ≡ true) where
  pending : IsPending inner.counts others mine.held
  pending k = ground (arith, e k, d k, contains_iff-occurrences k mine.held)

-- When a session ends the counts are exact for the others.
pub end_session-IsExact :
    (inner : Counts) (mine : SessionHolds) (others : Held → ℕ)
    → IsDistinct mine
    → IsExact inner mine others
    → let r = end_session inner mine in IsExact r.0 r.1 others
unfolding end_session
end_session-IsExact inner mine others d e k =
    elim (Bool-cases (mine.generation == inner.generation)) [
      | inl now ↦ ground (
        arith,
        drop_all-exact inner.counts mine.held others (pending inner mine others d e now) k,
      )
      | inr old ↦ ground (arith, e k)
    ]

pub end_session-IsShown :
    (inner : Counts) (mine : SessionHolds) (others : Held → ℕ) (down : Held → Bool)
    → IsDistinct mine
    → IsExact inner mine others
    → IsShown inner mine others down
    → let r = end_session inner mine in IsShown r.0 r.1 others (release_all down r.2)
unfolding end_session
end_session-IsShown inner mine others down d e s k =
    elim (Bool-cases (mine.generation == inner.generation)) [
      | inl now ↦ ground (
        arith,
        s k,
        release_all_lem down (drop_all inner.counts mine.held).1 k,
        drop_all-exact inner.counts mine.held others (pending inner mine others d e now) k,
      )
      | inr old ↦ ground (arith, s k, release_all_lem down [] k)
    ]

-- Neither operation moves a generation.
pub transition_generations :
    (inner : Counts) (mine : SessionHolds) (h : Held) (pressed : Bool)
    → let r = transition inner mine h pressed in
      (r.0.generation ≡ inner.generation) × (r.1.generation ≡ mine.generation)
unfolding transition press let_go
transition_generations inner mine h pressed = ground arith

pub end_session_generations :
    (inner : Counts) (mine : SessionHolds)
    → let r = end_session inner mine in
      (r.0.generation ≡ inner.generation) × (r.1.generation ≡ mine.generation) × (r.1.held ≡ [])
unfolding end_session
end_session_generations inner mine = ground arith

-- What a session's end releases: its keys that nobody else holds.
pub end_session-released :
    (inner : Counts) (mine : SessionHolds) (others : Held → ℕ) (k : Held)
    → IsDistinct mine
    → IsExact inner mine others
    → contains k (end_session inner mine).2 ≡ (holding inner.generation k mine && others k == 0)
unfolding end_session
end_session-released inner mine others k d e =
    elim (Bool-cases (mine.generation == inner.generation)) [
      | inl now ↦ ground (
        arith,
        drop_all-exact inner.counts mine.held others (pending inner mine others d e now) k,
      )
      | inr old ↦ ground arith
    ]
