-- ===== src/Layout/Minimized.antt =====
-- The stack of minimized windows of src/layout.rs.
use shoestring_wm.Prelude.{
  ◌≡◌, refl, ap, ◌∙◌, sym, inl, inr, Bool-cases, none, ◌&&◌, Bool, true, false, not, some, List, [],
  ◌∷◌, ◌++◌, arith, ◌==◌, ==_refl, All, if◌then◌else◌, any_if, filter_if,
}
use mathlib.Core.List.{
  reverse, reverse-append, reverse-reverse, reverse-cons, append_assoc, append-nil,
}
use shoestring_wm.Layout.Rect.{Rect, floating}
use shoestring_wm.Layout.Manager.{
  Window, LayoutManager, forget, is_minimized, take_first, take_minimized, pop_live,
  pop_live_minimized, layout_state, is_entry,
}

-- Every entry is of a window whose client is gone.
abbrev pub IsDead : (Window → Bool) → List (Window × Rect) → Type 0
IsDead alive = All (λ (e : Window × Rect). alive e.0 ≡ false)

pop_live_skips :
    (alive : Window → Bool) (dead rest : List (Window × Rect))
    → IsDead alive dead
    → pop_live alive (dead ++ rest) ≡ pop_live alive rest
unfolding pop_live
pop_live_skips alive [] rest h = refl
pop_live_skips alive (e ∷ dead) rest h = rw h.0 (pop_live_skips alive dead rest h.1)

IsDead-snoc :
    (alive : Window → Bool) (es : List (Window × Rect)) (e : Window × Rect)
    → IsDead alive es
    → alive e.0 ≡ false
    → IsDead alive (es ++ e ∷ [])
IsDead-snoc alive [] e h k = (k, tt)
IsDead-snoc alive (x ∷ es) e h k = (h.0, IsDead-snoc alive es e h.1 k)

IsDead-reverse :
    (alive : Window → Bool) (es : List (Window × Rect))
    → IsDead alive es
    → IsDead alive (reverse es)
IsDead-reverse alive [] h = h
IsDead-reverse alive (e ∷ es) h =
    rw (reverse-cons e es) (IsDead-snoc alive (reverse es) e (IsDead-reverse alive es h.1) h.0)

-- Unminimizing brings back the live window that was minimized last, with its rectangle; the dead
-- entries above it are dropped, and what lies below it stays.
pub pop_live_minimized_last :
    (alive : Window → Bool) (l : LayoutManager) (before dead : List (Window × Rect)) (w : Window)
    (r : Rect)
    → l.minimized ≡ before ++ ((w, r) ∷ dead)
    → alive w ≡ true
    → IsDead alive dead
    → pop_live_minimized alive l ≡ (some (w, r), record l { minimized = before })
unfolding pop_live_minimized pop_live
pop_live_minimized_last alive l before dead w r e a h =
    rw (e, reverse-append before ((w, r) ∷ dead), reverse-cons (w, r) dead, append_assoc)
      (rw (pop_live_skips alive (reverse dead) _ (IsDead-reverse alive dead h))
        (rw a (rw reverse-reverse refl)))

-- No entry is of the window.
abbrev pub IsFree : Window → List (Window × Rect) → Type 0
IsFree w = All (λ (e : Window × Rect). is_entry w e ≡ false)

take_first-first :
    (w : Window) (r : Rect) (before after : List (Window × Rect))
    → IsFree w before
    → take_first w (before ++ ((w, r) ∷ after)) ≡ (some r, before ++ after)
unfolding take_first
take_first-first w r [] after h = rw (==_refl w)
take_first-first w r (e ∷ before) after h = rw (take_first-first w r before after h.1) (rw h.0)

-- Restoring a window by name takes its oldest entry out of the stack, with the rectangle at which it
-- was minimized, and leaves the other entries in their order.
pub take_minimized_first :
    (l : LayoutManager) (w : Window) (r : Rect) (before after : List (Window × Rect))
    → l.minimized ≡ before ++ ((w, r) ∷ after)
    → IsFree w before
    → take_minimized l w ≡ (some r, record l { minimized = before ++ after })
unfolding take_minimized
take_minimized_first l w r before after e h = rw (e, take_first-first w r before after h)

-- The entries of one window, oldest first.
abbrev pub entries_of : Window → List (Window × Rect) → List (Window × Rect)
entries_of v = filter_if (is_entry v)

-- The entries of all windows but one, in their order.
abbrev pub entries_but : Window → List (Window × Rect) → List (Window × Rect)
entries_but w = filter_if (λ e. not (is_entry w e))

entries_free :
    (w v : Window) (es : List (Window × Rect))
    → entries_of v (entries_but w es) ≡ (if w == v then [] else entries_of v es)
entries_free w v [] = ground arith
entries_free w v ((mw, r) ∷ es) = ground (arith, entries_free w v es)

any_if-entries :
    (w v : Window) (es : List (Window × Rect))
    → any_if (is_entry v) (entries_but w es) ≡ (if w == v then false else any_if (is_entry v) es)
any_if-entries w v [] = ground arith
any_if-entries w v ((mw, r) ∷ es) = ground (arith, any_if-entries w v es)

-- Which window comes back next, if a window counts as dead.
pop_live-entries :
    (alive : Window → Bool) (w : Window) (es : List (Window × Rect))
    → (pop_live alive (entries_but w es)).0 ≡ (pop_live (λ v. not (v == w) && alive v) es).0
unfolding pop_live
pop_live-entries alive w [] = refl
pop_live-entries alive w ((mw, r) ∷ es) = elim (Bool-cases (mw == w)) [
  | inl same ↦ rw same (pop_live-entries alive w es)
  | inr other ↦ rw other (elim (Bool-cases (alive mw)) [
    | inl on ↦ rw on refl
    | inr off ↦ rw off (pop_live-entries alive w es)
  ])
]

entries-append :
    (w : Window) (es fs : List (Window × Rect))
    → entries_but w (es ++ fs) ≡ entries_but w es ++ entries_but w fs
entries-append w [] fs = refl
entries-append w ((mw, r) ∷ es) fs = elim (Bool-cases (mw == w)) [
  | inl same ↦ rw same (entries-append w es fs)
  | inr other ↦ rw other (ap (◌∷◌ (mw, r)) (entries-append w es fs))
]

entries-reverse :
    (w : Window) (es : List (Window × Rect))
    → reverse (entries_but w es) ≡ entries_but w (reverse es)
entries-reverse w [] = refl
entries-reverse w ((mw, r) ∷ es) =
    first (entries-reverse w es)
    ∙ sym (
        ap (entries_but w) (reverse-cons (mw, r) es) ∙ entries-append w (reverse es) ((mw, r) ∷ []))
  where
    last : List (Window × Rect)
    last = (mw, r) ∷ []

    first :
        reverse (entries_but w es) ≡ entries_but w (reverse es)
        → reverse (entries_but w ((mw, r) ∷ es)) ≡ entries_but w (reverse es) ++ entries_but w last
    first ih = elim (Bool-cases (mw == w)) [
      | inl same ↦ rw same (ih ∙ sym (append-nil (entries_but w (reverse es))))
      | inr other ↦ rw other (reverse-cons (mw, r) (entries_but w es) ∙ ap (λ xs. xs ++ last) ih)
    ]

-- A forgotten window has no layout, no saved rectangle and no layout from before fullscreen left, and
-- is not minimized; every other window keeps all of these, its entries in the stack of minimized
-- windows, and its turn: what unminimizing brings back next is what it would have brought back had the
-- forgotten window been dead.
pub forget_lem :
    (alive : Window → Bool) (l : LayoutManager) (w v : Window)
    → ((forget l w).meta v ≡ (if w == v then none else l.meta v))
      × (layout_state (forget l w) v ≡ (if w == v then floating else layout_state l v))
      × (is_minimized (forget l w) v ≡ (if w == v then false else is_minimized l v))
      × (entries_of v (forget l w).minimized ≡ (if w == v then [] else entries_of v l.minimized))
      × ((pop_live_minimized alive (forget l w)).0
          ≡ (pop_live_minimized (λ x. not (x == w) && alive x) l).0)
unfolding forget is_minimized layout_state pop_live_minimized
forget_lem alive l w v = (
  refl,
  ground arith,
  any_if-entries w v l.minimized,
  entries_free w v l.minimized,
  ap (λ es. (pop_live alive es).0) (entries-reverse w l.minimized)
      ∙ pop_live-entries alive w (reverse l.minimized),
)
