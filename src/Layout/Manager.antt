-- ===== src/Layout/Manager.antt =====
-- `LayoutManager` of src/layout.rs: each window's layout, and the stack of minimized windows. A
-- window is its identity, a number; whether its client still lives is a test.
use shoestring_wm.Prelude.{
  ℕ, Bool, not, Option, none, some, List, [], ◌∷◌, ◌++◌, if◌then◌else◌, ◌==◌, any_if, filter_if,
}
use mathlib.Core.List.{reverse}
use shoestring_wm.Layout.Rect.{Rect, LayoutState, floating}

abbrev pub Window : Type 0
Window = ℕ

pub record WindowMeta : Type 0 where
  pub layout : LayoutState
  pub saved_rect : Option Rect
  pub pre_fullscreen : Option LayoutState

-- `WindowMeta::default`.
abbrev pub default_meta : WindowMeta
default_meta = record { layout = floating; saved_rect = none; pre_fullscreen = none }

-- `minimized` is the Vec, its top last.
pub record LayoutManager : Type 0 where
  pub meta : Window → Option WindowMeta
  pub minimized : List (Window × Rect)

abbrev pub or_default : Option WindowMeta → WindowMeta
or_default none = default_meta
or_default (some m) = m

-- `entry`, read, and the entry written.
abbrev pub entry : LayoutManager → Window → WindowMeta
entry l w = or_default (l.meta w)

abbrev pub set_meta : LayoutManager → Window → Option WindowMeta → LayoutManager
set_meta l w m = record l { meta = λ v. if w == v then m else l.meta v }

abbrev pub is_entry : Window → Window × Rect → Bool
is_entry w (mw, r) = mw == w

unfoldable pub forget : LayoutManager → Window → LayoutManager
forget l w = record (set_meta l w none) {
  minimized = filter_if (λ e. not (is_entry w e)) l.minimized;
}

unfoldable pub push_minimized : LayoutManager → Window → Rect → LayoutManager
push_minimized l w r = record l { minimized = l.minimized ++ (w, r) ∷ [] }

unfoldable pub is_minimized : LayoutManager → Window → Bool
is_minimized l w = any_if (is_entry w) l.minimized

abbrev pub layout_of : Option WindowMeta → LayoutState
layout_of none = floating
layout_of (some m) = m.layout

unfoldable pub layout_state : LayoutManager → Window → LayoutState
layout_state l w = layout_of (l.meta w)

-- `position` and `remove`: the first entry of the window, and the list without it.
unfoldable pub take_first : Window → List (Window × Rect) → Option Rect × List (Window × Rect)
take_first w [] = (none, [])
take_first w (e ∷ es) =
    let (r, rest) = take_first w es in if is_entry w e then (some e.1, es) else (r, e ∷ rest)

unfoldable pub take_minimized : LayoutManager → Window → Option Rect × LayoutManager
take_minimized l w = let (r, rest) = take_first w l.minimized in (r, record l { minimized = rest })

-- The `while let Some(..) = pop()` loop, on the stack with its top first.
unfoldable pub pop_live :
    (Window → Bool) → List (Window × Rect) → Option (Window × Rect) × List (Window × Rect)
pop_live alive [] = (none, [])
pop_live alive (e ∷ es) = let rest = pop_live alive es in if alive e.0 then (some e, es) else rest

unfoldable pub pop_live_minimized :
    (Window → Bool) → LayoutManager → Option (Window × Rect) × LayoutManager
pop_live_minimized alive l =
    let (r, rest) = pop_live alive (reverse l.minimized) in
    (r, record l { minimized = reverse rest })
