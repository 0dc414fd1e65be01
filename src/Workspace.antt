-- ===== src/Workspace.antt =====
-- src/workspace.rs: the workspaces, which window is on which, and what was focused last on each. A
-- window is a number, its identity, the map of windows an association list with each window once,
-- and a u8 a number. What a window's surface answers, `alive`, is a parameter. The display names are
-- left out.
use shoestring_wm.Prelude.{
  ℕ, zero, suc, ◌+◌, ◌-◌, ◌==◌, ◌&&◌, Bool, true, false, not, Option, none, some, List, [], ◌∷◌,
  ◌++◌, if◌then◌else◌, ltb, leb, length, ℤ, pos, negsuc, add_i32,
}
pub mod Focus
mod Examples

abbrev pub Window : Type 0
Window = ℕ

pub record Point : Type 0 where
  pub x : ℤ
  pub y : ℤ

pub record WindowInfo : Type 0 where
  pub workspace : ℕ
  pub saved_location : Point

pub record WorkspaceManager : Type 0 where
  pub active : ℕ
  pub windows : List (Window × WindowInfo)
  -- A stack is the list from its top: the window focused last is first.
  pub focus_history : List (List Window)
  pub count : ℕ

abbrev pub stacks : ℕ → List (List Window)
stacks zero = []
stacks (suc n) = [] ∷ stacks n

abbrev pub new : ℕ → WorkspaceManager
new count =
    let n = if count == 0 then 1 else count in
    record { active = 0; windows = []; focus_history = stacks n; count = n }

abbrev pub from_one_based : WorkspaceManager → ℕ → Option ℕ
from_one_based m idx = if leb 1 idx && leb idx m.count then some (idx - 1) else none

-- `clamp(0, count - 1)` on an i32, cast to u8.
abbrev pub clamped : ℕ → ℤ → ℕ
clamped count (pos n) = if ltb n count then n else count - 1
clamped count (negsuc n) = 0

abbrev pub shifted : WorkspaceManager → ℕ → ℤ → ℕ
shifted m ws delta = clamped m.count (add_i32 (pos ws) delta)

-- `retain(|w| keep(w))`.
unfoldable pub retain : (Window → Bool) → List Window → List Window
retain keep [] = []
retain keep (w ∷ ws) = let rest = retain keep ws in if keep w then w ∷ rest else rest

unfoldable pub retain_windows :
    (Window → Bool) → List (Window × WindowInfo) → List (Window × WindowInfo)
retain_windows keep [] = []
retain_windows keep ((w, info) ∷ ws) =
    let rest = retain_windows keep ws in if keep w then (w, info) ∷ rest else rest

abbrev pub others : Window → Window → Bool
others w v = not (v == w)

unfoldable pub find_info : Window → List (Window × WindowInfo) → Option WindowInfo
find_info w [] = none
find_info w ((v, info) ∷ ws) = let rest = find_info w ws in if v == w then some info else rest

-- `HashMap::insert`.
abbrev pub insert : Window → WindowInfo → List (Window × WindowInfo) → List (Window × WindowInfo)
insert w info ws = (w, info) ∷ retain_windows (others w) ws

unfoldable pub assign : WorkspaceManager → Window → ℕ → Point → WorkspaceManager
assign m w workspace location = record m {
  windows = insert w (record { workspace = workspace; saved_location = location }) m.windows;
}

-- What `get_mut` then writes.
abbrev pub update_info :
    (WindowInfo → WindowInfo) → Window → WorkspaceManager → Option WindowInfo → WorkspaceManager
update_info f w m none = m
update_info f w m (some info) = record m { windows = insert w (f info) m.windows }

unfoldable pub reassign : WorkspaceManager → Window → ℕ → WorkspaceManager
reassign m w workspace =
    update_info (λ info. record info { workspace = workspace }) w m (find_info w m.windows)

unfoldable pub record_location : WorkspaceManager → Window → Point → WorkspaceManager
record_location m w location =
    update_info (λ info. record info { saved_location = location }) w m (find_info w m.windows)

-- `f` on the stack of the workspace; an index out of range, at which the source panics, changes none.
unfoldable pub on_stack : ℕ → (List Window → List Window) → List (List Window) → List (List Window)
on_stack ws f [] = []
on_stack zero f (s ∷ ss) = f s ∷ ss
on_stack (suc ws) f (s ∷ ss) = s ∷ on_stack ws f ss

unfoldable pub on_all : (List Window → List Window) → List (List Window) → List (List Window)
on_all f [] = []
on_all f (s ∷ ss) = f s ∷ on_all f ss

unfoldable pub forget : WorkspaceManager → Window → WorkspaceManager
forget m w = record m {
  windows = retain_windows (others w) m.windows;
  focus_history = on_all (retain (others w)) m.focus_history;
}

unfoldable pub record_focus : WorkspaceManager → ℕ → Window → WorkspaceManager
record_focus m ws w = record m {
  focus_history = on_stack ws (λ s. w ∷ retain (others w) s) m.focus_history;
}

unfoldable pub remove_from_active_focus : WorkspaceManager → ℕ → Window → WorkspaceManager
remove_from_active_focus m ws w = record m {
  focus_history = on_stack ws (retain (others w)) m.focus_history;
}

-- `pop`.
abbrev pub popped : List Window → List Window
popped [] = []
popped (w ∷ ws) = ws

unfoldable pub discard_top_focus : WorkspaceManager → ℕ → WorkspaceManager
discard_top_focus m ws = record m { focus_history = on_stack ws popped m.focus_history }

abbrev pub top : List Window → Option Window
top [] = none
top (w ∷ ws) = some w

unfoldable pub stack_at : ℕ → List (List Window) → List Window
stack_at ws [] = []
stack_at zero (s ∷ ss) = s
stack_at (suc ws) (s ∷ ss) = stack_at ws ss

module _ (alive : Window → Bool) where
  unfoldable pub prune_dead : WorkspaceManager → WorkspaceManager
  prune_dead m = record m {
    windows = retain_windows alive m.windows;
    focus_history = on_all (retain alive) m.focus_history;
  }

  -- The loop of `last_focused` on a stack.
  unfoldable pub drop_dead : List Window → List Window
  drop_dead [] = []
  drop_dead (w ∷ ws) = let rest = drop_dead ws in if alive w then w ∷ ws else rest

  unfoldable pub last_focused : WorkspaceManager → ℕ → WorkspaceManager × Option Window
  last_focused m ws =
      let m' : WorkspaceManager = record m {
        focus_history = on_stack ws drop_dead m.focus_history;
      } in
      (m', top (stack_at ws m'.focus_history))
