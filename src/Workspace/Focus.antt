-- ===== src/Workspace/Focus.antt =====
-- Where the focus goes, src/workspace.rs.
use shoestring_wm.Prelude.{
  ℕ, zero, suc, ◌-◌, ◌≤◌, ◌<◌, ◌≡◌, ◌≢◌, refl, ap, ◌∙◌, Bool, true, some, List, [], ◌∷◌, ltb,
  length, arith, ℤ, pos, negsuc, add_i32, Bool-cases, ◌⊎◌, inl, inr,
}
use shoestring_wm.Workspace.{
  Window, WorkspaceManager, stack_at, top, retain, others, on_stack, on_all, drop_dead,
  record_focus, forget, last_focused, shifted, clamped,
}

stack_at-on_stack :
    (ws : ℕ) (f : List Window → List Window) (ss : List (List Window))
    → ws < length ss
    → stack_at ws (on_stack ws f ss) ≡ f (stack_at ws ss)
unfolding stack_at on_stack
stack_at-on_stack ws f [] h = absurd (omega (arith, h))
stack_at-on_stack zero f (s ∷ ss) h = refl
stack_at-on_stack (suc ws) f (s ∷ ss) h = stack_at-on_stack ws f ss (omega arith)

length-on_stack :
    (ws : ℕ) (f : List Window → List Window) (ss : List (List Window))
    → length (on_stack ws f ss) ≡ length ss
unfolding on_stack
length-on_stack ws f [] = refl
length-on_stack zero f (s ∷ ss) = refl
length-on_stack (suc ws) f (s ∷ ss) = ap suc (length-on_stack ws f ss)

length-on_all :
    (f : List Window → List Window) (ss : List (List Window)) → length (on_all f ss) ≡ length ss
unfolding on_all
length-on_all f [] = refl
length-on_all f (s ∷ ss) = ap suc (length-on_all f ss)

stack_at-on_all :
    (ws : ℕ) (f : List Window → List Window) (ss : List (List Window))
    → ws < length ss
    → stack_at ws (on_all f ss) ≡ f (stack_at ws ss)
unfolding stack_at on_all
stack_at-on_all ws f [] h = absurd (omega (arith, h))
stack_at-on_all zero f (s ∷ ss) h = refl
stack_at-on_all (suc ws) f (s ∷ ss) h = stack_at-on_all ws f ss (omega arith)

module _ (alive : Window → Bool) where
  last_focused-stack :
      (m : WorkspaceManager) (ws : ℕ)
      → ws < length m.focus_history
      → (last_focused alive m ws).1 ≡ top (drop_dead alive (stack_at ws m.focus_history))
  unfolding last_focused
  last_focused-stack m ws h = ap top (stack_at-on_stack ws (drop_dead alive) m.focus_history h)

  back_to :
      (v w : Window) (s : List Window)
      → v ≢ w
      → alive v ≡ true
      → top (drop_dead alive (retain (others w) (w ∷ retain (others w) (v ∷ retain (others v) s))))
        ≡ some v
  unfolding drop_dead retain
  back_to v w s other lives = ground (arith, other, lives)

  -- When a window that has the focus is forgotten, the focus goes back to the live window of that
  -- workspace that had it before, where the workspace exists.
  pub forget_returns :
      (m : WorkspaceManager) (ws : ℕ) (v w : Window)
      → ws < length m.focus_history
      → v ≢ w
      → alive v ≡ true
      → (last_focused alive (forget (record_focus (record_focus m ws v) ws w) w) ws).1 ≡ some v
  unfolding record_focus forget
  forget_returns m ws v w h other lives =
      let one = on_stack ws (λ s. v ∷ retain (others v) s) m.focus_history in
      let two = on_stack ws (λ s. w ∷ retain (others w) s) one in
      let one_fits : ws < length one =
        ground (arith, length-on_stack ws (λ s. v ∷ retain (others v) s) m.focus_history) in
      let two_fits : ws < length two =
        ground (arith, length-on_stack ws (λ s. w ∷ retain (others w) s) one) in
      last_focused-stack (forget (record_focus (record_focus m ws v) ws w) w) ws
        (ground (arith, length-on_all (retain (others w)) two))
      ∙ ap (λ s. top (drop_dead alive s))
          (stack_at-on_all ws (retain (others w)) two two_fits
            ∙ ap (retain (others w)) (
                stack_at-on_stack ws (λ s. w ∷ retain (others w) s) one one_fits
                ∙ ap (λ s. w ∷ retain (others w) s)
                    (stack_at-on_stack ws (λ s. v ∷ retain (others v) s) m.focus_history h)))
      ∙ back_to v w (stack_at ws m.focus_history) other lives

clamped_lem :
    (count : ℕ) (i : ℤ)
    → 0 < count
    → let s = clamped count i in
      (s < count)
      × ((i ≡ pos s)
          ⊎ ((s ≡ 0) × (d : ℕ) × (i ≡ negsuc d))
          ⊎ ((s ≡ count - 1) × (k : ℕ) × (i ≡ pos k) × (count ≤ k)))
clamped_lem count (negsuc d) h = (h, inr (inl (refl, d, refl)))
clamped_lem count (pos k) h = elim (Bool-cases (ltb k count)) [
  | inl less ↦ rw less (ground (arith, less), inl refl)
  | inr over ↦ rw over (omega arith, inr (inr (refl, k, refl, ground (arith, over))))
]

-- Shifting a workspace stays in range, where there is a workspace: it gives the sum of the two as
-- i32 numbers, the first workspace where that is negative, and the last where it is past the last.
pub shifted_lem :
    (m : WorkspaceManager) (ws : ℕ) (delta : ℤ)
    → 0 < m.count
    → let s = shifted m ws delta in
      let sum = add_i32 (pos ws) delta in
      (s < m.count)
      × ((sum ≡ pos s)
          ⊎ ((s ≡ 0) × (d : ℕ) × (sum ≡ negsuc d))
          ⊎ ((s ≡ m.count - 1) × (k : ℕ) × (sum ≡ pos k) × (m.count ≤ k)))
shifted_lem m ws delta h = clamped_lem m.count (add_i32 (pos ws) delta) h
