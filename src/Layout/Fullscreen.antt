-- ===== src/Layout/Fullscreen.antt =====
-- Fullscreen and back, in src/layout.rs.
use shoestring_wm.Prelude.{◌≡◌, refl, some, List, [], ◌∷◌, arith, ◌≢◌, ==_refl, ◌∙◌}
use shoestring_wm.Layout.Rect.{Rect, fullscreen, tiled_rect}
use shoestring_wm.Layout.Manager.{Window, LayoutManager, layout_state}
use shoestring_wm.Layout.Desktop.{
  Smithay, apply_geometry, current_rect, usable_rect_for, set_fullscreen, unset_fullscreen,
  restore_or,
}

module _ (d : Smithay) where
  open d use {Space}

  -- Further fullscreen requests for a window, each at its own space and output.
  pub refullscreen : LayoutManager → Window → List (Space × Rect) → LayoutManager
  refullscreen l w [] = l
  refullscreen l w ((s, geo) ∷ more) = refullscreen (set_fullscreen d s l w geo).1 w more

  set_fullscreen_again :
      (s : Space) (l : LayoutManager) (w : Window) (geo : Rect)
      → layout_state l w ≡ fullscreen
      → (set_fullscreen d s l w geo).1.meta w ≡ l.meta w
  unfolding set_fullscreen layout_state
  set_fullscreen_again s l w geo e = ground (arith, ==_refl w)

  set_fullscreen_state :
      (s : Space) (l : LayoutManager) (w : Window) (geo : Rect)
      → layout_state (set_fullscreen d s l w geo).1 w ≡ fullscreen
  unfolding set_fullscreen layout_state
  set_fullscreen_state s l w geo = ground (arith, ==_refl w)

  refullscreen_meta :
      (l : LayoutManager) (w : Window) (more : List (Space × Rect))
      → layout_state l w ≡ fullscreen
      → (refullscreen l w more).meta w ≡ l.meta w
  unfolding refullscreen
  refullscreen_meta l w [] e = refl
  refullscreen_meta l w ((s, geo) ∷ more) e =
      refullscreen_meta (set_fullscreen d s l w geo).1 w more (set_fullscreen_state s l w geo)
      ∙ set_fullscreen_again s l w geo e

  unset_of_meta :
      (s s₁ : Space) (l l' : LayoutManager) (w : Window) (geo usable : Rect)
      → layout_state l w ≢ fullscreen
      → usable_rect_for d s₁ w ≡ some usable
      → l'.meta w ≡ (set_fullscreen d s l w geo).1.meta w
      → let (s₂, l₂) = unset_fullscreen d s₁ l' w in
        (layout_state l₂ w ≡ layout_state l w)
        × (s₂
            ≡ apply_geometry d s₁ w
                (restore_or d (tiled_rect usable (layout_state l w)) (current_rect d s w))
                (layout_state l w))
  unfolding set_fullscreen unset_fullscreen layout_state tiled_rect
  unset_of_meta s s₁ l l' w geo usable n u e = ground (arith, ==_refl w)

  -- A window that is not fullscreen, made fullscreen and asked to be so again any number of times,
  -- returns on `unset_fullscreen` to the layout that it had: a tile or maximize state at that
  -- state's rectangle in the output's usable area of the moment, and floating at the rectangle at
  -- which the first request found it.
  pub fullscreen_roundtrip :
      (s s₁ : Space) (l : LayoutManager) (w : Window) (geo usable : Rect)
      (more : List (Space × Rect))
      → layout_state l w ≢ fullscreen
      → usable_rect_for d s₁ w ≡ some usable
      → let l' = refullscreen (set_fullscreen d s l w geo).1 w more in
        let (s₂, l₂) = unset_fullscreen d s₁ l' w in
        (layout_state l₂ w ≡ layout_state l w)
        × (s₂
            ≡ apply_geometry d s₁ w
                (restore_or d (tiled_rect usable (layout_state l w)) (current_rect d s w))
                (layout_state l w))
  fullscreen_roundtrip s s₁ l w geo usable more n u =
      unset_of_meta s s₁ l _ w geo usable n u
        (refullscreen_meta _ w more (set_fullscreen_state s l w geo))
