-- ===== src/Layout/Desktop.antt =====
-- The layout transitions of src/layout.rs over smithay's `Space` and the window's surface, which are
-- parameters. A space is a value: `map_element` and the two `configure` calls return the next one.
use shoestring_wm.Prelude.{
  Bool, true, false, Option, none, some, List, [], ◌∷◌, if◌then◌else◌, ◌&&◌, ℤ, pos, quot, add_i32,
}
use shoestring_wm.Layout.Rect.{
  Point, Rect, LayoutState, floating, tiled_left, tiled_right, maximized, fullscreen, tiled_rect,
  rect_contains,
}
use shoestring_wm.Layout.Arrange.{ArrangeKind, arrange_rects}
use shoestring_wm.Layout.Manager.{
  Window, WindowMeta, LayoutManager, default_meta, entry, set_meta, layout_state,
}
use shoestring_wm.Prelude.{length}

-- The surface behind a window: a Wayland toplevel, an X11 one, or neither.
pub data Surface : Type 0 where
  xdg x11 bare : Surface

pub record Size : Type 0 where
  pub w : ℤ
  pub h : ℤ

-- What src/layout.rs calls: the space's queries, the layer map's free zone, and the calls that
-- reconfigure a window. The flags are the maximized and the fullscreen state.
pub record Smithay : Type 1 where
  pub Space : Type 0
  pub Output : Type 0
  pub element_location : Space → Window → Option Point
  pub geometry_size : Space → Window → Size
  pub outputs : Space → List Output
  pub output_geometry : Space → Output → Option Rect
  pub non_exclusive_zone : Space → Output → Rect
  pub surface : Space → Window → Surface
  pub configure_xdg : Space → Window → Size → Bool → Bool → Space
  pub configure_x11 : Space → Window → Rect → Bool → Bool → Space
  pub map_element : Space → Window → Point → Space
  pub elements : Space → List Window
  -- Whether an element overlaps an output.
  pub on_output : Space → Window → Output → Bool

abbrev pub state_eq : LayoutState → LayoutState → Bool
state_eq floating floating = true
state_eq tiled_left tiled_left = true
state_eq tiled_right tiled_right = true
state_eq maximized maximized = true
state_eq fullscreen fullscreen = true
state_eq _ _ = false

-- A free zone in the output's coordinates, shifted into the space's.
abbrev pub shifted : Option Rect → Rect → Option Rect
shifted none zone = none
shifted (some geo) zone = some (record zone { x = add_i32 geo.x zone.x; y = add_i32 geo.y zone.y })

module _ (d : Smithay) where
  open d use {
    Space, Output, element_location, geometry_size, outputs, output_geometry, non_exclusive_zone,
    surface, configure_xdg, configure_x11, map_element, elements, on_output,
  }

  abbrev pub center_in : Point → Option Rect → Bool
  center_in c none = false
  center_in c (some geo) = rect_contains geo c

  -- `space.outputs().find(..)`.
  unfoldable pub find_output : Space → Point → List Output → Option Output
  find_output s c [] = none
  find_output s c (o ∷ os) =
      if center_in c (output_geometry s o) then some o else find_output s c os

  abbrev pub first_output : List Output → Option Output
  first_output [] = none
  first_output (o ∷ os) = some o

  abbrev pub or_else : Option Output → Option Output → Option Output
  or_else none b = b
  or_else (some a) b = some a

  unfoldable pub output_at : Space → Window → Option Point → Option Output
  unfolding find_output
  output_at s w none = first_output (outputs s)
  output_at s w (some loc) =
      let size = geometry_size s w in
      let center : Point = record {
        x = add_i32 loc.x (quot size.w 2);
        y = add_i32 loc.y (quot size.h 2);
      } in
      or_else (find_output s center (outputs s)) (first_output (outputs s))

  unfoldable pub output_under : Space → Window → Option Output
  unfolding output_at
  output_under s w = output_at s w (element_location s w)

  abbrev pub usable_on : Space → Option Output → Option Rect
  usable_on s none = none
  usable_on s (some o) = shifted (output_geometry s o) (non_exclusive_zone s o)

  unfoldable pub usable_rect_for : Space → Window → Option Rect
  unfolding output_under
  usable_rect_for s w = usable_on s (output_under s w)

  abbrev pub geometry_on : Space → Option Output → Option Rect
  geometry_on s none = none
  geometry_on s (some o) = output_geometry s o

  unfoldable pub output_rect_for : Space → Window → Option Rect
  unfolding output_under
  output_rect_for s w = geometry_on s (output_under s w)

  abbrev pub or_origin : Option Point → Point
  or_origin none = record { x = pos 0; y = pos 0 }
  or_origin (some p) = p

  unfoldable pub current_rect : Space → Window → Rect
  current_rect s w =
      let loc = or_origin (element_location s w) in
      let size = geometry_size s w in record { x = loc.x; y = loc.y; w = size.w; h = size.h }

  -- `apply_geometry`, up to the call of `map_element`.
  abbrev pub configure : Space → Window → Rect → LayoutState → Surface → Space
  configure s w r state xdg =
      configure_xdg s w (record { w = r.w; h = r.h }) (state_eq state maximized)
        (state_eq state fullscreen)
  configure s w r state x11 =
      configure_x11 s w r (state_eq state maximized) (state_eq state fullscreen)
  configure s w r state bare = s

  unfoldable pub apply_geometry : Space → Window → Rect → LayoutState → Space
  apply_geometry s w r state =
      map_element (configure s w r state (surface s w)) w (record { x = r.x; y = r.y })

  -- The loop of `arrange`.
  unfoldable pub arrange_windows :
      Space → LayoutManager → List Window → List Rect → Space × LayoutManager
  arrange_windows s l [] rects = (s, l)
  arrange_windows s l (w ∷ ws) [] = (s, l)
  arrange_windows s l (w ∷ ws) (r ∷ rs) =
      arrange_windows (apply_geometry s w r floating) (set_meta l w (some default_meta)) ws rs

  unfoldable pub arrange :
      Space → LayoutManager → List Window → Rect → ArrangeKind → Space × LayoutManager
  unfolding arrange_windows
  arrange s l ws usable kind = arrange_windows s l ws (arrange_rects usable (length ws) kind)

  -- `saved_rect.take().unwrap_or(current)`, and the rest of the toggle that goes back to floating.
  abbrev pub restore_or : Option Rect → Rect → Rect
  restore_or none current = current
  restore_or (some r) current = r

  -- The end of `set_layout`, which returns early where the target has no rectangle.
  abbrev pub apply_if : Space → Window → LayoutState → Option Rect → Space
  apply_if s w target none = s
  apply_if s w target (some r) = apply_geometry s w r target

  -- `if meta.layout == Floating { meta.saved_rect = Some(current) }`.
  abbrev pub save_floating : LayoutState → Rect → Option Rect → Option Rect
  save_floating layout current saved = if state_eq layout floating then some current else saved

  pub set_layout_in :
      Space → LayoutManager → Window → LayoutState → Option Rect → Space × LayoutManager
  set_layout_in s l w target none = (s, l)
  set_layout_in s l w target (some usable) =
      let current = current_rect s w in
      let m = entry l w in
      let back = record m { layout = floating; saved_rect = none } in
      let tiled = record m {
        layout = target;
        saved_rect = save_floating m.layout current m.saved_rect;
      } in
      if state_eq m.layout target
      then (apply_geometry s w (restore_or m.saved_rect current) floating, set_meta l w (some back))
      else (apply_if s w target (tiled_rect usable target), set_meta l w (some tiled))

  unfoldable pub set_layout : Space → LayoutManager → Window → LayoutState → Space × LayoutManager
  unfolding set_layout_in
  set_layout s l w target = set_layout_in s l w target (usable_rect_for s w)

  unfoldable pub set_fullscreen : Space → LayoutManager → Window → Rect → Space × LayoutManager
  set_fullscreen s l w output_geo =
      let current = current_rect s w in
      let m = entry l w in
      let entered = record m {
        layout = fullscreen;
        saved_rect = save_floating m.layout current m.saved_rect;
        pre_fullscreen = some m.layout;
      } in
      (
        apply_geometry s w output_geo fullscreen,
        set_meta l w (some (if state_eq m.layout fullscreen then m else entered)),
      )

  abbrev pub or_floating : Option LayoutState → LayoutState
  or_floating none = floating
  or_floating (some p) = p

  -- The last `match` of `unset_fullscreen`.
  abbrev pub leave_to :
      Space
      → LayoutManager
      → Window
      → WindowMeta
      → LayoutState
      → Option Rect
      → Space × LayoutManager
  leave_to s l w m prev (some r) = (
    apply_geometry s w r prev,
    set_meta l w (some (record m { layout = prev; pre_fullscreen = none })),
  )
  leave_to s l w m prev none = (
    apply_geometry s w (restore_or m.saved_rect (current_rect s w)) floating,
    set_meta l w (some (record { layout = floating; saved_rect = none; pre_fullscreen = none })),
  )

  pub unset_fullscreen_in : Space → LayoutManager → Window → Option Rect → Space × LayoutManager
  unset_fullscreen_in s l w none = (s, l)
  unset_fullscreen_in s l w (some usable) =
      let m = entry l w in
      let prev = or_floating m.pre_fullscreen in leave_to s l w m prev (tiled_rect usable prev)

  unfoldable pub unset_fullscreen : Space → LayoutManager → Window → Space × LayoutManager
  unfolding unset_fullscreen_in
  unset_fullscreen s l w =
      if state_eq (layout_state l w) fullscreen
      then unset_fullscreen_in s l w (usable_rect_for s w)
      else (s, l)

  -- The search of `fullscreen_window_on`.
  pub find_fullscreen : Space → LayoutManager → Output → List Window → Option Window
  find_fullscreen s l o [] = none
  find_fullscreen s l o (w ∷ ws) =
      if state_eq (layout_state l w) fullscreen && on_output s w o
      then some w
      else find_fullscreen s l o ws

  unfoldable pub fullscreen_window_on : Space → LayoutManager → Output → Option Window
  unfolding find_fullscreen
  fullscreen_window_on s l o = find_fullscreen s l o (elements s)
