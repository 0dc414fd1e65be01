-- ===== src/Layout/Examples.antt =====
-- The theorems about src/layout.rs at concrete screens, and runs of its own tests.
use shoestring_wm.Prelude.{
  ℕ, ◌≡◌, refl, Bool, true, false, Option, none, some, [], ◌∷◌, arith, ◌==◌, if◌then◌else◌, ℤ, pos,
  negsuc, add_i32, sub_i32, quot, rem, ◌+ℤ◌, ◌-ℤ◌, ◌⊎◌, All, not, ◌&&◌,
}
use shoestring_wm.Layout.Rect.{
  Point, Rect, floating, tiled_left, maximized, tiled_rect, rect_contains,
}
use shoestring_wm.Layout.Arrange.{grid, spiral, arrange_rects, even_spans}
use shoestring_wm.Layout.Manager.{
  Window, LayoutManager, pop_live_minimized, layout_state, forget, is_minimized,
}
use shoestring_wm.Layout.Desktop.{
  Smithay, Size, xdg, set_layout, set_fullscreen, unset_fullscreen, usable_rect_for, apply_geometry,
  current_rect,
}
use shoestring_wm.Layout.Split.{FitsRect, hits}
use shoestring_wm.Layout.EvenSpans.{even_spans_even}
use shoestring_wm.Layout.Partition.{arrange_rects_partition}
use shoestring_wm.Layout.Home.{toggle, request, run, returns_home}
use shoestring_wm.Layout.Fullscreen.{fullscreen_roundtrip, refullscreen}
use shoestring_wm.Layout.Minimized.{pop_live_minimized_last, entries_of, forget_lem}

abbrev screen : Rect
screen = record { x = negsuc 99; y = pos 30; w = pos 1921; h = pos 1050 }

screen-FitsRect : FitsRect screen
screen-FitsRect = record {
  across = record {
    nonneg = omega arith;
    start = omega arith;
    size = omega arith;
    stop = unfold ◌+ℤ◌ in omega arith;
  };
  down = record {
    nonneg = omega arith;
    start = omega arith;
    size = omega arith;
    stop = unfold ◌+ℤ◌ in omega arith;
  };
}

abbrev spot : Point
spot = record { x = pos 700; y = pos 400 }

arrange_rects_partition_example : hits spot (arrange_rects screen 5 grid) ≡ 1
unfolding rect_contains add_i32 ◌+ℤ◌
arrange_rects_partition_example =
    arrange_rects_partition screen 5 grid spot screen-FitsRect (omega arith)

abbrev left_tile : Rect
left_tile = record { x = negsuc 99; y = pos 30; w = pos 960; h = pos 1050 }

abbrev right_tile : Rect
right_tile = record { x = pos 860; y = pos 30; w = pos 961; h = pos 1050 }

even_spans_even_example : All (λ (s : ℤ × ℤ). (s.1 ≡ pos 3) ⊎ (s.1 ≡ pos 4)) (even_spans (pos 10) 3)
even_spans_even_example = even_spans_even 10 3 (omega arith) (omega arith)

spans_run : even_spans (pos 10) 3 ≡ (pos 0, pos 4) ∷ (pos 4, pos 3) ∷ (pos 7, pos 3) ∷ []
unfolding even_spans add_i32 quot rem ◌+ℤ◌
spans_run = refl

-- A space of one screen with a bar 30 pixels high, where a client takes each size at once.
abbrev toy_location : Option Rect → Option Point
toy_location none = none
toy_location (some r) = some (record { x = r.x; y = r.y })

abbrev toy_size : Option Rect → Size
toy_size none = record { w = pos 0; h = pos 0 }
toy_size (some r) = record { w = r.w; h = r.h }

abbrev toy_put : (Window → Option Rect) → Window → Rect → Window → Option Rect
toy_put s w r v = if w == v then some r else s v

abbrev toy_resize : Option Rect → Size → Rect
toy_resize none z = record { x = pos 0; y = pos 0; w = z.w; h = z.h }
toy_resize (some r) z = record r { w = z.w; h = z.h }

abbrev toy_move : Option Rect → Point → Rect
toy_move none p = record { x = p.x; y = p.y; w = pos 0; h = pos 0 }
toy_move (some r) p = record r { x = p.x; y = p.y }

abbrev toy : Smithay
toy = record {
  Space = Window → Option Rect;
  Output = ℕ;
  element_location = λ s w. toy_location (s w);
  geometry_size = λ s w. toy_size (s w);
  outputs = λ s. 0 ∷ [];
  output_geometry = λ s o. some (record { x = pos 0; y = pos 0; w = pos 1920; h = pos 1080 });
  non_exclusive_zone = λ s o. record { x = pos 0; y = pos 30; w = pos 1920; h = pos 1050 };
  surface = λ s w. xdg;
  configure_xdg = λ s w z m f. toy_put s w (toy_resize (s w) z);
  configure_x11 = λ s w r m f. s;
  map_element = λ s w p. toy_put s w (toy_move (s w) p);
  elements = λ s. 7 ∷ [];
  on_output = λ s w o. true;
}

abbrev home : Rect
home = record { x = pos 200; y = pos 300; w = pos 640; h = pos 480 }

abbrev start : Window → Option Rect
start = toy_put (λ w. none) 7 home

abbrev fresh : LayoutManager
fresh = record { meta = λ w. none; minimized = [] }

-- Tile left, then maximize, then toggle the maximized state off.
abbrev after_tile : (Window → Option Rect) × LayoutManager
after_tile = request toy start fresh 7 (toggle tiled_left)

returns_home_example :
    (request toy start
      (run toy after_tile.1 ((start, 7, toggle maximized) ∷ []))
      7
      (toggle maximized)).0
    ≡ apply_geometry toy start 7 home floating
unfolding request run set_layout set_fullscreen unset_fullscreen current_rect usable_rect_for
    add_i32 quot ◌+ℤ◌ tiled_rect rect_contains layout_state
returns_home_example =
    returns_home toy start start fresh 7 (toggle tiled_left) (toggle maximized)
      ((start, 7, toggle maximized) ∷ []) tt tt refl ((λ e. cc), tt, λ e. cc) refl

fullscreen_roundtrip_example :
    layout_state
      (unset_fullscreen toy start
        (refullscreen toy (set_fullscreen toy start fresh 7 screen).1 7 ((start, screen) ∷ []))
        7).1
      7
    ≡ floating
unfolding layout_state usable_rect_for add_i32 quot rect_contains ◌+ℤ◌
fullscreen_roundtrip_example =
    (fullscreen_roundtrip toy start start fresh 7 screen
      (record { x = pos 0; y = pos 30; w = pos 1920; h = pos 1050 }) ((start, screen) ∷ [])
      (λ e. cc) refl).0

abbrev stack : LayoutManager
stack = record { meta = λ w. none; minimized = (1, home) ∷ (2, screen) ∷ (3, home) ∷ [] }

abbrev lives : Window → Bool
lives w = if w == 3 then false else true

pop_live_minimized_last_example :
    pop_live_minimized lives stack ≡ (some (2, screen), record stack { minimized = (1, home) ∷ [] })
pop_live_minimized_last_example =
    pop_live_minimized_last lives stack ((1, home) ∷ []) ((3, home) ∷ []) 2 screen refl refl
      (refl, tt)

spiral_run :
    arrange_rects (record { x = pos 0; y = pos 0; w = pos 100; h = pos 80 }) 3 spiral
    ≡ record { x = pos 0; y = pos 0; w = pos 50; h = pos 80 }
      ∷ record { x = pos 50; y = pos 0; w = pos 50; h = pos 40 }
      ∷ record { x = pos 50; y = pos 40; w = pos 50; h = pos 40 }
      ∷ []
unfolding arrange_rects add_i32 sub_i32 quot ◌+ℤ◌ ◌-ℤ◌
spiral_run = refl

forget_lem_example :
    ((forget stack 2).meta 2 ≡ none)
    × (layout_state (forget stack 2) 2 ≡ floating)
    × (is_minimized (forget stack 2) 2 ≡ false)
    × (entries_of 2 (forget stack 2).minimized ≡ [])
    × ((pop_live_minimized (λ x. true) (forget stack 2)).0
        ≡ (pop_live_minimized (λ x. not (x == 2) && true) stack).0)
forget_lem_example = forget_lem (λ x. true) stack 2 2
