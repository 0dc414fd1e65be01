-- ===== src/Workspace/Examples.antt =====
-- The theorems about src/workspace.rs at a concrete manager.
use shoestring_wm.Prelude.{◌≡◌, refl, Bool, some, ltb, arith}
use shoestring_wm.Workspace.{Window, new, record_focus, forget, last_focused}
use shoestring_wm.Workspace.Focus.{forget_returns}

abbrev responds : Window → Bool
responds w = ltb w 10

forget_returns_example :
    (last_focused responds (forget (record_focus (record_focus (new 3) 2 4) 2 12) 12) 2).1 ≡ some 4
forget_returns_example = forget_returns responds (new 3) 2 4 12 (omega arith) (omega arith) refl
