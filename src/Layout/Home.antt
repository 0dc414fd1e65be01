-- ===== src/Layout/Home.antt =====
-- Where a window goes back to. The transitions of src/layout.rs keep a window's floating rectangle
-- from the moment that it leaves floating until it returns.
use shoestring_wm.Prelude.{
  ◌≡◌, some, List, [], ◌∷◌, arith, ◌≢◌, ◌⊎◌, inl, inr, ◌==◌, ==_refl, ==_iff, Bool-cases,
}
use shoestring_wm.Layout.Rect.{
  Rect, LayoutState, floating, tiled_left, tiled_right, maximized, fullscreen, tiled_rect,
}
use shoestring_wm.Layout.Manager.{Window, LayoutManager, entry, layout_state}
use shoestring_wm.Layout.Desktop.{
  Smithay, apply_geometry, current_rect, set_layout, set_fullscreen, unset_fullscreen,
}

-- The requests that change one window's layout.
pub data Request : Type 0 where
  toggle : LayoutState → Request
  enter_fullscreen : Rect → Request
  leave_fullscreen : Request

-- `set_layout` is only called for a tile or maximize state, as its debug assertion says.
abbrev pub IsRequest : Request → Type 0
IsRequest (toggle tiled_left) = Unit
IsRequest (toggle tiled_right) = Unit
IsRequest (toggle maximized) = Unit
IsRequest (toggle floating) = ⊥
IsRequest (toggle fullscreen) = ⊥
IsRequest _ = Unit

module _ (d : Smithay) where
  open d use {Space}

  unfoldable pub request : Space → LayoutManager → Window → Request → Space × LayoutManager
  request s l w (toggle target) = set_layout d s l w target
  request s l w (enter_fullscreen geo) = set_fullscreen d s l w geo
  request s l w leave_fullscreen = unset_fullscreen d s l w

  -- A window away from floating keeps its rectangle, or goes back to it.
  pub request_away :
      (s : Space) (l : LayoutManager) (w : Window) (q : Request) (r : Rect)
      → IsRequest q
      → layout_state l w ≢ floating
      → (entry l w).saved_rect ≡ some r
      → let (s', l') = request s l w q in
        ((layout_state l' w ≢ floating) × ((entry l' w).saved_rect ≡ some r))
        ⊎ ((layout_state l' w ≡ floating) × (s' ≡ apply_geometry d s w r floating))
  unfolding request set_layout set_fullscreen unset_fullscreen tiled_rect layout_state
  request_away s l w (toggle tiled_left) r q a e = ground (arith, ==_refl w)
  request_away s l w (toggle tiled_right) r q a e = ground (arith, ==_refl w)
  request_away s l w (toggle maximized) r q a e = ground (arith, ==_refl w)
  request_away s l w (toggle floating) r q a e = absurd q
  request_away s l w (toggle fullscreen) r q a e = absurd q
  request_away s l w (enter_fullscreen geo) r q a e = ground (arith, ==_refl w)
  request_away s l w leave_fullscreen r q a e = ground (arith, ==_refl w)

  -- A floating window that leaves has its rectangle saved; otherwise nothing happens to it.
  pub request_floating :
      (s : Space) (l : LayoutManager) (w : Window) (q : Request)
      → IsRequest q
      → layout_state l w ≡ floating
      → let (s', l') = request s l w q in
        ((layout_state l' w ≡ floating) × (s' ≡ s))
        ⊎ ((layout_state l' w ≢ floating) × ((entry l' w).saved_rect ≡ some (current_rect d s w)))
  unfolding request set_layout set_fullscreen unset_fullscreen tiled_rect layout_state
  request_floating s l w (toggle tiled_left) q a = ground (arith, ==_refl w)
  request_floating s l w (toggle tiled_right) q a = ground (arith, ==_refl w)
  request_floating s l w (toggle maximized) q a = ground (arith, ==_refl w)
  request_floating s l w (toggle floating) q a = absurd q
  request_floating s l w (toggle fullscreen) q a = absurd q
  request_floating s l w (enter_fullscreen geo) q a = ground (arith, ==_refl w)
  request_floating s l w leave_fullscreen q a = ground (arith, ==_refl w)

  -- A request leaves the other windows' entries alone.
  pub request_other :
      (s : Space) (l : LayoutManager) (v w : Window) (q : Request)
      → v ≢ w
      → (request s l v q).1.meta w ≡ l.meta w
  unfolding request set_layout set_fullscreen unset_fullscreen
  request_other s l v w (toggle target) n = ground arith
  request_other s l v w (enter_fullscreen geo) n = ground arith
  request_other s l v w leave_fullscreen n = ground arith

  -- A history: each request finds the space as the clients and the user have left it.
  unfoldable pub run : LayoutManager → List (Space × Window × Request) → LayoutManager
  unfolding request
  run l [] = l
  run l ((s, v, q) ∷ hs) = run (request s l v q).1 hs

  -- The window is away from floating before each request of a history and after the last.
  abbrev pub IsAway : LayoutManager → Window → List (Space × Window × Request) → Type 0
  IsAway l w [] = layout_state l w ≢ floating
  IsAway l w ((s, v, q) ∷ hs) =
      (layout_state l w ≢ floating) × IsRequest q × IsAway (request s l v q).1 w hs

  away_here :
      (l : LayoutManager) (w : Window) (hs : List (Space × Window × Request))
      → IsAway l w hs
      → layout_state l w ≢ floating
  away_here l w [] a = a
  away_here l w ((s, v, q) ∷ hs) a = a.0

  away_step :
      (s : Space) (l : LayoutManager) (v w : Window) (q : Request) (r : Rect)
      → IsRequest q
      → layout_state l w ≢ floating
      → layout_state (request s l v q).1 w ≢ floating
      → (entry l w).saved_rect ≡ some r
      → (entry (request s l v q).1 w).saved_rect ≡ some r
  away_step s l v w q r ok before after e = elim (Bool-cases (v == w)) [
    | inl same ↦
        let m : v ≡ w = (==_iff v w).0 same in
        elim (request_away s l w q r ok before e) [
          | inl (_, kept) ↦ rw m kept
          | inr (home, _) ↦ absurd (after (rw m home))
        ]
    | inr other ↦ rw (request_other s l v w q (λ m. cc (==_refl w))) e
  ]

  run_away :
      (l : LayoutManager) (w : Window) (hs : List (Space × Window × Request)) (r : Rect)
      → IsAway l w hs
      → (entry l w).saved_rect ≡ some r
      → (layout_state (run l hs) w ≢ floating) × ((entry (run l hs) w).saved_rect ≡ some r)
  unfolding run
  run_away l w [] r a e = (a, e)
  run_away l w ((s, v, q) ∷ hs) r a e =
      run_away (request s l v q).1 w hs r a.2
        (away_step s l v w q r a.1 a.0 (away_here _ w hs a.2) e)

  -- A floating window that a request takes away, and that any requests for it or for other windows
  -- then keep away, goes back to the rectangle it left: the request that makes it floating again
  -- applies that rectangle, whatever became of the space in between.
  pub returns_home :
      (s₀ s : Space) (l : LayoutManager) (w : Window) (q₀ q : Request)
      (hs : List (Space × Window × Request))
      → IsRequest q₀
      → IsRequest q
      → layout_state l w ≡ floating
      → IsAway (request s₀ l w q₀).1 w hs
      → let l' = run (request s₀ l w q₀).1 hs in
        layout_state (request s l' w q).1 w ≡ floating
        → (request s l' w q).0 ≡ apply_geometry d s w (current_rect d s₀ w) floating
  returns_home s₀ s l w q₀ q hs ok₀ ok start away home =
      elim (request_floating s₀ l w q₀ ok₀ start) [
        | inl (still, _) ↦ absurd (away_here _ w hs away still)
        | inr (_, saved) ↦
            let (gone, kept) = run_away _ w hs _ away saved in
            elim (request_away s _ w q _ ok gone kept) [
              | inl (not_home, _) ↦ absurd (not_home home)
              | inr (_, applied) ↦ applied
            ]
      ]
