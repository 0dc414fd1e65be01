-- ===== src/Maze/Solving.antt =====
-- What the solver of crates/shoestring-lock/src/maze.rs keeps true.
use shoestring_wm.Prelude.{
  ℕ, ◌+◌, ◌*◌, ◌≤◌, ◌≡◌, ◌≢◌, refl, ap, sym, subst, ◌∙◌, ◌⊎◌, inl, inr, Bool, true, false, not,
  none, some, List, [], ◌∷◌, arith, if◌then◌else◌, length, length-set, All, Bool-cases, to_nat,
}
use shoestring_wm.Maze.Array.{total, total-set}
use shoestring_wm.Maze.Grid.{
  Cell, Dir, Walls, all_walls, stands, beside, has_beside, beside-IsCell, IsCell, look, put,
  look-put, idx, same, same_self, eq_of_same,
}
use shoestring_wm.Maze.Walls.{has_place}
use shoestring_wm.Maze.Invariant.{On}
use shoestring_wm.Maze.Solve.{
  CellState, untouched, live, dead, Solver, is_untouched, is_nil, head, go_on,
}

abbrev first_or : Cell → List Cell → Cell
first_or d [] = d
first_or d (c ∷ cs) = c

ended_empty :
    (rest : List Cell) (b : Bool) → b ≡ false → (if is_nil rest then true else b) ≡ true → rest ≡ []
ended_empty [] b h e = refl
ended_empty (c ∷ rest) b h e = absurd (cc (h, e))

going_on : (rest : List Cell) (b : Bool) → (if is_nil rest then true else b) ≡ false → rest ≢ []
going_on [] b h e = absurd (cc h)
going_on (c ∷ rest) b h e = absurd (cc e)

to_nat-le : (b : Bool) → to_nat b ≤ 1
to_nat-le true = omega arith
to_nat-le false = omega arith

module _ (width height : ℕ) (target : Cell) (smart : Bool) (cells : List Walls) (start : Cell)
    (hs : IsCell width height start) where
  abbrev pub touched : List CellState → Cell → Bool
  touched state c = not (is_untouched (look width state untouched c))

  -- The stack is the way back to the start, through no wall.
  abbrev pub IsTrail : List Cell → Type 0
  IsTrail [] = Unit
  IsTrail (c ∷ []) = c ≡ start
  IsTrail (c ∷ b ∷ rest) =
      (d : Dir) × (has_beside width height b d ≡ true)
      × (stands d (look width cells all_walls b) ≡ false)
      × (c ≡ beside b d)
      × IsTrail (b ∷ rest)

  pub record IsSolving (s : Solver) : Type 0 where
    pub size : length s.state ≡ width * height
    pub stacked : All (λ c. IsCell width height c × (touched s.state c ≡ true)) s.stack
    pub trail : IsTrail s.stack
    pub source : touched s.state start ≡ true
    -- Off the stack, a cell is not the target and nothing beside it is left to touch.
    pub closed :
        (j : Cell)
        → IsCell width height j
        → touched s.state j ≡ true
        → On j s.stack
          ⊎ ((j ≢ target)
              × ((e : Dir)
                  → has_beside width height j e ≡ true
                  → stands e (look width cells all_walls j) ≡ false
                  → touched s.state (beside j e) ≡ true))
    pub ended : s.finished ≡ true → (s.stack ≡ []) ⊎ (head s.stack ≡ some target)
    pub going : s.finished ≡ false → s.stack ≢ []

  abbrev pub count_untouched : List CellState → ℕ
  count_untouched state = total (λ t. to_nat (is_untouched t)) state

  abbrev pub work : Solver → ℕ
  work s = 2 * count_untouched s.state + length s.stack + to_nat (not s.finished)

  touched-put :
      (state : List CellState) (c j : Cell) (v : CellState)
      → length state ≡ width * height
      → IsCell width height c
      → IsCell width height j
      → touched (put width state c v) j
        ≡ (if same j c then not (is_untouched v) else touched state j)
  touched-put state c j v size hc hj = elim (Bool-cases (same j c)) [
    | inl there ↦
        ap (λ t. not (is_untouched t))
          (look-put width height state c j v untouched size hc hj
            ∙ ap (λ b. if b then v else look width state untouched j) there)
        ∙ sym (ap (λ b. if b then not (is_untouched v) else touched state j) there)
    | inr elsewhere ↦
        ap (λ t. not (is_untouched t))
          (look-put width height state c j v untouched size hc hj
            ∙ ap (λ b. if b then v else look width state untouched j) elsewhere)
        ∙ sym (ap (λ b. if b then not (is_untouched v) else touched state j) elsewhere)
  ]

  -- A write that touches a cell leaves the touched cells touched.
  still_touched :
      (state : List CellState) (c j : Cell) (v : CellState)
      → length state ≡ width * height
      → IsCell width height c
      → IsCell width height j
      → is_untouched v ≡ false
      → touched state j ≡ true
      → touched (put width state c v) j ≡ true
  still_touched state c j v size hc hj hv h =
      touched-put state c j v size hc hj ∙ elim (Bool-cases (same j c)) [
        | inl there ↦
            ap (λ b. if b then not (is_untouched v) else touched state j) there ∙ ap not hv
        | inr elsewhere ↦
            ap (λ b. if b then not (is_untouched v) else touched state j) elsewhere ∙ h
      ]

  still_stacked :
      (state : List CellState) (c : Cell) (v : CellState) (js : List Cell)
      → length state ≡ width * height
      → IsCell width height c
      → is_untouched v ≡ false
      → All (λ j. IsCell width height j × (touched state j ≡ true)) js
      → All (λ j. IsCell width height j × (touched (put width state c v) j ≡ true)) js
  still_stacked state c v [] size hc hv a = tt
  still_stacked state c v (j ∷ js) size hc hv a = (
    (a.0.0, still_touched state c j v size hc a.0.0 hv a.0.1),
    still_stacked state c v js size hc hv a.1,
  )

  -- Only the cell that is written to becomes touched.
  was_touched :
      (state : List CellState) (c j : Cell) (v : CellState)
      → length state ≡ width * height
      → IsCell width height c
      → IsCell width height j
      → same j c ≡ false
      → touched (put width state c v) j ≡ true
      → touched state j ≡ true
  was_touched state c j v size hc hj elsewhere h =
      sym (ap (λ b. if b then not (is_untouched v) else touched state j) elsewhere)
      ∙ sym (touched-put state c j v size hc hj)
      ∙ h

  IsTrail-cons :
      (c : Cell) (d : Dir) (stack rest : List Cell)
      → stack ≡ c ∷ rest
      → has_beside width height c d ≡ true
      → stands d (look width cells all_walls c) ≡ false
      → IsTrail stack
      → IsTrail (beside c d ∷ stack)
  IsTrail-cons c d [] rest e has gone t = absurd (cc e)
  IsTrail-cons c d (b ∷ bs) rest e has gone t =
      let same_top : b ≡ c = ap (first_or c) e in
      (
        d,
        subst (λ x. has_beside width height x d ≡ true) (sym same_top) has,
        subst (λ x. stands d (look width cells all_walls x) ≡ false) (sym same_top) gone,
        ap (λ x. beside x d) (sym same_top),
        t,
      )

  IsTrail-tail : (c : Cell) (rest : List Cell) → IsTrail (c ∷ rest) → IsTrail rest
  IsTrail-tail c [] t = tt
  IsTrail-tail c (b ∷ rest) t = t.4

  module _ (s : Solver) (c : Cell) (rest : List Cell) (is : s.stack ≡ c ∷ rest) (inv : IsSolving s)
      (running : s.finished ≡ false) (apart : same c target ≡ false) where
    top : IsCell width height c × (touched s.state c ≡ true)
    top = (subst (All (λ j. IsCell width height j × (touched s.state j ≡ true))) is inv.stacked).0

    pub advance-IsSolving :
        (d : Dir)
        → has_beside width height c d ≡ true
        → stands d (look width cells all_walls c) ≡ false
        → is_untouched (look width s.state untouched (beside c d)) ≡ true
        → IsSolving (go_on width height target smart s c rest (some d)).0
          × (work (go_on width height target smart s c rest (some d)).0 + 1 ≡ work s)
    unfolding go_on
    advance-IsSolving d has gone fresh =
        let n : Cell = beside c d in
        let hn = beside-IsCell width height c d top.0 has in
        let entered =
          touched-put s.state n n live inv.size hn hn
          ∙ ap (λ b. if b then true else touched s.state n) (same_self n) in
        (
          record {
            size = length-set s.state (idx width n) live ∙ inv.size;
            stacked =
                ((hn, entered), still_stacked s.state n live s.stack inv.size hn refl inv.stacked);
            trail = IsTrail-cons c d s.stack rest is has gone inv.trail;
            source = still_touched s.state n start live inv.size hn hs refl inv.source;
            closed = λ j hj v. elim (Bool-cases (same j n)) [
              | inl there ↦ inl (inl (eq_of_same j n there))
              | inr elsewhere ↦
                  elim (inv.closed j hj (was_touched s.state n j live inv.size hn hj elsewhere v)) [
                    | inl on ↦ inl (inr on)
                    | inr (other, done) ↦ inr (
                      other,
                      λ e he open_wall.
                          still_touched s.state n (beside j e) live inv.size hn
                            (beside-IsCell width height j e hj he) refl (done e he open_wall),
                    )
                  ]
            ];
            ended = λ h. absurd (cc (running, h));
            going = λ h e. absurd (cc e);
          },
          omega (
            arith,
            total-set (λ t. to_nat (is_untouched t)) s.state (idx width n) live untouched
                (has_place width height s.state n inv.size hn),
            ap to_nat fresh,
          ),
        )

    pub retreat-IsSolving :
        ((d : Dir)
          → stands d (look width cells all_walls c) ≡ false
          → has_beside width height c d ≡ true
          → is_untouched (look width s.state untouched (beside c d)) ≡ false)
        → IsSolving (go_on width height target smart s c rest none).0
          × (work (go_on width height target smart s c rest none).0 + 1 ≤ work s)
    unfolding go_on
    retreat-IsSolving stuck =
        let hc = top.0 in
        (
          record {
            size = length-set s.state (idx width c) dead ∙ inv.size;
            stacked =
                still_stacked s.state c dead rest inv.size hc refl
                  (subst (All (λ j. IsCell width height j × (touched s.state j ≡ true))) is
                    inv.stacked).1;
            trail = IsTrail-tail c rest (subst IsTrail is inv.trail);
            source = still_touched s.state c start dead inv.size hc hs refl inv.source;
            closed = λ j hj v.
                let still = λ (x : Cell). λ (hx : IsCell width height x).
                  still_touched s.state c x dead inv.size hc hx refl in
                elim (inv.closed j hj (before j hj v)) [
                  | inl on ↦ elim (subst (On j) is on) [
                    | inl is_c ↦ inr (
                      λ at_target. absurd (
                          cc (
                            apart,
                            ap (λ x. same x target) (sym is_c ∙ at_target),
                            same_self target,
                          )),
                      λ e he open_wall.
                          still (beside j e) (beside-IsCell width height j e hj he)
                            (left_none j is_c e he open_wall),
                    )
                    | inr below ↦ inl below
                  ]
                  | inr (other, done) ↦ inr (
                    other,
                    λ e he open_wall.
                        still (beside j e) (beside-IsCell width height j e hj he)
                          (done e he open_wall),
                  )
                ];
            ended = λ h. inl (ended_empty rest s.finished running h);
            going = going_on rest s.finished;
          },
          omega (
            arith,
            total-set (λ t. to_nat (is_untouched t)) s.state (idx width c) dead untouched
                (has_place width height s.state c inv.size hc),
            ap to_nat running,
            ap (λ b. to_nat (not b)) running,
            to_nat-le (not (if is_nil rest then true else s.finished)),
            ap length is,
          ),
        )
      where
        before :
            (j : Cell)
            → IsCell width height j
            → touched (put width s.state c dead) j ≡ true
            → touched s.state j ≡ true
        before j hj v = elim (Bool-cases (same j c)) [
          | inl there ↦ ap (touched s.state) (eq_of_same j c there) ∙ top.1
          | inr elsewhere ↦ was_touched s.state c j dead inv.size top.0 hj elsewhere v
        ]

        left_none :
            (j : Cell)
            → j ≡ c
            → (e : Dir) → has_beside width height j e ≡ true
            → stands e (look width cells all_walls j) ≡ false
            → touched s.state (beside j e) ≡ true
        left_none j is_c e he open_wall =
            ap (λ x. touched s.state (beside x e)) is_c
            ∙ ap not (
                stuck e (ap (λ x. stands e (look width cells all_walls x)) (sym is_c) ∙ open_wall)
                  (ap (λ x. has_beside width height x e) (sym is_c) ∙ he))
