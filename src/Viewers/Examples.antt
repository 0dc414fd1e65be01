-- ===== src/Viewers/Examples.antt =====
-- Viewers of crates/shoestring-remote-server/src/viewers.rs.
use shoestring_wm.Prelude.{◌≡◌, refl, List, [], ◌∷◌, arith}
use shoestring_wm.Viewers.{
  Event, connect, close_gate, end_session, join, reset, leave, taken_out, at_start, on_viewer_event,
  on_viewer_events,
}
use shoestring_wm.Viewers.Counted.{reported, connected, reported_viewers}

-- A session from before the gate closed ends after another has joined.
abbrev late_end : List Event
late_end = connect ∷ connect ∷ close_gate ∷ connect ∷ end_session 1 ∷ []

late_reports : (on_viewer_events late_end at_start).shared.reports ≡ 1 ∷ 0 ∷ 2 ∷ 1 ∷ []
unfolding on_viewer_events on_viewer_event join reset leave taken_out
late_reports = refl

reported_viewers_example :
    reported (on_viewer_events late_end at_start).shared.reports
    ≡ connected (on_viewer_events late_end at_start)
reported_viewers_example = reported_viewers late_end (omega arith)
