-- ===== src/Notify/Examples.antt =====
-- The theorems about crates/shoestring-notify/src/state.rs at a concrete queue.
use shoestring_wm.Prelude.{
  ℕ, ◌≡◌, ◌≢◌, refl, ◌↔◌, false, none, some, List, [], ◌∷◌, arith, if◌then◌else◌, negsuc,
}
use shoestring_wm.Notify.{
  Notification, NotifyArgs, Queue, normal, new, compute_expiry, get, notify, close, drain_expired,
  is_expired, next_expiry, find_id, replace_first, remove_first, retain,
}
use shoestring_wm.Notify.Identity.{
  IsQueue, Request, notifies, closes, serve, serve_all, serve_all-IsQueue,
}
use shoestring_wm.Notify.Lookup.{Shows, IsChosen, notify_lem}
use shoestring_wm.Notify.Expiry.{is_due, has, drain_expired_lem}

abbrev asked : ℕ → NotifyArgs
asked id = record {
  app_name = 116 ∷ [];
  replaces_id = id;
  app_icon = [];
  summary = 115 ∷ [];
  body = 98 ∷ [];
  urgency = normal;
  image_path = none;
  expire_timeout = negsuc 0;
}

-- Two notifications, the first replaced, and one more that is closed.
abbrev requests : List Request
requests =
    notifies (asked 0) 5000 10
    ∷ notifies (asked 0) 9000 20
    ∷ notifies (asked 1) 6000 30
    ∷ notifies (asked 7) 6000 40
    ∷ closes 3
    ∷ []

abbrev served : Queue
served = serve_all new requests

served-ids : get served 3 ≡ none
unfolding serve_all serve notify close find_id replace_first remove_first compute_expiry
served-ids = refl

serve_all-IsQueue_example : IsQueue served
serve_all-IsQueue_example = serve_all-IsQueue requests (omega arith)

served-IsQueue : IsQueue served
served-IsQueue = serve_all-IsQueue requests (omega arith)

notify_lem_example :
    let (after, id) = notify served (asked 2) 5000 50 in
    IsChosen served (asked 2) id
    × (n : Notification) × (get after id ≡ some n)
    × Shows (asked 2) (compute_expiry normal (negsuc 0) 5000 50) n
    × ((j : ℕ) → j ≢ id → get after j ≡ get served j)
notify_lem_example = notify_lem served (asked 2) 5000 50 served-IsQueue

drain_expired_lem_example :
    let (after, expired) = drain_expired served 7000000000 in
    ((j : ℕ) → has j expired ≡ is_due 7000000000 (get served j))
    × ((j : ℕ) → get after j ≡ (if is_due 7000000000 (get served j) then none else get served j))
    × ((expired ≡ []) ↔ (is_expired 7000000000 (next_expiry served) ≡ false))
    × (is_expired 7000000000 (next_expiry after) ≡ false)
drain_expired_lem_example = drain_expired_lem served 7000000000 served-IsQueue

-- The one that was replaced expires, the other not yet.
drained : (drain_expired served 7000000000).1 ≡ 1 ∷ []
unfolding drain_expired retain serve_all serve notify close find_id replace_first remove_first
    compute_expiry
drained = refl
