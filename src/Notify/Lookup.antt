-- ===== src/Notify/Lookup.antt =====
-- What the operations of crates/shoestring-notify/src/state.rs leave of the queue, by id.
use shoestring_wm.Prelude.{
  ℕ, ◌<◌, ◌≡◌, ◌≢◌, refl, ◌==◌, Bool, true, false, Option, none, some, List, [], ◌∷◌, arith,
  if◌then◌else◌, All, Bool-cases, ◌⊎◌, inl, inr, ◌↔◌,
}
use shoestring_wm.Notify.{
  Notification, NotifyArgs, Queue, compute_expiry, find_id, get, overwritten, made, notify_into,
  slot_for, notify, remove_first, close,
}
use shoestring_wm.Notify.Identity.{
  IsQueue, Distinct, find_id-fresh, find_id-replace_first, find_id-append, find_id-id,
}

-- The notification says what was asked for and expires then.
pub record Shows (args : NotifyArgs) (e : Option ℕ) (n : Notification) : Type 0 where
  pub app_name : n.app_name ≡ args.app_name
  pub app_icon : n.app_icon ≡ args.app_icon
  pub summary : n.summary ≡ args.summary
  pub body : n.body ≡ args.body
  pub urgency : n.urgency ≡ args.urgency
  pub image_path : n.image_path ≡ args.image_path
  pub expires_at : n.expires_at ≡ e

-- The id is the one to be replaced if that is live, and otherwise one that nothing had.
unfoldable pub IsChosen : Queue → NotifyArgs → ℕ → Type 0
IsChosen q args id =
    ((0 < args.replaces_id) × (id ≡ args.replaces_id) × (get q id ≢ none))
    ⊎ (((args.replaces_id ≡ 0) ⊎ (get q args.replaces_id ≡ none)) × (get q id ≡ none))

slot_for-some :
    (q : Queue) (id : ℕ) (slot : Notification)
    → slot_for q id ≡ some slot
    → (0 < id) × (get q id ≡ some slot)
slot_for-some q id slot h = ground (arith, h)

slot_for-none : (q : Queue) (id : ℕ) → slot_for q id ≡ none → (id ≡ 0) ⊎ (get q id ≡ none)
slot_for-none q id h = elim (Bool-cases (id == 0)) [
  | inl zeroth ↦ inl (ground (arith, zeroth))
  | inr other ↦ inr (ground (arith, other, h))
]

notify_into_lem :
    (q : Queue) (args : NotifyArgs) (e : Option ℕ) (slot : Option Notification)
    → IsQueue q
    → slot_for q args.replaces_id ≡ slot
    → let (after, id) = notify_into q args e slot in
      IsChosen q args id
      × (n : Notification) × (get after id ≡ some n)
      × Shows args e n
      × ((j : ℕ) → j ≢ id → get after j ≡ get q j)
unfolding IsChosen
notify_into_lem q args e (some slot) w h =
    let live = slot_for-some q args.replaces_id slot h in
    let named = find_id-id args.replaces_id q.items slot live.1 in
    (
      inl (ground (arith, live, named), named, ground (arith, live, named)),
      overwritten args e slot,
      ground
          (arith, named, find_id-replace_first args.replaces_id slot.id args e q.items slot live.1),
      record {
        app_name = refl;
        app_icon = refl;
        summary = refl;
        body = refl;
        urgency = refl;
        image_path = refl;
        expires_at = refl;
      },
      λ j other. ground (
        arith,
        other,
        named,
        find_id-replace_first args.replaces_id j args e q.items slot live.1,
      ),
    )
notify_into_lem q args e none w h =
    let unused = find_id-fresh q.items q.next_id w.issued in
    (
      inr (slot_for-none q args.replaces_id h, unused),
      made q.next_id args e,
      ground (arith, find_id-append q.next_id q.items (made q.next_id args e) unused),
      record {
        app_name = refl;
        app_icon = refl;
        summary = refl;
        body = refl;
        urgency = refl;
        image_path = refl;
        expires_at = refl;
      },
      λ j other. ground (arith, other, find_id-append j q.items (made q.next_id args e) unused),
    )

-- A notification is shown under the id that `notify` returns, with what its sender asked for: in
-- place of the one it replaces, if that is live, and otherwise under an id that no live one had. The
-- others stay as they were.
pub notify_lem :
    (q : Queue) (args : NotifyArgs) (default_ms now : ℕ)
    → IsQueue q
    → let (after, id) = notify q args default_ms now in
      IsChosen q args id
      × (n : Notification) × (get after id ≡ some n)
      × Shows args (compute_expiry args.urgency args.expire_timeout default_ms now) n
      × ((j : ℕ) → j ≢ id → get after j ≡ get q j)
unfolding notify
notify_lem q args default_ms now w =
    notify_into_lem q args (compute_expiry args.urgency args.expire_timeout default_ms now)
      (slot_for q args.replaces_id) w refl

abbrev is_live : Option Notification → Bool
is_live none = false
is_live (some n) = true

pub find_id-gone :
    (id : ℕ) (ns : List Notification) → All (λ m. m.id ≢ id) ns → find_id id ns ≡ none
unfolding find_id
find_id-gone id [] a = refl
find_id-gone id (n ∷ ns) a = ground (arith, a.0, find_id-gone id ns a.1)

find_id-remove_first :
    (id j : ℕ) (ns : List Notification)
    → Distinct ns
    → find_id j (remove_first id ns).0 ≡ (if j == id then none else find_id j ns)
unfolding find_id remove_first
find_id-remove_first id j [] d = ground arith
find_id-remove_first id j (n ∷ ns) d =
    ground (arith, find_id-remove_first id j ns d.1, find_id-gone n.id ns d.0)

removed_lem : (id : ℕ) (ns : List Notification) → (remove_first id ns).1 ≡ is_live (find_id id ns)
unfolding find_id remove_first
removed_lem id [] = refl
removed_lem id (n ∷ ns) = ground (arith, removed_lem id ns)

-- Closing an id says whether it was live; it no longer is, and the others stay as they were.
pub close_lem :
    (q : Queue) (id : ℕ)
    → IsQueue q
    → let (after, removed) = close q id in
      ((removed ≡ true) ↔ (get q id ≢ none))
      × (get after id ≡ none)
      × ((j : ℕ) → j ≢ id → get after j ≡ get q j)
unfolding close
close_lem q id w = (
  ground (arith, removed_lem id q.items),
  ground (arith, find_id-remove_first id id q.items w.distinct),
  λ j other. ground (arith, find_id-remove_first id j q.items w.distinct, other),
)
