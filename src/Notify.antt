-- ===== src/Notify.antt =====
-- crates/shoestring-notify/src/state.rs: the queue of notifications. A text is the list of its bytes,
-- an image path too, and an Instant the nanoseconds since some start of the clock.
use shoestring_wm.Prelude.{
  ℕ, zero, suc, ◌+◌, ◌*◌, ◌==◌, Bool, true, false, Option, none, some, List, [], ◌∷◌, ◌++◌,
  if◌then◌else◌, leb, ltb, ℤ, pos, negsuc, u64,
}
pub mod Identity
pub mod Lookup
pub mod Expiry
mod Examples

abbrev pub Text : Type 0
Text = List ℕ

pub data Urgency : Type 0 where
  low normal critical : Urgency

abbrev pub urgency_from_byte : ℕ → Urgency
urgency_from_byte b = if b == 0 then low else if b == 2 then critical else normal

pub record Notification : Type 0 where
  pub id : ℕ
  pub app_name : Text
  pub app_icon : Text
  pub summary : Text
  pub body : Text
  pub urgency : Urgency
  pub image_path : Option Text
  pub expires_at : Option ℕ
  pub revision : ℕ

pub record NotifyArgs : Type 0 where
  pub app_name : Text
  pub replaces_id : ℕ
  pub app_icon : Text
  pub summary : Text
  pub body : Text
  pub urgency : Urgency
  pub image_path : Option Text
  pub expire_timeout : ℤ

pub record Queue : Type 0 where
  pub items : List Notification
  pub next_id : ℕ

abbrev pub new : Queue
new = record { items = []; next_id = 1 }

-- The `match` on `expire_timeout`.
abbrev pub timeout_ms : ℤ → ℕ → Option ℕ
timeout_ms (pos zero) default_ms = none
timeout_ms (pos (suc n)) default_ms = some (suc n)
timeout_ms (negsuc n) default_ms = some default_ms

abbrev pub expiry_after : ℕ → Option ℕ → Option ℕ
expiry_after now none = none
expiry_after now (some ms) = some (now + ms * 1000000)

unfoldable pub compute_expiry : Urgency → ℤ → ℕ → ℕ → Option ℕ
compute_expiry critical expire_timeout default_ms now = none
compute_expiry low expire_timeout default_ms now =
    expiry_after now (timeout_ms expire_timeout default_ms)
compute_expiry normal expire_timeout default_ms now =
    expiry_after now (timeout_ms expire_timeout default_ms)

unfoldable pub find_id : ℕ → List Notification → Option Notification
find_id id [] = none
find_id id (n ∷ ns) = let rest = find_id id ns in if n.id == id then some n else rest

abbrev pub get : Queue → ℕ → Option Notification
get q id = find_id id q.items

-- What a replacement writes into its slot.
abbrev pub overwritten : NotifyArgs → Option ℕ → Notification → Notification
overwritten args expires_at slot = record slot {
  app_name = args.app_name;
  app_icon = args.app_icon;
  summary = args.summary;
  body = args.body;
  urgency = args.urgency;
  image_path = args.image_path;
  expires_at = expires_at;
  revision = u64 (slot.revision + 1);
}

-- The first slot with the id is overwritten.
unfoldable pub replace_first :
    ℕ → (Notification → Notification) → List Notification → List Notification
replace_first id f [] = []
replace_first id f (n ∷ ns) =
    let rest = replace_first id f ns in if n.id == id then f n ∷ ns else n ∷ rest

-- `checked_add(1).unwrap_or(1)` on a u32.
abbrev pub id_after : ℕ → ℕ
id_after id = if ltb (id + 1) 4294967296 then id + 1 else 1

abbrev pub made : ℕ → NotifyArgs → Option ℕ → Notification
made id args expires_at = record {
  id = id;
  app_name = args.app_name;
  app_icon = args.app_icon;
  summary = args.summary;
  body = args.body;
  urgency = args.urgency;
  image_path = args.image_path;
  expires_at = expires_at;
  revision = 0;
}

-- With the slot that is to be replaced, if there is one.
abbrev pub notify_into : Queue → NotifyArgs → Option ℕ → Option Notification → Queue × ℕ
notify_into q args expires_at (some slot) = (
  record q { items = replace_first args.replaces_id (overwritten args expires_at) q.items },
  slot.id,
)
notify_into q args expires_at none = (
  record { items = q.items ++ made q.next_id args expires_at ∷ []; next_id = id_after q.next_id },
  q.next_id,
)

abbrev pub slot_for : Queue → ℕ → Option Notification
slot_for q replaces_id = if replaces_id == 0 then none else find_id replaces_id q.items

unfoldable pub notify : Queue → NotifyArgs → ℕ → ℕ → Queue × ℕ
notify q args default_ms now =
    notify_into q args (compute_expiry args.urgency args.expire_timeout default_ms now)
      (slot_for q args.replaces_id)

unfoldable pub remove_first : ℕ → List Notification → List Notification × Bool
remove_first id [] = ([], false)
remove_first id (n ∷ ns) =
    let (rest, removed) = remove_first id ns in
    if n.id == id then (ns, true) else (n ∷ rest, removed)

unfoldable pub close : Queue → ℕ → Queue × Bool
close q id = let (items, removed) = remove_first id q.items in (record q { items = items }, removed)

-- The least of what `filter_map` leaves.
abbrev pub earlier : Option ℕ → Option ℕ → Option ℕ
earlier none b = b
earlier (some a) none = some a
earlier (some a) (some b) = some (if ltb b a then b else a)

unfoldable pub next_of : List Notification → Option ℕ
next_of [] = none
next_of (n ∷ ns) = earlier n.expires_at (next_of ns)

abbrev pub next_expiry : Queue → Option ℕ
next_expiry q = next_of q.items

abbrev pub is_expired : ℕ → Option ℕ → Bool
is_expired now none = false
is_expired now (some t) = leb t now

-- The `retain` of `drain_expired`: the items kept, and the ids of the others.
unfoldable pub retain : ℕ → List Notification → List Notification × List ℕ
retain now [] = ([], [])
retain now (n ∷ ns) =
    let (kept, expired) = retain now ns in
    if is_expired now n.expires_at then (kept, n.id ∷ expired) else (n ∷ kept, expired)

unfoldable pub drain_expired : Queue → ℕ → Queue × List ℕ
drain_expired q now =
    let (kept, expired) = retain now q.items in (record q { items = kept }, expired)
