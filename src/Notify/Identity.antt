-- ===== src/Notify/Identity.antt =====
-- The identities of notifications, crates/shoestring-notify/src/state.rs.
use shoestring_wm.Prelude.{
  ℕ, ◌+◌, ◌≤◌, ◌<◌, ◌≡◌, ◌≢◌, refl, ◌==◌, Option, none, some, List, [], ◌∷◌, ◌++◌, arith,
  if◌then◌else◌, All, All-append, length, Bool-cases, inl, inr,
}
use shoestring_wm.Notify.{
  Notification, NotifyArgs, Queue, new, compute_expiry, find_id, overwritten, replace_first,
  id_after, made, notify_into, slot_for, notify, remove_first, close, retain, drain_expired,
  is_expired,
}

-- No two have the same id.
abbrev pub Distinct : List Notification → Type 0
Distinct [] = Unit
Distinct (n ∷ ns) = All (λ m. m.id ≢ n.id) ns × Distinct ns

pub record IsQueue (q : Queue) : Type 0 where
  pub next : 0 < q.next_id
  pub issued : All (λ n. (0 < n.id) × (n.id < q.next_id)) q.items
  pub distinct : Distinct q.items

-- What is asked of the queue.
pub data Request : Type 0 where
  notifies : NotifyArgs → ℕ → ℕ → Request
  closes : ℕ → Request
  drains : ℕ → Request

unfoldable pub serve : Queue → Request → Queue
serve q (notifies args default_ms now) = (notify q args default_ms now).0
serve q (closes id) = (close q id).0
serve q (drains now) = (drain_expired q now).0

unfoldable pub serve_all : Queue → List Request → Queue
serve_all q [] = q
serve_all q (r ∷ rs) = serve_all (serve q r) rs

pub find_id-replace_first :
    (id j : ℕ) (args : NotifyArgs) (e : Option ℕ) (ns : List Notification) (n : Notification)
    → find_id id ns ≡ some n
    → find_id j (replace_first id (overwritten args e) ns)
      ≡ (if j == id then some (overwritten args e n) else find_id j ns)
unfolding find_id replace_first
find_id-replace_first id j args e [] n h = ground (arith, h)
find_id-replace_first id j args e (m ∷ ns) n h =
    ground (arith, h, find_id-replace_first id j args e ns n)

pub find_id-append :
    (j : ℕ) (ns : List Notification) (n : Notification)
    → find_id n.id ns ≡ none
    → find_id j (ns ++ n ∷ []) ≡ (if j == n.id then some n else find_id j ns)
unfolding find_id
find_id-append j [] n h = ground (arith, h)
find_id-append j (m ∷ ns) n h = ground (arith, h, find_id-append j ns n)

pub find_id-fresh :
    (ns : List Notification) (id : ℕ)
    → All (λ n. (0 < n.id) × (n.id < id)) ns
    → find_id id ns ≡ none
unfolding find_id
find_id-fresh [] id a = refl
find_id-fresh (n ∷ ns) id a = ground (arith, a.0, find_id-fresh ns id a.1)

pub find_id-id :
    (id : ℕ) (ns : List Notification) (n : Notification) → find_id id ns ≡ some n → n.id ≡ id
unfolding find_id
find_id-id id [] n h = ground (arith, h)
find_id-id id (m ∷ ns) n h = ground (arith, h, find_id-id id ns n)

module _ (P : ℕ → Type 0) where
  All-replace_first :
      (id : ℕ) (args : NotifyArgs) (e : Option ℕ) (ns : List Notification)
      → All (λ n. P n.id) ns
      → All (λ n. P n.id) (replace_first id (overwritten args e) ns)
  unfolding replace_first
  All-replace_first id args e [] a = tt
  All-replace_first id args e (n ∷ ns) a = elim (Bool-cases (n.id == id)) [
    | inl same ↦ rw same a
    | inr other ↦ rw other (a.0, All-replace_first id args e ns a.1)
  ]

  All-remove_first :
      (id : ℕ) (ns : List Notification)
      → All (λ n. P n.id) ns
      → All (λ n. P n.id) (remove_first id ns).0
  unfolding remove_first
  All-remove_first id [] a = tt
  All-remove_first id (n ∷ ns) a = elim (Bool-cases (n.id == id)) [
    | inl same ↦ rw same a.1
    | inr other ↦ rw other (a.0, All-remove_first id ns a.1)
  ]

  All-retain :
      (now : ℕ) (ns : List Notification)
      → All (λ n. P n.id) ns
      → All (λ n. P n.id) (retain now ns).0
  unfolding retain
  All-retain now [] a = tt
  All-retain now (n ∷ ns) a = elim (Bool-cases (is_expired now n.expires_at)) [
    | inl same ↦ rw same (All-retain now ns a.1)
    | inr other ↦ rw other (a.0, All-retain now ns a.1)
  ]

Distinct-replace_first :
    (id : ℕ) (args : NotifyArgs) (e : Option ℕ) (ns : List Notification)
    → Distinct ns
    → Distinct (replace_first id (overwritten args e) ns)
unfolding replace_first
Distinct-replace_first id args e [] d = tt
Distinct-replace_first id args e (n ∷ ns) d = elim (Bool-cases (n.id == id)) [
  | inl same ↦ rw same d
  | inr other ↦
      rw other (
        All-replace_first (λ i. i ≢ n.id) id args e ns d.0,
        Distinct-replace_first id args e ns d.1,
      )
]

Distinct-remove_first :
    (id : ℕ) (ns : List Notification) → Distinct ns → Distinct (remove_first id ns).0
unfolding remove_first
Distinct-remove_first id [] d = tt
Distinct-remove_first id (n ∷ ns) d = elim (Bool-cases (n.id == id)) [
  | inl same ↦ rw same d.1
  | inr other ↦
      rw other (All-remove_first (λ i. i ≢ n.id) id ns d.0, Distinct-remove_first id ns d.1)
]

Distinct-retain : (now : ℕ) (ns : List Notification) → Distinct ns → Distinct (retain now ns).0
unfolding retain
Distinct-retain now [] d = tt
Distinct-retain now (n ∷ ns) d = elim (Bool-cases (is_expired now n.expires_at)) [
  | inl same ↦ rw same (Distinct-retain now ns d.1)
  | inr other ↦ rw other (All-retain (λ i. i ≢ n.id) now ns d.0, Distinct-retain now ns d.1)
]

Distinct-append :
    (ns : List Notification) (n : Notification)
    → All (λ m. (0 < m.id) × (m.id < n.id)) ns
    → Distinct ns
    → Distinct (ns ++ n ∷ [])
Distinct-append [] n a d = (tt, tt)
Distinct-append (m ∷ ns) n a d = (
  All-append (λ k. k.id ≢ m.id) ns (n ∷ []) d.0 (omega (arith, a.0), tt),
  Distinct-append ns n a.1 d.1,
)

All-later :
    (next : ℕ) (ns : List Notification)
    → All (λ n. (0 < n.id) × (n.id < next)) ns
    → All (λ n. (0 < n.id) × (n.id < next + 1)) ns
All-later next [] a = tt
All-later next (n ∷ ns) a = ((a.0.0, omega (arith, a.0.1)), All-later next ns a.1)

id_after-suc : (id : ℕ) → id < 4294967295 → id_after id ≡ id + 1
id_after-suc id h = ground arith

notify_into-IsQueue :
    (q : Queue) (args : NotifyArgs) (e : Option ℕ) (slot : Option Notification)
    → q.next_id < 4294967295
    → IsQueue q
    → IsQueue (notify_into q args e slot).0
notify_into-IsQueue q args e (some slot) h w = record {
  next = w.next;
  issued =
      All-replace_first (λ i. (0 < i) × (i < q.next_id)) args.replaces_id args e q.items w.issued;
  distinct = Distinct-replace_first args.replaces_id args e q.items w.distinct;
}
notify_into-IsQueue q args e none h w = record {
  next = ground arith;
  issued = rw (id_after-suc q.next_id h) (
      All-append (λ n. (0 < n.id) × (n.id < q.next_id + 1)) q.items (made q.next_id args e ∷ [])
        (All-later q.next_id q.items w.issued) ((w.next, omega arith), tt));
  distinct = Distinct-append q.items (made q.next_id args e) w.issued w.distinct;
}

notify_into-next :
    (q : Queue) (args : NotifyArgs) (e : Option ℕ) (slot : Option Notification)
    → q.next_id < 4294967295
    → (notify_into q args e slot).0.next_id ≤ q.next_id + 1
notify_into-next q args e (some slot) h = omega arith
notify_into-next q args e none h = ground arith

serve-IsQueue :
    (q : Queue) (r : Request)
    → q.next_id < 4294967295
    → IsQueue q
    → IsQueue (serve q r) × ((serve q r).next_id ≤ q.next_id + 1)
unfolding serve notify close drain_expired
serve-IsQueue q (notifies args default_ms now) h w =
    let e = compute_expiry args.urgency args.expire_timeout default_ms now in
    (
      notify_into-IsQueue q args e (slot_for q args.replaces_id) h w,
      notify_into-next q args e (slot_for q args.replaces_id) h,
    )
serve-IsQueue q (closes id) h w = (
  record {
    next = w.next;
    issued = All-remove_first (λ i. (0 < i) × (i < q.next_id)) id q.items w.issued;
    distinct = Distinct-remove_first id q.items w.distinct;
  },
  omega arith,
)
serve-IsQueue q (drains now) h w = (
  record {
    next = w.next;
    issued = All-retain (λ i. (0 < i) × (i < q.next_id)) now q.items w.issued;
    distinct = Distinct-retain now q.items w.distinct;
  },
  omega arith,
)

serve_all_from :
    (q : Queue) (rs : List Request)
    → IsQueue q
    → q.next_id + length rs < 4294967296
    → IsQueue (serve_all q rs)
unfolding serve_all
serve_all_from q [] w h = w
serve_all_from q (r ∷ rs) w h =
    let (w', le) = serve-IsQueue q r (ground arith) w in
    serve_all_from (serve q r) rs w' (omega (arith, le))

-- After any history of fewer than 2^32 - 1 requests, the live notifications have distinct ids, none
-- of them 0 and all below the next id.
pub serve_all-IsQueue : (rs : List Request) → length rs < 4294967295 → IsQueue (serve_all new rs)
serve_all-IsQueue rs h =
    serve_all_from new rs (record { next = omega arith; issued = tt; distinct = tt }) (omega arith)
