-- ===== src/Remote/Version.antt =====
-- The handshake of crates/shoestring-remote/src/version.rs: which peers may talk.
-- The message for the user is left out, save which side it names.
use shoestring_wm.Prelude.{◌≡◌, ◌↔◌, ◌<◌, Option, none, some, arith, if◌then◌else◌, ltb, ◌==◌}
use shoestring_wm.Remote.Message.{PeerInfo}

-- Which side is older, and so is to be upgraded.
pub data Side : Type 0 where
  server client : Side

-- `incompatibility`: the older side stands for the text that names it.
unfoldable pub incompatibility : PeerInfo → PeerInfo → Option Side
incompatibility s c =
    if s.protocol == c.protocol
    then none
    else some (if ltb s.protocol c.protocol then server else client)

-- Peers are refused exactly when their protocol versions differ, whatever their releases and
-- capabilities, and the side to upgrade is the one with the lower version.
pub incompatibility_lem :
    (s c : PeerInfo)
    → ((incompatibility s c ≡ none) ↔ (s.protocol ≡ c.protocol))
      × ((incompatibility s c ≡ some server) ↔ (s.protocol < c.protocol))
      × ((incompatibility s c ≡ some client) ↔ (c.protocol < s.protocol))
unfolding incompatibility
incompatibility_lem s c = ground arith
