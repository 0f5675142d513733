-- ===== src/Discovery.antt =====
-- Peer discovery, crates/discovery/src/lib.rs: what a listener makes of the datagrams it reads
-- until its deadline. A round of the loop is the clock at its start and what `recv_from` returned.
pub mod Sockets
pub mod Table
pub mod Snapshot
pub mod Rounds
pub mod Offers
pub mod Heard
mod Tests
use send_rs.Prelude.{
  ℕ, Bool, true, false, String, Option, none, some, List, [], ◌∷◌, ◌++◌, ◌==◌, if◌then◌else◌,
  decimal, ltb,
}
use Prim.Native.String.{◌++◌ as ◌<>◌}
use send_rs.Exec.{Error, Result, ok, err}
use send_rs.Task.{PeerInfo, DeviceIdentity}

pub record DiscoveryBeacon : Type 0 where
  pub peer_id : String
  pub display_name : String
  pub listen_port : ℕ
  pub public_enabled : Bool
  pub version : String

pub record SharedOfferAnnouncement : Type 0 where
  pub code : String
  pub owner_peer_id : String
  pub owner_name : String
  pub source_name : String
  pub is_dir : Bool
  pub bytes_total : ℕ
  pub public_enabled : Bool
  pub created_at : String

-- `env!("CARGO_PKG_VERSION")` is the first argument.
unfoldable pub from_identity : String → DeviceIdentity → ℕ → Bool → DiscoveryBeacon
from_identity version identity listen_port public_enabled = record {
  peer_id = identity.device_id;
  display_name = identity.display_name;
  listen_port = listen_port;
  public_enabled = public_enabled;
  version = version;
}

pub data DiscoveryPacket : Type 0 where
  beacon : DiscoveryBeacon → DiscoveryPacket
  share_offer : SharedOfferAnnouncement → DiscoveryPacket

-- The two forms that `serde_json::from_slice` is asked for, and `serde_json::to_vec`.
pub record DiscoveryJson : Type 0 where
  pub packet : List ℕ → Option DiscoveryPacket
  pub plain_beacon : List ℕ → Option DiscoveryBeacon
  pub to_vec : DiscoveryPacket → Option (List ℕ)

-- A `HashMap` by its entries, each key once; the order is that of the first insertion, one of those
-- in which `into_values` may list them.
module _ {V : Type 0} where
  unfoldable pub lookup : String → List (String × V) → Option V
  lookup k [] = none
  lookup k ((j, v) ∷ l) = if j == k then some v else lookup k l

  unfoldable pub insert : String → V → List (String × V) → List (String × V)
  insert k v [] = (k, v) ∷ []
  insert k v ((j, u) ∷ l) = let rest = insert k v l in if j == k then (j, v) ∷ l else (j, u) ∷ rest

  unfoldable pub into_values : List (String × V) → List V
  into_values [] = []
  into_values ((k, v) ∷ l) = v ∷ into_values l

pub record Seen : Type 0 where
  pub peers : List (String × PeerInfo)
  pub offers : List (String × SharedOfferAnnouncement)

pub record DiscoverySnapshot : Type 0 where
  pub peers : List PeerInfo
  pub offers : List SharedOfferAnnouncement

unfoldable pub contains : String → List String → Bool
contains x [] = false
contains x (y ∷ ys) = if y == x then true else contains x ys

unfoldable pub addr_text : String → DiscoveryBeacon → String
addr_text ip b = ip <> (":" <> decimal b.listen_port)

unfoldable pub or_insert_with : ℕ → String → DiscoveryBeacon → Option PeerInfo → PeerInfo
or_insert_with now ip b (some entry) = entry
or_insert_with now ip b none = record {
  peer_id = b.peer_id;
  display_name = b.display_name;
  addresses = addr_text ip b ∷ [];
  public_enabled = b.public_enabled;
  last_seen = now;
}

-- The address is added unless it is there, and the peer was seen now.
unfoldable pub touch : ℕ → String → PeerInfo → PeerInfo
touch now text entry = record entry {
  addresses =
      if contains text entry.addresses then entry.addresses else entry.addresses ++ (text ∷ []);
  last_seen = now;
}

unfoldable pub see_beacon : ℕ → String → DiscoveryBeacon → Seen → Seen
see_beacon now ip b seen = record seen {
  peers =
      insert b.peer_id
        (touch now (addr_text ip b) (or_insert_with now ip b (lookup b.peer_id seen.peers)))
        seen.peers;
}

unfoldable pub offer_key : SharedOfferAnnouncement → String
offer_key offer = offer.owner_peer_id <> (":" <> offer.code)

unfoldable pub see_offer : SharedOfferAnnouncement → Seen → Seen
see_offer offer seen = record seen { offers = insert (offer_key offer) offer seen.offers }

unfoldable pub see_packet : ℕ → String → DiscoveryPacket → Seen → Seen
see_packet now ip (DiscoveryPacket.beacon b) seen = see_beacon now ip b seen
see_packet now ip (DiscoveryPacket.share_offer offer) seen = see_offer offer seen

pub see_plain : ℕ → String → Option DiscoveryBeacon → Seen → Seen
see_plain now ip none seen = seen
see_plain now ip (some b) seen = see_beacon now ip b seen

pub see_either : ℕ → String → Option DiscoveryPacket → Option DiscoveryBeacon → Seen → Seen
unfolding see_plain
see_either now ip (some packet) plain seen = see_packet now ip packet seen
see_either now ip none plain seen = see_plain now ip plain seen

-- A payload that is neither form is dropped.
unfoldable pub see_datagram : DiscoveryJson → ℕ → String → List ℕ → Seen → Seen
unfolding see_either
see_datagram json now ip payload seen =
    see_either now ip (json.packet payload) (json.plain_beacon payload) seen

-- What `recv_from` returned: a datagram with the time it was handled at and the address it is
-- from, the timeout of 250 ms, or another error.
pub data Received : Type 0 where
  datagram : ℕ → String → List ℕ → Received
  timed_out : Received
  broken : Error → Received

pub round : DiscoveryJson → Received → Seen → Result Seen
round json (Received.datagram now ip payload) seen = ok (see_datagram json now ip payload seen)
round json Received.timed_out seen = ok seen
round json (Received.broken e) seen = err (Error.context "read discovery datagram" e)

pub go_on : (Seen → Result Seen) → Result Seen → Result Seen
go_on rest (ok seen) = rest seen
go_on rest (err e) = err e

-- Each round starts with a look at the clock. Where the given rounds end, the deadline has passed.
unfoldable pub listen : DiscoveryJson → ℕ → List (ℕ × Received) → Seen → Result Seen
unfolding go_on round
listen json deadline [] seen = ok seen
listen json deadline ((now, r) ∷ rounds) seen =
    if ltb now deadline then go_on (listen json deadline rounds) (round json r seen) else ok seen
