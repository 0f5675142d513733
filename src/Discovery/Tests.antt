-- ===== src/Discovery/Tests.antt =====
-- The snapshot theorems at concrete datagrams.
use send_rs.Prelude.{arith, decimal, ◌≡◌, refl, false, none, some, [], ◌∷◌}
use send_rs.Discovery.{
  DiscoveryBeacon, DiscoverySnapshot, addr_text, SharedOfferAnnouncement, DiscoveryPacket,
  DiscoveryJson, Received,
}
use send_rs.Discovery.Sockets.{Network, broadcast_beacon, listen_for_snapshot}
use send_rs.Discovery.Rounds.{calm}
use send_rs.Discovery.Heard.{Lists, listen_for_snapshot-broadcast_beacon}
use send_rs.Exec.{ok}

abbrev beacon : DiscoveryBeacon
beacon = record {
  peer_id = "p";
  display_name = "Alice";
  listen_port = 38080;
  public_enabled = false;
  version = "0.1.0";
}

abbrev json : DiscoveryJson
json = record {
  packet = λ b. some (DiscoveryPacket.beacon beacon);
  plain_beacon = λ b. none;
  to_vec = λ p. some [];
}

-- Two beacons come from one address, and then nothing.
abbrev network : Network
network = record {
  answers = [];
  bound = [];
  sent = [];
  now = 0;
  arriving =
      (1, Received.datagram 1 "10.0.0.2" [])
      ∷ (2, Received.datagram 2 "10.0.0.2" [])
      ∷ (3, Received.timed_out)
      ∷ [];
}

abbrev small : SharedOfferAnnouncement
small = record {
  code = "AB";
  owner_peer_id = "p";
  owner_name = "Alice";
  source_name = "a.txt";
  is_dir = false;
  bytes_total = 5;
  public_enabled = false;
  created_at = "";
}

abbrev big : SharedOfferAnnouncement
big = record small { bytes_total = 9 }

-- The beacon of another device comes in the second round.
abbrev hearing : Network
hearing = record network {
  arriving =
      (1, Received.timed_out)
      ∷ (2, Received.datagram 2 "10.0.0.2" [])
      ∷ (3, Received.timed_out)
      ∷ [];
}

listen_for_snapshot-broadcast_beacon_example :
    (s t : Network) × (snapshot : DiscoverySnapshot) × (broadcast_beacon json beacon 39091
        (calm network)
      ≡ (ok tt, s))
    × (s.sent ≡ ("255.255.255.255:39091", []) ∷ [])
    × (listen_for_snapshot json 39091 9 (calm hearing) ≡ (ok snapshot, t))
    × Lists snapshot "p" "10.0.0.2:38080"
unfolding decimal addr_text
listen_for_snapshot-broadcast_beacon_example =
    listen_for_snapshot-broadcast_beacon json beacon [] 39091 9 network hearing 2 2 "10.0.0.2"
      ((1, Received.timed_out) ∷ []) ((3, Received.timed_out) ∷ []) refl refl refl
      ((omega arith, tt), tt) (omega arith) (tt, tt)
