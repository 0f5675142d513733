-- ===== src/Discovery/Heard.antt =====
-- A broadcast of crates/discovery/src/lib.rs from one device to a listener on another.
use Prim.Native.String.{◌++◌ as ◌<>◌}
use send_rs.Prelude.{
  ℕ, ◌+◌, ◌<◌, Bool, true, false, String, Option, none, some, List, [], ◌∷◌, ◌++◌, ◌==◌,
  if◌then◌else◌, ◌≡◌, refl, sym, ap, ◌∙◌, subst, eq_iff, arith, All, get_elem?, decimal,
}
use send_rs.Exec.{ok}
use send_rs.Task.{PeerInfo}
use send_rs.Discovery.{
  DiscoveryBeacon, DiscoveryPacket, DiscoveryJson, DiscoverySnapshot, Seen, Received, lookup,
  insert, into_values, contains, addr_text, or_insert_with, touch, see_beacon, see_offer,
  see_packet, see_plain, see_either, see_datagram, listen,
}
use send_rs.Discovery.Sockets.{Network, heard, broadcast_beacon, listen_for_snapshot}
use send_rs.Discovery.Rounds.{
  IsQuiet, IsInTime, IsQuiet-Keeps, listen_hears, lookup-into_values, calm, broadcast_packet-calm,
  listen_for_snapshot-calm,
}
use send_rs.Discovery.Snapshot.{PeerAt, IsCoherent, IfOk, listen-IsCoherent}
use send_rs.Discovery.Table.{lookup-insert, All-lookup}

contains-append :
    (x : String) (xs ys : List String) → contains x xs ≡ true → contains x (xs ++ ys) ≡ true
unfolding contains
contains-append x [] ys h = absurd (ground arith)
contains-append x (y ∷ xs) ys h = ground (arith, contains-append x xs ys)

contains-last : (x : String) (xs : List String) → contains x (xs ++ x ∷ []) ≡ true
unfolding contains
contains-last x [] = ground (arith, eq_iff x x)
contains-last x (y ∷ xs) = ground (arith, contains-last x xs)

touch_keeps :
    (now : ℕ) (text x : String) (p : PeerInfo)
    → contains x p.addresses ≡ true
    → contains x (touch now text p).addresses ≡ true
unfolding touch
touch_keeps now text x p h = ground (arith, contains-append x p.addresses (text ∷ []) h)

touch_adds :
    (now : ℕ) (text : String) (p : PeerInfo) → contains text (touch now text p).addresses ≡ true
unfolding touch
touch_adds now text p = ground (arith, contains-last text p.addresses)

-- A peer is in the table under its key, with an address.
abbrev pub Shows : String → String → Seen → Type 0
Shows key text seen =
    (p : PeerInfo) × (lookup key seen.peers ≡ some p) × (contains text p.addresses ≡ true)

-- The entry that a beacon writes.
abbrev entry : ℕ → String → DiscoveryBeacon → Option PeerInfo → PeerInfo
entry now ip b old = touch now (addr_text ip b) (or_insert_with now ip b old)

see_beacon-Shows :
    (now : ℕ) (ip : String) (b : DiscoveryBeacon) (seen : Seen)
    → Shows b.peer_id (addr_text ip b) (see_beacon now ip b seen)
unfolding see_beacon
see_beacon-Shows now ip b seen =
    let old = lookup b.peer_id seen.peers in
    (
      entry now ip b old,
      lookup-insert b.peer_id b.peer_id (entry now ip b old) seen.peers
          ∙ ap (λ c. if c then some (entry now ip b old) else old)
              ((eq_iff b.peer_id b.peer_id).1 refl),
      touch_adds now (addr_text ip b) (or_insert_with now ip b old),
    )

see_beacon_keeps :
    (now : ℕ) (ip : String) (b : DiscoveryBeacon) (seen : Seen) (key text : String)
    → Shows key text seen
    → Shows key text (see_beacon now ip b seen)
unfolding see_beacon or_insert_with
see_beacon_keeps now ip b seen key text (p, there, h) = choose (b.peer_id == key) refl
  where
    new : PeerInfo
    new = entry now ip b (lookup b.peer_id seen.peers)

    found :
        (c : Bool)
        → (b.peer_id == key) ≡ c
        → lookup key (insert b.peer_id new seen.peers)
          ≡ (if c then some new else lookup key seen.peers)
    found c e =
        lookup-insert b.peer_id key new seen.peers
        ∙ ap (λ c. if c then some new else lookup key seen.peers) e

    choose :
        (c : Bool)
        → (b.peer_id == key) ≡ c
        → Shows key text (record seen { peers = insert b.peer_id new seen.peers })
    choose true e =
        let same : lookup b.peer_id seen.peers ≡ some p =
          ap (λ k. lookup k seen.peers) ((eq_iff b.peer_id key).0 e) ∙ there in
        (
          new,
          found true e,
          subst (λ o. contains text (entry now ip b o).addresses ≡ true) (sym same)
              (touch_keeps now (addr_text ip b) text p h),
        )
    choose false e = (p, found false e ∙ there, h)

see_datagram_keeps :
    (json : DiscoveryJson) (now : ℕ) (ip : String) (payload : List ℕ) (seen : Seen)
    (key text : String)
    → Shows key text seen
    → Shows key text (see_datagram json now ip payload seen)
unfolding see_datagram see_either see_packet see_plain see_offer
see_datagram_keeps json now ip payload seen key text shown =
    either (json.packet payload) (json.plain_beacon payload)
  where
    either :
        (packet : Option DiscoveryPacket) (plain : Option DiscoveryBeacon)
        → Shows key text (see_either now ip packet plain seen)
    either (some (DiscoveryPacket.beacon b)) plain = see_beacon_keeps now ip b seen key text shown
    either (some (DiscoveryPacket.share_offer offer)) plain = shown
    either none none = shown
    either none (some b) = see_beacon_keeps now ip b seen key text shown

see_datagram-Shows :
    (json : DiscoveryJson) (now : ℕ) (ip : String) (payload : List ℕ) (b : DiscoveryBeacon)
    → json.packet payload ≡ some (DiscoveryPacket.beacon b)
    → (seen : Seen) → Shows b.peer_id (addr_text ip b) (see_datagram json now ip payload seen)
unfolding see_datagram see_either see_packet
see_datagram-Shows json now ip payload b reads seen = rw reads (see_beacon-Shows now ip b seen)

-- A snapshot has a peer with an id and an address.
abbrev pub Lists : DiscoverySnapshot → String → String → Type 0
Lists snapshot peer_id text =
    (i : ℕ) × (p : PeerInfo) × (get_elem? snapshot.peers i ≡ some p)
    × (p.peer_id ≡ peer_id)
    × (contains text p.addresses ≡ true)

Shows-Lists :
    (key text : String) (seen : Seen)
    → IsCoherent seen
    → Shows key text seen
    → Lists (record { peers = into_values seen.peers; offers = into_values seen.offers }) key text
Shows-Lists key text seen c (p, there, h) =
    let (i, at) = lookup-into_values key p seen.peers there in
    (i, p, at, (All-lookup PeerAt key p seen.peers c.0 there).0, h)

-- On two devices where no call on a socket fails: one broadcasts its beacon, which puts one datagram
-- on the network. If the other listens, the datagram is the payload of one of its rounds, that round
-- and those before it begin before the deadline, no read breaks, and the library reads back what it
-- wrote, then the snapshot that it returns lists the peer, with the address that the datagram came
-- from and the port in the beacon, whatever else arrives before or after.
pub listen_for_snapshot-broadcast_beacon :
    (json : DiscoveryJson) (beacon : DiscoveryBeacon) (payload : List ℕ) (port timeout : ℕ)
    (here there : Network) (at now : ℕ) (ip : String) (before after : List (ℕ × Received))
    → json.to_vec (DiscoveryPacket.beacon beacon) ≡ some payload
    → json.packet payload ≡ some (DiscoveryPacket.beacon beacon)
    → there.arriving ≡ before ++ (at, Received.datagram now ip payload) ∷ after
    → All (IsInTime (there.now + timeout)) before
    → at < there.now + timeout
    → All (λ r. IsQuiet r.1) after
    → (s t : Network) × (snapshot : DiscoverySnapshot) × (broadcast_beacon json beacon port
          (calm here)
        ≡ (ok tt, s))
      × (s.sent ≡ here.sent ++ ("255.255.255.255:" <> decimal port, payload) ∷ [])
      × (listen_for_snapshot json port timeout (calm there) ≡ (ok snapshot, t))
      × Lists snapshot beacon.peer_id (addr_text ip beacon)
unfolding broadcast_beacon heard
listen_for_snapshot-broadcast_beacon json beacon payload port timeout here there at now ip before
      after writes reads arriving early in_time quiet =
    let nothing : Seen = record { peers = []; offers = [] } in
    let (seen, hears, shown) =
      listen_hears json (Shows beacon.peer_id (addr_text ip beacon)) (there.now + timeout) before
        after nothing at now ip payload (see_datagram-Shows json now ip payload beacon reads) early
        in_time
        (IsQuiet-Keeps json (Shows beacon.peer_id (addr_text ip beacon))
          (λ now ip payload seen. see_datagram_keeps json now ip payload seen beacon.peer_id _)
          after quiet) in
    let heard_all : listen json (there.now + timeout) there.arriving nothing ≡ ok seen =
      ap (λ rounds. listen json (there.now + timeout) rounds nothing) arriving ∙ hears in
    let coherent : IsCoherent seen =
      subst (IfOk IsCoherent) heard_all
        (listen-IsCoherent json (there.now + timeout) there.arriving nothing (tt, tt)) in
    let (t, returns) = listen_for_snapshot-calm json port timeout there in
    (
      _,
      t,
      _,
      broadcast_packet-calm json (DiscoveryPacket.beacon beacon) payload port here writes,
      refl,
      returns ∙ ap (λ r. (heard r, t)) heard_all,
      Shows-Lists beacon.peer_id (addr_text ip beacon) seen coherent shown,
    )
