-- ===== src/Discovery/Sockets.antt =====
-- The sockets of crates/discovery/src/lib.rs: broadcasts, and the listener with its socket. The
-- network is what it answers to the calls in turn, and the datagrams that arrive.
use Prim.Native.String.{◌++◌ as ◌<>◌}
use send_rs.Prelude.{ℕ, ◌+◌, String, Option, none, some, List, [], ◌∷◌, ◌++◌, decimal}
use send_rs.Exec.{Exec, Error, Result, ok, err, system, pure, raise, with_context, ◌>>=◌, ◌>>◌}
use send_rs.Task.{PeerInfo}
use send_rs.Discovery.{
  DiscoveryBeacon, SharedOfferAnnouncement, DiscoverySnapshot, DiscoveryPacket, DiscoveryJson, Seen,
  Received, into_values, listen,
}

-- `DEFAULT_DISCOVERY_PORT`
abbrev pub default_discovery_port : ℕ
default_discovery_port = 39091

-- `answers` are those to the calls on sockets to come, `some` an error; past its end every call
-- succeeds. `arriving` are the rounds of a listener that begins at the time `now`.
pub record Network : Type 0 where
  pub answers : List (Option Error)
  pub bound : List String
  pub sent : List (String × List ℕ)
  pub now : ℕ
  pub arriving : List (ℕ × Received)

abbrev respond : Exec Network (Unit {0}) → List (Option Error) → Exec Network (Unit {0})
respond done [] net = done net
respond done (none ∷ rest) net = done (record net { answers = rest })
respond done (some e ∷ rest) net = (err e, record net { answers = rest })

-- A call that does `done`, or fails and changes nothing.
unfoldable pub socket_call : Exec Network (Unit {0}) → Exec Network (Unit {0})
socket_call done net = respond done net.answers net

unfoldable pub bind : String → Exec Network (Unit {0})
unfolding socket_call
bind address = socket_call λ net. (ok tt, record net { bound = net.bound ++ address ∷ [] })

-- `set_broadcast`, `set_read_timeout`
unfoldable pub set_option : Exec Network (Unit {0})
unfolding socket_call
set_option = socket_call (pure tt)

unfoldable pub send_to : List ℕ → String → Exec Network (Unit {0})
unfolding socket_call
send_to payload address =
    socket_call λ net. (ok tt, record net { sent = net.sent ++ (address, payload) ∷ [] })

abbrev encoded : Option (List ℕ) → Exec Network (List ℕ)
encoded none = raise (system "serialize")
encoded (some payload) = pure payload

-- The socket of the listener hands over what has arrived.
unfoldable pub heard : Result Seen → Result DiscoverySnapshot
heard (ok seen) = ok (record { peers = into_values seen.peers; offers = into_values seen.offers })
heard (err e) = err e

module _ (json : DiscoveryJson) where
  unfoldable pub broadcast_packet : DiscoveryPacket → ℕ → Exec Network (Unit {0})
  broadcast_packet packet port = do
    with_context "bind udp sender" (bind "0.0.0.0:0")
    with_context "enable udp broadcast" set_option
    payload ← encoded (json.to_vec packet)
    with_context "send discovery packet" (send_to payload ("255.255.255.255:" <> decimal port))

  unfoldable pub broadcast_beacon : DiscoveryBeacon → ℕ → Exec Network (Unit {0})
  unfolding broadcast_packet
  broadcast_beacon beacon port = broadcast_packet (DiscoveryPacket.beacon beacon) port

  unfoldable pub broadcast_share_offer : SharedOfferAnnouncement → ℕ → Exec Network (Unit {0})
  unfolding broadcast_packet
  broadcast_share_offer offer port = broadcast_packet (DiscoveryPacket.share_offer offer) port

  -- The loop, with the deadline that was computed after the socket was set up.
  unfoldable pub receive_all : ℕ → Exec Network DiscoverySnapshot
  unfolding heard
  receive_all timeout net = (
    heard (listen json (net.now + timeout) net.arriving (record { peers = []; offers = [] })),
    net,
  )

  unfoldable pub listen_for_snapshot : ℕ → ℕ → Exec Network DiscoverySnapshot
  unfolding receive_all
  listen_for_snapshot port timeout = do
    with_context "bind udp listener" (bind ("0.0.0.0:" <> decimal port))
    with_context "set read timeout" set_option
    receive_all timeout

  unfoldable pub listen_for_peers : ℕ → ℕ → Exec Network (List PeerInfo)
  unfolding listen_for_snapshot
  listen_for_peers port timeout = do
    snapshot ← listen_for_snapshot port timeout
    pure snapshot.peers

  unfoldable pub discover_snapshot : DiscoveryBeacon → ℕ → Exec Network DiscoverySnapshot
  unfolding broadcast_beacon listen_for_snapshot
  discover_snapshot beacon timeout = do
    broadcast_beacon beacon default_discovery_port
    listen_for_snapshot default_discovery_port timeout

  unfoldable pub discover_peers : DiscoveryBeacon → ℕ → Exec Network (List PeerInfo)
  unfolding discover_snapshot
  discover_peers beacon timeout = do
    snapshot ← discover_snapshot beacon timeout
    pure snapshot.peers
