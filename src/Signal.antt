-- ===== src/Signal.antt =====
-- The signalling server: the messages of crates/core/src/protocol.rs and the relay of
-- crates/signaling-server/src/main.rs. The tasks that serve the sockets share the table of peers;
-- a run is the sequence of what arrives, each with the socket it arrives on. A socket is a number,
-- which stands for its `out_tx` as well.
pub mod Relay
pub mod Client
mod Tests
use send_rs.Prelude.{
  ℕ, Bool, true, false, String, Option, none, some, List, [], ◌∷◌, ◌++◌, ◌==◌, nat_eq, ◌⊎◌, inl,
  inr, if◌then◌else◌,
}
use Prim.Native.String.{◌++◌ as ◌<>◌}

pub data SignalMessage : Type 0 where
  register : String → SignalMessage
  offer : String → String → String → SignalMessage
  answer : String → String → String → SignalMessage
  candidate : String → String → String → SignalMessage
  punch_result : String → String → Bool → Option String → SignalMessage
  disconnect : String → String → Option String → SignalMessage
  error : String → SignalMessage

unfoldable pub target_peer : SignalMessage → Option String
target_peer (SignalMessage.offer from to sdp) = some to
target_peer (SignalMessage.answer from to sdp) = some to
target_peer (SignalMessage.candidate from to c) = some to
target_peer (SignalMessage.punch_result from to success reason) = some to
target_peer (SignalMessage.disconnect from to reason) = some to
target_peer (SignalMessage.register peer_id) = none
target_peer (SignalMessage.error message) = none

-- `serde_json` on these messages, and `String::from_utf8_lossy`.
pub record SignalJson : Type 0 where
  pub to_string : SignalMessage → Option String
  -- The message, or the text of the error.
  pub from_str : String → String ⊎ SignalMessage
  pub from_utf8_lossy : List ℕ → String

-- What `receiver.next().await` yields; `closed` is `None`.
pub data Incoming : Type 0 where
  text : String → Incoming
  binary : List ℕ → Incoming
  ping : Incoming
  pong : Incoming
  close : Incoming
  failed : Incoming
  closed : Incoming

-- The shared table, what each socket's task keeps, and what was put on the channels, in order.
pub record Server : Type 0 where
  pub peers : String → Option ℕ
  pub registered_peer : ℕ → Option String
  -- The task of the socket has ended.
  pub ended : ℕ → Bool
  pub sent : List (ℕ × String)

abbrev pub initial : Server
initial = record { peers = λ k. none; registered_peer = λ s. none; ended = λ s. false; sent = [] }

abbrev pub insert : String → ℕ → (String → Option ℕ) → String → Option ℕ
insert name tx peers key = if key == name then some tx else peers key

abbrev pub remove : String → (String → Option ℕ) → String → Option ℕ
remove name peers key = if key == name then none else peers key

unfoldable pub send_to : ℕ → String → Server → Server
send_to tx payload w = record w { sent = w.sent ++ ((tx, payload) ∷ []) }

abbrev pub unwrap_or : String → Option String → String
unwrap_or fallback none = fallback
unwrap_or fallback (some payload) = payload

-- The two error replies, with the texts that stand in when a message cannot be serialized.
unfoldable pub invalid_payload : SignalJson → String → String
invalid_payload json err =
    unwrap_or "{\"type\":\"error\",\"message\":\"invalid payload\"}"
      (json.to_string (SignalMessage.error ("invalid payload: " <> err)))

unfoldable pub not_connected : SignalJson → String → String
not_connected json target =
    unwrap_or "{\"type\":\"error\",\"message\":\"target peer not connected\"}"
      (json.to_string (SignalMessage.error ("target peer not connected: " <> target)))

-- A message for a peer: to its channel, or back with an error.
relay_payload : ℕ → Option String → Server → Server
relay_payload peer_tx none w = w
relay_payload peer_tx (some payload) w = send_to peer_tx payload w

relay_found : SignalJson → ℕ → SignalMessage → String → Option ℕ → Server → Server
unfolding relay_payload
relay_found json s other target (some peer_tx) w = relay_payload peer_tx (json.to_string other) w
relay_found json s other target none w = send_to s (not_connected json target) w

relay_target : SignalJson → ℕ → SignalMessage → Option String → Server → Server
unfolding relay_found
relay_target json s other none w = w
relay_target json s other (some target) w = relay_found json s other target (w.peers target) w

unfoldable pub relay : SignalJson → ℕ → SignalMessage → Server → Server
unfolding relay_target
relay json s other w = relay_target json s other (target_peer other) w

unfoldable pub register_peer : ℕ → String → Server → Server
register_peer s peer_id w = record w {
  peers = insert peer_id s w.peers;
  registered_peer = λ r. if nat_eq r s then some peer_id else w.registered_peer r;
}

unfoldable pub handle_signal : SignalJson → ℕ → SignalMessage → Server → Server
handle_signal json s (SignalMessage.register peer_id) w = register_peer s peer_id w
handle_signal json s (SignalMessage.offer from to sdp) w =
    relay json s (SignalMessage.offer from to sdp) w
handle_signal json s (SignalMessage.answer from to sdp) w =
    relay json s (SignalMessage.answer from to sdp) w
handle_signal json s (SignalMessage.candidate from to c) w =
    relay json s (SignalMessage.candidate from to c) w
handle_signal json s (SignalMessage.punch_result from to success reason) w =
    relay json s (SignalMessage.punch_result from to success reason) w
handle_signal json s (SignalMessage.disconnect from to reason) w =
    relay json s (SignalMessage.disconnect from to reason) w
handle_signal json s (SignalMessage.error message) w = relay json s (SignalMessage.error message) w

unfoldable pub handle_parsed : SignalJson → ℕ → String ⊎ SignalMessage → Server → Server
handle_parsed json s (inl err) w = send_to s (invalid_payload json err) w
handle_parsed json s (inr signal) w = handle_signal json s signal w

-- After the loop: the name that the socket registered last is removed.
forget : Option String → Server → Server
forget none w = w
forget (some peer_id) w = record w { peers = remove peer_id w.peers }

unfoldable pub end_socket : ℕ → Server → Server
unfolding forget
end_socket s w = record (forget (w.registered_peer s) w) {
  ended = λ r. if nat_eq r s then true else w.ended r;
}

unfoldable pub handle_incoming : SignalJson → ℕ → Incoming → Server → Server
handle_incoming json s (Incoming.text t) w = handle_parsed json s (json.from_str t) w
handle_incoming json s (Incoming.binary bs) w =
    handle_parsed json s (json.from_str (json.from_utf8_lossy bs)) w
handle_incoming json s Incoming.ping w = w
handle_incoming json s Incoming.pong w = w
handle_incoming json s Incoming.close w = end_socket s w
handle_incoming json s Incoming.failed w = end_socket s w
handle_incoming json s Incoming.closed w = end_socket s w

-- A socket whose task has ended handles nothing more.
unfoldable pub step : SignalJson → Server → ℕ × Incoming → Server
step json w (s, m) = if w.ended s then w else handle_incoming json s m w

unfoldable pub handle_sockets : SignalJson → Server → List (ℕ × Incoming) → Server
handle_sockets json w [] = w
handle_sockets json w (e ∷ es) = handle_sockets json (step json w e) es
