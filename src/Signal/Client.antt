-- ===== src/Signal/Client.antt =====
-- The client, crates/signaling-client/src/lib.rs: its two channels and the tasks that write and
-- read the websocket. A channel is the list of what goes through it. The answers to the sends are
-- given, and past their end a send succeeds.
use send_rs.Prelude.{
  ℕ, ◌≡◌, refl, ap, ◌∙◌, Bool, true, false, String, Option, none, some, List, [], ◌∷◌, ◌++◌, map,
  All, ◌⊎◌, inl, inr, if◌then◌else◌, Bool-cases, eq_refl,
}
use send_rs.Exec.{Exec, Result, ok, err, message, with_context, ◌>>=◌, ◌>>◌}
use send_rs.Signal.{
  SignalMessage, SignalJson, Server, Incoming, step, handle_incoming, handle_parsed, handle_signal,
  register_peer,
}

-- A websocket message; `other` is a raw frame.
pub data Frame : Type 0 where
  text : String → Frame
  binary : List ℕ → Frame
  ping : Frame
  pong : Frame
  close : Frame
  other : Frame

abbrev pub first_answer : List Bool → Bool
first_answer [] = true
first_answer (answer ∷ rest) = answer

abbrev pub later_answers : List Bool → List Bool
later_answers [] = []
later_answers (answer ∷ rest) = rest

module _ (json : SignalJson) (from_slice : List ℕ → String ⊎ SignalMessage) where
  -- A message that was serialized, or not, with the loop on what follows.
  encoded : Option String → Bool → List String → List String → List String
  encoded none sent skipped rest = skipped
  encoded (some payload) true skipped rest = payload ∷ rest
  encoded (some payload) false skipped rest = []

  -- The texts that the writing task sends of the queued messages. One that does not serialize is
  -- left out, and a send that fails ends the task.
  unfoldable pub write_loop : List SignalMessage → List Bool → List String
  unfolding encoded
  write_loop [] sends = []
  write_loop (msg ∷ msgs) sends =
      encoded (json.to_string msg) (first_answer sends) (write_loop msgs sends)
        (write_loop msgs (later_answers sends))

  -- A payload that was parsed, with the loop on what follows.
  deliver :
      String ⊎ SignalMessage → Bool → List SignalMessage → List SignalMessage → List SignalMessage
  deliver (inl e) alive skipped rest = skipped
  deliver (inr msg) true skipped rest = msg ∷ rest
  deliver (inr msg) false skipped rest = []

  -- The messages that the reading task puts on the inbound channel, from what the stream yields:
  -- `none` is an error of the stream, and the end of the list is its end.
  unfoldable pub read_loop : List (Option Frame) → List Bool → List SignalMessage
  unfolding deliver
  read_loop [] sends = []
  read_loop (none ∷ stream) sends = []
  read_loop (some (Frame.text payload) ∷ stream) sends =
      deliver (json.from_str payload) (first_answer sends) (read_loop stream sends)
        (read_loop stream (later_answers sends))
  read_loop (some (Frame.binary bytes) ∷ stream) sends =
      deliver (from_slice bytes) (first_answer sends) (read_loop stream sends)
        (read_loop stream (later_answers sends))
  read_loop (some Frame.ping ∷ stream) sends = read_loop stream sends
  read_loop (some Frame.pong ∷ stream) sends = read_loop stream sends
  read_loop (some Frame.close ∷ stream) sends = []
  read_loop (some Frame.other ∷ stream) sends = read_loop stream sends

-- The two channels of a client: what was put on the outbound one, whether its task still reads it,
-- and what waits on the inbound one.
pub record SignalingClient : Type 0 where
  pub outbound : List SignalMessage
  pub outbound_open : Bool
  pub inbound : List SignalMessage

unfoldable pub send : SignalMessage → Exec SignalingClient (Unit {0})
send msg client =
    if client.outbound_open
    then (ok tt, record client { outbound = client.outbound ++ msg ∷ [] })
    else (err (message "signaling channel closed"), client)

take_first : SignalingClient → List SignalMessage → Option SignalMessage × SignalingClient
take_first client [] = (none, client)
take_first client (msg ∷ msgs) = (some msg, record client { inbound = msgs })

-- `none` once the reading task has ended and the channel is empty.
unfoldable pub recv : SignalingClient → Option SignalMessage × SignalingClient
unfolding take_first
recv client = take_first client client.inbound

-- The client after `connect_async` gave its answer; the tasks have just been started.
unfoldable pub connect : Result (Unit {0}) → String → Exec SignalingClient (Unit {0})
unfolding send
connect dialled peer_id = do
  with_context "connect signaling ws" (λ client. (dialled, client))
  with_context "send register" (send (SignalMessage.register peer_id))

abbrev pub fresh : SignalingClient
fresh = record { outbound = []; outbound_open = true; inbound = [] }

-- What is written is a text, and is read back.
pub record ReadsBack (json : SignalJson) : Type 0 where
  pub reads_back :
      (msg : SignalMessage) (payload : String)
      → json.to_string msg ≡ some payload
      → json.from_str payload ≡ inr msg

module _ (json : SignalJson) (from_slice : List ℕ → String ⊎ SignalMessage)
    (law : ReadsBack json) where
  -- What one side reads of what the other side writes.
  abbrev pub transmitted : List SignalMessage → List Bool → List Bool → List SignalMessage
  transmitted msgs sends reads =
      read_loop json from_slice
        (map (λ (t : String). some (Frame.text t)) (write_loop json from_slice msgs sends)) reads

  abbrev pub Writes : SignalMessage → Type 0
  Writes msg = (payload : String) × (json.to_string msg ≡ some payload)

  module _ (msg : SignalMessage) (msgs : List SignalMessage) (payload : String)
      (e : json.to_string msg ≡ some payload) (sends reads : List Bool) where
    kept_cons :
        first_answer sends ≡ true
        → first_answer reads ≡ true
        → transmitted (msg ∷ msgs) sends reads
          ≡ msg ∷ transmitted msgs (later_answers sends) (later_answers reads)
    unfolding write_loop read_loop
    kept_cons sent kept = rw (e, sent, law.reads_back msg payload e, kept) refl

    gone_cons :
        first_answer sends ≡ true
        → first_answer reads ≡ false
        → transmitted (msg ∷ msgs) sends reads ≡ []
    unfolding write_loop read_loop
    gone_cons sent gone = rw (e, sent, law.reads_back msg payload e, gone) refl

    broken_cons : first_answer sends ≡ false → transmitted (msg ∷ msgs) sends reads ≡ []
    unfolding write_loop read_loop
    broken_cons broken = rw (e, broken) refl

  -- From a client's queue to a reader, over a stream that carries texts unchanged, for messages
  -- that serialize, whatever sends fail on either side: what is read is a first part of what was
  -- queued, in its order; where no send fails it is all of it.
  pub transmitted-queue :
      (msgs : List SignalMessage) (sends reads : List Bool)
      → All Writes msgs
      → ((rest : List SignalMessage) × (msgs ≡ transmitted msgs sends reads ++ rest))
        × (transmitted msgs [] [] ≡ msgs)
  unfolding write_loop read_loop
  transmitted-queue [] sends reads w = (([], refl), refl)
  transmitted-queue (msg ∷ msgs) sends reads ((payload, e), w) =
      let later = transmitted-queue msgs (later_answers sends) (later_answers reads) w in
      (
        elim (Bool-cases (first_answer sends)) [
          | inl sent ↦ elim (Bool-cases (first_answer reads)) [
            | inl kept ↦
                rw (kept_cons msg msgs payload e sends reads sent kept)
                  (later.0.0, ap (msg ∷◌) later.0.1)
            | inr gone ↦ rw (gone_cons msg msgs payload e sends reads sent gone) (msg ∷ msgs, refl)
          ]
          | inr broken ↦ rw (broken_cons msg msgs payload e sends reads broken) (msg ∷ msgs, refl)
        ],
        kept_cons msg msgs payload e [] [] refl refl ∙ ap (msg ∷◌) later.1,
      )

  -- A client that connects: whatever it queues then, the first text that it writes is its
  -- registration, and a server that handles this text on a socket that is still served holds the
  -- socket under the client's name.
  pub connect-step :
      (peer_id payload : String) (socket : ℕ) (server : Server) (msgs : List SignalMessage)
      → json.to_string (SignalMessage.register peer_id) ≡ some payload
      → server.ended socket ≡ false
      → ((connect (ok tt) peer_id fresh).0 ≡ ok tt)
        × ((rest : List String) × (write_loop json from_slice
                ((connect (ok tt) peer_id fresh).1.outbound ++ msgs)
                []
              ≡ payload ∷ rest))
        × ((step json server (socket, Incoming.text payload)).peers peer_id ≡ some socket)
  unfolding connect send write_loop step handle_incoming handle_parsed handle_signal register_peer
      ◌>>=◌ with_context
  connect-step peer_id payload socket server msgs e served = (
    refl,
    (write_loop json from_slice msgs [], rw e refl),
    rw (served, law.reads_back (SignalMessage.register peer_id) payload e, eq_refl peer_id) refl,
  )
