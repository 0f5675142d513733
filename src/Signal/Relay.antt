-- ===== src/Signal/Relay.antt =====
-- What the signalling server of crates/signaling-server/src/main.rs promises its peers.
pub mod Names
use send_rs.Prelude.{
  ℕ, Bool, true, false, String, Option, none, some, List, [], ◌∷◌, ◌++◌, ◌==◌, ◌⊎◌, inl, inr, ◌≡◌,
  ◌≢◌, refl, sym, ap, ◌∙◌, subst, if◌then◌else◌, eq_iff, eq_refl, arith,
}
use mathlib.Core.Option.{some-injective, none-ne-some}
use send_rs.Signal.{
  SignalMessage, target_peer, SignalJson, Incoming, Server, initial, send_to, relay_payload,
  relay_found, relay_target, relay, register_peer, handle_signal, handle_parsed, forget, end_socket,
  handle_incoming, step, handle_sockets,
}

-- The text that an arrival carries.
abbrev body : SignalJson → Incoming → Option String
body json (Incoming.text t) = some t
body json (Incoming.binary bs) = some (json.from_utf8_lossy bs)
body json Incoming.ping = none
body json Incoming.pong = none
body json Incoming.close = none
body json Incoming.failed = none
body json Incoming.closed = none

-- An arrival that registers this name.
abbrev Registers : SignalJson → String → Incoming → Type 0
Registers json name m =
    (t : String) × (body json m ≡ some t) × (json.from_str t ≡ inr (SignalMessage.register name))

-- Of a socket's own arrivals, one registers this name.
pub data HasRegistered (json : SignalJson) (name : String) (s : ℕ)
    : List (ℕ × Incoming) → Type 0 where
  here :
      (m : Incoming) (es : List (ℕ × Incoming))
      → Registers json name m
      → HasRegistered json name s ((s, m) ∷ es)
  there :
      (e : ℕ × Incoming) (es : List (ℕ × Incoming))
      → HasRegistered json name s es
      → HasRegistered json name s (e ∷ es)

-- One arrival leaves a name where it was, drops it, or gives it to the socket that registers it.
abbrev Moved : SignalJson → ℕ → Incoming → String → Option ℕ → Option ℕ → Type 0
Moved json s m name before after =
    (after ≡ before) ⊎ ((after ≡ none) ⊎ ((after ≡ some s) × Registers json name m))

module _ (json : SignalJson) (s : ℕ) where
  payload-peers : (tx : ℕ) (p : Option String) (w : Server) → (relay_payload tx p w).peers ≡ w.peers
  unfolding relay_payload send_to
  payload-peers tx none w = refl
  payload-peers tx (some payload) w = refl

  target-peers :
      (other : SignalMessage) (target : Option String) (w : Server)
      → (relay_target json s other target w).peers ≡ w.peers
  unfolding relay_target relay_found send_to
  target-peers other none w = refl
  target-peers other (some target) w = found (w.peers target)
    where
      found : (o : Option ℕ) → (relay_found json s other target o w).peers ≡ w.peers
      found none = refl
      found (some tx) = payload-peers tx (json.to_string other) w

  relay-peers : (other : SignalMessage) (w : Server) → (relay json s other w).peers ≡ w.peers
  unfolding relay
  relay-peers other w = target-peers other (target_peer other) w

  relay-Moved :
      (w : Server) (m : Incoming) (name : String) (other : SignalMessage)
      → Moved json s m name (w.peers name) ((relay json s other w).peers name)
  relay-Moved w m name other = inl (ap (λ peers. peers name) (relay-peers other w))

  forget-Moved :
      (w : Server) (m : Incoming) (name : String) (id : Option String)
      → Moved json s m name (w.peers name) ((forget id w).peers name)
  unfolding forget
  forget-Moved w m name none = inl refl
  forget-Moved w m name (some id) = dropped (name == id)
    where
      dropped : (b : Bool) → Moved json s m name (w.peers name) (if b then none else w.peers name)
      dropped true = inr (inl refl)
      dropped false = inl refl

  end_socket-Moved :
      (w : Server) (m : Incoming) (name : String)
      → Moved json s m name (w.peers name) ((end_socket s w).peers name)
  unfolding end_socket
  end_socket-Moved w m name = forget-Moved w m name (w.registered_peer s)

  register-Moved :
      (w : Server) (m : Incoming) (name id t : String)
      → body json m ≡ some t
      → json.from_str t ≡ inr (SignalMessage.register id)
      → (b : Bool) → (name == id) ≡ b
      → Moved json s m name (w.peers name) (if b then some s else w.peers name)
  register-Moved w m name id t h k true e = inr (
      inr (refl, (t, h, k ∙ ap (λ i. inr (SignalMessage.register i)) (sym ((eq_iff name id).0 e)))))
  register-Moved w m name id t h k false e = inl refl

  signal-Moved :
      (w : Server) (m : Incoming) (name t : String)
      → body json m ≡ some t
      → (signal : SignalMessage) → json.from_str t ≡ inr signal
      → Moved json s m name (w.peers name) ((handle_signal json s signal w).peers name)
  unfolding handle_signal register_peer
  signal-Moved w m name t h (SignalMessage.register id) k =
      register-Moved w m name id t h k (name == id) refl
  signal-Moved w m name t h (SignalMessage.offer a b c) k =
      relay-Moved w m name (SignalMessage.offer a b c)
  signal-Moved w m name t h (SignalMessage.answer a b c) k =
      relay-Moved w m name (SignalMessage.answer a b c)
  signal-Moved w m name t h (SignalMessage.candidate a b c) k =
      relay-Moved w m name (SignalMessage.candidate a b c)
  signal-Moved w m name t h (SignalMessage.punch_result a b c d) k =
      relay-Moved w m name (SignalMessage.punch_result a b c d)
  signal-Moved w m name t h (SignalMessage.disconnect a b c) k =
      relay-Moved w m name (SignalMessage.disconnect a b c)
  signal-Moved w m name t h (SignalMessage.error a) k = relay-Moved w m name (SignalMessage.error a)

  result-Moved :
      (w : Server) (m : Incoming) (name t : String)
      → body json m ≡ some t
      → (r : String ⊎ SignalMessage) → json.from_str t ≡ r
      → Moved json s m name (w.peers name) ((handle_parsed json s r w).peers name)
  unfolding handle_parsed send_to
  result-Moved w m name t h (inl e) k = inl refl
  result-Moved w m name t h (inr signal) k = signal-Moved w m name t h signal k

  handle_incoming-Moved :
      (w : Server) (m : Incoming) (name : String)
      → Moved json s m name (w.peers name) ((handle_incoming json s m w).peers name)
  unfolding handle_incoming
  handle_incoming-Moved w (Incoming.text t) name =
      result-Moved w (Incoming.text t) name t refl (json.from_str t) refl
  handle_incoming-Moved w (Incoming.binary bs) name =
      let t = json.from_utf8_lossy bs in
      result-Moved w (Incoming.binary bs) name t refl (json.from_str t) refl
  handle_incoming-Moved w Incoming.ping name = inl refl
  handle_incoming-Moved w Incoming.pong name = inl refl
  handle_incoming-Moved w Incoming.close name = end_socket-Moved w Incoming.close name
  handle_incoming-Moved w Incoming.failed name = end_socket-Moved w Incoming.failed name
  handle_incoming-Moved w Incoming.closed name = end_socket-Moved w Incoming.closed name

  step-Moved :
      (w : Server) (m : Incoming) (name : String)
      → Moved json s m name (w.peers name) ((step json w (s, m)).peers name)
  unfolding step
  step-Moved w m name = choose (w.ended s)
    where
      choose :
          (b : Bool)
          → Moved json s m name
              (w.peers name)
              ((if b then w else handle_incoming json s m w).peers name)
      choose true = inl refl
      choose false = handle_incoming-Moved w m name

module _ (json : SignalJson) (name : String) where
  -- The table, from a start on, names no socket but those that register the name.
  owner-from :
      (es : List (ℕ × Incoming)) (w : Server) (tx : ℕ)
      → (handle_sockets json w es).peers name ≡ some tx
      → (w.peers name ≡ some tx) ⊎ HasRegistered json name tx es
  unfolding handle_sockets
  owner-from [] w tx h = inl h
  owner-from ((s, m) ∷ es) w tx h = elim (owner-from es (step json w (s, m)) tx h) [
    | inr later ↦ inr (HasRegistered.there (s, m) es later)
    | inl now ↦ elim (step-Moved json s w m name) [
      | inl same ↦ inl (sym same ∙ now)
      | inr (inl gone) ↦ absurd (none-ne-some tx (sym gone ∙ now))
      | inr (inr (own, reg)) ↦ inr (
          subst (λ x. HasRegistered json name x ((s, m) ∷ es)) (some-injective s tx (sym own ∙ now))
            (HasRegistered.here m es reg))
    ]
  ]

-- After any sequence of arrivals at a new server, the socket that the table holds for a name has
-- itself registered under that name: nothing for a peer is relayed to a socket that never claimed
-- to be that peer.
pub peers-HasRegistered :
    (json : SignalJson) (es : List (ℕ × Incoming)) (name : String) (tx : ℕ)
    → (handle_sockets json initial es).peers name ≡ some tx
    → HasRegistered json name tx es
peers-HasRegistered json es name tx h = elim (owner-from json name es initial tx h) [
  | inl e ↦ absurd (none-ne-some tx e)
  | inr r ↦ r
]

pub handle_signal-relay :
    (json : SignalJson) (s : ℕ) (other : SignalMessage) (w : Server) (name : String)
    → target_peer other ≡ some name
    → handle_signal json s other w ≡ relay json s other w
unfolding handle_signal target_peer
handle_signal-relay json s (SignalMessage.register id) w name h = absurd (none-ne-some name h)
handle_signal-relay json s (SignalMessage.offer a b c) w name h = refl
handle_signal-relay json s (SignalMessage.answer a b c) w name h = refl
handle_signal-relay json s (SignalMessage.candidate a b c) w name h = refl
handle_signal-relay json s (SignalMessage.punch_result a b c d) w name h = refl
handle_signal-relay json s (SignalMessage.disconnect a b c) w name h = refl
handle_signal-relay json s (SignalMessage.error a) w name h = refl

-- What an arrival with this text does on a socket that is still served.
pub step-text :
    (json : SignalJson) (w : Server) (s : ℕ) (t : String) (signal : SignalMessage)
    → w.ended s ≡ false
    → json.from_str t ≡ inr signal
    → step json w (s, Incoming.text t) ≡ handle_signal json s signal w
unfolding step handle_incoming handle_parsed
step-text json w s t signal e k = rw (e, k) refl

pub relay-sent :
    (json : SignalJson) (s tx : ℕ) (other : SignalMessage) (w : Server) (name payload : String)
    → target_peer other ≡ some name
    → w.peers name ≡ some tx
    → json.to_string other ≡ some payload
    → (relay json s other w).sent ≡ w.sent ++ ((tx, payload) ∷ [])
unfolding relay relay_target relay_found relay_payload send_to
relay-sent json s tx other w name payload h k p = rw (h, k, p) refl
