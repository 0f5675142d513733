-- ===== src/Signal/Relay/Names.antt =====
-- What becomes of a name in the relay of crates/signaling-server/src/main.rs when sockets register it and end.
use send_rs.Prelude.{
  ℕ, false, String, none, some, [], ◌∷◌, ◌++◌, inr, ◌≡◌, ◌≢◌, refl, ap, ◌∙◌, eq_refl, arith,
}
use send_rs.Signal.{
  SignalMessage, target_peer, SignalJson, Incoming, Server, register_peer, handle_signal, forget,
  end_socket, step, handle_sockets,
}
use send_rs.Signal.Relay.{handle_signal-relay, step-text, relay-sent}

module _ (json : SignalJson) (a : ℕ) (name : String) (w : Server) where
  register-step : handle_signal json a (SignalMessage.register name) w ≡ register_peer a name w
  unfolding handle_signal
  register-step = refl

  register-ended : (b : ℕ) → w.ended b ≡ false → (register_peer a name w).ended b ≡ false
  unfolding register_peer
  register-ended b h = h

  register-peers : (register_peer a name w).peers name ≡ some a
  unfolding register_peer
  register-peers = rw (eq_refl name) refl

  register-sent : (register_peer a name w).sent ≡ w.sent
  unfolding register_peer
  register-sent = refl

-- Once a socket that is still served has registered a name, a message for that name that arrives
-- next, on any socket still served, is put on the channel of the socket that registered, as it
-- came, and nothing else is sent.
pub register-relay :
    (json : SignalJson) (w : Server) (a b : ℕ) (t u name payload : String) (other : SignalMessage)
    → w.ended a ≡ false
    → w.ended b ≡ false
    → json.from_str t ≡ inr (SignalMessage.register name)
    → json.from_str u ≡ inr other
    → target_peer other ≡ some name
    → json.to_string other ≡ some payload
    → (handle_sockets json w ((a, Incoming.text t) ∷ (b, Incoming.text u) ∷ [])).sent
      ≡ w.sent ++ ((a, payload) ∷ [])
unfolding handle_sockets
register-relay json w a b t u name payload other ea eb ft fu target p =
    let first : step json w (a, Incoming.text t) ≡ register_peer a name w =
      step-text json w a t (SignalMessage.register name) ea ft ∙ register-step json a name w in
    ap (λ v. (step json v (b, Incoming.text u)).sent) first
    ∙ ap (λ v. v.sent)
        (step-text json (register_peer a name w) b u other (register-ended json a name w b eb) fu)
    ∙ ap (λ v. v.sent) (handle_signal-relay json b other (register_peer a name w) name target)
    ∙ relay-sent json b a other (register_peer a name w) name payload target
        (register-peers json a name w) p
    ∙ ap (λ l. l ++ ((a, payload) ∷ [])) (register-sent json a name w)

end_socket-drops :
    (s : ℕ) (name : String) (w : Server)
    → w.registered_peer s ≡ some name
    → (end_socket s w).peers name ≡ none
unfolding end_socket forget
end_socket-drops s name w h = rw (h, eq_refl name) refl

register-registered :
    (s : ℕ) (name : String) (w : Server) → (register_peer s name w).registered_peer s ≡ some name
unfolding register_peer
register-registered s name w = ground arith

register-registered_ne :
    (s r : ℕ) (name : String) (w : Server)
    → r ≢ s
    → (register_peer s name w).registered_peer r ≡ w.registered_peer r
unfolding register_peer
register-registered_ne s r name w h = ground arith

-- When a second socket registers a name that a first one holds, and then the first one ends, the
-- name is in the table no more, though the second socket is still registered under it.
pub end_socket-register :
    (a b : ℕ) (name : String) (w : Server)
    → a ≢ b
    → let v = end_socket a (register_peer b name (register_peer a name w)) in
      (v.peers name ≡ none) × (v.registered_peer b ≡ some name)
unfolding end_socket forget
end_socket-register a b name w h =
    let v = register_peer b name (register_peer a name w) in
    let first : v.registered_peer a ≡ some name =
      register-registered_ne b a name (register_peer a name w) h ∙ register-registered a name w in
    (
      end_socket-drops a name v first,
      rw first (register-registered b name (register_peer a name w)),
    )
