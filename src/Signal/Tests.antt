-- ===== src/Signal/Tests.antt =====
-- The relay theorems at a concrete server, with a toy encoding of the messages.
use mathlib.Core.Option.{none-ne-some, some-injective}
use send_rs.Exec.{ok}
use send_rs.Signal.Client.{
  ReadsBack, transmitted, transmitted-queue, connect, connect-step, fresh, write_loop,
}
use send_rs.Prelude.{
  ℕ, String, Option, List, true, false, sym, ap, ◌⊎◌, ◌++◌, ◌≡◌, refl, none, some, [], ◌∷◌, ◌==◌,
  inl, inr, if◌then◌else◌, arith,
}
use send_rs.Signal.{
  SignalMessage, SignalJson, Incoming, initial, target_peer, register_peer, handle_signal,
  handle_parsed, end_socket, handle_incoming, step, handle_sockets,
}
use send_rs.Signal.Relay.{HasRegistered, peers-HasRegistered}
use send_rs.Signal.Relay.Names.{register-relay, end_socket-register}

abbrev hello : SignalMessage
hello = SignalMessage.offer "a" "b" "hello"

abbrev json : SignalJson
json = record {
  to_string = λ m. some "hello";
  from_str = λ t.
      if t == "register b"
      then inr (SignalMessage.register "b")
      else if t == "hello"
      then inr hello
      else inl "expected value";
  from_utf8_lossy = λ bs. "";
}

peers-HasRegistered_example : HasRegistered json "b" 2 ((2, Incoming.text "register b") ∷ [])
unfolding handle_sockets step handle_incoming handle_parsed handle_signal register_peer
peers-HasRegistered_example =
    peers-HasRegistered json ((2, Incoming.text "register b") ∷ []) "b" 2 refl

register-relay_example :
    (handle_sockets json initial
      ((2, Incoming.text "register b") ∷ (1, Incoming.text "hello") ∷ [])).sent
    ≡ (2, "hello") ∷ []
unfolding target_peer
register-relay_example =
    register-relay json initial 2 1 "register b" "hello" "b" "hello" hello refl refl refl refl refl
      refl

end_socket-register_example :
    ((end_socket 1 (register_peer 2 "b" (register_peer 1 "b" initial))).peers "b" ≡ none)
    × ((end_socket 1 (register_peer 2 "b" (register_peer 1 "b" initial))).registered_peer 2
        ≡ some "b")
end_socket-register_example = end_socket-register 1 2 "b" initial (omega arith)

-- An encoding of registrations as names.
abbrev name_of : SignalMessage → Option String
name_of (SignalMessage.register peer_id) = some peer_id
name_of (SignalMessage.offer from to sdp) = none
name_of (SignalMessage.answer from to sdp) = none
name_of (SignalMessage.candidate from to c) = none
name_of (SignalMessage.punch_result from to success reason) = none
name_of (SignalMessage.disconnect from to reason) = none
name_of (SignalMessage.error message) = none

abbrev names : SignalJson
names = record {
  to_string = name_of;
  from_str = λ t. inr (SignalMessage.register t);
  from_utf8_lossy = λ bs. "";
}

registered_back :
    (msg : SignalMessage) (payload : String)
    → name_of msg ≡ some payload
    → names.from_str payload ≡ inr msg
registered_back (SignalMessage.register peer_id) payload e =
    ap (λ p. inr (SignalMessage.register p)) (sym (some-injective peer_id payload e))
registered_back (SignalMessage.offer from to sdp) payload e = absurd (none-ne-some payload e)
registered_back (SignalMessage.answer from to sdp) payload e = absurd (none-ne-some payload e)
registered_back (SignalMessage.candidate from to c) payload e = absurd (none-ne-some payload e)
registered_back (SignalMessage.punch_result from to success reason) payload e =
    absurd (none-ne-some payload e)
registered_back (SignalMessage.disconnect from to reason) payload e =
    absurd (none-ne-some payload e)
registered_back (SignalMessage.error message) payload e = absurd (none-ne-some payload e)

names-ReadsBack : ReadsBack names
names-ReadsBack = record { reads_back = registered_back }

no_slice : List ℕ → String ⊎ SignalMessage
no_slice bytes = inl "expected value"

abbrev queue : List SignalMessage
queue = SignalMessage.register "a" ∷ SignalMessage.register "b" ∷ []

-- The second send fails.
transmitted-queue_example :
    ((rest : List SignalMessage) × (queue
        ≡ transmitted names no_slice names-ReadsBack queue (true ∷ false ∷ []) [] ++ rest))
    × (transmitted names no_slice names-ReadsBack queue [] [] ≡ queue)
transmitted-queue_example =
    transmitted-queue names no_slice names-ReadsBack queue (true ∷ false ∷ []) []
      (("a", refl), (("b", refl), tt))

connect-step_example :
    ((connect (ok tt) "a" fresh).0 ≡ ok tt)
    × ((rest : List String) × (write_loop names no_slice
            ((connect (ok tt) "a" fresh).1.outbound ++ [])
            []
          ≡ "a" ∷ rest))
    × ((step names initial (7, Incoming.text "a")).peers "a" ≡ some 7)
connect-step_example = connect-step names no_slice names-ReadsBack "a" "a" 7 initial [] refl refl
