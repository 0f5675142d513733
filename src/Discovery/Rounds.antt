-- ===== src/Discovery/Rounds.antt =====
-- What a listener of crates/discovery/src/lib.rs keeps from round to round, and what the network does
-- when no call on a socket fails.
use Prim.Native.String.{◌++◌ as ◌<>◌}
use mathlib.Core.Option.{none-ne-some}
use send_rs.Prelude.{
  ℕ, suc, ◌+◌, ◌<◌, Bool, true, false, String, some, List, [], ◌∷◌, ◌++◌, ◌==◌, if◌then◌else◌, ltb,
  ◌≡◌, refl, arith, All, get_elem?, decimal,
}
use send_rs.Exec.{ok, with_context, ◌>>=◌}
use send_rs.Discovery.{
  DiscoveryPacket, DiscoveryJson, Seen, Received, lookup, into_values, see_datagram, round, go_on,
  listen,
}
use send_rs.Discovery.Sockets.{
  Network, socket_call, bind, set_option, send_to, heard, broadcast_packet, receive_all,
  listen_for_snapshot,
}

-- A round whose read did not break.
abbrev pub IsQuiet : Received → Type 0
IsQuiet (Received.datagram now ip payload) = Unit {0}
IsQuiet Received.timed_out = Unit {0}
IsQuiet (Received.broken e) = ⊥

-- A quiet round that begins before the deadline.
abbrev pub IsInTime : ℕ → ℕ × Received → Type 0
IsInTime deadline (at, r) = (at < deadline) × IsQuiet r

module _ (json : DiscoveryJson) where
  -- What a round returned does not break, and keeps a condition on the tables.
  abbrev pub Keeps : (Seen → Type 0) → Received → Type 0
  Keeps Q (Received.datagram now ip payload) =
      (seen : Seen) → Q seen → Q (see_datagram json now ip payload seen)
  Keeps Q Received.timed_out = Unit {0}
  Keeps Q (Received.broken e) = ⊥

  pub IsQuiet-Keeps :
      (Q : Seen → Type 0)
      → ((now : ℕ) (ip : String) (payload : List ℕ) (seen : Seen)
          → Q seen
          → Q (see_datagram json now ip payload seen))
      → (rounds : List (ℕ × Received)) → All (λ r. IsQuiet r.1) rounds
      → All (λ r. Keeps Q r.1) rounds
  IsQuiet-Keeps Q keep [] quiet = tt
  IsQuiet-Keeps Q keep ((at, Received.datagram now ip payload) ∷ rounds) (q, quiet) =
      (keep now ip payload, IsQuiet-Keeps Q keep rounds quiet)
  IsQuiet-Keeps Q keep ((at, Received.timed_out) ∷ rounds) (q, quiet) =
      (tt, IsQuiet-Keeps Q keep rounds quiet)
  IsQuiet-Keeps Q keep ((at, Received.broken e) ∷ rounds) (q, quiet) = elim q [ ]

  -- The tables after one round.
  round-Keeps :
      (Q : Seen → Type 0) (r : Received) (seen : Seen)
      → Keeps Q r
      → Q seen
      → (t : Seen) × (round json r seen ≡ ok t) × Q t
  unfolding round
  round-Keeps Q (Received.datagram now ip payload) seen keep q =
      (see_datagram json now ip payload seen, refl, keep seen q)
  round-Keeps Q Received.timed_out seen keep q = (seen, refl, q)
  round-Keeps Q (Received.broken e) seen keep q = elim keep [ ]

  -- What holds stays so to the end.
  listen-Keeps :
      (Q : Seen → Type 0) (deadline : ℕ) (rounds : List (ℕ × Received)) (seen : Seen)
      → All (λ r. Keeps Q r.1) rounds
      → Q seen
      → (t : Seen) × (listen json deadline rounds seen ≡ ok t) × Q t
  unfolding listen go_on
  listen-Keeps Q deadline [] seen all q = (seen, refl, q)
  listen-Keeps Q deadline ((at, r) ∷ rounds) seen (keep, all) q =
      let (t, goes, kept) = round-Keeps Q r seen keep q in
      let (u, ends, last) = listen-Keeps Q deadline rounds t all kept in
      by_clock (ltb at deadline) (u, rw goes ends, last)
    where
      by_clock :
          (b : Bool)
          → (t : Seen) × (go_on (listen json deadline rounds) (round json r seen) ≡ ok t) × Q t
          → (t : Seen) × ((if b
                then go_on (listen json deadline rounds) (round json r seen)
                else ok seen)
              ≡ ok t)
            × Q t
      by_clock true went = went
      by_clock false went = (seen, refl, q)

  pub listen_hears :
      (Q : Seen → Type 0) (deadline : ℕ) (before after : List (ℕ × Received)) (seen : Seen)
      (at now : ℕ) (ip : String) (payload : List ℕ)
      → ((s : Seen) → Q (see_datagram json now ip payload s))
      → All (IsInTime deadline) before
      → at < deadline
      → All (λ r. Keeps Q r.1) after
      → (t : Seen) × (listen json deadline
            (before ++ (at, Received.datagram now ip payload) ∷ after)
            seen
          ≡ ok t)
        × Q t
  unfolding listen round go_on
  listen_hears Q deadline [] after seen at now ip payload makes early in_time all =
      let goes : ltb at deadline ≡ true = ground arith in
      rw goes
        (listen-Keeps Q deadline after (see_datagram json now ip payload seen) all (makes seen))
  listen_hears Q deadline ((first, r) ∷ before) after seen at now ip payload makes (e, early)
        in_time all =
      let goes : ltb first deadline ≡ true = ground arith in
      rw goes (
        choose
          (λ s. listen_hears Q deadline before after s at now ip payload makes early in_time all) r
          e.1)
    where
      choose :
          ((s : Seen)
            → (t : Seen) × (listen json deadline
                  (before ++ (at, Received.datagram now ip payload) ∷ after)
                  s
                ≡ ok t)
              × Q t)
          → (r : Received) → IsQuiet r
          → (t : Seen) × (go_on
                (listen json deadline (before ++ (at, Received.datagram now ip payload) ∷ after))
                (round json r seen)
              ≡ ok t)
            × Q t
      choose onward (Received.datagram now' ip' other) q =
          onward (see_datagram json now' ip' other seen)
      choose onward Received.timed_out q = onward seen
      choose onward (Received.broken x) q = elim q [ ]

-- What a key finds is among the values.
pub lookup-into_values :
    {V : Type 0} (k : String) (v : V) (l : List (String × V))
    → lookup k l ≡ some v
    → (i : ℕ) × (get_elem? (into_values l) i ≡ some v)
unfolding lookup into_values
lookup-into_values k v [] h = absurd (none-ne-some v h)
lookup-into_values k v ((j, u) ∷ l) h = choose (lookup-into_values k v l) (j == k) h
  where
    choose :
        (lookup k l ≡ some v → (i : ℕ) × (get_elem? (into_values l) i ≡ some v))
        → (b : Bool) → (if b then some u else lookup k l) ≡ some v
        → (i : ℕ) × (get_elem? (u ∷ into_values l) i ≡ some v)
    choose rest true g = (0, g)
    choose rest false g = let (i, at) = rest g in (suc i, at)

-- A network where every call succeeds.
abbrev pub calm : Network → Network
calm net = record net { answers = [] }

pub broadcast_packet-calm :
    (json : DiscoveryJson) (packet : DiscoveryPacket) (payload : List ℕ) (port : ℕ) (net : Network)
    → json.to_vec packet ≡ some payload
    → broadcast_packet json packet port (calm net) ≡ (
      ok tt,
      record net {
        answers = [];
        bound = net.bound ++ "0.0.0.0:0" ∷ [];
        sent = net.sent ++ ("255.255.255.255:" <> decimal port, payload) ∷ [];
      },
    )
unfolding broadcast_packet with_context ◌>>=◌ bind set_option send_to socket_call
broadcast_packet-calm json packet payload port net writes = rw writes refl

pub listen_for_snapshot-calm :
    (json : DiscoveryJson) (port timeout : ℕ) (net : Network)
    → (t : Network) × (listen_for_snapshot json port timeout (calm net) ≡ (
      heard (listen json (net.now + timeout) net.arriving (record { peers = []; offers = [] })),
      t,
    ))
unfolding listen_for_snapshot receive_all with_context ◌>>=◌ bind set_option socket_call
listen_for_snapshot-calm json port timeout net =
    (record net { answers = []; bound = net.bound ++ ("0.0.0.0:" <> decimal port) ∷ [] }, refl)
