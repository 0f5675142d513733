-- ===== src/Discovery/Offers.antt =====
-- What a listener of crates/discovery/src/lib.rs keeps of an announced share.
use mathlib.Core.List.{Mem, mem-cons_self, mem-cons_of_mem}
use mathlib.Core.Option.{none-ne-some, some-injective}
use send_rs.Prelude.{
  ℕ, ◌+◌, ◌<◌, Bool, true, false, String, Option, none, some, List, [], ◌∷◌, ◌++◌, ◌==◌,
  if◌then◌else◌, ◌≡◌, ◌≢◌, refl, sym, ap, ◌∙◌, subst, eq_iff, All,
}
use send_rs.Exec.{ok}
use send_rs.Discovery.{
  SharedOfferAnnouncement, DiscoveryPacket, DiscoveryJson, DiscoverySnapshot, DiscoveryBeacon, Seen,
  Received, lookup, into_values, offer_key, see_beacon, see_offer, see_packet, see_plain,
  see_either, see_datagram, listen,
}
use send_rs.Discovery.Sockets.{Network, heard, listen_for_snapshot}
use send_rs.Discovery.Table.{lookup-insert}
use send_rs.Discovery.Rounds.{IsInTime, Keeps, listen_hears, calm, listen_for_snapshot-calm}

-- An announcement is in the table under its key.
abbrev pub Holds : String → SharedOfferAnnouncement → Seen → Type 0
Holds key offer seen = lookup key seen.offers ≡ some offer

-- A read that did not break, and brought no announcement under the key.
abbrev pub IsOther : DiscoveryJson → String → Received → Type 0
IsOther json key (Received.datagram now ip payload) =
    (offer : SharedOfferAnnouncement)
    → json.packet payload ≡ some (DiscoveryPacket.share_offer offer)
    → offer_key offer ≢ key
IsOther json key Received.timed_out = Unit {0}
IsOther json key (Received.broken e) = ⊥

see_offer_keeps :
    (key : String) (other offer : SharedOfferAnnouncement) (seen : Seen)
    → offer_key other ≢ key
    → Holds key offer seen
    → Holds key offer (see_offer other seen)
unfolding see_offer
see_offer_keeps key other offer seen apart held =
    lookup-insert (offer_key other) key other seen.offers ∙ choose (offer_key other == key) refl
  where
    choose :
        (b : Bool)
        → (offer_key other == key) ≡ b
        → (if b then some other else lookup key seen.offers) ≡ some offer
    choose true e = absurd (apart ((eq_iff (offer_key other) key).0 e))
    choose false e = held

pub see_datagram-Holds :
    (json : DiscoveryJson) (now : ℕ) (ip : String) (payload : List ℕ)
    (offer : SharedOfferAnnouncement)
    → json.packet payload ≡ some (DiscoveryPacket.share_offer offer)
    → (seen : Seen) → Holds (offer_key offer) offer (see_datagram json now ip payload seen)
unfolding see_datagram see_either see_packet see_offer
see_datagram-Holds json now ip payload offer reads seen = rw reads (
    lookup-insert (offer_key offer) (offer_key offer) offer seen.offers
    ∙ ap (λ b. if b then some offer else lookup (offer_key offer) seen.offers)
        ((eq_iff (offer_key offer) (offer_key offer)).1 refl))

module _ (json : DiscoveryJson) (key : String) (offer : SharedOfferAnnouncement) where
  pub IsOther-Keeps :
      (rounds : List (ℕ × Received))
      → All (λ r. IsOther json key r.1) rounds
      → All (λ r. Keeps json (Holds key offer) r.1) rounds
  unfolding see_datagram see_either see_packet see_plain see_beacon
  IsOther-Keeps [] others = tt
  IsOther-Keeps ((at, Received.timed_out) ∷ rounds) (q, others) = (tt, IsOther-Keeps rounds others)
  IsOther-Keeps ((at, Received.broken e) ∷ rounds) (q, others) = elim q [ ]
  IsOther-Keeps ((at, Received.datagram now ip payload) ∷ rounds) (q, others) = (
    λ seen held. keeps seen held (json.packet payload) (json.plain_beacon payload) q,
    IsOther-Keeps rounds others,
  )
    where
      keeps :
          (seen : Seen)
          → Holds key offer seen
          → (packet : Option DiscoveryPacket) (plain : Option DiscoveryBeacon)
          → ((other : SharedOfferAnnouncement)
              → packet ≡ some (DiscoveryPacket.share_offer other)
              → offer_key other ≢ key)
          → Holds key offer (see_either now ip packet plain seen)
      keeps seen held (some (DiscoveryPacket.beacon b)) plain apart = held
      keeps seen held (some (DiscoveryPacket.share_offer other)) plain apart =
          see_offer_keeps key other offer seen (apart other refl) held
      keeps seen held none none apart = held
      keeps seen held none (some b) apart = held

pub lookup-Mem :
    {V : Type 0} (k : String) (v : V) (l : List (String × V))
    → lookup k l ≡ some v
    → Mem v (into_values l)
unfolding lookup into_values
lookup-Mem k v [] h = absurd (none-ne-some v h)
lookup-Mem k v ((j, u) ∷ l) h = choose (lookup-Mem k v l) (j == k) h
  where
    choose :
        (lookup k l ≡ some v → Mem v (into_values l))
        → (b : Bool) → (if b then some u else lookup k l) ≡ some v
        → Mem v (u ∷ into_values l)
    choose rest true g =
        subst (λ x. Mem v (x ∷ into_values l)) (sym (some-injective u v g)) mem-cons_self
    choose rest false g = mem-cons_of_mem u (rest g)

-- The snapshot of a listener that an announcement has reached.
pub listen_for_snapshot-Holds :
    (json : DiscoveryJson) (offer : SharedOfferAnnouncement) (payload : List ℕ) (port timeout : ℕ)
    (net : Network) (at now : ℕ) (ip : String) (before after : List (ℕ × Received))
    → json.packet payload ≡ some (DiscoveryPacket.share_offer offer)
    → net.arriving ≡ before ++ (at, Received.datagram now ip payload) ∷ after
    → All (IsInTime (net.now + timeout)) before
    → at < net.now + timeout
    → All (λ r. IsOther json (offer_key offer) r.1) after
    → (t : Network) × (snapshot : DiscoverySnapshot) × (listen_for_snapshot json port timeout
          (calm net)
        ≡ (ok snapshot, t))
      × Mem offer snapshot.offers
unfolding heard
listen_for_snapshot-Holds json offer payload port timeout net at now ip before after reads arriving
      early in_time others =
    let nothing : Seen = record { peers = []; offers = [] } in
    let (seen, hears, held) =
      listen_hears json (Holds (offer_key offer) offer) (net.now + timeout) before after nothing at
        now ip payload (see_datagram-Holds json now ip payload offer reads) early in_time
        (IsOther-Keeps json (offer_key offer) offer after others) in
    let (t, returns) = listen_for_snapshot-calm json port timeout net in
    (
      t,
      record { peers = into_values seen.peers; offers = into_values seen.offers },
      returns
          ∙ ap (λ r. (heard r, t))
              (ap (λ rounds. listen json (net.now + timeout) rounds nothing) arriving ∙ hears),
      lookup-Mem (offer_key offer) offer seen.offers held,
    )
