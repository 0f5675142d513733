-- ===== src/Discovery/Snapshot.antt =====
-- What holds of every snapshot that the listener of crates/discovery/src/lib.rs returns.
use send_rs.Prelude.{
  ℕ, Bool, true, false, String, Option, none, some, List, [], ◌∷◌, ◌++◌, ◌==◌, if◌then◌else◌, ltb,
  ◌≡◌, refl, ap, ◌∙◌, eq_iff, arith, All, ◌+◌,
}
use send_rs.Exec.{Exec, Result, ok, err, pure, with_context, and_then, ◌>>=◌}
use send_rs.Task.{PeerInfo}
use send_rs.Discovery.{
  DiscoveryBeacon, SharedOfferAnnouncement, DiscoveryPacket, DiscoveryJson, Seen, Received, lookup,
  insert, contains, addr_text, or_insert_with, touch, see_beacon, offer_key, see_offer, see_packet,
  see_plain, see_either, see_datagram, round, go_on, listen, DiscoverySnapshot,
}
use send_rs.Discovery.Sockets.{
  Network, default_discovery_port, bind, set_option, heard, receive_all, broadcast_beacon,
  listen_for_snapshot, discover_snapshot, discover_peers,
}
use send_rs.Discovery.Table.{lookup-insert, insert-All, All-lookup, into_values-All}

-- No text occurs twice.
unfoldable pub Distinct : List String → Type 0
Distinct [] = Unit {0}
Distinct (x ∷ xs) = (contains x xs ≡ false) × Distinct xs

contains-snoc :
    (x t : String) (xs : List String)
    → contains x xs ≡ false
    → (t == x) ≡ false
    → contains x (xs ++ (t ∷ [])) ≡ false
unfolding contains
contains-snoc x t [] h n = ground arith
contains-snoc x t (y ∷ ys) h n = ground (arith, contains-snoc x t ys)

Distinct-snoc :
    (t : String) (xs : List String)
    → contains t xs ≡ false
    → Distinct xs
    → Distinct (xs ++ (t ∷ []))
unfolding contains Distinct
Distinct-snoc t [] h d = (refl, tt)
Distinct-snoc t (x ∷ xs) h (n, d) = (
  contains-snoc x t xs n (ground (arith, eq_iff x t, eq_iff t x)),
  Distinct-snoc t xs (ground arith) d,
)

-- What the table keeps of a peer under its key, and of an offer.
abbrev pub PeerAt : String → PeerInfo → Type 0
PeerAt k p = (p.peer_id ≡ k) × Distinct p.addresses

abbrev pub OfferAt : String → SharedOfferAnnouncement → Type 0
OfferAt k offer = offer_key offer ≡ k

abbrev pub IsCoherent : Seen → Type 0
IsCoherent seen = All (λ e. PeerAt e.0 e.1) seen.peers × All (λ e. OfferAt e.0 e.1) seen.offers

touch-PeerAt : (now : ℕ) (text k : String) (p : PeerInfo) → PeerAt k p → PeerAt k (touch now text p)
unfolding touch
touch-PeerAt now text k p (e, d) = (e, choose (contains text p.addresses) refl)
  where
    choose :
        (b : Bool)
        → contains text p.addresses ≡ b
        → Distinct (if b then p.addresses else p.addresses ++ (text ∷ []))
    choose true h = d
    choose false h = Distinct-snoc text p.addresses h d

see_beacon-IsCoherent :
    (now : ℕ) (ip : String) (b : DiscoveryBeacon) (seen : Seen)
    → IsCoherent seen
    → IsCoherent (see_beacon now ip b seen)
unfolding see_beacon or_insert_with Distinct contains
see_beacon-IsCoherent now ip b seen (peers, offers) = (
  insert-All PeerAt b.peer_id _ seen.peers
      (touch-PeerAt now (addr_text ip b) b.peer_id _ (start (lookup b.peer_id seen.peers) refl))
      peers,
  offers,
)
  where
    start :
        (o : Option PeerInfo)
        → lookup b.peer_id seen.peers ≡ o
        → PeerAt b.peer_id (or_insert_with now ip b o)
    start none h = (refl, (refl, tt))
    start (some p) h = All-lookup PeerAt b.peer_id p seen.peers peers h

see_datagram-IsCoherent :
    (json : DiscoveryJson) (now : ℕ) (ip : String) (payload : List ℕ) (seen : Seen)
    → IsCoherent seen
    → IsCoherent (see_datagram json now ip payload seen)
unfolding see_datagram see_either see_packet see_plain see_offer
see_datagram-IsCoherent json now ip payload seen c =
    either (json.packet payload) (json.plain_beacon payload)
  where
    either :
        (packet : Option DiscoveryPacket) (plain : Option DiscoveryBeacon)
        → IsCoherent (see_either now ip packet plain seen)
    either (some (DiscoveryPacket.beacon b)) plain = see_beacon-IsCoherent now ip b seen c
    either (some (DiscoveryPacket.share_offer offer)) plain =
        (c.0, insert-All OfferAt (offer_key offer) offer seen.offers refl c.1)
    either none none = c
    either none (some b) = see_beacon-IsCoherent now ip b seen c

-- Of a result: the condition holds of the value, if there is one.
abbrev pub IfOk : {A : Type 0} → (A → Type 0) → Result A → Type 0
IfOk P (ok a) = P a
IfOk P (err e) = Unit {0}

pub listen-IsCoherent :
    (json : DiscoveryJson) (deadline : ℕ) (rounds : List (ℕ × Received)) (seen : Seen)
    → IsCoherent seen
    → IfOk IsCoherent (listen json deadline rounds seen)
unfolding listen round go_on
listen-IsCoherent json deadline [] seen c = c
listen-IsCoherent json deadline ((now, r) ∷ rounds) seen c =
    choose (listen-IsCoherent json deadline rounds) (ltb now deadline) r
  where
    choose :
        ((later : Seen) → IsCoherent later → IfOk IsCoherent (listen json deadline rounds later))
        → (b : Bool) (r : Received)
        → IfOk IsCoherent
            (if b then go_on (listen json deadline rounds) (round json r seen) else ok seen)
    choose rest false r = c
    choose rest true (Received.datagram at ip payload) =
        rest (see_datagram json at ip payload seen)
          (see_datagram-IsCoherent json at ip payload seen c)
    choose rest true Received.timed_out = rest seen c
    choose rest true (Received.broken e) = tt

bind-IfOk :
    {S A B : Type 0} (P : B → Type 0) (m : Exec S A) (f : A → Exec S B) (s : S)
    → ((a : A) (t : S) → IfOk P (f a t).0)
    → IfOk P ((m >>= f) s).0
unfolding ◌>>=◌
bind-IfOk P m f s all = after (m s)
  where
    after : (r : Result _ × _) → IfOk P (and_then f r).0
    after (ok a, t) = all a t
    after (err e, t) = tt

-- The addresses of every peer are different.
abbrev AllDistinct : DiscoverySnapshot → Type 0
AllDistinct s = All (λ (p : PeerInfo). Distinct p.addresses) s.peers

receive_all-AllDistinct :
    (json : DiscoveryJson) (timeout : ℕ) (net : Network)
    → IfOk AllDistinct (receive_all json timeout net).0
unfolding receive_all
receive_all-AllDistinct json timeout net =
    returned (listen json (net.now + timeout) net.arriving _)
      (listen-IsCoherent json (net.now + timeout) net.arriving _ (tt, tt))
  where
    returned : (r : Result Seen) → IfOk IsCoherent r → IfOk AllDistinct (heard r)
    returned (ok seen) c =
        into_values-All (λ p. Distinct p.addresses) PeerAt seen.peers (λ k v p. p.1) c.0
    returned (err e) c = tt

-- In every snapshot that the listener returns, whatever calls on its socket fail and whatever
-- datagrams come, no peer has an address twice.
listen_for_snapshot-Distinct :
    (json : DiscoveryJson) (port timeout : ℕ) (net : Network)
    → IfOk AllDistinct (listen_for_snapshot json port timeout net).0
unfolding listen_for_snapshot
listen_for_snapshot-Distinct json port timeout net =
    bind-IfOk AllDistinct (with_context _ (bind _)) _ net λ u s.
      bind-IfOk AllDistinct (with_context _ set_option) _ s
        λ v t. receive_all-AllDistinct json timeout t

-- So it is of the peers that a device discovers.
pub discover_peers-Distinct :
    (json : DiscoveryJson) (beacon : DiscoveryBeacon) (timeout : ℕ) (net : Network)
    → IfOk
        (λ peers. All (λ (p : PeerInfo). Distinct p.addresses) peers)
        (discover_peers json beacon timeout net).0
unfolding discover_peers discover_snapshot ◌>>=◌
discover_peers-Distinct json beacon timeout net = snapshot_peers _ (
    bind-IfOk AllDistinct (broadcast_beacon json beacon default_discovery_port) _ net
      λ u t. listen_for_snapshot-Distinct json default_discovery_port timeout t)
  where
    snapshot_peers :
        (r : Result DiscoverySnapshot × Network)
        → IfOk AllDistinct r.0
        → IfOk
            (λ peers. All (λ (p : PeerInfo). Distinct p.addresses) peers)
            (and_then (λ (s : DiscoverySnapshot). pure s.peers) r).0
    snapshot_peers (ok s, t) d = d
    snapshot_peers (err e, t) d = tt

-- Two announcements of the same owner and code leave the table with the later one under their
-- key, and with what it had under the other keys.
see_offer-latest :
    (first second : SharedOfferAnnouncement) (key : String) (seen : Seen)
    → offer_key first ≡ offer_key second
    → lookup key (see_offer second (see_offer first seen)).offers
      ≡ (if offer_key second == key then some second else lookup key seen.offers)
unfolding see_offer
see_offer-latest first second key seen h =
    lookup-insert (offer_key second) key second _
    ∙ other (offer_key second == key) (ap (λ k. k == key) h)
  where
    other :
        (b : Bool)
        → (offer_key first == key) ≡ b
        → (if b then some second else lookup key (insert (offer_key first) first seen.offers))
          ≡ (if b then some second else lookup key seen.offers)
    other true e = refl
    other false e = lookup-insert (offer_key first) key first seen.offers ∙ rw e refl
