-- ===== src/Cli/Discover/Found.antt =====
-- A share that `cmd_send` announces is listed by `cmd_discover`, crates/cli/src/main.rs.
use Prim.Native.String.{compare}
use mathlib.Core.List.{Mem, not-mem-nil, mem-map_of_mem, Perm}
use mathlib.Core.List.Perm
use mathlib.Core.List.{append_assoc, append-nil}
use send_rs.Prelude.{
  ℕ, zero, suc, ◌+◌, ◌*◌, ◌<◌, Bool, true, false, String, none, some, List, [], ◌∷◌, ◌++◌,
  if◌then◌else◌, ◌≡◌, refl, sym, ap, ◌∙◌, All, map, replicate, decimal,
}
use send_rs.Exec.{ok, attempt, ◌>>=◌}
use send_rs.Trust.Identity.{LocalIdentity, IdentityLibrary, load_or_create_identity}
use send_rs.Disk.{Disk}
use send_rs.Discovery.{
  SharedOfferAnnouncement, DiscoveryPacket, DiscoveryJson, DiscoveryBeacon, Received, offer_key,
  from_identity,
}
use send_rs.Discovery.Sockets.{
  Network, default_discovery_port, broadcast_share_offer, broadcast_beacon, discover_snapshot,
  listen_for_snapshot,
}
use send_rs.Discovery.Offers.{IsOther, listen_for_snapshot-Holds}
use send_rs.Discovery.Rounds.{IsInTime, calm, broadcast_packet-calm}
use send_rs.Cli.{Host, World, on_files, println}
use send_rs.Cli.Discover.{
  Station, in_world, on_network, announce_rounds, not_after, insert_offer, sort_offers, offer_line,
  print_offers, list_offers, cmd_discover,
}

insert_offer-Perm :
    (a : SharedOfferAnnouncement) (bs : List SharedOfferAnnouncement)
    → Perm (insert_offer a bs) (a ∷ bs)
unfolding insert_offer
insert_offer-Perm a [] = Perm.refl (a ∷ [])
insert_offer-Perm a (b ∷ bs) =
    choose (not_after (compare a.created_at b.created_at)) (insert_offer-Perm a bs)
  where
    choose :
        (test : Bool)
        → Perm (insert_offer a bs) (a ∷ bs)
        → Perm (if test then a ∷ b ∷ bs else b ∷ insert_offer a bs) (a ∷ b ∷ bs)
    choose true rest = Perm.refl (a ∷ b ∷ bs)
    choose false rest = Perm.trans (Perm.cons b rest) (Perm.swap a b bs)

sort_offers-Perm : (l : List SharedOfferAnnouncement) → Perm (sort_offers l) l
unfolding sort_offers
sort_offers-Perm [] = Perm.refl []
sort_offers-Perm (a ∷ l) =
    Perm.trans (insert_offer-Perm a (sort_offers l)) (Perm.cons a (sort_offers-Perm l))

print_offers-map :
    (offers : List SharedOfferAnnouncement) (w : World)
    → print_offers offers w ≡ (ok tt, record w { printed = w.printed ++ map offer_line offers })
unfolding print_offers println ◌>>=◌
print_offers-map [] w = ap (λ p. (ok tt, record w { printed = p })) (sym (append-nil w.printed))
print_offers-map (offer ∷ offers) w =
    print_offers-map offers (record w { printed = w.printed ++ offer_line offer ∷ [] })
    ∙ ap (λ p. (ok tt, record w { printed = p }))
        (append_assoc w.printed (offer_line offer ∷ []) (map offer_line offers))

list_offers-map :
    (offers : List SharedOfferAnnouncement) (offer : SharedOfferAnnouncement) (w : World)
    → Mem offer offers
    → list_offers offers w ≡ (ok tt, record w { printed = w.printed ++ map offer_line offers })
unfolding list_offers
list_offers-map [] offer w m = absurd (not-mem-nil m)
list_offers-map (a ∷ offers) offer w m = print_offers-map (a ∷ offers) w

replicate-append :
    {A : Type 0} (n : ℕ) (x : A) (l : List A)
    → (l ++ x ∷ []) ++ replicate n x ≡ l ++ replicate (suc n) x
replicate-append n x l = append_assoc l (x ∷ []) (replicate n x)

-- The announcing thread, where no call fails.
announce_rounds-calm :
    (json : DiscoveryJson) (announce : SharedOfferAnnouncement) (payload : List ℕ) (n : ℕ)
    (net : Network)
    → json.to_vec (DiscoveryPacket.share_offer announce) ≡ some payload
    → (t : Network) × (announce_rounds json announce n (calm net) ≡ (ok tt, t))
      × (t.sent ≡ net.sent ++ replicate n ("255.255.255.255:39091", payload))
unfolding announce_rounds broadcast_share_offer attempt ◌>>=◌ decimal
announce_rounds-calm json announce payload zero net writes =
    (calm net, refl, sym (append-nil net.sent))
announce_rounds-calm json announce payload (suc n) net writes =
    let once =
      broadcast_packet-calm json (DiscoveryPacket.share_offer announce) payload
        default_discovery_port net writes in
    let (t, goes, sent) =
      announce_rounds-calm json announce payload n
        (record net {
          answers = [];
          bound = net.bound ++ "0.0.0.0:0" ∷ [];
          sent = net.sent ++ ("255.255.255.255:39091", payload) ∷ [];
        })
        writes in
    (t, rw once goes, sent ∙ replicate-append n ("255.255.255.255:39091", payload) net.sent)

-- The network after one broadcast that succeeded.
abbrev after_broadcast : List ℕ → Network → Network
after_broadcast payload net = record net {
  answers = [];
  bound = net.bound ++ "0.0.0.0:0" ∷ [];
  sent = net.sent ++ ("255.255.255.255:39091", payload) ∷ [];
}

discover_snapshot-calm :
    (json : DiscoveryJson) (beacon : DiscoveryBeacon) (payload : List ℕ) (timeout : ℕ)
    (net : Network)
    → json.to_vec (DiscoveryPacket.beacon beacon) ≡ some payload
    → discover_snapshot json beacon timeout (calm net)
      ≡ listen_for_snapshot json default_discovery_port timeout (calm (after_broadcast payload net))
unfolding discover_snapshot broadcast_beacon ◌>>=◌ decimal
discover_snapshot-calm json beacon payload timeout net writes =
    rw
      (broadcast_packet-calm json (DiscoveryPacket.beacon beacon) payload default_discovery_port net
        writes)
      refl

-- Of two devices where no call on a socket fails, one runs the thread that announces a share: each of
-- its first `n` rounds sends the same datagram to the port of the discovery. On the other, whose
-- identity can be loaded or made, `discover` runs. If that datagram is in one of its rounds, this
-- round and those before it begin before the deadline, no read breaks, no later datagram is of another
-- share under that owner and code, and the library reads back what it wrote, then `discover`
-- succeeds, and the line of the share is one of the lines that it prints.
pub cmd_discover-announce_rounds :
    (json : DiscoveryJson) (host : Host) (keys : IdentityLibrary) (version : String)
    (timeout_secs n : ℕ) (announce : SharedOfferAnnouncement) (payload greeting : List ℕ)
    (here there : Network) (w : World) (local : LocalIdentity) (disk : Disk) (at now : ℕ)
    (ip : String) (before after : List (ℕ × Received))
    → load_or_create_identity keys host.data_root none w.disk ≡ (ok local, disk)
    → json.to_vec (DiscoveryPacket.beacon (from_identity version local.identity 38080 false))
      ≡ some greeting
    → json.to_vec (DiscoveryPacket.share_offer announce) ≡ some payload
    → json.packet payload ≡ some (DiscoveryPacket.share_offer announce)
    → there.arriving ≡ before ++ (at, Received.datagram now ip payload) ∷ after
    → All (IsInTime (there.now + timeout_secs * 1000)) before
    → at < there.now + timeout_secs * 1000
    → All (λ r. IsOther json (offer_key announce) r.1) after
    → (s : Network) × (t : Station) × (lines : List String) × (announce_rounds json announce n
          (calm here)
        ≡ (ok tt, s))
      × (s.sent ≡ here.sent ++ replicate n ("255.255.255.255:39091", payload))
      × (cmd_discover json host keys version timeout_secs
            (record { world = w; network = calm there })
          ≡ (ok tt, t))
      × (t.world.printed ≡ w.printed ++ lines)
      × Mem (offer_line announce) lines
unfolding cmd_discover in_world on_network on_files ◌>>=◌
cmd_discover-announce_rounds json host keys version timeout_secs n announce payload greeting here
      there w local disk at now ip before after known greets writes reads arriving early in_time
      others =
    let (s, announces, sent) = announce_rounds-calm json announce payload n here writes in
    let (u, snapshot, returns, found) =
      listen_for_snapshot-Holds json announce payload default_discovery_port (timeout_secs * 1000)
        (after_broadcast greeting there) at now ip before after reads arriving early in_time
        others in
    let sorted = sort_offers snapshot.offers in
    let listed : Mem announce sorted = (Perm.mem_iff (sort_offers-Perm snapshot.offers)).1 found in
    let prints = list_offers-map sorted announce (record w { disk = disk }) listed in
    (
      s,
      record {
        world = record w { disk = disk; printed = w.printed ++ map offer_line sorted };
        network = u;
      },
      map offer_line sorted,
      announces,
      sent,
      rw
          (
            known,
            discover_snapshot-calm json (from_identity version local.identity 38080 false) greeting
                (timeout_secs * 1000) there greets,
            returns,
            prints,
          )
          refl,
      refl,
      mem-map_of_mem offer_line listed,
    )
