-- ===== src/Cli/Discover.antt =====
-- `cmd_discover` of crates/cli/src/main.rs, and the thread of `cmd_send` that announces a share.
pub mod Found
use Prim.Native.String.{◌++◌ as ◌<>◌, compare}
use Prim.Native.Nat.{Ordering}
use send_rs.Prelude.{
  ℕ, zero, suc, ◌*◌, Bool, true, false, String, none, List, [], ◌∷◌, if◌then◌else◌,
}
use send_rs.Exec.{Exec, Result, pure, attempt, ◌>>=◌, ◌>>◌}
use send_rs.Trust.Identity.{IdentityLibrary, load_or_create_identity}
use send_rs.Discovery.{SharedOfferAnnouncement, DiscoveryJson, DiscoverySnapshot, from_identity}
use send_rs.Discovery.Sockets.{
  Network, default_discovery_port, broadcast_share_offer, discover_snapshot,
}
use send_rs.Cli.{Host, World, on_files, println}

-- The process with its network. Times of the network are in milliseconds.
pub record Station : Type 0 where
  pub world : World
  pub network : Network

unfoldable pub in_world : {A : Type 0} → Exec World A → Exec Station A
in_world m s = let (r, w) = m s.world in (r, record s { world = w })

unfoldable pub on_network : {A : Type 0} → Exec Network A → Exec Station A
on_network m s = let (r, n) = m s.network in (r, record s { network = n })

-- The loop of the announcing thread: its first rounds. A failed broadcast is ignored.
unfoldable pub announce_rounds :
    DiscoveryJson → SharedOfferAnnouncement → ℕ → Exec Network (Unit {0})
announce_rounds json announce zero = pure tt
announce_rounds json announce (suc n) = do
  ignored ← attempt (broadcast_share_offer json announce default_discovery_port)
  announce_rounds json announce n

pub not_after : Ordering → Bool
not_after Ordering.lt = true
not_after Ordering.eq = true
not_after Ordering.gt = false

pub insert_offer :
    SharedOfferAnnouncement → List SharedOfferAnnouncement → List SharedOfferAnnouncement
unfolding not_after
insert_offer a [] = a ∷ []
insert_offer a (b ∷ bs) =
    let rest = insert_offer a bs in
    if not_after (compare a.created_at b.created_at) then a ∷ b ∷ bs else b ∷ rest

-- `offers.sort_by(|a, b| a.created_at.cmp(&b.created_at))`, which is stable.
unfoldable pub sort_offers : List SharedOfferAnnouncement → List SharedOfferAnnouncement
unfolding insert_offer
sort_offers [] = []
sort_offers (a ∷ bs) = insert_offer a (sort_offers bs)

unfoldable pub offer_line : SharedOfferAnnouncement → String
offer_line offer =
    let kind = if offer.is_dir then "Dir" else "File" in
    offer.owner_name
    <> ("  " <> (kind <> (":" <> (offer.source_name <> ("  Code:" <> offer.code)))))

pub print_offers : List SharedOfferAnnouncement → Exec World (Unit {0})
unfolding offer_line
print_offers [] = pure tt
print_offers (offer ∷ offers) = do println (offer_line offer); print_offers offers

pub list_offers : List SharedOfferAnnouncement → Exec World (Unit {0})
unfolding print_offers
list_offers [] = println "No active shares found on LAN."
list_offers (offer ∷ offers) = print_offers (offer ∷ offers)

-- `version` is that of the package.
unfoldable pub cmd_discover :
    DiscoveryJson → Host → IdentityLibrary → String → ℕ → Exec Station (Unit {0})
unfolding list_offers sort_offers
cmd_discover json host keys version timeout_secs = do
  local ← in_world (on_files (load_or_create_identity keys host.data_root none))
  snapshot ← on_network (
      discover_snapshot json (from_identity version local.identity 38080 false)
        (timeout_secs * 1000))
  in_world (list_offers (sort_offers snapshot.offers))
