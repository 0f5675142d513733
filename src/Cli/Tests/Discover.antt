-- ===== src/Cli/Tests/Discover.antt =====
-- A share that is announced and found, at concrete inputs.
use mathlib.Core.List.{Mem}
use send_rs.Prelude.{
  arith, ◌≡◌, refl, false, String, none, some, List, [], ◌∷◌, replicate, ◌==◌, if◌then◌else◌,
}
use send_rs.Exec.{ok, with_context, ◌>>=◌}
use send_rs.Disk.{Files, syscall, simple, check, read_to_string}
use send_rs.Disk.Steady.{steady}
use send_rs.Paths.{join}
use send_rs.Trust.Identity.{LocalIdentity, IdentityLibrary, load_identity, load_or_create_identity}
use send_rs.Discovery.{SharedOfferAnnouncement, DiscoveryPacket, DiscoveryJson, Received}
use send_rs.Discovery.Sockets.{Network}
use send_rs.Discovery.Rounds.{calm}
use send_rs.Cli.{World}
use send_rs.Cli.Send.Share.{announcement}
use send_rs.Cli.Discover.{Station, announce_rounds, offer_line, cmd_discover}
use send_rs.Cli.Discover.Found.{cmd_discover-announce_rounds}
use send_rs.Cli.Tests.{host}

abbrev announce : SharedOfferAnnouncement
announce = announcement "AB12-CD34" "p" "Alice" "/src/a.txt" false 5 false "t"

-- A share is written as one byte, and a beacon as none.
abbrev json : DiscoveryJson
json = record {
  packet = λ b. elim b [ [] ↦ none | x ∷ xs ↦ some (DiscoveryPacket.share_offer announce) ];
  plain_beacon = λ b. none;
  to_vec = λ p. elim p [
    | DiscoveryPacket.beacon b ↦ some []
    | DiscoveryPacket.share_offer o ↦ some (1 ∷ [])
  ];
}

abbrev pub me : LocalIdentity
me = record {
  identity = record { device_id = "q"; display_name = "Bob"; public_key = "k" };
  private_key_b64 = "s";
  created_at = 0;
}

abbrev pub keys : IdentityLibrary
keys = record {
  to_string_pretty = λ x. some [];
  from_str = λ b. some me;
  public_key_b64 = "k";
  private_key_b64 = "s";
  new_v4 = "q";
  now = 0;
}

abbrev pub home : Files
home path = if path == "/d/identity.json" then some [] else none

abbrev pub world : World
world = record { disk = steady home; others = []; answers = []; ticks = 0; printed = [] }

abbrev silent : Network
silent = record { answers = []; bound = []; sent = []; now = 0; arriving = [] }

abbrev hearing : Network
hearing = record silent {
  arriving = (1, Received.datagram 1 "10.0.0.2" (1 ∷ [])) ∷ (2, Received.timed_out) ∷ [];
}

pub known : load_or_create_identity keys "/d" none (steady home) ≡ (ok me, steady home)
unfolding load_or_create_identity load_identity with_context ◌>>=◌ check syscall simple
    read_to_string join
known = refl

cmd_discover-announce_rounds_example :
    (s : Network) × (t : Station) × (lines : List String) × (announce_rounds json announce 2
        (calm silent)
      ≡ (ok tt, s))
    × (s.sent ≡ replicate 2 ("255.255.255.255:39091", 1 ∷ []))
    × (cmd_discover json
          (host "completed")
          keys
          "0.1.0"
          2
          (record { world = world; network = calm hearing })
        ≡ (ok tt, t))
    × (t.world.printed ≡ lines)
    × Mem (offer_line announce) lines
cmd_discover-announce_rounds_example =
    cmd_discover-announce_rounds json (host "completed") keys "0.1.0" 2 2 announce (1 ∷ []) []
      silent hearing world me (steady home) 1 1 "10.0.0.2" [] ((2, Received.timed_out) ∷ []) known
      refl refl refl refl tt (omega arith) (tt, tt)
