-- ===== src/Cli/Tests/Share.antt =====
-- A share that is made and found by its code, at concrete inputs.
use send_rs.Prelude.{◌≡◌, ◌≢◌, refl, sym, ◌∙◌, false, true, none, some, [], ◌∷◌, eq_iff}
use mathlib.Core.Bool.{true≢false}
use send_rs.Exec.{ok, with_context, ◌>>=◌}
use send_rs.Disk.{check}
use send_rs.Disk.Steady.{steady}
use send_rs.Paths.{file_name, sort, join}
use send_rs.Transfer.Manifest.{TransferManifest}
use send_rs.Transfer.Hashing.{Surroundings, walked_files, build_entries, build_manifest}
use send_rs.Lan.Label.{Machine, local_ipv4, preferred_hostname, local_device_label}
use send_rs.Cli.{Host, World, SendOffer}
use send_rs.Cli.Paths.{
  normalize_code, manifests_root, offers_root, sessions_root, session_root, offer_path, state_path,
  manifest_path_by_code,
}
use send_rs.Cli.Send.{serve_rounds}
use send_rs.Cli.Send.Share.{Share, generate_code, share, cmd_send}
use send_rs.Cli.Send.Shared.{IsFound, cmd_send-IsFound}
use send_rs.Cli.Tests.{toy, host}
use send_rs.Cli.Tests.Discover.{me, keys, home, world, known}

abbrev os : Surroundings
os = record {
  canonicalize = λ p. some p;
  walk = λ p. some ("/src", false) ∷ [];
  modified = λ p. none;
  new_v4 = "id";
  now = 7;
}

abbrev machine : Machine
machine = record {
  is_macos = false;
  var = λ name. some "desk";
  output = λ cmd args. none;
  bind = none;
  connect = none;
  local_addr = none;
  trim = λ s. s;
  lines = λ s. [];
  split_whitespace = λ s. [];
  parse = λ s. none;
  show = λ ip. "";
}

-- An empty folder.
abbrev empty : TransferManifest
empty = record {
  transfer_id = "id";
  root_name = "src";
  chunk_size = 1048576;
  created_at = 7;
  entries = [];
}

abbrev offer : SendOffer
offer = record {
  code = "AB12-CD34";
  sender_id = "q";
  sender_name = "desk";
  source_path = "/src";
  manifest_path = "/d/manifests/AB12-CD34.json";
  public_enabled = false;
  created_at = (host "").time 0;
}

abbrev sender : Host
sender = record (host "") {
  offers = record { to_string_pretty = λ o. some []; from_str = λ b. some offer };
}

built : build_manifest toy os "/src" 1048576 (steady home) ≡ (ok empty, steady home)
unfolding build_manifest build_entries walked_files sort file_name with_context ◌>>=◌ check
built = refl

different : state_path sender "AB12-CD34" ≢ offer_path sender "AB12-CD34"
unfolding state_path offer_path session_root sessions_root offers_root normalize_code join
different e =
    true≢false
      (sym ((eq_iff (state_path sender "AB12-CD34") (offer_path sender "AB12-CD34")).1 e) ∙ refl)

cmd_send-IsFound_example :
    (shared : Share) × (t : World) × (share toy sender keys os machine
        (λ p. true)
        "AB12CD34"
        "/src"
        false
        world
      ≡ (ok shared, t))
    × (cmd_send toy sender keys os machine (λ p. true) "AB12CD34" 0 "/src" false world
        ≡ (ok empty, t))
    × IsFound toy sender keys os machine
        (λ p. true)
        "AB12CD34"
        "/src"
        false
        home
        home
        world
        me
        empty
        "/src"
        "AB12-CD34"
        shared
        t
unfolding generate_code local_device_label local_ipv4 preferred_hostname manifest_path_by_code
    manifests_root join normalize_code serve_rounds
cmd_send-IsFound_example =
    cmd_send-IsFound toy sender keys os machine (λ p. true) "AB12CD34" "/src" false home home world
      me empty "/src" "AB12-CD34" 0 [] [] refl known built refl refl (λ s. ([], refl)) refl refl
      different refl
