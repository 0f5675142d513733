-- ===== src/Cli/Send/Share.antt =====
-- `cmd_send` of crates/cli/src/main.rs, and what it makes before its loop begins.
use Prim.Native.String.{◌++◌ as ◌<>◌, slice}
use send_rs.Prelude.{ℕ, Bool, ◌||◌, String, none, if◌then◌else◌}
use send_rs.Exec.{Exec, message, pure, raise, gets, with_context, ◌>>=◌, ◌>>◌}
use send_rs.Disk.{exists, check}
use send_rs.Blake3.{Blake3}
use send_rs.Transfer.Manifest.{TransferManifest, total_size, default_chunk_size}
use send_rs.Transfer.Hashing.{Surroundings, build_manifest}
use send_rs.Transfer.Copy.{save_manifest}
use mathlib.Core.Option
use send_rs.Paths.{file_name}
use send_rs.Lan.Label.{Machine, local_device_label}
use send_rs.Discovery.{SharedOfferAnnouncement}
use send_rs.Trust.Identity.{IdentityLibrary, load_or_create_identity}
use send_rs.Cli.{Host, World, SendOffer, on_files, now, println}
use send_rs.Cli.Paths.{manifest_path_by_code, offer_path}
use send_rs.Cli.Session.{write_json, write_state}
use send_rs.Cli.Send.{serve_rounds, canonical}

-- Two groups of four digits, of a UUID in its simple form.
unfoldable pub generate_code : Host → String → String
generate_code host simple =
    let id = host.to_uppercase simple in slice id 0 4 <> ("-" <> slice id 4 8)

-- What the thread that announces a share broadcasts.
unfoldable pub announcement :
    String → String → String → String → Bool → ℕ → Bool → String → SharedOfferAnnouncement
announcement code device_id label path is_dir bytes_total public created_at = record {
  code = code;
  owner_peer_id = device_id;
  owner_name = label;
  source_name = Option.get_or (file_name path) "shared";
  is_dir = is_dir;
  bytes_total = bytes_total;
  public_enabled = public;
  created_at = created_at;
}

-- What `cmd_send` has made when its loop begins.
pub record Share : Type 0 where
  pub manifest : TransferManifest
  pub offer : SendOffer
  pub announce : SharedOfferAnnouncement

-- `cmd_send` up to its loop, and after the check that the path is there.
unfoldable pub share :
    {H : Type 0}
    → Blake3 H
    → Host
    → IdentityLibrary
    → Surroundings
    → Machine
    → (String → Bool)
    → String
    → String
    → Bool
    → Exec World Share
unfolding announcement
share b3 host keys os machine is_dir simple path public = do
  local ← on_files (load_or_create_identity keys host.data_root none)
  let code = generate_code host simple
  manifest ← on_files (build_manifest b3 os path default_chunk_size)
  let bytes_total = total_size manifest
  with_context "create manifests root" (on_files check)
  with_context "create offers root" (on_files check)
  with_context "create session root" (on_files check)
  on_files (save_manifest host.manifests (manifest_path_by_code host code) manifest)
  source ← canonical (host.canonicalize path)
  created_at ← now host
  let offer : SendOffer = record {
    code = code;
    sender_id = local.identity.device_id;
    sender_name = local_device_label machine;
    source_path = source;
    manifest_path = manifest_path_by_code host code;
    public_enabled = public;
    created_at = created_at;
  }
  on_files (write_json host.offers (offer_path host code) offer)
  write_state host code none "waiting_receiver" "waiting receiver to enter code" 0 bytes_total
  announced_at ← now host
  println ("Send code: " <> code)
  println "Waiting for receiver... (command will keep running, Ctrl+C to stop)"
  pure (record {
    manifest = manifest;
    offer = offer;
    announce =
        announcement code local.identity.device_id (local_device_label machine) path (is_dir path)
          bytes_total public announced_at;
  })

-- `simple` is the UUID of the code. The thread that broadcasts the announcement runs beside the loop.
unfoldable pub cmd_send :
    {H : Type 0}
    → Blake3 H
    → Host
    → IdentityLibrary
    → Surroundings
    → Machine
    → (String → Bool)
    → String
    → ℕ
    → String
    → Bool
    → Exec World TransferManifest
unfolding share serve_rounds
cmd_send b3 host keys os machine is_dir simple rounds path public = do
  there ← gets (λ w. exists w.disk.files path || is_dir path)
  if there
      then (do
        shared ← share b3 host keys os machine is_dir simple path public
        serve_rounds b3 host shared.offer (total_size shared.manifest) rounds shared.manifest)
      else raise (message ("path does not exist: " <> path))
