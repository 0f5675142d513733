-- ===== src/Cli/Receive.antt =====
-- `cmd_receive` and `cmd_history` of crates/cli/src/main.rs.
pub mod Records
use Prim.Native.String.{◌++◌ as ◌<>◌}
use send_rs.Prelude.{
  ℕ, suc, Bool, true, false, String, Option, none, some, List, [], ◌∷◌, length, reverse, map, take,
  ◌==◌, if◌then◌else◌,
}
use send_rs.Exec.{
  Exec, Error, Result, ok, err, message, pure, raise, gets, with_context, ◌>>=◌, ◌>>◌,
}
use send_rs.Disk.{Disk, check, write}
use send_rs.Paths.{file_name}
use send_rs.Trust.{pair_peer}
use send_rs.Trust.Identity.{IdentityLibrary, load_or_create_identity, unwrap_or}
use send_rs.Cli.{
  Host, World, SendOffer, ReceiverClaim, SessionState, TransferHistoryEntry, on_files, now, new_v4,
  println, prompt_yes,
}
use send_rs.Cli.Paths.{
  normalize_code, offer_path, receiver_claim_path, sender_yes_path, receiver_yes_path,
}
use send_rs.Cli.Session.{
  write_json, read_json, load_history, append_history, is_trusted, wait_for_file,
  wait_for_completion,
}
use send_rs.Cli.Send.{canonical, yes_bytes}

module _ (host : Host) (code : String) (offer : SendOffer) where
  unfoldable pub receive_record :
      ReceiverClaim → String → String → ℕ → ℕ → Option String → Exec World (Unit {0})
  receive_record claim started_at status bytes_done bytes_total failure = do
    id ← new_v4 host
    finished_at ← now host
    on_files (
        append_history host (record {
          id = id;
          code = code;
          role = "receive";
          status = status;
          source = some offer.source_path;
          target = some claim.target_dir;
          peer_id = some offer.sender_id;
          peer_name = some offer.sender_name;
          bytes_done = bytes_done;
          bytes_total = bytes_total;
          started_at = started_at;
          finished_at = finished_at;
          error = failure;
        }))

  unfoldable pub refuse : ReceiverClaim → String → Exec World (Unit {0})
  refuse claim started_at = do
    receive_record claim started_at "failed" 0 0 (some "receiver rejected authentication")
    raise (message "receiver rejected authentication")

  unfoldable pub approve : Exec World (Unit {0})
  approve = do
    with_context "write receiver yes" (on_files (write (receiver_yes_path host code) yes_bytes))
    println "Waiting sender confirmation..."
    fuel ← gets (λ w. suc (length w.others))
    wait_for_file host fuel (sender_yes_path host code)
    time ← gets (λ w. w.ticks)
    on_files (pair_peer host.trust host.data_root time offer.sender_id "trusted-by-yes")
    pure tt

  unfoldable pub authenticate : ReceiverClaim → String → Exec World (Unit {0})
  unfolding refuse approve
  authenticate claim started_at = do
    trusted ← on_files (is_trusted host offer.sender_id)
    if trusted then pure tt else (do
      println ("First-time connection with sender: " <> offer.sender_name)
      println "Type 'yes' to approve sender."
      approved ← prompt_yes host
      if approved then approve else refuse claim started_at)

  -- From the wait for the end of the transfer on.
  unfoldable pub complete : ReceiverClaim → String → Exec World (Unit {0})
  complete claim started_at = do
    println "Waiting transfer to complete..."
    fuel ← gets (λ w. suc (length w.others))
    state ← wait_for_completion host fuel code claim.claim_id
    receive_record claim started_at state.state state.bytes_done state.bytes_total
        (if state.state == "completed" then none else some state.message)

-- `target` is the folder given, `current` the current one where it can be read. As in the source,
-- the current folder is read also where a target is given.
abbrev pub target_folder : Option String → Option String → Exec World String
target_folder target none = raise (message "read current directory")
target_folder none (some path) = pure path
target_folder (some given) (some path) = pure given

unfoldable pub cmd_receive :
    Host → IdentityLibrary → Option String → String → Option String → Exec World (Unit {0})
unfolding authenticate complete
cmd_receive host keys current raw target = do
  let code = normalize_code host raw
  offer ←
      with_context ("invalid or expired code: " <> code)
        (on_files (read_json host.offers (offer_path host code)))
  local ← on_files (load_or_create_identity keys host.data_root none)
  started_at ← now host
  target_dir ← target_folder target current
  with_context ("create target dir " <> target_dir) (on_files check)
  with_context "create session root" (on_files check)
  claim_id ← new_v4 host
  folder ← canonical (host.canonicalize target_dir)
  created_at ← now host
  let claim : ReceiverClaim = record {
    claim_id = claim_id;
    receiver_id = local.identity.device_id;
    receiver_name = local.identity.display_name;
    target_dir = folder;
    created_at = created_at;
  }
  on_files (write_json host.claims (receiver_claim_path host code) claim)
  authenticate host code offer claim started_at
  complete host code offer claim started_at

-- `.peer_name.or(item.peer_id)`
abbrev pub or_else : Option String → Option String → Option String
or_else (some name) other = some name
or_else none other = other

-- One line of the history. `human_bytes` goes through floating-point numbers, and is a parameter.
unfoldable pub history_line : Host → (ℕ → String) → TransferHistoryEntry → String
history_line host human_bytes item =
    let source = unwrap_or "-" item.source in
    let target = unwrap_or "-" item.target in
    let peer = unwrap_or "Unknown" (or_else item.peer_name item.peer_id) in
    let name = unwrap_or source (file_name source) in
    let direction = if host.eq_ignore_ascii_case item.role "receive" then "RECV" else "SEND" in
    direction
    <> (" From:"
        <> (peer
            <> (" File:"
                <> (name
                    <> (" Size:"
                        <> (human_bytes item.bytes_total
                            <> (" Saved:" <> (target <> (" Status:" <> item.status)))))))))

unfoldable pub print_lines : List String → Exec World (Unit {0})
print_lines [] = pure tt
print_lines (line ∷ lines) = do println line; print_lines lines

unfoldable pub history_lines : Host → (ℕ → String) → List TransferHistoryEntry → List String
unfolding history_line
history_lines host human_bytes [] = "No transfer history." ∷ []
history_lines host human_bytes (item ∷ items) =
    history_line host human_bytes item ∷ map (history_line host human_bytes) items

unfoldable pub cmd_history : Host → (ℕ → String) → ℕ → Exec World (Unit {0})
unfolding history_lines print_lines
cmd_history host human_bytes limit = do
  entries ← on_files (load_history host)
  print_lines (history_lines host human_bytes (take limit (reverse entries)))
