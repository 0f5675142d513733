-- ===== src/Cli/Send.antt =====
-- `cmd_send` of crates/cli/src/main.rs: share a path under a code, and serve one receiver after
-- another. The progress closure writes the session's state during the transfer; the lines that it
-- prints are added after it, as nothing else is printed meanwhile.
pub mod Approval
pub mod Share
pub mod Shared
pub mod Settled
pub mod Served
use Prim.Native.String.{◌++◌ as ◌<>◌}
use send_rs.Prelude.{
  ℕ, zero, suc, ◌+◌, ◌-◌, ◌*◌, decimal, true, false, ◌||◌, String, Option, none, some, List, [],
  ◌∷◌, length, leb, nat_eq, if◌then◌else◌,
}
use send_rs.Exec.{
  Exec, Result, ok, err, message, to_string, pure, raise, gets, put, with_context, attempt, ◌>>=◌,
  ◌>>◌,
}
use send_rs.Disk.{Bytes, write}
use send_rs.Blake3.{Blake3}
use send_rs.Transfer.Manifest.{TransferManifest, ProgressEvent, TransferReport, default_max_retries}
use send_rs.Transfer.Copy.{save_manifest}
use send_rs.Transfer.Execute.{Run}
use send_rs.Transfer.Execute.Watched.{Watch, watched_transfer}
use send_rs.Trust.{pair_peer}
use send_rs.Cli.{Host, World, SendOffer, ReceiverClaim, on_files, now, new_v4, println, prompt_yes}
use send_rs.Cli.Paths.{
  manifest_path_by_code, receiver_claim_path, sender_yes_path, receiver_yes_path,
}
use send_rs.Cli.Session.{
  remove_path_if_exists, no_dirs, append_history, write_state, clear_runtime_session_files,
  is_trusted, wait_for_file, wait_for_receiver_claim,
}

abbrev pub yes_bytes : Bytes
yes_bytes = b'y' ∷ b'e' ∷ b's' ∷ []

module _ {H : Type 0} (b3 : Blake3 H) (host : Host) (offer : SendOffer) (bytes_total : ℕ) where
  -- A record of the sending side.
  unfoldable pub send_record :
      ReceiverClaim → String → String → ℕ → ℕ → Option String → Exec World (Unit {0})
  send_record claim started_at status bytes_done total failure = do
    id ← new_v4 host
    finished_at ← now host
    on_files (
        append_history host (record {
          id = id;
          code = offer.code;
          role = "send";
          status = status;
          source = some offer.source_path;
          target = some claim.target_dir;
          peer_id = some claim.receiver_id;
          peer_name = some claim.receiver_name;
          bytes_done = bytes_done;
          bytes_total = total;
          started_at = started_at;
          finished_at = finished_at;
          error = failure;
        }))

  -- The sender does not approve: the receiver is told, and the attempt is recorded.
  unfoldable pub reject : ReceiverClaim → String → Exec World (Unit {0})
  reject claim started_at = do
    write_state host offer.code (some claim.claim_id) "failed" "sender rejected authentication" 0
        bytes_total
    send_record claim started_at "failed" 0 bytes_total (some "sender rejected authentication")
    println "Receiver was rejected. Still sharing, waiting next receiver..."

  -- Both sides confirm, and the peer is remembered.
  unfoldable pub confirm : ReceiverClaim → Exec World (Unit {0})
  confirm claim = do
    with_context "write sender yes" (on_files (write (sender_yes_path host offer.code) yes_bytes))
    println "Waiting receiver confirmation..."
    fuel ← gets (λ w. suc (length w.others))
    wait_for_file host fuel (receiver_yes_path host offer.code)
    time ← gets (λ w. w.ticks)
    on_files (pair_peer host.trust host.data_root time claim.receiver_id "trusted-by-yes")
    pure tt

  -- What the closure `on_progress` does to the disk, on each event: it writes the state, and ignores
  -- the result. The clock is asked once for each event.
  unfoldable pub on_progress : ReceiverClaim → World → Watch
  on_progress claim w n ev d =
      (write_state host offer.code (some claim.claim_id) "transferring"
        ("transferring " <> ev.current_file) ev.bytes_done ev.bytes_total
        (record w { disk = d; ticks = w.ticks + n })).1.disk

  -- What the closure prints; the value is `last_print`.
  unfoldable pub print_progress : ℕ → List ProgressEvent → Exec World ℕ
  print_progress last_print [] = pure last_print
  print_progress last_print (ev ∷ evs) =
      elim (leb (2 * 1024 * 1024) (ev.bytes_done - last_print)
        || nat_eq ev.bytes_done ev.bytes_total) [
          | true ↦ (do
            println (
                "progress: "
                <> (decimal ev.bytes_done <> ("/" <> (decimal ev.bytes_total <> " bytes"))))
            print_progress ev.bytes_done evs)
          | false ↦ print_progress last_print evs
        ]

  abbrev pub report_line : TransferReport → String
  report_line report =
      "Transfer completed. files="
      <> (decimal report.files_completed
          <> ("/"
              <> (decimal report.files_total
                  <> (" bytes="
                      <> (decimal report.bytes_done <> ("/" <> decimal report.bytes_total))))))

  unfoldable pub finish :
      ReceiverClaim → String → TransferManifest → ℕ → Result TransferReport → Exec World (Unit {0})
  finish claim started_at manifest last_print (ok report) = do
    on_files (save_manifest host.manifests (manifest_path_by_code host offer.code) manifest)
    write_state host offer.code (some claim.claim_id) "completed" "transfer completed"
        report.bytes_done report.bytes_total
    send_record claim started_at "completed" report.bytes_done report.bytes_total none
    println (report_line report)
    println "Still sharing. Waiting next receiver..."
  finish claim started_at manifest last_print (err e) = do
    write_state host offer.code (some claim.claim_id) "failed" (to_string e) last_print bytes_total
    send_record claim started_at "failed" last_print bytes_total (some (to_string e))
    println ("Transfer failed: " <> to_string e)
    println "Still sharing. Waiting next receiver..."

  -- The outcome of the transfer on the disk as it is, with the disk that it and its closure leave.
  abbrev pub transferred : ReceiverClaim → TransferManifest → World → Result TransferReport × Run
  transferred claim manifest w =
      watched_transfer b3 host.manifests (on_progress claim w) offer.source_path claim.target_dir
        (some (manifest_path_by_code host offer.code)) default_max_retries w.disk manifest

  unfoldable pub transfer : ReceiverClaim → String → TransferManifest → Exec World TransferManifest
  unfolding on_progress print_progress finish
  transfer claim started_at manifest = do
    done ← gets (transferred claim manifest)
    put (λ w. record w { disk = done.1.disk; ticks = w.ticks + length done.1.events })
    last_print ← print_progress 0 done.1.events
    finish claim started_at done.1.manifest last_print done.0
    pure done.1.manifest

  -- What a round does with a claim that has come in.
  unfoldable pub admit : ReceiverClaim → String → TransferManifest → Exec World TransferManifest
  unfolding reject confirm transfer
  admit claim started_at manifest = do
    trusted ← on_files (is_trusted host claim.receiver_id)
    if trusted then transfer claim started_at manifest else (do
      println "First-time connection detected."
      println ("Type 'yes' to approve this receiver: " <> claim.receiver_name)
      approved ← prompt_yes host
      if approved
          then (do confirm claim; transfer claim started_at manifest)
          else (do reject claim started_at; pure manifest))

  -- One round of the loop.
  unfoldable pub serve : TransferManifest → Exec World TransferManifest
  unfolding admit
  serve manifest = do
    on_files (clear_runtime_session_files host offer.code)
    started_at ← now host
    fuel ← gets (λ w. suc (length w.others))
    claim ← wait_for_receiver_claim host fuel offer.code
    ignored ←
        attempt (on_files (remove_path_if_exists no_dirs (receiver_claim_path host offer.code)))
    println
        ("Receiver connected: " <> (claim.receiver_name <> (" (" <> (claim.receiver_id <> ")"))))
    admit claim started_at manifest

  -- The loop has no end; this is its first rounds.
  unfoldable pub serve_rounds : ℕ → TransferManifest → Exec World TransferManifest
  unfolding serve
  serve_rounds zero manifest = pure manifest
  serve_rounds (suc n) manifest = do changed ← serve manifest; serve_rounds n changed

-- `Path::canonicalize`, with the answer of the operating system.
abbrev pub canonical : Option String → Exec World String
canonical none = raise (message "No such file or directory")
canonical (some path) = pure path
