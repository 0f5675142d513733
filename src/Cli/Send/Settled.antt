-- ===== src/Cli/Send/Settled.antt =====
-- The round of an approved receiver of `cmd_send` of crates/cli/src/main.rs: which files the progress
-- closure changes during the transfer, and the records after it.
use Prim.Native.String.{◌++◌ as ◌<>◌}
use send_rs.Prelude.{
  ℕ, ◌+◌, ◌-◌, ◌*◌, ◌≡◌, ◌≢◌, refl, ap, sym, ◌∙◌, ◌||◌, leb, nat_eq, Bool-cases, inl, inr, String,
  Option, none, some, List, [], ◌∷◌, ◌++◌,
}
use send_rs.Exec.{Error, ok, ◌>>=◌, ◌>>◌}
use send_rs.Exec.Rules.{After, returned, bind-After}
use send_rs.Disk.{Files, store}
use send_rs.Disk.Laws.{store_ne}
use send_rs.Disk.Steady.{steady}
use send_rs.Blake3.{Blake3}
use send_rs.Transfer.Manifest.{TransferManifest, TransferReport, ProgressEvent}
use send_rs.Transfer.Execute.Watched.Simulated.{IsAside}
use send_rs.Transfer.Execute.Fresh.{Writes as WritesManifest}
use send_rs.Cli.{
  Host, World, SendOffer, ReceiverClaim, TransferHistoryEntry, on_files, now, new_v4, println,
}
use send_rs.Cli.Paths.{manifest_path_by_code, state_path, history_path}
use send_rs.Cli.Session.{load_history, write_state}
use send_rs.Cli.Session.Laws.{append-steady, load_history-same}
use send_rs.Transfer.Copy.{save_manifest}
use send_rs.Cli.Send.{on_progress, print_progress, finish, send_record, report_line}
use send_rs.Cli.Send.Shared.{Writes, write_state-steady, save_manifest-steady}

-- No error.
abbrev pub Never : Error → World → Type 0
Never x v = ⊥

module _ {H : Type 0} (b3 : Blake3 H) (host : Host) (offer : SendOffer) (bytes_total : ℕ)
    (claim : ReceiverClaim) (fs : Files) (manifests : WritesManifest host.manifests)
    (states : Writes host.states) (histories : Writes host.histories) where
  -- A calm disk on which no file but the state and the manifest has changed.
  pub record Settled (v : World) : Type 0 where
    pub files : Files
    pub disk : v.disk ≡ steady files
    pub kept :
        (p : String)
        → state_path host offer.code ≢ p
        → manifest_path_by_code host offer.code ≢ p
        → files p ≡ fs p

  write_state-Settled :
      (id : Option String) (state text : String) (done total : ℕ) (w : World)
      → Settled w
      → After (λ u v. Settled v) Never (write_state host offer.code id state text done total w)
  write_state-Settled id state text done total w s =
      let (body, e) =
        write_state-steady host states offer.code id state text done total s.files w s.disk in
      rw e (
        returned _ _ (record {
          files = store (state_path host offer.code) body s.files;
          disk = refl;
          kept = λ p a b. store_ne (state_path host offer.code) p body s.files a ∙ s.kept p a b;
        }))

  pub print_progress-Settled :
      (evs : List ProgressEvent) (last_print : ℕ) (w : World)
      → Settled w
      → After (λ n v. Settled v) Never (print_progress b3 host offer bytes_total last_print evs w)
  unfolding print_progress println ◌>>=◌
  print_progress-Settled [] last_print w s = returned _ _ s
  print_progress-Settled (ev ∷ evs) last_print w s =
      elim (Bool-cases (
        leb (2 * 1024 * 1024) (ev.bytes_done - last_print)
        || nat_eq ev.bytes_done ev.bytes_total)) [
          | inl c ↦
              rw (print_progress, c)
                (print_progress-Settled evs ev.bytes_done _
                  (record { files = s.files; disk = s.disk; kept = s.kept }))
          | inr c ↦ rw (print_progress, c) (print_progress-Settled evs last_print _ s)
        ]

  -- A calm disk on which no file but the state, the manifest and the history has changed.
  pub record Ended (v : World) : Type 0 where
    pub files : Files
    pub disk : v.disk ≡ steady files
    pub kept :
        (p : String)
        → state_path host offer.code ≢ p
        → manifest_path_by_code host offer.code ≢ p
        → history_path host ≢ p
        → files p ≡ fs p

  send_record-Ended :
      (started_at status : String) (done total : ℕ) (failure : Option String)
      (es : List TransferHistoryEntry) (w : World)
      → state_path host offer.code ≢ history_path host
      → manifest_path_by_code host offer.code ≢ history_path host
      → load_history host (steady fs) ≡ (ok es, steady fs)
      → Settled w
      → After
          (λ u v. Ended v)
          Never
          (send_record b3 host offer bytes_total claim started_at status done total failure w)
  unfolding send_record new_v4 now on_files ◌>>=◌
  send_record-Ended started_at status done total failure es w a b loads s =
      let item : TransferHistoryEntry = record {
        id = host.uuid w.ticks;
        code = offer.code;
        role = "send";
        status = status;
        source = some offer.source_path;
        target = some claim.target_dir;
        peer_id = some claim.receiver_id;
        peer_name = some claim.receiver_name;
        bytes_done = done;
        bytes_total = total;
        started_at = started_at;
        finished_at = host.time (w.ticks + 1);
        error = failure;
      } in
      let (body, writes) = histories (es ++ item ∷ []) in
      rw
        (
          s.disk,
          append-steady host s.files item es body
              (load_history-same host fs s.files es (s.kept (history_path host) a b) loads) writes,
        )
        (returned _ _ (record {
          files = store (history_path host) body s.files;
          disk = refl;
          kept = λ p c d e. store_ne (history_path host) p body s.files e ∙ s.kept p c d;
        }))

  save_manifest-Settled :
      (m : TransferManifest) (w : World)
      → Settled w
      → After
          (λ u v. Settled v)
          Never
          (on_files (save_manifest host.manifests (manifest_path_by_code host offer.code) m) w)
  unfolding on_files
  save_manifest-Settled m w s =
      let (body, writes) = manifests m in
      rw
        (
          s.disk,
          save_manifest-steady host (manifest_path_by_code host offer.code) m body s.files writes,
        )
        (returned _ _ (record {
          files = store (manifest_path_by_code host offer.code) body s.files;
          disk = refl;
          kept = λ p a b.
              store_ne (manifest_path_by_code host offer.code) p body s.files b ∙ s.kept p a b;
        }))

  print_both-Ended :
      (first second : String) (w : World)
      → Ended w
      → After (λ u v. Ended v) Never ((println first >> println second) w)
  unfolding println ◌>>=◌
  print_both-Ended first second w s =
      returned _ _ (record { files = s.files; disk = s.disk; kept = s.kept })

  pub finish-Ended :
      (started_at : String) (m : TransferManifest) (last_print : ℕ) (report : TransferReport)
      (es : List TransferHistoryEntry) (w : World)
      → state_path host offer.code ≢ history_path host
      → manifest_path_by_code host offer.code ≢ history_path host
      → load_history host (steady fs) ≡ (ok es, steady fs)
      → Settled w
      → After
          (λ u v. Ended v)
          Never
          (finish b3 host offer bytes_total claim started_at m last_print (ok report) w)
  unfolding finish
  finish-Ended started_at m last_print report es w a b loads s =
      bind-After _ _ w (save_manifest-Settled m w s) (λ e t h. h)
        λ u t s.
          bind-After _ _ t
            (write_state-Settled (some claim.claim_id) "completed" "transfer completed"
              report.bytes_done report.bytes_total t s)
            (λ e t h. h)
            λ u t s.
              bind-After _ _ t
                (send_record-Ended started_at "completed" report.bytes_done report.bytes_total none
                  es t a b loads s)
                (λ e t h. h)
                λ u t s. print_both-Ended (report_line b3 host offer bytes_total report) _ t s

-- The closure changes no file but the state.
pub on_progress-IsAside :
    {H : Type 0} (b3 : Blake3 H) (host : Host) (offer : SendOffer) (bytes_total : ℕ)
    (claim : ReceiverClaim) (w : World)
    → Writes host.states
    → IsAside (state_path host offer.code) (on_progress b3 host offer bytes_total claim w)
unfolding on_progress
on_progress-IsAside b3 host offer bytes_total claim w states n ev f =
    let (body, e) =
      write_state-steady host states offer.code (some claim.claim_id) "transferring"
        ("transferring " <> ev.current_file) ev.bytes_done ev.bytes_total f
        (record w { disk = steady f; ticks = w.ticks + n }) refl in
    (
      store (state_path host offer.code) body f,
      ap (λ x. x.1.disk) e,
      λ p ne. sym (store_ne (state_path host offer.code) p body f ne),
    )
