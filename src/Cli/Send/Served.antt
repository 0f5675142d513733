-- ===== src/Cli/Send/Served.antt =====
-- An approved receiver is served by `cmd_send` of crates/cli/src/main.rs: the files arrive.
use send_rs.Prelude.{
  ℕ, ◌+◌, Bool, true, false, length, subst, All-of_get, ◌<◌, ◌≡◌, ◌≢◌, refl, ap, sym, ◌∙◌, String,
  some, List, get_elem?,
}
use send_rs.Exec.{Result, ok, pure, ◌>>=◌, ◌>>◌}
use send_rs.Exec.Rules.{After, returned, failed, bind-After}
use send_rs.Disk.{Files, Disk, exists}
use send_rs.Disk.Steady.{steady}
use send_rs.Blake3.{Blake3, IsStreaming}
use send_rs.Transfer.Manifest.{ManifestEntry, TransferManifest, TransferReport}
use send_rs.Transfer.Execute.Fresh.{Writes as WritesManifest}
use send_rs.Cli.{Host, World, SendOffer, ReceiverClaim, TransferHistoryEntry}
use send_rs.Cli.Paths.{manifest_path_by_code, state_path, history_path}
use send_rs.Cli.Session.{load_history}
use send_rs.Cli.Session.Laws.{load_history-same}
use send_rs.Cli.Send.{on_progress, print_progress, finish, transfer}
use send_rs.Transfer.Manifest.{default_max_retries}
use send_rs.Paths.{join}
use send_rs.Transfer.Execute.Watched.{Watch, watched_transfer}
use send_rs.Transfer.Execute.Watched.Aside.{Alike}
use send_rs.Transfer.Execute.Watched.Simulated.{Beside}
use send_rs.Transfer.Execute.Watched.Whole.{Alike-ok, Beside-disks, watched_transfer-Alike}
use send_rs.Transfer.Execute.{src_file_path, Run, Job, make_job, start, execute_local_transfer}
use send_rs.Transfer.Execute.Confined.{run_job-Confined}
use send_rs.Transfer.Execute.Success.{IsReady, from, to}
use send_rs.Transfer.Execute.Success.Resume.{After-same}
use send_rs.Transfer.Execute.Success.Whole.{execute_local_transfer_brings}
use mathlib.Core.Option.{some-injective}
use send_rs.Cli.Send.Shared.{Writes}
use send_rs.Cli.Send.Settled.{
  Never, print_progress-Settled, on_progress-IsAside, Ended, finish-Ended,
}

source-apart :
    (b : Bool) (root relative p : String)
    → root ≢ p
    → join root relative ≢ p
    → src_file_path b root relative ≢ p
unfolding src_file_path
source-apart true root relative p h k = h
source-apart false root relative p h k = k

module _ {H : Type 0} (b3 : Blake3 H) (law : IsStreaming b3) (host : Host) (offer : SendOffer)
    (bytes_total : ℕ) (claim : ReceiverClaim) (fs : Files) (m : TransferManifest) (w : World) where
  abbrev pub serving : Job
  serving =
      make_job offer.source_path claim.target_dir (some (manifest_path_by_code host offer.code))
        default_max_retries (steady fs) m

  -- What the closure does to the disk.
  abbrev watch : Watch
  watch = on_progress b3 host offer bytes_total claim (record w { disk = steady fs })

  transfer-run :
      (started_at : String)
      → (report : TransferReport) (t : Run)
      → watched_transfer b3 host.manifests watch offer.source_path claim.target_dir
          (some (manifest_path_by_code host offer.code))
          default_max_retries
          (steady fs)
          m
        ≡ (ok report, t)
      → transfer b3 host offer bytes_total claim started_at m (record w { disk = steady fs })
        ≡ (print_progress b3 host offer bytes_total 0 t.events >>= λ last_print.
              finish b3 host offer bytes_total claim started_at t.manifest last_print (ok report)
              >> pure t.manifest)
            (record w { disk = t.disk; ticks = w.ticks + length t.events })
  unfolding transfer ◌>>=◌
  transfer-run started_at report t returns = rw returns refl

  -- No file but the targets and the checkpoint is changed by the transfer itself.
  run-elsewhere :
      0 < m.chunk_size
      → (p : String)
      → ((i : ℕ) (e : ManifestEntry) → get_elem? m.entries i ≡ some e → to b3 serving m fs e ≢ p)
      → manifest_path_by_code host offer.code ≢ p
      → (execute_local_transfer b3 host.manifests offer.source_path claim.target_dir
            (some (manifest_path_by_code host offer.code))
            default_max_retries
            (steady fs)
            m).1.disk.files
          p
        ≡ fs p
  unfolding execute_local_transfer start make_job
  run-elsewhere pos p apart free =
      (After-same (run_job-Confined b3 host.manifests serving (start (steady fs) m) pos)).elsewhere
        p apart (λ e. free (some-injective _ p e))

  ends :
      {A : Type 0} {Q : A → World → Type 0} {p : Result A × World}
      → After Q Never p
      → (a : A) × (v : World) × (p ≡ (ok a, v)) × Q a v
  ends (returned a v q) = (a, v, refl, q)
  ends (failed x v q) = elim q [ ]

  -- The copy with the closure: it returns, the targets have arrived, and no file has changed but the
  -- targets, the checkpoint and the state.
  served :
      WritesManifest host.manifests
      → Writes host.states
      → IsReady b3 serving m fs
      → ((i : ℕ) (e : ManifestEntry)
          → get_elem? m.entries i ≡ some e
          → to b3 serving m fs e ≢ state_path host offer.code)
      → ((i : ℕ) (e : ManifestEntry)
          → get_elem? m.entries i ≡ some e
          → join offer.source_path e.relative_path ≢ state_path host offer.code)
      → offer.source_path ≢ state_path host offer.code
      → manifest_path_by_code host offer.code ≢ state_path host offer.code
      → (report : TransferReport) × (u : Run) × (files : Files) × (watched_transfer b3
            host.manifests watch offer.source_path claim.target_dir
            (some (manifest_path_by_code host offer.code))
            default_max_retries
            (steady fs)
            m
          ≡ (ok report, u))
        × (u.disk ≡ steady files)
        × ((i : ℕ) (e : ManifestEntry)
            → get_elem? m.entries i ≡ some e
            → files (to b3 serving m fs e) ≡ fs (from b3 serving m fs e))
        × ((p : String)
            → state_path host offer.code ≢ p
            → ((i : ℕ) (e : ManifestEntry)
                → get_elem? m.entries i ≡ some e
                → to b3 serving m fs e ≢ p)
            → manifest_path_by_code host offer.code ≢ p
            → files p ≡ fs p)
  unfolding make_job
  served manifests states ready not_state below_state root_state manifest_state =
      let (report, t, returns, all, arrived, calm) =
        execute_local_transfer_brings b3 law host.manifests manifests offer.source_path
          claim.target_dir (some (manifest_path_by_code host offer.code)) default_max_retries m fs
          ready in
      let (u, watched, near) = Alike-ok (
        subst
          (λ p. Alike (Beside (state_path host offer.code) serving m.root_name) p (
            watched_transfer b3 host.manifests watch offer.source_path claim.target_dir
              (some (manifest_path_by_code host offer.code)) default_max_retries (steady fs) m))
          returns
          (watched_transfer-Alike b3 host.manifests watch offer.source_path claim.target_dir
            (some (manifest_path_by_code host offer.code)) default_max_retries fs m
            (state_path host offer.code)
            (on_progress-IsAside b3 host offer bytes_total claim (record w { disk = steady fs })
              states)
            (λ q. manifest_state (some-injective _ _ q)) (λ q. root_state (sym q))
            (All-of_get _ m.entries λ i e here.
              ((λ q. below_state i e here (sym q)), λ q. not_state i e here (sym q))))) in
      let (_, files, plain, aside, agree) =
        Beside-disks (state_path host offer.code) serving m.root_name t u near in
      let left : (p : String) → state_path host offer.code ≢ p → files p ≡ t.disk.files p =
        λ p ne. sym (agree p ne) ∙ ap (λ (d : Disk). d.files p) (sym plain) in
      (
        report,
        u,
        files,
        watched,
        aside,
        (λ i e here.
            left (to b3 serving m fs e) (λ q. not_state i e here (sym q)) ∙ arrived i e here),
        λ p ne apart free.
            left p ne
            ∙ ap (λ x. x.1.disk.files p) (sym returns)
            ∙ run-elsewhere ready.formed.chunk_pos p apart free,
      )

  -- A receiver that has been admitted, on a disk where every call succeeds in full: the
  -- sources have the sizes and hashes that the well-formed manifest gives them, each chunk is
  -- not marked or no other bytes have its hash, and the paths do not overlap; the state is
  -- neither a target, nor the shared path, nor the path of an entry below it, nor the manifest
  -- or the history; the history is neither a target, nor a source, nor the manifest; the
  -- history loads, and the library writes every value. Then `cmd_send`, whose closure writes
  -- the state at every event of the transfer, completes the round of this receiver, after the
  -- records are written too; each target holds the bytes that its source had at the beginning,
  -- and each source still holds them.
  pub transfer-delivers :
      (started_at : String) (es : List TransferHistoryEntry)
      → WritesManifest host.manifests
      → Writes host.states
      → Writes host.histories
      → IsReady b3 serving m fs
      → load_history host (steady fs) ≡ (ok es, steady fs)
      → state_path host offer.code ≢ history_path host
      → manifest_path_by_code host offer.code ≢ history_path host
      → ((i : ℕ) (e : ManifestEntry)
          → get_elem? m.entries i ≡ some e
          → to b3 serving m fs e ≢ state_path host offer.code)
      → ((i : ℕ) (e : ManifestEntry)
          → get_elem? m.entries i ≡ some e
          → to b3 serving m fs e ≢ history_path host)
      → ((i : ℕ) (e : ManifestEntry)
          → get_elem? m.entries i ≡ some e
          → join offer.source_path e.relative_path ≢ state_path host offer.code)
      → ((i : ℕ) (e : ManifestEntry)
          → get_elem? m.entries i ≡ some e
          → from b3 serving m fs e ≢ history_path host)
      → offer.source_path ≢ state_path host offer.code
      → manifest_path_by_code host offer.code ≢ state_path host offer.code
      → (changed : TransferManifest) × (v : World) × (transfer b3 host offer bytes_total claim
            started_at m
            (record w { disk = steady fs })
          ≡ (ok changed, v))
        × ((i : ℕ) (e : ManifestEntry)
            → get_elem? m.entries i ≡ some e
            → (v.disk.files (to b3 serving m fs e) ≡ fs (from b3 serving m fs e))
              × (v.disk.files (from b3 serving m fs e) ≡ fs (from b3 serving m fs e)))
  unfolding make_job
  transfer-delivers started_at es manifests states histories ready loads a b not_state not_history
        below_state from_history root_state manifest_state =
      let (report, u, files, watched, calm, arrived, elsewhere) =
        served manifests states ready not_state below_state root_state manifest_state in
      let same_history : files (history_path host) ≡ fs (history_path host) =
        elsewhere (history_path host) a not_history b in
      let from_state : (i : ℕ) (e : ManifestEntry)
          → get_elem? m.entries i ≡ some e
          → state_path host offer.code ≢ from b3 serving m fs e =
        λ i e here q.
          source-apart (exists fs offer.source_path) offer.source_path e.relative_path
            (state_path host offer.code) root_state (below_state i e here) (sym q) in
      let (changed, v, goes, ended) = ends (
        bind-After
          {R = λ changed v.
            Ended b3 host offer bytes_total claim files manifests states histories v}
          {F = Never} _ _ (record w { disk = u.disk; ticks = w.ticks + length u.events })
          (print_progress-Settled b3 host offer bytes_total claim files manifests states histories
            u.events 0 (record w { disk = u.disk; ticks = w.ticks + length u.events })
            (record { files = files; disk = calm; kept = λ p c d. refl }))
          (λ e x h. h)
          λ last_print x s.
            bind-After _ _ x
              (finish-Ended b3 host offer bytes_total claim files manifests states histories
                started_at u.manifest last_print report es x a b
                (load_history-same host fs files es same_history loads) s)
              (λ e y h. h) λ done y e. returned u.manifest y e) in
      let now_at : (p : String) → v.disk.files p ≡ ended.files p =
        λ p. ap (λ (d : Disk). d.files p) ended.disk in
      (
        changed,
        v,
        transfer-run started_at report u watched ∙ goes,
        λ i e here. (
          now_at (to b3 serving m fs e)
              ∙ ended.kept (to b3 serving m fs e) (λ q. not_state i e here (sym q))
                  (λ q. ready.free_target i e here (ap some q)) (λ q. not_history i e here (sym q))
              ∙ arrived i e here,
          now_at (from b3 serving m fs e)
              ∙ ended.kept (from b3 serving m fs e) (from_state i e here)
                  (λ q. ready.free_source i e here (ap some q)) (λ q. from_history i e here (sym q))
              ∙ elsewhere (from b3 serving m fs e) (from_state i e here)
                  (λ j f there. ready.no_source j i f e there here)
                  (λ q. ready.free_source i e here (ap some q)),
        ),
      )
