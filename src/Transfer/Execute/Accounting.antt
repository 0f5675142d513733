-- ===== src/Transfer/Execute/Accounting.antt =====
-- What a transfer reports: where it returns, all bytes of all entries, and never more on the way.
use send_rs.Prelude.{
  ℕ, ◌≡◌, refl, ap, sym, ◌∙◌, subst, String, Option, [], length, All, All-of_get, arith,
  get_elem?-lt,
}
use send_rs.Exec.{Result, ok, ◌>>=◌}
use send_rs.Exec.Rules.{After, returned, failed, bind-After, bind_context-After, After-ok}
use send_rs.Disk.{Disk, check}
use send_rs.Disk.Calls.{check-Keeps}
use send_rs.Blake3.{Blake3}
use send_rs.Transfer.Manifest.{TransferManifest, TransferReport, total_size, done_size}
use send_rs.Transfer.Manifest.Sums.{IsWellFormed}
use send_rs.Transfer.Manifest.Totals.{total_size-eq, done_size-done_total, done_total_all, AllDone}
use send_rs.Transfer.Copy.{ManifestJson}
use send_rs.Transfer.Execute.{
  Run, Job, on_disk, emit, transfer_entries, run_job, save_checkpoint, start, make_job,
  execute_local_transfer,
}
use send_rs.Transfer.Execute.Invariant.{
  on_disk-After, OnlyCheckpoint, save_checkpoint-OnlyCheckpoint,
}
use send_rs.Transfer.Execute.Counting.{IsBounded, IsCounted}
use send_rs.Transfer.Execute.Counting.Loop.{emit-IsCounted}
use send_rs.Transfer.Execute.Rounds.{Same, unchanged-IsCounted, transfer_entries-AtEntry}

module _ {H : Type 0} (b3 : Blake3 H) (json : ManifestJson) (job : Job) where
  -- After a run that returned, every chunk is marked and all bytes are counted.
  record AllCounted (total : ℕ) (report : TransferReport) (t : Run) : Type 0 where
    base : IsCounted job t
    everything : All AllDone t.manifest.entries
    same_total : report.bytes_total ≡ total
    same_done : report.bytes_done ≡ t.bytes_done

  -- What holds of the manifest and the events at every end, also before the first event.
  abbrev Within : Run → Type 0
  Within t = IsWellFormed t.manifest × All (IsBounded job.bytes_total) t.events

  counted-Within : (t : Run) → IsCounted job t → Within t
  counted-Within t i = (i.formed, i.events)

  started-IsCounted :
      (r : Run)
      → IsWellFormed r.manifest
      → job.bytes_total ≡ total_size r.manifest
      → r.events ≡ []
      → IsCounted job (record r { bytes_done = done_size r.manifest })
  started-IsCounted r w e none_yet = record {
    formed = w;
    counted = done_size-done_total r.manifest w;
    whole = e ∙ total_size-eq r.manifest w;
    events = subst (All (IsBounded job.bytes_total)) (sym none_yet) tt;
  }

  checkpoint-IsCounted : (r t : Run) → IsCounted job r → OnlyCheckpoint job r t → IsCounted job t
  checkpoint-IsCounted r t i only =
      unchanged-IsCounted b3 json job (only.manifest, only.bytes_done, only.events) i

  -- The whole run, from a manifest.
  run_job-AllCounted :
      (r : Run)
      → IsWellFormed r.manifest
      → job.bytes_total ≡ total_size r.manifest
      → r.events ≡ []
      → After (AllCounted job.bytes_total) (λ x t. Within t) (run_job b3 json job r)
  unfolding run_job ◌>>=◌ emit
  run_job-AllCounted r w e none_yet =
      bind_context-After "create receive target root" (on_disk check) _ r
        (on_disk-After {R = λ u t. Same b3 json job r t} {F = λ x t. Within t} check r
          (check-Keeps r.disk) (λ u d k. (refl, refl, refl))
          (λ x d k. (w, subst (All (IsBounded job.bytes_total)) (sym none_yet) tt)))
        (λ x t q. q)
        λ u t same.
          let count = length t.manifest.entries in
          let ready =
            emit-IsCounted job "" (record t { bytes_done = done_size t.manifest })
              (started-IsCounted t (subst IsWellFormed (sym same.0) w)
                (e ∙ ap total_size (sym same.0)) (same.2 ∙ none_yet)) in
          bind-After (transfer_entries b3 json job count 0) _
            (emit job.bytes_total "" (record t { bytes_done = done_size t.manifest }))
            (transfer_entries-AtEntry b3 json job count count 0 _ (omega arith) (record {
              base = ready;
              many = refl;
              earlier = λ i f j none_before. absurd (omega arith);
            }))
            (λ x v q. counted-Within v q)
            λ u v a.
              bind-After (save_checkpoint json job) _ v (save_checkpoint-OnlyCheckpoint json job v)
                (λ x w q. counted-Within w (checkpoint-IsCounted v w a.base q.1))
                λ u w only. returned _ _ (record {
                  base = checkpoint-IsCounted v w a.base only;
                  everything =
                      subst (λ (m : TransferManifest). All AllDone m.entries) (sym only.manifest)
                        (All-of_get AllDone v.manifest.entries λ i f here j.
                          a.earlier i f j
                            (omega (arith, get_elem?-lt v.manifest.entries i here, a.many)) here);
                  same_total = refl;
                  same_done = refl;
                })

  AllCounted-bytes :
      (total : ℕ) (report : TransferReport) (t : Run)
      → total ≡ job.bytes_total
      → AllCounted total report t
      → (report.bytes_done ≡ report.bytes_total) × (done_size t.manifest ≡ report.bytes_total)
  AllCounted-bytes total report t e a =
      let full =
        done_total_all t.manifest.chunk_size t.manifest.entries a.base.formed.sized a.everything in
      let counted = a.base.counted ∙ full ∙ sym a.base.whole ∙ sym e ∙ sym a.same_total in
      (
        a.same_done ∙ counted,
        done_size-done_total t.manifest a.base.formed ∙ sym a.base.counted ∙ counted,
      )

module _ {H : Type 0} (b3 : Blake3 H) (json : ManifestJson) (source_path target_root : String)
    (checkpoint_path : Option String) (max_retries : ℕ) (disk : Disk) (m : TransferManifest) where
  abbrev outcome : Result TransferReport × Run
  outcome =
      execute_local_transfer b3 json source_path target_root checkpoint_path max_retries disk m

  abbrev the_job : Job
  the_job = make_job source_path target_root checkpoint_path max_retries disk m

  accounted :
      IsWellFormed m
      → After (AllCounted b3 json the_job (total_size m)) (λ x t. Within b3 json the_job t) outcome
  unfolding execute_local_transfer
  accounted w = run_job-AllCounted b3 json the_job (start disk m) w refl refl

  -- For a well-formed manifest, with any bits of its bitmaps set: a transfer that returns reports
  -- all bytes of all entries, as total and as done, and leaves every chunk of the manifest marked.
  pub execute_local_transfer_bytes :
      IsWellFormed m
      → (report : TransferReport) (t : Run) → outcome ≡ (ok report, t)
      → (report.bytes_total ≡ total_size m)
        × (report.bytes_done ≡ total_size m)
        × (done_size t.manifest ≡ total_size m)
        × All AllDone t.manifest.entries
  unfolding make_job
  execute_local_transfer_bytes w report t returns =
      let a = After-ok (accounted w) returns in
      let sums = AllCounted-bytes b3 json the_job (total_size m) report t refl a in
      (a.same_total, sums.0 ∙ a.same_total, sums.1 ∙ a.same_total, a.everything)

  -- For a well-formed manifest, however the transfer ends: no event reports more bytes done than
  -- the total, which is that of the manifest at the start, and the manifest is left well formed, so
  -- the transfer can be resumed from it.
  pub execute_local_transfer_events :
      IsWellFormed m
      → All (IsBounded (total_size m)) outcome.1.events × IsWellFormed outcome.1.manifest
  unfolding make_job
  execute_local_transfer_events w = elim_both (accounted w)
    where
      elim_both :
          {p : Result TransferReport × Run}
          → After (AllCounted b3 json the_job (total_size m)) (λ x t. Within b3 json the_job t) p
          → All (IsBounded (total_size m)) p.1.events × IsWellFormed p.1.manifest
      elim_both (returned report t a) = (a.base.events, a.base.formed)
      elim_both (failed x t q) = (q.1, q.0)
