-- ===== src/Transfer/Execute/Success/Whole.antt =====
-- A whole transfer from intact sources on a steady disk.
use send_rs.Prelude.{
  ℕ, zero, suc, ◌+◌, ◌≡◌, refl, ap, ◌∙◌, subst, String, Option, some, length, arith, get_elem?,
  get_elem?-some, get_elem?-lt,
}
use send_rs.Exec.{Result, ok, ◌>>=◌, with_context}
use send_rs.Exec.Rules.{After, returned, failed, bind-After}
use send_rs.Disk.{Files, Disk, check}
use send_rs.Disk.Steady.{steady, check-steady}
use send_rs.Blake3.{Blake3, IsStreaming}
use send_rs.Transfer.Manifest.{ManifestEntry, TransferManifest, TransferReport, done_size}
use send_rs.Transfer.Copy.{ManifestJson}
use send_rs.Transfer.Execute.{
  Run, Job, emit, transfer_entry, transfer_entries, run_job, save_checkpoint, start, make_job,
  execute_local_transfer,
}
use send_rs.Transfer.Execute.Fresh.{Never, Writes, save_checkpoint-Saved, on_disk-eq}
use send_rs.Transfer.Execute.Success.{from, to, IsReady, Arriving}
use send_rs.Transfer.Execute.Success.Entry.{transfer_entry-Arriving}

module _ {H : Type 0} (b3 : Blake3 H) (law : IsStreaming b3) (json : ManifestJson)
    (writes : Writes json) (job : Job) (m : TransferManifest) (fs : Files)
    (ready : IsReady b3 job m fs) where
  -- The loop over the entries.
  transfer_entries-Arriving :
      (n idx : ℕ) (r : Run)
      → idx + n ≡ length m.entries
      → Arriving b3 job m fs idx r
      → After
          (λ u t. Arriving b3 job m fs (length m.entries) t)
          Never
          (transfer_entries b3 json job n idx r)
  unfolding transfer_entries ◌>>=◌
  transfer_entries-Arriving zero idx r all i =
      let e : idx ≡ length m.entries = omega (arith, all) in
      returned _ _ (subst (λ k. Arriving b3 job m fs k r) e i)
  transfer_entries-Arriving (suc n) idx r all i =
      let (e, here) = get_elem?-some m.entries idx (omega (arith, all)) in
      rw (i.rest idx (omega arith), here)
        (bind-After (transfer_entry b3 json job idx (some e)) _ r
          (transfer_entry-Arriving b3 law json writes job m fs ready idx e here r i) (λ x t h. h)
          λ u t next. transfer_entries-Arriving n (suc idx) t (omega (arith, all)) next)

  -- What a run has brought about.
  abbrev Brought : TransferReport → Run → Type 0
  Brought report t =
      (report.files_completed ≡ length m.entries)
      × ((i : ℕ) (e : ManifestEntry)
          → get_elem? m.entries i ≡ some e
          → t.disk.files (to b3 job m fs e) ≡ fs (from b3 job m fs e))
      × ((files : Files) × (t.disk ≡ steady files))

  begun_all :
      (r : Run)
      → r.manifest ≡ m
      → r.disk ≡ steady fs
      → r.files_completed ≡ 0
      → Arriving b3 job m fs 0 r
  begun_all r same d none_yet = record {
    files = fs;
    disk = d;
    kept = λ p ne free. refl;
    arrived = λ i e none_before. absurd (omega arith);
    rest = λ i h. ap (λ (x : TransferManifest). get_elem? x.entries i) same;
    same_entries = ap (λ (x : TransferManifest). length x.entries) same;
    same_root = ap (λ (x : TransferManifest). x.root_name) same;
    same_chunks = ap (λ (x : TransferManifest). x.chunk_size) same;
    counted = none_yet;
  }

  run_job-Brought :
      (r : Run)
      → r.manifest ≡ m
      → r.disk ≡ steady fs
      → r.files_completed ≡ 0
      → After Brought Never (run_job b3 json job r)
  unfolding run_job ◌>>=◌ with_context emit
  run_job-Brought r same d none_yet =
      rw (on_disk-eq check r tt (steady fs) (ap check d ∙ check-steady fs)) (
        bind-After (transfer_entries b3 json job (length r.manifest.entries) 0) _ ready_run
          (transfer_entries-Arriving (length r.manifest.entries) 0 ready_run
            (omega (arith, ap (λ (x : TransferManifest). length x.entries) same))
            (begun_all ready_run same refl none_yet))
          (λ x t h. h)
          λ u t i.
            bind-After (save_checkpoint json job) _ t
              (save_checkpoint-Saved json writes job t i.files i.disk) (λ x v h. h)
              λ u v saved. returned _ _ (
                saved.files_completed ∙ i.counted,
                λ n e here.
                    ap (λ (x : Disk). x.files (to b3 job m fs e)) saved.disk
                    ∙ saved.others (to b3 job m fs e) (ready.free_target n e here)
                    ∙ ap (λ (x : Disk). x.files (to b3 job m fs e)) i.disk
                    ∙ i.arrived n e (get_elem?-lt m.entries n here) here,
                (saved.files, saved.disk),
              ))
    where
      ready_run : Run
      ready_run =
          emit job.bytes_total "" (record r { disk = steady fs; bytes_done = done_size r.manifest })

After-returns :
    {Q : TransferReport → Run → Type 0} {p : Result TransferReport × Run}
    → After Q Never p
    → (report : TransferReport) × (t : Run) × (p ≡ (ok report, t)) × Q report t
After-returns (returned report t q) = (report, t, refl, q)
After-returns (failed x t q) = elim q [ ]

module _ {H : Type 0} (b3 : Blake3 H) (law : IsStreaming b3) (json : ManifestJson)
    (writes : Writes json) (source_path target_root : String) (checkpoint_path : Option String)
    (max_retries : ℕ) (m : TransferManifest) (fs : Files) where
  abbrev pub the_job : Job
  the_job = make_job source_path target_root checkpoint_path max_retries (steady fs) m

  -- The run that `execute_local_transfer` makes, and what it brings about.
  pub execute_local_transfer_brings :
      IsReady b3 the_job m fs
      → (report : TransferReport) × (t : Run) × (execute_local_transfer b3 json source_path
            target_root checkpoint_path max_retries
            (steady fs)
            m
          ≡ (ok report, t))
        × (report.files_completed ≡ length m.entries)
        × ((i : ℕ) (e : ManifestEntry)
            → get_elem? m.entries i ≡ some e
            → t.disk.files (to b3 the_job m fs e) ≡ fs (from b3 the_job m fs e))
        × ((files : Files) × (t.disk ≡ steady files))
  unfolding execute_local_transfer start
  execute_local_transfer_brings ready =
      let (report, t, returns, brought) = After-returns (
        run_job-Brought b3 law json writes the_job m fs ready (start (steady fs) m) refl refl
          refl) in
      (report, t, returns, brought.0, brought.1, brought.2)

  -- On a disk where every call succeeds in full, from sources that have the sizes and hashes that a
  -- well-formed manifest gives them, where each chunk is not marked or no other bytes have its
  -- hash, with paths that do not overlap and a JSON library that writes every manifest: the transfer
  -- returns, it has copied every file, and each target holds the bytes of its source, whatever it
  -- held before.
  pub execute_local_transfer_succeeds :
      IsReady b3 the_job m fs
      → (report : TransferReport) × (t : Run) × (execute_local_transfer b3 json source_path
            target_root checkpoint_path max_retries
            (steady fs)
            m
          ≡ (ok report, t))
        × (report.files_completed ≡ length m.entries)
        × ((i : ℕ) (e : ManifestEntry)
            → get_elem? m.entries i ≡ some e
            → t.disk.files (to b3 the_job m fs e) ≡ fs (from b3 the_job m fs e))
  execute_local_transfer_succeeds ready =
      let (report, t, returns, all, arrived, calm) = execute_local_transfer_brings ready in
      (report, t, returns, all, arrived)
