-- ===== src/Transfer/Execute/Watched/Whole.antt =====
-- The whole of `execute_local_transfer` of crates/transfer/src/lib.rs with a closure that changes one
-- file only, and without it.
use send_rs.Prelude.{
  ◌≡◌, ◌≢◌, refl, sym, subst, ℕ, zero, suc, Bool, true, false, String, Option, none, some, length,
  get_elem?, All,
}
use send_rs.Exec.{Result, ok, put, ◌>>=◌}
use send_rs.Disk.{Files, check, exists}
use send_rs.Disk.Steady.{steady}
use send_rs.Blake3.{Blake3}
use send_rs.Transfer.Manifest.{ManifestEntry, TransferManifest, TransferReport, done_size}
use send_rs.Transfer.Manifest.Totals.{All-get}
use send_rs.Transfer.Copy.{ManifestJson}
use send_rs.Transfer.Execute.{
  Run, Job, FileJob, on_disk, src_file_path, dest_file_path, open_files, copy_chunks, check_file,
  file_job, transfer_entry, transfer_entries, run_job, start, make_job, execute_local_transfer,
}
use send_rs.Transfer.Execute.Watched.{
  Watch, watched_chunks, watched_entry, watched_entries, watched_job, watched_transfer,
}
use send_rs.Transfer.Execute.Watched.Aside.{
  Alike, both, Sim, bind-Sim, context-Sim, gets-Sim, Agree, check-Blind,
}
use send_rs.Transfer.Execute.Watched.Simulated.{
  IsAside, IsFree, Beside, beside, on_disk-Sim, emit-Sim, save_checkpoint-Sim, file-Sim,
}

module _ (aside : String) (job : Job) (root : String) {H : Type 0} (b3 : Blake3 H)
    (json : ManifestJson) (watch : Watch) (quiet : IsAside aside watch)
    (checkpoint_free : job.checkpoint_path ≢ some aside)
    (source_free : aside ≢ job.source_path) where
  free_source :
      (b : Bool) (e : ManifestEntry)
      → IsFree aside job root e
      → aside ≢ src_file_path b job.source_path e.relative_path
  unfolding src_file_path
  free_source true e free = source_free
  free_source false e free = free.0

  module _ (idx : ℕ) (e : ManifestEntry) (r : Run) (f : Files) where
    file_src-free :
        IsFree aside job root e
        → aside ≢ (file_job b3 json job idx e (record r { disk = steady f })).src
    unfolding file_job
    file_src-free free = free_source (exists f job.source_path) e free

    file_dst-free :
        IsFree aside job root e
        → r.manifest.root_name ≡ root
        → aside ≢ (file_job b3 json job idx e (record r { disk = steady f })).dst
    unfolding file_job
    file_dst-free free same =
        subst (λ x. aside ≢ dest_file_path job x e.relative_path) (sym same) free.1

    file_job-same :
        (g : Files)
        → Agree aside f g
        → file_job b3 json job idx e (record r { disk = steady f })
          ≡ file_job b3 json job idx e (record r { disk = steady g })
    unfolding file_job
    file_job-same g a = rw (a job.source_path source_free) refl

  entry-Sim :
      (idx : ℕ) (o : Option ManifestEntry)
      → ((e : ManifestEntry) → o ≡ some e → IsFree aside job root e)
      → Sim
          (Beside aside job root)
          (transfer_entry b3 json job idx o)
          (watched_entry b3 json watch job idx o)
  unfolding transfer_entry watched_entry ◌>>=◌
  entry-Sim idx none free s t r = both _ s t r
  entry-Sim idx (some e) free _ _ (beside r f g a named) =
      subst
        (λ x.
          Alike (Beside aside job root)
            ((on_disk (open_files file) >>= λ u.
                copy_chunks b3 json job file 0 e.chunk_hashes >>= λ u.
                check_file b3 json job file e.file_hash)
              (record r { disk = steady f }))
            ((on_disk (open_files x) >>= λ u.
                watched_chunks b3 json watch job x 0 e.chunk_hashes >>= λ u.
                check_file b3 json job x e.file_hash)
              (record r { disk = steady g })))
        same
        (file-Sim aside job root b3 json watch quiet checkpoint_free source_free file from to e _ _
          (beside r f g a named))
    where
      file : FileJob
      file = file_job b3 json job idx e (record r { disk = steady f })

      same : file ≡ file_job b3 json job idx e (record r { disk = steady g })
      same = file_job-same idx e r f g a

      from : aside ≢ file.src
      from = file_src-free idx e r f (free e refl)

      to : aside ≢ file.dst
      to = file_dst-free idx e r f (free e refl) named.0

  entries-Sim :
      (n idx : ℕ)
      → Sim
          (Beside aside job root)
          (transfer_entries b3 json job n idx)
          (watched_entries b3 json watch job n idx)
  unfolding transfer_entries watched_entries ◌>>=◌
  entries-Sim zero idx s t r = both _ s t r
  entries-Sim (suc n) idx _ _ (beside r f g a named) =
      bind-Sim
        (entry-Sim idx (get_elem? r.manifest.entries idx)
          λ e here. All-get (IsFree aside job root) r.manifest.entries idx named.1 here)
        (λ u. entries-Sim n (suc idx)) _ _ (beside r f g a named)

  started-Sim :
      Sim
        (Beside aside job root)
        (put (λ r. record r { bytes_done = done_size r.manifest }))
        (put (λ r. record r { bytes_done = done_size r.manifest }))
  started-Sim _ _ (beside r f g a named) =
      both _ _ _ (beside (record r { bytes_done = done_size r.manifest }) f g a named)

  counted :
      (s t : Run)
      → Beside aside job root s t
      → length s.manifest.entries ≡ length t.manifest.entries
  counted _ _ (beside r f g a named) = refl

  abbrev report_of : Run → TransferReport
  report_of r = record {
    bytes_total = job.bytes_total;
    bytes_done = r.bytes_done;
    files_total = length r.manifest.entries;
    files_completed = r.files_completed;
  }

  reported : (s t : Run) → Beside aside job root s t → report_of s ≡ report_of t
  reported _ _ (beside r f g a named) = refl

  job-Sim : Sim (Beside aside job root) (run_job b3 json job) (watched_job b3 json watch job)
  unfolding run_job watched_job
  job-Sim =
      bind-Sim
        (context-Sim "create receive target root"
          (on_disk-Sim aside job root check (check-Blind aside)))
        λ u. bind-Sim started-Sim λ u.
          bind-Sim
            (emit-Sim aside job root b3 json watch quiet checkpoint_free source_free job.bytes_total
              "")
            λ u. bind-Sim (gets-Sim _ _ counted) λ count. bind-Sim (entries-Sim count 0) λ u.
              bind-Sim
                (save_checkpoint-Sim aside job root b3 json watch quiet checkpoint_free source_free)
                λ u. gets-Sim _ _ reported

module _ {A : Type 0} {R : Run → Run → Type 0} where
  pub Alike-ok :
      {a : A} {s : Run} {q : Result A × Run}
      → Alike R (ok a, s) q
      → (t : Run) × (q ≡ (ok a, t)) × R s t
  Alike-ok (both _ s t r) = (t, refl, r)

-- The disks of two runs that differ in one file.
pub Beside-disks :
    (aside : String) (job : Job) (root : String) (s t : Run)
    → Beside aside job root s t
    → (f : Files) × (g : Files) × (s.disk ≡ steady f) × (t.disk ≡ steady g) × Agree aside f g
Beside-disks aside job root _ _ (beside r f g a named) = (f, g, refl, refl, a)

module _ {H : Type 0} (b3 : Blake3 H) (json : ManifestJson) (watch : Watch)
    (source_path target_root : String) (checkpoint_path : Option String) (max_retries : ℕ)
    (fs : Files) (m : TransferManifest) (aside : String) where
  abbrev the_job : Job
  the_job = make_job source_path target_root checkpoint_path max_retries (steady fs) m

  -- On a disk where every call succeeds in full, for a progress closure that changes one file
  -- only, which is neither the checkpoint, nor the given path, nor the path of an entry below
  -- it, nor the target of an entry: the transfer with this closure and the transfer with one
  -- that changes no file have the same result, and they leave the same manifest, counters and
  -- events, and disks that differ in that file at most.
  pub watched_transfer-Alike :
      IsAside aside watch
      → checkpoint_path ≢ some aside
      → aside ≢ source_path
      → All (IsFree aside the_job m.root_name) m.entries
      → Alike
          (Beside aside the_job m.root_name)
          (execute_local_transfer b3 json source_path target_root checkpoint_path max_retries
            (steady fs)
            m)
          (watched_transfer b3 json watch source_path target_root checkpoint_path max_retries
            (steady fs)
            m)
  unfolding execute_local_transfer watched_transfer start make_job
  watched_transfer-Alike quiet checkpoint_free source_free free =
      job-Sim aside the_job m.root_name b3 json watch quiet checkpoint_free source_free _ _
        (beside (start (steady fs) m) fs fs (λ p ne. refl) (refl, free))
