-- ===== src/Transfer/Execute/Watched/Simulated.antt =====
-- `execute_local_transfer` of crates/transfer/src/lib.rs with a closure that changes one file only, and
-- without it, run side by side on a steady disk.
use send_rs.Prelude.{
  ◌≡◌, ◌≢◌, refl, sym, ap, ◌∙◌, ℕ, zero, suc, ◌+◌, ◌*◌, max, wrap, true, false, String, Option,
  none, some, List, [], ◌∷◌, length, nat_eq, All, ◌==◌,
}
use send_rs.Exec.{Exec, Error, Result, ok, err, put, ◌>>=◌}
use send_rs.Disk.{Files, Disk}
use send_rs.Disk.Steady.{steady}
use send_rs.Paths.{join}
use send_rs.Blake3.{Blake3}
use send_rs.Transfer.Manifest.{
  ManifestEntry, TransferManifest, ProgressEvent, mark_chunk_done, clear_chunk_done, chunk_len,
}
use send_rs.Transfer.Manifest.Totals.{All-modify}
use send_rs.Transfer.Copy.{ManifestJson, save_manifest}
use send_rs.Transfer.Execute.{
  Run, Job, FileJob, put_disk, on_disk, change_entry, chunk_done, record_copied, record_lost, emit,
  dest_file_path, open_files, save_at, save_checkpoint, chunk_copied, copy_attempts, resume_check,
  raise_last, copy_step, copy_chunks, check_file,
}
use send_rs.Transfer.Execute.Watched.{
  Watch, notify, watched_copied, watched_attempts, watched_step, watched_chunks,
}
use send_rs.Transfer.Execute.Watched.Aside.{
  Alike, both, Sim, bind-Sim, result-Sim, if-Sim, gets-Sim, attempt-Sim, Agree, Near, near, Blind,
}
use send_rs.Transfer.Execute.Watched.Blind.{
  hash_file-Blind, copy_chunk-Blind, verify_chunk_at-Blind, save_manifest-Blind, open_files-Blind,
}

-- What the closure does to a steady disk: it changes no file but one.
abbrev pub IsAside : String → Watch → Type 0
IsAside aside watch =
    (n : ℕ) (event : ProgressEvent) (f : Files)
    → (g : Files) × (watch n event (steady f) ≡ steady g) × Agree aside f g

module _ (aside : String) (job : Job) (root : String) where
  -- The file is neither the source nor the target of the path.
  abbrev pub IsFree : ManifestEntry → Type 0
  IsFree e =
      (aside ≢ join job.source_path e.relative_path)
      × (aside ≢ dest_file_path job root e.relative_path)

  abbrev pub Named : TransferManifest → Type 0
  Named m = (m.root_name ≡ root) × All IsFree m.entries

  -- Two runs that differ in that file only.
  pub data Beside : Run → Run → Type 0 where
    beside :
        (r : Run) (f g : Files)
        → Agree aside f g
        → Named r.manifest
        → Beside (record r { disk = steady f }) (record r { disk = steady g })

  Named-change :
      (idx : ℕ) (h : ManifestEntry → ManifestEntry)
      → ((e : ManifestEntry) → (h e).relative_path ≡ e.relative_path)
      → (r : Run) → Named r.manifest
      → Named (change_entry idx h r).manifest
  unfolding change_entry
  Named-change idx h same r (e, all) =
      (e, All-modify IsFree r.manifest.entries idx h (λ x free. rw (same x) free) all)

  put_disk-Alike :
      {A : Type 0} (r : Run)
      → Named r.manifest
      → {p q : Result A × Disk} → Alike (Near aside) p q
      → Alike Beside (put_disk r p) (put_disk r q)
  put_disk-Alike r named (both x _ _ (near f g a)) = both x _ _ (beside r f g a named)

  pub on_disk-Sim :
      {A : Type 0} (m : Exec Disk A) → Blind aside m → Sim Beside (on_disk m) (on_disk m)
  unfolding on_disk
  on_disk-Sim m blind _ _ (beside r f g a named) =
      put_disk-Alike r named (blind (steady f) (steady g) (near f g a))

  record_copied-Sim :
      (file : FileJob) (idx n : ℕ)
      → Sim Beside (put (record_copied file idx n)) (put (record_copied file idx n))
  unfolding record_copied change_entry mark_chunk_done
  record_copied-Sim file idx n _ _ (beside r f g a named) = both _ _ _ (
      beside (record_copied file idx n r) f g a
        (Named-change file.entry_idx (mark_chunk_done idx) (λ e. refl) r named))

  record_lost-Sim :
      (file : FileJob) (idx n : ℕ)
      → Sim Beside (put (record_lost file idx n)) (put (record_lost file idx n))
  unfolding record_lost change_entry clear_chunk_done
  record_lost-Sim file idx n _ _ (beside r f g a named) = both _ _ _ (
      beside (record_lost file idx n r) f g a
        (Named-change file.entry_idx (clear_chunk_done idx) (λ e. refl) r named))

  module _ {H : Type 0} (b3 : Blake3 H) (json : ManifestJson) (watch : Watch)
      (quiet : IsAside aside watch) (checkpoint_free : job.checkpoint_path ≢ some aside)
      (source_free : aside ≢ job.source_path) where
    pub emit-Sim :
        (total : ℕ) (name : String)
        → Sim Beside (put (emit total name)) (put (notify watch total name))
    unfolding emit notify
    emit-Sim total name _ _ (beside r f g a named) =
        let event : ProgressEvent = record {
          bytes_total = total;
          bytes_done = r.bytes_done;
          current_file = name;
        } in
        let (h, e, same) = quiet (length r.events) event g in
        rw e (both _ _ _ (beside (emit total name r) f h (λ p ne. a p ne ∙ same p ne) named))

    save_at-Sim :
        (o : Option String) → o ≢ some aside → Sim Beside (save_at json job o) (save_at json job o)
    unfolding save_at
    save_at-Sim none free s t r = both _ s t r
    save_at-Sim (some path) free _ _ (beside r f g a named) =
        on_disk-Sim (save_manifest json path r.manifest)
          (save_manifest-Blind aside json path r.manifest (λ e. free (ap some (sym e)))) _ _
          (beside r f g a named)

    pub save_checkpoint-Sim : Sim Beside (save_checkpoint json job) (save_checkpoint json job)
    unfolding save_checkpoint
    save_checkpoint-Sim = save_at-Sim job.checkpoint_path checkpoint_free

    raise_last-Sim :
        (file : FileJob) (idx : ℕ) (o : Option Error)
        → Sim Beside (raise_last b3 json job file idx o) (raise_last b3 json job file idx o)
    unfolding raise_last
    raise_last-Sim file idx none = result-Sim (ok tt)
    raise_last-Sim file idx (some e) = result-Sim _

    module _ (file : FileJob) (from : aside ≢ file.src) (to : aside ≢ file.dst) where
      copied-Sim :
          (idx n : ℕ)
          → Sim Beside
              (chunk_copied b3 json job file idx n)
              (watched_copied b3 json watch job file idx n)
      unfolding chunk_copied watched_copied
      copied-Sim idx n =
          bind-Sim (record_copied-Sim file idx n)
            λ u. bind-Sim save_checkpoint-Sim λ u. emit-Sim job.bytes_total file.relative_path

      attempts-Sim :
          (idx n : ℕ) (expected : String) (k : ℕ) (last : Option Error)
          → Sim Beside
              (copy_attempts b3 json job file idx n expected k last)
              (watched_attempts b3 json watch job file idx n expected k last)
      unfolding copy_attempts watched_attempts
      attempts-Sim idx n expected zero last = result-Sim (ok last)
      attempts-Sim idx n expected (suc k) last =
          bind-Sim
            (attempt-Sim (
              on_disk-Sim _ (
                copy_chunk-Blind b3 aside file.src file.dst (wrap (idx * file.chunk_size)) n
                  expected from to)))
            (elim [
              | ok u ↦ bind-Sim (copied-Sim idx n) λ u. result-Sim (ok none)
              | err e ↦ attempts-Sim idx n expected k (some e)
            ])

      resume_check-Sim :
          (idx n : ℕ) (expected : String)
          → Sim Beside
              (resume_check b3 json job file idx n expected)
              (resume_check b3 json job file idx n expected)
      unfolding resume_check
      resume_check-Sim idx n expected = bind-Sim (gets-Sim _ _ marked) λ was_done.
          if-Sim was_done
            (bind-Sim
              (on_disk-Sim _ (
                verify_chunk_at-Blind b3 aside file.dst (wrap (idx * file.chunk_size)) n expected
                  to))
              λ verified.
                if-Sim verified (result-Sim (ok true))
                  (bind-Sim (record_lost-Sim file idx n) λ u. result-Sim (ok false)))
            (result-Sim (ok false))
        where
          marked :
              (s t : Run)
              → Beside s t
              → chunk_done file.entry_idx idx s.manifest ≡ chunk_done file.entry_idx idx t.manifest
          marked _ _ (beside r f g a named) = refl

      step-Sim :
          (idx : ℕ) (expected : String)
          → Sim Beside
              (copy_step b3 json job file idx expected)
              (watched_step b3 json watch job file idx expected)
      unfolding copy_step watched_step
      step-Sim idx expected =
          let n = chunk_len file.chunk_size file.entry_size idx in
          if-Sim (nat_eq n 0) (result-Sim (ok tt)) (
            bind-Sim (resume_check-Sim idx n expected) λ skip. if-Sim skip (result-Sim (ok tt)) (
              bind-Sim (attempts-Sim idx n expected (max job.max_retries 1) none)
                (raise_last-Sim file idx)))

      chunks-Sim :
          (idx : ℕ) (hashes : List String)
          → Sim Beside
              (copy_chunks b3 json job file idx hashes)
              (watched_chunks b3 json watch job file idx hashes)
      unfolding copy_chunks watched_chunks
      chunks-Sim idx [] = result-Sim (ok tt)
      chunks-Sim idx (expected ∷ rest) =
          bind-Sim (step-Sim idx expected) λ u. chunks-Sim (suc idx) rest

      completed-Sim :
          Sim Beside
            (put (λ r. record r { files_completed = r.files_completed + 1 }))
            (put (λ r. record r { files_completed = r.files_completed + 1 }))
      completed-Sim _ _ (beside r f g a named) =
          both _ _ _ (beside (record r { files_completed = r.files_completed + 1 }) f g a named)

      check_file-Sim :
          (expected : String)
          → Sim Beside (check_file b3 json job file expected) (check_file b3 json job file expected)
      unfolding check_file
      check_file-Sim expected =
          bind-Sim (on_disk-Sim _ (hash_file-Blind b3 aside file.dst file.chunk_size to))
            λ hashed. if-Sim (hashed.0 == expected) completed-Sim (result-Sim _)

      pub file-Sim :
          (e : ManifestEntry)
          → Sim Beside
              (on_disk (open_files file) >>= λ u.
                copy_chunks b3 json job file 0 e.chunk_hashes >>= λ u.
                check_file b3 json job file e.file_hash)
              (on_disk (open_files file) >>= λ u.
                watched_chunks b3 json watch job file 0 e.chunk_hashes >>= λ u.
                check_file b3 json job file e.file_hash)
      file-Sim e =
          bind-Sim (on_disk-Sim _ (open_files-Blind aside file from to))
            λ u. bind-Sim (chunks-Sim 0 e.chunk_hashes) λ u. check_file-Sim e.file_hash
