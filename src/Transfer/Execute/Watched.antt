-- ===== src/Transfer/Execute/Watched.antt =====
-- `execute_local_transfer` of crates/transfer/src/lib.rs with a closure `on_progress` that changes the
-- disk. In Execute the closure changes no file, and the events alone are kept.
pub mod Aside
pub mod Blind
pub mod Simulated
pub mod Whole
pub mod Idle
use send_rs.Prelude.{
  ℕ, zero, suc, ◌*◌, max, String, Option, none, some, List, [], ◌∷◌, length, get_elem?, wrap,
  nat_eq, if◌then◌else◌,
}
use send_rs.Exec.{Exec, Error, Result, ok, err, pure, gets, put, with_context, attempt, ◌>>=◌, ◌>>◌}
use send_rs.Disk.{Disk, check}
use send_rs.Blake3.{Blake3}
use send_rs.Transfer.Manifest.{
  ManifestEntry, TransferManifest, ProgressEvent, TransferReport, done_size, chunk_len,
}
use send_rs.Transfer.Copy.{ManifestJson, copy_chunk}
use send_rs.Transfer.Execute.{
  Run, Job, FileJob, on_disk, record_copied, emit, open_files, save_checkpoint, resume_check,
  raise_last, check_file, file_job, start, make_job,
}

-- What the closure does to the disk, on an event that comes after so many others.
abbrev pub Watch : Type 0
Watch = ℕ → ProgressEvent → Disk → Disk

-- `on_progress(..)`
unfoldable pub notify : Watch → ℕ → String → Run → Run
unfolding emit
notify watch total file r =
    let event : ProgressEvent = record {
      bytes_total = total;
      bytes_done = r.bytes_done;
      current_file = file;
    } in
    record (emit total file r) { disk = watch (length r.events) event r.disk }

module _ {H : Type 0} (b3 : Blake3 H) (json : ManifestJson) (watch : Watch) (job : Job) where
  unfoldable pub watched_copied : FileJob → ℕ → ℕ → Exec Run (Unit {0})
  unfolding notify
  watched_copied file idx read_len = do
    put (record_copied file idx read_len)
    save_checkpoint json job
    put (notify watch job.bytes_total file.relative_path)

  unfoldable pub watched_attempts :
      FileJob → ℕ → ℕ → String → ℕ → Option Error → Exec Run (Option Error)
  unfolding watched_copied
  watched_attempts file idx read_len expected zero last_error = pure last_error
  watched_attempts file idx read_len expected (suc n) last_error = do
    copied ←
        attempt (
          on_disk
            (copy_chunk b3 file.src file.dst (wrap (idx * file.chunk_size)) read_len expected))
    elim copied [
      | ok u ↦ (do watched_copied file idx read_len; pure none)
      | err e ↦ watched_attempts file idx read_len expected n (some e)
    ]

  unfoldable pub watched_step : FileJob → ℕ → String → Exec Run (Unit {0})
  unfolding watched_attempts
  watched_step file idx expected =
      let read_len = chunk_len file.chunk_size file.entry_size idx in
      if nat_eq read_len 0 then pure tt else do
        skip ← resume_check b3 json job file idx read_len expected
        if skip then pure tt else do
          last_error ← watched_attempts file idx read_len expected (max job.max_retries 1) none
          raise_last b3 json job file idx last_error

  unfoldable pub watched_chunks : FileJob → ℕ → List String → Exec Run (Unit {0})
  unfolding watched_step
  watched_chunks file idx [] = pure tt
  watched_chunks file idx (expected ∷ rest) = do
    watched_step file idx expected
    watched_chunks file (suc idx) rest

  unfoldable pub watched_entry : ℕ → Option ManifestEntry → Exec Run (Unit {0})
  unfolding watched_chunks
  watched_entry idx none = pure tt
  watched_entry idx (some entry) = do
    file ← gets (file_job b3 json job idx entry)
    on_disk (open_files file)
    watched_chunks file 0 entry.chunk_hashes
    check_file b3 json job file entry.file_hash

  unfoldable pub watched_entries : ℕ → ℕ → Exec Run (Unit {0})
  unfolding watched_entry
  watched_entries zero idx = pure tt
  watched_entries (suc n) idx = do
    entry ← gets (λ r. get_elem? r.manifest.entries idx)
    watched_entry idx entry
    watched_entries n (suc idx)

  unfoldable pub watched_job : Exec Run TransferReport
  unfolding watched_entries
  watched_job = do
    with_context "create receive target root" (on_disk check)
    put (λ r. record r { bytes_done = done_size r.manifest })
    put (notify watch job.bytes_total "")
    count ← gets (λ r. length r.manifest.entries)
    watched_entries count 0
    save_checkpoint json job
    gets (λ r. record {
      bytes_total = job.bytes_total;
      bytes_done = r.bytes_done;
      files_total = length r.manifest.entries;
      files_completed = r.files_completed;
    })

module _ {H : Type 0} (b3 : Blake3 H) (json : ManifestJson) (watch : Watch) where
  unfoldable pub watched_transfer :
      String → String → Option String → ℕ → Disk → TransferManifest → Result TransferReport × Run
  unfolding watched_job
  watched_transfer source_path target_root checkpoint_path max_retries disk manifest =
      watched_job b3 json watch
        (make_job source_path target_root checkpoint_path max_retries disk manifest)
        (start disk manifest)
