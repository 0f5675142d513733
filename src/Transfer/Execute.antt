-- ===== src/Transfer/Execute.antt =====
-- `execute_local_transfer` of crates/transfer/src/lib.rs, with a progress closure that changes no file.
-- `Run` holds the disk and what the function changes: the manifest, its counters, and the events
-- handed to `on_progress`, oldest first.
pub mod Invariant
pub mod Shape
pub mod Verified
pub mod Delivery
pub mod Counting
pub mod Rounds
pub mod Accounting
pub mod Confined
pub mod Fresh
pub mod Success
pub mod Watched
use Prim.Native.String.{◌++◌ as ◌<>◌}
use send_rs.Prelude.{
  ℕ, zero, suc, ◌+◌, ◌-◌, ◌*◌, max, Bool, true, false, ◌&&◌, String, Option, none, some, List, [],
  ◌∷◌, ◌++◌, length, get_elem?, modify, wrap, decimal, nat_eq, ◌==◌, if◌then◌else◌,
}
use send_rs.Exec.{
  Exec, Error, Result, ok, err, message, context, pure, raise, gets, put, with_context, attempt,
  ◌>>=◌, ◌>>◌,
}
use send_rs.Disk.{Disk, exists, check, open_read, open_write, set_len}
use send_rs.Paths.{join, parent}
use send_rs.Blake3.{Blake3}
use send_rs.Transfer.Manifest.{
  ManifestEntry, TransferManifest, ProgressEvent, TransferReport, mark_chunk_done, clear_chunk_done,
  is_chunk_done, total_size, done_size, chunk_len,
}
use send_rs.Transfer.Hashing.{hash_file}
use send_rs.Transfer.Copy.{ManifestJson, copy_chunk, verify_chunk_at, save_manifest}

pub record Run : Type 0 where
  pub disk : Disk
  pub manifest : TransferManifest
  pub bytes_done : ℕ
  pub files_completed : ℕ
  pub events : List ProgressEvent

-- The arguments of the function, and what it computes once at the start.
pub record Job : Type 0 where
  pub source_path : String
  pub target_root : String
  pub checkpoint_path : Option String
  pub max_retries : ℕ
  pub is_single_file : Bool
  pub bytes_total : ℕ

-- The variables of one round of the loop over the entries.
pub record FileJob : Type 0 where
  pub entry_idx : ℕ
  pub relative_path : String
  pub entry_size : ℕ
  pub chunk_size : ℕ
  pub src : String
  pub dst : String

abbrev pub put_disk : {A : Type 0} → Run → Result A × Disk → Result A × Run
put_disk r (x, d) = (x, record r { disk = d })

unfoldable pub on_disk : {A : Type 0} → Exec Disk A → Exec Run A
on_disk m r = put_disk r (m r.disk)

unfoldable pub change_entry : ℕ → (ManifestEntry → ManifestEntry) → Run → Run
change_entry idx f r = record r {
  manifest = record r.manifest { entries = modify r.manifest.entries idx f };
}

unfoldable pub chunk_done : ℕ → ℕ → TransferManifest → Bool
chunk_done entry_idx idx manifest = elim (get_elem? manifest.entries entry_idx) [
  | none ↦ false
  | some entry ↦ is_chunk_done entry idx
]

-- `mark_chunk_done` and `bytes_done += read_len`.
unfoldable pub record_copied : FileJob → ℕ → ℕ → Run → Run
unfolding change_entry
record_copied file idx read_len r =
    let r' = change_entry file.entry_idx (mark_chunk_done idx) r in
    record r' { bytes_done = wrap (r'.bytes_done + read_len) }

-- `clear_chunk_done` and `bytes_done = bytes_done.saturating_sub(read_len)`.
unfoldable pub record_lost : FileJob → ℕ → ℕ → Run → Run
unfolding change_entry
record_lost file idx read_len r =
    let r' = change_entry file.entry_idx (clear_chunk_done idx) r in
    record r' { bytes_done = r'.bytes_done - read_len }

unfoldable pub emit : ℕ → String → Run → Run
emit total file r = record r {
  events =
      r.events
      ++ record { bytes_total = total; bytes_done = r.bytes_done; current_file = file } ∷ [];
}

-- The paths of an entry's source and destination.
unfoldable pub src_file_path : Bool → String → String → String
src_file_path source_is_file source_path relative_path =
    if source_is_file then source_path else join source_path relative_path

unfoldable pub dest_file_path : Job → String → String → String
dest_file_path job root_name relative_path =
    if job.is_single_file
    then join job.target_root root_name
    else join (join job.target_root root_name) relative_path

unfoldable pub create_parent : Option String → Exec Disk (Unit {0})
create_parent none = pure tt
create_parent (some dir) = with_context ("create dir " <> dir) check

-- Open both files and give the target its size.
unfoldable pub open_files : FileJob → Exec Disk (Unit {0})
unfolding create_parent
open_files file = do
  create_parent (parent file.dst)
  with_context ("open source file " <> file.src) (open_read file.src)
  with_context ("open target file " <> file.dst) (open_write file.dst)
  with_context ("set target size " <> file.dst) (set_len file.dst file.entry_size)

module _ (json : ManifestJson) (job : Job) where
  unfoldable pub save_at : Option String → Exec Run (Unit {0})
  save_at none r = (ok tt, r)
  save_at (some path) r = on_disk (save_manifest json path r.manifest) r

  unfoldable pub save_checkpoint : Exec Run (Unit {0})
  unfolding save_at
  save_checkpoint = save_at job.checkpoint_path

module _ {H : Type 0} (b3 : Blake3 H) (json : ManifestJson) (job : Job) where
  -- The arm `Ok(())` of the retry loop.
  unfoldable pub chunk_copied : FileJob → ℕ → ℕ → Exec Run (Unit {0})
  chunk_copied file idx read_len = do
    put (record_copied file idx read_len)
    save_checkpoint json job
    put (emit job.bytes_total file.relative_path)

  -- The retry loop, with the rounds left; its value is `last_error`.
  unfoldable pub copy_attempts :
      FileJob → ℕ → ℕ → String → ℕ → Option Error → Exec Run (Option Error)
  unfolding chunk_copied
  copy_attempts file idx read_len expected zero last_error = pure last_error
  copy_attempts file idx read_len expected (suc n) last_error = do
    copied ←
        attempt (
          on_disk
            (copy_chunk b3 file.src file.dst (wrap (idx * file.chunk_size)) read_len expected))
    elim copied [
      | ok u ↦ (do chunk_copied file idx read_len; pure none)
      | err e ↦ copy_attempts file idx read_len expected n (some e)
    ]

  -- Whether the chunk is marked as done and verifies; if it does not verify, the mark is taken back.
  unfoldable pub resume_check : FileJob → ℕ → ℕ → String → Exec Run Bool
  resume_check file idx read_len expected = do
    was_done ← gets (λ r. chunk_done file.entry_idx idx r.manifest)
    if was_done
        then (do
          verified ←
              on_disk (verify_chunk_at b3 file.dst (wrap (idx * file.chunk_size)) read_len expected)
          if verified then pure true else (do put (record_lost file idx read_len); pure false))
        else pure false

  unfoldable pub raise_last : FileJob → ℕ → Option Error → Exec Run (Unit {0})
  raise_last file idx none = pure tt
  raise_last file idx (some e) = raise (
      context ("copy chunk failed file=" <> (file.relative_path <> (" chunk_idx=" <> decimal idx)))
        e)

  unfoldable pub copy_step : FileJob → ℕ → String → Exec Run (Unit {0})
  unfolding raise_last
  copy_step file idx expected =
      let read_len = chunk_len file.chunk_size file.entry_size idx in
      if nat_eq read_len 0 then pure tt else do
        skip ← resume_check file idx read_len expected
        if skip then pure tt else do
          last_error ← copy_attempts file idx read_len expected (max job.max_retries 1) none
          raise_last file idx last_error

  unfoldable pub copy_chunks : FileJob → ℕ → List String → Exec Run (Unit {0})
  unfolding copy_step
  copy_chunks file idx [] = pure tt
  copy_chunks file idx (expected ∷ rest) = do
    copy_step file idx expected
    copy_chunks file (suc idx) rest

  -- The check of the whole file after its chunks.
  unfoldable pub check_file : FileJob → String → Exec Run (Unit {0})
  check_file file expected = do
    hashed ← on_disk (hash_file b3 file.dst file.chunk_size)
    if hashed.0 == expected
        then put (λ r. record r { files_completed = r.files_completed + 1 })
        else raise (message ("file hash mismatch for " <> file.relative_path))

  unfoldable pub file_job : ℕ → ManifestEntry → Run → FileJob
  file_job idx entry r = record {
    entry_idx = idx;
    relative_path = entry.relative_path;
    entry_size = entry.size;
    chunk_size = r.manifest.chunk_size;
    src = src_file_path (exists r.disk.files job.source_path) job.source_path entry.relative_path;
    dst = dest_file_path job r.manifest.root_name entry.relative_path;
  }

  -- One round of the loop over the entries. The index is in range.
  unfoldable pub transfer_entry : ℕ → Option ManifestEntry → Exec Run (Unit {0})
  unfolding copy_chunks check_file
  transfer_entry idx none = pure tt
  transfer_entry idx (some entry) = do
    file ← gets (file_job idx entry)
    on_disk (open_files file)
    copy_chunks file 0 entry.chunk_hashes
    check_file file entry.file_hash

  -- The loop over the entries, with the rounds left.
  unfoldable pub transfer_entries : ℕ → ℕ → Exec Run (Unit {0})
  unfolding transfer_entry
  transfer_entries zero idx = pure tt
  transfer_entries (suc n) idx = do
    entry ← gets (λ r. get_elem? r.manifest.entries idx)
    transfer_entry idx entry
    transfer_entries n (suc idx)

  unfoldable pub run_job : Exec Run TransferReport
  unfolding transfer_entries save_checkpoint
  run_job = do
    with_context "create receive target root" (on_disk check)
    put (λ r. record r { bytes_done = done_size r.manifest })
    put (emit job.bytes_total "")
    count ← gets (λ r. length r.manifest.entries)
    transfer_entries count 0
    save_checkpoint json job
    gets (λ r. record {
      bytes_total = job.bytes_total;
      bytes_done = r.bytes_done;
      files_total = length r.manifest.entries;
      files_completed = r.files_completed;
    })

abbrev single_file : TransferManifest → List ManifestEntry → Bool
single_file manifest [] = false
single_file manifest (entry ∷ []) = entry.relative_path == manifest.root_name
single_file manifest (entry ∷ next ∷ rest) = false

unfoldable pub start : Disk → TransferManifest → Run
start disk manifest = record {
  disk = disk;
  manifest = manifest;
  bytes_done = 0;
  files_completed = 0;
  events = [];
}

unfoldable pub make_job : String → String → Option String → ℕ → Disk → TransferManifest → Job
make_job source_path target_root checkpoint_path max_retries disk manifest = record {
  source_path = source_path;
  target_root = target_root;
  checkpoint_path = checkpoint_path;
  max_retries = max_retries;
  is_single_file = exists disk.files source_path && single_file manifest manifest.entries;
  bytes_total = total_size manifest;
}

module _ {H : Type 0} (b3 : Blake3 H) (json : ManifestJson) where
  unfoldable pub execute_local_transfer :
      String → String → Option String → ℕ → Disk → TransferManifest → Result TransferReport × Run
  unfolding run_job start make_job
  execute_local_transfer source_path target_root checkpoint_path max_retries disk manifest =
      run_job b3 json (make_job source_path target_root checkpoint_path max_retries disk manifest)
        (start disk manifest)
