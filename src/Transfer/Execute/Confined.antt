-- ===== src/Transfer/Execute/Confined.antt =====
-- What a transfer changes, however it ends: the targets, the checkpoint and the resume bitmaps.
use send_rs.Prelude.{
  ℕ, zero, suc, ◌+◌, ◌<◌, ◌≡◌, ◌≢◌, refl, ap, sym, ◌∙◌, String, some, length, arith, get_elem?,
  ◌==◌,
}
use mathlib.Core.Path.{ap₂}
use send_rs.Exec.{◌>>=◌}
use send_rs.Exec.Rules.{
  After, returned, failed, bind-After, bind_context-After, if-After, After-mono,
}
use send_rs.Disk.{Files, check}
use send_rs.Disk.Calls.{check-Keeps}
use send_rs.Blake3.{Blake3}
use send_rs.Transfer.Manifest.{ManifestEntry, TransferManifest, done_size}
use send_rs.Transfer.Hashing.{hash_file}
use send_rs.Transfer.Hashing.Digest.{hash_file-Digest}
use send_rs.Transfer.Copy.{ManifestJson}
use send_rs.Transfer.Execute.{
  Run, Job, FileJob, on_disk, emit, open_files, copy_chunks, check_file, file_job, dest_file_path,
  transfer_entry, transfer_entries, run_job, save_checkpoint,
}
use send_rs.Transfer.Execute.Invariant.{
  on_disk-After, OnlyCheckpoint, save_checkpoint-OnlyCheckpoint,
}
use send_rs.Transfer.Execute.Invariant.Steps.{copy_chunks-After}
use send_rs.Transfer.Execute.Shape.{erase, same_entry, shape}
use send_rs.Transfer.Execute.Verified.{Untouched, Within, Within-Stable, open_files-Touches}

module _ {H : Type 0} (b3 : Blake3 H) (json : ManifestJson) (job : Job) where
  -- A round over an entry with this target.
  abbrev Round : String → Run → Run → Type 0
  Round dst r t =
      Untouched job dst r.disk.files t.disk.files × (shape t.manifest ≡ shape r.manifest)

  -- The files and the manifest are as before.
  abbrev Quiet : Run → Run → Type 0
  Quiet r t = (t.disk.files ≡ r.disk.files) × (t.manifest ≡ r.manifest)

  check_file-Quiet :
      (file : FileJob) (expected : String) (r : Run)
      → 0 < file.chunk_size
      → After (λ u t. Quiet r t) (λ x t. Quiet r t) (check_file b3 json job file expected r)
  unfolding check_file
  check_file-Quiet file expected r h =
      bind-After (on_disk (hash_file b3 file.dst file.chunk_size)) _ r
        (on_disk-After {R = λ v t. Quiet r t} {F = λ x t. Quiet r t}
          (hash_file b3 file.dst file.chunk_size) r
          (hash_file-Digest b3 file.dst file.chunk_size r.disk h) (λ v d q. (q.2, refl))
          (λ x d q. (q.1, refl)))
        (λ x t q. q)
        λ v t q. if-After (v.0 == expected) _ _ t (λ same. returned _ _ q) (λ differ. failed _ _ q)

  transfer_entry-Round :
      (idx : ℕ) (entry : ManifestEntry) (r : Run)
      → 0 < r.manifest.chunk_size
      → let dst = dest_file_path job r.manifest.root_name entry.relative_path in
        After
          (λ u t. Round dst r t)
          (λ x t. Round dst r t)
          (transfer_entry b3 json job idx (some entry) r)
  unfolding transfer_entry file_job ◌>>=◌
  transfer_entry-Round idx entry r h =
      bind-After (on_disk (open_files file)) _ r
        (on_disk-After {R = λ u t. Within job file r t} {F = λ x t. Round file.dst r t}
          (open_files file) r (open_files-Touches file r.disk)
          (λ u d touched. record {
            elsewhere = λ other ne nc. touched other ne;
            same_shape = refl;
            same_count = refl;
          })
          (λ x d touched. (λ other ne nc. touched.1 other ne, refl)))
        (λ x t q. q)
        λ u t w.
          bind-After (copy_chunks b3 json job file 0 entry.chunk_hashes) _ t
            (copy_chunks-After b3 json job file {J = Within job file r} (λ k. Within job file r)
              (λ k below. Within-Stable job file k (length entry.chunk_hashes) r)
              (λ k v below i m. i) (λ k v i. i) 0 entry.chunk_hashes t (omega arith) w)
            (λ x v q. (q.1.elsewhere, q.1.same_shape))
            λ u v i.
              After-mono (check_file-Quiet file entry.file_hash v h) (λ u x q. quiet v x i q)
                (λ x y q. quiet v y i q)
    where
      file : FileJob
      file = file_job b3 json job idx entry r

      quiet : (v x : Run) → Within job file r v → Quiet v x → Round file.dst r x
      quiet v x i q = (
        λ other ne nc. ap (λ (f : Files). f other) q.0 ∙ i.elsewhere other ne nc,
        ap shape q.1 ∙ i.same_shape,
      )

  module _ (m : TransferManifest) (fs : Files) where
    -- Whatever is no target of the manifest, nor the checkpoint, is as in `fs`, and the manifest is
    -- `m` but for its bitmaps.
    pub record Confined (t : Run) : Type 0 where
      pub elsewhere :
          (p : String)
          → ((i : ℕ) (e : ManifestEntry)
              → get_elem? m.entries i ≡ some e
              → dest_file_path job m.root_name e.relative_path ≢ p)
          → job.checkpoint_path ≢ some p
          → t.disk.files p ≡ fs p
      pub same_shape : shape t.manifest ≡ shape m

    Round-Confined :
        (idx : ℕ) (entry e : ManifestEntry) (r t : Run)
        → get_elem? m.entries idx ≡ some e
        → erase entry ≡ erase e
        → Confined r
        → Round (dest_file_path job r.manifest.root_name entry.relative_path) r t
        → Confined t
    Round-Confined idx entry e r t here same c q = record {
      elsewhere = λ p ne nc. q.0 p (λ z. ne idx e here (sym target ∙ z)) nc ∙ c.elsewhere p ne nc;
      same_shape = q.1 ∙ c.same_shape;
    }
      where
        target :
            dest_file_path job r.manifest.root_name entry.relative_path
            ≡ dest_file_path job m.root_name e.relative_path
        target =
            ap₂ (dest_file_path job) (ap (λ (x : TransferManifest). x.root_name) c.same_shape)
              (ap (λ (x : ManifestEntry). x.relative_path) same)

    transfer_entries-Confined :
        (n idx : ℕ) (r : Run)
        → 0 < m.chunk_size
        → idx + n ≡ length m.entries
        → Confined r
        → After (λ u t. Confined t) (λ x t. Confined t) (transfer_entries b3 json job n idx r)
    unfolding transfer_entries ◌>>=◌
    transfer_entries-Confined zero idx r h all c = returned _ _ c
    transfer_entries-Confined (suc n) idx r h all c =
        let (entry, e, now, here, same) =
          same_entry r.manifest.entries m.entries idx
            (ap (λ (x : TransferManifest). x.entries) c.same_shape) (omega (arith, all)) in
        rw now (
          bind-After (transfer_entry b3 json job idx (some entry)) _ r
            (transfer_entry-Round idx entry r
              (omega (arith, ap (λ (x : TransferManifest). x.chunk_size) c.same_shape)))
            (λ x t q. Round-Confined idx entry e r t here same c q)
            λ u t q.
              transfer_entries-Confined n (suc idx) t h (omega (arith, all))
                (Round-Confined idx entry e r t here same c q))

    checkpoint-Confined : (r t : Run) → Confined r → OnlyCheckpoint job r t → Confined t
    checkpoint-Confined r t c only = record {
      elsewhere = λ p ne nc. only.others p nc ∙ c.elsewhere p ne nc;
      same_shape = ap shape only.manifest ∙ c.same_shape;
    }

  -- The whole run.
  pub run_job-Confined :
      (r : Run)
      → 0 < r.manifest.chunk_size
      → After
          (λ report t. Confined r.manifest r.disk.files t)
          (λ x t. Confined r.manifest r.disk.files t)
          (run_job b3 json job r)
  unfolding run_job ◌>>=◌ emit
  run_job-Confined r h =
      bind_context-After "create receive target root" (on_disk check) _ r
        (on_disk-After {R = λ u t. Quiet r t} {F = λ x t. Quiet r t} check r (check-Keeps r.disk)
          (λ u d k. (k, refl)) (λ x d k. (k.1, refl)))
        (λ x t q. start_Confined t q)
        λ u t q.
          bind-After (transfer_entries b3 json job (length t.manifest.entries) 0) _
            (emit job.bytes_total "" (record t { bytes_done = done_size t.manifest }))
            (transfer_entries-Confined r.manifest r.disk.files (length t.manifest.entries) 0
              (emit job.bytes_total "" (record t { bytes_done = done_size t.manifest })) h
              (omega (arith, ap (λ (m : TransferManifest). length m.entries) q.1))
              (record {
                elsewhere = λ p ne nc. ap (λ (f : Files). f p) q.0;
                same_shape = ap shape q.1;
              }))
            (λ x v c. c)
            λ u v c.
              bind-After (save_checkpoint json job) _ v (save_checkpoint-OnlyCheckpoint json job v)
                (λ x w k. checkpoint-Confined r.manifest r.disk.files v w c k.1)
                λ u w only. returned _ _ (checkpoint-Confined r.manifest r.disk.files v w c only)
    where
      start_Confined : (t : Run) → Quiet r t → Confined r.manifest r.disk.files t
      start_Confined t q = record {
        elsewhere = λ p ne nc. ap (λ (f : Files). f p) q.0;
        same_shape = ap shape q.1;
      }
