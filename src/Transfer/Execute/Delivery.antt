-- ===== src/Transfer/Execute/Delivery.antt =====
-- What a transfer that returned has delivered: every entry's target has the entry's file hash.
use send_rs.Prelude.{
  ℕ, zero, suc, ◌+◌, ◌<◌, ◌≡◌, refl, ap, sym, subst, ◌∙◌, ◌≢◌, String, Option, some, length, All,
  All-of_get, get_elem?-lt, length-map, get_elem?, arith,
}
use mathlib.Core.Option.{some-injective}
use mathlib.Core.Path.{ap₂, subst₂}
use native.Mathlib.Decide.{ℕ_discrete}
use send_rs.Exec.{IsReal, Result, ok, ◌>>=◌}
use send_rs.Exec.Rules.{After, After-ok, returned, bind-After, bind_context-After}
use send_rs.Disk.{Disk, check}
use send_rs.Disk.Calls.{check-Keeps}
use send_rs.Blake3.{Blake3, IsStreaming}
use send_rs.Transfer.Manifest.{ManifestEntry, TransferManifest, done_size, TransferReport}
use send_rs.Transfer.Copy.{ManifestJson}
use send_rs.Transfer.Execute.{
  Run, Job, on_disk, emit, dest_file_path, transfer_entry, transfer_entries, run_job,
  save_checkpoint, start, make_job, execute_local_transfer,
}
use send_rs.Transfer.Execute.Invariant.{
  OnlyCheckpoint, save_checkpoint-OnlyCheckpoint, on_disk-After,
}
use send_rs.Transfer.Execute.Shape.{erase, same_entry, shape}
use send_rs.Transfer.Execute.Verified.{Delivered, EntryDone, transfer_entry-Done}

module _ {H : Type 0} (b3 : Blake3 H) (law : IsStreaming b3) (json : ManifestJson) (job : Job) where
  -- The entries before `idx` have arrived, and they were counted.
  pub record Arrived (m : TransferManifest) (idx : ℕ) (t : Run) : Type 0 where
    pub same_shape : shape t.manifest ≡ shape m
    pub counted : t.files_completed ≡ idx
    pub arrived :
        (i : ℕ) (e : ManifestEntry)
        → i < idx
        → get_elem? m.entries i ≡ some e
        → Delivered b3 law t.disk.files (dest_file_path job m.root_name e.relative_path) e.file_hash

  -- The targets of different entries differ, and the checkpoint is none of them.
  pub record SeparateTargets (m : TransferManifest) : Type 0 where
    pub apart :
        (i j : ℕ) (e f : ManifestEntry)
        → i ≢ j
        → get_elem? m.entries i ≡ some e
        → get_elem? m.entries j ≡ some f
        → dest_file_path job m.root_name e.relative_path
          ≢ dest_file_path job m.root_name f.relative_path
    pub not_checkpoint :
        (i : ℕ) (e : ManifestEntry)
        → get_elem? m.entries i ≡ some e
        → job.checkpoint_path ≢ some (dest_file_path job m.root_name e.relative_path)

  Arrived-next :
      (m : TransferManifest) (sep : SeparateTargets m) (idx : ℕ) (entry e : ManifestEntry)
      (r t : Run)
      → get_elem? m.entries idx ≡ some e
      → erase entry ≡ erase e
      → Arrived m idx r
      → EntryDone b3 law job idx entry r t
      → Arrived m (suc idx) t
  Arrived-next m sep idx entry e r t here same a done = record {
    same_shape = done.same_shape ∙ a.same_shape;
    counted = omega (arith, done.one_more, a.counted);
    arrived = λ i f below there. elim (ℕ_discrete i idx) [
      | yes p ↦
          let fe = some-injective f e (sym there ∙ ap (get_elem? m.entries) p ∙ here) in
          subst₂ (Delivered b3 law t.disk.files) (target ∙ ap to (sym fe))
            (ap (λ (x : ManifestEntry). x.file_hash) (same ∙ ap erase (sym fe))) done.arrived
      | no p ↦
          let (bytes, at, h) = a.arrived i f (omega arith) there in
          (
            bytes,
            done.elsewhere (to f)
                  (λ q. sep.apart idx i e f (λ z. p (sym z)) here there (sym target ∙ q))
                  (sep.not_checkpoint i f there)
                ∙ at,
            h,
          )
    ];
  }
    where
      to : ManifestEntry → String
      to x = dest_file_path job m.root_name x.relative_path

      target : dest_file_path job r.manifest.root_name entry.relative_path ≡ to e
      target =
          ap₂ (dest_file_path job) (ap (λ (x : TransferManifest). x.root_name) a.same_shape)
            (ap (λ (x : ManifestEntry). x.relative_path) same)

  entries-Arrived :
      (m : TransferManifest) (sep : SeparateTargets m) (n idx : ℕ) (r : Run)
      → 0 < m.chunk_size
      → idx + n ≡ length m.entries
      → Arrived m idx r
      → After
          (λ u t. Arrived m (length m.entries) t)
          (λ x t. IsReal x)
          (transfer_entries b3 json job n idx r)
  unfolding transfer_entries ◌>>=◌
  entries-Arrived m sep zero idx r h all a =
      let e : idx ≡ length m.entries = omega (arith, all) in
      returned _ _ (subst (λ k. Arrived m k r) e a)
  entries-Arrived m sep (suc n) idx r h all a =
      let (entry, e, now, here, same) =
        same_entry r.manifest.entries m.entries idx
          (ap (λ (x : TransferManifest). x.entries) a.same_shape) (omega (arith, all)) in
      rw now (
        bind-After (transfer_entry b3 json job idx (some entry)) _ r
          (transfer_entry-Done b3 law json job idx entry r
            (omega (arith, ap (λ (x : TransferManifest). x.chunk_size) a.same_shape)))
          (λ x t q. q)
          λ u t done.
            entries-Arrived m sep n (suc idx) t h (omega (arith, all))
              (Arrived-next m sep idx entry e r t here same a done))

  -- Saving the checkpoint leaves what has arrived.
  saved_too :
      (m : TransferManifest) (sep : SeparateTargets m) {n : ℕ} (r t : Run)
      → Arrived m n r
      → OnlyCheckpoint job r t
      → Arrived m n t
  saved_too m sep r t a only = record {
    same_shape = ap shape only.manifest ∙ a.same_shape;
    counted = only.files_completed ∙ a.counted;
    arrived = λ i e below here.
        let (bytes, at, h) = a.arrived i e below here in
        (bytes, only.others _ (sep.not_checkpoint i e here) ∙ at, h);
  }

  same_length :
      (m : TransferManifest) {n : ℕ} (t : Run)
      → Arrived m n t
      → length t.manifest.entries ≡ length m.entries
  same_length m t a =
      sym (length-map t.manifest.entries erase)
      ∙ ap (λ (x : TransferManifest). length x.entries) a.same_shape
      ∙ length-map m.entries erase

  -- The whole run, from a manifest.
  run_job-After :
      (r : Run) (sep : SeparateTargets r.manifest)
      → 0 < r.manifest.chunk_size
      → r.files_completed ≡ 0
      → After
          (λ report t.
            Arrived r.manifest (length r.manifest.entries) t
            × (report.files_total ≡ length r.manifest.entries)
            × (report.files_completed ≡ length r.manifest.entries))
          (λ x t. IsReal x)
          (run_job b3 json job r)
  unfolding run_job ◌>>=◌ emit
  run_job-After r sep h zero_done =
      bind_context-After "create receive target root" (on_disk check) _ r
        (on_disk-After
          {R = λ u t. (t.manifest ≡ r.manifest) × (t.files_completed ≡ r.files_completed)}
          {F = λ x t. IsReal x} check r (check-Keeps r.disk) (λ u d k. (refl, refl)) (λ x d k. k.0))
        (λ x t q. q)
        λ u t begun.
          bind-After (transfer_entries b3 json job (length t.manifest.entries) 0) _
            (emit job.bytes_total "" (record t { bytes_done = done_size t.manifest }))
            (entries-Arrived r.manifest sep (length t.manifest.entries) 0
              (emit job.bytes_total "" (record t { bytes_done = done_size t.manifest })) h
              (omega (arith, ap (λ (m : TransferManifest). length m.entries) begun.0))
              (record {
                same_shape = ap shape begun.0;
                counted = begun.1 ∙ zero_done;
                arrived = λ i e none_before. absurd (omega arith);
              }))
            (λ x v q. q)
            λ u v a.
              bind-After (save_checkpoint json job) _ v (save_checkpoint-OnlyCheckpoint json job v)
                (λ x w q. q.0)
                λ u w only.
                  let all = saved_too r.manifest sep v w a only in
                  returned _ _ (all, same_length r.manifest w all, all.counted)

module _ {H : Type 0} (b3 : Blake3 H) (law : IsStreaming b3) (json : ManifestJson)
    (source_path target_root : String) (checkpoint_path : Option String) (max_retries : ℕ)
    (disk : Disk) (m : TransferManifest) where
  abbrev the_job : Job
  the_job = make_job source_path target_root checkpoint_path max_retries disk m

  abbrev outcome : Result TransferReport × Run
  outcome =
      execute_local_transfer b3 json source_path target_root checkpoint_path max_retries disk m

  -- Where the targets of different entries differ, none of them is the checkpoint, and the chunk
  -- size is positive: if the transfer returns a report, every entry of the manifest is at its target
  -- with its file hash, all entries are counted, and the manifest has changed in its bitmaps only.
  pub execute_local_transfer-delivers :
      SeparateTargets b3 law json the_job m
      → 0 < m.chunk_size
      → (report : TransferReport) (t : Run) → outcome ≡ (ok report, t)
      → (shape t.manifest ≡ shape m)
        × (report.files_completed ≡ length m.entries)
        × (report.files_total ≡ length m.entries)
        × All
            (λ (e : ManifestEntry).
              Delivered b3 law t.disk.files
                (dest_file_path the_job m.root_name e.relative_path)
                e.file_hash)
            m.entries
  unfolding execute_local_transfer
  execute_local_transfer-delivers sep h report t returns =
      let (a, total, completed) =
        After-ok (run_job-After b3 law json the_job (start disk m) sep h refl) returns in
      (
        a.same_shape,
        completed,
        total,
        All-of_get _ m.entries (λ i e here. a.arrived i e (get_elem?-lt m.entries i here) here),
      )
