-- ===== src/Transfer/Execute/Invariant/Steps.antt =====
-- An invariant of `execute_local_transfer` of crates/transfer/src/lib.rs over the chunks of a file.
use send_rs.Prelude.{
  ℕ, zero, suc, ◌+◌, ◌≤◌, ◌<◌, ◌≡◌, refl, subst, ◌⊎◌, inl, inr, Bool, true, false, String, Option,
  none, some, List, [], ◌∷◌, length, max, nat_eq, wrap, ◌*◌, arith, nat_eq_iff,
}
use send_rs.Exec.{Exec, Error, IsReal, Result, ok, err, attempt, ◌>>=◌}
use send_rs.Exec.Rules.{After, returned, failed, bind-After, attempt-After, if-After}
use send_rs.Disk.{Disk}
use send_rs.Disk.Calls.{Frame, Frame-same}
use send_rs.Blake3.{Blake3}
use send_rs.Transfer.Manifest.{TransferManifest, chunk_len}
use send_rs.Transfer.Copy.{ManifestJson, copy_chunk, verify_chunk_at, save_manifest}
use send_rs.Transfer.Copy.Calls.{copy_chunk-Touches, verify_chunk_at-Keeps, save_manifest-Touches}
use send_rs.Transfer.Execute.{
  save_at, Run, Job, FileJob, on_disk, chunk_done, record_copied, record_lost, emit,
  save_checkpoint, chunk_copied, copy_attempts, resume_check, copy_step, copy_chunks,
}
use send_rs.Transfer.Execute.Invariant.{on_disk-After, IsRealLast}

-- What a round over the chunks `lo` to `count` of one file may do to `I`. `Marked` and `Unmarked`
-- say of a manifest what is to be known of a chunk whose bit is set, and whose bit is not.
pub record Stable (job : Job) (file : FileJob) (lo count : ℕ) (I : Run → Type 0)
    (Marked Unmarked : ℕ → TransferManifest → Type 0) : Type 0 where
  pub on_target :
      (r : Run) (d : Disk) → Frame file.dst r.disk.files d.files → I r → I (record r { disk = d })
  pub on_saved :
      (r : Run) (d : Disk) (path : String)
      → job.checkpoint_path ≡ some path
      → Frame path r.disk.files d.files
      → I r
      → I (record r { disk = d })
  pub on_emit : (r : Run) → I r → I (emit job.bytes_total file.relative_path r)
  pub set_bit :
      (r : Run) (idx : ℕ) → chunk_done file.entry_idx idx r.manifest ≡ true → Marked idx r.manifest
  pub unset_bit :
      (r : Run) (idx : ℕ)
      → chunk_done file.entry_idx idx r.manifest ≡ false
      → Unmarked idx r.manifest
  pub on_copied :
      (r : Run) (idx : ℕ)
      → lo ≤ idx
      → idx < count
      → I r
      → Unmarked idx r.manifest
      → let r' = record_copied file idx (chunk_len file.chunk_size file.entry_size idx) r in
        I r' × Marked idx r'.manifest
  pub on_lost :
      (r : Run) (idx : ℕ)
      → lo ≤ idx
      → idx < count
      → I r
      → Marked idx r.manifest
      → let r' = record_lost file idx (chunk_len file.chunk_size file.entry_size idx) r in
        I r' × Unmarked idx r'.manifest

module _ {H : Type 0} (b3 : Blake3 H) (json : ManifestJson) (job : Job) (file : FileJob)
    {lo count : ℕ} {I : Run → Type 0} {Marked Unmarked : ℕ → TransferManifest → Type 0}
    (s : Stable job file lo count I Marked Unmarked) where
  abbrev len : ℕ → ℕ
  len idx = chunk_len file.chunk_size file.entry_size idx

  -- Whatever fails, fails with an error of the program and keeps the invariant.
  abbrev Failed : Error → Run → Type 0
  Failed e r = IsReal e × I r

  saved :
      (o : Option String) (r : Run)
      → job.checkpoint_path ≡ o
      → I r
      → After (λ u t. I t × (t.manifest ≡ r.manifest)) Failed (save_at json job o r)
  unfolding save_checkpoint
  saved none r e i = returned _ _ (i, refl)
  saved (some path) r e i =
      on_disk-After (save_manifest json path r.manifest) r
        (save_manifest-Touches json path r.manifest r.disk)
        (λ u d touched. (s.on_saved r d path e touched i, refl))
        (λ x d touched. (touched.0, s.on_saved r d path e touched.1 i))

  save_checkpoint-After :
      (r : Run)
      → I r
      → After (λ u t. I t × (t.manifest ≡ r.manifest)) Failed (save_checkpoint json job r)
  unfolding save_checkpoint
  save_checkpoint-After r i = saved job.checkpoint_path r refl i

  chunk_copied-After :
      (idx : ℕ) (r : Run)
      → lo ≤ idx
      → idx < count
      → I r
      → Unmarked idx r.manifest
      → After
          (λ u t. I t × Marked idx t.manifest)
          Failed
          (chunk_copied b3 json job file idx (len idx) r)
  unfolding chunk_copied ◌>>=◌ emit record_copied
  chunk_copied-After idx r above below i unmarked =
      let r' = record_copied file idx (len idx) r in
      let (i', marked) = s.on_copied r idx above below i unmarked in
      bind-After (save_checkpoint json job) _ r' (save_checkpoint-After r' i') (λ x t h. h)
        λ u t h. returned _ _ (s.on_emit t h.0, rw h.1 marked)

  -- After the retry loop, no error is left only if the chunk was copied.
  copy_attempts-After :
      (idx n : ℕ) (expected : String) (last : Option Error) (r : Run)
      → lo ≤ idx
      → idx < count
      → (last ≡ none → 0 < n)
      → IsRealLast last
      → I r
      → Unmarked idx r.manifest
      → After
          (λ e t. I t × (e ≡ none → Marked idx t.manifest) × IsRealLast e)
          Failed
          (copy_attempts b3 json job file idx (len idx) expected n last r)
  unfolding copy_attempts
  copy_attempts-After idx zero expected last r above below some_left real i unmarked =
      returned _ _ (i, (λ e. absurd (omega (arith, some_left e))), real)
  copy_attempts-After idx (suc n) expected last r above below some_left real i unmarked =
      bind-After (attempt (on_disk copying)) _ r
        (attempt-After {F = Failed} {R = Tried} (on_disk copying) r
          (on_disk-After {R = λ u t. Tried (ok u) t} {F = λ x t. Tried (err x) t} copying r
            (copy_chunk-Touches b3 file.src file.dst offset (len idx) expected r.disk)
            (λ u d touched. (s.on_target r d touched i, refl))
            (λ x d touched. (s.on_target r d touched.1 i, refl, touched.0)))
          (λ u t h. h) (λ x t h. h))
        (λ x t h. h)
        (elim [
          | ok u ↦ λ t h.
              bind-After (chunk_copied b3 json job file idx (len idx)) _ t
                (chunk_copied-After idx t above below h.0 (rw h.1 unmarked)) (λ x v k. k)
                λ u v k. returned _ _ (k.0, (λ e. k.1), tt)
          | err e ↦ λ t h.
              copy_attempts-After idx n expected (some e) t above below (λ none_left. cc) h.2 h.0
                (rw h.1 unmarked)
        ])
    where
      offset : ℕ
      offset = wrap (idx * file.chunk_size)

      copying : Exec Disk (Unit {0})
      copying = copy_chunk b3 file.src file.dst offset (len idx) expected

      Tried : Result (Unit {0}) → Run → Type 0
      Tried (ok u) t = I t × (t.manifest ≡ r.manifest)
      Tried (err x) t = I t × (t.manifest ≡ r.manifest) × IsReal x

  -- A chunk that is skipped is marked, and one that is not skipped is not.
  abbrev Checked : ℕ → Bool → Run → Type 0
  Checked idx true t = I t × Marked idx t.manifest
  Checked idx false t = I t × Unmarked idx t.manifest

  resume_check-After :
      (idx : ℕ) (expected : String) (r : Run)
      → lo ≤ idx
      → idx < count
      → I r
      → After (Checked idx) Failed (resume_check b3 json job file idx (len idx) expected r)
  unfolding resume_check ◌>>=◌ record_lost
  resume_check-After idx expected r above below i =
      if-After (chunk_done file.entry_idx idx r.manifest) _ _ r
        (λ set.
          bind-After (on_disk verifying) _ r
            (on_disk-After {R = λ v t. I t × Marked idx t.manifest} {F = Failed} verifying r
              (verify_chunk_at-Keeps b3 file.dst offset (len idx) expected r.disk)
              (λ v d same. (s.on_target r d (Frame-same file.dst same) i, s.set_bit r idx set))
              (λ x d same. (same.0, s.on_target r d (Frame-same file.dst same.1) i)))
            (λ x t h. h)
            λ verified t h.
              if-After verified _ _ t (λ good. returned true t h)
                (λ bad. returned false _ (s.on_lost t idx above below h.0 h.1)))
        (λ unset. returned false r (i, s.unset_bit r idx unset))
    where
      offset : ℕ
      offset = wrap (idx * file.chunk_size)

      verifying : Exec Disk Bool
      verifying = verify_chunk_at b3 file.dst offset (len idx) expected

  -- After its round a chunk is marked, unless it is empty.
  pub copy_step-After :
      (idx : ℕ) (expected : String) (r : Run)
      → lo ≤ idx
      → idx < count
      → I r
      → After
          (λ u t. I t × ((len idx ≡ 0) ⊎ Marked idx t.manifest))
          Failed
          (copy_step b3 json job file idx expected r)
  unfolding copy_step
  copy_step-After idx expected r above below i =
      if-After (nat_eq (len idx) 0) _ _ r
        (λ empty. returned _ _ (i, inl ((nat_eq_iff _ 0).0 empty)))
        λ some_bytes.
          bind-After (resume_check b3 json job file idx (len idx) expected) _ r
            (resume_check-After idx expected r above below i) (λ x t h. h)
            (elim [
              | true ↦ λ t h. returned _ _ (h.0, inr h.1)
              | false ↦ λ t h.
                  bind-After
                    (copy_attempts b3 json job file idx (len idx) expected (max job.max_retries 1)
                      none)
                    _ t
                    (copy_attempts-After idx (max job.max_retries 1) expected none t above below
                      (λ e. omega arith) tt h.0 h.1)
                    (λ x v k. k)
                    (elim [
                      | none ↦ λ v k. returned _ _ (k.0, inr (k.1 refl))
                      | some e ↦ λ v k. failed _ _ (k.2, k.0)
                    ])
            ])

module _ {H : Type 0} (b3 : Blake3 H) (json : ManifestJson) (job : Job) (file : FileJob) {count : ℕ}
    {J : Run → Type 0} {Marked Unmarked : ℕ → TransferManifest → Type 0} (I : ℕ → Run → Type 0)
    (s : (idx : ℕ) → idx < count → Stable job file idx count (I idx) Marked Unmarked)
    (next : (idx : ℕ) (r : Run)
      → idx < count
      → I idx r
      → (chunk_len file.chunk_size file.entry_size idx ≡ 0) ⊎ Marked idx r.manifest
      → I (suc idx) r)
    (weak : (idx : ℕ) (r : Run) → I idx r → J r) where
  -- The loop over the chunks, with an invariant that may grow by what is known of each chunk done.
  pub copy_chunks-After :
      (idx : ℕ) (hashes : List String) (r : Run)
      → idx + length hashes ≡ count
      → I idx r
      → After (λ u t. I count t) (λ e t. IsReal e × J t) (copy_chunks b3 json job file idx hashes r)
  unfolding copy_chunks
  copy_chunks-After idx [] r all i =
      let e : idx ≡ count = omega (arith, all) in returned _ _ (subst (λ k. I k r) e i)
  copy_chunks-After idx (expected ∷ rest) r all i =
      let below : idx < count = omega (arith, all) in
      bind-After (copy_step b3 json job file idx expected) _ r
        (copy_step-After b3 json job file (s idx below) idx expected r (omega arith) below i)
        (λ x t h. (h.0, weak idx t h.1))
        λ u t h. copy_chunks-After (suc idx) rest t (omega (arith, all)) (next idx t below h.0 h.1)
