-- ===== src/Transfer/Execute/Invariant.antt =====
-- One rule for every invariant of the loops of `execute_local_transfer`: what is kept by the few
-- changes that a round can make is kept by the round, also where it fails.
pub mod Steps
use send_rs.Prelude.{
  ℕ, zero, suc, ◌+◌, ◌≤◌, ◌<◌, ◌≡◌, refl, ap, ◌∙◌, ◌≢◌, subst, ◌⊎◌, inl, inr, Bool, true, false,
  String, Option, none, some, List, [], ◌∷◌, length, max, nat_eq, wrap, ◌*◌, arith, nat_eq_iff,
}
use send_rs.Exec.{Exec, Error, IsReal, Result, ok, err, attempt, ◌>>=◌}
use send_rs.Exec.Rules.{After, returned, failed, bind-After, attempt-After, if-After}
use send_rs.Disk.{Disk}
use send_rs.Disk.Calls.{Frame, Frame-same}
use send_rs.Blake3.{Blake3}
use send_rs.Transfer.Manifest.{TransferManifest, chunk_len}
use send_rs.Transfer.Copy.{ManifestJson, copy_chunk, verify_chunk_at, save_manifest}
use send_rs.Transfer.Copy.Calls.{copy_chunk-Touches, verify_chunk_at-Keeps, save_manifest-Touches}
use send_rs.Transfer.Execute.{
  save_at, Run, Job, FileJob, put_disk, on_disk, chunk_done, record_copied, record_lost, emit,
  save_checkpoint, chunk_copied, copy_attempts, resume_check, copy_step, copy_chunks,
}

module _ {A : Type 0} {Q : A → Disk → Type 0} {E : Error → Disk → Type 0} {R : A → Run → Type 0}
    {F : Error → Run → Type 0} where
  -- The rule for a call on the disk.
  pub on_disk-After :
      (m : Exec Disk A) (r : Run)
      → After Q E (m r.disk)
      → ((a : A) (d : Disk) → Q a d → R a (record r { disk = d }))
      → ((e : Error) (d : Disk) → E e d → F e (record r { disk = d }))
      → After R F (on_disk m r)
  unfolding on_disk
  on_disk-After m r h f g = given h
    where
      given : {p : Result A × Disk} → After Q E p → After R F (put_disk r p)
      given (returned a d q) = returned _ _ (f a d q)
      given (failed e d x) = failed _ _ (g e d x)

-- Only the disk of `t` differs from `r`'s, and there only the checkpoint.
pub record OnlyCheckpoint (job : Job) (r t : Run) : Type 0 where
  pub manifest : t.manifest ≡ r.manifest
  pub bytes_done : t.bytes_done ≡ r.bytes_done
  pub files_completed : t.files_completed ≡ r.files_completed
  pub events : t.events ≡ r.events
  pub others :
      (other : String) → job.checkpoint_path ≢ some other → t.disk.files other ≡ r.disk.files other

module _ (json : ManifestJson) (job : Job) where
  save_at-OnlyCheckpoint :
      (o : Option String) (r : Run)
      → job.checkpoint_path ≡ o
      → After
          (λ u t. OnlyCheckpoint job r t)
          (λ x t. IsReal x × OnlyCheckpoint job r t)
          (save_at json job o r)
  unfolding save_checkpoint
  save_at-OnlyCheckpoint none r e = returned _ _ (record {
    manifest = refl;
    bytes_done = refl;
    files_completed = refl;
    events = refl;
    others = λ o n. refl;
  })
  save_at-OnlyCheckpoint (some path) r e =
      on_disk-After (save_manifest json path r.manifest) r
        (save_manifest-Touches json path r.manifest r.disk) (λ u d touched. only d touched)
        (λ x d touched. (touched.0, only d touched.1))
    where
      only :
          (d : Disk)
          → Frame path r.disk.files d.files
          → OnlyCheckpoint job r (record r { disk = d })
      only d touched = record {
        manifest = refl;
        bytes_done = refl;
        files_completed = refl;
        events = refl;
        others = λ other n. touched other (λ same. n (e ∙ ap some same));
      }

  pub save_checkpoint-OnlyCheckpoint :
      (r : Run)
      → After
          (λ u t. OnlyCheckpoint job r t)
          (λ x t. IsReal x × OnlyCheckpoint job r t)
          (save_checkpoint json job r)
  unfolding save_checkpoint
  save_checkpoint-OnlyCheckpoint r = save_at-OnlyCheckpoint job.checkpoint_path r refl

abbrev pub IsRealLast : Option Error → Type 0
IsRealLast none = Unit {0}
IsRealLast (some e) = IsReal e
