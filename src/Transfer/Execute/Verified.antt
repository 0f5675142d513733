-- ===== src/Transfer/Execute/Verified.antt =====
-- One round over an entry: what it writes, and that it delivers the entry when it returns.
use send_rs.Prelude.{
  ℕ, ◌+◌, ◌<◌, ◌≡◌, refl, ap, sym, subst, ◌∙◌, ◌≢◌, true, String, Option, none, some, List, length,
  arith, ◌==◌, eq_iff,
}
use send_rs.Exec.{IsReal, IsSystem-IsReal, ◌>>=◌}
use send_rs.Exec.Rules.{
  After, returned, failed, bind-After, bind_context-After, context-After, if-After, After-mono,
}
use send_rs.Disk.{Bytes, Files, Disk, content, exists, check, open_read, open_write, set_len}
use send_rs.Disk.Calls.{
  Frame-same, Frame-trans, Keeps, Touches, check-Keeps, open_read-After, open_write-Touches,
  set_len-Touches,
}
use send_rs.Paths.{parent}
use send_rs.Blake3.{Blake3, IsStreaming}
use send_rs.Transfer.Manifest.{ManifestEntry, chunk_len}
use send_rs.Transfer.Hashing.{hash_file}
use send_rs.Transfer.Hashing.Digest.{Digest, hash_file-Digest, Digest-file}
use send_rs.Transfer.Copy.{ManifestJson}
use send_rs.Transfer.Execute.{
  Run, Job, FileJob, on_disk, record_copied, record_lost, emit, create_parent, open_files,
  copy_chunks, check_file, file_job, dest_file_path, transfer_entry,
}
use send_rs.Transfer.Execute.Invariant.{on_disk-After}
use send_rs.Transfer.Execute.Invariant.Steps.{Stable, copy_chunks-After}
use send_rs.Transfer.Execute.Shape.{shape, shape-record_copied, shape-record_lost}

-- Only `dst` and the checkpoint differ.
abbrev pub Untouched : Job → String → Files → Files → Type 0
Untouched job dst f g =
    (other : String) → dst ≢ other → job.checkpoint_path ≢ some other → g other ≡ f other

-- What the rounds over the chunks of one file leave as it was.
pub record Within (job : Job) (file : FileJob) (r t : Run) : Type 0 where
  pub elsewhere : Untouched job file.dst r.disk.files t.disk.files
  pub same_shape : shape t.manifest ≡ shape r.manifest
  pub same_count : t.files_completed ≡ r.files_completed

pub Within-Stable :
    (job : Job) (file : FileJob) (lo count : ℕ) (r : Run)
    → Stable job file lo count (Within job file r) (λ idx m. Unit {0}) (λ idx m. Unit {0})
unfolding emit record_copied record_lost
Within-Stable job file lo count r = record {
  on_target = λ t d touched w. record {
    elsewhere = λ other ne nc. touched other ne ∙ w.elsewhere other ne nc;
    same_shape = w.same_shape;
    same_count = w.same_count;
  };
  on_saved = λ t d path e touched w. record {
    elsewhere =
        λ other ne nc. touched other (λ same. nc (e ∙ ap some same)) ∙ w.elsewhere other ne nc;
    same_shape = w.same_shape;
    same_count = w.same_count;
  };
  on_emit = λ t w. record {
    elsewhere = w.elsewhere;
    same_shape = w.same_shape;
    same_count = w.same_count;
  };
  set_bit = λ t idx h. tt;
  unset_bit = λ t idx h. tt;
  on_copied = λ t idx above below w m. (
    record {
      elsewhere = w.elsewhere;
      same_shape =
          shape-record_copied file idx (chunk_len file.chunk_size file.entry_size idx) t
          ∙ w.same_shape;
      same_count = w.same_count;
    },
    tt,
  );
  on_lost = λ t idx above below w m. (
    record {
      elsewhere = w.elsewhere;
      same_shape =
          shape-record_lost file idx (chunk_len file.chunk_size file.entry_size idx) t
          ∙ w.same_shape;
      same_count = w.same_count;
    },
    tt,
  );
}

-- `open_files` writes the target at most.
create_parent-Keeps : (o : Option String) (d : Disk) → Keeps d (create_parent o d)
unfolding open_files
create_parent-Keeps none d = returned _ _ refl
create_parent-Keeps (some dir) d = context-After _ check d (check-Keeps d) (λ x e h. h)

pub open_files-Touches : (file : FileJob) (d : Disk) → Touches file.dst d (open_files file d)
unfolding open_files
open_files-Touches file d =
    bind-After (create_parent (parent file.dst)) _ d (create_parent-Keeps (parent file.dst) d)
      (λ x e h. (h.0, Frame-same file.dst h.1))
      λ u e h.
        bind_context-After _ (open_read file.src) _ e (open_read-After e file.src)
          (λ x f k. (IsSystem-IsReal x k.0, Frame-same file.dst (k.1 ∙ h)))
          λ u f k.
            bind_context-After _ (open_write file.dst) _ f (open_write-Touches f file.dst)
              (λ x g l. (l.0, Frame-trans file.dst (Frame-same file.dst (k.1 ∙ h)) l.1))
              λ u g l.
                context-After _ (set_len file.dst file.entry_size) g
                  (After-mono (set_len-Touches g file.dst file.entry_size)
                    (λ u w m.
                      Frame-trans file.dst (Frame-trans file.dst (Frame-same file.dst (k.1 ∙ h)) l)
                        m)
                    (λ x w m. (
                      m.0,
                      Frame-trans file.dst (Frame-trans file.dst (Frame-same file.dst (k.1 ∙ h)) l)
                          m.1,
                    )))
                  (λ x w m. m)

module _ {H : Type 0} (b3 : Blake3 H) (law : IsStreaming b3) where
  -- The file at `path` is there and hashes to `file_hash`.
  abbrev pub Delivered : Files → String → String → Type 0
  Delivered files path file_hash =
      (bytes : Bytes) × (files path ≡ some bytes) × (b3.hash bytes ≡ file_hash)

  delivered :
      (files : Files) (path file_hash : String) (o : Option Bytes)
      → files path ≡ o
      → exists files path ≡ true
      → b3.hash (content files path) ≡ file_hash
      → Delivered files path file_hash
  delivered files path file_hash none e there h = ground arith
  delivered files path file_hash (some bytes) e there h = (bytes, e, rw (e, content) at h)

  check_file-Delivered :
      (json : ManifestJson) (job : Job) (file : FileJob) (file_hash : String) (r : Run)
      → 0 < file.chunk_size
      → After
          (λ u t.
            Delivered t.disk.files file.dst file_hash
            × (t.disk.files ≡ r.disk.files)
            × (t.manifest ≡ r.manifest)
            × (t.files_completed ≡ r.files_completed + 1))
          (λ x t. IsReal x)
          (check_file b3 json job file file_hash r)
  unfolding check_file
  check_file-Delivered json job file file_hash r h =
      bind-After (on_disk (hash_file b3 file.dst file.chunk_size)) _ r
        (on_disk-After {R = Hashed} {F = λ x t. IsReal x} (hash_file b3 file.dst file.chunk_size) r
          (hash_file-Digest b3 file.dst file.chunk_size r.disk h)
          (λ v d q. (q.0, q.1, q.2, refl, refl)) (λ x d q. IsSystem-IsReal x q.0))
        (λ x t q. q)
        λ v t q.
          if-After (v.0 == file_hash) _ _ t
            (λ same. returned _ _ (
              subst (λ (f : Files). Delivered f file.dst file_hash) (sym q.2)
                  (delivered r.disk.files file.dst file_hash (r.disk.files file.dst) refl q.1
                    (sym (Digest-file b3 law q.0) ∙ (eq_iff v.0 file_hash).0 same)),
              q.2,
              q.3,
              ap (◌+ 1) q.4,
            ))
            (λ differ. failed _ _ tt)
    where
      Hashed : String × List String → Run → Type 0
      Hashed v t =
          Digest b3 file.chunk_size (content r.disk.files file.dst) v
          × (exists r.disk.files file.dst ≡ true)
          × (t.disk.files ≡ r.disk.files)
          × (t.manifest ≡ r.manifest)
          × (t.files_completed ≡ r.files_completed)

  -- A round over an entry that returns has delivered the entry; all but its target and the
  -- checkpoint is as before, and so is the manifest but for its bitmaps.
  pub record EntryDone (job : Job) (idx : ℕ) (entry : ManifestEntry) (r t : Run) : Type 0 where
    pub arrived :
        Delivered t.disk.files
          (dest_file_path job r.manifest.root_name entry.relative_path)
          entry.file_hash
    pub elsewhere :
        Untouched job
          (dest_file_path job r.manifest.root_name entry.relative_path)
          r.disk.files
          t.disk.files
    pub same_shape : shape t.manifest ≡ shape r.manifest
    pub one_more : t.files_completed ≡ r.files_completed + 1

  module _ (json : ManifestJson) (job : Job) where
    pub transfer_entry-Done :
        (idx : ℕ) (entry : ManifestEntry) (r : Run)
        → 0 < r.manifest.chunk_size
        → After
            (λ u t. EntryDone job idx entry r t)
            (λ x t. IsReal x)
            (transfer_entry b3 json job idx (some entry) r)
    unfolding transfer_entry file_job ◌>>=◌
    transfer_entry-Done idx entry r h =
        bind-After (on_disk (open_files file)) _ r
          (on_disk-After {R = λ u t. Within job file r t} {F = λ x t. IsReal x} (open_files file) r
            (open_files-Touches file r.disk)
            (λ u d touched. record {
              elsewhere = λ other ne nc. touched other ne;
              same_shape = refl;
              same_count = refl;
            })
            (λ x d touched. touched.0))
          (λ x t q. q)
          λ u t w.
            bind-After (copy_chunks b3 json job file 0 entry.chunk_hashes) _ t
              (copy_chunks-After b3 json job file (λ k. Within job file r)
                (λ k below. Within-Stable job file k (length entry.chunk_hashes) r)
                (λ k v below i m. i) (λ k v i. i) 0 entry.chunk_hashes t (omega arith) w)
              (λ x v q. q.0)
              λ u v i.
                After-mono (check_file-Delivered json job file entry.file_hash v h)
                  (λ u x q. record {
                    arrived = q.0;
                    elsewhere =
                        λ other ne nc. ap (λ (f : Files). f other) q.1 ∙ i.elsewhere other ne nc;
                    same_shape = ap shape q.2 ∙ i.same_shape;
                    one_more = q.3 ∙ ap (◌+ 1) i.same_count;
                  })
                  (λ x y q. q)
      where
        file : FileJob
        file = file_job b3 json job idx entry r
