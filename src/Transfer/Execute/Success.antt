-- ===== src/Transfer/Execute/Success.antt =====
-- A transfer on a steady disk from sources that are as the manifest says: it succeeds, and the
-- targets hold the bytes of the sources.
pub mod Entry
pub mod Whole
pub mod Resume
pub mod Source
pub mod Build
pub mod Tree
use native.Mathlib.Decide.{ℕ_discrete}
use mathlib.Core.List.{foldl}
use mathlib.Core.Option.{some-injective}
use send_rs.Prelude.{
  ℕ, zero, suc, ◌+◌, ◌-◌, ◌*◌, ◌≤◌, ◌<◌, ◌≡◌, ◌≢◌, refl, ap, sym, ◌∙◌, subst, Bool, true, false,
  String, Option, none, some, List, [], ◌∷◌, length, map, take, arith, get_elem?, get_elem?-some,
  get_elem?-lt, ◌==◌, eq_iff, inl,
}
use send_rs.Exec.{Exec, Error, Result, ok, err, ◌>>=◌, ◌>>◌, with_context}
use send_rs.Exec.Rules.{After, returned, failed, bind-After, bind_context-After, After-ok}
use send_rs.Disk.{Bytes, Files, Disk, store, content, exists, resize, check, open_write, set_len}
use send_rs.Disk.Laws.{take_all, store_self, store_ne, length-resize}
use send_rs.Disk.Steady.{steady, check-steady, open_read-steady, open_write-steady, set_len-steady}
use send_rs.Paths.{parent}
use send_rs.Blake3.{Blake3, IsStreaming}
use send_rs.Transfer.Manifest.{
  ManifestEntry, TransferManifest, TransferReport, is_chunk_done, done_size,
}
use send_rs.Transfer.Manifest.Sums.{Covers, IsSized, IsWellFormed}
use send_rs.Transfer.Hashing.{hash_file}
use send_rs.Transfer.Hashing.Steady.{pieces, hash_file-steady}
use send_rs.Transfer.Hashing.Digest.{hash_file-Digest, Digest-file}
use send_rs.Transfer.Copy.{ManifestJson}
use send_rs.Transfer.Execute.{
  Run, Job, FileJob, on_disk, emit, create_parent, open_files, copy_step, copy_chunks, check_file,
  file_job, src_file_path, dest_file_path, transfer_entry, transfer_entries, run_job,
  save_checkpoint, start, make_job, execute_local_transfer,
}
use send_rs.Transfer.Manifest.Totals.{All-get}
use send_rs.Transfer.Execute.Invariant.{on_disk-After}
use send_rs.Transfer.Execute.Fresh.Resume.{step-Next}
use send_rs.Transfer.Execute.Fresh.{
  Never, Writes, Saved, save_checkpoint-Saved, on_disk-eq, content-some, IsSource, Copying, Sure,
}

module _ {H : Type 0} (b3 : Blake3 H) (json : ManifestJson) (writes : Writes json) (job : Job)
    (file : FileJob) (count : ℕ) (begun : Run) (a : Bytes)
    (src : IsSource job file count begun.disk.files a) where
  -- The loop over the chunks.
  pub copy_chunks-Copying :
      (n k pos : ℕ) (r : Run)
      → k + n ≡ count
      → pos ≡ k * file.chunk_size
      → Copying b3 job file count begun a k r
      → After
          (λ u t. Copying b3 job file count begun a count t)
          Never
          (copy_chunks b3 json job file k (map b3.hash (pieces n file.chunk_size pos a)) r)
  unfolding copy_chunks pieces
  copy_chunks-Copying zero k pos r all at i =
      let e : k ≡ count = omega (arith, all) in
      returned _ _ (subst (λ k. Copying b3 job file count begun a k r) e i)
  copy_chunks-Copying (suc n) k pos r all at i = rw at (
      bind-After (copy_step b3 json job file k _) _ r
        (step-Next b3 json writes job file count begun a src k (omega (arith, all)) r i)
        (λ x t h. h)
        λ u t next.
          copy_chunks-Copying n (suc k) (k * file.chunk_size + file.chunk_size) t
            (omega (arith, all)) (omega arith) next)

-- After the files are opened: the target has the size, and nothing else has changed.
pub record Opened (file : FileJob) (fs : Files) (d : Disk) : Type 0 where
  pub files : Files
  pub disk : d ≡ steady files
  pub others : (p : String) → file.dst ≢ p → files p ≡ fs p
  pub target : Bytes
  pub there : files file.dst ≡ some target
  pub length_target : length target ≡ file.entry_size

create_parent-steady :
    (o : Option String) (fs : Files) → create_parent o (steady fs) ≡ (ok tt, steady fs)
unfolding create_parent with_context
create_parent-steady none fs = refl
create_parent-steady (some dir) fs = rw (check-steady fs) refl

pub open_files-Opened :
    (file : FileJob) (fs : Files) (a : Bytes)
    → fs file.src ≡ some a
    → After (λ u d. Opened file fs d) (λ x d. ⊥) (open_files file (steady fs))
unfolding open_files ◌>>=◌ with_context open_write set_len
open_files-Opened file fs a source =
    rw (create_parent-steady (parent file.dst) fs, open_read-steady fs file.src source)
      (returned _ _ (record {
        files = store file.dst (resize file.entry_size (content touched file.dst)) touched;
        disk = refl;
        others = λ p away.
            store_ne file.dst p _ touched away ∙ store_ne file.dst p (content fs file.dst) fs away;
        target = resize file.entry_size (content touched file.dst);
        there = store_self file.dst _ touched;
        length_target = length-resize file.entry_size (content touched file.dst);
      }))
  where
    touched : Files
    touched = store file.dst (content fs file.dst) fs

module _ {H : Type 0} (b3 : Blake3 H) (law : IsStreaming b3) (json : ManifestJson) (job : Job) where
  -- The check of the whole file finds the hash of its bytes.
  pub check_file-steady :
      (file : FileJob) (count : ℕ) (expected : String) (files : Files) (a : Bytes) (r : Run)
      → 0 < file.chunk_size
      → Covers count file.chunk_size (length a)
      → files file.dst ≡ some a
      → b3.hash a ≡ expected
      → r.disk ≡ steady files
      → check_file b3 json job file expected r
        ≡ (ok tt, record r { disk = steady files; files_completed = r.files_completed + 1 })
  unfolding check_file ◌>>=◌
  check_file-steady file count expected files a r pos covers there fits d =
      rw
        (
          on_disk-eq (hash_file b3 file.dst file.chunk_size) r value (steady files)
              (ap (hash_file b3 file.dst file.chunk_size) d ∙ hashed),
          (eq_iff value.0 expected).1 right,
        )
        refl
    where
      bytes : content files file.dst ≡ a
      bytes = content-some files file.dst a there

      parts : List Bytes
      parts = pieces count file.chunk_size 0 (content files file.dst)

      value : String × List String
      value = (b3.finalize (foldl b3.update b3.new parts), map b3.hash parts)

      hashed : hash_file b3 file.dst file.chunk_size (steady files) ≡ (ok value, steady files)
      hashed =
          hash_file-steady b3 file.dst file.chunk_size pos files count there
            (subst (λ x. Covers count file.chunk_size (length x)) (sym bytes) covers)

      right : value.0 ≡ expected
      right =
          Digest-file b3 law
            (After-ok (hash_file-Digest b3 file.dst file.chunk_size (steady files) pos) hashed).0
          ∙ ap b3.hash bytes
          ∙ fits

-- The entry of a file with the bytes `a`, with no chunk marked.
pub record IsIntact {H : Type 0} (b3 : Blake3 H) (cs : ℕ) (e : ManifestEntry) (a : Bytes)
    : Type 0 where
  pub size : e.size ≡ length a
  pub chunks : e.chunk_hashes ≡ map b3.hash (pieces (length e.chunk_hashes) cs 0 a)
  pub whole : e.file_hash ≡ b3.hash a
  pub unset : (j : ℕ) → is_chunk_done e j ≡ false

-- The entry of a file with the bytes `a`, where each chunk is not marked, or its mark can be checked
-- by its hash: no other bytes have the hash of the chunk.
pub record IsCopyable {H : Type 0} (b3 : Blake3 H) (cs : ℕ) (e : ManifestEntry) (a : Bytes)
    : Type 0 where
  pub size : e.size ≡ length a
  pub chunks : e.chunk_hashes ≡ map b3.hash (pieces (length e.chunk_hashes) cs 0 a)
  pub whole : e.file_hash ≡ b3.hash a
  pub sure : (j : ℕ) → Sure b3 cs a e j

pub IsIntact-IsCopyable :
    {H : Type 0} (b3 : Blake3 H) (cs : ℕ) (e : ManifestEntry) (a : Bytes)
    → IsIntact b3 cs e a
    → IsCopyable b3 cs e a
IsIntact-IsCopyable b3 cs e a i = record {
  size = i.size;
  chunks = i.chunks;
  whole = i.whole;
  sure = λ j. inl (i.unset j);
}

module _ {H : Type 0} (b3 : Blake3 H) (job : Job) (m : TransferManifest) (fs : Files) where
  -- The source and the target of an entry.
  abbrev pub from : ManifestEntry → String
  from e = src_file_path (exists fs job.source_path) job.source_path e.relative_path

  abbrev pub to : ManifestEntry → String
  to e = dest_file_path job m.root_name e.relative_path

  -- Every source is as the manifest says, and the files of the transfer do not overlap.
  pub record IsReady : Type 0 where
    pub formed : IsWellFormed m
    pub intact :
        (i : ℕ) (e : ManifestEntry)
        → get_elem? m.entries i ≡ some e
        → (a : Bytes) × (fs (from e) ≡ some a) × IsCopyable b3 m.chunk_size e a
    pub apart :
        (i j : ℕ) (e f : ManifestEntry)
        → i ≢ j
        → get_elem? m.entries i ≡ some e
        → get_elem? m.entries j ≡ some f
        → to e ≢ to f
    pub no_source :
        (i j : ℕ) (e f : ManifestEntry)
        → get_elem? m.entries i ≡ some e
        → get_elem? m.entries j ≡ some f
        → to e ≢ from f
    pub no_root :
        (i : ℕ) (e : ManifestEntry) → get_elem? m.entries i ≡ some e → to e ≢ job.source_path
    pub free_source :
        (i : ℕ) (e : ManifestEntry)
        → get_elem? m.entries i ≡ some e
        → job.checkpoint_path ≢ some (from e)
    pub free_target :
        (i : ℕ) (e : ManifestEntry)
        → get_elem? m.entries i ≡ some e
        → job.checkpoint_path ≢ some (to e)
    pub free_root : job.checkpoint_path ≢ some job.source_path

  -- The entries before `idx` have arrived, and those from there on are as they were.
  pub record Arriving (idx : ℕ) (r : Run) : Type 0 where
    pub files : Files
    pub disk : r.disk ≡ steady files
    pub kept :
        (p : String)
        → ((i : ℕ) (e : ManifestEntry) → get_elem? m.entries i ≡ some e → to e ≢ p)
        → job.checkpoint_path ≢ some p
        → files p ≡ fs p
    pub arrived :
        (i : ℕ) (e : ManifestEntry)
        → i < idx
        → get_elem? m.entries i ≡ some e
        → files (to e) ≡ fs (from e)
    pub rest : (i : ℕ) → idx ≤ i → get_elem? r.manifest.entries i ≡ get_elem? m.entries i
    pub same_entries : length r.manifest.entries ≡ length m.entries
    pub same_root : r.manifest.root_name ≡ m.root_name
    pub same_chunks : r.manifest.chunk_size ≡ m.chunk_size
    pub counted : r.files_completed ≡ idx
