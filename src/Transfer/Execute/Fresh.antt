-- ===== src/Transfer/Execute/Fresh.antt =====
-- The rounds over the chunks of one file on a steady disk, where the source is what the manifest
-- says: a chunk that is marked is checked at the target, and every other one is copied at the first
-- attempt.
pub mod Chunk
pub mod Resume
use native.Mathlib.Decide.{dec_lt}
use mathlib.Core.Path.{ap₂}
use native.Mathlib.Nat.{mul-le-mul_right}
use send_rs.Prelude.{
  ℕ, zero, suc, ◌+◌, ◌-◌, ◌*◌, ◌≤◌, ◌<◌, ◌≡◌, ◌≢◌, refl, ap, sym, ◌∙◌, subst, Bool, true, false,
  String, Option, none, some, List, [], ◌∷◌, length, map, min, max, arith, get_elem?, modify, take,
  drop, length-take, length-drop, wrap, nat_eq, get_elem?-modify_self, get_elem?-modify_ne, ◌==◌,
  if◌then◌else◌, eq_refl, length-modify, eq_iff, u64_mod, ◌⊎◌, inl, inr,
}
use send_rs.Exec.{Exec, Error, Result, ok, err, ◌>>=◌, with_context, attempt, pure}
use send_rs.Exec.Rules.{After, returned, bind-After}
use send_rs.Disk.{Bytes, Files, Disk, store, content, slice, write_at, write_all}
use send_rs.Disk.Laws.{
  take_all, take-take, length-write_at, take-write_slice, store_self, store_ne, length-slice,
}
use send_rs.Disk.Steady.{steady, seek-steady, read_exact-steady, write_all-steady, write-steady}
use send_rs.Blake3.{Blake3}
use send_rs.Transfer.Manifest.{
  ManifestEntry, TransferManifest, chunk_len, is_chunk_done, mark_chunk_done,
}
use send_rs.Transfer.Manifest.Sums.{Covers, IsSized, chunk_len-eq, chunk_offset}
use send_rs.Transfer.Manifest.Marks.{done-mark, mark-IsSized}
use send_rs.Transfer.Hashing.Steady.{pieces}
use send_rs.Transfer.Copy.{ManifestJson, copy_chunk, verify_chunk_at, save_manifest}
use send_rs.Transfer.Execute.{
  Run, Job, FileJob, on_disk, chunk_done, change_entry, record_copied, emit, save_at,
  save_checkpoint, chunk_copied, copy_attempts, resume_check, copy_step, copy_chunks,
}
use send_rs.Transfer.Execute.Counting.{chunk_done-here}

abbrev pub Never : Error → Run → Type 0
Never e r = ⊥

-- A piece of `n` bytes at `pos` reaches to the end of the bytes at most.
pub slice-min : (pos n : ℕ) (a : Bytes) → slice pos (min (length a - pos) n) a ≡ slice pos n a
slice-min pos n a =
    let rest : Bytes = drop pos a in
    let e : take (min n (length a - pos)) rest ≡ take n (take (length a - pos) rest) =
      sym (take-take n (length a - pos) rest) in
    ap (λ k. take k rest) (omega arith)
    ∙ e
    ∙ ap (take n) (take_all (length a - pos) rest (omega (arith, length-drop pos a)))

module _ {H : Type 0} (b3 : Blake3 H) (fs : Files) where
  -- A chunk that has its hash is copied.
  pub copy_chunk-steady :
      (src dst : String) (offset n : ℕ) (expected : String)
      → offset + n ≤ length (content fs src)
      → (b3.hash (slice offset n (content fs src)) == expected) ≡ true
      → copy_chunk b3 src dst offset n expected (steady fs) ≡ (
        ok tt,
        steady (store dst (write_at offset (slice offset n (content fs src)) (content fs dst)) fs),
      )
  unfolding copy_chunk ◌>>=◌ with_context write_all
  copy_chunk-steady src dst offset n expected h e =
      rw (seek-steady fs offset, read_exact-steady fs src offset n h, e, seek-steady fs offset)
        (write_all-steady fs dst offset (slice offset n (content fs src)))

  -- The check of a chunk that lies within the target.
  pub verify_chunk_at-steady :
      (dst : String) (offset n : ℕ) (expected : String)
      → offset + n ≤ length (content fs dst)
      → verify_chunk_at b3 dst offset n expected (steady fs)
        ≡ (ok (b3.hash (slice offset n (content fs dst)) == expected), steady fs)
  unfolding verify_chunk_at ◌>>=◌ with_context
  verify_chunk_at-steady dst offset n expected h =
      rw (seek-steady fs offset, read_exact-steady fs dst offset n h) refl

pub on_disk-eq :
    {A : Type 0} (m : Exec Disk A) (r : Run) (a : A) (d : Disk)
    → m r.disk ≡ (ok a, d)
    → on_disk m r ≡ (ok a, record r { disk = d })
unfolding on_disk
on_disk-eq m r a d h = rw h refl

-- The JSON library can write every manifest.
abbrev pub Writes : ManifestJson → Type 0
Writes json = (m : TransferManifest) → (body : Bytes) × (json.to_string_pretty m ≡ some body)

module _ (json : ManifestJson) (writes : Writes json) (job : Job) where
  -- Only the checkpoint changes where it is saved.
  pub record Saved (r t : Run) : Type 0 where
    pub files : Files
    pub disk : t.disk ≡ steady files
    pub others : (p : String) → job.checkpoint_path ≢ some p → files p ≡ r.disk.files p
    pub manifest : t.manifest ≡ r.manifest
    pub files_completed : t.files_completed ≡ r.files_completed

  save_manifest-steady :
      (path : String) (m : TransferManifest) (fs : Files)
      → save_manifest json path m (steady fs) ≡ (ok tt, steady (store path (writes m).0 fs))
  unfolding save_manifest ◌>>=◌ with_context
  save_manifest-steady path m fs = rw ((writes m).1, write-steady fs path (writes m).0) refl

  save_at-Saved :
      (o : Option String) (r : Run) (fs : Files)
      → job.checkpoint_path ≡ o
      → r.disk ≡ steady fs
      → After (λ u t. Saved r t) Never (save_at json job o r)
  unfolding save_checkpoint
  save_at-Saved none r fs e d = returned _ _ (record {
    files = r.disk.files;
    disk = d ∙ ap (λ (x : Disk). steady x.files) (sym d);
    others = λ p n. refl;
    manifest = refl;
    files_completed = refl;
  })
  save_at-Saved (some path) r fs e d =
      rw
        (on_disk-eq (save_manifest json path r.manifest) r tt _
          (ap (save_manifest json path r.manifest) d ∙ save_manifest-steady path r.manifest fs))
        (returned _ _ (record {
          files = store path (writes r.manifest).0 fs;
          disk = refl;
          others = λ p n.
              store_ne path p (writes r.manifest).0 fs (λ same. n (e ∙ ap some same))
              ∙ ap (λ (x : Disk). x.files p) (sym d);
          manifest = refl;
          files_completed = refl;
        }))

  pub save_checkpoint-Saved :
      (r : Run) (fs : Files)
      → r.disk ≡ steady fs
      → After (λ u t. Saved r t) Never (save_checkpoint json job r)
  unfolding save_checkpoint
  save_checkpoint-Saved r fs d = save_at-Saved job.checkpoint_path r fs refl d

pub content-some : (fs : Files) (p : String) (a : Bytes) → fs p ≡ some a → content fs p ≡ a
content-some fs p a h = rw (h, content) refl

-- Agreement up to a chunk's end, also where the file ends before it.
pub take-longer :
    (n k : ℕ) (a b : Bytes)
    → length b ≡ length a
    → take n b ≡ take n a
    → (n ≡ k) ⊎ ((n ≡ length a) × (n ≤ k))
    → take k b ≡ take k a
take-longer n k a b l e (inl same) = subst (λ x. take x b ≡ take x a) same e
take-longer n k a b l e (inr (all, above)) =
    let eq : b ≡ a =
      sym (take_all n b (omega (arith, l, all))) ∙ e ∙ take_all n a (omega (arith, all)) in
    ap (take k) eq

-- What is known of a file that is transferred, and of its source's bytes `a`.
pub record IsSource (job : Job) (file : FileJob) (count : ℕ) (fs : Files) (a : Bytes) : Type 0 where
  pub source : fs file.src ≡ some a
  pub apart : file.dst ≢ file.src
  pub src_free : job.checkpoint_path ≢ some file.src
  pub dst_free : job.checkpoint_path ≢ some file.dst
  pub size : file.entry_size ≡ length a
  pub covers : Covers count file.chunk_size (length a)
  pub in_range : length a < u64_mod
  pub chunk_pos : 0 < file.chunk_size

-- No other bytes have the hash of chunk `j`.
abbrev pub Unforged : {H : Type 0} → Blake3 H → ℕ → Bytes → ℕ → Type 0
Unforged b3 cs a j =
    (b : Bytes) → b3.hash b ≡ b3.hash (slice (j * cs) cs a) → b ≡ slice (j * cs) cs a

-- Chunk `j` is not marked, or its mark can be checked by its hash.
abbrev pub Sure : {H : Type 0} → Blake3 H → ℕ → Bytes → ManifestEntry → ℕ → Type 0
Sure b3 cs a entry j = (is_chunk_done entry j ≡ false) ⊎ Unforged b3 cs a j

-- Before chunk `k`: the target agrees with the source up to there, the marks from there on can be
-- checked, and all else is as it was in `begun`.
pub record Copying {H : Type 0} (b3 : Blake3 H) (job : Job) (file : FileJob) (count : ℕ)
    (begun : Run) (a : Bytes) (k : ℕ) (r : Run) : Type 0 where
  pub files : Files
  pub disk : r.disk ≡ steady files
  pub others :
      (p : String) → file.dst ≢ p → job.checkpoint_path ≢ some p → files p ≡ begun.disk.files p
  pub target : Bytes
  pub there : files file.dst ≡ some target
  pub length_same : length target ≡ length a
  pub prefix : take (k * file.chunk_size) target ≡ take (k * file.chunk_size) a
  pub entry : ManifestEntry
  pub here : get_elem? r.manifest.entries file.entry_idx ≡ some entry
  pub sized : IsSized file.chunk_size entry
  pub chunks : length entry.chunk_hashes ≡ count
  pub sure : (j : ℕ) → k ≤ j → Sure b3 file.chunk_size a entry j
  pub rest :
      (i : ℕ)
      → file.entry_idx < i
      → get_elem? r.manifest.entries i ≡ get_elem? begun.manifest.entries i
  pub same_entries : length r.manifest.entries ≡ length begun.manifest.entries
  pub same_root : r.manifest.root_name ≡ begun.manifest.root_name
  pub same_chunks : r.manifest.chunk_size ≡ begun.manifest.chunk_size
  pub same_count : r.files_completed ≡ begun.files_completed
