-- ===== src/Transfer/Execute/Fresh/Chunk.antt =====
-- The copy of one chunk on a steady disk.
use native.Mathlib.Decide.{dec_lt}
use mathlib.Core.Path.{ap₂}
use native.Mathlib.Nat.{mul-le-mul_right}
use send_rs.Prelude.{
  ℕ, suc, ◌+◌, ◌-◌, ◌*◌, ◌≤◌, ◌<◌, ◌≡◌, refl, ap, sym, ◌∙◌, true, String, none, some, length, min,
  arith, get_elem?, take, wrap, get_elem?-modify_self, get_elem?-modify_ne, ◌==◌, length-modify,
  eq_iff, ◌⊎◌, inl, inr,
}
use send_rs.Exec.{ok, ◌>>=◌, attempt, pure}
use send_rs.Exec.Rules.{After, returned, bind-After}
use send_rs.Disk.{Bytes, Files, Disk, store, content, slice, write_at}
use send_rs.Disk.Laws.{length-write_at, take-write_slice, store_self, store_ne, length-slice}
use send_rs.Disk.Steady.{steady}
use send_rs.Blake3.{Blake3}
use send_rs.Transfer.Manifest.{TransferManifest, chunk_len, mark_chunk_done}
use send_rs.Transfer.Manifest.Sums.{chunk_len-eq, chunk_offset}
use send_rs.Transfer.Manifest.Marks.{done-mark, mark-IsSized}
use send_rs.Transfer.Copy.{ManifestJson, copy_chunk}
use send_rs.Transfer.Execute.{
  Run, Job, FileJob, record_copied, emit, save_checkpoint, chunk_copied, copy_attempts,
}
use send_rs.Transfer.Execute.Fresh.{
  Never, slice-min, copy_chunk-steady, on_disk-eq, Writes, Saved, save_checkpoint-Saved,
  content-some, take-longer, IsSource, Copying, Sure,
}

module _ {H : Type 0} (b3 : Blake3 H) (json : ManifestJson) (writes : Writes json) (job : Job)
    (file : FileJob) (count : ℕ) (begun : Run) (a : Bytes)
    (src : IsSource job file count begun.disk.files a) (k : ℕ) (below : k < count) where
  abbrev pub offset : ℕ
  offset = k * file.chunk_size

  abbrev pub read_len : ℕ
  read_len = min (length a - offset) file.chunk_size

  abbrev pub expected : String
  expected = b3.hash (slice offset file.chunk_size a)

  pub starts_inside : offset < length a
  starts_inside =
      let step : suc k * file.chunk_size ≤ count * file.chunk_size =
        mul-le-mul_right file.chunk_size below in
      omega (arith, step, src.covers.tight)

  pub same_offset : wrap (k * file.chunk_size) ≡ offset
  same_offset = chunk_offset file.chunk_size count (length a) k src.covers src.in_range below

  pub same_len : chunk_len file.chunk_size file.entry_size k ≡ read_len
  same_len =
      ap (λ n. chunk_len file.chunk_size n k) src.size
      ∙ chunk_len-eq file.chunk_size count (length a) k src.covers src.in_range below

  target_length :
      (b : Bytes)
      → length b ≡ length a
      → length (write_at offset (slice offset read_len a) b) ≡ length a
  target_length b l =
      let piece = length-slice offset read_len a (omega (arith, starts_inside)) in
      length-write_at offset (slice offset read_len a) b (omega (arith, piece, l, starts_inside))
      ∙ l

  pub chunk_end :
      (offset + read_len ≡ suc k * file.chunk_size)
      ⊎ ((offset + read_len ≡ length a) × (offset + read_len ≤ suc k * file.chunk_size))
  chunk_end = elim (dec_lt (length a - offset) file.chunk_size) [
    | yes short ↦ inr (omega (arith, starts_inside, short), omega (arith, starts_inside, short))
    | no whole ↦ inl (omega (arith, starts_inside, whole))
  ]

  next_prefix :
      (b : Bytes)
      → length b ≡ length a
      → take offset b ≡ take offset a
      → take (suc k * file.chunk_size) (write_at offset (slice offset read_len a) b)
        ≡ take (suc k * file.chunk_size) a
  next_prefix b l e =
      take-longer (offset + read_len) (suc k * file.chunk_size) a
        (write_at offset (slice offset read_len a) b) (target_length b l)
        (take-write_slice offset read_len a b (omega (arith, starts_inside)) (sym l) e) chunk_end

  abbrev pub Next : Run → Type 0
  Next t = Copying b3 job file count begun a (suc k) t

  module _ (r : Run) (i : Copying b3 job file count begun a k r) where
    abbrev written : Files
    written = store file.dst (write_at offset (slice offset read_len a) i.target) i.files

    -- The state after the copy, with the chunk marked.
    abbrev marked_run : Run
    marked_run = record_copied file k read_len (record r { disk = steady written })

    source_now : i.files file.src ≡ some a
    source_now = i.others file.src src.apart src.src_free ∙ src.source

    source_content : content i.files file.src ≡ a
    source_content = content-some i.files file.src a source_now

    pub target_content : content i.files file.dst ≡ i.target
    target_content = content-some i.files file.dst i.target i.there

    hash_fits : (b3.hash (slice offset read_len (content i.files file.src)) == expected) ≡ true
    hash_fits = (eq_iff _ _).1 (
        ap (λ x. b3.hash (slice offset read_len x)) source_content
        ∙ ap b3.hash (slice-min offset file.chunk_size a))

    copies :
        copy_chunk b3 file.src file.dst (wrap (k * file.chunk_size)) read_len expected r.disk
        ≡ (ok tt, steady written)
    copies =
        ap (λ o. copy_chunk b3 file.src file.dst o read_len expected r.disk) same_offset
        ∙ ap (copy_chunk b3 file.src file.dst offset read_len expected) i.disk
        ∙ copy_chunk-steady b3 i.files file.src file.dst offset read_len expected
            (omega (arith, starts_inside, ap length source_content)) hash_fits
        ∙ ap₂
            (λ x b. (
              ok tt,
              steady (store file.dst (write_at offset (slice offset read_len x) b) i.files),
            ))
            source_content target_content

    marked_entry :
        get_elem? marked_run.manifest.entries file.entry_idx ≡ some (mark_chunk_done k i.entry)
    unfolding record_copied
    marked_entry =
        get_elem?-modify_self r.manifest.entries file.entry_idx (mark_chunk_done k) i.here

    mark-Sure : (j : ℕ) → suc k ≤ j → Sure b3 file.chunk_size a (mark_chunk_done k i.entry) j
    mark-Sure j h = elim (i.sure j (omega arith)) [
      | inl unset ↦ inl (
          ground
            (arith, done-mark file.chunk_size i.entry k j i.sized (omega (arith, i.chunks)), unset))
      | inr unforged ↦ inr unforged
    ]

    marked_rest :
        (n : ℕ)
        → file.entry_idx < n
        → get_elem? marked_run.manifest.entries n ≡ get_elem? begun.manifest.entries n
    unfolding record_copied
    marked_rest n h =
        get_elem?-modify_ne r.manifest.entries file.entry_idx n (mark_chunk_done k) (omega arith)
        ∙ i.rest n h

    marked_many : length marked_run.manifest.entries ≡ length begun.manifest.entries
    unfolding record_copied
    marked_many =
        length-modify r.manifest.entries file.entry_idx (mark_chunk_done k) ∙ i.same_entries

    mark_chunks : length (mark_chunk_done k i.entry).chunk_hashes ≡ count
    unfolding mark_chunk_done
    mark_chunks = i.chunks

    marked_disk : marked_run.disk ≡ steady written
    unfolding record_copied
    marked_disk = refl

    marked_same :
        (marked_run.manifest.root_name ≡ begun.manifest.root_name)
        × (marked_run.manifest.chunk_size ≡ begun.manifest.chunk_size)
        × (marked_run.files_completed ≡ begun.files_completed)
    unfolding record_copied
    marked_same = (i.same_root, i.same_chunks, i.same_count)

    -- Once the checkpoint is saved and the event is sent, the next chunk's turn has come.
    next-Copying :
        (t : Run)
        → Saved json writes job marked_run t
        → Copying b3 job file count begun a (suc k) (emit job.bytes_total file.relative_path t)
    unfolding emit
    next-Copying t saved = record {
      files = saved.files;
      disk = saved.disk;
      others = λ p away free.
          saved.others p free
          ∙ ap (λ (d : Disk). d.files p) marked_disk
          ∙ store_ne file.dst p _ i.files away
          ∙ i.others p away free;
      target = write_at offset (slice offset read_len a) i.target;
      there =
          saved.others file.dst src.dst_free
          ∙ ap (λ (d : Disk). d.files file.dst) marked_disk
          ∙ store_self file.dst _ i.files;
      length_same = target_length i.target i.length_same;
      prefix = next_prefix i.target i.length_same i.prefix;
      entry = mark_chunk_done k i.entry;
      here =
          ap (λ (m : TransferManifest). get_elem? m.entries file.entry_idx) saved.manifest
          ∙ marked_entry;
      sized = mark-IsSized file.chunk_size i.entry k i.sized;
      chunks = mark_chunks;
      sure = mark-Sure;
      rest = λ n h.
          ap (λ (m : TransferManifest). get_elem? m.entries n) saved.manifest ∙ marked_rest n h;
      same_entries = ap (λ (m : TransferManifest). length m.entries) saved.manifest ∙ marked_many;
      same_root = ap (λ (m : TransferManifest). m.root_name) saved.manifest ∙ marked_same.0;
      same_chunks = ap (λ (m : TransferManifest). m.chunk_size) saved.manifest ∙ marked_same.1;
      same_count = saved.files_completed ∙ marked_same.2;
    }

    copied-Next :
        After
          (λ u t. Next t)
          Never
          (chunk_copied b3 json job file k read_len (record r { disk = steady written }))
    unfolding chunk_copied ◌>>=◌
    copied-Next =
        bind-After (save_checkpoint json job) _ marked_run
          (save_checkpoint-Saved json writes job marked_run written marked_disk) (λ x t h. h)
          λ u t saved. returned _ _ (next-Copying t saved)

    pub attempts-Next :
        (n : ℕ)
        → After
            (λ e t. (e ≡ none) × Next t)
            Never
            (copy_attempts b3 json job file k read_len expected (suc n) none r)
    unfolding copy_attempts attempt ◌>>=◌
    attempts-Next n =
        rw
          (on_disk-eq
            (copy_chunk b3 file.src file.dst (wrap (k * file.chunk_size)) read_len expected) r tt _
            copies)
          (bind-After (chunk_copied b3 json job file k read_len) (λ u. pure none)
            (record r { disk = steady written }) copied-Next (λ x t h. h)
            λ u t next. returned none t (refl, next))
