-- ===== src/Transfer/Execute/Counting.antt =====
-- The byte counter of a transfer: at every point it is what the resume bitmaps say is done, and
-- no progress event goes past the total.
pub mod Loop
use send_rs.Prelude.{
  ℕ, ◌+◌, ◌-◌, ◌≤◌, ◌<◌, ◌≡◌, refl, ap, sym, ◌∙◌, true, false, String, List, [], ◌∷◌, ◌++◌, wrap,
  length, nat_eq, All, arith, get_elem?, modify, some, if◌then◌else◌, get_elem?-modify_self,
  get_elem?-modify_ne,
}
use send_rs.Disk.{Disk}
use send_rs.Transfer.Manifest.{
  ManifestEntry, TransferManifest, ProgressEvent, mark_chunk_done, clear_chunk_done, is_chunk_done,
  chunk_len,
}
use send_rs.Transfer.Manifest.Sums.{IsSized, IsWellFormed}
use send_rs.Transfer.Manifest.Marks.{
  done-mark, done-clear, mark-IsSized, clear-IsSized, mark-adds, clear-subtracts,
}
use send_rs.Transfer.Manifest.Totals.{
  sizes, done_total, done_total-le, done_total-modify, sizes-modify, All-modify, All-get,
}
use send_rs.Transfer.Execute.{Run, Job, FileJob, chunk_done, record_copied, record_lost, emit}
use send_rs.Transfer.Execute.Invariant.Steps.{Stable}

abbrev pub IsBounded : ℕ → ProgressEvent → Type 0
IsBounded bound ev = (ev.bytes_done ≤ ev.bytes_total) × (ev.bytes_total ≡ bound)

-- The manifest is well formed, and the counter is the sum of what is marked as done.
pub record IsCounted (job : Job) (r : Run) : Type 0 where
  pub formed : IsWellFormed r.manifest
  pub counted : r.bytes_done ≡ done_total r.manifest.chunk_size r.manifest.entries
  pub whole : job.bytes_total ≡ sizes r.manifest.entries
  pub events : All (IsBounded job.bytes_total) r.events

-- Entry `idx` is marked done up to chunk `k`.
abbrev pub DoneBefore : ℕ → ℕ → TransferManifest → Type 0
DoneBefore idx k m = (j : ℕ) → j < k → chunk_done idx j m ≡ true

-- Where the loop over the chunks of one file stands: before chunk `k` of `count`.
pub record AtChunk (job : Job) (file : FileJob) (count k : ℕ) (r : Run) : Type 0 where
  pub base : IsCounted job r
  pub same_chunks : r.manifest.chunk_size ≡ file.chunk_size
  pub entry : ManifestEntry
  pub here : get_elem? r.manifest.entries file.entry_idx ≡ some entry
  pub same_size : entry.size ≡ file.entry_size
  pub same_count : length entry.chunk_hashes ≡ count
  pub done_before : DoneBefore file.entry_idx k r.manifest
  pub earlier :
      (i : ℕ) (e : ManifestEntry) (j : ℕ)
      → i < file.entry_idx
      → get_elem? r.manifest.entries i ≡ some e
      → j < length e.chunk_hashes
      → is_chunk_done e j ≡ true

pub chunk_done-here :
    (idx j : ℕ) (m : TransferManifest) {e : ManifestEntry}
    → get_elem? m.entries idx ≡ some e
    → chunk_done idx j m ≡ is_chunk_done e j
unfolding chunk_done
chunk_done-here idx j m h = ground (arith, h)

-- A change of one entry that keeps its sizes keeps the manifest well formed.
change-IsWellFormed :
    (m : TransferManifest) (k : ℕ) (f : ManifestEntry → ManifestEntry)
    → ((e : ManifestEntry) → (f e).size ≡ e.size)
    → ((e : ManifestEntry) → IsSized m.chunk_size e → IsSized m.chunk_size (f e))
    → IsWellFormed m
    → IsWellFormed (record m { entries = modify m.entries k f })
change-IsWellFormed m k f z s w = record {
  chunk_pos = w.chunk_pos;
  sized = All-modify (IsSized m.chunk_size) m.entries k f s w.sized;
  fits = omega (arith, sizes-modify m.entries k f z, w.fits);
}

module _ (job : Job) (file : FileJob) {count k : ℕ} (r : Run) (i : AtChunk job file count k r)
    (idx : ℕ) (above : k ≤ idx) (below : idx < count) where
  abbrev cs : ℕ
  cs = r.manifest.chunk_size

  sized : IsSized cs i.entry
  sized = All-get (IsSized cs) r.manifest.entries file.entry_idx i.base.formed.sized i.here

  abbrev read_len : ℕ
  read_len = chunk_len file.chunk_size file.entry_size idx

  same_len : read_len ≡ chunk_len cs i.entry.size idx
  same_len = cc (i.same_chunks, i.same_size)

  in_entry : idx < length i.entry.chunk_hashes
  in_entry = omega (arith, i.same_count)

  -- The entries after a mark, and after a mark was taken back.
  abbrev marked : List ManifestEntry
  marked = modify r.manifest.entries file.entry_idx (mark_chunk_done idx)

  abbrev cleared : List ManifestEntry
  cleared = modify r.manifest.entries file.entry_idx (clear_chunk_done idx)

  mark_size : (e : ManifestEntry) → (mark_chunk_done idx e).size ≡ e.size
  unfolding mark_chunk_done
  mark_size e = refl

  clear_size : (e : ManifestEntry) → (clear_chunk_done idx e).size ≡ e.size
  unfolding clear_chunk_done
  clear_size e = refl

  mark_count :
      (e : ManifestEntry) → length (mark_chunk_done idx e).chunk_hashes ≡ length e.chunk_hashes
  unfolding mark_chunk_done
  mark_count e = refl

  clear_count :
      (e : ManifestEntry) → length (clear_chunk_done idx e).chunk_hashes ≡ length e.chunk_hashes
  unfolding clear_chunk_done
  clear_count e = refl

  marked_formed : IsWellFormed (record r.manifest { entries = marked })
  marked_formed =
      change-IsWellFormed r.manifest file.entry_idx (mark_chunk_done idx) mark_size
        (λ e. mark-IsSized cs e idx) i.base.formed

  cleared_formed : IsWellFormed (record r.manifest { entries = cleared })
  cleared_formed =
      change-IsWellFormed r.manifest file.entry_idx (clear_chunk_done idx) clear_size
        (λ e. clear-IsSized cs e idx) i.base.formed

  marked_total :
      chunk_done file.entry_idx idx r.manifest ≡ false
      → done_total cs marked ≡ done_total cs r.manifest.entries + read_len
  unfolding mark_chunk_done
  marked_total unset =
      let adds =
        mark-adds cs i.entry idx sized in_entry
          (sym (chunk_done-here file.entry_idx idx r.manifest i.here) ∙ unset) in
      omega (
        arith,
        same_len,
        done_total-modify cs r.manifest.entries file.entry_idx (mark_chunk_done idx) 0
            (chunk_len cs i.entry.size idx) i.here (omega (arith, adds)),
      )

  cleared_total :
      chunk_done file.entry_idx idx r.manifest ≡ true
      → done_total cs r.manifest.entries ≡ done_total cs cleared + read_len
  unfolding clear_chunk_done
  cleared_total set =
      let subtracts =
        clear-subtracts cs i.entry idx sized in_entry
          (sym (chunk_done-here file.entry_idx idx r.manifest i.here) ∙ set) in
      omega (
        arith,
        same_len,
        done_total-modify cs r.manifest.entries file.entry_idx (clear_chunk_done idx)
            (chunk_len cs i.entry.size idx) 0 i.here (omega (arith, subtracts)),
      )

  copied_counted :
      chunk_done file.entry_idx idx r.manifest ≡ false
      → wrap (r.bytes_done + read_len) ≡ done_total cs marked
  copied_counted unset = omega (
    arith,
    marked_total unset,
    i.base.counted,
    done_total-le cs marked marked_formed.sized,
    marked_formed.fits,
  )

  lost_counted :
      chunk_done file.entry_idx idx r.manifest ≡ true
      → r.bytes_done - read_len ≡ done_total cs cleared
  lost_counted set = omega (arith, cleared_total set, i.base.counted)

  marked_here : get_elem? marked file.entry_idx ≡ some (mark_chunk_done idx i.entry)
  marked_here = get_elem?-modify_self r.manifest.entries file.entry_idx (mark_chunk_done idx) i.here

  cleared_here : get_elem? cleared file.entry_idx ≡ some (clear_chunk_done idx i.entry)
  cleared_here =
      get_elem?-modify_self r.manifest.entries file.entry_idx (clear_chunk_done idx) i.here

  pub marked_bit :
      (j : ℕ)
      → chunk_done file.entry_idx j (record r.manifest { entries = marked })
        ≡ (if nat_eq idx j then true else chunk_done file.entry_idx j r.manifest)
  marked_bit j =
      chunk_done-here file.entry_idx j (record r.manifest { entries = marked }) marked_here
      ∙ done-mark cs i.entry idx j sized in_entry
      ∙ ap (λ b. if nat_eq idx j then true else b)
          (sym (chunk_done-here file.entry_idx j r.manifest i.here))

  pub cleared_bit :
      (j : ℕ)
      → chunk_done file.entry_idx j (record r.manifest { entries = cleared })
        ≡ (if nat_eq idx j then false else chunk_done file.entry_idx j r.manifest)
  cleared_bit j =
      chunk_done-here file.entry_idx j (record r.manifest { entries = cleared }) cleared_here
      ∙ done-clear cs i.entry idx j sized in_entry
      ∙ ap (λ b. if nat_eq idx j then false else b)
          (sym (chunk_done-here file.entry_idx j r.manifest i.here))

  kept_earlier :
      (f : ManifestEntry → ManifestEntry) (n : ℕ) (e : ManifestEntry) (j : ℕ)
      → n < file.entry_idx
      → get_elem? (modify r.manifest.entries file.entry_idx f) n ≡ some e
      → j < length e.chunk_hashes
      → is_chunk_done e j ≡ true
  kept_earlier f n e j lt h =
      i.earlier n e j lt
        (sym (get_elem?-modify_ne r.manifest.entries file.entry_idx n f (omega arith)) ∙ h)

  pub copied-AtChunk :
      chunk_done file.entry_idx idx r.manifest ≡ false
      → AtChunk job file count k (record_copied file idx read_len r)
  unfolding record_copied
  copied-AtChunk unset = record {
    base = record {
      formed = marked_formed;
      counted = copied_counted unset;
      whole =
          i.base.whole
          ∙ sym (sizes-modify r.manifest.entries file.entry_idx (mark_chunk_done idx) mark_size);
      events = i.base.events;
    };
    same_chunks = i.same_chunks;
    entry = mark_chunk_done idx i.entry;
    here = marked_here;
    same_size = mark_size i.entry ∙ i.same_size;
    same_count = mark_count i.entry ∙ i.same_count;
    done_before = λ j h. ground (arith, marked_bit j, i.done_before j h);
    earlier = kept_earlier (mark_chunk_done idx);
  }

  pub lost-AtChunk :
      chunk_done file.entry_idx idx r.manifest ≡ true
      → AtChunk job file count k (record_lost file idx read_len r)
  unfolding record_lost
  lost-AtChunk set = record {
    base = record {
      formed = cleared_formed;
      counted = lost_counted set;
      whole =
          i.base.whole
          ∙ sym (sizes-modify r.manifest.entries file.entry_idx (clear_chunk_done idx) clear_size);
      events = i.base.events;
    };
    same_chunks = i.same_chunks;
    entry = clear_chunk_done idx i.entry;
    here = cleared_here;
    same_size = clear_size i.entry ∙ i.same_size;
    same_count = clear_count i.entry ∙ i.same_count;
    done_before = λ j h. ground (arith, cleared_bit j, i.done_before j h);
    earlier = kept_earlier (clear_chunk_done idx);
  }

pub All-snoc :
    (P : ProgressEvent → Type 0) (evs : List ProgressEvent) (ev : ProgressEvent)
    → All P evs
    → P ev
    → All P (evs ++ ev ∷ [])
All-snoc P [] ev a p = (p, tt)
All-snoc P (x ∷ evs) ev a p = (a.0, All-snoc P evs ev a.1 p)
