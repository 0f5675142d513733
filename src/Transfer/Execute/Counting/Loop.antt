-- ===== src/Transfer/Execute/Counting/Loop.antt =====
-- The counts of crates/transfer/src/lib.rs over the loop of `execute_local_transfer`.
use send_rs.Prelude.{ℕ, ◌≡◌, refl, true, false, String, arith}
use send_rs.Disk.{Disk}
use send_rs.Transfer.Manifest.Totals.{done_total-le}
use send_rs.Transfer.Execute.{Run, Job, FileJob, chunk_done, record_copied, record_lost, emit}
use send_rs.Transfer.Execute.Invariant.Steps.{Stable}
use send_rs.Transfer.Execute.Counting.{
  IsBounded, IsCounted, AtChunk, marked_bit, cleared_bit, copied-AtChunk, lost-AtChunk, All-snoc,
}

-- An event that is sent reports no more than the total.
pub emit-IsCounted :
    (job : Job) (name : String) (r : Run)
    → IsCounted job r
    → IsCounted job (emit job.bytes_total name r)
unfolding emit
emit-IsCounted job name r i = record {
  formed = i.formed;
  counted = i.counted;
  whole = i.whole;
  events = All-snoc (IsBounded job.bytes_total) r.events _ i.events (
    omega (
      arith,
      i.counted,
      i.whole,
      done_total-le r.manifest.chunk_size r.manifest.entries i.formed.sized,
    ),
    refl,
  );
}

pub disk-IsCounted :
    (job : Job) (r : Run) (d : Disk) → IsCounted job r → IsCounted job (record r { disk = d })
disk-IsCounted job r d i = record {
  formed = i.formed;
  counted = i.counted;
  whole = i.whole;
  events = i.events;
}

disk-AtChunk :
    (job : Job) (file : FileJob) (count k : ℕ) (r : Run) (d : Disk)
    → AtChunk job file count k r
    → AtChunk job file count k (record r { disk = d })
disk-AtChunk job file count k r d i = record {
  base = disk-IsCounted job r d i.base;
  same_chunks = i.same_chunks;
  entry = i.entry;
  here = i.here;
  same_size = i.same_size;
  same_count = i.same_count;
  done_before = i.done_before;
  earlier = i.earlier;
}

pub AtChunk-Stable :
    (job : Job) (file : FileJob) (count k : ℕ)
    → Stable job file k count
        (AtChunk job file count k)
        (λ idx m. chunk_done file.entry_idx idx m ≡ true)
        (λ idx m. chunk_done file.entry_idx idx m ≡ false)
unfolding record_copied record_lost emit
AtChunk-Stable job file count k = record {
  on_target = λ r d touched i. disk-AtChunk job file count k r d i;
  on_saved = λ r d path e touched i. disk-AtChunk job file count k r d i;
  on_emit = λ r i. record {
    base = emit-IsCounted job file.relative_path r i.base;
    same_chunks = i.same_chunks;
    entry = i.entry;
    here = i.here;
    same_size = i.same_size;
    same_count = i.same_count;
    done_before = i.done_before;
    earlier = i.earlier;
  };
  set_bit = λ r idx h. h;
  unset_bit = λ r idx h. h;
  on_copied = λ r idx above below i unset. (
    copied-AtChunk job file r i idx above below unset,
    ground (arith, marked_bit job file r i idx above below idx),
  );
  on_lost = λ r idx above below i set. (
    lost-AtChunk job file r i idx above below set,
    ground (arith, cleared_bit job file r i idx above below idx),
  );
}
