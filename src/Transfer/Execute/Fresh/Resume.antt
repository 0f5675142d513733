-- ===== src/Transfer/Execute/Fresh/Resume.antt =====
-- A chunk of a file on a steady disk, whether it is marked or not: it is checked at the target, or
-- copied.
use send_rs.Prelude.{
  ℕ, suc, ◌+◌, ◌-◌, ◌*◌, ◌≤◌, ◌<◌, ◌≡◌, refl, ap, sym, ◌∙◌, Bool, Bool-cases, true, false, String,
  none, some, length, min, max, arith, get_elem?, wrap, nat_eq, get_elem?-modify_self,
  get_elem?-modify_ne, ◌==◌, length-modify, eq_iff, ◌⊎◌, inl, inr,
}
use mathlib.Core.Bool.{true≢false}
use send_rs.Exec.{ok, ◌>>=◌}
use send_rs.Exec.Rules.{After, returned, bind-After}
use send_rs.Disk.{Bytes, slice}
use send_rs.Disk.Laws.{take-extend}
use send_rs.Disk.Steady.{steady}
use send_rs.Blake3.{Blake3}
use send_rs.Transfer.Manifest.{is_chunk_done, clear_chunk_done}
use send_rs.Transfer.Manifest.Marks.{done-clear, clear-IsSized}
use send_rs.Transfer.Copy.{ManifestJson, verify_chunk_at}
use send_rs.Transfer.Execute.{
  Run, Job, FileJob, on_disk, record_lost, copy_attempts, resume_check, copy_step,
}
use send_rs.Transfer.Execute.Counting.{chunk_done-here}
use send_rs.Transfer.Execute.Fresh.{
  Never, slice-min, on_disk-eq, Writes, take-longer, IsSource, Copying, Unforged, Sure,
  verify_chunk_at-steady,
}
use send_rs.Transfer.Execute.Fresh.Chunk

module _ {H : Type 0} (b3 : Blake3 H) (json : ManifestJson) (writes : Writes json) (job : Job)
    (file : FileJob) (count : ℕ) (begun : Run) (a : Bytes)
    (src : IsSource job file count begun.disk.files a) (k : ℕ) (below : k < count) where
  abbrev offset : ℕ
  offset = k * file.chunk_size

  abbrev read_len : ℕ
  read_len = min (length a - offset) file.chunk_size

  abbrev pub expected : String
  expected = b3.hash (slice offset file.chunk_size a)

  abbrev pub Next : Run → Type 0
  Next t = Copying b3 job file count begun a (suc k) t

  starts_inside : offset < length a
  starts_inside = Chunk.starts_inside b3 json writes job file count begun a src k below

  same_offset : wrap (k * file.chunk_size) ≡ offset
  same_offset = Chunk.same_offset b3 json writes job file count begun a src k below

  module _ (r : Run) (i : Copying b3 job file count begun a k r) where
    -- The mark of a chunk that does not verify is taken back.
    abbrev lost_run : Run
    lost_run = record_lost file k read_len (record r { disk = steady i.files })

    lost_here :
        get_elem? lost_run.manifest.entries file.entry_idx ≡ some (clear_chunk_done k i.entry)
    unfolding record_lost
    lost_here = get_elem?-modify_self r.manifest.entries file.entry_idx (clear_chunk_done k) i.here

    lost-Sure : (j : ℕ) → k ≤ j → Sure b3 file.chunk_size a (clear_chunk_done k i.entry) j
    lost-Sure j h = elim (i.sure j h) [
      | inl unset ↦ inl (
          ground (
            arith,
            done-clear file.chunk_size i.entry k j i.sized (omega (arith, i.chunks)),
            unset,
          ))
      | inr unforged ↦ inr unforged
    ]

    lost-Copying : Copying b3 job file count begun a k lost_run
    unfolding record_lost clear_chunk_done
    lost-Copying = record {
      files = i.files;
      disk = refl;
      others = i.others;
      target = i.target;
      there = i.there;
      length_same = i.length_same;
      prefix = i.prefix;
      entry = clear_chunk_done k i.entry;
      here = lost_here;
      sized = clear-IsSized file.chunk_size i.entry k i.sized;
      chunks = i.chunks;
      sure = lost-Sure;
      rest = λ n h.
          get_elem?-modify_ne r.manifest.entries file.entry_idx n (clear_chunk_done k) (omega arith)
          ∙ i.rest n h;
      same_entries =
          length-modify r.manifest.entries file.entry_idx (clear_chunk_done k) ∙ i.same_entries;
      same_root = i.same_root;
      same_chunks = i.same_chunks;
      same_count = i.same_count;
    }

    -- A chunk that verifies is what the source has there.
    verified-Next :
        Unforged b3 file.chunk_size a k
        → b3.hash (slice offset read_len i.target) ≡ expected
        → Next (record r { disk = steady i.files })
    verified-Next unforged fits = record {
      files = i.files;
      disk = refl;
      others = i.others;
      target = i.target;
      there = i.there;
      length_same = i.length_same;
      prefix =
          take-longer (offset + read_len) (suc k * file.chunk_size) a i.target i.length_same
            (take-extend offset read_len i.target a i.prefix (
              unforged (slice offset read_len i.target) fits
              ∙ sym (slice-min offset file.chunk_size a)))
            (Chunk.chunk_end b3 json writes job file count begun a src k below);
      entry = i.entry;
      here = i.here;
      sized = i.sized;
      chunks = i.chunks;
      sure = λ j h. i.sure j (omega arith);
      rest = i.rest;
      same_entries = i.same_entries;
      same_root = i.same_root;
      same_chunks = i.same_chunks;
      same_count = i.same_count;
    }

    verifies :
        on_disk (verify_chunk_at b3 file.dst (wrap (k * file.chunk_size)) read_len expected) r ≡ (
          ok (b3.hash (slice offset read_len i.target) == expected),
          record r { disk = steady i.files },
        )
    verifies =
        on_disk-eq (verify_chunk_at b3 file.dst (wrap (k * file.chunk_size)) read_len expected) r _
          (steady i.files)
          (ap (λ o. verify_chunk_at b3 file.dst o read_len expected r.disk) same_offset
            ∙ ap (verify_chunk_at b3 file.dst offset read_len expected) i.disk
            ∙ verify_chunk_at-steady b3 i.files file.dst offset read_len expected (
                omega (
                  arith,
                  starts_inside,
                  ap length
                      (Chunk.target_content b3 json writes job file count begun a src k below r i),
                  i.length_same,
                ))
            ∙ ap (λ x. (ok (b3.hash (slice offset read_len x) == expected), steady i.files))
                (Chunk.target_content b3 json writes job file count begun a src k below r i))

    -- Whether the chunk is skipped, and what is so either way.
    abbrev Decided : Bool → Run → Type 0
    Decided skip t =
        ((skip ≡ true) × Next t) ⊎ ((skip ≡ false) × Copying b3 job file count begun a k t)

    resume_check-Decided : After Decided Never (resume_check b3 json job file k read_len expected r)
    unfolding resume_check ◌>>=◌
    resume_check-Decided = elim (Bool-cases (is_chunk_done i.entry k)) [
      | inr unmarked ↦
          rw (chunk_done-here file.entry_idx k r.manifest i.here, unmarked)
            (returned _ _ (inr (refl, i)))
      | inl marked ↦ elim (Bool-cases (b3.hash (slice offset read_len i.target) == expected)) [
        | inl fits ↦
            rw (chunk_done-here file.entry_idx k r.manifest i.here, marked, verifies, fits)
              (returned _ _ (
                inl (
                  refl,
                  verified-Next (unforged_of marked (i.sure k (omega arith))) ((eq_iff _ _).0 fits),
                )))
        | inr differs ↦
            rw (chunk_done-here file.entry_idx k r.manifest i.here, marked, verifies, differs)
              (returned _ _ (inr (refl, lost-Copying)))
      ]
    ]
      where
        unforged_of :
            is_chunk_done i.entry k ≡ true
            → Sure b3 file.chunk_size a i.entry k
            → Unforged b3 file.chunk_size a k
        unforged_of marked (inl unset) = absurd (true≢false (sym marked ∙ unset))
        unforged_of marked (inr unforged) = unforged

  pub step-Next :
      (r : Run) (i : Copying b3 job file count begun a k r)
      → After (λ u t. Next t) Never (copy_step b3 json job file k expected r)
  unfolding copy_step ◌>>=◌
  step-Next r i =
      let some_rounds : max job.max_retries 1 ≡ suc (max job.max_retries 1 - 1) = omega arith in
      let not_empty : nat_eq read_len 0 ≡ false = ground (arith, starts_inside, src.chunk_pos) in
      rw (Chunk.same_len b3 json writes job file count begun a src k below, not_empty, some_rounds)
        (bind-After (resume_check b3 json job file k read_len expected) _ r
          (resume_check-Decided r i) (λ x t h. h)
          λ skip t h. elim h [
            | inl done ↦ rw (done.0) (returned _ _ done.1)
            | inr left ↦ rw (left.0) (
                bind-After
                  (copy_attempts b3 json job file k read_len expected
                    (suc (max job.max_retries 1 - 1)) none)
                  _ t
                  (Chunk.attempts-Next b3 json writes job file count begun a src k below t left.1
                    (max job.max_retries 1 - 1))
                  (λ x t h. h) λ e t h. rw (h.0) (returned _ _ h.1))
          ])
