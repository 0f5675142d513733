-- ===== src/Transfer/Execute/Rounds.antt =====
-- The byte counter over the rounds of the loops: when a round over an entry returns, all chunks of
-- the entry are marked.
use send_rs.Prelude.{
  ℕ, zero, suc, ◌+◌, ◌*◌, ◌≤◌, ◌<◌, ◌≡◌, refl, ap, sym, ◌∙◌, subst, true, String, some, length, All,
  arith, get_elem?, length-modify, get_elem?-some, ◌⊎◌, inl, inr, ◌==◌,
}
use native.Mathlib.Decide.{ℕ_discrete}
use native.Mathlib.Nat.{mul-le-mul_right}
use mathlib.Core.Option.{some-injective}
use send_rs.Exec.{Error, IsReal, ◌>>=◌}
use send_rs.Exec.Rules.{After, returned, failed, bind-After, if-After, After-both, After-mono}
use send_rs.Disk.{Disk}
use send_rs.Blake3.{Blake3}
use send_rs.Transfer.Manifest.{ManifestEntry, TransferManifest, is_chunk_done, chunk_len}
use send_rs.Transfer.Manifest.Sums.{IsSized, IsWellFormed, chunk_len-eq}
use send_rs.Transfer.Manifest.Totals.{sizes, done_total, All-get}
use send_rs.Transfer.Hashing.{hash_file}
use send_rs.Transfer.Hashing.Digest.{hash_file-Digest}
use send_rs.Transfer.Copy.{ManifestJson}
use send_rs.Transfer.Execute.{
  Run, Job, FileJob, on_disk, emit, chunk_done, open_files, file_job, copy_chunks, check_file,
  transfer_entry, transfer_entries, record_copied, record_lost,
}
use send_rs.Transfer.Execute.Invariant.{on_disk-After}
use send_rs.Transfer.Execute.Invariant.Steps.{Stable, copy_chunks-After}
use send_rs.Transfer.Execute.Verified.{open_files-Touches}
use send_rs.Transfer.Execute.Counting.{IsBounded, IsCounted, AtChunk, chunk_done-here}
use send_rs.Transfer.Execute.Counting.Loop.{AtChunk-Stable, disk-IsCounted}

-- The entries before `idx` are done.
abbrev pub EarlierDone : ℕ → TransferManifest → Type 0
EarlierDone idx m =
    (i : ℕ) (e : ManifestEntry) (j : ℕ)
    → i < idx
    → get_elem? m.entries i ≡ some e
    → j < length e.chunk_hashes
    → is_chunk_done e j ≡ true

-- Where the loop over the entries stands: before entry `idx` of `count`.
pub record AtEntry (job : Job) (count idx : ℕ) (r : Run) : Type 0 where
  pub base : IsCounted job r
  pub many : length r.manifest.entries ≡ count
  pub earlier : EarlierDone idx r.manifest

module _ (job : Job) (file : FileJob) (count n k : ℕ) where
  -- No round changes the number of entries.
  Many-Stable :
      Stable job file k count (λ r. length r.manifest.entries ≡ n) (λ idx m. Unit) (λ idx m. Unit)
  unfolding record_copied record_lost emit
  Many-Stable = record {
    on_target = λ r d touched i. i;
    on_saved = λ r d path e touched i. i;
    on_emit = λ r i. i;
    set_bit = λ r idx h. tt;
    unset_bit = λ r idx h. tt;
    on_copied =
        λ r idx above below i u. (length-modify r.manifest.entries file.entry_idx _ ∙ i, tt);
    on_lost = λ r idx above below i u. (length-modify r.manifest.entries file.entry_idx _ ∙ i, tt);
  }

-- A chunk of a sized entry has a byte.
chunk_len_pos :
    (cs : ℕ) (e : ManifestEntry) (idx : ℕ)
    → IsSized cs e
    → idx < length e.chunk_hashes
    → chunk_len cs e.size idx ≡ 0
    → 0 < cs
    → ⊥
chunk_len_pos cs e idx s below empty pos =
    let step : suc idx * cs ≤ length e.chunk_hashes * cs = mul-le-mul_right cs below in
    omega (
      arith,
      step,
      chunk_len-eq cs (length e.chunk_hashes) e.size idx s.covers s.in_range below,
      s.covers.tight,
      empty,
    )

module _ (job : Job) (file : FileJob) (count : ℕ) where
  -- After its round a chunk of the file is done, so the next one may begin.
  AtChunk-next :
      (k : ℕ) (r : Run)
      → k < count
      → AtChunk job file count k r
      → (chunk_len file.chunk_size file.entry_size k ≡ 0)
        ⊎ (chunk_done file.entry_idx k r.manifest ≡ true)
      → AtChunk job file count (suc k) r
  AtChunk-next k r below i end = record {
    base = i.base;
    same_chunks = i.same_chunks;
    entry = i.entry;
    here = i.here;
    same_size = i.same_size;
    same_count = i.same_count;
    done_before = λ j h. elim (ℕ_discrete j k) [
      | yes e ↦ subst (λ j. chunk_done file.entry_idx j r.manifest ≡ true) (sym e) marked
      | no ne ↦ i.done_before j (omega arith)
    ];
    earlier = i.earlier;
  }
    where
      sized : IsSized r.manifest.chunk_size i.entry
      sized =
          All-get (IsSized r.manifest.chunk_size) r.manifest.entries file.entry_idx
            i.base.formed.sized i.here

      marked : chunk_done file.entry_idx k r.manifest ≡ true
      marked = elim end [
        | inr set ↦ set
        | inl empty ↦ absurd (
            chunk_len_pos r.manifest.chunk_size i.entry k sized (omega (arith, i.same_count))
              (cc (empty, i.same_size, i.same_chunks)) i.base.formed.chunk_pos)
      ]

  -- After the last chunk, the entries up to this one are done.
  AtChunk-EarlierDone :
      (r : Run) → AtChunk job file count count r → EarlierDone (suc file.entry_idx) r.manifest
  AtChunk-EarlierDone r i n e j below here short = elim (ℕ_discrete n file.entry_idx) [
    | no ne ↦ i.earlier n e j (omega arith) here short
    | yes at ↦
        let same : e ≡ i.entry =
          some-injective e i.entry (sym here ∙ ap (get_elem? r.manifest.entries) at ∙ i.here) in
        sym (chunk_done-here file.entry_idx j r.manifest (i.here ∙ ap some (sym same)))
        ∙ i.done_before j
            (omega (arith, ap (λ (x : ManifestEntry). length x.chunk_hashes) same, i.same_count))
  ]

module _ {H : Type 0} (b3 : Blake3 H) (json : ManifestJson) (job : Job) where
  -- The check of the whole file changes neither the manifest nor the counter.
  abbrev pub Same : Run → Run → Type 0
  Same r t = (t.manifest ≡ r.manifest) × (t.bytes_done ≡ r.bytes_done) × (t.events ≡ r.events)

  check_file-Same :
      (file : FileJob) (expected : String) (r : Run)
      → 0 < file.chunk_size
      → After (λ u t. Same r t) (λ x t. Same r t) (check_file b3 json job file expected r)
  unfolding check_file
  check_file-Same file expected r h =
      bind-After (on_disk (hash_file b3 file.dst file.chunk_size)) _ r
        (on_disk-After {R = λ v t. Same r t} {F = λ x t. Same r t}
          (hash_file b3 file.dst file.chunk_size) r
          (hash_file-Digest b3 file.dst file.chunk_size r.disk h) (λ v d q. (refl, refl, refl))
          (λ x d q. (refl, refl, refl)))
        (λ x t q. q)
        λ v t q. if-After (v.0 == expected) _ _ t (λ same. returned _ _ q) (λ differ. failed _ _ q)

  pub unchanged-IsCounted : {r t : Run} → Same r t → IsCounted job r → IsCounted job t
  unchanged-IsCounted s i = record {
    formed = subst IsWellFormed (sym s.0) i.formed;
    counted =
        s.1
        ∙ i.counted
        ∙ ap (λ (m : TransferManifest). done_total m.chunk_size m.entries) (sym s.0);
    whole = i.whole ∙ ap (λ (m : TransferManifest). sizes m.entries) (sym s.0);
    events = subst (All (IsBounded job.bytes_total)) (sym s.2) i.events;
  }

  abbrev pub Counted : Error → Run → Type 0
  Counted x t = IsCounted job t

  -- One round over the entries.
  transfer_entry-AtEntry :
      (count idx : ℕ) (entry : ManifestEntry) (r : Run)
      → get_elem? r.manifest.entries idx ≡ some entry
      → AtEntry job count idx r
      → After
          (λ u t. AtEntry job count (suc idx) t)
          Counted
          (transfer_entry b3 json job idx (some entry) r)
  unfolding transfer_entry file_job ◌>>=◌
  transfer_entry-AtEntry count idx entry r here a =
      bind-After (on_disk (open_files file)) _ r
        (on_disk-After {R = λ u t. Begun t} {F = Counted} (open_files file) r
          (open_files-Touches file r.disk) (λ u d touched. (begun d, a.many))
          (λ x d touched. disk-IsCounted job r d a.base))
        (λ x t q. q)
        λ u t b.
          bind-After (copy_chunks b3 json job file 0 entry.chunk_hashes) _ t (copied t b)
            (λ x v q. q.0.1)
            λ u v q.
              After-mono (check_file-Same file entry.file_hash v r_pos)
                (λ u w same. record {
                  base = unchanged-IsCounted same q.0.base;
                  many = ap (λ (m : TransferManifest). length m.entries) same.0 ∙ q.1;
                  earlier =
                      subst (EarlierDone (suc idx)) (sym same.0)
                        (AtChunk-EarlierDone job file chunks v q.0);
                })
                (λ x w same. unchanged-IsCounted same q.0.base)
    where
      file : FileJob
      file = file_job b3 json job idx entry r

      chunks : ℕ
      chunks = length entry.chunk_hashes

      r_pos : 0 < r.manifest.chunk_size
      r_pos = a.base.formed.chunk_pos

      Begun : Run → Type 0
      Begun t = AtChunk job file chunks 0 t × (length t.manifest.entries ≡ count)

      begun : (d : Disk) → AtChunk job file chunks 0 (record r { disk = d })
      begun d = record {
        base = disk-IsCounted job r d a.base;
        same_chunks = refl;
        entry = entry;
        here = here;
        same_size = refl;
        same_count = refl;
        done_before = λ j none_before. absurd (omega arith);
        earlier = a.earlier;
      }

      copied :
          (t : Run)
          → Begun t
          → After
              (λ u v. AtChunk job file chunks chunks v × (length v.manifest.entries ≡ count))
              (λ x v. (IsReal x × IsCounted job v) × (IsReal x × Unit {0}))
              (copy_chunks b3 json job file 0 entry.chunk_hashes t)
      copied t b =
          After-both
            (copy_chunks-After b3 json job file {J = IsCounted job} (AtChunk job file chunks)
              (λ k below. AtChunk-Stable job file chunks k)
              (λ k v below i end. AtChunk-next job file chunks k v below i end) (λ k v i. i.base) 0
              entry.chunk_hashes t (omega arith) b.0)
            (copy_chunks-After b3 json job file {J = λ v. Unit}
              (λ k v. length v.manifest.entries ≡ count)
              (λ k below. Many-Stable job file chunks count k) (λ k v below i end. i) (λ k v i. tt)
              0 entry.chunk_hashes t (omega arith) b.1)

  -- The loop over the entries.
  pub transfer_entries-AtEntry :
      (count n idx : ℕ) (r : Run)
      → idx + n ≡ count
      → AtEntry job count idx r
      → After (λ u t. AtEntry job count count t) Counted (transfer_entries b3 json job n idx r)
  unfolding transfer_entries ◌>>=◌
  transfer_entries-AtEntry count zero idx r all a =
      let e : idx ≡ count = omega (arith, all) in
      returned _ _ (subst (λ k. AtEntry job count k r) e a)
  transfer_entries-AtEntry count (suc n) idx r all a =
      let (entry, here) = get_elem?-some r.manifest.entries idx (omega (arith, all, a.many)) in
      rw here (
        bind-After (transfer_entry b3 json job idx (some entry)) _ r
          (transfer_entry-AtEntry count idx entry r here a) (λ x t q. q)
          λ u t b. transfer_entries-AtEntry count n (suc idx) t (omega (arith, all)) b)
