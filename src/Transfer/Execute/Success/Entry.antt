-- ===== src/Transfer/Execute/Success/Entry.antt =====
-- One round over the entries of a transfer from intact sources on a steady disk.
use native.Mathlib.Decide.{ℕ_discrete}
use mathlib.Core.Option.{some-injective}
use send_rs.Prelude.{
  ℕ, suc, ◌+◌, ◌*◌, ◌≡◌, ◌≢◌, refl, ap, sym, ◌∙◌, subst, true, false, String, none, some, length,
  map, arith, get_elem?,
}
use send_rs.Exec.{ok, ◌>>=◌, ◌>>◌}
use send_rs.Exec.Rules.{After, returned, bind-After}
use send_rs.Disk.{Bytes, Files, Disk, exists}
use send_rs.Disk.Laws.{take_all}
use send_rs.Disk.Steady.{steady}
use send_rs.Blake3.{Blake3, IsStreaming}
use send_rs.Transfer.Manifest.{ManifestEntry, TransferManifest}
use send_rs.Transfer.Manifest.Sums.{Covers, IsSized}
use send_rs.Transfer.Hashing.Steady.{pieces}
use send_rs.Transfer.Copy.{ManifestJson}
use send_rs.Transfer.Execute.{
  Run, Job, FileJob, on_disk, open_files, copy_chunks, check_file, file_job, src_file_path,
  dest_file_path, transfer_entry,
}
use send_rs.Transfer.Manifest.Totals.{All-get}
use send_rs.Transfer.Execute.Invariant.{on_disk-After}
use send_rs.Transfer.Execute.Fresh.{Never, Writes, IsSource, Copying, Sure}
use send_rs.Transfer.Execute.Success.{
  copy_chunks-Copying, Opened, open_files-Opened, check_file-steady, IsCopyable, from, to, IsReady,
  Arriving,
}

module _ {H : Type 0} (b3 : Blake3 H) (law : IsStreaming b3) (json : ManifestJson)
    (writes : Writes json) (job : Job) (m : TransferManifest) (fs : Files)
    (ready : IsReady b3 job m fs) where
  module _ (idx : ℕ) (e : ManifestEntry) (here : get_elem? m.entries idx ≡ some e) (r : Run)
      (i : Arriving b3 job m fs idx r) where
    abbrev pub file : FileJob
    file = file_job b3 json job idx e r

    abbrev count : ℕ
    count = length e.chunk_hashes

    abbrev pub bytes : Bytes
    bytes = (ready.intact idx e here).0

    abbrev intact : IsCopyable b3 m.chunk_size e bytes
    intact = (ready.intact idx e here).2

    files_now : (p : String) → r.disk.files p ≡ i.files p
    files_now p = ap (λ (d : Disk). d.files p) i.disk

    same_kind : exists r.disk.files job.source_path ≡ exists fs job.source_path
    same_kind =
        ap (λ o. elim o [ none ↦ false | some x ↦ true ])
          (files_now job.source_path ∙ i.kept job.source_path ready.no_root ready.free_root)

    src_now : file.src ≡ from b3 job m fs e
    unfolding file_job
    src_now = ap (λ b. src_file_path b job.source_path e.relative_path) same_kind

    dst_now : file.dst ≡ to b3 job m fs e
    unfolding file_job
    dst_now = ap (λ root. dest_file_path job root e.relative_path) i.same_root

    cs_now : file.chunk_size ≡ m.chunk_size
    unfolding file_job
    cs_now = i.same_chunks

    size_now : file.entry_size ≡ length bytes
    unfolding file_job
    size_now = intact.size

    idx_now : file.entry_idx ≡ idx
    unfolding file_job
    idx_now = refl

    sized : IsSized file.chunk_size e
    sized =
        subst (λ c. IsSized c e) (sym cs_now)
          (All-get (IsSized m.chunk_size) m.entries idx ready.formed.sized here)

    source_now : i.files file.src ≡ some bytes
    source_now =
        ap i.files src_now
        ∙ i.kept (from b3 job m fs e) (λ n f there. ready.no_source n idx f e there here)
            (ready.free_source idx e here)
        ∙ (ready.intact idx e here).1

    chunks_now : e.chunk_hashes ≡ map b3.hash (pieces count file.chunk_size 0 bytes)
    chunks_now = intact.chunks ∙ ap (λ c. map b3.hash (pieces count c 0 bytes)) (sym cs_now)

    dst_apart : file.dst ≢ file.src
    dst_apart q = ready.no_source idx idx e e here here (sym dst_now ∙ q ∙ src_now)

    module _ (d : Disk) (o : Opened file i.files d) where
      abbrev begun : Run
      begun = record r { disk = d }

      opened : (p : String) → d.files p ≡ o.files p
      opened p = ap (λ (x : Disk). x.files p) o.disk

      begun-IsSource : IsSource job file count d.files bytes
      begun-IsSource = record {
        source = opened file.src ∙ o.others file.src dst_apart ∙ source_now;
        apart = dst_apart;
        src_free = λ q. ready.free_source idx e here (q ∙ ap some src_now);
        dst_free = λ q. ready.free_target idx e here (q ∙ ap some dst_now);
        size = size_now;
        covers = subst (Covers count file.chunk_size) (intact.size) sized.covers;
        in_range = omega (arith, sized.in_range, intact.size);
        chunk_pos = omega (arith, cs_now, ready.formed.chunk_pos);
      }

      begun-Copying : Copying b3 job file count begun bytes 0 begun
      begun-Copying = record {
        files = o.files;
        disk = o.disk;
        others = λ p away free. sym (opened p);
        target = o.target;
        there = o.there;
        length_same = o.length_target ∙ size_now;
        prefix = let e : 0 * file.chunk_size ≡ 0 = omega arith in rw e refl;
        entry = e;
        here = ap (get_elem? r.manifest.entries) idx_now ∙ i.rest idx (omega arith) ∙ here;
        sized = sized;
        chunks = refl;
        sure = λ j h. subst (λ c. Sure b3 c bytes e j) (sym cs_now) (intact.sure j);
        rest = λ n h. refl;
        same_entries = refl;
        same_root = refl;
        same_chunks = refl;
        same_count = refl;
      }

      module _ (v : Run) (c : Copying b3 job file count begun bytes count v) where
        whole_target : c.target ≡ bytes
        whole_target =
            sym (
              take_all (count * file.chunk_size) c.target
                (omega (arith, c.length_same, begun-IsSource.covers.enough)))
            ∙ c.prefix
            ∙ take_all (count * file.chunk_size) bytes (omega (arith, begun-IsSource.covers.enough))

        away :
            (p : String)
            → to b3 job m fs e ≢ p
            → job.checkpoint_path ≢ some p
            → c.files p ≡ i.files p
        away p ne free =
            let ne' : file.dst ≢ p = λ q. ne (sym dst_now ∙ q) in
            c.others p ne' free ∙ opened p ∙ o.others p ne'

        arrived_now : c.files (to b3 job m fs e) ≡ some bytes
        arrived_now = ap c.files (sym dst_now) ∙ c.there ∙ ap some whole_target

        abbrev finished : Run
        finished = record v { disk = steady c.files; files_completed = v.files_completed + 1 }

        finished-Arriving : Arriving b3 job m fs (suc idx) finished
        finished-Arriving = record {
          files = c.files;
          disk = refl;
          kept = λ p ne free. away p (ne idx e here) free ∙ i.kept p ne free;
          arrived = λ n f below there. elim (ℕ_discrete n idx) [
            | yes q ↦
                let same : f ≡ e =
                  some-injective f e (sym there ∙ ap (get_elem? m.entries) q ∙ here) in
                ap (λ x. c.files (to b3 job m fs x)) same
                ∙ arrived_now
                ∙ sym (ap (λ x. fs (from b3 job m fs x)) same ∙ (ready.intact idx e here).1)
            | no q ↦
                away (to b3 job m fs f) (ready.apart idx n e f (λ z. q (sym z)) here there)
                  (ready.free_target n f there)
                ∙ i.arrived n f (omega arith) there
          ];
          rest = λ n h. c.rest n (omega (arith, idx_now)) ∙ i.rest n (omega arith);
          same_entries = c.same_entries ∙ i.same_entries;
          same_root = c.same_root ∙ i.same_root;
          same_chunks = c.same_chunks ∙ i.same_chunks;
          counted = omega (arith, c.same_count, i.counted);
        }

        checks : check_file b3 json job file e.file_hash v ≡ (ok tt, finished)
        checks =
            check_file-steady b3 law json job file count e.file_hash c.files bytes v
              begun-IsSource.chunk_pos begun-IsSource.covers (c.there ∙ ap some whole_target)
              (sym intact.whole) c.disk

    -- One round over the entries.
    pub transfer_entry-Arriving :
        After
          (λ u t. Arriving b3 job m fs (suc idx) t)
          Never
          (transfer_entry b3 json job idx (some e) r)
    unfolding transfer_entry ◌>>=◌
    transfer_entry-Arriving =
        bind-After (on_disk (open_files file)) _ r
          (on_disk-After
            {R = λ u t. (d : Disk) × Opened file i.files d × (t ≡ record r { disk = d })}
            {F = Never} (open_files file) r
            (subst (λ d. After (λ u x. Opened file i.files x) (λ x y. ⊥) (open_files file d))
              (sym i.disk) (open_files-Opened file i.files bytes source_now))
            (λ u d o. (d, o, refl)) (λ x d h. h))
          (λ x t h. h)
          λ u t h.
            subst
              (λ t.
                After (λ u w. Arriving b3 job m fs (suc idx) w) Never
                  ((copy_chunks b3 json job file 0 e.chunk_hashes
                      >> check_file b3 json job file e.file_hash)
                    t))
              (sym h.2)
              (bind-After (copy_chunks b3 json job file 0 e.chunk_hashes) _ (begun h.0 h.1)
                (subst
                  (λ hs.
                    After (λ u v. Copying b3 job file count (begun h.0 h.1) bytes count v) Never
                      (copy_chunks b3 json job file 0 hs (begun h.0 h.1)))
                  (sym chunks_now)
                  (copy_chunks-Copying b3 json writes job file count (begun h.0 h.1) bytes
                    (begun-IsSource h.0 h.1) count 0 0 (begun h.0 h.1) (omega arith) (omega arith)
                    (begun-Copying h.0 h.1)))
                (λ x v k. k)
                λ u v c. rw (checks h.0 h.1 v c) (returned _ _ (finished-Arriving h.0 h.1 v c)))
