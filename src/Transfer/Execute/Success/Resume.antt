-- ===== src/Transfer/Execute/Success/Resume.antt =====
-- A transfer that was cut short or not, and then run again on a disk where every call succeeds: it
-- completes.
use send_rs.Prelude.{
  ℕ, ◌≡◌, refl, ap, sym, ◌∙◌, subst, Bool, true, false, ◌&&◌, String, Option, none, some, List, [],
  ◌∷◌, length, length-map, map, get_elem?, get_elem?-lt, inr, if◌then◌else◌,
}
use mathlib.Core.Option.{some-injective}
use mathlib.Core.Path.{ap₂}
use send_rs.Exec.{Result, ok}
use send_rs.Exec.Rules.{After, returned, failed}
use send_rs.Disk.{Bytes, Files, Disk, exists}
use send_rs.Disk.Steady.{steady}
use send_rs.Paths.{join}
use send_rs.Blake3.{Blake3, IsStreaming}
use send_rs.Transfer.Manifest.{ManifestEntry, TransferManifest, TransferReport}
use send_rs.Transfer.Hashing.Steady.{pieces}
use send_rs.Transfer.Copy.{ManifestJson}
use send_rs.Transfer.Execute.{
  Run, Job, start, make_job, single_file, src_file_path, dest_file_path, execute_local_transfer,
}
use send_rs.Transfer.Execute.Accounting.{execute_local_transfer_events}
use send_rs.Transfer.Execute.Confined.{Confined, run_job-Confined}
use send_rs.Transfer.Execute.Shape.{erase, same_entry, shape}
use send_rs.Transfer.Execute.Fresh.{Writes, Unforged}
use send_rs.Transfer.Execute.Success.{IsCopyable, IsReady, from, to}
use send_rs.Transfer.Execute.Success.Whole.{execute_local_transfer_succeeds}

pub After-same :
    {A S : Type 0} {Q : S → Type 0} {p : Result A × S} → After (λ a s. Q s) (λ x s. Q s) p → Q p.1
After-same (returned a s q) = q
After-same (failed x s q) = q

-- Whether a manifest is of a single file is a matter of its shape.
single_file-shape :
    (m : TransferManifest) → single_file (shape m) (shape m).entries ≡ single_file m m.entries
single_file-shape m = by_entries m.entries
  where
    by_entries : (es : List ManifestEntry) → single_file (shape m) (map erase es) ≡ single_file m es
    by_entries [] = refl
    by_entries (e ∷ []) = refl
    by_entries (e ∷ f ∷ es) = refl

-- The entry of `es` where an entry of `fs` stands, for lists of one shape.
twin :
    (es fs : List ManifestEntry) (i : ℕ) (f : ManifestEntry)
    → map erase fs ≡ map erase es
    → get_elem? fs i ≡ some f
    → (e : ManifestEntry) × (get_elem? es i ≡ some e) × (erase f ≡ erase e)
twin es fs i f h here =
    let (e, g, there, again, same) = same_entry es fs i (sym h) (get_elem?-lt fs i here) in
    let gf : g ≡ f = some-injective g f (sym again ∙ here) in
    (e, there, ap erase (sym gf) ∙ sym same)

-- Where a file goes, by whether it is the only one.
abbrev place : String → Bool → String → String → String
place target_root single root_name relative_path =
    if single then join target_root root_name else join (join target_root root_name) relative_path

module _ {H : Type 0} (b3 : Blake3 H) (law : IsStreaming b3) (json : ManifestJson)
    (source_path target_root : String) (checkpoint_path : Option String) (max_retries : ℕ)
    (disk : Disk) (m : TransferManifest) where
  abbrev pub the_job : Job
  the_job = make_job source_path target_root checkpoint_path max_retries disk m

  -- The first run, with whatever calls fail.
  abbrev pub first : Run
  first =
      (execute_local_transfer b3 json source_path target_root checkpoint_path max_retries disk m).1

  module _ (ready : IsReady b3 the_job m disk.files)
      (unforged : (i j : ℕ) (e : ManifestEntry) (a : Bytes)
        → get_elem? m.entries i ≡ some e
        → disk.files (from b3 the_job m disk.files e) ≡ some a
        → Unforged b3 m.chunk_size a j) where
    first-Confined : Confined b3 json the_job m disk.files first
    unfolding execute_local_transfer start
    first-Confined =
        After-same (run_job-Confined b3 json the_job (start disk m) ready.formed.chunk_pos)

    abbrev next_job : Job
    next_job =
        make_job source_path target_root checkpoint_path max_retries (steady first.disk.files)
          first.manifest

    root_kept : first.disk.files source_path ≡ disk.files source_path
    unfolding make_job
    root_kept = first-Confined.elsewhere source_path ready.no_root ready.free_root

    same_kind : exists first.disk.files source_path ≡ exists disk.files source_path
    same_kind = ap (λ o. elim o [ none ↦ false | some x ↦ true ]) root_kept

    same_single : next_job.is_single_file ≡ the_job.is_single_file
    unfolding make_job
    same_single = ap₂ ◌&&◌ same_kind (
        sym (single_file-shape first.manifest)
        ∙ ap (λ (x : TransferManifest). single_file x x.entries) first-Confined.same_shape
        ∙ single_file-shape m)

    module _ (i : ℕ) (f : ManifestEntry) (here : get_elem? first.manifest.entries i ≡ some f) where
      matched : (e : ManifestEntry) × (get_elem? m.entries i ≡ some e) × (erase f ≡ erase e)
      matched =
          twin m.entries first.manifest.entries i f
            (ap (λ (x : TransferManifest). x.entries) first-Confined.same_shape) here

      abbrev e : ManifestEntry
      e = matched.0

      same_from :
          from b3 next_job first.manifest first.disk.files f ≡ from b3 the_job m disk.files e
      unfolding make_job
      same_from =
          ap₂ (λ b p. src_file_path b source_path p) same_kind
            (ap (λ (x : ManifestEntry). x.relative_path) matched.2)

      same_to : to b3 next_job first.manifest first.disk.files f ≡ to b3 the_job m disk.files e
      unfolding dest_file_path make_job
      same_to =
          ap (λ b. place target_root b first.manifest.root_name f.relative_path) same_single
          ∙ ap₂ (place target_root the_job.is_single_file)
              (ap (λ (x : TransferManifest). x.root_name) first-Confined.same_shape)
              (ap (λ (x : ManifestEntry). x.relative_path) matched.2)

      source_kept :
          first.disk.files (from b3 the_job m disk.files e)
          ≡ disk.files (from b3 the_job m disk.files e)
      unfolding make_job
      source_kept =
          first-Confined.elsewhere (from b3 the_job m disk.files e)
            (λ n g at. ready.no_source n i g e at matched.1) (ready.free_source i e matched.1)

      still_IsCopyable :
          (a : Bytes)
          → disk.files (from b3 the_job m disk.files e) ≡ some a
          → IsCopyable b3 m.chunk_size e a
          → IsCopyable b3 first.manifest.chunk_size f a
      still_IsCopyable a there c =
          let same_chunks = ap (λ (x : TransferManifest). x.chunk_size) first-Confined.same_shape in
          let hashes = ap (λ (x : ManifestEntry). x.chunk_hashes) matched.2 in
          subst (λ cs. IsCopyable b3 cs f a) (sym same_chunks)
            (record {
              size = ap (λ (x : ManifestEntry). x.size) matched.2 ∙ c.size;
              chunks =
                  hashes
                  ∙ c.chunks
                  ∙ ap (λ (hs : List String). map b3.hash (pieces (length hs) m.chunk_size 0 a))
                      (sym hashes);
              whole = ap (λ (x : ManifestEntry). x.file_hash) matched.2 ∙ c.whole;
              sure = λ j. inr (unforged i j e a matched.1 there);
            })

    next-IsReady : IsReady b3 next_job first.manifest first.disk.files
    unfolding make_job
    next-IsReady = record {
      formed =
          (execute_local_transfer_events b3 json source_path target_root checkpoint_path max_retries
            disk m ready.formed).1;
      intact = λ i f here.
          let (a, there, c) = ready.intact i (e i f here) (matched i f here).1 in
          (
            a,
            ap first.disk.files (same_from i f here) ∙ source_kept i f here ∙ there,
            still_IsCopyable i f here a there c,
          );
      apart = λ i j f g differ here there q.
          ready.apart i j (e i f here) (e j g there) differ (matched i f here).1
            (matched j g there).1 (sym (same_to i f here) ∙ q ∙ same_to j g there);
      no_source = λ i j f g here there q.
          ready.no_source i j (e i f here) (e j g there) (matched i f here).1 (matched j g there).1
            (sym (same_to i f here) ∙ q ∙ same_from j g there);
      no_root = λ i f here q.
          ready.no_root i (e i f here) (matched i f here).1 (sym (same_to i f here) ∙ q);
      free_source = λ i f here q.
          ready.free_source i (e i f here) (matched i f here).1 (q ∙ ap some (same_from i f here));
      free_target = λ i f here q.
          ready.free_target i (e i f here) (matched i f here).1 (q ∙ ap some (same_to i f here));
      free_root = ready.free_root;
    }

    -- What the second run brings to the target of an entry of `m`.
    arrives :
        (files : Files)
        → ((i : ℕ) (f : ManifestEntry)
            → get_elem? first.manifest.entries i ≡ some f
            → files (to b3 next_job first.manifest first.disk.files f)
              ≡ first.disk.files (from b3 next_job first.manifest first.disk.files f))
        → (i : ℕ) (g : ManifestEntry) → get_elem? m.entries i ≡ some g
        → files (to b3 the_job m disk.files g) ≡ disk.files (from b3 the_job m disk.files g)
    arrives files arrived i g at =
        let (f, here, same) =
          twin first.manifest.entries m.entries i g
            (sym (ap (λ (x : TransferManifest). x.entries) first-Confined.same_shape)) at in
        let eg : e i f here ≡ g = some-injective (e i f here) g (sym (matched i f here).1 ∙ at) in
        subst
          (λ x. files (to b3 the_job m disk.files x) ≡ disk.files (from b3 the_job m disk.files x))
          eg
          (ap files (sym (same_to i f here))
            ∙ arrived i f here
            ∙ ap first.disk.files (same_from i f here)
            ∙ source_kept i f here)

    same_many : length first.manifest.entries ≡ length m.entries
    same_many =
        sym (length-map first.manifest.entries erase)
        ∙ ap (λ (x : TransferManifest). length x.entries) first-Confined.same_shape
        ∙ length-map m.entries erase

  -- A transfer is run on any disk, whatever calls fail, and ends or stops with an error. The sources
  -- have the sizes and hashes that the well-formed manifest gives them, no other bytes have the hash
  -- of one of their chunks, the paths do not overlap, and every manifest can be written. Then the
  -- same transfer, run again from the manifest and the files as they were left, on a disk where every
  -- call succeeds in full, returns: it has copied every file, and each target holds the bytes that
  -- its source had at the beginning.
  pub execute_local_transfer_resumes :
      Writes json
      → IsReady b3 the_job m disk.files
      → ((i j : ℕ) (e : ManifestEntry) (a : Bytes)
          → get_elem? m.entries i ≡ some e
          → disk.files (from b3 the_job m disk.files e) ≡ some a
          → Unforged b3 m.chunk_size a j)
      → (report : TransferReport) × (t : Run) × (execute_local_transfer b3 json source_path
            target_root checkpoint_path max_retries
            (steady first.disk.files)
            first.manifest
          ≡ (ok report, t))
        × (report.files_completed ≡ length m.entries)
        × ((i : ℕ) (e : ManifestEntry)
            → get_elem? m.entries i ≡ some e
            → t.disk.files (to b3 the_job m disk.files e)
              ≡ disk.files (from b3 the_job m disk.files e))
  execute_local_transfer_resumes writes ready unforged =
      let (report, t, returns, all, arrived) =
        execute_local_transfer_succeeds b3 law json writes source_path target_root checkpoint_path
          max_retries first.manifest first.disk.files (next-IsReady ready unforged) in
      (
        report,
        t,
        returns,
        all ∙ same_many ready unforged,
        arrives ready unforged t.disk.files arrived,
      )
