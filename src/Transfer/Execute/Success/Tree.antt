-- ===== src/Transfer/Execute/Success/Tree.antt =====
-- A folder from one end to the other: `build_manifest` and then `execute_local_transfer`, as the
-- command line does when it sends, with a closure that changes no file, on a steady disk.
use send_rs.Prelude.{
  ℕ, ◌≡◌, ◌≢◌, refl, ap, sym, ◌∙◌, subst, true, false, String, Option, none, some, length, List,
  get_elem?,
}
use mathlib.Core.Option.{get_or}
use mathlib.Core.Path.{ap₂}
use send_rs.Exec.{ok}
use send_rs.Disk.{Files, exists}
use send_rs.Disk.Steady.{steady}
use send_rs.Paths.{file_name, join, strip_root, slashes}
use send_rs.Blake3.{Blake3, IsStreaming}
use send_rs.Transfer.Manifest.{ManifestEntry, TransferManifest, TransferReport}
use send_rs.Transfer.Manifest.Sums.{IsWellFormed}
use send_rs.Transfer.Hashing.{Surroundings, build_manifest}
use send_rs.Transfer.Copy.{ManifestJson}
use send_rs.Transfer.Execute.{
  Run, Job, make_job, src_file_path, dest_file_path, execute_local_transfer,
}
use send_rs.Transfer.Execute.Fresh.{Writes}
use send_rs.Transfer.Execute.Success.{IsCopyable, IsIntact-IsCopyable, IsReady, from, to}
use send_rs.Transfer.Execute.Success.Build.{
  AreThere, effective, effective_pos, found_files, Describes, DescribesAll, file_of_entry,
  entry_of_file, length-DescribesAll, build_manifest-DescribesAll,
}
use send_rs.Transfer.Execute.Success.Whole.{execute_local_transfer_succeeds}

-- Where a file of the folder is read, and where it goes.
abbrev pub origin : String → String → String → String
origin path root file = join path (slashes (strip_root root file))

abbrev pub goal : String → String → String → String
goal root target_root file =
    join (join target_root (get_or (file_name root) "transfer-root"))
      (slashes (strip_root root file))

module _ (path root target_root : String) (checkpoint_path : Option String) (fs : Files) where
  -- The path that was given names the folder, and reading below it finds the files of the folder;
  -- the targets, the sources and the checkpoint file do not overlap.
  pub record IsClear (files : List String) : Type 0 where
    pub folder : fs path ≡ none
    pub same :
        (i : ℕ) (file : String)
        → get_elem? files i ≡ some file
        → fs (origin path root file) ≡ fs file
    pub apart :
        (i j : ℕ) (file other : String)
        → i ≢ j
        → get_elem? files i ≡ some file
        → get_elem? files j ≡ some other
        → goal root target_root file ≢ goal root target_root other
    pub no_source :
        (i j : ℕ) (file other : String)
        → get_elem? files i ≡ some file
        → get_elem? files j ≡ some other
        → goal root target_root file ≢ origin path root other
    pub no_root :
        (i : ℕ) (file : String) → get_elem? files i ≡ some file → goal root target_root file ≢ path
    pub free_source :
        (i : ℕ) (file : String)
        → get_elem? files i ≡ some file
        → checkpoint_path ≢ some (origin path root file)
    pub free_target :
        (i : ℕ) (file : String)
        → get_elem? files i ≡ some file
        → checkpoint_path ≢ some (goal root target_root file)
    pub free_root : checkpoint_path ≢ some path

module _ {H : Type 0} (b3 : Blake3 H) (law : IsStreaming b3) (json : ManifestJson)
    (os : Surroundings) (path root target_root : String) (chunk_size : ℕ)
    (checkpoint_path : Option String) (max_retries : ℕ) (fs : Files) where
  abbrev files : List String
  files = found_files os root

  module _ (clear : IsClear path root target_root checkpoint_path fs files) (m : TransferManifest)
      (same_root : m.root_name ≡ get_or (file_name root) "transfer-root")
      (same_chunks : m.chunk_size ≡ effective chunk_size) (formed : IsWellFormed m)
      (described : DescribesAll b3 law os.modified root
        (effective chunk_size)
        fs
        (effective_pos b3 law os path root chunk_size fs)
        files
        m.entries) where
    abbrev Of : String → ManifestEntry → Type 0
    Of =
        Describes b3 law os.modified root (effective chunk_size) fs
          (effective_pos b3 law os path root chunk_size fs)

    abbrev job : Job
    job = make_job path target_root checkpoint_path max_retries (steady fs) m

    no_file : exists fs path ≡ false
    no_file = ap (λ o. elim o [ none ↦ false | some x ↦ true ]) clear.folder

    from-origin :
        (file : String) (e : ManifestEntry) → Of file e → from b3 job m fs e ≡ origin path root file
    unfolding make_job src_file_path
    from-origin file e d = ap₂ (λ b p. src_file_path b path p) no_file d.path

    to-goal :
        (file : String) (e : ManifestEntry)
        → Of file e
        → to b3 job m fs e ≡ goal root target_root file
    unfolding make_job dest_file_path
    to-goal file e d = rw (no_file, same_root, d.path) refl

    file_at :
        (i : ℕ) (e : ManifestEntry)
        → get_elem? m.entries i ≡ some e
        → (file : String) × (get_elem? files i ≡ some file) × Of file e
    file_at i e here =
        file_of_entry b3 law os.modified root (effective chunk_size) fs
          (effective_pos b3 law os path root chunk_size fs) files m.entries i e described here

    described-IsReady : IsReady b3 job m fs
    unfolding make_job
    described-IsReady = record {
      formed = formed;
      intact = λ i e here.
          let (file, at, d) = file_at i e here in
          (
            d.bytes,
            ap fs (from-origin file e d) ∙ clear.same i file at ∙ d.there,
            subst (λ cs. IsCopyable b3 cs e d.bytes) (sym same_chunks)
                (IsIntact-IsCopyable b3 (effective chunk_size) e d.bytes d.intact),
          );
      apart = λ i j e f differ here there q.
          let (file, at, d) = file_at i e here in
          let (other, by, g) = file_at j f there in
          clear.apart i j file other differ at by (sym (to-goal file e d) ∙ q ∙ to-goal other f g);
      no_source = λ i j e f here there q.
          let (file, at, d) = file_at i e here in
          let (other, by, g) = file_at j f there in
          clear.no_source i j file other at by (sym (to-goal file e d) ∙ q ∙ from-origin other f g);
      no_root = λ i e here q.
          let (file, at, d) = file_at i e here in
          clear.no_root i file at (sym (to-goal file e d) ∙ q);
      free_source = λ i e here q.
          let (file, at, d) = file_at i e here in
          clear.free_source i file at (q ∙ ap some (from-origin file e d));
      free_target = λ i e here q.
          let (file, at, d) = file_at i e here in
          clear.free_target i file at (q ∙ ap some (to-goal file e d));
      free_root = clear.free_root;
    }

    arrives :
        (t : Run)
        → ((i : ℕ) (e : ManifestEntry)
            → get_elem? m.entries i ≡ some e
            → t.disk.files (to b3 job m fs e) ≡ fs (from b3 job m fs e))
        → (i : ℕ) (file : String) → get_elem? files i ≡ some file
        → t.disk.files (goal root target_root file) ≡ fs file
    arrives t arrived i file at =
        let (e, here, d) =
          entry_of_file b3 law os.modified root (effective chunk_size) fs
            (effective_pos b3 law os path root chunk_size fs) files m.entries i file described at in
        ap t.disk.files (sym (to-goal file e d))
        ∙ arrived i e here
        ∙ ap fs (from-origin file e d)
        ∙ clear.same i file at

  -- On a disk where every call succeeds in full, for a path that stands for a folder and is
  -- not itself the name of a file: if all files that the walk found are there and their sizes
  -- add up to less than 2^64, each of them is also found below the given path, under its path
  -- in the folder with every backslash turned into a slash (so where there is a backslash in a
  -- name, the file must be found without it), no target is a source, another target or the
  -- given path, the checkpoint file is none of these, and every manifest can be written, then
  -- the manifest of the folder is built, the transfer of that manifest returns and has copied
  -- as many files as were found, and each of them is, byte for byte, at its path below the
  -- target folder.
  pub execute_local_transfer-build_manifest :
      Writes json
      → os.canonicalize path ≡ some root
      → fs root ≡ none
      → AreThere fs files
      → IsClear path root target_root checkpoint_path fs files
      → (m : TransferManifest) × (report : TransferReport) × (t : Run) × (build_manifest b3 os path
            chunk_size
            (steady fs)
          ≡ (ok m, steady fs))
        × (execute_local_transfer b3 json path target_root checkpoint_path max_retries (steady fs) m
            ≡ (ok report, t))
        × (report.files_completed ≡ length files)
        × ((i : ℕ) (file : String)
            → get_elem? files i ≡ some file
            → t.disk.files (goal root target_root file) ≡ fs file)
  execute_local_transfer-build_manifest writes canonical folder there clear =
      let (m, built, same_root, same_chunks, formed, described) =
        build_manifest-DescribesAll b3 law os path root chunk_size fs canonical folder there in
      let (report, t, returns, all, arrived) =
        execute_local_transfer_succeeds b3 law json writes path target_root checkpoint_path
          max_retries m fs (described-IsReady clear m same_root same_chunks formed described) in
      (
        m,
        report,
        t,
        built,
        returns,
        all
            ∙ length-DescribesAll b3 law os.modified root (effective chunk_size) fs
                (effective_pos b3 law os path root chunk_size fs) files m.entries described,
        arrives clear m same_root same_chunks formed described t arrived,
      )
