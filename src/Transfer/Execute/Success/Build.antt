-- ===== src/Transfer/Execute/Success/Build.antt =====
-- The manifest that `build_manifest` of crates/transfer/src/lib.rs makes of a folder on a steady disk.
use send_rs.Prelude.{
  ℕ, zero, suc, ◌<◌, ◌≡◌, refl, ap, subst, String, Option, none, some, List, [], ◌∷◌, length, map,
  arith, get_elem?, All, u64_mod, nat_eq, if◌then◌else◌,
}
use mathlib.Core.Option.{get_or, none-ne-some, some-injective}
use send_rs.Exec.{ok, ◌>>=◌, with_context}
use send_rs.Disk.{Bytes, Files, content}
use send_rs.Disk.Steady.{steady, check-steady}
use send_rs.Paths.{file_name, strip_root, slashes, sort}
use send_rs.Blake3.{Blake3, IsStreaming}
use send_rs.Transfer.Manifest.{ℤ, ManifestEntry, TransferManifest, default_chunk_size}
use send_rs.Transfer.Manifest.Sums.{IsSized, IsWellFormed, total}
use send_rs.Transfer.Hashing.{Surroundings, build_entries, walked_files, build_manifest}
use send_rs.Transfer.Execute.Fresh.{content-some}
use send_rs.Transfer.Execute.Success.{IsIntact}
use send_rs.Transfer.Execute.Success.Source.{build_entry-IsIntact}

-- All of the files are there, and their sizes add up without wrap-around.
abbrev pub AreThere : Files → List String → Type 0
AreThere fs files =
    All (λ file. (a : Bytes) × (fs file ≡ some a)) files
    × (total (map (λ file. length (content fs file)) files) < u64_mod)

-- `chunk_size` of `build_manifest`: 0 stands for the default.
abbrev pub effective : ℕ → ℕ
effective chunk_size = if nat_eq chunk_size 0 then default_chunk_size else chunk_size

-- The files of a folder as they are taken in order.
abbrev pub found_files : Surroundings → String → List String
found_files os root = sort (walked_files (os.walk root))

module _ {H : Type 0} (b3 : Blake3 H) (law : IsStreaming b3) (modified : String → Option ℤ)
    (root : String) (cs : ℕ) (fs : Files) (pos : 0 < cs) where
  -- The entry of a file of the folder.
  pub record Describes (file : String) (e : ManifestEntry) : Type 0 where
    pub path : e.relative_path ≡ slashes (strip_root root file)
    pub bytes : Bytes
    pub there : fs file ≡ some bytes
    pub sized : IsSized cs e
    pub intact : IsIntact b3 cs e bytes

  -- Entry by entry.
  abbrev pub DescribesAll : List String → List ManifestEntry → Type 0
  DescribesAll [] [] = Unit
  DescribesAll [] (e ∷ es) = ⊥
  DescribesAll (file ∷ files) [] = ⊥
  DescribesAll (file ∷ files) (e ∷ es) = Describes file e × DescribesAll files es

  build_entries-DescribesAll :
      (files : List String)
      → AreThere fs files
      → (es : List ManifestEntry) × (build_entries b3 modified root cs files (steady fs)
          ≡ (ok es, steady fs))
        × DescribesAll files es
        × (total (map (λ (e : ManifestEntry). e.size) es)
            ≡ total (map (λ file. length (content fs file)) files))
  unfolding build_entries ◌>>=◌
  build_entries-DescribesAll [] all = ([], refl, tt, refl)
  build_entries-DescribesAll (file ∷ files) (((a, there), all), fits) =
      let size : length (content fs file) ≡ length a = ap length (content-some fs file a there) in
      let (e, built, path, sized, intact) =
        build_entry-IsIntact b3 modified file (slashes (strip_root root file)) cs fs a law there pos
          (omega (arith, size, fits)) in
      let (es, rest, described, sum) =
        build_entries-DescribesAll files (all, omega (arith, fits)) in
      (
        e ∷ es,
        rw (built, rest) refl,
        (
          record { path = path; bytes = a; there = there; sized = sized; intact = intact },
          described,
        ),
        omega (arith, size, intact.size, sum),
      )

  DescribesAll-IsSized :
      (files : List String) (es : List ManifestEntry) → DescribesAll files es → All (IsSized cs) es
  DescribesAll-IsSized [] [] d = tt
  DescribesAll-IsSized [] (e ∷ es) d = elim d [ ]
  DescribesAll-IsSized (file ∷ files) [] d = elim d [ ]
  DescribesAll-IsSized (file ∷ files) (e ∷ es) d = (d.0.sized, DescribesAll-IsSized files es d.1)

  pub length-DescribesAll :
      (files : List String) (es : List ManifestEntry)
      → DescribesAll files es
      → length es ≡ length files
  length-DescribesAll [] [] d = refl
  length-DescribesAll [] (e ∷ es) d = elim d [ ]
  length-DescribesAll (file ∷ files) [] d = elim d [ ]
  length-DescribesAll (file ∷ files) (e ∷ es) d = ap suc (length-DescribesAll files es d.1)

  -- The file of an entry, and the entry of a file.
  pub file_of_entry :
      (files : List String) (es : List ManifestEntry) (i : ℕ) (e : ManifestEntry)
      → DescribesAll files es
      → get_elem? es i ≡ some e
      → (file : String) × (get_elem? files i ≡ some file) × Describes file e
  file_of_entry [] [] i e d here = absurd (none-ne-some e here)
  file_of_entry [] (x ∷ es) i e d here = elim d [ ]
  file_of_entry (file ∷ files) [] i e d here = elim d [ ]
  file_of_entry (file ∷ files) (x ∷ es) zero e d here =
      (file, refl, subst (Describes file) (some-injective x e here) d.0)
  file_of_entry (file ∷ files) (x ∷ es) (suc i) e d here = file_of_entry files es i e d.1 here

  pub entry_of_file :
      (files : List String) (es : List ManifestEntry) (i : ℕ) (file : String)
      → DescribesAll files es
      → get_elem? files i ≡ some file
      → (e : ManifestEntry) × (get_elem? es i ≡ some e) × Describes file e
  entry_of_file [] [] i file d here = absurd (none-ne-some file here)
  entry_of_file [] (x ∷ es) i file d here = elim d [ ]
  entry_of_file (f ∷ files) [] i file d here = elim d [ ]
  entry_of_file (f ∷ files) (x ∷ es) zero file d here =
      (x, refl, subst (λ g. Describes g x) (some-injective f file here) d.0)
  entry_of_file (f ∷ files) (x ∷ es) (suc i) file d here = entry_of_file files es i file d.1 here

module _ {H : Type 0} (b3 : Blake3 H) (law : IsStreaming b3) (os : Surroundings)
    (path root : String) (chunk_size : ℕ) (fs : Files) where
  pub effective_pos : 0 < effective chunk_size
  effective_pos = ground arith

  -- The manifest of a folder, on a disk where every call succeeds in full, if all files that the walk
  -- found are there and their sizes add up to less than 2^64: it is well formed, and its entries are
  -- those of the files in order, each under its path in the folder, with the size and the hashes of
  -- its bytes and no chunk marked.
  pub build_manifest-DescribesAll :
      os.canonicalize path ≡ some root
      → fs root ≡ none
      → AreThere fs (found_files os root)
      → (m : TransferManifest) × (build_manifest b3 os path chunk_size (steady fs)
          ≡ (ok m, steady fs))
        × (m.root_name ≡ get_or (file_name root) "transfer-root")
        × (m.chunk_size ≡ effective chunk_size)
        × IsWellFormed m
        × DescribesAll b3 law os.modified root
            (effective chunk_size)
            fs
            effective_pos
            (found_files os root)
            m.entries
  unfolding build_manifest ◌>>=◌ with_context
  build_manifest-DescribesAll canonical folder there =
      let (es, built, described, sum) =
        build_entries-DescribesAll b3 law os.modified root (effective chunk_size) fs effective_pos
          (found_files os root) there in
      (
        record {
          transfer_id = os.new_v4;
          root_name = get_or (file_name root) "transfer-root";
          chunk_size = effective chunk_size;
          created_at = os.now;
          entries = es;
        },
        rw (check-steady fs, canonical, folder, built) refl,
        refl,
        refl,
        record {
          chunk_pos = effective_pos;
          sized =
              DescribesAll-IsSized b3 law os.modified root (effective chunk_size) fs effective_pos
                (found_files os root) es described;
          fits = omega (arith, sum, there.1);
        },
        described,
      )
