-- ===== src/Transfer/Hashing.antt =====
-- `hash_file`, `build_entry`, `build_manifest` and `verify_entry` of crates/transfer/src/lib.rs.
-- The `walkdir` and `uuid` libraries, the clock, and what the operating system knows of a path
-- beside its bytes are parameters.
pub mod Digest
pub mod Steady
use Prim.Native.String.{◌++◌ as ◌<>◌}
use send_rs.Prelude.{
  ℕ, zero, suc, ◌+◌, ◌-◌, ◌/◌, Bool, true, false, ◌&&◌, String, Option, none, some, List, [], ◌∷◌,
  ◌++◌, length, replicate, ◌==◌, nat_eq, if◌then◌else◌,
}
use mathlib.Core.Option
use send_rs.Exec.{Exec, Error, diverged, system, pure, raise, gets, with_context, ◌>>=◌, ◌>>◌}
use send_rs.Disk.{Bytes, Disk, content, exists, check, open_read, read}
use send_rs.Paths.{file_name, join, strip_root, slashes, sort}
use send_rs.Blake3.{Blake3}
use send_rs.Transfer.Manifest.{ℤ, ManifestEntry, TransferManifest, default_chunk_size}

abbrev pub texts_eq : List String → List String → Bool
texts_eq [] [] = true
texts_eq [] (t ∷ ts) = false
texts_eq (s ∷ ss) [] = false
texts_eq (s ∷ ss) (t ∷ ts) = s == t && texts_eq ss ts

-- `n.div_ceil(8)`
abbrev pub div_ceil_8 : ℕ → ℕ
div_ceil_8 n = (n + 7) / 8

module _ {H : Type 0} (b3 : Blake3 H) where
  -- The `loop` of `hash_file` from `pos` on, with what was hashed and pushed so far. Every round
  -- but the last reads a byte, so one round more than there are bytes is enough fuel.
  unfoldable pub hash_loop : ℕ → String → ℕ → ℕ → H → List String → Exec Disk (String × List String)
  hash_loop zero path chunk_size pos hasher hashes = raise diverged
  hash_loop (suc fuel) path chunk_size pos hasher hashes = do
    chunk ← with_context "read file chunk" (read path pos chunk_size)
    elim chunk [
      | [] ↦ pure (b3.finalize hasher, hashes)
      | b ∷ bs ↦
          hash_loop fuel path chunk_size (pos + length (b ∷ bs)) (b3.update hasher (b ∷ bs))
            (hashes ++ b3.hash (b ∷ bs) ∷ [])
    ]

  unfoldable pub hash_file : String → ℕ → Exec Disk (String × List String)
  unfolding hash_loop
  hash_file path chunk_size = do
    with_context ("open file " <> path) (open_read path)
    fuel ← gets (λ d. suc (length (content d.files path)))
    hash_loop fuel path chunk_size 0 b3.new []

  -- `modified` is the modification time, where the file system has one.
  unfoldable pub build_entry : (String → Option ℤ) → String → String → ℕ → Exec Disk ManifestEntry
  unfolding hash_file
  build_entry modified path relative_path chunk_size = do
    with_context "read metadata" (open_read path)
    size ← gets (λ d. length (content d.files path))
    hashed ← hash_file path chunk_size
    pure (record {
      relative_path = relative_path;
      size = size;
      modified_unix = Option.get_or (modified path) (ℤ.pos 0);
      file_hash = hashed.0;
      chunk_hashes = hashed.1;
      resume_bitmap = replicate (div_ceil_8 (length hashed.1)) 0;
    })

  unfoldable pub verify_entry : (String → Option ℤ) → String → ManifestEntry → ℕ → Exec Disk Bool
  unfolding build_entry
  verify_entry modified root entry chunk_size = do
    recalculated ←
        build_entry modified (join root entry.relative_path) entry.relative_path chunk_size
    pure (
        recalculated.file_hash == entry.file_hash
        && texts_eq recalculated.chunk_hashes entry.chunk_hashes)

  -- The `for` over the files of a folder.
  unfoldable pub build_entries :
      (String → Option ℤ) → String → ℕ → List String → Exec Disk (List ManifestEntry)
  unfolding build_entry
  build_entries modified root chunk_size [] = pure []
  build_entries modified root chunk_size (file ∷ files) = do
    entry ← build_entry modified file (slashes (strip_root root file)) chunk_size
    entries ← build_entries modified root chunk_size files
    pure (entry ∷ entries)

-- What `build_manifest` asks of the system and of libraries: `canonicalize`, the entries of
-- `WalkDir` (`none` is an entry that could not be read; the Boolean is `is_file`), the times of
-- modification, a fresh UUID and the time.
pub record Surroundings : Type 0 where
  pub canonicalize : String → Option String
  pub walk : String → List (Option (String × Bool))
  pub modified : String → Option ℤ
  pub new_v4 : String
  pub now : ℕ

-- `.filter_map(ok).filter(is_file).map(into_path)`
unfoldable pub walked_files : List (Option (String × Bool)) → List String
walked_files [] = []
walked_files (none ∷ es) = walked_files es
walked_files (some (path, is_file) ∷ es) =
    let rest = walked_files es in if is_file then path ∷ rest else rest

or_missing : Option String → Exec Disk String
or_missing none = raise (system "not found")
or_missing (some path) = pure path

module _ {H : Type 0} (b3 : Blake3 H) (os : Surroundings) where
  root_entries : String → ℕ → Bool → Exec Disk (List ManifestEntry)
  root_entries root chunk_size true = do
    entry ← build_entry b3 os.modified root (Option.get_or (file_name root) "file") chunk_size
    pure (entry ∷ [])
  root_entries root chunk_size false =
      build_entries b3 os.modified root chunk_size (sort (walked_files (os.walk root)))

  unfoldable pub build_manifest : String → ℕ → Exec Disk TransferManifest
  unfolding root_entries or_missing
  build_manifest path chunk_size = do
    let chunk_size = if nat_eq chunk_size 0 then default_chunk_size else chunk_size
    check
    root ← with_context "canonicalize path" (or_missing (os.canonicalize path))
    is_file ← gets (λ d. exists d.files root)
    entries ← root_entries root chunk_size is_file
    pure (record {
      transfer_id = os.new_v4;
      root_name = Option.get_or (file_name root) "transfer-root";
      chunk_size = chunk_size;
      created_at = os.now;
      entries = entries;
    })
