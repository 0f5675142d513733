-- ===== src/Trust/Identity/Kept.antt =====
-- A device keeps its identity, `load_or_create_identity` of crates/security/src/lib.rs.
use send_rs.Prelude.{String, Option, none, some, ◌≡◌, refl, ◌∙◌}
use send_rs.Exec.{ok, with_context, ◌>>=◌}
use send_rs.Disk.{Bytes, Files, store, check, read_to_string, write}
use send_rs.Disk.Laws.{store_self}
use send_rs.Disk.Steady.{steady}
use send_rs.Trust.Identity.{
  LocalIdentity, IdentityLibrary, identity_path, load_identity, new_identity, save_identity,
  load_or_create_identity,
}

module _ (lib : IdentityLibrary) (data_dir : String) (fs : Files) where
  -- Without a file the identity is made and written.
  pub load_or_create_identity-creates :
      (name : Option String) (body : Bytes)
      → fs (identity_path lib data_dir) ≡ none
      → lib.to_string_pretty (new_identity lib data_dir name) ≡ some body
      → load_or_create_identity lib data_dir name (steady fs)
        ≡ (ok (new_identity lib data_dir name), steady (store (identity_path lib data_dir) body fs))
  unfolding load_or_create_identity save_identity with_context ◌>>=◌ check write
  load_or_create_identity-creates name body absent writes = rw (absent, writes) refl

  -- A file that is there is read.
  pub load_or_create_identity-loads :
      (name : Option String) (body : Bytes) (local : LocalIdentity)
      → fs (identity_path lib data_dir) ≡ some body
      → lib.from_str body ≡ some local
      → load_or_create_identity lib data_dir name (steady fs) ≡ (ok local, steady fs)
  unfolding load_or_create_identity load_identity with_context ◌>>=◌ check read_to_string
  load_or_create_identity-loads name body local there reads = rw (there, there, reads) refl

-- On a disk where every call succeeds, and where no identity is kept yet: the first call makes one of
-- the fresh key pair and id and the given name, and writes it. Every later call, whatever keys, id and
-- name would be fresh then, returns the same identity and changes nothing, if the file is as it was
-- left and the library of that time reads back what was written.
pub load_or_create_identity-again :
    (first later : IdentityLibrary) (data_dir : String) (fs files : Files)
    (name other : Option String) (body : Bytes)
    → fs (identity_path first data_dir) ≡ none
    → first.to_string_pretty (new_identity first data_dir name) ≡ some body
    → later.from_str body ≡ some (new_identity first data_dir name)
    → files (identity_path first data_dir)
      ≡ store (identity_path first data_dir) body fs (identity_path first data_dir)
    → (load_or_create_identity first data_dir name (steady fs) ≡ (
      ok (new_identity first data_dir name),
      steady (store (identity_path first data_dir) body fs),
    ))
      × (load_or_create_identity later data_dir other (steady files)
          ≡ (ok (new_identity first data_dir name), steady files))
load_or_create_identity-again first later data_dir fs files name other body absent writes reads
      left =
    (
      load_or_create_identity-creates first data_dir fs name body absent writes,
      load_or_create_identity-loads later data_dir files other body
          (new_identity first data_dir name)
          (left ∙ store_self (identity_path first data_dir) body fs) reads,
    )
