-- ===== src/Transfer/Copy.antt =====
-- `copy_chunk`, `verify_chunk_at`, `save_manifest` and `load_manifest` of crates/transfer/src/lib.rs.
pub mod Calls
use send_rs.Prelude.{ℕ, ◌≡◌, Bool, String, Option, none, some, ◌==◌, if◌then◌else◌}
use send_rs.Exec.{Exec, message, system, pure, raise, with_context, ◌>>=◌, ◌>>◌}
use send_rs.Disk.{Bytes, Disk, seek, read_exact, write_all, write, read_to_string}
use send_rs.Blake3.{Blake3}
use send_rs.Transfer.Manifest.{TransferManifest}

module _ {H : Type 0} (b3 : Blake3 H) where
  unfoldable pub copy_chunk : String → String → ℕ → ℕ → String → Exec Disk (Unit {0})
  copy_chunk src dst offset read_len expected = do
    start ← with_context "seek source offset" (seek offset)
    buf ← with_context "read source chunk" (read_exact src start read_len)
    if b3.hash buf == expected
        then (do
          start ← with_context "seek target offset" (seek offset)
          with_context "write target chunk" (write_all dst start buf))
        else raise (message "source chunk hash mismatch")

  unfoldable pub verify_chunk_at : String → ℕ → ℕ → String → Exec Disk Bool
  verify_chunk_at file offset len expected = do
    start ← with_context "seek target for verify" (seek offset)
    buf ← with_context "read target chunk" (read_exact file start len)
    pure (b3.hash buf == expected)

-- serde_json on manifests: the text of a manifest, and the manifest that a text stands for.
pub record ManifestJson : Type 0 where
  pub to_string_pretty : TransferManifest → Option Bytes
  pub from_str : Bytes → Option TransferManifest

-- A manifest that is written out is read back.
pub record IsRoundTrip (json : ManifestJson) : Type 0 where
  pub reads_back :
      (manifest : TransferManifest) (body : Bytes)
      → json.to_string_pretty manifest ≡ some body
      → json.from_str body ≡ some manifest

or_error : {A : Type 0} → String → Option A → Exec Disk A
or_error t none = raise (system t)
or_error t (some a) = pure a

module _ (json : ManifestJson) where
  unfoldable pub save_manifest : String → TransferManifest → Exec Disk (Unit {0})
  unfolding or_error
  save_manifest path manifest = do
    body ← with_context "serialize manifest" (or_error "json" (json.to_string_pretty manifest))
    with_context "write manifest" (write path body)

  unfoldable pub load_manifest : String → Exec Disk TransferManifest
  unfolding or_error
  load_manifest path = do
    body ← with_context "read manifest" (read_to_string path)
    with_context "parse manifest" (or_error "json" (json.from_str body))
