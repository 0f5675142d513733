-- ===== src/Transfer/Execute/Watched/Blind.antt =====
-- The parts of crates/transfer/src/lib.rs that work on named files do not depend on any other file.
use Prim.Native.String.{◌++◌ as ◌<>◌}
use send_rs.Prelude.{
  ◌≢◌, ℕ, zero, suc, ◌+◌, String, Option, none, some, List, [], ◌∷◌, length, ◌==◌, Option-cases,
  inl, inr,
}
use send_rs.Exec.{err, diverged, message, with_context}
use send_rs.Blake3.{Blake3}
use send_rs.Paths.{parent}
use send_rs.Transfer.Manifest.{TransferManifest}
use send_rs.Transfer.Hashing.{hash_loop, hash_file}
use send_rs.Transfer.Copy.{ManifestJson, copy_chunk, verify_chunk_at, save_manifest}
use send_rs.Transfer.Execute.{FileJob, create_parent, open_files}
use send_rs.Transfer.Execute.Watched.Aside.{
  bind-Sim, result-Sim, context-Sim, if-Sim, Blind, check-Blind, seek-Blind, open_read-Blind,
  read-Blind, read_exact-Blind, open_write-Blind, set_len-Blind, write_all-Blind, write-Blind,
  fuel-Blind,
}

module _ {H : Type 0} (b3 : Blake3 H) (aside : String) where
  hash_loop-Blind :
      (fuel : ℕ) (path : String) (cs pos : ℕ) (h : H) (hashes : List String)
      → aside ≢ path
      → Blind aside (hash_loop b3 fuel path cs pos h hashes)
  unfolding hash_loop
  hash_loop-Blind zero path cs pos h hashes ne = result-Sim (err diverged)
  hash_loop-Blind (suc fuel) path cs pos h hashes ne =
      bind-Sim (context-Sim "read file chunk" (read-Blind aside path ne pos cs)) (elim [
        | [] ↦ result-Sim _
        | b ∷ bs ↦ hash_loop-Blind fuel path cs (pos + length (b ∷ bs)) _ _ ne
      ])

  pub hash_file-Blind : (path : String) (cs : ℕ) → aside ≢ path → Blind aside (hash_file b3 path cs)
  unfolding hash_file
  hash_file-Blind path cs ne =
      bind-Sim (context-Sim ("open file " <> path) (open_read-Blind aside path ne))
        λ u. bind-Sim (fuel-Blind aside path ne) λ fuel. hash_loop-Blind fuel path cs 0 b3.new [] ne

  pub copy_chunk-Blind :
      (src dst : String) (offset n : ℕ) (expected : String)
      → aside ≢ src
      → aside ≢ dst
      → Blind aside (copy_chunk b3 src dst offset n expected)
  unfolding copy_chunk
  copy_chunk-Blind src dst offset n expected from to =
      bind-Sim (context-Sim "seek source offset" (seek-Blind aside offset)) λ start.
        bind-Sim (context-Sim "read source chunk" (read_exact-Blind aside src from start n)) λ buf.
          if-Sim (b3.hash buf == expected)
            (bind-Sim (context-Sim "seek target offset" (seek-Blind aside offset))
              λ start. context-Sim "write target chunk" (write_all-Blind aside dst to start buf))
            (result-Sim (err (message "source chunk hash mismatch")))

  pub verify_chunk_at-Blind :
      (file : String) (offset n : ℕ) (expected : String)
      → aside ≢ file
      → Blind aside (verify_chunk_at b3 file offset n expected)
  unfolding verify_chunk_at
  verify_chunk_at-Blind file offset n expected ne =
      bind-Sim (context-Sim "seek target for verify" (seek-Blind aside offset)) λ start.
        bind-Sim (context-Sim "read target chunk" (read_exact-Blind aside file ne start n))
          λ buf. result-Sim _

module _ (aside : String) where
  pub save_manifest-Blind :
      (json : ManifestJson) (path : String) (m : TransferManifest)
      → aside ≢ path
      → Blind aside (save_manifest json path m)
  unfolding save_manifest with_context
  save_manifest-Blind json path m ne = elim (Option-cases (json.to_string_pretty m)) [
    | inl e ↦ rw e (
        bind-Sim (result-Sim _)
          λ body. context-Sim "write manifest" (write-Blind aside path ne body))
    | inr (text, e) ↦ rw e (
        bind-Sim (result-Sim _)
          λ body. context-Sim "write manifest" (write-Blind aside path ne body))
  ]

  create_parent-Blind : (o : Option String) → Blind aside (create_parent o)
  unfolding create_parent
  create_parent-Blind none = result-Sim _
  create_parent-Blind (some dir) = context-Sim ("create dir " <> dir) (check-Blind aside)

  pub open_files-Blind :
      (file : FileJob) → aside ≢ file.src → aside ≢ file.dst → Blind aside (open_files file)
  unfolding open_files
  open_files-Blind file from to = bind-Sim (create_parent-Blind (parent file.dst)) λ u.
      bind-Sim (context-Sim _ (open_read-Blind aside file.src from)) λ u.
        bind-Sim (context-Sim _ (open_write-Blind aside file.dst to))
          λ u. context-Sim _ (set_len-Blind aside file.dst to file.entry_size)
