-- ===== src/Transfer/Copy/Calls.antt =====
-- What the copying of one chunk, its verification and the saving of a manifest may change.
use send_rs.Prelude.{ℕ, refl, ◌∙◌, String, Option, none, some, ◌==◌}
use send_rs.Exec.Rules.{returned, failed, bind_context-After, context-After, if-After, After-mono}
use send_rs.Disk.{Bytes, Disk, seek, read_exact, write_all, write}
use send_rs.Disk.Calls.{
  Frame-same, Frame-trans, Keeps, Touches, seek-After, read_exact-After, write_all-Touches,
  write-Touches,
}
use send_rs.Blake3.{Blake3}
use send_rs.Transfer.Manifest.{TransferManifest}
use send_rs.Transfer.Copy.{ManifestJson, copy_chunk, verify_chunk_at, save_manifest, or_error}

module _ {H : Type 0} (b3 : Blake3 H) where
  -- `copy_chunk` changes no file but its target, whether it returns or fails.
  pub copy_chunk-Touches :
      (src dst : String) (offset len : ℕ) (expected : String) (d : Disk)
      → Touches dst d (copy_chunk b3 src dst offset len expected d)
  unfolding copy_chunk
  copy_chunk-Touches src dst offset len expected d =
      bind_context-After "seek source offset" (seek offset) _ d (seek-After d offset)
        (λ x e h. (h.0, Frame-same dst h.1))
        λ start e h.
          bind_context-After "read source chunk" (read_exact src start len) _ e
            (read_exact-After e src start len) (λ x f k. (k.0, Frame-same dst (k.1 ∙ h.1)))
            λ buf f k.
              if-After (b3.hash buf == expected) _ _ f
                (λ t.
                  bind_context-After "seek target offset" (seek offset) _ f (seek-After f offset)
                    (λ x g l. (l.0, Frame-same dst (l.1 ∙ k.2 ∙ h.1)))
                    λ start' g l.
                      context-After "write target chunk" (write_all dst start' buf) g
                        (After-mono (write_all-Touches g dst start' buf)
                          (λ u w touched.
                            Frame-trans dst (Frame-same dst (l.1 ∙ k.2 ∙ h.1)) touched)
                          (λ x w touched. (
                            touched.0,
                            Frame-trans dst (Frame-same dst (l.1 ∙ k.2 ∙ h.1)) touched.1,
                          )))
                        (λ x w touched. touched))
                (λ t. failed _ _ (tt, Frame-same dst (k.2 ∙ h.1)))

  pub verify_chunk_at-Keeps :
      (file : String) (offset len : ℕ) (expected : String) (d : Disk)
      → Keeps d (verify_chunk_at b3 file offset len expected d)
  unfolding verify_chunk_at
  verify_chunk_at-Keeps file offset len expected d =
      bind_context-After "seek target for verify" (seek offset) _ d (seek-After d offset)
        (λ x e h. h)
        λ start e h.
          bind_context-After "read target chunk" (read_exact file start len) _ e
            (read_exact-After e file start len) (λ x f k. (k.0, k.1 ∙ h.1))
            λ buf f k. returned _ _ (k.2 ∙ h.1)

module _ (json : ManifestJson) where
  -- `save_manifest` writes its own file at most.
  pub save_manifest-Touches :
      (path : String) (manifest : TransferManifest) (d : Disk)
      → Touches path d (save_manifest json path manifest d)
  unfolding save_manifest
  save_manifest-Touches path manifest d =
      bind_context-After "serialize manifest" (or_error "json" (json.to_string_pretty manifest)) _ d
        (serialized (json.to_string_pretty manifest)) (λ x e h. (h.0, Frame-same path h.1))
        λ body e h.
          context-After "write manifest" (write path body) e
            (After-mono (write-Touches e path body)
              (λ u w touched. Frame-trans path (Frame-same path h) touched)
              (λ x w touched. (touched.0, Frame-trans path (Frame-same path h) touched.1)))
            (λ x w touched. touched)
    where
      serialized : (o : Option Bytes) → Keeps d (or_error "json" o d)
      serialized none = failed _ _ (tt, refl)
      serialized (some body) = returned _ _ refl
