-- ===== src/Blake3.antt =====
-- The interface of the blake3 library, as the crates use it: digests in hexadecimal.
use send_rs.Prelude.{◌≡◌, String, List}
use mathlib.Core.List.{foldl, flatten}
use send_rs.Disk.{Bytes}

-- `hash` is `blake3::hash(..).to_hex()`; the others are `Hasher::new`, `update` and
-- `finalize().to_hex()`.
pub record Blake3 (H : Type 0) : Type 0 where
  pub hash : Bytes → String
  pub new : H
  pub update : H → Bytes → H
  pub finalize : H → String

-- Hashing piece by piece is hashing the pieces together, as blake3 documents.
pub record IsStreaming {H : Type 0} (b3 : Blake3 H) : Type 0 where
  pub streams :
      (parts : List Bytes) → b3.finalize (foldl b3.update b3.new parts) ≡ b3.hash (flatten parts)
