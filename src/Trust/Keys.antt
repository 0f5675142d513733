-- ===== src/Trust/Keys.antt =====
-- The checks on keys, `short_code_from_public_key` and `verify_peer_key` of
-- crates/security/src/lib.rs. Base64, the hash in hexadecimal and the curve come from libraries;
-- the hexadecimal text is ASCII, so its first characters are its first bytes.
use Prim.Native.String.{slice}
use send_rs.Prelude.{String, Option, none, some, length, nat_eq, if◌then◌else◌}
use send_rs.Exec.{Result, ok, err, message, system, context}
use send_rs.Disk.{Bytes}

pub record KeyLibrary (K : Type 0) : Type 0 where
  pub hash_hex : String → String
  pub to_uppercase : String → String
  pub decode : String → Option Bytes
  -- A key of 32 bytes, where they are a point of the curve.
  pub from_bytes : Bytes → Option K

module _ {K : Type 0} (lib : KeyLibrary K) where
  unfoldable pub short_code_from_public_key : String → String
  short_code_from_public_key public_key_b64 =
      lib.to_uppercase (slice (lib.hash_hex public_key_b64) 0 6)

  parsed_key : Option K → Result K
  parsed_key none = err (context "parse public key" (system "signature"))
  parsed_key (some key) = ok key

  decoded_key : Option Bytes → Result K
  decoded_key none = err (context "decode public key" (system "base64"))
  decoded_key (some bytes) =
      if nat_eq (length bytes) 32
      then parsed_key (lib.from_bytes bytes)
      else err (message "invalid public key length")

  unfoldable pub verify_peer_key : String → Result K
  unfolding parsed_key decoded_key
  verify_peer_key public_key_b64 = decoded_key (lib.decode public_key_b64)
