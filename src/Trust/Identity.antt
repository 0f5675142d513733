-- ===== src/Trust/Identity.antt =====
-- The identity of this device, `load_or_create_identity` of crates/security/src/lib.rs. Key
-- generation, base64, the JSON of the record, the clock and the UUID come from libraries.
pub mod Kept
use Prim.Native.String.{◌++◌ as ◌<>◌}
use send_rs.Prelude.{ℕ, String, Option, none, some, if◌then◌else◌}
use send_rs.Exec.{Exec, pure, gets, with_context, ◌>>=◌, ◌>>◌}
use send_rs.Disk.{Bytes, Disk, exists, check, read_to_string, write}
use send_rs.Paths.{join}
use send_rs.Task.{DeviceIdentity}
use send_rs.Trust.{parsed}

pub record LocalIdentity : Type 0 where
  pub identity : DeviceIdentity
  pub private_key_b64 : String
  pub created_at : ℕ

-- A fresh key pair is in base64 already.
pub record IdentityLibrary : Type 0 where
  pub to_string_pretty : LocalIdentity → Option Bytes
  pub from_str : Bytes → Option LocalIdentity
  pub public_key_b64 : String
  pub private_key_b64 : String
  pub new_v4 : String
  pub now : ℕ

abbrev pub unwrap_or : String → Option String → String
unwrap_or fallback none = fallback
unwrap_or fallback (some name) = name

-- `APP_DIR`
abbrev pub app_dir : String
app_dir = "sendrs"

-- The argument is the home folder, where there is one.
unfoldable pub default_data_dir : Option String → String
default_data_dir home = join (unwrap_or "." home) ("." <> app_dir)

module _ (lib : IdentityLibrary) (data_dir : String) where
  abbrev pub identity_path : String
  identity_path = join data_dir "identity.json"

  unfoldable pub load_identity : String → Exec Disk LocalIdentity
  load_identity path = do
    content ← with_context "read identity file" (read_to_string path)
    with_context "parse identity file" (parsed (lib.from_str content))

  abbrev pub new_identity : Option String → LocalIdentity
  new_identity display_name = record {
    identity = record {
      device_id = lib.new_v4;
      display_name = unwrap_or "sendrs-device" display_name;
      public_key = lib.public_key_b64;
    };
    private_key_b64 = lib.private_key_b64;
    created_at = lib.now;
  }

  unfoldable pub save_identity : LocalIdentity → Exec Disk (Unit {0})
  save_identity local = do
    body ← with_context "serialize json" (parsed (lib.to_string_pretty local))
    with_context "write json file" (write identity_path body)

  unfoldable pub load_or_create_identity : Option String → Exec Disk LocalIdentity
  unfolding load_identity save_identity
  load_or_create_identity display_name = do
    with_context "create app data dir" check
    there ← gets (λ d. exists d.files identity_path)
    if there
        then load_identity identity_path
        else (do save_identity (new_identity display_name); pure (new_identity display_name))
