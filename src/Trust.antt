-- ===== src/Trust.antt =====
-- The trust store of crates/security/src/lib.rs, on the disk of the model. The data directory is
-- known, the clock and the JSON of the store are parameters; the order of a `HashMap` plays no
-- part, so it is the list of its entries, each key once.
pub mod Pairing
pub mod Identity
pub mod Keys
mod Tests
use send_rs.Prelude.{
  Bool, true, false, ℕ, String, Option, none, some, List, [], ◌∷◌, ◌==◌, if◌then◌else◌,
}
use send_rs.Exec.{
  Exec, Error, Result, ok, err, message, pure, raise, gets, with_context, ◌>>=◌, ◌>>◌,
}
use send_rs.Disk.{Bytes, Disk, exists, check, read_to_string, write}
use send_rs.Paths.{join}
use send_rs.Discovery.{lookup, insert}

pub record PairedPeer : Type 0 where
  pub peer_id : String
  pub code_hash : String
  pub paired_at : ℕ

pub record TrustStore : Type 0 where
  pub peers : List (String × PairedPeer)

-- `serde_json` on the store, and blake3 on the bytes of a code, in hexadecimal.
pub record TrustLibrary : Type 0 where
  pub to_string_pretty : TrustStore → Option Bytes
  pub from_str : Bytes → Option TrustStore
  pub hash_code : String → String

abbrev pub trust_file : String
trust_file = "trusted_peers.json"

abbrev pub trust_default : TrustStore
trust_default = record { peers = [] }

abbrev pub parsed : {A : Type 0} → Option A → Exec Disk A
parsed none d = raise (message "JSON error") d
parsed (some a) d = pure a d

module _ (lib : TrustLibrary) (data_dir : String) where
  abbrev pub trust_path : String
  trust_path = join data_dir trust_file

  unfoldable pub save_json : TrustStore → Exec Disk (Unit {0})
  save_json store = do
    body ← with_context "serialize json" (parsed (lib.to_string_pretty store))
    with_context "write json file" (write trust_path body)

  unfoldable pub load_trust_store : Exec Disk TrustStore
  load_trust_store = do
    there ← gets (λ d. exists d.files trust_path)
    if there
        then (do
          content ← with_context "read trust store" (read_to_string trust_path)
          with_context "parse trust store" (parsed (lib.from_str content)))
        else pure trust_default

  abbrev pub new_pair : ℕ → String → String → PairedPeer
  new_pair now peer_id short_code = record {
    peer_id = peer_id;
    code_hash = lib.hash_code short_code;
    paired_at = now;
  }

  -- The store is read the way `load_trust_store` reads it.
  unfoldable pub pair_peer : ℕ → String → String → Exec Disk PairedPeer
  unfolding save_json load_trust_store
  pair_peer now peer_id short_code = do
    with_context "create app data dir" check
    store ← load_trust_store
    save_json (record { peers = insert peer_id (new_pair now peer_id short_code) store.peers })
    pure (new_pair now peer_id short_code)

  abbrev pub code_matches : String → Option PairedPeer → Bool
  code_matches short_code none = false
  code_matches short_code (some peer) = peer.code_hash == lib.hash_code short_code

  unfoldable pub is_peer_paired : String → String → Exec Disk Bool
  unfolding load_trust_store
  is_peer_paired peer_id short_code = do
    store ← load_trust_store
    pure (code_matches short_code (lookup peer_id store.peers))
