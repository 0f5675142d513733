-- ===== src/Trust/Tests.antt =====
-- Pairing at a concrete store, with a toy encoding that holds one store.
use Prim.Native.String.{◌++◌ as ◌<>◌}
use send_rs.Prelude.{◌≡◌, refl, true, String, none, some, [], ◌∷◌}
use send_rs.Paths.{join}
use send_rs.Trust.Identity.{IdentityLibrary, new_identity, load_or_create_identity}
use send_rs.Trust.Identity.Kept.{load_or_create_identity-again}
use send_rs.Exec.{ok, ◌>>=◌}
use send_rs.Disk.{Files, store}
use send_rs.Disk.Steady.{steady}
use send_rs.Discovery.{lookup, insert}
use send_rs.Trust.{
  TrustStore, TrustLibrary, trust_default, load_trust_store, pair_peer, is_peer_paired,
}
use send_rs.Trust.Pairing.{pair_peer-is_peer_paired}

abbrev paired : TrustStore
paired = record { peers = ("p", record { peer_id = "p"; code_hash = "1234"; paired_at = 7 }) ∷ [] }

abbrev lib : TrustLibrary
lib = record {
  to_string_pretty = λ st. some [];
  from_str = λ b. some paired;
  hash_code = λ code. code;
}

abbrev no_files : Files
no_files path = none

pair_peer-is_peer_paired_example :
    (is_peer_paired lib "/d" "p" "1234" (pair_peer lib "/d" 7 "p" "1234" (steady no_files)).1).0
    ≡ ok true
unfolding load_trust_store ◌>>=◌ insert lookup
pair_peer-is_peer_paired_example =
    pair_peer-is_peer_paired lib "/d" no_files 7 "p" "p" "1234" "1234" trust_default [] refl refl
      refl

-- Two calls with libraries that make other keys and ids.
abbrev keys : String → IdentityLibrary
keys id = record {
  to_string_pretty = λ local. some [];
  from_str = λ b. some (record {
    identity = record { device_id = "1"; display_name = "Alice"; public_key = "pub-1" };
    private_key_b64 = "priv-1";
    created_at = 0;
  });
  public_key_b64 = "pub-" <> id;
  private_key_b64 = "priv-" <> id;
  new_v4 = id;
  now = 0;
}

load_or_create_identity-again_example :
    (load_or_create_identity (keys "1") "/d" (some "Alice") (steady no_files) ≡ (
      ok (new_identity (keys "1") "/d" (some "Alice")),
      steady (store "/d/identity.json" [] no_files),
    ))
    × (load_or_create_identity (keys "2") "/d" none (steady (store "/d/identity.json" [] no_files))
        ≡ (
          ok (new_identity (keys "1") "/d" (some "Alice")),
          steady (store "/d/identity.json" [] no_files),
        ))
unfolding join
load_or_create_identity-again_example =
    load_or_create_identity-again (keys "1") (keys "2") "/d" no_files
      (store "/d/identity.json" [] no_files) (some "Alice") none [] refl refl refl refl
