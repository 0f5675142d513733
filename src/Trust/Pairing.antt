-- ===== src/Trust/Pairing.antt =====
-- Pairing a peer and asking for it, crates/security/src/lib.rs.
use send_rs.Prelude.{
  Bool, true, false, ℕ, String, Option, none, some, ◌==◌, if◌then◌else◌, ◌≡◌, refl, ap, ◌∙◌,
  eq_refl,
}
use send_rs.Exec.{Result, ok, with_context, ◌>>=◌}
use send_rs.Disk.{Files, Bytes, store, read_to_string, write, check}
use send_rs.Disk.Steady.{steady}
use send_rs.Discovery.{lookup, insert}
use send_rs.Discovery.Table.{lookup-insert}
use send_rs.Trust.{
  TrustStore, TrustLibrary, trust_path, parsed, save_json, load_trust_store, new_pair, pair_peer,
  code_matches, is_peer_paired,
}

module _ (lib : TrustLibrary) (dir : String) (fs : Files) where
  abbrev path : String
  path = trust_path lib dir

  read-steady :
      (bytes : Bytes)
      → fs path ≡ some bytes
      → read_to_string path (steady fs) ≡ (ok bytes, steady fs)
  unfolding read_to_string
  read-steady bytes h = rw h refl

  -- A store file is read and parsed.
  load-some :
      (bytes : Bytes)
      → fs path ≡ some bytes
      → load_trust_store lib dir (steady fs)
        ≡ with_context "parse trust store" (parsed (lib.from_str bytes)) (steady fs)
  unfolding load_trust_store ◌>>=◌ with_context
  load-some bytes h = rw (h, read-steady bytes h) refl

  loaded : (o : Option Bytes) → fs path ≡ o → (load_trust_store lib dir (steady fs)).1 ≡ steady fs
  unfolding load_trust_store ◌>>=◌ with_context
  loaded none h = rw h refl
  loaded (some bytes) h = ap (λ x. x.1) (load-some bytes h) ∙ parse (lib.from_str bytes)
    where
      parse :
          (p : Option TrustStore)
          → (with_context "parse trust store" (parsed p) (steady fs)).1 ≡ steady fs
      parse none = refl
      parse (some st) = refl

  load-pair :
      (st : TrustStore)
      → (load_trust_store lib dir (steady fs)).0 ≡ ok st
      → load_trust_store lib dir (steady fs) ≡ (ok st, steady fs)
  load-pair st h = λ i. (h i, loaded (fs path) refl i)

  pair-steady :
      (now : ℕ) (p code : String) (st : TrustStore) (body : Bytes)
      → (load_trust_store lib dir (steady fs)).0 ≡ ok st
      → lib.to_string_pretty (record { peers = insert p (new_pair lib dir now p code) st.peers })
        ≡ some body
      → pair_peer lib dir now p code (steady fs)
        ≡ (ok (new_pair lib dir now p code), steady (store path body fs))
  unfolding pair_peer save_json ◌>>=◌ with_context check write
  pair-steady now p code st body h w = rw (load-pair st h, w) refl

-- A store that was written, and that the library reads back, is loaded.
load-written :
    (lib : TrustLibrary) (dir : String) (fs : Files) (st : TrustStore) (body : Bytes)
    → lib.from_str body ≡ some st
    → load_trust_store lib dir (steady (store (trust_path lib dir) body fs))
      ≡ (ok st, steady (store (trust_path lib dir) body fs))
unfolding with_context
load-written lib dir fs st body h =
    load-some lib dir (store (trust_path lib dir) body fs) body
      (stored (eq_refl (trust_path lib dir)))
    ∙ rw h refl
  where
    stored :
        (trust_path lib dir == trust_path lib dir) ≡ true
        → store (trust_path lib dir) body fs (trust_path lib dir) ≡ some body
    stored e = rw e refl

-- On a disk that lets every call succeed, with a trust store that loads and a library that writes
-- and reads back the new store: after a peer is paired with a code, asking for that peer compares
-- the hashes of the codes, and the answer for every other peer is the one the old store gives.
pub pair_peer-is_peer_paired :
    (lib : TrustLibrary) (dir : String) (fs : Files) (now : ℕ) (p q code other : String)
    (st : TrustStore) (body : Bytes)
    → (load_trust_store lib dir (steady fs)).0 ≡ ok st
    → lib.to_string_pretty (record { peers = insert p (new_pair lib dir now p code) st.peers })
      ≡ some body
    → lib.from_str body ≡ some (record { peers = insert p (new_pair lib dir now p code) st.peers })
    → (is_peer_paired lib dir q other (pair_peer lib dir now p code (steady fs)).1).0
      ≡ ok (
          if p == q
          then lib.hash_code code == lib.hash_code other
          else code_matches lib dir other (lookup q st.peers))
unfolding is_peer_paired ◌>>=◌
pair_peer-is_peer_paired lib dir fs now p q code other st body h w r =
    rw (pair-steady lib dir fs now p code st body h w) (
      rw (load-written lib dir fs _ body r)
        (rw (lookup-insert p q (new_pair lib dir now p code) st.peers) (found (p == q))))
  where
    found :
        (b : Bool)
        → Result.ok (
            code_matches lib dir other
              (if b then some (new_pair lib dir now p code) else lookup q st.peers))
          ≡ ok (
              if b
              then lib.hash_code code == lib.hash_code other
              else code_matches lib dir other (lookup q st.peers))
    found true = refl
    found false = refl
