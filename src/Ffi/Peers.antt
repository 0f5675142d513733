-- ===== src/Ffi/Peers.antt =====
-- The peers behind the interface for other languages, crates/ffi/src/lib.rs.
use mathlib.Core.Logic.Or
use mathlib.Core.List.{Mem}
use send_rs.Prelude.{◌≡◌, ◌≢◌, Bool, false, String, none, some, List, All, ◌⊎◌}
use send_rs.Exec.{Exec, Error, Result, ok, err, to_string, put, ◌>>=◌}
use send_rs.Transfer.Manifest.{ℤ}
use send_rs.Task.{PeerInfo}
use send_rs.Trust.Identity.{LocalIdentity, load_or_create_identity}
use send_rs.Discovery.{from_identity}
use send_rs.Discovery.Sockets.{discover_peers}
use send_rs.Discovery.Snapshot.{Distinct}
use send_rs.Ffi.{Libraries, Runtime, on_sockets, other_peers}

-- A peer that is not the device, with no address twice.
abbrev pub IsOther : String → PeerInfo → Type 0
IsOther device_id peer = (peer.peer_id ≢ device_id) × Distinct peer.addresses

module _ {H C : Type 0} (lib : Libraries H C) (r : Runtime C) where
  -- What the discovery of a device asks the network.
  abbrev pub asked : LocalIdentity → Result (List PeerInfo)
  asked local =
      (discover_peers lib.discovery (from_identity lib.version local.identity 38080 false) 2000
        r.network).0

  -- The error of the step that failed: the identity could not be loaded or made, or it was, and the
  -- search for peers failed.
  abbrev pub IsReason : Error → Type 0
  IsReason e =
      ((load_or_create_identity lib.keys lib.data_dir none r.disk).0 ≡ err e)
      ⊎ ((local : LocalIdentity) × ((load_or_create_identity lib.keys lib.data_dir none r.disk).0
            ≡ ok local)
          × (asked local ≡ err e))

  -- How a discovery ended: with the peers that it found, or with an error and the peers from before.
  abbrev pub HasEnded : ℤ × Runtime C → Type 0
  HasEnded (code, t) =
      (t.tasks ≡ r.tasks)
      × (((code ≡ ℤ.pos 0)
            × (t.last_error ≡ none)
            × ((local : LocalIdentity) × (found : List PeerInfo) × ((load_or_create_identity
                    lib.keys lib.data_dir none r.disk).0
                  ≡ ok local)
                × (asked local ≡ ok found)
                × All (IsOther local.identity.device_id) t.peers
                × ((p : PeerInfo)
                    → Mem p found
                    → p.peer_id ≢ local.identity.device_id
                    → Mem p t.peers)))
          ⊎ ((code ≡ ℤ.negsuc 0)
              × (t.peers ≡ r.peers)
              × ((e : Error) × IsReason e × (t.last_error ≡ some (to_string e)))))

  keep_others : String → List PeerInfo → Exec (Runtime C) (Unit {0})
  keep_others device_id peers = put (λ s. record s { peers = other_peers device_id peers })

  -- The rest of the call, once the identity is known.
  discover : LocalIdentity → Exec (Runtime C) (Unit {0})
  unfolding keep_others
  discover local =
      on_sockets
        (discover_peers lib.discovery (from_identity lib.version local.identity 38080 false) 2000)
      >>= keep_others local.identity.device_id
