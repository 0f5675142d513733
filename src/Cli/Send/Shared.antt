-- ===== src/Cli/Send/Shared.antt =====
-- What `cmd_send` of crates/cli/src/main.rs has made when its loop begins: a receiver that types the
-- code finds the offer.
use Prim.Native.String.{◌++◌ as ◌<>◌}
use send_rs.Prelude.{
  ℕ, ◌+◌, ◌≡◌, ◌≢◌, refl, ap, sym, ◌∙◌, subst, Bool, true, ◌||◌, String, Option, none, some, [],
  ◌∷◌, ◌++◌,
}
use send_rs.Exec.{ok, with_context, ◌>>=◌}
use send_rs.Blake3.{Blake3}
use send_rs.Disk.{Bytes, Files, exists, store, write}
use send_rs.Disk.Laws.{store_self, store_ne}
use send_rs.Disk.Steady.{steady, check-steady}
use send_rs.Paths.{join}
use send_rs.Transfer.Manifest.{TransferManifest, total_size, default_chunk_size}
use send_rs.Transfer.Hashing.{Surroundings, build_manifest}
use send_rs.Transfer.Copy.{save_manifest}
use send_rs.Trust.Identity.{LocalIdentity, IdentityLibrary, load_or_create_identity}
use send_rs.Lan.Label.{Machine, local_device_label}
use send_rs.Cli.{Json, Host, World, SendOffer, on_files, now, println}
use send_rs.Cli.Paths.{normalize_code, offers_root, offer_path, manifest_path_by_code, state_path}
use send_rs.Cli.Send.{serve_rounds}
use send_rs.Cli.Session.{read_json, write_state}
use send_rs.Cli.Session.Laws.{write_json-steady, read_json-steady}
use send_rs.Cli.Send.Share.{Share, generate_code, announcement, share, cmd_send}

-- A library that writes every value.
abbrev pub Writes : {A : Type 0} → Json A → Type 0
Writes {A} json = (a : A) → (body : Bytes) × (json.to_string_pretty a ≡ some body)

pub save_manifest-steady :
    (host : Host) (path : String) (m : TransferManifest) (body : Bytes) (fs : Files)
    → host.manifests.to_string_pretty m ≡ some body
    → save_manifest host.manifests path m (steady fs) ≡ (ok tt, steady (store path body fs))
unfolding save_manifest with_context ◌>>=◌ write
save_manifest-steady host path m body fs writes = rw writes refl

pub write_state-steady :
    (host : Host) (writes : Writes host.states) (code : String) (id : Option String)
    (state text : String) (bytes_done bytes_total : ℕ) (fs : Files) (w : World)
    → w.disk ≡ steady fs
    → (body : Bytes) × (write_state host code id state text bytes_done bytes_total w ≡ (
      ok tt,
      record w { disk = steady (store (state_path host code) body fs); ticks = w.ticks + 1 },
    ))
unfolding write_state now on_files ◌>>=◌
write_state-steady host writes code id state text bytes_done bytes_total fs w calm =
    let written = writes (record {
      claim_id = id;
      state = state;
      message = text;
      bytes_done = bytes_done;
      bytes_total = bytes_total;
      updated_at = host.time w.ticks;
    }) in
    (
      written.0,
      rw (calm, write_json-steady host.states (state_path host code) fs _ written.0 written.1) refl,
    )

-- Codes that normalize to one code have one offer.
same_path :
    (host : Host) (typed code : String)
    → normalize_code host typed ≡ normalize_code host code
    → offer_path host typed ≡ offer_path host code
unfolding offer_path
same_path host typed code same = ap (λ c. join (offers_root host) (c <> ".json")) same

module _ {H : Type 0} (b3 : Blake3 H) (host : Host) (keys : IdentityLibrary) (os : Surroundings)
    (machine : Machine) (is_dir : String → Bool) (simple path : String) (public : Bool)
    (fs later : Files) (w : World) (local : LocalIdentity) (m : TransferManifest)
    (source : String) where
  abbrev code : String
  code = generate_code host simple

  -- The offer that is written.
  abbrev pub made : SendOffer
  made = record {
    code = code;
    sender_id = local.identity.device_id;
    sender_name = local_device_label machine;
    source_path = source;
    manifest_path = manifest_path_by_code host code;
    public_enabled = public;
    created_at = host.time w.ticks;
  }

  -- A share whose offer a receiver finds by what the user types.
  abbrev pub IsFound : String → Share → World → Type 0
  IsFound typed shared t =
      (shared.manifest ≡ m)
      × (shared.offer ≡ made)
      × (shared.announce.code ≡ made.code)
      × (shared.announce.owner_peer_id ≡ made.sender_id)
      × (read_json host.offers (offer_path host (normalize_code host typed)) t.disk
          ≡ (ok made, t.disk))

  -- The share itself, after the check that the path is there.
  share-IsFound :
      (typed : String) (body offer_body : Bytes)
      → load_or_create_identity keys host.data_root none (steady fs) ≡ (ok local, steady later)
      → build_manifest b3 os path default_chunk_size (steady later) ≡ (ok m, steady later)
      → host.canonicalize path ≡ some source
      → host.manifests.to_string_pretty m ≡ some body
      → Writes host.states
      → host.offers.to_string_pretty made ≡ some offer_body
      → host.offers.from_str offer_body ≡ some made
      → state_path host code ≢ offer_path host code
      → normalize_code host (normalize_code host typed) ≡ normalize_code host code
      → (shared : Share) × (t : World) × (share b3 host keys os machine is_dir simple path public
            (record w { disk = steady fs })
          ≡ (ok shared, t))
        × IsFound typed shared t
  unfolding share announcement on_files with_context now println ◌>>=◌
  share-IsFound typed body offer_body known built resolved saves states writes reads apart same =
      let saved = store (manifest_path_by_code host code) body later in
      let offered = store (offer_path host code) offer_body saved in
      let (state_body, states_written) =
        write_state-steady host states code none "waiting_receiver" "waiting receiver to enter code"
          0 (total_size m) offered (record w { disk = steady offered; ticks = w.ticks + 1 }) refl in
      let final = store (state_path host code) state_body offered in
      let there : final (offer_path host code) ≡ some offer_body =
        store_ne (state_path host code) (offer_path host code) state_body offered apart
        ∙ store_self (offer_path host code) offer_body saved in
      let path_of : offer_path host (normalize_code host typed) ≡ offer_path host code =
        same_path host (normalize_code host typed) code same in
      (
        record {
          manifest = m;
          offer = made;
          announce =
              announcement code local.identity.device_id (local_device_label machine) path
                (is_dir path) (total_size m) public (host.time (w.ticks + 1 + 1));
        },
        record w {
          disk = steady final;
          ticks = w.ticks + 1 + 1 + 1;
          printed =
              (w.printed ++ ("Send code: " <> code) ∷ [])
              ++ "Waiting for receiver... (command will keep running, Ctrl+C to stop)" ∷ [];
        },
        rw
            (
              known,
              built,
              check-steady later,
              check-steady later,
              check-steady later,
              save_manifest-steady host (manifest_path_by_code host code) m body later saves,
              resolved,
              write_json-steady host.offers (offer_path host code) saved made offer_body writes,
              states_written,
            )
            refl,
        (
          refl,
          refl,
          refl,
          refl,
          subst (λ p. read_json host.offers p (steady final) ≡ (ok made, steady final))
              (sym path_of)
              (read_json-steady host.offers (offer_path host code) final made offer_body there
                reads),
        ),
      )

  -- On a disk where every call succeeds, where the path is a file or a folder: the identity can be
  -- loaded or made, the manifest of the path is built, the path can be made canonical, the manifest and
  -- every state can be written, the library reads back the offer that it wrote, and the state and the
  -- offer are different files. Then `cmd_send` reaches its loop with that manifest and that offer, and
  -- goes on as the loop does. The announcement has the code and the sender of the offer, and a receiver
  -- that is given a code which normalizes to the same one reads this offer.
  pub cmd_send-IsFound :
      (typed : String) (rounds : ℕ) (body offer_body : Bytes)
      → (exists fs path || is_dir path) ≡ true
      → load_or_create_identity keys host.data_root none (steady fs) ≡ (ok local, steady later)
      → build_manifest b3 os path default_chunk_size (steady later) ≡ (ok m, steady later)
      → host.canonicalize path ≡ some source
      → host.manifests.to_string_pretty m ≡ some body
      → Writes host.states
      → host.offers.to_string_pretty made ≡ some offer_body
      → host.offers.from_str offer_body ≡ some made
      → state_path host code ≢ offer_path host code
      → normalize_code host (normalize_code host typed) ≡ normalize_code host code
      → (shared : Share) × (t : World) × (share b3 host keys os machine is_dir simple path public
            (record w { disk = steady fs })
          ≡ (ok shared, t))
        × (cmd_send b3 host keys os machine is_dir simple rounds path public
              (record w { disk = steady fs })
            ≡ serve_rounds b3 host made (total_size m) rounds m t)
        × IsFound typed shared t
  unfolding cmd_send ◌>>=◌
  cmd_send-IsFound typed rounds body offer_body there known built resolved saves states writes reads
        apart same =
      let (shared, t, made_by, found) =
        share-IsFound typed body offer_body known built resolved saves states writes reads apart
          same in
      (shared, t, made_by, rw (there, made_by, found.0, found.1) refl, found)
