-- ===== src/Ffi.antt =====
-- The interface for other languages, crates/ffi/src/lib.rs: the global state behind its mutex, and
-- the functions that the app calls.
pub mod Tasks
pub mod Peers
mod Tests
use send_rs.Prelude.{
  ℕ, zero, suc, ◌+◌, Bool, true, false, not, String, Option, none, some, List, [], ◌∷◌, ◌++◌,
  nat_eq, ◌==◌, if◌then◌else◌,
}
use send_rs.Exec.{
  Exec, Error, Result, ok, err, message, to_string, pure, raise, gets, put, with_context, ◌>>=◌,
  ◌>>◌,
}
use send_rs.Disk.{Disk, check}
use send_rs.Blake3.{Blake3}
use send_rs.Transfer.Manifest.{ℤ, TransferManifest, total_size, default_chunk_size}
use send_rs.Transfer.Hashing.{Surroundings, build_manifest}
use send_rs.Task.{PeerInfo, NetworkMode, TransferTask, new_send, accept_receive}
use send_rs.Trust.{TrustLibrary, pair_peer}
use send_rs.Trust.Identity.{IdentityLibrary, load_or_create_identity}
use send_rs.Discovery.{DiscoveryJson, from_identity}
use send_rs.Discovery.Sockets.{Network, discover_peers}
use send_rs.Chat.{
  ChatDirection, ChatMessage, Sqlite, ChatLibrary, open_store, append_message, list_messages,
}

-- `*const c_char`: null, bytes that are not UTF-8, or a text.
pub data CStr : Type 0 where
  null : CStr
  invalid : CStr
  text : String → CStr

-- The libraries and the machine: serde_json on a value followed by `CString::new`, the home
-- directory, the clock and fresh ids at a count of the calls, and rusqlite on connections `C`.
pub record Libraries (H C : Type 0) : Type 0 where
  pub b3 : Blake3 H
  pub os : Surroundings
  pub trust : TrustLibrary
  pub keys : IdentityLibrary
  pub sql : Sqlite C
  pub chat : ChatLibrary
  pub discovery : DiscoveryJson
  pub version : String
  pub data_dir : String
  pub peers_json : List PeerInfo → Result String
  pub task_json : TransferTask → Result String
  pub tasks_json : List TransferTask → Result String
  pub messages_json : List ChatMessage → Result String
  pub text_json : String → Result String
  pub time : ℕ → ℕ
  pub uuid : ℕ → String

-- `RuntimeState`, and what the functions reach beside it.
pub record Runtime (C : Type 0) : Type 0 where
  pub peers : List PeerInfo
  pub tasks : List TransferTask
  pub last_error : Option String
  pub disk : Disk
  pub network : Network
  pub connection : C
  pub ticks : ℕ

module _ {C : Type 0} where
  unfoldable pub on_disk : {A : Type 0} → Exec Disk A → Exec (Runtime C) A
  on_disk m r = let (a, d) = m r.disk in (a, record r { disk = d })

  unfoldable pub on_sockets : {A : Type 0} → Exec Network A → Exec (Runtime C) A
  on_sockets m r = let (a, n) = m r.network in (a, record r { network = n })

  unfoldable pub on_connection : {A : Type 0} → Exec C A → Exec (Runtime C) A
  on_connection m r = let (a, c) = m r.connection in (a, record r { connection = c })

  -- One call of the clock or of the source of ids.
  unfoldable pub tick : Exec (Runtime C) ℕ
  tick r = (ok r.ticks, record r { ticks = r.ticks + 1 })

  unfoldable pub read_cstr : CStr → Exec (Runtime C) String
  read_cstr null = raise (message "received null pointer")
  read_cstr invalid = raise (message "invalid UTF-8 input")
  read_cstr (text s) = pure s

  pub returned_code : Result (Unit {0}) × Runtime C → ℤ × Runtime C
  returned_code (ok u, r) = (ℤ.pos 0, record r { last_error = none })
  returned_code (err e, r) = (ℤ.negsuc 0, record r { last_error = some (to_string e) })

  -- The code that C gets: 0, or -1.
  unfoldable pub with_result : Exec (Runtime C) (Unit {0}) → Runtime C → ℤ × Runtime C
  unfolding returned_code
  with_result f r = returned_code (f r)

  returned_text : Result String × Runtime C → Option String × Runtime C
  returned_text (ok s, r) = (some s, record r { last_error = none })
  returned_text (err e, r) = (none, record r { last_error = some (to_string e) })

  serialized : {A : Type 0} → (A → Result String) → Result A × Runtime C → Result String × Runtime C
  serialized json (ok a, r) = (json a, r)
  serialized json (err e, r) = (err e, r)

  -- The text that C gets, or the null pointer.
  unfoldable pub with_json :
      {A : Type 0}
      → (A → Result String)
      → Exec (Runtime C) A
      → Runtime C
      → Option String × Runtime C
  unfolding returned_text serialized
  with_json json f r = returned_text (serialized json (f r))

-- The peers but for this device.
unfoldable pub other_peers : String → List PeerInfo → List PeerInfo
other_peers device_id [] = []
other_peers device_id (peer ∷ peers) =
    if peer.peer_id == device_id
    then other_peers device_id peers
    else peer ∷ other_peers device_id peers

put_before : TransferTask → Option (List TransferTask) → Option (List TransferTask)
put_before task none = none
put_before task (some tasks) = some (task ∷ tasks)

-- `iter_mut().find(..)`, and the change to the task found: `none` where there is none.
unfoldable pub find_and_accept :
    ℕ → String → String → List TransferTask → Option (List TransferTask)
unfolding put_before
find_and_accept now request_id target [] = none
find_and_accept now request_id target (task ∷ tasks) =
    if task.task_id == request_id
    then some (accept_receive now target task ∷ tasks)
    else put_before task (find_and_accept now request_id target tasks)

-- `public_mode == 0` on an `i32`
abbrev mode_of : ℤ → NetworkMode
mode_of (ℤ.pos zero) = NetworkMode.lan
mode_of (ℤ.pos (suc n)) = NetworkMode.public
mode_of (ℤ.negsuc n) = NetworkMode.public

module _ {H C : Type 0} (lib : Libraries H C) where
  -- The timeout is two seconds.
  unfoldable pub start_discovery : Runtime C → ℤ × Runtime C
  unfolding other_peers
  start_discovery = with_result (do
    local ← on_disk (load_or_create_identity lib.keys lib.data_dir none)
    peers ←
        on_sockets
          (discover_peers lib.discovery (from_identity lib.version local.identity 38080 false) 2000)
    put (λ r. record r { peers = other_peers local.identity.device_id peers }))

  unfoldable pub list_peers : Runtime C → Option String × Runtime C
  list_peers = with_json lib.peers_json (gets (λ r. r.peers))

  unfoldable pub pair : CStr → CStr → Runtime C → ℤ × Runtime C
  pair peer_id code = with_result (do
    peer_id ← read_cstr peer_id
    code ← read_cstr code
    now ← tick
    on_disk (pair_peer lib.trust lib.data_dir (lib.time now) peer_id code)
    pure tt)

  -- The task that `send_path` makes.
  unfoldable pub new_task : CStr → CStr → ℤ → Exec (Runtime C) TransferTask
  new_task peer_id path public_mode = do
    peer_id ← read_cstr peer_id
    path ← read_cstr path
    manifest ← on_disk (build_manifest lib.b3 lib.os path default_chunk_size)
    now ← tick
    let task =
        new_send (lib.uuid now) (lib.time now) peer_id path (mode_of public_mode)
          (total_size manifest)
    put (λ r. record r { tasks = r.tasks ++ task ∷ [] })
    pure task

  unfoldable pub send_path : CStr → CStr → ℤ → Runtime C → Option String × Runtime C
  unfolding new_task
  send_path peer_id path public_mode = with_json lib.task_json (new_task peer_id path public_mode)

  accepted : Option (List TransferTask) → Exec (Runtime C) (Unit {0})
  accepted none = raise (message "task not found")
  accepted (some tasks) = put (λ r. record r { tasks = tasks; ticks = r.ticks + 1 })

  unfoldable pub accept_transfer : CStr → CStr → Runtime C → ℤ × Runtime C
  unfolding find_and_accept accepted
  accept_transfer request_id target = with_result (do
    request_id ← read_cstr request_id
    target ← read_cstr target
    found ← gets (λ r. find_and_accept (lib.time r.ticks) request_id target r.tasks)
    accepted found)

  unfoldable pub list_tasks : Runtime C → Option String × Runtime C
  list_tasks = with_json lib.tasks_json (gets (λ r. r.tasks))

  -- `ChatStore::open_default`
  unfoldable pub open_default : Exec (Runtime C) (Unit {0})
  open_default = do
    on_disk (with_context "create data dir" check)
    on_connection (open_store lib.sql)

  unfoldable pub send_chat : CStr → CStr → Runtime C → ℤ × Runtime C
  send_chat peer_id body = with_result (do
    peer_id ← read_cstr peer_id
    body ← read_cstr body
    open_default
    now ← tick
    on_connection
        (append_message lib.sql lib.chat (lib.time now) peer_id ChatDirection.outgoing body)
    pure tt)

  unfoldable pub list_chat_messages : CStr → Runtime C → Option String × Runtime C
  list_chat_messages peer_id = with_json lib.messages_json (do
    peer_id ← read_cstr peer_id
    open_default
    now ← tick
    on_connection (list_messages lib.sql lib.chat (lib.time now) peer_id 200))

  error_text : Option String → String
  error_text none = ""
  error_text (some e) = e

  unfoldable pub last_error_message : Runtime C → Option String × Runtime C
  unfolding error_text
  last_error_message = with_json lib.text_json (gets (λ r. error_text r.last_error))
