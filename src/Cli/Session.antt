-- ===== src/Cli/Session.antt =====
-- Reading, writing and waiting for files, crates/cli/src/main.rs.
pub mod Laws
pub mod Calls
use Prim.Native.String.{◌++◌ as ◌<>◌}
use send_rs.Prelude.{
  ℕ, zero, suc, decimal, Bool, true, false, ◌||◌, ◌&&◌, String, Option, none, some, List, [], ◌∷◌,
  ◌++◌, ◌==◌, if◌then◌else◌,
}
use text.Mathlib.Text.{starts_with}
use send_rs.Exec.{
  Exec, Error, Result, ok, err, message, system, diverged, pure, raise, gets, put, with_context,
  attempt, ◌>>=◌, ◌>>◌,
}
use send_rs.Disk.{
  Bytes, Files, Disk, Outcome, full, short, fail, exists, check, syscall, read_to_string, write,
}
use send_rs.Paths.{parent}
use send_rs.Discovery.{lookup}
use send_rs.Trust.{load_trust_store, TrustStore}
use send_rs.Cli.{
  Json, Host, World, SessionState, ReceiverClaim, TransferHistoryEntry, on_files, sleep, now,
  println,
}
use send_rs.Cli.Paths.{
  history_path, receiver_claim_path, sender_yes_path, receiver_yes_path, state_path,
}

or_json : {A : Type 0} → Option A → Exec Disk A
or_json none = raise (system "json")
or_json (some a) = pure a

make_parent : Option String → Exec Disk (Unit {0})
make_parent none = pure tt
make_parent (some dir) = with_context "create parent dir" check

unfoldable pub write_json : {A : Type 0} → Json A → String → A → Exec Disk (Unit {0})
unfolding or_json make_parent
write_json json path value = do
  make_parent (parent path)
  body ← with_context "serialize json" (or_json (json.to_string_pretty value))
  with_context "write json" (write path body)

unfoldable pub read_json : {A : Type 0} → Json A → String → Exec Disk A
unfolding or_json
read_json json path = do
  body ← with_context "read json" (read_to_string path)
  with_context "parse json" (or_json (json.from_str body))

-- A folder and what is in it, or a file.
abbrev pub covers : String → String → Bool
covers root path = path == root || starts_with path (root <> "/")

remove_with : String → Outcome → Exec Disk (Unit {0})
remove_with path (fail k) d = (err (system "remove"), d)
remove_with path full d =
    (ok tt, record d { files = λ p. if covers path p then none else d.files p })
remove_with path (short k) d =
    (ok tt, record d { files = λ p. if covers path p then none else d.files p })

-- `dirs` says which paths are folders. A removal that fails removes nothing in the model.
unfoldable pub remove_path_if_exists : (String → Bool) → String → Exec Disk (Unit {0})
unfolding remove_with syscall
remove_path_if_exists dirs path = do
  there ← gets (λ d. exists d.files path || dirs path)
  if there
      then (do
        check
        if dirs path
            then with_context ("remove dir " <> path) (syscall (remove_with path))
            else with_context ("remove file " <> path) (syscall (remove_with path)))
      else pure tt

abbrev pub no_dirs : String → Bool
no_dirs path = false

-- `state.claim_id.as_deref() == Some(claim_id)`
abbrev pub own_claim : String → Option String → Bool
own_claim id none = false
own_claim id (some claim_id) = claim_id == id

-- What the receiver does on a state: whether it is about its own claim, completed, or failed; `rest`
-- is the loop after the sleep.
unfoldable pub verdict :
    Exec World SessionState → SessionState → Bool → Bool → Bool → Exec World SessionState
verdict rest state false completed failed = do sleep; rest
verdict rest state true true failed = do
  println ("Done. bytes=" <> (decimal state.bytes_done <> ("/" <> decimal state.bytes_total)))
  pure state
verdict rest state true false true = raise (message ("transfer failed: " <> state.message))
verdict rest state true false false = do sleep; rest

module _ (host : Host) where
  unfoldable pub load_history : Exec Disk (List TransferHistoryEntry)
  load_history = do
    there ← gets (λ d. exists d.files (history_path host))
    if there then read_json host.histories (history_path host) else pure []

  unfoldable pub append_history : TransferHistoryEntry → Exec Disk (Unit {0})
  unfolding load_history
  append_history entry = do
    entries ← load_history
    write_json host.histories (history_path host) (entries ++ entry ∷ [])

  unfoldable pub read_state : String → Exec Disk SessionState
  read_state code = read_json host.states (state_path host code)

  unfoldable pub write_state :
      String → Option String → String → String → ℕ → ℕ → Exec World (Unit {0})
  write_state code claim_id state text bytes_done bytes_total = do
    updated_at ← now host
    on_files (
        write_json host.states (state_path host code) (record {
          claim_id = claim_id;
          state = state;
          message = text;
          bytes_done = bytes_done;
          bytes_total = bytes_total;
          updated_at = updated_at;
        }))

  -- The three results are ignored.
  unfoldable pub clear_runtime_session_files : String → Exec Disk (Unit {0})
  clear_runtime_session_files code = do
    first ← attempt (remove_path_if_exists no_dirs (receiver_claim_path host code))
    second ← attempt (remove_path_if_exists no_dirs (sender_yes_path host code))
    third ← attempt (remove_path_if_exists no_dirs (receiver_yes_path host code))
    pure tt

  unfoldable pub is_trusted : String → Exec Disk Bool
  is_trusted peer_id = do
    store ← load_trust_store host.trust host.data_root
    pure (elim (lookup peer_id store.peers) [ none ↦ false | some peer ↦ true ])

  -- The loops that wait, with the rounds left: one for each sleep.
  unfoldable pub wait_for_file : ℕ → String → Exec World (Unit {0})
  wait_for_file zero path = raise diverged
  wait_for_file (suc fuel) path = do
    there ← gets (λ w. exists w.disk.files path)
    elim there [ true ↦ pure tt | false ↦ (do sleep; wait_for_file fuel path) ]

  unfoldable pub wait_for_receiver_claim : ℕ → String → Exec World ReceiverClaim
  wait_for_receiver_claim zero code = raise diverged
  wait_for_receiver_claim (suc fuel) code = do
    there ← gets (λ w. exists w.disk.files (receiver_claim_path host code))
    elim there [
      | true ↦ (do
        claim ← attempt (on_files (read_json host.claims (receiver_claim_path host code)))
        elim claim [ ok c ↦ pure c | err e ↦ (do sleep; wait_for_receiver_claim fuel code) ])
      | false ↦ (do sleep; wait_for_receiver_claim fuel code)
    ]

  unfoldable pub wait_for_completion : ℕ → String → String → Exec World SessionState
  unfolding verdict
  wait_for_completion zero code claim_id = raise diverged
  wait_for_completion (suc fuel) code claim_id = do
    state ← on_files (read_state code)
    verdict (wait_for_completion fuel code claim_id) state (own_claim claim_id state.claim_id)
        (state.state == "completed") (state.state == "failed")
