-- ===== src/Cli/Tests.antt =====
-- The theorems on the command line at concrete inputs, with a toy encoding that holds one value.
mod Discover
mod Share
use send_rs.Prelude.{
  ◌≡◌, refl, Bool, true, false, String, none, some, [], ◌∷◌, ◌++◌, ◌==◌, if◌then◌else◌, inl, inr,
  not, Bool-cases, eq_iff,
}
use send_rs.Exec.{ok, err, message, ◌>>=◌, with_context}
use send_rs.Disk.{Bytes, Files, Disk, read_to_string}
use send_rs.Disk.Steady.{steady}
use send_rs.Disk.Calls.{Frame}
use send_rs.Paths.{join}
use send_rs.Transfer.Manifest.{TransferManifest}
use send_rs.Blake3.{Blake3}
use send_rs.Transfer.Copy.{ManifestJson}
use send_rs.Discovery.{lookup}
use send_rs.Trust.{trust_default, load_trust_store}
use send_rs.Cli.{
  Host, World, SendOffer, ReceiverClaim, SessionState, TransferHistoryEntry, Json, println,
  on_files,
}
use send_rs.Cli.Paths.{
  history_path, state_path, session_root, sessions_root, offers_root, manifests_root,
  normalize_code,
}
use send_rs.Cli.Session.{
  load_history, append_history, wait_for_completion, read_json, write_json, read_state, verdict,
  is_trusted,
}
use send_rs.Cli.Session.Laws.{wait_for_completion-IsDone, IsDone}
use send_rs.Cli.Send.{admit}
use send_rs.Cli.Send.Approval.{NothingSent, admit-NothingSent}
use send_rs.Cli.Receive.{cmd_history, history_line}
use send_rs.Cli.Receive.Records.{cmd_history-append_history}
use send_rs.Cli.Clean.{Flags, cmd_clean}
use send_rs.Cli.Clean.Roots.{AreRoots}
use send_rs.Cli.Clean.Removed.{every_part, is_wanted, cmd_clean-removes}

abbrev pub toy : Blake3 Bytes
toy = record { hash = λ b. ""; new = []; update = λ h piece. h ++ piece; finalize = λ h. "" }

abbrev json : ManifestJson
json = record { to_string_pretty = λ m. some []; from_str = λ b. none }

abbrev manifest : TransferManifest
manifest = record {
  transfer_id = "id";
  root_name = "src";
  chunk_size = 2;
  created_at = 7;
  entries = [];
}

abbrev offer : SendOffer
offer = record {
  code = "1234";
  sender_id = "s";
  sender_name = "Sender";
  source_path = "/src";
  manifest_path = "/d/manifests/1234.json";
  public_enabled = true;
  created_at = "t";
}

abbrev claim : ReceiverClaim
claim = record {
  claim_id = "c";
  receiver_id = "r";
  receiver_name = "Receiver";
  target_dir = "/out";
  created_at = "t";
}

abbrev state : String → SessionState
state name = record {
  claim_id = some "c";
  state = name;
  message = "m";
  bytes_done = 1;
  bytes_total = 2;
  updated_at = "t";
}

abbrev item : TransferHistoryEntry
item = record {
  id = "i";
  code = "1234";
  role = "send";
  status = "completed";
  source = some "/src";
  target = some "/out";
  peer_id = some "r";
  peer_name = none;
  bytes_done = 2;
  bytes_total = 2;
  started_at = "t";
  finished_at = "t";
  error = none;
}

abbrev one : {A : Type 0} → A → Json A
one a = record { to_string_pretty = λ x. some []; from_str = λ b. some a }

-- A machine where each file that is read holds the one value, and the state is named.
abbrev pub host : String → Host
host name = record {
  data_root = "/d";
  trim = λ s. s;
  to_uppercase = λ s. s;
  eq_ignore_ascii_case = λ s t. s == t;
  canonicalize = λ p. some p;
  offers = one offer;
  claims = one claim;
  states = one (state name);
  histories = one (item ∷ []);
  manifests = json;
  trust = record {
    to_string_pretty = λ s. some [];
    from_str = λ b. some trust_default;
    hash_code = λ c. c;
  };
  time = λ n. "t";
  uuid = λ n. "u";
}

abbrev no_files : Files
no_files path = none

abbrev state_file : Files
state_file path = if path == "/d/sessions/1234/state.json" then some [] else none

abbrev world : Files → World
world fs = record {
  disk = steady fs;
  others = [];
  answers = some "no" ∷ [];
  ticks = 0;
  printed = [];
}

-- The disk after the record is appended.
recorded : Disk
unfolding append_history load_history write_json ◌>>=◌ with_context
recorded = (append_history (host "completed") item (steady no_files)).1

abbrev after : World
after = record { disk = recorded; others = []; answers = []; ticks = 2; printed = [] }

cmd_history-append_history_example :
    (cmd_history (host "completed") (λ n. "2 B") 5 after).1.printed
    ≡ history_line (host "completed") (λ n. "2 B") item ∷ []
unfolding recorded load_history ◌>>=◌
cmd_history-append_history_example =
    cmd_history-append_history (host "completed") (λ n. "2 B") 4 no_files item [] [] after refl refl
      refl refl

wait_for_completion-IsDone_example : IsDone "c" (state "completed")
unfolding wait_for_completion verdict read_state read_json println on_files ◌>>=◌ with_context
    read_to_string state_path join session_root normalize_code sessions_root
wait_for_completion-IsDone_example =
    wait_for_completion-IsDone (host "completed") 1 "1234" "c" (world state_file) _
      (state "completed") refl

admit-NothingSent_example :
    NothingSent toy
      (host "completed")
      offer
      5
      claim
      "t"
      manifest
      (world no_files)
      (admit toy (host "completed") offer 5 claim "t" manifest (world no_files))
unfolding is_trusted load_trust_store ◌>>=◌ lookup
admit-NothingSent_example =
    admit-NothingSent toy (host "completed") offer 5 claim "t" manifest (world no_files) "no" []
      refl refl refl

abbrev only_history : Flags
only_history = record {
  all = false;
  sessions = false;
  offers = false;
  manifests = false;
  history = true;
}

abbrev history_file : Files
history_file path = if path == "/d/history.json" then some [] else none

abbrev root_dirs : String → Bool
root_dirs path = not (path == "/d/history.json")

history_file-AreRoots : AreRoots (host "completed") root_dirs history_file
unfolding sessions_root join offers_root manifests_root history_path
history_file-AreRoots = (
  λ p below there. inl refl,
  λ p below there. inl refl,
  λ p below there. inl refl,
  λ p below there. elim (Bool-cases (p == "/d/history.json")) [
    | inl same ↦ inr ((eq_iff p "/d/history.json").0 same)
    | inr other ↦ absurd (there (rw other refl))
  ],
)

cmd_clean-removes_example :
    (g : Files) × (cmd_clean (host "completed") root_dirs only_history (steady history_file)
      ≡ (ok ("history" ∷ []), steady g))
    × ((p : String)
        → g p ≡ (
            if is_wanted (host "completed") only_history every_part p
            then none
            else history_file p))
cmd_clean-removes_example =
    cmd_clean-removes (host "completed") root_dirs only_history history_file history_file-AreRoots
