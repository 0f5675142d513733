-- ===== src/Ffi/Tests.antt =====
-- The interface for other languages at concrete inputs.
use send_rs.Prelude.{
  ◌+◌, ◌≡◌, ◌≢◌, refl, false, String, Option, none, some, List, [], ◌∷◌, ◌++◌, All, ◌⊎◌, decimal,
  ◌==◌, if◌then◌else◌,
}
use send_rs.Exec.{ok, with_context, ◌>>=◌}
use send_rs.Disk.{Bytes, Files, check, open_read, read}
use send_rs.Disk.Steady.{steady}
use send_rs.Blake3.{Blake3}
use send_rs.Transfer.Manifest.{ℤ}
use send_rs.Transfer.Hashing.{Surroundings, build_entry, build_manifest}
use send_rs.Task.{TransferTask, new_send, accept_receive}
use send_rs.Trust.{trust_default}
use send_rs.Discovery.{DiscoveryBeacon, DiscoveryPacket, Received}
use send_rs.Discovery.Sockets.{Network}
use send_rs.Chat.{Sqlite}
use send_rs.Ffi.{
  text, Libraries, Runtime, accept_transfer, send_path, on_disk, tick, read_cstr, with_json,
}
use send_rs.Ffi.Tasks.{Accepts, accept_transfer-first, accept_transfer-send_path}

abbrev toy : Blake3 Bytes
toy = record { hash = λ b. ""; new = []; update = λ h piece. h ++ piece; finalize = λ h. "" }

abbrev os : Surroundings
os = record {
  canonicalize = λ p. some p;
  walk = λ p. [];
  modified = λ p. none;
  new_v4 = "id";
  now = 7;
}

abbrev sql : Sqlite (Unit {0})
sql = record {
  connect = λ c. (ok tt, c);
  execute_batch = λ c. (ok tt, c);
  execute_insert = λ p d b t c. (ok tt, c);
  last_insert_rowid = λ c. 1;
  prepare = λ c. (ok tt, c);
  query_map = λ p n c. (ok [], c);
}

-- Every datagram is a beacon of this peer.
abbrev beacon : DiscoveryBeacon
beacon = record {
  peer_id = "e";
  display_name = "Eve";
  listen_port = 38080;
  public_enabled = false;
  version = "0.1.0";
}

abbrev network : Network
network = record {
  answers = [];
  bound = [];
  sent = [];
  now = 0;
  arriving = (1, Received.datagram 1 "10.0.0.2" []) ∷ [];
}

abbrev libraries : Libraries Bytes (Unit {0})
libraries = record {
  b3 = toy;
  os = os;
  trust = record {
    to_string_pretty = λ s. some [];
    from_str = λ b. some trust_default;
    hash_code = λ c. c;
  };
  keys = record {
    to_string_pretty = λ i. some [];
    from_str = λ b. none;
    public_key_b64 = "p";
    private_key_b64 = "q";
    new_v4 = "d";
    now = 1;
  };
  sql = sql;
  chat = record {
    timestamp = λ t. t;
    from_timestamp = λ s. some s;
    eq_ignore_ascii_case = λ s t. s == t;
  };
  discovery = record {
    packet = λ b. some (DiscoveryPacket.beacon beacon);
    plain_beacon = λ b. none;
    to_vec = λ p. some [];
  };
  version = "0.1.0";
  data_dir = "/d";
  peers_json = λ ps. ok "peers";
  task_json = λ t. ok t.task_id;
  tasks_json = λ ts. ok "tasks";
  messages_json = λ ms. ok "messages";
  text_json = λ s. ok s;
  time = λ n. n;
  uuid = λ n. decimal n;
}

abbrev files : Files
files path = if path == "/src/a.txt" then some (1 ∷ 2 ∷ []) else none

abbrev runtime : Runtime (Unit {0})
runtime = record {
  peers = [];
  tasks = [];
  last_error = none;
  disk = steady files;
  network = network;
  connection = tt;
  ticks = 4;
}

sent : Option String × Runtime (Unit {0})
unfolding send_path
sent = send_path libraries (text "peer") (text "/src/a.txt") (ℤ.pos 0) runtime

accept_transfer-send_path_example :
    (task : TransferTask) × (libraries.task_json task ≡ ok "4")
    × (sent.1.tasks ≡ task ∷ [])
    × (accept_transfer libraries (text "4") (text "/out") sent.1 ≡ (
      ℤ.pos 0,
      record sent.1 {
        tasks = accept_receive sent.1.ticks "/out" task ∷ [];
        last_error = none;
        ticks = 6;
      },
    ))
unfolding sent with_json ◌>>=◌ read_cstr on_disk build_manifest check with_context build_entry
    open_read read tick new_send decimal
accept_transfer-send_path_example =
    accept_transfer-send_path libraries (text "peer") (text "/src/a.txt") (ℤ.pos 0) "/out" "4"
      runtime sent.1 tt refl

accept_transfer-first_example :
    ((changed : List TransferTask) × Accepts sent.1.ticks "4" "/out" sent.1.tasks changed
      × (accept_transfer libraries (text "4") (text "/out") sent.1 ≡ (
        ℤ.pos 0,
        record sent.1 { tasks = changed; last_error = none; ticks = sent.1.ticks + 1 },
      )))
    ⊎ (All (λ (t : TransferTask). t.task_id ≢ "4") sent.1.tasks
        × (accept_transfer libraries (text "4") (text "/out") sent.1
            ≡ (ℤ.negsuc 0, record sent.1 { last_error = some "task not found" })))
accept_transfer-first_example = accept_transfer-first libraries "4" "/out" sent.1
