-- ===== src/Task.antt =====
-- The task record of crates/core/src/models.rs and its life cycle. A time (`Utc::now()`) is a
-- number that the caller passes in, and so is the text of a new random UUID.
pub mod Life
mod Tests
use send_rs.Prelude.{ℕ, Bool, String, Option, none, some, List, nat_eq, ltb, min, if◌then◌else◌}

pub record DeviceIdentity : Type 0 where
  pub device_id : String
  pub display_name : String
  pub public_key : String

pub record PeerInfo : Type 0 where
  pub peer_id : String
  pub display_name : String
  pub addresses : List String
  pub public_enabled : Bool
  pub last_seen : ℕ

pub data NetworkMode : Type 0 where
  lan : NetworkMode
  public : NetworkMode

pub data Direction : Type 0 where
  send : Direction
  receive : Direction

pub data TransferTaskStatus : Type 0 where
  awaiting_accept : TransferTaskStatus
  pending : TransferTaskStatus
  in_progress : TransferTaskStatus
  completed : TransferTaskStatus
  failed : TransferTaskStatus

pub record TransferTask : Type 0 where
  pub task_id : String
  pub peer_id : String
  pub source_path : String
  pub target_path : Option String
  pub direction : Direction
  pub status : TransferTaskStatus
  pub network_mode : NetworkMode
  pub bytes_total : ℕ
  pub bytes_done : ℕ
  pub error_message : Option String
  pub created_at : ℕ
  pub updated_at : ℕ

unfoldable pub new_send : String → ℕ → String → String → NetworkMode → ℕ → TransferTask
new_send uuid now peer_id source_path network_mode bytes_total = record {
  task_id = uuid;
  peer_id = peer_id;
  source_path = source_path;
  target_path = none;
  direction = Direction.send;
  status = TransferTaskStatus.awaiting_accept;
  network_mode = network_mode;
  bytes_total = bytes_total;
  bytes_done = 0;
  error_message = none;
  created_at = now;
  updated_at = now;
}

-- The status and the error message that a progress report leaves.
abbrev pub settle : TransferTask → TransferTask
settle task =
    if nat_eq task.bytes_done task.bytes_total
    then (record task { status = TransferTaskStatus.completed; error_message = none })
    else if ltb 0 task.bytes_done
    then (record task { status = TransferTaskStatus.in_progress })
    else task

unfoldable pub update_progress : ℕ → ℕ → TransferTask → TransferTask
update_progress now bytes_done task =
    record (settle (record task { bytes_done = min bytes_done task.bytes_total })) {
      updated_at = now;
    }

unfoldable pub accept_receive : ℕ → String → TransferTask → TransferTask
accept_receive now target_path task = record task {
  target_path = some target_path;
  status = TransferTaskStatus.pending;
  error_message = none;
  updated_at = now;
}

unfoldable pub mark_in_progress : ℕ → TransferTask → TransferTask
mark_in_progress now task = record task {
  status = TransferTaskStatus.in_progress;
  error_message = none;
  updated_at = now;
}

unfoldable pub mark_failed : ℕ → String → TransferTask → TransferTask
mark_failed now message task = record task {
  status = TransferTaskStatus.failed;
  error_message = some message;
  updated_at = now;
}
