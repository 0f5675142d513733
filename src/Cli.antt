-- ===== src/Cli.antt =====
-- The command line, crates/cli/src/main.rs: a sender and a receiver meet through files under the
-- data folder. The other process is the sequence of changes that it makes to the files while this
-- one sleeps; what the user types, the clock and fresh ids are given too.
pub mod Paths
pub mod Session
pub mod Send
pub mod Receive
pub mod Clean
pub mod Discover
pub mod Command
mod Tests
use send_rs.Prelude.{ℕ, ◌≡◌, ◌+◌, Bool, String, Option, none, some, List, [], ◌∷◌, ◌++◌}
use send_rs.Exec.{Exec, Error, Result, ok, err, diverged, system, with_context, raise, ◌>>=◌, ◌>>◌}
use send_rs.Disk.{Bytes, Files, Disk}
use send_rs.Transfer.Manifest.{TransferManifest}
use send_rs.Transfer.Copy.{ManifestJson}
use send_rs.Transfer.Hashing.{Surroundings}
use send_rs.Trust.{TrustLibrary}

pub record SendOffer : Type 0 where
  pub code : String
  pub sender_id : String
  pub sender_name : String
  pub source_path : String
  pub manifest_path : String
  pub public_enabled : Bool
  pub created_at : String

pub record ReceiverClaim : Type 0 where
  pub claim_id : String
  pub receiver_id : String
  pub receiver_name : String
  pub target_dir : String
  pub created_at : String

pub record SessionState : Type 0 where
  pub claim_id : Option String
  pub state : String
  pub message : String
  pub bytes_done : ℕ
  pub bytes_total : ℕ
  pub updated_at : String

pub record TransferHistoryEntry : Type 0 where
  pub id : String
  pub code : String
  pub role : String
  pub status : String
  pub source : Option String
  pub target : Option String
  pub peer_id : Option String
  pub peer_name : Option String
  pub bytes_done : ℕ
  pub bytes_total : ℕ
  pub started_at : String
  pub finished_at : String
  pub error : Option String

-- serde_json on one type.
pub record Json (A : Type 0) : Type 0 where
  pub to_string_pretty : A → Option Bytes
  pub from_str : Bytes → Option A

-- The libraries and the machine: the data folder, what `str` methods do, the formats, the clock and
-- `Uuid::new_v4` at a count of the calls so far, and this device.
pub record Host : Type 0 where
  pub data_root : String
  pub trim : String → String
  pub to_uppercase : String → String
  pub eq_ignore_ascii_case : String → String → Bool
  pub canonicalize : String → Option String
  pub offers : Json SendOffer
  pub claims : Json ReceiverClaim
  pub states : Json SessionState
  pub histories : Json (List TransferHistoryEntry)
  pub manifests : ManifestJson
  pub trust : TrustLibrary
  pub time : ℕ → String
  pub uuid : ℕ → String

-- The disk, what the other process does at each sleep, the lines that the user types (`none` where
-- the read fails), the count of ids and times taken, and what is printed.
pub record World : Type 0 where
  pub disk : Disk
  pub others : List (Files → Files)
  pub answers : List (Option String)
  pub ticks : ℕ
  pub printed : List String

abbrev pub at_disk : {A : Type 0} → World → Result A × Disk → Result A × World
at_disk w (r, d) = (r, record w { disk = d })

unfoldable pub on_files : {A : Type 0} → Exec Disk A → Exec World A
on_files m w = at_disk w (m w.disk)

-- `thread::sleep`: the other process acts. Where the given actions end, the wait has no end.
abbrev after_sleep : List (Files → Files) → Exec World (Unit {0})
after_sleep [] w = (err diverged, w)
after_sleep (act ∷ rest) w =
    (ok tt, record w { disk = record w.disk { files = act w.disk.files }; others = rest })

unfoldable pub sleep : Exec World (Unit {0})
sleep w = after_sleep w.others w

-- `Uuid::new_v4().to_string()` and `Utc::now().to_rfc3339()`
unfoldable pub new_v4 : Host → Exec World String
new_v4 host w = (ok (host.uuid w.ticks), record w { ticks = w.ticks + 1 })

unfoldable pub now : Host → Exec World String
now host w = (ok (host.time w.ticks), record w { ticks = w.ticks + 1 })

unfoldable pub println : String → Exec World (Unit {0})
println line w = (ok tt, record w { printed = w.printed ++ line ∷ [] })

abbrev typed : Host → List (Option String) → Exec World Bool
typed host [] w = (err diverged, w)
typed host (none ∷ rest) w =
    (err (Error.context "read input" (system "input")), record w { answers = rest })
typed host (some line ∷ rest) w =
    (ok (host.eq_ignore_ascii_case (host.trim line) "yes"), record w { answers = rest })

-- The prompt `> ` is not among the lines that are printed, and flushing it succeeds.
unfoldable pub prompt_yes : Host → Exec World Bool
prompt_yes host w = typed host w.answers w
