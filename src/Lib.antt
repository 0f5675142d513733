-- ===== src/Lib.antt =====
-- Send-RS: a model of the file transfer tool, and what holds of it.
--
-- The program is a workspace of crates. `crates/transfer` copies a tree of files chunk by chunk,
-- with a manifest of hashes that also records which chunks are done; `crates/core` holds the task
-- record and the signalling messages; `crates/signaling-server` relays messages between peers;
-- `crates/signaling-client` is their other end; `crates/discovery` finds peers by datagrams;
-- `crates/security` keeps this device's identity and the trusted peers; `crates/chat` stores
-- messages. `crates/cli` is the program: a sender shares a path under a code, and a receiver that
-- enters the code meets it through files. `crates/ffi` is the interface for the app.
--
-- Transfer and the files below it: crates/transfer/src/lib.rs. Bitmap is `set_bitmap` and
--   `get_bitmap`; Manifest the data and the sums; Hashing `hash_file`, `build_entry` and
--   `build_manifest`; Copy `copy_chunk` and `verify_chunk_at`; Execute `execute_local_transfer`
--   with a progress closure that changes no file, and Execute/Watched the same function with one
--   that does, as `cmd_send` calls it.
-- Task is crates/core/src/models.rs. Signal is crates/core/src/protocol.rs and
--   crates/signaling-server/src/main.rs. Discovery is crates/discovery/src/lib.rs.
-- Trust is the trust store, the identity and the key checks of crates/security/src/lib.rs.
-- Transport is crates/transport/src/lib.rs. Cli is
--   crates/cli/src/main.rs: Cli/Paths the path functions, Cli/Session the files that the two
--   processes meet in and the waits, Cli/Send the rounds of `cmd_send`
--   and Cli/Send/Share the rest, Cli/Receive `cmd_receive` and `cmd_history`,
--   Cli/Clean `cmd_clean`, Cli/Discover `cmd_discover` and the announcing thread of
--   `cmd_send`, Cli/Command `main`; Lan is `is_preferred_lan_ip`, Lan/Label `local_device_label`.
--   Discovery/Sockets is the broadcasts and the listener's socket, over a network that answers
--   each call and holds what arrives; time in it is in milliseconds.
-- Chat is crates/chat/src/lib.rs, and Ffi is crates/ffi/src/lib.rs over the other parts.
-- Signal/Client is crates/signaling-client/src/lib.rs.
-- The proofs stand in files named for what they prove: below Transfer/Execute, Shape says what a
--   run leaves of a manifest, Invariant and Counting what holds in every step, Verified and
--   Delivery what has arrived, Rounds and Accounting what is counted, Fresh and Success that a
--   transfer without failures succeeds; Confined says which files a run can change. Below Success,
--   Resume is the second run after a failure, Build the manifest of a folder, and Tree both steps
--   of a local transfer. Below Execute/Watched, Aside and Blind say what does not depend on one
--   file, Simulated and Whole compare a run whose closure changes that file with one without it,
--   and Idle says that a closure that changes nothing gives the function of Execute.
--   Discovery/Rounds says what a listener keeps from round to round, Heard
--   and Offers that it finds what was broadcast; Trust/Identity/Kept that a device keeps its
--   identity. Below Cli/Send, Approval is a receiver that is refused, Shared the offer as a
--   receiver finds it, Settled and Served the round of a receiver that is admitted. Chat/Table is
--   what SQL says of the statements.
-- Disk is the file system: the bytes of each path, and a list of outcomes that the environment
--   gives to the calls in turn: full, short or failed. Exec is the result type of fallible code
--   with the state that it leaves. Paths is what the code uses of `Path`. Blake3 is the interface
--   of the hash.
--
-- Integers of 64 bits wrap where the source adds or multiplies, and `saturating_sub` stops at 0.
-- The read loop of `hash_file` runs on fuel, one more round than the file has bytes: each round
-- but the last reads at least one byte. The loops over attempts, chunks and entries are recursion
-- on their number.
--
-- The command line talks to another process through files. The changes that the other process makes
-- are a list, one for each sleep; a wait has one more round than the list is long, and where the
-- list ends the wait is taken to have no end.
--
-- Hashing, JSON, the clock, random ids and directory walks are parameters. Not modelled: the app
-- under apps/, the routes and the start of the signalling server, the parsing of the arguments,
-- the sizes as text (`human_bytes`, a parameter), the error enum of crates/core, and the freeing
-- of texts in crates/ffi.
pub mod Prelude
pub mod Exec
pub mod Disk
pub mod Paths
pub mod Blake3
pub mod Transfer
pub mod Task
pub mod Signal
pub mod Discovery
pub mod Trust
pub mod Lan
pub mod Cli
pub mod Chat
pub mod Ffi
pub mod Transport
