-- ===== src/Chat.antt =====
-- The chat store, crates/chat/src/lib.rs. The database is a parameter: a connection with the
-- statements that the store executes. Times are numbers; those before 1970 do not occur.
pub mod Table
pub mod Store
mod Tests
use send_rs.Prelude.{
  ℕ, zero, suc, ◌-◌, ◌^◌, Bool, true, false, String, Option, none, some, List, [], ◌∷◌, map,
  reverse, ltb, if◌then◌else◌,
}
use send_rs.Exec.{
  Exec, Error, Result, ok, err, message, pure, raise, gets, with_context, ◌>>=◌, ◌>>◌,
}
use send_rs.Transfer.Manifest.{ℤ}

pub data ChatDirection : Type 0 where
  incoming : ChatDirection
  outgoing : ChatDirection

pub record ChatMessage : Type 0 where
  pub id : ℕ
  pub peer_id : String
  pub direction : ChatDirection
  pub body : String
  pub sent_at : ℕ

-- The columns of `chat_messages`.
pub record Row : Type 0 where
  pub id : ℕ
  pub peer_id : String
  pub direction : String
  pub body : String
  pub sent_at : ℕ

-- rusqlite on one database: opening it, the batch that makes the table, the INSERT of a peer, a direction,
-- a body and a time, and the SELECT of a peer's rows up to a limit, where a row that does not
-- convert is `none`.
pub record Sqlite (C : Type 0) : Type 0 where
  pub connect : Exec C (Unit {0})
  pub execute_batch : Exec C (Unit {0})
  pub execute_insert : String → String → String → ℕ → Exec C (Unit {0})
  pub last_insert_rowid : C → ℕ
  pub prepare : Exec C (Unit {0})
  pub query_map : String → ℤ → Exec C (List (Option Row))

-- chrono and `str`: the seconds of a time, the time of seconds where there is one, and the test of
-- equality but for case.
pub record ChatLibrary : Type 0 where
  pub timestamp : ℕ → ℕ
  pub from_timestamp : ℕ → Option ℕ
  pub eq_ignore_ascii_case : String → String → Bool

-- `as i64` on a `usize`
abbrev pub as_i64 : ℕ → ℤ
as_i64 n = if ltb n (2 ^ 63) then ℤ.pos n else ℤ.negsuc (2 ^ 64 - 1 - n)

abbrev pub direction_to_str : ChatDirection → String
direction_to_str incoming = "incoming"
direction_to_str outgoing = "outgoing"

abbrev pub str_to_direction : ChatLibrary → String → ChatDirection
str_to_direction lib raw =
    if lib.eq_ignore_ascii_case raw "incoming"
    then ChatDirection.incoming
    else ChatDirection.outgoing

abbrev pub or_now : ℕ → Option ℕ → ℕ
or_now now none = now
or_now now (some time) = time

-- The message of a row, where `now` is the clock.
abbrev pub message_of : ChatLibrary → ℕ → Row → ChatMessage
message_of lib now row = record {
  id = row.id;
  peer_id = row.peer_id;
  direction = str_to_direction lib row.direction;
  body = row.body;
  sent_at = or_now now (lib.from_timestamp row.sent_at);
}

cons_message : ChatLibrary → ℕ → Row → Option (List ChatMessage) → Option (List ChatMessage)
cons_message lib now row none = none
cons_message lib now row (some rest) = some (message_of lib now row ∷ rest)

-- The rows as messages: the first that does not convert ends it.
unfoldable pub collect : ChatLibrary → ℕ → List (Option Row) → Option (List ChatMessage)
unfolding cons_message
collect lib now [] = some []
collect lib now (none ∷ rows) = none
collect lib now (some row ∷ rows) = cons_message lib now row (collect lib now rows)

abbrev pub collected : {C : Type 0} → Option (List ChatMessage) → Exec C (List ChatMessage)
collected none = raise (message "row")
collected (some messages) = pure messages

-- `Connection::open` and the table.
unfoldable pub open_store : {C : Type 0} → Sqlite C → Exec C (Unit {0})
open_store sql = do
  with_context "open sqlite" sql.connect
  with_context "initialize schema" sql.execute_batch

module _ {C : Type 0} (sql : Sqlite C) (lib : ChatLibrary) where
  unfoldable pub append_message : ℕ → String → ChatDirection → String → Exec C ChatMessage
  append_message now peer_id direction body = do
    with_context "insert chat message"
        (sql.execute_insert peer_id (direction_to_str direction) body (lib.timestamp now))
    id ← gets sql.last_insert_rowid
    pure (record { id = id; peer_id = peer_id; direction = direction; body = body; sent_at = now })

  unfoldable pub list_messages : ℕ → String → ℕ → Exec C (List ChatMessage)
  unfolding collect
  list_messages now peer_id limit = do
    with_context "prepare query" sql.prepare
    rows ← with_context "query messages" (sql.query_map peer_id (as_i64 limit))
    out ← with_context "collect messages" (collected (collect lib now rows))
    pure (reverse out)
