-- ===== src/Chat/Tests.antt =====
-- The chat store on a table in memory.
use send_rs.Prelude.{
  ℕ, ◌+◌, ◌/◌, ◌*◌, ◌≡◌, ◌≢◌, ◌<◌, refl, sym, ap, subst, arith, Option, some, List, [], ◌∷◌, ◌++◌,
  map, All, ◌==◌, eq_iff, String,
}
use mathlib.Core.Bool.{true≢false}
use send_rs.Exec.{Result, ok, err, ◌>>=◌, with_context}
use send_rs.Chat.{
  ChatDirection, ChatMessage, Row, Sqlite, ChatLibrary, collect, append_message, list_messages,
}
use send_rs.Chat.Store.{list_messages-append_message}
use send_rs.Chat.Table.{IsSqlite, IsChatLibrary, limited, order, of_peer}

-- The next id is above all that are there.
abbrev next_id : List Row → ℕ
next_id [] = 1
next_id (row ∷ rows) = row.id + next_id rows + 1

abbrev newest : List Row → ℕ
newest [] = 0
newest (row ∷ rows) = row.id

abbrev memory : Sqlite (List Row)
memory = record {
  connect = λ c. (ok tt, c);
  execute_batch = λ c. (ok tt, c);
  execute_insert = λ p d b t c.
      (ok tt, record { id = next_id c; peer_id = p; direction = d; body = b; sent_at = t } ∷ c);
  last_insert_rowid = newest;
  prepare = λ c. (ok tt, c);
  query_map = λ p n c. (ok (map some (limited n (order (of_peer p c)))), c);
}

abbrev lib : ChatLibrary
lib = record {
  timestamp = λ t. t / 1000;
  from_timestamp = λ s. some (s * 1000);
  eq_ignore_ascii_case = λ s t. s == t;
}

lib-IsChatLibrary : IsChatLibrary lib
lib-IsChatLibrary = record { incoming = refl; outgoing = refl }

All-below_next : (rows : List Row) (n : ℕ) → All (λ (row : Row). row.id < next_id rows + n) rows
All-below_next [] n = tt
All-below_next (row ∷ rows) n = (
  omega arith,
  subst (λ k. All (λ (r : Row). r.id < k) rows) (omega arith)
      (All-below_next rows (row.id + 1 + n)),
)

abbrev found_or : Result (List (Option Row)) → List (Option Row)
found_or (ok found) = found
found_or (err e) = []

abbrev memory-IsSqlite : IsSqlite memory
memory-IsSqlite = record {
  rows = λ c. c;
  inserts = λ p d b t c e done.
      let same = ap (λ x. x.1) done in
      subst
        (λ (e : List Row).
          (e ≡ record { id = newest e; peer_id = p; direction = d; body = b; sent_at = t } ∷ c)
          × All (λ (row : Row). row.id < newest e) c)
        same (refl, subst (λ k. All (λ (r : Row). r.id < k) c) (omega arith) (All-below_next c 0));
  prepares = λ c d done. sym (ap (λ x. x.1) done);
  selects = λ p n c d found done. sym (ap (λ x. found_or x.0) done);
}

abbrev first : Row
first = record { id = 1; peer_id = "a"; direction = "outgoing"; body = "hello"; sent_at = 2 }

abbrev second : Row
second = record { id = 3; peer_id = "a"; direction = "incoming"; body = "world"; sent_at = 3 }

abbrev message : ℕ → String → ChatDirection → ℕ → ChatMessage
message id body direction sent_at = record {
  id = id;
  peer_id = "a";
  direction = direction;
  body = body;
  sent_at = sent_at;
}

list_messages-append_message_example :
    message 1 "hello" ChatDirection.outgoing 2000
      ∷ message 3 "world" ChatDirection.incoming 3000
      ∷ []
    ≡ (message 1 "hello" ChatDirection.outgoing 2000 ∷ [])
      ++ message 3 "world" ChatDirection.incoming 3000 ∷ []
unfolding append_message list_messages collect ◌>>=◌ with_context
list_messages-append_message_example =
    list_messages-append_message memory memory-IsSqlite lib 3500 9000 "a" ChatDirection.incoming
      "world" 5 (first ∷ []) (second ∷ first ∷ []) (first ∷ []) (second ∷ first ∷ [])
      (message 3 "world" ChatDirection.incoming 3500)
      (message 1 "hello" ChatDirection.outgoing 2000 ∷ [])
      (message 1 "hello" ChatDirection.outgoing 2000
        ∷ message 3 "world" ChatDirection.incoming 3000
        ∷ [])
      lib-IsChatLibrary (omega arith, tt) (omega arith) refl refl refl

abbrev first_peer : String
first_peer = "a"

differ : first_peer ≢ "b"
differ h = true≢false (sym ((eq_iff "a" "b").1 h))

abbrev no_messages : List ChatMessage
no_messages = []
