-- ===== src/Chat/Store.antt =====
-- The chat store of crates/chat/src/lib.rs over the table: what is listed after a message was appended.
use send_rs.Prelude.{
  ℕ, suc, ◌^◌, ◌≤◌, ◌<◌, ◌≡◌, ◌≢◌, refl, sym, ap, ◌∙◌, subst, String, List, [], ◌∷◌, ◌++◌, map,
  reverse, All,
}
use send_rs.Exec.{ok, with_context, ◌>>=◌}
use send_rs.Exec.Rules.{After, returned, bind_context-After, After-ok}
use send_rs.Chat.{
  ChatDirection, ChatMessage, Row, Sqlite, ChatLibrary, as_i64, direction_to_str, or_now,
  message_of, append_message, list_messages,
}
use send_rs.Chat.Table.{
  of_peer, order, limited, IsSqlite, IsChatLibrary, After-of_laws, collect-map, row_of, listing,
  All_and, listing_cons, of_peer_other, message_of-row_of,
}

module _ {C : Type 0} (sql : Sqlite C) (laws : IsSqlite sql) (lib : ChatLibrary) where
  append_message-Appends :
      (now : ℕ) (peer_id : String) (direction : ChatDirection) (body : String) (c : C)
      → After
          (λ m d.
            (m.peer_id ≡ peer_id)
            × (m.direction ≡ direction)
            × (m.body ≡ body)
            × (m.sent_at ≡ now)
            × (laws.rows d ≡ row_of lib m ∷ laws.rows c)
            × All (λ (row : Row). row.id < m.id) (laws.rows c))
          (λ x d. Unit {0})
          (append_message sql lib now peer_id direction body c)
  unfolding append_message ◌>>=◌
  append_message-Appends now peer_id direction body c =
      bind_context-After "insert chat message"
        (sql.execute_insert peer_id (direction_to_str direction) body (lib.timestamp now)) _ c
        (After-of_laws _ λ u d done.
          laws.inserts peer_id (direction_to_str direction) body (lib.timestamp now) c d done)
        (λ x d h. tt) λ u d h. returned _ _ (refl, refl, refl, refl, h.0, h.1)

  list_messages-listing :
      (now : ℕ) (peer_id : String) (limit : ℕ) (c : C)
      → After
          (λ ms d. ms ≡ listing lib now peer_id limit (laws.rows c))
          (λ x d. Unit {0})
          (list_messages sql lib now peer_id limit c)
  unfolding list_messages ◌>>=◌ with_context
  list_messages-listing now peer_id limit c =
      bind_context-After "prepare query" sql.prepare _ c
        (After-of_laws _ λ u d done. laws.prepares c d done) (λ x d h. tt)
        λ u d same.
          bind_context-After "query messages" (sql.query_map peer_id (as_i64 limit)) _ d
            (After-of_laws _ λ found e done. laws.selects peer_id (as_i64 limit) d e found done)
            (λ x e h. tt)
            λ found e h.
              rw
                (
                  h,
                  same,
                  collect-map lib now
                      (limited (as_i64 limit) (order (of_peer peer_id (laws.rows c)))),
                )
                (returned _ _ refl)

  -- A message that is appended when the clock is not behind the times in the table, and then listed
  -- with a limit of one more (which is below 2^63): the list is the one before with the new message
  -- at its end, its time as the table holds it.
  pub list_messages-append_message :
      (now later : ℕ) (peer_id : String) (direction : ChatDirection) (body : String) (limit : ℕ)
      (c d e f : C) (m : ChatMessage) (old new : List ChatMessage)
      → IsChatLibrary lib
      → All (λ (row : Row). row.sent_at ≤ lib.timestamp now) (laws.rows c)
      → suc limit < 2 ^ 63
      → append_message sql lib now peer_id direction body c ≡ (ok m, d)
      → list_messages sql lib later peer_id limit c ≡ (ok old, e)
      → list_messages sql lib later peer_id (suc limit) d ≡ (ok new, f)
      → new
        ≡ old ++ record m { sent_at = or_now later (lib.from_timestamp (lib.timestamp now)) } ∷ []
  list_messages-append_message now later peer_id direction body limit c d e f m old new words times
        small added before after =
      let a = After-ok (append_message-Appends now peer_id direction body c) added in
      After-ok (list_messages-listing later peer_id (suc limit) d) after
      ∙ ap (listing lib later peer_id (suc limit)) a.4
      ∙ subst
          (λ p.
            listing lib later p (suc limit) (row_of lib m ∷ laws.rows c)
            ≡ listing lib later p limit (laws.rows c) ++ message_of lib later (row_of lib m) ∷ [])
          a.0
          (listing_cons lib later limit (row_of lib m) (laws.rows c) small (
            All_and _ _ (laws.rows c)
              (subst (λ t. All (λ (row : Row). row.sent_at ≤ lib.timestamp t) (laws.rows c))
                (sym a.3) times)
              a.5))
      ∙ ap (λ l. l ++ message_of lib later (row_of lib m) ∷ [])
          (sym (After-ok (list_messages-listing later peer_id limit c) before))
      ∙ ap (λ x. old ++ x ∷ []) (message_of-row_of lib words later m)
      ∙ ap
          (λ t.
            old ++ record m { sent_at = or_now later (lib.from_timestamp (lib.timestamp t)) } ∷ [])
          a.3

  -- A message to one peer does not change what is listed of another.
  list_messages-append_other :
      (now later : ℕ) (peer_id other : String) (direction : ChatDirection) (body : String)
      (limit : ℕ) (c d e f : C) (m : ChatMessage) (old new : List ChatMessage)
      → peer_id ≢ other
      → append_message sql lib now peer_id direction body c ≡ (ok m, d)
      → list_messages sql lib later other limit c ≡ (ok old, e)
      → list_messages sql lib later other limit d ≡ (ok new, f)
      → new ≡ old
  list_messages-append_other now later peer_id other direction body limit c d e f m old new apart
        added before after =
      let a = After-ok (append_message-Appends now peer_id direction body c) added in
      After-ok (list_messages-listing later other limit d) after
      ∙ ap (listing lib later other limit) a.4
      ∙ ap (λ rows. reverse (map (message_of lib later) (limited (as_i64 limit) (order rows))))
          (of_peer_other other (row_of lib m) (laws.rows c)
            (subst (λ p. p ≢ other) (sym a.0) apart))
      ∙ sym (After-ok (list_messages-listing later other limit c) before)
