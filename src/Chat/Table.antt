-- ===== src/Chat/Table.antt =====
-- What SQL says of the statements of crates/chat/src/lib.rs, and the listings of a table.
use send_rs.Prelude.{
  ℕ, suc, ◌^◌, ◌≤◌, ◌<◌, ◌≡◌, ◌≢◌, refl, ap, arith, Bool, true, false, ◌&&◌, ◌||◌, String, Option,
  some, List, [], ◌∷◌, ◌++◌, map, reverse, take, ltb, nat_eq, ◌==◌, eq_iff, eq_refl, if◌then◌else◌,
  All, Bool-cases, inl, inr,
}
use mathlib.Core.List.{reverse-cons}
use send_rs.Exec.{Result, ok, err}
use send_rs.Exec.Rules.{After, returned, failed}
use send_rs.Transfer.Manifest.{ℤ}
use send_rs.Chat.{
  ChatDirection, ChatMessage, Row, Sqlite, ChatLibrary, as_i64, direction_to_str, str_to_direction,
  or_now, message_of, collect,
}

-- `WHERE peer_id = ?1`
abbrev pub of_peer : String → List Row → List Row
of_peer peer_id [] = []
of_peer peer_id (row ∷ rows) =
    if row.peer_id == peer_id then row ∷ of_peer peer_id rows else of_peer peer_id rows

-- `ORDER BY sent_at DESC, id DESC`: whether `a` stands before `b`.
abbrev pub precedes : Row → Row → Bool
precedes a b = ltb b.sent_at a.sent_at || (nat_eq a.sent_at b.sent_at && ltb b.id a.id)

abbrev pub place : Row → List Row → List Row
place row [] = row ∷ []
place row (other ∷ rest) = if precedes other row then other ∷ place row rest else row ∷ other ∷ rest

abbrev pub order : List Row → List Row
order [] = []
order (row ∷ rows) = place row (order rows)

-- `LIMIT ?2`: a negative limit is none.
abbrev pub limited : ℤ → List Row → List Row
limited (ℤ.pos n) rows = take n rows
limited (ℤ.negsuc n) rows = rows

-- The table behind a connection, the latest INSERT first, and what the statements do to it.
pub record IsSqlite {C : Type 0} (sql : Sqlite C) : Type 0 where
  pub rows : C → List Row
  pub inserts :
      (peer_id direction body : String) (time : ℕ) (c d : C)
      → sql.execute_insert peer_id direction body time c ≡ (ok tt, d)
      → (rows d
          ≡ record {
            id = sql.last_insert_rowid d;
            peer_id = peer_id;
            direction = direction;
            body = body;
            sent_at = time;
          }
            ∷ rows c)
        × All (λ (row : Row). row.id < sql.last_insert_rowid d) (rows c)
  pub prepares : (c d : C) → sql.prepare c ≡ (ok tt, d) → rows d ≡ rows c
  pub selects :
      (peer_id : String) (limit : ℤ) (c d : C) (found : List (Option Row))
      → sql.query_map peer_id limit c ≡ (ok found, d)
      → found ≡ map some (limited limit (order (of_peer peer_id (rows c))))

-- The two words that the table holds.
pub record IsChatLibrary (lib : ChatLibrary) : Type 0 where
  pub incoming : lib.eq_ignore_ascii_case "incoming" "incoming" ≡ true
  pub outgoing : lib.eq_ignore_ascii_case "outgoing" "incoming" ≡ false

pub After-of_laws :
    {S A : Type 0} {Q : A → S → Type 0} (p : Result A × S)
    → ((a : A) (t : S) → p ≡ (ok a, t) → Q a t)
    → After Q (λ x t. Unit {0}) p
After-of_laws (ok a, t) f = returned a t (f a t refl)
After-of_laws (err x, t) f = failed x t tt

pub collect-map :
    (lib : ChatLibrary) (now : ℕ) (rows : List Row)
    → collect lib now (map some rows) ≡ some (map (message_of lib now) rows)
unfolding collect
collect-map lib now [] = refl
collect-map lib now (row ∷ rows) = rw (collect-map lib now rows) refl

-- The row of a message.
abbrev pub row_of : ChatLibrary → ChatMessage → Row
row_of lib m = record {
  id = m.id;
  peer_id = m.peer_id;
  direction = direction_to_str m.direction;
  body = m.body;
  sent_at = lib.timestamp m.sent_at;
}

-- What is listed of a table.
abbrev pub listing : ChatLibrary → ℕ → String → ℕ → List Row → List ChatMessage
listing lib now peer_id limit rows =
    reverse (map (message_of lib now) (limited (as_i64 limit) (order (of_peer peer_id rows))))

-- A row that is latest by time and id stands first.
abbrev IsLatest : Row → Row → Type 0
IsLatest row other = (other.sent_at ≤ row.sent_at) × (other.id < row.id)

place_first : (row : Row) (rows : List Row) → All (IsLatest row) rows → place row rows ≡ row ∷ rows
place_first row [] h = refl
place_first row (other ∷ rest) h = rw (later other row h.0) refl
  where
    later : (a b : Row) → IsLatest b a → precedes a b ≡ false
    later a b k = ground (arith, k)

All-place :
    (P : Row → Type 0) (row : Row) (rows : List Row) → P row → All P rows → All P (place row rows)
All-place P row [] here rest = (here, tt)
All-place P row (other ∷ rows) here (first, rest) = elim (Bool-cases (precedes other row)) [
  | inl e ↦ rw e (first, All-place P row rows here rest)
  | inr e ↦ rw e (here, (first, rest))
]

All-order : (P : Row → Type 0) (rows : List Row) → All P rows → All P (order rows)
All-order P [] h = tt
All-order P (row ∷ rows) (first, rest) = All-place P row (order rows) first (All-order P rows rest)

All-of_peer :
    (P : Row → Type 0) (peer_id : String) (rows : List Row)
    → All P rows
    → All P (of_peer peer_id rows)
All-of_peer P peer_id [] h = tt
All-of_peer P peer_id (row ∷ rows) (first, rest) = elim (Bool-cases (row.peer_id == peer_id)) [
  | inl e ↦ rw e (first, All-of_peer P peer_id rows rest)
  | inr e ↦ rw e (All-of_peer P peer_id rows rest)
]

pub All_and :
    (P Q : Row → Type 0) (rows : List Row) → All P rows → All Q rows → All (λ r. P r × Q r) rows
All_and P Q [] h k = tt
All_and P Q (row ∷ rows) h k = ((h.0, k.0), All_and P Q rows h.1 k.1)

ltb_of_lt : (a b : ℕ) → a < b → ltb a b ≡ true
ltb_of_lt a b h = ground (arith, h)

-- The latest row is listed behind what was listed before, with one more allowed.
pub listing_cons :
    (lib : ChatLibrary) (now n : ℕ) (row : Row) (rows : List Row)
    → suc n < 2 ^ 63
    → All (IsLatest row) rows
    → listing lib now row.peer_id (suc n) (row ∷ rows)
      ≡ listing lib now row.peer_id n rows ++ message_of lib now row ∷ []
listing_cons lib now n row rows small latest =
    rw
      (
        eq_refl row.peer_id,
        place_first row (order (of_peer row.peer_id rows)) (
            All-order (IsLatest row) (of_peer row.peer_id rows)
              (All-of_peer (IsLatest row) row.peer_id rows latest)),
        ltb_of_lt (suc n) (2 ^ 63) small,
        ltb_of_lt n (2 ^ 63) (omega (arith, small)),
      )
      (reverse-cons (message_of lib now row)
        (map (message_of lib now) (take n (order (of_peer row.peer_id rows)))))

pub of_peer_other :
    (other : String) (row : Row) (rows : List Row)
    → row.peer_id ≢ other
    → of_peer other (row ∷ rows) ≡ of_peer other rows
of_peer_other other row rows apart = elim (Bool-cases (row.peer_id == other)) [
  | inl e ↦ absurd (apart ((eq_iff row.peer_id other).0 e))
  | inr e ↦ rw e refl
]

direction_back :
    (lib : ChatLibrary)
    → IsChatLibrary lib
    → (direction : ChatDirection) → str_to_direction lib (direction_to_str direction) ≡ direction
direction_back lib words ChatDirection.incoming = rw (words.incoming) refl
direction_back lib words ChatDirection.outgoing = rw (words.outgoing) refl

-- A message as it comes back: its time is cut to what the table holds.
pub message_of-row_of :
    (lib : ChatLibrary)
    → IsChatLibrary lib
    → (later : ℕ) (m : ChatMessage)
    → message_of lib later (row_of lib m)
      ≡ record m { sent_at = or_now later (lib.from_timestamp (lib.timestamp m.sent_at)) }
message_of-row_of lib words later m =
    ap
      (λ x. record m {
        direction = x;
        sent_at = or_now later (lib.from_timestamp (lib.timestamp m.sent_at));
      })
      (direction_back lib words m.direction)
