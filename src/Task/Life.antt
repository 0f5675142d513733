-- ===== src/Task/Life.antt =====
-- The states that a task of crates/core/src/models.rs passes through.
use send_rs.Prelude.{
  ◌⊎◌, inl, inr, sym, ◌∙◌, ℕ, ◌≤◌, ◌<◌, String, Option, none, some, Bool, true, false, ◌≡◌, refl,
  arith, min, nat_eq, ltb, if◌then◌else◌,
}
use send_rs.Task.{
  TransferTask, TransferTaskStatus, NetworkMode, new_send, update_progress, accept_receive,
  mark_in_progress, mark_failed, settle,
}

-- The tasks that the operations make out of a new one.
pub data Reachable : TransferTask → Type 0 where
  created :
      (uuid : String) (now : ℕ) (peer_id source_path : String) (mode : NetworkMode) (n : ℕ)
      → Reachable (new_send uuid now peer_id source_path mode n)
  progressed : (now n : ℕ) (t : TransferTask) → Reachable t → Reachable (update_progress now n t)
  accepted :
      (now : ℕ) (path : String) (t : TransferTask)
      → Reachable t
      → Reachable (accept_receive now path t)
  started : (now : ℕ) (t : TransferTask) → Reachable t → Reachable (mark_in_progress now t)
  broken : (now : ℕ) (m : String) (t : TransferTask) → Reachable t → Reachable (mark_failed now m t)

-- The reason of the last failure since the task was last accepted or put in progress.
unfoldable pub last_failure : (t : TransferTask) → Reachable t → Option String
last_failure _ (created uuid now p path mode n) = none
last_failure _ (progressed now n t r) = last_failure t r
last_failure _ (accepted now path t r) = none
last_failure _ (started now t r) = none
last_failure _ (broken now m t r) = some m

-- What a status promises about the error message, where `last` is the reason of that failure.
abbrev Promise : TransferTaskStatus → Option String → Option String → Type 0
Promise TransferTaskStatus.awaiting_accept message last = message ≡ none
Promise TransferTaskStatus.pending message last = message ≡ none
Promise TransferTaskStatus.in_progress message last = (message ≡ none) ⊎ (message ≡ last)
Promise TransferTaskStatus.completed message last = message ≡ none
Promise TransferTaskStatus.failed message last = (w : String) × (message ≡ some w) × (last ≡ some w)

abbrev pub IsSound : TransferTask → Option String → Type 0
IsSound t last = (t.bytes_done ≤ t.bytes_total) × Promise t.status t.error_message last

shown :
    (status : TransferTaskStatus) (message last : Option String)
    → Promise status message last
    → (message ≡ none) ⊎ (message ≡ last)
shown TransferTaskStatus.awaiting_accept message last p = inl p
shown TransferTaskStatus.pending message last p = inl p
shown TransferTaskStatus.in_progress message last p = p
shown TransferTaskStatus.completed message last p = inl p
shown TransferTaskStatus.failed message last (w, p, q) = inr (p ∙ sym q)

settled-IsSound :
    (t : TransferTask) (last : Option String) (all some_done : Bool)
    → IsSound t last
    → IsSound
        (if all
          then (record t { status = TransferTaskStatus.completed; error_message = none })
          else if some_done
          then (record t { status = TransferTaskStatus.in_progress })
          else t)
        last
settled-IsSound t last true some_done (bound, promise) = (bound, refl)
settled-IsSound t last false true (bound, promise) =
    (bound, shown t.status t.error_message last promise)
settled-IsSound t last false false s = s

settle-IsSound :
    (t : TransferTask) (last : Option String) → IsSound t last → IsSound (settle t) last
settle-IsSound t last =
    settled-IsSound t last (nat_eq t.bytes_done t.bytes_total) (ltb 0 t.bytes_done)

-- In every task that the operations make out of a new one, the bytes done are within the total. One
-- that waits, is pending or is complete shows no error; a failed one shows the reason of the last
-- failure; and one in progress shows no error, or the reason of the last failure since it was last
-- accepted or put in progress by `mark_in_progress`.
pub Reachable-IsSound : (t : TransferTask) (r : Reachable t) → IsSound t (last_failure t r)
unfolding new_send update_progress accept_receive mark_in_progress mark_failed last_failure
Reachable-IsSound _ (created uuid now p path mode n) = (omega arith, refl)
Reachable-IsSound _ (progressed now n t r) =
    settle-IsSound (record t { bytes_done = min n t.bytes_total }) (last_failure t r)
      (omega arith, (Reachable-IsSound t r).1)
Reachable-IsSound _ (accepted now path t r) = ((Reachable-IsSound t r).0, refl)
Reachable-IsSound _ (started now t r) = ((Reachable-IsSound t r).0, inl refl)
Reachable-IsSound _ (broken now m t r) = ((Reachable-IsSound t r).0, (m, refl, refl))

-- A progress report of at least the total completes a task and clears its error, whatever state
-- the task was in.
update_progress-completes :
    (now n : ℕ) (t : TransferTask)
    → t.bytes_total ≤ n
    → (update_progress now n t).status ≡ TransferTaskStatus.completed
      × (update_progress now n t).error_message ≡ none
      × (update_progress now n t).bytes_done ≡ t.bytes_total
unfolding update_progress
update_progress-completes now n t h = ground arith

-- A progress report between nothing and the total puts a failed task back in progress and leaves
-- the message of the failure in it.
pub update_progress-mark_failed :
    (now n later : ℕ) (m : String) (t : TransferTask)
    → 0 < n
    → n < t.bytes_total
    → (update_progress later n (mark_failed now m t)).status ≡ TransferTaskStatus.in_progress
      × (update_progress later n (mark_failed now m t)).error_message ≡ some m
unfolding update_progress mark_failed
update_progress-mark_failed now n later m t h k = ground arith

-- A progress report of no bytes leaves a completed task that has bytes to move at `completed`,
-- with no bytes done.
pub update_progress-reset :
    (now later n : ℕ) (t : TransferTask)
    → t.bytes_total ≤ n
    → 0 < t.bytes_total
    → (update_progress later 0 (update_progress now n t)).status ≡ TransferTaskStatus.completed
      × (update_progress later 0 (update_progress now n t)).bytes_done ≡ 0
unfolding update_progress
update_progress-reset now later n t h k = ground arith
