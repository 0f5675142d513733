-- ===== src/Task/Tests.antt =====
-- The life cycle theorems at concrete tasks.
use send_rs.Prelude.{◌≡◌, some, arith}
use send_rs.Task.{
  TransferTask, TransferTaskStatus, NetworkMode, new_send, update_progress, mark_failed,
}
use send_rs.Task.Life.{
  Reachable, last_failure, IsSound, Reachable-IsSound, update_progress-mark_failed,
  update_progress-reset,
}

abbrev task : TransferTask
task = new_send "id" 1 "peer" "/src" NetworkMode.lan 10

-- In progress again after a failure.
Reachable-IsSound_example : IsSound (update_progress 4 6 (mark_failed 3 "lost" task)) (some "lost")
unfolding last_failure
Reachable-IsSound_example = Reachable-IsSound (update_progress 4 6 (mark_failed 3 "lost" task)) (
    Reachable.progressed 4 6 (mark_failed 3 "lost" task)
      (Reachable.broken 3 "lost" task (Reachable.created "id" 1 "peer" "/src" NetworkMode.lan 10)))

update_progress-mark_failed_example :
    ((update_progress 4 6 (mark_failed 3 "lost" task)).status ≡ TransferTaskStatus.in_progress)
    × ((update_progress 4 6 (mark_failed 3 "lost" task)).error_message ≡ some "lost")
unfolding new_send
update_progress-mark_failed_example =
    update_progress-mark_failed 3 6 4 "lost" task (omega arith) (omega arith)

update_progress-reset_example :
    ((update_progress 3 0 (update_progress 2 10 task)).status ≡ TransferTaskStatus.completed)
    × ((update_progress 3 0 (update_progress 2 10 task)).bytes_done ≡ 0)
unfolding new_send
update_progress-reset_example = update_progress-reset 2 3 10 task (omega arith) (omega arith)
