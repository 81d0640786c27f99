-- ===== src/Tests/Serve.antt =====
-- Messages and batches at a scheduler (Scheduler.Serve), and the atomic changes of the store
-- (Scheduler.Swap).
use matrix_v.Prelude.{ℕ, ◌≡◌, some, [], ◌∷◌, ◌++◌, Str, codes, arith, pos}
use matrix_v.Text.Number.{num_to_str}
use matrix_v.Text.MatrixMsg.{MatrixMsg, str_to_mm}
use matrix_v.Text.Value.{get_number}
use matrix_v.Zht.Interface.{Memory, memory}
use matrix_v.Scheduler.State.{Scheduler, time_entry}
use matrix_v.Scheduler.Queue.{push}
use matrix_v.Scheduler.Ready.{push_message}
use matrix_v.Scheduler.Steal.{query_message}
use matrix_v.Scheduler.Serve.{proc_req}
use matrix_v.Scheduler.Serve.Messages.{proc_req-query_message, proc_req-push_message}
use matrix_v.Tests.Samples.{scheduler, two_tasks, small_task, small_task-IsSendable}

abbrev clock : ℕ → ℕ
clock i = i

abbrev store : Memory
store key = num_to_str (pos 7)

abbrev receiver : Scheduler
receiver = scheduler [] [] two_tasks

proc_req-query_message_example :
    (reply : Str) × (mm : MatrixMsg) × (proc_req memory 3 clock [] query_message [] [] store
        receiver
      ≡ some (record { answer = reply ∷ []; store = store; after = receiver }))
    × (str_to_mm reply ≡ some mm)
    × (get_number mm.count ≡ pos 2)
proc_req-query_message_example =
    proc_req-query_message memory 3 clock [] [] [] store receiver (omega arith)

proc_req-push_message_example :
    (reply : Str) × (proc_req memory 3 clock [] (push_message small_task) [] [] store receiver
      ≡ some (record {
        answer = reply ∷ [];
        store = store;
        after = record receiver {
          local_queue = push small_task [];
          task_time_entry = [] ++ time_entry small_task.taskid (codes "PushQueuedTime") 3 ∷ [];
        };
      }))
proc_req-push_message_example =
    proc_req-push_message memory 3 clock [] [] [] store receiver small_task small_task-IsSendable
