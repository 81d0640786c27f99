-- ===== src/Tests/Record.antt =====
-- The number of tasks done (Scheduler.Record).
use matrix_v.Prelude.{[], pos, ◌+ℤ◌, str_eq, if◌then◌else◌}
use matrix_v.Text.Number.{num_to_str, str_to_num}
use matrix_v.Text.Value.{value_to_str}
use matrix_v.Zht.Interface.{Memory, memory}
use matrix_v.Scheduler.State.{Scheduler}
use matrix_v.Scheduler.Record.{status, done_key, Recorded}
use matrix_v.Tests.Samples.{scheduler}

-- No task is counted as done, and this scheduler has finished one.
abbrev store : Memory
store key = num_to_str (pos 0)

abbrev worker : Scheduler
worker = record (scheduler [] [] []) { num_task_fin = 1 }

abbrev rest : Memory → Memory
rest s = s

abbrev written : Memory
written key = if str_eq key worker.id then value_to_str (status worker) else store key

abbrev counted : Memory
counted key =
    if str_eq key done_key
    then num_to_str (str_to_num 64 (num_to_str (pos 0)) +ℤ pos 1)
    else written key

abbrev recorded : Recorded memory
recorded = record {
  increment = 3;
  store = counted;
  after = record worker { prev_num_task_fin = 1 };
}
