-- ===== src/Tests/Queues.antt =====
-- The ready queues, their monitor, and the checks and runs of tasks (Scheduler).
use matrix_v.Prelude.{◌≡◌, refl, some, List, [], ◌∷◌, Str, codes, arith, All, ◌≤ℤ◌, pos, ◌⊎◌}
use mathlib.Core.List.{Perm}
use matrix_v.Text.TaskMsg.{TaskMsg}
use matrix_v.Scheduler.State.{Scheduler}
use matrix_v.Scheduler.Queue.{pop_many, IsSorted, pop_many-le}
use matrix_v.Text.Value.{Value, value_to_str}
use matrix_v.Zht.Interface.{Memory, memory}
use matrix_v.Scheduler.Ready.{
  steal_queue, task_ready_process, put_ready, push_message, Sent, check_a_ready_task,
  checking_round,
}
use matrix_v.Scheduler.Ready.Placement.{IsPlaced, task_ready_process-IsPlaced}
use matrix_v.Scheduler.Ready.Conserve.{unsized, held, checking_round-held}
use matrix_v.Scheduler.Execute.{Outside, finish}
use matrix_v.Tests.Samples.{
  free_value, free_value_read, scheduler, two_tasks, small_task, large_task,
}

two_tasks-IsSorted : IsSorted two_tasks
two_tasks-IsSorted = ((omega arith, tt), (tt, tt))

pop_many-le_example :
    All
      (λ t. All (λ u. t.datalength ≤ℤ u.datalength) (pop_many 1 two_tasks).1)
      (pop_many 1 two_tasks).0
pop_many-le_example = pop_many-le 1 two_tasks two_tasks-IsSorted

abbrev busy : Scheduler
busy = scheduler [] two_tasks (small_task ∷ [])

abbrev free_store : Memory
free_store key = value_to_str free_value

abbrev waiting : Scheduler
waiting = scheduler two_tasks [] []

-- The task with the size of its data.
abbrev ready_task : TaskMsg
ready_task = record small_task { datalength = pos 3 }

task_ready_process_run :
    task_ready_process waiting free_value small_task ≡ some (steal_queue, ready_task)
unfolding task_ready_process
task_ready_process_run = refl

task_ready_process-IsPlaced_example :
    IsPlaced waiting free_value steal_queue (pos 3) × (ready_task.taskid ≡ small_task.taskid)
task_ready_process-IsPlaced_example =
    task_ready_process-IsPlaced waiting free_value small_task ready_task steal_queue
      task_ready_process_run

abbrev no_message : List Sent
no_message = []

abbrev checked : Scheduler
checked = (put_ready 5 steal_queue ready_task (record waiting { wait_queue = large_task ∷ [] })).0

checking_round_run : checking_round memory 5 free_store waiting ≡ some (checked, no_message)
unfolding checking_round check_a_ready_task task_ready_process put_ready memory
checking_round_run = rw (free_value_read, checking_round, check_a_ready_task) refl

checking_round-held_example :
    ((no_message ≡ []) × Perm (held checked) (held waiting))
    ⊎ ((owner : Str) × (tm' : TaskMsg) × (unsized tm' ≡ unsized small_task)
        × (no_message ≡ record { target = owner; text = push_message tm' } ∷ [])
        × Perm (unsized small_task ∷ held checked) (held waiting))
checking_round-held_example =
    checking_round-held memory 5 free_store small_task (large_task ∷ []) waiting checked no_message
      refl checking_round_run

abbrev outside : Outside
outside = record { run = λ cmd. codes "out"; ask = λ owner text. [] }

abbrev executed : Scheduler
executed =
    record (finish 6 7 free_value small_task (codes "out")
      (record busy { local_queue = large_task ∷ []; num_idle_core = pos 3 })) {
        num_idle_core = pos 4;
      }
