-- ===== src/Scheduler/Execute/Account.antt =====
-- What one round of `executing_task` of matrix/src/scheduler_stub.cpp does to the state.
use matrix_v.Prelude.{◌+◌, ◌≡◌, List, [], ◌∷◌, ◌++◌, Str, ◌⊎◌}
use matrix_v.Text.TaskMsg.{TaskMsg}
use matrix_v.Text.Value.{Value, get_number}
use matrix_v.Zht.Interface.{Zht}
use matrix_v.Scheduler.State.{Scheduler}

-- The second scheduler is the first one with another set of local data.
abbrev IsCached : Scheduler → Scheduler → Type 0
IsCached s s' = (held : List (Str × Str)) × (s' ≡ record s { local_data = held })

-- The task `tm` was the first of the local queue, or of the other queue where the local one is empty;
-- `local` and `queue` are what is left of the two.
abbrev IsTaken : Scheduler → TaskMsg → List TaskMsg → List TaskMsg → Type 0
IsTaken s tm local queue =
    ((s.local_queue ≡ tm ∷ local) × (queue ≡ s.ws_queue))
    ⊎ ((s.local_queue ≡ []) × (local ≡ []) × (s.ws_queue ≡ tm ∷ queue))

-- What a round on a scheduler that holds a task does. `tm` is the task taken and `value` its record.
pub record IsExecuted (value : Value) (tm : TaskMsg) (s s' : Scheduler) : Type 0 where
  pub taken : IsTaken s tm s'.local_queue s'.ws_queue
  pub waiting : s'.wait_queue ≡ s.wait_queue
  pub cores : s'.num_idle_core ≡ s.num_idle_core
  pub counted : s'.num_task_fin ≡ s.num_task_fin + 1
  pub completed :
      s'.complete_queue
      ≡ s.complete_queue
        ++ record {
          task_id = tm.taskid;
          key = s.id ++ tm.taskid;
          data_size = get_number value.outputsize;
        }
          ∷ []
