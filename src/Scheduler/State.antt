-- ===== src/Scheduler/State.antt =====
-- The state of a scheduler (matrix/src/scheduler_stub.h, `Peer` of matrix/src/util.h, and the fields
-- of matrix/src/config.h that the scheduler reads), and the interface of a logged event.
use matrix_v.Prelude.{
  ℕ, ◌+◌, Bool, Option, none, some, List, [], ◌∷◌, ◌++◌, if◌then◌else◌, Str, str_eq, ℤ, pos,
}
use matrix_v.Text.Number.{num_to_str}
use matrix_v.Text.TaskMsg.{TaskMsg}

-- A task that is done, with the key and the size of its output.
pub record CmpQueueItem : Type 0 where
  pub task_id : Str
  pub key : Str
  pub data_size : ℤ

pub record Config : Type 0 where
  pub num_task_per_client : ℕ
  pub num_all_task : ℤ
  pub num_core_per_executor : ℤ
  pub max_task_per_pkg : ℕ
  pub work_stealing_on : ℕ
  pub ws_poll_interval_start : ℕ
  pub ws_poll_interval_ub : ℕ
  pub data_size_threshold : ℤ

pub record Scheduler : Type 0 where
  pub id : Str
  pub index : ℕ
  pub scheduler_vec : List Str
  pub config : Config
  pub running : Bool
  pub num_zht_msg : ℕ
  pub num_idle_core : ℤ
  pub prev_num_task_fin : ℕ
  pub num_task_fin : ℕ
  pub num_ws : ℕ
  pub num_ws_fail : ℕ
  pub poll_interval : ℕ
  pub max_loaded_idx : Option ℕ
  pub max_load : ℤ
  pub num_neigh : ℕ
  pub neigh_idx : List ℕ
  pub wait_queue : List TaskMsg
  pub local_queue : List TaskMsg
  pub ws_queue : List TaskMsg
  pub complete_queue : List CmpQueueItem
  pub local_data : List (Str × Str)
  pub cache : Bool
  pub task_time_entry : List Str

-- `localData.find(name)->second`, unless that is the end
unfoldable pub find_data : Str → List (Str × Str) → Option Str
find_data name [] = none
find_data name ((k, v) ∷ rest) = if str_eq name k then some v else find_data name rest

-- `localData.insert(make_pair(name, v))`: an entry that is there stays.
unfoldable pub insert_data : Str → Str → List (Str × Str) → List (Str × Str)
insert_data name v [] = (name, v) ∷ []
insert_data name v ((k, w) ∷ rest) =
    if str_eq name k then (k, w) ∷ rest else (k, w) ∷ insert_data name v rest

-- `taskid + "\tEvent\t" + time`; a tab is byte 9.
unfoldable pub time_entry : Str → Str → ℕ → Str
time_entry taskid event time = taskid ++ 9 ∷ event ++ 9 ∷ num_to_str (pos time)

-- `incre_ZHT_msg_count`
abbrev pub count_zht : ℕ → Scheduler → Scheduler
count_zht n s = record s { num_zht_msg = s.num_zht_msg + n }
