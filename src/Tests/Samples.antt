-- ===== src/Tests/Samples.antt =====
-- Tasks, records and a scheduler that the runs use.
use matrix_v.Prelude.{ℕ, ◌≡◌, none, some, List, [], ◌∷◌, true, codes, pos, negsuc, refl, arith}
use matrix_v.Text.Token.{is_off, IsField-word}
use matrix_v.Text.TaskMsg.{TaskMsg}
use matrix_v.Text.Value.{Value, new_value, value_to_str, str_to_value}
use matrix_v.Text.Value.RoundTrip.{str_to_value-value_to_str}
use matrix_v.Scheduler.State.{Config, Scheduler}
use matrix_v.Wire.Batch.Texts.{IsSendable}

abbrev pub task : ℕ → ℕ → TaskMsg
task c n = record {
  taskid = 116 ∷ c ∷ [];
  user = codes "kwang";
  dir = codes "tmp";
  cmd = codes "hostname";
  datalength = pos n;
}

abbrev pub small_task : TaskMsg
small_task = task 97 7

abbrev pub large_task : TaskMsg
large_task = task 98 90000

pub small_task-IsSendable : IsSendable small_task
unfolding is_off
small_task-IsSendable = record {
  taskid_ok = IsField-word (codes "@!&#$") b't' (codes "a") refl;
  user_ok = IsField-word (codes "@!&#$") b'k' (codes "wang") refl;
  dir_ok = IsField-word (codes "@!&#$") b't' (codes "mp") refl;
  cmd_ok = IsField-word (codes "@!&#$") b'h' (codes "ostname") refl;
  datalength_ok = omega arith;
}

pub large_task-IsSendable : IsSendable large_task
unfolding is_off
large_task-IsSendable = record {
  taskid_ok = IsField-word (codes "@!&#$") b't' (codes "b") refl;
  user_ok = IsField-word (codes "@!&#$") b'k' (codes "wang") refl;
  dir_ok = IsField-word (codes "@!&#$") b't' (codes "mp") refl;
  cmd_ok = IsField-word (codes "@!&#$") b'h' (codes "ostname") refl;
  datalength_ok = omega arith;
}

abbrev pub two_tasks : List TaskMsg
two_tasks = small_task ∷ large_task ∷ []

abbrev config : Config
config = record {
  num_task_per_client = 2;
  num_all_task = pos 2;
  num_core_per_executor = pos 4;
  max_task_per_pkg = 1;
  work_stealing_on = 1;
  ws_poll_interval_start = 1000;
  ws_poll_interval_ub = 50000;
  data_size_threshold = pos 10;
}

-- A scheduler with the given wait, local and work stealing queues.
abbrev pub scheduler : List TaskMsg → List TaskMsg → List TaskMsg → Scheduler
scheduler waiting local stealable = record {
  id = codes "s1";
  index = 0;
  scheduler_vec = codes "s1" ∷ codes "s2" ∷ codes "s3" ∷ [];
  config = config;
  running = true;
  num_zht_msg = 0;
  num_idle_core = pos 4;
  prev_num_task_fin = 0;
  num_task_fin = 0;
  num_ws = 0;
  num_ws_fail = 0;
  poll_interval = 1000;
  max_loaded_idx = none;
  max_load = negsuc 999999;
  num_neigh = 2;
  neigh_idx = 1 ∷ 2 ∷ [];
  wait_queue = waiting;
  local_queue = local;
  ws_queue = stealable;
  complete_queue = [];
  local_data = [];
  cache = true;
  task_time_entry = [];
}

-- The record of a task with no parent left, and no data.
abbrev pub free_value : Value
free_value = record (new_value (codes "ta")) {
  indegree = some (pos 0);
  alldatasize = some (pos 3);
  outputsize = some (pos 42);
}

pub free_value_read : str_to_value (value_to_str free_value) ≡ some free_value
unfolding is_off
free_value_read =
    str_to_value-value_to_str free_value
      (record {
        id_ok = IsField-word (codes "~~") b't' (codes "a") refl;
        indegree_ok = omega arith;
        parents_ok = (tt, tt);
        children_ok = (tt, tt);
        datanamelist_ok = (tt, tt);
        datasize_ok = tt;
        alldatasize_ok = omega arith;
        tasklength_ok = tt;
        numtaskfin_ok = tt;
        numworksteal_ok = tt;
        numworkstealfail_ok = tt;
        numtaskwait_ok = tt;
        numtaskready_ok = tt;
        numcoreavilable_ok = tt;
        numallcore_ok = tt;
        submittime_ok = tt;
      })
      (omega arith)
