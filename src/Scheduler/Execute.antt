-- ===== src/Scheduler/Execute.antt =====
-- `exec_a_task` and the loop of `executing_task` of matrix/src/scheduler_stub.cpp, built with no
-- `ZHT_STORAGE`. Running a command and asking another scheduler for data are arguments.
pub mod Account
use matrix_v.Prelude.{
  ℕ, ◌+◌, Option, none, some, List, [], ◌∷◌, ◌++◌, if◌then◌else◌, Str, str_eq, codes, ℤ, pos, ltb_ℤ,
  ◌+ℤ◌, ◌-ℤ◌,
}
use matrix_v.Text.TaskMsg.{TaskMsg}
use matrix_v.Text.Value.{Value, str_to_value, get_number}
use matrix_v.Text.MatrixMsg.{mm_to_str, str_to_mm}
use matrix_v.Zht.Interface.{Zht}
use matrix_v.Scheduler.State.{Scheduler, find_data, insert_data, time_entry, count_zht}
use matrix_v.Scheduler.Queue.{pop}

-- What a task meets outside: `run` is `exec` of its command, `ask` sends a text to a scheduler and
-- returns what `recv_big` makes of the answer.
pub record Outside : Type 0 where
  pub run : Str → Str
  pub ask : Str → Str → Str

abbrev pub request : Str → Str
request name = mm_to_str (record {
  msgtype = codes "scheduler require data";
  extrainfo = some name;
  count = none;
  tasks = [];
})

-- A getter of a text that is not set returns the empty text.
abbrev get_text : Option Str → Str
get_text none = []
get_text (some t) = t

-- One piece of data that is at another scheduler: from the cache, or asked for and put there.
-- `none`: an answer that is no message.
pub fetch : Outside → Str → Str → Scheduler → Option (Str × Scheduler)
unfolding find_data insert_data
fetch out owner name s =
    let asked : Option (Str × Scheduler) = elim (str_to_mm (out.ask owner (request name))) [
      | none ↦ none
      | some mm ↦ some (
        get_text mm.extrainfo,
        if s.cache
            then record s { local_data = insert_data name (get_text mm.extrainfo) s.local_data }
            else s,
      )
    ] in
    if s.cache
    then elim (find_data name s.local_data) [ some d ↦ some (d, s) | none ↦ asked ]
    else asked

-- The loop over the parents. `none`: an index out of range, a use of the end iterator where this
-- scheduler does not have its own data, or a failure of `fetch`.
unfoldable pub gather :
    Outside → List Str → List ℤ → List Str → Str → Scheduler → Option (Str × Scheduler)
unfolding fetch
gather out [] sizes names acc s = some (acc, s)
gather out (p ∷ parents) [] names acc s = none
gather out (p ∷ parents) (z ∷ sizes) [] acc s =
    if ltb_ℤ (pos 0) z then none else gather out parents sizes [] acc s
gather out (p ∷ parents) (z ∷ sizes) (n ∷ names) acc s =
    let piece : Option (Str × Scheduler) =
      if str_eq p s.id
      then elim (find_data n s.local_data) [ none ↦ none | some d ↦ some (d, s) ]
      else fetch out p n s in
    if ltb_ℤ (pos 0) z
    then elim piece [ none ↦ none | some (d, s') ↦ gather out parents sizes names (acc ++ d) s' ]
    else gather out parents sizes names acc s

-- What is done once the command has returned `result`.
unfoldable pub finish : ℕ → ℕ → Value → TaskMsg → Str → Scheduler → Scheduler
unfolding insert_data
finish start_time fin_time value tm result s =
    let key : Str = s.id ++ tm.taskid in
    count_zht 1 (record s {
      local_data = insert_data key result s.local_data;
      task_time_entry =
          s.task_time_entry
          ++ time_entry tm.taskid (codes "StartTime") start_time
            ∷ time_entry tm.taskid (codes "FinTime") fin_time
            ∷ [];
      complete_queue =
          s.complete_queue
          ++ record { task_id = tm.taskid; key = key; data_size = get_number value.outputsize }
            ∷ [];
      num_task_fin = s.num_task_fin + 1;
    })

-- The thread takes from the local queue first, and from the other one only if that is empty.
unfoldable pub take_task : Scheduler → Option (TaskMsg × Scheduler)
unfolding pop
take_task s = elim (pop s.local_queue) [
  | some (tm, rest) ↦ some (tm, record s { local_queue = rest })
  | none ↦ elim (pop s.ws_queue) [
    | none ↦ none
    | some (tm, rest) ↦ some (tm, record s { ws_queue = rest })
  ]
]

module _ {S : Type 0} (zht : Zht S) where
  open zht use {lookup}

  unfoldable pub exec_a_task : Outside → ℕ → ℕ → S → TaskMsg → Scheduler → Option Scheduler
  unfolding gather finish
  exec_a_task out start_time fin_time store tm s = elim (str_to_value (lookup tm.taskid store)) [
    | none ↦ none
    | some value ↦ elim (gather out value.parents value.datasize value.datanamelist [] s) [
      | none ↦ none
      | some (_, s') ↦ some (finish start_time fin_time value tm (out.run tm.cmd) s')
    ]
  ]

  -- One round of `executing_task`: nothing if both queues are empty, else a task is taken, counted as
  -- running on a core, executed, and the core is free again.
  unfoldable pub executing_round : Outside → ℕ → ℕ → S → Scheduler → Option Scheduler
  unfolding take_task exec_a_task
  executing_round out start_time fin_time store s = elim (take_task s) [
    | none ↦ some s
    | some (tm, s₁) ↦
        elim (exec_a_task out start_time fin_time store tm
          (record s₁ { num_idle_core = s₁.num_idle_core -ℤ pos 1 })) [
            | none ↦ none
            | some s₂ ↦ some (record s₂ { num_idle_core = s₂.num_idle_core +ℤ pos 1 })
          ]
  ]
