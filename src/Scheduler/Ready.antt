-- ===== src/Scheduler/Ready.antt =====
-- `task_ready_process`, `check_a_ready_task` and the loop of `checking_ready_task` of
-- matrix/src/scheduler_stub.cpp, built as matrix/src/Makefile does: no `ZHT_STORAGE`.
pub mod Placement
pub mod Conserve
use matrix_v.Prelude.{
  ℕ, zero, suc, ◌+◌, Bool, true, false, Option, none, some, List, [], ◌∷◌, ◌++◌, if◌then◌else◌, Str,
  str_eq, codes, ℤ, pos, negsuc, ltb_ℤ, ◌-ℤ◌, leb, ◌==◌, not, ◌&&◌, ◌≡◌, refl, arith, pos_part,
  neg_part,
}
use matrix_v.Text.TaskMsg.{TaskMsg, taskmsg_to_str}
use matrix_v.Text.Value.{Value, str_to_value, get_number}
use matrix_v.Text.MatrixMsg.{MatrixMsg, mm_to_str}
use matrix_v.Zht.Interface.{Zht}
use matrix_v.Scheduler.State.{Scheduler, find_data, time_entry}
use matrix_v.Scheduler.Queue.{push}

-- `maxDataSize`, `maxDataScheduler` and `key`
pub record Largest : Type 0 where
  pub size : ℤ
  pub owner : Str
  pub key : Str

abbrev pub no_data : Largest
no_data = record { size = negsuc 999999; owner = []; key = [] }

-- The loop over the data of the parents. `none`: a size with no parent or name at its index.
pub largest_data : List ℤ → List Str → List Str → Largest → Option Largest
largest_data [] parents names best = some best
largest_data (z ∷ sizes) [] names best = none
largest_data (z ∷ sizes) (p ∷ parents) [] best = none
largest_data (z ∷ sizes) (p ∷ parents) (n ∷ names) best =
    largest_data sizes parents names
      (if ltb_ℤ best.size z then record { size = z; owner = p; key = n } else best)

-- Where a task that is ready goes: `flag` 0, 1 and 2.
pub data Place : Type 0 where
  steal_queue local_queue : Place
  pushed : Str → Place

choose_place : Scheduler → Largest → Place
unfolding find_data
choose_place s best =
    if str_eq best.owner s.id
    then local_queue
    else if s.cache
    then elim (find_data best.key s.local_data) [ some _ ↦ local_queue | none ↦ pushed best.owner ]
    else pushed best.owner

-- The place, and the task with its data length set.
unfoldable pub task_ready_process : Scheduler → Value → TaskMsg → Option (Place × TaskMsg)
unfolding largest_data choose_place
task_ready_process s value tm =
    if ltb_ℤ s.config.data_size_threshold (get_number value.alldatasize)
    then elim (largest_data value.datasize value.parents value.datanamelist no_data) [
      | none ↦ none
      | some best ↦ some (choose_place s best, record tm { datalength = best.size })
    ]
    else some (steal_queue, record tm { datalength = get_number value.alldatasize })

-- A message, and the scheduler that it goes to.
pub record Sent : Type 0 where
  pub target : Str
  pub text : Str

abbrev pub push_message : TaskMsg → Str
push_message tm = mm_to_str (record {
  msgtype = codes "scheduler push task";
  extrainfo = none;
  count = some (pos 1);
  tasks = taskmsg_to_str tm ∷ [];
})

abbrev ready_entry : ℕ → TaskMsg → Scheduler → Scheduler
ready_entry now tm s = record s {
  task_time_entry = s.task_time_entry ++ time_entry tm.taskid (codes "ReadyQueuedTime") now ∷ [];
}

unfoldable pub put_ready : ℕ → Place → TaskMsg → Scheduler → Scheduler × List Sent
put_ready now steal_queue tm s =
    (record (ready_entry now tm s) { ws_queue = push tm s.ws_queue }, [])
put_ready now local_queue tm s =
    (record (ready_entry now tm s) { local_queue = push tm s.local_queue }, [])
put_ready now (pushed owner) tm s = (s, record { target = owner; text = push_message tm } ∷ [])

abbrev is_zero : ℤ → Bool
is_zero z = pos_part z == 0 && neg_part z == 0

-- What a check of one task does: whether it is ready, the scheduler after it, and what is sent.
pub record Checked : Type 0 where
  pub ready : Bool
  pub after : Scheduler
  pub sent : List Sent

module _ {S : Type 0} (zht : Zht S) where
  open zht use {lookup}

  -- `none`: an `exit` in `str_to_value`, or an index out of range.
  unfoldable pub check_a_ready_task : ℕ → TaskMsg → S → Scheduler → Option Checked
  unfolding put_ready task_ready_process
  check_a_ready_task now tm store s = elim (str_to_value (lookup tm.taskid store)) [
    | none ↦ none
    | some value ↦
        if is_zero (get_number value.indegree)
        then elim (task_ready_process s value tm) [
          | none ↦ none
          | some (place, tm') ↦
              let (s', sent) = put_ready now place tm' s in
              some (record { ready = true; after = s'; sent = sent })
        ]
        else some (record { ready = false; after = s; sent = [] })
  ]

  -- One round of `checking_ready_task`: the first task of the wait queue is checked, and goes to the
  -- end of the queue where it is not ready.
  unfoldable pub checking_round : ℕ → S → Scheduler → Option (Scheduler × List Sent)
  unfolding check_a_ready_task
  checking_round now store s = elim s.wait_queue [
    | [] ↦ some (s, [])
    | tm ∷ rest ↦ elim (check_a_ready_task now tm store (record s { wait_queue = rest })) [
      | none ↦ none
      | some c ↦ some (
        if c.ready then c.after else record c.after { wait_queue = c.after.wait_queue ++ tm ∷ [] },
        c.sent,
      )
    ]
  ]
