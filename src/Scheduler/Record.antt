-- ===== src/Scheduler/Record.antt =====
-- One round of `recording_stat`, `record_task_time` and `regist` of matrix/src/scheduler_stub.cpp.
pub mod Counter
use matrix_v.Prelude.{
  equal_ℤ, ℕ, ◌+◌, ◌-◌, ◌==◌, true, false, Option, none, some, List, [], ◌∷◌, if◌then◌else◌, Str,
  codes, ℤ, pos, ◌+ℤ◌, length, is_empty,
}
use mathlib.Core.List.{reverse}
use matrix_v.Text.Number.{num_to_str, str_to_num}
use matrix_v.Text.Value.{Value, new_value, value_to_str}
use matrix_v.Zht.Interface.{Zht}
use matrix_v.Scheduler.State.{Scheduler}
use matrix_v.Scheduler.Swap.{reread, swap}

-- The record of a scheduler's state that stands under its id.
pub status : Scheduler → Value
status s = record (new_value s.id) {
  numtaskfin = some (pos s.num_task_fin);
  numtaskwait = some (pos (length s.wait_queue));
  numtaskready = some (pos (length s.local_queue + length s.ws_queue));
  numcoreavilable = some s.num_idle_core;
  numallcore = some s.config.num_core_per_executor;
  numworksteal = some (pos s.num_ws);
  numworkstealfail = some (pos s.num_ws_fail);
}

-- `"num tasks done"`
abbrev pub done_key : Str
done_key = codes "num tasks done"

module _ {S : Type 0} (zht : Zht S) where
  open zht use {lookup, insert, compare_swap}

  -- The loop adds `delta` to the number of tasks done. It stops early where all are done after a
  -- failure. The result is the number of messages, and the store; `none`: no attempt is left.
  unfoldable pub done_loop : ℤ → ℕ → List (S → S) → Str → ℕ → S → Option (ℕ × S)
  unfolding reread
  done_loop num_all delta [] seen increment store = none
  done_loop num_all delta (other ∷ others) seen increment store =
      let new : Str = num_to_str (str_to_num 64 seen +ℤ pos delta) in
      let r = compare_swap done_key seen new (other store) in
      let (seen', more) = reread zht done_key r in
      elim r.done [
        | true ↦ some (increment, r.after)
        | false ↦ elim (equal_ℤ (str_to_num 64 seen') num_all) [
          | true ↦ some (increment + more, r.after)
          | false ↦ done_loop num_all delta others seen' (increment + more + 1) r.after
        ]
      ]

  pub record Recorded : Type 0 where
    pub increment : ℕ
    pub store : S
    pub after : Scheduler

  -- A round writes the status, looks up the number of tasks done, and either ends the scheduler, or
  -- adds the tasks that it has done since the last round. `ahead` is what other processes do before
  -- the lookup.
  unfoldable pub recording_round : (S → S) → List (S → S) → S → Scheduler → Option Recorded
  unfolding status done_loop
  recording_round ahead others store s =
      let written : S = ahead (insert s.id (value_to_str (status s)) store) in
      let seen : Str = lookup done_key written in
      if equal_ℤ (str_to_num 64 seen) s.config.num_all_task
      then some (record { increment = 2; store = written; after = record s { running = false } })
      else elim (done_loop s.config.num_all_task (s.num_task_fin - s.prev_num_task_fin) others seen
          3 written) [
            | none ↦ none
            | some (increment, store') ↦ some (record {
              increment = increment;
              store = store';
              after = record s { prev_num_task_fin = s.num_task_fin };
            })
          ]

  abbrev reg_key : Str
  reg_key = codes "number of scheduler registered"

  -- `while (value.empty())`; `none`: no look is left.
  await_value : Str → List (S → S) → S → Option S
  await_value key [] store = none
  await_value key (other ∷ others) store =
      let store' : S = other store in
      elim (is_empty (lookup key store')) [
        | true ↦ await_value key others store'
        | false ↦ some store'
      ]

  next_reg : Str → Option Str
  next_reg seen = some (num_to_str (str_to_num 32 seen +ℤ pos 1))

  -- The first scheduler writes the three counters; every other one waits for the first of them and
  -- adds itself.
  unfoldable regist : List (S → S) → List (S → S) → S → Scheduler → Option S
  unfolding await_value next_reg
  regist waits others store s =
      if s.index == 0
      then some (
          insert (codes "num tasks recv") (codes "0")
            (insert done_key (codes "0") (insert reg_key (codes "1") store)))
      else elim (await_value reg_key waits store) [
        | none ↦ none
        | some store' ↦ elim (swap zht next_reg reg_key others store') [
          | none ↦ none
          | some (_, store'') ↦ some store''
        ]
      ]

-- One round of `record_task_time`: the entries leave from the back of the vector.
unfoldable record_task_time_round : Scheduler → List Str × Scheduler
record_task_time_round s = (reverse s.task_time_entry, record s { task_time_entry = [] })
