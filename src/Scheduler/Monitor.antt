-- ===== src/Scheduler/Monitor.antt =====
-- One round of `localQueue_monitor` of matrix/src/scheduler_stub.cpp. `max_size` is the number that
-- the source computes in floating point from the throughput: it is an argument.
use matrix_v.Prelude.{
  ℕ, ◌-◌, ◌≡◌, refl, Bool-cases, inl, inr, List, ◌++◌, append_assoc, ltb, ◌==◌, if◌then◌else◌,
  length,
}
use mathlib.Core.List.{Perm, perm_append_comm}
use mathlib.Core.List.Perm
use matrix_v.Text.TaskMsg.{TaskMsg}
use matrix_v.Scheduler.State.{Scheduler}
use matrix_v.Scheduler.Queue.{push_all, pop_many, push_all-perm, pop_many-append}

pub monitor_round : ℕ → Scheduler → Scheduler
unfolding pop_many push_all
monitor_round max_size s =
    if max_size == 0
    then s
    else if ltb max_size (length s.local_queue)
    then (let num_task_to_move = length s.local_queue - max_size in
        let (remain, rest) = pop_many max_size s.local_queue in
        let (migrated, left) = pop_many num_task_to_move rest in
        record s { local_queue = push_all remain left; ws_queue = push_all migrated s.ws_queue })
    else s

moved_perm :
    (l remain rest m left q : List TaskMsg)
    → remain ++ rest ≡ l
    → m ++ left ≡ rest
    → Perm (push_all remain left ++ push_all m q) (l ++ q)
moved_perm l remain rest m left q e f =
    Perm.trans (Perm.append (push_all-perm remain left) (push_all-perm m q)) (
      rw
        (
          append_assoc remain left (m ++ q),
          ← append_assoc left m q,
          ← e,
          append_assoc remain rest q,
          ← f,
        )
        (Perm.append_left remain (Perm.append_right q (perm_append_comm left m))))

-- A round of the monitor loses no task of the local queue and the queue that may be stolen from,
-- and doubles none.
pub monitor_round-perm :
    (max_size : ℕ) (s : Scheduler)
    → Perm
        ((monitor_round max_size s).local_queue ++ (monitor_round max_size s).ws_queue)
        (s.local_queue ++ s.ws_queue)
unfolding monitor_round
monitor_round-perm max_size s = elim (Bool-cases (max_size == 0)) [
  | inl none_yet ↦ rw none_yet (Perm.refl _)
  | inr some_done ↦ rw some_done (elim (Bool-cases (ltb max_size (length s.local_queue))) [
    | inr fits ↦ rw fits (Perm.refl _)
    | inl over ↦ rw over (
        moved_perm s.local_queue (pop_many max_size s.local_queue).0
          (pop_many max_size s.local_queue).1
          (pop_many (length s.local_queue - max_size) (pop_many max_size s.local_queue).1).0
          (pop_many (length s.local_queue - max_size) (pop_many max_size s.local_queue).1).1
          s.ws_queue (pop_many-append max_size s.local_queue)
          (pop_many-append (length s.local_queue - max_size) (pop_many max_size s.local_queue).1))
  ])
]
