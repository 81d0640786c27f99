-- ===== src/Scheduler/Notify.antt =====
-- `notify_children` of matrix/src/scheduler_stub.cpp: a task that is done lowers the indegree of
-- each child by one and enters its output there.
pub mod Records
pub mod Atomic
use matrix_v.Prelude.{ℕ, ◌+◌, Option, none, some, List, [], ◌∷◌, ◌++◌, Str, pos, ◌+ℤ◌, ◌-ℤ◌}
use matrix_v.Text.Value.{Value, value_to_str, str_to_value, get_number}
use matrix_v.Zht.Interface.{Zht}
use matrix_v.Scheduler.State.{Scheduler, CmpQueueItem}
use matrix_v.Scheduler.Swap.{swap}

-- The changes to `childVal`: the scheduler's id, and the item that is done.
pub update_child : Str → CmpQueueItem → Value → Value
update_child self item v = record v {
  indegree = some (get_number v.indegree -ℤ pos 1);
  parents = v.parents ++ self ∷ [];
  datanamelist = v.datanamelist ++ item.key ∷ [];
  datasize = v.datasize ++ item.data_size ∷ [];
  alldatasize = some (get_number v.alldatasize +ℤ item.data_size);
}

unfoldable pub next_child : Str → CmpQueueItem → Str → Option Str
unfolding update_child
next_child self item seen = elim (str_to_value seen) [
  | none ↦ none
  | some v ↦ some (value_to_str (update_child self item v))
]

module _ {S : Type 0} (zht : Zht S) where
  open zht use {lookup}

  -- What the other processes do: before the lookup of a child, and before each attempt to swap.
  pub record Others : Type 0 where
    pub ahead : S → S
    pub during : List (S → S)

  -- The loop over the children, with the number of messages so far. `none`: an `exit`, or a loop
  -- that has not ended within the attempts of `Others`.
  unfoldable pub children_loop :
      Str → CmpQueueItem → List Str → List Others → ℕ → S → Option (ℕ × S)
  unfolding next_child
  children_loop self item [] others increment s = some (increment, s)
  children_loop self item (child ∷ children) [] increment s = none
  children_loop self item (child ∷ children) (other ∷ others) increment s =
      elim (swap zht (next_child self item) child other.during (other.ahead s)) [
        | none ↦ none
        | some (spent, s') ↦
            children_loop self item children others (increment + 2 + spent.lookups + spent.failures)
              s'
      ]

  unfoldable pub notify_children : Str → CmpQueueItem → List Others → S → Option (ℕ × S)
  unfolding children_loop
  notify_children self item others s = elim (str_to_value (lookup item.task_id s)) [
    | none ↦ none
    | some value ↦ children_loop self item value.children others 1 s
  ]

  -- One round of `checking_complete_task`: the first item of the complete queue is taken. The number
  -- is that of the messages.
  unfoldable complete_round : List Others → S → Scheduler → Option (ℕ × S × Scheduler)
  unfolding notify_children
  complete_round others store s = elim s.complete_queue [
    | [] ↦ some (0, store, s)
    | item ∷ rest ↦ elim (notify_children s.id item others store) [
      | none ↦ none
      | some (increment, store') ↦ some (increment, store', record s { complete_queue = rest })
    ]
  ]
