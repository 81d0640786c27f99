-- ===== src/Tests/Notify.antt =====
-- A task that is done, and its child (Scheduler.Notify).
use matrix_v.Prelude.{
  ◌≡◌, refl, some, Option, [], ◌∷◌, Str, codes, arith, pos, if◌then◌else◌, str_eq, str_eq_refl,
  ne_of_str_eq,
}
use matrix_v.Text.Token.{is_off, IsField-word, AllOff-word}
use matrix_v.Text.Value.{Value, new_value, value_to_str, str_to_value}
use matrix_v.Text.Value.RoundTrip.{str_to_value-value_to_str}
use matrix_v.Zht.Interface.{Memory, memory, memory_swap, IsKey}
use matrix_v.Scheduler.State.{CmpQueueItem}
use matrix_v.Scheduler.Swap.{unspent, swap, swap_loop, reread}
use matrix_v.Scheduler.Notify.{update_child, next_child, Others, children_loop, notify_children}
use matrix_v.Scheduler.Notify.Records.{IsSlashless}
use matrix_v.Scheduler.Notify.Atomic.{IsNotified, notify_children-IsNotified}

abbrev parent : Value
parent = record (new_value (codes "ta")) { children = codes "tb" ∷ [] }

abbrev child : Value
child = record (new_value (codes "tb")) { indegree = some (pos 1) }

parent_read : str_to_value (value_to_str parent) ≡ some parent
unfolding is_off
parent_read =
    str_to_value-value_to_str parent
      (record {
        id_ok = IsField-word (codes "~~") b't' (codes "a") refl;
        indegree_ok = tt;
        parents_ok = (tt, tt);
        children_ok = (
          ((IsField-word (codes "~~") b't' (codes "b") refl).0, tt),
          (IsField-word (codes "??") b't' (codes "b") refl, tt),
        );
        datanamelist_ok = (tt, tt);
        datasize_ok = tt;
        alldatasize_ok = tt;
        tasklength_ok = tt;
        numtaskfin_ok = tt;
        numworksteal_ok = tt;
        numworkstealfail_ok = tt;
        numtaskwait_ok = tt;
        numtaskready_ok = tt;
        numcoreavilable_ok = tt;
        numallcore_ok = tt;
        submittime_ok = tt;
      })
      tt

child_read : str_to_value (value_to_str child) ≡ some child
unfolding is_off
child_read =
    str_to_value-value_to_str child
      (record {
        id_ok = IsField-word (codes "~~") b't' (codes "b") refl;
        indegree_ok = omega arith;
        parents_ok = (tt, tt);
        children_ok = (tt, tt);
        datanamelist_ok = (tt, tt);
        datasize_ok = tt;
        alldatasize_ok = tt;
        tasklength_ok = tt;
        numtaskfin_ok = tt;
        numworksteal_ok = tt;
        numworkstealfail_ok = tt;
        numtaskwait_ok = tt;
        numtaskready_ok = tt;
        numcoreavilable_ok = tt;
        numallcore_ok = tt;
        submittime_ok = tt;
      })
      tt

abbrev store : Memory
store key = if str_eq key (codes "ta") then value_to_str parent else value_to_str child

abbrev item : CmpQueueItem
item = record { task_id = codes "ta"; key = codes "s1ta"; data_size = pos 42 }

abbrev quiet : Others memory
quiet = record { ahead = λ s. s; during = (λ s. s) ∷ [] }

abbrev notified : Memory
notified key =
    if str_eq key (codes "tb")
    then value_to_str (update_child (codes "s1") item child)
    else store key

child-IsSlashless : IsSlashless child
unfolding is_off
child-IsSlashless = record {
  id_ok = AllOff-word (codes "//") (codes "tb") refl;
  parents_ok = tt;
  children_ok = tt;
  names_ok = tt;
}

child-IsKey : IsKey (codes "tb")
unfolding is_off str_eq
child-IsKey = (
  IsField-word (codes "//") b't' (codes "b") refl,
  ne_of_str_eq (codes "tb") (codes "nokey") refl,
)

child_next :
    next_child (codes "s1") item (value_to_str child)
    ≡ some (value_to_str (update_child (codes "s1") item child))
unfolding next_child
child_next = rw (child_read, next_child) refl

-- With nobody else at work the first attempt succeeds.
quiet_swap :
    (next : Str → Option Str) (k new : Str) (s : Memory)
    → next (s k) ≡ some new
    → swap memory next k ((λ t. t) ∷ []) s
      ≡ some (unspent memory, (λ key. if str_eq key k then new else s key))
unfolding swap swap_loop reread memory memory_swap
quiet_swap next k new s e =
    rw (e, swap)
      (rw (str_eq_refl (s k), swap_loop) (rw (str_eq_refl (s k), memory, memory_swap) refl))

notify_children_run :
    notify_children memory (codes "s1") item (quiet ∷ []) store ≡ some (3, notified)
unfolding notify_children children_loop memory str_eq
notify_children_run =
    rw (parent_read, notify_children)
      (rw
        (
          quiet_swap (next_child (codes "s1") item) (codes "tb")
              (value_to_str (update_child (codes "s1") item child)) store child_next,
          children_loop,
        )
        refl)

notify_children-IsNotified_example :
    IsNotified memory (codes "s1") item (codes "tb" ∷ []) (quiet ∷ []) store notified
unfolding memory is_off str_eq
notify_children-IsNotified_example =
    notify_children-IsNotified memory (codes "s1") item (AllOff-word (codes "//") (codes "s1") refl)
      (AllOff-word (codes "//") (codes "s1ta") refl) (quiet ∷ []) 3 store notified parent
      parent_read (tt, tt) (child-IsKey, tt) ((((λ s h. h), ((λ s h. h), tt)), tt), tt)
      ((child, child_read, child-IsSlashless), tt) notify_children_run
