-- ===== src/Scheduler/Steal.antt =====
-- Work stealing: `send_task`, `choose_neigh`, `find_most_loaded_neigh`, `recv_task_from_scheduler`,
-- `steal_task` and the loop of `workstealing` of matrix/src/scheduler_stub.cpp.
pub mod Transfer
pub mod Choice
pub mod MostLoaded
use matrix_v.Prelude.{
  ℕ, zero, suc, ◌+◌, ◌*◌, ◌/◌, ◌%◌, Bool, true, false, Option, none, some, List, [], ◌∷◌, ◌++◌, map,
  ◌==◌, ltb, ◌||◌, ◌&&◌, if◌then◌else◌, Str, codes, pos, negsuc, ltb_ℤ, length, is_empty, replicate,
  set, get_or,
}
use matrix_v.Text.Value.{get_number}
use matrix_v.Text.TaskMsg.{TaskMsg}
use matrix_v.Text.MatrixMsg.{MatrixMsg, mm_to_str, str_to_mm}
use matrix_v.Wire.Batch.{parse_batch, send_batch_tasks}
use matrix_v.Scheduler.State.{Scheduler, time_entry}
use matrix_v.Scheduler.Queue.{push_all, pop_many}

-- Half of the tasks that may be stolen, those that `pop` takes first, leave as a batch. The result is
-- what is given to the socket, and the scheduler after it.
unfoldable pub send_task : Scheduler → Option (List Str × Scheduler)
unfolding pop_many
send_task s =
    let (task_vec, left) = pop_many (length s.ws_queue / 2) s.ws_queue in
    elim (send_batch_tasks s.config.max_task_per_pkg task_vec (codes "scheduler")) [
      | none ↦ none
      | some texts ↦ some (texts, record s { ws_queue = left })
    ]

-- The `while` of `choose_neigh` on the numbers that `rand` returns; `none`: they have run out.
unfoldable pub draw : ℕ → ℕ → List Bool → List ℕ → Option (ℕ × List ℕ)
draw self size bitmap [] = none
draw self size bitmap (r ∷ rands) =
    let idx : ℕ = r % size in
    elim (idx == self || get_or bitmap idx true) [
      | true ↦ draw self size bitmap rands
      | false ↦ some (idx, rands)
    ]

-- The `for` of `choose_neigh`.
unfoldable pub draw_all : ℕ → ℕ → ℕ → List Bool → List ℕ → Option (List ℕ)
unfolding draw
draw_all zero self size bitmap rands = some []
draw_all (suc n) self size bitmap rands = elim (draw self size bitmap rands) [
  | none ↦ none
  | some (idx, rest) ↦ elim (draw_all n self size (set bitmap idx true) rest) [
    | none ↦ none
    | some more ↦ some (idx ∷ more)
  ]
]

-- `reset_choosebm` at the end leaves the bitmap as it was at the start, with no neighbor chosen.
unfoldable pub choose_neigh : List ℕ → Scheduler → Option Scheduler
unfolding draw_all
choose_neigh rands s =
    let size = length s.scheduler_vec in
    elim (draw_all s.num_neigh s.index size (replicate size false) rands) [
      | none ↦ none
      | some chosen ↦ some (record s { neigh_idx = chosen })
    ]

-- `mmQueryLoad` and `mmStealTask`
abbrev pub query_message : Str
query_message =
    mm_to_str (record { msgtype = codes "query load"; extrainfo = none; count = none; tasks = [] })

abbrev pub steal_message : Str
steal_message =
    mm_to_str (record { msgtype = codes "steal task"; extrainfo = none; count = none; tasks = [] })

-- The loop over the neighbors; `reply` is what each answers, empty if nothing comes. `none`: a reply
-- that is no message.
unfoldable pub query_loads : (ℕ → Str) → List ℕ → Scheduler → Option Scheduler
query_loads reply [] s = some s
query_loads reply (idx ∷ rest) s =
    if is_empty (reply idx) then query_loads reply rest s else elim (str_to_mm (reply idx)) [
      | none ↦ none
      | some mm ↦ query_loads reply rest (
          if ltb_ℤ s.max_load (get_number mm.count)
          then record s { max_load = get_number mm.count; max_loaded_idx = some idx }
          else s)
    ]

unfoldable pub find_most_loaded_neigh : (ℕ → Str) → Scheduler → Option Scheduler
unfolding query_loads
find_most_loaded_neigh reply s = query_loads reply s.neigh_idx s

-- The groups of a batch enter the queue one by one; `clock` gives the time of each.
pub queue_groups : (ℕ → ℕ) → List (List TaskMsg) → Scheduler → Scheduler
unfolding push_all
queue_groups clock [] s = s
queue_groups clock (g ∷ groups) s =
    queue_groups (λ i. clock (suc i)) groups
      (record s {
        ws_queue = push_all g s.ws_queue;
        task_time_entry =
            s.task_time_entry
            ++ map (λ (tm : TaskMsg). time_entry tm.taskid (codes "WorkStealQueuedTime") (clock 0))
                g;
      })

-- `task_str` is the text that `recv_mul` returns. Whether tasks came, and the scheduler after it.
pub recv_task_from_scheduler : (ℕ → ℕ) → Str → Scheduler → Option (Bool × Scheduler)
unfolding queue_groups
recv_task_from_scheduler clock task_str s = elim (parse_batch task_str) [
  | none ↦ none
  | some none ↦ some (false, s)
  | some (some batch) ↦ some (true, queue_groups clock batch.groups s)
]

-- `answer` is what the neighbor with an index sends back. `none` also where no neighbor is chosen.
steal_task : (ℕ → ℕ) → (ℕ → Str) → Scheduler → Option (Bool × Scheduler)
unfolding recv_task_from_scheduler
steal_task clock answer s =
    if ltb_ℤ (pos 0) s.max_load
    then elim s.max_loaded_idx [
      | none ↦ none
      | some idx ↦ recv_task_from_scheduler clock (answer idx) s
    ]
    else some (false, s)

-- What one round of the inner loop meets: random numbers, replies, answers and times.
pub record Meeting : Type 0 where
  pub rands : List ℕ
  pub reply : ℕ → Str
  pub answer : ℕ → Str
  pub clock : ℕ → ℕ

-- After an attempt: back to the start of the poll interval, or double it.
settle : Bool → Scheduler → Scheduler
settle success s =
    let s₁ : Scheduler = record s {
      num_ws = s.num_ws + 1;
      max_loaded_idx = none;
      max_load = negsuc 999999;
    } in
    if success
    then record s₁ { poll_interval = s.config.ws_poll_interval_start }
    else record s₁ { num_ws_fail = s.num_ws_fail + 1; poll_interval = s.poll_interval * 2 }

steal_round : Meeting → Scheduler → Option Scheduler
unfolding choose_neigh find_most_loaded_neigh steal_task settle
steal_round m s = elim (choose_neigh m.rands s) [
  | none ↦ none
  | some s₁ ↦ elim (find_most_loaded_neigh m.reply s₁) [
    | none ↦ none
    | some s₂ ↦ elim (steal_task m.clock m.answer s₂) [
      | none ↦ none
      | some (success, s₃) ↦ some (settle success s₃)
    ]
  ]
]

abbrev pub is_hungry : Scheduler → Bool
is_hungry s =
    length s.local_queue + length s.ws_queue == 0
    && ltb s.poll_interval s.config.ws_poll_interval_ub

-- The inner loop of `workstealing`, on what its rounds meet; `none` of it: they have run out, or a
-- round has failed.
unfoldable steal_loop : List Meeting → Scheduler → Option Scheduler
unfolding steal_round
steal_loop [] s = if is_hungry s then none else some s
steal_loop (m ∷ ms) s = elim (is_hungry s) [
  | false ↦ some s
  | true ↦ elim (steal_round m s) [ none ↦ none | some s' ↦ steal_loop ms s' ]
]

-- What follows the inner loop: the thread ends, or it resets the interval and goes on.
unfoldable after_steal_loop : Scheduler → Bool × Scheduler
after_steal_loop s =
    if ltb s.poll_interval s.config.ws_poll_interval_ub
    then (true, record s { poll_interval = s.config.ws_poll_interval_start })
    else (false, s)
