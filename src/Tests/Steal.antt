-- ===== src/Tests/Steal.antt =====
-- Work stealing (Scheduler.Steal).
use matrix_v.Prelude.{
  ℕ, ◌<◌, ◌≡◌, ◌≢◌, refl, none, some, Bool, [], ◌∷◌, ◌++◌, Str, codes, arith, All, length, pos,
  true, false, is_empty, if◌then◌else◌, ◌==◌,
}
use matrix_v.Text.MatrixMsg.{MatrixMsg, mm_to_str, IsWireMsg, str_to_mm-mm_to_str}
use matrix_v.Text.Token.{is_off, join, IsField-word}
use matrix_v.Wire.Stream.{send_mul, recv_mul}
use matrix_v.Wire.Batch.{batch_msg, batch_loop, send_batch_tasks}
use matrix_v.Scheduler.Queue.{pop_many}
use matrix_v.Scheduler.State.{Scheduler}
use matrix_v.Scheduler.Steal.{
  send_task, recv_task_from_scheduler, choose_neigh, draw, draw_all, query_loads,
  find_most_loaded_neigh,
}
use matrix_v.Scheduler.Steal.Transfer.{IsStolen, recv_task_from_scheduler-send_task}
use matrix_v.Scheduler.Steal.Choice.{IsDistinct, choose_neigh-IsDistinct, choose_neigh_any}
use matrix_v.Scheduler.Steal.MostLoaded.{IsMostLoaded, find_most_loaded_neigh-IsMostLoaded}
use matrix_v.Text.Number.{num_to_str, decimal, emit, to_int}
use matrix_v.Wire.Stream.{IsChunk}
use matrix_v.Text.TaskMsg.{taskmsg_to_str}
use matrix_v.Tests.Chunks.{are_chunks-IsChunk}
use matrix_v.Tests.Samples.{
  scheduler, two_tasks, small_task, large_task, small_task-IsSendable, large_task-IsSendable,
}

abbrev victim : Scheduler
victim = scheduler [] [] two_tasks

abbrev thief : Scheduler
thief = scheduler [] [] []

abbrev clock : ℕ → ℕ
clock i = i

abbrev count_text : Str
count_text = send_mul (mm_to_str (batch_msg (codes "scheduler") 1 [])) false

abbrev package_text : Str
package_text = send_mul (mm_to_str (batch_msg (codes "scheduler") 1 (small_task ∷ []))) true

abbrev robbed : Scheduler
robbed = scheduler [] [] (large_task ∷ [])

send_task_run : send_task victim ≡ some (count_text ∷ package_text ∷ [], robbed)
unfolding send_task pop_many send_batch_tasks batch_loop
send_task_run = refl

-- What the memory behind the buffer holds.
abbrev beyond : Str
beyond = codes "junk$"

texts-IsChunk : All IsChunk (count_text ∷ package_text ∷ [])
unfolding send_mul mm_to_str join batch_msg num_to_str decimal emit to_int taskmsg_to_str
texts-IsChunk = are_chunks-IsChunk (count_text ∷ package_text ∷ []) refl

recv_task_from_scheduler-send_task_example :
    (success : Bool) × (thief' : Scheduler) × (recv_task_from_scheduler clock
        (recv_mul beyond ((count_text ∷ package_text ∷ []) ++ []) [])
        thief
      ≡ some (success, thief'))
    × IsStolen victim robbed thief thief' success
recv_task_from_scheduler-send_task_example =
    recv_task_from_scheduler-send_task clock victim thief (omega arith)
      (small_task-IsSendable, (large_task-IsSendable, tt)) (omega arith)
      (count_text ∷ package_text ∷ []) beyond (count_text ∷ package_text ∷ []) [] robbed
      send_task_run texts-IsChunk refl

choose_neigh_any_example :
    choose_neigh (2 ∷ 1 ∷ []) thief ≡ some (record thief { neigh_idx = 2 ∷ 1 ∷ [] })
choose_neigh_any_example =
    choose_neigh_any (2 ∷ 1 ∷ []) thief refl ((omega arith, tt), (tt, tt))
      ((omega arith, omega arith), ((omega arith, omega arith), tt))

-- The random numbers name the scheduler itself first, and one neighbor twice.
two_chosen :
    choose_neigh (3 ∷ 2 ∷ 2 ∷ 1 ∷ []) thief ≡ some (record thief { neigh_idx = 2 ∷ 1 ∷ [] })
unfolding choose_neigh draw_all draw
two_chosen = refl

abbrev two_chosen_thief : Scheduler
two_chosen_thief = record thief { neigh_idx = 2 ∷ 1 ∷ [] }

choose_neigh-IsDistinct_example :
    (length two_chosen_thief.neigh_idx ≡ thief.num_neigh)
    × IsDistinct two_chosen_thief.neigh_idx
    × All (λ i. (i < length thief.scheduler_vec) × (i ≢ thief.index)) two_chosen_thief.neigh_idx
choose_neigh-IsDistinct_example =
    choose_neigh-IsDistinct (3 ∷ 2 ∷ 2 ∷ 1 ∷ []) thief two_chosen_thief (omega arith) two_chosen

abbrev load_message : MatrixMsg
load_message = record {
  msgtype = codes "send load";
  extrainfo = none;
  count = some (pos 5);
  tasks = [];
}

load_message-IsWireMsg : IsWireMsg load_message
unfolding is_off
load_message-IsWireMsg = record {
  msgtype_ok = IsField-word (codes "&&") b's' (codes "end load") refl;
  extrainfo_ok = tt;
  count_ok = omega arith;
  tasks_off = tt;
  tasks_ok = tt;
}

-- The first neighbor is silent, the second one answers with 5 tasks.
abbrev reply : ℕ → Str
reply i = if i == 2 then mm_to_str load_message else []

abbrev loaded_thief : Scheduler
loaded_thief = record thief { max_load = pos 5; max_loaded_idx = some 2 }

answered_not_empty : is_empty (mm_to_str load_message) ≡ false
unfolding mm_to_str join
answered_not_empty = refl

loaded_found : find_most_loaded_neigh reply thief ≡ some loaded_thief
unfolding find_most_loaded_neigh query_loads
loaded_found = rw (answered_not_empty, str_to_mm-mm_to_str load_message load_message-IsWireMsg) refl

find_most_loaded_neigh-IsMostLoaded_example : IsMostLoaded reply thief.neigh_idx thief loaded_thief
find_most_loaded_neigh-IsMostLoaded_example =
    find_most_loaded_neigh-IsMostLoaded reply thief loaded_thief loaded_found
