-- ===== src/Tests/Submission.antt =====
-- A client's batch (Scheduler.Serve.Submission).
use matrix_v.Prelude.{
  ◌≡◌, refl, some, List, [], ◌∷◌, ◌++◌, Str, codes, arith, All, pos, drop, true, false,
  if◌then◌else◌, str_eq,
}
use mathlib.Core.List.{flatten}
use matrix_v.Text.Number.{num_to_str, decimal, emit, to_int}
use matrix_v.Text.TaskMsg.{TaskMsg, taskmsg_to_str}
use matrix_v.Text.Value.{value_to_str}
use matrix_v.Wire.Stream.{send_mul, ends_marked, IsChunk}
use matrix_v.Text.Token.{join}
use matrix_v.Text.MatrixMsg.{mm_to_str}
use matrix_v.Wire.Batch.{batch_msg, batch_loop, send_batch_tasks}
use matrix_v.Zht.Interface.{Memory, memory}
use matrix_v.Scheduler.State.{Scheduler}
use matrix_v.Scheduler.Serve.Count.{IsRaised}
use matrix_v.Scheduler.Serve.{recv_task_from_client}
use matrix_v.Scheduler.Serve.Submission.{IsLogged, recv_task_from_client-send_batch_tasks}
use matrix_v.Tests.Chunks.{is_chunk-IsChunk, are_chunks-IsChunk}
use matrix_v.Tests.Samples.{
  scheduler, small_task, small_task-IsSendable, free_value, free_value_read,
}

abbrev one_task : List TaskMsg
one_task = small_task ∷ []

abbrev count_text : Str
count_text = send_mul (mm_to_str (batch_msg (codes "client") 1 [])) false

abbrev package_text : Str
package_text = send_mul (mm_to_str (batch_msg (codes "client") 1 one_task)) true

sent : send_batch_tasks 1 one_task (codes "client") ≡ some (count_text ∷ package_text ∷ [])
unfolding send_batch_tasks batch_loop
sent = refl

-- The stream is cut behind its second byte.
arrived :
    flatten (codes "cl" ∷ drop 2 count_text ∷ package_text ∷ [])
    ≡ flatten (count_text ∷ package_text ∷ [])
unfolding flatten send_mul mm_to_str join batch_msg
arrived = refl

-- What the memory behind the buffer holds.
abbrev beyond : Str
beyond = codes "junk$"

first-IsChunk : IsChunk (codes "cl")
first-IsChunk = is_chunk-IsChunk (codes "cl") refl

chunks-IsChunk : All IsChunk (drop 2 count_text ∷ package_text ∷ [])
unfolding send_mul mm_to_str join batch_msg num_to_str decimal emit to_int taskmsg_to_str
chunks-IsChunk = are_chunks-IsChunk (drop 2 count_text ∷ package_text ∷ []) refl

-- Every task has a record, and every counter a number.
abbrev store : Memory
store key =
    if str_eq key (codes "num tasks recv") then num_to_str (pos 4) else value_to_str free_value

abbrev rest : Memory → Memory
rest s = s

abbrev receiver : Scheduler
receiver = scheduler [] [] []

recv_task_from_client-send_batch_tasks_example :
    (store' : Memory) × (s' : Scheduler) × (recv_task_from_client memory
        (λ i. i)
        ([] ++ rest ∷ [])
        (codes "cl")
        beyond
        ((drop 2 count_text ∷ package_text ∷ []) ++ [])
        store
        receiver
      ≡ some (store', s'))
    × IsLogged memory ([] ++ one_task) receiver s'
    × IsRaised memory ([] ++ rest ∷ []) store (codes "num tasks recv") 1 store'
unfolding memory str_eq ends_marked
recv_task_from_client-send_batch_tasks_example =
    recv_task_from_client-send_batch_tasks memory (λ i. i) [] rest store receiver tt (λ t h. h)
      (λ t. refl) (pos 4, omega arith, refl) 1 one_task (count_text ∷ package_text ∷ [])
      (codes "cl") beyond (drop 2 count_text ∷ package_text ∷ []) [] (omega arith) (omega arith)
      (omega arith) (small_task-IsSendable, tt) ((free_value, free_value_read), tt) sent
      first-IsChunk refl chunks-IsChunk arrived
