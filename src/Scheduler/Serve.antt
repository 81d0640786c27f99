-- ===== src/Scheduler/Serve.antt =====
-- What a scheduler does with the requests that its server receives: `proc_req`,
-- `recv_task_from_client` and `recv_pushing_task` of matrix/src/scheduler_stub.cpp.
pub mod Messages
pub mod Count
pub mod Submission
use matrix_v.Prelude.{
  ℕ, suc, ◌+◌, Option, none, some, List, [], ◌∷◌, ◌++◌, if◌then◌else◌, Str, str_eq, codes, ℤ, pos,
  ◌+ℤ◌, length, take,
}
use matrix_v.Text.Number.{num_to_str, str_to_num}
use matrix_v.Text.TaskMsg.{TaskMsg, str_to_taskmsg}
use matrix_v.Text.Value.{str_to_value, get_number}
use matrix_v.Text.MatrixMsg.{MatrixMsg, mm_to_str, str_to_mm}
use matrix_v.Wire.Stream.{recv_mul, send_big}
use matrix_v.Wire.Batch.{parse_batch}
use matrix_v.Zht.Interface.{Zht}
use matrix_v.Scheduler.State.{Scheduler, find_data, time_entry, count_zht}
use matrix_v.Scheduler.Queue.{push}
use matrix_v.Scheduler.Swap.{swap}
use matrix_v.Scheduler.Steal.{send_task}

abbrev pub reply_message : Str → Option Str → Option ℤ → Str
reply_message msgtype extrainfo count =
    mm_to_str (record { msgtype = msgtype; extrainfo = extrainfo; count = count; tasks = [] })

-- What is sent back, and the scheduler after it. `none` is an index out of range or an `exit`.
abbrev Answer : Type 0
Answer = Option (List Str × Scheduler)

pub recv_pushing_task : ℕ → MatrixMsg → Scheduler → Answer
recv_pushing_task now mm s = elim mm.tasks [
  | [] ↦ none
  | t ∷ _ ↦ elim (str_to_taskmsg t) [
    | none ↦ none
    | some tm ↦ some (
      reply_message (codes "success receiving pushing task") none none ∷ [],
      record s {
        task_time_entry =
            s.task_time_entry ++ time_entry tm.taskid (codes "PushQueuedTime") now ∷ [];
        local_queue = push tm s.local_queue;
      },
    )
  ]
]

abbrev data_piece : Option Str → Str
data_piece none = codes "shit, that is wrong!"
data_piece (some d) = d

-- A message that is not one of the four changes nothing and gets no answer.
pub serve_message : ℕ → MatrixMsg → Scheduler → Answer
unfolding send_task recv_pushing_task find_data
serve_message now mm s =
    if str_eq mm.msgtype (codes "query load")
    then some (reply_message (codes "send load") none (some (pos (length s.ws_queue))) ∷ [], s)
    else if str_eq mm.msgtype (codes "steal task")
    then send_task s
    else if str_eq mm.msgtype (codes "scheduler push task")
    then recv_pushing_task now mm s
    else if str_eq mm.msgtype (codes "scheduler require data")
    then some (
      send_big (
          reply_message (codes "scheduler send data")
            (some (data_piece (find_data (get_text mm.extrainfo) s.local_data))) none),
      s,
    )
    else some ([], s)
  where
    get_text : Option Str → Str
    get_text none = []
    get_text (some t) = t

-- `"num tasks recv"` goes up by the number of tasks.
unfoldable pub next_recv : ℤ → Str → Option Str
next_recv num_task seen = some (num_to_str (str_to_num 64 seen +ℤ num_task))

module _ {S : Type 0} (zht : Zht S) where
  open zht use {lookup}

  -- The times of the tasks of a group; `none` is an `exit` in `str_to_value`.
  pub submission_entries : Str → List TaskMsg → S → Option (List Str)
  submission_entries now [] store = some []
  submission_entries now (tm ∷ tms) store = elim (str_to_value (lookup tm.taskid store)) [
    | none ↦ none
    | some value ↦ elim (submission_entries now tms store) [
      | none ↦ none
      | some rest ↦ some (
          (tm.taskid ++ 9 ∷ codes "SubmissionTime" ++ 9 ∷ num_to_str (get_number value.submittime))
          ∷ (tm.taskid ++ 9 ∷ codes "WaitQueueTime" ++ 9 ∷ now)
          ∷ rest)
    ]
  ]

  -- Each group of tasks goes to the end of the wait queue; the number is that of the lookups.
  pub queue_submitted : (ℕ → ℕ) → List (List TaskMsg) → S → ℕ → Scheduler → Option (ℕ × Scheduler)
  unfolding submission_entries
  queue_submitted clock [] store increment s = some (increment, s)
  queue_submitted clock (g ∷ groups) store increment s =
      elim (submission_entries (num_to_str (pos (clock 0))) g store) [
        | none ↦ none
        | some entries ↦
            queue_submitted (λ i. clock (suc i)) groups store (increment + length g)
              (record s {
                wait_queue = s.wait_queue ++ g;
                task_time_entry = s.task_time_entry ++ entries;
              })
      ]

  -- `chunks` is what arrives behind `str`; `beyond` is the memory behind the buffer. A batch of one message is dropped.
  pub recv_task_from_client :
      (ℕ → ℕ) → List (S → S) → Str → Str → List Str → S → Scheduler → Option (S × Scheduler)
  unfolding queue_submitted next_recv
  recv_task_from_client clock others str beyond chunks store s =
      elim (parse_batch (recv_mul beyond chunks str)) [
        | none ↦ none
        | some none ↦ some (store, s)
        | some (some batch) ↦ elim (queue_submitted clock batch.groups store 0 s) [
          | none ↦ none
          | some (increment, s₁) ↦
              elim (swap zht (next_recv batch.num_task) (codes "num tasks recv") others store) [
                | none ↦ none
                | some (spent, store') ↦ some (store', count_zht (increment + 2 + spent.lookups) s₁)
              ]
        ]
      ]

  -- What `proc_req` gives back: the answer, the store and the scheduler.
  pub record Processed : Type 0 where
    pub answer : List Str
    pub store : S
    pub after : Scheduler

  pub proc_req :
      ℕ → (ℕ → ℕ) → List (S → S) → Str → Str → List Str → S → Scheduler → Option Processed
  unfolding serve_message recv_task_from_client
  proc_req now clock others buf beyond chunks store s =
      if str_eq (take (length (codes "client send tasks")) buf) (codes "client send tasks")
      then elim (recv_task_from_client clock others buf beyond chunks store s) [
        | none ↦ none
        | some (store', s') ↦ some (record { answer = []; store = store'; after = s' })
      ]
      else elim (str_to_mm buf) [
        | none ↦ none
        | some mm ↦ elim (serve_message now mm s) [
          | none ↦ none
          | some (answer, s') ↦ some (record { answer = answer; store = store; after = s' })
        ]
      ]
