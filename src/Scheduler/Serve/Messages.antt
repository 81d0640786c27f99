-- ===== src/Scheduler/Serve/Messages.antt =====
-- The messages between schedulers, from the text that one sends to what `proc_req` of
-- matrix/src/scheduler_stub.cpp does with it at the other.
use matrix_v.Prelude.{
  ℕ, ◌<◌, ◌^◌, ◌≡◌, refl, ap, ◌∙◌, Option, none, some, List, [], ◌∷◌, ◌++◌, arith, Str, codes,
  str_eq, pos, length, take, map, ℤ, false, All,
}
use matrix_v.Text.Token.{is_delimiter, join, is_off, IsField, IsField-word}
use matrix_v.Text.Field.{OptionFits}
use matrix_v.Text.Value.{get_number}
use matrix_v.Text.TaskMsg.{TaskMsg, taskmsg_to_str, str_to_taskmsg-taskmsg_to_str}
use matrix_v.Text.MatrixMsg.{
  MatrixMsg, mm_to_str, str_to_mm, IsText, IsWireMsg, str_to_mm-mm_to_str,
}
use matrix_v.Zht.Interface.{Zht}
use matrix_v.Wire.Batch.Texts.{fields_off, IsSendable, task_texts-off, IsSendable-IsWireTask}
use matrix_v.Scheduler.State.{Scheduler, time_entry}
use matrix_v.Scheduler.Queue.{push}
use matrix_v.Scheduler.Ready.{push_message}
use matrix_v.Scheduler.Steal.{query_message}
use matrix_v.Scheduler.Serve.{recv_pushing_task, Processed, proc_req, serve_message, reply_message}

abbrev pub plain : Str → Option Str → Option ℤ → List TaskMsg → MatrixMsg
plain msgtype extrainfo count tasks = record {
  msgtype = msgtype;
  extrainfo = extrainfo;
  count = count;
  tasks = map taskmsg_to_str tasks;
}

plain-IsWireMsg :
    (msgtype : Str) (extrainfo : Option Str) (count : Option ℤ) (tasks : List TaskMsg)
    → IsField (codes "&&") msgtype
    → IsText (codes "noextrainfo") extrainfo
    → OptionFits 32 count
    → All IsSendable tasks
    → IsWireMsg (plain msgtype extrainfo count tasks)
unfolding is_delimiter
plain-IsWireMsg msgtype extrainfo count tasks w x c t = record {
  msgtype_ok = w;
  extrainfo_ok = x;
  count_ok = c;
  tasks_off =
      fields_off (codes "&&") (map taskmsg_to_str tasks)
        (task_texts-off (codes "&&") tasks (λ c. ground arith) t);
  tasks_ok = task_texts-off (codes "!!") tasks (λ c. ground arith) t;
}

module _ {S : Type 0} (zht : Zht S) (now : ℕ) (clock : ℕ → ℕ) (others : List (S → S)) (beyond : Str)
    (chunks : List Str) (store : S) (s : Scheduler) where
  abbrev answered : Option (List Str × Scheduler) → Option (Processed zht)
  answered o = elim o [
    | none ↦ none
    | some (answer, s') ↦ some (record { answer = answer; store = store; after = s' })
  ]

  -- A message that does not begin as a batch of a client does.
  proc_req-message :
      (mm : MatrixMsg)
      → IsWireMsg mm
      → str_eq
          (take (length (codes "client send tasks")) (mm_to_str mm))
          (codes "client send tasks")
        ≡ false
      → proc_req zht now clock others (mm_to_str mm) beyond chunks store s
        ≡ answered (serve_message now mm s)
  unfolding proc_req
  proc_req-message mm w other = rw other (rw (str_to_mm-mm_to_str mm w) refl)

  -- A scheduler that is asked for its load changes nothing and answers with one message, which is
  -- read back as the number of tasks that may be stolen from it; there are fewer than 2 ^ 31 of
  -- these.
  pub proc_req-query_message :
      length s.ws_queue < 2 ^ 31
      → (reply : Str) × (mm : MatrixMsg) × (proc_req zht now clock others query_message beyond
            chunks store s
          ≡ some (record { answer = reply ∷ []; store = store; after = s }))
        × (str_to_mm reply ≡ some mm)
        × (get_number mm.count ≡ pos (length s.ws_queue))
  unfolding serve_message mm_to_str join is_off str_eq
  proc_req-query_message few = (
    reply_message (codes "send load") none (some (pos (length s.ws_queue))),
    plain (codes "send load") none (some (pos (length s.ws_queue))) [],
    proc_req-message (plain (codes "query load") none none [])
        (plain-IsWireMsg (codes "query load") none none []
          (IsField-word (codes "&&") b'q' (codes "uery load") refl) tt tt tt)
        refl,
    str_to_mm-mm_to_str (plain (codes "send load") none (some (pos (length s.ws_queue))) []) (
        plain-IsWireMsg (codes "send load") none (some (pos (length s.ws_queue))) []
          (IsField-word (codes "&&") b's' (codes "end load") refl) tt few tt),
    refl,
  )

  recv_pushing_task_lem :
      (tm : TaskMsg)
      → IsSendable tm
      → recv_pushing_task now (plain (codes "scheduler push task") none (some (pos 1)) (tm ∷ [])) s
        ≡ some (
          reply_message (codes "success receiving pushing task") none none ∷ [],
          record s {
            local_queue = push tm s.local_queue;
            task_time_entry =
                s.task_time_entry ++ time_entry tm.taskid (codes "PushQueuedTime") now ∷ [];
          },
        )
  unfolding recv_pushing_task
  recv_pushing_task_lem tm ok =
      rw (str_to_taskmsg-taskmsg_to_str tm (IsSendable-IsWireTask tm ok), recv_pushing_task) refl

  -- A task that is `IsSendable` and that one scheduler pushes enters the local queue of the other
  -- as it was; that one answers with one message, and nothing else changes there but the log.
  pub proc_req-push_message :
      (tm : TaskMsg)
      → IsSendable tm
      → (reply : Str) × (proc_req zht now clock others (push_message tm) beyond chunks store s
          ≡ some (record {
            answer = reply ∷ [];
            store = store;
            after = record s {
              local_queue = push tm s.local_queue;
              task_time_entry =
                  s.task_time_entry ++ time_entry tm.taskid (codes "PushQueuedTime") now ∷ [];
            };
          }))
  unfolding serve_message mm_to_str join is_off str_eq
  proc_req-push_message tm ok = (
    reply_message (codes "success receiving pushing task") none none,
    proc_req-message (plain (codes "scheduler push task") none (some (pos 1)) (tm ∷ []))
          (plain-IsWireMsg (codes "scheduler push task") none (some (pos 1)) (tm ∷ [])
            (IsField-word (codes "&&") b's' (codes "cheduler push task") refl) tt (omega arith)
            (ok, tt))
          refl
        ∙ ap answered (recv_pushing_task_lem tm ok),
  )
