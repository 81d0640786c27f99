-- ===== src/Scheduler/Serve/Submission.antt =====
-- A client's batch at a scheduler: `recv_task_from_client` of matrix/src/scheduler_stub.cpp.
use matrix_v.Prelude.{
  ℕ, suc, ◌+◌, ◌<◌, ◌^◌, ◌≡◌, false, refl, sym, ap, ◌∙◌, subst, some, List, [], ◌∷◌, ◌++◌,
  append_assoc, append-nil, arith, Str, codes, All, All-append, length, length-append, ℤ, pos, ◌+ℤ◌,
}
use mathlib.Core.List.{flatten}
use matrix_v.Text.Number.{num_to_str, str_to_num}
use matrix_v.Text.Token.{is_off, AllOff-word, IsField-word}
use matrix_v.Text.TaskMsg.{TaskMsg}
use matrix_v.Wire.Stream.{ends_marked, recv_mul, recv_mul-first, IsChunk}
use matrix_v.Wire.Batch.{send_batch_tasks, parse_batch, Batch}
use matrix_v.Wire.Batch.Receive.{IsReceived, parse_batch-send_batch_tasks}
use matrix_v.Wire.Batch.Texts.{IsSendable}
use matrix_v.Text.Value.{Value, get_number, str_to_value}
use matrix_v.Zht.Interface.{Zht, IsKey}
use matrix_v.Scheduler.State.{Scheduler, count_zht}
use matrix_v.Scheduler.Swap.{Spent, swap, IsAtomic, swap-IsAtomic, swap_total}
use matrix_v.Scheduler.Swap.Reach.{Reached, here, Reached-closed}
use matrix_v.Scheduler.Serve.Count.{
  HasCount, KeepCount, next_recv_ok, IsRaised, Reached-HasCount, IsAtomic-IsRaised,
}
use matrix_v.Scheduler.Serve.{submission_entries, queue_submitted, next_recv, recv_task_from_client}

module _ {S : Type 0} (zht : Zht S) where
  open zht use {lookup}

  -- The scheduler with other entries in its log and other counts.
  abbrev pub IsLogged : List TaskMsg → Scheduler → Scheduler → Type 0
  IsLogged queue s s' =
      (log : List Str) × (n : ℕ) × (s'
        ≡ record s { wait_queue = queue; task_time_entry = log; num_zht_msg = n })

  -- The record of each task can be read.
  abbrev pub AreKnown : S → List TaskMsg → Type 0
  AreKnown store tasks =
      All (λ tm. (v : Value) × (str_to_value (lookup tm.taskid store) ≡ some v)) tasks

  submission_entries_total :
      (now : Str) (tms : List TaskMsg) (store : S)
      → AreKnown store tms
      → (entries : List Str) × (submission_entries zht now tms store ≡ some entries)
  unfolding submission_entries
  submission_entries_total now [] store k = ([], refl)
  submission_entries_total now (tm ∷ tms) store k =
      let (v, found) = k.0 in
      let (entries, run) = submission_entries_total now tms store k.1 in
      (
        (tm.taskid ++ 9 ∷ codes "SubmissionTime" ++ 9 ∷ num_to_str (get_number v.submittime))
            ∷ (tm.taskid ++ 9 ∷ codes "WaitQueueTime" ++ 9 ∷ now)
            ∷ entries,
        rw (found, submission_entries) (rw run refl),
      )

  queue_submitted_total :
      (clock : ℕ → ℕ) (groups : List (List TaskMsg)) (store : S) (increment : ℕ) (s : Scheduler)
      → All (AreKnown store) groups
      → (s' : Scheduler) × (queue_submitted zht clock groups store increment s
          ≡ some (increment + length (flatten groups), s'))
        × IsLogged (s.wait_queue ++ flatten groups) s s'
  unfolding queue_submitted flatten
  queue_submitted_total clock [] store increment s k =
      (s, ground arith, (s.task_time_entry, s.num_zht_msg, rw (append-nil s.wait_queue) refl))
  queue_submitted_total clock (g ∷ groups) store increment s k =
      let (entries, run) = submission_entries_total (num_to_str (pos (clock 0))) g store k.0 in
      let s₁ : Scheduler = record s {
        wait_queue = s.wait_queue ++ g;
        task_time_entry = s.task_time_entry ++ entries;
      } in
      let (s', rest, (log, n, q)) =
        queue_submitted_total (λ i. clock (suc i)) groups store (increment + length g) s₁ k.1 in
      let sum : increment + length g + length (flatten groups)
          ≡ increment + length (g ++ flatten groups) =
        omega (arith, length-append g (flatten groups)) in
      (
        s',
        rw (run, queue_submitted) (rest ∙ ap (λ (m : ℕ). some (m, s')) sum),
        (log, n, rw (← append_assoc s.wait_queue g (flatten groups)) q),
      )

  -- `"num tasks recv"`
  abbrev recv_key : Str
  recv_key = codes "num tasks recv"

  recv_key-IsKey : IsKey recv_key
  unfolding is_off
  recv_key-IsKey = (IsField-word (codes "//") b'n' (codes "um tasks recv") refl, cc)

  known_groups :
      (store : S) (groups : List (List TaskMsg))
      → AreKnown store (flatten groups)
      → All (AreKnown store) groups
  unfolding flatten
  known_groups store [] k = tt
  known_groups store (g ∷ groups) k =
      (left g (flatten groups) k, known_groups store groups (right g (flatten groups) k))
    where
      left : (a b : List TaskMsg) → AreKnown store (a ++ b) → AreKnown store a
      left [] b p = tt
      left (x ∷ a) b p = (p.0, left a b p.1)

      right : (a b : List TaskMsg) → AreKnown store (a ++ b) → AreKnown store b
      right [] b p = p
      right (x ∷ a) b p = right a b p.1

  -- The other processes, of which the last is quiet, keep a number under the key.
  module _ (clock : ℕ → ℕ) (others : List (S → S)) (last : S → S) (store : S) (s : Scheduler)
      (keep : All (KeepCount zht recv_key) others) (last_keep : KeepCount zht recv_key last)
      (quiet : (t : S) → lookup recv_key (last t) ≡ lookup recv_key t)
      (good : HasCount zht recv_key store) where
    others_keep : All (KeepCount zht recv_key) (others ++ last ∷ [])
    others_keep = All-append (KeepCount zht recv_key) others (last ∷ []) keep (last_keep, tt)

    -- The swap that returned has raised the number.
    raised :
        (store' : S) (spent : Spent zht) (num_task : ℤ) (n : ℕ)
        → num_task ≡ pos n
        → swap zht (next_recv num_task) recv_key (others ++ last ∷ []) store ≡ some (spent, store')
        → IsRaised zht (others ++ last ∷ []) store recv_key n store'
    raised store' spent num_task n e run =
        let fs = others ++ last ∷ [] in
        IsAtomic-IsRaised zht fs store recv_key n store' others_keep good (
          subst (λ (z : ℤ). IsAtomic zht (Reached fs store) (next_recv z) recv_key store') e
            (swap-IsAtomic zht (Reached fs store) (next_recv num_task) recv_key recv_key-IsKey
              (λ t new r.
                next_recv_ok zht recv_key num_task t new
                  (Reached-HasCount zht fs store recv_key others_keep good t r))
              fs spent store store' (Reached-closed fs store) here run))

    -- What becomes of a batch that has been read.
    read_and_queued :
        (str beyond : Str) (chunks : List Str) (tasks : List TaskMsg) (max_per_pkg : ℕ)
        (batch : Batch)
        → AreKnown store tasks
        → parse_batch (recv_mul beyond chunks str) ≡ some (some batch)
        → IsReceived max_per_pkg tasks batch
        → (store' : S) × (s' : Scheduler) × (recv_task_from_client zht clock
              (others ++ last ∷ [])
              str
              beyond
              chunks
              store
              s
            ≡ some (store', s'))
          × IsLogged (s.wait_queue ++ tasks) s s'
          × IsRaised zht (others ++ last ∷ []) store recv_key (length tasks) store'
    unfolding recv_task_from_client next_recv
    read_and_queued str beyond chunks tasks max_per_pkg batch known parsed received =
        let known' : AreKnown store (flatten batch.groups) =
          subst (AreKnown store) (sym received.content) known in
        let (s₁, queued, (log, n, q)) =
          queue_submitted_total clock batch.groups store 0 s
            (known_groups store batch.groups known') in
        let (spent, store', run) =
          swap_total zht (HasCount zht recv_key) (next_recv batch.num_task) recv_key recv_key-IsKey
            (next_recv_ok zht recv_key batch.num_task)
            (λ t h. (num_to_str (str_to_num 64 (lookup recv_key t) +ℤ batch.num_task), refl)) last
            last_keep quiet others store keep good in
        (
          store',
          count_zht (0 + length (flatten batch.groups) + 2 + spent.lookups) s₁,
          rw (parsed, recv_task_from_client) (rw (queued, run) refl),
          (
            log,
            n + (0 + length (flatten batch.groups) + 2 + spent.lookups),
            ap (count_zht (0 + length (flatten batch.groups) + 2 + spent.lookups)) q
                ∙ ap
                    (λ (l : List TaskMsg). record s {
                      wait_queue = s.wait_queue ++ l;
                      task_time_entry = log;
                      num_zht_msg = n + (0 + length (flatten batch.groups) + 2 + spent.lookups);
                    })
                    received.content,
          ),
          raised store' spent batch.num_task (length tasks) received.announced run,
        )

    -- A batch that a client has sent over a network that cuts the stream into any chunks that are
    -- not empty, are shorter than the receive buffer and hold no zero byte, the first of which
    -- does not end in a mark, is received: the call returns, the tasks stand behind those of the
    -- wait queue, in order, and no other queue has changed. The number of tasks received has gone
    -- up by the size of the batch in one atomic step, on a store that other processes have made
    -- from the one at the start, whatever they did before the last attempt, if they keep a number
    -- of 64 bits under that key and the last attempt is undisturbed. The store has such a number
    -- at the start, the batch holds one task or more and fewer than 2 ^ 31, a package may hold one
    -- or more, the records of the tasks can be read, and the tasks are `IsSendable`.
    pub recv_task_from_client-send_batch_tasks :
        (max_per_pkg : ℕ) (tasks : List TaskMsg) (texts : List Str) (str beyond : Str)
        (chunks later : List Str)
        → 0 < max_per_pkg
        → 0 < length tasks
        → length tasks < 2 ^ 31
        → All IsSendable tasks
        → AreKnown store tasks
        → send_batch_tasks max_per_pkg tasks (codes "client") ≡ some texts
        → IsChunk str
        → ends_marked str ≡ false
        → All IsChunk chunks
        → flatten (str ∷ chunks) ≡ flatten texts
        → (store' : S) × (s' : Scheduler) × (recv_task_from_client zht clock
              (others ++ last ∷ [])
              str
              beyond
              (chunks ++ later)
              store
              s
            ≡ some (store', s'))
          × IsLogged (s.wait_queue ++ tasks) s s'
          × IsRaised zht (others ++ last ∷ []) store recv_key (length tasks) store'
    unfolding is_off
    recv_task_from_client-send_batch_tasks max_per_pkg tasks texts str beyond chunks later max_ok
          some_tasks few ok known sent n unmarked ne e =
        let (batch, parsed, received) =
          parse_batch-send_batch_tasks max_per_pkg (codes "client") tasks max_ok
            (AllOff-word (codes "&#$") (codes "client") refl) ok few texts beyond (str ∷ chunks)
            later some_tasks sent (n, ne) e in
        read_and_queued str beyond (chunks ++ later) tasks max_per_pkg batch known
          (ap parse_batch (recv_mul-first beyond str (chunks ++ later) n unmarked) ∙ parsed)
          received
