-- ===== src/Scheduler/Steal/Transfer.antt =====
-- `send_task` at one scheduler and `recv_task_from_scheduler` at another, with the network between.
use matrix_v.Prelude.{
  ℕ, suc, ◌+◌, ◌/◌, ◌<◌, ◌^◌, ◌≡◌, refl, sym, ap, subst, ◌∙◌, Bool, true, false, some, List, [],
  ◌∷◌, ◌++◌, append_assoc, arith, ltb, Str, codes, All, length, length-append,
}
use mathlib.Core.List.{Perm, flatten, perm_append_comm}
use mathlib.Core.List.Perm
use matrix_v.Text.TaskMsg.{TaskMsg}
use matrix_v.Text.Token.{is_off, AllOff-word}
use matrix_v.Wire.Stream.{recv_mul, IsChunk}
use matrix_v.Wire.Batch.{send_batch_tasks}
use matrix_v.Wire.Batch.Texts.{IsSendable, IsPeer}
use matrix_v.Wire.Batch.Receive.{sent_and_parsed, sent_empty}
use matrix_v.Scheduler.State.{Scheduler}
use matrix_v.Scheduler.Queue.{
  push_all-perm, length-push_all, pop_many, pop_many-append, length-pop_many,
}
use matrix_v.Scheduler.Steal.{send_task, queue_groups, recv_task_from_scheduler}

-- What a scheduler holds after groups of tasks have entered its queue.
pub queue_groups-perm :
    (clock : ℕ → ℕ) (groups : List (List TaskMsg)) (s : Scheduler)
    → Perm (queue_groups clock groups s).ws_queue (flatten groups ++ s.ws_queue)
unfolding queue_groups flatten
queue_groups-perm clock [] s = Perm.refl s.ws_queue
queue_groups-perm clock (g ∷ groups) s =
    Perm.trans (queue_groups-perm (λ i. clock (suc i)) groups _) (
      Perm.trans (Perm.append_left (flatten groups) (push_all-perm g s.ws_queue)) (
        rw (← append_assoc (flatten groups) g s.ws_queue)
          (Perm.append_right s.ws_queue (perm_append_comm (flatten groups) g))))

length-queue_groups :
    (clock : ℕ → ℕ) (groups : List (List TaskMsg)) (s : Scheduler)
    → length (queue_groups clock groups s).ws_queue ≡ length (flatten groups) + length s.ws_queue
unfolding queue_groups flatten
length-queue_groups clock [] s = omega arith
length-queue_groups clock (g ∷ groups) s =
    length-queue_groups (λ i. clock (suc i)) groups _
    ∙ omega (arith, length-push_all g s.ws_queue, length-append g (flatten groups))

scheduler_ok : IsPeer (codes "scheduler")
unfolding is_off
scheduler_ok = AllOff-word (codes "&#$") (codes "scheduler") refl

-- What is left at one scheduler and what is at the other make the tasks of both.
moved_perm :
    (taken left at queue : List TaskMsg)
    → Perm at (taken ++ queue)
    → Perm (left ++ at) ((taken ++ left) ++ queue)
moved_perm taken left at queue p =
    Perm.trans (Perm.append_left left p)
      (rw (← append_assoc left taken queue) (Perm.append_right queue (perm_append_comm left taken)))

All-left : (a b : List TaskMsg) → All IsSendable (a ++ b) → All IsSendable a
All-left [] b p = tt
All-left (x ∷ a) b p = (p.0, All-left a b p.1)

-- How a theft ends: no task is lost or doubled, the thief has half of the victim's tasks, and it knows
-- whether it has any.
pub record IsStolen (victim victim' thief thief' : Scheduler) (success : Bool) : Type 0 where
  pub together : Perm (victim'.ws_queue ++ thief'.ws_queue) (victim.ws_queue ++ thief.ws_queue)
  pub half : length thief'.ws_queue ≡ length victim.ws_queue / 2 + length thief.ws_queue
  pub told : success ≡ ltb 1 (length victim.ws_queue)

module _ (clock : ℕ → ℕ) (victim thief : Scheduler) (max_ok : 0 < victim.config.max_task_per_pkg)
    (tasks_ok : All IsSendable victim.ws_queue) (few : length victim.ws_queue < 2 ^ 31) where
  ending :
      (groups : List (List TaskMsg)) (taken left : List TaskMsg) (success : Bool)
      → flatten groups ≡ taken
      → taken ++ left ≡ victim.ws_queue
      → length taken ≡ length victim.ws_queue / 2
      → success ≡ ltb 1 (length victim.ws_queue)
      → IsStolen victim
          (record victim { ws_queue = left })
          thief
          (queue_groups clock groups thief)
          success
  ending groups taken left success e split half told = record {
    together =
        subst
          (λ (q : List TaskMsg).
            Perm (left ++ (queue_groups clock groups thief).ws_queue) (q ++ thief.ws_queue))
          split
          (moved_perm taken left (queue_groups clock groups thief).ws_queue thief.ws_queue (
            subst
              (λ (q : List TaskMsg).
                Perm (queue_groups clock groups thief).ws_queue (q ++ thief.ws_queue))
              e (queue_groups-perm clock groups thief)));
    half =
        length-queue_groups clock groups thief
        ∙ omega (arith, ap (λ (l : List TaskMsg). length l) e);
    told = told;
  }

  sent_to_thief :
      (texts : List Str) × (victim' : Scheduler) × (send_task victim ≡ some (texts, victim'))
      × ((beyond : Str) (chunks later : List Str)
          → All IsChunk chunks
          → flatten chunks ≡ flatten texts
          → (success : Bool) × (thief' : Scheduler) × (recv_task_from_scheduler clock
                (recv_mul beyond (chunks ++ later) [])
                thief
              ≡ some (success, thief'))
            × IsStolen victim victim' thief thief' success)
  unfolding send_task recv_task_from_scheduler queue_groups flatten
  sent_to_thief =
      let (texts, run, arrives) =
        outcome (pop_many (length victim.ws_queue / 2) victim.ws_queue).0
          (pop_many (length victim.ws_queue / 2) victim.ws_queue).1
          (pop_many-append (length victim.ws_queue / 2) victim.ws_queue)
          (length-pop_many (length victim.ws_queue / 2) victim.ws_queue (omega arith)) in
      (
        texts,
        record victim { ws_queue = (pop_many (length victim.ws_queue / 2) victim.ws_queue).1 },
        ground arith,
        arrives,
      )
    where
      Outcome : List TaskMsg → List TaskMsg → Type 0
      Outcome taken left =
          (texts : List Str) × (send_batch_tasks victim.config.max_task_per_pkg taken
              (codes "scheduler")
            ≡ some texts)
          × ((beyond : Str) (chunks later : List Str)
              → All IsChunk chunks
              → flatten chunks ≡ flatten texts
              → (success : Bool) × (thief' : Scheduler) × (recv_task_from_scheduler clock
                    (recv_mul beyond (chunks ++ later) []) thief
                  ≡ some (success, thief'))
                × IsStolen victim (record victim { ws_queue = left }) thief thief' success)

      outcome :
          (taken left : List TaskMsg)
          → taken ++ left ≡ victim.ws_queue
          → length taken ≡ length victim.ws_queue / 2
          → Outcome taken left
      outcome [] left split half =
          let (texts, run, arrives) =
            sent_empty victim.config.max_task_per_pkg (codes "scheduler") scheduler_ok in
          (
            texts,
            run,
            λ beyond chunks later n e. (
              false,
              thief,
              ground (arith, arrives beyond chunks later n e),
              ending [] [] left false refl split half (ground arith),
            ),
          )
      outcome (t ∷ taken) left split half =
          let ok : All IsSendable (t ∷ taken) =
            All-left (t ∷ taken) left (subst (All IsSendable) (sym split) tasks_ok) in
          let (texts, run, arrives) =
            sent_and_parsed victim.config.max_task_per_pkg (codes "scheduler") (t ∷ taken) max_ok
              scheduler_ok ok (omega arith) (omega arith) in
          (
            texts,
            run,
            λ beyond chunks later n e.
                let (batch, got, received) = arrives beyond chunks later n e in
                (
                  true,
                  queue_groups clock batch.groups thief,
                  ground arith,
                  ending batch.groups (t ∷ taken) left true received.content split half
                      (ground arith),
                ),
          )

  -- What `send_task` has given to the socket crosses a network that cuts the stream into any
  -- chunks that are not empty, are shorter than the receive buffer and hold no zero byte, with any
  -- bytes behind: then the thief's call returns, the tasks of the two queues together are those
  -- from before, the thief has got half of the victim's tasks, rounded down, and it is told
  -- success exactly if the victim had two tasks or more. The victim's tasks are fewer than 2 ^ 31
  -- and `IsSendable`, and a package may hold one or more.
  pub recv_task_from_scheduler-send_task :
      (texts : List Str) (beyond : Str) (chunks later : List Str) (victim' : Scheduler)
      → send_task victim ≡ some (texts, victim')
      → All IsChunk chunks
      → flatten chunks ≡ flatten texts
      → (success : Bool) × (thief' : Scheduler) × (recv_task_from_scheduler clock
            (recv_mul beyond (chunks ++ later) [])
            thief
          ≡ some (success, thief'))
        × IsStolen victim victim' thief thief' success
  recv_task_from_scheduler-send_task texts beyond chunks later victim' sent n e =
      let (texts', victim'', run, arrives) = sent_to_thief in
      let same : texts ≡ texts' = cc in
      let there : victim'' ≡ victim' = cc in
      let (success, thief', got, stolen) = arrives beyond chunks later n (e ∙ ap flatten same) in
      (success, thief', got, subst (λ v. IsStolen victim v thief thief' success) there stolen)
