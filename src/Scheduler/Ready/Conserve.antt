-- ===== src/Scheduler/Ready/Conserve.antt =====
-- A round of `checking_ready_task` neither loses nor doubles a task.
use matrix_v.Prelude.{
  ℕ, ◌≡◌, refl, sym, ap, ◌∙◌, subst, true, false, Bool-cases, Option-cases, ◌⊎◌, inl, inr, some,
  pos, List, [], ◌∷◌, ◌++◌, map, append_assoc, Str, arith,
}
use mathlib.Core.List.{Perm, perm_middle}
use mathlib.Core.List.Perm
use matrix_v.Text.TaskMsg.{TaskMsg}
use matrix_v.Text.Value.{Value, str_to_value, get_number}
use matrix_v.Zht.Interface.{Zht}
use matrix_v.Scheduler.State.{Scheduler}
use matrix_v.Scheduler.Queue.{push, push-perm}
use matrix_v.Scheduler.Ready.{
  Place, steal_queue, local_queue, pushed, task_ready_process, Sent, push_message, put_ready,
  Checked, check_a_ready_task, checking_round, is_zero,
}

-- A task but for its data length, which a check computes anew.
abbrev pub unsized : TaskMsg → TaskMsg
unsized tm = record tm { datalength = pos 0 }

-- The tasks that a scheduler holds and has not begun, but for their data lengths.
abbrev pub held : Scheduler → List TaskMsg
held s = map unsized (s.wait_queue ++ (s.local_queue ++ s.ws_queue))

task_ready_process-unsized :
    (s : Scheduler) (value : Value) (tm tm' : TaskMsg) (place : Place)
    → task_ready_process s value tm ≡ some (place, tm')
    → unsized tm' ≡ unsized tm
unfolding task_ready_process
task_ready_process-unsized s value tm tm' place e = ground arith

steal_perm :
    (w l q : List TaskMsg) (tm : TaskMsg) → Perm (w ++ (l ++ push tm q)) (tm ∷ (w ++ (l ++ q)))
steal_perm w l q tm =
    Perm.trans
      (Perm.append_left w (Perm.trans (Perm.append_left l (push-perm tm q)) (perm_middle l q)))
      (perm_middle w (l ++ q))

local_perm :
    (w l q : List TaskMsg) (tm : TaskMsg) → Perm (w ++ (push tm l ++ q)) (tm ∷ (w ++ (l ++ q)))
local_perm w l q tm =
    Perm.trans (Perm.append_left w (Perm.append_right q (push-perm tm l))) (perm_middle w (l ++ q))

back_perm : (w r : List TaskMsg) (tm : TaskMsg) → Perm ((w ++ tm ∷ []) ++ r) (tm ∷ (w ++ r))
back_perm w r tm = rw (append_assoc w (tm ∷ []) r) (perm_middle w r)

-- The task is held, or it is in the one message that is sent.
abbrev IsKept : TaskMsg → Scheduler → Scheduler → List Sent → Type 0
IsKept tm s s' sent =
    ((sent ≡ []) × Perm (held s') (unsized tm ∷ held s))
    ⊎ ((owner : Str) × (tm' : TaskMsg) × (unsized tm' ≡ unsized tm)
        × (sent ≡ record { target = owner; text = push_message tm' } ∷ [])
        × (held s' ≡ held s))

put_ready-IsKept :
    (now : ℕ) (place : Place) (tm : TaskMsg) (s : Scheduler)
    → IsKept tm s (put_ready now place tm s).0 (put_ready now place tm s).1
unfolding put_ready
put_ready-IsKept now steal_queue tm s =
    inl (refl, Perm.map unsized (steal_perm s.wait_queue s.local_queue s.ws_queue tm))
put_ready-IsKept now local_queue tm s =
    inl (refl, Perm.map unsized (local_perm s.wait_queue s.local_queue s.ws_queue tm))
put_ready-IsKept now (pushed owner) tm s = inr (owner, tm, refl, refl, refl)

IsKept-rename :
    (tm tm' : TaskMsg) (s s' : Scheduler) (sent : List Sent)
    → unsized tm' ≡ unsized tm
    → IsKept tm' s s' sent
    → IsKept tm s s' sent
IsKept-rename tm tm' s s' sent e (inl (none_sent, p)) =
    inl (none_sent, subst (λ (t : TaskMsg). Perm (held s') (t ∷ held s)) e p)
IsKept-rename tm tm' s s' sent e (inr (owner, t, same, one, h)) = inr (owner, t, same ∙ e, one, h)

module _ {S : Type 0} (zht : Zht S) (now : ℕ) (store : S) where
  open zht use {lookup}

  -- A task that is not ready is left with the caller; a ready one is kept.
  check_a_ready_task-IsKept :
      (tm : TaskMsg) (s : Scheduler) (c : Checked)
      → check_a_ready_task zht now tm store s ≡ some c
      → ((c.ready ≡ false) × (c.after ≡ s) × (c.sent ≡ []))
        ⊎ ((c.ready ≡ true) × IsKept tm s c.after c.sent)
  unfolding check_a_ready_task
  check_a_ready_task-IsKept tm s c e = elim (Option-cases (str_to_value (lookup tm.taskid store))) [
    | inl missing ↦ absurd (ground arith)
    | inr (value, found) ↦ elim (Bool-cases (is_zero (get_number value.indegree))) [
      | inr waits ↦ inl (ground arith, ground arith, ground arith)
      | inl free ↦ elim (Option-cases (task_ready_process s value tm)) [
        | inl missing ↦ absurd (ground arith)
        | inr ((place, tm'), placed) ↦
            let made : Checked = record {
              ready = true;
              after = (put_ready now place tm' s).0;
              sent = (put_ready now place tm' s).1;
            } in
            let q : made ≡ c = ground arith in
            inr (
              ground arith,
              subst (λ (d : Checked). IsKept tm s d.after d.sent) q
                  (IsKept-rename tm tm' s made.after made.sent
                    (task_ready_process-unsized s value tm tm' place placed)
                    (put_ready-IsKept now place tm' s)),
            )
      ]
    ]
  ]

  -- A round that returns, on a wait queue with the task `tm` at its head, ends with exactly the
  -- tasks that the scheduler held and sends nothing, or it sends one message with `tm` to one
  -- scheduler and holds exactly the others. No field of a task changes but its data length.
  pub checking_round-held :
      (tm : TaskMsg) (rest : List TaskMsg) (s s' : Scheduler) (sent : List Sent)
      → s.wait_queue ≡ tm ∷ rest
      → checking_round zht now store s ≡ some (s', sent)
      → ((sent ≡ []) × Perm (held s') (held s))
        ⊎ ((owner : Str) × (tm' : TaskMsg) × (unsized tm' ≡ unsized tm)
            × (sent ≡ record { target = owner; text = push_message tm' } ∷ [])
            × Perm (unsized tm ∷ held s') (held s))
  unfolding checking_round
  checking_round-held tm rest s s' sent w e =
      let s₀ : Scheduler = record s { wait_queue = rest } in
      let whole : unsized tm ∷ held s₀ ≡ held s =
        ap (λ (q : List TaskMsg). map unsized (q ++ (s.local_queue ++ s.ws_queue))) (sym w) in
      elim (Option-cases (check_a_ready_task zht now tm store s₀)) [
        | inl missing ↦ absurd (ground arith)
        | inr (c, checked) ↦ elim (check_a_ready_task-IsKept tm s₀ c checked) [
          | inl (waits, same, quiet) ↦
              let s₁ : Scheduler = record s { wait_queue = rest ++ tm ∷ [] } in
              let q : s₁ ≡ s' = ground arith in
              inl (
                ground arith,
                subst (λ (l : List TaskMsg). Perm l (held s)) (ap held q)
                    (subst (λ (l : List TaskMsg). Perm (held s₁) l) whole
                      (Perm.map unsized (back_perm rest (s.local_queue ++ s.ws_queue) tm))),
              )
          | inr (ready, inl (none_sent, p)) ↦
              let q : c.after ≡ s' = ground arith in
              inl (
                ground arith,
                subst (λ (l : List TaskMsg). Perm l (held s)) (ap held q)
                    (subst (λ (l : List TaskMsg). Perm (held c.after) l) whole p),
              )
          | inr (ready, inr (owner, tm', same, one, h)) ↦
              let q : c.after ≡ s' = ground arith in
              inr (
                owner,
                tm',
                same,
                ground arith,
                subst (λ (l : List TaskMsg). Perm l (held s))
                    (sym (ap (λ (l : List TaskMsg). unsized tm ∷ l) (sym (ap held q) ∙ h) ∙ whole))
                    (Perm.refl (held s)),
              )
        ]
      ]
