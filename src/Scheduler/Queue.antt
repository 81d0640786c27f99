-- ===== src/Scheduler/Queue.antt =====
-- `priority_queue<TaskMsg, vector<TaskMsg>, HighPriorityByDataSize>` of matrix/src/util.h: `top` is
-- an element that no other goes before, and `a` goes behind `b` where the comparison holds of them.
-- The elements stand here in the order in which `pop` takes them.
use matrix_v.Prelude.{
  ℕ, zero, suc, ◌+◌, ◌≤◌, ◌≡◌, refl, Bool, Bool-cases, inl, inr, Option, none, some, List, [], ◌∷◌,
  ◌++◌, arith, if◌then◌else◌, All, All-mono, ltb_ℤ, ◌≤ℤ◌, length,
}
use mathlib.Core.List.{Perm, perm_middle}
use mathlib.Core.List.Perm
use matrix_v.Text.TaskMsg.{TaskMsg}

-- `HighPriorityByDataSize::operator()`
behind : TaskMsg → TaskMsg → Bool
behind hp lp = ltb_ℤ lp.datalength hp.datalength

pub push : TaskMsg → List TaskMsg → List TaskMsg
unfolding behind
push tm [] = tm ∷ []
push tm (t ∷ queue) = if behind t tm then tm ∷ t ∷ queue else t ∷ push tm queue

unfoldable pub push_all : List TaskMsg → List TaskMsg → List TaskMsg
unfolding push
push_all [] queue = queue
push_all (tm ∷ tms) queue = push_all tms (push tm queue)

-- `top` and `pop`
unfoldable pub pop : List TaskMsg → Option (TaskMsg × List TaskMsg)
pop [] = none
pop (t ∷ queue) = some (t, queue)

-- `n` rounds of `top` and `pop`: what they take, and what is left. No round meets an empty queue
-- where `n` is at most its size.
unfoldable pub pop_many : ℕ → List TaskMsg → List TaskMsg × List TaskMsg
pop_many zero queue = ([], queue)
pop_many (suc n) [] = ([], [])
pop_many (suc n) (t ∷ queue) = let (taken, left) = pop_many n queue in (t ∷ taken, left)

-- No task has a smaller data length than one before it.
abbrev pub IsSorted : List TaskMsg → Type 0
IsSorted [] = Unit
IsSorted (t ∷ queue) = All (λ u. t.datalength ≤ℤ u.datalength) queue × IsSorted queue

All-push :
    (P : TaskMsg → Type 0) (tm : TaskMsg) (queue : List TaskMsg)
    → P tm
    → All P queue
    → All P (push tm queue)
unfolding push
All-push P tm [] p h = (p, tt)
All-push P tm (t ∷ queue) p h = elim (Bool-cases (behind t tm)) [
  | inl e ↦ rw e (p, h)
  | inr e ↦ rw e (h.0, All-push P tm queue p h.1)
]

push-IsSorted : (tm : TaskMsg) (queue : List TaskMsg) → IsSorted queue → IsSorted (push tm queue)
unfolding push behind
push-IsSorted tm [] s = (tt, tt)
push-IsSorted tm (t ∷ queue) s = elim (Bool-cases (behind t tm)) [
  | inl e ↦ rw e (
    (
      (ground arith),
      All-mono (λ u. t.datalength ≤ℤ u.datalength) (λ u. tm.datalength ≤ℤ u.datalength)
          (λ u h. ground arith) queue s.0,
    ),
    s,
  )
  | inr e ↦ rw e (
    All-push (λ u. t.datalength ≤ℤ u.datalength) tm queue (ground arith) s.0,
    push-IsSorted tm queue s.1,
  )
]

-- Pushes into a queue that is in order leave it in order: no task has a smaller data length than
-- one that is popped before it.
pub push_all-IsSorted : (tms queue : List TaskMsg) → IsSorted queue → IsSorted (push_all tms queue)
unfolding push_all
push_all-IsSorted [] queue s = s
push_all-IsSorted (tm ∷ tms) queue s =
    push_all-IsSorted tms (push tm queue) (push-IsSorted tm queue s)

pub push-perm : (tm : TaskMsg) (queue : List TaskMsg) → Perm (push tm queue) (tm ∷ queue)
unfolding push
push-perm tm [] = Perm.refl (tm ∷ [])
push-perm tm (t ∷ queue) = elim (Bool-cases (behind t tm)) [
  | inl e ↦ rw e (Perm.refl (tm ∷ t ∷ queue))
  | inr e ↦ rw e (Perm.trans (Perm.cons t (push-perm tm queue)) (Perm.swap tm t queue))
]

pub push_all-perm : (tms queue : List TaskMsg) → Perm (push_all tms queue) (tms ++ queue)
unfolding push_all
push_all-perm [] queue = Perm.refl queue
push_all-perm (tm ∷ tms) queue =
    Perm.trans (push_all-perm tms (push tm queue))
      (Perm.trans (Perm.append_left tms (push-perm tm queue)) (perm_middle tms queue))

pub pop_many-append :
    (n : ℕ) (queue : List TaskMsg) → (pop_many n queue).0 ++ (pop_many n queue).1 ≡ queue
unfolding pop_many
pop_many-append zero queue = refl
pop_many-append (suc n) [] = refl
pop_many-append (suc n) (t ∷ queue) = rw (pop_many-append n queue)

pub length-pop_many :
    (n : ℕ) (queue : List TaskMsg) → n ≤ length queue → length (pop_many n queue).0 ≡ n
unfolding pop_many
length-pop_many zero queue h = refl
length-pop_many (suc n) [] h = absurd (omega arith)
length-pop_many (suc n) (t ∷ queue) h = rw (length-pop_many n queue (omega arith))

left_of :
    (n : ℕ) (queue : List TaskMsg) (P : TaskMsg → Type 0) → All P queue → All P (pop_many n queue).1
unfolding pop_many
left_of zero queue P h = h
left_of (suc n) [] P h = tt
left_of (suc n) (t ∷ queue) P h = left_of n queue P h.1

-- No task that `pop_many` takes has more data than one that it leaves.
pub pop_many-le :
    (n : ℕ) (queue : List TaskMsg)
    → IsSorted queue
    → All (λ t. All (λ u. t.datalength ≤ℤ u.datalength) (pop_many n queue).1) (pop_many n queue).0
unfolding pop_many
pop_many-le zero queue s = tt
pop_many-le (suc n) [] s = tt
pop_many-le (suc n) (t ∷ queue) s =
    (left_of n queue (λ u. t.datalength ≤ℤ u.datalength) s.0, pop_many-le n queue s.1)

length-push : (tm : TaskMsg) (queue : List TaskMsg) → length (push tm queue) ≡ suc (length queue)
unfolding push
length-push tm [] = refl
length-push tm (t ∷ queue) = ground (arith, length-push tm queue)

pub length-push_all :
    (tms queue : List TaskMsg) → length (push_all tms queue) ≡ length tms + length queue
unfolding push_all
length-push_all [] queue = omega arith
length-push_all (tm ∷ tms) queue =
    omega (arith, length-push_all tms (push tm queue), length-push tm queue)

pub All-push_all :
    (P : TaskMsg → Type 0) (tms queue : List TaskMsg)
    → All P tms
    → All P queue
    → All P (push_all tms queue)
unfolding push_all
All-push_all P [] queue h k = k
All-push_all P (tm ∷ tms) queue h k =
    All-push_all P tms (push tm queue) h.1 (All-push P tm queue h.0 k)
