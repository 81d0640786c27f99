-- ===== src/Scheduler/Record/Counter.antt =====
-- What a round of `recording_stat` of matrix/src/scheduler_stub.cpp does to the number of tasks done.
use matrix_v.Prelude.{ℕ, ◌≡◌, ◌⊎◌, List, ℤ, pos}
use matrix_v.Text.Number.{str_to_num}
use matrix_v.Zht.Interface.{Zht}
use matrix_v.Scheduler.State.{Scheduler}
use matrix_v.Scheduler.Swap.{IsAtomic}
use matrix_v.Scheduler.Serve.{next_recv}
use matrix_v.Scheduler.Swap.Reach.{Reached}
use matrix_v.Scheduler.Serve.Count.{HasCount, IsRaised}
use matrix_v.Scheduler.Record.{done_key}

module _ {S : Type 0} (zht : Zht S) where
  open zht use {lookup, insert, compare_swap}

  -- The number has gone up by `delta` in one atomic step, or all tasks were done already in the
  -- store as others have left it.
  abbrev pub IsAdded : List (S → S) → S → ℤ → ℕ → S → Type 0
  IsAdded fs start num_all delta s' =
      IsRaised zht fs start done_key delta s'
      ⊎ (Reached fs start s' × (str_to_num 64 (lookup done_key s') ≡ num_all))

  -- The same with any property that the others keep and that gives a number.
  module _ (Good : S → Type 0) (counted : (t : S) → Good t → HasCount zht done_key t) (num_all : ℤ)
      (delta : ℕ) where
    abbrev IsStepped : S → Type 0
    IsStepped s' =
        IsAtomic zht Good (next_recv (pos delta)) done_key s'
        ⊎ (Good s' × (str_to_num 64 (lookup done_key s') ≡ num_all))
