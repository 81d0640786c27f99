-- ===== src/Tests/Client.antt =====
-- The client's shares (Client).
use matrix_v.Prelude.{ℕ, ◌≡◌, refl, some, List, [], ◌∷◌, ◌++◌, arith, length, get_or}
use matrix_v.Text.TaskMsg.{TaskMsg}
use matrix_v.Client.Submit.{deal}
use matrix_v.Client.Deal.{turns, deal-turns}
use matrix_v.Tests.Samples.{two_tasks}

deal-turns_example :
    (shares : List (List TaskMsg)) × (deal (length two_tasks) 0 two_tasks 2 ([] ∷ [] ∷ [])
      ≡ some shares)
    × (length shares ≡ 2)
    × ((j : ℕ) → get_or shares j [] ≡ get_or ([] ∷ [] ∷ []) j [] ++ turns 2 j 0 two_tasks)
deal-turns_example = deal-turns two_tasks 2 0 ([] ∷ [] ∷ []) (omega arith) refl
