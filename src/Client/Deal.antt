-- ===== src/Client/Deal.antt =====
-- The loop of `submit_task_bc` of matrix/src/client_stub.cpp that gives each scheduler its share.
use matrix_v.Prelude.{
  ℕ, zero, suc, ◌%◌, ◌<◌, ◌≡◌, refl, sym, subst, ◌∙◌, Bool-cases, inl, inr, some, List, [], ◌∷◌,
  ◌++◌, append_assoc, append-nil, arith, ◌==◌, if◌then◌else◌, length, length-set, get_or, set,
}
use matrix_v.Text.TaskMsg.{TaskMsg}
use matrix_v.Client.Submit.{deal}

-- The tasks, numbered from `i` on, whose number leaves the remainder `j`.
pub turns : ℕ → ℕ → ℕ → List TaskMsg → List TaskMsg
turns num_sche j i [] = []
turns num_sche j i (tm ∷ tasks) =
    if i % num_sche == j
    then tm ∷ turns num_sche j (suc i) tasks
    else turns num_sche j (suc i) tasks

get_or-set :
    (shares : List (List TaskMsg)) (i j : ℕ) (v : List TaskMsg)
    → i < length shares
    → get_or (set shares i v) j [] ≡ (if i == j then v else get_or shares j [])
get_or-set [] i j v h = absurd (elim h [ ])
get_or-set (x ∷ shares) zero zero v h = refl
get_or-set (x ∷ shares) zero (suc j) v h = ground arith
get_or-set (x ∷ shares) (suc i) zero v h = ground arith
get_or-set (x ∷ shares) (suc i) (suc j) v h = ground (arith, get_or-set shares i j v)

-- One round, seen from the share of scheduler `j`.
share_round :
    (now : List TaskMsg) (shares : List (List TaskMsg)) (k j : ℕ) (tm : TaskMsg)
    (more : List TaskMsg)
    → now ≡ (if k == j then get_or shares k [] ++ tm ∷ [] else get_or shares j [])
    → now ++ more ≡ get_or shares j [] ++ (if k == j then tm ∷ more else more)
share_round now shares k j tm more e = elim (Bool-cases (k == j)) [
  | inl mine ↦
      let q : k ≡ j = ground arith in
      rw (mine) (rw (e, mine, q) (append_assoc (get_or shares j []) (tm ∷ []) more))
  | inr other ↦ rw (e, other) refl
]

-- With a scheduler or more, and as many shares, the loop over all tasks returns, and the share of
-- each scheduler `j` has grown by the tasks whose number leaves the remainder `j`, in order.
pub deal-turns :
    (tasks : List TaskMsg) (num_sche i : ℕ) (shares : List (List TaskMsg))
    → 0 < num_sche
    → length shares ≡ num_sche
    → (shares' : List (List TaskMsg)) × (deal (length tasks) i tasks num_sche shares ≡ some shares')
      × (length shares' ≡ num_sche)
      × ((j : ℕ) → get_or shares' j [] ≡ get_or shares j [] ++ turns num_sche j i tasks)
unfolding deal turns
deal-turns [] num_sche i shares h l = (shares, refl, l, λ j. sym (append-nil (get_or shares j [])))
deal-turns (tm ∷ tasks) num_sche i shares h l =
    let (shares', run, l', grown) =
      deal-turns tasks num_sche (suc i)
        (set shares (i % num_sche) (get_or shares (i % num_sche) [] ++ tm ∷ [])) h
        (length-set shares (i % num_sche) _ ∙ l) in
    (
      shares',
      run,
      l',
      λ j.
          grown j
          ∙ share_round _ shares (i % num_sche) j tm (turns num_sche j (suc i) tasks) (
              get_or-set shares (i % num_sche) j (get_or shares (i % num_sche) [] ++ tm ∷ [])
                (subst (λ n. i % num_sche < n) (sym l) (omega arith))),
    )
