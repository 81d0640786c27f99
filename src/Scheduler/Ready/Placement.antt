-- ===== src/Scheduler/Ready/Placement.antt =====
-- Where a task that is ready goes, and that no task is lost on the way.
use matrix_v.Prelude.{
  ◌≡◌, ◌≢◌, refl, sym, ◌∙◌, subst, Bool, true, false, Bool-cases, Option-cases, ◌⊎◌, inl, inr,
  Option, none, some, List, [], ◌∷◌, if◌then◌else◌, Str, str_eq, str_eq_iff, All, ℤ, ltb_ℤ, ◌≤ℤ◌,
  arith,
}
use matrix_v.Text.TaskMsg.{TaskMsg}
use matrix_v.Text.Value.{Value, get_number}
use matrix_v.Scheduler.State.{Scheduler, find_data}
use matrix_v.Scheduler.Ready.{
  Largest, no_data, largest_data, Place, steal_queue, local_queue, pushed, choose_place,
  task_ready_process,
}

-- `best` stands in the three lists at one index.
abbrev IsEntry : Largest → List ℤ → List Str → List Str → Type 0
IsEntry best (z ∷ sizes) (p ∷ parents) (n ∷ names) =
    (best ≡ record { size = z; owner = p; key = n }) ⊎ IsEntry best sizes parents names
IsEntry best _ _ _ = ⊥

-- What the loop finds: nothing is larger, and it is an entry or the start value.
record IsLargest (init best : Largest) (sizes : List ℤ) (parents names : List Str) : Type 0 where
  pub from_init : init.size ≤ℤ best.size
  pub above : All (λ z. z ≤ℤ best.size) sizes
  pub entry : (best ≡ init) ⊎ IsEntry best sizes parents names

le_step : (a b c : ℤ) → ltb_ℤ a b ≡ true → b ≤ℤ c → a ≤ℤ c
le_step a b c h k = ground arith

not_less : (a b c : ℤ) → ltb_ℤ a b ≡ false → a ≤ℤ c → b ≤ℤ c
not_less a b c h k = ground arith

largest_data-IsLargest :
    (sizes : List ℤ) (parents names : List Str) (init best : Largest)
    → largest_data sizes parents names init ≡ some best
    → IsLargest init best sizes parents names
unfolding largest_data
largest_data-IsLargest [] parents names init best e =
    subst (λ b. IsLargest init b [] parents names) (let q : init ≡ best = cc in q)
      (record { from_init = omega arith; above = tt; entry = inl refl })
largest_data-IsLargest (z ∷ sizes) [] names init best e = absurd (cc)
largest_data-IsLargest (z ∷ sizes) (p ∷ parents) [] init best e = absurd (cc)
largest_data-IsLargest (z ∷ sizes) (p ∷ parents) (n ∷ names) init best e =
    elim (Bool-cases (ltb_ℤ init.size z)) [
      | inl more ↦
          let new : Largest = record { size = z; owner = p; key = n } in
          let ih : IsLargest new best sizes parents names =
            largest_data-IsLargest sizes parents names new best (ground arith) in
          record {
            from_init = le_step init.size z best.size more ih.from_init;
            above = (ih.from_init, ih.above);
            entry = elim ih.entry [ inl q ↦ inr (inl q) | inr r ↦ inr (inr r) ];
          }
      | inr less ↦
          let ih : IsLargest init best sizes parents names =
            largest_data-IsLargest sizes parents names init best (ground arith) in
          record {
            from_init = ih.from_init;
            above = (not_less init.size z best.size less ih.from_init, ih.above);
            entry = elim ih.entry [ inl q ↦ inl q | inr r ↦ inr (inr r) ];
          }
    ]

-- Here, if this scheduler owns the data or has it in its cache; at the owner otherwise.
abbrev IsChosen : Scheduler → Largest → Place → Type 0
IsChosen s best place =
    ((place ≡ local_queue)
      × ((best.owner ≡ s.id) ⊎ ((s.cache ≡ true) × (find_data best.key s.local_data ≢ none))))
    ⊎ ((place ≡ pushed best.owner)
        × (best.owner ≢ s.id)
        × ((s.cache ≡ false) ⊎ (find_data best.key s.local_data ≡ none)))

choose_place-IsChosen : (s : Scheduler) (best : Largest) → IsChosen s best (choose_place s best)
unfolding choose_place
choose_place-IsChosen s best = elim (Bool-cases (str_eq best.owner s.id)) [
  | inl mine ↦ rw mine (inl (refl, inl ((str_eq_iff best.owner s.id).0 mine)))
  | inr other ↦ rw other (
      elsewhere s.cache (find_data best.key s.local_data) refl refl
        (λ q. absurd (ground (arith, str_eq_iff best.owner s.id))))
]
  where
    elsewhere :
        (cache : Bool) (found : Option Str)
        → s.cache ≡ cache
        → find_data best.key s.local_data ≡ found
        → best.owner ≢ s.id
        → IsChosen s best (
            if cache
            then elim found [ some _ ↦ local_queue | none ↦ pushed best.owner ]
            else pushed best.owner)
    elsewhere false found c f n = inr (refl, n, inl c)
    elsewhere true none c f n = inr (refl, n, inr f)
    elsewhere true (some d) c f n = inl (refl, inr (c, (λ q. cc)))

-- What the place of a task that is ready depends on. `best` is the largest data of its parents.
pub IsPlaced : Scheduler → Value → Place → ℤ → Type 0
IsPlaced s value place size =
    ((get_number value.alldatasize ≤ℤ s.config.data_size_threshold)
      × (place ≡ steal_queue)
      × (size ≡ get_number value.alldatasize))
    ⊎ ((¬ (get_number value.alldatasize ≤ℤ s.config.data_size_threshold))
        × ((best : Largest) × IsLargest no_data best value.datasize value.parents value.datanamelist
            × (size ≡ best.size)
            × IsChosen s best place))

-- `task_ready_process` with `choose_place` shut.
opened :
    (s : Scheduler) (value : Value) (tm : TaskMsg)
    → task_ready_process s value tm ≡ (
        if ltb_ℤ s.config.data_size_threshold (get_number value.alldatasize)
        then elim (largest_data value.datasize value.parents value.datanamelist no_data) [
          | none ↦ none
          | some best ↦ some (choose_place s best, record tm { datalength = best.size })
        ]
        else some (steal_queue, record tm { datalength = get_number value.alldatasize }))
unfolding task_ready_process
opened s value tm = refl

-- A ready task keeps its id, and it goes where `IsPlaced` says if the call returns. With a total
-- data size up to the threshold it may be stolen. With a larger one it goes to the local queue if
-- this scheduler owns the largest piece of data, or has it in its cache, and is pushed to the
-- owner of that piece otherwise; its data length is the size of that piece.
pub task_ready_process-IsPlaced :
    (s : Scheduler) (value : Value) (tm tm' : TaskMsg) (place : Place)
    → task_ready_process s value tm ≡ some (place, tm')
    → IsPlaced s value place tm'.datalength × (tm'.taskid ≡ tm.taskid)
unfolding IsPlaced
task_ready_process-IsPlaced s value tm tm' place e =
    let e' = sym (opened s value tm) ∙ e in
    elim (Bool-cases (ltb_ℤ s.config.data_size_threshold (get_number value.alldatasize))) [
      | inr small ↦ (inl (ground arith, ground arith, ground arith), ground arith)
      | inl large ↦
          elim (Option-cases
            (largest_data value.datasize value.parents value.datanamelist no_data)) [
              | inl missing ↦ absurd (ground arith)
              | inr (best, found) ↦
                  let q : choose_place s best ≡ place = ground arith in
                  (
                    inr (
                      ground arith,
                      (
                        best,
                        largest_data-IsLargest value.datasize value.parents value.datanamelist
                            no_data best found,
                        ground arith,
                        subst (IsChosen s best) q (choose_place-IsChosen s best),
                      ),
                    ),
                    ground arith,
                  )
            ]
    ]
