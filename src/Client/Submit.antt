-- ===== src/Client/Submit.antt =====
-- `insert_taskinfo_to_zht`, `init_task`, `submit_task`, `submit_task_bc` and `submit_task_wc` of
-- matrix/src/client_stub.cpp.
use matrix_v.Prelude.{
  ℕ, zero, suc, ◌+◌, ◌%◌, Bool, Option, none, some, List, [], ◌∷◌, ◌++◌, map, if◌then◌else◌, Str,
  str_eq, codes, ℤ, pos, length, get_elem?, get_or, set, replicate,
}
use matrix_v.Text.Number.{num_to_str}
use matrix_v.Text.Token.{tokenize}
use matrix_v.Text.TaskMsg.{TaskMsg}
use matrix_v.Text.Value.{Value, new_value, value_to_str, str_to_value}
use matrix_v.Dag.Generate.{AdjList}
use matrix_v.Dag.Degree.{InDegree, degree}
use matrix_v.Wire.Batch.{send_batch_tasks}
use matrix_v.Zht.Interface.{Zht}

pub record Client : Type 0 where
  pub index : ℕ
  pub scheduler_vec : List Str
  pub num_task_per_client : ℕ
  pub max_task_per_pkg : ℕ
  pub submit_mode : Str
  pub task_vec : List Str
  pub tasks : List TaskMsg
  pub num_zht_msg : ℕ

-- `ss << get_index() << i`
task_id : ℕ → ℕ → Str
task_id index i = num_to_str (pos index) ++ num_to_str (pos i)

task_value : ℕ → ℕ → List ℕ → ℤ → Value
unfolding task_id
task_value index i children in_degree = record (new_value (task_id index i)) {
  indegree = some in_degree;
  children = map (task_id index) children;
}

-- The workload line of task `i`, with the id before it; `none` is an index out of range.
task_of_line : ℕ → ℕ → Str → Option TaskMsg
unfolding task_id
task_of_line index i line = fields (tokenize (codes " ") (task_id index i ++ codes " " ++ line))
  where
    fields : List Str → Option TaskMsg
    fields (taskid ∷ user ∷ dir ∷ cmd ∷ rest) =
        some (record { taskid = taskid; user = user; dir = dir; cmd = cmd; datalength = pos 0 })
    fields _ = none

-- The loop of `init_task` from task `i` on, with `rounds` tasks left.
init_loop : ℕ → ℕ → ℕ → List Str → Option (List TaskMsg)
unfolding task_of_line
init_loop index zero i lines = some []
init_loop index (suc rounds) i [] = none
init_loop index (suc rounds) i (line ∷ lines) = elim (task_of_line index i line) [
  | none ↦ none
  | some tm ↦ elim (init_loop index rounds (suc i) lines) [
    | none ↦ none
    | some tms ↦ some (tm ∷ tms)
  ]
]

unfoldable init_task : Client → Option Client
unfolding init_loop
init_task c = elim (init_loop c.index c.num_task_per_client 0 c.task_vec) [
  | none ↦ none
  | some tms ↦ some (record c { tasks = c.tasks ++ tms })
]

-- Task `i` goes to the share of scheduler `i % numSche`. `none`: fewer tasks than the loop has rounds.
unfoldable pub deal : ℕ → ℕ → List TaskMsg → ℕ → List (List TaskMsg) → Option (List (List TaskMsg))
deal zero i tasks num_sche shares = some shares
deal (suc rounds) i [] num_sche shares = none
deal (suc rounds) i (tm ∷ tasks) num_sche shares =
    deal rounds (suc i) tasks num_sche
      (set shares (i % num_sche) (get_or shares (i % num_sche) [] ++ tm ∷ []))

-- What goes to one scheduler.
pub record Delivery : Type 0 where
  pub target : Str
  pub texts : List Str

-- `connected` tells for which scheduler `create_sock` gives a socket; to the others nothing is sent.
submit_task_wc : (Str → Bool) → Client → List TaskMsg → ℕ → Option (List Delivery)
submit_task_wc connected c tms to_sche_idx = elim (get_elem? c.scheduler_vec to_sche_idx) [
  | none ↦ none
  | some ip ↦
      if connected ip
      then elim (send_batch_tasks c.max_task_per_pkg tms (codes "client")) [
        | none ↦ none
        | some texts ↦ some (record { target = ip; texts = texts } ∷ [])
      ]
      else some []
]

submit_shares : (Str → Bool) → Client → List (List TaskMsg) → ℕ → Option (List Delivery)
unfolding submit_task_wc
submit_shares connected c [] i = some []
submit_shares connected c (share ∷ shares) i = elim (submit_task_wc connected c share i) [
  | none ↦ none
  | some here ↦ elim (submit_shares connected c shares (suc i)) [
    | none ↦ none
    | some rest ↦ some (here ++ rest)
  ]
]

submit_task_bc : (Str → Bool) → Client → Option (List Delivery)
unfolding deal submit_shares
submit_task_bc connected c =
    let num_sche = length c.scheduler_vec in
    elim (deal c.num_task_per_client 0 c.tasks num_sche (replicate num_sche [])) [
      | none ↦ none
      | some shares ↦ submit_shares connected c shares 0
    ]

module _ {S : Type 0} (zht : Zht S) where
  open zht use {lookup, insert}

  insert_tasks : ℕ → InDegree → AdjList → S → S
  unfolding task_value
  insert_tasks index in_degree [] store = store
  insert_tasks index in_degree ((i, children) ∷ dag) store = insert_tasks index in_degree dag (
      insert (task_id index i)
        (value_to_str (task_value index i children (pos (degree i in_degree)))) store)

  unfoldable insert_taskinfo_to_zht : AdjList → InDegree → S → Client → S × Client
  unfolding insert_tasks
  insert_taskinfo_to_zht dag in_degree store c = (
    insert_tasks c.index in_degree dag store,
    record c { num_zht_msg = c.num_zht_msg + c.num_task_per_client },
  )

  -- The submission times; `none` is an index out of range, or an `exit`.
  stamp : ℕ → (ℕ → ℕ) → List TaskMsg → S → Option S
  stamp zero clock tasks store = some store
  stamp (suc rounds) clock [] store = none
  stamp (suc rounds) clock (tm ∷ tasks) store = elim (str_to_value (lookup tm.taskid store)) [
    | none ↦ none
    | some value ↦
        stamp rounds (λ i. clock (suc i)) tasks
          (insert tm.taskid (value_to_str (record value { submittime = some (pos (clock 0)) }))
            store)
  ]

  pub record Submitted : Type 0 where
    pub deliveries : List Delivery
    pub store : S
    pub after : Client

  -- `draw` is what `rand` returns for the worst case. Another mode submits nothing.
  unfoldable submit_task : (Str → Bool) → (ℕ → ℕ) → ℕ → S → Client → Option Submitted
  unfolding stamp submit_task_bc
  submit_task connected clock draw store c =
      elim (stamp c.num_task_per_client clock c.tasks store) [
        | none ↦ none
        | some store' ↦
            let c' : Client = record c {
              num_zht_msg = c.num_zht_msg + (c.num_task_per_client + c.num_task_per_client);
            } in
            let sent : Option (List Delivery) =
              if str_eq c.submit_mode (codes "bestcase")
              then submit_task_bc connected c'
              else if str_eq c.submit_mode (codes "worstcase")
              then submit_task_wc connected c' c.tasks (draw % length c.scheduler_vec)
              else some [] in
            elim sent [
              | none ↦ none
              | some ds ↦ some (record { deliveries = ds; store = store'; after = c' })
            ]
      ]
