-- ===== src/Dag/Generate.antt =====
-- `gen_bot_adjlist`, `gen_fanout_adjlist`, `gen_fanin_adjlist`, `gen_pipeline_adjlist` and
-- `gen_dag_adjlist` of matrix/src/util.cpp. Counts and degrees are not negative.
use matrix_v.Prelude.{
  ℕ, zero, suc, ◌+◌, ◌-◌, ◌*◌, ◌/◌, ◌%◌, ◌≡◌, refl, Option, none, some, List, [], ◌∷◌, ltb, leb,
  ◌==◌, if◌then◌else◌, not, ◌&&◌, Str, codes, str_eq,
}
use mathlib.Core.List.{reverse}
use matrix_v.Dag.OrderedMap.{find, insert}
use matrix_v.Dag.Loop.{for_up}

-- `adjList`
abbrev pub AdjList : Type 0
AdjList = List (ℕ × List ℕ)

unfoldable pub gen_bot_adjlist : AdjList → ℕ → AdjList
gen_bot_adjlist dag num_task = for_up num_task (λ i. insert i []) dag

-- The loop over `j`, with `rounds` rounds left; it breaks at the first child that is no task.
unfoldable pub fanout_children : ℕ → ℕ → ℕ → ℕ → ℕ → List ℕ
fanout_children num_task dag_arg i zero j = []
fanout_children num_task dag_arg i (suc rounds) j =
    let next : ℕ = i * dag_arg + j in
    let rest = fanout_children num_task dag_arg i rounds (suc j) in
    if leb num_task next then [] else next ∷ rest

unfoldable pub gen_fanout_adjlist : AdjList → ℕ → ℕ → AdjList
gen_fanout_adjlist dag dag_arg num_task =
    for_up num_task (λ i. insert i (fanout_children num_task dag_arg i dag_arg 1)) dag

-- One parent of the flipped tree: its children in the other order, each with the one edge back.
fanin_edges : ℕ → ℕ → List ℕ → AdjList → AdjList
fanin_edges num_task i [] dag = dag
fanin_edges num_task i (c ∷ cs) dag =
    fanin_edges num_task i cs (insert (num_task - 1 - c) ((num_task - 1 - i) ∷ []) dag)

-- `tmpAdjList.find(i)->second`; every `i` below `numTask` is there.
fanin_row : ℕ → AdjList → ℕ → AdjList → AdjList
unfolding fanin_edges
fanin_row num_task tmp i dag = elim (find i tmp) [
  | none ↦ dag
  | some cs ↦ fanin_edges num_task i (reverse cs) dag
]

-- With no task at all the source adds the key -1; here `numTask` is at least 1.
pub gen_fanin_adjlist : AdjList → ℕ → ℕ → AdjList
unfolding fanin_row
gen_fanin_adjlist dag dag_arg num_task =
    insert (num_task - 1) []
      (for_up num_task (fanin_row num_task (gen_fanout_adjlist [] dag_arg num_task)) dag)

-- The next task of the same pipe.
unfoldable pub pipe_children : ℕ → ℕ → ℕ → List ℕ
pipe_children num_task dag_arg index =
    if not ((index + 1) % dag_arg == 0) && ltb (index + 1) num_task then (index + 1) ∷ [] else []

-- A pipe length of 0 is a division by zero, `none`.
unfoldable pub gen_pipeline_adjlist : AdjList → ℕ → ℕ → Option AdjList
unfolding for_up pipe_children
gen_pipeline_adjlist dag zero num_task = none
gen_pipeline_adjlist dag (suc a) num_task =
    let width : ℕ = suc a in
    let num_pipe : ℕ = num_task / width in
    let add : ℕ → AdjList → AdjList = λ index. insert index (pipe_children num_task width index) in
    some (
      for_up (num_task - num_pipe * width) (λ j. add (num_pipe * width + j))
        (for_up num_pipe (λ i. for_up width (λ j. add (i * width + j))) dag))

-- An unknown type leaves the graph as it is.
unfoldable pub gen_dag_adjlist : AdjList → Str → ℕ → ℕ → Option AdjList
gen_dag_adjlist dag dag_type dag_arg num_task =
    if str_eq dag_type (codes "BOT")
    then some (gen_bot_adjlist dag num_task)
    else if str_eq dag_type (codes "FanOut")
    then some (gen_fanout_adjlist dag dag_arg num_task)
    else if str_eq dag_type (codes "FanIn")
    then some (gen_fanin_adjlist dag dag_arg num_task)
    else if str_eq dag_type (codes "Pipeline")
    then gen_pipeline_adjlist dag dag_arg num_task
    else some dag

fanout_7 : gen_fanout_adjlist [] 2 4 ≡ (0, 1 ∷ 2 ∷ []) ∷ (1, 3 ∷ []) ∷ (2, []) ∷ (3, []) ∷ []
unfolding gen_fanout_adjlist for_up insert fanout_children
fanout_7 = refl

fanin_4 : gen_fanin_adjlist [] 2 4 ≡ (0, 2 ∷ []) ∷ (1, 3 ∷ []) ∷ (2, 3 ∷ []) ∷ (3, []) ∷ []
unfolding gen_fanin_adjlist gen_fanout_adjlist for_up insert find fanout_children
fanin_4 = refl

pipeline_5 :
    gen_pipeline_adjlist [] 2 5
    ≡ some ((0, 1 ∷ []) ∷ (1, []) ∷ (2, 3 ∷ []) ∷ (3, []) ∷ (4, []) ∷ [])
unfolding gen_pipeline_adjlist insert
pipeline_5 = refl
