-- ===== src/Dag/Edges.antt =====
-- Shape
use matrix_v.Prelude.{
  ℕ, zero, suc, ◌+◌, ◌-◌, ◌*◌, ◌/◌, ◌<◌, ◌≡◌, refl, sym, ap, ◌∙◌, some, List, [], ◌∷◌, ◌++◌, arith,
  All, All-append, All-mono,
}
use matrix_v.Dag.OrderedMap.{insert, insert_last}
use matrix_v.Dag.Loop.{for_up, for_up-count, for_up-add, for_up_nested}
use matrix_v.Dag.Generate.{
  AdjList, gen_bot_adjlist, fanout_children, gen_fanout_adjlist, pipe_children,
  gen_pipeline_adjlist,
}

-- The graph with the keys below `n`, in order, and the children that `f` gives.
unfoldable pub tabulate : ℕ → (ℕ → List ℕ) → AdjList
tabulate zero f = []
tabulate (suc n) f = tabulate n f ++ (n, f n) ∷ []

tabulate_keys : (n : ℕ) (f : ℕ → List ℕ) → All (λ e. e.0 < n) (tabulate n f)
unfolding tabulate
tabulate_keys zero f = tt
tabulate_keys (suc n) f =
    All-append (λ e. e.0 < suc n) (tabulate n f) ((n, f n) ∷ [])
      (All-mono (λ e. e.0 < n) (λ e. e.0 < suc n) (λ e h. omega arith) (tabulate n f)
        (tabulate_keys n f))
      (omega arith, tt)

pub for_up-insert : (n : ℕ) (f : ℕ → List ℕ) → for_up n (λ i. insert i (f i)) [] ≡ tabulate n f
unfolding for_up tabulate
for_up-insert zero f = refl
for_up-insert (suc n) f =
    rw (for_up-insert n f) (insert_last n (f n) (tabulate n f) (tabulate_keys n f))

-- Independent tasks: each has no child.
pub gen_bot_adjlist-tabulate : (n : ℕ) → gen_bot_adjlist [] n ≡ tabulate n (λ _. [])
unfolding gen_bot_adjlist
gen_bot_adjlist-tabulate n = for_up-insert n (λ _. [])

pub gen_fanout_adjlist-tabulate :
    (arg n : ℕ) → gen_fanout_adjlist [] arg n ≡ tabulate n (λ i. fanout_children n arg i arg 1)
unfolding gen_fanout_adjlist
gen_fanout_adjlist-tabulate arg n = for_up-insert n (λ i. fanout_children n arg i arg 1)

-- For a positive width the nested loops of `gen_pipeline_adjlist` and the loop behind them make
-- the graph that one loop over all tasks makes.
pub gen_pipeline_adjlist-tabulate :
    (a n : ℕ) → gen_pipeline_adjlist [] (suc a) n ≡ some (tabulate n (pipe_children n (suc a)))
unfolding gen_pipeline_adjlist
gen_pipeline_adjlist-tabulate a n = ap some (
    ap (for_up (n - p * width) (λ j. add (p * width + j))) (for_up_nested p width add [])
    ∙ sym (for_up-add (p * width) (n - p * width) add [])
    ∙ for_up-count (p * width + (n - p * width)) n add [] (omega arith)
    ∙ for_up-insert n (pipe_children n width))
  where
    width : ℕ
    width = suc a

    p : ℕ
    p = n / width

    add : ℕ → AdjList → AdjList
    add index = insert index (pipe_children n width index)

-- Every edge goes from a task to a later one below `n`.
abbrev pub IsForward : ℕ → AdjList → Type 0
IsForward n dag = All (λ e. All (λ c. (e.0 < c) × (c < n)) e.1) dag

pub tabulate-IsForward :
    (n m : ℕ) (f : ℕ → List ℕ)
    → ((i : ℕ) → All (λ c. (i < c) × (c < n)) (f i))
    → IsForward n (tabulate m f)
unfolding tabulate
tabulate-IsForward n zero f h = tt
tabulate-IsForward n (suc m) f h =
    All-append (λ e. All (λ c. (e.0 < c) × (c < n)) e.1) (tabulate m f) ((m, f m) ∷ [])
      (tabulate-IsForward n m f h) (h m, tt)

fanout_child_gt : (i arg j : ℕ) → 0 < arg → 0 < j → i < i * arg + j
fanout_child_gt i arg j h k = grind arith

fanout_children_forward :
    (n arg i rounds j : ℕ)
    → 0 < arg
    → 0 < j
    → All (λ c. (i < c) × (c < n)) (fanout_children n arg i rounds j)
unfolding fanout_children
fanout_children_forward n arg i zero j h k = tt
fanout_children_forward n arg i (suc rounds) j h k =
    ground (arith, fanout_child_gt i arg j, fanout_children_forward n arg i rounds (suc j))

pub pipe_children_forward : (n width i : ℕ) → All (λ c. (i < c) × (c < n)) (pipe_children n width i)
unfolding pipe_children
pipe_children_forward n width i = ground arith

-- In a fan-out graph of positive degree every edge goes to a later task.
pub gen_fanout_adjlist-IsForward : (arg n : ℕ) → 0 < arg → IsForward n (gen_fanout_adjlist [] arg n)
gen_fanout_adjlist-IsForward arg n h =
    rw (gen_fanout_adjlist-tabulate arg n)
      (tabulate-IsForward n n _ (λ i. fanout_children_forward n arg i arg 1 h (omega arith)))
