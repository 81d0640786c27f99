-- ===== src/Dag/Shape.antt =====
-- The indegrees of the generated graphs.
use matrix_v.Prelude.{
  ℕ, zero, suc, ◌+◌, ◌*◌, ◌%◌, ◌<◌, ◌≡◌, refl, ap, ◌∙◌, List, [], ◌∷◌, ◌++◌, arith, ltb, leb, ◌==◌,
  if◌then◌else◌, Bool, not, ◌&&◌, some,
}
use matrix_v.Dag.Generate.{
  AdjList, gen_bot_adjlist, fanout_children, gen_fanout_adjlist, pipe_children,
  gen_pipeline_adjlist,
}
use matrix_v.Dag.Edges.{
  tabulate, gen_bot_adjlist-tabulate, gen_fanout_adjlist-tabulate, gen_pipeline_adjlist-tabulate,
}
use matrix_v.Dag.Degree.{count, edges_into, degree, gen_dag_indegree, degree-gen_dag_indegree}

-- 1 where the test holds.
abbrev pub bit : Bool → ℕ
bit b = if b then 1 else 0

edges_into-append :
    (k : ℕ) (a b : AdjList) → edges_into k (a ++ b) ≡ edges_into k a + edges_into k b
unfolding edges_into
edges_into-append k [] b = omega arith
edges_into-append k ((i, cs) ∷ a) b = omega (arith, edges_into-append k a b)

edges_into-suc :
    (k n : ℕ) (f : ℕ → List ℕ)
    → edges_into k (tabulate (suc n) f) ≡ edges_into k (tabulate n f) + count k (f n)
unfolding tabulate edges_into
edges_into-suc k n f = rw (edges_into-append k (tabulate n f) ((n, f n) ∷ [])) (omega arith)

count-fanout_children :
    (k n arg i rounds j : ℕ)
    → count k (fanout_children n arg i rounds j)
      ≡ bit (leb (i * arg + j) k && ltb k (i * arg + j + rounds) && ltb k n)
unfolding count fanout_children
count-fanout_children k n arg i zero j = ground arith
count-fanout_children k n arg i (suc rounds) j =
    ground (arith, count-fanout_children k n arg i rounds (suc j))

edges_into_fanout :
    (k n arg m : ℕ)
    → edges_into k (tabulate m (λ i. fanout_children n arg i arg 1))
      ≡ bit (leb 1 k && ltb k (m * arg + 1) && ltb k n)
unfolding tabulate edges_into
edges_into_fanout k n arg zero = ground arith
edges_into_fanout k n arg (suc m) =
    rw
      (
        edges_into-suc k m (λ i. fanout_children n arg i arg 1),
        edges_into_fanout k n arg m,
        count-fanout_children k n arg m arg 1,
      )
      (ground arith)

le_mul : (n arg : ℕ) → 0 < arg → n < n * arg + 1
le_mul n arg h = grind arith

-- In a fan-out graph of positive degree every task but task 0 has one parent; task 0, and what is
-- no task, has none.
pub gen_fanout_adjlist-degree :
    (arg n k : ℕ)
    → 0 < arg
    → degree k (gen_dag_indegree (gen_fanout_adjlist [] arg n) []) ≡ bit (leb 1 k && ltb k n)
gen_fanout_adjlist-degree arg n k h =
    degree-gen_dag_indegree k (gen_fanout_adjlist [] arg n)
    ∙ ap (edges_into k) (gen_fanout_adjlist-tabulate arg n)
    ∙ edges_into_fanout k n arg n
    ∙ ground (arith, le_mul n arg)

edges_into_pipeline :
    (k n width m : ℕ)
    → edges_into k (tabulate m (pipe_children n width))
      ≡ bit (leb 1 k && ltb k (m + 1) && not (k % width == 0) && ltb k n)
unfolding tabulate edges_into pipe_children count
edges_into_pipeline k n width zero = ground arith
edges_into_pipeline k n width (suc m) =
    rw (edges_into-suc k m (pipe_children n width), edges_into_pipeline k n width m) (ground arith)

-- A pipeline graph of positive width is made, and a task in it has one parent, or none if it
-- begins a pipe or is not in the graph.
pub gen_pipeline_adjlist-degree :
    (a n k : ℕ)
    → (dag : AdjList) × (gen_pipeline_adjlist [] (suc a) n ≡ some dag)
      × (degree k (gen_dag_indegree dag []) ≡ bit (not (k % suc a == 0) && ltb k n))
gen_pipeline_adjlist-degree a n k = (
  tabulate n (pipe_children n (suc a)),
  gen_pipeline_adjlist-tabulate a n,
  degree-gen_dag_indegree k (tabulate n (pipe_children n (suc a)))
      ∙ edges_into_pipeline k n (suc a) n
      ∙ zero_case k,
)
  where
    zero_case :
        (k : ℕ)
        → bit (leb 1 k && ltb k (n + 1) && not (k % suc a == 0) && ltb k n)
          ≡ bit (not (k % suc a == 0) && ltb k n)
    zero_case k = ground arith

edges_into_bot : (k m : ℕ) → edges_into k (tabulate m (λ _. [])) ≡ 0
unfolding tabulate edges_into count
edges_into_bot k zero = refl
edges_into_bot k (suc m) = rw (edges_into-suc k m (λ _. []), edges_into_bot k m) (omega arith)

-- In the graph of independent tasks no task has a parent.
pub gen_bot_adjlist-degree : (n k : ℕ) → degree k (gen_dag_indegree (gen_bot_adjlist [] n) []) ≡ 0
gen_bot_adjlist-degree n k =
    degree-gen_dag_indegree k (gen_bot_adjlist [] n)
    ∙ ap (edges_into k) (gen_bot_adjlist-tabulate n)
    ∙ edges_into_bot k n
