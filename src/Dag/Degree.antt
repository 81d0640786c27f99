-- ===== src/Dag/Degree.antt =====
-- `gen_dag_indegree` and `gen_dag_parents` of matrix/src/util.cpp: the number of parents of each
-- task, and their list.
use matrix_v.Prelude.{
  ℕ, zero, suc, ◌+◌, ◌≡◌, refl, ◌∙◌, none, some, List, [], ◌∷◌, arith, ◌==◌, if◌then◌else◌, length,
}
use matrix_v.Dag.OrderedMap.{find, assign, IsOrdered, assign-IsOrdered, find-assign}
use matrix_v.Dag.Loop.{for_up}
use matrix_v.Dag.Generate.{AdjList}

-- `inDegree`
abbrev pub InDegree : Type 0
InDegree = List (ℕ × ℕ)

-- `dagInDegree[k]`
pub degree : ℕ → InDegree → ℕ
degree k m = elim (find k m) [ none ↦ 0 | some d ↦ d ]

bump_all : List ℕ → InDegree → InDegree
bump_all [] m = m
bump_all (c ∷ cs) m = bump_all cs (assign c (degree c m + 1) m)

count_edges : AdjList → InDegree → InDegree
unfolding bump_all
count_edges [] m = m
count_edges ((i, cs) ∷ dag) m = count_edges dag (bump_all cs m)

pub gen_dag_indegree : AdjList → InDegree → InDegree
unfolding count_edges
gen_dag_indegree dag m = count_edges dag (for_up (length dag) (λ i. assign i 0) m)

-- How often `k` is a child.
unfoldable pub count : ℕ → List ℕ → ℕ
count k [] = 0
count k (c ∷ cs) = (if k == c then 1 else 0) + count k cs

unfoldable pub edges_into : ℕ → AdjList → ℕ
unfolding count
edges_into k [] = 0
edges_into k ((i, cs) ∷ dag) = count k cs + edges_into k dag

bump_all-IsOrdered : (cs : List ℕ) (m : InDegree) → IsOrdered 0 m → IsOrdered 0 (bump_all cs m)
unfolding bump_all
bump_all-IsOrdered [] m s = s
bump_all-IsOrdered (c ∷ cs) m s =
    bump_all-IsOrdered cs _ (assign-IsOrdered 0 c (degree c m + 1) m (omega arith) s)

degree-assign :
    (k c d : ℕ) (m : InDegree)
    → IsOrdered 0 m
    → degree k (assign c d m) ≡ (if k == c then d else degree k m)
unfolding degree
degree-assign k c d m s = ground (arith, find-assign 0 c k d m s)

degree-bump_all :
    (k : ℕ) (cs : List ℕ) (m : InDegree)
    → IsOrdered 0 m
    → degree k (bump_all cs m) ≡ degree k m + count k cs
unfolding bump_all count
degree-bump_all k [] m s = omega arith
degree-bump_all k (c ∷ cs) m s = ground (
  arith,
  degree-bump_all k cs (assign c (degree c m + 1) m),
  assign-IsOrdered 0 c (degree c m + 1) m,
  degree-assign k c (degree c m + 1) m,
)

degree-count_edges :
    (k : ℕ) (dag : AdjList) (m : InDegree)
    → IsOrdered 0 m
    → degree k (count_edges dag m) ≡ degree k m + edges_into k dag
unfolding count_edges edges_into
degree-count_edges k [] m s = omega arith
degree-count_edges k ((i, cs) ∷ dag) m s = omega (
  arith,
  degree-count_edges k dag (bump_all cs m) (bump_all-IsOrdered cs m s),
  degree-bump_all k cs m s,
)

zeros-IsOrdered :
    (n : ℕ) (m : InDegree) → IsOrdered 0 m → IsOrdered 0 (for_up n (λ i. assign i 0) m)
unfolding for_up
zeros-IsOrdered zero m s = s
zeros-IsOrdered (suc n) m s = assign-IsOrdered 0 n 0 _ (omega arith) (zeros-IsOrdered n m s)

zeros_degree : (k n : ℕ) → degree k (for_up n (λ i. assign i 0) []) ≡ 0
unfolding for_up degree find
zeros_degree k zero = refl
zeros_degree k (suc n) = ground (
  arith,
  degree-assign k n 0 (for_up n (λ i. assign i 0) []),
  zeros-IsOrdered n [] tt,
  zeros_degree k n,
)

-- The computed indegree of every task is the number of edges of the graph into it.
pub degree-gen_dag_indegree :
    (k : ℕ) (dag : AdjList) → degree k (gen_dag_indegree dag []) ≡ edges_into k dag
unfolding gen_dag_indegree
degree-gen_dag_indegree k dag =
    degree-count_edges k dag (for_up (length dag) (λ i. assign i 0) [])
      (zeros-IsOrdered (length dag) [] tt)
    ∙ rw (zeros_degree k (length dag)) (omega arith)
