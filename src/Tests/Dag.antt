-- ===== src/Tests/Dag.antt =====
-- Task graphs (Dag).
use matrix_v.Prelude.{ℕ, ◌<◌, ◌≡◌, some, List, [], ◌∷◌, codes, arith, All, length}
use matrix_v.Dag.OrderedMap.{find}
use matrix_v.Dag.Generate.{AdjList, gen_dag_adjlist}
use matrix_v.Dag.Edges.{IsForward}
use matrix_v.Dag.Forward.{gen_dag_adjlist-IsForward}
use matrix_v.Dag.Degree.{degree, gen_dag_indegree, count, edges_into, degree-gen_dag_indegree}
use matrix_v.Dag.Parents.{
  gen_dag_parents, parents_of, gen_dag_parents-parents_of, gen_dag_parents-degree,
}

abbrev diamond : AdjList
diamond = (0, 1 ∷ 2 ∷ []) ∷ (1, 3 ∷ []) ∷ (2, 3 ∷ []) ∷ (3, []) ∷ []

diamond_ok : All (λ e. All (λ c. c < length diamond) e.1) diamond
diamond_ok = ((omega arith, (omega arith, tt)), ((omega arith, tt), ((omega arith, tt), (tt, tt))))

gen_dag_adjlist-IsForward_example :
    (dag : AdjList) × (gen_dag_adjlist [] (codes "Pipeline") 3 7 ≡ some dag) × IsForward 7 dag
gen_dag_adjlist-IsForward_example =
    gen_dag_adjlist-IsForward (codes "Pipeline") 3 7 (λ e. cc) (omega arith)

degree-gen_dag_indegree_example : degree 3 (gen_dag_indegree diamond []) ≡ 2
unfolding edges_into count
degree-gen_dag_indegree_example = degree-gen_dag_indegree 3 diamond

gen_dag_parents-parents_of_example :
    (r : AdjList) × (gen_dag_parents diamond [] ≡ some r) × (find 3 r ≡ some (parents_of 3 diamond))
gen_dag_parents-parents_of_example = gen_dag_parents-parents_of diamond 3 diamond_ok (omega arith)

gen_dag_parents-degree_example :
    (r : AdjList) × (ps : List ℕ) × (gen_dag_parents diamond [] ≡ some r)
    × (find 3 r ≡ some ps)
    × (length ps ≡ degree 3 (gen_dag_indegree diamond []))
gen_dag_parents-degree_example = gen_dag_parents-degree diamond 3 diamond_ok (omega arith)
