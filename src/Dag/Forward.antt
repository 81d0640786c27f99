-- ===== src/Dag/Forward.antt =====
-- Every graph that `gen_dag_adjlist` of matrix/src/util.cpp makes has its edges from earlier to later
-- tasks, so that it has no cycle; the fan-in graphs are not treated here.
use matrix_v.Prelude.{
  ℕ, zero, suc, ◌<◌, ◌≡◌, ◌≢◌, refl, false, Bool-cases, inl, inr, some, [], arith, Str, str_eq,
  str_eq_ne, codes,
}
use matrix_v.Dag.Generate.{
  AdjList, gen_dag_adjlist, gen_bot_adjlist, gen_fanout_adjlist, gen_pipeline_adjlist,
  pipe_children,
}
use matrix_v.Dag.Edges.{
  IsForward, tabulate, tabulate-IsForward, pipe_children_forward, gen_bot_adjlist-tabulate,
  gen_fanout_adjlist-IsForward, gen_pipeline_adjlist-tabulate,
}

gen_bot_adjlist-IsForward : (n : ℕ) → IsForward n (gen_bot_adjlist [] n)
gen_bot_adjlist-IsForward n =
    rw (gen_bot_adjlist-tabulate n) (tabulate-IsForward n n (λ _. []) (λ i. tt))

gen_pipeline_adjlist-IsForward :
    (arg n : ℕ)
    → 0 < arg
    → (dag : AdjList) × (gen_pipeline_adjlist [] arg n ≡ some dag) × IsForward n dag
gen_pipeline_adjlist-IsForward zero n h = absurd (omega arith)
gen_pipeline_adjlist-IsForward (suc a) n h = (
  tabulate n (pipe_children n (suc a)),
  gen_pipeline_adjlist-tabulate a n,
  tabulate-IsForward n n (pipe_children n (suc a)) (λ i. pipe_children_forward n (suc a) i),
)

-- A graph of any type but "FanIn", of positive degree, is made, and each of its edges goes from a
-- task to a later one of the `n` tasks.
pub gen_dag_adjlist-IsForward :
    (dag_type : Str) (arg n : ℕ)
    → dag_type ≢ codes "FanIn"
    → 0 < arg
    → (dag : AdjList) × (gen_dag_adjlist [] dag_type arg n ≡ some dag) × IsForward n dag
unfolding gen_dag_adjlist
gen_dag_adjlist-IsForward dag_type arg n other h =
    elim (Bool-cases (str_eq dag_type (codes "BOT"))) [
      | inl bot ↦ (gen_bot_adjlist [] n, rw bot refl, gen_bot_adjlist-IsForward n)
      | inr not_bot ↦ elim (Bool-cases (str_eq dag_type (codes "FanOut"))) [
        | inl out ↦ (
          gen_fanout_adjlist [] arg n,
          rw (not_bot, out) refl,
          gen_fanout_adjlist-IsForward arg n h,
        )
        | inr not_out ↦
            let not_in : str_eq dag_type (codes "FanIn") ≡ false =
              str_eq_ne dag_type (codes "FanIn") other in
            elim (Bool-cases (str_eq dag_type (codes "Pipeline"))) [
              | inl pipe ↦
                  let (dag, run, forward) = gen_pipeline_adjlist-IsForward arg n h in
                  (dag, rw (not_bot, not_out, not_in, pipe) run, forward)
              | inr unknown ↦ ([], rw (not_bot, not_out, not_in, unknown) refl, tt)
            ]
      ]
    ]
