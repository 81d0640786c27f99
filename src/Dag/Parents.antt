-- ===== src/Dag/Parents.antt =====
-- `gen_dag_parents` of matrix/src/util.cpp.
use matrix_v.Prelude.{
  ℕ, zero, suc, ◌<◌, ◌≡◌, refl, ap, ◌∙◌, Option, none, some, List, [], ◌∷◌, ◌++◌, arith, ltb, ◌==◌,
  if◌then◌else◌, All, length, length-append, append_assoc, append-nil,
}
use matrix_v.Dag.OrderedMap.{
  find, insert, assign, IsOrdered, insert-IsOrdered, assign-IsOrdered, find-insert, find-assign,
}
use matrix_v.Dag.Loop.{for_up}
use matrix_v.Dag.Generate.{AdjList}
use matrix_v.Dag.Degree.{count, edges_into, degree, gen_dag_indegree, degree-gen_dag_indegree}

-- `dagParentList.find(c)->second.push_back(index)`; `none` is a use of the end iterator.
push_parent : ℕ → ℕ → AdjList → Option AdjList
push_parent index c parents = elim (find c parents) [
  | none ↦ none
  | some ps ↦ some (assign c (ps ++ index ∷ []) parents)
]

push_row : ℕ → List ℕ → AdjList → Option AdjList
unfolding push_parent
push_row index [] parents = some parents
push_row index (c ∷ cs) parents = elim (push_parent index c parents) [
  | none ↦ none
  | some next ↦ push_row index cs next
]

push_rows : AdjList → AdjList → Option AdjList
unfolding push_row
push_rows [] parents = some parents
push_rows ((index, cs) ∷ dag) parents = elim (push_row index cs parents) [
  | none ↦ none
  | some next ↦ push_rows dag next
]

pub gen_dag_parents : AdjList → AdjList → Option AdjList
unfolding push_rows
gen_dag_parents dag parents = push_rows dag (for_up (length dag) (λ i. insert i []) parents)

-- The index of each entry, as often as `k` is among its children.
row_parents : ℕ → ℕ → List ℕ → List ℕ
row_parents k index [] = []
row_parents k index (c ∷ cs) =
    let rest = row_parents k index cs in if k == c then index ∷ rest else rest

pub parents_of : ℕ → AdjList → List ℕ
unfolding row_parents
parents_of k [] = []
parents_of k ((index, cs) ∷ dag) = row_parents k index cs ++ parents_of k dag

-- All keys below `n` are there.
record IsFull (n : ℕ) (m : AdjList) : Type 0 where
  pub ordered : IsOrdered 0 m
  pub full : (k : ℕ) → k < n → (ps : List ℕ) × (find k m ≡ some ps)

-- What a run from `m` over the rows makes of the entries: `added k` comes behind the list of `k`.
record Extends (n : ℕ) (m : AdjList) (added : ℕ → List ℕ) (r : AdjList) : Type 0 where
  pub ordered : IsOrdered 0 r
  pub extended : (k : ℕ) (ps : List ℕ) → find k m ≡ some ps → find k r ≡ some (ps ++ added k)

Extends-IsFull :
    (n : ℕ) (m r : AdjList) (added : ℕ → List ℕ) → IsFull n m → Extends n m added r → IsFull n r
Extends-IsFull n m r added f e = record {
  ordered = e.ordered;
  full = λ k h. let (ps, q) = f.full k h in (ps ++ added k, e.extended k ps q);
}

push_parent-Extends :
    (n index c : ℕ) (m : AdjList)
    → IsFull n m
    → c < n
    → (r : AdjList) × (push_parent index c m ≡ some r)
      × Extends n m (λ k. if k == c then index ∷ [] else []) r
unfolding push_parent
push_parent-Extends n index c m f h =
    let (ps, q) = f.full c h in
    (
      assign c (ps ++ index ∷ []) m,
      rw (q, push_parent),
      record {
        ordered = assign-IsOrdered 0 c (ps ++ index ∷ []) m (omega arith) f.ordered;
        extended = λ k old e.
            ground (arith, find-assign 0 c k (ps ++ index ∷ []) m f.ordered, append-nil old);
      },
    )

push_row-Extends :
    (n index : ℕ) (cs : List ℕ) (m : AdjList)
    → IsFull n m
    → All (λ c. c < n) cs
    → (r : AdjList) × (push_row index cs m ≡ some r) × Extends n m (λ k. row_parents k index cs) r
unfolding push_row row_parents
push_row-Extends n index [] m f h =
    (m, refl, record { ordered = f.ordered; extended = λ k ps e. rw append-nil e })
push_row-Extends n index (c ∷ cs) m f h =
    let (m₁, e₁, x₁) = push_parent-Extends n index c m f h.0 in
    let (m₂, e₂, x₂) = push_row-Extends n index cs m₁ (Extends-IsFull n m m₁ _ f x₁) h.1 in
    (
      m₂,
      rw (e₁, push_row) e₂,
      record {
        ordered = x₂.ordered;
        extended = λ k ps e.
            x₂.extended k _ (x₁.extended k ps e)
            ∙ ground (arith, append_assoc ps (index ∷ []) (row_parents k index cs), append-nil ps);
      },
    )

push_rows-Extends :
    (n : ℕ) (dag m : AdjList)
    → IsFull n m
    → All (λ e. All (λ c. c < n) e.1) dag
    → (r : AdjList) × (push_rows dag m ≡ some r) × Extends n m (λ k. parents_of k dag) r
unfolding push_rows parents_of
push_rows-Extends n [] m f h =
    (m, refl, record { ordered = f.ordered; extended = λ k ps e. rw append-nil e })
push_rows-Extends n ((index, cs) ∷ dag) m f h =
    let (m₁, e₁, x₁) = push_row-Extends n index cs m f h.0 in
    let (m₂, e₂, x₂) = push_rows-Extends n dag m₁ (Extends-IsFull n m m₁ _ f x₁) h.1 in
    (
      m₂,
      rw (e₁, push_rows) e₂,
      record {
        ordered = x₂.ordered;
        extended = λ k ps e.
            x₂.extended k _ (x₁.extended k ps e)
            ∙ ap some (append_assoc ps (row_parents k index cs) (parents_of k dag));
      },
    )

abbrev blank : ℕ → AdjList
blank n = for_up n (λ i. insert i []) []

blank-IsOrdered : (n : ℕ) → IsOrdered 0 (blank n)
unfolding for_up
blank-IsOrdered zero = tt
blank-IsOrdered (suc n) = insert-IsOrdered 0 n [] _ (omega arith) (blank-IsOrdered n)

find-blank : (n k : ℕ) → find k (blank n) ≡ (if ltb k n then some [] else none)
unfolding for_up find
find-blank zero k = ground arith
find-blank (suc n) k =
    ground
      (arith, find-insert 0 n k [] (blank n), blank-IsOrdered n, find-blank n k, find-blank n n)

parent_lists :
    (dag : AdjList)
    → All (λ e. All (λ c. c < length dag) e.1) dag
    → (r : AdjList) × (gen_dag_parents dag [] ≡ some r)
      × ((k : ℕ) → k < length dag → find k r ≡ some (parents_of k dag))
unfolding gen_dag_parents
parent_lists dag h =
    let (r, e, x) =
      push_rows-Extends (length dag) dag (blank (length dag))
        (record {
          ordered = blank-IsOrdered (length dag);
          full = λ k l. ([], ground (arith, find-blank (length dag) k));
        })
        h in
    (r, e, λ k l. x.extended k [] (ground (arith, find-blank (length dag) k)))

-- If every child is a key below the number of entries, the parent lists can be computed, and the
-- list of a task holds the tasks that have it as a child, in order.
pub gen_dag_parents-parents_of :
    (dag : AdjList) (k : ℕ)
    → All (λ e. All (λ c. c < length dag) e.1) dag
    → k < length dag
    → (r : AdjList) × (gen_dag_parents dag [] ≡ some r) × (find k r ≡ some (parents_of k dag))
gen_dag_parents-parents_of dag k h l =
    let (r, run, lists) = parent_lists dag h in (r, run, lists k l)

length-row_parents : (k index : ℕ) (cs : List ℕ) → length (row_parents k index cs) ≡ count k cs
unfolding row_parents count
length-row_parents k index [] = refl
length-row_parents k index (c ∷ cs) = ground (arith, length-row_parents k index cs)

length-parents_of : (k : ℕ) (dag : AdjList) → length (parents_of k dag) ≡ edges_into k dag
unfolding parents_of edges_into
length-parents_of k [] = refl
length-parents_of k ((index, cs) ∷ dag) = omega (
  arith,
  length-append (row_parents k index cs) (parents_of k dag),
  length-row_parents k index cs,
  length-parents_of k dag,
)

-- If every child is a key below the number of entries, the computed parent list of each task is as
-- long as its computed indegree says.
pub gen_dag_parents-degree :
    (dag : AdjList) (k : ℕ)
    → All (λ e. All (λ c. c < length dag) e.1) dag
    → k < length dag
    → (r : AdjList) × (ps : List ℕ) × (gen_dag_parents dag [] ≡ some r)
      × (find k r ≡ some ps)
      × (length ps ≡ degree k (gen_dag_indegree dag []))
gen_dag_parents-degree dag k h l =
    let (r, run, list) = gen_dag_parents-parents_of dag k h l in
    (
      r,
      parents_of k dag,
      run,
      list,
      omega (arith, length-parents_of k dag, degree-gen_dag_indegree k dag),
    )
