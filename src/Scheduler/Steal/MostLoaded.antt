-- ===== src/Scheduler/Steal/MostLoaded.antt =====
-- Which neighbor `find_most_loaded_neigh` of matrix/src/scheduler_stub.cpp finds.
use matrix_v.Prelude.{
  ℕ, true, ◌≡◌, refl, sym, subst, false, Bool-cases, Option-cases, ◌⊎◌, inl, inr, some, List, [],
  ◌∷◌, arith, Str, All, is_empty, ltb_ℤ, ◌≤ℤ◌, ℤ,
}
use mathlib.Core.List.{Memᴰ}
use matrix_v.Text.Value.{get_number}
use matrix_v.Text.MatrixMsg.{MatrixMsg, str_to_mm}
use matrix_v.Scheduler.State.{Scheduler}
use matrix_v.Scheduler.Steal.{query_loads, find_most_loaded_neigh}

-- `i` is asked and answers with the count `z`.
abbrev Answers : (ℕ → Str) → ℕ → ℤ → Type 0
Answers reply i z =
    (is_empty (reply i) ≡ false)
    × ((mm : MatrixMsg) × (str_to_mm (reply i) ≡ some mm) × (get_number mm.count ≡ z))

-- The load is the old one, or the answer of the neighbor that the index names.
abbrev IsFound : (ℕ → Str) → List ℕ → Scheduler → Scheduler → Type 0
IsFound reply idxs s s' =
    ((s'.max_load ≡ s.max_load) × (s'.max_loaded_idx ≡ s.max_loaded_idx))
    ⊎ ((i : ℕ) × Memᴰ i idxs × (s'.max_loaded_idx ≡ some i) × Answers reply i s'.max_load)

-- The neighbor is silent, or its answer has a count of at most `z`.
abbrev IsAtMost : Str → ℤ → Type 0
IsAtMost text z =
    (is_empty text ≡ true)
    ⊎ ((mm : MatrixMsg) × (str_to_mm text ≡ some mm) × (get_number mm.count ≤ℤ z))

-- What the loop over the neighbors leaves: no answer is above the load, the load has
-- not gone down, and it is found as `IsFound` says.
pub record IsMostLoaded (reply : ℕ → Str) (idxs : List ℕ) (s s' : Scheduler) : Type 0 where
  pub from_start : s.max_load ≤ℤ s'.max_load
  pub above : All (λ i. IsAtMost (reply i) s'.max_load) idxs
  pub found : IsFound reply idxs s s'

le_trans_ℤ : (a b c : ℤ) → a ≤ℤ b → b ≤ℤ c → a ≤ℤ c
le_trans_ℤ a b c h k = ground arith

-- What is found among the neighbors behind `i` is found.
later :
    (reply : ℕ → Str) (i : ℕ) (idxs : List ℕ) (s s' : Scheduler)
    → IsFound reply idxs s s'
    → IsFound reply (i ∷ idxs) s s'
later reply i idxs s s' (inl q) = inl q
later reply i idxs s s' (inr (j, m, r, a)) = inr (j, Memᴰ.tail m, r, a)

-- Where `i` answers more than the load so far, it or one behind it is found.
this :
    (reply : ℕ → Str) (i : ℕ) (idxs : List ℕ) (mm : MatrixMsg) (s s' : Scheduler)
    → is_empty (reply i) ≡ false
    → str_to_mm (reply i) ≡ some mm
    → IsFound reply idxs (record s { max_load = get_number mm.count; max_loaded_idx = some i }) s'
    → (j : ℕ) × Memᴰ j (i ∷ idxs) × (s'.max_loaded_idx ≡ some j) × Answers reply j s'.max_load
this reply i idxs mm s s' spoke got (inl (load, idx)) =
    (i, Memᴰ.head refl, idx, (spoke, (mm, got, sym load)))
this reply i idxs mm s s' spoke got (inr (j, m, idx, a)) = (j, Memᴰ.tail m, idx, a)

query_loads-IsMostLoaded :
    (reply : ℕ → Str) (idxs : List ℕ) (s s' : Scheduler)
    → query_loads reply idxs s ≡ some s'
    → IsMostLoaded reply idxs s s'
unfolding query_loads
query_loads-IsMostLoaded reply [] s s' e =
    let q : s ≡ s' = cc in
    subst (IsMostLoaded reply [] s) q
      (record { from_start = ground arith; above = tt; found = inl (refl, refl) })
query_loads-IsMostLoaded reply (i ∷ idxs) s s' e = elim (Bool-cases (is_empty (reply i))) [
  | inl silent ↦
      let ih = query_loads-IsMostLoaded reply idxs s s' (ground arith) in
      record {
        from_start = ih.from_start;
        above = (inl silent, ih.above);
        found = later reply i idxs s s' ih.found;
      }
  | inr spoke ↦ elim (Option-cases (str_to_mm (reply i))) [
    | inl bad ↦ absurd (ground arith)
    | inr (mm, got) ↦ elim (Bool-cases (ltb_ℤ s.max_load (get_number mm.count))) [
      | inl more ↦
          let ih =
            query_loads-IsMostLoaded reply idxs
              (record s { max_load = get_number mm.count; max_loaded_idx = some i }) s'
              (ground arith) in
          record {
            from_start =
                le_trans_ℤ s.max_load (get_number mm.count) s'.max_load (ground arith)
                  ih.from_start;
            above = (inr (mm, got, ih.from_start), ih.above);
            found = inr (this reply i idxs mm s s' spoke got ih.found);
          }
      | inr less ↦
          let ih = query_loads-IsMostLoaded reply idxs s s' (ground arith) in
          record {
            from_start = ih.from_start;
            above = (
              inr (
                mm,
                got,
                le_trans_ℤ (get_number mm.count) s.max_load s'.max_load (ground arith)
                    ih.from_start,
              ),
              ih.above,
            );
            found = later reply i idxs s s' ih.found;
          }
    ]
  ]
]

-- If `find_most_loaded_neigh` returns, each neighbor was silent or its answer can be read and is
-- not above the load that is found, that load is not below the one from before, and it is the one
-- from before, with the same index, or the answer of a neighbor that the index names.
pub find_most_loaded_neigh-IsMostLoaded :
    (reply : ℕ → Str) (s s' : Scheduler)
    → find_most_loaded_neigh reply s ≡ some s'
    → IsMostLoaded reply s.neigh_idx s s'
unfolding find_most_loaded_neigh
find_most_loaded_neigh-IsMostLoaded reply s s' e = query_loads-IsMostLoaded reply s.neigh_idx s s' e
