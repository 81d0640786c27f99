-- ===== src/Scheduler/Steal/Choice.antt =====
-- Which neighbors `choose_neigh` of matrix/src/scheduler_stub.cpp chooses.
use matrix_v.Prelude.{
  ℕ, zero, suc, ◌%◌, ◌<◌, ◌≡◌, ◌≢◌, refl, sym, ap, subst, ◌∙◌, Bool, true, false, Bool-cases,
  Option-cases, inl, inr, Option, none, some, List, [], ◌∷◌, arith, ◌==◌, ◌||◌, All, All-mono,
  length, replicate, length-replicate, set, length-set, get_or,
}
use native.Mathlib.Nat.{mod-eq_of_lt}
use matrix_v.Scheduler.State.{Scheduler}
use matrix_v.Scheduler.Steal.{draw, draw_all, choose_neigh}

-- No index stands twice in the list.
abbrev pub IsDistinct : List ℕ → Type 0
IsDistinct [] = Unit
IsDistinct (x ∷ xs) = All (λ y. x ≢ y) xs × IsDistinct xs

-- An index that can still be chosen.
abbrev IsFree : ℕ → ℕ → List Bool → ℕ → Type 0
IsFree self size bitmap i = (i < size) × (i ≢ self) × (get_or bitmap i true ≡ false)

draw-IsFree :
    (self size : ℕ) (bitmap : List Bool) (rands rest : List ℕ) (i : ℕ)
    → 0 < size
    → draw self size bitmap rands ≡ some (i, rest)
    → IsFree self size bitmap i
unfolding draw
draw-IsFree self size bitmap [] rest i h e = absurd (cc)
draw-IsFree self size bitmap (r ∷ rands) rest i h e =
    elim (Bool-cases (r % size == self || get_or bitmap (r % size) true)) [
      | inl taken ↦ draw-IsFree self size bitmap rands rest i h (ground arith)
      | inr free ↦ ground arith
    ]

set_free :
    (b : List Bool) (i j : ℕ)
    → i < length b
    → get_or (set b i true) j true ≡ false
    → (i ≢ j) × (get_or b j true ≡ false)
set_free [] i j l h = absurd (omega arith)
set_free (x ∷ b) zero zero l h = absurd (cc)
set_free (x ∷ b) zero (suc j) l h = (omega arith, h)
set_free (x ∷ b) (suc i) zero l h = (omega arith, h)
set_free (x ∷ b) (suc i) (suc j) l h =
    let (n, f) = set_free b i j (omega arith) h in (omega (arith, n), f)

draw_all-IsFree :
    (n self size : ℕ) (bitmap : List Bool) (rands chosen : List ℕ)
    → 0 < size
    → length bitmap ≡ size
    → draw_all n self size bitmap rands ≡ some chosen
    → (length chosen ≡ n) × All (IsFree self size bitmap) chosen × IsDistinct chosen
unfolding draw_all
draw_all-IsFree zero self size bitmap rands [] h l e = (refl, tt, tt)
draw_all-IsFree zero self size bitmap rands (c ∷ chosen) h l e = absurd (cc)
draw_all-IsFree (suc n) self size bitmap rands chosen h l e =
    elim (Option-cases (draw self size bitmap rands)) [
      | inl stop ↦ absurd (ground arith)
      | inr ((idx, rest), drawn) ↦
          let free : IsFree self size bitmap idx =
            draw-IsFree self size bitmap rands rest idx h drawn in
          elim (Option-cases (draw_all n self size (set bitmap idx true) rest)) [
            | inl stop ↦ absurd (ground arith)
            | inr (more, got) ↦
                let q : idx ∷ more ≡ chosen = ground arith in
                let (len, frees, distinct) =
                  draw_all-IsFree n self size (set bitmap idx true) rest more h
                    (length-set bitmap idx true ∙ l) got in
                let apart : (j : ℕ)
                    → IsFree self size (set bitmap idx true) j
                    → (idx ≢ j) × IsFree self size bitmap j =
                  λ j f.
                    let (n, f') = set_free bitmap idx j (omega (arith, free.0)) f.2 in
                    (n, (f.0, f.1, f')) in
                subst
                  (λ (l : List ℕ).
                    (length l ≡ suc n) × All (IsFree self size bitmap) l × IsDistinct l)
                  q
                  (
                    omega (arith, len),
                    (
                      free,
                      All-mono (IsFree self size (set bitmap idx true)) (IsFree self size bitmap)
                          (λ j f. (apart j f).1) more frees,
                    ),
                    (
                      All-mono (IsFree self size (set bitmap idx true)) (λ j. idx ≢ j)
                          (λ j f. (apart j f).0) more frees,
                      distinct,
                    ),
                  )
          ]
    ]

-- If the membership list is not empty and the random numbers are enough for the loops of
-- `choose_neigh`, the neighbors that it chooses are as many as asked for, all different, all in
-- the membership list, and the scheduler itself is not one of them.
pub choose_neigh-IsDistinct :
    (rands : List ℕ) (s s' : Scheduler)
    → 0 < length s.scheduler_vec
    → choose_neigh rands s ≡ some s'
    → (length s'.neigh_idx ≡ s.num_neigh)
      × IsDistinct s'.neigh_idx
      × All (λ i. (i < length s.scheduler_vec) × (i ≢ s.index)) s'.neigh_idx
unfolding choose_neigh
choose_neigh-IsDistinct rands s s' h e =
    elim (Option-cases (
      draw_all s.num_neigh s.index (length s.scheduler_vec)
        (replicate (length s.scheduler_vec) false) rands)) [
          | inl stop ↦ absurd (ground arith)
          | inr (chosen, got) ↦
              let (len, free, distinct) =
                draw_all-IsFree s.num_neigh s.index (length s.scheduler_vec)
                  (replicate (length s.scheduler_vec) false) rands chosen h
                  (length-replicate (length s.scheduler_vec) false) got in
              let q : record s { neigh_idx = chosen } ≡ s' = ground arith in
              subst
                (λ (t : Scheduler).
                  (length t.neigh_idx ≡ s.num_neigh)
                  × IsDistinct t.neigh_idx
                  × All (λ i. (i < length s.scheduler_vec) × (i ≢ s.index)) t.neigh_idx)
                q
                (
                  len,
                  distinct,
                  All-mono
                      (IsFree s.index (length s.scheduler_vec)
                        (replicate (length s.scheduler_vec) false))
                      (λ i. (i < length s.scheduler_vec) × (i ≢ s.index)) (λ i f. (f.0, f.1)) chosen
                      free,
                )
        ]

free_set :
    (b : List Bool) (i j : ℕ)
    → i ≢ j
    → get_or b j true ≡ false
    → get_or (set b i true) j true ≡ false
free_set [] i j n h = absurd (cc)
free_set (x ∷ b) zero zero n h = absurd (n refl)
free_set (x ∷ b) zero (suc j) n h = h
free_set (x ∷ b) (suc i) zero n h = h
free_set (x ∷ b) (suc i) (suc j) n h = free_set b i j (λ e. n (ap suc e)) h

choosable_rest :
    (self size i : ℕ) (b : List Bool) (xs : List ℕ)
    → All (λ j. i ≢ j) xs
    → All (IsFree self size b) xs
    → All (IsFree self size (set b i true)) xs
choosable_rest self size i b [] n h = tt
choosable_rest self size i b (x ∷ xs) n h =
    ((h.0.0, h.0.1, free_set b i x n.0 h.0.2), choosable_rest self size i b xs n.1 h.1)

draw_open :
    (self size r : ℕ) (b : List Bool) (rands : List ℕ)
    → (r % size == self || get_or b (r % size) true) ≡ false
    → draw self size b (r ∷ rands) ≡ some (r % size, rands)
unfolding draw
draw_open self size r b rands h = rw (h, draw) refl

draw_free :
    (self size i : ℕ) (b : List Bool) (rands : List ℕ)
    → IsFree self size b i
    → draw self size b (i ∷ rands) ≡ some (i, rands)
draw_free self size i b rands h =
    let small : i % size ≡ i = mod-eq_of_lt h.0 in
    let free : (i == self || get_or b i true) ≡ false = ground (arith, h.1, h.2) in
    draw_open self size i b rands
      (subst (λ k. (k == self || get_or b k true) ≡ false) (sym small) free)
    ∙ ap (λ k. some (k, rands)) small

draw_all_free :
    (self size : ℕ) (b : List Bool) (xs : List ℕ)
    → IsDistinct xs
    → All (IsFree self size b) xs
    → draw_all (length xs) self size b xs ≡ some xs
unfolding draw_all
draw_all_free self size b [] d h = refl
draw_all_free self size b (x ∷ xs) d h =
    rw (draw_free self size x b xs h.0, draw_all)
      (rw (draw_all_free self size (set b x true) xs d.1 (choosable_rest self size x b xs d.0 h.1))
        refl)

all_free : (size i : ℕ) → i < size → get_or (replicate size false) i true ≡ false
all_free zero i h = absurd (omega arith)
all_free (suc size) zero h = refl
all_free (suc size) (suc i) h = all_free size i (omega arith)

-- Every list of different indices of other schedulers, as long as the number of neighbors asked
-- for, can be chosen: with these random numbers the loops of `choose_neigh` end, and the list is
-- the result.
pub choose_neigh_any :
    (xs : List ℕ) (s : Scheduler)
    → length xs ≡ s.num_neigh
    → IsDistinct xs
    → All (λ i. (i < length s.scheduler_vec) × (i ≢ s.index)) xs
    → choose_neigh xs s ≡ some (record s { neigh_idx = xs })
unfolding choose_neigh
choose_neigh_any xs s len d h =
    ap
      (λ (o : Option (List ℕ)). elim o [
        | none ↦ none
        | some chosen ↦ some (record s { neigh_idx = chosen })
      ])
      (ap
          (λ n.
            draw_all n s.index (length s.scheduler_vec) (replicate (length s.scheduler_vec) false)
              xs)
          (sym len)
        ∙ draw_all_free s.index (length s.scheduler_vec) (replicate (length s.scheduler_vec) false)
            xs d
            (All-mono (λ i. (i < length s.scheduler_vec) × (i ≢ s.index))
              (IsFree s.index (length s.scheduler_vec) (replicate (length s.scheduler_vec) false))
              (λ i p. (p.0, p.1, all_free (length s.scheduler_vec) i p.0)) xs h))
