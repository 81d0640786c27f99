-- ===== src/Zht/Table/Pairs.antt =====
-- The number of pairs in all buckets (ZHT/src/novoht.cpp).
use matrix_v.Prelude.{
  ℕ, zero, suc, ◌+◌, ◌<◌, ◌≡◌, refl, ◌∙◌, List, [], ◌∷◌, arith, length, get_or, set, length-set,
  replicate, length-replicate,
}
use matrix_v.Zht.Chain.{Chain}
use matrix_v.Zht.Table.{Table, slot, move_chain, move_all, resize}
use matrix_v.Zht.Table.Buckets.{slot-lt}

-- The pairs in all buckets.
abbrev pub pairs : List Chain → ℕ
pairs [] = 0
pairs (c ∷ cs) = length c + pairs cs

pub pairs-set :
    (cs : List Chain) (i : ℕ) (c : Chain)
    → i < length cs
    → pairs (set cs i c) + length (get_or cs i []) ≡ pairs cs + length c
pairs-set [] i c h = absurd (omega arith)
pairs-set (d ∷ cs) zero c h = omega arith
pairs-set (d ∷ cs) (suc i) c h = omega (arith, pairs-set cs i c)

pairs-move_chain :
    (size : ℕ) (c : Chain) (kvpairs : List Chain)
    → 0 < size
    → length kvpairs ≡ size
    → (pairs (move_chain size c kvpairs) ≡ pairs kvpairs + length c)
      × (length (move_chain size c kvpairs) ≡ size)
unfolding move_chain
pairs-move_chain size [] kvpairs h w = (omega arith, w)
pairs-move_chain size (p ∷ c) kvpairs h w =
    let i = slot p.key size in
    let later =
      pairs-move_chain size c (set kvpairs i (p ∷ get_or kvpairs i [])) h
        (length-set kvpairs i (p ∷ get_or kvpairs i []) ∙ w) in
    (
      omega (arith, later.0, pairs-set kvpairs i (p ∷ get_or kvpairs i []), slot-lt p.key size h),
      later.1,
    )

pairs-move_all :
    (size : ℕ) (cs kvpairs : List Chain)
    → 0 < size
    → length kvpairs ≡ size
    → pairs (move_all size cs kvpairs) ≡ pairs kvpairs + pairs cs
unfolding move_all
pairs-move_all size [] kvpairs h w = omega arith
pairs-move_all size (c ∷ cs) kvpairs h w =
    let first = pairs-move_chain size c kvpairs h w in
    omega (arith, first.0, pairs-move_all size cs (move_chain size c kvpairs) h first.1)

pairs-replicate : (n : ℕ) → pairs (replicate n []) ≡ 0
pairs-replicate zero = refl
pairs-replicate (suc n) = omega (arith, pairs-replicate n)

pub pairs-resize : (ns : ℕ) (t : Table) → 0 < ns → pairs (resize ns t).kvpairs ≡ pairs t.kvpairs
unfolding resize
pairs-resize ns t h = omega (
  arith,
  pairs-move_all ns t.kvpairs (replicate ns []) h (length-replicate {A = Chain} ns []),
  pairs-replicate ns,
)
