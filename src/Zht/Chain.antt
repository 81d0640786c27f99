-- ===== src/Zht/Chain.antt =====
-- The pairs of one bucket and the hash that picks the bucket: `kvpair`, `fnv_hash` and the walks
-- along `next` in NoVoHT (ZHT/src/novoht.h, ZHT/src/novoht.cpp). A chain is the list of its pairs.
use Prim.Native.Nat.{bit_xor}
use matrix_v.Prelude.{
  ℕ, ◌+◌, ◌-◌, ◌*◌, ◌%◌, ◌^◌, ◌≤◌, ◌≡◌, refl, Bool, Option, none, some, List, [], ◌∷◌, ◌++◌, arith,
  ltb, if◌then◌else◌, Str, codes, str_eq, str_eq_iff, length,
}

pub record Pair : Type 0 where
  pub key : Str
  pub val : Str
  -- Where the pair stands in the file.
  pub positions : List ℕ
  -- No constructor sets it: a new pair has what the memory held.
  pub diff : Bool

abbrev pub Chain : Type 0
Chain = List Pair

-- A `char` is signed, and is widened to 64 bits.
abbrev widen : ℕ → ℕ
widen c = if ltb c 128 then c else c + (2 ^ 64 - 256)

-- `SIZE_OF_LONG_LONG_INT` is defined nowhere, so the constants of the second branch hold.
fnv_loop : ℕ → Str → ℕ
fnv_loop x [] = x
fnv_loop x (c ∷ k) = fnv_loop ((bit_xor x (widen c) * 2166136261) % 2 ^ 64) k

unfoldable pub fnv_hash : Str → ℕ
unfolding fnv_loop
fnv_hash k = fnv_loop 16777619 k

hashes : fnv_hash (codes "a") ≡ 36342814672087354
unfolding fnv_hash
hashes = refl

-- The first pair with the key.
unfoldable pub find : Str → Chain → Option Pair
find k [] = none
find k (p ∷ c) = if str_eq k p.key then some p else find k c

-- The value of the first pair with the key.
unfoldable pub value : Str → Chain → Option Str
value k [] = none
value k (p ∷ c) = if str_eq k p.key then some p.val else value k c

-- A write to the first pair that has the key of `p`.
unfoldable pub assign : Pair → Chain → Chain
assign p [] = []
assign p (r ∷ c) = if str_eq p.key r.key then p ∷ c else r ∷ assign p c

-- The first pair with the key is unlinked.
unfoldable pub erase : Str → Chain → Chain
erase k [] = []
erase k (p ∷ c) = if str_eq k p.key then c else p ∷ erase k c

unfoldable pub count : Str → Chain → ℕ
count k [] = 0
count k (p ∷ c) = (if str_eq k p.key then 1 else 0) + count k c

pub find-value :
    (k : Str) (c : Chain) → value k c ≡ elim (find k c) [ none ↦ none | some p ↦ some p.val ]
unfolding find value
find-value k [] = refl
find-value k (p ∷ c) = ground (arith, find-value k c)

pub find-key : (k : Str) (c : Chain) (p : Pair) → find k c ≡ some p → p.key ≡ k
unfolding find
find-key k [] p h = cc
find-key k (r ∷ c) p h = ground (arith, find-key k c p, str_eq_iff k r.key)

pub value-absent : (k : Str) (c : Chain) → count k c ≡ 0 → value k c ≡ none
unfolding value count
value-absent k [] h = refl
value-absent k (p ∷ c) h = ground (arith, value-absent k c)

pub count-absent : (k : Str) (c : Chain) → find k c ≡ none → count k c ≡ 0
unfolding find count
count-absent k [] h = refl
count-absent k (p ∷ c) h = ground (arith, count-absent k c)

pub count-append : (q : Str) (a b : Chain) → count q (a ++ b) ≡ count q a + count q b
unfolding count
count-append q [] b = omega arith
count-append q (p ∷ a) b = omega (arith, count-append q a b)

pub value-append :
    (q : Str) (a b : Chain)
    → value q (a ++ b) ≡ elim (value q a) [ none ↦ value q b | some v ↦ some v ]
unfolding value
value-append q [] b = refl
value-append q (p ∷ a) b = ground (arith, value-append q a b)

pub value-assign :
    (q : Str) (p r : Pair) (c : Chain)
    → find p.key c ≡ some r
    → value q (assign p c) ≡ (if str_eq q p.key then some p.val else value q c)
unfolding find value assign
value-assign q p r [] h = cc
value-assign q p r (s ∷ c) h =
    ground
      (arith, value-assign q p r c, str_eq_iff p.key s.key, str_eq_iff q p.key, str_eq_iff q s.key)

pub count-assign : (q : Str) (p : Pair) (c : Chain) → count q (assign p c) ≡ count q c
unfolding count assign
count-assign q p [] = refl
count-assign q p (s ∷ c) =
    ground
      (arith, count-assign q p c, str_eq_iff p.key s.key, str_eq_iff q p.key, str_eq_iff q s.key)

pub value-erase :
    (q k : Str) (c : Chain)
    → count k c ≤ 1
    → value q (erase k c) ≡ (if str_eq q k then none else value q c)
unfolding value count erase
value-erase q k [] h = ground arith
value-erase q k (s ∷ c) h = ground (
  arith,
  value-erase q k c,
  value-absent q c,
  str_eq_iff k s.key,
  str_eq_iff q k,
  str_eq_iff q s.key,
)

pub count-erase-le : (q k : Str) (c : Chain) → count q (erase k c) ≤ count q c
unfolding count erase
count-erase-le q k [] = omega arith
count-erase-le q k (s ∷ c) = ground (arith, count-erase-le q k c)

pub length-assign : (p : Pair) (c : Chain) → length (assign p c) ≡ length c
unfolding assign
length-assign p [] = refl
length-assign p (s ∷ c) = ground (arith, length-assign p c)

pub length-erase :
    (k : Str) (c : Chain) (p : Pair) → find k c ≡ some p → length (erase k c) + 1 ≡ length c
unfolding find erase
length-erase k [] p h = cc
length-erase k (s ∷ c) p h = ground (arith, length-erase k c p)
