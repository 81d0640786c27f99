-- ===== src/Zht/Table/Buckets.antt =====
-- Which tables are well formed, and what a write to one bucket does to them (ZHT/src/novoht.cpp).
use matrix_v.Prelude.{
  ℕ, zero, suc, ◌≤◌, ◌<◌, ◌≡◌, ◌∙◌, Option, List, [], ◌∷◌, arith, ◌==◌, if◌then◌else◌, Str, str_eq,
  str_eq_iff, length, get_or, set, length-set,
}
use matrix_v.Zht.Chain.{Chain, value, count}
use matrix_v.Zht.Table.{Table, slot}

pub get_or-set {ℓ} :
    {A : Type ℓ} (xs : List A) (i j : ℕ) (v d : A)
    → i < length xs
    → get_or (set xs i v) j d ≡ (if i == j then v else get_or xs j d)
get_or-set [] i j v d h = absurd (omega arith)
get_or-set (x ∷ xs) zero zero v d h = ground arith
get_or-set (x ∷ xs) zero (suc j) v d h = ground arith
get_or-set (x ∷ xs) (suc i) zero v d h = ground arith
get_or-set (x ∷ xs) (suc i) (suc j) v d h = ground (arith, get_or-set xs i j v d)

abbrev pub home : ℕ → ℕ → ℕ
home i j = if i == j then 1 else 0

-- Every key stands in its own bucket only, and there once at most.
pub record IsPlaced (size : ℕ) (kvpairs : List Chain) : Type 0 where
  pub roomy : 0 < size
  pub width : length kvpairs ≡ size
  pub counts : (q : Str) (i : ℕ) → count q (get_or kvpairs i []) ≤ home (slot q size) i

abbrev pub IsValid : Table → Type 0
IsValid t = IsPlaced t.size t.kvpairs

pub slot-lt : (k : Str) (size : ℕ) → 0 < size → slot k size < size
slot-lt k size h = grind arith

-- A bucket is replaced by a chain that holds the keys of this bucket only, each once at most.
pub set-IsPlaced :
    (k : Str) (c : Chain) (size : ℕ) (kvpairs : List Chain)
    → IsPlaced size kvpairs
    → ((q : Str) → count q c ≤ home (slot q size) (slot k size))
    → IsPlaced size (set kvpairs (slot k size) c)
set-IsPlaced k c size kvpairs w h = record {
  roomy = w.roomy;
  width = length-set kvpairs (slot k size) c ∙ w.width;
  counts = λ q i. ground (
    arith,
    get_or-set kvpairs (slot k size) i c [],
    slot-lt k size w.roomy,
    w.counts q i,
    h q,
    w.width,
  );
}

-- The buckets as one map from keys to values.
abbrev pub view : ℕ → List Chain → Str → Option Str
view size kvpairs q = value q (get_or kvpairs (slot q size) [])

pub view-set :
    (k q : Str) (c : Chain) (size : ℕ) (kvpairs : List Chain) (o : Option Str)
    → 0 < size
    → length kvpairs ≡ size
    → value q c ≡ (if str_eq q k then o else value q (get_or kvpairs (slot k size) []))
    → view size (set kvpairs (slot k size) c) q ≡ (if str_eq q k then o else view size kvpairs q)
view-set k q c size kvpairs o pos w h =
    ground (
      arith,
      get_or-set kvpairs (slot k size) (slot q size) c [],
      slot-lt k size pos,
      str_eq_iff q k,
    )
