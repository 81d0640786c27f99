-- ===== src/Zht/Blob/Sets.antt =====
-- The sets of blobs that a receiver keeps, and those of other ids at an arrival
-- (ZHT/src/bigdata_transfer.cpp).
use matrix_v.Prelude.{
  ℕ, ◌≡◌, ◌≢◌, refl, ◌∙◌, Option, none, some, Option-cases, Bool-cases, inl, inr, List, [], ◌∷◌,
  arith, ◌==◌, if◌then◌else◌, length, false,
}
use matrix_v.Dag.OrderedMap.{
  find, assign, erase, IsOrdered, find-assign, find-erase, assign-IsOrdered, erase-IsOrdered,
}
use matrix_v.Zht.Blob.{Blob, BdMap, insert, arrive}

-- The set that is kept for an id.
abbrev pub or_empty : Option (List Blob) → List Blob
or_empty none = []
or_empty (some set) = set

abbrev pub set_of : ℕ → BdMap → List Blob
set_of uuid m = or_empty (find uuid m)

pub find-assigned :
    (k q : ℕ) (v : List Blob) (m : BdMap)
    → IsOrdered 0 m
    → find q (assign k v m) ≡ (if q == k then some v else find q m)
find-assigned k q v m s = find-assign 0 k q v m s

pub find-erased :
    (k q : ℕ) (v : List Blob) (m : BdMap)
    → IsOrdered 0 m
    → find q (erase k (assign k v m)) ≡ (if q == k then none else find q m)
find-erased k q v m s =
    find-erase 0 k q (assign k v m) (assign-IsOrdered 0 k v m (omega arith) s)
    ∙ ground (arith, find-assign 0 k q v m s)

pub ne_test : (n : ℕ) → n ≢ 1 → n == 1 ≡ false
ne_test n h = ground arith

-- An arrival leaves the sets of other ids alone.
pub record Others (b : Blob) (m after : BdMap) : Type 0 where
  pub ordered : IsOrdered 0 after
  pub kept : (q : ℕ) → q ≢ b.uuid → find q after ≡ find q m

pub arrive-Others : (b : Blob) (m : BdMap) → IsOrdered 0 m → Others b m (arrive b m).1
unfolding arrive
arrive-Others b m s = elim (Bool-cases (b.total == 1)) [
  | inl one ↦ rw one (record { ordered = s; kept = λ q n. refl })
  | inr many ↦ elim (Option-cases (find b.uuid m)) [
    | inl new ↦
        rw (many, new)
          (record {
            ordered = assign-IsOrdered 0 b.uuid (b ∷ []) m (omega arith) s;
            kept = λ q n. ground (arith, find-assigned b.uuid q (b ∷ []) m s);
          })
    | inr (set, there) ↦
        let set' : List Blob = insert b set in
        let s' : IsOrdered 0 (assign b.uuid set' m) =
          assign-IsOrdered 0 b.uuid set' m (omega arith) s in
        elim (Bool-cases (length set' == b.total)) [
          | inl all ↦
              rw (many, there, all)
                (record {
                  ordered = erase-IsOrdered 0 b.uuid (assign b.uuid set' m) s';
                  kept = λ q n. ground (arith, find-erased b.uuid q set' m s);
                })
          | inr some_left ↦
              rw (many, there, some_left)
                (record {
                  ordered = s';
                  kept = λ q n. ground (arith, find-assigned b.uuid q set' m s);
                })
        ]
  ]
]
