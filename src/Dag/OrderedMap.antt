-- ===== src/Dag/OrderedMap.antt =====
-- `std::map<long, V>` as a list of entries in the order of the keys. No key is negative here.
use matrix_v.Prelude.{
  ℕ, ◌+◌, ◌<◌, ◌≡◌, refl, Option, none, some, List, [], ◌∷◌, ◌++◌, arith, ltb, ◌==◌, if◌then◌else◌,
  All, Bool-cases, inl, inr,
}

module _ {ℓ} {V : Type ℓ} where
  -- `m.find(k)->second`, unless that is the end
  unfoldable pub find : ℕ → List (ℕ × V) → Option V
  find k [] = none
  find k ((j, w) ∷ m) = if k == j then some w else find k m

  -- `m.insert(make_pair(k, v))`: an entry that is there stays.
  unfoldable pub insert : ℕ → V → List (ℕ × V) → List (ℕ × V)
  insert k v [] = (k, v) ∷ []
  insert k v ((j, w) ∷ m) =
      if ltb k j then (k, v) ∷ (j, w) ∷ m else if k == j then (j, w) ∷ m else (j, w) ∷ insert k v m

  -- `m[k] = v`
  pub assign : ℕ → V → List (ℕ × V) → List (ℕ × V)
  assign k v [] = (k, v) ∷ []
  assign k v ((j, w) ∷ m) =
      if ltb k j then (k, v) ∷ (j, w) ∷ m else if k == j then (k, v) ∷ m else (j, w) ∷ assign k v m

  -- The keys ascend, from `low` on.
  abbrev pub IsOrdered : ℕ → List (ℕ × V) → Type 0
  IsOrdered low [] = Unit
  IsOrdered low ((j, w) ∷ m) = (low < j + 1) × IsOrdered (j + 1) m

  pub IsOrdered-mono : (a b : ℕ) (m : List (ℕ × V)) → a < b + 1 → IsOrdered b m → IsOrdered a m
  IsOrdered-mono a b [] h s = tt
  IsOrdered-mono a b ((j, w) ∷ m) h s = (omega arith, s.1)

  pub insert-IsOrdered :
      (low k : ℕ) (v : V) (m : List (ℕ × V))
      → low < k + 1
      → IsOrdered low m
      → IsOrdered low (insert k v m)
  unfolding insert
  insert-IsOrdered low k v [] h s = (h, tt)
  insert-IsOrdered low k v ((j, w) ∷ m) h s = ground (arith, insert-IsOrdered (j + 1) k v m)

  pub assign-IsOrdered :
      (low k : ℕ) (v : V) (m : List (ℕ × V))
      → low < k + 1
      → IsOrdered low m
      → IsOrdered low (assign k v m)
  unfolding assign
  assign-IsOrdered low k v [] h s = (h, tt)
  assign-IsOrdered low k v ((j, w) ∷ m) h s = ground (arith, assign-IsOrdered (j + 1) k v m)

  pub find_below : (low k : ℕ) (m : List (ℕ × V)) → k < low → IsOrdered low m → find k m ≡ none
  unfolding find
  find_below low k [] h s = refl
  find_below low k ((j, w) ∷ m) h s = ground (arith, find_below (j + 1) k m)

  abbrev pub or_new : V → Option V → Option V
  or_new v none = some v
  or_new v (some w) = some w

  pub find-insert :
      (low k q : ℕ) (v : V) (m : List (ℕ × V))
      → IsOrdered low m
      → find q (insert k v m) ≡ (if q == k then or_new v (find k m) else find q m)
  unfolding find insert
  find-insert low k q v [] s = ground arith
  find-insert low k q v ((j, w) ∷ m) s =
      ground (arith, find-insert (j + 1) k q v m, find_below (j + 1) k m)

  pub find-assign :
      (low k q : ℕ) (v : V) (m : List (ℕ × V))
      → IsOrdered low m
      → find q (assign k v m) ≡ (if q == k then some v else find q m)
  unfolding find assign
  find-assign low k q v [] s = ground arith
  find-assign low k q v ((j, w) ∷ m) s =
      ground (arith, find-assign (j + 1) k q v m, find_below (j + 1) k m)

  -- `m.erase(m.find(k))`
  unfoldable pub erase : ℕ → List (ℕ × V) → List (ℕ × V)
  erase k [] = []
  erase k ((j, w) ∷ m) = if k == j then m else (j, w) ∷ erase k m

  pub erase-IsOrdered : (low k : ℕ) (m : List (ℕ × V)) → IsOrdered low m → IsOrdered low (erase k m)
  unfolding erase
  erase-IsOrdered low k [] s = tt
  erase-IsOrdered low k ((j, w) ∷ m) s = elim (Bool-cases (k == j)) [
    | inl here ↦ rw here (IsOrdered-mono low (j + 1) m (omega (arith, s.0)) s.1)
    | inr there ↦ rw there (s.0, erase-IsOrdered (j + 1) k m s.1)
  ]

  pub find-erase :
      (low k q : ℕ) (m : List (ℕ × V))
      → IsOrdered low m
      → find q (erase k m) ≡ (if q == k then none else find q m)
  unfolding find erase
  find-erase low k q [] s = ground arith
  find-erase low k q ((j, w) ∷ m) s =
      ground (arith, find-erase (j + 1) k q m, find_below (j + 1) k m)

  -- A key above all others goes to the end.
  pub insert_last :
      (k : ℕ) (v : V) (m : List (ℕ × V)) → All (λ e. e.0 < k) m → insert k v m ≡ m ++ (k, v) ∷ []
  unfolding insert
  insert_last k v [] h = refl
  insert_last k v ((j, w) ∷ m) h = ground (arith, insert_last k v m)
