-- ===== src/Zht/Blob/Subset.antt =====
-- Lists of blobs in the order of their numbers: `set<Blob, classcomp>` (ZHT/src/bigdata_transfer.h).
use matrix_v.Prelude.{
  ℕ, ◌+◌, ◌<◌, ◌≤◌, ◌≡◌, refl, ap, sym, ◌∙◌, subst, ◌⊎◌, inl, inr, Bool-cases, List, [], ◌∷◌, arith,
  ltb, length,
}
use matrix_v.Zht.Blob.{Blob, insert}

-- The blob is one of the list.
abbrev pub Among : Blob → List Blob → Type 0
Among b [] = ⊥
Among b (c ∷ cs) = (b ≡ c) ⊎ Among b cs

-- The numbers ascend, from `low` on.
abbrev pub IsAscending : ℕ → List Blob → Type 0
IsAscending low [] = Unit
IsAscending low (b ∷ ys) = (low ≤ b.seq_num) × IsAscending (b.seq_num + 1) ys

pub IsAscending-mono :
    (low high : ℕ) (ys : List Blob) → low ≤ high → IsAscending high ys → IsAscending low ys
IsAscending-mono low high [] h s = tt
IsAscending-mono low high (b ∷ ys) h s = (omega (arith, s.0), s.1)

pub Among-low :
    (low : ℕ) (b : Blob) (ys : List Blob) → IsAscending low ys → Among b ys → low ≤ b.seq_num
Among-low low b [] s h = absurd h
Among-low low b (c ∷ cs) s (inl e) = omega (arith, s.0, ap (λ (x : Blob). x.seq_num) e)
Among-low low b (c ∷ cs) s (inr h) = omega (arith, s.0, Among-low (c.seq_num + 1) b cs s.1 h)

-- Two blobs of the list with one number are one blob.
pub Among-one :
    (low : ℕ) (b c : Blob) (ys : List Blob)
    → IsAscending low ys
    → Among b ys
    → Among c ys
    → b.seq_num ≡ c.seq_num
    → b ≡ c
Among-one low b c [] s h i e = absurd h
Among-one low b c (d ∷ ds) s (inl x) (inl y) e = x ∙ sym y
Among-one low b c (d ∷ ds) s (inl x) (inr i) e =
    absurd (omega (arith, e, ap (λ (z : Blob). z.seq_num) x, Among-low (d.seq_num + 1) c ds s.1 i))
Among-one low b c (d ∷ ds) s (inr h) (inl y) e =
    absurd (omega (arith, e, ap (λ (z : Blob). z.seq_num) y, Among-low (d.seq_num + 1) b ds s.1 h))
Among-one low b c (d ∷ ds) s (inr h) (inr i) e = Among-one (d.seq_num + 1) b c ds s.1 h i e

abbrev pub IsSubset : List Blob → List Blob → Type 0
IsSubset xs ys = (c : Blob) → Among c xs → Among c ys

-- A blob of the list whose number is above that of the first one is in the rest.
in_rest : (b c : Blob) (ys : List Blob) → b.seq_num < c.seq_num → Among c (b ∷ ys) → Among c ys
in_rest b c ys h (inl e) = absurd (omega (arith, h, ap (λ (z : Blob). z.seq_num) e))
in_rest b c ys h (inr i) = i

-- A subset is not longer, and is the whole where it is as long.
pub record Compared (xs ys : List Blob) : Type 0 where
  pub shorter : length xs ≤ length ys
  pub whole : length xs ≡ length ys → xs ≡ ys

pub IsSubset-Compared :
    (low : ℕ) (xs ys : List Blob)
    → IsAscending low xs
    → IsAscending low ys
    → IsSubset xs ys
    → Compared xs ys
IsSubset-Compared low [] [] s t h = record { shorter = omega arith; whole = λ e. refl }
IsSubset-Compared low [] (b ∷ ys) s t h = record {
  shorter = omega arith;
  whole = λ e. absurd (omega (arith, e));
}
IsSubset-Compared low (a ∷ xs) [] s t h = absurd (h a (inl refl))
IsSubset-Compared low (a ∷ xs) (b ∷ ys) s t h = elim (h a (inl refl)) [
  | inl e ↦
      let same : a.seq_num ≡ b.seq_num = ap (λ (z : Blob). z.seq_num) e in
      let rest : Compared xs ys =
        IsSubset-Compared (a.seq_num + 1) xs ys s.1
          (subst (λ n. IsAscending (n + 1) ys) (sym same) t.1)
          (λ c i.
            in_rest b c ys (omega (arith, same, Among-low (a.seq_num + 1) c xs s.1 i))
              (h c (inr i))) in
      record {
        shorter = omega (arith, rest.shorter);
        whole = λ l. ap (λ x. x ∷ xs) e ∙ ap (λ x. b ∷ x) (rest.whole (omega (arith, l)));
      }
  | inr i ↦
      let above : b.seq_num + 1 ≤ a.seq_num = Among-low (b.seq_num + 1) a ys t.1 i in
      let rest : Compared (a ∷ xs) ys =
        IsSubset-Compared (b.seq_num + 1) (a ∷ xs) ys (above, s.1) t.1
          (λ c j.
            in_rest b c ys
              (omega (arith, above, Among-low a.seq_num c (a ∷ xs) (omega arith, s.1) j))
              (h c j)) in
      record {
        shorter = omega (arith, rest.shorter);
        whole = λ l. absurd (omega (arith, l, rest.shorter));
      }
]

pub insert-IsAscending :
    (low : ℕ) (b : Blob) (set : List Blob)
    → low ≤ b.seq_num
    → IsAscending low set
    → IsAscending low (insert b set)
unfolding insert
insert-IsAscending low b [] h s = (h, tt)
insert-IsAscending low b (c ∷ set) h s = elim (Bool-cases (ltb b.seq_num c.seq_num)) [
  | inl below ↦ rw below (h, (ground arith, s.1))
  | inr other ↦ elim (Bool-cases (ltb c.seq_num b.seq_num)) [
    | inl above ↦
        rw (other, above) (s.0, insert-IsAscending (c.seq_num + 1) b set (ground arith) s.1)
    | inr same ↦ rw (other, same) s
  ]
]

-- What an insertion holds was there or is new.
pub Among-insert : (b c : Blob) (set : List Blob) → Among c (insert b set) → (c ≡ b) ⊎ Among c set
unfolding insert
Among-insert b c [] h = h
Among-insert b c (d ∷ set) h = ground (arith, Among-insert b c set)

pub Among-insert_old : (b c : Blob) (set : List Blob) → Among c set → Among c (insert b set)
unfolding insert
Among-insert_old b c [] h = absurd h
Among-insert_old b c (d ∷ set) h = ground (arith, Among-insert_old b c set)

-- A blob is in the set after its insertion, or one with its number was there.
pub Among-insert_new :
    (b : Blob) (set : List Blob)
    → Among b (insert b set) ⊎ ((c : Blob) × Among c set × (c.seq_num ≡ b.seq_num))
unfolding insert
Among-insert_new b [] = inl (inl refl)
Among-insert_new b (d ∷ set) = elim (Bool-cases (ltb b.seq_num d.seq_num)) [
  | inl below ↦ rw below (inl (inl refl))
  | inr other ↦ elim (Bool-cases (ltb d.seq_num b.seq_num)) [
    | inl above ↦ elim (Among-insert_new b set) [
      | inl i ↦ rw (other, above) (inl (inr i))
      | inr (c, i, e) ↦ inr (c, inr i, e)
    ]
    | inr same ↦ inr (d, inl refl, ground arith)
  ]
]

pub length-insert : (b : Blob) (set : List Blob) → length (insert b set) ≤ length set + 1
unfolding insert
length-insert b [] = omega arith
length-insert b (d ∷ set) = ground (arith, length-insert b set)
