-- ===== src/Zht/Blob/Arrive.antt =====
-- `BdRecvBase::getBdStr` on the blobs of one message among others (ZHT/src/bigdata_transfer.cpp).
use matrix_v.Prelude.{
  ℕ, ◌+◌, ◌<◌, ◌≤◌, ◌≡◌, ◌≢◌, refl, ap, sym, ◌∙◌, subst, Option, none, some, Option-cases,
  Bool-cases, inl, inr, List, [], ◌∷◌, arith, ◌==◌, Str, length, append-nil,
}
use matrix_v.Dag.OrderedMap.{find, assign, erase, IsOrdered, assign-IsOrdered, erase-IsOrdered}
use matrix_v.Zht.Blob.{Blob, BdMap, insert, combine_blobs, arrive}
use matrix_v.Zht.Blob.Subset.{
  Among, IsAscending, IsSubset, Compared, IsSubset-Compared, insert-IsAscending, Among-insert,
  Among-low, length-insert,
}
use matrix_v.Zht.Blob.Pieces.{IsMessage}
use matrix_v.Zht.Blob.Sets.{or_empty, set_of, find-assigned, find-erased, ne_test, arrive-Others}

first_part :
    (parts : List Blob) (b : Blob)
    → length parts ≡ 1
    → Among b parts
    → b.value ≡ combine_blobs parts
unfolding combine_blobs
first_part [] b l a = absurd a
first_part (c ∷ []) b l (inl e) = ap (λ (x : Blob). x.value) e ∙ sym (append-nil c.value)
first_part (c ∷ []) b l (inr a) = absurd a
first_part (c ∷ d ∷ parts) b l a = absurd (omega (arith, l))

module _ (uuid : ℕ) (parts : List Blob) (w : IsMessage uuid (length parts) parts)
    (pos : 0 < length parts) where
  -- What is kept of the message is in order, of the message, and not all of it.
  pub record IsOpen (m : BdMap) : Type 0 where
    pub ordered : IsOrdered 0 m
    pub ascending : IsAscending 1 (set_of uuid m)
    pub subset : IsSubset (set_of uuid m) parts
    pub missing : length (set_of uuid m) < length parts

  -- Nothing is kept of the message.
  pub IsOpen-new : (m : BdMap) → IsOrdered 0 m → find uuid m ≡ none → IsOpen m
  IsOpen-new m s e =
      let empty : set_of uuid m ≡ [] = ap or_empty e in
      record {
        ordered = s;
        ascending = subst (IsAscending 1) (sym empty) tt;
        subset = subst (λ x. IsSubset x parts) (sym empty) (λ c a. absurd a);
        missing = subst (λ (x : List Blob). length x < length parts) (sym empty) pos;
      }

  -- The blob was put into the set, or the message was put together.
  pub data Arrived (b : Blob) (m : BdMap) (o : Option Str) (after : BdMap) : Type 0 where
    waits : o ≡ none → set_of uuid after ≡ insert b (set_of uuid m) → Arrived b m o after
    complete :
        o ≡ some (combine_blobs parts)
        → length (set_of uuid after) + length parts ≤ length (set_of uuid m) + 1
        → Arrived b m o after

  module _ (b : Blob) (m : BdMap) (a : Among b parts) (h : IsOpen m) where
    here : b.uuid ≡ uuid
    here = w.owned b a

    set' : List Blob
    set' = insert b (set_of uuid m)

    set'-IsSubset : IsSubset set' parts
    unfolding set'
    set'-IsSubset c i = elim (Among-insert b c (set_of uuid m) i) [
      | inl e ↦ subst (λ x. Among x parts) (sym e) a
      | inr j ↦ h.subset c j
    ]

    set'-IsAscending : IsAscending 1 set'
    unfolding set'
    set'-IsAscending =
        insert-IsAscending 1 b (set_of uuid m) (Among-low 1 b parts w.ascending a) h.ascending

    compared : Compared set' parts
    compared = IsSubset-Compared 1 set' parts set'-IsAscending w.ascending set'-IsSubset

    got_assigned : (v : List Blob) → set_of uuid (assign b.uuid v m) ≡ v
    got_assigned v =
        let got : find uuid (assign b.uuid v m) ≡ some v =
          ground (arith, here, find-assigned b.uuid uuid v m h.ordered) in
        ap or_empty got

    erased : (v : List Blob) → find uuid (erase b.uuid (assign b.uuid v m)) ≡ none
    erased v = ground (arith, here, find-erased b.uuid uuid v m h.ordered)

    -- The map with the set that the blob is in, if that is not all.
    waiting_map :
        length set' ≢ length parts → (v : List Blob) → v ≡ set' → IsOpen (assign b.uuid v m)
    waiting_map n v e =
        let got : set_of uuid (assign b.uuid v m) ≡ set' = got_assigned v ∙ e in
        record {
          ordered = assign-IsOrdered 0 b.uuid v m (omega arith) h.ordered;
          ascending = subst (IsAscending 1) (sym got) set'-IsAscending;
          subset = subst (λ x. IsSubset x parts) (sym got) set'-IsSubset;
          missing = omega (arith, ap (λ (x : List Blob). length x) got, compared.shorter, n);
        }

    Arrived-first :
        b.total ≢ 1
        → find b.uuid m ≡ none
        → Arrived b m (arrive b m).0 (arrive b m).1 × IsOpen (arrive b m).1
    unfolding arrive
    Arrived-first many new =
        let empty : set_of uuid m ≡ [] = ap or_empty (ap (λ k. find k m) (sym here) ∙ new) in
        let e : b ∷ [] ≡ set' = unfold set' insert in (sym (ap (insert b) empty)) in
        rw (ne_test b.total many, new)
          (
            waits refl (got_assigned (b ∷ []) ∙ unfold set' in e),
            waiting_map (omega (arith, ap (λ (x : List Blob). length x) e, many, w.totals b a, pos))
                (b ∷ []) e,
          )

    Arrived-again :
        (set : List Blob)
        → b.total ≢ 1
        → find b.uuid m ≡ some set
        → Arrived b m (arrive b m).0 (arrive b m).1 × IsOpen (arrive b m).1
    unfolding arrive
    Arrived-again set many there =
        let old : set_of uuid m ≡ set = ap or_empty (ap (λ k. find k m) (sym here) ∙ there) in
        let e : insert b set ≡ set' = unfold set' in (sym (ap (insert b) old)) in
        elim (Bool-cases (length (insert b set) == b.total)) [
          | inl all ↦
              let whole : insert b set ≡ parts =
                e
                ∙ compared.whole
                    (ground (arith, ap (λ (x : List Blob). length x) e, w.totals b a)) in
              let gone : set_of uuid (erase b.uuid (assign b.uuid (insert b set) m)) ≡ [] =
                ap or_empty (erased (insert b set)) in
              rw (ne_test b.total many, there, all)
                (
                  complete (ap (λ x. some (combine_blobs x)) whole) (
                      omega (
                        arith,
                        ap (λ (x : List Blob). length x) gone,
                        ap (λ (x : List Blob). length x) whole,
                        ap (λ (x : List Blob). length x) old,
                        length-insert b set,
                      )),
                  IsOpen-new (erase b.uuid (assign b.uuid (insert b set) m))
                      (erase-IsOrdered 0 b.uuid (assign b.uuid (insert b set) m)
                        (assign-IsOrdered 0 b.uuid (insert b set) m (omega arith) h.ordered))
                      (erased (insert b set)),
                )
          | inr left ↦
              rw (ne_test b.total many, there, left)
                (
                  waits refl (got_assigned (insert b set) ∙ unfold set' in e),
                  waiting_map
                      (λ x.
                        absurd
                          (ground (arith, x, ap (λ (y : List Blob). length y) e, w.totals b a)))
                      (insert b set) e,
                )
        ]

    Arrived-single : b.total ≡ 1 → Arrived b m (arrive b m).0 (arrive b m).1 × IsOpen (arrive b m).1
    unfolding arrive
    Arrived-single one =
        let single : length parts ≡ 1 = sym (w.totals b a) ∙ one in
        rw one (complete (ap some (first_part parts b single a)) (omega (arith, single)), h)

    -- An arrival of a blob of the message.
    pub arrive_lem : Arrived b m (arrive b m).0 (arrive b m).1 × IsOpen (arrive b m).1
    arrive_lem = elim (Bool-cases (b.total == 1)) [
      | inl one ↦ Arrived-single (ground arith)
      | inr many ↦ elim (Option-cases (find b.uuid m)) [
        | inl new ↦ Arrived-first (λ e. ground arith) new
        | inr (set, there) ↦ Arrived-again set (λ e. ground arith) there
      ]
    ]

  -- An arrival of another blob.
  pub arrive_other :
      (b : Blob) (m : BdMap)
      → b.uuid ≢ uuid
      → IsOpen m
      → IsOpen (arrive b m).1 × (set_of uuid (arrive b m).1 ≡ set_of uuid m)
  arrive_other b m n h =
      let o = arrive-Others b m h.ordered in
      let same : set_of uuid (arrive b m).1 ≡ set_of uuid m =
        ap or_empty (o.kept uuid (λ e. n (sym e))) in
      (
        record {
          ordered = o.ordered;
          ascending = subst (IsAscending 1) (sym same) h.ascending;
          subset = subst (λ x. IsSubset x parts) (sym same) h.subset;
          missing = subst (λ (x : List Blob). length x < length parts) (sym same) h.missing;
        },
        same,
      )
