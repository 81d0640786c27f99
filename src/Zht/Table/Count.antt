-- ===== src/Zht/Table/Count.antt =====
-- `numEl` of NoVoHT (ZHT/src/novoht.cpp) against the number of pairs in the buckets.
use matrix_v.Prelude.{
  ℕ, suc, ◌+◌, ◌*◌, ◌≡◌, ◌≢◌, refl, ap, sym, ◌∙◌, subst, Option, none, some, [], ◌∷◌, ◌++◌, arith,
  Bool-cases, Option-cases, inl, inr, false, Str, length, length-append, ℤ, pos, ◌+ℤ◌, ◌-ℤ◌, ◌*ℤ◌,
  ltb_ℤ, equal_ℤ, ◌==◌,
}
use matrix_v.Zht.Chain.{Pair, Chain, find, assign, erase, length-assign, length-erase}
use matrix_v.Zht.File.{DbFile, write, write_append, mark_file}
use matrix_v.Zht.Table.{
  Table, Outside, slot, bucket, place, resize, grow, put, append, remove, unlinked, write_file,
}
use matrix_v.Zht.Table.Buckets.{IsValid, slot-lt}
use matrix_v.Zht.Table.Resize.{grow-SameMap}
use matrix_v.Zht.Table.Pairs.{pairs, pairs-set, pairs-resize}

-- The count is right.
abbrev pub IsCounted : Table → Type 0
IsCounted t = t.num_el ≡ pos (pairs t.kvpairs)

-- The table has reached the size at which `put` makes it grow.
abbrev pub IsFull : Table → Type 0
IsFull t =
    (ltb_ℤ (t.num_el *ℤ pos t.resize_den) (pos (t.size * t.resize_num)) ≡ false)
    × (t.resize_num ≢ 0)

grow-full : (t : Table) → IsFull t → grow t ≡ resize (t.size * 2) t
unfolding grow
grow-full t h = rw h.0 (ground arith)

grow-pairs : (t : Table) → IsValid t → IsFull t → pairs (grow t).kvpairs ≡ pairs t.kvpairs
grow-pairs t w full =
    ap (λ (u : Table). pairs u.kvpairs) (grow-full t full)
    ∙ pairs-resize (t.size * 2) t (omega (arith, w.roomy))

place-pairs :
    (k : Str) (c : Chain) (t : Table)
    → IsValid t
    → pairs (place k c t).kvpairs + length (bucket k t) ≡ pairs t.kvpairs + length c
place-pairs k c t w = pairs-set t.kvpairs (slot k t.size) c (rw w.width (slot-lt k t.size w.roomy))

one_more : (n m : ℕ) (z : ℤ) → z ≡ pos n → m ≡ n + 1 → z +ℤ pos 1 ≡ pos m
unfolding ◌+ℤ◌
one_more n m z e h = ground arith

one_less : (n m : ℕ) (z : ℤ) → z ≡ pos n → m + 1 ≡ n → z -ℤ pos 1 ≡ pos m
unfolding ◌-ℤ◌
one_less n m z e h = ground arith

-- If a well-formed table has reached the size at which `put` makes it grow, then after the `put`
-- of a new key the count of its entries is 1, while its buckets hold one pair more than before.
pub put-num_el :
    (out : Outside) (k v : Str) (t : Table)
    → IsValid t
    → IsFull t
    → find k (bucket k (grow t)) ≡ none
    → ((put out k v t).table.num_el ≡ pos 1)
      × (pairs (put out k v t).table.kvpairs ≡ pairs t.kvpairs + 1)
unfolding put
put-num_el out k v t w full new =
    let p : Pair = record { key = k; val = v; positions = []; diff = out.stale_diff } in
    let q : Pair = (write (grow t).filename (grow t).dbfile p).pair in
    rw (new, put)
      (
        one_more 0 1 (grow t).num_el (rw (grow-full t full) (unfold resize in refl)) (omega arith),
        omega (
          arith,
          place-pairs k (bucket k (grow t) ++ q ∷ []) (grow t) (grow-SameMap t w).valid,
          length-append (bucket k (grow t)) (q ∷ []),
          grow-pairs t w full,
        ),
      )

IsCounted-put :
    (out : Outside) (k v : Str) (t : Table)
    → IsValid (grow t)
    → IsCounted (grow t)
    → IsCounted (put out k v t).table
unfolding put
IsCounted-put out k v t w h = elim (Option-cases (find k (bucket k (grow t)))) [
  | inl new ↦
      let p : Pair = record { key = k; val = v; positions = []; diff = out.stale_diff } in
      let q : Pair = (write (grow t).filename (grow t).dbfile p).pair in
      let c : Chain = bucket k (grow t) ++ q ∷ [] in
      rw (new, put)
        (one_more (pairs (grow t).kvpairs) (pairs (place k c (grow t)).kvpairs) (grow t).num_el h
          (omega (arith, place-pairs k c (grow t) w, length-append (bucket k (grow t)) (q ∷ []))))
  | inr (r, old) ↦
      let f : Option DbFile = mark_file (grow t).dbfile r.positions in
      let q : Pair = (write (grow t).filename f (record r { val = v })).pair in
      rw (old, put)
        (h
          ∙ ap pos (
              omega (
                arith,
                place-pairs k (assign q (bucket k (grow t))) (grow t) w,
                length-assign q (bucket k (grow t)),
              )))
]

-- As long as the table does not grow, `put` keeps a right count right.
pub put-IsCounted :
    (out : Outside) (k v : Str) (t : Table)
    → IsValid t
    → grow t ≡ t
    → IsCounted t
    → IsCounted (put out k v t).table
put-IsCounted out k v t w same h =
    IsCounted-put out k v t (grow-SameMap t w).valid (subst IsCounted (sym same) h)

-- `append` and `remove` keep a right count right.
pub append-IsCounted :
    (out : Outside) (k a : Str) (t : Table)
    → IsValid t
    → IsCounted t
    → IsCounted (append out k a t).table
unfolding append
append-IsCounted out k a t w h = elim (Option-cases (find k (bucket k t))) [
  | inl new ↦
      let p : Pair = record { key = k; val = a; positions = []; diff = out.stale_diff } in
      let q : Pair = (write t.filename t.dbfile p).pair in
      rw (append, new)
        (one_more (pairs t.kvpairs) (pairs (place k (q ∷ bucket k t) t).kvpairs) t.num_el h
          (omega (arith, place-pairs k (q ∷ bucket k t) t w)))
  | inr (r, old) ↦
      let p : Pair = record r { val = r.val ++ b':' ∷ a } in
      let q : Pair = (write_append t.filename t.dbfile p a).pair in
      rw (append, old)
        (h
          ∙ ap pos (
              omega
                (arith, place-pairs k (assign q (bucket k t)) t w, length-assign q (bucket k t))))
]

write_file-IsCounted :
    (out : Outside) (t : Table) → IsCounted t → IsCounted (write_file out t).table
unfolding write_file
write_file-IsCounted out t h = elim (Option-cases t.dbfile) [
  | inl closed ↦ rw (closed, write_file) h
  | inr (f, opened) ↦ elim (Bool-cases t.rewriting) [
    | inl busy ↦ rw (opened, write_file, busy) h
    | inr free ↦ elim (Bool-cases (out.thread_rc == 0)) [
      | inl started ↦ rw (opened, write_file, free, started) h
      | inr failed ↦ rw (opened, write_file, free, failed) h
    ]
  ]
]

unlinked-IsCounted :
    (k : Str) (r : Pair) (t : Table)
    → IsValid t
    → IsCounted t
    → find k (bucket k t) ≡ some r
    → IsCounted (unlinked k t)
unfolding unlinked
unlinked-IsCounted k r t w h there =
    one_less (pairs t.kvpairs) (pairs (place k (erase k (bucket k t)) t).kvpairs) t.num_el h
      (omega (arith, place-pairs k (erase k (bucket k t)) t w, length-erase k (bucket k t) r there))

pub remove-IsCounted :
    (out : Outside) (k : Str) (t : Table)
    → IsValid t
    → IsCounted t
    → IsCounted (remove out k t).table
unfolding remove
remove-IsCounted out k t w h = elim (Option-cases (find k (bucket k t))) [
  | inl missing ↦ rw (missing, remove) h
  | inr (r, there) ↦ elim (Bool-cases (equal_ℤ (pos (suc t.n_rem)) t.magic_number)) [
    | inl due ↦
        rw (there, remove, due)
          (write_file-IsCounted out (unlinked k t) (unlinked-IsCounted k r t w h there))
    | inr more ↦ rw (there, remove, more) (unlinked-IsCounted k r t w h there)
  ]
]
