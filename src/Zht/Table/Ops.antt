-- ===== src/Zht/Table/Ops.antt =====
-- What `put`, `append`, `remove` and `get` of NoVoHT (ZHT/src/novoht.cpp) do to the map of a
-- well-formed table.
use matrix_v.Prelude.{
  suc, ◌≡◌, ◌≢◌, refl, ap, sym, ◌∙◌, Option, none, some, [], ◌∷◌, ◌++◌, arith, ◌==◌, Str,
  str_eq_iff, pos, Option-cases, inl, inr, Bool-cases, equal_ℤ,
}
use matrix_v.Zht.Chain.{Pair, find, value-absent, find-key, find-value, count-absent}
use matrix_v.Zht.File.{DbFile, write, write_append, mark_file}
use matrix_v.Zht.Table.{
  Table, Outside, bucket, grow, put, get, remove, append, write_file, unlinked,
}
use matrix_v.Zht.Table.Buckets.{IsValid, view}
use matrix_v.Zht.Table.Resize.{SameMap, grow-SameMap}
use matrix_v.Zht.Table.Places.{
  Updates, erased, write-key, write-val, write_append-key, write_append-val, put_last, put_first,
  put_over, Updates-grow,
}

-- `put` keeps the table well formed, and sets the value of its key and of no other.
pub put-Updates :
    (out : Outside) (k v : Str) (t : Table) → IsValid t → Updates k (some v) t (put out k v t).table
unfolding put
put-Updates out k v t w =
    Updates-grow k (some v) t (grow t) (put out k v t).table (grow-SameMap t w)
      (elim (Option-cases (find k (bucket k (grow t)))) [
        | inl new ↦
            let p : Pair = record { key = k; val = v; positions = []; diff = out.stale_diff } in
            rw (new, put)
              (put_last k v (write (grow t).filename (grow t).dbfile p).pair (grow t)
                (grow-SameMap t w).valid (write-key (grow t).filename (grow t).dbfile p)
                (write-val (grow t).filename (grow t).dbfile p) new)
        | inr (r, old) ↦
            let p : Pair = record r { val = v } in
            let f : Option DbFile = mark_file (grow t).dbfile r.positions in
            rw (old, put)
              (put_over k v (write (grow t).filename f p).pair (grow t) (grow-SameMap t w).valid
                (write-key (grow t).filename f p ∙ find-key k (bucket k (grow t)) r old)
                (write-val (grow t).filename f p) r old)
      ])

-- A key that no pair has is no key of the map.
pub view-missing :
    (k : Str) (t : Table) → find k (bucket k t) ≡ none → view t.size t.kvpairs k ≡ none
view-missing k t h = value-absent k (bucket k t) (count-absent k (bucket k t) h)

pub view-found :
    (k : Str) (t : Table) (r : Pair)
    → find k (bucket k t) ≡ some r
    → view t.size t.kvpairs k ≡ some r.val
view-found k t r h = ground (arith, find-value k (bucket k t))

abbrev pub appended : Option Str → Str → Str
appended none a = a
appended (some v) a = v ++ b':' ∷ a

-- `append` sets the value of a key that is not there, and else adds a colon and the text to it.
pub append-Updates :
    (out : Outside) (k a : Str) (t : Table)
    → IsValid t
    → Updates k (some (appended (view t.size t.kvpairs k) a)) t (append out k a t).table
unfolding append
append-Updates out k a t w =
    let f : Option DbFile = t.dbfile in
    elim (Option-cases (find k (bucket k t))) [
      | inl new ↦
          let p : Pair = record { key = k; val = a; positions = []; diff = out.stale_diff } in
          rw (new, append)
            (put_first k (appended (view t.size t.kvpairs k) a) (write t.filename f p).pair t w
              (write-key t.filename f p)
              (write-val t.filename f p ∙ sym (ap (λ o. appended o a) (view-missing k t new))) new)
      | inr (r, old) ↦
          let p : Pair = record r { val = r.val ++ b':' ∷ a } in
          rw (old, append)
            (put_over k (appended (view t.size t.kvpairs k) a) (write_append t.filename f p a).pair
              t w (write_append-key t.filename f p a ∙ find-key k (bucket k t) r old)
              (write_append-val t.filename f p a
                ∙ sym (ap (λ o. appended o a) (view-found k t r old)))
              r old)
    ]

-- `writeFile` leaves the buckets alone.
pub write_file-SameMap :
    (out : Outside) (t : Table) → IsValid t → SameMap t (write_file out t).table
unfolding write_file
write_file-SameMap out t w = elim (Option-cases t.dbfile) [
  | inl closed ↦ rw (closed, write_file) (record { valid = w; viewed = λ q. refl })
  | inr (f, opened) ↦ elim (Bool-cases t.rewriting) [
    | inl busy ↦ rw (opened, write_file, busy) (record { valid = w; viewed = λ q. refl })
    | inr free ↦ elim (Bool-cases (out.thread_rc == 0)) [
      | inl started ↦
          rw (opened, write_file, free, started) (record { valid = w; viewed = λ q. refl })
      | inr failed ↦
          rw (opened, write_file, free, failed) (record { valid = w; viewed = λ q. refl })
    ]
  ]
]

Updates-SameMap :
    (k : Str) (o : Option Str) (t u v : Table) → Updates k o t u → SameMap u v → Updates k o t v
Updates-SameMap k o t u v step same = record {
  valid = same.valid;
  viewed = λ q. same.viewed q ∙ step.viewed q;
}

-- `remove` keeps the table well formed, and unsets its key and no other.
pub remove-Updates :
    (out : Outside) (k : Str) (t : Table) → IsValid t → Updates k none t (remove out k t).table
unfolding remove
remove-Updates out k t w = elim (Option-cases (find k (bucket k t))) [
  | inl missing ↦
      rw (missing, remove)
        (record { valid = w; viewed = λ q. ground (arith, view-missing k t, str_eq_iff q k) })
  | inr (r, there) ↦
      let cut : Updates k none t (unlinked k t) = unfold unlinked in (erased k t w) in
      elim (Bool-cases (equal_ℤ (pos (suc t.n_rem)) t.magic_number)) [
        | inl due ↦
            rw (there, remove, due)
              (Updates-SameMap k none t (unlinked k t) (write_file out (unlinked k t)).table cut
                (write_file-SameMap out (unlinked k t) cut.valid))
        | inr more ↦ rw (there, remove, more) cut
      ]
]

-- `get` reads the map, but never finds the empty key.
pub get-view : (k : Str) (t : Table) → k ≢ [] → get k t ≡ view t.size t.kvpairs k
unfolding get
get-view [] t h = absurd (h refl)
get-view (c ∷ k) t h = refl
