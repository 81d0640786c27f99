-- ===== src/Zht/Table/Places.antt =====
-- One operation changes the value of one key (ZHT/src/novoht.cpp).
use matrix_v.Prelude.{
  ℕ, ◌≤◌, ◌≡◌, refl, sym, Option, none, some, List, [], ◌∷◌, ◌++◌, subst, arith, if◌then◌else◌, Str,
  str_eq, str_eq_iff,
}
use matrix_v.Zht.Chain.{
  Chain, Pair, find, value, count, assign, erase, value-absent, count-absent, count-append,
  value-append, value-assign, count-assign, value-erase, count-erase-le,
}
use matrix_v.Zht.File.{DbFile, write, write_append}
use matrix_v.Zht.Table.{Table, slot, bucket, place}
use matrix_v.Zht.Table.Buckets.{IsPlaced, IsValid, view, view-set, set-IsPlaced, home}
use matrix_v.Zht.Table.Resize.{SameMap}

-- The buckets hold the map that the others held, with one key changed.
pub record Changes (k : Str) (o : Option Str) (size : ℕ) (kvpairs : List Chain) (size' : ℕ)
    (kvpairs' : List Chain) : Type 0 where
  pub valid : IsPlaced size' kvpairs'
  pub viewed : (q : Str) → view size' kvpairs' q ≡ (if str_eq q k then o else view size kvpairs q)

abbrev pub Updates : Str → Option Str → Table → Table → Type 0
Updates k o t u = Changes k o t.size t.kvpairs u.size u.kvpairs

-- `c` has the keys that belong into the bucket of `k`, and a new value for `k`.
place-Updates :
    (k : Str) (o : Option Str) (c : Chain) (t : Table)
    → IsValid t
    → ((q : Str) → count q c ≤ home (slot q t.size) (slot k t.size))
    → ((q : Str) → value q c ≡ (if str_eq q k then o else value q (bucket k t)))
    → Updates k o t (place k c t)
place-Updates k o c t w counts values = record {
  valid = set-IsPlaced k c t.size t.kvpairs w counts;
  viewed = λ q. view-set k q c t.size t.kvpairs o w.roomy w.width (values q);
}

-- The three changes to a chain.
added_last :
    (p : Pair) (t : Table)
    → IsValid t
    → find p.key (bucket p.key t) ≡ none
    → Updates p.key (some p.val) t (place p.key (bucket p.key t ++ p ∷ []) t)
added_last p t w h =
    place-Updates p.key (some p.val) (bucket p.key t ++ p ∷ []) t w
      (λ q.
        unfold count in
        (ground (
          arith,
          w.counts q (slot p.key t.size),
          count-append q (bucket p.key t) (p ∷ []),
          str_eq_iff q p.key,
          count-absent p.key (bucket p.key t),
        )))
      (λ q.
        unfold value in
        (ground (
          arith,
          value-append q (bucket p.key t) (p ∷ []),
          str_eq_iff q p.key,
          count-absent p.key (bucket p.key t),
          value-absent q (bucket p.key t),
        )))

added_first :
    (p : Pair) (t : Table)
    → IsValid t
    → find p.key (bucket p.key t) ≡ none
    → Updates p.key (some p.val) t (place p.key (p ∷ bucket p.key t) t)
added_first p t w h =
    place-Updates p.key (some p.val) (p ∷ bucket p.key t) t w
      (λ q.
        unfold count in
        (ground (
          arith,
          w.counts q (slot p.key t.size),
          str_eq_iff q p.key,
          count-absent p.key (bucket p.key t),
        )))
      (λ q. unfold value in (ground arith))

assigned :
    (p r : Pair) (t : Table)
    → IsValid t
    → find p.key (bucket p.key t) ≡ some r
    → Updates p.key (some p.val) t (place p.key (assign p (bucket p.key t)) t)
assigned p r t w h =
    place-Updates p.key (some p.val) (assign p (bucket p.key t)) t w
      (λ q. ground (arith, w.counts q (slot p.key t.size), count-assign q p (bucket p.key t)))
      (λ q. value-assign q p r (bucket p.key t) h)

pub erased : (k : Str) (t : Table) → IsValid t → Updates k none t (place k (erase k (bucket k t)) t)
erased k t w =
    place-Updates k none (erase k (bucket k t)) t w
      (λ q. omega (arith, w.counts q (slot k t.size), count-erase-le q k (bucket k t)))
      (λ q. value-erase q k (bucket k t) (ground (arith, w.counts k (slot k t.size))))

renamed :
    (c : Str → Chain) (t : Table) {k k' v v' : Str}
    → k ≡ k'
    → v ≡ v'
    → Updates k (some v) t (place k (c k) t)
    → Updates k' (some v') t (place k' (c k') t)
renamed c t {k} {k'} {v} {v'} e f u =
    subst (λ x. Updates x (some v') t (place x (c x) t)) e
      (subst (λ y. Updates k (some y) t (place k (c k) t)) f u)

-- A write to the file changes the positions of a pair only.
pub write-key :
    (filename : Str) (f : Option DbFile) (p : Pair) → (write filename f p).pair.key ≡ p.key
unfolding write
write-key filename none p = refl
write-key filename (some f) p = refl

pub write-val :
    (filename : Str) (f : Option DbFile) (p : Pair) → (write filename f p).pair.val ≡ p.val
unfolding write
write-val filename none p = refl
write-val filename (some f) p = refl

pub write_append-key :
    (filename : Str) (f : Option DbFile) (p : Pair) (s : Str)
    → (write_append filename f p s).pair.key ≡ p.key
unfolding write_append
write_append-key filename none p s = refl
write_append-key filename (some f) p s = refl

pub write_append-val :
    (filename : Str) (f : Option DbFile) (p : Pair) (s : Str)
    → (write_append filename f p s).pair.val ≡ p.val
unfolding write_append
write_append-val filename none p s = refl
write_append-val filename (some f) p s = refl

module _ (k v : Str) (p : Pair) (t : Table) (w : IsValid t) (key : p.key ≡ k)
    (val : p.val ≡ v) where
  pub put_last :
      find k (bucket k t) ≡ none → Updates k (some v) t (place k (bucket k t ++ p ∷ []) t)
  put_last h =
      renamed (λ x. bucket x t ++ p ∷ []) t key val
        (added_last p t w (subst (λ x. find x (bucket x t) ≡ none) (sym key) h))

  pub put_first : find k (bucket k t) ≡ none → Updates k (some v) t (place k (p ∷ bucket k t) t)
  put_first h =
      renamed (λ x. p ∷ bucket x t) t key val
        (added_first p t w (subst (λ x. find x (bucket x t) ≡ none) (sym key) h))

  pub put_over :
      (r : Pair)
      → find k (bucket k t) ≡ some r
      → Updates k (some v) t (place k (assign p (bucket k t)) t)
  put_over r h =
      renamed (λ x. assign p (bucket x t)) t key val
        (assigned p r t w (subst (λ x. find x (bucket x t) ≡ some r) (sym key) h))

pub Updates-grow :
    (k : Str) (o : Option Str) (t g u : Table) → SameMap t g → Updates k o g u → Updates k o t u
Updates-grow k o t g u same step = record {
  valid = step.valid;
  viewed = λ q. ground (arith, step.viewed q, same.viewed q);
}
