-- ===== src/Zht/Table/Resize.antt =====
-- `NoVoHT::resize` (ZHT/src/novoht.cpp): the pairs in their new buckets.
use matrix_v.Prelude.{
  ℕ, zero, suc, ◌+◌, ◌*◌, ◌≤◌, ◌<◌, ◌≡◌, refl, Option, none, some, List, [], ◌∷◌, arith, ◌==◌, Str,
  str_eq_iff, get_or, set, replicate, length-replicate, ltb_ℤ, pos, ◌*ℤ◌, Bool-cases, inl, inr,
}
use matrix_v.Zht.Chain.{Chain, Pair, value, count, value-absent}
use matrix_v.Zht.Table.{Table, slot, move_chain, move_all, resize, grow}
use matrix_v.Zht.Table.Buckets.{
  IsPlaced, IsValid, view, view-set, set-IsPlaced, home, get_or-set, slot-lt,
}

abbrev either : Option Str → Option Str → Option Str
either none o = o
either (some v) o = some v

-- The pairs of `c` have come to the buckets that were there.
record Moved (size : ℕ) (c : Chain) (kvpairs after : List Chain) : Type 0 where
  placed : IsPlaced size after
  counted :
      (q : Str)
      → count q (get_or after (slot q size) [])
        ≡ count q c + count q (get_or kvpairs (slot q size) [])
  viewed : (q : Str) → view size after q ≡ either (value q c) (view size kvpairs q)

module _ (size : ℕ) where
  push_head : Pair → List Chain → List Chain
  push_head p kvpairs = set kvpairs (slot p.key size) (p ∷ get_or kvpairs (slot p.key size) [])

  push_head-Moved :
      (p : Pair) (kvpairs : List Chain)
      → IsPlaced size kvpairs
      → count p.key (get_or kvpairs (slot p.key size) []) ≡ 0
      → Moved size (p ∷ []) kvpairs (push_head p kvpairs)
  unfolding push_head count value
  push_head-Moved p kvpairs w h = record {
    placed =
        set-IsPlaced p.key (p ∷ get_or kvpairs (slot p.key size) []) size kvpairs w
          (λ q. ground (arith, w.counts q (slot p.key size), str_eq_iff q p.key));
    counted = λ q. ground (
      arith,
      get_or-set kvpairs (slot p.key size) (slot q size) (p ∷ get_or kvpairs (slot p.key size) [])
          [],
      slot-lt p.key size w.roomy,
      w.width,
      str_eq_iff q p.key,
    );
    viewed = λ q. ground (
      arith,
      view-set p.key q (p ∷ get_or kvpairs (slot p.key size) []) size kvpairs (some p.val) w.roomy
          w.width,
      str_eq_iff q p.key,
    );
  }

  move_chain-Moved :
      (c : Chain) (kvpairs : List Chain)
      → IsPlaced size kvpairs
      → ((q : Str) → count q c + count q (get_or kvpairs (slot q size) []) ≤ 1)
      → Moved size c kvpairs (move_chain size c kvpairs)
  unfolding move_chain push_head count value
  move_chain-Moved [] kvpairs w once = record {
    placed = w;
    counted = λ q. omega arith;
    viewed = λ q. refl;
  }
  move_chain-Moved (p ∷ c) kvpairs w once =
      let first : Moved size (p ∷ []) kvpairs (push_head p kvpairs) =
        push_head-Moved p kvpairs w (ground (arith, once p.key, str_eq_iff p.key p.key)) in
      let others : Moved size c (push_head p kvpairs) (move_chain size c (push_head p kvpairs)) =
        move_chain-Moved c (push_head p kvpairs) first.placed
          (λ q. omega (arith, first.counted q, once q)) in
      record {
        placed = others.placed;
        counted = λ q. omega (arith, first.counted q, others.counted q);
        viewed = λ q.
            ground (
              arith,
              first.viewed q,
              others.viewed q,
              once q,
              value-absent q c,
              str_eq_iff q p.key,
            );
      }

abbrev count_all : Str → List Chain → ℕ
count_all q [] = 0
count_all q (c ∷ cs) = count q c + count_all q cs

abbrev value_all : Str → List Chain → Option Str
value_all q [] = none
value_all q (c ∷ cs) = either (value q c) (value_all q cs)

abbrev AtHome : Str → ℕ → List Chain → Type 0
AtHome q s cs = (i : ℕ) → count q (get_or cs i []) ≤ home s i

nowhere :
    (q : Str) (cs : List Chain) → ((i : ℕ) → count q (get_or cs i []) ≤ 0) → count_all q cs ≡ 0
nowhere q [] h = refl
nowhere q (c ∷ cs) h = omega (arith, h 0, nowhere q cs (λ i. h (suc i)))

count_all-le : (q : Str) (s : ℕ) (cs : List Chain) → AtHome q s cs → count_all q cs ≤ 1
count_all-le q s [] h = omega arith
count_all-le q zero (c ∷ cs) h = omega (arith, h 0, nowhere q cs (λ i. ground (arith, h (suc i))))
count_all-le q (suc s) (c ∷ cs) h =
    ground (arith, h 0, count_all-le q s cs (λ i. ground (arith, h (suc i))))

value_all-absent : (q : Str) (cs : List Chain) → count_all q cs ≡ 0 → value_all q cs ≡ none
value_all-absent q [] h = refl
value_all-absent q (c ∷ cs) h = ground (arith, value-absent q c, value_all-absent q cs)

value_all-home :
    (q : Str) (s : ℕ) (cs : List Chain) → AtHome q s cs → value_all q cs ≡ value q (get_or cs s [])
unfolding value
value_all-home q s [] h = refl
value_all-home q zero (c ∷ cs) h =
    ground (arith, value_all-absent q cs, nowhere q cs (λ i. ground (arith, h (suc i))))
value_all-home q (suc s) (c ∷ cs) h =
    ground (arith, h 0, value-absent q c, value_all-home q s cs (λ i. ground (arith, h (suc i))))

module _ (size : ℕ) where
  record MovedAll (cs kvpairs after : List Chain) : Type 0 where
    placed : IsPlaced size after
    viewed : (q : Str) → view size after q ≡ either (value_all q cs) (view size kvpairs q)

  move_all-MovedAll :
      (cs kvpairs : List Chain)
      → IsPlaced size kvpairs
      → ((q : Str) → count_all q cs + count q (get_or kvpairs (slot q size) []) ≤ 1)
      → MovedAll cs kvpairs (move_all size cs kvpairs)
  unfolding move_all
  move_all-MovedAll [] kvpairs w once = record { placed = w; viewed = λ q. refl }
  move_all-MovedAll (c ∷ cs) kvpairs w once =
      let first : Moved size c kvpairs (move_chain size c kvpairs) =
        move_chain-Moved size c kvpairs w (λ q. omega (arith, once q)) in
      let others : MovedAll cs (move_chain size c kvpairs)
          (move_all size cs (move_chain size c kvpairs)) =
        move_all-MovedAll cs (move_chain size c kvpairs) first.placed
          (λ q. omega (arith, first.counted q, once q)) in
      record {
        placed = others.placed;
        viewed = λ q. ground (
          arith,
          first.viewed q,
          others.viewed q,
          once q,
          value-absent q c,
          value_all-absent q cs,
        );
      }

get_or-replicate {ℓ} : {A : Type ℓ} (n i : ℕ) (d : A) → get_or (replicate n d) i d ≡ d
get_or-replicate zero i d = refl
get_or-replicate (suc n) zero d = refl
get_or-replicate (suc n) (suc i) d = get_or-replicate n i d

-- Empty buckets.
pub replicate-IsPlaced : (n : ℕ) → 0 < n → IsPlaced n (replicate n [])
unfolding count
replicate-IsPlaced n h = record {
  roomy = h;
  width = length-replicate n [];
  counts = λ q i. rw (get_or-replicate {A = Chain} n i []) (omega arith);
}

pub view-replicate : (n : ℕ) (q : Str) → view n (replicate n []) q ≡ none
unfolding value
view-replicate n q = rw (get_or-replicate {A = Chain} n (slot q n) [])

-- The table is well formed, and maps keys to values as the other one does.
pub record SameMap (t u : Table) : Type 0 where
  pub valid : IsValid u
  pub viewed : (q : Str) → view u.size u.kvpairs q ≡ view t.size t.kvpairs q

-- A resize of a well-formed table to a positive size keeps it well formed, and keeps the value of
-- every key.
pub resize-SameMap : (ns : ℕ) (t : Table) → 0 < ns → IsValid t → SameMap t (resize ns t)
unfolding resize
resize-SameMap ns t h w =
    let moved : MovedAll ns t.kvpairs (replicate ns []) (move_all ns t.kvpairs (replicate ns [])) =
      move_all-MovedAll ns t.kvpairs (replicate ns []) (replicate-IsPlaced ns h) (λ q.
        rw (get_or-replicate {A = Chain} ns (slot q ns) []) (
          unfold count in
          (omega (arith, count_all-le q (slot q t.size) t.kvpairs (w.counts q))))) in
    record {
      valid = moved.placed;
      viewed = λ q. ground (
        arith,
        moved.viewed q,
        view-replicate ns q,
        value_all-home q (slot q t.size) t.kvpairs (w.counts q),
      );
    }

pub grow-SameMap : (t : Table) → IsValid t → SameMap t (grow t)
unfolding grow
grow-SameMap t w =
    elim (Bool-cases (ltb_ℤ (t.num_el *ℤ pos t.resize_den) (pos (t.size * t.resize_num)))) [
      | inl small ↦ rw small (record { valid = w; viewed = λ q. refl })
      | inr full ↦ rw full (elim (Bool-cases (t.resize_num == 0)) [
        | inl never ↦ rw never (record { valid = w; viewed = λ q. refl })
        | inr some_ratio ↦ rw some_ratio (resize-SameMap (t.size * 2) t (omega (arith, w.roomy)) w)
      ])
    ]
