-- ===== src/Scheduler/Swap.antt =====
-- The loops around `compare_swap` of matrix/src/scheduler_stub.cpp: read a value, compute the next
-- one, swap it in, and start again from the value that is there when another process was faster.
-- What other processes do to the store before each attempt is the list `others`.
pub mod Reach
use matrix_v.Prelude.{
  ℕ, ◌+◌, ◌≡◌, ◌≢◌, refl, ap, subst, ◌∙◌, true, false, Bool-cases, Option-cases, inl, inr, Option,
  none, some, List, [], ◌∷◌, ◌++◌, if◌then◌else◌, Str, str_eq, is_empty, arith, All, str_eq_iff,
  ne_of_str_eq,
}
use matrix_v.Zht.Interface.{Zht, Swapped, IsKey, IsStorable}

module _ {S : Type 0} (zht : Zht S) where
  open zht use {lookup, compare_swap, swap_hit, swap_miss}

  -- After a failure: the query value, or a lookup where it is empty. The number counts the lookups.
  unfoldable pub reread : Str → Swapped S → Str × ℕ
  reread k r = if is_empty r.query_value then (lookup k r.after, 1) else (r.query_value, 0)

  -- How often the loop read the value again by `lookup`, and how often it failed.
  pub record Spent : Type 0 where
    pub lookups : ℕ
    pub failures : ℕ

  abbrev pub spend : Spent → ℕ → Spent
  spend spent more = record { lookups = spent.lookups + more; failures = spent.failures + 1 }

  abbrev pub unspent : Spent
  unspent = record { lookups = 0; failures = 0 }

  -- `next` computes the new text from the one seen; `none` of it is an `exit`. `none` of the loop:
  -- an `exit`, or no attempt is left.
  unfoldable pub swap_loop :
      (Str → Option Str) → Str → List (S → S) → Str → Str → Spent → S → Option (Spent × S)
  swap_loop next k [] seen attempt spent s = none
  swap_loop next k (other ∷ others) seen attempt spent s =
      let r = compare_swap k seen attempt (other s) in
      let (seen', more) = reread k r in
      elim r.done [
        | true ↦ some (spent, r.after)
        | false ↦ elim (next seen') [
          | none ↦ none
          | some attempt' ↦ swap_loop next k others seen' attempt' (spend spent more) r.after
        ]
      ]

  -- `lookup`, `next`, then the loop, as the callers do.
  unfoldable pub swap : (Str → Option Str) → Str → List (S → S) → S → Option (Spent × S)
  unfolding swap_loop
  swap next k others s = elim (next (lookup k s)) [
    | none ↦ none
    | some attempt ↦ swap_loop next k others (lookup k s) attempt unspent s
  ]

  -- The run ended with one step that replaced the value of `k` as it was at that moment, and changed
  -- the value of no other key: `before` is the store that the step met.
  pub record IsAtomic (Good : S → Type 0) (next : Str → Option Str) (k : Str) (s' : S)
      : Type 0 where
    pub before : S
    pub met : Good before
    pub new : Str
    pub from_current : next (lookup k before) ≡ some new
    pub stored : (q : Str) → IsKey q → lookup q s' ≡ (if str_eq q k then new else lookup q before)

  -- `Good` is what the other processes keep, and from what the next value can be stored.
  module _ (Good : S → Type 0) (next : Str → Option Str) (k : Str) (key_ok : IsKey k)
      (next_ok : (s : S) (new : Str)
        → Good s
        → next (lookup k s) ≡ some new
        → (lookup k s ≢ []) × IsStorable new) where
    pub hit :
        (s₀ s : S) (attempt : Str)
        → Good s₀
        → Good s
        → next (lookup k s₀) ≡ some attempt
        → lookup k s ≡ lookup k s₀
        → ((compare_swap k (lookup k s₀) attempt s).done ≡ true)
          × IsAtomic Good next k (compare_swap k (lookup k s₀) attempt s).after
    hit s₀ s attempt g₀ g e h =
        let (seen_ok, new_ok) = next_ok s₀ attempt g₀ e in
        let (done, stored) = swap_hit k (lookup k s₀) attempt s key_ok new_ok seen_ok h in
        (
          done,
          record {
            before = s;
            met = g;
            new = attempt;
            from_current = ap next h ∙ e;
            stored = stored;
          },
        )

    -- After a failure the value that is there is seen, and the store is as it was.
    pub miss :
        (s₀ s : S) (attempt : Str)
        → Good s₀
        → next (lookup k s₀) ≡ some attempt
        → lookup k s ≢ lookup k s₀
        → ((compare_swap k (lookup k s₀) attempt s).done ≡ false)
          × ((reread k (compare_swap k (lookup k s₀) attempt s)).0 ≡ lookup k s)
          × ((compare_swap k (lookup k s₀) attempt s).after ≡ s)
    unfolding reread
    miss s₀ s attempt g₀ e h =
        let (seen_ok, new_ok) = next_ok s₀ attempt g₀ e in
        let (done, query, after) =
          swap_miss k (lookup k s₀) attempt s s₀ key_ok new_ok seen_ok refl h in
        (done, go (compare_swap k (lookup k s₀) attempt s).query_value query after, after)
      where
        r : Swapped S
        r = compare_swap k (lookup k s₀) attempt s

        go :
            (q : Str)
            → q ≡ lookup k s
            → r.after ≡ s
            → (reread k (record r { query_value = q })).0 ≡ lookup k s
        go [] e a = ap (lookup k) a
        go (c ∷ q) e a = e

    swap_loop-IsAtomic :
        (others : List (S → S)) (attempt : Str) (spent spent' : Spent) (s s' : S)
        → All (λ f. (s : S) → Good s → Good (f s)) others
        → Good s
        → next (lookup k s) ≡ some attempt
        → swap_loop next k others (lookup k s) attempt spent s ≡ some (spent', s')
        → IsAtomic Good next k s'
    unfolding swap_loop
    swap_loop-IsAtomic [] attempt spent spent' s s' keep g e h = absurd (cc)
    swap_loop-IsAtomic (other ∷ others) attempt spent spent' s s' keep g e h =
        elim (Bool-cases (str_eq (lookup k (other s)) (lookup k s))) [
          | inl same ↦
              let (done, atomic) =
                hit s (other s) attempt g (keep.0 s g) e
                  ((str_eq_iff (lookup k (other s)) (lookup k s)).0 same) in
              subst (IsAtomic Good next k) (ground arith) atomic
          | inr differs ↦
              let (done, again, after) =
                miss s (other s) attempt g e
                  (ne_of_str_eq (lookup k (other s)) (lookup k s) differs) in
              let r : Swapped S = compare_swap k (lookup k s) attempt (other s) in
              elim (Option-cases (next (lookup k (other s)))) [
                | inl stop ↦ absurd (ground arith)
                | inr (attempt', go) ↦
                    swap_loop-IsAtomic others attempt' (spend spent (reread k r).1) spent' (other s)
                      s' keep.1 (keep.0 s g) go (ground arith)
              ]
        ]

    -- If `swap` returns, it has acted as one atomic step on the value that the key had at that
    -- moment, whatever the others did meanwhile. `Good` is kept by the others and holds at the
    -- start, the key is one that the package format carries, and from a good store the value seen
    -- is not empty and the next one can be stored.
    pub swap-IsAtomic :
        (others : List (S → S)) (spent : Spent) (s s' : S)
        → All (λ f. (s : S) → Good s → Good (f s)) others
        → Good s
        → swap next k others s ≡ some (spent, s')
        → IsAtomic Good next k s'
    unfolding swap
    swap-IsAtomic others spent s s' keep g h = elim (Option-cases (next (lookup k s))) [
      | inl stop ↦ absurd (ground arith)
      | inr (attempt, go) ↦
          swap_loop-IsAtomic others attempt unspent spent s s' keep g go (ground arith)
    ]

    module _ (good_next : (s : S) → Good s → (new : Str) × (next (lookup k s) ≡ some new))
        (last : S → S) (last_ok : (s : S) → Good s → Good (last s))
        (quiet : (s : S) → lookup k (last s) ≡ lookup k s) where
      swap_loop_total :
          (others : List (S → S)) (attempt : Str) (spent : Spent) (s : S)
          → All (λ f. (s : S) → Good s → Good (f s)) others
          → Good s
          → next (lookup k s) ≡ some attempt
          → (spent' : Spent) × (s' : S) × (swap_loop next k
                (others ++ last ∷ [])
                (lookup k s)
                attempt
                spent
                s
              ≡ some (spent', s'))
      unfolding swap_loop
      swap_loop_total [] attempt spent s keep g e =
          let (done, atomic) = hit s (last s) attempt g (last_ok s g) e (quiet s) in
          (spent, (compare_swap k (lookup k s) attempt (last s)).after, ground arith)
      swap_loop_total (other ∷ others) attempt spent s keep g e =
          elim (Bool-cases (str_eq (lookup k (other s)) (lookup k s))) [
            | inl same ↦
                let (done, atomic) =
                  hit s (other s) attempt g (keep.0 s g) e
                    ((str_eq_iff (lookup k (other s)) (lookup k s)).0 same) in
                (spent, (compare_swap k (lookup k s) attempt (other s)).after, ground arith)
            | inr differs ↦
                let (done, again, after) =
                  miss s (other s) attempt g e
                    (ne_of_str_eq (lookup k (other s)) (lookup k s) differs) in
                let (new, go) = good_next (other s) (keep.0 s g) in
                let (spent', s', run) =
                  swap_loop_total others new
                    (spend spent (reread k (compare_swap k (lookup k s) attempt (other s))).1)
                    (other s) keep.1 (keep.0 s g) go in
                (spent', s', ground arith)
          ]

      -- If the last attempt leaves the value of the key alone, `swap` returns, whatever the others
      -- do before it. `Good` is as for the atomic step, the last attempt keeps it too, and from a
      -- good store there is a next value.
      pub swap_total :
          (others : List (S → S)) (s : S)
          → All (λ f. (s : S) → Good s → Good (f s)) others
          → Good s
          → (spent : Spent) × (s' : S) × (swap next k (others ++ last ∷ []) s ≡ some (spent, s'))
      unfolding swap
      swap_total others s keep g =
          let (new, go) = good_next s g in
          let (spent', s', run) = swap_loop_total others new unspent s keep g go in
          (spent', s', ground arith)
