-- ===== src/Zht/Peer.antt =====
-- What schedulers and clients share: `get_self_idx` and the waits of `Peer` of matrix/src/util.cpp.
-- What other processes do to the store between two looks is a list.
use matrix_v.Prelude.{
  equal_ℤ, ℕ, suc, ◌+◌, ◌≡◌, ◌≢◌, refl, sym, ap, ◌∙◌, subst, Bool-cases, ◌⊎◌, inl, inr, Option,
  none, some, List, [], ◌∷◌, arith, if◌then◌else◌, Str, str_eq, str_eq_iff, ne_of_str_eq, codes,
  All, length, get_elem?, take, ℤ, pos,
}
use matrix_v.Text.Number.{str_to_num}
use matrix_v.Zht.Interface.{Zht}

-- The loop from index `i` on; `none` stands for -1.
self_idx_loop : ℕ → Str → List Str → Option ℕ
self_idx_loop i str [] = none
self_idx_loop i str (s ∷ str_vec) =
    let rest = self_idx_loop (suc i) str str_vec in if str_eq str s then some i else rest

pub get_self_idx : Str → List Str → Option ℕ
unfolding self_idx_loop
get_self_idx str str_vec = self_idx_loop 0 str str_vec

module _ {S : Type 0} (zht : Zht S) where
  open zht use {lookup}

  -- `while (str_to_num(value) != target)`, with numbers of `bits` bits; `none`: no look is left.
  wait_number : ℕ → Str → ℤ → List (S → S) → S → Option S
  wait_number bits key target [] store = none
  wait_number bits key target (other ∷ others) store =
      let store' : S = other store in
      let rest = wait_number bits key target others store' in
      if equal_ℤ (str_to_num bits (lookup key store')) target then some store' else rest

  unfoldable wait_all_scheduler : List Str → List (S → S) → S → Option S
  unfolding wait_number
  wait_all_scheduler scheduler_vec others store =
      wait_number 32 (codes "number of scheduler registered") (pos (length scheduler_vec)) others
        store

  unfoldable wait_all_task_recv : ℤ → List (S → S) → S → Option S
  unfolding wait_number
  wait_all_task_recv num_all_task others store =
      wait_number 64 (codes "num tasks recv") num_all_task others store

-- What the index says: `str` stands there and nowhere before, or it does not stand in the list.
abbrev IsFirst : Str → List Str → Option ℕ → Type 0
IsFirst str str_vec none = All (λ s. str ≢ s) str_vec
IsFirst str str_vec (some i) =
    (get_elem? str_vec i ≡ some str) × All (λ s. str ≢ s) (take i str_vec)

shifted :
    (i : ℕ) (str : Str) (str_vec : List Str)
    → ((self_idx_loop i str str_vec ≡ none) × All (λ s. str ≢ s) str_vec)
      ⊎ ((j : ℕ) × (self_idx_loop i str str_vec ≡ some (i + j)) × IsFirst str str_vec (some j))
unfolding self_idx_loop
shifted i str [] = inl (refl, tt)
shifted i str (s ∷ str_vec) = elim (Bool-cases (str_eq str s)) [
  | inl here ↦ inr (0, ground arith, (ap some (sym ((str_eq_iff str s).0 here)), tt))
  | inr other ↦ elim (shifted (suc i) str str_vec) [
    | inl (nothing, apart) ↦ inl (ground arith, (ne_of_str_eq str s other, apart))
    | inr (j, found, (at, apart)) ↦
        inr (
          suc j,
          rw (other, found) (ap some (omega arith)),
          (at, (ne_of_str_eq str s other, apart)),
        )
  ]
]

-- The index of a peer is the first place of its id in the membership list, and it is -1 where the
-- id is not in the list.
pub get_self_idx-IsFirst :
    (str : Str) (str_vec : List Str) → IsFirst str str_vec (get_self_idx str str_vec)
unfolding get_self_idx
get_self_idx-IsFirst str str_vec = elim (shifted 0 str str_vec) [
  | inl (nothing, apart) ↦ subst (IsFirst str str_vec) (sym nothing) apart
  | inr (j, found, first) ↦ subst (IsFirst str str_vec) (sym (found ∙ ap some (omega arith))) first
]
