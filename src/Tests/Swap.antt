-- ===== src/Tests/Swap.antt =====
-- The loops around `compare_swap` (Scheduler.Swap, Scheduler.Serve.Submission).
use matrix_v.Prelude.{
  ◌≡◌, ◌≢◌, refl, subst, some, Option, [], ◌∷◌, ◌++◌, Str, codes, if◌then◌else◌, str_eq,
  ne_of_str_eq,
}
use matrix_v.Text.Token.{is_off, IsField-word}
use matrix_v.Zht.Interface.{Memory, memory, memory_swap, IsKey, IsStorable}
use matrix_v.Scheduler.Swap.{Spent, swap, swap_loop, reread, IsAtomic, swap-IsAtomic, swap_total}

abbrev counter : Str
counter = codes "count"

-- The store, before and after another process has written.
abbrev seven : Memory
seven key = codes "7"

abbrev eight : Memory → Memory
eight s key = codes "8"

abbrev rest : Memory → Memory
rest s = s

abbrev nine : Str → Option Str
nine seen = some (codes "9")

abbrev IsFilled : Memory → Type 0
IsFilled s = s counter ≢ []

counter-IsKey : IsKey counter
unfolding is_off str_eq
counter-IsKey =
    (IsField-word (codes "//") b'c' (codes "ount") refl, ne_of_str_eq counter (codes "nokey") refl)

nine-IsStorable : IsStorable (codes "9")
unfolding is_off
nine-IsStorable = (IsField-word (codes "//") b'9' [] refl, (λ e. cc), (λ e. cc))

nine_ok :
    (s : Memory) (new : Str)
    → IsFilled s
    → nine (s counter) ≡ some new
    → (s counter ≢ []) × IsStorable new
nine_ok s new filled e =
    (filled, subst IsStorable (let q : codes "9" ≡ new = cc in q) nine-IsStorable)

-- The store at the end, and the one failure on the way.
abbrev swapped : Memory
swapped key = if str_eq key counter then codes "9" else codes "8"

abbrev failed_once : Spent memory
failed_once = record { lookups = 0; failures = 1 }

swap_run : swap memory nine counter (eight ∷ rest ∷ []) seven ≡ some (failed_once, swapped)
unfolding swap swap_loop reread memory memory_swap str_eq
swap_run = refl

swap-IsAtomic_example : IsAtomic memory IsFilled nine counter swapped
unfolding memory
swap-IsAtomic_example =
    swap-IsAtomic memory IsFilled nine counter counter-IsKey nine_ok (eight ∷ rest ∷ []) failed_once
      seven swapped ((λ s h e. cc), ((λ s h. h), tt)) (λ e. cc) swap_run

swap_total_example :
    (spent : Spent memory) × (s' : Memory) × (swap memory nine counter
        ((eight ∷ []) ++ rest ∷ [])
        seven
      ≡ some (spent, s'))
unfolding memory
swap_total_example =
    swap_total memory IsFilled nine counter counter-IsKey nine_ok (λ s h. (codes "9", refl)) rest
      (λ s h. h) (λ s. refl) (eight ∷ []) seven ((λ s h e. cc), tt) (λ e. cc)
