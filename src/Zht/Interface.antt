-- ===== src/Zht/Interface.antt =====
-- What the schedulers and the clients rely on of `ZHTClient::lookup`, `insert` and `compare_swap`
-- (ZHT/src/cpp_zhtclient.cpp, the handlers of ZHT/src/HTWorker.cpp behind them): one server that
-- answers one call at a time. `S` is the state of the store.
use matrix_v.Prelude.{
  ◌≡◌, ◌≢◌, refl, Bool, true, false, ◌&&◌, not, [], arith, if◌then◌else◌, Str, codes, str_eq,
  str_eq_refl, str_eq_ne, ne_of_str_eq, is_empty, ◌∷◌,
}
use matrix_v.Text.Token.{IsField, is_off, AllOff-word, is_off-AllOff}

-- A key that the package format carries.
abbrev pub IsKey : Str → Type 0
IsKey k = IsField (codes "//") k × (k ≢ codes "nokey")

-- A value that the package format carries.
abbrev pub IsStorable : Str → Type 0
IsStorable v = IsField (codes "//") v × (v ≢ codes "noval") × (v ≢ codes "nonewval")

-- A value that the package format carries as the value seen.
abbrev pub IsSeen : Str → Type 0
IsSeen v = IsField (codes "//") v × (v ≢ codes "noval")

-- The test for a field that is not one word.
pub carries : Str → Str → Bool
unfolding is_off
carries word s = is_off (codes "//") s && not (is_empty s) && not (str_eq s word)

pub carries_sound : (word s : Str) → carries word s ≡ true → IsField (codes "//") s × (s ≢ word)
unfolding carries
carries_sound word [] h = absurd (ground arith)
carries_sound word (c ∷ s) h = (
  (AllOff-word (codes "//") (c ∷ s) (ground arith), cc),
  ne_of_str_eq (c ∷ s) word (ground arith),
)

pub carries_complete : (word s : Str) → IsField (codes "//") s → s ≢ word → carries word s ≡ true
unfolding carries
carries_complete word [] h n = absurd (h.1 refl)
carries_complete word (c ∷ s) h n =
    rw (is_off-AllOff (codes "//") (c ∷ s) h.0, str_eq_ne (c ∷ s) word n) (refl)

pub record Swapped (S : Type 0) : Type 0 where
  pub done : Bool
  pub query_value : Str
  pub after : S

pub record Zht (S : Type 0) : Type 0 where
  -- The value of a key, or the empty text.
  pub lookup : Str → S → Str
  pub insert : Str → Str → S → S
  -- The arguments are the key, the value seen, and the new value.
  pub compare_swap : Str → Str → Str → S → Swapped S
  pub lookup-insert :
      (k q v : Str) (s : S)
      → IsKey k
      → IsKey q
      → IsStorable v
      → lookup q (insert k v s) ≡ (if str_eq q k then v else lookup q s)
  pub swap_hit :
      (k seen new : Str) (s : S)
      → IsKey k
      → IsStorable new
      → seen ≢ []
      → lookup k s ≡ seen
      → ((compare_swap k seen new s).done ≡ true)
        × ((q : Str)
            → IsKey q
            → lookup q (compare_swap k seen new s).after ≡ (if str_eq q k then new else lookup q s))
  -- The value was seen in some state of the store.
  pub swap_miss :
      (k seen new : Str) (s s₀ : S)
      → IsKey k
      → IsStorable new
      → seen ≢ []
      → lookup k s₀ ≡ seen
      → lookup k s ≢ seen
      → ((compare_swap k seen new s).done ≡ false)
        × ((compare_swap k seen new s).query_value ≡ lookup k s)
        × ((compare_swap k seen new s).after ≡ s)

-- A store in memory that meets the interface.
abbrev pub Memory : Type 0
Memory = Str → Str

abbrev write : Str → Str → Memory → Memory
write k v s q = if str_eq q k then v else s q

unfoldable pub memory_swap : Str → Str → Str → Memory → Swapped Memory
memory_swap k seen new s =
    if str_eq (s k) seen
    then record { done = true; query_value = new; after = write k new s }
    else record { done = false; query_value = s k; after = s }

pub memory_hit :
    (k seen new : Str) (s : Memory)
    → s k ≡ seen
    → ((memory_swap k seen new s).done ≡ true)
      × ((q : Str) → (memory_swap k seen new s).after q ≡ (if str_eq q k then new else s q))
unfolding memory_swap
memory_hit k seen new s e = rw (e, str_eq_refl seen) (refl, λ q. refl)

pub memory_miss :
    (k seen new : Str) (s : Memory)
    → s k ≢ seen
    → ((memory_swap k seen new s).done ≡ false)
      × ((memory_swap k seen new s).query_value ≡ s k)
      × ((memory_swap k seen new s).after ≡ s)
unfolding memory_swap
memory_miss k seen new s n = rw (str_eq_ne (s k) seen n) (refl, refl, refl)

unfoldable pub memory : Zht Memory
unfolding memory_swap
memory = record {
  lookup = λ k s. s k;
  insert = write;
  compare_swap = memory_swap;
  lookup-insert = λ k q v s h i w. refl;
  swap_hit = λ k seen new s h w n e.
      ((memory_hit k seen new s e).0, λ q i. (memory_hit k seen new s e).1 q);
  swap_miss = λ k seen new s s₀ h w n e m. memory_miss k seen new s m;
}
