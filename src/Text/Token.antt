-- ===== src/Text/Token.antt =====
-- `tokenize` of matrix/src/util.cpp, and texts that are fields with a doubled separator behind each.
use matrix_v.Prelude.{
  ℕ, ◌≡◌, ◌≢◌, refl, sym, ap, ◌∙◌, Bool, true, false, ◌||◌, List, [], ◌∷◌, ◌++◌, append_assoc,
  append-nil, ◌==◌, if◌then◌else◌, Str, codes, All, All-append, is_empty, Bool-cases, inl, inr,
}

-- `find_first_of` stops at any byte of the delimiter.
unfoldable pub is_delimiter : Str → ℕ → Bool
is_delimiter [] c = false
is_delimiter (d ∷ ds) c = c == d || is_delimiter ds c

-- A token that is empty is not pushed.
abbrev push_token : Str → List Str → List Str
push_token cur rest = if is_empty cur then rest else cur ∷ rest

-- `cur` is the text from `prev` up to here.
token_loop : Str → Str → Str → List Str
token_loop delimiter cur [] = push_token cur []
token_loop delimiter cur (c ∷ s) =
    let ended = token_loop delimiter [] s in
    let longer = token_loop delimiter (cur ++ c ∷ []) s in
    if is_delimiter delimiter c then push_token cur ended else longer

unfoldable pub tokenize : Str → Str → List Str
unfolding token_loop is_delimiter
tokenize delimiter source = token_loop delimiter [] source

-- No byte of the text is in the delimiter.
abbrev pub AllOff : Str → Str → Type 0
AllOff delimiter s = All (λ c. is_delimiter delimiter c ≡ false) s

push_token_lem : (cur : Str) (rest : List Str) → cur ≢ [] → push_token cur rest ≡ cur ∷ rest
push_token_lem [] rest n = absurd (n refl)
push_token_lem (c ∷ cur) rest n = refl

token_loop-field :
    (delimiter cur s rest : Str) (d : ℕ)
    → is_delimiter delimiter d ≡ true
    → AllOff delimiter s
    → cur ++ s ≢ []
    → token_loop delimiter cur (s ++ d ∷ d ∷ rest) ≡ (cur ++ s) ∷ token_loop delimiter [] rest
unfolding token_loop
token_loop-field delimiter cur [] rest d sep off n =
    rw (sep, append-nil cur) (push_token_lem cur _ (rw append-nil at n))
token_loop-field delimiter cur (c ∷ s) rest d sep off n =
    rw (off.0, append_eq)
      (token_loop-field delimiter (cur ++ c ∷ []) s rest d sep off.1 (rw append_eq at n))
  where
    append_eq : cur ++ c ∷ s ≡ (cur ++ c ∷ []) ++ s
    append_eq = sym (append_assoc cur (c ∷ []) s)

-- Fields, each with the separator `d d` behind it.
unfoldable pub join : ℕ → List Str → Str
join d [] = []
join d (f ∷ fs) = f ++ d ∷ d ∷ join d fs

abbrev pub IsField : Str → Str → Type 0
IsField delimiter f = AllOff delimiter f × (f ≢ [])

-- Fields that are not empty and hold no byte of the delimiter, each with two such bytes behind it,
-- come back from `tokenize` as they are.
pub tokenize-join :
    (delimiter : Str) (d : ℕ) (fs : List Str)
    → is_delimiter delimiter d ≡ true
    → All (IsField delimiter) fs
    → tokenize delimiter (join d fs) ≡ fs
unfolding tokenize join
tokenize-join delimiter d [] sep h = refl
tokenize-join delimiter d (f ∷ fs) sep h =
    token_loop-field delimiter [] f (join d fs) d sep h.0.0 h.0.1
    ∙ ap (λ t. f ∷ t) (tokenize-join delimiter d fs sep h.1)

words : tokenize (codes " ") (codes " a  bc ") ≡ codes "a" ∷ codes "bc" ∷ []
unfolding tokenize
words = refl

-- A fixed word is checked by evaluation.
unfoldable pub is_off : Str → Str → Bool
unfolding is_delimiter
is_off delimiter [] = true
is_off delimiter (c ∷ s) = if is_delimiter delimiter c then false else is_off delimiter s

pub AllOff-word : (delimiter s : Str) → is_off delimiter s ≡ true → AllOff delimiter s
unfolding is_off
AllOff-word delimiter [] h = tt
AllOff-word delimiter (c ∷ s) h = elim (Bool-cases (is_delimiter delimiter c)) [
  | inl e ↦ absurd (cc (rw e at h))
  | inr e ↦ (e, AllOff-word delimiter s (rw e at h))
]

pub is_off-AllOff : (delimiter s : Str) → AllOff delimiter s → is_off delimiter s ≡ true
unfolding is_off
is_off-AllOff delimiter [] h = refl
is_off-AllOff delimiter (c ∷ s) h = rw h.0 (is_off-AllOff delimiter s h.1)

pub IsField-word :
    (delimiter : Str) (c : ℕ) (s : Str)
    → is_off delimiter (c ∷ s) ≡ true
    → IsField delimiter (c ∷ s)
IsField-word delimiter c s h = (AllOff-word delimiter (c ∷ s) h, cc)

push_token-IsField :
    (delimiter cur : Str) (rest : List Str)
    → AllOff delimiter cur
    → All (IsField delimiter) rest
    → All (IsField delimiter) (push_token cur rest)
push_token-IsField delimiter [] rest off h = h
push_token-IsField delimiter (c ∷ cur) rest off h = ((off, cc), h)

token_loop-IsField :
    (delimiter cur s : Str)
    → AllOff delimiter cur
    → All (IsField delimiter) (token_loop delimiter cur s)
unfolding token_loop
token_loop-IsField delimiter cur [] off = push_token-IsField delimiter cur [] off tt
token_loop-IsField delimiter cur (c ∷ s) off = elim (Bool-cases (is_delimiter delimiter c)) [
  | inl sep ↦ rw sep (
      push_token-IsField delimiter cur (token_loop delimiter [] s) off
        (token_loop-IsField delimiter [] s tt))
  | inr byte ↦ rw byte (
      token_loop-IsField delimiter (cur ++ c ∷ []) s
        (All-append (λ c. is_delimiter delimiter c ≡ false) cur (c ∷ []) off (byte, tt)))
]

-- A token is not empty and holds no byte of the delimiter.
pub tokenize-IsField : (delimiter s : Str) → All (IsField delimiter) (tokenize delimiter s)
unfolding tokenize
tokenize-IsField delimiter s = token_loop-IsField delimiter [] s tt
