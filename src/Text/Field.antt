-- ===== src/Text/Field.antt =====
-- One field of a message: an optional number or a list of texts, with the word that stands for none
-- (matrix/src/util.cpp, the tests of `value_to_str`, `str_to_value`, `mm_to_str` and `str_to_mm`).
use matrix_v.Prelude.{
  ℕ, ◌^◌, ◌-◌, pos, ◌≤◌, ◌≡◌, ◌≢◌, true, false, Option, none, some, List, [], ◌∷◌, arith,
  if◌then◌else◌, Str, str_eq, str_eq_refl, str_eq_ne, All, All-mono, All-append, ℤ,
}
use matrix_v.Text.Number.{
  num_to_str, str_to_num, Fits, IsNumeric, num_to_str-IsNumeric, num_to_str_ne,
  str_to_num-num_to_str, str_to_num_overflow,
}
use matrix_v.Text.Token.{is_delimiter, tokenize, join, AllOff, IsField, tokenize-join}

abbrev pub number_field : Option ℤ → Str → Str
number_field none missing = missing
number_field (some z) missing = num_to_str z

abbrev pub read_number : ℕ → Str → Str → Option ℤ
read_number bits missing s = if str_eq s missing then none else some (str_to_num bits s)

-- Each entry has the separator `d d` behind it.
abbrev pub list_field : ℕ → List Str → Str → Str
list_field d [] missing = missing
list_field d (x ∷ xs) missing = join d (x ∷ xs)

abbrev pub read_list : Str → Str → Str → List Str
read_list delimiter missing s = if str_eq s missing then [] else tokenize delimiter s

abbrev pub OptionFits : ℕ → Option ℤ → Type 0
OptionFits bits none = Unit
OptionFits bits (some z) = Fits bits z

-- A word that begins with a letter is no printed number.
pub word_ne : (c : ℕ) (r s : Str) → 58 ≤ c → All IsNumeric s → s ≢ c ∷ r
word_ne c r [] h n = cc
word_ne c r (d ∷ s) h n = λ e. ground arith

pub read_number-number_field :
    (bits : ℕ) (c : ℕ) (r : Str) (o : Option ℤ)
    → 58 ≤ c
    → OptionFits bits o
    → read_number bits (c ∷ r) (number_field o (c ∷ r)) ≡ o
read_number-number_field bits c r none h f = rw (str_eq_refl (c ∷ r))
read_number-number_field bits c r (some z) h f =
    rw (str_eq_ne (num_to_str z) (c ∷ r) (word_ne c r (num_to_str z) h (num_to_str-IsNumeric z)))
      (rw (str_to_num-num_to_str bits z f))

pub read_number_overflow :
    (bits : ℕ) (c : ℕ) (r : Str) (n : ℕ)
    → 58 ≤ c
    → 2 ^ (bits - 1) ≤ n
    → read_number bits (c ∷ r) (number_field (some (pos n)) (c ∷ r)) ≡ some (pos 0)
read_number_overflow bits c r n h f =
    rw
      (str_eq_ne (num_to_str (pos n)) (c ∷ r)
        (word_ne c r (num_to_str (pos n)) h (num_to_str-IsNumeric (pos n))))
      (rw (str_to_num_overflow bits n f))

-- A printed number holds no separator that is no digit and no sign.
pub num_to_str-IsField :
    (delimiter : Str) (z : ℤ)
    → ((c : ℕ) → IsNumeric c → is_delimiter delimiter c ≡ false)
    → IsField delimiter (num_to_str z)
num_to_str-IsField delimiter z off = (
  All-mono IsNumeric (λ c. is_delimiter delimiter c ≡ false) off (num_to_str z)
      (num_to_str-IsNumeric z),
  num_to_str_ne z,
)

pub number_field-IsField :
    (delimiter : Str) (o : Option ℤ) (missing : Str)
    → ((c : ℕ) → IsNumeric c → is_delimiter delimiter c ≡ false)
    → IsField delimiter missing
    → IsField delimiter (number_field o missing)
number_field-IsField delimiter none missing off h = h
number_field-IsField delimiter (some z) missing off h = num_to_str-IsField delimiter z off

pub join-AllOff :
    (delimiter : Str) (d : ℕ) (xs : List Str)
    → is_delimiter delimiter d ≡ false
    → All (AllOff delimiter) xs
    → AllOff delimiter (join d xs)
unfolding join
join-AllOff delimiter d [] n h = tt
join-AllOff delimiter d (x ∷ xs) n h =
    All-append (λ c. is_delimiter delimiter c ≡ false) x (d ∷ d ∷ join d xs) h.0
      (n, (n, join-AllOff delimiter d xs n h.1))

pub join_ne : (d : ℕ) (x : Str) (xs : List Str) → join d (x ∷ xs) ≢ []
unfolding join
join_ne d [] xs = cc
join_ne d (c ∷ x) xs = cc

pub list_field-IsField :
    (delimiter : Str) (d : ℕ) (xs : List Str) (missing : Str)
    → is_delimiter delimiter d ≡ false
    → All (AllOff delimiter) xs
    → IsField delimiter missing
    → IsField delimiter (list_field d xs missing)
list_field-IsField delimiter d [] missing n h m = m
list_field-IsField delimiter d (x ∷ xs) missing n h m =
    (join-AllOff delimiter d (x ∷ xs) n h, join_ne d x xs)

-- A list that is printed holds the separator, and the word for none does not.
pub holds_not :
    (delimiter : Str) (d : ℕ) (x : Str) (xs : List Str) (missing : Str)
    → is_delimiter delimiter d ≡ true
    → AllOff delimiter missing
    → join d (x ∷ xs) ≢ missing
unfolding join
holds_not delimiter d [] xs [] sep off = cc
holds_not delimiter d [] xs (m ∷ ms) sep off = λ e. cc
holds_not delimiter d (c ∷ x) xs [] sep off = cc
holds_not delimiter d (c ∷ x) xs (m ∷ ms) sep off =
    λ e. holds_not delimiter d x xs ms sep off.1 (cc)

pub read_list-list_field :
    (delimiter : Str) (d : ℕ) (xs : List Str) (missing : Str)
    → is_delimiter delimiter d ≡ true
    → All (IsField delimiter) xs
    → AllOff delimiter missing
    → read_list delimiter missing (list_field d xs missing) ≡ xs
read_list-list_field delimiter d [] missing sep h off = rw (str_eq_refl missing)
read_list-list_field delimiter d (x ∷ xs) missing sep h off =
    rw (str_eq_ne (join d (x ∷ xs)) missing (holds_not delimiter d x xs missing sep off))
      (tokenize-join delimiter d (x ∷ xs) sep h)
