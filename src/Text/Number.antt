-- ===== src/Text/Number.antt =====
-- `num_to_str` and `str_to_num` of matrix/src/util.h: decimal print and parse through a
-- `stringstream`. A C++ number is an integer; `bits` is the width of the type that is read.
use matrix_v.Prelude.{
  ℕ, zero, suc, ◌+◌, ◌-◌, ◌*◌, ◌/◌, ◌%◌, ◌^◌, ◌≤◌, ◌<◌, ◌≡◌, refl, Bool, ◌&&◌, ◌||◌, [], ◌∷◌, arith,
  ltb, leb, ◌==◌, if◌then◌else◌, Str, codes, All, All-mono, ℤ, pos, negsuc, ◌≢◌,
}

-- One digit for each round; at most `fuel` of them.
unfoldable pub emit : ℕ → ℕ → Str → Str
emit zero n out = out
emit (suc fuel) n out =
    let rest = emit fuel (n / 10) ((48 + n % 10) ∷ out) in if n == 0 then out else rest

unfoldable pub decimal : ℕ → Str
unfolding emit
decimal n = if n == 0 then 48 ∷ [] else emit (suc n) n []

-- `ss << num`
unfoldable pub num_to_str : ℤ → Str
unfolding decimal
num_to_str (pos n) = decimal n
num_to_str (negsuc n) = b'-' ∷ decimal (suc n)

abbrev is_digit : ℕ → Bool
is_digit c = leb 48 c && leb c 57

-- The digits up to the first byte that is none.
scan : Str → ℕ → ℕ
scan [] acc = acc
scan (c ∷ s) acc = let rest = scan s (acc * 10 + (c - 48)) in if is_digit c then rest else acc

abbrev is_space : ℕ → Bool
is_space c = c == 32 || (leb 9 c && leb c 13)

-- A number outside the type's range, and a text with no number, read as 0.
abbrev in_range_pos : ℕ → ℕ → ℤ
in_range_pos bits n = if ltb n (2 ^ (bits - 1)) then pos n else pos 0

abbrev negate : ℕ → ℤ
negate zero = pos 0
negate (suc n) = negsuc n

abbrev in_range_neg : ℕ → ℕ → ℤ
in_range_neg bits n = if leb n (2 ^ (bits - 1)) then negate n else pos 0

unsigned_part : ℕ → Str → ℤ
unfolding scan
unsigned_part bits s = in_range_pos bits (scan s 0)

negative_part : ℕ → Str → ℤ
unfolding scan
negative_part bits s = in_range_neg bits (scan s 0)

skip_spaces : Str → Str
skip_spaces [] = []
skip_spaces (c ∷ s) = let rest = skip_spaces s in if is_space c then rest else c ∷ s

signed_part : ℕ → Str → ℤ
unfolding unsigned_part negative_part
signed_part bits [] = pos 0
signed_part bits (c ∷ s) =
    if c == b'-'
    then negative_part bits s
    else if c == b'+'
    then unsigned_part bits s
    else unsigned_part bits (c ∷ s)

-- `ss >> num ? num : 0`
unfoldable pub str_to_num : ℕ → Str → ℤ
unfolding signed_part skip_spaces
str_to_num bits s = signed_part bits (skip_spaces s)

-- Printed text holds digits only, and at least one.
abbrev IsDigit : ℕ → Type 0
IsDigit c = (48 ≤ c) × (c ≤ 57)

emit-IsDigit : (fuel n : ℕ) (out : Str) → All IsDigit out → All IsDigit (emit fuel n out)
unfolding emit
emit-IsDigit zero n out h = h
emit-IsDigit (suc fuel) n out h =
    ground (arith, emit-IsDigit fuel (n / 10) ((48 + n % 10) ∷ out) ((omega arith, omega arith), h))

decimal-IsDigit : (n : ℕ) → All IsDigit (decimal n)
unfolding decimal
decimal-IsDigit n = ground (arith, emit-IsDigit (suc n) n [])

emit_ne : (fuel n : ℕ) (out : Str) → out ≢ [] → emit fuel n out ≢ []
unfolding emit
emit_ne zero n out h = h
emit_ne (suc fuel) n out h = ground (arith, emit_ne fuel (n / 10) ((48 + n % 10) ∷ out))

decimal_ne : (n : ℕ) → decimal n ≢ []
unfolding decimal emit
decimal_ne n = ground (arith, emit_ne n (n / 10) ((48 + n % 10) ∷ []))

-- Every digit is read back into the value that it was taken from.
scan-emit : (fuel n : ℕ) (out : Str) → n < fuel → scan (emit fuel n out) 0 ≡ scan out n
unfolding emit scan
scan-emit zero n out h = absurd (omega arith)
scan-emit (suc fuel) n out h = ground (arith, scan-emit fuel (n / 10) ((48 + n % 10) ∷ out))

scan-decimal : (n : ℕ) → scan (decimal n) 0 ≡ n
unfolding decimal scan
scan-decimal n = ground (arith, scan-emit (suc n) n [])

-- A text that begins with a digit is read by `scan` alone.
str_to_num_digits :
    (bits : ℕ) (s : Str) → All IsDigit s → s ≢ [] → str_to_num bits s ≡ unsigned_part bits s
unfolding str_to_num
str_to_num_digits bits [] h n = absurd (n refl)
str_to_num_digits bits (c ∷ s) h n = ground arith

-- The numbers of a signed type of `bits` bits.
abbrev pub Fits : ℕ → ℤ → Type 0
Fits bits (pos n) = n < 2 ^ (bits - 1)
Fits bits (negsuc n) = n < 2 ^ (bits - 1)

pos-Fits : (bits n : ℕ) → 0 < 2 ^ (bits - 1) → Fits bits (in_range_pos bits n)
pos-Fits bits n h = ground arith

neg-Fits : (bits n : ℕ) → 0 < 2 ^ (bits - 1) → Fits bits (in_range_neg bits n)
neg-Fits bits zero h = ground arith
neg-Fits bits (suc n) h = ground arith

signed-Fits : (bits : ℕ) (s : Str) → 0 < 2 ^ (bits - 1) → Fits bits (signed_part bits s)
unfolding signed_part unsigned_part negative_part
signed-Fits bits [] h = h
signed-Fits bits (c ∷ s) h = ground (
  arith,
  pos-Fits bits (scan s 0) h,
  neg-Fits bits (scan s 0) h,
  pos-Fits bits (scan (c ∷ s) 0) h,
)

-- Whatever is read is in the range of the type.
pub str_to_num-Fits : (bits : ℕ) (s : Str) → 0 < 2 ^ (bits - 1) → Fits bits (str_to_num bits s)
unfolding str_to_num
str_to_num-Fits bits s h = signed-Fits bits (skip_spaces s) h

-- A number that a signed type of `bits` bits holds, its lowest one excepted, is read back as it
-- was printed.
pub str_to_num-num_to_str : (bits : ℕ) (z : ℤ) → Fits bits z → str_to_num bits (num_to_str z) ≡ z
unfolding num_to_str str_to_num unsigned_part negative_part
str_to_num-num_to_str bits (pos n) h =
    rw (str_to_num_digits bits (decimal n) (decimal-IsDigit n) (decimal_ne n), unsigned_part)
      (rw (scan-decimal n) (ground arith))
str_to_num-num_to_str bits (negsuc n) h = rw (scan-decimal (suc n)) (ground arith)

-- A printed number above the range of a signed type of `bits` bits is read as 0.
pub str_to_num_overflow :
    (bits n : ℕ) → 2 ^ (bits - 1) ≤ n → str_to_num bits (num_to_str (pos n)) ≡ pos 0
unfolding num_to_str unsigned_part
str_to_num_overflow bits n h =
    rw (str_to_num_digits bits (decimal n) (decimal-IsDigit n) (decimal_ne n), unsigned_part)
      (rw (scan-decimal n) (ground arith))

-- Printed text is no separator, no letter and not empty.
abbrev pub IsNumeric : ℕ → Type 0
IsNumeric c = (45 ≤ c) × (c ≤ 57) × (c ≢ 47)

IsNumeric-decimal : (n : ℕ) → All IsNumeric (decimal n)
IsNumeric-decimal n =
    All-mono IsDigit IsNumeric (λ c h. (omega arith, omega arith, omega arith)) (decimal n)
      (decimal-IsDigit n)

pub num_to_str-IsNumeric : (z : ℤ) → All IsNumeric (num_to_str z)
unfolding num_to_str
num_to_str-IsNumeric (pos n) = IsNumeric-decimal n
num_to_str-IsNumeric (negsuc n) =
    ((omega arith, omega arith, omega arith), IsNumeric-decimal (suc n))

pub num_to_str_ne : (z : ℤ) → num_to_str z ≢ []
unfolding num_to_str
num_to_str_ne (pos n) = decimal_ne n
num_to_str_ne (negsuc n) = cc

-- The conversion of a `long` to an `int`: the low 32 bits, as a signed number.
unfoldable pub to_int : ℤ → ℤ
to_int (pos n) =
    let low = n % 2 ^ 32 in if ltb low (2 ^ 31) then pos low else negsuc (2 ^ 32 - 1 - low)
to_int (negsuc n) =
    let low = n % 2 ^ 32 in if ltb low (2 ^ 31) then negsuc low else pos (2 ^ 32 - 1 - low)

pub to_int_lem : (z : ℤ) → Fits 32 z → to_int z ≡ z
unfolding to_int
to_int_lem (pos n) h = ground arith
to_int_lem (negsuc n) h = ground arith

printed : num_to_str (negsuc 106) ≡ codes "-107"
unfolding num_to_str
printed = refl

parsed : str_to_num 32 (codes " -42x") ≡ negsuc 41
unfolding str_to_num
parsed = refl
