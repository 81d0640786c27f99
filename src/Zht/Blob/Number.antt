-- ===== src/Zht/Blob/Number.antt =====
-- Numbers of a fixed width (ZHT/src/bigdata_transfer.cpp).
use matrix_v.Prelude.{
  ℕ, zero, suc, ◌+◌, ◌*◌, ◌/◌, ◌%◌, ◌^◌, ◌<◌, ◌≡◌, refl, ap, ◌∙◌, [], ◌∷◌, ◌++◌, arith, leb, Str,
  length, length-append, append_assoc, append-nil, Bool, true, false, ◌&&◌, sym,
}
use matrix_v.Zht.Blob.{digits, format, read_digits, to_unsigned}

pub length-digits : (w n : ℕ) → length (digits w n) ≡ w
unfolding digits
length-digits zero n = refl
length-digits (suc w) n =
    omega (arith, length-append (digits w (n / 10)) ((48 + n % 10) ∷ []), length-digits w (n / 10))

-- One digit more.
read_digit :
    (n k acc : ℕ) (s : Str)
    → k ≡ (acc + n / 10) * 10 + n % 10
    → read_digits ((48 + n % 10) ∷ s) (acc + n / 10) ≡ read_digits s k
unfolding read_digits
read_digit n k acc s h = ground arith

shifted : (n acc p : ℕ) → acc * (10 * p) + n ≡ (acc * p + n / 10) * 10 + n % 10
shifted n acc p = grind arith

read_digits-append :
    (w n acc : ℕ) (s : Str)
    → n < 10 ^ w
    → read_digits (digits w n ++ s) acc ≡ read_digits s (acc * 10 ^ w + n)
unfolding digits
read_digits-append zero n acc s h = ap (read_digits s) (omega (arith, h))
read_digits-append (suc w) n acc s h =
    ap (λ x. read_digits x acc) (append_assoc (digits w (n / 10)) ((48 + n % 10) ∷ []) s)
    ∙ read_digits-append w (n / 10) acc ((48 + n % 10) ∷ s) (grind arith)
    ∙ read_digit n (acc * 10 ^ suc w + n) (acc * 10 ^ w) s (grind (arith, shifted n acc (10 ^ w)))

abbrev starts : Str → Bool
starts [] = false
starts (c ∷ s) = leb 48 c && leb c 57

digits-starts : (w n : ℕ) (s : Str) → starts (digits (suc w) n ++ s) ≡ true
unfolding digits
digits-starts zero n s = ground arith
digits-starts (suc w) n s =
    ap starts (append_assoc (digits (suc w) (n / 10)) ((48 + n % 10) ∷ []) s)
    ∙ digits-starts w (n / 10) ((48 + n % 10) ∷ s)

to_unsigned-starts :
    (s : Str) → starts s ≡ true → read_digits s 0 < 2 ^ 64 → to_unsigned s ≡ read_digits s 0
unfolding to_unsigned
to_unsigned-starts [] h b = cc
to_unsigned-starts (c ∷ s) h b = ground arith

at_end : (n p : ℕ) → read_digits [] (0 * p + n) ≡ n
unfolding read_digits
at_end n p = omega arith

-- A number that has its place in the header is read as it was printed.
pub to_unsigned-digits :
    (w n : ℕ) → n < 10 ^ suc w → n < 2 ^ 64 → to_unsigned (digits (suc w) n) ≡ n
to_unsigned-digits w n h b =
    let read : read_digits (digits (suc w) n) 0 ≡ n =
      ap (λ x. read_digits x 0) (sym (append-nil (digits (suc w) n)))
      ∙ read_digits-append (suc w) n 0 [] h
      ∙ at_end n (10 ^ suc w) in
    let first : starts (digits (suc w) n) ≡ true =
      ap starts (sym (append-nil (digits (suc w) n))) ∙ digits-starts w n [] in
    to_unsigned-starts (digits (suc w) n) first (omega (arith, read)) ∙ read

pub format_lem : (w n : ℕ) → n < 10 ^ w → format w n ≡ digits w n
unfolding format
format_lem w n h = ground arith
