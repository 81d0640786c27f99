-- ===== src/Zht/Blob/Header.antt =====
-- A blob is read back as it was printed (ZHT/src/bigdata_transfer.cpp).
use matrix_v.Prelude.{
  ℕ, suc, ◌^◌, ◌<◌, ◌≡◌, refl, ap, sym, ◌∙◌, some, [], ◌∷◌, ◌++◌, List, arith, ltb, Str, length,
  length-append, take, drop, drop-drop, false,
}
use matrix_v.Zht.Blob.{Blob, digits, to_unsigned, header_len, to_string, of_string}
use matrix_v.Zht.Blob.Number.{length-digits, to_unsigned-digits, format_lem}

-- The numbers that the header has room for.
pub record IsWireBlob (b : Blob) : Type 0 where
  pub uuid_ok : b.uuid < 2 ^ 64
  pub seq_num_ok : b.seq_num < 10 ^ 7
  pub total_ok : b.total < 10 ^ 7
  pub size_ok : b.size < 10 ^ 4

take-front {ℓ} : {A : Type ℓ} (a b : List A) → take (length a) (a ++ b) ≡ a
take-front [] b = refl
take-front (x ∷ a) b = ap (λ y. x ∷ y) (take-front a b)

drop-front {ℓ} : {A : Type ℓ} (a b : List A) → drop (length a) (a ++ b) ≡ b
drop-front [] b = refl
drop-front (x ∷ a) b = drop-front a b

take-digits : (w n : ℕ) (s : Str) → take w (digits w n ++ s) ≡ digits w n
take-digits w n s =
    ap (λ i. take i (digits w n ++ s)) (sym (length-digits w n)) ∙ take-front (digits w n) s

drop-digits : (w n : ℕ) (s : Str) → drop w (digits w n ++ s) ≡ s
drop-digits w n s =
    ap (λ i. drop i (digits w n ++ s)) (sym (length-digits w n)) ∙ drop-front (digits w n) s

module _ (b : Blob) (w : IsWireBlob b) where
  after_total : Str
  after_total = digits 4 b.size ++ b.value

  after_seq_num : Str
  after_seq_num = digits 7 b.total ++ after_total

  after_uuid : Str
  after_uuid = digits 7 b.seq_num ++ after_seq_num

  text : Str
  text = digits 20 b.uuid ++ after_uuid

  to_string_lem : to_string b ≡ text
  unfolding to_string text after_uuid after_seq_num after_total
  to_string_lem =
      rw
        (
          format_lem 20 b.uuid (omega (arith, w.uuid_ok)),
          format_lem 7 b.seq_num w.seq_num_ok,
          format_lem 7 b.total w.total_ok,
          format_lem 4 b.size w.size_ok,
        )
        (refl)

  behind_uuid : drop 20 text ≡ after_uuid
  unfolding text
  behind_uuid = drop-digits 20 b.uuid after_uuid

  behind_seq_num : drop 27 text ≡ after_seq_num
  unfolding after_uuid
  behind_seq_num =
      drop-drop 20 7 text
      ∙ ap (λ (x : Str). drop 7 x) behind_uuid
      ∙ drop-digits 7 b.seq_num after_seq_num

  behind_total : drop 34 text ≡ after_total
  unfolding after_seq_num
  behind_total =
      drop-drop 27 7 text
      ∙ ap (λ (x : Str). drop 7 x) behind_seq_num
      ∙ drop-digits 7 b.total after_total

  behind_size : drop 38 text ≡ b.value
  unfolding after_total
  behind_size =
      drop-drop 34 4 text ∙ ap (λ (x : Str). drop 4 x) behind_total ∙ drop-digits 4 b.size b.value

  text-long : ltb (length text) header_len ≡ false
  unfolding text after_uuid after_seq_num after_total
  text-long = ground (
    arith,
    length-append (digits 20 b.uuid) after_uuid,
    length-append (digits 7 b.seq_num) after_seq_num,
    length-append (digits 7 b.total) after_total,
    length-append (digits 4 b.size) b.value,
    length-digits 20 b.uuid,
    length-digits 7 b.seq_num,
    length-digits 7 b.total,
    length-digits 4 b.size,
  )

  field :
      (k n : ℕ) (s rest : Str)
      → s ≡ digits (suc k) n ++ rest
      → n < 10 ^ suc k
      → n < 2 ^ 64
      → to_unsigned (take (suc k) s) ≡ n
  field k n s rest e h l =
      ap (λ x. to_unsigned (take (suc k) x)) e
      ∙ ap to_unsigned (take-digits (suc k) n rest)
      ∙ to_unsigned-digits k n h l

  of_text : of_string text ≡ some b
  unfolding of_string
  of_text =
      rw
        (
          text-long,
          field 19 b.uuid text after_uuid (unfold text in refl) (omega (arith, w.uuid_ok))
              w.uuid_ok,
          field 6 b.seq_num (drop 20 text) after_seq_num (behind_uuid ∙ unfold after_uuid in refl)
              w.seq_num_ok (omega (arith, w.seq_num_ok)),
          field 6 b.total (drop 27 text) after_total (behind_seq_num ∙ unfold after_seq_num in refl)
              w.total_ok (omega (arith, w.total_ok)),
          field 3 b.size (drop 34 text) b.value (behind_total ∙ unfold after_total in refl)
              w.size_ok (omega (arith, w.size_ok)),
          behind_size,
        )
        (refl)

  -- A blob whose numbers have room in the header is read back as it was printed.
  pub of_string-to_string : of_string (to_string b) ≡ some b
  of_string-to_string = ap of_string to_string_lem ∙ of_text
