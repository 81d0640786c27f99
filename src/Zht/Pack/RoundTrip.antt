-- ===== src/Zht/Pack/RoundTrip.antt =====
-- A package is read back as it was printed (ZHT/src/ZHTUtil.cpp).
use matrix_v.Prelude.{
  ◌≡◌, ◌≢◌, refl, Bool, true, false, Option, none, some, List, [], ◌∷◌, arith, Str, codes,
  str_eq_ne, str_eq_refl, is_empty, All,
}
use matrix_v.Text.Number.{str_to_num}
use matrix_v.Text.Token.{join, IsField, tokenize-join, is_off, IsField-word}
use matrix_v.Text.Field.{OptionFits, read_number-number_field, number_field-IsField, join_ne}
use matrix_v.Zht.Pack.{
  ZPack, zht_tokenize, text_field, read_text, flag_field, read_bool, read_flag, zpack_fields,
  zpack_to_str, zpack_of_fields, str_to_zpack,
}

-- A text that a field can carry: not empty, no separator, and not the word for none.
abbrev pub IsText : Str → Option Str → Type 0
IsText missing none = Unit
IsText missing (some s) = IsField (codes "//") s × (s ≢ missing)

-- What a package must meet to be read back.
pub record IsWirePack (p : ZPack) : Type 0 where
  pub opcode_ok : IsText (codes "noopcode") p.opcode
  pub key_ok : IsText (codes "nokey") p.key
  pub val_ok : IsText (codes "noval") p.val
  pub newval_ok : IsText (codes "nonewval") p.newval
  pub lease_ok : IsText (codes "nolease") p.lease
  pub replicanum_ok : OptionFits 32 p.replicanum

text_ok :
    (missing : Str) (o : Option Str)
    → IsText missing o
    → IsField (codes "//") missing
    → IsField (codes "//") (text_field o missing)
text_ok missing none h m = m
text_ok missing (some s) h m = h.0

text_read :
    (missing : Str) (o : Option Str)
    → IsText missing o
    → read_text missing (text_field o missing) ≡ o
text_read missing none h = rw (str_eq_refl missing)
text_read missing (some s) h = rw (str_eq_ne s missing h.1)

flag_ok :
    (missing : Str) (o : Option Bool)
    → IsField (codes "//") missing
    → IsField (codes "//") (flag_field o missing)
unfolding is_off
flag_ok missing none m = m
flag_ok missing (some true) m = IsField-word (codes "//") b'1' [] refl
flag_ok missing (some false) m = IsField-word (codes "//") b'0' [] refl

flag_read :
    (missing : Str) (o : Option Bool)
    → codes "1" ≢ missing
    → codes "0" ≢ missing
    → read_flag missing (flag_field o missing) ≡ o
unfolding read_bool str_to_num
flag_read missing none n1 n0 = rw (str_eq_refl missing)
flag_read missing (some true) n1 n0 = rw (str_eq_ne (codes "1") missing n1) (refl)
flag_read missing (some false) n1 n0 = rw (str_eq_ne (codes "0") missing n0) (refl)

fields_ok : (p : ZPack) → IsWirePack p → All (IsField (codes "//")) (zpack_fields p)
unfolding zpack_fields is_off
fields_ok p w = (
  text_ok (codes "noopcode") p.opcode w.opcode_ok
      (IsField-word (codes "//") b'n' (codes "oopcode") refl),
  (
    text_ok (codes "nokey") p.key w.key_ok (IsField-word (codes "//") b'n' (codes "okey") refl),
    (
      text_ok (codes "noval") p.val w.val_ok (IsField-word (codes "//") b'n' (codes "oval") refl),
      (
        text_ok (codes "nonewval") p.newval w.newval_ok
            (IsField-word (codes "//") b'n' (codes "onewval") refl),
        (
          text_ok (codes "nolease") p.lease w.lease_ok
              (IsField-word (codes "//") b'n' (codes "olease") refl),
          (
            flag_ok (codes "novaln") p.valnull
                (IsField-word (codes "//") b'n' (codes "ovaln") refl),
            (
              flag_ok (codes "nonewvaln") p.newvalnull
                  (IsField-word (codes "//") b'n' (codes "onewvaln") refl),
              (
                number_field-IsField (codes "//") p.replicanum (codes "noreplicanum")
                    (λ c n. ground arith)
                    (IsField-word (codes "//") b'n' (codes "oreplicanum") refl),
                tt,
              ),
            ),
          ),
        ),
      ),
    ),
  ),
)

fields_read : (p : ZPack) → IsWirePack p → zpack_of_fields (zpack_fields p) ≡ p
unfolding zpack_of_fields zpack_fields
fields_read p w =
    rw
      (
        text_read (codes "noopcode") p.opcode w.opcode_ok,
        text_read (codes "nokey") p.key w.key_ok,
        text_read (codes "noval") p.val w.val_ok,
        text_read (codes "nonewval") p.newval w.newval_ok,
        text_read (codes "nolease") p.lease w.lease_ok,
        flag_read (codes "novaln") p.valnull (cc) (cc),
        flag_read (codes "nonewvaln") p.newvalnull (cc) (cc),
        read_number-number_field 32 b'n' (codes "oreplicanum") p.replicanum (omega arith)
            w.replicanum_ok,
      )
      (refl)

nonempty : (s : Str) → s ≢ [] → is_empty s ≡ false
nonempty [] n = absurd (n refl)
nonempty (c ∷ s) n = refl

joined_ne : (fs : List Str) → fs ≢ [] → join b'/' fs ≢ []
joined_ne [] n = absurd (n refl)
joined_ne (f ∷ fs) n = join_ne b'/' f fs

zpack_fields_ne : (p : ZPack) → zpack_fields p ≢ []
unfolding zpack_fields
zpack_fields_ne p = cc

-- A package is read back as it was printed, unset fields included, if no text is empty, holds the
-- separator or is the word for an unset field, and the number is one of 32 bits.
pub str_to_zpack-zpack_to_str : (p : ZPack) → IsWirePack p → str_to_zpack (zpack_to_str p) ≡ p
unfolding str_to_zpack zpack_to_str zht_tokenize is_off
str_to_zpack-zpack_to_str p w =
    rw
      (
        nonempty (join b'/' (zpack_fields p)) (joined_ne (zpack_fields p) (zpack_fields_ne p)),
        tokenize-join (codes "//") b'/' (zpack_fields p) refl (fields_ok p w),
      )
      (fields_read p w)
