-- ===== src/Zht/Pack/Parsed.antt =====
-- Whatever text a package is read from, the package can be printed and read back
-- (ZHT/src/ZHTUtil.cpp).
use matrix_v.Prelude.{
  Bool-cases, inl, inr, List, [], ◌∷◌, arith, Str, codes, str_eq, ne_of_str_eq, All,
}
use matrix_v.Text.Number.{str_to_num-Fits}
use matrix_v.Text.Token.{IsField, tokenize-IsField}
use matrix_v.Text.Field.{read_number, OptionFits}
use matrix_v.Zht.Pack.{unset, zht_tokenize, read_text, zpack_of_fields, str_to_zpack}
use matrix_v.Zht.Pack.RoundTrip.{IsText, IsWirePack}

IsText-parsed : (missing s : Str) → IsField (codes "//") s → IsText missing (read_text missing s)
IsText-parsed missing s h = elim (Bool-cases (str_eq s missing)) [
  | inl e ↦ rw e tt
  | inr e ↦ rw e (h, ne_of_str_eq s missing e)
]

number_parsed : (missing s : Str) → OptionFits 32 (read_number 32 missing s)
number_parsed missing s = elim (Bool-cases (str_eq s missing)) [
  | inl e ↦ rw e tt
  | inr e ↦ rw e (str_to_num-Fits 32 s (omega arith))
]

unset-IsWirePack : IsWirePack unset
unset-IsWirePack = record {
  opcode_ok = tt;
  key_ok = tt;
  val_ok = tt;
  newval_ok = tt;
  lease_ok = tt;
  replicanum_ok = tt;
}

fields_parsed : (fs : List Str) → All (IsField (codes "//")) fs → IsWirePack (zpack_of_fields fs)
unfolding zpack_of_fields
fields_parsed (a ∷ b ∷ c ∷ d ∷ e ∷ f ∷ g ∷ i ∷ more) h = record {
  opcode_ok = IsText-parsed (codes "noopcode") a h.0;
  key_ok = IsText-parsed (codes "nokey") b h.1.0;
  val_ok = IsText-parsed (codes "noval") c h.1.1.0;
  newval_ok = IsText-parsed (codes "nonewval") d h.1.1.1.0;
  lease_ok = IsText-parsed (codes "nolease") e h.1.1.1.1.0;
  replicanum_ok = number_parsed (codes "noreplicanum") i;
}
fields_parsed _ h = unset-IsWirePack

pub str_to_zpack-IsWirePack : (s : Str) → IsWirePack (str_to_zpack s)
unfolding str_to_zpack zht_tokenize
str_to_zpack-IsWirePack [] = unset-IsWirePack
str_to_zpack-IsWirePack (c ∷ s) =
    fields_parsed (zht_tokenize (codes "//") (c ∷ s)) (tokenize-IsField (codes "//") (c ∷ s))
