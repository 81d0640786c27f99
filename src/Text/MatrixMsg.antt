-- ===== src/Text/MatrixMsg.antt =====
-- `mm_to_str` and `str_to_mm` of matrix/src/util.cpp: the messages between peers.
use matrix_v.Prelude.{
  ◌≡◌, ◌≢◌, refl, Option, none, some, List, [], ◌∷◌, arith, if◌then◌else◌, Str, codes, str_eq,
  str_eq_refl, str_eq_ne, All, ℤ,
}
use mathlib.Core.Option
use matrix_v.Text.Number.{to_int, to_int_lem}
use matrix_v.Text.Token.{
  tokenize, join, AllOff, IsField, tokenize-join, is_off, AllOff-word, IsField-word,
}
use matrix_v.Text.Field.{
  number_field, read_number, list_field, read_list, OptionFits, number_field-IsField,
  list_field-IsField, read_number-number_field, read_list-list_field,
}

pub record MatrixMsg : Type 0 where
  pub msgtype : Str
  pub extrainfo : Option Str
  pub count : Option ℤ
  pub tasks : List Str

abbrev pub text_field : Option Str → Str → Str
text_field none missing = missing
text_field (some t) missing = t

abbrev pub message_fields : MatrixMsg → List Str
message_fields mm =
    mm.msgtype
    ∷ text_field mm.extrainfo (codes "noextrainfo")
    ∷ number_field (Option.map to_int mm.count) (codes "nocount")
    ∷ list_field b'!' mm.tasks (codes "notask")
    ∷ []

unfoldable pub mm_to_str : MatrixMsg → Str
mm_to_str mm = join b'&' (message_fields mm)

read_text : Str → Str → Option Str
read_text missing s = if str_eq s missing then none else some s

-- `vec.at(i)` throws where a field is missing: `none`.
message_of_fields : List Str → Option MatrixMsg
unfolding read_text
message_of_fields (msgtype ∷ extrainfo ∷ count ∷ tasks ∷ rest) = some (record {
  msgtype = msgtype;
  extrainfo = read_text (codes "noextrainfo") extrainfo;
  count = read_number 32 (codes "nocount") count;
  tasks = read_list (codes "!!") (codes "notask") tasks;
})
message_of_fields _ = none

pub str_to_mm : Str → Option MatrixMsg
unfolding message_of_fields
str_to_mm s = message_of_fields (tokenize (codes "&&") s)

-- A text field that is there is not empty, holds no `&`, and is not the word for a missing one.
abbrev pub IsText : Str → Option Str → Type 0
IsText missing none = Unit
IsText missing (some t) = IsField (codes "&&") t × (t ≢ missing)

-- What a message must meet to cross the wire: no separator in its texts, and a count that an `int`
-- holds.
pub record IsWireMsg (mm : MatrixMsg) : Type 0 where
  pub msgtype_ok : IsField (codes "&&") mm.msgtype
  pub extrainfo_ok : IsText (codes "noextrainfo") mm.extrainfo
  pub count_ok : OptionFits 32 mm.count
  pub tasks_off : All (AllOff (codes "&&")) mm.tasks
  pub tasks_ok : All (IsField (codes "!!")) mm.tasks

text_field-IsField :
    (o : Option Str) (missing : Str)
    → IsField (codes "&&") missing
    → IsText missing o
    → IsField (codes "&&") (text_field o missing)
text_field-IsField none missing h w = h
text_field-IsField (some t) missing h w = w.0

map-to_int : (o : Option ℤ) → OptionFits 32 o → Option.map to_int o ≡ o
map-to_int none h = refl
map-to_int (some z) h = rw (to_int_lem z h)

read_text-text_field :
    (o : Option Str) (missing : Str)
    → IsText missing o
    → read_text missing (text_field o missing) ≡ o
unfolding read_text
read_text-text_field none missing w = rw (str_eq_refl missing)
read_text-text_field (some t) missing w = rw (str_eq_ne t missing w.1)

-- A message is read back as it was sent if its count is one of 32 bits, its texts are not empty
-- and hold no `&`, those of its tasks hold no `!` either, and its extra text is not the word for a
-- missing one.
pub str_to_mm-mm_to_str : (mm : MatrixMsg) → IsWireMsg mm → str_to_mm (mm_to_str mm) ≡ some mm
unfolding str_to_mm mm_to_str is_off
str_to_mm-mm_to_str mm w = rw (
  tokenize-join (codes "&&") b'&' (message_fields mm) refl (
      assumption (
        w,
        text_field-IsField mm.extrainfo (codes "noextrainfo")
            (IsField-word (codes "&&") b'n' (codes "oextrainfo") refl) w.extrainfo_ok,
        number_field-IsField (codes "&&") (Option.map to_int mm.count) (codes "nocount")
            (λ c h. ground arith) (IsField-word (codes "&&") b'n' (codes "ocount") refl),
        list_field-IsField (codes "&&") b'!' mm.tasks (codes "notask") refl w.tasks_off
            (IsField-word (codes "&&") b'n' (codes "otask") refl),
      )),
  message_of_fields,
  read_text-text_field mm.extrainfo (codes "noextrainfo") w.extrainfo_ok,
  map-to_int mm.count w.count_ok,
  read_number-number_field 32 b'n' (codes "ocount") mm.count (omega arith) w.count_ok,
  read_list-list_field (codes "!!") b'!' mm.tasks (codes "notask") refl w.tasks_ok
      (AllOff-word (codes "!!") (codes "notask") refl),
)
