-- ===== src/Zht/Pack.antt =====
-- The packages that clients and servers of the store exchange, and that the table keeps as values:
-- `ZPack` (ZHT/src/meta.proto) with `zht_tokenize`, `zpack_to_str` and `str_to_zpack`
-- (ZHT/src/ZHTUtil.cpp, the number templates of ZHT/src/ZHTUtil.h).
pub mod RoundTrip
pub mod Parsed
use matrix_v.Prelude.{
  Bool, true, false, Option, none, some, List, [], ◌∷◌, if◌then◌else◌, Str, codes, str_eq, is_empty,
  ℤ, pos, equal_ℤ, ◌≡◌, refl,
}
use matrix_v.Text.Number.{num_to_str, str_to_num}
use matrix_v.Text.Token.{tokenize, join}
use matrix_v.Text.Field.{number_field, read_number}

pub record ZPack : Type 0 where
  pub opcode : Option Str
  pub key : Option Str
  pub val : Option Str
  pub newval : Option Str
  pub lease : Option Str
  pub valnull : Option Bool
  pub newvalnull : Option Bool
  pub replicanum : Option ℤ

-- No field is set.
abbrev pub unset : ZPack
unset = record {
  opcode = none;
  key = none;
  val = none;
  newval = none;
  lease = none;
  valnull = none;
  newvalnull = none;
  replicanum = none;
}

-- The getters give the default of the type where the field is not set.
abbrev pub text_of : Option Str → Str
text_of none = []
text_of (some s) = s

abbrev pub flag_of : Option Bool → Bool
flag_of none = false
flag_of (some b) = b

-- The same code as `tokenize` of matrix/src/util.cpp.
pub zht_tokenize : Str → Str → List Str
unfolding tokenize
zht_tokenize delimiter source = tokenize delimiter source

abbrev pub text_field : Option Str → Str → Str
text_field none missing = missing
text_field (some s) missing = s

abbrev pub read_text : Str → Str → Option Str
read_text missing s = if str_eq s missing then none else some s

abbrev pub bool_text : Bool → Str
bool_text true = codes "1"
bool_text false = codes "0"

abbrev pub flag_field : Option Bool → Str → Str
flag_field none missing = missing
flag_field (some b) missing = bool_text b

-- A stream reads a `bool` as a number; any but 0 and 1 fails, which gives 0.
pub read_bool : Str → Bool
unfolding str_to_num
read_bool s = equal_ℤ (str_to_num 64 s) (pos 1)

abbrev pub read_flag : Str → Str → Option Bool
read_flag missing s = if str_eq s missing then none else some (read_bool s)

pub zpack_fields : ZPack → List Str
unfolding num_to_str
zpack_fields p =
    text_field p.opcode (codes "noopcode")
    ∷ text_field p.key (codes "nokey")
    ∷ text_field p.val (codes "noval")
    ∷ text_field p.newval (codes "nonewval")
    ∷ text_field p.lease (codes "nolease")
    ∷ flag_field p.valnull (codes "novaln")
    ∷ flag_field p.newvalnull (codes "nonewvaln")
    ∷ number_field p.replicanum (codes "noreplicanum")
    ∷ []

unfoldable pub zpack_to_str : ZPack → Str
unfolding zpack_fields join
zpack_to_str p = join b'/' (zpack_fields p)

-- With fewer than eight tokens nothing is set.
pub zpack_of_fields : List Str → ZPack
unfolding read_bool str_to_num
zpack_of_fields (a ∷ b ∷ c ∷ d ∷ e ∷ f ∷ g ∷ h ∷ more) = record {
  opcode = read_text (codes "noopcode") a;
  key = read_text (codes "nokey") b;
  val = read_text (codes "noval") c;
  newval = read_text (codes "nonewval") d;
  lease = read_text (codes "nolease") e;
  valnull = read_flag (codes "novaln") f;
  newvalnull = read_flag (codes "nonewvaln") g;
  replicanum = read_number 32 (codes "noreplicanum") h;
}
zpack_of_fields _ = unset

unfoldable pub str_to_zpack : Str → ZPack
unfolding zpack_of_fields zht_tokenize
str_to_zpack s = if is_empty s then unset else zpack_of_fields (zht_tokenize (codes "//") s)

short : str_to_zpack (codes "Empty") ≡ unset
unfolding str_to_zpack
short = refl
