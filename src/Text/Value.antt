-- ===== src/Text/Value.antt =====
-- `value_to_str` and `str_to_value` of matrix/src/util.cpp: the record of a task or of a scheduler
-- that stands in the store (the message `Value` of matrix/src/metazht.proto).
pub mod RoundTrip
use matrix_v.Prelude.{
  ℕ, ◌∙◌, ap, ◌≡◌, refl, Option, none, some, [], ◌∷◌, arith, Str, codes, All, map, ℤ, pos, ◌≤◌, ◌^◌,
  List,
}
use matrix_v.Text.Number.{num_to_str, str_to_num, str_to_num-num_to_str, Fits}
use matrix_v.Text.Token.{
  tokenize, join, AllOff, IsField, tokenize-join, is_off, AllOff-word, IsField-word,
}
use matrix_v.Text.Field.{
  number_field, read_number, list_field, read_list, OptionFits, number_field-IsField,
  num_to_str-IsField, list_field-IsField, read_number-number_field, read_number_overflow,
  read_list-list_field,
}

pub record Value : Type 0 where
  pub id : Str
  pub indegree : Option ℤ
  pub parents : List Str
  pub children : List Str
  pub datanamelist : List Str
  pub datasize : List ℤ
  pub alldatasize : Option ℤ
  pub tasklength : Option ℤ
  pub numtaskfin : Option ℤ
  pub numworksteal : Option ℤ
  pub numworkstealfail : Option ℤ
  pub numtaskwait : Option ℤ
  pub numtaskready : Option ℤ
  pub numcoreavilable : Option ℤ
  pub numallcore : Option ℤ
  pub outputsize : Option ℤ
  pub submittime : Option ℤ

-- A field that is not set.
abbrev pub new_value : Str → Value
new_value id = record {
  id = id;
  indegree = none;
  parents = [];
  children = [];
  datanamelist = [];
  datasize = [];
  alldatasize = none;
  tasklength = none;
  numtaskfin = none;
  numworksteal = none;
  numworkstealfail = none;
  numtaskwait = none;
  numtaskready = none;
  numcoreavilable = none;
  numallcore = none;
  outputsize = none;
  submittime = none;
}

-- A getter of a number that is not set returns 0.
abbrev pub get_number : Option ℤ → ℤ
get_number none = pos 0
get_number (some z) = z

abbrev pub value_fields : Value → List Str
value_fields v =
    v.id
    ∷ number_field v.indegree (codes "noindegree")
    ∷ list_field b'?' v.parents (codes "noparents")
    ∷ list_field b'?' v.children (codes "nochildren")
    ∷ list_field b'?' v.datanamelist (codes "nodataname")
    ∷ list_field b'?' (map num_to_str v.datasize) (codes "nodatasize")
    ∷ number_field v.alldatasize (codes "noalldatasize")
    ∷ number_field v.tasklength (codes "notasklength")
    ∷ number_field v.numtaskfin (codes "nonumtaskfin")
    ∷ number_field v.numworksteal (codes "nonumworksteal")
    ∷ number_field v.numworkstealfail (codes "nonumworkstealfail")
    ∷ number_field v.numtaskwait (codes "nonumtaskwait")
    ∷ number_field v.numtaskready (codes "nonumtaskready")
    ∷ number_field v.numcoreavilable (codes "nonumcoreavail")
    ∷ number_field v.numallcore (codes "nonumallcore")
    ∷ number_field v.outputsize (codes "nooutputsize")
    ∷ number_field v.submittime (codes "nosubmittime")
    ∷ []

unfoldable pub value_to_str : Value → Str
value_to_str v = join b'~' (value_fields v)

-- Fewer than 17 fields is `exit(1)`: `none`.
value_of_fields : List Str → Option Value
value_of_fields
      (f0 ∷ f1 ∷ f2 ∷ f3 ∷ f4 ∷ f5 ∷ f6 ∷ f7 ∷ f8 ∷ f9 ∷ f10 ∷ f11 ∷ f12 ∷ f13 ∷ f14 ∷ f15 ∷ f16
        ∷ rest) =
    some (record {
      id = f0;
      indegree = read_number 64 (codes "noindegree") f1;
      parents = read_list (codes "??") (codes "noparents") f2;
      children = read_list (codes "??") (codes "nochildren") f3;
      datanamelist = read_list (codes "??") (codes "nodataname") f4;
      datasize = map (str_to_num 64) (read_list (codes "??") (codes "nodatasize") f5);
      alldatasize = read_number 64 (codes "noalldatasize") f6;
      tasklength = read_number 64 (codes "notasklength") f7;
      numtaskfin = read_number 64 (codes "nonumtaskfin") f8;
      numworksteal = read_number 64 (codes "nonumworksteal") f9;
      numworkstealfail = read_number 64 (codes "nonumworkstealfail") f10;
      numtaskwait = read_number 32 (codes "nonumtaskwait") f11;
      numtaskready = read_number 32 (codes "nonumtaskready") f12;
      numcoreavilable = read_number 32 (codes "nonumcoreavail") f13;
      numallcore = read_number 32 (codes "nonumallcore") f14;
      outputsize = read_number 32 (codes "nooutputsize") f15;
      submittime = read_number 64 (codes "nosubmittime") f16;
    })
value_of_fields _ = none

pub str_to_value : Str → Option Value
unfolding value_of_fields
str_to_value s = value_of_fields (tokenize (codes "~~") s)

pub str_to_value_nil : str_to_value [] ≡ none
unfolding str_to_value tokenize
str_to_value_nil = refl
