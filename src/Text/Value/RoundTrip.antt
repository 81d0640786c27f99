-- ===== src/Text/Value/RoundTrip.antt =====
-- A value that is written to the store is read back: all fields, and what becomes of the output size.
use matrix_v.Prelude.{
  ℕ, ◌∙◌, ap, ◌≡◌, refl, Option, some, [], ◌∷◌, arith, Str, codes, All, map, ℤ, pos, ◌≤◌, ◌^◌, List,
}
use matrix_v.Text.Number.{num_to_str, str_to_num, str_to_num-num_to_str, Fits}
use matrix_v.Text.Token.{AllOff, IsField, tokenize-join, is_off, AllOff-word, IsField-word}
use matrix_v.Text.Field.{
  number_field, read_number, list_field, read_list, OptionFits, number_field-IsField,
  num_to_str-IsField, list_field-IsField, read_number-number_field, read_number_overflow,
  read_list-list_field,
}
use matrix_v.Text.Value.{Value, value_fields, value_to_str, value_of_fields, str_to_value}

abbrev Entries : List Str → Type 0
Entries xs = All (AllOff (codes "~~")) xs × All (IsField (codes "??")) xs

-- What a value must meet to be read back: no separator in its texts, no empty text in a list, and
-- numbers in the range of the type that they are read at.
pub record IsWireValue (v : Value) : Type 0 where
  pub id_ok : IsField (codes "~~") v.id
  pub indegree_ok : OptionFits 64 v.indegree
  pub parents_ok : Entries v.parents
  pub children_ok : Entries v.children
  pub datanamelist_ok : Entries v.datanamelist
  pub datasize_ok : All (Fits 64) v.datasize
  pub alldatasize_ok : OptionFits 64 v.alldatasize
  pub tasklength_ok : OptionFits 64 v.tasklength
  pub numtaskfin_ok : OptionFits 64 v.numtaskfin
  pub numworksteal_ok : OptionFits 64 v.numworksteal
  pub numworkstealfail_ok : OptionFits 64 v.numworkstealfail
  pub numtaskwait_ok : OptionFits 32 v.numtaskwait
  pub numtaskready_ok : OptionFits 32 v.numtaskready
  pub numcoreavilable_ok : OptionFits 32 v.numcoreavilable
  pub numallcore_ok : OptionFits 32 v.numallcore
  pub submittime_ok : OptionFits 64 v.submittime

number_ok :
    (o : Option ℤ) (missing : Str)
    → IsField (codes "~~") missing
    → IsField (codes "~~") (number_field o missing)
unfolding is_off
number_ok o missing h = number_field-IsField (codes "~~") o missing (λ c n. ground arith) h

list_ok :
    (xs : List Str) (missing : Str)
    → IsField (codes "~~") missing
    → All (AllOff (codes "~~")) xs
    → IsField (codes "~~") (list_field b'?' xs missing)
unfolding is_off
list_ok xs missing h off = list_field-IsField (codes "~~") b'?' xs missing refl off h

list_read :
    (xs : List Str) (missing : Str)
    → AllOff (codes "??") missing
    → All (IsField (codes "??")) xs
    → read_list (codes "??") missing (list_field b'?' xs missing) ≡ xs
unfolding is_off
list_read xs missing off h = read_list-list_field (codes "??") b'?' xs missing refl h off

sizes_off : (zs : List ℤ) → All (AllOff (codes "~~")) (map num_to_str zs)
unfolding is_off
sizes_off [] = tt
sizes_off (z ∷ zs) = ((num_to_str-IsField (codes "~~") z (λ c n. ground arith)).0, sizes_off zs)

sizes_ok : (zs : List ℤ) → All (IsField (codes "??")) (map num_to_str zs)
unfolding is_off
sizes_ok [] = tt
sizes_ok (z ∷ zs) = (num_to_str-IsField (codes "??") z (λ c n. ground arith), sizes_ok zs)

sizes_read : (zs : List ℤ) → All (Fits 64) zs → map (str_to_num 64) (map num_to_str zs) ≡ zs
sizes_read [] h = refl
sizes_read (z ∷ zs) h = rw (str_to_num-num_to_str 64 z h.0, sizes_read zs h.1)

fields_ok : (v : Value) → IsWireValue v → All (IsField (codes "~~")) (value_fields v)
unfolding is_off
fields_ok v w = (
  w.id_ok,
  (
    number_ok v.indegree (codes "noindegree")
        (IsField-word (codes "~~") b'n' (codes "oindegree") refl),
    (
      list_ok v.parents (codes "noparents") (IsField-word (codes "~~") b'n' (codes "oparents") refl)
          w.parents_ok.0,
      (
        list_ok v.children (codes "nochildren")
            (IsField-word (codes "~~") b'n' (codes "ochildren") refl) w.children_ok.0,
        (
          list_ok v.datanamelist (codes "nodataname")
              (IsField-word (codes "~~") b'n' (codes "odataname") refl) w.datanamelist_ok.0,
          (
            list_ok (map num_to_str v.datasize) (codes "nodatasize")
                (IsField-word (codes "~~") b'n' (codes "odatasize") refl) (sizes_off v.datasize),
            (
              number_ok v.alldatasize (codes "noalldatasize")
                  (IsField-word (codes "~~") b'n' (codes "oalldatasize") refl),
              (
                number_ok v.tasklength (codes "notasklength")
                    (IsField-word (codes "~~") b'n' (codes "otasklength") refl),
                (
                  number_ok v.numtaskfin (codes "nonumtaskfin")
                      (IsField-word (codes "~~") b'n' (codes "onumtaskfin") refl),
                  (
                    number_ok v.numworksteal (codes "nonumworksteal")
                        (IsField-word (codes "~~") b'n' (codes "onumworksteal") refl),
                    (
                      number_ok v.numworkstealfail (codes "nonumworkstealfail")
                          (IsField-word (codes "~~") b'n' (codes "onumworkstealfail") refl),
                      (
                        number_ok v.numtaskwait (codes "nonumtaskwait")
                            (IsField-word (codes "~~") b'n' (codes "onumtaskwait") refl),
                        (
                          number_ok v.numtaskready (codes "nonumtaskready")
                              (IsField-word (codes "~~") b'n' (codes "onumtaskready") refl),
                          (
                            number_ok v.numcoreavilable (codes "nonumcoreavail")
                                (IsField-word (codes "~~") b'n' (codes "onumcoreavail") refl),
                            (
                              number_ok v.numallcore (codes "nonumallcore")
                                  (IsField-word (codes "~~") b'n' (codes "onumallcore") refl),
                              (
                                number_ok v.outputsize (codes "nooutputsize")
                                    (IsField-word (codes "~~") b'n' (codes "ooutputsize") refl),
                                (
                                  number_ok v.submittime (codes "nosubmittime")
                                      (IsField-word (codes "~~") b'n' (codes "osubmittime") refl),
                                  tt,
                                ),
                              ),
                            ),
                          ),
                        ),
                      ),
                    ),
                  ),
                ),
              ),
            ),
          ),
        ),
      ),
    ),
  ),
)

-- All fields but the output size are read back as they were written.
stored :
    (v : Value)
    → IsWireValue v
    → str_to_value (value_to_str v)
      ≡ some (record v {
        outputsize =
            read_number 32
              (codes "nooutputsize")
              (number_field v.outputsize (codes "nooutputsize"));
      })
unfolding str_to_value value_to_str is_off
stored v w = rw (
  tokenize-join (codes "~~") b'~' (value_fields v) refl (fields_ok v w),
  value_of_fields,
  read_number-number_field 64 b'n' (codes "oindegree") v.indegree (omega arith) w.indegree_ok,
  list_read v.parents (codes "noparents") (AllOff-word (codes "??") (codes "noparents") refl)
      w.parents_ok.1,
  list_read v.children (codes "nochildren") (AllOff-word (codes "??") (codes "nochildren") refl)
      w.children_ok.1,
  list_read v.datanamelist (codes "nodataname") (AllOff-word (codes "??") (codes "nodataname") refl)
      w.datanamelist_ok.1,
  list_read (map num_to_str v.datasize) (codes "nodatasize")
      (AllOff-word (codes "??") (codes "nodatasize") refl) (sizes_ok v.datasize),
  sizes_read v.datasize w.datasize_ok,
  read_number-number_field 64 b'n' (codes "oalldatasize") v.alldatasize (omega arith)
      w.alldatasize_ok,
  read_number-number_field 64 b'n' (codes "otasklength") v.tasklength (omega arith) w.tasklength_ok,
  read_number-number_field 64 b'n' (codes "onumtaskfin") v.numtaskfin (omega arith) w.numtaskfin_ok,
  read_number-number_field 64 b'n' (codes "onumworksteal") v.numworksteal (omega arith)
      w.numworksteal_ok,
  read_number-number_field 64 b'n' (codes "onumworkstealfail") v.numworkstealfail (omega arith)
      w.numworkstealfail_ok,
  read_number-number_field 32 b'n' (codes "onumtaskwait") v.numtaskwait (omega arith)
      w.numtaskwait_ok,
  read_number-number_field 32 b'n' (codes "onumtaskready") v.numtaskready (omega arith)
      w.numtaskready_ok,
  read_number-number_field 32 b'n' (codes "onumcoreavail") v.numcoreavilable (omega arith)
      w.numcoreavilable_ok,
  read_number-number_field 32 b'n' (codes "onumallcore") v.numallcore (omega arith) w.numallcore_ok,
  read_number-number_field 64 b'n' (codes "osubmittime") v.submittime (omega arith) w.submittime_ok,
)

-- A value that meets `IsWireValue`, with an output size that an `int` holds, is read back from the
-- store as it was written.
pub str_to_value-value_to_str :
    (v : Value)
    → IsWireValue v
    → OptionFits 32 v.outputsize
    → str_to_value (value_to_str v) ≡ some v
str_to_value-value_to_str v w f = rw (
  stored v w,
  read_number-number_field 32 b'n' (codes "ooutputsize") v.outputsize (omega arith) f,
)

-- A value that meets `IsWireValue`, with an output size of 2 ^ 31 or more, is read back with the
-- output size 0 and is the same otherwise.
pub outputsize_lost :
    (v : Value) (n : ℕ)
    → IsWireValue v
    → v.outputsize ≡ some (pos n)
    → 2 ^ 31 ≤ n
    → str_to_value (value_to_str v) ≡ some (record v { outputsize = some (pos 0) })
outputsize_lost v n w e h =
    stored v w
    ∙ ap (λ (o : Option ℤ). some (record v { outputsize = o }))
        (ap
            (λ (o : Option ℤ).
              read_number 32 (codes "nooutputsize") (number_field o (codes "nooutputsize")))
            e
          ∙ read_number_overflow 32 b'n' (codes "ooutputsize") n (omega arith) h)
