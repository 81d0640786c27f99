-- ===== src/Scheduler/Notify/Records.antt =====
-- When the record of a child can be stored, before and after `update_child` of
-- matrix/src/scheduler_stub.cpp.
use matrix_v.Prelude.{
  ℕ, ◌≡◌, ◌≢◌, refl, false, true, Option, List, [], ◌∷◌, map, arith, Str, codes, All, All-append, ℤ,
}
use matrix_v.Text.Number.{num_to_str, IsNumeric}
use matrix_v.Text.Token.{is_delimiter, join, AllOff, is_off, AllOff-word, IsField-word}
use matrix_v.Text.Field.{
  number_field, list_field, number_field-IsField, num_to_str-IsField, list_field-IsField,
  join-AllOff, join_ne, holds_not,
}
use matrix_v.Text.Value.{Value, value_fields, value_to_str}
use matrix_v.Zht.Interface.{IsStorable}
use matrix_v.Scheduler.State.{CmpQueueItem}
use matrix_v.Scheduler.Notify.{update_child}

-- No text of the record holds a slash, at which the store's package format splits.
pub record IsSlashless (v : Value) : Type 0 where
  pub id_ok : AllOff (codes "//") v.id
  pub parents_ok : All (AllOff (codes "//")) v.parents
  pub children_ok : All (AllOff (codes "//")) v.children
  pub names_ok : All (AllOff (codes "//")) v.datanamelist

numeric_off : (c : ℕ) → IsNumeric c → is_delimiter (codes "//") c ≡ false
unfolding is_delimiter
numeric_off c h = ground arith

number_off :
    (o : Option ℤ) (c : ℕ) (word : Str)
    → is_off (codes "//") (c ∷ word) ≡ true
    → AllOff (codes "//") (number_field o (c ∷ word))
number_off o c word h =
    (number_field-IsField (codes "//") o (c ∷ word) numeric_off
      (IsField-word (codes "//") c word h)).0

list_off :
    (xs : List Str) (c : ℕ) (word : Str)
    → is_off (codes "//") (c ∷ word) ≡ true
    → All (AllOff (codes "//")) xs
    → AllOff (codes "//") (list_field b'?' xs (c ∷ word))
unfolding is_delimiter
list_off xs c word h ok =
    (list_field-IsField (codes "//") b'?' xs (c ∷ word) refl ok
      (IsField-word (codes "//") c word h)).0

sizes_off : (zs : List ℤ) → All (AllOff (codes "//")) (map num_to_str zs)
sizes_off [] = tt
sizes_off (z ∷ zs) = ((num_to_str-IsField (codes "//") z numeric_off).0, sizes_off zs)

pub value_to_str-IsStorable : (v : Value) → IsSlashless v → IsStorable (value_to_str v)
unfolding value_to_str is_off is_delimiter
value_to_str-IsStorable v w = (
  (off, join_ne_any),
  holds_not (codes "~~") b'~' v.id _ (codes "noval") refl
      (AllOff-word (codes "~~") (codes "noval") refl),
  holds_not (codes "~~") b'~' v.id _ (codes "nonewval") refl
      (AllOff-word (codes "~~") (codes "nonewval") refl),
)
  where
    off : AllOff (codes "//") (join b'~' (value_fields v))
    off = join-AllOff (codes "//") b'~' (value_fields v) refl (
      w.id_ok,
      (
        number_off v.indegree b'n' (codes "oindegree") refl,
        (
          list_off v.parents b'n' (codes "oparents") refl w.parents_ok,
          (
            list_off v.children b'n' (codes "ochildren") refl w.children_ok,
            (
              list_off v.datanamelist b'n' (codes "odataname") refl w.names_ok,
              (
                list_off (map num_to_str v.datasize) b'n' (codes "odatasize") refl
                    (sizes_off v.datasize),
                (
                  number_off v.alldatasize b'n' (codes "oalldatasize") refl,
                  (
                    number_off v.tasklength b'n' (codes "otasklength") refl,
                    (
                      number_off v.numtaskfin b'n' (codes "onumtaskfin") refl,
                      (
                        number_off v.numworksteal b'n' (codes "onumworksteal") refl,
                        (
                          number_off v.numworkstealfail b'n' (codes "onumworkstealfail") refl,
                          (
                            number_off v.numtaskwait b'n' (codes "onumtaskwait") refl,
                            (
                              number_off v.numtaskready b'n' (codes "onumtaskready") refl,
                              (
                                number_off v.numcoreavilable b'n' (codes "onumcoreavail") refl,
                                (
                                  number_off v.numallcore b'n' (codes "onumallcore") refl,
                                  (
                                    number_off v.outputsize b'n' (codes "ooutputsize") refl,
                                    (number_off v.submittime b'n' (codes "osubmittime") refl, tt),
                                  ),
                                ),
                              ),
                            ),
                          ),
                        ),
                      ),
                    ),
                  ),
                ),
              ),
            ),
          ),
        ),
      ),
    )

    join_ne_any : join b'~' (value_fields v) ≢ []
    join_ne_any = join_ne b'~' v.id _

pub update_child-IsSlashless :
    (self : Str) (item : CmpQueueItem) (v : Value)
    → IsSlashless v
    → AllOff (codes "//") self
    → AllOff (codes "//") item.key
    → IsSlashless (update_child self item v)
unfolding update_child
update_child-IsSlashless self item v w s k = record {
  id_ok = w.id_ok;
  parents_ok = All-append (AllOff (codes "//")) v.parents (self ∷ []) w.parents_ok (s, tt);
  children_ok = w.children_ok;
  names_ok = All-append (AllOff (codes "//")) v.datanamelist (item.key ∷ []) w.names_ok (k, tt);
}
