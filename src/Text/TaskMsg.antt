-- ===== src/Text/TaskMsg.antt =====
-- `taskmsg_to_str` and `str_to_taskmsg` of matrix/src/util.cpp.
use matrix_v.Prelude.{
  ◌≡◌, refl, Option, none, some, List, [], ◌∷◌, arith, Str, codes, ℤ, pos, get_or,
}
use matrix_v.Text.Number.{num_to_str, str_to_num, Fits, str_to_num-num_to_str}
use matrix_v.Text.Token.{is_delimiter, tokenize, join, IsField, tokenize-join}
use matrix_v.Text.Field.{num_to_str-IsField}

pub record TaskMsg : Type 0 where
  pub taskid : Str
  pub user : Str
  pub dir : Str
  pub cmd : Str
  pub datalength : ℤ

abbrev pub task_fields : TaskMsg → List Str
task_fields tm = tm.taskid ∷ tm.user ∷ tm.dir ∷ tm.cmd ∷ num_to_str tm.datalength ∷ []

unfoldable pub taskmsg_to_str : TaskMsg → Str
taskmsg_to_str tm = join b'@' (task_fields tm)

-- The last field, 0 where it is missing.
read_datalength : List Str → ℤ
read_datalength (a ∷ b ∷ c ∷ d ∷ e ∷ rest) = str_to_num 64 e
read_datalength _ = pos 0

-- Fields that are missing have their defaults; `none` is `exit(1)`.
task_of_fields : List Str → Option TaskMsg
unfolding read_datalength
task_of_fields [] = none
task_of_fields (taskid ∷ rest) = some (record {
  taskid = taskid;
  user = get_or rest 0 (codes "kwang");
  dir = get_or rest 1 (codes "/home/kwang/Documents");
  cmd = get_or rest 2 (codes "hostname");
  datalength = read_datalength (taskid ∷ rest);
})

pub str_to_taskmsg : Str → Option TaskMsg
unfolding task_of_fields
str_to_taskmsg s = task_of_fields (tokenize (codes "@@") s)

-- No text field is empty or holds an `@`, and the length is a `long`.
pub record IsWireTask (tm : TaskMsg) : Type 0 where
  pub taskid_ok : IsField (codes "@@") tm.taskid
  pub user_ok : IsField (codes "@@") tm.user
  pub dir_ok : IsField (codes "@@") tm.dir
  pub cmd_ok : IsField (codes "@@") tm.cmd
  pub datalength_ok : Fits 64 tm.datalength

-- A task whose text fields are not empty and hold no `@`, with a data length of 64 bits, is read
-- back as it was sent.
pub str_to_taskmsg-taskmsg_to_str :
    (tm : TaskMsg) → IsWireTask tm → str_to_taskmsg (taskmsg_to_str tm) ≡ some tm
unfolding str_to_taskmsg taskmsg_to_str is_delimiter
str_to_taskmsg-taskmsg_to_str tm w = rw (
  tokenize-join (codes "@@") b'@' (task_fields tm) refl
      (assumption (w, num_to_str-IsField (codes "@@") tm.datalength (λ c h. ground arith))),
  task_of_fields,
  str_to_num-num_to_str 64 tm.datalength w.datalength_ok,
)
