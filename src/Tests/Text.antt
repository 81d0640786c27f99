-- ===== src/Tests/Text.antt =====
-- The formats of numbers, tasks, messages and records (Text).
use matrix_v.Prelude.{◌≡◌, refl, none, some, [], ◌∷◌, codes, ℤ, pos, arith}
use matrix_v.Text.Token.{is_off, IsField-word}
use matrix_v.Text.TaskMsg.{taskmsg_to_str, str_to_taskmsg, str_to_taskmsg-taskmsg_to_str}
use matrix_v.Text.MatrixMsg.{MatrixMsg, mm_to_str, str_to_mm, IsWireMsg, str_to_mm-mm_to_str}
use matrix_v.Text.Value.{Value, new_value, value_to_str, str_to_value}
use matrix_v.Text.Value.RoundTrip.{IsWireValue, str_to_value-value_to_str, outputsize_lost}
use matrix_v.Wire.Batch.Texts.{IsSendable-IsWireTask}
use matrix_v.Tests.Samples.{small_task, small_task-IsSendable}

str_to_taskmsg-taskmsg_to_str_example : str_to_taskmsg (taskmsg_to_str small_task) ≡ some small_task
str_to_taskmsg-taskmsg_to_str_example =
    str_to_taskmsg-taskmsg_to_str small_task
      (IsSendable-IsWireTask small_task small_task-IsSendable)

abbrev load_message : MatrixMsg
load_message = record {
  msgtype = codes "send load";
  extrainfo = none;
  count = some (pos 12);
  tasks = codes "t1" ∷ codes "t2" ∷ [];
}

load_message-IsWireMsg : IsWireMsg load_message
unfolding is_off
load_message-IsWireMsg = record {
  msgtype_ok = IsField-word (codes "&&") b's' (codes "end load") refl;
  extrainfo_ok = tt;
  count_ok = omega arith;
  tasks_off = (
    (IsField-word (codes "&&") b't' (codes "1") refl).0,
    ((IsField-word (codes "&&") b't' (codes "2") refl).0, tt),
  );
  tasks_ok = (
    IsField-word (codes "!!") b't' (codes "1") refl,
    (IsField-word (codes "!!") b't' (codes "2") refl, tt),
  );
}

str_to_mm-mm_to_str_example : str_to_mm (mm_to_str load_message) ≡ some load_message
str_to_mm-mm_to_str_example = str_to_mm-mm_to_str load_message load_message-IsWireMsg

abbrev sample_value : ℤ → Value
sample_value size = record (new_value (codes "t1")) {
  indegree = some (pos 2);
  children = codes "t2" ∷ codes "t3" ∷ [];
  datasize = pos 5 ∷ [];
  outputsize = some size;
}

sample_value-IsWireValue : (size : ℤ) → IsWireValue (sample_value size)
unfolding is_off
sample_value-IsWireValue size = record {
  id_ok = IsField-word (codes "~~") b't' (codes "1") refl;
  indegree_ok = omega arith;
  parents_ok = (tt, tt);
  children_ok = (
    (
      (IsField-word (codes "~~") b't' (codes "2") refl).0,
      ((IsField-word (codes "~~") b't' (codes "3") refl).0, tt),
    ),
    (
      IsField-word (codes "??") b't' (codes "2") refl,
      (IsField-word (codes "??") b't' (codes "3") refl, tt),
    ),
  );
  datanamelist_ok = (tt, tt);
  datasize_ok = (omega arith, tt);
  alldatasize_ok = tt;
  tasklength_ok = tt;
  numtaskfin_ok = tt;
  numworksteal_ok = tt;
  numworkstealfail_ok = tt;
  numtaskwait_ok = tt;
  numtaskready_ok = tt;
  numcoreavilable_ok = tt;
  numallcore_ok = tt;
  submittime_ok = tt;
}

str_to_value-value_to_str_example :
    str_to_value (value_to_str (sample_value (pos 9))) ≡ some (sample_value (pos 9))
str_to_value-value_to_str_example =
    str_to_value-value_to_str (sample_value (pos 9)) (sample_value-IsWireValue (pos 9))
      (omega arith)

outputsize_lost_example :
    str_to_value (value_to_str (sample_value (pos 3000000000))) ≡ some (sample_value (pos 0))
outputsize_lost_example =
    outputsize_lost (sample_value (pos 3000000000)) 3000000000
      (sample_value-IsWireValue (pos 3000000000)) refl (omega arith)
