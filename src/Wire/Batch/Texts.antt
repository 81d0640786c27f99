-- ===== src/Wire/Batch/Texts.antt =====
-- What the texts of a batch hold: no byte of the separators that stand around them.
use matrix_v.Prelude.{
  ℕ, ◌<◌, ◌^◌, ◌≡◌, ◌≢◌, refl, true, false, List, [], ◌∷◌, ◌++◌, map, arith, Str, codes, All,
  All-mono, All-append, pos,
}
use matrix_v.Text.Number.{Fits, to_int}
use matrix_v.Text.Token.{is_delimiter, join, AllOff, IsField, is_off, AllOff-word, IsField-word}
use matrix_v.Text.Field.{num_to_str-IsField, join-AllOff, list_field-IsField}
use matrix_v.Text.TaskMsg.{TaskMsg, task_fields, taskmsg_to_str, IsWireTask}
use matrix_v.Text.MatrixMsg.{mm_to_str, IsWireMsg}
use matrix_v.Wire.Batch.{batch_msg}

-- All the bytes that the formats of tasks, messages and batches give a meaning to.
abbrev pub reserved : Str
reserved = codes "@!&#$"

-- No text field is empty or holds a reserved byte, and the length is a `long`.
pub record IsSendable (tm : TaskMsg) : Type 0 where
  pub taskid_ok : IsField reserved tm.taskid
  pub user_ok : IsField reserved tm.user
  pub dir_ok : IsField reserved tm.dir
  pub cmd_ok : IsField reserved tm.cmd
  pub datalength_ok : Fits 64 tm.datalength

-- The sender's name, such as "scheduler".
abbrev pub IsPeer : Str → Type 0
IsPeer peer = AllOff (codes "&#$") peer

pub AllOff-sub :
    (big small s : Str)
    → ((c : ℕ) → is_delimiter big c ≡ false → is_delimiter small c ≡ false)
    → AllOff big s
    → AllOff small s
AllOff-sub big small s f h =
    All-mono (λ c. is_delimiter big c ≡ false) (λ c. is_delimiter small c ≡ false) f s h

pub IsSendable-IsWireTask : (tm : TaskMsg) → IsSendable tm → IsWireTask tm
unfolding is_delimiter
IsSendable-IsWireTask tm w = record {
  taskid_ok =
      (AllOff-sub reserved (codes "@@") tm.taskid (λ c. ground arith) w.taskid_ok.0, w.taskid_ok.1);
  user_ok = (AllOff-sub reserved (codes "@@") tm.user (λ c. ground arith) w.user_ok.0, w.user_ok.1);
  dir_ok = (AllOff-sub reserved (codes "@@") tm.dir (λ c. ground arith) w.dir_ok.0, w.dir_ok.1);
  cmd_ok = (AllOff-sub reserved (codes "@@") tm.cmd (λ c. ground arith) w.cmd_ok.0, w.cmd_ok.1);
  datalength_ok = w.datalength_ok;
}

-- The separators outside a task.
abbrev outer : Str
outer = codes "!&#$"

pub taskmsg_to_str-off : (tm : TaskMsg) → IsSendable tm → AllOff outer (taskmsg_to_str tm)
unfolding taskmsg_to_str is_delimiter
taskmsg_to_str-off tm w = join-AllOff outer b'@' (task_fields tm) refl (
  AllOff-sub reserved outer tm.taskid (λ c. ground arith) w.taskid_ok.0,
  (
    AllOff-sub reserved outer tm.user (λ c. ground arith) w.user_ok.0,
    (
      AllOff-sub reserved outer tm.dir (λ c. ground arith) w.dir_ok.0,
      (
        AllOff-sub reserved outer tm.cmd (λ c. ground arith) w.cmd_ok.0,
        ((num_to_str-IsField outer tm.datalength (λ c h. ground arith)).0, tt),
      ),
    ),
  ),
)

taskmsg_to_str_ne : (tm : TaskMsg) → taskmsg_to_str tm ≢ []
unfolding taskmsg_to_str join
taskmsg_to_str_ne tm = join_nonempty tm.taskid _
  where
    join_nonempty : (x r : Str) → x ++ b'@' ∷ b'@' ∷ r ≢ []
    join_nonempty [] r = cc
    join_nonempty (c ∷ x) r = cc

pub task_texts-off :
    (small : Str) (tasks : List TaskMsg)
    → ((c : ℕ) → is_delimiter outer c ≡ false → is_delimiter small c ≡ false)
    → All IsSendable tasks
    → All (IsField small) (map taskmsg_to_str tasks)
task_texts-off small [] f h = tt
task_texts-off small (tm ∷ tasks) f h = (
  (AllOff-sub outer small (taskmsg_to_str tm) f (taskmsg_to_str-off tm h.0), taskmsg_to_str_ne tm),
  task_texts-off small tasks f h.1,
)

pub fields_off : (small : Str) (xs : List Str) → All (IsField small) xs → All (AllOff small) xs
fields_off small xs h = All-mono (IsField small) (AllOff small) (λ s p. p.0) xs h

peer_text :
    (small peer : Str)
    → AllOff small peer
    → is_off small (codes " send tasks") ≡ true
    → IsField small (peer ++ codes " send tasks")
peer_text small peer h e = (
  All-append (λ c. is_delimiter small c ≡ false) peer (codes " send tasks") h
      (AllOff-word small (codes " send tasks") e),
  nonempty peer,
)
  where
    nonempty : (s : Str) → s ++ codes " send tasks" ≢ []
    nonempty [] = cc
    nonempty (c ∷ s) = cc

module _ (peer : Str) (peer_ok : IsPeer peer) (count : ℕ) (tasks : List TaskMsg)
    (tasks_ok : All IsSendable tasks) where
  pub batch_msg-IsWireMsg : count < 2 ^ 31 → IsWireMsg (batch_msg peer count tasks)
  unfolding batch_msg is_off
  batch_msg-IsWireMsg small = record {
    msgtype_ok =
        peer_text (codes "&&") peer
          (AllOff-sub (codes "&#$") (codes "&&") peer (λ c. ground arith) peer_ok) refl;
    extrainfo_ok = tt;
    count_ok = small;
    tasks_off =
        fields_off (codes "&&") (map taskmsg_to_str tasks)
          (task_texts-off (codes "&&") tasks (λ c. ground arith) tasks_ok);
    tasks_ok = task_texts-off (codes "!!") tasks (λ c. ground arith) tasks_ok;
  }

  -- The text of a message holds neither `#` nor `$`.
  pub batch_msg-off : AllOff (codes "#$") (mm_to_str (batch_msg peer count tasks))
  unfolding batch_msg mm_to_str is_off
  batch_msg-off = join-AllOff (codes "#$") b'&' _ refl (
    (peer_text (codes "#$") peer
        (AllOff-sub (codes "&#$") (codes "#$") peer (λ c. ground arith) peer_ok) refl).0,
    (
      AllOff-word (codes "#$") (codes "noextrainfo") refl,
      (
        (num_to_str-IsField (codes "#$") (to_int (pos count)) (λ c h. ground arith)).0,
        (
          (list_field-IsField (codes "#$") b'!' (map taskmsg_to_str tasks) (codes "notask") refl
              (fields_off (codes "#$") _
                (task_texts-off (codes "#$") tasks (λ c. ground arith) tasks_ok))
              (IsField-word (codes "#$") b'n' (codes "otask") refl)).0,
          tt,
        ),
      ),
    ),
  )
