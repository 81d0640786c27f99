-- ===== src/Wire/Batch.antt =====
-- Batches of tasks: `Peer::send_batch_tasks` of matrix/src/util.cpp, and the parsing that
-- `recv_task_from_client` and `recv_task_from_scheduler` of matrix/src/scheduler_stub.cpp share.
pub mod Texts
pub mod RoundTrip
pub mod Parse
pub mod Receive
use matrix_v.Prelude.{
  ℕ, zero, suc, ◌+◌, ◌-◌, true, false, Option, none, some, List, [], ◌∷◌, ◌++◌, map, leb, ◌==◌,
  if◌then◌else◌, Str, codes, take, drop, length, ℤ, pos, pos_part,
}
use matrix_v.Text.Token.{tokenize}
use matrix_v.Text.TaskMsg.{TaskMsg, taskmsg_to_str, str_to_taskmsg}
use matrix_v.Text.MatrixMsg.{MatrixMsg, mm_to_str, str_to_mm}
use matrix_v.Text.Value.{get_number}
use matrix_v.Wire.Stream.{send_mul, drop_last}

unfoldable pub batch_msg : Str → ℕ → List TaskMsg → MatrixMsg
batch_msg peer count tasks = record {
  msgtype = peer ++ codes " send tasks";
  extrainfo = none;
  count = some (pos count);
  tasks = map taskmsg_to_str tasks;
}

-- The loop of `send_batch_tasks`; what it returns are the texts given to `send_bf`, in order.
-- `none` means that the fuel ran out.
unfoldable pub batch_loop : ℕ → ℕ → Str → List TaskMsg → ℕ → ℕ → ℕ → Option (List Str)
unfolding batch_msg
batch_loop zero max_per_pkg peer task_vec left sent per_pkg = none
batch_loop (suc fuel) max_per_pkg peer task_vec left sent per_pkg =
    let end_flag = leb left max_per_pkg in
    let per_pkg' = if end_flag then left else per_pkg in
    let mm = batch_msg peer per_pkg' (take per_pkg' (drop sent task_vec)) in
    let rest =
      batch_loop fuel max_per_pkg peer task_vec (left - per_pkg') (sent + per_pkg') per_pkg' in
    if left == 0
    then some []
    else elim rest [ none ↦ none | some texts ↦ some (send_mul (mm_to_str mm) end_flag ∷ texts) ]

-- One round sends a task or more, so that one round more than there are tasks is fuel enough.
unfoldable pub send_batch_tasks : ℕ → List TaskMsg → Str → Option (List Str)
unfolding batch_loop
send_batch_tasks max_per_pkg task_vec peer =
    let left = length task_vec in
    let str_num_task = mm_to_str (record (batch_msg peer left []) { tasks = [] }) in
    if left == 0
    then some (send_mul str_num_task true ∷ [])
    else elim (batch_loop (suc left) max_per_pkg peer task_vec left 0 max_per_pkg) [
      | none ↦ none
      | some texts ↦ some (send_mul str_num_task false ∷ texts)
    ]

-- `str_to_taskmsg(mm.tasks(j))` for each `j` below the count; `none` is an index past the end, or
-- an `exit`.
pub tasks_loop : ℕ → List Str → Option (List TaskMsg)
tasks_loop zero tasks = some []
tasks_loop (suc n) [] = none
tasks_loop (suc n) (t ∷ tasks) = elim (str_to_taskmsg t) [
  | none ↦ none
  | some tm ↦ elim (tasks_loop n tasks) [ none ↦ none | some tms ↦ some (tm ∷ tms) ]
]

pub msg_tasks : MatrixMsg → Option (List TaskMsg)
unfolding tasks_loop
msg_tasks mm = tasks_loop (pos_part (get_number mm.count)) mm.tasks

-- The messages behind the first, with the tasks of each.
pub packages : List Str → Option (List (List TaskMsg))
unfolding msg_tasks
packages [] = some []
packages (s ∷ rest) = elim (str_to_mm s) [
  | none ↦ none
  | some mm ↦ elim (msg_tasks mm) [
    | none ↦ none
    | some tms ↦ elim (packages rest) [ none ↦ none | some more ↦ some (tms ∷ more) ]
  ]
]

pub record Batch : Type 0 where
  pub num_task : ℤ
  pub groups : List (List TaskMsg)

-- What both receivers make of the text of `recv_mul`: nothing if one message came, else the count
-- of the first message and the tasks of the others. `none` is a throw of `at` or an `exit`.
pub read_batch : List Str → Option (Option Batch)
unfolding packages
read_batch [] = none
read_batch (header ∷ []) = some none
read_batch (header ∷ s ∷ rest) = elim (str_to_mm header) [
  | none ↦ none
  | some mm ↦ elim (packages (s ∷ rest)) [
    | none ↦ none
    | some groups ↦ some (some (record { num_task = get_number mm.count; groups = groups }))
  ]
]

pub parse_batch : Str → Option (Option Batch)
unfolding read_batch
parse_batch task_str = read_batch (tokenize (codes "##") (drop_last task_str))
