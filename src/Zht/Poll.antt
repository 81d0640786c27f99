-- ===== src/Zht/Poll.antt =====
-- The thread that answers requests for a state change: `threaded_state_change_callback` of HTWorker
-- (ZHT/src/HTWorker.cpp). What the other threads do to the table meanwhile is the list `seen` of the
-- tables that the polls after the first one meet.
pub mod Look
pub mod Lease
use matrix_v.Prelude.{
  ℕ, ◌+◌, Option, none, some, List, [], ◌∷◌, if◌then◌else◌, ltb_ℤ, Str, str_eq, ℤ, pos,
}
use matrix_v.Text.Number.{str_to_num}
use matrix_v.Zht.Table.{Table}
use matrix_v.Zht.Pack.{ZPack, text_of}
use matrix_v.Zht.Worker.{Server, Waiting, rec_succ, state_change_callback_internal}

-- The loop: the result in the end, or `none` where `seen` is too short.
pub poll : ℕ → ℤ → ZPack → ℕ → Str → List Table → Option Str
unfolding state_change_callback_internal
poll interval lease zpack mslapsed result [] =
    if str_eq result rec_succ
    then some result
    else if ltb_ℤ (pos (mslapsed + interval)) lease
    then none
    else some result
poll interval lease zpack mslapsed result (t ∷ seen) =
    let again =
      poll interval lease zpack (mslapsed + interval) (state_change_callback_internal zpack t)
        seen in
    if str_eq result rec_succ
    then some result
    else if ltb_ℤ (pos (mslapsed + interval)) lease
    then again
    else some result

-- What is sent to which client.
pub record Sent : Type 0 where
  pub addr : ℕ
  pub result : Str

abbrev pub send_to : ℕ → Option Str → Option Sent
send_to addr none = none
send_to addr (some result) = some (record { addr = addr; result = result })

-- One round of the thread: the request at the head of the queue.
pub callback_round : ℕ → List Table → Server → Option Sent × Server
unfolding poll str_to_num
callback_round interval seen s = elim s.pqueue [
  | [] ↦ (none, s)
  | w ∷ rest ↦ (
    send_to w.addr (
        poll interval (str_to_num 32 (text_of w.zpack.lease)) w.zpack 0
          (state_change_callback_internal w.zpack s.pmap) seen),
    record s { pqueue = rest },
  )
]
