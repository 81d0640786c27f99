-- ===== src/Zht/Worker.antt =====
-- The handlers of a server: HTWorker (ZHT/src/HTWorker.cpp), the codes of ZHT/src/Const.cpp, and
-- `TCPStub::recvsend` (ZHT/src/tcp_proxy_stub.cpp), which runs them. Requests and
-- replies hold no zero byte, so that a `char *` is the text.
pub mod Builds
use matrix_v.Prelude.{
  ℕ, Bool, true, false, Option, none, some, List, [], ◌∷◌, ◌++◌, if◌then◌else◌, Str, codes, str_eq,
  is_empty, drop, pos, equal_ℤ,
}
use matrix_v.Zht.Table
use matrix_v.Zht.Table.{Table, Outside, Done}
use matrix_v.Zht.Rewrite.{write_file_fg}
use matrix_v.Zht.Pack.{ZPack, text_of, zpack_to_str, str_to_zpack}

-- The operation codes.
abbrev pub opc_lookup : Str
opc_lookup = codes "001"

abbrev pub opc_remove : Str
opc_remove = codes "002"

abbrev pub opc_insert : Str
opc_insert = codes "003"

abbrev pub opc_append : Str
opc_append = codes "004"

abbrev pub opc_cmpswp : Str
opc_cmpswp = codes "005"

abbrev pub opc_stchgcb : Str
opc_stchgcb = codes "006"

-- The status codes, of three characters.
abbrev pub rec_emptykey : Str
rec_emptykey = codes "-01"

abbrev pub rec_srvexp : Str
rec_srvexp = codes "-04"

abbrev pub rec_sccbpolltry : Str
rec_sccbpolltry = codes "-91"

abbrev pub rec_nonexistkey : Str
rec_nonexistkey = codes "-92"

abbrev pub rec_uopc : Str
rec_uopc = codes "-98"

abbrev pub rec_succ : Str
rec_succ = codes "000"

-- How the server is built and configured, and what a call meets: `sccb` is the macro `SCCB`,
-- `fuel` bounds the rounds of a rewrite, and `serialize` is `SerializeAsString` of protobuf.
pub record Setup : Type 0 where
  pub sccb : Bool
  pub instant_swap : Bool
  pub outside : Outside
  pub fuel : ℕ
  pub serialize : ZPack → Str

-- A request that waits for a state change; `addr` is the client's address.
pub record Waiting : Type 0 where
  pub zpack : ZPack
  pub addr : ℕ

pub record Server : Type 0 where
  pub pmap : Table
  pub pqueue : List Waiting
  pub first_async : Bool

module _ (setup : Setup) where
  abbrev pub swap_now : Table → Table
  swap_now t = if setup.instant_swap then (write_file_fg setup.outside setup.fuel t).table else t

  -- The code that a call of the table stands for.
  abbrev pub settled : Done → Str × Table
  settled d =
      if equal_ℤ d.code (pos 0) then (rec_succ, swap_now d.table) else (rec_nonexistkey, d.table)

  unfoldable pub insert_shared : ZPack → Table → Str × Table
  insert_shared zpack t =
      if is_empty (text_of zpack.key)
      then (rec_emptykey, t)
      else settled (Table.put setup.outside (text_of zpack.key) (zpack_to_str zpack) t)

  pub append_shared : ZPack → Table → Str × Table
  append_shared zpack t =
      if is_empty (text_of zpack.key)
      then (rec_emptykey, t)
      else settled (Table.append setup.outside (text_of zpack.key) (setup.serialize zpack) t)

  pub remove_shared : ZPack → Table → Str × Table
  remove_shared zpack t =
      if is_empty (text_of zpack.key)
      then (rec_emptykey, t)
      else settled (Table.remove setup.outside (text_of zpack.key) t)

abbrev pub lookup_reply : Option Str → Str
lookup_reply none = rec_nonexistkey ++ codes "Empty"
lookup_reply (some v) = rec_succ ++ v

unfoldable pub lookup_shared : ZPack → Table → Str
lookup_shared zpack t =
    if is_empty (text_of zpack.key)
    then rec_emptykey
    else lookup_reply (Table.get (text_of zpack.key) t)

-- `val.substr(3)`
abbrev pub erase_status_code : Str → Str
erase_status_code val = drop 3 val

module _ (setup : Setup) where
  unfoldable pub compare_swap_internal : ZPack → Table → Str × Table
  compare_swap_internal zpack t =
      let lzpack = str_to_zpack (erase_status_code (lookup_shared zpack t)) in
      if str_eq (text_of zpack.val) (text_of lzpack.val)
      then insert_shared setup (record lzpack { val = some (text_of zpack.newval) }) t
      else (rec_srvexp, t)

  -- The result of the swap, and behind it what the key has then.
  unfoldable pub swap_reply : ZPack → Table → Str × Table
  swap_reply zpack t =
      let r = compare_swap_internal zpack t in
      (r.0 ++ erase_status_code (lookup_shared zpack r.1), r.1)

-- One look at whether the state has changed.
unfoldable pub state_change_callback_internal : ZPack → Table → Str
state_change_callback_internal zpack t =
    if is_empty (text_of zpack.key) then rec_emptykey else elim (Table.get (text_of zpack.key) t) [
      | none ↦ rec_nonexistkey
      | some v ↦
          if str_eq (text_of zpack.val) (text_of (str_to_zpack v).val)
          then rec_succ
          else rec_sccbpolltry
    ]

-- What a handler sends itself, and what it returns.
pub record Reply : Type 0 where
  pub sent_back : Option Str
  pub returned : Str

module _ (setup : Setup) where
  -- With `SCCB` a handler sends its result itself and returns the empty text.
  abbrev reply : Str → Reply
  reply result =
      if setup.sccb
      then record { sent_back = some result; returned = [] }
      else record { sent_back = none; returned = result }

  abbrev silent : Str → Reply
  silent result = record { sent_back = none; returned = result }

  abbrev on_table : Str × Table → Server → Reply × Server
  on_table (result, t) s = (reply result, record s { pmap = t })

  unfoldable pub compare_swap : ZPack → Server → Reply × Server
  compare_swap zpack s =
      if is_empty (text_of zpack.key)
      then (silent rec_emptykey, s)
      else on_table (swap_reply setup zpack s.pmap) s

  -- The request is queued for the thread that polls, which is started with the first one.
  unfoldable pub state_change_callback : ℕ → ZPack → Server → Reply × Server
  state_change_callback addr zpack s = (
    silent [],
    record s {
      pqueue = s.pqueue ++ record { zpack = zpack; addr = addr } ∷ [];
      first_async = true;
    },
  )

  -- The dispatch on the operation code.
  unfoldable pub handle : ℕ → ZPack → Server → Reply × Server
  handle addr zpack s =
      let opcode = text_of zpack.opcode in
      if str_eq opcode opc_lookup
      then (reply (lookup_shared zpack s.pmap), s)
      else if str_eq opcode opc_insert
      then on_table (insert_shared setup zpack s.pmap) s
      else if str_eq opcode opc_append
      then on_table (append_shared setup zpack s.pmap) s
      else if str_eq opcode opc_cmpswp
      then compare_swap zpack s
      else if str_eq opcode opc_remove
      then on_table (remove_shared setup zpack s.pmap) s
      else if str_eq opcode opc_stchgcb
      then state_change_callback addr zpack s
      else (silent rec_uopc, s)

  unfoldable pub run : ℕ → Str → Server → Reply × Server
  run addr buf s = handle addr (str_to_zpack buf) s

  -- What goes to the client, if anything does.
  unfoldable pub recvsend : ℕ → Str → Server → Option Str × Server
  recvsend addr buf s =
      let r = run addr buf s in (if setup.sccb then r.0.sent_back else some r.0.returned, r.1)
