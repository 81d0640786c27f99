-- ===== src/Zht/Worker/Builds.antt =====
-- The two builds of a server, with and without `SCCB` (ZHT/src/HTWorker.cpp,
-- ZHT/src/tcp_proxy_stub.cpp).
use matrix_v.Prelude.{
  ◌≡◌, ◌≢◌, refl, Bool, true, false, Option, none, some, arith, if◌then◌else◌, Str, str_eq,
  is_empty, ◌||◌, not, ℕ,
}
use matrix_v.Zht.Pack.{ZPack, text_of, str_to_zpack}
use matrix_v.Zht.Table.{Table}
use matrix_v.Zht.Worker.{
  Reply, Setup, Server, handle, run, recvsend, compare_swap, swap_reply, compare_swap_internal,
  insert_shared, append_shared, remove_shared, opc_lookup, opc_remove, opc_insert, opc_append,
  opc_cmpswp, opc_stchgcb,
}

-- A request that is answered at once whatever the build: a known operation but the wait for a
-- state change, and a swap only with a key.
abbrev pub is_direct : ZPack → Bool
is_direct zpack =
    let opcode = text_of zpack.opcode in
    str_eq opcode opc_lookup
    || str_eq opcode opc_insert
    || str_eq opcode opc_append
    || (if str_eq opcode opc_cmpswp
        then not (is_empty (text_of zpack.key))
        else str_eq opcode opc_remove)

abbrev pub with_sccb : Bool → Setup → Setup
with_sccb b setup = record setup { sccb = b }

module _ (setup : Setup) (zpack : ZPack) (t : Table) where
  insert_builds :
      insert_shared (with_sccb true setup) zpack t ≡ insert_shared (with_sccb false setup) zpack t
  unfolding insert_shared
  insert_builds = refl

  append_builds :
      append_shared (with_sccb true setup) zpack t ≡ append_shared (with_sccb false setup) zpack t
  unfolding append_shared
  append_builds = refl

  remove_builds :
      remove_shared (with_sccb true setup) zpack t ≡ remove_shared (with_sccb false setup) zpack t
  unfolding remove_shared
  remove_builds = refl

  swap_builds :
      swap_reply (with_sccb true setup) zpack t ≡ swap_reply (with_sccb false setup) zpack t
  unfolding swap_reply compare_swap_internal insert_shared
  swap_builds = refl

-- What the client receives of a handler's reply.
abbrev received : Bool → Reply × Server → Option Str × Server
received sccb r = (if sccb then r.0.sent_back else some r.0.returned, r.1)

handle_builds :
    (setup : Setup) (addr : ℕ) (zpack : ZPack) (s : Server)
    → is_direct zpack ≡ true
    → received true (handle (with_sccb true setup) addr zpack s)
      ≡ received false (handle (with_sccb false setup) addr zpack s)
unfolding handle compare_swap
handle_builds setup addr zpack s h = ground (
  arith,
  insert_builds setup zpack s.pmap,
  append_builds setup zpack s.pmap,
  remove_builds setup zpack s.pmap,
  swap_builds setup zpack s.pmap,
)

-- A server that is built with `SCCB` answers a request that is direct (a known operation other
-- than the wait for a state change, and a swap only with a key) as one that is built without, and
-- ends in the same state.
pub recvsend_builds :
    (setup : Setup) (addr : ℕ) (buf : Str) (s : Server)
    → is_direct (str_to_zpack buf) ≡ true
    → recvsend (with_sccb true setup) addr buf s ≡ recvsend (with_sccb false setup) addr buf s
unfolding recvsend run
recvsend_builds setup addr buf s h = handle_builds setup addr (str_to_zpack buf) s h

handle_unanswered :
    (setup : Setup) (addr : ℕ) (zpack : ZPack) (s : Server)
    → is_direct zpack ≡ false
    → str_eq (text_of zpack.opcode) opc_stchgcb ≡ false
    → ((received true (handle (with_sccb true setup) addr zpack s)).0 ≡ none)
      × ((received false (handle (with_sccb false setup) addr zpack s)).0 ≢ none)
unfolding handle compare_swap
handle_unanswered setup addr zpack s h n = (ground arith, λ e. ground arith)

-- Built with `SCCB`, a server leaves a request with an unknown operation code, and a swap with no
-- key, without an answer, while the other build answers it.
pub recvsend_unanswered :
    (setup : Setup) (addr : ℕ) (buf : Str) (s : Server)
    → is_direct (str_to_zpack buf) ≡ false
    → str_eq (text_of (str_to_zpack buf).opcode) opc_stchgcb ≡ false
    → ((recvsend (with_sccb true setup) addr buf s).0 ≡ none)
      × ((recvsend (with_sccb false setup) addr buf s).0 ≢ none)
unfolding recvsend run
recvsend_unanswered setup addr buf s h n = handle_unanswered setup addr (str_to_zpack buf) s h n
