-- ===== src/Tests/Server.antt =====
-- The server and the client of the store (Zht.Pack, Zht.Worker, Zht.Poll, Zht.Remote).
use matrix_v.Prelude.{
  ◌≡◌, ◌≢◌, refl, Option, none, some, List, [], ◌∷◌, Str, codes, str_eq, true, false, arith, pos,
  ne_of_str_eq, sym, ◌∙◌, ap,
}
use matrix_v.Text.Number.{str_to_num}
use matrix_v.Text.Token.{is_off, IsField-word}
use matrix_v.Zht.Interface.{IsKey, IsStorable}
use matrix_v.Zht.File.{mark_code}
use matrix_v.Zht.Chain.{value, fnv_hash}
use matrix_v.Zht.Table.{Table}
use matrix_v.Zht.Pack.{ZPack, zpack_to_str, str_to_zpack}
use matrix_v.Zht.Pack.RoundTrip.{IsWirePack, str_to_zpack-zpack_to_str}
use matrix_v.Zht.Worker.{Setup, Server, Waiting, recvsend, rec_succ}
use matrix_v.Zht.Worker.Builds.{with_sccb, recvsend_builds, recvsend_unanswered}
use matrix_v.Zht.Poll.{callback_round, Sent}
use matrix_v.Zht.Poll.Look.{HasValue}
use matrix_v.Zht.Poll.Lease.{Looks, later, callback_round-live, callback_round_sound}
use matrix_v.Zht.Remote.{insert, compare_swap}
use matrix_v.Zht.Remote.Served.{exchange}
use matrix_v.Zht.Remote.Serving.{IsServing}
use matrix_v.Zht.Remote.Calls.{IsInserted, insert-IsInserted, IsSwapped, compare_swap-IsSwapped}
use matrix_v.Tests.Table.{blank_table, blank_table-IsValid, blank_table_view}

abbrev setup : Setup
setup = record {
  sccb = true;
  instant_swap = false;
  outside = record { thread_rc = 0; swap_opens = true; stale_diff = false };
  fuel = 5;
  serialize = zpack_to_str;
}

abbrev server : Server
server = record { pmap = blank_table; pqueue = []; first_async = false }

-- A record as a client's insert of `7` leaves it.
abbrev record_pack : ZPack
record_pack = record {
  opcode = some (codes "003");
  key = some (codes "count");
  val = some (codes "7");
  newval = some (codes "?");
  lease = some (codes "1");
  valnull = some false;
  newvalnull = some true;
  replicanum = some (pos 3);
}

record_pack-IsWirePack : IsWirePack record_pack
unfolding is_off str_eq
record_pack-IsWirePack = record {
  opcode_ok = (
    IsField-word (codes "//") b'0' (codes "03") refl,
    ne_of_str_eq (codes "003") (codes "noopcode") refl,
  );
  key_ok = (
    IsField-word (codes "//") b'c' (codes "ount") refl,
    ne_of_str_eq (codes "count") (codes "nokey") refl,
  );
  val_ok = (IsField-word (codes "//") b'7' [] refl, ne_of_str_eq (codes "7") (codes "noval") refl);
  newval_ok =
      (IsField-word (codes "//") b'?' [] refl, ne_of_str_eq (codes "?") (codes "nonewval") refl);
  lease_ok =
      (IsField-word (codes "//") b'1' [] refl, ne_of_str_eq (codes "1") (codes "nolease") refl);
  replicanum_ok = omega arith;
}

str_to_zpack-zpack_to_str_example : str_to_zpack (zpack_to_str record_pack) ≡ record_pack
str_to_zpack-zpack_to_str_example = str_to_zpack-zpack_to_str record_pack record_pack-IsWirePack

counter-IsKey : IsKey (codes "count")
unfolding is_off str_eq
counter-IsKey = (
  IsField-word (codes "//") b'c' (codes "ount") refl,
  ne_of_str_eq (codes "count") (codes "nokey") refl,
)

seven-IsStorable : IsStorable (codes "7")
unfolding is_off str_eq
seven-IsStorable = (
  IsField-word (codes "//") b'7' [] refl,
  ne_of_str_eq (codes "7") (codes "noval") refl,
  ne_of_str_eq (codes "7") (codes "nonewval") refl,
)

eight-IsStorable : IsStorable (codes "8")
unfolding is_off str_eq
eight-IsStorable = (
  IsField-word (codes "//") b'8' [] refl,
  ne_of_str_eq (codes "8") (codes "noval") refl,
  ne_of_str_eq (codes "8") (codes "nonewval") refl,
)

server-IsServing : IsServing server.pmap
unfolding mark_code
server-IsServing = record {
  valid = blank_table-IsValid;
  opened = refl;
  records = λ k r e. absurd (let q : none ≡ some r = sym (blank_table_view k) ∙ e in cc);
}

insert-IsInserted_example :
    IsInserted setup refl 1
      (codes "count")
      (codes "7")
      server
      (insert (exchange setup 1) (codes "count") (codes "7") server)
insert-IsInserted_example =
    insert-IsInserted setup refl 1 (codes "count") (codes "7") server counter-IsKey seven-IsStorable
      server-IsServing

-- The server with the value `7` under the key.
abbrev filled_server : Server
filled_server = (insert (exchange setup 1) (codes "count") (codes "7") server).after

compare_swap-IsSwapped_example :
    IsSwapped setup refl 1
      (codes "count")
      (codes "7")
      (codes "8")
      filled_server
      (compare_swap (exchange setup 1) (codes "count") (codes "7") (codes "8") [] filled_server)
compare_swap-IsSwapped_example =
    compare_swap-IsSwapped setup refl 1 (codes "count") (codes "7") (codes "8") filled_server
      counter-IsKey (seven-IsStorable.0, seven-IsStorable.1) eight-IsStorable
      (insert-IsInserted setup refl 1 (codes "count") (codes "7") server counter-IsKey
        seven-IsStorable server-IsServing).serving

-- A lookup, and a request with an operation code that is not known.
abbrev ask : Str
ask = codes "001/count/^/?/1/1/1/3/"

abbrev unknown : Str
unknown = codes "009/count/^/?/1/1/1/3/"

recvsend_builds_example :
    recvsend (with_sccb true setup) 1 ask server ≡ recvsend (with_sccb false setup) 1 ask server
unfolding str_to_zpack str_eq
recvsend_builds_example = recvsend_builds setup 1 ask server refl

recvsend_unanswered_example :
    ((recvsend (with_sccb true setup) 1 unknown server).0 ≡ none)
    × ((recvsend (with_sccb false setup) 1 unknown server).0 ≢ none)
unfolding str_to_zpack str_eq
recvsend_unanswered_example = recvsend_unanswered setup 1 unknown server refl refl

-- A client waits up to five milliseconds for the value `7`, which is there at the second poll.
abbrev waiting : Waiting
waiting = record {
  addr = 2;
  zpack = record record_pack { opcode = some (codes "006"); lease = some (codes "5") };
}

abbrev waiting_server : Server
waiting_server = record { pmap = blank_table; pqueue = waiting ∷ []; first_async = true }

-- A table with the value.
abbrev full_table : Table
full_table = record blank_table {
  size = 1;
  kvpairs =
      (record {
        key = codes "count";
        val = codes "003/count/7/?/1/0/1/3/";
        positions = [];
        diff = false;
      }
        ∷ [])
      ∷ [];
}

abbrev seen_tables : List Table
seen_tables = blank_table ∷ full_table ∷ []

found : HasValue waiting.zpack full_table
unfolding value str_to_zpack str_eq fnv_hash
found = record {
  keyed = λ e. cc;
  stored = codes "003/count/7/?/1/0/1/3/";
  there = refl;
  same = refl;
}

five : str_to_num 32 (codes "5") ≡ pos 5
unfolding str_to_num
five = refl

callback_round-live_example :
    callback_round 2 seen_tables waiting_server
    ≡ (some (record { addr = 2; result = rec_succ }), record waiting_server { pqueue = [] })
callback_round-live_example =
    callback_round-live 2 5 seen_tables waiting_server waiting [] refl five full_table
      (later 1 full_table refl (omega arith)) found

callback_round_sound_example :
    (t : Table) × Looks 2 5 blank_table seen_tables t × HasValue waiting.zpack t
callback_round_sound_example =
    callback_round_sound 2 5 seen_tables waiting_server waiting [] refl five (
      ap (λ (r : Option Sent × Server). r.0)
        (callback_round-live 2 5 seen_tables waiting_server waiting [] refl five full_table
          (later 1 full_table refl (omega arith)) found))
