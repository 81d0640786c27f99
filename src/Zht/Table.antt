-- ===== src/Zht/Table.antt =====
-- The table of a server: NoVoHT (ZHT/src/novoht.h, ZHT/src/novoht.cpp). A chain that the code
-- changes through a pointer is written back to its bucket. The semaphores are not in the model: an
-- operation is what one thread does while it holds them.
pub mod Buckets
pub mod Resize
pub mod Places
pub mod Ops
pub mod Codes
pub mod Run
pub mod Load
pub mod Pairs
pub mod Count
use matrix_v.Prelude.{
  ℕ, zero, suc, ◌+◌, ◌*◌, ◌%◌, Bool, true, false, Option, none, some, List, [], ◌∷◌, ◌++◌, ◌==◌,
  ltb_ℤ, equal_ℤ, if◌then◌else◌, Str, codes, is_empty, get_or, set, replicate, ℤ, pos, ◌+ℤ◌, ◌-ℤ◌,
  ◌*ℤ◌,
}
use matrix_v.Zht.Chain.{Pair, Chain, fnv_hash, find, value, assign, erase}
use matrix_v.Zht.File.{
  DbFile, Written, closed_code, write, write_append, mark_code, mark_file, logrm_file,
}

pub record Table : Type 0 where
  pub size : ℕ
  pub kvpairs : List Chain
  pub rewriting : Bool
  pub num_el : ℤ
  pub dbfile : Option DbFile
  pub swap_file : Option DbFile
  pub filename : Str
  pub n_rem : ℕ
  pub magic_number : ℤ
  -- `resizeNum` is a `float`; here it is a fraction.
  pub resize_num : ℕ
  pub resize_den : ℕ

-- What a call meets outside: the result of `pthread_create`, whether `fopen` opens `.novoht.swp`,
-- and the `diff` of new memory.
pub record Outside : Type 0 where
  pub thread_rc : ℕ
  pub swap_opens : Bool
  pub stale_diff : Bool

-- A code and the table after the call.
pub record Done : Type 0 where
  pub code : ℤ
  pub table : Table

abbrev pub slot : Str → ℕ → ℕ
slot k size = fnv_hash k % size

abbrev pub bucket : Str → Table → Chain
bucket k t = get_or t.kvpairs (slot k t.size) []

abbrev pub place : Str → Chain → Table → Table
place k c t = record t { kvpairs = set t.kvpairs (slot k t.size) c }

-- The pairs of one old bucket, each to the head of its new one.
pub move_chain : ℕ → Chain → List Chain → List Chain
move_chain size [] kvpairs = kvpairs
move_chain size (p ∷ c) kvpairs =
    move_chain size c (set kvpairs (slot p.key size) (p ∷ get_or kvpairs (slot p.key size) []))

pub move_all : ℕ → List Chain → List Chain → List Chain
unfolding move_chain
move_all size [] kvpairs = kvpairs
move_all size (c ∷ cs) kvpairs = move_all size cs (move_chain size c kvpairs)

pub resize : ℕ → Table → Table
unfolding move_all
resize ns t = record t {
  size = ns;
  kvpairs = move_all ns t.kvpairs (replicate ns []);
  num_el = pos 0;
}

-- The test at the head of `put`.
unfoldable pub grow : Table → Table
unfolding resize ◌*ℤ◌
grow t =
    if ltb_ℤ (t.num_el *ℤ pos t.resize_den) (pos (t.size * t.resize_num))
    then t
    else if t.resize_num == 0
    then t
    else resize (t.size * 2) t

unfoldable pub put : Outside → Str → Str → Table → Done
unfolding grow find assign write mark_file ◌+ℤ◌
put out k v t =
    let grown : Table = grow t in
    let chain : Chain = bucket k grown in
    elim (find k chain) [
      | none ↦
          let w : Written =
            write grown.filename grown.dbfile
              (record { key = k; val = v; positions = []; diff = out.stale_diff }) in
          record {
            code = w.code;
            table = record (place k (chain ++ w.pair ∷ []) grown) {
              num_el = grown.num_el +ℤ pos 1;
              dbfile = w.file;
            };
          }
      | some p ↦
          let w : Written =
            write grown.filename (mark_file grown.dbfile p.positions) (record p { val = v }) in
          record {
            code = w.code;
            table = record (place k (assign w.pair chain) grown) { dbfile = w.file };
          }
    ]

unfoldable pub get : Str → Table → Option Str
unfolding value
get k t = if is_empty k then none else value k (bucket k t)

-- The `writeFile` of a table whose file is open: the thread that rewrites is started.
abbrev start_rewrite : Outside → DbFile → Table → Done
start_rewrite out f t =
    if t.rewriting
    then record { code = pos 0; table = record t { n_rem = 0 } }
    else if out.thread_rc == 0
    then record {
      code = pos 0;
      table = record t {
        rewriting = true;
        swap_file = some f;
        dbfile = if out.swap_opens then some (record { content = []; offset = 0 }) else none;
        n_rem = 0;
      };
    }
    else record {
      code = pos out.thread_rc;
      table = record t { rewriting = false; swap_file = some f; n_rem = 0 };
    }

unfoldable pub write_file : Outside → Table → Done
write_file out t = elim t.dbfile [
  | none ↦ record { code = closed_code t.filename; table = t }
  | some f ↦ start_rewrite out f t
]

-- `kvpairs[loc]->positions`
abbrev pub head_positions : Chain → List ℕ
head_positions [] = []
head_positions (p ∷ c) = p.positions

-- Both branches take the positions of the head of the chain.
pub forget : Str → Table → Option DbFile
unfolding logrm_file mark_file
forget k t =
    let ps = head_positions (bucket k t) in
    if t.rewriting then logrm_file k ps t.dbfile else mark_file t.dbfile ps

pub forget_code : Table → ℤ
unfolding mark_code
forget_code t = if t.rewriting then pos 0 else mark_code t.filename t.dbfile

-- The table once the pair is out of its chain and its records are dealt with.
pub unlinked : Str → Table → Table
unfolding erase forget ◌-ℤ◌
unlinked k t = record (place k (erase k (bucket k t)) t) {
  num_el = t.num_el -ℤ pos 1;
  dbfile = forget k t;
  n_rem = suc t.n_rem;
}

pub remove : Outside → Str → Table → Done
unfolding find unlinked forget_code write_file ◌+ℤ◌ ◌-ℤ◌
remove out k t = elim (find k (bucket k t)) [
  | none ↦ record { code = pos 0 -ℤ pos 1; table = t }
  | some p ↦
      let written : Done = write_file out (unlinked k t) in
      if equal_ℤ (pos (suc t.n_rem)) t.magic_number
      then record { code = forget_code t +ℤ written.code; table = written.table }
      else record { code = forget_code t; table = unlinked k t }
]

pub append : Outside → Str → Str → Table → Done
unfolding find assign write write_append ◌+ℤ◌
append out k aval t =
    let chain : Chain = bucket k t in
    elim (find k chain) [
      | none ↦
          let w : Written =
            write t.filename t.dbfile
              (record { key = k; val = aval; positions = []; diff = out.stale_diff }) in
          record {
            code = w.code;
            table = record (place k (w.pair ∷ chain) t) {
              num_el = t.num_el +ℤ pos 1;
              dbfile = w.file;
            };
          }
      | some p ↦
          let w : Written =
            write_append t.filename t.dbfile (record p { val = p.val ++ b':' ∷ aval }) aval in
          record {
            code = w.code;
            table = record (place k (assign w.pair chain) t) { dbfile = w.file };
          }
    ]

-- The members of a new table, before `readFile`.
pub create : Str → ℕ → ℤ → ℕ → ℕ → Option DbFile → Table
create fname init_size gcnum resize_num resize_den file = record {
  size = init_size;
  kvpairs = replicate init_size [];
  rewriting = false;
  num_el = pos 0;
  dbfile = file;
  swap_file = none;
  filename = fname;
  n_rem = 0;
  magic_number = gcnum;
  resize_num = resize_num;
  resize_den = resize_den;
}
