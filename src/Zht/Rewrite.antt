-- ===== src/Zht/Rewrite.antt =====
-- The thread that rewrites the file of a table: `rewriteFile`, `merge` and `writeFileFG` of NoVoHT
-- (ZHT/src/novoht.cpp), as one run with no other call in between.
pub mod Compact
use matrix_v.Prelude.{
  ℕ, zero, suc, Bool, true, false, not, ◌&&◌, Option, none, some, List, [], ◌∷◌, ◌==◌,
  if◌then◌else◌, Str, codes, str_eq, is_empty, get_or, set, pos_part,
}
use matrix_v.Text.Number.{str_to_num}
use matrix_v.Text.Token.{tokenize}
use matrix_v.Zht.Chain.{Pair, Chain, find, assign}
use matrix_v.Zht.File.{DbFile, line, write_end, read_tab_string, put_byte}
use matrix_v.Zht.Table.{Table, Outside, Done, slot, write_file}

-- A pair that the new file gets.
pub is_kept : Pair → Bool
is_kept p = not (is_empty p.key) && not (is_empty p.val) && not p.diff

-- The new file is written from its start on, so that the stream stands at its end.
pub rewrite_chain : Chain → DbFile → Chain × DbFile
unfolding is_kept write_end
rewrite_chain [] f = ([], f)
rewrite_chain (p ∷ c) f =
    let kept = rewrite_chain c (write_end (line p.key p.val) f) in
    let dropped = rewrite_chain c f in
    if is_kept p
    then (record p { positions = f.offset ∷ [] } ∷ kept.0, kept.1)
    else (p ∷ dropped.0, dropped.1)

pub rewrite_all : List Chain → DbFile → List Chain × DbFile
unfolding rewrite_chain
rewrite_all [] f = ([], f)
rewrite_all (c ∷ cs) f =
    let (c', g) = rewrite_chain c f in let (cs', h) = rewrite_all cs g in (c' ∷ cs', h)

-- What `readTabString` leaves in its buffer.
abbrev buffer_of : Option Str → Str
buffer_of none = []
buffer_of (some s) = s

-- The record at each of the positions is marked, if it is one of the key.
strike : Str → List Str → DbFile → DbFile
unfolding read_tab_string
strike key [] swap = swap
strike key (p ∷ ps) swap =
    let at = pos_part (str_to_num 32 p) in
    let test = read_tab_string (record swap { offset = at }) in
    strike key ps (
      if str_eq (buffer_of test.0) key
      then record { content = put_byte swap.content at b'~'; offset = suc at }
      else test.1)

-- The pair as it is now is written behind the new file.
catch_up : Str → ℕ → List Chain → DbFile → List Chain × DbFile
unfolding find assign write_end
catch_up s size kvpairs swap =
    let i = slot s size in
    let end : DbFile = write_end [] swap in
    elim (find s (get_or kvpairs i [])) [
      | none ↦ (kvpairs, end)
      | some p ↦ (
        set kvpairs i
            (assign (record p { positions = end.offset ∷ []; diff = false }) (get_or kvpairs i [])),
        write_end (line p.key p.val) swap,
      )
    ]

abbrev is_removal : Str → Bool
is_removal [] = false
is_removal (c ∷ s) = c == b'~'

abbrev behind_mark : Str → Str
behind_mark [] = []
behind_mark (c ∷ s) = s

-- `readTabString` on a stream that was opened for reading, or on one that was not, of which `fgetc`
-- gives `EOF` at once.
read_log : Bool → DbFile → Option Str × DbFile
unfolding read_tab_string
read_log true f = read_tab_string f
read_log false f = (none, f)

-- The loop over the log that was kept meanwhile; keys and values are read alike. At most `fuel`
-- rounds.
pub replay : ℕ → Bool → DbFile → ℕ → List Chain → DbFile → List Chain × DbFile
unfolding strike catch_up read_log
replay zero readable log size kvpairs swap = (kvpairs, swap)
replay (suc fuel) readable log size kvpairs swap =
    let buf = read_log readable log in
    elim buf.0 [
      | none ↦ (kvpairs, swap)
      | some s ↦
          let sec = read_log readable buf.1 in
          let moved = catch_up s size kvpairs swap in
          elim (is_removal s) [
            | true ↦
                replay fuel readable sec.1 size kvpairs
                  (strike (behind_mark s) (tokenize (codes ",") (buffer_of sec.0)) swap)
            | false ↦ replay fuel readable buf.1 size moved.0 moved.1
          ]
    ]

-- `swapFile` is not used again before `writeFile` sets it.
abbrev finish : Table → List Chain × DbFile → Table
finish t (kvpairs, swap) = record t {
  kvpairs = kvpairs;
  dbfile = some swap;
  swap_file = none;
  rewriting = false;
}

-- `merge`. `writeFile` has opened the log with the mode `w`, so that it cannot be read.
pub merge : ℕ → DbFile → DbFile → Table → Table
unfolding replay
merge fuel log swap t =
    finish t (replay fuel false (record log { offset = 0 }) t.size t.kvpairs swap)

-- `rewriteFile`, on the table that `writeFile` has left; `none` is a log that could not be opened, on
-- which the source goes wrong.
pub rewrite_file : ℕ → Table → Table
unfolding rewrite_all merge
rewrite_file fuel t = elim t.dbfile [
  | none ↦ t
  | some log ↦
      let (kvpairs, swap) = rewrite_all t.kvpairs (record { content = []; offset = 0 }) in
      merge fuel log swap (record t { kvpairs = kvpairs })
]

-- `writeFileFG` waits for the thread, where one was started.
pub write_file_fg : Outside → ℕ → Table → Done
unfolding write_file rewrite_file
write_file_fg out fuel t =
    let d = write_file out t in
    record d { table = if d.table.rewriting then rewrite_file fuel d.table else d.table }
