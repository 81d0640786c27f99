-- ===== src/Tests/Table.antt =====
-- The table of a server (Zht.Table, Zht.Rewrite).
use matrix_v.Prelude.{
  true, ◌+◌, ◌≡◌, refl, none, some, List, [], ◌∷◌, ◌++◌, Str, codes, false, arith, pos, ◌*ℤ◌,
}
use matrix_v.Zht.Chain.{find, fnv_hash}
use matrix_v.Zht.File.{mark_code, write, write_end}
use matrix_v.Zht.Table.{Table, Outside, put, grow, resize}
use matrix_v.Zht.Table.Buckets.{IsValid, view}
use matrix_v.Zht.Table.Resize.{SameMap, resize-SameMap, replicate-IsPlaced, view-replicate}
use matrix_v.Zht.Table.Ops.{put-Updates}
use matrix_v.Zht.Table.Run
use matrix_v.Zht.Table.Run.{Call, Map, run, run_map, Holds, run-Holds}
use matrix_v.Zht.Table.Load.{initialize, first_live}
use matrix_v.Zht.Table.Load.First.{single, initialize-first}
use matrix_v.Zht.Table.Pairs.{pairs}
use matrix_v.Zht.Table.Count.{put-num_el}
use matrix_v.Zht.Rewrite.{write_file_fg}
use matrix_v.Zht.Rewrite.Compact.{IsCompact, write_file_fg-IsCompact}

abbrev outside : Outside
outside = record { thread_rc = 0; swap_opens = true; stale_diff = false }

-- Two buckets, on an empty file; the table grows from one entry on.
abbrev pub blank_table : Table
blank_table = record {
  size = 2;
  kvpairs = [] ∷ [] ∷ [];
  rewriting = false;
  num_el = pos 0;
  dbfile = some (record { content = []; offset = 0 });
  swap_file = none;
  filename = codes "db";
  n_rem = 0;
  magic_number = pos 1;
  resize_num = 1;
  resize_den = 2;
}

pub blank_table-IsValid : IsValid blank_table
blank_table-IsValid = replicate-IsPlaced 2 (omega arith)

pub blank_table_view : (q : Str) → view 2 ([] ∷ [] ∷ []) q ≡ none
blank_table_view q = view-replicate 2 q

-- The table with one entry.
abbrev filled : Table
filled = (put outside (codes "k") (codes "v") blank_table).table

filled-IsValid : IsValid filled
filled-IsValid = (put-Updates outside (codes "k") (codes "v") blank_table blank_table-IsValid).valid

resize-SameMap_example : SameMap filled (resize 5 filled)
resize-SameMap_example = resize-SameMap 5 filled (omega arith) filled-IsValid

put-num_el_example :
    ((put outside (codes "b") (codes "w") filled).table.num_el ≡ pos 1)
    × (pairs (put outside (codes "b") (codes "w") filled).table.kvpairs ≡ pairs filled.kvpairs + 1)
unfolding put grow ◌*ℤ◌ find fnv_hash
put-num_el_example =
    put-num_el outside (codes "b") (codes "w") filled filled-IsValid (refl, λ e. cc) refl

-- A new entry makes the table grow, the next call removes it, and the file is rewritten.
abbrev calls : List Call
calls =
    Run.put outside (codes "k") (codes "v")
    ∷ Run.append outside (codes "k") (codes "w")
    ∷ Run.get (codes "k")
    ∷ Run.remove outside (codes "k")
    ∷ Run.get (codes "k")
    ∷ []

abbrev empty_map : Map
empty_map q = none

run-Holds_example :
    ((run calls blank_table).0 ≡ (run_map calls empty_map).0)
    × Holds (run_map calls empty_map).1 (run calls blank_table).1
unfolding mark_code
run-Holds_example =
    run-Holds calls empty_map blank_table (tt, (tt, ((λ e. cc), ((refl, refl), ((λ e. cc), tt)))))
      (record { valid = blank_table-IsValid; opened = refl; reads = blank_table_view })

-- A marked record and two that are not.
abbrev sample_file : Str
sample_file =
    codes "~x"
    ++ 9 ∷ codes "1"
    ++ 9 ∷ codes "a"
    ++ 9 ∷ codes "2"
    ++ 9 ∷ codes "b"
    ++ 9 ∷ codes "3"
    ++ 9 ∷ []

initialize-first_example :
    (u : Table) × (initialize outside 20
        (codes "db")
        2
        (pos 1)
        1
        2
        (some (record { content = sample_file; offset = 0 }))
      ≡ some u)
    × IsValid u
    × ((q : Str) → view u.size u.kvpairs q ≡ single (first_live 20 sample_file) q)
initialize-first_example =
    initialize-first outside 20 (codes "db") 2 (pos 1) 1 2 sample_file (omega arith) (omega arith)

write_file_fg-IsCompact_example : IsCompact filled (write_file_fg outside 5 filled)
unfolding put grow ◌*ℤ◌ find write write_end fnv_hash
write_file_fg-IsCompact_example =
    write_file_fg-IsCompact outside 5
      (record { content = codes "k" ++ 9 ∷ codes "v" ++ 9 ∷ []; offset = 4 }) filled filled-IsValid
      refl refl refl refl
