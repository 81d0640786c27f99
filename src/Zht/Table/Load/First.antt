-- ===== src/Zht/Table/Load/First.antt =====
-- What `initialize` and `readFile` (ZHT/src/novoht.cpp) find in a file: its first record.
use matrix_v.Prelude.{
  ℕ, zero, suc, ◌<◌, ◌≡◌, refl, ap, ◌∙◌, subst, Option, none, some, [], arith, Bool-cases,
  Option-cases, inl, inr, if◌then◌else◌, Str, length, str_eq, ℤ,
}
use matrix_v.Zht.File.{DbFile, token_of, unread, advance}
use matrix_v.Zht.Table.{Table, Outside, put, write_file, create}
use matrix_v.Zht.Table.Buckets.{IsValid, view}
use matrix_v.Zht.Table.Resize.{SameMap, replicate-IsPlaced, view-replicate}
use matrix_v.Zht.Table.Places.{Updates}
use matrix_v.Zht.Table.Ops.{put-Updates, write_file-SameMap}
use matrix_v.Zht.Table.Load.{
  is_marked, load_loop, read_file, initialize, first_live, token_of-shorter,
}
use matrix_v.Zht.Table.Load.Round.{
  AtEnd, put-AtEnd, f1, f2, unread-f1, unread-f2, round-none, round-short, round-next,
}

abbrev pub single : Option (Str × Str) → Str → Option Str
single none q = none
single (some (k, v)) q = if str_eq q k then some v else none

-- The loop ended with a well-formed table that holds at most the one record.
record Opened (o : Option (Str × Str)) (r : Option Table) : Type 0 where
  table : Table
  ended : r ≡ some table
  valid : IsValid table
  viewed : (q : Str) → view table.size table.kvpairs q ≡ single o q

-- A table of which nothing is stored yet.
record IsEmpty (t : Table) : Type 0 where
  valid : IsValid t
  viewed : (q : Str) → view t.size t.kvpairs q ≡ none

load_loop-end :
    (out : Outside) (fuel : ℕ) (t : Table)
    → AtEnd t.dbfile
    → 0 < fuel
    → (x : DbFile) × (load_loop out fuel t ≡ some (record t { dbfile = some x }))
unfolding load_loop token_of
load_loop-end out zero t (g, e, h) pos = absurd (omega arith)
load_loop-end out (suc fuel) t (g, e, h) pos =
    let nothing : (token_of [] (unread g)).text ≡ none = ap (λ s. (token_of [] s).text) h in
    (f1 g, rw (e, load_loop, round-none out g t nothing) (refl))

-- The loop ends after the first record that it puts, since the stream is at its end then.
after_put :
    (out : Outside) (k v : Str) (g : DbFile) (fuel : ℕ) (t : Table)
    → IsEmpty t
    → 0 < fuel
    → Opened (some (k, v)) (load_loop out fuel (put out k v (record t { dbfile = some g })).table)
after_put out k v g fuel t w pos =
    let u : Table = record t { dbfile = some g } in
    let set : Updates k (some v) u (put out k v u).table = put-Updates out k v u w.valid in
    let (x, e) = load_loop-end out fuel (put out k v u).table (put-AtEnd out k v g u refl) pos in
    record {
      table = record (put out k v u).table { dbfile = some x };
      ended = e;
      valid = set.valid;
      viewed = λ q. ground (arith, set.viewed q, w.viewed q);
    }

load_loop-Opened :
    (out : Outside) (fuel : ℕ) (f : DbFile) (t : Table)
    → IsEmpty t
    → length (unread f) < fuel
    → Opened (first_live fuel (unread f)) (load_loop out fuel (record t { dbfile = some f }))
unfolding load_loop first_live
load_loop-Opened out zero f t w h = absurd (omega arith)
load_loop-Opened out (suc fuel) f t w h = elim (Option-cases (token_of [] (unread f)).text) [
  | inl nothing ↦
      let u : Table = record t { dbfile = some f } in
      rw (load_loop, round-none out f u nothing, first_live, nothing)
        (record {
          table = record t { dbfile = some (advance f (token_of [] (unread f)).rest) };
          ended = refl;
          valid = w.valid;
          viewed = w.viewed;
        })
  | inr (k, key) ↦ elim (Option-cases (token_of [] (token_of [] (unread f)).rest).text) [
    | inl nothing ↦
        let u : Table = record t { dbfile = some f } in
        rw
          (
            load_loop,
            round-short out f u k key (ap (λ s. (token_of [] s).text) (unread-f1 f) ∙ nothing),
            first_live,
            key,
            nothing,
          )
          (record {
            table = record u { dbfile = some (f2 f) };
            ended = refl;
            valid = w.valid;
            viewed = w.viewed;
          })
    | inr (v, val) ↦
        let u : Table = record t { dbfile = some f } in
        let both : (token_of [] (unread (f1 f))).text ≡ some v =
          ap (λ s. (token_of [] s).text) (unread-f1 f) ∙ val in
        elim (Bool-cases (is_marked k)) [
          | inl old ↦
              rw (load_loop, round-next out f u k key v both, old, first_live, key, val, old)
                (subst
                  (λ s.
                    Opened (first_live fuel s)
                      (load_loop out fuel (record t { dbfile = some (f2 f) })))
                  (unread-f2 f)
                  (load_loop-Opened out fuel (f2 f) t w (
                    omega (
                      arith,
                      token_of-shorter (unread f) k key,
                      token_of-shorter (token_of [] (unread f)).rest v val,
                      ap (λ (s : Str). length s) (unread-f2 f),
                    ))))
          | inr live ↦
              rw (load_loop, round-next out f u k key v both, live, first_live, key, val, live)
                (after_put out k v (f2 f) fuel t w
                  (omega (arith, token_of-shorter (unread f) k key)))
        ]
  ]
]

read_file-Opened :
    (out : Outside) (fuel : ℕ) (f : DbFile) (t : Table)
    → IsEmpty t
    → length (unread f) < fuel
    → Opened (first_live fuel (unread f)) (read_file out fuel (record t { dbfile = some f }))
unfolding read_file
read_file-Opened out fuel f t w h =
    let o : Opened (first_live fuel (unread f))
        (load_loop out fuel (record t { dbfile = some f })) =
      load_loop-Opened out fuel f t w h in
    let same : SameMap o.table (write_file out o.table).table =
      write_file-SameMap out o.table o.valid in
    record {
      table = (write_file out o.table).table;
      ended = rw (read_file, o.ended) (refl);
      valid = same.valid;
      viewed = λ q. same.viewed q ∙ o.viewed q;
    }

-- A table of positive size that is opened on a file with fuel for more rounds than the file has
-- bytes holds the first record of the file that is not marked as removed, and no other, however
-- many follow; it is well formed, and the loop ends.
pub initialize-first :
    (out : Outside) (fuel : ℕ) (fname : Str) (init_size : ℕ) (gcnum : ℤ) (resize_num resize_den : ℕ)
    (content : Str)
    → 0 < init_size
    → length content < fuel
    → (u : Table) × (initialize out fuel fname init_size gcnum resize_num resize_den
          (some (record { content = content; offset = 0 }))
        ≡ some u)
      × IsValid u
      × ((q : Str) → view u.size u.kvpairs q ≡ single (first_live fuel content) q)
unfolding initialize create
initialize-first out fuel fname init_size gcnum resize_num resize_den content pos h =
    let o =
      read_file-Opened out fuel (record { content = content; offset = 0 })
        (create fname init_size gcnum resize_num resize_den none)
        (record { valid = replicate-IsPlaced init_size pos; viewed = view-replicate init_size })
        h in
    (o.table, o.ended, o.valid, o.viewed)
