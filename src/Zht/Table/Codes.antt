-- ===== src/Zht/Table/Codes.antt =====
-- What the operations of NoVoHT (ZHT/src/novoht.cpp) return.
use matrix_v.Prelude.{
  ℕ, suc, ◌≡◌, refl, Option, none, some, arith, true, equal_ℤ, Bool-cases, inl, inr, Option-cases,
  Str, ℤ, pos, ◌-ℤ◌, List, [], ◌∷◌, ◌++◌,
}
use matrix_v.Zht.Chain.{Pair, find}
use matrix_v.Zht.File.{DbFile, write, write_append, mark_code, mark_file, logrm_file}
use matrix_v.Zht.Table.{
  Table, Outside, Done, head_positions, bucket, grow, resize, put, append, remove, write_file,
  unlinked, forget, forget_code,
}

-- The table has no name for a file, or its file is open.
abbrev pub IsOpen : Table → Type 0
IsOpen t = mark_code t.filename t.dbfile ≡ pos 0

write-code : (name : Str) (f : Option DbFile) (p : Pair) → (write name f p).code ≡ mark_code name f
unfolding write mark_code
write-code name none p = refl
write-code name (some f) p = refl

write-open :
    (name : Str) (f : Option DbFile) (p : Pair)
    → mark_code name (write name f p).file ≡ mark_code name f
unfolding write mark_code
write-open name none p = refl
write-open name (some f) p = refl

write_append-code :
    (name : Str) (f : Option DbFile) (p : Pair) (s : Str)
    → (write_append name f p s).code ≡ mark_code name f
unfolding write_append mark_code
write_append-code name none p s = refl
write_append-code name (some f) p s = refl

write_append-open :
    (name : Str) (f : Option DbFile) (p : Pair) (s : Str)
    → mark_code name (write_append name f p s).file ≡ mark_code name f
unfolding write_append mark_code
write_append-open name none p s = refl
write_append-open name (some f) p s = refl

mark-open :
    (name : Str) (f : Option DbFile) (ps : List ℕ)
    → mark_code name (mark_file f ps) ≡ mark_code name f
unfolding mark_file mark_code
mark-open name none ps = refl
mark-open name (some f) ps = refl

logrm-open :
    (name k : Str) (f : Option DbFile) (ps : List ℕ)
    → mark_code name (logrm_file k ps f) ≡ mark_code name f
unfolding logrm_file mark_code
logrm-open name k none ps = refl
logrm-open name k (some f) ps = refl

grow-open :
    (t : Table) → mark_code (grow t).filename (grow t).dbfile ≡ mark_code t.filename t.dbfile
unfolding grow resize
grow-open t = ground arith

-- A call returns 0, or `code`, and leaves an open table open.
pub record Returns (code : ℤ) (d : Done) : Type 0 where
  pub returned : d.code ≡ code
  pub open_after : IsOpen d.table

pub put-Returns :
    (out : Outside) (k v : Str) (t : Table) → IsOpen t → Returns (pos 0) (put out k v t)
unfolding put
put-Returns out k v t h = elim (Option-cases (find k (bucket k (grow t)))) [
  | inl new ↦
      let p : Pair = record { key = k; val = v; positions = []; diff = out.stale_diff } in
      rw (new, put)
        (record {
          returned = ground (arith, write-code (grow t).filename (grow t).dbfile p, grow-open t);
          open_after = ground (arith, write-open (grow t).filename (grow t).dbfile p, grow-open t);
        })
  | inr (r, old) ↦
      let p : Pair = record r { val = v } in
      let f : Option DbFile = mark_file (grow t).dbfile r.positions in
      rw (old, put)
        (record {
          returned = ground (
            arith,
            write-code (grow t).filename f p,
            grow-open t,
            mark-open (grow t).filename (grow t).dbfile r.positions,
          );
          open_after = ground (
            arith,
            write-open (grow t).filename f p,
            grow-open t,
            mark-open (grow t).filename (grow t).dbfile r.positions,
          );
        })
]

pub append-Returns :
    (out : Outside) (k a : Str) (t : Table) → IsOpen t → Returns (pos 0) (append out k a t)
unfolding append
append-Returns out k a t h = elim (Option-cases (find k (bucket k t))) [
  | inl new ↦
      let p : Pair = record { key = k; val = a; positions = []; diff = out.stale_diff } in
      rw (new, append)
        (record {
          returned = ground (arith, write-code t.filename t.dbfile p);
          open_after = ground (arith, write-open t.filename t.dbfile p);
        })
  | inr (r, old) ↦
      let p : Pair = record r { val = r.val ++ b':' ∷ a } in
      rw (old, append)
        (record {
          returned = ground (arith, write_append-code t.filename t.dbfile p a);
          open_after = ground (arith, write_append-open t.filename t.dbfile p a);
        })
]

forget_code-open : (t : Table) → IsOpen t → forget_code t ≡ pos 0
unfolding forget_code
forget_code-open t h = ground arith

unlinked-IsOpen : (k : Str) (t : Table) → IsOpen t → IsOpen (unlinked k t)
unfolding unlinked forget
unlinked-IsOpen k t h = ground (
  arith,
  logrm-open t.filename k t.dbfile (head_positions (bucket k t)),
  mark-open t.filename t.dbfile (head_positions (bucket k t)),
)

write_file-Returns :
    (out : Outside) (t : Table)
    → out.thread_rc ≡ 0
    → out.swap_opens ≡ true
    → IsOpen t
    → Returns (pos 0) (write_file out t)
unfolding write_file mark_code
write_file-Returns out t rc fine h = elim (Option-cases t.dbfile) [
  | inl closed ↦ rw (closed, write_file) (record { returned = ground arith; open_after = h })
  | inr (f, opened) ↦ elim (Bool-cases t.rewriting) [
    | inl busy ↦
        rw (opened, write_file, busy) (record { returned = refl; open_after = ground arith })
    | inr free ↦
        rw (opened, write_file, free, rc, fine)
          (record { returned = refl; open_after = ground arith })
  ]
]

-- A removal returns 0 where the key is there and -1 where it is not.
pub remove-Returns :
    (out : Outside) (k : Str) (t : Table)
    → out.thread_rc ≡ 0
    → out.swap_opens ≡ true
    → IsOpen t
    → Returns
        (elim (find k (bucket k t)) [ none ↦ pos 0 -ℤ pos 1 | some p ↦ pos 0 ])
        (remove out k t)
unfolding remove
remove-Returns out k t rc fine h = elim (Option-cases (find k (bucket k t))) [
  | inl missing ↦ rw (missing, remove) (record { returned = refl; open_after = h })
  | inr (r, there) ↦
      let w : Returns (pos 0) (write_file out (unlinked k t)) =
        write_file-Returns out (unlinked k t) rc fine (unlinked-IsOpen k t h) in
      elim (Bool-cases (equal_ℤ (pos (suc t.n_rem)) t.magic_number)) [
        | inl due ↦
            rw (there, remove, due)
              (record {
                returned = rw (forget_code-open t h, w.returned) (refl);
                open_after = w.open_after;
              })
        | inr more ↦
            rw (there, remove, more)
              (record { returned = forget_code-open t h; open_after = unlinked-IsOpen k t h })
      ]
]
