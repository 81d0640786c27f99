-- ===== src/Zht/Table/Load.antt =====
-- `NoVoHT::initialize` and `readFile` (ZHT/src/novoht.cpp): a table that is opened on a file.
pub mod Round
pub mod First
use matrix_v.Prelude.{
  ℕ, zero, suc, ◌+◌, ◌-◌, ◌<◌, ◌≤◌, ◌≡◌, refl, sym, ap, ◌∙◌, subst, Option, none, some, List, [],
  ◌∷◌, ◌++◌, arith, ◌==◌, leb, Bool, true, false, Bool-cases, Option-cases, inl, inr, if◌then◌else◌,
  Str, length, drop, take, ℤ, take-append-drop, length-append, str_eq, append_assoc,
}
use matrix_v.Zht.Chain.{Pair, find}
use matrix_v.Zht.File.{
  DbFile, Token, token_of, read_tab_string, unread, advance, write, line, mark_file, mark_all,
  write_end,
}
use matrix_v.Zht.Table.{Table, Outside, Done, put, write_file, create}
use matrix_v.Zht.Table.Buckets.{IsValid, view}
use matrix_v.Zht.Table.Places.{Updates}
use matrix_v.Zht.Table.Ops.{put-Updates}

-- `key[0] == '~'`
abbrev pub is_marked : Str → Bool
is_marked [] = false
is_marked (c ∷ s) = c == b'~'

pub data Load : Type 0 where
  stop next : Table → Load

-- One round of the loop of `readFile`. `put` writes to the file that is being read.
pub load_round : Outside → DbFile → Table → Load
unfolding read_tab_string
load_round out f t =
    let key = read_tab_string f in
    let val = read_tab_string key.1 in
    let read : Table = record t { dbfile = some val.1 } in
    elim key.0 [
      | none ↦ stop (record t { dbfile = some key.1 })
      | some k ↦ elim val.0 [
        | none ↦ stop read
        | some v ↦ next (if is_marked k then read else (put out k v read).table)
      ]
    ]

pub load_loop : Outside → ℕ → Table → Option Table
load_loop out zero t = none
load_loop out (suc fuel) t = elim t.dbfile [
  | none ↦ some t
  | some f ↦ elim (load_round out f t) [ stop u ↦ some u | next u ↦ load_loop out fuel u ]
]

-- `none`: the fuel ran out.
pub read_file : Outside → ℕ → Table → Option Table
unfolding write_file
read_file out fuel t = elim t.dbfile [
  | none ↦ some t
  | some f ↦ elim (load_loop out fuel t) [ none ↦ none | some u ↦ some (write_file out u).table ]
]

-- `initialize`, with the file that `fopen` gave.
pub initialize : Outside → ℕ → Str → ℕ → ℤ → ℕ → ℕ → Option DbFile → Option Table
unfolding read_file
initialize out fuel fname init_size gcnum resize_num resize_den file =
    read_file out fuel (create fname init_size gcnum resize_num resize_den file)

-- The first record of a text that is not marked.
pub first_live : ℕ → Str → Option (Str × Str)
unfolding token_of
first_live zero s = none
first_live (suc n) s =
    let key : Token = token_of [] s in
    let val : Token = token_of [] key.rest in
    elim key.text [
      | none ↦ none
      | some k ↦ elim val.text [
        | none ↦ none
        | some v ↦ elim (is_marked k) [ true ↦ first_live n val.rest | false ↦ some (k, v) ]
      ]
    ]

abbrev pub IsSuffix : Str → Str → Type 0
IsSuffix rest s = (before : Str) × (s ≡ before ++ rest)

pub token_of-IsSuffix : (buffer s : Str) → IsSuffix (token_of buffer s).rest s
unfolding token_of
token_of-IsSuffix buffer [] = ([], refl)
token_of-IsSuffix buffer (t ∷ s) =
    let later : IsSuffix (token_of (buffer ++ t ∷ []) s).rest s =
      token_of-IsSuffix (buffer ++ t ∷ []) s in
    elim (Bool-cases (t == 255)) [
      | inl last ↦ rw last (t ∷ [], refl)
      | inr byte ↦ elim (Bool-cases (leb 300 (length buffer))) [
        | inl full ↦ rw (byte, full) (t ∷ [], refl)
        | inr room ↦ elim (Bool-cases (t == 9)) [
          | inl tab ↦ rw (byte, room, tab) (t ∷ [], refl)
          | inr letter ↦ rw (byte, room, letter) (t ∷ later.0, ap (λ x. t ∷ x) later.1)
        ]
      ]
    ]

-- A token takes a byte or more.
pub token_of-shorter :
    (s k : Str) → (token_of [] s).text ≡ some k → length (token_of [] s).rest < length s
unfolding token_of
token_of-shorter [] k h = cc
token_of-shorter (t ∷ s) k h =
    let later : IsSuffix (token_of (t ∷ []) s).rest s = token_of-IsSuffix (t ∷ []) s in
    ground
      (arith, ap (λ (x : Str). length x) later.1, length-append later.0 (token_of (t ∷ []) s).rest)

drop-front : (before rest : Str) → drop (length before) (before ++ rest) ≡ rest
drop-front [] rest = refl
drop-front (c ∷ before) rest = drop-front before rest

-- What is not read yet after a token is the rest that the token left.
pub unread-advance :
    (f : DbFile) (rest : Str) → IsSuffix rest (unread f) → unread (advance f rest) ≡ rest
unread-advance f rest (before, e) =
    let front : Str = take f.offset f.content ++ before in
    let whole : f.content ≡ front ++ rest =
      sym (take-append-drop f.offset f.content)
      ∙ ap (λ x. take f.offset f.content ++ x) e
      ∙ sym (append_assoc (take f.offset f.content) before rest) in
    let count : length f.content - length rest ≡ length front =
      omega (arith, ap (λ (x : Str). length x) whole, length-append front rest) in
    ap (λ n. drop n f.content) count ∙ ap (λ x. drop (length front) x) whole ∙ drop-front front rest
