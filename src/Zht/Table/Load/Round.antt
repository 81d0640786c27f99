-- ===== src/Zht/Table/Load/Round.antt =====
-- One round of the loop of `readFile` (ZHT/src/novoht.cpp).
use matrix_v.Prelude.{
  ◌≡◌, refl, ap, ◌∙◌, Option, none, some, [], ◌∷◌, ◌++◌, arith, Option-cases, inl, inr,
  if◌then◌else◌, Str, length, drop,
}
use matrix_v.Zht.Chain.{Pair, find}
use matrix_v.Zht.File.{
  DbFile, Token, token_of, unread, advance, write, line, mark_file, mark_all, write_end,
}
use matrix_v.Zht.Table.{Table, Outside, bucket, grow, resize, put}
use matrix_v.Zht.Table.Load.{stop, next, is_marked, load_round, token_of-IsSuffix, unread-advance}

drop_whole : (s : Str) → drop (length s) s ≡ []
drop_whole [] = refl
drop_whole (c ∷ s) = drop_whole s

-- A stream that is open and read to its end.
abbrev pub AtEnd : Option DbFile → Type 0
AtEnd o = (g : DbFile) × (o ≡ some g) × (unread g ≡ [])

write-AtEnd : (name : Str) (f : DbFile) (p : Pair) → AtEnd (write name (some f) p).file
unfolding write
write-AtEnd name f p = (
  write_end (line p.key p.val) f,
  refl,
  unfold write_end in (drop_whole (f.content ++ line p.key p.val)),
)

grow-dbfile : (t : Table) → (grow t).dbfile ≡ t.dbfile
unfolding grow resize
grow-dbfile t = ground arith

-- `put` leaves the stream at its end.
pub put-AtEnd :
    (out : Outside) (k v : Str) (f : DbFile) (t : Table)
    → t.dbfile ≡ some f
    → AtEnd (put out k v t).table.dbfile
unfolding put
put-AtEnd out k v f t e = elim (Option-cases (find k (bucket k (grow t)))) [
  | inl new ↦
      rw (new, put, grow-dbfile t, e)
        (write-AtEnd (grow t).filename f
          (record { key = k; val = v; positions = []; diff = out.stale_diff }))
  | inr (r, old) ↦
      rw (old, put, grow-dbfile t, e)
        (write-AtEnd (grow t).filename (unfold mark_file in (mark_all r.positions f))
          (record r { val = v }))
]

module _ (f : DbFile) where
  abbrev second : Token
  second = token_of [] (token_of [] (unread f)).rest

  -- The stream behind the first token, and behind both.
  abbrev pub f1 : DbFile
  f1 = advance f (token_of [] (unread f)).rest

  abbrev pub f2 : DbFile
  f2 = advance f1 (token_of [] (unread f1)).rest

  pub unread-f1 : unread f1 ≡ (token_of [] (unread f)).rest
  unread-f1 = unread-advance f (token_of [] (unread f)).rest (token_of-IsSuffix [] (unread f))

  pub unread-f2 : unread f2 ≡ second.rest
  unread-f2 =
      unread-advance f1 (token_of [] (unread f1)).rest (token_of-IsSuffix [] (unread f1))
      ∙ ap (λ s. (token_of [] s).rest) unread-f1

module _ (out : Outside) (f : DbFile) (t : Table) where
  pub round-none :
      (token_of [] (unread f)).text ≡ none
      → load_round out f t ≡ stop (record t { dbfile = some (f1 f) })
  unfolding load_round
  round-none h = rw (h, load_round) (refl)

  module _ (k : Str) (key : (token_of [] (unread f)).text ≡ some k) where
    pub round-short :
        (token_of [] (unread (f1 f))).text ≡ none
        → load_round out f t ≡ stop (record t { dbfile = some (f2 f) })
    unfolding load_round
    round-short h = rw (key, load_round, h) (refl)

    pub round-next :
        (v : Str)
        → (token_of [] (unread (f1 f))).text ≡ some v
        → load_round out f t
          ≡ next (
              if is_marked k
              then record t { dbfile = some (f2 f) }
              else (put out k v (record t { dbfile = some (f2 f) })).table)
    unfolding load_round
    round-next v val = rw (key, load_round, val) (refl)
