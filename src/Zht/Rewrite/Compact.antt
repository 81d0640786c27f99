-- ===== src/Zht/Rewrite/Compact.antt =====
-- A file that was rewritten with no other call in between: `writeFileFG` of NoVoHT
-- (ZHT/src/novoht.cpp).
use matrix_v.Prelude.{
  ℕ, zero, suc, ◌≡◌, refl, sym, ap, subst, ◌∙◌, Bool, true, false, c_str, is_empty, not, ◌&&◌,
  Bool-cases, inl, inr, none, some, List, [], ◌∷◌, ◌++◌, append-nil, append_assoc, arith,
  if◌then◌else◌, Str, length, get_or, pos,
}
use matrix_v.Zht.Chain.{Pair, Chain, value, count}
use matrix_v.Zht.File.{DbFile, line, write_end}
use matrix_v.Zht.Table.{Table, Outside, Done, slot, write_file}
use matrix_v.Zht.Table.Buckets.{IsValid}
use matrix_v.Zht.Table.Resize.{SameMap}
use matrix_v.Zht.Rewrite.{
  is_kept, read_log, rewrite_chain, rewrite_all, replay, merge, rewrite_file, write_file_fg,
}

-- The line of a pair, key and value each with a tab behind it; none if one of them is empty or
-- `diff` is set.
abbrev pub pair_line : Str → Str → Bool → Str
pair_line [] val diff = []
pair_line (c ∷ key) [] diff = []
pair_line (c ∷ key) (d ∷ val) true = []
pair_line (c ∷ key) (d ∷ val) false = c_str (c ∷ key) ++ 9 ∷ c_str (d ∷ val) ++ 9 ∷ []

-- The lines of the pairs, bucket by bucket.
abbrev pub chain_lines : Chain → Str
chain_lines [] = []
chain_lines (p ∷ c) = pair_line p.key p.val p.diff ++ chain_lines c

abbrev pub lines : List Chain → Str
lines [] = []
lines (c ∷ cs) = chain_lines c ++ lines cs

-- The pairs keep their keys and values.
record SameChain (c d : Chain) : Type 0 where
  counted : (q : Str) → count q d ≡ count q c
  valued : (q : Str) → value q d ≡ value q c

rewrite_chain-SameChain : (c : Chain) (f : DbFile) → SameChain c (rewrite_chain c f).0
unfolding rewrite_chain count value
rewrite_chain-SameChain [] f = record { counted = λ q. refl; valued = λ q. refl }
rewrite_chain-SameChain (p ∷ c) f =
    let kept = rewrite_chain-SameChain c (write_end (line p.key p.val) f) in
    let dropped = rewrite_chain-SameChain c f in
    record {
      counted = λ q. ground (arith, kept.counted q, dropped.counted q);
      valued = λ q. ground (arith, kept.valued q, dropped.valued q);
    }

pair_line-kept :
    (p : Pair) → (if is_kept p then line p.key p.val else []) ≡ pair_line p.key p.val p.diff
unfolding is_kept
pair_line-kept p = kept_line p.key p.val p.diff
  where
    kept_line :
        (key val : Str) (diff : Bool)
        → (if not (is_empty key) && not (is_empty val) && not diff then line key val else [])
          ≡ pair_line key val diff
    kept_line [] val diff = refl
    kept_line (c ∷ key) [] diff = refl
    kept_line (c ∷ key) (d ∷ val) true = refl
    kept_line (c ∷ key) (d ∷ val) false = refl

rewrite_chain-content :
    (c : Chain) (f : DbFile) → (rewrite_chain c f).1.content ≡ f.content ++ chain_lines c
unfolding rewrite_chain
rewrite_chain-content [] f = rw append-nil
rewrite_chain-content (p ∷ c) f = elim (Bool-cases (is_kept p)) [
  | inl kept ↦
      rw (sym (pair_line-kept p), kept)
        (rewrite_chain-content c (write_end (line p.key p.val) f)
          ∙ append_assoc f.content (line p.key p.val) (chain_lines c))
  | inr dropped ↦ rw (sym (pair_line-kept p), dropped) (rewrite_chain-content c f)
]

rewrite_all-SameChain :
    (cs : List Chain) (f : DbFile) (i : ℕ)
    → SameChain (get_or cs i []) (get_or (rewrite_all cs f).0 i [])
unfolding rewrite_all
rewrite_all-SameChain [] f i = record { counted = λ q. refl; valued = λ q. refl }
rewrite_all-SameChain (c ∷ cs) f zero = rewrite_chain-SameChain c f
rewrite_all-SameChain (c ∷ cs) f (suc i) = rewrite_all-SameChain cs (rewrite_chain c f).1 i

length-rewrite_all : (cs : List Chain) (f : DbFile) → length (rewrite_all cs f).0 ≡ length cs
unfolding rewrite_all
length-rewrite_all [] f = refl
length-rewrite_all (c ∷ cs) f = ap suc (length-rewrite_all cs (rewrite_chain c f).1)

rewrite_all-content :
    (cs : List Chain) (f : DbFile) → (rewrite_all cs f).1.content ≡ f.content ++ lines cs
unfolding rewrite_all
rewrite_all-content [] f = rw append-nil
rewrite_all-content (c ∷ cs) f =
    rewrite_all-content cs (rewrite_chain c f).1
    ∙ ap (λ x. x ++ lines cs) (rewrite_chain-content c f)
    ∙ append_assoc f.content (chain_lines c) (lines cs)

abbrev blank : DbFile
blank = record { content = []; offset = 0 }

-- Nothing is replayed from a log that cannot be read.
replay-unread :
    (fuel size : ℕ) (log : DbFile) (kvpairs : List Chain) (swap : DbFile)
    → replay fuel false log size kvpairs swap ≡ (kvpairs, swap)
unfolding replay read_log
replay-unread zero size log kvpairs swap = refl
replay-unread (suc fuel) size log kvpairs swap = refl

-- What a finished rewrite has made of a table.
pub record IsCompact (t : Table) (d : Done) : Type 0 where
  pub code : d.code ≡ pos 0
  pub same : SameMap t d.table
  pub finished : d.table.rewriting ≡ false
  pub file : DbFile
  pub opened : d.table.dbfile ≡ some file
  pub content : file.content ≡ lines t.kvpairs

abbrev started : DbFile → Table → Table
started f t = record t { rewriting = true; swap_file = some f; dbfile = some blank; n_rem = 0 }

write_file-started :
    (out : Outside) (f : DbFile) (t : Table)
    → t.dbfile ≡ some f
    → t.rewriting ≡ false
    → out.thread_rc ≡ 0
    → out.swap_opens ≡ true
    → write_file out t ≡ record { code = pos 0; table = started f t }
unfolding write_file
write_file-started out f t opened free rc fine = ground arith

abbrev compacted : DbFile → Table → Table
compacted f t = record (started f t) {
  kvpairs = (rewrite_all t.kvpairs blank).0;
  dbfile = some (rewrite_all t.kvpairs blank).1;
  swap_file = none;
  rewriting = false;
}

rewrite_file-started :
    (fuel : ℕ) (f : DbFile) (t : Table) → rewrite_file fuel (started f t) ≡ compacted f t
unfolding rewrite_file merge
rewrite_file-started fuel f t = rw replay-unread (refl)

write_file_fg-compacted :
    (out : Outside) (fuel : ℕ) (f : DbFile) (t : Table)
    → write_file out t ≡ record { code = pos 0; table = started f t }
    → write_file_fg out fuel t ≡ record { code = pos 0; table = compacted f t }
unfolding write_file_fg
write_file_fg-compacted out fuel f t e =
    rw (write_file_fg, e)
      (ap (λ (u : Table). record { code = pos 0; table = u }) (rewrite_file-started fuel f t))

-- A rewrite of an open file that meets no other call, and no rewrite under way, and that gets its
-- thread and its log, returns 0, keeps the map of a well-formed table, and leaves a file that
-- holds exactly one line for each pair whose key and value are not empty and whose `diff` is not
-- set: the key and the value, up to their first zero bytes, each with a tab behind it.
pub write_file_fg-IsCompact :
    (out : Outside) (fuel : ℕ) (f : DbFile) (t : Table)
    → IsValid t
    → t.dbfile ≡ some f
    → t.rewriting ≡ false
    → out.thread_rc ≡ 0
    → out.swap_opens ≡ true
    → IsCompact t (write_file_fg out fuel t)
write_file_fg-IsCompact out fuel f t w opened free rc fine =
    subst (IsCompact t)
      (sym (write_file_fg-compacted out fuel f t (write_file-started out f t opened free rc fine)))
      (record {
        code = refl;
        same = record {
          valid = record {
            roomy = w.roomy;
            width = length-rewrite_all t.kvpairs blank ∙ w.width;
            counts = λ q i. rw ((rewrite_all-SameChain t.kvpairs blank i).counted q) (w.counts q i);
          };
          viewed = λ q. (rewrite_all-SameChain t.kvpairs blank (slot q t.size)).valued q;
        };
        finished = refl;
        file = (rewrite_all t.kvpairs blank).1;
        opened = refl;
        content = rewrite_all-content t.kvpairs blank;
      })
