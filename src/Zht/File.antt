-- ===== src/Zht/File.antt =====
-- The file behind a table: `write`, `writeAppend`, `logrm`, `mark` and `readTabString` of NoVoHT
-- (ZHT/src/novoht.cpp). A stream is the bytes of its file with an offset; `none` is a file that is
-- not open.
use matrix_v.Prelude.{
  ℕ, zero, suc, ◌-◌, Option, none, some, List, [], ◌∷◌, ◌++◌, ◌≡◌, refl, ◌==◌, leb, if◌then◌else◌,
  Str, codes, c_str, is_empty, length, drop, ℤ, pos, negsuc,
}
use matrix_v.Text.Number.{num_to_str}
use matrix_v.Zht.Chain.{Pair}

pub record DbFile : Type 0 where
  pub content : Str
  pub offset : ℕ

-- `fseek` to the end and a write there.
unfoldable pub write_end : Str → DbFile → DbFile
write_end s f =
    let content : Str = f.content ++ s in record { content = content; offset = length content }

-- `%s\t%s\t`
abbrev pub line : Str → Str → Str
line k v = c_str k ++ 9 ∷ c_str v ++ 9 ∷ []

-- What a call on a stream that is not open returns.
abbrev pub closed_code : Str → ℤ
closed_code filename = if is_empty filename then pos 0 else negsuc 1

pub record Written : Type 0 where
  pub code : ℤ
  pub pair : Pair
  pub file : Option DbFile

unfoldable pub write : Str → Option DbFile → Pair → Written
unfolding write_end
write filename none p = record { code = closed_code filename; pair = p; file = none }
write filename (some f) p = record {
  code = pos 0;
  pair = record p { positions = length f.content ∷ [] };
  file = some (write_end (line p.key p.val) f);
}

unfoldable pub write_append : Str → Option DbFile → Pair → Str → Written
unfolding write_end
write_append filename none p s = record { code = closed_code filename; pair = p; file = none }
write_append filename (some f) p s = record {
  code = pos 0;
  pair = record p { positions = length f.content ∷ p.positions };
  file = some (write_end (line p.key s) f);
}

-- A byte is written over the one at an offset; a gap behind the end is filled with zeros.
pub put_byte : Str → ℕ → ℕ → Str
put_byte [] zero c = c ∷ []
put_byte [] (suc i) c = 0 ∷ put_byte [] i c
put_byte (x ∷ s) zero c = c ∷ s
put_byte (x ∷ s) (suc i) c = x ∷ put_byte s i c

pub mark_all : List ℕ → DbFile → DbFile
mark_all [] f = f
mark_all (p ∷ ps) f = mark_all ps (record { content = put_byte f.content p b'~'; offset = suc p })

unfoldable pub mark_code : Str → Option DbFile → ℤ
mark_code filename none = closed_code filename
mark_code filename (some f) = pos 0

unfoldable pub mark_file : Option DbFile → List ℕ → Option DbFile
unfolding mark_all
mark_file none ps = none
mark_file (some f) ps = some (mark_all ps f)

position_list : List ℕ → Str
position_list [] = []
position_list (p ∷ ps) = num_to_str (pos p) ++ b',' ∷ position_list ps

-- `logrm` is called only while a file is open.
unfoldable pub logrm_file : Str → List ℕ → Option DbFile → Option DbFile
unfolding write_end position_list
logrm_file key ps none = none
logrm_file key ps (some f) = some (write_end (b'~' ∷ c_str key ++ 9 ∷ position_list ps ++ 9 ∷ []) f)

-- What `readTabString` found, and the rest of the file.
pub record Token : Type 0 where
  pub text : Option Str
  pub rest : Str

abbrev ended : Str → Option Str
ended buffer = if is_empty buffer then none else some (c_str buffer)

-- `t` is a `char`, so the byte 255 is taken for the end of the file. The byte that finds the buffer
-- full is read and lost.
unfoldable pub token_of : Str → Str → Token
token_of buffer [] = record { text = ended buffer; rest = [] }
token_of buffer (t ∷ s) =
    let longer : Token = token_of (buffer ++ t ∷ []) s in
    if t == 255
    then record { text = ended buffer; rest = s }
    else if leb 300 (length buffer)
    then record { text = ended buffer; rest = s }
    else if t == 9
    then record { text = some (c_str buffer); rest = s }
    else longer

abbrev pub unread : DbFile → Str
unread f = drop f.offset f.content

-- The offset behind what was read.
abbrev pub advance : DbFile → Str → DbFile
advance f rest = record f { offset = length f.content - length rest }

unfoldable pub read_tab_string : DbFile → Option Str × DbFile
unfolding token_of
read_tab_string f = let t : Token = token_of [] (unread f) in (t.text, advance f t.rest)

reads :
    token_of [] (codes "ab" ++ 9 ∷ codes "c")
    ≡ record { text = some (codes "ab"); rest = codes "c" }
unfolding token_of
reads = refl
