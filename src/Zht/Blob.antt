-- ===== src/Zht/Blob.antt =====
-- Messages that cross a socket in blobs (ZHT/src/bigdata_transfer.h, ZHT/src/bigdata_transfer.cpp):
-- `Blob`, the splitting of a message by `BdSendBase`, and `BdRecvBase`, which puts messages together
-- again. `sendAck` and `recAck` do nothing. Texts hold no zero byte.
pub mod Number
pub mod Header
pub mod Subset
pub mod Pieces
pub mod Sets
pub mod Arrive
pub mod Message
pub mod Deliver
use matrix_v.Prelude.{
  ℕ, zero, suc, ◌+◌, ◌-◌, ◌*◌, ◌/◌, ◌%◌, ◌^◌, Option, none, some, List, [], ◌∷◌, ◌++◌, map, ltb,
  ◌==◌, leb, ◌&&◌, ◌||◌, if◌then◌else◌, Str, length, take, drop,
}
use matrix_v.Text.Number.{decimal}
use matrix_v.Dag.OrderedMap.{find, assign, erase}

pub record Blob : Type 0 where
  pub uuid : ℕ
  pub seq_num : ℕ
  pub total : ℕ
  pub size : ℕ
  pub value : Str

-- The lowest `w` decimal digits.
pub digits : ℕ → ℕ → Str
digits zero n = []
digits (suc w) n = digits w (n / 10) ++ (48 + n % 10) ∷ []

-- `%020llu`, `%07lu` and `%04lu`: at least `w` digits, with zeros in front.
pub format : ℕ → ℕ → Str
unfolding digits
format w n = if ltb n (10 ^ w) then digits w n else decimal n

-- The digits up to the first byte that is none.
pub read_digits : Str → ℕ → ℕ
read_digits [] acc = acc
read_digits (c ∷ s) acc =
    let rest = read_digits s (acc * 10 + (c - 48)) in if leb 48 c && leb c 57 then rest else acc

abbrev saturated : ℕ → ℕ
saturated n = if ltb n (2 ^ 64) then n else 2 ^ 64 - 1

abbrev negated : ℕ → ℕ
negated n = if ltb n (2 ^ 64) then (2 ^ 64 - n) % 2 ^ 64 else 2 ^ 64 - 1

-- `strtoull` and `strtoul` in base 10: spaces and a sign are skipped, and a number above the range
-- gives the largest one.
pub to_unsigned : Str → ℕ
unfolding read_digits
to_unsigned [] = 0
to_unsigned (c ∷ s) =
    let rest = to_unsigned s in
    if c == 32 || (leb 9 c && leb c 13)
    then rest
    else if c == b'-'
    then negated (read_digits s 0)
    else if c == b'+'
    then saturated (read_digits s 0)
    else saturated (read_digits (c ∷ s) 0)

abbrev pub header_len : ℕ
header_len = 20 + 7 * 2 + 4

pub to_string : Blob → Str
unfolding format
to_string b =
    format 20 b.uuid ++ format 7 b.seq_num ++ format 7 b.total ++ format 4 b.size ++ b.value

-- `none` is the exception of `substr` on a text that is shorter than the header.
pub of_string : Str → Option Blob
unfolding to_unsigned
of_string s =
    if ltb (length s) header_len
    then none
    else some (record {
      uuid = to_unsigned (take 20 s);
      seq_num = to_unsigned (take 7 (drop 20 s));
      total = to_unsigned (take 7 (drop 27 s));
      size = to_unsigned (take 4 (drop 34 s));
      value = drop 38 s;
    })

-- `msg.substr(at, n)`
abbrev pub substr : ℕ → ℕ → Str → Str
substr at n msg = take n (drop at msg)

-- The constructor sets the size from the value.
abbrev pub blob : ℕ → ℕ → ℕ → Str → Blob
blob uuid seq_num total value = record {
  uuid = uuid;
  seq_num = seq_num;
  total = total;
  size = length value;
  value = value;
}

-- The loop over the full blobs from number `i` on.
unfoldable pub full_blobs : ℕ → ℕ → ℕ → ℕ → ℕ → Str → List Blob
full_blobs uuid total blob_size i zero msg = []
full_blobs uuid total blob_size i (suc n) msg =
    blob uuid (i + 1) total (substr (i * blob_size) blob_size msg)
    ∷ full_blobs uuid total blob_size (i + 1) n msg

-- `uuid` is what `IdHelper::genId` gave, and `blob_size` is `BUF_SIZE` without a header.
unfoldable pub split : ℕ → ℕ → Str → List Blob
unfolding full_blobs
split uuid blob_size msg =
    let fold = length msg / blob_size in
    let mod' = length msg % blob_size in
    let total = if mod' == 0 then fold else fold + 1 in
    if mod' == 0
    then full_blobs uuid total blob_size 0 fold msg
    else full_blobs uuid total blob_size 0 fold msg
      ++ blob uuid (fold + 1) total (substr (fold * blob_size) mod' msg) ∷ []

-- What `bsend` gives to the socket.
unfoldable bsend : ℕ → ℕ → Str → List Str
unfolding split to_string
bsend uuid blob_size msg = map to_string (split uuid blob_size msg)

-- `set<Blob, classcomp>::insert`: a blob with a number that is there is left out.
pub insert : Blob → List Blob → List Blob
insert b [] = b ∷ []
insert b (c ∷ set) =
    if ltb b.seq_num c.seq_num
    then b ∷ c ∷ set
    else if ltb c.seq_num b.seq_num
    then c ∷ insert b set
    else c ∷ set

abbrev pub BdMap : Type 0
BdMap = List (ℕ × List Blob)

pub combine_blobs : List Blob → Str
combine_blobs [] = []
combine_blobs (b ∷ set) = b.value ++ combine_blobs set

-- `getBdStr` on a blob: the message, if `ready` was set.
pub arrive : Blob → BdMap → Option Str × BdMap
unfolding find insert combine_blobs erase
arrive b m = if b.total == 1 then (some b.value, m) else elim (find b.uuid m) [
  | none ↦ (none, assign b.uuid (b ∷ []) m)
  | some set ↦
      let set' : List Blob = insert b set in
      let m' : BdMap = assign b.uuid set' m in
      if length set' == b.total then (some (combine_blobs set'), erase b.uuid m') else (none, m')
]

-- `none` is an exception.
pub get_bd_str : Str → BdMap → Option (Option Str × BdMap)
unfolding of_string arrive
get_bd_str buf m = elim (of_string buf) [ none ↦ none | some b ↦ some (arrive b m) ]
