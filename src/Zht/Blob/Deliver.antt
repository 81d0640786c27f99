-- ===== src/Zht/Blob/Deliver.antt =====
-- A message that is cut into blobs and put together again, while blobs of other messages arrive
-- (ZHT/src/bigdata_transfer.cpp).
use matrix_v.Prelude.{
  ℕ, ◌*◌, ◌<◌, ◌≤◌, ◌≡◌, ◌≢◌, refl, subst, Option, none, some, Bool, inr, List, [], ◌∷◌, arith,
  ◌==◌, if◌then◌else◌, Str, length, All, map,
}
use matrix_v.Dag.OrderedMap.{find, IsOrdered}
use matrix_v.Zht.Blob.{Blob, BdMap, arrive, split, to_string, of_string, get_bd_str}
use matrix_v.Zht.Blob.Subset.{Among}
use matrix_v.Zht.Blob.Header.{IsWireBlob, of_string-to_string}
use matrix_v.Zht.Blob.Pieces.{IsSplit, split-IsSplit}
use matrix_v.Zht.Blob.Arrive.{IsOpen-new}
use matrix_v.Zht.Blob.Message.{and_then, messages, arrivals, messages-Sound, messages_ne}

abbrev add_message : Bool → Option Str → Option (List Str) → Option (List Str)
add_message own o none = none
add_message own o (some later) = some (if own then and_then o later else later)

-- What `getBdStr` gives for the blobs with the id, text by text; `none` is an exception.
abbrev pub read_messages : ℕ → List Str → BdMap → Option (List Str)
read_messages uuid [] m = some []
read_messages uuid (t ∷ ts) m = elim (of_string t) [
  | none ↦ none
  | some b ↦ elim (get_bd_str t m) [
    | none ↦ none
    | some r ↦ add_message (b.uuid == uuid) r.0 (read_messages uuid ts r.1)
  ]
]

get_bd_str_lem :
    (b : Blob) (m : BdMap) (t : Str) → of_string t ≡ some b → get_bd_str t m ≡ some (arrive b m)
unfolding get_bd_str
get_bd_str_lem b m t e = rw (get_bd_str, e) (refl)

read_messages_lem :
    (uuid : ℕ) (bs : List Blob) (m : BdMap)
    → All IsWireBlob bs
    → read_messages uuid (map to_string bs) m ≡ some (messages uuid bs m)
read_messages_lem uuid [] m h = refl
read_messages_lem uuid (b ∷ bs) m h =
    rw
      (
        read_messages,
        of_string-to_string b h.0,
        get_bd_str_lem b m (to_string b) (of_string-to_string b h.0),
        read_messages_lem uuid bs (arrive b m).1 h.1,
      )
      (refl)

-- The message comes out whole each time that it comes out, at least once, and not more often than
-- all of its blobs have arrived.
pub record IsDelivered (uuid : ℕ) (msg : Str) (blobs bs : List Blob) (m : BdMap) : Type 0 where
  pub got : List Str
  pub read : read_messages uuid (map to_string bs) m ≡ some got
  pub each : All (λ s. s ≡ msg) got
  pub delivered : got ≢ []
  pub often : length got * length blobs ≤ arrivals uuid bs

IsSplit-IsDelivered :
    (uuid : ℕ) (msg : Str) (parts bs : List Blob) (m : BdMap)
    → IsSplit uuid msg parts
    → IsOrdered 0 m
    → find uuid m ≡ none
    → All IsWireBlob bs
    → All (λ b. b.uuid ≡ uuid → Among b parts) bs
    → ((b : Blob) → Among b parts → Among b bs)
    → IsDelivered uuid msg parts bs m
IsSplit-IsDelivered uuid msg parts bs m s ordered new wire own all =
    let h = IsOpen-new uuid parts s.message s.some_parts m ordered new in
    let sound = messages-Sound uuid parts s.message s.some_parts bs m own h in
    record {
      got = messages uuid bs m;
      read = read_messages_lem uuid bs m wire;
      each = subst (λ x. All (λ t. t ≡ x) (messages uuid bs m)) s.combined sound.each;
      delivered = messages_ne uuid parts s.message s.some_parts bs m own h (λ b a. inr (all b a));
      often = ground (arith, sound.often, new);
    }

-- A message that is not empty is cut into blobs of a positive size, and these cross the network as
-- texts, in any order, some perhaps more than once, among blobs of other messages: then the
-- receiver raises no exception, gives the whole message at least once, nothing else under its id,
-- and not more often than as many blobs have arrived as it has. The numbers of all blobs have room
-- in the header, and the receiver's map is in order and has no entry for the id.
pub split-IsDelivered :
    (uuid blob_size : ℕ) (msg : Str) (bs : List Blob) (m : BdMap)
    → 0 < blob_size
    → msg ≢ []
    → IsOrdered 0 m
    → find uuid m ≡ none
    → All IsWireBlob bs
    → All (λ b. b.uuid ≡ uuid → Among b (split uuid blob_size msg)) bs
    → ((b : Blob) → Among b (split uuid blob_size msg) → Among b bs)
    → IsDelivered uuid msg (split uuid blob_size msg) bs m
split-IsDelivered uuid blob_size msg bs m pos n =
    IsSplit-IsDelivered uuid msg (split uuid blob_size msg) bs m
      (split-IsSplit uuid blob_size msg pos n)
