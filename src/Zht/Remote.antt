-- ===== src/Zht/Remote.antt =====
-- The client of the store: ZHTClient (ZHT/src/cpp_zhtclient.cpp). `sendrecv` is the proxy: it sends
-- a request and gives the reply; `S` is all that it reaches. Texts hold no zero byte, and a reply
-- fits into the buffer of `_msg_maxsize` bytes.
pub mod Served
pub mod Serving
pub mod Swaps
pub mod Laws
pub mod Cas
pub mod Store
pub mod Swapping
pub mod Implements
pub mod Calls
use matrix_v.Prelude.{
  ℕ, Bool, true, false, ◌&&◌, not, Option, none, some, [], ◌∷◌, if◌then◌else◌, Str, codes, str_eq,
  is_empty, take, drop, ℤ, pos, negsuc,
}
use matrix_v.Text.Number.{num_to_str, str_to_num}
use matrix_v.Zht.Pack.{ZPack, text_of, flag_of, zpack_to_str, str_to_zpack}
use matrix_v.Zht.Worker.{
  opc_lookup, opc_remove, opc_insert, opc_append, opc_cmpswp, opc_stchgcb, rec_emptykey, rec_srvexp,
  rec_uopc,
}

-- A text that is not set goes out as a word of its own, with its flag set.
abbrev pub stand_in : Str → Str → Str
stand_in word s = if is_empty s then word else s

-- The package of a request.
pub request : Str → Str → Str → Str → ℤ → ZPack
unfolding num_to_str
request opcode key val val2 lease = record {
  opcode = some opcode;
  key = some key;
  val = some (stand_in (codes "^") val);
  newval = some (stand_in (codes "?") val2);
  lease = some (num_to_str lease);
  valnull = some (is_empty val);
  newvalnull = some (is_empty val2);
  replicanum = some (pos 3);
}

pub extract_value : Str → Str
unfolding str_to_zpack
extract_value s =
    let zpack = str_to_zpack s in if flag_of zpack.valnull then [] else text_of zpack.val

-- `Const::toInt`
abbrev pub to_int : Str → ℤ
to_int s = str_to_num 32 s

abbrev pub is_known : Str → Bool
is_known opcode = not (
    not (str_eq opcode opc_lookup)
    && not (str_eq opcode opc_remove)
    && not (str_eq opcode opc_insert)
    && not (str_eq opcode opc_append)
    && not (str_eq opcode opc_cmpswp)
    && not (str_eq opcode opc_stchgcb))

-- A status, the `result` that the caller passed, and what the call has left.
pub record Outcome (S : Type 0) : Type 0 where
  pub status : Str
  pub result : Str
  pub after : S

-- The first three characters of a reply are the status.
abbrev parse_reply : {S : Type 0} → Str → Str × S → Outcome S
parse_reply result (srecv, s) =
    if is_empty srecv
    then record { status = rec_srvexp; result = result; after = s }
    else record { status = take 3 srecv; result = drop 3 srecv; after = s }

pub record Answer (S : Type 0) : Type 0 where
  pub rc : ℤ
  pub result : Str
  pub after : S

module _ {S : Type 0} (sendrecv : Str → S → Str × S) where
  pub common_op_internal : Str → Str → Str → Str → Str → ℤ → S → Outcome S
  unfolding request zpack_to_str
  common_op_internal opcode key val val2 result lease s =
      if is_empty key
      then record { status = rec_emptykey; result = result; after = s }
      else parse_reply result (sendrecv (zpack_to_str (request opcode key val val2 lease)) s)

  abbrev with_code : Outcome S → Answer S
  with_code o = record {
    rc = if is_empty o.status then negsuc 1 else to_int o.status;
    result = o.result;
    after = o.after;
  }

  pub common_op : Str → Str → Str → Str → Str → ℤ → S → Answer S
  unfolding str_to_num common_op_internal
  common_op opcode key val val2 result lease s =
      if is_known opcode
      then with_code (common_op_internal opcode key val val2 result lease s)
      else record { rc = to_int rec_uopc; result = result; after = s }

  pub lookup : Str → Str → S → Answer S
  unfolding common_op extract_value
  lookup key result s =
      let a = common_op opc_lookup key [] [] result (pos 1) s in
      record a { result = extract_value a.result }

  unfoldable remove : Str → S → Answer S
  unfolding common_op
  remove key s = common_op opc_remove key [] [] [] (pos 1) s

  pub insert : Str → Str → S → Answer S
  unfolding common_op
  insert key val s = common_op opc_insert key val [] [] (pos 1) s

  unfoldable append : Str → Str → S → Answer S
  unfolding common_op
  append key val s = common_op opc_append key val [] [] (pos 1) s

  pub compare_swap : Str → Str → Str → Str → S → Answer S
  unfolding common_op extract_value
  compare_swap key seen_val new_val result s =
      let a = common_op opc_cmpswp key seen_val new_val result (pos 1) s in
      record a { result = extract_value a.result }

  unfoldable state_change_callback : Str → Str → ℤ → S → Answer S
  unfolding common_op
  state_change_callback key expected_val lease s =
      common_op opc_stchgcb key expected_val [] [] lease s
