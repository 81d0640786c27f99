-- ===== src/Zht/Remote/Laws.antt =====
-- What the calls of ZHTClient (ZHT/src/cpp_zhtclient.cpp) return from a server that holds packages
-- of clients, and what they do to it.
use matrix_v.Prelude.{
  ℕ, ◌≡◌, ◌≢◌, refl, ap, sym, ◌∙◌, subst, false, Option, none, some, Option-cases, inl, inr, [],
  ◌∷◌, arith, if◌then◌else◌, Str, codes, str_eq, pos, negsuc,
}
use matrix_v.Text.Token.{is_off, IsField-word}
use matrix_v.Zht.Interface.{IsKey, IsStorable}
use matrix_v.Zht.Pack.{ZPack, text_of, zpack_to_str, str_to_zpack}
use matrix_v.Zht.Pack.RoundTrip.{IsText, IsWirePack, str_to_zpack-zpack_to_str}
use matrix_v.Zht.Worker.{Setup, Server, lookup_reply, opc_lookup, opc_insert}
use matrix_v.Zht.Table.{Table}
use matrix_v.Zht.Remote.{
  stand_in, request, extract_value, common_op, common_op_internal, lookup, insert,
}
use matrix_v.Zht.Remote.Served.{exchange, request-IsWirePack, lookup_served, insert_served}
use matrix_v.Zht.Remote.Serving.{
  IsServing, IsRecord, map_of, lookup_shared_lem, insert_shared_lem, stored, stored_view,
  stored-IsServing, is_empty_ne,
}

-- The value that a client sees under a key.
abbrev pub value_of : Option Str → Str
value_of none = []
value_of (some r) = extract_value r

pub key_ne : (k : Str) → IsKey k → k ≢ []
key_ne k h = h.0.1

module _ (setup : Setup) (addr : ℕ) (k : Str) (key_ok : IsKey k) (s : Server) where
  abbrev asked : ZPack
  asked = request opc_lookup k [] [] (pos 1)

  asked_ok : IsWirePack asked
  unfolding is_off
  asked_ok =
      request-IsWirePack opc_lookup k [] [] (IsField-word (codes "//") b'0' (codes "01") refl, cc)
        key_ok (IsField-word (codes "//") b'^' [] refl, cc)
        (IsField-word (codes "//") b'?' [] refl, cc)

  lookup_exchange : exchange setup addr (zpack_to_str asked) s ≡ (lookup_reply (map_of s.pmap k), s)
  unfolding request
  lookup_exchange =
      lookup_served setup addr s asked asked_ok refl
      ∙ ap (λ (x : Str). (x, s)) (lookup_shared_lem asked s.pmap (key_ne k key_ok))

  -- `lookup` gives the value and changes nothing; a key that is not there gives the empty text and
  -- the code -92.
  pub lookup_lem : lookup (exchange setup addr) k [] s ≡ record {
    rc = elim (map_of s.pmap k) [ none ↦ negsuc 91 | some r ↦ pos 0 ];
    result = value_of (map_of s.pmap k);
    after = s;
  }
  unfolding lookup common_op common_op_internal str_eq
  lookup_lem = elim (Option-cases (map_of s.pmap k)) [
    | inl missing ↦ rw (is_empty_ne k (key_ne k key_ok), lookup_exchange, missing) (refl)
    | inr (r, there) ↦ rw (is_empty_ne k (key_ne k key_ok), lookup_exchange, there) (refl)
  ]

pub stand_in_ne : (word v : Str) → v ≢ [] → stand_in word v ≡ v
stand_in_ne word [] n = absurd (n refl)
stand_in_ne word (c ∷ v) n = refl

-- What a package with a value gives to a client.
pub extract-zpack :
    (p : ZPack)
    → IsWirePack p
    → p.valnull ≡ some false
    → extract_value (zpack_to_str p) ≡ text_of p.val
unfolding extract_value
extract-zpack p w v = rw (str_to_zpack-zpack_to_str p w, v) (refl)

pub extract-IsRecord : (k r : Str) → IsRecord k r → extract_value r ≡ text_of (str_to_zpack r).val
unfolding extract_value
extract-IsRecord k r h = rw h.valued (refl)

module _ (setup : Setup) (late : setup.instant_swap ≡ false) (addr : ℕ) (k : Str) (key_ok : IsKey k)
    (s : Server) (serving : IsServing s.pmap) where
  module _ (v : Str) (value_ok : IsStorable v) where
    abbrev put_pack : ZPack
    put_pack = request opc_insert k v [] (pos 1)

    put_ok : IsWirePack put_pack
    unfolding is_off
    put_ok =
        request-IsWirePack opc_insert k v [] (IsField-word (codes "//") b'0' (codes "03") refl, cc)
          key_ok
          (subst (λ x. IsText (codes "noval") (some x))
            (sym (stand_in_ne (codes "^") v value_ok.0.1)) (value_ok.0, value_ok.1))
          (IsField-word (codes "//") b'?' [] refl, cc)

    pub inserted : Table
    unfolding request
    inserted = stored setup late put_pack k s.pmap serving refl (key_ne k key_ok)

    -- `insert` returns 0 and leaves the server with the package in the table.
    pub insert_lem :
        insert (exchange setup addr) k v s
        ≡ record { rc = pos 0; result = []; after = record s { pmap = inserted } }
    unfolding insert common_op common_op_internal str_eq inserted request
    insert_lem =
        rw
          (
            is_empty_ne k (key_ne k key_ok),
            insert_served setup addr s put_pack put_ok refl,
            insert_shared_lem setup late put_pack k s.pmap serving refl (key_ne k key_ok),
          )
          (refl)

    pub inserted_value :
        (q : Str)
        → value_of (map_of inserted q) ≡ (if str_eq q k then v else value_of (map_of s.pmap q))
    unfolding inserted request
    inserted_value q = ground (
      arith,
      stored_view setup late put_pack k s.pmap serving refl (key_ne k key_ok) q,
      extract-zpack put_pack put_ok,
      is_empty_ne v value_ok.0.1,
      stand_in_ne (codes "^") v value_ok.0.1,
    )

    pub inserted-IsServing : IsServing inserted
    unfolding inserted request
    inserted-IsServing =
        stored-IsServing setup late put_pack k s.pmap serving refl (key_ne k key_ok) put_ok
          (ap some (is_empty_ne v value_ok.0.1))
