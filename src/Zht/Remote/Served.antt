-- ===== src/Zht/Remote/Served.antt =====
-- What a server does with the packages of a client (ZHT/src/cpp_zhtclient.cpp,
-- ZHT/src/HTWorker.cpp).
use matrix_v.Prelude.{
  ℕ, ◌≡◌, refl, ◌∙◌, false, Bool-cases, inl, inr, some, [], arith, if◌then◌else◌, Str, codes,
  str_eq, is_empty, pos,
}
use matrix_v.Text.Token.{is_off, IsField-word}
use matrix_v.Zht.Interface.{IsKey}
use matrix_v.Zht.Pack.{ZPack, text_of, zpack_to_str}
use matrix_v.Zht.Pack.RoundTrip.{IsText, IsWirePack, str_to_zpack-zpack_to_str}
use matrix_v.Zht.Worker.{
  Setup, Server, handle, run, recvsend, compare_swap, lookup_shared, insert_shared, swap_reply,
  opc_lookup, opc_insert, opc_cmpswp,
}
use matrix_v.Zht.Remote.{stand_in, request}

-- The proxy of a client that reaches one server; no answer leaves the client with an empty text.
pub exchange : Setup → ℕ → Str → Server → Str × Server
exchange setup addr msg s = let r = recvsend setup addr msg s in (text_of r.0, r.1)

-- A request arrives as it was sent.
pub request-IsWirePack :
    (opcode key val val2 : Str)
    → IsText (codes "noopcode") (some opcode)
    → IsKey key
    → IsText (codes "noval") (some (stand_in (codes "^") val))
    → IsText (codes "nonewval") (some (stand_in (codes "?") val2))
    → IsWirePack (request opcode key val val2 (pos 1))
unfolding request is_off
request-IsWirePack opcode key val val2 o k v n = record {
  opcode_ok = o;
  key_ok = k;
  val_ok = v;
  newval_ok = n;
  lease_ok = (IsField-word (codes "//") b'1' [] refl, cc);
  replicanum_ok = omega arith;
}

module _ (setup : Setup) (addr : ℕ) (s : Server) where
  exchange_lem :
      (p : ZPack)
      → IsWirePack p
      → exchange setup addr (zpack_to_str p) s ≡ (
          let r = handle setup addr p s in
          (text_of (if setup.sccb then r.0.sent_back else some r.0.returned), r.1))
  unfolding exchange recvsend run
  exchange_lem p w = rw (str_to_zpack-zpack_to_str p w) (refl)

  pub lookup_served :
      (p : ZPack)
      → IsWirePack p
      → p.opcode ≡ some opc_lookup
      → exchange setup addr (zpack_to_str p) s ≡ (lookup_shared p s.pmap, s)
  unfolding handle str_eq
  lookup_served p w e = exchange_lem p w ∙ elim (Bool-cases setup.sccb) [
    | inl on ↦ rw (handle, e, on) (refl)
    | inr off ↦ rw (handle, e, off) (refl)
  ]

  pub insert_served :
      (p : ZPack)
      → IsWirePack p
      → p.opcode ≡ some opc_insert
      → exchange setup addr (zpack_to_str p) s
        ≡ (let r = insert_shared setup p s.pmap in (r.0, record s { pmap = r.1 }))
  unfolding handle str_eq
  insert_served p w e = exchange_lem p w ∙ elim (Bool-cases setup.sccb) [
    | inl on ↦ rw (handle, e, on) (refl)
    | inr off ↦ rw (handle, e, off) (refl)
  ]

  pub swap_served :
      (p : ZPack)
      → IsWirePack p
      → p.opcode ≡ some opc_cmpswp
      → is_empty (text_of p.key) ≡ false
      → exchange setup addr (zpack_to_str p) s
        ≡ (let r = swap_reply setup p s.pmap in (r.0, record s { pmap = r.1 }))
  unfolding handle str_eq compare_swap
  swap_served p w e n = exchange_lem p w ∙ elim (Bool-cases setup.sccb) [
    | inl on ↦ rw (handle, compare_swap, e, n, on) (refl)
    | inr off ↦ rw (handle, compare_swap, e, n, off) (refl)
  ]
