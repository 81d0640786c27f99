-- ===== src/Zht/Remote/Cas.antt =====
-- `ZHTClient::compare_swap` (ZHT/src/cpp_zhtclient.cpp) on a server that holds packages of clients.
use matrix_v.Prelude.{
  ℕ, ◌≡◌, ◌≢◌, refl, ap, sym, ◌∙◌, subst, false, Option, none, some, Option-cases, inl, inr, [],
  ◌++◌, arith, if◌then◌else◌, Str, codes, str_eq, pos, negsuc,
}
use matrix_v.Text.Token.{is_off, IsField-word}
use matrix_v.Zht.Interface.{IsKey, IsSeen, IsStorable}
use matrix_v.Zht.Table.{Table}
use matrix_v.Zht.Pack.{ZPack, text_of, zpack_to_str, str_to_zpack}
use matrix_v.Zht.Pack.RoundTrip.{IsText, IsWirePack}
use matrix_v.Zht.Pack.Parsed.{str_to_zpack-IsWirePack}
use matrix_v.Zht.Worker.{
  Setup, Server, lookup_reply, opc_cmpswp, rec_succ, rec_srvexp, swap_reply, erase_status_code,
}
use matrix_v.Zht.Remote.{request, extract_value, common_op, common_op_internal, compare_swap}
use matrix_v.Zht.Remote.Served.{exchange, request-IsWirePack, swap_served}
use matrix_v.Zht.Remote.Serving.{IsServing, map_of, is_empty_ne}
use matrix_v.Zht.Remote.Swaps.{
  renewed, renewed-IsWirePack, swap_reply_miss, swap_reply_hit, after, after_view, after-IsServing,
}
use matrix_v.Zht.Remote.Laws.{value_of, key_ne, stand_in_ne, extract-zpack, extract-IsRecord}

-- A value that is not empty was read from a stored package.
value_of-found :
    (k : Str) (t : Table)
    → IsServing t
    → value_of (map_of t k) ≢ []
    → (r : Str) × (map_of t k ≡ some r) × (value_of (map_of t k) ≡ text_of (str_to_zpack r).val)
value_of-found k t serving n = elim (Option-cases (map_of t k)) [
  | inl missing ↦ absurd (n (ap value_of missing))
  | inr (r, there) ↦
      (r, there, ap value_of there ∙ extract-IsRecord k r (serving.records k r there))
]

text-IsSeen : (o : Option Str) → IsText (codes "noval") o → text_of o ≢ [] → IsSeen (text_of o)
text-IsSeen none h n = absurd (n refl)
text-IsSeen (some v) h n = h

-- A value that a client has seen can be sent back.
pub value_of-IsSeen :
    (k : Str) (t : Table)
    → IsServing t
    → value_of (map_of t k) ≢ []
    → IsSeen (value_of (map_of t k))
value_of-IsSeen k t serving n =
    let (r, there, e) = value_of-found k t serving n in
    subst IsSeen (sym e)
      (text-IsSeen (str_to_zpack r).val (str_to_zpack-IsWirePack r).val_ok (λ x. n (e ∙ x)))

module _ (setup : Setup) (late : setup.instant_swap ≡ false) (addr : ℕ) (k : Str) (key_ok : IsKey k)
    (s : Server) (serving : IsServing s.pmap) (seen new : Str) (seen_ok : IsSeen seen)
    (new_ok : IsStorable new) where
  abbrev swap_pack : ZPack
  swap_pack = request opc_cmpswp k seen new (pos 1)

  swap_ok : IsWirePack swap_pack
  unfolding is_off
  swap_ok =
      request-IsWirePack opc_cmpswp k seen new
        (IsField-word (codes "//") b'0' (codes "05") refl, cc) key_ok
        (subst (λ x. IsText (codes "noval") (some x))
          (sym (stand_in_ne (codes "^") seen seen_ok.0.1)) seen_ok)
        (subst (λ x. IsText (codes "nonewval") (some x))
          (sym (stand_in_ne (codes "?") new new_ok.0.1)) (new_ok.0, new_ok.2))

  swap_key : swap_pack.key ≡ some k
  unfolding request
  swap_key = refl

  -- The two values as the server reads them.
  asked_seen : text_of swap_pack.val ≡ seen
  unfolding request
  asked_seen = stand_in_ne (codes "^") seen seen_ok.0.1

  asked_new : text_of swap_pack.newval ≡ new
  unfolding request
  asked_new = stand_in_ne (codes "?") new new_ok.0.1

  -- The call with the server's reply put in.
  swap_lem :
      (reply : Str) (t : Table)
      → swap_reply setup swap_pack s.pmap ≡ (reply, t)
      → exchange setup addr (zpack_to_str swap_pack) s ≡ (reply, record s { pmap = t })
  unfolding request
  swap_lem reply t e =
      swap_served setup addr s swap_pack swap_ok refl (is_empty_ne k (key_ne k key_ok))
      ∙ ap (λ (r : Str × Table). (r.0, record s { pmap = r.1 })) e

  module _ (hit : value_of (map_of s.pmap k) ≡ seen) where
    found :
        (r : Str) × (map_of s.pmap k ≡ some r)
        × (value_of (map_of s.pmap k) ≡ text_of (str_to_zpack r).val)
    found = value_of-found k s.pmap serving (λ e. seen_ok.0.1 (sym hit ∙ e))

    pub swapped : Table
    unfolding request
    swapped =
        after setup late swap_pack k s.pmap serving swap_key (key_ne k key_ok) found.0 found.1
          (asked_seen ∙ sym hit ∙ found.2) new asked_new

    renewed_value : extract_value (zpack_to_str (renewed found.0 new)) ≡ new
    renewed_value =
        extract-zpack (renewed found.0 new) (renewed-IsWirePack found.0 new new_ok)
          (serving.records k found.0 found.1).valued

    -- Where the value is the one seen, the swap returns 0.
    pub compare_swap_hit :
        compare_swap (exchange setup addr) k seen new [] s
        ≡ record { rc = pos 0; result = new; after = record s { pmap = swapped } }
    unfolding compare_swap common_op common_op_internal str_eq swapped request
    compare_swap_hit =
        rw
          (
            is_empty_ne k (key_ne k key_ok),
            swap_lem (rec_succ ++ zpack_to_str (renewed found.0 new)) swapped (
                swap_reply_hit setup late swap_pack k s.pmap serving swap_key (key_ne k key_ok)
                  found.0 found.1 (asked_seen ∙ sym hit ∙ found.2) new asked_new),
          )
          (ap (λ (x : Str). record { rc = pos 0; result = x; after = record s { pmap = swapped } })
            renewed_value)

    pub swapped_value :
        (q : Str)
        → value_of (map_of swapped q) ≡ (if str_eq q k then new else value_of (map_of s.pmap q))
    unfolding swapped request
    swapped_value q = ground (
      arith,
      renewed_value,
      after_view setup late swap_pack k s.pmap serving swap_key (key_ne k key_ok) found.0 found.1
          (asked_seen ∙ sym hit ∙ found.2) new asked_new q,
    )

    pub swapped-IsServing : IsServing swapped
    unfolding swapped request
    swapped-IsServing =
        after-IsServing setup late swap_pack k s.pmap serving swap_key (key_ne k key_ok) found.0
          found.1 (asked_seen ∙ sym hit ∙ found.2) new asked_new new_ok

  module _ (miss : value_of (map_of s.pmap k) ≢ seen) where
    seen_differs :
        text_of swap_pack.val
        ≢ text_of (str_to_zpack (erase_status_code (lookup_reply (map_of s.pmap k)))).val
    unfolding str_to_zpack
    seen_differs = elim (Option-cases (map_of s.pmap k)) [
      | inl missing ↦ rw missing (λ e. seen_ok.0.1 (sym asked_seen ∙ e))
      | inr (r, there) ↦ rw there (λ e. miss (
          ap value_of there
          ∙ extract-IsRecord k r (serving.records k r there)
          ∙ sym (sym asked_seen ∙ e)))
    ]

    told :
        extract_value (erase_status_code (lookup_reply (map_of s.pmap k)))
        ≡ value_of (map_of s.pmap k)
    unfolding extract_value
    told = elim (Option-cases (map_of s.pmap k)) [
      | inl missing ↦ rw missing (refl)
      | inr (r, there) ↦ rw there (refl)
    ]

    -- Where it is another one, the swap fails, tells the value that is there and changes nothing.
    pub compare_swap_miss :
        compare_swap (exchange setup addr) k seen new [] s
        ≡ record { rc = negsuc 3; result = value_of (map_of s.pmap k); after = s }
    unfolding compare_swap common_op common_op_internal str_eq request
    compare_swap_miss =
        rw
          (
            is_empty_ne k (key_ne k key_ok),
            swap_lem (rec_srvexp ++ erase_status_code (lookup_reply (map_of s.pmap k))) s.pmap (
                swap_reply_miss setup late swap_pack k s.pmap serving swap_key (key_ne k key_ok)
                  seen_differs),
          )
          (ap (λ (x : Str). record { rc = negsuc 3; result = x; after = s }) told)
