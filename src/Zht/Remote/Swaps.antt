-- ===== src/Zht/Remote/Swaps.antt =====
-- `HTWorker::compare_swap` (ZHT/src/HTWorker.cpp) on a table of client packages.
use matrix_v.Prelude.{
  ◌≡◌, ◌≢◌, refl, ap, sym, ◌∙◌, false, some, [], ◌++◌, if◌then◌else◌, Str, str_eq, str_eq_ne,
  str_eq_refl,
}
use matrix_v.Zht.Table.{Table}
use matrix_v.Zht.Interface.{IsStorable}
use matrix_v.Zht.Pack.{ZPack, text_of, zpack_to_str, str_to_zpack}
use matrix_v.Zht.Pack.RoundTrip.{IsWirePack}
use matrix_v.Zht.Pack.Parsed.{str_to_zpack-IsWirePack}
use matrix_v.Zht.Worker.{
  Setup, lookup_shared, lookup_reply, rec_succ, rec_srvexp, compare_swap_internal, swap_reply,
  erase_status_code,
}
use matrix_v.Zht.Remote.Serving.{
  IsServing, map_of, lookup_shared_lem, insert_shared_lem, stored, stored_view, stored-IsServing,
}

-- The stored package with a new value.
abbrev pub renewed : Str → Str → ZPack
renewed r new = record (str_to_zpack r) { val = some new }

pub renewed-IsWirePack : (r new : Str) → IsStorable new → IsWirePack (renewed r new)
renewed-IsWirePack r new ok =
    let w : IsWirePack (str_to_zpack r) = str_to_zpack-IsWirePack r in
    record {
      opcode_ok = w.opcode_ok;
      key_ok = w.key_ok;
      val_ok = (ok.0, ok.1);
      newval_ok = w.newval_ok;
      lease_ok = w.lease_ok;
      replicanum_ok = w.replicanum_ok;
    }

module _ (setup : Setup) (late : setup.instant_swap ≡ false) (p : ZPack) (k : Str) (t : Table)
    (serving : IsServing t) (key : p.key ≡ some k) (n : k ≢ []) where
  text_key : text_of p.key ≡ k
  text_key = ap text_of key

  looked : (u : Table) → lookup_shared p u ≡ lookup_reply (map_of u k)
  looked u =
      lookup_shared_lem p u (λ e. n (sym text_key ∙ e))
      ∙ ap (λ (x : Str). lookup_reply (map_of u x)) text_key

  -- The value that the server compares with.
  abbrev pub current : ZPack
  current = str_to_zpack (erase_status_code (lookup_reply (map_of t k)))

  pub swap_reply_miss :
      text_of p.val ≢ text_of current.val
      → swap_reply setup p t ≡ (rec_srvexp ++ erase_status_code (lookup_reply (map_of t k)), t)
  unfolding swap_reply compare_swap_internal
  swap_reply_miss differs =
      rw
        (
          swap_reply,
          compare_swap_internal,
          looked t,
          str_eq_ne (text_of p.val) (text_of current.val) differs,
          looked t,
        )
        (refl)

  module _ (r : Str) (at : map_of t k ≡ some r)
      (same : text_of p.val ≡ text_of (str_to_zpack r).val) (new : Str)
      (renew : text_of p.newval ≡ new) where
    pub after : Table
    after = stored setup late (renewed r new) k t serving ((serving.records k r at).keyed) n

    internal_hit : compare_swap_internal setup p t ≡ (rec_succ, after)
    unfolding compare_swap_internal after
    internal_hit =
        rw
          (
            compare_swap_internal,
            looked t,
            at,
            same,
            str_eq_refl (text_of (str_to_zpack r).val),
            renew,
          )
          (insert_shared_lem setup late (renewed r new) k t serving (serving.records k r at).keyed
            n)

    pub after_view :
        (q : Str)
        → map_of after q ≡ (if str_eq q k then some (zpack_to_str (renewed r new)) else map_of t q)
    unfolding after
    after_view =
        stored_view setup late (renewed r new) k t serving ((serving.records k r at).keyed) n

    pub after-IsServing : IsStorable new → IsServing after
    unfolding after
    after-IsServing ok =
        stored-IsServing setup late (renewed r new) k t serving ((serving.records k r at).keyed) n
          (renewed-IsWirePack r new ok) (serving.records k r at).valued

    after_self : map_of after k ≡ some (zpack_to_str (renewed r new))
    after_self = after_view k ∙ rw (str_eq_refl k) (refl)

    pub swap_reply_hit : swap_reply setup p t ≡ (rec_succ ++ zpack_to_str (renewed r new), after)
    unfolding swap_reply
    swap_reply_hit = rw (swap_reply, internal_hit, looked after, after_self) (refl)
