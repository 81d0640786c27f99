-- ===== src/Zht/Remote/Serving.antt =====
-- The servers that clients write to, and what the handlers of HTWorker (ZHT/src/HTWorker.cpp) do to
-- them.
use matrix_v.Prelude.{
  ◌≡◌, ◌≢◌, refl, sym, ap, ◌∙◌, false, Bool-cases, inl, inr, Option, some, [], ◌∷◌, arith,
  if◌then◌else◌, Str, str_eq, str_eq_iff, is_empty, pos,
}
use matrix_v.Zht.Table
use matrix_v.Zht.Table.{Table, Outside, Done}
use matrix_v.Zht.Table.Buckets.{IsValid, view}
use matrix_v.Zht.Table.Ops.{put-Updates, get-view}
use matrix_v.Zht.Table.Codes.{IsOpen, put-Returns}
use matrix_v.Zht.Pack.{ZPack, text_of, zpack_to_str, str_to_zpack}
use matrix_v.Zht.Pack.RoundTrip.{IsWirePack, str_to_zpack-zpack_to_str}
use matrix_v.Zht.Worker.{Setup, insert_shared, lookup_shared, lookup_reply, settled, rec_succ}

-- What a stored text must be: the package of a client, under its own key, with a value.
pub record IsRecord (k r : Str) : Type 0 where
  pub keyed : (str_to_zpack r).key ≡ some k
  pub valued : (str_to_zpack r).valnull ≡ some false

-- A table that is well formed and open, and holds packages with a value under their own keys.
pub record IsServing (t : Table) : Type 0 where
  pub valid : IsValid t
  pub opened : IsOpen t
  pub records : (k r : Str) → view t.size t.kvpairs k ≡ some r → IsRecord k r

abbrev pub map_of : Table → Str → Option Str
map_of t = view t.size t.kvpairs

pub is_empty_ne : (s : Str) → s ≢ [] → is_empty s ≡ false
is_empty_ne [] n = absurd (n refl)
is_empty_ne (c ∷ s) n = refl

pub lookup_shared_lem :
    (p : ZPack) (t : Table)
    → text_of p.key ≢ []
    → lookup_shared p t ≡ lookup_reply (map_of t (text_of p.key))
unfolding lookup_shared
lookup_shared_lem p t n =
    rw (lookup_shared, is_empty_ne (text_of p.key) n)
      (ap lookup_reply (get-view (text_of p.key) t n))

settled_lem :
    (setup : Setup) (d : Done)
    → setup.instant_swap ≡ false
    → d.code ≡ pos 0
    → settled setup d ≡ (rec_succ, d.table)
settled_lem setup d late e = rw (e, late) (refl)

-- A package with a key and a value is stored under its key.
module _ (setup : Setup) (late : setup.instant_swap ≡ false) (p : ZPack) (k : Str) (t : Table)
    (serving : IsServing t) (key : p.key ≡ some k) (n : k ≢ []) where
  pub stored : Table
  stored = (Table.put setup.outside k (zpack_to_str p) t).table

  pub insert_shared_lem : insert_shared setup p t ≡ (rec_succ, stored)
  unfolding insert_shared stored
  insert_shared_lem =
      let text : text_of p.key ≡ k = ap text_of key in
      rw (insert_shared, text, is_empty_ne k n)
        (settled_lem setup (Table.put setup.outside k (zpack_to_str p) t) late
          (put-Returns setup.outside k (zpack_to_str p) t serving.opened).returned)

  pub stored_view :
      (q : Str) → map_of stored q ≡ (if str_eq q k then some (zpack_to_str p) else map_of t q)
  unfolding stored
  stored_view = (put-Updates setup.outside k (zpack_to_str p) t serving.valid).viewed

  pub stored-IsServing : IsWirePack p → p.valnull ≡ some false → IsServing stored
  unfolding stored
  stored-IsServing w v = record {
    valid = (put-Updates setup.outside k (zpack_to_str p) t serving.valid).valid;
    opened = (put-Returns setup.outside k (zpack_to_str p) t serving.opened).open_after;
    records = λ q r e. elim (Bool-cases (str_eq q k)) [
      | inl same ↦
          let back : str_to_zpack r ≡ p =
            ap str_to_zpack (ground (arith, stored_view q)) ∙ str_to_zpack-zpack_to_str p w in
          record {
            keyed = ap (λ (z : ZPack). z.key) back ∙ key ∙ ap some (sym ((str_eq_iff q k).0 same));
            valued = ap (λ (z : ZPack). z.valnull) back ∙ v;
          }
      | inr other ↦ serving.records q r (ground (arith, stored_view q))
    ];
  }
