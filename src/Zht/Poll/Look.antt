-- ===== src/Zht/Poll/Look.antt =====
-- What a look at the table finds: `state_change_callback_internal` of HTWorker
-- (ZHT/src/HTWorker.cpp).
use matrix_v.Prelude.{
  ◌≡◌, ◌≢◌, refl, sym, ◌∙◌, Bool-cases, Option-cases, inl, inr, some, false, [], ◌∷◌, arith, Str,
  str_eq, str_eq_iff, str_eq_refl, ne_of_str_eq, is_empty,
}
use matrix_v.Zht.Table
use matrix_v.Zht.Table.{Table}
use matrix_v.Zht.Table.Buckets.{view}
use matrix_v.Zht.Table.Ops.{get-view}
use matrix_v.Zht.Pack.{ZPack, text_of, str_to_zpack}
use matrix_v.Zht.Worker.{
  rec_succ, rec_emptykey, rec_nonexistkey, rec_sccbpolltry, state_change_callback_internal,
}

-- The table has a package under the key of the request, with the value that the request waits for.
pub record HasValue (zpack : ZPack) (t : Table) : Type 0 where
  pub keyed : text_of zpack.key ≢ []
  pub stored : Str
  pub there : view t.size t.kvpairs (text_of zpack.key) ≡ some stored
  pub same : text_of (str_to_zpack stored).val ≡ text_of zpack.val

nonempty : (s : Str) → s ≢ [] → is_empty s ≡ false
nonempty [] n = absurd (n refl)
nonempty (c ∷ s) n = refl

not_nil : (s : Str) → is_empty s ≡ false → s ≢ []
not_nil [] h = cc
not_nil (c ∷ s) h = cc

-- A look succeeds exactly on such a table.
pub look_finds :
    (zpack : ZPack) (t : Table)
    → HasValue zpack t
    → state_change_callback_internal zpack t ≡ rec_succ
unfolding state_change_callback_internal
look_finds zpack t h =
    rw
      (
        state_change_callback_internal,
        nonempty (text_of zpack.key) h.keyed,
        get-view (text_of zpack.key) t h.keyed,
        h.there,
        h.same,
        str_eq_refl (text_of zpack.val),
      )
      refl

pub look_sound :
    (zpack : ZPack) (t : Table)
    → state_change_callback_internal zpack t ≡ rec_succ
    → HasValue zpack t
unfolding state_change_callback_internal str_eq
look_sound zpack t h = elim (Bool-cases (is_empty (text_of zpack.key))) [
  | inl empty ↦ absurd (ne_of_str_eq rec_emptykey rec_succ refl (ground arith))
  | inr full ↦
      let keyed = not_nil (text_of zpack.key) full in
      elim (Option-cases (Table.get (text_of zpack.key) t)) [
        | inl missing ↦ absurd (ne_of_str_eq rec_nonexistkey rec_succ refl (ground arith))
        | inr (stored, got) ↦
            elim (Bool-cases (str_eq (text_of zpack.val) (text_of (str_to_zpack stored).val))) [
              | inl same ↦ record {
                keyed = keyed;
                stored = stored;
                there = sym (get-view (text_of zpack.key) t keyed) ∙ got;
                same =
                    sym
                      ((str_eq_iff (text_of zpack.val) (text_of (str_to_zpack stored).val)).0 same);
              }
              | inr other ↦ absurd (ne_of_str_eq rec_sccbpolltry rec_succ refl (ground arith))
            ]
      ]
]
