-- ===== src/Zht/Remote/Store.antt =====
-- `lookup` and `insert` of ZHTClient (ZHT/src/cpp_zhtclient.cpp) on one server, as the operations of
-- the store's interface. A write with a text that the packages do not carry is left out: the
-- interface promises nothing of it.

use matrix_v.Prelude.{
  ℕ, ◌≡◌, refl, ap, sym, ◌∙◌, subst, Bool, true, false, ◌&&◌, not, Bool-cases, inl, inr, [], arith,
  if◌then◌else◌, Str, codes, str_eq, str_eq_ne, ne_of_str_eq,
}
use matrix_v.Zht.Interface.{IsKey, IsStorable, carries, carries_sound, carries_complete}
use matrix_v.Zht.Worker.{Setup, Server}
use matrix_v.Zht.Remote
use matrix_v.Zht.Remote.{Answer}
use matrix_v.Zht.Remote.Served.{exchange}
use matrix_v.Zht.Remote.Serving.{IsServing, map_of}
use matrix_v.Zht.Remote.Laws.{
  value_of, lookup_lem, insert_lem, inserted, inserted_value, inserted-IsServing,
}

abbrev pub fits_key : Str → Bool
fits_key k = carries (codes "nokey") k

abbrev pub fits_value : Str → Bool
fits_value v = carries (codes "noval") v && not (str_eq v (codes "nonewval"))

pub fits_key_lem : (k : Str) → IsKey k → fits_key k ≡ true
fits_key_lem k h = carries_complete (codes "nokey") k h.0 h.1

pub fits_value_lem : (v : Str) → IsStorable v → fits_value v ≡ true
fits_value_lem v h =
    rw (carries_complete (codes "noval") v h.0 h.1, str_eq_ne v (codes "nonewval") h.2) (refl)

pub IsStorable-fits : (v : Str) → fits_value v ≡ true → IsStorable v
IsStorable-fits v h =
    let seen = carries_sound (codes "noval") v (ground arith) in
    (seen.0, seen.1, ne_of_str_eq v (codes "nonewval") (ground arith))

module _ (setup : Setup) (late : setup.instant_swap ≡ false) (addr : ℕ) where
  pub look : Str → Server → Str
  look k s = (Remote.lookup (exchange setup addr) k [] s).result

  pub look_lem : (k : Str) (s : Server) → IsKey k → look k s ≡ value_of (map_of s.pmap k)
  unfolding look
  look_lem k s h = ap (λ (a : Answer Server). a.result) (lookup_lem setup addr k h s)

  pub put_in : Str → Str → Server → Server
  put_in k v s =
      if fits_key k && fits_value v then (Remote.insert (exchange setup addr) k v s).after else s

  put_in_lem :
      (k v : Str) (s : Server) (h : IsKey k) (w : IsStorable v) (serving : IsServing s.pmap)
      → put_in k v s ≡ record s { pmap = inserted setup late addr k h s serving v w }
  unfolding put_in
  put_in_lem k v s h w serving =
      rw (fits_key_lem k h, fits_value_lem v w)
        (ap (λ (a : Answer Server). a.after) (insert_lem setup late addr k h s serving v w))

  pub put_in-IsServing : (k v : Str) (s : Server) → IsServing s.pmap → IsServing (put_in k v s).pmap
  unfolding put_in
  put_in-IsServing k v s serving = elim (Bool-cases (fits_key k && fits_value v)) [
    | inr unfit ↦ rw unfit serving
    | inl fits ↦
        let h : IsKey k = carries_sound (codes "nokey") k (ground arith) in
        let w : IsStorable v = IsStorable-fits v (ground arith) in
        subst (λ (t : Server). IsServing t.pmap) (sym (put_in_lem k v s h w serving))
          (inserted-IsServing setup late addr k h s serving v w)
  ]

  pub look-put_in :
      (k q v : Str) (s : Server)
      → IsKey k
      → IsKey q
      → IsStorable v
      → IsServing s.pmap
      → look q (put_in k v s) ≡ (if str_eq q k then v else look q s)
  look-put_in k q v s h i w serving =
      look_lem q (put_in k v s) i
      ∙ ap (λ (t : Server). value_of (map_of t.pmap q)) (put_in_lem k v s h w serving)
      ∙ inserted_value setup late addr k h s serving v w q
      ∙ ap (λ x. if str_eq q k then v else x) (sym (look_lem q s i))
