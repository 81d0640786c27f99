-- ===== src/Zht/Remote/Calls.antt =====
-- The calls of ZHTClient (ZHT/src/cpp_zhtclient.cpp) against each other, on a server that holds
-- packages of clients.
use matrix_v.Prelude.{
  ℕ, ◌≡◌, ◌≢◌, refl, ap, sym, ◌∙◌, subst, false, Bool-cases, ◌⊎◌, inl, inr, [], if◌then◌else◌, Str,
  str_eq, str_eq_iff, ne_of_str_eq, pos, negsuc,
}
use matrix_v.Zht.Interface.{IsKey, IsStorable, IsSeen}
use matrix_v.Zht.Worker.{Setup, Server}
use matrix_v.Zht.Remote.{Answer, lookup, insert, compare_swap}
use matrix_v.Zht.Remote.Served.{exchange}
use matrix_v.Zht.Remote.Serving.{IsServing, map_of}
use matrix_v.Zht.Remote.Laws.{
  value_of, lookup_lem, insert_lem, inserted, inserted_value, inserted-IsServing,
}
use matrix_v.Zht.Remote.Cas.{
  compare_swap_hit, compare_swap_miss, swapped, swapped_value, swapped-IsServing,
}

module _ (setup : Setup) (late : setup.instant_swap ≡ false) (addr : ℕ) where
  -- What a client reads under a key.
  abbrev pub shown : Str → Server → Str
  shown k s = (lookup (exchange setup addr) k [] s).result

  shown_lem : (k : Str) (s : Server) → IsKey k → shown k s ≡ value_of (map_of s.pmap k)
  shown_lem k s h = ap (λ (a : Answer Server). a.result) (lookup_lem setup addr k h s)

  -- `insert` returned 0, and lookups give the new value under `k` and what they gave under others.
  pub record IsInserted (k v : Str) (s : Server) (a : Answer Server) : Type 0 where
    pub succeeded : a.rc ≡ pos 0
    pub serving : IsServing a.after.pmap
    pub queue : a.after.pqueue ≡ s.pqueue
    pub reads : (q : Str) → IsKey q → shown q a.after ≡ (if str_eq q k then v else shown q s)

  -- A value that a client inserts is what lookups of its key give from then on, through the texts
  -- of the requests, the server and its table; lookups of other keys give what they gave before.
  -- The key and the value can be carried by the texts, the server holds packages of clients, and
  -- it does not rewrite its file at once.
  pub insert-IsInserted :
      (k v : Str) (s : Server)
      → IsKey k
      → IsStorable v
      → IsServing s.pmap
      → IsInserted k v s (insert (exchange setup addr) k v s)
  insert-IsInserted k v s h w serving =
      let t = inserted setup late addr k h s serving v w in
      subst (IsInserted k v s) (sym (insert_lem setup late addr k h s serving v w)) (record {
        succeeded = refl;
        serving = inserted-IsServing setup late addr k h s serving v w;
        queue = refl;
        reads = λ q i.
            shown_lem q (record s { pmap = t }) i
            ∙ inserted_value setup late addr k h s serving v w q
            ∙ ap (λ x. if str_eq q k then v else x) (sym (shown_lem q s i));
      })

  -- The swap was made, or it failed.
  abbrev pub IsSwapped : Str → Str → Str → Server → Answer Server → Type 0
  IsSwapped k seen new s a =
      ((shown k s ≡ seen)
        × (a.rc ≡ pos 0)
        × IsServing a.after.pmap
        × ((q : Str) → IsKey q → shown q a.after ≡ (if str_eq q k then new else shown q s)))
      ⊎ ((shown k s ≢ seen) × (a.rc ≡ negsuc 3) × (a.result ≡ shown k s) × (a.after ≡ s))

  -- `compare_swap` returns 0 exactly if the value that a lookup gives under the key is the one
  -- seen, and then lookups of the key give the new value and those of other keys what they gave
  -- before; else it returns -4, gives the value that is there, and leaves the server as it was.
  -- The request, the reply and the stored package go through their texts, the server's handler and
  -- its table. The key and the values can be carried by the texts, the server holds packages of
  -- clients, and it does not rewrite its file at once.
  pub compare_swap-IsSwapped :
      (k seen new : Str) (s : Server)
      → IsKey k
      → IsSeen seen
      → IsStorable new
      → IsServing s.pmap
      → IsSwapped k seen new s (compare_swap (exchange setup addr) k seen new [] s)
  compare_swap-IsSwapped k seen new s h seen_ok w serving =
      elim (Bool-cases (str_eq (value_of (map_of s.pmap k)) seen)) [
        | inl e ↦
            let same : value_of (map_of s.pmap k) ≡ seen =
              (str_eq_iff (value_of (map_of s.pmap k)) seen).0 e in
            let t = swapped setup late addr k h s serving seen new seen_ok w same in
            subst (IsSwapped k seen new s)
              (sym (compare_swap_hit setup late addr k h s serving seen new seen_ok w same))
              (inl (
                shown_lem k s h ∙ same,
                refl,
                swapped-IsServing setup late addr k h s serving seen new seen_ok w same,
                λ q i.
                    shown_lem q (record s { pmap = t }) i
                    ∙ swapped_value setup late addr k h s serving seen new seen_ok w same q
                    ∙ ap (λ x. if str_eq q k then new else x) (sym (shown_lem q s i)),
              ))
        | inr e ↦
            let differs : value_of (map_of s.pmap k) ≢ seen =
              ne_of_str_eq (value_of (map_of s.pmap k)) seen e in
            subst (IsSwapped k seen new s)
              (sym (compare_swap_miss setup late addr k h s serving seen new seen_ok w differs))
              (inr ((λ x. differs (sym (shown_lem k s h) ∙ x)), refl, sym (shown_lem k s h), refl))
      ]
