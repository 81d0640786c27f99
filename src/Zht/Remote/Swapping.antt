-- ===== src/Zht/Remote/Swapping.antt =====
-- `compare_swap` of ZHTClient (ZHT/src/cpp_zhtclient.cpp) on one server, as the operation of the
-- store's interface.

use matrix_v.Prelude.{
  ℕ, ◌≡◌, ◌≢◌, refl, ap, sym, ◌∙◌, subst, true, false, ◌&&◌, Bool-cases, inl, inr, [], arith,
  if◌then◌else◌, Str, codes, str_eq, str_eq_iff, ne_of_str_eq, pos, equal_ℤ,
}
use matrix_v.Zht.Interface.{
  Swapped, IsKey, IsStorable, IsSeen, carries, carries_sound, carries_complete,
}
use matrix_v.Zht.Worker.{Setup, Server}
use matrix_v.Zht.Remote
use matrix_v.Zht.Remote.{Answer}
use matrix_v.Zht.Remote.Served.{exchange}
use matrix_v.Zht.Remote.Serving.{IsServing, map_of}
use matrix_v.Zht.Remote.Store.{
  fits_key, fits_value, fits_key_lem, fits_value_lem, IsStorable-fits, look, look_lem,
}
use matrix_v.Zht.Remote.Laws.{value_of}
use matrix_v.Zht.Remote.Cas.{
  value_of-IsSeen, compare_swap_hit, compare_swap_miss, swapped, swapped_value, swapped-IsServing,
}

abbrev of_answer : Answer Server → Swapped Server
of_answer a = record { done = equal_ℤ a.rc (pos 0); query_value = a.result; after = a.after }

module _ (setup : Setup) (late : setup.instant_swap ≡ false) (addr : ℕ) where
  pub swap_in : Str → Str → Str → Server → Swapped Server
  swap_in k seen new s =
      if fits_key k && carries (codes "noval") seen && fits_value new
      then of_answer (Remote.compare_swap (exchange setup addr) k seen new [] s)
      else record { done = false; query_value = look setup late addr k s; after = s }

  module _ (k seen new : Str) (s : Server) (h : IsKey k) (seen_ok : IsSeen seen)
      (new_ok : IsStorable new) (serving : IsServing s.pmap) where
    swap_in_lem :
        swap_in k seen new s ≡ of_answer (Remote.compare_swap (exchange setup addr) k seen new [] s)
    unfolding swap_in
    swap_in_lem =
        rw
          (
            fits_key_lem k h,
            carries_complete (codes "noval") seen seen_ok.0 seen_ok.1,
            fits_value_lem new new_ok,
          )
          (refl)

    swap_in_hit :
        (same : value_of (map_of s.pmap k) ≡ seen)
        → swap_in k seen new s ≡ record {
          done = true;
          query_value = new;
          after = record s {
            pmap = swapped setup late addr k h s serving seen new seen_ok new_ok same;
          };
        }
    swap_in_hit same =
        swap_in_lem
        ∙ ap of_answer (compare_swap_hit setup late addr k h s serving seen new seen_ok new_ok same)

    swap_in_miss :
        value_of (map_of s.pmap k) ≢ seen
        → swap_in k seen new s
          ≡ record { done = false; query_value = value_of (map_of s.pmap k); after = s }
    swap_in_miss differs =
        swap_in_lem
        ∙ ap of_answer
            (compare_swap_miss setup late addr k h s serving seen new seen_ok new_ok differs)

    IsServing-after : IsServing (swap_in k seen new s).after.pmap
    IsServing-after = elim (Bool-cases (str_eq (value_of (map_of s.pmap k)) seen)) [
      | inl e ↦
          let same : value_of (map_of s.pmap k) ≡ seen =
            (str_eq_iff (value_of (map_of s.pmap k)) seen).0 e in
          subst (λ (r : Swapped Server). IsServing r.after.pmap) (sym (swap_in_hit same))
            (swapped-IsServing setup late addr k h s serving seen new seen_ok new_ok same)
      | inr e ↦
          subst (λ (r : Swapped Server). IsServing r.after.pmap)
            (sym (swap_in_miss (ne_of_str_eq (value_of (map_of s.pmap k)) seen e))) serving
    ]

  pub swap_in-IsServing :
      (k seen new : Str) (s : Server)
      → IsServing s.pmap
      → IsServing (swap_in k seen new s).after.pmap
  swap_in-IsServing k seen new s serving =
      elim (Bool-cases (fits_key k && carries (codes "noval") seen && fits_value new)) [
        | inr unfit ↦ unfold swap_in in (rw unfit serving)
        | inl fits ↦
            IsServing-after k seen new s (carries_sound (codes "nokey") k (ground arith))
              (carries_sound (codes "noval") seen (ground arith))
              (IsStorable-fits new (ground arith)) serving
      ]

  -- The laws of the swap.
  pub swap_hit_lem :
      (k seen new : Str) (s : Server)
      → IsKey k
      → IsStorable new
      → seen ≢ []
      → look setup late addr k s ≡ seen
      → IsServing s.pmap
      → ((swap_in k seen new s).done ≡ true)
        × ((q : Str)
            → IsKey q
            → look setup late addr q (swap_in k seen new s).after
              ≡ (if str_eq q k then new else look setup late addr q s))
  swap_hit_lem k seen new s h w n e serving =
      let same : value_of (map_of s.pmap k) ≡ seen = sym (look_lem setup late addr k s h) ∙ e in
      let seen_ok : IsSeen seen =
        subst IsSeen same (value_of-IsSeen k s.pmap serving (λ x. n (sym same ∙ x))) in
      let hit = swap_in_hit k seen new s h seen_ok w serving same in
      (
        ap (λ (r : Swapped Server). r.done) hit,
        λ q i.
            ap (λ (r : Swapped Server). look setup late addr q r.after) hit
            ∙ look_lem setup late addr q
                (record s { pmap = swapped setup late addr k h s serving seen new seen_ok w same })
                i
            ∙ swapped_value setup late addr k h s serving seen new seen_ok w same q
            ∙ ap (λ x. if str_eq q k then new else x) (sym (look_lem setup late addr q s i)),
      )

  pub swap_miss_lem :
      (k seen new : Str) (s s₀ : Server)
      → IsKey k
      → IsStorable new
      → seen ≢ []
      → look setup late addr k s₀ ≡ seen
      → look setup late addr k s ≢ seen
      → IsServing s₀.pmap
      → IsServing s.pmap
      → swap_in k seen new s
        ≡ record { done = false; query_value = look setup late addr k s; after = s }
  swap_miss_lem k seen new s s₀ h w n e differs serving₀ serving =
      let before : value_of (map_of s₀.pmap k) ≡ seen = sym (look_lem setup late addr k s₀ h) ∙ e in
      let seen_ok : IsSeen seen =
        subst IsSeen before (value_of-IsSeen k s₀.pmap serving₀ (λ x. n (sym before ∙ x))) in
      swap_in_miss k seen new s h seen_ok w serving
        (λ x. differs (look_lem setup late addr k s h ∙ x))
      ∙ ap (λ (x : Str). record { done = false; query_value = x; after = s })
          (sym (look_lem setup late addr k s h))
