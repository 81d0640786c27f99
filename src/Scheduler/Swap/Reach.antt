-- ===== src/Scheduler/Swap/Reach.antt =====
-- The stores that other processes can make.
use matrix_v.Prelude.{refl, sym, subst, List, [], ◌∷◌, All}
use mathlib.Core.List.{Memᴰ}
use mathlib.Core.List.Memᴰ

-- A store that steps of `fs` make from `s`.
pub data Reached {S : Type 0} (fs : List (S → S)) (s : S) : S → Type 0 where
  here : Reached fs s s
  step : (f : S → S) (t : S) → Memᴰ f fs → Reached fs s t → Reached fs s (f t)

module _ {S : Type 0} (fs : List (S → S)) (s : S) where
  use_all : (P : (S → S) → Type 0) (gs : List (S → S)) (f : S → S) → Memᴰ f gs → All P gs → P f
  use_all P [] f m h = absurd (Memᴰ.not-nil m)
  use_all P (g ∷ gs) f (Memᴰ.head e) h = subst P (sym e) h.0
  use_all P (g ∷ gs) f (Memᴰ.tail m) h = use_all P gs f m h.1

  pub Reached-keeps :
      (P : S → Type 0)
      → All (λ f. (t : S) → P t → P (f t)) fs
      → P s
      → (t : S) → Reached fs s t
      → P t
  Reached-keeps P h p t Reached.here = p
  Reached-keeps P h p _ (Reached.step f t m r) =
      use_all (λ f. (t : S) → P t → P (f t)) fs f m h t (Reached-keeps P h p t r)

  Reached-sub :
      (gs : List (S → S))
      → ((f : S → S) → Memᴰ f gs → Memᴰ f fs)
      → All (λ f. (t : S) → Reached fs s t → Reached fs s (f t)) gs
  Reached-sub [] i = tt
  Reached-sub (g ∷ gs) i = (
    (λ t r. Reached.step g t (i g (Memᴰ.head refl)) r),
    Reached-sub gs (λ f m. i f (Memᴰ.tail m)),
  )

  pub Reached-closed : All (λ f. (t : S) → Reached fs s t → Reached fs s (f t)) fs
  Reached-closed = Reached-sub fs (λ f m. m)
