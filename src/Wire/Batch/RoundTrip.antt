-- ===== src/Wire/Batch/RoundTrip.antt =====
-- A batch that is sent arrives: sender, network and receiver together.
use matrix_v.Prelude.{
  ℕ, zero, suc, ◌+◌, ◌-◌, ◌<◌, ◌≤◌, ◌≡◌, refl, sym, ap, ◌∙◌, true, false, Bool-cases, inl, inr,
  some, List, [], ◌∷◌, ◌++◌, append-nil, append_assoc, map, arith, leb, Str, codes, All, take, drop,
  length, length-take, length-drop, take-append-drop, take_all, drop-drop, leb→le,
}
use mathlib.Core.List.{flatten}
use matrix_v.Text.Token.{join}
use matrix_v.Text.TaskMsg.{TaskMsg}
use matrix_v.Text.MatrixMsg.{mm_to_str}
use matrix_v.Wire.Stream.{send_mul}
use matrix_v.Wire.Batch.{batch_msg, batch_loop}

-- The message of a package.
abbrev pub package_text : Str → List TaskMsg → Str
package_text peer g = mm_to_str (batch_msg peer (length g) g)

-- How the texts of the loop split the tasks into packages.
pub record IsSplit (max_per_pkg : ℕ) (peer : Str) (tasks : List TaskMsg) (texts : List Str)
    (groups : List (List TaskMsg)) : Type 0 where
  pub stream : flatten texts ≡ join b'#' (map (package_text peer) groups) ++ codes "$"
  pub content : flatten groups ≡ tasks
  pub sizes : All (λ g. (0 < length g) × (length g ≤ max_per_pkg)) groups

module _ (max_per_pkg : ℕ) (peer : Str) (task_vec : List TaskMsg) where
  -- The last round sends all that is left.
  batch_loop_last :
      (fuel left sent per_pkg : ℕ)
      → 0 < left
      → left ≤ max_per_pkg
      → batch_loop (suc (suc fuel)) max_per_pkg peer task_vec left sent per_pkg
        ≡ some
            (send_mul (mm_to_str (batch_msg peer left (take left (drop sent task_vec)))) true ∷ [])
  unfolding batch_loop
  batch_loop_last fuel left sent per_pkg h k = ground arith

  batch_loop_more :
      (fuel left sent per_pkg : ℕ) (texts : List Str)
      → 0 < left
      → max_per_pkg < left
      → batch_loop fuel max_per_pkg peer task_vec (left - per_pkg) (sent + per_pkg) per_pkg
        ≡ some texts
      → batch_loop (suc fuel) max_per_pkg peer task_vec left sent per_pkg
        ≡ some (
            send_mul (mm_to_str (batch_msg peer per_pkg (take per_pkg (drop sent task_vec)))) false
            ∷ texts)
  unfolding batch_loop
  batch_loop_more fuel left sent per_pkg texts h k e = ground arith

  last-IsSplit :
      (rest : List TaskMsg)
      → 0 < length rest
      → length rest ≤ max_per_pkg
      → IsSplit max_per_pkg peer rest
          (send_mul (mm_to_str (batch_msg peer (length rest) rest)) true ∷ [])
          (rest ∷ [])
  unfolding send_mul join flatten
  last-IsSplit rest h k = record {
    stream = append-nil _;
    content = append-nil rest;
    sizes = ((h, k), tt);
  }

  more-IsSplit :
      (rest front back : List TaskMsg) (texts : List Str) (groups : List (List TaskMsg))
      → front ++ back ≡ rest
      → 0 < length front
      → length front ≤ max_per_pkg
      → IsSplit max_per_pkg peer back texts groups
      → IsSplit max_per_pkg peer rest
          (send_mul (mm_to_str (batch_msg peer (length front) front)) false ∷ texts)
          (front ∷ groups)
  unfolding send_mul join flatten
  more-IsSplit rest front back texts groups e h k s =
      let text : Str = package_text peer front in
      record {
        stream = rw (append-nil (text ++ codes "##")) (
            ap (λ (t : Str). (text ++ codes "##") ++ t) s.stream
            ∙ regroup text (join b'#' (map (package_text peer) groups)));
        content = ap (λ (t : List TaskMsg). front ++ t) s.content ∙ e;
        sizes = ((h, k), s.sizes);
      }
    where
      regroup :
          (text body : Str)
          → (text ++ codes "##") ++ (body ++ codes "$") ≡ (text ++ b'#' ∷ b'#' ∷ body) ++ codes "$"
      regroup text body = simp append_assoc

  -- With more fuel than tasks the loop returns, and it splits what is left.
  pub batch_loop-IsSplit :
      (fuel sent left : ℕ)
      → 0 < max_per_pkg
      → left ≡ length (drop sent task_vec)
      → 0 < left
      → left < fuel
      → (texts : List Str) × (groups : List (List TaskMsg)) × (batch_loop fuel max_per_pkg peer
            task_vec left sent max_per_pkg
          ≡ some texts)
        × IsSplit max_per_pkg peer (drop sent task_vec) texts groups
  batch_loop-IsSplit zero sent left m e h f = absurd (omega arith)
  batch_loop-IsSplit (suc zero) sent left m e h f = absurd (omega arith)
  batch_loop-IsSplit (suc (suc fuel)) sent left m e h f = elim (Bool-cases (leb left max_per_pkg)) [
    | inl last ↦
        let rest : List TaskMsg = drop sent task_vec in
        let le : left ≤ max_per_pkg = leb→le left max_per_pkg last in
        (
          _,
          rest ∷ [],
          batch_loop_last fuel left sent max_per_pkg h le
              ∙ rw (take_all left rest (omega arith), e) refl,
          last-IsSplit rest (omega arith) (omega arith),
        )
    | inr more ↦
        let rest : List TaskMsg = drop sent task_vec in
        let lt : max_per_pkg < left = ground arith in
        let front : List TaskMsg = take max_per_pkg rest in
        let size : length front ≡ max_per_pkg = omega (arith, length-take max_per_pkg rest) in
        let (texts, groups, run, split) =
          batch_loop-IsSplit (suc fuel) (sent + max_per_pkg) (left - max_per_pkg) m
            (omega (
              arith,
              ap (λ (t : List TaskMsg). length t) (drop-drop sent max_per_pkg task_vec),
              length-drop max_per_pkg rest,
            ))
            (omega arith) (omega arith) in
        (
          _,
          front ∷ groups,
          batch_loop_more (suc fuel) left sent max_per_pkg texts h lt run
              ∙ ap (λ (n : ℕ). some (send_mul (mm_to_str (batch_msg peer n front)) false ∷ texts))
                  (sym size),
          more-IsSplit rest front (drop (sent + max_per_pkg) task_vec) texts groups
              (ap (λ (t : List TaskMsg). front ++ t) (drop-drop sent max_per_pkg task_vec)
                ∙ take-append-drop max_per_pkg rest)
              (omega arith) (omega arith) split,
        )
  ]
