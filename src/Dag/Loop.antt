-- ===== src/Dag/Loop.antt =====
-- Counted loops.
use matrix_v.Prelude.{ℕ, zero, suc, ◌+◌, ◌*◌, ◌≡◌, ap, ◌∙◌, sym, arith}

-- `for (i = 0; i < n; i++) s = body i s;`
unfoldable pub for_up {ℓ} : {S : Type ℓ} → ℕ → (ℕ → S → S) → S → S
for_up zero body s = s
for_up (suc n) body s = body n (for_up n body s)

pub for_up-count {ℓ} :
    {S : Type ℓ} (a b : ℕ) (body : ℕ → S → S) (s : S) → a ≡ b → for_up a body s ≡ for_up b body s
for_up-count a b body s e = rw e

-- A loop to `m + k` is a loop to `m`, and `k` rounds more.
pub for_up-add {ℓ} :
    {S : Type ℓ} (m k : ℕ) (body : ℕ → S → S) (s : S)
    → for_up (m + k) body s ≡ for_up k (λ j. body (m + j)) (for_up m body s)
unfolding for_up
for_up-add m zero body s = for_up-count (m + 0) m body s (omega arith)
for_up-add m (suc k) body s =
    for_up-count (m + suc k) (suc (m + k)) body s (omega arith)
    ∙ ap (body (m + k)) (for_up-add m k body s)

-- Two nested loops whose index is `i * width + j` are one.
pub for_up_nested {ℓ} :
    {S : Type ℓ} (rows width : ℕ) (body : ℕ → S → S) (s : S)
    → for_up rows (λ i. for_up width (λ j. body (i * width + j))) s ≡ for_up (rows * width) body s
unfolding for_up
for_up_nested zero width body s = for_up-count 0 (0 * width) body s (omega arith)
for_up_nested (suc rows) width body s = rw (for_up_nested rows width body s) (
    sym (for_up-add (rows * width) width body s)
    ∙ for_up-count (rows * width + width) (suc rows * width) body s (omega arith))
