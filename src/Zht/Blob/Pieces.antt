-- ===== src/Zht/Blob/Pieces.antt =====
-- What `BdSendBase::split` cuts a message into (ZHT/src/bigdata_transfer.cpp).
use matrix_v.Prelude.{
  ℕ, zero, suc, ◌+◌, ◌*◌, ◌/◌, ◌%◌, ◌≤◌, ◌<◌, ◌≡◌, ◌≢◌, refl, ap, sym, ◌∙◌, List, [], ◌∷◌, ◌++◌,
  arith, ◌==◌, Bool-cases, inl, inr, Str, length, take, drop, drop-drop, take-append-drop,
  length-drop, subst, append-nil, take_all,
}
use matrix_v.Zht.Blob.{Blob, blob, substr, full_blobs, split, combine_blobs}
use matrix_v.Zht.Blob.Subset.{Among, IsAscending, IsAscending-mono}

-- Blobs of one message, as many as `total`.
pub record IsMessage (uuid total : ℕ) (parts : List Blob) : Type 0 where
  pub ascending : IsAscending 1 parts
  pub owned : (b : Blob) → Among b parts → b.uuid ≡ uuid
  pub totals : (b : Blob) → Among b parts → b.total ≡ total

length-append_full :
    (uuid total blob_size i n : ℕ) (msg : Str) (rest : List Blob)
    → length (full_blobs uuid total blob_size i n msg ++ rest) ≡ n + length rest
unfolding full_blobs
length-append_full uuid total blob_size i zero msg rest = omega arith
length-append_full uuid total blob_size i (suc n) msg rest =
    omega (arith, length-append_full uuid total blob_size (i + 1) n msg rest)

-- The blobs are numbered one after the other.
IsAscending-full :
    (uuid total blob_size i n : ℕ) (msg : Str) (rest : List Blob)
    → IsAscending (i + n + 1) rest
    → IsAscending (i + 1) (full_blobs uuid total blob_size i n msg ++ rest)
unfolding full_blobs
IsAscending-full uuid total blob_size i zero msg rest s =
    IsAscending-mono (i + 1) (i + 0 + 1) rest (omega arith) s
IsAscending-full uuid total blob_size i (suc n) msg rest s = (
  omega arith,
  IsAscending-full uuid total blob_size (i + 1) n msg rest
      (IsAscending-mono (i + 1 + n + 1) (i + suc n + 1) rest (omega arith) s),
)

-- All blobs have the id and the total.
abbrev IsOwned : ℕ → ℕ → Blob → Type 0
IsOwned uuid total b = (b.uuid ≡ uuid) × (b.total ≡ total)

Among-full :
    (uuid total blob_size i n : ℕ) (msg : Str) (rest : List Blob)
    → ((b : Blob) → Among b rest → IsOwned uuid total b)
    → (b : Blob) → Among b (full_blobs uuid total blob_size i n msg ++ rest)
    → IsOwned uuid total b
unfolding full_blobs
Among-full uuid total blob_size i zero msg rest h b a = h b a
Among-full uuid total blob_size i (suc n) msg rest h b (inl e) =
    (ap (λ (x : Blob). x.uuid) e, ap (λ (x : Blob). x.total) e)
Among-full uuid total blob_size i (suc n) msg rest h b (inr a) =
    Among-full uuid total blob_size (i + 1) n msg rest h b a

-- Each full blob goes on where the one before it ends.
combine_blobs-full :
    (uuid total blob_size i n : ℕ) (msg : Str) (rest : List Blob)
    → combine_blobs rest ≡ drop ((i + n) * blob_size) msg
    → combine_blobs (full_blobs uuid total blob_size i n msg ++ rest) ≡ drop (i * blob_size) msg
unfolding full_blobs combine_blobs
combine_blobs-full uuid total blob_size i zero msg rest h =
    h ∙ ap (λ k. drop (k * blob_size) msg) (omega arith)
combine_blobs-full uuid total blob_size i (suc n) msg rest h =
    let start = drop (i * blob_size) msg in
    ap (λ x. take blob_size start ++ x)
      (combine_blobs-full uuid total blob_size (i + 1) n msg rest
          (h ∙ ap (λ k. drop (k * blob_size) msg) (omega arith))
        ∙ ap (λ k. drop k msg) (grind arith)
        ∙ drop-drop (i * blob_size) blob_size msg)
    ∙ take-append-drop blob_size start

-- A message is cut into as many blobs as each of them says, numbered from 1 on, and their values
-- in this order are the message.
pub record IsSplit (uuid : ℕ) (msg : Str) (parts : List Blob) : Type 0 where
  pub message : IsMessage uuid (length parts) parts
  pub combined : combine_blobs parts ≡ msg
  pub some_parts : 0 < length parts

drop_none : (k : ℕ) (msg : Str) → drop (0 * k) msg ≡ msg
drop_none k msg = let start : 0 * k ≡ 0 = omega arith in ap (λ (j : ℕ). drop j msg) start

drop_all : (n : ℕ) (msg : Str) → length msg ≤ n → drop n msg ≡ []
drop_all zero [] h = refl
drop_all zero (c ∷ msg) h = absurd (omega (arith, h))
drop_all (suc n) [] h = refl
drop_all (suc n) (c ∷ msg) h = drop_all n msg (omega (arith, h))

positive : (a b : ℕ) → 0 < a * b → 0 < a
positive a b h = grind arith

div_mod : (n k : ℕ) → 0 < k → (n ≡ n / k * k + n % k) × (n % k < k)
div_mod n k h = grind arith

module _ (uuid blob_size : ℕ) (msg : Str) (pos : 0 < blob_size) (n : msg ≢ []) where
  abbrev fold : ℕ
  fold = length msg / blob_size

  abbrev rest_size : ℕ
  rest_size = length msg % blob_size

  not_empty : (s : Str) → s ≢ [] → 0 < length s
  not_empty [] h = absurd (h refl)
  not_empty (c ∷ s) h = omega arith

  split_even : rest_size ≡ 0 → split uuid blob_size msg ≡ full_blobs uuid fold blob_size 0 fold msg
  unfolding split
  split_even h = rw h (refl)

  split_odd :
      rest_size ≢ 0
      → split uuid blob_size msg
        ≡ full_blobs uuid (fold + 1) blob_size 0 fold msg
          ++ blob uuid (fold + 1) (fold + 1) (substr (fold * blob_size) rest_size msg) ∷ []
  unfolding split
  split_odd h = ground arith

  IsSplit-parts :
      (total : ℕ) (rest : List Blob)
      → total ≡ fold + length rest
      → 0 < total
      → IsAscending (fold + 1) rest
      → ((b : Blob) → Among b rest → IsOwned uuid total b)
      → combine_blobs rest ≡ drop (fold * blob_size) msg
      → IsSplit uuid msg (full_blobs uuid total blob_size 0 fold msg ++ rest)
  IsSplit-parts total rest e l asc own c =
      let count : length (full_blobs uuid total blob_size 0 fold msg ++ rest) ≡ total =
        length-append_full uuid total blob_size 0 fold msg rest ∙ sym e in
      record {
        message = record {
          ascending =
              IsAscending-full uuid total blob_size 0 fold msg rest
                (IsAscending-mono (0 + fold + 1) (fold + 1) rest (omega arith) asc);
          owned = λ b a. (Among-full uuid total blob_size 0 fold msg rest own b a).0;
          totals = λ b a. (Among-full uuid total blob_size 0 fold msg rest own b a).1 ∙ sym count;
        };
        combined =
            combine_blobs-full uuid total blob_size 0 fold msg rest
              (c ∙ ap (λ k. drop (k * blob_size) msg) (omega arith))
            ∙ drop_none blob_size msg;
        some_parts = omega (arith, count, l);
      }

  pub split-IsSplit : IsSplit uuid msg (split uuid blob_size msg)
  unfolding combine_blobs
  split-IsSplit =
      let whole = div_mod (length msg) blob_size pos in
      elim (Bool-cases (rest_size == 0)) [
        | inl even ↦
            let z : rest_size ≡ 0 = ground arith in
            subst (IsSplit uuid msg) (sym (split_even z ∙ sym (append-nil _))) (
              IsSplit-parts fold [] (omega arith)
                (positive fold blob_size (omega (arith, whole.0, z, not_empty msg n))) tt
                (λ b a. absurd a)
                (sym (drop_all (fold * blob_size) msg (omega (arith, whole.0, z)))))
        | inr odd ↦
            let z : rest_size ≢ 0 = λ e. ground arith in
            subst (IsSplit uuid msg) (sym (split_odd z)) (
              IsSplit-parts (fold + 1) _ (omega arith) (omega arith) (omega arith, tt)
                (λ b a. elim a [
                  | inl e ↦ (ap (λ (x : Blob). x.uuid) e, ap (λ (x : Blob). x.total) e)
                  | inr v ↦ absurd v
                ])
                (append-nil _
                  ∙ take_all rest_size (drop (fold * blob_size) msg)
                      (omega (arith, whole.0, length-drop (fold * blob_size) msg))))
      ]
