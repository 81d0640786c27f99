-- ===== src/Tests/Chunks.antt =====
-- A test of the chunks that the examples receive (Wire.Stream).
use matrix_v.Prelude.{
  ◌≡◌, ◌≢◌, Bool, true, false, Bool-cases, inl, inr, List, [], ◌∷◌, Str, All, length, ltb, ltb→lt,
  ◌==◌, arith, if◌then◌else◌, is_empty,
}
use matrix_v.Wire.Stream.{buf_size, IsChunk}

abbrev has_zero : Str → Bool
has_zero [] = false
has_zero (c ∷ s) = if c == 0 then true else has_zero s

abbrev pub is_chunk : Str → Bool
is_chunk c = if is_empty c then false else if has_zero c then false else ltb (length c) buf_size

abbrev pub are_chunks : List Str → Bool
are_chunks [] = true
are_chunks (c ∷ chunks) = if is_chunk c then are_chunks chunks else false

has_zero-no_zero : (c : Str) → has_zero c ≡ false → All (λ b. b ≢ 0) c
has_zero-no_zero [] h = tt
has_zero-no_zero (b ∷ c) h = elim (Bool-cases (b == 0)) [
  | inl zero ↦ absurd (ground arith)
  | inr off ↦ (ground arith, has_zero-no_zero c (ground arith))
]

pub is_chunk-IsChunk : (c : Str) → is_chunk c ≡ true → IsChunk c
is_chunk-IsChunk [] h = absurd cc
is_chunk-IsChunk (b ∷ c) h = elim (Bool-cases (has_zero (b ∷ c))) [
  | inl zero ↦ absurd (ground arith)
  | inr off ↦ record {
    some_bytes = λ e. cc;
    fits = ltb→lt (length (b ∷ c)) buf_size (ground arith);
    no_zero = has_zero-no_zero (b ∷ c) off;
  }
]

pub are_chunks-IsChunk : (chunks : List Str) → are_chunks chunks ≡ true → All IsChunk chunks
are_chunks-IsChunk [] h = tt
are_chunks-IsChunk (c ∷ chunks) h = elim (Bool-cases (is_chunk c)) [
  | inl good ↦ (is_chunk-IsChunk c good, are_chunks-IsChunk chunks (ground arith))
  | inr bad ↦ absurd (ground arith)
]
