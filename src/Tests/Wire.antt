-- ===== src/Tests/Wire.antt =====
-- Streams and batches (Wire).
use matrix_v.Prelude.{
  ℕ, ◌≤◌, ◌≡◌, ◌≢◌, refl, sym, some, List, [], ◌∷◌, ◌++◌, Str, codes, arith, All, length, drop,
  true, false,
}
use mathlib.Core.List.{flatten}
use matrix_v.Text.Token.{join, is_off, AllOff-word}
use matrix_v.Text.MatrixMsg.{mm_to_str}
use matrix_v.Wire.Stream.{
  send_mul, buf_size, recv_mul, recv_big, send_big, flatten-send_big, recv_mul-flatten,
  recv_big-send_big, send_big-le, IsChunk,
}
use matrix_v.Wire.Batch.{batch_msg, batch_loop, send_batch_tasks, parse_batch, Batch}
use matrix_v.Wire.Batch.Texts.{IsPeer}
use matrix_v.Wire.Batch.Receive.{IsReceived, parse_batch-send_batch_tasks, send_batch_tasks_total}
use matrix_v.Text.Number.{num_to_str, decimal, emit, to_int}
use matrix_v.Text.TaskMsg.{taskmsg_to_str}
use matrix_v.Tests.Chunks.{are_chunks-IsChunk}
use matrix_v.Tests.Samples.{two_tasks, small_task, small_task-IsSendable}

client-IsPeer : IsPeer (codes "client")
unfolding is_off
client-IsPeer = AllOff-word (codes "&#$") (codes "client") refl

-- What the memory behind the buffer holds.
abbrev beyond : Str
beyond = codes "junk$"

two_bytes-IsChunk : (a b : ℕ) → a ≢ 0 → b ≢ 0 → IsChunk (a ∷ b ∷ [])
two_bytes-IsChunk a b p q = record {
  some_bytes = λ e. cc;
  fits = omega arith;
  no_zero = (p, (q, tt));
}

recv_mul-flatten_example :
    recv_mul beyond ((codes "a#" ∷ codes "#$" ∷ []) ++ codes "x" ∷ []) [] ≡ [] ++ codes "a##$"
unfolding flatten
recv_mul-flatten_example =
    recv_mul-flatten beyond (codes "a#" ∷ codes "#$" ∷ []) (codes "x" ∷ []) (codes "a##") []
      (
        two_bytes-IsChunk b'a' b'#' (omega arith) (omega arith),
        (two_bytes-IsChunk b'#' b'$' (omega arith) (omega arith), tt),
      )
      refl ((omega arith), ((omega arith), ((omega arith), tt)))

recv_big-send_big_example : recv_big beyond ((codes "da" ∷ codes "t$" ∷ []) ++ []) ≡ codes "dat"
unfolding flatten
recv_big-send_big_example =
    recv_big-send_big beyond (codes "dat") (codes "da" ∷ codes "t$" ∷ []) []
      (
        two_bytes-IsChunk b'd' b'a' (omega arith) (omega arith),
        (two_bytes-IsChunk b't' b'$' (omega arith) (omega arith), tt),
      )
      (sym (flatten-send_big (codes "dat"))) ((omega arith), ((omega arith), ((omega arith), tt)))

send_big-le_example : All (λ p. length p ≤ buf_size) (send_big (codes "data"))
send_big-le_example = send_big-le (codes "data")

abbrev count_text : Str
count_text = send_mul (mm_to_str (batch_msg (codes "client") 1 [])) false

abbrev package_text : Str
package_text = send_mul (mm_to_str (batch_msg (codes "client") 1 (small_task ∷ []))) true

one_sent :
    send_batch_tasks 1 (small_task ∷ []) (codes "client") ≡ some (count_text ∷ package_text ∷ [])
unfolding send_batch_tasks batch_loop
one_sent = refl

-- The stream is cut behind its second byte.
chunks_arrived :
    flatten (codes "cl" ∷ drop 2 count_text ∷ package_text ∷ [])
    ≡ flatten (count_text ∷ package_text ∷ [])
unfolding flatten send_mul mm_to_str join batch_msg
chunks_arrived = refl

chunks-IsChunk : All IsChunk (codes "cl" ∷ drop 2 count_text ∷ package_text ∷ [])
unfolding send_mul mm_to_str join batch_msg num_to_str decimal emit to_int taskmsg_to_str
chunks-IsChunk = are_chunks-IsChunk (codes "cl" ∷ drop 2 count_text ∷ package_text ∷ []) refl

send_batch_tasks_total_example :
    (texts : List Str) × (send_batch_tasks 1 two_tasks (codes "client") ≡ some texts)
send_batch_tasks_total_example = send_batch_tasks_total 1 (codes "client") two_tasks (omega arith)

parse_batch-send_batch_tasks_example :
    (batch : Batch) × (parse_batch (
        recv_mul beyond
          ((codes "cl" ∷ drop 2 count_text ∷ package_text ∷ []) ++ codes "later" ∷ [])
          [])
      ≡ some (some batch))
    × IsReceived 1 (small_task ∷ []) batch
parse_batch-send_batch_tasks_example =
    parse_batch-send_batch_tasks 1 (codes "client") (small_task ∷ []) (omega arith) client-IsPeer
      (small_task-IsSendable, tt) (omega arith) (count_text ∷ package_text ∷ []) beyond
      (codes "cl" ∷ drop 2 count_text ∷ package_text ∷ []) (codes "later" ∷ []) (omega arith)
      one_sent chunks-IsChunk chunks_arrived
