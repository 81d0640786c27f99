-- ===== src/Wire/Batch/Parse.antt =====
-- What the receiver reads in the texts of a batch, once they have arrived.
use matrix_v.Prelude.{
  ℕ, ◌<◌, ◌^◌, ◌≡◌, ◌≢◌, refl, ap, ◌∙◌, false, some, List, [], ◌∷◌, ◌++◌, map, arith, Str, codes,
  All, All-mono, length,
}
use mathlib.Core.List.{flatten}
use matrix_v.Text.Token.{tokenize, join, AllOff, IsField, tokenize-join, is_delimiter}
use matrix_v.Text.Field.{join-AllOff}
use matrix_v.Text.TaskMsg.{TaskMsg, taskmsg_to_str, str_to_taskmsg-taskmsg_to_str}
use matrix_v.Text.MatrixMsg.{MatrixMsg, mm_to_str, str_to_mm-mm_to_str}
use matrix_v.Wire.Stream.{
  drop_last, recv_mul, IsChunk, IsUnmarked, recv_mul-flatten, drop_last-marked,
}
use matrix_v.Wire.Batch.{batch_msg, tasks_loop, msg_tasks, packages}
use matrix_v.Wire.Batch.Texts.{
  IsSendable, IsPeer, IsSendable-IsWireTask, batch_msg-IsWireMsg, batch_msg-off, AllOff-sub,
}
use matrix_v.Wire.Batch.RoundTrip.{package_text}

tasks_loop-map :
    (tasks : List TaskMsg)
    → All IsSendable tasks
    → tasks_loop (length tasks) (map taskmsg_to_str tasks) ≡ some tasks
unfolding tasks_loop
tasks_loop-map [] h = refl
tasks_loop-map (tm ∷ tasks) h = ground (
  arith,
  str_to_taskmsg-taskmsg_to_str tm (IsSendable-IsWireTask tm h.0),
  tasks_loop-map tasks h.1,
)

module _ (peer : Str) (peer_ok : IsPeer peer) where
  pub packages-map :
      (groups : List (List TaskMsg))
      → All (All IsSendable) groups
      → All (λ g. length g < 2 ^ 31) groups
      → packages (map (package_text peer) groups) ≡ some groups
  unfolding packages msg_tasks batch_msg
  packages-map [] h k = refl
  packages-map (g ∷ groups) h k =
      rw
        (
          str_to_mm-mm_to_str (batch_msg peer (length g) g)
              (batch_msg-IsWireMsg peer peer_ok (length g) g h.0 k.0),
          packages,
          msg_tasks,
        )
        (rw (tasks_loop-map g h.0, packages-map groups h.1 k.1))

  pub mm_to_str_ne : (mm : MatrixMsg) → mm_to_str mm ≢ []
  unfolding mm_to_str join
  mm_to_str_ne mm = nonempty mm.msgtype _
    where
      nonempty : (x r : Str) → x ++ b'&' ∷ b'&' ∷ r ≢ []
      nonempty [] r = cc
      nonempty (c ∷ x) r = cc

  pub texts-IsField :
      (groups : List (List TaskMsg))
      → All (All IsSendable) groups
      → All (IsField (codes "#$")) (map (package_text peer) groups)
  texts-IsField [] h = tt
  texts-IsField (g ∷ groups) h = (
    (batch_msg-off peer peer_ok (length g) g h.0, mm_to_str_ne (batch_msg peer (length g) g)),
    texts-IsField groups h.1,
  )

narrow :
    (small : Str) (xs : List Str)
    → ((c : ℕ) → is_delimiter (codes "#$") c ≡ false → is_delimiter small c ≡ false)
    → All (IsField (codes "#$")) xs
    → All (IsField small) xs
narrow small xs f h =
    All-mono (IsField (codes "#$")) (IsField small)
      (λ s p. (AllOff-sub (codes "#$") small s f p.0, p.1)) xs h

-- Texts with no reserved byte, joined, are read back from the stream by any receiver.
pub parse_joined :
    (texts : List Str)
    → All (IsField (codes "#$")) texts
    → (beyond : Str) (chunks later : List Str) → All IsChunk chunks
    → flatten chunks ≡ join b'#' texts ++ codes "$"
    → tokenize (codes "##") (drop_last (recv_mul beyond (chunks ++ later) [])) ≡ texts
unfolding is_delimiter
parse_joined texts h beyond chunks later n e =
    ap (λ (t : Str). tokenize (codes "##") (drop_last t))
      (recv_mul-flatten beyond chunks later (join b'#' texts) [] n e unmarked)
    ∙ ap (tokenize (codes "##")) (drop_last-marked (join b'#' texts))
    ∙ tokenize-join (codes "##") b'#' texts refl (narrow (codes "##") texts (λ c. ground arith) h)
  where
    unmarked : IsUnmarked (join b'#' texts)
    unmarked =
        All-mono (λ c. is_delimiter (codes "$") c ≡ false) (λ c. c ≢ b'$') (λ c p. ground arith)
          (join b'#' texts)
          (join-AllOff (codes "$") b'#' texts refl (
            All-mono (IsField (codes "$")) (AllOff (codes "$")) (λ s p. p.0) texts
              (narrow (codes "$") texts (λ c. ground arith) h)))
