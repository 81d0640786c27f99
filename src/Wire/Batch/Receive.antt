-- ===== src/Wire/Batch/Receive.antt =====
-- The receiver reads the packages that the sender made, through any network.
use matrix_v.Prelude.{
  ℕ, suc, ◌<◌, ◌≤◌, ◌^◌, ◌≡◌, refl, sym, ap, subst, ◌∙◌, false, true, none, some, List, [], ◌∷◌,
  ◌++◌, append-nil, append_assoc, map, arith, Str, codes, All, length, length-append, pos,
}
use mathlib.Core.List.{flatten}
use matrix_v.Text.Token.{join}
use matrix_v.Text.TaskMsg.{TaskMsg}
use matrix_v.Text.MatrixMsg.{mm_to_str, str_to_mm-mm_to_str}
use matrix_v.Wire.Stream.{send_mul, recv_mul, IsChunk}
use matrix_v.Wire.Batch.{batch_msg, send_batch_tasks, read_batch, parse_batch, Batch}
use matrix_v.Wire.Batch.Texts.{IsSendable, IsPeer, batch_msg-IsWireMsg, batch_msg-off}
use matrix_v.Wire.Batch.RoundTrip.{package_text, IsSplit, batch_loop-IsSplit}
use matrix_v.Wire.Batch.Parse.{packages-map, mm_to_str_ne, texts-IsField, parse_joined}

All-flatten :
    (groups : List (List TaskMsg)) (tasks : List TaskMsg)
    → flatten groups ≡ tasks
    → All IsSendable tasks
    → All (All IsSendable) groups
unfolding flatten
All-flatten groups tasks e h = go groups (subst (All IsSendable) (sym e) h)
  where
    left : (a b : List TaskMsg) → All IsSendable (a ++ b) → All IsSendable a
    left [] b p = tt
    left (x ∷ a) b p = (p.0, left a b p.1)

    right : (a b : List TaskMsg) → All IsSendable (a ++ b) → All IsSendable b
    right [] b p = p
    right (x ∷ a) b p = right a b p.1

    go : (gs : List (List TaskMsg)) → All IsSendable (flatten gs) → All (All IsSendable) gs
    go [] p = tt
    go (g ∷ gs) p = (left g (flatten gs) p, go gs (right g (flatten gs) p))

lengths-le :
    (n : ℕ) (groups : List (List TaskMsg))
    → length (flatten groups) < n
    → All (λ g. length g < n) groups
unfolding flatten
lengths-le n [] h = tt
lengths-le n (g ∷ groups) h = (
  omega (arith, length-append g (flatten groups)),
  lengths-le n groups (omega (arith, length-append g (flatten groups))),
)

-- What a receiver has when the groups of a batch are read: the count, and the tasks in order.
pub record IsReceived (max_per_pkg : ℕ) (tasks : List TaskMsg) (batch : Batch) : Type 0 where
  pub announced : batch.num_task ≡ pos (length tasks)
  pub content : flatten batch.groups ≡ tasks
  pub sizes : All (λ g. (0 < length g) × (length g ≤ max_per_pkg)) batch.groups

module _ (max_per_pkg : ℕ) (peer : Str) (tasks : List TaskMsg) (max_ok : 0 < max_per_pkg)
    (peer_ok : IsPeer peer) (tasks_ok : All IsSendable tasks) (few : length tasks < 2 ^ 31) where
  header : Str
  header = mm_to_str (batch_msg peer (length tasks) [])

  joined :
      (texts : List Str) (groups : List (List TaskMsg))
      → flatten texts ≡ join b'#' (map (package_text peer) groups) ++ codes "$"
      → flatten (send_mul header false ∷ texts)
        ≡ join b'#' (header ∷ map (package_text peer) groups) ++ codes "$"
  unfolding send_mul flatten join
  joined texts groups e =
      rw (append-nil (header ++ codes "##"))
        (ap (λ (t : Str). (header ++ codes "##") ++ t) e ∙ simp append_assoc)

  read_header :
      (groups : List (List TaskMsg))
      → 0 < length (flatten groups)
      → All (All IsSendable) groups
      → All (λ g. length g < 2 ^ 31) groups
      → read_batch (header ∷ map (package_text peer) groups)
        ≡ some (some (record { num_task = pos (length tasks); groups = groups }))
  unfolding read_batch flatten batch_msg header
  read_header [] h k l = absurd (omega arith)
  read_header (g ∷ groups) h k l = ground (
    arith,
    str_to_mm-mm_to_str (batch_msg peer (length tasks) [])
        (batch_msg-IsWireMsg peer peer_ok (length tasks) [] tt few),
    packages-map peer peer_ok (g ∷ groups) k l,
  )

  -- The sender's loop returns for every batch that is not empty.
  send_batch_tasks-IsSplit :
      0 < length tasks
      → (texts : List Str) × (groups : List (List TaskMsg)) × (send_batch_tasks max_per_pkg tasks
            peer
          ≡ some (send_mul (mm_to_str (batch_msg peer (length tasks) [])) false ∷ texts))
        × IsSplit max_per_pkg peer tasks texts groups
  unfolding send_batch_tasks
  send_batch_tasks-IsSplit h =
      let (texts, groups, run, split) =
        batch_loop-IsSplit max_per_pkg peer tasks (suc (length tasks)) 0 (length tasks) max_ok refl
          h (omega arith) in
      (texts, groups, ground arith, split)

  pub sent_and_parsed :
      0 < length tasks
      → (texts : List Str) × (send_batch_tasks max_per_pkg tasks peer ≡ some texts)
        × ((beyond : Str) (chunks later : List Str)
            → All IsChunk chunks
            → flatten chunks ≡ flatten texts
            → (batch : Batch) × (parse_batch (recv_mul beyond (chunks ++ later) [])
                ≡ some (some batch))
              × IsReceived max_per_pkg tasks batch)
  unfolding parse_batch header
  sent_and_parsed h =
      let (texts, groups, run, split) = send_batch_tasks-IsSplit h in
      let groups_ok : All (All IsSendable) groups =
        All-flatten groups tasks split.content tasks_ok in
      (
        send_mul header false ∷ texts,
        run,
        λ beyond chunks later n e. (
          record { num_task = pos (length tasks); groups = groups },
          ap read_batch (
                parse_joined (header ∷ map (package_text peer) groups)
                  (
                    (
                      batch_msg-off peer peer_ok (length tasks) [] tt,
                      mm_to_str_ne peer peer_ok (batch_msg peer (length tasks) []),
                    ),
                    texts-IsField peer peer_ok groups groups_ok,
                  )
                  beyond chunks later n (e ∙ joined texts groups split.stream))
              ∙ read_header groups
                  (omega (arith, ap (λ (t : List TaskMsg). length t) split.content)) groups_ok
                  (lengths-le (2 ^ 31) groups
                    (omega (arith, ap (λ (t : List TaskMsg). length t) split.content))),
          record { announced = refl; content = split.content; sizes = split.sizes },
        ),
      )

  -- A batch of fewer than 2 ^ 31 tasks, and one or more, that is sent with at least one task per
  -- package over a network that cuts the stream into any chunks that are not empty, are shorter
  -- than the receive buffer and hold no zero byte, with any bytes behind, is received: the same
  -- tasks in the same order, in packages of at most `max_per_pkg`, and the right count. The tasks'
  -- texts are not empty and hold no byte that the formats reserve, their lengths are of 64 bits,
  -- and the peer's name holds no `&`, `#` or `$`.
  pub parse_batch-send_batch_tasks :
      (texts : List Str) (beyond : Str) (chunks later : List Str)
      → 0 < length tasks
      → send_batch_tasks max_per_pkg tasks peer ≡ some texts
      → All IsChunk chunks
      → flatten chunks ≡ flatten texts
      → (batch : Batch) × (parse_batch (recv_mul beyond (chunks ++ later) []) ≡ some (some batch))
        × IsReceived max_per_pkg tasks batch
  parse_batch-send_batch_tasks texts beyond chunks later h sent n e =
      let (texts', run, arrives) = sent_and_parsed h in
      let same : texts ≡ texts' = cc in arrives beyond chunks later n (e ∙ ap flatten same)

-- If a package may hold one task or more, the loop of `send_batch_tasks` ends within its fuel for
-- every batch.
pub send_batch_tasks_total :
    (max_per_pkg : ℕ) (peer : Str) (tasks : List TaskMsg)
    → 0 < max_per_pkg
    → (texts : List Str) × (send_batch_tasks max_per_pkg tasks peer ≡ some texts)
unfolding send_batch_tasks
send_batch_tasks_total max_per_pkg peer [] h =
    (send_mul (mm_to_str (batch_msg peer 0 [])) true ∷ [], ground arith)
send_batch_tasks_total max_per_pkg peer (tm ∷ tasks) h =
    let (texts, groups, run, split) =
      batch_loop-IsSplit max_per_pkg peer (tm ∷ tasks) (suc (length (tm ∷ tasks))) 0
        (length (tm ∷ tasks)) h refl (omega arith) (omega arith) in
    (send_mul (mm_to_str (batch_msg peer (length (tm ∷ tasks)) [])) false ∷ texts, ground arith)

pub sent_empty :
    (max_per_pkg : ℕ) (peer : Str)
    → IsPeer peer
    → (texts : List Str) × (send_batch_tasks max_per_pkg [] peer ≡ some texts)
      × ((beyond : Str) (chunks later : List Str)
          → All IsChunk chunks
          → flatten chunks ≡ flatten texts
          → parse_batch (recv_mul beyond (chunks ++ later) []) ≡ some none)
unfolding send_batch_tasks parse_batch read_batch batch_msg flatten send_mul join
sent_empty max_per_pkg peer peer_ok =
    let head : Str = mm_to_str (batch_msg peer 0 []) in
    (
      send_mul head true ∷ [],
      refl,
      λ beyond chunks later n e. ap read_batch (
          parse_joined (head ∷ [])
            (
              (batch_msg-off peer peer_ok 0 [] tt, mm_to_str_ne peer peer_ok (batch_msg peer 0 [])),
              tt,
            )
            beyond chunks later n (e ∙ alone head)),
    )
  where
    alone : (h : Str) → flatten (send_mul h true ∷ []) ≡ join b'#' (h ∷ []) ++ codes "$"
    alone h = append-nil (h ++ codes "##" ++ codes "$")

-- A batch with no task arrives as one message, over a network that cuts it into any chunks that
-- are not empty, and the receiver takes nothing from it. The peer's name holds no `&`, `#` or `$`.
pub parse_batch_empty :
    (max_per_pkg : ℕ) (peer : Str) (texts : List Str) (beyond : Str) (chunks later : List Str)
    → IsPeer peer
    → send_batch_tasks max_per_pkg [] peer ≡ some texts
    → All IsChunk chunks
    → flatten chunks ≡ flatten texts
    → parse_batch (recv_mul beyond (chunks ++ later) []) ≡ some none
parse_batch_empty max_per_pkg peer texts beyond chunks later peer_ok sent n e =
    let (texts', run, arrives) = sent_empty max_per_pkg peer peer_ok in
    let same : texts ≡ texts' = cc in arrives beyond chunks later n (e ∙ ap flatten same)
