-- ===== src/Wire/Stream.antt =====
-- `send_mul`, `recv_mul`, `send_big` and `recv_big` of matrix/src/matrix_tcp_proxy_stub.cpp.
-- What one `recv` returns is a chunk; how the bytes are cut into chunks is up to the network, and
-- `recv_bf` reads a chunk as a C string.
use matrix_v.Prelude.{
  ℕ, zero, suc, ◌<◌, ◌≤◌, ◌≡◌, ◌≢◌, refl, sym, ap, subst, ◌∙◌, Bool, true, false, Bool-cases, inl,
  inr, List, [], ◌∷◌, ◌++◌, append_assoc, append-nil, arith, leb, ◌==◌, if◌then◌else◌, Str, codes,
  All, take, drop, length, length-drop, length-take, length-append, leb→le, take-append-drop, c_str,
  ltb, lt→ltb,
}
use mathlib.Core.List.{flatten}

-- `_BUF_SIZE`
abbrev pub buf_size : ℕ
buf_size = 8192

unfoldable pub send_mul : Str → Bool → Str
send_mul buf end_flag = buf ++ codes "##" ++ (if end_flag then codes "$" else [])

-- `buf[buf.length() - 1] == '$'`
unfoldable pub ends_marked : Str → Bool
ends_marked [] = false
ends_marked (c ∷ []) = c == b'$'
ends_marked (c ∷ d ∷ s) = ends_marked (d ∷ s)

-- `recv_bf` takes its buffer for a C string: a chunk ends at a zero byte. A chunk that fills the
-- buffer leaves no room for one, and the string goes on into `beyond`, the memory behind the buffer.
-- That memory is the same for all chunks of a message.
unfoldable pub recv_bf : Str → Str → Str
recv_bf beyond chunk = c_str (if ltb (length chunk) buf_size then chunk else chunk ++ beyond)

-- The chunks that arrive, and `buf` so far. An empty chunk is a count of 0: the peer has closed.
-- A chunk that begins with a zero byte gives an empty string, whose last byte the source looks for
-- in front of the string: here it is no mark.
pub recv_mul : Str → List Str → Str → Str
unfolding ends_marked recv_bf
recv_mul beyond [] buf = buf
recv_mul beyond ([] ∷ chunks) buf = buf
recv_mul beyond ((c ∷ s) ∷ chunks) buf =
    let got : Str = recv_bf beyond (c ∷ s) in
    let more = recv_mul beyond chunks (buf ++ got) in if ends_marked got then buf ++ got else more

-- `buf.substr(0, buf.length() - 1)`
pub drop_last : Str → Str
drop_last [] = []
drop_last (c ∷ []) = []
drop_last (c ∷ d ∷ s) = c ∷ drop_last (d ∷ s)

pub recv_big : Str → List Str → Str
unfolding drop_last
recv_big beyond chunks = drop_last (recv_mul beyond chunks [])

-- Every round takes a full buffer off, so that with the length as fuel nothing is left at the end.
big_loop : ℕ → ℕ → Str → List Str
big_loop size zero buf = (buf ++ codes "$") ∷ []
big_loop size (suc fuel) buf =
    let rest = big_loop size fuel (drop size buf) in
    if leb size (length buf) then take size buf ∷ rest else (buf ++ codes "$") ∷ []

pub send_big : Str → List Str
unfolding big_loop
send_big buf = big_loop buf_size (length buf) buf

abbrev pub IsUnmarked : Str → Type 0
IsUnmarked s = All (λ c. c ≢ b'$') s

-- What stands behind a proper part of a marked text is marked.
split_marked :
    (c r text : Str)
    → c ++ r ≡ text ++ codes "$"
    → r ≢ []
    → (rest : Str) × (text ≡ c ++ rest) × (r ≡ rest ++ codes "$")
split_marked [] r text e n = (text, refl, e)
split_marked (x ∷ c) r [] e n = absurd (n (tail_nil c r (cc)))
  where
    tail_nil : (a b : Str) → a ++ b ≡ [] → b ≡ []
    tail_nil [] b h = h
    tail_nil (y ∷ a) b h = cc
split_marked (x ∷ c) r (y ∷ text) e n =
    let (rest, p, q) = split_marked c r text (cc) n in (rest, cc, q)

ends_marked_unmarked : (c r : Str) → IsUnmarked (c ++ r) → ends_marked c ≡ false
unfolding ends_marked
ends_marked_unmarked [] r h = refl
ends_marked_unmarked (c ∷ []) r h = ground arith
ends_marked_unmarked (c ∷ d ∷ s) r h = ends_marked_unmarked (d ∷ s) r h.1

ends_marked-append : (s : Str) → ends_marked (s ++ codes "$") ≡ true
unfolding ends_marked
ends_marked-append [] = refl
ends_marked-append (c ∷ []) = refl
ends_marked-append (c ∷ d ∷ s) = ends_marked-append (d ∷ s)

IsUnmarked-right : (c r : Str) → IsUnmarked (c ++ r) → IsUnmarked r
IsUnmarked-right [] r h = h
IsUnmarked-right (x ∷ c) r h = IsUnmarked-right c r h.1

marked_ne : (s : Str) → s ++ codes "$" ≢ []
marked_ne [] = cc
marked_ne (c ∷ s) = cc

append_ne : (a b : Str) → a ≢ [] → a ++ b ≢ []
append_ne [] b n = absurd (n refl)
append_ne (c ∷ a) b n = cc

pub drop_last-marked : (s : Str) → drop_last (s ++ codes "$") ≡ s
unfolding drop_last
drop_last-marked [] = refl
drop_last-marked (c ∷ []) = refl
drop_last-marked (c ∷ d ∷ s) = ap (λ (t : Str). c ∷ t) (drop_last-marked (d ∷ s))

-- A chunk that the receive buffer has room for, with a zero byte behind, and that holds none.
pub record IsChunk (c : Str) : Type 0 where
  pub some_bytes : c ≢ []
  pub fits : length c < buf_size
  pub no_zero : All (λ b. b ≢ 0) c

c_str-whole : (s : Str) → All (λ b. b ≢ 0) s → c_str s ≡ s
c_str-whole [] h = refl
c_str-whole (c ∷ s) h = ground (arith, c_str-whole s h.1)

pub recv_bf-IsChunk : (beyond c : Str) → IsChunk c → recv_bf beyond c ≡ c
unfolding recv_bf
recv_bf-IsChunk beyond c h = rw (lt→ltb (length c) buf_size h.fits) (c_str-whole c h.no_zero)

-- A chunk is taken as it came.
recv_mul-chunk :
    (beyond c : Str) (chunks : List Str) (buf : Str)
    → IsChunk c
    → recv_mul beyond (c ∷ chunks) buf
      ≡ (if ends_marked c then buf ++ c else recv_mul beyond chunks (buf ++ c))
unfolding recv_mul
recv_mul-chunk beyond [] chunks buf h = absurd (h.some_bytes refl)
recv_mul-chunk beyond (c ∷ s) chunks buf h = rw (recv_bf-IsChunk beyond (c ∷ s) h) refl

-- However the network cuts the text into such chunks, and whatever arrives behind, the text up to
-- its mark is received: the only mark is the last byte.
pub recv_mul-flatten :
    (beyond : Str) (chunks later : List Str) (text buf : Str)
    → All IsChunk chunks
    → flatten chunks ≡ text ++ codes "$"
    → IsUnmarked text
    → recv_mul beyond (chunks ++ later) buf ≡ buf ++ text ++ codes "$"
unfolding flatten
recv_mul-flatten beyond [] later text buf n e u = absurd (marked_ne text (sym e))
recv_mul-flatten beyond (c ∷ []) later text buf n e u =
    let whole : c ≡ text ++ codes "$" = sym (append-nil c) ∙ e in
    recv_mul-chunk beyond c later buf n.0
    ∙ rw (ap ends_marked whole ∙ ends_marked-append text)
        (ap (λ (t : Str). buf ++ t) whole ∙ sym (append_assoc buf text (codes "$")))
recv_mul-flatten beyond (c ∷ d ∷ chunks) later text buf n e u =
    let (rest, p, q) =
      split_marked c (d ++ flatten chunks) text e (append_ne d (flatten chunks) n.1.0.some_bytes) in
    let u' : IsUnmarked (c ++ rest) = subst IsUnmarked p u in
    recv_mul-chunk beyond c (d ∷ chunks ++ later) buf n.0
    ∙ rw (ends_marked_unmarked c rest u') (
        recv_mul-flatten beyond (d ∷ chunks) later rest (buf ++ c) n.1 q
          (IsUnmarked-right c rest u')
        ∙ ap (λ (t : Str). t ++ codes "$")
            (append_assoc buf c rest ∙ ap (λ (t : Str). buf ++ t) (sym p)))

-- A first chunk that does not end in a mark may as well have come before the call.
pub recv_mul-first :
    (beyond str : Str) (chunks : List Str)
    → IsChunk str
    → ends_marked str ≡ false
    → recv_mul beyond chunks str ≡ recv_mul beyond (str ∷ chunks) []
recv_mul-first beyond str chunks n h = sym (recv_mul-chunk beyond str chunks [] n ∙ rw h refl)

-- `send_big` sends the text and a mark, in pieces.
flatten-big_loop : (size fuel : ℕ) (buf : Str) → flatten (big_loop size fuel buf) ≡ buf ++ codes "$"
unfolding big_loop flatten
flatten-big_loop size zero buf = append-nil (buf ++ codes "$")
flatten-big_loop size (suc fuel) buf = elim (Bool-cases (leb size (length buf))) [
  | inl e ↦ rw e (
      ap (λ (t : Str). take size buf ++ t) (flatten-big_loop size fuel (drop size buf))
      ∙ sym (append_assoc (take size buf) (drop size buf) (codes "$"))
      ∙ ap (λ (t : Str). t ++ codes "$") (take-append-drop size buf))
  | inr e ↦ rw e (append-nil (buf ++ codes "$"))
]

pub flatten-send_big : (buf : Str) → flatten (send_big buf) ≡ buf ++ codes "$"
unfolding send_big
flatten-send_big buf = flatten-big_loop buf_size (length buf) buf

-- A text with no `$` that `send_big` sends is received whole by `recv_big`, however it is cut into
-- chunks that are not empty, are shorter than the receive buffer and hold no zero byte, and
-- whatever arrives behind.
pub recv_big-send_big :
    (beyond buf : Str) (chunks later : List Str)
    → All IsChunk chunks
    → flatten chunks ≡ flatten (send_big buf)
    → IsUnmarked buf
    → recv_big beyond (chunks ++ later) ≡ buf
unfolding recv_big
recv_big-send_big beyond buf chunks later n e u =
    ap drop_last (recv_mul-flatten beyond chunks later buf [] n (e ∙ flatten-send_big buf) u)
    ∙ drop_last-marked buf

pieces-le :
    (size fuel : ℕ) (buf : Str)
    → 0 < size
    → length buf ≤ fuel
    → All (λ p. length p ≤ size) (big_loop size fuel buf)
unfolding big_loop
pieces-le size zero buf h f = (omega (arith, length-append buf (codes "$")), tt)
pieces-le size (suc fuel) buf h f = elim (Bool-cases (leb size (length buf))) [
  | inl e ↦ rw e (
    omega (arith, length-take size buf),
    pieces-le size fuel (drop size buf) h
        (omega (arith, length-drop size buf, leb→le size (length buf) e)),
  )
  | inr e ↦ rw e (ground (arith, length-append buf (codes "$")), tt)
]

-- No piece that `send_big` hands to the socket is longer than the receive buffer.
pub send_big-le : (buf : Str) → All (λ p. length p ≤ buf_size) (send_big buf)
unfolding send_big
send_big-le buf = pieces-le buf_size (length buf) buf (omega arith) (omega arith)
