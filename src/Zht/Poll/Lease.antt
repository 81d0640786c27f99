-- ===== src/Zht/Poll/Lease.antt =====
-- When and how a request for a state change is answered (ZHT/src/HTWorker.cpp).
use matrix_v.Prelude.{
  ℕ, zero, suc, ◌+◌, ◌*◌, ◌≤◌, ◌<◌, ◌≡◌, ◌≢◌, refl, Option, none, some, List, [], ◌∷◌, arith,
  Bool-cases, inl, inr, ◌⊎◌, ltb_ℤ, Str, str_eq, str_eq_iff, length, get_elem?, ap, sym, ◌∙◌, ℤ,
  pos,
}
use matrix_v.Zht.Table.{Table}
use matrix_v.Text.Number.{str_to_num}
use matrix_v.Zht.Pack.{ZPack, text_of}
use matrix_v.Zht.Worker.{Server, Waiting, rec_succ, state_change_callback_internal}
use matrix_v.Zht.Poll.Look.{HasValue, look_finds, look_sound}
use matrix_v.Zht.Poll.{poll, callback_round, Sent, send_to}

-- The lease bounds the polls: the loop ends with a result if `seen` holds a table for each interval
-- of the lease.
poll_total :
    (interval n mslapsed : ℕ) (zpack : ZPack) (result : Str) (seen : List Table)
    → n ≤ mslapsed + interval * (length seen + 1)
    → poll interval (pos n) zpack mslapsed result seen ≢ none
unfolding poll
poll_total interval n mslapsed zpack result [] h = ground arith
poll_total interval n mslapsed zpack result (t ∷ seen) h = ground (
  arith,
  poll_total interval n (mslapsed + interval) zpack (state_change_callback_internal zpack t) seen,
)

poll_done :
    (interval mslapsed : ℕ) (lease : ℤ) (zpack : ZPack) (seen : List Table)
    → poll interval lease zpack mslapsed rec_succ seen ≡ some rec_succ
unfolding poll str_eq
poll_done interval mslapsed lease zpack [] = refl
poll_done interval mslapsed lease zpack (t ∷ seen) = refl

-- The i-th poll is made if the lease has not ended before it, and a success there is the answer.
poll-succ :
    (interval n mslapsed i : ℕ) (zpack : ZPack) (result : Str) (seen : List Table) (t : Table)
    → get_elem? seen i ≡ some t
    → mslapsed + interval * (i + 1) < n
    → state_change_callback_internal zpack t ≡ rec_succ
    → poll interval (pos n) zpack mslapsed result seen ≡ some rec_succ
unfolding poll
poll-succ interval n mslapsed i zpack result [] t at h found = absurd (cc)
poll-succ interval n mslapsed zero zpack result (u ∷ seen) t at h found =
    ground (
      arith,
      str_eq_iff result rec_succ,
      poll_done interval (mslapsed + interval) (pos n) zpack seen,
    )
poll-succ interval n mslapsed (suc i) zpack result (u ∷ seen) t at h found = ground (
  arith,
  str_eq_iff result rec_succ,
  grows interval mslapsed i n,
  poll-succ interval n (mslapsed + interval) i zpack (state_change_callback_internal zpack u) seen
      t,
)
  where
    grows :
        (interval mslapsed i n : ℕ)
        → mslapsed + interval * (suc i + 1) < n
        → (mslapsed + interval < n) × (mslapsed + interval + interval * (i + 1) < n)
    grows interval mslapsed i n h = grind arith

next_time :
    (interval mslapsed i n : ℕ)
    → mslapsed + interval + interval * (i + 1) < n
    → mslapsed + interval * (suc i + 1) < n
next_time interval mslapsed i n h = grind arith

-- A success was found by the first look or by a poll.
poll_sound :
    (interval n mslapsed : ℕ) (zpack : ZPack) (result : Str) (seen : List Table)
    → poll interval (pos n) zpack mslapsed result seen ≡ some rec_succ
    → (result ≡ rec_succ)
      ⊎ ((i : ℕ) × (t : Table) × (get_elem? seen i ≡ some t)
          × (mslapsed + interval * (i + 1) < n)
          × (state_change_callback_internal zpack t ≡ rec_succ))
unfolding poll
poll_sound interval n mslapsed zpack result [] h = inl (ground (arith, str_eq_iff result rec_succ))
poll_sound interval n mslapsed zpack result (t ∷ seen) h =
    elim (Bool-cases (str_eq result rec_succ)) [
      | inl done ↦ inl ((str_eq_iff result rec_succ).0 done)
      | inr more ↦ elim (Bool-cases (ltb_ℤ (pos (mslapsed + interval)) (pos n))) [
        | inr over ↦ inl (ground arith)
        | inl within ↦
            elim (poll_sound interval n (mslapsed + interval) zpack
              (state_change_callback_internal zpack t) seen (ground arith)) [
                | inl here ↦ inr (0, t, refl, ground arith, here)
                | inr (i, u, at, time, found) ↦
                    inr (suc i, u, at, next_time interval mslapsed i n time, found)
              ]
      ]
    ]

unsent : (addr : ℕ) (o : Option Str) → o ≢ none → send_to addr o ≢ none
unsent addr none n = absurd (n refl)
unsent addr (some r) n = cc

sent_lem :
    (addr : ℕ) (o : Option Str)
    → send_to addr o ≡ some (record { addr = addr; result = rec_succ })
    → o ≡ some rec_succ
sent_lem addr none h = absurd (cc)
sent_lem addr (some r) h = ground arith

-- The looks that a client's lease of `n` milliseconds allows: one at once, and one after each
-- interval as long as the time since the first look is below the lease.
pub data Looks (interval n : ℕ) (first : Table) (seen : List Table) : Table → Type 0 where
  at_once : Looks interval n first seen first
  later :
      (i : ℕ) (t : Table)
      → get_elem? seen i ≡ some t
      → interval * (i + 1) < n
      → Looks interval n first seen t

module _ (interval n : ℕ) (seen : List Table) (s : Server) (w : Waiting) (rest : List Waiting)
    (head : s.pqueue ≡ w ∷ rest) (lease : str_to_num 32 (text_of w.zpack.lease) ≡ pos n) where
  answer : Option Str
  answer = poll interval (pos n) w.zpack 0 (state_change_callback_internal w.zpack s.pmap) seen

  round_lem : callback_round interval seen s ≡ (send_to w.addr answer, record s { pqueue = rest })
  unfolding callback_round answer
  round_lem = rw (head, callback_round, lease) (refl)

  found_lem :
      (t : Table)
      → Looks interval n s.pmap seen t
      → state_change_callback_internal w.zpack t ≡ rec_succ
      → answer ≡ some rec_succ
  unfolding answer
  found_lem _ at_once found = rw found (poll_done interval 0 (pos n) w.zpack seen)
  found_lem _ (later i t at h) found =
      poll-succ interval n 0 i w.zpack (state_change_callback_internal w.zpack s.pmap) seen t at
        (omega (arith, h)) found

  -- If at a look within the lease the table has a package under the request's key with the value
  -- that the request waits for, the client whose request is at the head of the queue is answered a
  -- success, and the request leaves the queue. `seen` holds the tables that the polls meet,
  -- whatever other threads do to the table.
  pub callback_round-live :
      (t : Table)
      → Looks interval n s.pmap seen t
      → HasValue w.zpack t
      → callback_round interval seen s
        ≡ (some (record { addr = w.addr; result = rec_succ }), record s { pqueue = rest })
  callback_round-live t look found =
      round_lem
      ∙ ap (λ (o : Option Str). (send_to w.addr o, record s { pqueue = rest }))
          (found_lem t look (look_finds w.zpack t found))

  -- The round ends in an answer within the lease.
  pub callback_round_total :
      n ≤ interval * (length seen + 1) → (callback_round interval seen s).0 ≢ none
  unfolding answer
  callback_round_total h = λ e.
      unsent w.addr answer
        (poll_total interval n 0 w.zpack (state_change_callback_internal w.zpack s.pmap) seen
          (omega (arith, h)))
        (sym (ap (λ (r : Option Sent × Server). r.0) round_lem) ∙ e)

  -- If the client at the head of the queue is told success, then at a look within its lease, the
  -- first one or a later one, the table had a package under the request's key with the value that
  -- the request waits for.
  pub callback_round_sound :
      (callback_round interval seen s).0 ≡ some (record { addr = w.addr; result = rec_succ })
      → (t : Table) × Looks interval n s.pmap seen t × HasValue w.zpack t
  unfolding answer
  callback_round_sound h =
      elim (poll_sound interval n 0 w.zpack (state_change_callback_internal w.zpack s.pmap) seen
        (sent_lem w.addr answer (sym (ap (λ (r : Option Sent × Server). r.0) round_lem) ∙ h))) [
          | inl first ↦ (s.pmap, at_once, look_sound w.zpack s.pmap first)
          | inr (i, t, at, within, found) ↦
              (t, later i t at (omega (arith, within)), look_sound w.zpack t found)
        ]
