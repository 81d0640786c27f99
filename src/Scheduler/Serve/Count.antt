-- ===== src/Scheduler/Serve/Count.antt =====
-- Numbers in the store that schedulers raise by compare-and-swap, and the value that
-- `recv_task_from_client` and `recording_stat` of matrix/src/scheduler_stub.cpp swap in.
use matrix_v.Prelude.{
  ℕ, ◌≡◌, ◌≢◌, ap, sym, ◌∙◌, subst, some, false, List, [], arith, Str, codes, str_eq, if◌then◌else◌,
  All, ℤ, pos, ◌+ℤ◌,
}
use matrix_v.Text.Number.{
  Fits, num_to_str, str_to_num, num_to_str_ne, IsNumeric, num_to_str-IsNumeric,
  str_to_num-num_to_str,
}
use matrix_v.Text.Token.{is_delimiter}
use matrix_v.Text.Field.{num_to_str-IsField, word_ne}
use matrix_v.Zht.Interface.{Zht, IsKey, IsStorable}
use matrix_v.Scheduler.Swap.{IsAtomic}
use matrix_v.Scheduler.Swap.Reach.{Reached, Reached-keeps}
use matrix_v.Scheduler.Serve.{next_recv}

num_to_str-IsStorable : (z : ℤ) → IsStorable (num_to_str z)
unfolding is_delimiter
num_to_str-IsStorable z = (
  num_to_str-IsField (codes "//") z (λ c h. off c h),
  word_ne b'n' (codes "oval") (num_to_str z) (omega arith) (num_to_str-IsNumeric z),
  word_ne b'n' (codes "onewval") (num_to_str z) (omega arith) (num_to_str-IsNumeric z),
)
  where
    off : (c : ℕ) → IsNumeric c → is_delimiter (codes "//") c ≡ false
    off c h = ground arith

module _ {S : Type 0} (zht : Zht S) where
  open zht use {lookup}

  -- The store has a number of 64 bits under the key.
  abbrev pub HasCount : Str → S → Type 0
  HasCount k s = (z : ℤ) × Fits 64 z × (lookup k s ≡ num_to_str z)

  abbrev pub KeepCount : Str → (S → S) → Type 0
  KeepCount k f = (t : S) → HasCount k t → HasCount k (f t)

  pub next_recv_ok :
      (k : Str) (num_task : ℤ) (s : S) (new : Str)
      → HasCount k s
      → next_recv num_task (lookup k s) ≡ some new
      → (lookup k s ≢ []) × IsStorable new
  unfolding next_recv
  next_recv_ok k num_task s new (z, f, q) e = (
    rw q (num_to_str_ne z),
    subst IsStorable (let r : num_to_str (str_to_num 64 (lookup k s) +ℤ num_task) ≡ new = cc in r)
        (num_to_str-IsStorable (str_to_num 64 (lookup k s) +ℤ num_task)),
  )

  -- One step has raised the number by `n`, and has changed the value of no other key: `before` is
  -- the store that the step met, which steps of `fs` made from `start`, and `count` its number.
  pub record IsRaised (fs : List (S → S)) (start : S) (k : Str) (n : ℕ) (s' : S) : Type 0 where
    pub before : S
    pub reached : Reached fs start before
    pub count : ℤ
    pub was : lookup k before ≡ num_to_str count
    pub stored :
        (q : Str)
        → IsKey q
        → lookup q s' ≡ (if str_eq q k then num_to_str (count +ℤ pos n) else lookup q before)

  -- What can be reached has a number, if there is one at the start.
  pub Reached-HasCount :
      (fs : List (S → S)) (start : S) (k : Str)
      → All (KeepCount k) fs
      → HasCount k start
      → (t : S) → Reached fs start t
      → HasCount k t
  Reached-HasCount fs start k keep h t r = Reached-keeps fs start (HasCount k) keep h t r

  pub IsAtomic-IsRaised :
      (fs : List (S → S)) (start : S) (k : Str) (n : ℕ) (s' : S)
      → All (KeepCount k) fs
      → HasCount k start
      → IsAtomic zht (Reached fs start) (next_recv (pos n)) k s'
      → IsRaised fs start k n s'
  unfolding next_recv
  IsAtomic-IsRaised fs start k n s' keep h a =
      let (z, fits, was) = Reached-HasCount fs start k keep h a.before a.met in
      let read : str_to_num 64 (lookup k a.before) ≡ z =
        ap (str_to_num 64) was ∙ str_to_num-num_to_str 64 z fits in
      let new : a.new ≡ num_to_str (z +ℤ pos n) =
        (let q : num_to_str (str_to_num 64 (lookup k a.before) +ℤ pos n) ≡ a.new =
            (let e = a.from_current in cc) in
          sym q)
        ∙ ap (λ y. num_to_str (y +ℤ pos n)) read in
      record {
        before = a.before;
        reached = a.met;
        count = z;
        was = was;
        stored =
            λ q i. a.stored q i ∙ ap (λ (x : Str). if str_eq q k then x else lookup q a.before) new;
      }
