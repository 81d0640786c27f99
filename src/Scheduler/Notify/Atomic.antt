-- ===== src/Scheduler/Notify/Atomic.antt =====
-- What `notify_children` of matrix/src/scheduler_stub.cpp does to the records of the children, with
-- other schedulers at work on the same records.
use matrix_v.Prelude.{
  ℕ, pos, ◌+ℤ◌, ◌-ℤ◌, ◌++◌, ◌+◌, ◌≡◌, ◌≢◌, refl, sym, ap, ◌∙◌, subst, Option-cases, inl, inr, some,
  List, [], ◌∷◌, arith, if◌then◌else◌, Str, str_eq, str_eq_ne, codes, All, All-mono,
}
use matrix_v.Text.Token.{AllOff}
use matrix_v.Text.Value.{get_number, Value, value_to_str, str_to_value, str_to_value_nil}
use matrix_v.Zht.Interface.{Zht, IsKey, IsStorable}
use matrix_v.Scheduler.State.{CmpQueueItem}
use matrix_v.Scheduler.Swap.{Spent, swap, swap-IsAtomic}
use matrix_v.Scheduler.Notify.{update_child, next_child, Others, children_loop, notify_children}
use matrix_v.Scheduler.Notify.Records.{
  IsSlashless, value_to_str-IsStorable, update_child-IsSlashless,
}
use matrix_v.Scheduler.Swap.Reach.{Reached, here, Reached-keeps, Reached-closed}

-- The texts are all different.
abbrev pub IsApart : List Str → Type 0
IsApart [] = Unit
IsApart (k ∷ ks) = All (λ q. k ≢ q) ks × IsApart ks

module _ {S : Type 0} (zht : Zht S) where
  open zht use {lookup}

  -- The store has a record under the key that can be read, with no slash in its texts.
  abbrev pub HasRecord : Str → S → Type 0
  HasRecord k s = (v : Value) × (str_to_value (lookup k s) ≡ some v) × IsSlashless v

  -- The record with one less unfinished parent, and with the finished task's scheduler and output.
  pub record IsUpdated (self : Str) (item : CmpQueueItem) (old new : Value) : Type 0 where
    pub lowered : new.indegree ≡ some (get_number old.indegree -ℤ pos 1)
    pub parent : new.parents ≡ old.parents ++ self ∷ []
    pub name : new.datanamelist ≡ old.datanamelist ++ item.key ∷ []
    pub size : new.datasize ≡ old.datasize ++ item.data_size ∷ []
    pub total : new.alldatasize ≡ some (get_number old.alldatasize +ℤ item.data_size)
    pub same :
        (new.id ≡ old.id)
        × (new.children ≡ old.children)
        × (new.outputsize ≡ old.outputsize)
        × (new.submittime ≡ old.submittime)

  -- One step has replaced the record of the child `k`, as it was at that moment, by the updated one,
  -- and has changed the value of no other key: `before` is the store that the step met, which the others made from `s`.
  pub record IsLowered (self : Str) (item : CmpQueueItem) (k : Str) (other : Others zht) (s s' : S)
      : Type 0 where
    pub before : S
    pub reached : Reached other.during (other.ahead s) before
    pub value : Value
    pub found : str_to_value (lookup k before) ≡ some value
    pub new : Value
    pub updated : IsUpdated self item value new
    pub stored :
        (q : Str)
        → IsKey q
        → lookup q s' ≡ (if str_eq q k then value_to_str new else lookup q before)

  -- The children are treated one after the other, each in one atomic step.
  abbrev pub IsNotified : Str → CmpQueueItem → List Str → List (Others zht) → S → S → Type 0
  IsNotified self item [] others s s' = s ≡ s'
  IsNotified self item (k ∷ ks) [] s s' = ⊥
  IsNotified self item (k ∷ ks) (other ∷ others) s s' =
      (mid : S) × IsLowered self item k other s mid × IsNotified self item ks others mid s'

  -- What the others do keeps the record of `k` readable.
  abbrev pub IsTame : Others zht → Str → Type 0
  IsTame other k =
      ((s : S) → HasRecord k s → HasRecord k (other.ahead s))
      × All (λ f. (s : S) → HasRecord k s → HasRecord k (f s)) other.during

  module _ (self : Str) (item : CmpQueueItem) (self_ok : AllOff (codes "//") self)
      (key_ok : AllOff (codes "//") item.key) where
    update_child-IsUpdated :
        (self : Str) (item : CmpQueueItem) (v : Value)
        → IsUpdated self item v (update_child self item v)
    unfolding update_child
    update_child-IsUpdated self item v = record {
      lowered = refl;
      parent = refl;
      name = refl;
      size = refl;
      total = refl;
      same = (refl, refl, refl, refl);
    }

    next_child_ok :
        (k : Str) (s : S) (new : Str)
        → HasRecord k s
        → next_child self item (lookup k s) ≡ some new
        → (lookup k s ≢ []) × IsStorable new
    unfolding next_child
    next_child_ok k s new (v, found, w) e = (
      (λ q. absurd (cc (found, ap str_to_value q, str_to_value_nil))),
      subst IsStorable (let r : value_to_str (update_child self item v) ≡ new = ground arith in r) (
          value_to_str-IsStorable (update_child self item v)
            (update_child-IsSlashless self item v w self_ok key_ok)),
    )

    swap-IsLowered :
        (k : Str) (other : Others zht) (spent : Spent zht) (s s' : S)
        → IsKey k
        → IsTame other k
        → HasRecord k s
        → swap zht (next_child self item) k other.during (other.ahead s) ≡ some (spent, s')
        → IsLowered self item k other s s'
    unfolding next_child
    swap-IsLowered k other spent s s' kk tame good run =
        let start : S = other.ahead s in
        let readable : (t : S) → Reached other.during start t → HasRecord k t =
          λ t r. Reached-keeps other.during start (HasRecord k) tame.1 (tame.0 s good) t r in
        let atomic =
          swap-IsAtomic zht (Reached other.during start) (next_child self item) k kk
            (λ t new r e. next_child_ok k t new (readable t r) e) other.during spent start s'
            (Reached-closed other.during start) here run in
        let (v, found, w) = readable atomic.before atomic.met in
        record {
          before = atomic.before;
          reached = atomic.met;
          value = v;
          found = found;
          new = update_child self item v;
          updated = update_child-IsUpdated self item v;
          stored = λ q i.
              atomic.stored q i
              ∙ ap (λ (t : Str). if str_eq q k then t else lookup q atomic.before)
                  (let r : atomic.new ≡ value_to_str (update_child self item v) =
                      ground (arith, atomic.from_current) in
                    r);
        }

    -- The other children keep their records.
    keeps :
        (k : Str) (ks : List Str) (other : Others zht) (s mid : S)
        → IsLowered self item k other s mid
        → All (λ q. k ≢ q) ks
        → All IsKey ks
        → All (IsTame other) ks
        → All (λ q. HasRecord q s) ks
        → All (λ q. HasRecord q mid) ks
    keeps k [] other s mid lowered apart keys tame good = tt
    keeps k (q ∷ ks) other s mid lowered apart keys tame good =
        let here =
          Reached-keeps other.during (other.ahead s) (HasRecord q) tame.0.1 (tame.0.0 s good.0)
            lowered.before lowered.reached in
        let same : lookup q mid ≡ lookup q lowered.before =
          lowered.stored q keys.0 ∙ rw (str_eq_ne q k (λ e. apart.0 (sym e))) refl in
        (
          (here.0, ap str_to_value same ∙ here.1, here.2),
          keeps k ks other s mid lowered apart.1 keys.1 tame.1 good.1,
        )

    children_loop-IsNotified :
        (ks : List Str) (others : List (Others zht)) (increment total : ℕ) (s s' : S)
        → IsApart ks
        → All IsKey ks
        → All (λ other. All (IsTame other) ks) others
        → All (λ q. HasRecord q s) ks
        → children_loop zht self item ks others increment s ≡ some (total, s')
        → IsNotified self item ks others s s'
    unfolding children_loop
    children_loop-IsNotified [] others increment total s s' apart keys tame good e = ground arith
    children_loop-IsNotified (k ∷ ks) [] increment total s s' apart keys tame good e = absurd (cc)
    children_loop-IsNotified (k ∷ ks) (other ∷ others) increment total s s' apart keys tame good e =
        elim (Option-cases (swap zht (next_child self item) k other.during (other.ahead s))) [
          | inl stop ↦ absurd (ground arith)
          | inr ((spent, mid), run) ↦
              let lowered = swap-IsLowered k other spent s mid keys.0 tame.0.0 good.0 run in
              (
                mid,
                lowered,
                children_loop-IsNotified ks others (increment + 2 + spent.lookups + spent.failures)
                    total mid s' apart.1 keys.1
                    (All-mono (λ other. All (IsTame other) (k ∷ ks))
                      (λ other. All (IsTame other) ks) (λ o h. h.1) others tame.1)
                    (keeps k ks other s mid lowered apart.0 keys.1 tame.0.1 good.1) (ground arith),
              )
        ]

    -- A run of `notify_children` that returns has treated the children of the finished task one
    -- after the other, each in one atomic step: the step replaces the record that the store has
    -- for the child at that moment by one with an indegree that is lower by one and with this
    -- scheduler and the output at the end of its lists, and changes the value of no other key.
    -- What other schedulers do before and between the attempts is arbitrary, as long as it keeps
    -- the records of the children readable and free of slashes. The record of the finished task
    -- and those of the children can be read at the start, the children are all different keys, and
    -- this scheduler's id and the output's key hold no slash.
    pub notify_children-IsNotified :
        (others : List (Others zht)) (total : ℕ) (s s' : S) (value : Value)
        → str_to_value (lookup item.task_id s) ≡ some value
        → IsApart value.children
        → All IsKey value.children
        → All (λ other. All (IsTame other) value.children) others
        → All (λ k. HasRecord k s) value.children
        → notify_children zht self item others s ≡ some (total, s')
        → IsNotified self item value.children others s s'
    unfolding notify_children
    notify_children-IsNotified others total s s' value found apart keys tame good e =
        children_loop-IsNotified value.children others 1 total s s' apart keys tame good
          (ground arith)
