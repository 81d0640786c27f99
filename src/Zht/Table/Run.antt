-- ===== src/Zht/Table/Run.antt =====
-- NoVoHT (ZHT/src/novoht.cpp) against a map from keys to values: whole sequences of calls.
use matrix_v.Prelude.{
  ◌≡◌, ◌≢◌, refl, ap, ◌∙◌, Option, none, some, List, [], ◌∷◌, arith, true, if◌then◌else◌, Str,
  str_eq, All, ℤ, pos, ◌-ℤ◌,
}
use matrix_v.Zht.Chain.{find, find-value}
use matrix_v.Zht.Table
use matrix_v.Zht.Table.{Table, Outside, bucket}
use matrix_v.Zht.Table.Buckets.{IsValid, view}
use matrix_v.Zht.Table.Places.{Updates}
use matrix_v.Zht.Table.Ops.{appended, put-Updates, append-Updates, remove-Updates, get-view}
use matrix_v.Zht.Table.Codes.{IsOpen, Returns, put-Returns, append-Returns, remove-Returns}

pub data Call : Type 0 where
  put append : Outside → Str → Str → Call
  remove : Outside → Str → Call
  get : Str → Call

pub data Answer : Type 0 where
  code : ℤ → Answer
  found : Option Str → Answer

-- The table after one call, and what the call returns.
call : Call → Table → Answer × Table
call (put out k v) t = let d = Table.put out k v t in (code d.code, d.table)
call (append out k a) t = let d = Table.append out k a t in (code d.code, d.table)
call (remove out k) t = let d = Table.remove out k t in (code d.code, d.table)
call (get k) t = (found (Table.get k t), t)

pub run : List Call → Table → List Answer × Table
unfolding call
run [] t = ([], t)
run (c ∷ cs) t =
    let (answer, u) = call c t in let (answers, end) = run cs u in (answer ∷ answers, end)

abbrev pub Map : Type 0
Map = Str → Option Str

abbrev pub change : Str → Option Str → Map → Map
change k o m q = if str_eq q k then o else m q

abbrev pub removal : Option Str → ℤ
removal none = pos 0 -ℤ pos 1
removal (some v) = pos 0

-- The same call on a map.
abbrev pub call_map : Call → Map → Answer × Map
call_map (put out k v) m = (code (pos 0), change k (some v) m)
call_map (append out k a) m = (code (pos 0), change k (some (appended (m k) a)) m)
call_map (remove out k) m = (code (removal (m k)), change k none m)
call_map (get k) m = (found (m k), m)

abbrev pub run_map : List Call → Map → List Answer × Map
run_map [] m = ([], m)
run_map (c ∷ cs) m =
    let (answer, n) = call_map c m in let (answers, end) = run_map cs n in (answer ∷ answers, end)

-- A removal can start a thread and open a file where it needs them, and no empty key is looked up.
abbrev pub Regular : Call → Type 0
Regular (put out k v) = Unit
Regular (append out k a) = Unit
Regular (remove out k) = (out.thread_rc ≡ 0) × (out.swap_opens ≡ true)
Regular (get k) = k ≢ []

-- The table is well formed, open, and holds the map.
pub record Holds (m : Map) (t : Table) : Type 0 where
  pub valid : IsValid t
  pub opened : IsOpen t
  pub reads : (q : Str) → view t.size t.kvpairs q ≡ m q

Updates-Holds :
    (k : Str) (o : Option Str) (m : Map) (t u : Table)
    → Holds m t
    → Updates k o t u
    → IsOpen u
    → Holds (change k o m) u
Updates-Holds k o m t u h w opened = record {
  valid = w.valid;
  opened = opened;
  reads = λ q. ground (arith, w.viewed q, h.reads q);
}

removal-find :
    (k : Str) (m : Map) (t : Table)
    → Holds m t
    → elim (find k (bucket k t)) [ none ↦ pos 0 -ℤ pos 1 | some p ↦ pos 0 ] ≡ removal (m k)
removal-find k m t h = ground (arith, h.reads k, find-value k (bucket k t))

call-Holds :
    (c : Call) (m : Map) (t : Table)
    → Regular c
    → Holds m t
    → ((call c t).0 ≡ (call_map c m).0) × Holds (call_map c m).1 (call c t).1
unfolding call
call-Holds (put out k v) m t r h =
    let d : Returns (pos 0) (Table.put out k v t) = put-Returns out k v t h.opened in
    (
      ap code d.returned,
      Updates-Holds k (some v) m t (Table.put out k v t).table h (put-Updates out k v t h.valid)
          d.open_after,
    )
call-Holds (append out k a) m t r h =
    let d : Returns (pos 0) (Table.append out k a t) = append-Returns out k a t h.opened in
    (
      ap code d.returned,
      rw (← h.reads k) (
          Updates-Holds k (some (appended (view t.size t.kvpairs k) a)) m t
            (Table.append out k a t).table h (append-Updates out k a t h.valid) d.open_after),
    )
call-Holds (remove out k) m t r h =
    let d = remove-Returns out k t r.0 r.1 h.opened in
    (
      ap code (d.returned ∙ removal-find k m t h),
      Updates-Holds k none m t (Table.remove out k t).table h (remove-Updates out k t h.valid)
          d.open_after,
    )
call-Holds (get k) m t r h = (ap found (get-view k t r ∙ h.reads k), h)

-- A well-formed table that is open, or has no name for a file, answers every sequence of puts,
-- appends, removals and lookups as the map that it holds does, codes included, and holds the map
-- of the end. A removal finds a thread that can be started and a log that can be opened where it
-- needs them, and no empty key is looked up.
pub run-Holds :
    (cs : List Call) (m : Map) (t : Table)
    → All Regular cs
    → Holds m t
    → ((run cs t).0 ≡ (run_map cs m).0) × Holds (run_map cs m).1 (run cs t).1
unfolding run
run-Holds [] m t r h = (refl, h)
run-Holds (c ∷ cs) m t r h =
    let step = call-Holds c m t r.0 h in
    let later = run-Holds cs (call_map c m).1 (call c t).1 r.1 step.1 in
    (rw (step.0, later.0) (refl), later.1)
