-- ===== src/Zht/Remote/Implements.antt =====
-- One server behind one proxy is a store of schedulers and clients: ZHTClient
-- (ZHT/src/cpp_zhtclient.cpp), HTWorker (ZHT/src/HTWorker.cpp) and NoVoHT (ZHT/src/novoht.cpp) fill
-- the interface.

use mathlib.Core.HLevel.{Σ_prop_path}
use mathlib.Core.Logic.{∥∥₁_elim, ∥∥₁_map}
use mathlib.Core.Bool.{Bool-set}
use native.Mathlib.Decide.{ℕ_discrete}
use matrix_v.Prelude.{ℕ, ◌≡◌, ◌≢◌, ap, true, false, [], if◌then◌else◌, Str, str_eq, ℤ}
use matrix_v.Zht.Interface.{Zht, Swapped, IsKey, IsStorable}
use matrix_v.Zht.Chain.{Pair}
use matrix_v.Zht.Table.{Table}
use matrix_v.Zht.Worker.{Setup, Server}
use matrix_v.Zht.Remote.Serving.{IsServing}
use matrix_v.Zht.Remote.Store.{look, put_in, put_in-IsServing, look-put_in}
use matrix_v.Zht.Remote.Swapping.{swap_in, swap_in-IsServing, swap_hit_lem, swap_miss_lem}

-- A server whose table holds packages of clients.
abbrev pub Store : Type 0
Store = (s : Server) × ∥ IsServing s.pmap ∥₁

Str-set : IsSet Str
Str-set = hlevel ℕ_discrete

ℤ-discrete : Discrete ℤ
ℤ-discrete = hlevel ℕ_discrete

Pair-discrete : Discrete Pair
Pair-discrete = hlevel (ℕ_discrete)

Table-discrete : Discrete Table
Table-discrete = hlevel (ℕ_discrete, ℤ-discrete, Pair-discrete)

Server-set : IsSet Server
Server-set = hlevel (ℕ_discrete, ℤ-discrete, Table-discrete)

-- A proposition that holds of two servers.
of_both :
    {P : Type 0} (s s₀ : Store) → IsProp P → (IsServing s₀.0.pmap → IsServing s.0.pmap → P) → P
of_both s s₀ prop f = ∥∥₁_elim s₀.1 prop (λ v₀. ∥∥₁_elim s.1 prop (λ v. f v₀ v))

module _ (setup : Setup) (late : setup.instant_swap ≡ false) (addr : ℕ) where
  abbrev lookup : Str → Store → Str
  lookup k s = look setup late addr k s.0

  abbrev insert : Str → Str → Store → Store
  insert k v s =
      (put_in setup late addr k v s.0, ∥∥₁_map s.1 (put_in-IsServing setup late addr k v s.0))

  abbrev compare_swap : Str → Str → Str → Store → Swapped Store
  compare_swap k seen new s =
      let r = swap_in setup late addr k seen new s.0 in
      record {
        done = r.done;
        query_value = r.query_value;
        after = (r.after, ∥∥₁_map s.1 (swap_in-IsServing setup late addr k seen new s.0));
      }

  lookup-insert_lem :
      (k q v : Str) (s : Store)
      → IsKey k
      → IsKey q
      → IsStorable v
      → lookup q (insert k v s) ≡ (if str_eq q k then v else lookup q s)
  lookup-insert_lem k q v s h i w =
      ∥∥₁_elim s.1 (Str-set _ _) (look-put_in setup late addr k q v s.0 h i w)

  hit_lem :
      (k seen new : Str) (s : Store)
      → IsKey k
      → IsStorable new
      → seen ≢ []
      → lookup k s ≡ seen
      → ((compare_swap k seen new s).done ≡ true)
        × ((q : Str)
            → IsKey q
            → lookup q (compare_swap k seen new s).after ≡ (if str_eq q k then new else lookup q s))
  hit_lem k seen new s h w n e = (
    ∥∥₁_elim s.1 (Bool-set _ _) (λ v. (swap_hit_lem setup late addr k seen new s.0 h w n e v).0),
    λ q i.
        ∥∥₁_elim s.1 (Str-set _ _)
          (λ v. (swap_hit_lem setup late addr k seen new s.0 h w n e v).1 q i),
  )

  miss_lem :
      (k seen new : Str) (s s₀ : Store)
      → IsKey k
      → IsStorable new
      → seen ≢ []
      → lookup k s₀ ≡ seen
      → lookup k s ≢ seen
      → ((compare_swap k seen new s).done ≡ false)
        × ((compare_swap k seen new s).query_value ≡ lookup k s)
        × ((compare_swap k seen new s).after ≡ s)
  miss_lem k seen new s s₀ h w n e differs =
      let miss = swap_miss_lem setup late addr k seen new s.0 s₀.0 h w n e differs in
      (
        of_both s s₀ (Bool-set _ _) (λ v₀ v. ap (λ (r : Swapped Server). r.done) (miss v₀ v)),
        of_both s s₀ (Str-set _ _) (λ v₀ v. ap (λ (r : Swapped Server). r.query_value) (miss v₀ v)),
        Σ_prop_path (λ t. hlevel)
            (of_both s s₀ (Server-set _ _)
              (λ v₀ v. ap (λ (r : Swapped Server). r.after) (miss v₀ v))),
      )

  -- A server that does not rewrite its file at once, behind a client, is a store that meets the
  -- interface, in both builds and with any table that holds packages of clients.
  pub remote : Zht Store
  remote = record {
    lookup = lookup;
    insert = insert;
    compare_swap = compare_swap;
    lookup-insert = lookup-insert_lem;
    swap_hit = hit_lem;
    swap_miss = miss_lem;
  }
