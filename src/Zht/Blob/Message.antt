-- ===== src/Zht/Blob/Message.antt =====
-- The messages that come out while blobs of one message arrive among others
-- (ZHT/src/bigdata_transfer.cpp).
use matrix_v.Prelude.{
  ℕ, ◌+◌, ◌*◌, ◌<◌, ◌≤◌, ◌≡◌, ◌≢◌, refl, ap, sym, ◌∙◌, subst, Option, none, some, Bool-cases, ◌⊎◌,
  inl, inr, List, [], ◌∷◌, arith, ◌==◌, if◌then◌else◌, Str, length, All,
}
use matrix_v.Zht.Blob.{Blob, BdMap, insert, combine_blobs, arrive}
use matrix_v.Zht.Blob.Subset.{
  Among, IsSubset, IsSubset-Compared, Among-insert_old, Among-insert_new, Among-one, length-insert,
}
use matrix_v.Zht.Blob.Pieces.{IsMessage}
use matrix_v.Zht.Blob.Sets.{set_of}
use matrix_v.Zht.Blob.Arrive.{IsOpen, Arrived, waits, complete, arrive_lem, arrive_other}

abbrev pub and_then : Option Str → List Str → List Str
and_then none later = later
and_then (some msg) later = msg ∷ later

-- The messages that are put together when blobs with the id arrive.
abbrev pub messages : ℕ → List Blob → BdMap → List Str
messages uuid [] m = []
messages uuid (b ∷ bs) m =
    let r = arrive b m in
    let later = messages uuid bs r.1 in if b.uuid == uuid then and_then r.0 later else later

-- The blobs with the id.
abbrev pub arrivals : ℕ → List Blob → ℕ
arrivals uuid [] = 0
arrivals uuid (b ∷ bs) = (if b.uuid == uuid then 1 else 0) + arrivals uuid bs

module _ (uuid : ℕ) (parts : List Blob) (w : IsMessage uuid (length parts) parts)
    (pos : 0 < length parts) where
  -- All blobs with the id are of the message.
  abbrev pub IsOwn : Blob → Type 0
  IsOwn b = b.uuid ≡ uuid → Among b parts

  -- Each message is the whole one, and takes as many arrivals as it has blobs.
  pub record Sound (m : BdMap) (bs : List Blob) (got : List Str) : Type 0 where
    pub each : All (λ s. s ≡ combine_blobs parts) got
    pub often : length got * length parts ≤ length (set_of uuid m) + arrivals uuid bs

  Sound-own :
      (b : Blob) (bs : List Blob) (m : BdMap) (later : List Str)
      → b.uuid ≡ uuid
      → Arrived uuid parts w pos b m (arrive b m).0 (arrive b m).1
      → Sound (arrive b m).1 bs later
      → Sound m (b ∷ bs) (and_then (arrive b m).0 later)
  Sound-own b bs m later e (waits none_yet kept) rest = rw none_yet (record {
    each = rest.each;
    often =
        ground (
          arith,
          rest.often,
          ap (λ (x : List Blob). length x) kept,
          length-insert b (set_of uuid m),
        );
  })
  Sound-own b bs m later e (complete whole used) rest =
      rw whole (record { each = (refl, rest.each); often = ground (arith, rest.often) })

  pub messages-Sound :
      (bs : List Blob) (m : BdMap)
      → All IsOwn bs
      → IsOpen uuid parts w pos m
      → Sound m bs (messages uuid bs m)
  messages-Sound [] m own h = record { each = tt; often = omega arith }
  messages-Sound (b ∷ bs) m own h = elim (Bool-cases (b.uuid == uuid)) [
    | inl same ↦
        let e : b.uuid ≡ uuid = ground arith in
        let step = arrive_lem uuid parts w pos b m (own.0 e) h in
        rw same (
          Sound-own b bs m (messages uuid bs (arrive b m).1) e step.0
            (messages-Sound bs (arrive b m).1 own.1 step.1))
    | inr other ↦
        let n : b.uuid ≢ uuid = λ e. ground arith in
        let step = arrive_other uuid parts w pos b m n h in
        let rest = messages-Sound bs (arrive b m).1 own.1 step.0 in
        rw other (record {
          each = rest.each;
          often = ground (arith, rest.often, ap (λ (x : List Blob). length x) step.1);
        })
  ]

  -- An arrival is in the set afterwards.
  arrived_in :
      (b : Blob) (set : List Blob) → Among b parts → IsSubset set parts → Among b (insert b set)
  arrived_in b set a sub = elim (Among-insert_new b set) [
    | inl i ↦ i
    | inr (d, i, e) ↦
        Among-insert_old b b set
          (subst (λ x. Among x set) (Among-one 1 d b parts w.ascending (sub d i) a e) i)
  ]

  abbrev pub IsCovered : BdMap → List Blob → Type 0
  IsCovered m bs = (c : Blob) → Among c parts → Among c (set_of uuid m) ⊎ Among c bs

  IsCovered-later :
      (b : Blob) (bs : List Blob) (m after : BdMap)
      → Among b parts
      → IsSubset (set_of uuid m) parts
      → set_of uuid after ≡ insert b (set_of uuid m)
      → IsCovered m (b ∷ bs)
      → IsCovered after bs
  IsCovered-later b bs m after a sub kept h c i = elim (h c i) [
    | inl old ↦ inl (subst (λ x. Among c x) (sym kept) (Among-insert_old b c (set_of uuid m) old))
    | inr (inl e) ↦ inl (
        subst (λ x. Among c x) (sym kept)
          (subst (λ x. Among x (insert b (set_of uuid m))) (sym e)
            (arrived_in b (set_of uuid m) a sub)))
    | inr (inr later) ↦ inr later
  ]

  and_then_ne : (o : Option Str) (later : List Str) → later ≢ [] → and_then o later ≢ []
  and_then_ne none later n = n
  and_then_ne (some s) later n = λ e. cc

  -- Once all blobs have arrived, the message was put together.
  pub messages_ne :
      (bs : List Blob) (m : BdMap)
      → All IsOwn bs
      → IsOpen uuid parts w pos m
      → IsCovered m bs
      → messages uuid bs m ≢ []
  messages_ne [] m own h c =
      let all : IsSubset parts (set_of uuid m) =
        λ b a. elim (c b a) [ inl i ↦ i | inr v ↦ absurd v ] in
      absurd (
        omega (
          arith,
          h.missing,
          (IsSubset-Compared 1 parts (set_of uuid m) w.ascending h.ascending all).shorter,
        ))
  messages_ne (b ∷ bs) m own h c = elim (Bool-cases (b.uuid == uuid)) [
    | inl same ↦
        let e : b.uuid ≡ uuid = ground arith in
        let step = arrive_lem uuid parts w pos b m (own.0 e) h in
        rw same (elim step.0 [
          | waits none_yet kept ↦ and_then_ne (arrive b m).0 (messages uuid bs (arrive b m).1) (
              messages_ne bs (arrive b m).1 own.1 step.1
                (IsCovered-later b bs m (arrive b m).1 (own.0 e) h.subset kept c))
          | complete whole used ↦ rw whole (λ x. cc)
        ])
    | inr other ↦
        let n : b.uuid ≢ uuid = λ e. ground arith in
        let step = arrive_other uuid parts w pos b m n h in
        rw other (
          messages_ne bs (arrive b m).1 own.1 step.0 (λ d i. elim (c d i) [
            | inl old ↦ inl (subst (λ x. Among d x) (sym step.1) old)
            | inr (inl e) ↦ absurd (n (ap (λ (x : Blob). x.uuid) (sym e) ∙ w.owned d i))
            | inr (inr later) ↦ inr later
          ]))
  ]
