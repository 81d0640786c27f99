-- ===== src/Tests/Blob.antt =====
-- Messages in blobs (Zht.Blob).
use matrix_v.Prelude.{◌≡◌, refl, [], ◌∷◌, Str, codes, arith, inl, inr}
use matrix_v.Dag.OrderedMap.{find}
use matrix_v.Zht.Blob.{Blob, blob, split, full_blobs}
use matrix_v.Zht.Blob.Header.{IsWireBlob}
use matrix_v.Zht.Blob.Deliver.{IsDelivered, split-IsDelivered}

-- A message in two blobs, which arrive in the other order, around a blob of another message.
abbrev greeting : Str
greeting = codes "hello"

abbrev head : Blob
head = blob 5 1 2 (codes "hel")

abbrev tail : Blob
tail = blob 5 2 2 (codes "lo")

abbrev other : Blob
other = blob 6 1 3 (codes "x")

greeting-split : split 5 3 greeting ≡ head ∷ tail ∷ []
unfolding split full_blobs
greeting-split = refl

head-IsWireBlob : IsWireBlob head
head-IsWireBlob = record {
  uuid_ok = omega arith;
  seq_num_ok = omega arith;
  total_ok = omega arith;
  size_ok = omega arith;
}

tail-IsWireBlob : IsWireBlob tail
tail-IsWireBlob = record {
  uuid_ok = omega arith;
  seq_num_ok = omega arith;
  total_ok = omega arith;
  size_ok = omega arith;
}

other-IsWireBlob : IsWireBlob other
other-IsWireBlob = record {
  uuid_ok = omega arith;
  seq_num_ok = omega arith;
  total_ok = omega arith;
  size_ok = omega arith;
}

split-IsDelivered_example :
    IsDelivered 5 greeting (split 5 3 greeting) (tail ∷ other ∷ head ∷ []) []
unfolding split full_blobs find
split-IsDelivered_example =
    split-IsDelivered 5 3 greeting (tail ∷ other ∷ head ∷ []) [] (omega arith) (λ e. cc) tt refl
      (tail-IsWireBlob, (other-IsWireBlob, (head-IsWireBlob, tt)))
      ((λ e. inr (inl refl)), ((λ e. absurd (omega (arith, e))), ((λ e. inl refl), tt)))
      (λ b a. elim a [ inl e ↦ inr (inr (inl e)) | inr (inl e) ↦ inl e | inr (inr v) ↦ absurd v ])
