-- ===== src/Store/PartitionGrowth.antt =====
-- `write_partition` lets the store grow only, whether it returns or raises.
use xrp_inteliggence_x.Base.{
  Bool, List, [], ◌∷◌, lookup, list_order, nat_order, Bool-cases, Option-cases, inl, inr, Str,
  DateTime,
}
use xrp_inteliggence_x.Contract.Observation.{HistoricalObservation}
use xrp_inteliggence_x.Store.Model.{FetchReceipt, DurablePartition, Member, Store, fail_if}
use xrp_inteliggence_x.Store.Partitions.{
  save_all, write_part, differs, is_taken, are_saved, register_members, register_partition,
  store_part, write_partition, persist_partition_then_checkpoint,
}
use xrp_inteliggence_x.Store.Extends.{
  Extends, Extends-refl, Grows, >>=-Grows, fail_if-Grows, files-Extends, partitions-Extends,
  members-Extends,
}
use xrp_inteliggence_x.Store.Growth.{save_observation-Grows, save_checkpoint-Grows}

module _ (sha256 : Str → Str) (receipt_json : FetchReceipt → Str)
    (observation_json : HistoricalObservation → Str)
    (canonical_sha256 : HistoricalObservation → Str) where
  write_part-Grows :
      (path digest payload : Str)
      → Grows (write_part sha256 receipt_json observation_json canonical_sha256 path digest payload)
  unfolding write_part
  write_part-Grows path digest payload s = elim (Option-cases (lookup path s.files)) [
    | inr (existing, found) ↦ rw (write_part, found) (fail_if-Grows _ _ s)
    | inl fresh ↦ rw (write_part, fresh) (files-Extends s path payload fresh)
  ]

  register_members-Extends :
      (p : DurablePartition) (os : List HistoricalObservation) (t s : Store)
      → ((ms : List Member) → Extends s (record t { partition_members = ms }))
      → Extends s
          (register_members sha256 receipt_json observation_json canonical_sha256 p os t s).0
  unfolding register_members
  register_members-Extends p os t s grows =
      elim (Bool-cases (are_saved sha256 receipt_json observation_json canonical_sha256 os s)) [
        | inl saved ↦ rw (register_members, saved) (grows _)
        | inr unsaved ↦ rw (register_members, unsaved) (Extends-refl s)
      ]

  register_partition-Grows :
      (p : DurablePartition) (os : List HistoricalObservation)
      → Grows (register_partition sha256 receipt_json observation_json canonical_sha256 p os)
  unfolding register_partition
  register_partition-Grows p os s = elim (Option-cases (lookup p.partition_id s.partitions)) [
    | inr (row, found) ↦
        elim (Bool-cases (differs sha256 receipt_json observation_json canonical_sha256 row p)) [
          | inl differ ↦ rw (register_partition, found, differ) (Extends-refl s)
          | inr agree ↦
              rw (register_partition, found, agree)
                (register_members-Extends p os s s (λ ms. members-Extends s ms))
        ]
    | inl fresh ↦
        elim (Bool-cases (is_taken sha256 receipt_json observation_json canonical_sha256 p s)) [
          | inl taken ↦ rw (register_partition, fresh, taken) (Extends-refl s)
          | inr free ↦
              rw (register_partition, fresh, free)
                (register_members-Extends p os _ s (λ ms. partitions-Extends s p ms fresh))
        ]
  ]

  save_all-Grows :
      (os : List HistoricalObservation)
      → Grows (save_all sha256 receipt_json observation_json canonical_sha256 os)
  unfolding save_all
  save_all-Grows [] = λ s. Extends-refl s
  save_all-Grows (o ∷ os) =
      >>=-Grows _ _ (save_observation-Grows sha256 receipt_json observation_json canonical_sha256 o)
        (λ u. save_all-Grows os)

  pub write_partition-Grows :
      (dataset key : Str) (os : List HistoricalObservation)
      → Grows (write_partition sha256 receipt_json observation_json canonical_sha256 dataset key os)
  unfolding write_partition store_part
  write_partition-Grows dataset key [] =
      >>=-Grows (fail_if _ _) _ (fail_if-Grows _ _)
        (λ u. >>=-Grows (fail_if _ _) _ (fail_if-Grows _ _) (λ v s. Extends-refl s))
  write_partition-Grows dataset key (o ∷ os) = >>=-Grows (fail_if _ _) _ (fail_if-Grows _ _) (λ u.
      >>=-Grows (fail_if _ _) _ (fail_if-Grows _ _) (λ v.
        >>=-Grows (fail_if _ _) _ (fail_if-Grows _ _) (λ w.
          >>=-Grows _ _ (save_all-Grows (o ∷ os)) (λ x.
            >>=-Grows _ _ (λ s. Extends-refl s)
              (λ payload. >>=-Grows _ _ (write_part-Grows _ _ payload) (λ y.
                >>=-Grows _ _ (register_partition-Grows _ (o ∷ os)) (λ z s. Extends-refl s)))))))

  pub persist_partition_then_checkpoint-Grows :
      (dataset key : Str) (os : List HistoricalObservation) (job cursor : Str) (completed : Bool)
      (updated : DateTime)
      → Grows (
          persist_partition_then_checkpoint sha256 receipt_json observation_json canonical_sha256
            dataset key os job cursor completed updated)
  unfolding persist_partition_then_checkpoint
  persist_partition_then_checkpoint-Grows dataset key os job cursor completed updated =
      >>=-Grows _ _ (write_partition-Grows dataset key os) (λ p.
        >>=-Grows _ _ (save_checkpoint-Grows job cursor completed updated) (λ u s. Extends-refl s))
