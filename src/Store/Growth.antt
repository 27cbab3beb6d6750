-- ===== src/Store/Growth.antt =====
-- Each method lets the store grow only, whether it returns or raises.
use xrp_inteliggence_x.Base.{
  ℕ, refl, Bool, not, ◌&&◌, lookup, values, exists, same, list_order, nat_order, Option-cases,
  Bool-cases, inl, inr, is_some, Str, DateTime,
}
use xrp_inteliggence_x.Contract.Observation.{HistoricalObservation}
use xrp_inteliggence_x.Store.Model.{
  FetchReceipt, CheckpointRow, write_blob, register_blob, put_raw, insert_receipt, record_fetch,
  validate_receipt, constraint_fails, insert_observation, save_observation, upsert_checkpoint,
  save_checkpoint,
}
use xrp_inteliggence_x.Store.Extends.{
  Extends-refl, Grows, >>=-Grows, fail_if-Grows, files-Extends, raw_blobs-Extends,
  fetch_receipts-Extends, observations-Extends, checkpoints-Extends,
}

module _ (sha256 : Str → Str) where
  write_blob-Grows : (path digest payload : Str) → Grows (write_blob sha256 path digest payload)
  unfolding write_blob
  write_blob-Grows path digest payload s = elim (Option-cases (lookup path s.files)) [
    | inr (existing, found) ↦ rw (write_blob, found) (fail_if-Grows _ _ s)
    | inl fresh ↦ rw (write_blob, fresh) (files-Extends s path payload fresh)
  ]

  register_blob-Grows :
      (path digest : Str) (count : ℕ) → Grows (register_blob sha256 path digest count)
  unfolding register_blob
  register_blob-Grows path digest count s = elim (Option-cases (lookup digest s.raw_blobs)) [
    | inr (row, found) ↦ rw (register_blob, found) (fail_if-Grows _ _ s)
    | inl fresh ↦ elim (Bool-cases (exists (λ r. same r.relative_path path) (values s.raw_blobs))) [
      | inl taken ↦ rw (register_blob, fresh, taken) (Extends-refl s)
      | inr free ↦ rw (register_blob, fresh, free) (raw_blobs-Extends s digest _ fresh)
    ]
  ]

  pub put_raw-Grows : (payload : Str) → Grows (put_raw sha256 payload)
  unfolding put_raw
  put_raw-Grows payload = >>=-Grows _ _ (fail_if-Grows _ _) (λ _.
      >>=-Grows _ _ (fail_if-Grows _ _) (λ _.
        >>=-Grows _ _ (write_blob-Grows _ _ _)
          (λ _. >>=-Grows _ _ (register_blob-Grows _ _ _) (λ _. Extends-refl))))

  module _ (receipt_json : FetchReceipt → Str) (observation_json : HistoricalObservation → Str)
      (canonical_sha256 : HistoricalObservation → Str) where
    insert_receipt-Grows :
        (r : FetchReceipt)
        → Grows (insert_receipt sha256 receipt_json observation_json canonical_sha256 r)
    unfolding insert_receipt
    insert_receipt-Grows r s = elim (Option-cases (lookup r.fetch_id s.fetch_receipts)) [
      | inr (row, found) ↦ rw (insert_receipt, found) (fail_if-Grows _ _ s)
      | inl fresh ↦ elim (Bool-cases (is_some (lookup r.payload_sha256 s.raw_blobs))) [
        | inl known ↦
            rw (insert_receipt, fresh, known) (fetch_receipts-Extends s r.fetch_id _ fresh)
        | inr unknown ↦ rw (insert_receipt, fresh, unknown) (Extends-refl s)
      ]
    ]

    pub record_fetch-Grows :
        (payload : Str) (r : FetchReceipt)
        → Grows (record_fetch sha256 receipt_json observation_json canonical_sha256 payload r)
    unfolding record_fetch
    record_fetch-Grows payload r = >>=-Grows _ _ (fail_if-Grows _ _) (λ _.
        >>=-Grows _ _ (put_raw-Grows payload)
          (λ blob. >>=-Grows _ _ (insert_receipt-Grows r) (λ _. Extends-refl)))

    validate_receipt-Grows :
        (o : HistoricalObservation)
        → Grows (validate_receipt sha256 receipt_json observation_json canonical_sha256 o)
    unfolding validate_receipt
    validate_receipt-Grows o s = elim (Option-cases (lookup o.fetch_id s.fetch_receipts)) [
      | inr (row, found) ↦ rw (validate_receipt, found) (fail_if-Grows _ _ s)
      | inl unknown ↦ rw (validate_receipt, unknown) (Extends-refl s)
    ]

    insert_observation-Grows :
        (o : HistoricalObservation)
        → Grows (insert_observation sha256 receipt_json observation_json canonical_sha256 o)
    unfolding insert_observation
    insert_observation-Grows o s = elim (Option-cases (lookup o.observation_id s.observations)) [
      | inr (row, found) ↦ rw (insert_observation, found) (fail_if-Grows _ _ s)
      | inl fresh ↦
          elim (Bool-cases
            (constraint_fails sha256 receipt_json observation_json canonical_sha256 o s)) [
              | inl fails ↦ rw (insert_observation, fresh, fails) (Extends-refl s)
              | inr holds ↦
                  rw (insert_observation, fresh, holds)
                    (observations-Extends s o.observation_id _ fresh)
            ]
    ]

    pub save_observation-Grows :
        (o : HistoricalObservation)
        → Grows (save_observation sha256 receipt_json observation_json canonical_sha256 o)
    unfolding save_observation
    save_observation-Grows o =
        >>=-Grows _ _ (validate_receipt-Grows o) (λ _. insert_observation-Grows o)

upsert_checkpoint-Grows : (job : Str) (row : CheckpointRow) → Grows (upsert_checkpoint job row)
unfolding upsert_checkpoint
upsert_checkpoint-Grows job row s = elim (Option-cases (lookup job s.checkpoints)) [
  | inl fresh ↦ rw (upsert_checkpoint, fresh) (checkpoints-Extends s job row (rw fresh refl))
  | inr (old, found) ↦ elim (Bool-cases (old.completed && not row.completed)) [
    | inl reopens ↦ rw (upsert_checkpoint, found, reopens) (Extends-refl s)
    | inr goes_on ↦
        rw (upsert_checkpoint, found, goes_on) (checkpoints-Extends s job row (rw found goes_on))
  ]
]

pub save_checkpoint-Grows :
    (job cursor : Str) (completed : Bool) (updated : DateTime)
    → Grows (save_checkpoint job cursor completed updated)
unfolding save_checkpoint
save_checkpoint-Grows job cursor completed updated =
    >>=-Grows _ _ (fail_if-Grows _ _)
      (λ _. >>=-Grows _ _ (λ s. Extends-refl s) (λ at. upsert_checkpoint-Grows job _))
