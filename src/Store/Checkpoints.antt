-- ===== src/Store/Checkpoints.antt =====
-- `record_fetch` and `write_partition` leave the checkpoints alone, whether they return or raise.
use xrp_inteliggence_x.Base.{
  ℕ, values, exists, same, is_some, ◌≡◌, refl, ◌∙◌, Bool, true, false, List, [], ◌∷◌, lookup,
  list_order, nat_order, Bool-cases, Option-cases, inl, inr, Str, Error, Result, ok, raise,
}
use xrp_inteliggence_x.Contract.Observation.{HistoricalObservation}
use xrp_inteliggence_x.Store.Model.{
  FetchReceipt, DurablePartition, Store, Action, ◌>>=◌, continue, fail_if, write_blob,
  register_blob, put_raw, insert_receipt, record_fetch, save_observation, validate_receipt,
  constraint_fails, insert_observation,
}
use xrp_inteliggence_x.Store.Partitions.{
  save_all, write_part, differs, is_taken, are_saved, register_members, register_partition,
  store_part, write_partition,
}

-- A call that leaves the checkpoints alone.
abbrev pub KeepsCheckpoints : {A : Type 0} → Action A → Type 0
KeepsCheckpoints call = (s : Store) → (call s).0.checkpoints ≡ s.checkpoints

>>=-KeepsCheckpoints :
    {A B : Type 0} (call : Action A) (next : A → Action B)
    → KeepsCheckpoints call
    → ((a : A) → KeepsCheckpoints (next a))
    → KeepsCheckpoints (call >>= next)
unfolding ◌>>=◌
>>=-KeepsCheckpoints {A} {B} call next k h s = go (call s) (k s)
  where
    go :
        (r : Store × Result A)
        → r.0.checkpoints ≡ s.checkpoints
        → (continue r next).0.checkpoints ≡ s.checkpoints
    go (t, raise e) x = x
    go (t, ok a) x = h a t ∙ x

fail_if-KeepsCheckpoints : (b : Bool) (e : Error) → KeepsCheckpoints (fail_if b e)
fail_if-KeepsCheckpoints true e s = refl
fail_if-KeepsCheckpoints false e s = refl

validate_receipt-KeepsCheckpoints :
    (sha256 : Str → Str) (receipt_json : FetchReceipt → Str)
    (observation_json : HistoricalObservation → Str)
    (canonical_sha256 : HistoricalObservation → Str) (o : HistoricalObservation)
    → KeepsCheckpoints (validate_receipt sha256 receipt_json observation_json canonical_sha256 o)
unfolding validate_receipt
validate_receipt-KeepsCheckpoints sha256 receipt_json observation_json canonical_sha256 o s =
    elim (Option-cases (lookup o.fetch_id s.fetch_receipts)) [
      | inr (row, found) ↦ rw (validate_receipt, found) (fail_if-KeepsCheckpoints _ _ s)
      | inl unknown ↦ rw (validate_receipt, unknown) refl
    ]

insert_observation-KeepsCheckpoints :
    (sha256 : Str → Str) (receipt_json : FetchReceipt → Str)
    (observation_json : HistoricalObservation → Str)
    (canonical_sha256 : HistoricalObservation → Str) (o : HistoricalObservation)
    → KeepsCheckpoints (insert_observation sha256 receipt_json observation_json canonical_sha256 o)
unfolding insert_observation
insert_observation-KeepsCheckpoints sha256 receipt_json observation_json canonical_sha256 o s =
    elim (Option-cases (lookup o.observation_id s.observations)) [
      | inr (row, found) ↦ rw (insert_observation, found) (fail_if-KeepsCheckpoints _ _ s)
      | inl fresh ↦
          elim (Bool-cases
            (constraint_fails sha256 receipt_json observation_json canonical_sha256 o s)) [
              | inl fails ↦ rw (insert_observation, fresh, fails) refl
              | inr holds ↦ rw (insert_observation, fresh, holds) refl
            ]
    ]

module _ (sha256 : Str → Str) where
  write_blob-KeepsCheckpoints :
      (path digest payload : Str) → KeepsCheckpoints (write_blob sha256 path digest payload)
  unfolding write_blob
  write_blob-KeepsCheckpoints path digest payload s = elim (Option-cases (lookup path s.files)) [
    | inr (existing, found) ↦ rw (write_blob, found) (fail_if-KeepsCheckpoints _ _ s)
    | inl fresh ↦ rw (write_blob, fresh) refl
  ]

  register_blob-KeepsCheckpoints :
      (path digest : Str) (count : ℕ) → KeepsCheckpoints (register_blob sha256 path digest count)
  unfolding register_blob
  register_blob-KeepsCheckpoints path digest count s =
      elim (Option-cases (lookup digest s.raw_blobs)) [
        | inr (row, found) ↦ rw (register_blob, found) (fail_if-KeepsCheckpoints _ _ s)
        | inl fresh ↦
            elim (Bool-cases (exists (λ r. same r.relative_path path) (values s.raw_blobs))) [
              | inl taken ↦ rw (register_blob, fresh, taken) refl
              | inr free ↦ rw (register_blob, fresh, free) refl
            ]
      ]

  put_raw-KeepsCheckpoints : (payload : Str) → KeepsCheckpoints (put_raw sha256 payload)
  unfolding put_raw
  put_raw-KeepsCheckpoints payload =
      >>=-KeepsCheckpoints (fail_if _ _) _ (fail_if-KeepsCheckpoints _ _) (λ u.
        >>=-KeepsCheckpoints (fail_if _ _) _ (fail_if-KeepsCheckpoints _ _) (λ v.
          >>=-KeepsCheckpoints _ _ (write_blob-KeepsCheckpoints _ _ _)
            (λ x. >>=-KeepsCheckpoints _ _ (register_blob-KeepsCheckpoints _ _ _) (λ y s. refl))))

module _ (sha256 : Str → Str) (receipt_json : FetchReceipt → Str)
    (observation_json : HistoricalObservation → Str)
    (canonical_sha256 : HistoricalObservation → Str) where
  insert_receipt-KeepsCheckpoints :
      (r : FetchReceipt)
      → KeepsCheckpoints (insert_receipt sha256 receipt_json observation_json canonical_sha256 r)
  unfolding insert_receipt
  insert_receipt-KeepsCheckpoints r s = elim (Option-cases (lookup r.fetch_id s.fetch_receipts)) [
    | inr (row, found) ↦ rw (insert_receipt, found) (fail_if-KeepsCheckpoints _ _ s)
    | inl fresh ↦ elim (Bool-cases (is_some (lookup r.payload_sha256 s.raw_blobs))) [
      | inl known ↦ rw (insert_receipt, fresh, known) refl
      | inr unknown ↦ rw (insert_receipt, fresh, unknown) refl
    ]
  ]

  pub record_fetch-KeepsCheckpoints :
      (payload : Str) (r : FetchReceipt)
      → KeepsCheckpoints
          (record_fetch sha256 receipt_json observation_json canonical_sha256 payload r)
  unfolding record_fetch
  record_fetch-KeepsCheckpoints payload r =
      >>=-KeepsCheckpoints (fail_if _ _) _ (fail_if-KeepsCheckpoints _ _) (λ u.
        >>=-KeepsCheckpoints _ _ (put_raw-KeepsCheckpoints sha256 payload)
          (λ blob. >>=-KeepsCheckpoints _ _ (insert_receipt-KeepsCheckpoints r) (λ v s. refl)))

  save_all-KeepsCheckpoints :
      (os : List HistoricalObservation)
      → KeepsCheckpoints (save_all sha256 receipt_json observation_json canonical_sha256 os)
  unfolding save_all save_observation
  save_all-KeepsCheckpoints [] = λ s. refl
  save_all-KeepsCheckpoints (o ∷ os) =
      >>=-KeepsCheckpoints _ _
        (>>=-KeepsCheckpoints _ _
          (validate_receipt-KeepsCheckpoints sha256 receipt_json observation_json canonical_sha256
            o)
          (λ u.
            insert_observation-KeepsCheckpoints sha256 receipt_json observation_json
              canonical_sha256 o))
        (λ u. save_all-KeepsCheckpoints os)

  write_part-KeepsCheckpoints :
      (path digest payload : Str)
      → KeepsCheckpoints
          (write_part sha256 receipt_json observation_json canonical_sha256 path digest payload)
  unfolding write_part
  write_part-KeepsCheckpoints path digest payload s = elim (Option-cases (lookup path s.files)) [
    | inr (existing, found) ↦ rw (write_part, found) (fail_if-KeepsCheckpoints _ _ s)
    | inl fresh ↦ rw (write_part, fresh) refl
  ]

  register_members-keep :
      (p : DurablePartition) (os : List HistoricalObservation) (t s : Store)
      → t.checkpoints ≡ s.checkpoints
      → (register_members sha256 receipt_json observation_json canonical_sha256 p os t
          s).0.checkpoints
        ≡ s.checkpoints
  unfolding register_members
  register_members-keep p os t s h =
      elim (Bool-cases (are_saved sha256 receipt_json observation_json canonical_sha256 os s)) [
        | inl saved ↦ rw (register_members, saved) h
        | inr unsaved ↦ rw (register_members, unsaved) refl
      ]

  register_partition-KeepsCheckpoints :
      (p : DurablePartition) (os : List HistoricalObservation)
      → KeepsCheckpoints
          (register_partition sha256 receipt_json observation_json canonical_sha256 p os)
  unfolding register_partition
  register_partition-KeepsCheckpoints p os s =
      elim (Option-cases (lookup p.partition_id s.partitions)) [
        | inr (row, found) ↦
            elim (Bool-cases
              (differs sha256 receipt_json observation_json canonical_sha256 row p)) [
                | inl differ ↦ rw (register_partition, found, differ) refl
                | inr agree ↦
                    rw (register_partition, found, agree) (register_members-keep p os s s refl)
              ]
        | inl fresh ↦
            elim (Bool-cases (is_taken sha256 receipt_json observation_json canonical_sha256 p s)) [
              | inl taken ↦ rw (register_partition, fresh, taken) refl
              | inr free ↦
                  rw (register_partition, fresh, free) (register_members-keep p os _ s refl)
            ]
      ]

  pub write_partition-KeepsCheckpoints :
      (dataset key : Str) (os : List HistoricalObservation)
      → KeepsCheckpoints
          (write_partition sha256 receipt_json observation_json canonical_sha256 dataset key os)
  unfolding write_partition store_part
  write_partition-KeepsCheckpoints dataset key [] =
      >>=-KeepsCheckpoints (fail_if _ _) _ (fail_if-KeepsCheckpoints _ _)
        (λ u. >>=-KeepsCheckpoints (fail_if _ _) _ (fail_if-KeepsCheckpoints _ _) (λ v s. refl))
  write_partition-KeepsCheckpoints dataset key (o ∷ os) =
      >>=-KeepsCheckpoints (fail_if _ _) _ (fail_if-KeepsCheckpoints _ _) (λ u.
        >>=-KeepsCheckpoints (fail_if _ _) _ (fail_if-KeepsCheckpoints _ _) (λ v.
          >>=-KeepsCheckpoints (fail_if _ _) _ (fail_if-KeepsCheckpoints _ _) (λ w.
            >>=-KeepsCheckpoints _ _ (save_all-KeepsCheckpoints (o ∷ os)) (λ x.
              >>=-KeepsCheckpoints _ _ (λ s. refl)
                (λ payload. >>=-KeepsCheckpoints _ _ (write_part-KeepsCheckpoints _ _ payload) (λ y.
                  >>=-KeepsCheckpoints _ _ (register_partition-KeepsCheckpoints _ (o ∷ os))
                    (λ z s. refl)))))))
