-- ===== src/Store/Triples.antt =====
-- Each method keeps the store durable, and what it has written when it returns.
use xrp_inteliggence_x.Base.{
  ◌≡◌, refl, ◌∙◌, ap, Bool, true, false, not, ◌&&◌, ◌||◌, some, lookup, values, lookup-insert, ◌==◌,
  length, exists, same, same_eq, same_refl, list_order, nat_order, Bool-cases, Option-cases, inl,
  inr, is_sha256, Str, Error, Result, ok, raise, arith, DateTime, utc,
}
use xrp_inteliggence_x.Contract.Observation.{HistoricalObservation}
use xrp_inteliggence_x.Store.Model.{
  BlobRow, FetchReceipt, ReceiptRow, CheckpointRow, Store, RawBlob, Action, ◌>>=◌, ◌>>◌, continue,
  fail_if, require, return, blob_path, write_blob, register_blob, put_raw, insert_receipt,
  record_fetch, matches, validate_receipt, constraint_fails, insert_observation, save_observation,
  upsert_checkpoint, save_checkpoint,
}
use xrp_inteliggence_x.Store.Durable.{
  IsDurable, ObservationIsBacked, files-IsDurable, raw_blobs-IsDurable, fetch_receipts-IsDurable,
  observations-IsDurable, checkpoints-IsDurable,
}

module _ (sha256 : Str → Str) where
  -- The store stays durable, and a call that returns establishes `Q`.
  abbrev pub Ends : {A : Type 0} → (A → Store → Type 0) → Store × Result A → Type 0
  Ends Q (s, raise e) = IsDurable sha256 s
  Ends Q (s, ok a) = IsDurable sha256 s × Q a s

  abbrev pub Triple : {A : Type 0} → (Store → Type 0) → Action A → (A → Store → Type 0) → Type 0
  Triple P call Q = (s : Store) → IsDurable sha256 s → P s → Ends Q (call s)

  pub >>=-Triple :
      {A B : Type 0} (P : Store → Type 0) (R : A → Store → Type 0) (Q : B → Store → Type 0)
      (call : Action A) (next : A → Action B)
      → Triple P call R
      → ((a : A) → Triple (R a) (next a) Q)
      → Triple P (call >>= next) Q
  unfolding ◌>>=◌
  >>=-Triple {A} {B} P R Q call next t u s d p = go (call s) (t s d p)
    where
      go : (r : Store × Result A) → Ends R r → Ends Q (continue r next)
      go (t, raise e) x = x
      go (t, ok a) x = u a t x.0 x.1

  pub Ends-IsDurable :
      {A : Type 0} (Q : A → Store → Type 0) (r : Store × Result A) → Ends Q r → IsDurable sha256 r.0
  Ends-IsDurable Q (s, raise e) h = h
  Ends-IsDurable Q (s, ok a) h = h.0

  pub fail_if-Ends :
      (Q : Unit {0} → Store → Type 0) (b : Bool) (e : Error) (s : Store)
      → IsDurable sha256 s
      → (b ≡ false → Q tt s)
      → Ends Q (fail_if b e s)
  fail_if-Ends Q true e s d q = d
  fail_if-Ends Q false e s d q = (d, q refl)

  -- What `put_raw` has to do with one payload, under its digest.
  abbrev pub FileIs : Str → Store → Type 0
  FileIs payload s = lookup (blob_path (sha256 payload)) s.files ≡ some payload

  abbrev pub RowIs : Str → Store → Type 0
  RowIs payload s =
      lookup (sha256 payload) s.raw_blobs
      ≡ some (record { byte_count = length payload; relative_path = blob_path (sha256 payload) })

  write_blob-Triple :
      (payload : Str)
      → Triple
          (λ s. Unit {0})
          (write_blob sha256 (blob_path (sha256 payload)) (sha256 payload) payload)
          (λ u t. FileIs payload t)
  unfolding write_blob
  write_blob-Triple payload s d p =
      elim (Option-cases (lookup (blob_path (sha256 payload)) s.files)) [
        | inr (existing, found) ↦
            rw (write_blob, found)
              (fail_if-Ends (λ u t. FileIs payload t) _ _ s d
                (λ free. found ∙ ap some (same_eq existing payload (ground arith))))
        | inl fresh ↦
            rw (write_blob, fresh)
              (
                files-IsDurable sha256 s d _ payload fresh,
                lookup-insert _ _ payload s.files ∙ rw same_refl refl,
              )
      ]

  register_blob-Triple :
      (payload : Str)
      → Triple
          (FileIs payload)
          (register_blob sha256 (blob_path (sha256 payload)) (sha256 payload) (length payload))
          (λ u t. FileIs payload t × RowIs payload t)
  unfolding register_blob
  register_blob-Triple payload s d p = elim (Option-cases (lookup (sha256 payload) s.raw_blobs)) [
    | inr (row, found) ↦
        rw (register_blob, found)
          (fail_if-Ends (λ u t. FileIs payload t × RowIs payload t) _ _ s d
            (λ free. (p, found ∙ ap some (row_eq row free))))
    | inl fresh ↦
        elim (Bool-cases
          (exists (λ r. same r.relative_path (blob_path (sha256 payload))) (values s.raw_blobs))) [
            | inl taken ↦ rw (register_blob, fresh, taken) d
            | inr free ↦
                rw (register_blob, fresh, free)
                  (
                    raw_blobs-IsDurable sha256 s d _ payload _ fresh p refl,
                    (p, lookup-insert _ _ _ s.raw_blobs ∙ rw same_refl refl),
                  )
          ]
  ]
    where
      row_eq :
          (row : BlobRow)
          → not (row.byte_count == length payload)
              || not (same row.relative_path (blob_path (sha256 payload)))
            ≡ false
          → row ≡ record { byte_count = length payload; relative_path = blob_path (sha256 payload) }
      row_eq row free =
          let size : row.byte_count ≡ length payload = ground arith in
          let path = same_eq row.relative_path (blob_path (sha256 payload)) (ground arith) in
          ground arith

  abbrev pub Any : {A : Type 0} → A → Store → Type 0
  Any a s = Unit

  -- What `put_raw` leaves behind.
  abbrev pub IsPut : Str → RawBlob → Store → Type 0
  IsPut payload blob t =
      (is_sha256 (sha256 payload) ≡ true)
      × FileIs payload t
      × RowIs payload t
      × (blob.payload_sha256 ≡ sha256 payload)

  pub put_raw-Triple :
      (payload : Str) → Triple (λ s. Unit {0}) (put_raw sha256 payload) (IsPut payload)
  unfolding put_raw
  put_raw-Triple payload =
      >>=-Triple (λ s. Unit {0}) Any (IsPut payload) (fail_if _ _) _
        (λ s d p. fail_if-Ends Any _ _ s d (λ free. tt))
        (λ u.
          >>=-Triple (Any u) (λ v s. is_sha256 (sha256 payload) ≡ true) (IsPut payload)
            (fail_if _ _) _
            (λ s d p.
              fail_if-Ends (λ v t. is_sha256 (sha256 payload) ≡ true) _ _ s d
                (λ free. ground arith))
            (λ v s d digest. written digest s d tt))
    where
      written :
          is_sha256 (sha256 payload) ≡ true
          → Triple
              (λ s. Unit {0})
              (write_blob sha256 (blob_path (sha256 payload)) (sha256 payload) payload
                >> (register_blob sha256
                      (blob_path (sha256 payload))
                      (sha256 payload)
                      (length payload)
                    >> return (record {
                      payload_sha256 = sha256 payload;
                      byte_count = length payload;
                      relative_path = blob_path (sha256 payload);
                    })))
              (IsPut payload)
      written digest =
          >>=-Triple (λ s. Unit {0}) (λ u t. FileIs payload t) (IsPut payload) _ _
            (write_blob-Triple payload)
            (λ u.
              >>=-Triple (FileIs payload) (λ v t. FileIs payload t × RowIs payload t)
                (IsPut payload) _ _ (register_blob-Triple payload)
                (λ v s d p. (d, (digest, p.0, p.1, refl))))

  module _ (receipt_json : FetchReceipt → Str) (observation_json : HistoricalObservation → Str)
      (canonical_sha256 : HistoricalObservation → Str) where
    insert_receipt-Triple :
        (r : FetchReceipt)
        → Triple
            (λ s. Unit {0})
            (insert_receipt sha256 receipt_json observation_json canonical_sha256 r)
            Any
    unfolding insert_receipt
    insert_receipt-Triple r s d p = elim (Option-cases (lookup r.fetch_id s.fetch_receipts)) [
      | inr (row, found) ↦ rw (insert_receipt, found) (fail_if-Ends Any _ _ s d (λ free. tt))
      | inl fresh ↦ elim (Option-cases (lookup r.payload_sha256 s.raw_blobs)) [
        | inl unknown ↦ rw (insert_receipt, fresh, unknown) d
        | inr (row, known) ↦
            rw (insert_receipt, fresh, known)
              (fetch_receipts-IsDurable sha256 s d r.fetch_id _ row fresh known, tt)
      ]
    ]

    pub record_fetch-Triple :
        (payload : Str) (r : FetchReceipt)
        → Triple
            (λ s. Unit {0})
            (record_fetch sha256 receipt_json observation_json canonical_sha256 payload r)
            Any
    unfolding record_fetch
    record_fetch-Triple payload r =
        >>=-Triple (λ s. Unit {0}) Any Any (fail_if _ _) _
          (λ s d p. fail_if-Ends Any _ _ s d (λ free. tt))
          (λ u.
            >>=-Triple (Any u) (IsPut payload) Any _ _ (λ s d p. put_raw-Triple payload s d tt)
              (λ blob.
                >>=-Triple (IsPut payload blob) Any Any _ _
                  (λ s d p. insert_receipt-Triple r s d tt) (λ v s d p. (d, tt))))

    -- The receipt that an observation has been checked against.
    abbrev HasReceipt : HistoricalObservation → Store → Type 0
    HasReceipt o s =
        (r : ReceiptRow) × (lookup o.fetch_id s.fetch_receipts ≡ some r)
        × (matches sha256 receipt_json observation_json canonical_sha256 o r ≡ true)

    validate_receipt-Triple :
        (o : HistoricalObservation)
        → Triple
            (λ s. Unit {0})
            (validate_receipt sha256 receipt_json observation_json canonical_sha256 o)
            (λ u s. HasReceipt o s)
    unfolding validate_receipt
    validate_receipt-Triple o s d p = elim (Option-cases (lookup o.fetch_id s.fetch_receipts)) [
      | inl unknown ↦ rw (validate_receipt, unknown) d
      | inr (row, found) ↦
          rw (validate_receipt, found)
            (fail_if-Ends (λ u t. HasReceipt o t) _ _ s d (λ free. (row, found, ground arith)))
    ]

    backed :
        (o : HistoricalObservation) (s : Store)
        → HasReceipt o s
        → ObservationIsBacked s.fetch_receipts o.observation_id (
            some (record {
              columns = o;
              canonical_sha256 = canonical_sha256 o;
              payload_json = observation_json o;
            }))
    backed o s (r, found, agrees) = (
      r,
      found,
      same_eq r.payload_sha256 o.payload_sha256 (ground arith),
      same_eq r.source_id o.source_id (ground arith),
      same_eq r.provider o.provider (ground arith),
      ground arith,
      refl,
    )

    insert_observation-Triple :
        (o : HistoricalObservation)
        → Triple
            (HasReceipt o)
            (insert_observation sha256 receipt_json observation_json canonical_sha256 o)
            Any
    unfolding insert_observation
    insert_observation-Triple o s d p =
        elim (Option-cases (lookup o.observation_id s.observations)) [
          | inr (row, found) ↦
              rw (insert_observation, found) (fail_if-Ends Any _ _ s d (λ free. tt))
          | inl fresh ↦
              elim (Bool-cases
                (constraint_fails sha256 receipt_json observation_json canonical_sha256 o s)) [
                  | inl fails ↦ rw (insert_observation, fresh, fails) d
                  | inr holds ↦
                      rw (insert_observation, fresh, holds)
                        (
                          observations-IsDurable sha256 s d o.observation_id _ fresh (backed o s p),
                          tt,
                        )
                ]
        ]

    pub save_observation-Triple :
        (o : HistoricalObservation)
        → Triple
            (λ s. Unit {0})
            (save_observation sha256 receipt_json observation_json canonical_sha256 o)
            Any
    unfolding save_observation
    save_observation-Triple o =
        >>=-Triple (λ s. Unit {0}) (λ u s. HasReceipt o s) Any _ _ (validate_receipt-Triple o)
          (λ u. insert_observation-Triple o)

  upsert_checkpoint-Triple :
      (job : Str) (row : CheckpointRow) → Triple (λ s. Unit {0}) (upsert_checkpoint job row) Any
  unfolding upsert_checkpoint
  upsert_checkpoint-Triple job row s d p = elim (Option-cases (lookup job s.checkpoints)) [
    | inl fresh ↦ rw (upsert_checkpoint, fresh) (checkpoints-IsDurable sha256 s d job row, tt)
    | inr (old, found) ↦ elim (Bool-cases (old.completed && not row.completed)) [
      | inl reopens ↦ rw (upsert_checkpoint, found, reopens) d
      | inr goes_on ↦
          rw (upsert_checkpoint, found, goes_on) (checkpoints-IsDurable sha256 s d job row, tt)
    ]
  ]

  pub require-Ends :
      {A : Type 0} (r : Result A) (s : Store) → IsDurable sha256 s → Ends Any (require r s)
  require-Ends (raise e) s d = d
  require-Ends (ok a) s d = (d, tt)

  pub save_checkpoint-Triple :
      (job cursor : Str) (completed : Bool) (updated : DateTime)
      → Triple (λ s. Unit {0}) (save_checkpoint job cursor completed updated) Any
  unfolding save_checkpoint
  save_checkpoint-Triple job cursor completed updated =
      >>=-Triple (λ s. Unit {0}) Any Any (fail_if _ _) _
        (λ s d p. fail_if-Ends Any _ _ s d (λ free. tt))
        (λ u.
          >>=-Triple (Any u) Any Any _ _ (λ s d p. require-Ends (utc updated "updated_at") s d)
            (λ at s d p. upsert_checkpoint-Triple job _ s d tt))
