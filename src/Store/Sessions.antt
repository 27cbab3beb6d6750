-- ===== src/Store/Sessions.antt =====
-- Any sequence of calls.
use xrp_inteliggence_x.Base.{
  ◌≡◌, refl, subst, Bool, true, some, ok, arith, length, same_refl, is_sha256, List, [], ◌∷◌,
  lookup, list_order, nat_order, Str, DateTime,
}
use xrp_inteliggence_x.Contract.Observation.{HistoricalObservation}
use xrp_inteliggence_x.Store.Model.{
  FetchReceipt, Store, RawBlob, BlobRow, empty, read_raw, read_file, check_blob, put_raw,
  record_fetch, save_observation, save_checkpoint,
}
use xrp_inteliggence_x.Store.Extends.{Extends, Extends-refl, Extends-trans}
use xrp_inteliggence_x.Store.Durable.{IsDurable, empty-IsDurable, kept}
use xrp_inteliggence_x.Store.Triples.{
  Ends, Ends-IsDurable, Any, IsPut, put_raw-Triple, record_fetch-Triple, save_observation-Triple,
  save_checkpoint-Triple,
}
use xrp_inteliggence_x.Store.Partitions.{write_partition, persist_partition_then_checkpoint}
use xrp_inteliggence_x.Store.PartitionLaws.{
  IsRegistered, write_partition-Triple, persist_partition_then_checkpoint-Triple,
}
use xrp_inteliggence_x.Store.PartitionGrowth.{
  write_partition-Grows, persist_partition_then_checkpoint-Grows,
}
use xrp_inteliggence_x.Store.Manifests.{ManifestPayload, finalize_manifest}
use xrp_inteliggence_x.Store.ManifestLaws.{IsFaithful, finalize_manifest-Triple}
use xrp_inteliggence_x.Store.ManifestGrowth.{finalize_manifest-Grows}
use xrp_inteliggence_x.Store.Growth.{
  put_raw-Grows, record_fetch-Grows, save_observation-Grows, save_checkpoint-Grows,
}

-- A call of a method that writes.
pub data Operation : Type 0 where
  put : Str → Operation
  fetch : Str → FetchReceipt → Operation
  observe : HistoricalObservation → Operation
  checkpoint : Str → Str → Bool → DateTime → Operation
  partition : Str → Str → List HistoricalObservation → Operation
  persist : Str → Str → List HistoricalObservation → Str → Str → Bool → DateTime → Operation
  finalize : Str → Str → DateTime → Operation

module _ (sha256 : Str → Str) (receipt_json : FetchReceipt → Str)
    (observation_json : HistoricalObservation → Str)
    (canonical_sha256 : HistoricalObservation → Str) (manifest_json : ManifestPayload → Str) where
  -- The store after a call, whether it returns or raises.
  unfoldable pub step : Operation → Store → Store
  step (put payload) s = (put_raw sha256 payload s).0
  step (fetch payload r) s =
      (record_fetch sha256 receipt_json observation_json canonical_sha256 payload r s).0
  step (observe o) s =
      (save_observation sha256 receipt_json observation_json canonical_sha256 o s).0
  step (checkpoint job cursor completed updated) s =
      (save_checkpoint job cursor completed updated s).0
  step (partition dataset key os) s =
      (write_partition sha256 receipt_json observation_json canonical_sha256 dataset key os s).0
  step (persist dataset key os job cursor completed updated) s =
      (persist_partition_then_checkpoint sha256 receipt_json observation_json canonical_sha256
        dataset key os job cursor completed updated s).0
  step (finalize dataset version created_at) s =
      (finalize_manifest sha256 manifest_json dataset version created_at s).0

  unfoldable pub run : List Operation → Store → Store
  run [] s = s
  run (o ∷ os) s = run os (step o s)

  step-Extends : (o : Operation) (s : Store) → Extends s (step o s)
  unfolding step
  step-Extends (put payload) s = put_raw-Grows sha256 payload s
  step-Extends (fetch payload r) s =
      record_fetch-Grows sha256 receipt_json observation_json canonical_sha256 payload r s
  step-Extends (observe o) s =
      save_observation-Grows sha256 receipt_json observation_json canonical_sha256 o s
  step-Extends (checkpoint job cursor completed updated) s =
      save_checkpoint-Grows job cursor completed updated s
  step-Extends (partition dataset key os) s =
      write_partition-Grows sha256 receipt_json observation_json canonical_sha256 dataset key os s
  step-Extends (persist dataset key os job cursor completed updated) s =
      persist_partition_then_checkpoint-Grows sha256 receipt_json observation_json canonical_sha256
        dataset key os job cursor completed updated s
  step-Extends (finalize dataset version created_at) s =
      finalize_manifest-Grows sha256 manifest_json dataset version created_at s

  -- Whatever calls are made, in whatever order and whether they return or raise, every file and every
  -- row of a blob, a receipt, an observation, a partition or a manifest stays as it is, and a completed job stays
  -- completed.
  pub run-Extends : (os : List Operation) (s : Store) → Extends s (run os s)
  unfolding run
  run-Extends [] s = Extends-refl s
  run-Extends (o ∷ os) s =
      Extends-trans s (step o s) (run os (step o s)) (step-Extends o s) (run-Extends os (step o s))

  step-IsDurable : (o : Operation) (s : Store) → IsDurable sha256 s → IsDurable sha256 (step o s)
  unfolding step
  step-IsDurable (put payload) s d =
      Ends-IsDurable sha256 (IsPut sha256 payload) _ (put_raw-Triple sha256 payload s d tt)
  step-IsDurable (fetch payload r) s d =
      Ends-IsDurable sha256 (Any sha256) _
        (record_fetch-Triple sha256 receipt_json observation_json canonical_sha256 payload r s d tt)
  step-IsDurable (observe o) s d =
      Ends-IsDurable sha256 (Any sha256) _
        (save_observation-Triple sha256 receipt_json observation_json canonical_sha256 o s d tt)
  step-IsDurable (checkpoint job cursor completed updated) s d =
      Ends-IsDurable sha256 (Any sha256) _
        (save_checkpoint-Triple sha256 job cursor completed updated s d tt)
  step-IsDurable (partition dataset key os) s d = Ends-IsDurable sha256 (IsRegistered sha256) _ (
      write_partition-Triple sha256 receipt_json observation_json canonical_sha256 dataset key os s
        d tt)
  step-IsDurable (persist dataset key os job cursor completed updated) s d =
      Ends-IsDurable sha256 (Any sha256) _ (
        persist_partition_then_checkpoint-Triple sha256 receipt_json observation_json
          canonical_sha256 dataset key os job cursor completed updated s d tt)
  step-IsDurable (finalize dataset version created_at) s d =
      Ends-IsDurable sha256 (IsFaithful sha256 dataset) _
        (finalize_manifest-Triple sha256 manifest_json dataset version created_at s d tt)

  run_from-IsDurable :
      (os : List Operation) (s : Store) → IsDurable sha256 s → IsDurable sha256 (run os s)
  unfolding run
  run_from-IsDurable [] s d = d
  run_from-IsDurable (o ∷ os) s d = run_from-IsDurable os (step o s) (step-IsDurable o s d)

  -- After any calls on an empty store, each blob's file is there, of the size and the digest that its
  -- row says, each receipt's blob is registered, each observation is stored under its identifier and
  -- agrees with its receipt on payload, source, provider and fetch time, each partition's file is
  -- there, of the digest that its row says, and the members of partitions are registered observations.
  pub run-IsDurable : (os : List Operation) → IsDurable sha256 (run os empty)
  run-IsDurable os = run_from-IsDurable os empty (empty-IsDurable sha256)

  read_back :
      (payload : Str) (t : Store) (row : BlobRow)
      → row.byte_count ≡ length payload
      → is_sha256 (sha256 payload) ≡ true
      → lookup (sha256 payload) t.raw_blobs ≡ some row
      → lookup row.relative_path t.files ≡ some payload
      → read_raw sha256 (sha256 payload) t ≡ ok payload
  unfolding read_raw
  read_back payload t row size digest found stored =
      let file : read_file sha256 row.relative_path t.files ≡ ok payload =
        rw (read_file, stored) refl in
      rw (digest, found, file) (content row size)
    where
      content :
          (row : BlobRow)
          → row.byte_count ≡ length payload
          → check_blob sha256 (sha256 payload) row (ok payload) ≡ ok payload
      content row size = ground (arith, same_refl (sha256 payload))

  -- A payload that has been put into a durable store is read back from under its digest, whatever
  -- calls come in between.
  pub read_raw-put_raw :
      (payload : Str) (s : Store) (os : List Operation) {t : Store} {blob : RawBlob}
      → IsDurable sha256 s
      → put_raw sha256 payload s ≡ (t, ok blob)
      → read_raw sha256 blob.payload_sha256 (run os t) ≡ ok payload
  read_raw-put_raw payload s os {t} {blob} d h =
      let (_, (digest, file, row, named)) =
        subst (λ r. Ends sha256 (IsPut sha256 payload) r) h
          (put_raw-Triple sha256 payload s d tt) in
      let later = run-Extends os t in
      rw named (
        read_back payload (run os t) _ refl digest (kept (later.raw_blobs (sha256 payload)) row)
          (kept (later.files _) file))
