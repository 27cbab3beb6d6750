-- ===== src/Store/ManifestLaws.antt =====
-- What a manifest that `finalize_manifest` returns says of the store.
use xrp_inteliggence_x.Base.{
  ℕ, ◌≡◌, refl, ◌∙◌, ap, Bool, false, Option, none, some, List, [], ◌∷◌, ◌++◌, map, All, All-map,
  is_nil, same_eq, same_refl, list_order, nat_order, Bool-cases, Option-cases, inl, inr, lookup,
  lookup-insert, Str, Error, Result, ok, raise, arith, DateTime, utc,
}
use xrp_inteliggence_x.Store.Model.{DurablePartition, ManifestRow, Store, Action, ◌>>◌, fail_if}
use xrp_inteliggence_x.Store.Manifests.{
  list_partitions, count_lines, total_rows, ManifestPayload, DurableManifest, check_partition,
  verify_partition, then_verify, verify_all, write_manifest, clashes, register_manifest,
  manifest_of, row_of, payload_of, publish, finalize_manifest,
}
use xrp_inteliggence_x.Store.Extends.{Extends, files-Extends, manifests-Extends}
use xrp_inteliggence_x.Store.Durable.{kept, files-IsDurable}
use xrp_inteliggence_x.Store.Triples.{Triple, Ends, >>=-Triple, fail_if-Ends, require-Ends, Any}

-- The file of a partition has the digest and the number of lines that its row says.
abbrev pub IsVerified : (Str → Str) → Store → DurablePartition → Type 0
IsVerified sha256 s p =
    (payload : Str) × (lookup p.relative_path s.files ≡ some payload)
    × (sha256 payload ≡ p.file_sha256)
    × (count_lines false payload ≡ p.row_count)

-- A manifest lists all partitions of its dataset, verified, with the number of their rows, and its own
-- file has its digest.
pub record IsFaithful (sha256 : Str → Str) (dataset : Str) (m : DurableManifest) (s : Store)
    : Type 0 where
  pub partitions : List DurablePartition
  pub listed : list_partitions dataset s ≡ ok partitions
  pub some_listed : is_nil partitions ≡ false
  pub verified : All (IsVerified sha256 s) partitions
  pub ids : m.partition_ids ≡ map (λ p. p.partition_id) partitions
  pub rows : m.total_rows ≡ total_rows partitions
  pub content : Str
  pub stored : lookup m.relative_path s.files ≡ some content
  pub hashed : sha256 content ≡ m.manifest_sha256

IsVerified-mono :
    (sha256 : Str → Str) (s t : Store) (p : DurablePartition)
    → Extends s t
    → IsVerified sha256 s p
    → IsVerified sha256 t p
IsVerified-mono sha256 s t p e (payload, found, hash, count) =
    (payload, kept (e.files p.relative_path) found, hash, count)

module _ (sha256 : Str → Str) (manifest_json : ManifestPayload → Str) where
  check_partition-eq-ok :
      (p : DurablePartition) (s : Store) (o : Option Str) {u : Unit {0}}
      → lookup p.relative_path s.files ≡ o
      → check_partition sha256 manifest_json p
          (elim o [ none ↦ raise Error.file_not_found | some b ↦ ok b ])
        ≡ ok u
      → IsVerified sha256 s p
  check_partition-eq-ok p s none found h = cc
  check_partition-eq-ok p s (some payload) found h =
      (payload, found, same_eq (sha256 payload) p.file_sha256 (ground arith), ground arith)

  verify_partition-eq-ok :
      (p : DurablePartition) (s : Store) {u : Unit {0}}
      → verify_partition sha256 manifest_json p s ≡ ok u
      → IsVerified sha256 s p
  unfolding verify_partition
  verify_partition-eq-ok p s h = check_partition-eq-ok p s (lookup p.relative_path s.files) refl h

  verify_all-eq-ok :
      (ps : List DurablePartition) (s : Store) {u : Unit {0}}
      → verify_all sha256 manifest_json ps s ≡ ok u
      → All (IsVerified sha256 s) ps
  unfolding verify_all
  verify_all-eq-ok [] s h = tt
  verify_all-eq-ok (p ∷ ps) s {u} h =
      go (verify_partition sha256 manifest_json p s) refl h (λ e. verify_all-eq-ok ps s {u = u} e)
    where
      go :
          (r : Result (Unit {0}))
          → verify_partition sha256 manifest_json p s ≡ r
          → then_verify sha256 manifest_json r (verify_all sha256 manifest_json ps s) ≡ ok u
          → (verify_all sha256 manifest_json ps s ≡ ok u → All (IsVerified sha256 s) ps)
          → All (IsVerified sha256 s) (p ∷ ps)
      go (raise e) here rest ih = cc
      go (ok v) here rest ih = (verify_partition-eq-ok p s here, ih rest)

  -- What holds between the verification and the return.
  abbrev IsReady : Str → List DurablePartition → Store → Type 0
  IsReady dataset ps s = (list_partitions dataset s ≡ ok ps) × All (IsVerified sha256 s) ps

  IsReady-mono :
      (dataset : Str) (ps : List DurablePartition) (s t : Store)
      → Extends s t
      → list_partitions dataset t ≡ list_partitions dataset s
      → IsReady dataset ps s
      → IsReady dataset ps t
  IsReady-mono dataset ps s t e same_list (listed, verified) =
      (same_list ∙ listed, All-map _ _ ps (λ p v. IsVerified-mono sha256 s t p e v) verified)

  write_manifest-Triple :
      (dataset path payload : Str) (ps : List DurablePartition)
      → Triple sha256
          (IsReady dataset ps)
          (write_manifest sha256 manifest_json path payload)
          (λ u t. IsReady dataset ps t × (lookup path t.files ≡ some payload))
  unfolding write_manifest list_partitions
  write_manifest-Triple dataset path payload ps s d ready =
      elim (Option-cases (lookup path s.files)) [
        | inr (existing, found) ↦
            rw (write_manifest, found)
              (fail_if-Ends sha256
                (λ u t. IsReady dataset ps t × (lookup path t.files ≡ some payload)) _ _ s d
                (λ free. (ready, found ∙ ap some (same_eq existing payload (ground arith)))))
        | inl fresh ↦
            rw (write_manifest, fresh)
              (
                files-IsDurable sha256 s d path payload fresh,
                (
                  IsReady-mono dataset ps s _ (files-Extends s path payload fresh) refl ready,
                  lookup-insert _ _ payload s.files ∙ rw same_refl refl,
                ),
              )
      ]

  register_manifest-Triple :
      (dataset path payload id : Str) (row : ManifestRow) (ps : List DurablePartition)
      → Triple sha256
          (λ s. IsReady dataset ps s × (lookup path s.files ≡ some payload))
          (register_manifest sha256 manifest_json id row)
          (λ u t. IsReady dataset ps t × (lookup path t.files ≡ some payload))
  unfolding register_manifest list_partitions
  register_manifest-Triple dataset path payload id row ps s d p =
      elim (Option-cases (lookup id s.manifests)) [
        | inr (old, found) ↦
            rw (register_manifest, found)
              (fail_if-Ends sha256
                (λ u t. IsReady dataset ps t × (lookup path t.files ≡ some payload)) _ _ s d
                (λ free. p))
        | inl fresh ↦ elim (Bool-cases (clashes sha256 manifest_json row s)) [
          | inl taken ↦ rw (register_manifest, fresh, taken) d
          | inr free ↦
              rw (register_manifest, fresh, free)
                (
                  record {
                    blobs = d.blobs;
                    receipts = d.receipts;
                    observed = d.observed;
                    partitions = d.partitions;
                    members = d.members;
                  },
                  (IsReady-mono dataset ps s _ (manifests-Extends s id row fresh) refl p.0, p.1),
                )
        ]
      ]

  publish-Triple :
      (dataset version : Str) (created : ℕ) (ps : List DurablePartition)
      → is_nil ps ≡ false
      → Triple sha256
          (IsReady dataset ps)
          (publish sha256 manifest_json
            (payload_of sha256 manifest_json dataset version created ps))
          (IsFaithful sha256 dataset)
  unfolding publish manifest_of
  publish-Triple dataset version created ps some_listed =
      let p = payload_of sha256 manifest_json dataset version created ps in
      let m = manifest_of sha256 manifest_json p in
      let content = manifest_json p ++ 10 ∷ [] in
      let Written : Store → Type 0 =
        λ t. IsReady dataset ps t × (lookup m.relative_path t.files ≡ some content) in
      >>=-Triple sha256 (IsReady dataset ps) (λ u t. Written t) (IsFaithful sha256 dataset) _ _
        (write_manifest-Triple dataset m.relative_path content ps)
        (λ u.
          >>=-Triple sha256 Written (λ v t. Written t) (IsFaithful sha256 dataset) _ _
            (register_manifest-Triple dataset m.relative_path content m.manifest_id
              (row_of sha256 manifest_json p) ps)
            (λ v s d w. (
              d,
              record {
                partitions = ps;
                listed = w.0.0;
                some_listed = some_listed;
                verified = w.0.1;
                ids = refl;
                rows = refl;
                content = content;
                stored = w.1;
                hashed = refl;
              },
            )))

  checked :
      {A : Type 0} (P : Store → Type 0) (b : Bool) (e : Error) (next : Action A)
      (Q : A → Store → Type 0)
      → (b ≡ false → Triple sha256 P next Q)
      → Triple sha256 P (fail_if b e >> next) Q
  checked P b e next Q t =
      >>=-Triple sha256 P (λ u s. P s × (b ≡ false)) Q (fail_if b e) (λ u. next)
        (λ s d p. fail_if-Ends sha256 (λ u s. P s × (b ≡ false)) b e s d (λ free. (p, free)))
        (λ u s d p. t p.1 s d p.0)

  verify-Triple :
      (dataset : Str) (ps : List DurablePartition)
      → Triple sha256
          (λ s. list_partitions dataset s ≡ ok ps)
          (λ s. (s, verify_all sha256 manifest_json ps s))
          (λ u s. IsReady dataset ps s)
  verify-Triple dataset ps s d listed = go (verify_all sha256 manifest_json ps s) refl
    where
      go :
          (r : Result (Unit {0}))
          → verify_all sha256 manifest_json ps s ≡ r
          → Ends sha256 (λ u t. IsReady dataset ps t) (s, r)
      go (raise e) h = d
      go (ok u) h = (d, (listed, verify_all-eq-ok ps s h))

  list-Triple :
      (dataset : Str) (P : Store → Type 0)
      → Triple sha256 P
          (λ s. (s, list_partitions dataset s))
          (λ ps s. list_partitions dataset s ≡ ok ps)
  list-Triple dataset P s d p = go (list_partitions dataset s) refl
    where
      go :
          (r : Result (List DurablePartition))
          → list_partitions dataset s ≡ r
          → Ends sha256 (λ ps t. list_partitions dataset t ≡ ok ps) (s, r)
      go (raise e) h = d
      go (ok ps) h = (d, h)

  pub finalize_manifest-Triple :
      (dataset version : Str) (created_at : DateTime)
      → Triple sha256
          (λ s. Unit {0})
          (finalize_manifest sha256 manifest_json dataset version created_at)
          (IsFaithful sha256 dataset)
  unfolding finalize_manifest
  finalize_manifest-Triple dataset version created_at =
      checked (λ s. Unit {0}) _ _ _ (IsFaithful sha256 dataset)
        (λ safe.
          checked (λ s. Unit {0}) _ _ _ (IsFaithful sha256 dataset)
            (λ also.
              >>=-Triple sha256 (λ s. Unit {0}) (Any sha256) (IsFaithful sha256 dataset) _ _
                (λ s d p. require-Ends sha256 (utc created_at "created_at") s d)
                (λ created.
                  >>=-Triple sha256 (Any sha256 created) (λ ps s. list_partitions dataset s ≡ ok ps)
                    (IsFaithful sha256 dataset) _ _ (list-Triple dataset (Any sha256 created))
                    (λ ps.
                      checked (λ s. list_partitions dataset s ≡ ok ps) _ _ _
                        (IsFaithful sha256 dataset)
                        (λ some_listed.
                          >>=-Triple sha256 (λ s. list_partitions dataset s ≡ ok ps)
                            (λ u s. IsReady dataset ps s) (IsFaithful sha256 dataset) _ _
                            (verify-Triple dataset ps)
                            (λ u. publish-Triple dataset version created ps some_listed))))))
