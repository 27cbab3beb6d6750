-- ===== src/Store/Manifests.antt =====
-- `list_partitions`, `verify_partition` and `finalize_manifest`, and the readers of observations.
use xrp_inteliggence_x.Base.{
  ℕ, suc, ◌+◌, Bool, true, false, not, ◌||◌, none, some, List, [], ◌∷◌, ◌++◌, map, ◌==◌,
  if◌then◌else◌, is_nil, exists, keep, same, list_order, nat_order, sort_by, lookup, insert, values,
  Str, str, Result, ok, raise, value_error, runtime_error, integrity_error, DateTime, utc,
}
use xrp_inteliggence_x.Store.Model.{
  DurablePartition, ManifestRow, Store, Action, ◌>>=◌, ◌>>◌, return, require, fail_if, read_file,
}
use xrp_inteliggence_x.Store.Partitions.{is_safe_segment}

abbrev pub listing_order : DurablePartition → List Str
listing_order p = p.partition_key ∷ p.partition_id ∷ []

unfoldable pub list_partitions : Str → Store → Result (List DurablePartition)
list_partitions dataset s =
    if is_safe_segment dataset
    then ok (sort_by listing_order (keep (λ p. same p.dataset dataset) (values s.partitions)))
    else raise (value_error "dataset contains unsafe characters")

abbrev pub is_break : ℕ → Bool
is_break c = c == 10 || c == 13

-- `len([line for line in payload.splitlines() if line])`; the test tells whether a line has begun.
unfoldable pub count_lines : Bool → Str → ℕ
count_lines begun [] = if begun then 1 else 0
count_lines begun (c ∷ cs) =
    let after_break = count_lines false cs in
    let in_line = count_lines true cs in
    if is_break c then (if begun then suc after_break else after_break) else in_line

unfoldable pub total_rows : List DurablePartition → ℕ
total_rows [] = 0
total_rows (p ∷ ps) = p.row_count + total_rows ps

pub record ManifestPayload : Type 0 where
  pub dataset : Str
  pub schema_version : Str
  pub created_at : ℕ
  pub partitions : List DurablePartition
  pub total_rows : ℕ

pub record DurableManifest : Type 0 where
  pub manifest_id : Str
  pub manifest_sha256 : Str
  pub dataset : Str
  pub schema_version : Str
  pub created_at : ℕ
  pub partition_ids : List Str
  pub total_rows : ℕ
  pub relative_path : Str

abbrev pub segment : Str → Str
segment name = if same name (str ".") then [] else name ++ str "/"

-- `manifest_json` is the canonical JSON text of a manifest's payload.
module _ (sha256 : Str → Str) (manifest_json : ManifestPayload → Str) where
  abbrev pub check_partition : DurablePartition → Result Str → Result (Unit {0})
  check_partition p (raise e) = raise e
  check_partition p (ok payload) =
      if not (same (sha256 payload) p.file_sha256)
      then raise (runtime_error "partition SHA-256 verification failed")
      else (if not (count_lines false payload == p.row_count)
          then raise (runtime_error "partition row count verification failed")
          else ok tt)

  unfoldable pub verify_partition : DurablePartition → Store → Result (Unit {0})
  verify_partition p s = check_partition p (read_file sha256 p.relative_path s.files)

  abbrev pub then_verify : Result (Unit {0}) → Result (Unit {0}) → Result (Unit {0})
  then_verify (raise e) rest = raise e
  then_verify (ok u) rest = rest

  unfoldable pub verify_all : List DurablePartition → Store → Result (Unit {0})
  verify_all [] s = ok tt
  verify_all (p ∷ ps) s = then_verify (verify_partition p s) (verify_all ps s)

  unfoldable pub manifest_path : Str → Str → Str → Str
  manifest_path dataset version digest =
      str "manifests/" ++ segment dataset ++ segment version ++ digest ++ str ".json"

  unfoldable pub write_manifest : Str → Str → Action (Unit {0})
  write_manifest path payload s = elim (lookup path s.files) [
    | some existing ↦
        fail_if (not (same existing payload))
          (runtime_error "manifest integrity collision or corruption") s
    | none ↦ (record s { files = insert path payload s.files }, ok tt)
  ]

  abbrev pub clashes : ManifestRow → Store → Bool
  clashes row s =
      exists
        (λ r. same r.manifest_sha256 row.manifest_sha256 || same r.relative_path row.relative_path)
        (values s.manifests)

  unfoldable pub register_manifest : Str → ManifestRow → Action (Unit {0})
  register_manifest id row s = elim (lookup id s.manifests) [
    | some old ↦
        fail_if (not (same old.payload_json row.payload_json))
          (runtime_error "manifest registry collision") s
    | none ↦
        if clashes row s
        then (s, raise (integrity_error "manifests"))
        else (record s { manifests = insert id row s.manifests }, ok tt)
  ]

  unfoldable pub manifest_of : ManifestPayload → DurableManifest
  manifest_of p =
      let digest = sha256 (manifest_json p ++ 10 ∷ []) in
      record {
        manifest_id = str "manifest:sha256:" ++ digest;
        manifest_sha256 = digest;
        dataset = p.dataset;
        schema_version = p.schema_version;
        created_at = p.created_at;
        partition_ids = map (λ x. x.partition_id) p.partitions;
        total_rows = p.total_rows;
        relative_path = manifest_path p.dataset p.schema_version digest;
      }

  abbrev pub row_of : ManifestPayload → ManifestRow
  row_of p = record {
    dataset = p.dataset;
    schema_version = p.schema_version;
    created_at = p.created_at;
    manifest_sha256 = (manifest_of p).manifest_sha256;
    total_rows = p.total_rows;
    relative_path = (manifest_of p).relative_path;
    payload_json = manifest_json p;
  }

  abbrev pub payload_of : Str → Str → ℕ → List DurablePartition → ManifestPayload
  payload_of dataset version created ps = record {
    dataset = dataset;
    schema_version = version;
    created_at = created;
    partitions = ps;
    total_rows = total_rows ps;
  }

  -- The part of `finalize_manifest` that writes.
  unfoldable pub publish : ManifestPayload → Action DurableManifest
  publish p = do
    write_manifest (manifest_of p).relative_path (manifest_json p ++ 10 ∷ [])
    register_manifest (manifest_of p).manifest_id (row_of p)
    return (manifest_of p)

  unfoldable pub finalize_manifest : Str → Str → DateTime → Action DurableManifest
  finalize_manifest dataset version created_at = do
    fail_if (not (is_safe_segment dataset)) (value_error "dataset contains unsafe characters")
    fail_if (not (is_safe_segment version))
        (value_error "schema_version contains unsafe characters")
    created ← require (utc created_at "created_at")
    ps ← (λ s. (s, list_partitions dataset s))
    fail_if (is_nil ps) (value_error "manifest requires at least one durable partition")
    (λ s. (s, verify_all ps s)) >> publish (payload_of dataset version created ps)
