-- ===== src/Store/Partitions.antt =====
-- `write_partition` and `persist_partition_then_checkpoint`.
use xrp_inteliggence_x.Base.{
  ℕ, ◌+◌, min, max, Bool, false, not, ◌&&◌, ◌||◌, Option, none, some, List, [], ◌∷◌, ◌++◌, map, leb,
  ◌==◌, if◌then◌else◌, length, is_nil, every, exists, same, list_order, nat_order, sort_by, lookup,
  insert, values, Str, str, Result, ok, raise, value_error, runtime_error, integrity_error,
  DateTime, is_some,
}
use xrp_inteliggence_x.Contract.Observation.{HistoricalObservation}
use xrp_inteliggence_x.Store.Model.{
  FetchReceipt, DurablePartition, Member, Store, Action, ◌>>=◌, ◌>>◌, return, require, fail_if,
  save_observation, save_checkpoint,
}

abbrev pub within : ℕ → ℕ → ℕ → Bool
within low c high = leb low c && leb c high

-- A letter, a digit, or one of `_.=-`
abbrev pub is_segment_char : ℕ → Bool
is_segment_char c =
    within 65 c 90 || within 97 c 122 || within 48 c 57 || c == 95 || c == 46 || c == 61 || c == 45

-- `_SAFE_SEGMENT_RE`
unfoldable pub is_safe_segment : Str → Bool
is_safe_segment s = not (is_nil s) && every is_segment_char s

abbrev pub revision_key : Option ℕ → ℕ
revision_key none = 0
revision_key (some n) = n + 1

-- The key of the order within a partition; -1 stands before every revision.
abbrev pub partition_order : HistoricalObservation → List Str
partition_order o =
    (o.observed_at ∷ [])
    ∷ o.record_id
    ∷ o.provider
    ∷ o.source_id
    ∷ (revision_key o.revision_sequence ∷ [])
    ∷ o.observation_id
    ∷ []

unfoldable pub repeats : List Str → Bool
repeats [] = false
repeats (x ∷ xs) = exists (same x) xs || repeats xs

unfoldable pub least : ℕ → List ℕ → ℕ
least n [] = n
least n (m ∷ ms) = least (min n m) ms

unfoldable pub greatest : ℕ → List ℕ → ℕ
greatest n [] = n
greatest n (m ∷ ms) = greatest (max n m) ms

module _ (sha256 : Str → Str) (receipt_json : FetchReceipt → Str)
    (observation_json : HistoricalObservation → Str)
    (canonical_sha256 : HistoricalObservation → Str) where
  unfoldable pub lines : List HistoricalObservation → Str
  lines [] = []
  lines (o ∷ os) = observation_json o ++ 10 ∷ lines os

  -- `_partition_payload`
  unfoldable pub partition_payload : List HistoricalObservation → Result Str
  partition_payload os =
      if repeats (map (λ o. o.observation_id) (sort_by partition_order os))
      then raise (value_error "partition observation_id values must be unique")
      else ok (lines (sort_by partition_order os))

  -- The loop over `save_observation`.
  unfoldable pub save_all : List HistoricalObservation → Action (Unit {0})
  save_all [] = return tt
  save_all (o ∷ os) = do
    save_observation sha256 receipt_json observation_json canonical_sha256 o
    save_all os

  -- A segment of a `Path`, which leaves out `.`
  abbrev pub segment : Str → Str
  segment name = if same name (str ".") then [] else name ++ str "/"

  unfoldable pub partition_path : Str → Str → Str → Str
  partition_path dataset key digest =
      str "normalized/" ++ segment dataset ++ segment key ++ str "part-" ++ digest ++ str ".jsonl"

  -- The file part: an existing file is compared, and never written again.
  unfoldable pub write_part : Str → Str → Str → Action (Unit {0})
  write_part path digest payload s = elim (lookup path s.files) [
    | some existing ↦
        fail_if (not (same existing payload) || not (same (sha256 existing) digest))
          (runtime_error "partition integrity collision or corruption") s
    | none ↦ (record s { files = insert path payload s.files }, ok tt)
  ]

  unfoldable pub partition_of :
      Str → Str → Str → HistoricalObservation → List HistoricalObservation → DurablePartition
  partition_of dataset key digest o os = record {
    partition_id = str "partition:sha256:" ++ digest;
    dataset = dataset;
    partition_key = key;
    relative_path = partition_path dataset key digest;
    file_sha256 = digest;
    row_count = length (o ∷ os);
    minimum_observed_at = least o.observed_at (map (λ x. x.observed_at) os);
    maximum_observed_at = greatest o.observed_at (map (λ x. x.observed_at) os);
    minimum_fetched_at = least o.fetched_at (map (λ x. x.fetched_at) os);
    maximum_fetched_at = greatest o.fetched_at (map (λ x. x.fetched_at) os);
  }

  abbrev pub is_member : Member → List Member → Bool
  is_member m ms =
      exists (λ n. same n.partition_id m.partition_id && same n.observation_id m.observation_id) ms

  -- `INSERT OR IGNORE` for each observation
  unfoldable pub add_members : Str → List HistoricalObservation → List Member → List Member
  add_members id [] ms = ms
  add_members id (o ∷ os) ms =
      let m : Member = record { partition_id = id; observation_id = o.observation_id } in
      add_members id os (if is_member m ms then ms else ms ++ m ∷ [])

  abbrev pub differs : DurablePartition → DurablePartition → Bool
  differs row p =
      not (same row.relative_path p.relative_path)
      || not (row.row_count == p.row_count)
      || not (same row.file_sha256 p.file_sha256)

  abbrev pub is_taken : DurablePartition → Store → Bool
  is_taken p s =
      exists (λ r. same r.relative_path p.relative_path || same r.file_sha256 p.file_sha256)
        (values s.partitions)

  abbrev pub are_saved : List HistoricalObservation → Store → Bool
  are_saved os s = every (λ o. is_some (lookup o.observation_id s.observations)) os

  -- The members of a row that is in `t`, with their foreign keys; `s` is what a rollback restores.
  unfoldable pub register_members :
      DurablePartition → List HistoricalObservation → Store → Store → Store × Result (Unit {0})
  register_members p os t s =
      if are_saved os s
      then (
        record t { partition_members = add_members p.partition_id os s.partition_members },
        ok tt,
      )
      else (s, raise (integrity_error "FOREIGN KEY"))

  -- The last transaction: the row, if it is new, and its members.
  unfoldable pub register_partition :
      DurablePartition → List HistoricalObservation → Action (Unit {0})
  register_partition p os s = elim (lookup p.partition_id s.partitions) [
    | some row ↦
        if differs row p
        then (s, raise (runtime_error "partition registry collision"))
        else register_members p os s s
    | none ↦
        if is_taken p s
        then (s, raise (integrity_error "partitions"))
        else register_members p os (record s { partitions = insert p.partition_id p s.partitions })
            s
  ]

  -- `write_partition` after the observations have been saved.
  unfoldable pub store_part :
      Str → Str → HistoricalObservation → List HistoricalObservation → Str → Action DurablePartition
  store_part dataset key o os payload = do
    write_part (partition_path dataset key (sha256 payload)) (sha256 payload) payload
    register_partition (partition_of dataset key (sha256 payload) o os) (o ∷ os)
    return (partition_of dataset key (sha256 payload) o os)

  unfoldable pub write_partition : Str → Str → List HistoricalObservation → Action DurablePartition
  write_partition dataset key [] = do
    fail_if (not (is_safe_segment dataset)) (value_error "dataset contains unsafe characters")
    fail_if (not (is_safe_segment key)) (value_error "partition_key contains unsafe characters")
    require (raise (value_error "partition requires at least one observation"))
  write_partition dataset key (o ∷ os) = do
    fail_if (not (is_safe_segment dataset)) (value_error "dataset contains unsafe characters")
    fail_if (not (is_safe_segment key)) (value_error "partition_key contains unsafe characters")
    fail_if (exists (λ x. not (same x.dataset dataset)) (o ∷ os))
        (value_error "partition contains observation from another dataset")
    save_all (o ∷ os)
    payload ← require (partition_payload (o ∷ os))
    store_part dataset key o os payload

  unfoldable pub persist_partition_then_checkpoint :
      Str → Str → List HistoricalObservation → Str → Str → Bool → DateTime → Action DurablePartition
  persist_partition_then_checkpoint dataset key os job cursor_json completed updated_at = do
    partition ← write_partition dataset key os
    save_checkpoint job cursor_json completed updated_at
    return partition
