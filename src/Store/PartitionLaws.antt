-- ===== src/Store/PartitionLaws.antt =====
-- `write_partition` keeps the store durable, and leaves a registered partition.
use xrp_inteliggence_x.Base.{
  ◌≡◌, refl, ◌∙◌, ap, Bool, true, false, none, some, List, [], ◌∷◌, ◌++◌, All-append, lookup,
  lookup-insert, if◌then◌else◌, same_eq, same_refl, list_order, nat_order, Bool-cases, Option-cases,
  inl, inr, Str, Error, arith, DateTime,
}
use xrp_inteliggence_x.Contract.Observation.{HistoricalObservation}
use xrp_inteliggence_x.Store.Model.{
  FetchReceipt, ObservationRow, DurablePartition, Member, Store, Action, ◌>>◌, fail_if,
}
use xrp_inteliggence_x.Store.Partitions.{
  save_all, write_part, partition_of, is_member, add_members, differs, is_taken, are_saved,
  register_members, register_partition, store_part, write_partition,
  persist_partition_then_checkpoint,
}
use xrp_inteliggence_x.Store.Durable.{
  AreSaved, files-IsDurable, partitions-IsDurable, members-IsDurable,
}
use xrp_inteliggence_x.Store.Triples.{
  Triple, >>=-Triple, fail_if-Ends, require-Ends, Any, save_observation-Triple,
  save_checkpoint-Triple,
}

-- A row with the partition's path, digest and size, and a file of that digest.
pub record IsRegistered (sha256 : Str → Str) (p : DurablePartition) (s : Store) : Type 0 where
  pub row : DurablePartition
  pub found : lookup p.partition_id s.partitions ≡ some row
  pub path : row.relative_path ≡ p.relative_path
  pub digest : row.file_sha256 ≡ p.file_sha256
  pub size : row.row_count ≡ p.row_count
  pub payload : Str
  pub stored : lookup p.relative_path s.files ≡ some payload
  pub hashed : sha256 payload ≡ p.file_sha256

module _ (sha256 : Str → Str) (receipt_json : FetchReceipt → Str)
    (observation_json : HistoricalObservation → Str)
    (canonical_sha256 : HistoricalObservation → Str) where
  add_members-AreSaved :
      (id : Str) (os : List HistoricalObservation) (ms : List Member) (s : Store)
      → are_saved sha256 receipt_json observation_json canonical_sha256 os s ≡ true
      → AreSaved s.observations ms
      → AreSaved s.observations
          (add_members sha256 receipt_json observation_json canonical_sha256 id os ms)
  unfolding add_members
  add_members-AreSaved id [] ms s saved h = h
  add_members-AreSaved id (o ∷ os) ms s saved h =
      elim (Option-cases (lookup o.observation_id s.observations)) [
        | inl none_there ↦ absurd (missing none_there saved)
        | inr (row, found) ↦
            add_members-AreSaved id os _ s (ground arith)
              (one (is_member sha256 receipt_json observation_json canonical_sha256 _ ms) row found)
      ]
    where
      m : Member
      m = record { partition_id = id; observation_id = o.observation_id }

      one :
          (b : Bool) (row : ObservationRow)
          → lookup o.observation_id s.observations ≡ some row
          → AreSaved s.observations (if b then ms else ms ++ m ∷ [])
      one true row found = h
      one false row found = All-append _ ms (m ∷ []) h ((row, found), tt)

      missing :
          lookup o.observation_id s.observations ≡ none
          → are_saved sha256 receipt_json observation_json canonical_sha256 (o ∷ os) s ≡ true
          → ⊥
      missing e k = ground arith

  abbrev FileIs : Str → Str → Store → Type 0
  FileIs path payload s = lookup path s.files ≡ some payload

  write_part-Triple :
      (path payload : Str)
      → Triple sha256
          (λ s. Unit {0})
          (write_part sha256 receipt_json observation_json canonical_sha256 path
            (sha256 payload)
            payload)
          (λ u t. FileIs path payload t)
  unfolding write_part
  write_part-Triple path payload s d p = elim (Option-cases (lookup path s.files)) [
    | inr (existing, found) ↦
        rw (write_part, found)
          (fail_if-Ends sha256 (λ u t. FileIs path payload t) _ _ s d
            (λ free. found ∙ ap some (same_eq existing payload (ground arith))))
    | inl fresh ↦
        rw (write_part, fresh)
          (
            files-IsDurable sha256 s d path payload fresh,
            lookup-insert _ _ payload s.files ∙ rw same_refl refl,
          )
  ]

  register_partition-Triple :
      (p : DurablePartition) (os : List HistoricalObservation) (payload : Str)
      → sha256 payload ≡ p.file_sha256
      → Triple sha256
          (FileIs p.relative_path payload)
          (register_partition sha256 receipt_json observation_json canonical_sha256 p os)
          (λ u t. IsRegistered sha256 p t)
  unfolding register_partition register_members
  register_partition-Triple p os payload hashed s d file =
      elim (Bool-cases (are_saved sha256 receipt_json observation_json canonical_sha256 os s)) [
        | inl saved ↦
            let members =
              add_members-AreSaved p.partition_id os s.partition_members s saved d.members in
            elim (Option-cases (lookup p.partition_id s.partitions)) [
              | inr (row, found) ↦
                  elim (Bool-cases
                    (differs sha256 receipt_json observation_json canonical_sha256 row p)) [
                      | inl differ ↦ rw (register_partition, found, differ) d
                      | inr agree ↦
                          rw (register_partition, found, agree, register_members, saved)
                            (
                              members-IsDurable sha256 s d _ members,
                              record {
                                row = row;
                                found = found;
                                path = same_eq row.relative_path p.relative_path (ground arith);
                                digest = same_eq row.file_sha256 p.file_sha256 (ground arith);
                                size = ground arith;
                                payload = payload;
                                stored = file;
                                hashed = hashed;
                              },
                            )
                    ]
              | inl fresh ↦
                  elim (Bool-cases
                    (is_taken sha256 receipt_json observation_json canonical_sha256 p s)) [
                      | inl taken ↦ rw (register_partition, fresh, taken) d
                      | inr free ↦
                          rw (register_partition, fresh, free, register_members, saved)
                            (
                              partitions-IsDurable sha256 s d p payload _ file hashed members,
                              record {
                                row = p;
                                found = lookup-insert _ _ p s.partitions ∙ rw same_refl refl;
                                path = refl;
                                digest = refl;
                                size = refl;
                                payload = payload;
                                stored = file;
                                hashed = hashed;
                              },
                            )
                    ]
            ]
        | inr unsaved ↦ elim (Option-cases (lookup p.partition_id s.partitions)) [
          | inr (row, found) ↦
              elim (Bool-cases
                (differs sha256 receipt_json observation_json canonical_sha256 row p)) [
                  | inl differ ↦ rw (register_partition, found, differ) d
                  | inr agree ↦ rw (register_partition, found, agree, register_members, unsaved) d
                ]
          | inl fresh ↦
              elim (Bool-cases
                (is_taken sha256 receipt_json observation_json canonical_sha256 p s)) [
                  | inl taken ↦ rw (register_partition, fresh, taken) d
                  | inr free ↦ rw (register_partition, fresh, free, register_members, unsaved) d
                ]
        ]
      ]

  store_part-Triple :
      (dataset key : Str) (o : HistoricalObservation) (os : List HistoricalObservation)
      (payload : Str)
      → Triple sha256
          (λ s. Unit {0})
          (store_part sha256 receipt_json observation_json canonical_sha256 dataset key o os
            payload)
          (IsRegistered sha256)
  unfolding store_part partition_of
  store_part-Triple dataset key o os payload =
      let p =
        partition_of sha256 receipt_json observation_json canonical_sha256 dataset key
          (sha256 payload) o os in
      >>=-Triple sha256 (λ s. Unit {0}) (λ u t. FileIs p.relative_path payload t)
        (IsRegistered sha256) _ _ (write_part-Triple _ payload)
        (λ u.
          >>=-Triple sha256 (FileIs p.relative_path payload) (λ v t. IsRegistered sha256 p t)
            (IsRegistered sha256) _ _ (register_partition-Triple p (o ∷ os) payload refl)
            (λ v s d registered. (d, registered)))

  save_all-Triple :
      (os : List HistoricalObservation)
      → Triple sha256
          (λ s. Unit {0})
          (save_all sha256 receipt_json observation_json canonical_sha256 os)
          (Any sha256)
  unfolding save_all
  save_all-Triple [] = λ s d p. (d, tt)
  save_all-Triple (o ∷ os) =
      >>=-Triple sha256 (λ s. Unit {0}) (Any sha256) (Any sha256) _ _
        (save_observation-Triple sha256 receipt_json observation_json canonical_sha256 o)
        (λ u s d p. save_all-Triple os s d tt)

  checked :
      {A : Type 0} (P : Store → Type 0) (b : Bool) (e : Error) (next : Action A)
      (Q : A → Store → Type 0)
      → Triple sha256 (λ s. Unit {0}) next Q
      → Triple sha256 P (fail_if b e >> next) Q
  checked P b e next Q t =
      >>=-Triple sha256 P (Any sha256) Q (fail_if b e) (λ u. next)
        (λ s d p. fail_if-Ends sha256 (Any sha256) b e s d (λ free. tt)) (λ u s d p. t s d tt)

  pub write_partition-Triple :
      (dataset key : Str) (os : List HistoricalObservation)
      → Triple sha256
          (λ s. Unit {0})
          (write_partition sha256 receipt_json observation_json canonical_sha256 dataset key os)
          (IsRegistered sha256)
  unfolding write_partition
  write_partition-Triple dataset key [] =
      checked _ _ _ _ (IsRegistered sha256) (checked _ _ _ _ (IsRegistered sha256) (λ s d p. d))
  write_partition-Triple dataset key (o ∷ os) = checked _ _ _ _ (IsRegistered sha256) (
      checked _ _ _ _ (IsRegistered sha256) (
        checked _ _ _ _ (IsRegistered sha256) (
          >>=-Triple sha256 (λ s. Unit {0}) (Any sha256) (IsRegistered sha256) _ _
            (save_all-Triple (o ∷ os))
            (λ u.
              >>=-Triple sha256 (Any sha256 u) (Any sha256) (IsRegistered sha256) _ _
                (λ s d p. require-Ends sha256 _ s d)
                (λ payload s d p. store_part-Triple dataset key o os payload s d tt)))))

  pub persist_partition_then_checkpoint-Triple :
      (dataset key : Str) (os : List HistoricalObservation) (job cursor : Str) (completed : Bool)
      (updated : DateTime)
      → Triple sha256
          (λ s. Unit {0})
          (persist_partition_then_checkpoint sha256 receipt_json observation_json canonical_sha256
            dataset key os job cursor completed updated)
          (Any sha256)
  unfolding persist_partition_then_checkpoint
  persist_partition_then_checkpoint-Triple dataset key os job cursor completed updated =
      >>=-Triple sha256 (λ s. Unit {0}) (IsRegistered sha256) (Any sha256) _ _
        (write_partition-Triple dataset key os)
        (λ p.
          >>=-Triple sha256 (IsRegistered sha256 p) (Any sha256) (Any sha256) _ _
            (λ s d r. save_checkpoint-Triple sha256 job cursor completed updated s d tt)
            (λ u s d r. (d, tt)))
