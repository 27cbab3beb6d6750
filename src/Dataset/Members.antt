-- ===== src/Dataset/Members.antt =====
-- The manifests of a version refer to partitions that are given, of their own dataset.
use xrp_inteliggence_x.Base.{
  ℕ, ◌+◌, ◌≡◌, refl, sym, subst, false, not, Option, none, some, List, [], ◌∷◌, map, Memᴰ, All,
  same, same_eq, list_order, nat_order, Dict, lookup, insert, insert-cases, inl, inr, Str, ok,
  raise, raise_if, value_error, ◌>>=◌, ◌>>◌, >>=-eq-ok, arith,
}
use xrp_inteliggence_x.Store.Model.{DurablePartition}
use xrp_inteliggence_x.Store.Partitions.{repeats}
use xrp_inteliggence_x.Store.Manifests.{DurableManifest, total_rows}
use xrp_inteliggence_x.Dataset.Content.{DatasetContent}
use xrp_inteliggence_x.Dataset.Version.{
  partition_by_id, manifest_rows, check_manifest, check_manifests,
}

-- The partitions of a manifest.
pub record IsMadeOf (partitions : List DurablePartition) (m : DurableManifest) : Type 0 where
  pub parts : List DurablePartition
  pub listed : map (λ p. p.partition_id) parts ≡ m.partition_ids
  pub given : All (λ p. Memᴰ p partitions × (p.dataset ≡ m.dataset)) parts
  pub counted : total_rows parts ≡ m.total_rows
  pub once : repeats m.partition_ids ≡ false

-- Each entry is one of the partitions, under its identifier.
abbrev IsIndex : List DurablePartition → Dict Str DurablePartition → Type 0
IsIndex partitions d =
    (id : Str) (p : DurablePartition)
    → lookup id d ≡ some p
    → Memᴰ p partitions × (p.partition_id ≡ id)

module _ (sha256 : Str → Str) (content_json : DatasetContent → Str)
    (partitions : List DurablePartition) where
  partition_by_id-IsIndex :
      (ps : List DurablePartition) (d : Dict Str DurablePartition)
      → IsIndex partitions d
      → All (λ p. Memᴰ p partitions) ps
      → IsIndex partitions (partition_by_id sha256 content_json d ps)
  unfolding partition_by_id
  partition_by_id-IsIndex [] d index given = index
  partition_by_id-IsIndex (q ∷ qs) d index (member, rest) =
      partition_by_id-IsIndex qs (insert q.partition_id q d)
        (λ id p found. elim (insert-cases q.partition_id id q p d found) [
          | inl (same_id, new) ↦ (
            subst (λ x. Memᴰ x partitions) new member,
            subst (λ x. x.partition_id ≡ id) new (sym same_id),
          )
          | inr old ↦ index id p old
        ])
        rest

  -- The parts behind the rows that are counted.
  abbrev ArePartsOf : Str → List Str → ℕ → Type 0
  ArePartsOf dataset ids rows =
      (parts : List DurablePartition) × (map (λ p. p.partition_id) parts ≡ ids)
      × All (λ p. Memᴰ p partitions × (p.dataset ≡ dataset)) parts
      × (total_rows parts ≡ rows)

  manifest_rows-ArePartsOf :
      (d : Dict Str DurablePartition) (dataset : Str) (ids : List Str) {rows : ℕ}
      → IsIndex partitions d
      → manifest_rows sha256 content_json d dataset ids ≡ ok rows
      → ArePartsOf dataset ids rows
  unfolding manifest_rows total_rows
  manifest_rows-ArePartsOf d dataset [] index h = ([], refl, tt, ground arith)
  manifest_rows-ArePartsOf d dataset (id ∷ ids) {rows} index h =
      go (lookup id d) refl h (λ n e. manifest_rows-ArePartsOf d dataset ids {rows = n} index e)
    where
      go :
          (o : Option DurablePartition)
          → lookup id d ≡ o
          → (elim o [
            | none ↦
                raise
                  (value_error "manifest references a partition not supplied to dataset version")
            | some p ↦
                raise_if
                  (not (same p.dataset dataset))
                  (value_error "manifest references a partition from another dataset")
                >> (manifest_rows sha256 content_json d dataset ids >>= λ rest.
                    ok (p.row_count + rest))
          ])
            ≡ ok rows
          → ((n : ℕ)
              → manifest_rows sha256 content_json d dataset ids ≡ ok n
              → ArePartsOf dataset ids n)
          → ArePartsOf dataset (id ∷ ids) rows
      go none e k below = cc
      go (some p) e k below =
          let (u, own, k1) = >>=-eq-ok (raise_if (not (same p.dataset dataset)) _) _ k in
          let (n, rest, k2) = >>=-eq-ok (manifest_rows sha256 content_json d dataset ids) _ k1 in
          let (member, named) = index id p e in
          let (parts, listed, given, counted) = below n rest in
          (
            p ∷ parts,
            rw (named, listed) refl,
            ((member, same_eq p.dataset dataset (ground arith)), given),
            rw counted (ground arith),
          )

  check_manifest-IsMadeOf :
      (d : Dict Str DurablePartition) (m : DurableManifest) {u : Unit {0}}
      → IsIndex partitions d
      → check_manifest sha256 content_json d m ≡ ok u
      → IsMadeOf partitions m
  unfolding check_manifest
  check_manifest-IsMadeOf d m index h =
      let (u, once, h1) = >>=-eq-ok (raise_if (repeats m.partition_ids) _) _ h in
      let (rows, counted, h2) =
        >>=-eq-ok (manifest_rows sha256 content_json d m.dataset m.partition_ids) _ h1 in
      let (parts, listed, given, total) =
        manifest_rows-ArePartsOf d m.dataset m.partition_ids index counted in
      record {
        parts = parts;
        listed = listed;
        given = given;
        counted = ground arith;
        once = ground arith;
      }

  -- Manifests that pass the check are made of given partitions.
  pub check_manifests-IsMadeOf :
      (ms : List DurableManifest) {u : Unit {0}}
      → All (λ p. Memᴰ p partitions) partitions
      → check_manifests sha256 content_json (partition_by_id sha256 content_json [] partitions) ms
        ≡ ok u
      → All (IsMadeOf partitions) ms
  unfolding check_manifests lookup
  check_manifests-IsMadeOf [] given h = tt
  check_manifests-IsMadeOf (m ∷ ms) given h =
      let index = partition_by_id-IsIndex partitions [] (λ id p found. cc) given in
      let d = partition_by_id sha256 content_json [] partitions in
      let (u, here, later) = >>=-eq-ok (check_manifest sha256 content_json d m) _ h in
      (check_manifest-IsMadeOf d m index here, check_manifests-IsMadeOf ms given later)
