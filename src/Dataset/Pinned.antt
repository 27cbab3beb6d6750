-- ===== src/Dataset/Pinned.antt =====
-- What a version that is built pins down.
use xrp_inteliggence_x.Base.{
  ℕ, ◌≤◌, ◌≡◌, refl, sym, ◌∙◌, subst, Bool, true, false, not, ◌||◌, Option, List, [], ◌∷◌, ◌++◌,
  ◌==◌, map, All, All-by_mem, All_of_mem, ltb, ltb-false, length, is_nil, every, every-All, exists,
  same, same_eq, list_order, nat_order, sort_by, ℤ, Str, str, ok, raise_if, raise_if-eq-ok,
  >>=-eq-ok, &&-true, DateTime, utc, arith,
}
use xrp_inteliggence_x.Contract.Observation.{EligibilityClass, eligibility, text}
use xrp_inteliggence_x.Store.Model.{DurablePartition}
use xrp_inteliggence_x.Store.Partitions.{repeats}
use xrp_inteliggence_x.Store.Manifests.{DurableManifest, total_rows}
use xrp_inteliggence_x.Dataset.Coverage.{
  ProviderCoverage, DatasetGap, Rows, provider_coverages, detect_gaps,
}
use xrp_inteliggence_x.Dataset.Content.{
  DatasetContent, DatasetVersion, content_id, check_lists, exceeds_one, sum_to_one, is_sorted,
}
use xrp_inteliggence_x.Dataset.Version.{
  dataset_version, partition_by_id, check_manifests, referenced, sets_differ, is_ineligible,
  is_reconstructed, check_evidence, identified_version, content_of, build_dataset_version,
}
use xrp_inteliggence_x.Dataset.Members.{IsMadeOf, check_manifests-IsMadeOf}

-- The class of evidence that a version admits.
abbrev pub IsAdmitted : Bool → EligibilityClass → Type 0
IsAdmitted allow EligibilityClass.strict_replay = Unit
IsAdmitted allow EligibilityClass.reconstructed_pit = allow ≡ true
IsAdmitted allow EligibilityClass.ineligible = ⊥

abbrev pub AreAmong : List Str → List Str → Type 0
AreAmong xs ys = All (λ x. exists (same x) ys ≡ true) xs

exists-all :
    {A : Type 0} (test : A → Bool) (xs : List A)
    → exists test xs ≡ false
    → All (λ x. test x ≡ false) xs
exists-all test [] h = tt
exists-all test (x ∷ xs) h = (ground arith, exists-all test xs (ground arith))

IsAdmitted-of_tests :
    (sha256 : Str → Str) (content_json : DatasetContent → Str) (allow : Bool) (e : EligibilityClass)
    → is_ineligible sha256 content_json e ≡ false
    → (allow ≡ false → is_reconstructed sha256 content_json e ≡ false)
    → IsAdmitted allow e
IsAdmitted-of_tests sha256 content_json allow EligibilityClass.strict_replay h k = tt
IsAdmitted-of_tests sha256 content_json true EligibilityClass.reconstructed_pit h k = refl
IsAdmitted-of_tests sha256 content_json false EligibilityClass.reconstructed_pit h k = cc (k refl)
IsAdmitted-of_tests sha256 content_json allow EligibilityClass.ineligible h k = cc

ordered : {a b c d : ℕ} → c ≡ a → d ≡ b → a ≤ b → c ≤ d
ordered e f le = omega arith

-- The evidence that is checked: its manifests are made of the partitions, which are those that the
-- manifests refer to, there are as many observations as rows, and all are admitted at the cutoff.
pub record IsChecked (manifests : List DurableManifest) (partitions : List DurablePartition)
    (os : Rows) (cutoff : ℕ) (allow : Bool) : Type 0 where
  pub made : All (IsMadeOf partitions) manifests
  pub unique : repeats (map (λ o. o.observation_id) os) ≡ false
  pub admitted : All (λ o. IsAdmitted allow (eligibility o cutoff)) os
  pub rows : total_rows partitions ≡ length os

module _ (sha256 : Str → Str) (content_json : DatasetContent → Str) where
  pub check_evidence-IsChecked :
      (manifests : List DurableManifest) (partitions : List DurablePartition) (os : Rows)
      (cutoff : ℕ) (allow : Bool) {u : Unit {0}}
      → check_evidence sha256 content_json manifests partitions os cutoff allow ≡ ok u
      → IsChecked manifests partitions os cutoff allow
        × AreAmong (referenced sha256 content_json manifests) (map (λ p. p.partition_id) partitions)
        × AreAmong (map (λ p. p.partition_id) partitions) (referenced sha256 content_json manifests)
  unfolding check_evidence
  check_evidence-IsChecked manifests partitions os cutoff allow h =
      let ids = map (λ (p : DurablePartition). p.partition_id) partitions in
      let refs = referenced sha256 content_json manifests in
      let (a, e1, h1) =
        >>=-eq-ok (raise_if (is_nil manifests || is_nil partitions || is_nil os) _) _ h in
      let (b, e2, h2) =
        >>=-eq-ok (raise_if (repeats (map (λ m. m.manifest_id) manifests)) _) _ h1 in
      let (c, e3, h3) = >>=-eq-ok (raise_if (repeats ids) _) _ h2 in
      let (d, unique, h4) =
        >>=-eq-ok (raise_if (repeats (map (λ o. o.observation_id) os)) _) _ h3 in
      let (e, made, h5) =
        >>=-eq-ok
          (check_manifests sha256 content_json (partition_by_id sha256 content_json [] partitions)
            manifests)
          _ h4 in
      let (f, closed, h6) =
        >>=-eq-ok (raise_if (sets_differ sha256 content_json refs ids) _) _ h5 in
      let (g, counted, h7) =
        >>=-eq-ok (raise_if (not (total_rows partitions == length os)) _) _ h6 in
      let (i, eligible, h8) =
        >>=-eq-ok
          (raise_if (exists (λ o. is_ineligible sha256 content_json (eligibility o cutoff)) os) _) _
          h7 in
      let opt_in = raise_if-eq-ok _ _ h8 in
      let (among, back) =
        &&-true (every (λ x. exists (same x) ids) refs) (every (λ y. exists (same y) refs) ids)
          (ground arith) in
      (
        record {
          made =
              check_manifests-IsMadeOf sha256 content_json partitions manifests
                (All-by_mem _ partitions (λ p m. m)) made;
          unique = raise_if-eq-ok _ _ unique;
          admitted = All-by_mem _ os (λ o m.
              IsAdmitted-of_tests sha256 content_json allow (eligibility o cutoff)
                (All_of_mem _ os (exists-all _ os (raise_if-eq-ok _ _ eligible)) m)
                (λ strict.
                  All_of_mem _ os
                    (exists-all (λ o. is_reconstructed sha256 content_json (eligibility o cutoff))
                      os (ground arith))
                    m));
          rows = ground arith;
        },
        every-All _ refs among,
        every-All _ ids back,
      )

  -- The constructor keeps all but the spaces round the four texts, and its identity is the digest.
  record IsIdentified (v : DatasetVersion) (w : DatasetVersion) : Type 0 where
    pub hashed : w.dataset_sha256 ≡ sha256 (content_json w.content)
    pub named : w.dataset_version_id ≡ str "dataset-version:sha256:" ++ w.dataset_sha256
    pub ids : w.content.partition_ids ≡ v.content.partition_ids
    pub manifests : w.content.source_manifest_ids ≡ v.content.source_manifest_ids
    pub created : w.content.created_at ≡ v.content.created_at
    pub cutoff : w.content.cutoff_at ≡ v.content.cutoff_at
    pub total : w.content.total_rows ≡ v.content.total_rows
    pub coverage : w.content.coverage ≡ v.content.coverage
    pub gaps : w.content.gaps ≡ v.content.gaps
    pub distinct : repeats w.content.partition_ids ≡ false

  dataset_version-IsIdentified :
      (v : DatasetVersion) {w : DatasetVersion}
      → dataset_version sha256 content_json v ≡ ok w
      → IsIdentified v w
  unfolding dataset_version check_lists
  dataset_version-IsIdentified v {w} h =
      let c = v.content in
      let prefix = str "dataset-version:sha256:" in
      let (u1, e1, h1) =
        >>=-eq-ok (content_id v.dataset_version_id prefix "dataset_version_id") _ h in
      let (u2, e2, h2) =
        >>=-eq-ok (content_id (prefix ++ v.dataset_sha256) prefix "dataset_sha256") _ h1 in
      let (key, e3, h3) = >>=-eq-ok (text c.dataset_key "dataset_key") _ h2 in
      let (schema, e4, h4) = >>=-eq-ok (text c.schema_version "schema_version") _ h3 in
      let (features, e5, h5) =
        >>=-eq-ok (text c.feature_schema_version "feature_schema_version") _ h4 in
      let (labels, e6, h6) = >>=-eq-ok (text c.label_schema_version "label_schema_version") _ h5 in
      let (u7, e7, h7) = >>=-eq-ok (raise_if (ltb c.created_at c.cutoff_at) _) _ h6 in
      let (u8, e8, h8) = >>=-eq-ok (raise_if (ltb c.total_rows 1) _) _ h7 in
      let (u9, lists, h9) = >>=-eq-ok (check_lists c) _ h8 in
      let (u10, e10, h10) =
        >>=-eq-ok
          (raise_if
            (exceeds_one c.strict_replay_fraction || exceeds_one c.reconstructed_pit_fraction) _)
          _ h9 in
      let (u11, e11, h11) =
        >>=-eq-ok
          (raise_if (not (sum_to_one c.strict_replay_fraction c.reconstructed_pit_fraction)) _) _
          h10 in
      let (u12, e12, h12) =
        >>=-eq-ok
          (raise_if
            (not (is_sorted (map (λ x. x.provider) c.coverage))
              || repeats (map (λ x. x.provider) c.coverage))
            _)
          _ h11 in
      let (u13, named, h13) =
        >>=-eq-ok (raise_if (not (same v.dataset_version_id (prefix ++ v.dataset_sha256))) _) _
          h12 in
      let kept : DatasetContent = record c {
        dataset_key = key;
        schema_version = schema;
        feature_schema_version = features;
        label_schema_version = labels;
      } in
      let (u14, hashed, h14) =
        >>=-eq-ok (raise_if (not (same v.dataset_sha256 (sha256 (content_json kept)))) _) _ h13 in
      let (a, l1, k1) =
        >>=-eq-ok
          (raise_if (is_nil c.source_manifest_ids || is_nil c.partition_ids || is_nil c.coverage) _)
          _ lists in
      let (b, l2, k2) =
        >>=-eq-ok
          (raise_if (not (length c.source_manifest_ids == length c.source_manifest_hashes)) _) _
          k1 in
      let (d, l3, k3) =
        >>=-eq-ok (raise_if (not (length c.partition_ids == length c.partition_hashes)) _) _ k2 in
      let (f, l4, k4) = >>=-eq-ok (raise_if (repeats c.source_manifest_ids) _) _ k3 in
      let (g, distinct, k5) = >>=-eq-ok (raise_if (repeats c.partition_ids) _) _ k4 in
      subst (IsIdentified v) (ok_injective h14) (record {
        hashed = same_eq v.dataset_sha256 (sha256 (content_json kept)) (ground arith);
        named = same_eq v.dataset_version_id (prefix ++ v.dataset_sha256) (ground arith);
        ids = refl;
        manifests = refl;
        created = refl;
        cutoff = refl;
        total = refl;
        coverage = refl;
        gaps = refl;
        distinct = raise_if-eq-ok _ _ distinct;
      })
    where
      ok_injective : {x : DatasetVersion} → ok x ≡ ok w → x ≡ w
      ok_injective e = cc

  -- A version stands for its evidence.
  pub record IsPinned (manifests : List DurableManifest) (partitions : List DurablePartition)
      (os : Rows) (expected : Option ℤ) (allow : Bool) (v : DatasetVersion) : Type 0 where
    pub checked : IsChecked manifests partitions os v.content.cutoff_at allow
    pub referenced_are_given :
        AreAmong (referenced sha256 content_json manifests) (map (λ p. p.partition_id) partitions)
    pub given_are_referenced :
        AreAmong (map (λ p. p.partition_id) partitions) (referenced sha256 content_json manifests)
    pub partition_ids :
        v.content.partition_ids
        ≡ map (λ p. p.partition_id) (sort_by (λ p. p.partition_id) partitions)
    pub manifest_ids :
        v.content.source_manifest_ids
        ≡ map (λ m. m.manifest_id) (sort_by (λ m. m.manifest_id) manifests)
    pub distinct : repeats v.content.partition_ids ≡ false
    pub created_after : v.content.cutoff_at ≤ v.content.created_at
    pub total : v.content.total_rows ≡ length os
    pub coverage : provider_coverages os ≡ ok v.content.coverage
    pub gaps : detect_gaps expected os ≡ ok v.content.gaps
    pub hashed : v.dataset_sha256 ≡ sha256 (content_json v.content)
    pub named : v.dataset_version_id ≡ str "dataset-version:sha256:" ++ v.dataset_sha256

  content_of-IsPinned :
      (key schema features labels : Str) (manifests : List DurableManifest)
      (partitions : List DurablePartition) (os : Rows) (created cutoff : ℕ) (expected : Option ℤ)
      (allow : Bool) {coverage : List ProviderCoverage} {gaps : List DatasetGap}
      {w : DatasetVersion} {u : Unit {0}}
      → cutoff ≤ created
      → check_evidence sha256 content_json manifests partitions os cutoff allow ≡ ok u
      → provider_coverages os ≡ ok coverage
      → detect_gaps expected os ≡ ok gaps
      → dataset_version sha256 content_json (
          identified_version sha256 content_json (
            content_of sha256 content_json key schema features labels manifests partitions os
              created cutoff coverage gaps))
        ≡ ok w
      → IsPinned manifests partitions os expected allow w
  unfolding content_of
  content_of-IsPinned key schema features labels manifests partitions os created cutoff expected
        allow {coverage} {gaps} order evidence covered detected h =
      let (checked, among, back) =
        check_evidence-IsChecked manifests partitions os cutoff allow evidence in
      let i =
        dataset_version-IsIdentified
          (identified_version sha256 content_json (
            content_of sha256 content_json key schema features labels manifests partitions os
              created cutoff coverage gaps))
          h in
      record {
        checked = subst (λ t. IsChecked manifests partitions os t allow) (sym i.cutoff) checked;
        referenced_are_given = among;
        given_are_referenced = back;
        partition_ids = i.ids;
        manifest_ids = i.manifests;
        distinct = i.distinct;
        created_after = ordered i.cutoff i.created order;
        total = i.total ∙ checked.rows;
        coverage = subst (λ c. provider_coverages os ≡ ok c) (sym i.coverage) covered;
        gaps = subst (λ g. detect_gaps expected os ≡ ok g) (sym i.gaps) detected;
        hashed = i.hashed;
        named = i.named;
      }

  -- A dataset version that is built has the digest of its content as its identity. Its manifests are
  -- made of the partitions that are given, all of which they refer to; there are as many
  -- observations as rows, none of them twice; each is eligible at the cutoff, for a strict replay
  -- unless reconstructed evidence is allowed; and the coverage and the gaps are those of the
  -- observations.
  pub build_dataset_version-IsPinned :
      (dataset_key schema_version : Str) (manifests : List DurableManifest)
      (partitions : List DurablePartition) (os : Rows) (feature_schema label_schema : Str)
      (created_at cutoff_at : DateTime) (expected : Option ℤ) (allow : Bool) {w : DatasetVersion}
      → build_dataset_version sha256 content_json dataset_key schema_version manifests partitions os
          feature_schema label_schema created_at cutoff_at expected allow
        ≡ ok w
      → IsPinned manifests partitions os expected allow w
  unfolding build_dataset_version
  build_dataset_version-IsPinned dataset_key schema_version manifests partitions os feature_schema
        label_schema created_at cutoff_at expected allow {w} h =
      let (key, e1, h1) = >>=-eq-ok (text dataset_key "dataset_key") _ h in
      let (schema, e2, h2) = >>=-eq-ok (text schema_version "schema_version") _ h1 in
      let (features, e3, h3) = >>=-eq-ok (text feature_schema "feature_schema_version") _ h2 in
      let (labels, e4, h4) = >>=-eq-ok (text label_schema "label_schema_version") _ h3 in
      let (created, e5, h5) = >>=-eq-ok (utc created_at "created_at") _ h4 in
      let (cutoff, e6, h6) = >>=-eq-ok (utc cutoff_at "cutoff_at") _ h5 in
      let (u7, order, h7) = >>=-eq-ok (raise_if (ltb created cutoff) _) _ h6 in
      let (u8, evidence, h8) =
        >>=-eq-ok (check_evidence sha256 content_json manifests partitions os cutoff allow) _ h7 in
      let (coverage, covered, h9) = >>=-eq-ok (provider_coverages os) _ h8 in
      let (gaps, detected, h10) = >>=-eq-ok (detect_gaps expected os) _ h9 in
      content_of-IsPinned key schema features labels manifests partitions os created cutoff expected
        allow (ltb-false _ _ (raise_if-eq-ok _ _ order)) evidence covered detected h10
