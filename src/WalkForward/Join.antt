-- ===== src/WalkForward/Join.antt =====
-- `join_labeled_rows` pairs each feature row with its own label.
use xrp_inteliggence_x.Base.{
  is_nil, ◌≤◌, ◌<◌, ◌≡◌, refl, sym, subst, Option, none, some, List, [], Memᴰ, All, All-by_mem,
  All-sort_by, mem-sort_by, same_eq, nat_order, list_order, Dict, keys, lookup, mem-keys, inl, inr,
  ◌⊎◌, Str, ok, raise, raise_if, >>=-eq-ok, collect, collect_sound, collect_complete, value_error,
  arith, key_error,
}
use xrp_inteliggence_x.WalkForward.Rows.{
  FeatureRow, OutcomeLabel, LabeledFeatureRow, labeled_row, row_key, sort_rows, features_by_id,
  labels_by_id, missing_from, mismatch, join_one, join_labeled_rows, check_ordered,
}
use xrp_inteliggence_x.WalkForward.Indexes.{
  features_by_id-lookup, features_by_id-given, labels_by_id-given,
}

-- A row that pairs one of the features with its own label, which ends after the prediction and is
-- resolved at its end or later.
pub record IsPairOf (fs : List FeatureRow) (ls : List OutcomeLabel) (r : LabeledFeatureRow)
    : Type 0 where
  pub from_features : Memᴰ r.feature fs
  pub from_labels : Memᴰ r.label ls
  pub ids : r.label.feature_row_id ≡ r.feature.feature_row_id
  pub times : r.label.prediction_time ≡ r.feature.prediction_time
  pub ends_after : r.feature.prediction_time < r.label.label_end_at
  pub resolved_after : r.label.label_end_at ≤ r.label.resolved_at

labeled_row-IsPairOf :
    (fs : List FeatureRow) (ls : List OutcomeLabel) (f : FeatureRow) (l : OutcomeLabel)
    {r : LabeledFeatureRow}
    → Memᴰ f fs
    → Memᴰ l ls
    → labeled_row f l ≡ ok r
    → IsPairOf fs ls r × (r.feature ≡ f)
unfolding labeled_row
labeled_row-IsPairOf fs ls f l {r} m n h =
    let feature : r.feature ≡ f = ground arith in
    let label : r.label ≡ l = ground arith in
    (
      record {
        from_features = subst (λ g. Memᴰ g fs) (sym feature) m;
        from_labels = subst (λ g. Memᴰ g ls) (sym label) n;
        ids = rw (feature, label) (sym (same_eq f.feature_row_id l.feature_row_id (ground arith)));
        times = rw (feature, label) (ground arith);
        ends_after = rw (feature, label) (ground arith);
        resolved_after = rw label (ground arith);
      },
      feature,
    )

join_one-eq-ok :
    (d : Dict Str FeatureRow) (e : Dict Str OutcomeLabel) (k : Str) {r : LabeledFeatureRow}
    → join_one d e k ≡ ok r
    → (f : FeatureRow) × (l : OutcomeLabel) × (lookup k d ≡ some f)
      × (lookup k e ≡ some l)
      × (labeled_row f l ≡ ok r)
unfolding join_one
join_one-eq-ok d e k {r} h = go (lookup k d) refl (lookup k e) refl h
  where
    go :
        (a : Option FeatureRow)
        → lookup k d ≡ a
        → (b : Option OutcomeLabel) → lookup k e ≡ b
        → elim a [
          | none ↦ raise key_error
          | some f ↦ elim b [ none ↦ raise key_error | some l ↦ labeled_row f l ]
        ]
          ≡ ok r
        → (f : FeatureRow) × (l : OutcomeLabel) × (lookup k d ≡ some f)
          × (lookup k e ≡ some l)
          × (labeled_row f l ≡ ok r)
    go none p b q done = cc
    go (some f) p none q done = cc
    go (some f) p (some l) q done = (f, l, p, q, done)

none_before :
    {A : Type 0} (k : Str) {a : A} {xs : List A} → (lookup k [] ≡ some a) ⊎ Memᴰ a xs → Memᴰ a xs
unfolding lookup
none_before k (inl p) = cc
none_before k (inr m) = m

join_one-IsPairOf :
    (fs : List FeatureRow) (ls : List OutcomeLabel) {d : Dict Str FeatureRow}
    {e : Dict Str OutcomeLabel} (k : Str) {r : LabeledFeatureRow}
    → features_by_id fs [] ≡ ok d
    → labels_by_id ls [] ≡ ok e
    → join_one d e k ≡ ok r
    → (f : FeatureRow) × (lookup k d ≡ some f) × IsPairOf fs ls r × (r.feature ≡ f)
join_one-IsPairOf fs ls {d} {e} k features labels h =
    let (f, l, found, labelled, made) = join_one-eq-ok d e k h in
    let (pair, from_f) =
      labeled_row-IsPairOf fs ls f l (none_before k (features_by_id-given k fs [] features found))
        (none_before k (labels_by_id-given k ls [] labels labelled)) made in
    (f, found, pair, from_f)

join_labeled_rows-eq-ok :
    (fs : List FeatureRow) (ls : List OutcomeLabel) {rows : List LabeledFeatureRow}
    → join_labeled_rows fs ls ≡ ok rows
    → (d : Dict Str FeatureRow) × (e : Dict Str OutcomeLabel) × (joined : List LabeledFeatureRow)
      × (features_by_id fs [] ≡ ok d)
      × (labels_by_id ls [] ≡ ok e)
      × (collect (join_one d e) (keys d) ≡ ok joined)
      × (rows ≡ sort_rows joined)
unfolding join_labeled_rows
join_labeled_rows-eq-ok fs ls h =
    let (u, p, h1) =
      >>=-eq-ok (raise_if (is_nil fs) (value_error "features cannot be empty")) _ h in
    let (v, q, h2) = >>=-eq-ok (raise_if (is_nil ls) (value_error "labels cannot be empty")) _ h1 in
    let (d, features, h3) = >>=-eq-ok (features_by_id fs []) _ h2 in
    let (e, labels, h4) = >>=-eq-ok (labels_by_id ls []) _ h3 in
    let (w, s, h5) = >>=-eq-ok (mismatch (missing_from d e) (missing_from e d)) _ h4 in
    let (joined, made, h6) = >>=-eq-ok (collect (join_one d e) (keys d)) _ h5 in
    let (x, t, h7) = >>=-eq-ok (check_ordered (sort_rows joined)) _ h6 in
    (d, e, joined, features, labels, made, ground arith)

-- A join that succeeds pairs features with their own labels, which end after the prediction and
-- resolve at their end or later, and every feature has a row.
pub join_labeled_rows-IsPairOf :
    (fs : List FeatureRow) (ls : List OutcomeLabel) {rows : List LabeledFeatureRow}
    → join_labeled_rows fs ls ≡ ok rows
    → All (IsPairOf fs ls) rows
      × All (λ f. (r : LabeledFeatureRow) × Memᴰ r rows × (r.feature ≡ f)) fs
unfolding sort_rows
join_labeled_rows-IsPairOf fs ls {rows} h =
    let (d, e, joined, features, labels, made, sorted) = join_labeled_rows-eq-ok fs ls h in
    (
      subst (All (IsPairOf fs ls)) (sym sorted) (
          All-sort_by row_key (IsPairOf fs ls) joined (
            All-by_mem (IsPairOf fs ls) joined (λ r m.
              let (k, _, one) = collect_sound (join_one d e) (keys d) made m in
              (join_one-IsPairOf fs ls k features labels one).2))),
      All-by_mem _ fs (λ f m.
          let found = features_by_id-lookup f fs [] m features in
          let (r, n, one) =
            collect_complete (join_one d e) (keys d) made (mem-keys f.feature_row_id f d found) in
          let (g, again, pair, same_row) =
            join_one-IsPairOf fs ls f.feature_row_id features labels one in
          (r, subst (λ l. Memᴰ r l) (sym sorted) (mem-sort_by row_key joined n), cc)),
    )
