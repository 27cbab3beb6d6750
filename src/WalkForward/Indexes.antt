-- ===== src/WalkForward/Indexes.antt =====
-- The dictionaries of features and of labels by the identity of a feature row.
use xrp_inteliggence_x.Base.{
  ◌≡◌, some, List, [], ◌∷◌, Memᴰ, same, same_eq, same_refl, nat_order, list_order, Dict, lookup,
  insert, lookup-insert, is_some, Bool-cases, inl, inr, ◌⊎◌, Str, ok, raise_if, >>=-eq-ok,
  raise_if-eq-ok, value_error, arith,
}
use xrp_inteliggence_x.WalkForward.Rows.{FeatureRow, OutcomeLabel, features_by_id, labels_by_id}

module _ (f : FeatureRow) where
  -- An entry is never replaced: a second feature row of its identifier raises.
  features_by_id-keeps :
      (k : Str) (fs : List FeatureRow) (d : Dict Str FeatureRow) {e : Dict Str FeatureRow}
      → lookup k d ≡ some f
      → features_by_id fs d ≡ ok e
      → lookup k e ≡ some f
  unfolding features_by_id
  features_by_id-keeps k [] d h made = ground arith
  features_by_id-keeps k (g ∷ fs) d h made =
      let (u, fresh, rest) =
        >>=-eq-ok
          (raise_if (is_some (lookup g.feature_row_id d))
            (value_error "duplicate feature_row_id: "))
          _ made in
      features_by_id-keeps k fs (insert g.feature_row_id g d)
        (let unused = raise_if-eq-ok _ _ fresh in
          ground (arith, lookup-insert g.feature_row_id k g d, same_eq k g.feature_row_id))
        rest

  pub features_by_id-lookup :
      (fs : List FeatureRow) (d : Dict Str FeatureRow) {e : Dict Str FeatureRow}
      → Memᴰ f fs
      → features_by_id fs d ≡ ok e
      → lookup f.feature_row_id e ≡ some f
  unfolding features_by_id
  features_by_id-lookup [] d m made = elim m [ ]
  features_by_id-lookup (g ∷ fs) d (Memᴰ.head p) made =
      let (u, fresh, rest) =
        >>=-eq-ok
          (raise_if (is_some (lookup g.feature_row_id d))
            (value_error "duplicate feature_row_id: "))
          _ made in
      features_by_id-keeps f.feature_row_id fs (insert g.feature_row_id g d)
        (ground (
          arith,
          p,
          lookup-insert g.feature_row_id g.feature_row_id g d,
          same_refl g.feature_row_id,
        ))
        rest
  features_by_id-lookup (g ∷ fs) d (Memᴰ.tail m) made =
      let (u, fresh, rest) =
        >>=-eq-ok
          (raise_if (is_some (lookup g.feature_row_id d))
            (value_error "duplicate feature_row_id: "))
          _ made in
      features_by_id-lookup fs (insert g.feature_row_id g d) m rest

pub features_by_id-given :
    (k : Str) (fs : List FeatureRow) (d : Dict Str FeatureRow) {e : Dict Str FeatureRow}
    {f : FeatureRow}
    → features_by_id fs d ≡ ok e
    → lookup k e ≡ some f
    → (lookup k d ≡ some f) ⊎ Memᴰ f fs
unfolding features_by_id
features_by_id-given k [] d made h = inl (ground arith)
features_by_id-given k (g ∷ fs) d {f = f} made h =
    let (u, fresh, rest) =
      >>=-eq-ok
        (raise_if (is_some (lookup g.feature_row_id d)) (value_error "duplicate feature_row_id: "))
        _ made in
    go (features_by_id-given k fs (insert g.feature_row_id g d) rest h)
  where
    go :
        (lookup k (insert g.feature_row_id g d) ≡ some f) ⊎ Memᴰ f fs
        → (lookup k d ≡ some f) ⊎ Memᴰ f (g ∷ fs)
    go (inr m) = inr (Memᴰ.tail m)
    go (inl p) = elim (Bool-cases (same k g.feature_row_id)) [
      | inl e ↦ inr (Memᴰ.head (ground (arith, lookup-insert g.feature_row_id k g d)))
      | inr e ↦ inl (ground (arith, lookup-insert g.feature_row_id k g d))
    ]

pub labels_by_id-given :
    (k : Str) (ls : List OutcomeLabel) (d : Dict Str OutcomeLabel) {e : Dict Str OutcomeLabel}
    {l : OutcomeLabel}
    → labels_by_id ls d ≡ ok e
    → lookup k e ≡ some l
    → (lookup k d ≡ some l) ⊎ Memᴰ l ls
unfolding labels_by_id
labels_by_id-given k [] d made h = inl (ground arith)
labels_by_id-given k (g ∷ ls) d {l = l} made h =
    let (u, fresh, rest) =
      >>=-eq-ok
        (raise_if (is_some (lookup g.feature_row_id d))
          (value_error "duplicate label for feature_row_id: "))
        _ made in
    go (labels_by_id-given k ls (insert g.feature_row_id g d) rest h)
  where
    go :
        (lookup k (insert g.feature_row_id g d) ≡ some l) ⊎ Memᴰ l ls
        → (lookup k d ≡ some l) ⊎ Memᴰ l (g ∷ ls)
    go (inr m) = inr (Memᴰ.tail m)
    go (inl p) = elim (Bool-cases (same k g.feature_row_id)) [
      | inl e ↦ inr (Memᴰ.head (ground (arith, lookup-insert g.feature_row_id k g d)))
      | inr e ↦ inl (ground (arith, lookup-insert g.feature_row_id k g d))
    ]
