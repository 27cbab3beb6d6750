-- ===== src/Contract/Grouping.antt =====
-- The dictionary of series that `select_as_of` builds, against the plain filter by key.
use xrp_inteliggence_x.Base.{
  joined, joined-nil, joined-cons, lookup-append_under, append_under-HasDistinctKeys, ℕ, ◌≡◌, refl,
  inl, inr, sym, ap, ◌∙◌, Bool, false, ◌&&◌, Option, List, [], ◌∷◌, keep, same, list_order,
  nat_order, lookup, HasDistinctKeys, Bool-cases, arith,
}
use xrp_inteliggence_x.Contract.Observation.{HistoricalObservation}
use xrp_inteliggence_x.Contract.Select.{
  SeriesKey, series_key, admitted, Groups, add_to_group, visit, group_from,
}

abbrev Obs : Type 0
Obs = HistoricalObservation

abbrev pub in_series : ℕ → Bool → SeriesKey → HistoricalObservation → Bool
in_series prediction allow k o = admitted prediction allow o && same k (series_key o)

module _ (prediction : ℕ) (allow : Bool) where
  lookup-visit :
      (k : SeriesKey) (o : Obs) (d : Groups)
      → lookup k (visit prediction allow o d)
        ≡ joined (lookup k d) (keep (in_series prediction allow k) (o ∷ []))
  unfolding visit add_to_group
  lookup-visit k o d = elim (Bool-cases (admitted prediction allow o)) [
    | inl e ↦ ground (arith, e, lookup-append_under (series_key o) k o d, joined-nil (lookup k d))
    | inr e ↦ ground (arith, e, joined-nil (lookup k d))
  ]

  extend-keep :
      (b : Option (List Obs)) (p : Obs → Bool) (o : Obs) (os : List Obs)
      → joined (joined b (keep p (o ∷ []))) (keep p os) ≡ joined b (keep p (o ∷ os))
  extend-keep b p o os = elim (Bool-cases (p o)) [
    | inl e ↦ rw e (joined-cons b o (keep p os))
    | inr e ↦ rw (e, joined-nil b)
  ]

  -- The entry of a series is what was there, then its admitted observations in their order.
  pub lookup-group_from :
      (k : SeriesKey) (d : Groups) (os : List HistoricalObservation)
      → lookup k (group_from prediction allow d os)
        ≡ joined (lookup k d) (keep (in_series prediction allow k) os)
  unfolding group_from
  lookup-group_from k d [] = sym (joined-nil (lookup k d))
  lookup-group_from k d (o ∷ os) =
      lookup-group_from k (visit prediction allow o d) os
      ∙ ap (λ b. joined b (keep (in_series prediction allow k) os)) (lookup-visit k o d)
      ∙ extend-keep (lookup k d) (in_series prediction allow k) o os

  visit_refused :
      (o : Obs) (d : Groups) → admitted prediction allow o ≡ false → visit prediction allow o d ≡ d
  unfolding visit
  visit_refused o d h = rw h

  -- Observations that are not admitted leave no trace in the groups.
  pub group_from-keep :
      (d : Groups) (os : List HistoricalObservation)
      → group_from prediction allow d (keep (admitted prediction allow) os)
        ≡ group_from prediction allow d os
  unfolding group_from
  group_from-keep d [] = refl
  group_from-keep d (o ∷ os) = elim (Bool-cases (admitted prediction allow o)) [
    | inl e ↦ rw e (group_from-keep (visit prediction allow o d) os)
    | inr e ↦ rw (e, visit_refused o d e) (group_from-keep d os)
  ]

  visit-HasDistinctKeys :
      (o : Obs) (d : Groups) → HasDistinctKeys d → HasDistinctKeys (visit prediction allow o d)
  unfolding visit add_to_group
  visit-HasDistinctKeys o d h = elim (Bool-cases (admitted prediction allow o)) [
    | inl e ↦ rw e (append_under-HasDistinctKeys (series_key o) o d h)
    | inr e ↦ rw e h
  ]

  pub group_from-HasDistinctKeys :
      (d : Groups) (os : List HistoricalObservation)
      → HasDistinctKeys d
      → HasDistinctKeys (group_from prediction allow d os)
  unfolding group_from
  group_from-HasDistinctKeys d [] h = h
  group_from-HasDistinctKeys d (o ∷ os) h =
      group_from-HasDistinctKeys (visit prediction allow o d) os (visit-HasDistinctKeys o d h)
