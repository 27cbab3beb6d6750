-- ===== src/Dataset/Detection.antt =====
-- `_detect_gaps` reports what lies between the observations of a provider, and all of it.
use xrp_inteliggence_x.Base.{
  ℕ, ◌+◌, ◌≤◌, ◌<◌, ◌≡◌, ◌⊎◌, sym, ◌∙◌, subst, inl, inr, Bool, some, List, Memᴰ, All, All-map,
  All_of_mem, same, same_refl, keep_mem, list_order, nat_order, ℤ, pos_part, Str, ok, arith,
}
use xrp_inteliggence_x.Contract.Observation.{HistoricalObservation, text}
use xrp_inteliggence_x.Dataset.Coverage.{DatasetGap, Rows, by_provider, times_of, detect_gaps}
use xrp_inteliggence_x.Dataset.Gaps.{gaps_between-IsBetween}
use xrp_inteliggence_x.Dataset.Providers.{rows_of, by_provider-rows, by_provider-has, mem-times_of}
use xrp_inteliggence_x.Dataset.Spans.{
  times_of-IsAscending, IsGapOf, gaps_of-IsGapOf, gaps_of-part, times-cover, detect_gaps-gaps_of,
  observed,
}

-- If the gaps are detected, then at each instant from one observation of a provider up to another,
-- an observation of the provider is no more than the interval old, or a gap of the provider is
-- reported.
pub detect_gaps-covers :
    (expected : ℤ) (os : Rows) (first last : HistoricalObservation) (t : ℕ) {gs : List DatasetGap}
    → detect_gaps (some expected) os ≡ ok gs
    → Memᴰ first os
    → Memᴰ last os
    → last.provider ≡ first.provider
    → first.observed_at ≤ t
    → t < last.observed_at
    → ((o : HistoricalObservation) × Memᴰ o os
        × (o.provider ≡ first.provider)
        × (o.observed_at ≤ t)
        × (t < o.observed_at + pos_part expected))
      ⊎ ((g : DatasetGap) × Memᴰ g gs
          × (text first.provider "provider" ≡ ok g.provider)
          × (g.starts_at ≤ t)
          × (t < g.ends_at))
detect_gaps-covers expected os first last t {gs} h m n same_provider le lt =
    let p = first.provider in
    let interval = pos_part expected in
    let rows = rows_of p os in
    let of : HistoricalObservation → Bool = λ o. same p o.provider in
    let (part, made, within) =
      gaps_of-part interval (by_provider os) (detect_gaps-gaps_of expected os h)
        (by_provider-has os m) in
    let start = mem-times_of rows (keep_mem of os m (same_refl p)) in
    let end = mem-times_of rows (keep_mem of os n (rw same_provider (same_refl p))) in
    elim (times-cover p interval t first.observed_at last.observed_at (times_of rows)
      (times_of-IsAscending rows) made start le lt end) [
        | inl (x, k, below, above) ↦
            let (o, given, own, e) = observed os p k in
            inl (o, given, own, omega arith, omega arith)
        | inr (g, k, from, to) ↦
            let (i, named) =
              All_of_mem _ part
                (gaps_between-IsBetween p interval (times_of rows) (times_of-IsAscending rows) made)
                k in
            inr (g, within g k, named, from, to)
      ]

-- A gap of the rows: it begins an interval after an observation of its provider, ends at a later one,
-- and no observation of the provider lies between the two.
pub record IsTrueGap (interval : ℕ) (os : Rows) (g : DatasetGap) : Type 0 where
  pub before : HistoricalObservation
  pub after : HistoricalObservation
  pub before_given : Memᴰ before os
  pub after_given : Memᴰ after os
  pub one_provider : after.provider ≡ before.provider
  pub named : text before.provider "provider" ≡ ok g.provider
  pub start : g.starts_at ≡ before.observed_at + interval
  pub end : g.ends_at ≡ after.observed_at
  pub positive : g.starts_at < g.ends_at
  pub empty :
      (o : HistoricalObservation)
      → Memᴰ o os
      → o.provider ≡ before.provider
      → (o.observed_at ≤ before.observed_at) ⊎ (after.observed_at ≤ o.observed_at)

-- Each gap that is detected lies between two successive observations of its provider that are more
-- than the interval apart.
pub detect_gaps-IsTrueGap :
    (expected : ℤ) (os : Rows) {gs : List DatasetGap}
    → detect_gaps (some expected) os ≡ ok gs
    → All (IsTrueGap (pos_part expected) os) gs
detect_gaps-IsTrueGap expected os {gs} h =
    All-map _ (IsTrueGap (pos_part expected) os) gs (λ g (e, m, i). gap e.0 e.1 g m i)
      (gaps_of-IsGapOf (pos_part expected) (by_provider os) (detect_gaps-gaps_of expected os h))
  where
    gap :
        (p : Str) (rows : Rows) (g : DatasetGap)
        → Memᴰ (p, rows) (by_provider os)
        → IsGapOf (pos_part expected) (p, rows) g
        → IsTrueGap (pos_part expected) os g
    gap p rows g m (i, named) =
        let own = by_provider-rows os m in
        let (x, given, of_p, at) =
          observed os p (subst (λ r. Memᴰ i.previous (times_of r)) (sym own) i.is_time) in
        let (y, later, of_q, end) =
          observed os p (subst (λ r. Memᴰ g.ends_at (times_of r)) (sym own) i.end_is_time) in
        let start = i.start in
        record {
          before = x;
          after = y;
          before_given = given;
          after_given = later;
          one_provider = of_q ∙ sym of_p;
          named = subst (λ n. text n "provider" ≡ ok g.provider) (sym of_p) named;
          start = omega arith;
          end = end;
          positive = i.positive;
          empty = λ o n same_provider.
              let row =
                keep_mem (λ (z : HistoricalObservation). same p z.provider) os n
                  (rw (same_provider, of_p) (same_refl p)) in
              between at end (
                All_of_mem _ (times_of rows) i.empty
                  (subst (λ r. Memᴰ o.observed_at (times_of r)) own (mem-times_of _ row)));
        }
      where
        between :
            {a b t : ℕ}
            → i.previous ≡ a
            → g.ends_at ≡ b
            → (t ≤ i.previous) ⊎ (g.ends_at ≤ t)
            → (t ≤ a) ⊎ (b ≤ t)
        between e f (inl le) = inl (omega arith)
        between e f (inr le) = inr (omega arith)
