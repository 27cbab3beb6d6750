-- ===== src/Contract/PointInTime.antt =====
-- `select_as_of` depends only on what could be known at the prediction time, and it fails only on
-- revisions that contradict each other.
use xrp_inteliggence_x.Base.{
  All, ◌<◌, Result, joined, ℕ, ◌≡◌, refl, ◌∙◌, sym, ap, Bool, true, false, ◌&&◌, ◌||◌, Option, none,
  some, List, [], ◌∷◌, Memᴰ, keep, mem_of_keep, leb, same_eq, list_order, nat_order, sort_by,
  mem_of_sort_by, keys, lookup, lookup_of_mem-keys, &&-true, Str, ok, collect, collect_sound,
  collect_complete, collect-total, arith, aware, utc, subst,
}
use xrp_inteliggence_x.Contract.Observation.{
  HistoricalObservation, availability_boundary, is_given, classify, eligibility,
}
use xrp_inteliggence_x.Contract.Select.{
  SeriesKey, series_key, rank_at, revision_rank, admitted, class_admitted, Ranked, with_rank,
  best_of, select_group, select_at, select_as_of,
}
use xrp_inteliggence_x.Contract.Grouping.{in_series, group_from-keep}
use xrp_inteliggence_x.Contract.Ranking.{HaveOneDigest, best_of-total}
use xrp_inteliggence_x.Contract.Selection.{candidates, groups, with_rank-eq-ok, joined-some}

abbrev Obs : Type 0
Obs = HistoricalObservation

abbrev pub reached : Option ℕ → ℕ → Bool
reached none t = false
reached (some boundary) t = leb boundary t

-- What the engine can know at `t`: the release lies in the past, and so does the fetch, unless a
-- reconstruction with a basis is allowed.
abbrev pub knowable : ℕ → Bool → HistoricalObservation → Bool
knowable t allow o =
    reached (availability_boundary o) t
    && (leb o.fetched_at t || (allow && is_given o.reconstruction_basis_id))

classified :
    (b : Option ℕ) (f t : ℕ) (basis : Option Str) (allow : Bool)
    → class_admitted allow (classify b f basis t)
      ≡ (reached b t && (leb f t || (allow && is_given basis)))
unfolding classify
classified none f t basis allow = refl
classified (some b) f t basis allow = ground arith

pub admitted-eq-knowable :
    (t : ℕ) (allow : Bool) (o : HistoricalObservation) → admitted t allow o ≡ knowable t allow o
unfolding admitted eligibility
admitted-eq-knowable t allow o =
    classified (availability_boundary o) o.fetched_at t o.reconstruction_basis_id allow

keep-admitted :
    (t : ℕ) (allow : Bool) (os : List Obs) → keep (admitted t allow) os ≡ keep (knowable t allow) os
keep-admitted t allow [] = refl
keep-admitted t allow (o ∷ os) = rw (admitted-eq-knowable t allow o, keep-admitted t allow os)

module _ (canonical_sha256 : HistoricalObservation → Result Str) where
  select_at-knowable :
      (t : ℕ) (allow : Bool) (os : List Obs)
      → select_at canonical_sha256 t allow (keep (knowable t allow) os)
        ≡ select_at canonical_sha256 t allow os
  unfolding select_at
  select_at-knowable t allow os = rw (← keep-admitted t allow os, group_from-keep t allow [] os)

  -- No lookahead: two histories that agree on what is knowable at the prediction time, and in its
  -- order, give the same selection, or the same exception.
  pub select_as_of-no_lookahead :
      (t : ℕ) (allow : Bool) (os os' : List HistoricalObservation)
      → keep (knowable t allow) os ≡ keep (knowable t allow) os'
      → select_as_of canonical_sha256 os (aware t) allow
        ≡ select_as_of canonical_sha256 os' (aware t) allow
  unfolding select_as_of utc
  select_as_of-no_lookahead t allow os os' h =
      sym (select_at-knowable t allow os)
      ∙ ap (select_at canonical_sha256 t allow) h
      ∙ select_at-knowable t allow os'

abbrev pub IsDated : Option ℕ → Type 0
IsDated none = Unit
IsDated (some date) = date < 3652058

-- The date of a release has a next day, which the boundary of a date-only release needs.
-- The first number that has none, 3652058, is 9999-12-31.
abbrev pub HasNextDay : HistoricalObservation → Type 0
HasNextDay o = IsDated o.available_date

not-nil : {e : Ranked} → Memᴰ e [] → ⊥
not-nil m = elim m [ ]

module _ (canonical_sha256 : HistoricalObservation → Result Str) (t : ℕ) (allow : Bool)
    (observations : List HistoricalObservation) where
  -- Revisions of one series and one rank have one digest, which is computed without an exception.
  abbrev pub Consistent : Type 0
  Consistent =
      (o p : HistoricalObservation) (r : List ℕ)
      → Memᴰ o observations
      → Memᴰ p observations
      → series_key o ≡ series_key p
      → revision_rank o ≡ ok r
      → revision_rank p ≡ ok r
      → HaveOneDigest canonical_sha256 o p

  ranked_of_boundary :
      (o : Obs) (b : Option ℕ)
      → availability_boundary o ≡ b
      → reached b t ≡ true
      → (e : Ranked) × (with_rank o ≡ ok e)
  unfolding with_rank revision_rank
  ranked_of_boundary o none e h = cc
  ranked_of_boundary o (some b) e h = ((rank_at b o, o), ground (arith, e))

  admitted-ranked : (o : Obs) → admitted t allow o ≡ true → (e : Ranked) × (with_rank o ≡ ok e)
  admitted-ranked o h =
      ranked_of_boundary o (availability_boundary o) refl
        (&&-true _ _ (sym (admitted-eq-knowable t allow o) ∙ h)).0

  group_total :
      (k : SeriesKey) (c : List Obs) {o : Obs}
      → Consistent
      → keep (in_series t allow k) observations ≡ c
      → Memᴰ o c
      → (ranked : List Ranked) × (s : Obs) × (collect with_rank c ≡ ok ranked)
        × (best_of canonical_sha256 ranked ≡ ok s)
  group_total k c {o} consistent e first =
      let inside = λ (o : Obs) (m : Memᴰ o c).
        mem_of_keep (in_series t allow k) observations (subst (λ l. Memᴰ o l) (sym e) m) in
      let (ranked, done) =
        collect-total with_rank c (λ o m. admitted-ranked o (&&-true _ _ (inside o m).1).0) in
      let agree = λ (p q : Ranked) (m : Memᴰ p ranked) (n : Memᴰ q ranked) (same_rank : p.0 ≡ q.0).
        let (x, mx, ex) = collect_sound with_rank c done m in
        let (y, my, ey) = collect_sound with_rank c done n in
        let (px, rp) = with_rank-eq-ok x ex in
        let (qy, rq) = with_rank-eq-ok y ey in
        let same_series =
          sym (same_eq k _ (&&-true _ _ (inside x mx).1).1)
          ∙ same_eq k _ (&&-true _ _ (inside y my).1).1 in
        consistent p.1 q.1 p.0 (subst (λ z. Memᴰ z observations) (sym px) (inside x mx).0)
          (subst (λ z. Memᴰ z observations) (sym qy) (inside y my).0)
          (ap series_key px ∙ same_series ∙ sym (ap series_key qy)) rp
          (rq ∙ ap ok (sym same_rank)) in
      go ranked done agree
    where
      go :
          (ranked : List Ranked)
          → collect with_rank c ≡ ok ranked
          → ((p q : Ranked)
              → Memᴰ p ranked
              → Memᴰ q ranked
              → p.0 ≡ q.0
              → HaveOneDigest canonical_sha256 p.1 q.1)
          → (ranked : List Ranked) × (s : Obs) × (collect with_rank c ≡ ok ranked)
            × (best_of canonical_sha256 ranked ≡ ok s)
      go [] done agree =
          let (r, nothing, ranked) = collect_complete with_rank c done first in
          absurd (not-nil nothing)
      go (r ∷ rs) done agree =
          let (s, found) = best_of-total canonical_sha256 r rs agree in (r ∷ rs, s, done, found)

  select_group-total :
      (k : SeriesKey)
      → Consistent
      → Memᴰ k (keys (groups canonical_sha256 t allow observations))
      → (s : Obs) × (select_group canonical_sha256 (groups canonical_sha256 t allow observations) k
          ≡ ok s)
  unfolding select_group
  select_group-total k consistent m =
      let (c, found) = lookup_of_mem-keys k (groups canonical_sha256 t allow observations) m in
      let listed = sym (candidates canonical_sha256 t allow observations k) ∙ found in
      go c found listed (keep (in_series t allow k) observations) refl
    where
      go :
          (c : List Obs)
          → lookup k (groups canonical_sha256 t allow observations) ≡ some c
          → joined none (keep (in_series t allow k) observations) ≡ some c
          → (l : List Obs) → keep (in_series t allow k) observations ≡ l
          → (s : Obs) × (select_group canonical_sha256
                (groups canonical_sha256 t allow observations)
                k
              ≡ ok s)
      go c found listed [] e = absurd (cc (rw e at listed))
      go c found listed (o ∷ os) e =
          let c_eq = sym (joined-some (keep (in_series t allow k) observations) listed) ∙ e in
          let (ranked, s, done, best) = group_total k (o ∷ os) consistent e (Memᴰ.head refl) in
          (s, rw (found, select_group) (rw (c_eq, done) best))

  -- If no release is dated on the last day of the calendar, and revisions of one series and one rank
  -- have one digest, which is computed without an exception, then the selection does not raise.
  pub select_at-total :
      All HasNextDay observations
      → Consistent
      → (selected : List HistoricalObservation) × (select_at canonical_sha256 t allow observations
          ≡ ok selected)
  unfolding select_at
  select_at-total dated consistent =
      let all_keys = keys (groups canonical_sha256 t allow observations) in
      collect-total (select_group canonical_sha256 (groups canonical_sha256 t allow observations))
        (sort_by (λ k. k) all_keys)
        (λ k m. select_group-total k consistent (mem_of_sort_by (λ k. k) all_keys m))
