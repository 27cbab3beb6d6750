-- ===== src/Contract/Select.antt =====
-- `select_as_of`: for each series the admitted revision of the highest rank.
use xrp_inteliggence_x.Base.{
  append_under, ℕ, ◌+◌, Bool, true, false, Option, none, some, List, [], ◌∷◌, map, if◌then◌else◌,
  same, before, list_order, nat_order, sort_by, Dict, keys, lookup, Str, Result, ok, raise, ◌>>=◌,
  ◌>>◌, raise_if, collect, value_error, key_error, ambiguous_revision_error, DateTime, utc,
}
use xrp_inteliggence_x.Contract.Observation.{
  HistoricalObservation, EligibilityClass, availability_boundary, eligibility,
}

-- The tuple that names a series.
abbrev pub SeriesKey : Type 0
SeriesKey = List Str

unfoldable pub series_key : HistoricalObservation → SeriesKey
series_key o = o.dataset ∷ o.record_id ∷ o.provider ∷ o.source_id ∷ o.symbol ∷ o.instrument ∷ []

-- A rank as a tuple of numbers. The revision is moved up by one, so that a missing one, -1 in the
-- source, is 0.
abbrev pub revision_number : Option ℕ → ℕ
revision_number none = 0
revision_number (some n) = n + 1

unfoldable pub rank_at : ℕ → HistoricalObservation → List ℕ
rank_at boundary o = boundary ∷ revision_number o.revision_sequence ∷ o.fetched_at ∷ []

-- `_revision_rank`
unfoldable pub revision_rank : HistoricalObservation → Result (List ℕ)
revision_rank o = elim (availability_boundary o) [
  | none ↦ raise (value_error "cannot rank observation without availability")
  | some boundary ↦ ok (rank_at boundary o)
]

-- The two `continue` tests of the loop.
abbrev pub class_admitted : Bool → EligibilityClass → Bool
class_admitted allow EligibilityClass.strict_replay = true
class_admitted allow EligibilityClass.reconstructed_pit = allow
class_admitted allow EligibilityClass.ineligible = false

unfoldable pub admitted : ℕ → Bool → HistoricalObservation → Bool
admitted prediction allow o = class_admitted allow (eligibility o prediction)

abbrev pub Groups : Type 0
Groups = Dict SeriesKey (List HistoricalObservation)

-- `groups.setdefault(key, []).append(observation)`
unfoldable pub add_to_group : HistoricalObservation → Groups → Groups
add_to_group o groups = append_under (series_key o) o groups

-- The body of the loop over the observations.
unfoldable pub visit : ℕ → Bool → HistoricalObservation → Groups → Groups
visit prediction allow o groups =
    if admitted prediction allow o then add_to_group o groups else groups

unfoldable pub group_from : ℕ → Bool → Groups → List HistoricalObservation → Groups
group_from prediction allow groups [] = groups
group_from prediction allow groups (o ∷ rest) =
    group_from prediction allow (visit prediction allow o groups) rest

unfoldable pub higher : List ℕ → List ℕ → List ℕ
higher best r = if before best r then r else best

-- `max(ranks)`, over the ranks after the first
unfoldable pub max_rank : List ℕ → List (List ℕ) → List ℕ
max_rank best [] = best
max_rank best (r ∷ rest) = max_rank (higher best r) rest

unfoldable pub smaller_id : HistoricalObservation → HistoricalObservation → HistoricalObservation
smaller_id best o = if before o.observation_id best.observation_id then o else best

-- `min(best, key=lambda item: item.observation_id)`: the first of the smallest
unfoldable pub min_by_id :
    HistoricalObservation → List HistoricalObservation → HistoricalObservation
min_by_id best [] = best
min_by_id best (o ∷ rest) = min_by_id (smaller_id best o) rest

abbrev pub Ranked : Type 0
Ranked = List ℕ × HistoricalObservation

unfoldable pub with_rank : HistoricalObservation → Result Ranked
with_rank o = do rank ← revision_rank o; ok (rank, o)

-- `[item for item in candidates if _revision_rank(item) == best_rank]`
unfoldable pub of_rank : List ℕ → List Ranked → List HistoricalObservation
of_rank rank [] = []
of_rank rank ((r, o) ∷ rest) = if same r rank then o ∷ of_rank rank rest else of_rank rank rest

-- Whether the set of digests has more than one element.
unfoldable pub disagree : List Str → Bool
disagree [] = false
disagree (d ∷ []) = false
disagree (d ∷ d' ∷ rest) = if same d d' then disagree (d' ∷ rest) else true

-- `canonical_sha256` is SHA-256 over the JSON text of all fields, which the program imports. It raises
-- where the text cannot be made, as of keys that cannot be sorted.
module _ (canonical_sha256 : HistoricalObservation → Result Str) where
  unfoldable pub pick : List HistoricalObservation → Result HistoricalObservation
  pick [] = raise (value_error "min() iterable argument is empty")
  pick (o ∷ best) = do
    digests ← collect canonical_sha256 (o ∷ best)
    raise_if (disagree digests)
        (ambiguous_revision_error "equally ranked revisions disagree for series")
    ok (min_by_id o best)

  unfoldable pub best_of : List Ranked → Result HistoricalObservation
  best_of [] = raise (value_error "max() iterable argument is empty")
  best_of ((r, o) ∷ rest) = pick (of_rank (max_rank r (map (λ e. e.0) rest)) ((r, o) ∷ rest))

  unfoldable pub select_group : Groups → SeriesKey → Result HistoricalObservation
  select_group groups key = elim (lookup key groups) [
    | none ↦ raise key_error
    | some candidates ↦ do ranked ← collect with_rank candidates; best_of ranked
  ]

  unfoldable pub select_at :
      ℕ → Bool → List HistoricalObservation → Result (List HistoricalObservation)
  select_at prediction allow observations =
      let groups = group_from prediction allow [] observations in
      collect (select_group groups) (sort_by (λ k. k) (keys groups))

  unfoldable pub select_as_of :
      List HistoricalObservation → DateTime → Bool → Result (List HistoricalObservation)
  select_as_of observations prediction_time allow_reconstructed = do
    prediction ← utc prediction_time "prediction_time"
    select_at prediction allow_reconstructed observations
