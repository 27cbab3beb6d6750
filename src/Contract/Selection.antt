-- ===== src/Contract/Selection.antt =====
-- What `select_as_of` promises: a point-in-time view with one newest revision for each series.
use xrp_inteliggence_x.Base.{
  Result, joined, ℕ, ◌≡◌, refl, ◌∙◌, sym, subst, Bool, true, Option, none, some, List, [], ◌∷◌, map,
  Memᴰ, All, All-by_mem, keep, keep_mem, mem_of_keep, same_eq, same_refl, lex_at_most, list_order,
  nat_order, sort_by, IsAscending, sort_by-IsAscending, sort_by-AllDistinct, mem-sort_by,
  AllDistinct, keys, lookup, mem-keys, keys-AllDistinct, &&-true, Str, ok, collect, collect_sound,
  collect_complete, map-collect, raise, key_error, ◌>>=◌, >>=-eq-ok, arith,
}
use xrp_inteliggence_x.Contract.Observation.{HistoricalObservation}
use xrp_inteliggence_x.Contract.Select.{
  SeriesKey, series_key, revision_rank, admitted, Groups, group_from, Ranked, with_rank, best_of,
  select_group, select_at,
}
use xrp_inteliggence_x.Contract.Grouping.{in_series, lookup-group_from, group_from-HasDistinctKeys}
use xrp_inteliggence_x.Contract.Ranking.{best_of-eq-ok}

abbrev Obs : Type 0
Obs = HistoricalObservation

-- `s` stands for its series among the observations: admitted, and of the highest rank.
pub record IsNewest (prediction : ℕ) (allow : Bool) (observations : List HistoricalObservation)
    (key : SeriesKey) (s : HistoricalObservation) : Type 0 where
  pub given : Memᴰ s observations
  pub eligible : admitted prediction allow s ≡ true
  pub series : series_key s ≡ key
  pub newest :
      (o : HistoricalObservation)
      → Memᴰ o observations
      → admitted prediction allow o ≡ true
      → series_key o ≡ key
      → (r q : List ℕ) × (revision_rank o ≡ ok r)
        × (revision_rank s ≡ ok q)
        × (lex_at_most r q ≡ true)

pub with_rank-eq-ok :
    (o : Obs) {e : Ranked} → with_rank o ≡ ok e → (e.1 ≡ o) × (revision_rank e.1 ≡ ok e.0)
unfolding with_rank
with_rank-eq-ok o {e} h = let (r, ranked, rest) = >>=-eq-ok (revision_rank o) _ h in ground arith

pub joined-some : (os : List Obs) {c : List Obs} → joined none os ≡ some c → os ≡ c
joined-some [] h = cc
joined-some (o ∷ os) h = cc

module _ (canonical_sha256 : HistoricalObservation → Result Str) (prediction : ℕ) (allow : Bool)
    (observations : List HistoricalObservation) where
  abbrev pub groups : Groups
  groups = group_from prediction allow [] observations

  -- The candidates of a series are its admitted observations.
  pub candidates :
      (k : SeriesKey)
      → lookup k groups ≡ joined none (keep (in_series prediction allow k) observations)
  unfolding lookup
  candidates k = lookup-group_from prediction allow k [] observations

  IsNewest-of_candidates :
      (k : SeriesKey) (ranked : List Ranked) {s : Obs}
      → collect with_rank (keep (in_series prediction allow k) observations) ≡ ok ranked
      → best_of canonical_sha256 ranked ≡ ok s
      → IsNewest prediction allow observations k s
  IsNewest-of_candidates k ranked {s} all_ranked best =
      let cs = keep (in_series prediction allow k) observations in
      let (r, member, bound) = best_of-eq-ok canonical_sha256 ranked best in
      let (x, from, rank_x) = collect_sound with_rank cs all_ranked member in
      let (s_is_x, rank_s) = with_rank-eq-ok x rank_x in
      let (inside, passes) = mem_of_keep (in_series prediction allow k) observations from in
      let (eligible, series) = &&-true _ _ passes in
      record {
        given = subst (λ z. Memᴰ z observations) (sym s_is_x) inside;
        eligible = rw s_is_x eligible;
        series = rw s_is_x (sym (same_eq k (series_key x) series));
        newest = λ o m adm key.
            let kept =
              keep_mem (in_series prediction allow k) observations m
                (rw (adm, key) (same_refl k)) in
            let (e, n, rank_o) = collect_complete with_rank cs all_ranked kept in
            let (e_is_o, rank_e) = with_rank-eq-ok o rank_o in
            (e.0, r, rw (← e_is_o) rank_e, rank_s, bound e n);
      }

  select_group-IsNewest :
      (k : SeriesKey) {s : Obs}
      → select_group canonical_sha256 groups k ≡ ok s
      → IsNewest prediction allow observations k s
  unfolding select_group
  select_group-IsNewest k {s} h = go (lookup k groups) (candidates k) h
    where
      go :
          (l : Option (List Obs))
          → l ≡ joined none (keep (in_series prediction allow k) observations)
          → (elim l [
            | none ↦ raise key_error
            | some c ↦ do ranked ← collect with_rank c; best_of canonical_sha256 ranked
          ])
            ≡ ok s
          → IsNewest prediction allow observations k s
      go none e r = cc
      go (some c) e r =
          let c_eq = joined-some (keep (in_series prediction allow k) observations) (sym e) in
          let (ranked, all_ranked, best) = >>=-eq-ok (collect with_rank c) _ r in
          IsNewest-of_candidates k ranked (rw c_eq all_ranked) best

-- One newest revision for each series that has an admitted observation, in the order of the keys.
pub record IsSelection (prediction : ℕ) (allow : Bool) (observations : List HistoricalObservation)
    (selected : List HistoricalObservation) : Type 0 where
  pub stands : All (λ s. IsNewest prediction allow observations (series_key s) s) selected
  pub covers :
      (o : HistoricalObservation)
      → Memᴰ o observations
      → admitted prediction allow o ≡ true
      → (s : HistoricalObservation) × Memᴰ s selected × (series_key s ≡ series_key o)
  pub ascending : IsAscending (λ k. k) (map series_key selected)
  pub distinct : AllDistinct (map series_key selected)

module _ (canonical_sha256 : HistoricalObservation → Result Str) (prediction : ℕ) (allow : Bool)
    (observations : List HistoricalObservation) where
  abbrev all_groups : Groups
  all_groups = groups canonical_sha256 prediction allow observations

  series_listed :
      (o : Obs)
      → Memᴰ o observations
      → admitted prediction allow o ≡ true
      → Memᴰ (series_key o) (sort_by (λ k. k) (keys all_groups))
  series_listed o m adm =
      let kept =
        keep_mem (in_series prediction allow (series_key o)) observations m
          (rw adm (same_refl (series_key o))) in
      mem-sort_by (λ k. k) (keys all_groups)
        (go (keep (in_series prediction allow (series_key o)) observations) kept
          (candidates canonical_sha256 prediction allow observations (series_key o)))
    where
      go :
          (l : List Obs)
          → Memᴰ o l
          → lookup (series_key o) all_groups ≡ joined none l
          → Memᴰ (series_key o) (keys all_groups)
      go [] n e = elim n [ ]
      go (c ∷ cs) n e = mem-keys (series_key o) (c ∷ cs) all_groups e

  -- A selection that succeeds holds, for each series with an admitted observation, exactly one of
  -- its admitted observations of the highest rank, and lists the series in ascending order.
  pub select_at-IsSelection :
      {selected : List HistoricalObservation}
      → select_at canonical_sha256 prediction allow observations ≡ ok selected
      → IsSelection prediction allow observations selected
  unfolding select_at
  select_at-IsSelection {selected} h =
      let ks = sort_by (λ k. k) (keys all_groups) in
      let f = select_group canonical_sha256 all_groups in
      let found = λ (k : SeriesKey) (s : Obs) (e : f k ≡ ok s).
        select_group-IsNewest canonical_sha256 prediction allow observations k e in
      let labels = map-collect f (λ k. k) series_key (λ k s e. (found k s e).series) ks h in
      let plain : map (λ k. k) ks ≡ ks = map_id ks in
      let same_labels = labels ∙ plain in
      record {
        stands = All-by_mem _ selected (λ s m.
            let (k, n, e) = collect_sound f ks h m in
            subst (λ key. IsNewest prediction allow observations key s) (sym (found k s e).series)
              (found k s e));
        covers = λ o m adm.
            let (s, n, e) = collect_complete f ks h (series_listed o m adm) in
            (s, n, (found (series_key o) s e).series);
        ascending =
            subst (IsAscending (λ k. k)) (sym same_labels)
              (sort_by-IsAscending (λ k. k) (keys all_groups));
        distinct = subst AllDistinct (sym same_labels) (
            sort_by-AllDistinct (keys all_groups) (
              keys-AllDistinct all_groups
                (group_from-HasDistinctKeys prediction allow [] observations tt)));
      }
    where
      map_id : (l : List SeriesKey) → map (λ k. k) l ≡ l
      map_id [] = refl
      map_id (k ∷ l) = rw (map_id l)
