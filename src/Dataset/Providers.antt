-- ===== src/Dataset/Providers.antt =====
-- The rows of each provider.
use xrp_inteliggence_x.Base.{
  ◌≡◌, refl, sym, ◌∙◌, none, some, [], ◌∷◌, Memᴰ, mem-map, mem_of_map, mem-elements,
  mem_of_elements, keep, keep_mem, same, same_refl, lookup, lookup_of_mem, mem_of_lookup, group_by,
  joined, lookup-group_by, group_by-HasDistinctKeys, mem-sort_by, mem_of_sort_by, list_order,
  nat_order, Str, ℕ,
}
use xrp_inteliggence_x.Contract.Observation.{HistoricalObservation}
use xrp_inteliggence_x.Dataset.Coverage.{Rows, by_provider, times_of}

abbrev pub rows_of : Str → Rows → Rows
rows_of provider os = keep (λ o. same provider o.provider) os

grouped_rows :
    (provider : Str) (os : Rows)
    → lookup provider (group_by (λ o. o.provider) [] os) ≡ joined none (rows_of provider os)
unfolding lookup
grouped_rows provider os = lookup-group_by (λ o. o.provider) provider [] os

joined-eq-some : (xs rows : Rows) → joined none xs ≡ some rows → xs ≡ rows
joined-eq-some [] rows h = cc
joined-eq-some (x ∷ xs) rows h = cc

joined-some : {o : HistoricalObservation} (xs : Rows) → Memᴰ o xs → joined none xs ≡ some xs
joined-some [] m = elim m [ ]
joined-some (x ∷ xs) m = refl

-- The rows that stand under a provider are those of the provider.
pub by_provider-rows :
    (os : Rows) {provider : Str} {rows : Rows}
    → Memᴰ (provider, rows) (by_provider os)
    → rows_of provider os ≡ rows
unfolding by_provider
by_provider-rows os {provider} {rows} m =
    let grouped = group_by (λ (o : HistoricalObservation). o.provider) [] os in
    let found =
      lookup_of_mem provider rows grouped (group_by-HasDistinctKeys _ [] os tt)
        (mem_of_sort_by (λ (e : Str × Rows). e.0) grouped m) in
    joined-eq-some (rows_of provider os) rows (sym (grouped_rows provider os) ∙ found)

-- The provider of each observation has an entry.
pub by_provider-has :
    (os : Rows) {o : HistoricalObservation}
    → Memᴰ o os
    → Memᴰ (o.provider, rows_of o.provider os) (by_provider os)
unfolding by_provider
by_provider-has os {o} m =
    let grouped = group_by (λ (x : HistoricalObservation). x.provider) [] os in
    let own =
      keep_mem (λ (x : HistoricalObservation). same o.provider x.provider) os m
        (same_refl o.provider) in
    mem-sort_by (λ (e : Str × Rows). e.0) grouped
      (mem_of_lookup o.provider (rows_of o.provider os) grouped
        (grouped_rows o.provider os ∙ joined-some (rows_of o.provider os) own))

pub mem-times_of :
    (rows : Rows) {o : HistoricalObservation} → Memᴰ o rows → Memᴰ o.observed_at (times_of rows)
unfolding times_of
mem-times_of rows m =
    mem-sort_by (λ (t : ℕ). t) _
      (mem-elements _ (mem-map (λ (o : HistoricalObservation). o.observed_at) rows m))

pub mem_of_times_of :
    (rows : Rows) {t : ℕ}
    → Memᴰ t (times_of rows)
    → (o : HistoricalObservation) × Memᴰ o rows × (t ≡ o.observed_at)
unfolding times_of
mem_of_times_of rows m =
    mem_of_map (λ (o : HistoricalObservation). o.observed_at) rows
      (mem_of_elements _ (mem_of_sort_by (λ (t : ℕ). t) _ m))
