-- ===== src/Dataset/Spans.antt =====
-- The gaps that are detected among the observations of one provider.
use xrp_inteliggence_x.Base.{
  ℕ, ◌/◌, ◌≤◌, ◌<◌, ◌≡◌, ◌⊎◌, refl, sym, subst, true, not, ◌||◌, some, List, [], ◌∷◌, ◌++◌, Memᴰ,
  mem_append_left, mem_append_right, All, All-map, All-append, All_of_mem, ltb, leb, leb→le, ◌==◌,
  same, same_eq, mem_of_keep, IsAscending, sort_by-IsAscending, list_order, nat_order, Dict, ℤ, pos,
  ltb_ℤ, pos_part, Str, ok, raise_if, >>=-eq-ok, seconds, arith,
}
use xrp_inteliggence_x.Contract.Observation.{HistoricalObservation, text}
use xrp_inteliggence_x.Dataset.Coverage.{
  DatasetGap, Rows, by_provider, times_of, gaps_between, gaps_of, detect_gaps,
}
use xrp_inteliggence_x.Dataset.Gaps.{
  IsNear, IsInGap, IsBetween, at_time, gaps_between-covers, gaps_between-IsBetween,
}
use xrp_inteliggence_x.Dataset.Providers.{rows_of, mem_of_times_of}

pub times_of-IsAscending : (rows : Rows) → IsAscending at_time (times_of rows)
unfolding times_of
times_of-IsAscending rows = sort_by-IsAscending (λ (t : ℕ). t) _

-- A gap of a provider's rows.
abbrev pub IsGapOf : ℕ → Str × Rows → DatasetGap → Type 0
IsGapOf interval (provider, rows) g =
    IsBetween interval (times_of rows) g × (text provider "provider" ≡ ok g.provider)

pub gaps_of-IsGapOf :
    (interval : ℕ) (groups : Dict Str Rows) {gs : List DatasetGap}
    → gaps_of interval groups ≡ ok gs
    → All (λ g. (e : Str × Rows) × Memᴰ e groups × IsGapOf interval e g) gs
unfolding gaps_of
gaps_of-IsGapOf interval [] {gs} h = subst (All _) (none_found h) tt
  where
    none_found : ok [] ≡ ok gs → [] ≡ gs
    none_found e = cc
gaps_of-IsGapOf interval ((provider, os) ∷ groups) {gs} h =
    let (here, found, h1) = >>=-eq-ok (gaps_between provider interval (times_of os)) _ h in
    let (later, rest, h2) = >>=-eq-ok (gaps_of interval groups) _ h1 in
    let split : here ++ later ≡ gs = ground arith in
    subst (All _) split (
      All-append _ here later
        (All-map _ _ here (λ g i. ((provider, os), Memᴰ.head refl, i))
          (gaps_between-IsBetween provider interval (times_of os) (times_of-IsAscending os) found))
        (All-map _ _ later (λ g (e, m, i). (e, Memᴰ.tail m, i))
          (gaps_of-IsGapOf interval groups rest)))

-- The gaps of one entry are among all of them.
pub gaps_of-part :
    (interval : ℕ) (groups : Dict Str Rows) {provider : Str} {rows : Rows} {gs : List DatasetGap}
    → gaps_of interval groups ≡ ok gs
    → Memᴰ (provider, rows) groups
    → (part : List DatasetGap) × (gaps_between provider interval (times_of rows) ≡ ok part)
      × ((g : DatasetGap) → Memᴰ g part → Memᴰ g gs)
unfolding gaps_of
gaps_of-part interval [] h m = elim m [ ]
gaps_of-part interval ((p, os) ∷ groups) {provider} {rows} {gs} h m =
    let (here, found, h1) = >>=-eq-ok (gaps_between p interval (times_of os)) _ h in
    let (later, rest, h2) = >>=-eq-ok (gaps_of interval groups) _ h1 in
    let split : here ++ later ≡ gs = ground arith in
    go here later found split m (λ n. gaps_of-part interval groups rest n)
  where
    go :
        (here later : List DatasetGap)
        → gaps_between p interval (times_of os) ≡ ok here
        → here ++ later ≡ gs
        → Memᴰ (provider, rows) ((p, os) ∷ groups)
        → (Memᴰ (provider, rows) groups
            → (part : List DatasetGap) × (gaps_between provider interval (times_of rows) ≡ ok part)
              × ((g : DatasetGap) → Memᴰ g part → Memᴰ g later))
        → (part : List DatasetGap) × (gaps_between provider interval (times_of rows) ≡ ok part)
          × ((g : DatasetGap) → Memᴰ g part → Memᴰ g gs)
    go here later found split (Memᴰ.head e) below = (
      here,
      subst (λ x. gaps_between x.0 interval (times_of x.1) ≡ ok here) (sym e) found,
      λ g m. subst (Memᴰ g) split (mem_append_left here later m),
    )
    go here later found split (Memᴰ.tail n) below =
        let (part, made, within) = below n in
        (part, made, λ g m. subst (Memᴰ g) split (mem_append_right here later (within g m)))

-- An instant between two of the times.
pub times-cover :
    (provider : Str) (interval t x u : ℕ) (ts : List ℕ) {gs : List DatasetGap}
    → IsAscending at_time ts
    → gaps_between provider interval ts ≡ ok gs
    → Memᴰ x ts
    → x ≤ t
    → t < u
    → Memᴰ u ts
    → IsNear interval ts t ⊎ IsInGap gs t
times-cover provider interval t x u [] asc h m le lt n = elim m [ ]
times-cover provider interval t x u (a ∷ ts) asc h m le lt n =
    let least : a ≤ x = first m in
    gaps_between-covers provider interval t u a ts h (omega arith) lt n
  where
    first : Memᴰ x (a ∷ ts) → a ≤ x
    first (Memᴰ.head e) = omega arith
    first (Memᴰ.tail k) = leb→le a x (All_of_mem (λ y. leb a y ≡ true) ts asc.0 k)

-- The gaps of an interval of whole seconds.
pub detect_gaps-gaps_of :
    (expected : ℤ) (os : Rows) {gs : List DatasetGap}
    → detect_gaps (some expected) os ≡ ok gs
    → gaps_of (pos_part expected) (by_provider os) ≡ ok gs
unfolding detect_gaps
detect_gaps-gaps_of expected os h =
    let (u, positive, h1) = >>=-eq-ok (raise_if (not (ltb_ℤ (pos 0) expected)) _) _ h in
    let interval = pos_part expected in
    let (v, whole, h2) =
      >>=-eq-ok
        (raise_if (not (interval == seconds (interval / 1000000)) || ltb (interval / 1000000) 1) _)
        _ h1 in
    h2

-- The observation of a provider at a time of its rows.
pub observed :
    (os : Rows) (provider : Str) {t : ℕ}
    → Memᴰ t (times_of (rows_of provider os))
    → (o : HistoricalObservation) × Memᴰ o os × (o.provider ≡ provider) × (t ≡ o.observed_at)
observed os provider m =
    let (o, n, e) = mem_of_times_of (rows_of provider os) m in
    let (k, own) = mem_of_keep (λ (x : HistoricalObservation). same provider x.provider) os n in
    (o, k, sym (same_eq provider o.provider own), e)
