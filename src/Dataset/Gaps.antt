-- ===== src/Dataset/Gaps.antt =====
-- The gaps that are detected are those between consecutive observations of a provider.
use xrp_inteliggence_x.Base.{
  ℕ, ◌+◌, ◌-◌, ◌/◌, ◌≤◌, ◌<◌, ◌≡◌, ◌⊎◌, refl, subst, inl, inr, true, List, [], ◌∷◌, ◌++◌, Memᴰ, All,
  All-map, All-append, All_of_mem, mem_append_right, ltb, leb, ltb-false, ltb→lt, leb→le,
  IsAscending, list_order, nat_order, Bool-cases, Str, ok, raise_if, ◌>>=◌, >>=-eq-ok, arith,
}
use xrp_inteliggence_x.Contract.Observation.{text}
use xrp_inteliggence_x.Dataset.Coverage.{DatasetGap, dataset_gap, gaps_between}

-- The interval after a time holds `t`.
abbrev pub IsNear : ℕ → List ℕ → ℕ → Type 0
IsNear interval ts t = (x : ℕ) × Memᴰ x ts × (x ≤ t) × (t < x + interval)

abbrev pub IsInGap : List DatasetGap → ℕ → Type 0
IsInGap gs t = (g : DatasetGap) × Memᴰ g gs × (g.starts_at ≤ t) × (t < g.ends_at)

-- A gap lies between two of the times that have no other between them, and begins an interval after
-- the first of them.
pub record IsBetween (interval : ℕ) (ts : List ℕ) (g : DatasetGap) : Type 0 where
  pub previous : ℕ
  pub is_time : Memᴰ previous ts
  pub start : g.starts_at ≡ previous + interval
  pub end_is_time : Memᴰ g.ends_at ts
  pub positive : g.starts_at < g.ends_at
  pub empty : All (λ x. (x ≤ previous) ⊎ (g.ends_at ≤ x)) ts

dataset_gap-fields :
    (g : DatasetGap) {h : DatasetGap}
    → dataset_gap g ≡ ok h
    → (h.starts_at ≡ g.starts_at)
      × (h.ends_at ≡ g.ends_at)
      × (text g.provider "provider" ≡ ok h.provider)
unfolding dataset_gap
dataset_gap-fields g {h} e =
    let (provider, named, e1) = >>=-eq-ok (text g.provider "provider") _ e in
    let (u, after, e2) = >>=-eq-ok (raise_if (leb g.ends_at g.starts_at) _) _ e1 in
    let (v, positive, e3) = >>=-eq-ok (raise_if (ltb g.expected_interval_seconds 1) _) _ e2 in
    let same_provider : provider ≡ h.provider = ground arith in
    (ground arith, ground arith, subst (λ x. text g.provider "provider" ≡ ok x) same_provider named)

-- The step of the loop at two consecutive times.
pub data Step (provider : Str) (interval a b : ℕ) : List DatasetGap → Type 0 where
  near : b ≤ a + interval → Step provider interval a b []
  far :
      (g : DatasetGap)
      → a + interval < b
      → g.starts_at ≡ a + interval
      → g.ends_at ≡ b
      → text provider "provider" ≡ ok g.provider
      → Step provider interval a b (g ∷ [])

-- The result of a round and what follows it.
record Round (provider : Str) (interval a b : ℕ) (ts : List ℕ) (gs : List DatasetGap) : Type 0 where
  pub here : List DatasetGap
  pub later : List DatasetGap
  pub taken : Step provider interval a b here
  pub rest : gaps_between provider interval (b ∷ ts) ≡ ok later
  pub split : here ++ later ≡ gs

gaps_between-Round :
    (provider : Str) (interval a b : ℕ) (ts : List ℕ) {gs : List DatasetGap}
    → gaps_between provider interval (a ∷ b ∷ ts) ≡ ok gs
    → Round provider interval a b ts gs
unfolding gaps_between
gaps_between-Round provider interval a b ts {gs} h = elim (Bool-cases (ltb interval (b - a))) [
  | inr close ↦
      let (later, rest, e) =
        >>=-eq-ok (gaps_between provider interval (b ∷ ts)) _ (rw close at h) in
      record {
        here = [];
        later = later;
        taken = near (ground arith);
        rest = rest;
        split = ground arith;
      }
  | inl apart ↦
      let gap : DatasetGap = record {
        provider = provider;
        starts_at = a + interval;
        ends_at = b;
        expected_interval_seconds = interval / 1000000;
      } in
      let (here, made, e) = >>=-eq-ok (dataset_gap gap >>= λ g. ok (g ∷ [])) _ (rw apart at h) in
      let (g, built, one) = >>=-eq-ok (dataset_gap gap) _ made in
      let (later, rest, last) = >>=-eq-ok (gaps_between provider interval (b ∷ ts)) _ e in
      let (starts, ends, named) = dataset_gap-fields gap built in
      record {
        here = g ∷ [];
        later = later;
        taken = far g (ground arith) starts ends named;
        rest = rest;
        split = ground arith;
      }
]

IsNear-tail :
    (interval : ℕ) (a : ℕ) (ts : List ℕ) (t : ℕ) → IsNear interval ts t → IsNear interval (a ∷ ts) t
IsNear-tail interval a ts t (x, m, le, lt) = (x, Memᴰ.tail m, le, lt)

Step-covers :
    (provider : Str) (interval a b : ℕ) (here later : List DatasetGap) (ts : List ℕ) (t : ℕ)
    → Step provider interval a b here
    → a ≤ t
    → t < b
    → IsNear interval (a ∷ ts) t ⊎ IsInGap (here ++ later) t
Step-covers provider interval a b here later ts t (near close) le lt =
    inl (a, Memᴰ.head refl, le, omega arith)
Step-covers provider interval a b here later ts t (far g apart starts ends named) le lt =
    elim (Bool-cases (ltb t (a + interval))) [
      | inl soon ↦ inl (a, Memᴰ.head refl, le, ltb→lt t (a + interval) soon)
      | inr late ↦
          let after = ltb-false t (a + interval) late in
          inr (g, Memᴰ.head refl, omega arith, omega arith)
    ]

-- Each instant from the first time up to another is near a time or in a gap.
pub gaps_between-covers :
    (provider : Str) (interval t u : ℕ) (a : ℕ) (ts : List ℕ) {gs : List DatasetGap}
    → gaps_between provider interval (a ∷ ts) ≡ ok gs
    → a ≤ t
    → t < u
    → Memᴰ u (a ∷ ts)
    → IsNear interval (a ∷ ts) t ⊎ IsInGap gs t
gaps_between-covers provider interval t u a ts h le lt (Memᴰ.head e) = absurd (omega arith)
gaps_between-covers provider interval t u a [] h le lt (Memᴰ.tail m) = elim m [ ]
gaps_between-covers provider interval t u a (b ∷ ts) {gs} h le lt (Memᴰ.tail m) =
    let r = gaps_between-Round provider interval a b ts h in
    subst (λ l. IsNear interval (a ∷ b ∷ ts) t ⊎ IsInGap l t) r.split
      (elim (Bool-cases (ltb t b)) [
        | inl before ↦
            Step-covers provider interval a b r.here r.later (b ∷ ts) t r.taken le
              (ltb→lt t b before)
        | inr after ↦
            later r.here r.later
              (gaps_between-covers provider interval t u b ts r.rest (ltb-false t b after) lt m)
      ])
  where
    later :
        (here rest : List DatasetGap)
        → IsNear interval (b ∷ ts) t ⊎ IsInGap rest t
        → IsNear interval (a ∷ b ∷ ts) t ⊎ IsInGap (here ++ rest) t
    later here rest (inl n) = inl (IsNear-tail interval a (b ∷ ts) t n)
    later here rest (inr (g, n, from, to)) = inr (g, mem_append_right here rest n, from, to)

abbrev pub at_time : ℕ → ℕ
at_time t = t

-- Ascending times are no earlier than the first of them.
IsBetween-cons :
    (interval a : ℕ) (ts : List ℕ) (g : DatasetGap)
    → All (λ x. leb a x ≡ true) ts
    → IsBetween interval ts g
    → IsBetween interval (a ∷ ts) g
IsBetween-cons interval a ts g least i =
    let first = leb→le a i.previous (All_of_mem (λ x. leb a x ≡ true) ts least i.is_time) in
    record {
      previous = i.previous;
      is_time = Memᴰ.tail i.is_time;
      start = i.start;
      end_is_time = Memᴰ.tail i.end_is_time;
      positive = i.positive;
      empty = (inl first, i.empty);
    }

Step-IsBetween :
    (provider : Str) (interval a b : ℕ) (here : List DatasetGap) (ts : List ℕ)
    → All (λ x. leb b x ≡ true) ts
    → Step provider interval a b here
    → All (λ g. IsBetween interval (a ∷ b ∷ ts) g × (text provider "provider" ≡ ok g.provider)) here
Step-IsBetween provider interval a b here ts least (near close) = tt
Step-IsBetween provider interval a b here ts least (far g apart starts ends named) = (
  (
    record {
      previous = a;
      is_time = Memᴰ.head refl;
      start = starts;
      end_is_time = Memᴰ.tail (Memᴰ.head ends);
      positive = omega arith;
      empty = (
        inl (omega arith),
        (
          inr (omega arith),
          All-map (λ x. leb b x ≡ true) _ ts (λ x k. let le = leb→le b x k in inr (omega arith))
              least,
        ),
      );
    },
    named,
  ),
  tt,
)

-- Each gap between ascending times lies between two of them.
pub gaps_between-IsBetween :
    (provider : Str) (interval : ℕ) (ts : List ℕ) {gs : List DatasetGap}
    → IsAscending at_time ts
    → gaps_between provider interval ts ≡ ok gs
    → All (λ g. IsBetween interval ts g × (text provider "provider" ≡ ok g.provider)) gs
unfolding gaps_between
gaps_between-IsBetween provider interval [] {gs} asc h = subst (All _) (none_found h) tt
  where
    none_found : ok [] ≡ ok gs → [] ≡ gs
    none_found e = cc
gaps_between-IsBetween provider interval (a ∷ []) {gs} asc h = subst (All _) (none_found h) tt
  where
    none_found : ok [] ≡ ok gs → [] ≡ gs
    none_found e = cc
gaps_between-IsBetween provider interval (a ∷ b ∷ ts) {gs} asc h =
    let r = gaps_between-Round provider interval a b ts h in
    let below = gaps_between-IsBetween provider interval (b ∷ ts) asc.1 r.rest in
    subst
      (All (λ g. IsBetween interval (a ∷ b ∷ ts) g × (text provider "provider" ≡ ok g.provider)))
      r.split
      (All-append _ r.here r.later (Step-IsBetween provider interval a b r.here ts asc.1.0 r.taken)
        (All-map _ _ r.later (λ g (i, named). (IsBetween-cons interval a (b ∷ ts) g asc.0 i, named))
          below))
