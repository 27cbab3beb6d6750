-- ===== src/Contract/Ranking.antt =====
-- `max` over the ranks and `min` over the identifiers of the best candidates.
use xrp_inteliggence_x.Base.{
  Result, >>=-eq-ok, raise_if, ambiguous_revision_error, collect, collect-map, All-by_mem, ℕ, ◌≡◌,
  refl, ◌≢◌, ◌∙◌, ◌⊎◌, ap, subst, inl, inr, Bool, true, false, List, [], ◌∷◌, map, Memᴰ,
  if◌then◌else◌, same, same_eq, same_refl, lex_at_most, lex_at_most_refl, lex_at_most_trans,
  lex_at_most_total, list_order, nat_order, Bool-cases, arith, Str, ok,
}
use xrp_inteliggence_x.Contract.Observation.{HistoricalObservation}
use xrp_inteliggence_x.Contract.Select.{
  Ranked, higher, max_rank, smaller_id, min_by_id, of_rank, disagree, pick, best_of,
}

abbrev Obs : Type 0
Obs = HistoricalObservation

abbrev AtMost : List ℕ → List ℕ → Type 0
AtMost r q = lex_at_most r q ≡ true

higher-left : (best r : List ℕ) → AtMost best (higher best r)
unfolding higher
higher-left best r = ground (arith, lex_at_most_refl best, lex_at_most_total r best)

higher-right : (best r : List ℕ) → AtMost r (higher best r)
unfolding higher
higher-right best r = ground (arith, lex_at_most_refl r)

-- The result of `max` is no smaller than its start and than each element.
max_rank-start : (best : List ℕ) (rs : List (List ℕ)) → AtMost best (max_rank best rs)
unfolding max_rank
max_rank-start best [] = lex_at_most_refl best
max_rank-start best (r ∷ rs) =
    lex_at_most_trans best (higher best r) _ (higher-left best r)
      (max_rank-start (higher best r) rs)

max_rank-each :
    (best : List ℕ) (rs : List (List ℕ)) {r : List ℕ} → Memᴰ r rs → AtMost r (max_rank best rs)
unfolding max_rank
max_rank-each best [] m = elim m [ ]
max_rank-each best (r ∷ rs) (Memᴰ.head e) = rw e (
    lex_at_most_trans r (higher best r) _ (higher-right best r) (max_rank-start (higher best r) rs))
max_rank-each best (r ∷ rs) (Memᴰ.tail m) = max_rank-each (higher best r) rs m

smaller_id-cases : (best o : Obs) → (smaller_id best o ≡ best) ⊎ (smaller_id best o ≡ o)
unfolding smaller_id
smaller_id-cases best o = ground arith

-- A fold that keeps its start or takes the next element ends with one of them.
start_or_rest :
    {A : Type 0} {best next s z : A} {rest : List A}
    → (s ≡ best) ⊎ (s ≡ next)
    → Memᴰ z (s ∷ rest)
    → Memᴰ z (best ∷ next ∷ rest)
start_or_rest (inl e) (Memᴰ.head p) = Memᴰ.head (p ∙ e)
start_or_rest (inr e) (Memᴰ.head p) = Memᴰ.tail (Memᴰ.head (p ∙ e))
start_or_rest c (Memᴰ.tail m) = Memᴰ.tail (Memᴰ.tail m)

-- The result of `min` is its start or one of the elements.
min_by_id-mem : (best : Obs) (os : List Obs) → Memᴰ (min_by_id best os) (best ∷ os)
unfolding min_by_id
min_by_id-mem best [] = Memᴰ.head refl
min_by_id-mem best (o ∷ os) =
    start_or_rest (smaller_id-cases best o) (min_by_id-mem (smaller_id best o) os)

of_rank-mem :
    (rank : List ℕ) (es : List Ranked) {o : Obs} → Memᴰ o (of_rank rank es) → Memᴰ (rank, o) es
unfolding of_rank
of_rank-mem rank [] m = elim m [ ]
of_rank-mem rank ((r, o') ∷ es) {o} m = go (same r rank) refl m (of_rank-mem rank es)
  where
    go :
        (b : Bool)
        → same r rank ≡ b
        → Memᴰ o (if b then o' ∷ of_rank rank es else of_rank rank es)
        → (Memᴰ o (of_rank rank es) → Memᴰ (rank, o) es)
        → Memᴰ (rank, o) ((r, o') ∷ es)
    go true e (Memᴰ.head p) ih = Memᴰ.head (cc (same_eq r rank e))
    go true e (Memᴰ.tail n) ih = Memᴰ.tail (ih n)
    go false e n ih = Memᴰ.tail (ih n)

higher-cases : (best r : List ℕ) → (higher best r ≡ best) ⊎ (higher best r ≡ r)
unfolding higher
higher-cases best r = ground arith

max_rank-mem : (best : List ℕ) (rs : List (List ℕ)) → Memᴰ (max_rank best rs) (best ∷ rs)
unfolding max_rank
max_rank-mem best [] = Memᴰ.head refl
max_rank-mem best (r ∷ rs) = start_or_rest (higher-cases best r) (max_rank-mem (higher best r) rs)

-- An element that carries a rank of the list is found under that rank.
of_rank-nonempty :
    (rank : List ℕ) (es : List Ranked) → Memᴰ rank (map (λ e. e.0) es) → of_rank rank es ≢ []
unfolding of_rank
of_rank-nonempty rank [] m = elim m [ ]
of_rank-nonempty rank ((r, o) ∷ es) (Memᴰ.head e) = rw (← e, same_refl rank) (λ nil. cc)
of_rank-nonempty rank ((r, o) ∷ es) (Memᴰ.tail m) = elim (Bool-cases (same r rank)) [
  | inl e ↦ rw e (λ nil. cc)
  | inr e ↦ rw e (of_rank-nonempty rank es m)
]

disagree-same : (d : Str) (os : List Obs) → disagree (map (λ o. d) os) ≡ false
unfolding disagree
disagree-same d [] = refl
disagree-same d (o ∷ []) = refl
disagree-same d (o ∷ p ∷ os) = rw (same_refl d) (disagree-same d (p ∷ os))

ok_injective : {o p : Obs} → ok o ≡ ok p → o ≡ p
ok_injective h = cc

module _ (canonical_sha256 : HistoricalObservation → Result Str) where
  pick-mem : (os : List Obs) {o : Obs} → pick canonical_sha256 os ≡ ok o → Memᴰ o os
  unfolding pick
  pick-mem [] h = cc
  pick-mem (p ∷ os) h =
      let (digests, _, rest) = >>=-eq-ok (collect canonical_sha256 (p ∷ os)) _ h in
      let (_, _, last) =
        >>=-eq-ok
          (raise_if (disagree digests)
            (ambiguous_revision_error "equally ranked revisions disagree for series"))
          _ rest in
      subst (λ z. Memᴰ z (p ∷ os)) (ok_injective last) (min_by_id-mem p os)

  -- The choice among ranked candidates is one of them, and none ranks higher.
  pub best_of-eq-ok :
      (es : List Ranked) {o : HistoricalObservation}
      → best_of canonical_sha256 es ≡ ok o
      → (r : List ℕ) × Memᴰ (r, o) es × ((e : Ranked) → Memᴰ e es → lex_at_most e.0 r ≡ true)
  unfolding best_of
  best_of-eq-ok [] h = cc
  best_of-eq-ok ((r, p) ∷ es) h =
      let top = max_rank r (map (λ e. e.0) es) in
      (top, of_rank-mem top ((r, p) ∷ es) (pick-mem _ h), bound)
    where
      ranks-mem : (xs : List Ranked) {e : Ranked} → Memᴰ e xs → Memᴰ e.0 (map (λ x. x.0) xs)
      ranks-mem [] m = elim m [ ]
      ranks-mem (x ∷ xs) (Memᴰ.head q) = Memᴰ.head (ap (λ x. x.0) q)
      ranks-mem (x ∷ xs) (Memᴰ.tail m) = Memᴰ.tail (ranks-mem xs m)

      bound :
          (e : Ranked)
          → Memᴰ e ((r, p) ∷ es)
          → lex_at_most e.0 (max_rank r (map (λ x. x.0) es)) ≡ true
      bound e (Memᴰ.head q) = rw (ap (λ x. x.0) q) (max_rank-start r (map (λ x. x.0) es))
      bound e (Memᴰ.tail m) = max_rank-each r (map (λ x. x.0) es) (ranks-mem es m)

  -- Two observations have a digest, and the same.
  abbrev pub HaveOneDigest : Obs → Obs → Type 0
  HaveOneDigest p q = (d : Str) × (canonical_sha256 p ≡ ok d) × (canonical_sha256 q ≡ ok d)

  pick-total :
      (os : List Obs)
      → os ≢ []
      → ((p q : Obs) → Memᴰ p os → Memᴰ q os → HaveOneDigest p q)
      → (o : Obs) × (pick canonical_sha256 os ≡ ok o)
  unfolding pick
  pick-total [] ne agree = absurd (ne refl)
  pick-total (o ∷ os) ne agree =
      let (d, digest, _) = agree o o (Memᴰ.head refl) (Memᴰ.head refl) in
      let digests =
        collect-map canonical_sha256 (λ p. d) (o ∷ os)
          (All-by_mem (λ p. canonical_sha256 p ≡ ok d) (o ∷ os)
            (λ p m. let (c, here, there) = agree p o m (Memᴰ.head refl) in cc)) in
      (min_by_id o os, rw (digests, disagree-same d (o ∷ os)))

  -- A choice is made if those of equal rank agree.
  pub best_of-total :
      (e : Ranked) (es : List Ranked)
      → ((p q : Ranked) → Memᴰ p (e ∷ es) → Memᴰ q (e ∷ es) → p.0 ≡ q.0 → HaveOneDigest p.1 q.1)
      → (o : HistoricalObservation) × (best_of canonical_sha256 (e ∷ es) ≡ ok o)
  unfolding best_of
  best_of-total (r, o) es agree =
      let top = max_rank r (map (λ x. x.0) es) in
      pick-total (of_rank top ((r, o) ∷ es))
        (of_rank-nonempty top ((r, o) ∷ es) (max_rank-mem r (map (λ x. x.0) es)))
        (λ p q m n.
          agree (top, p) (top, q) (of_rank-mem top ((r, o) ∷ es) m)
            (of_rank-mem top ((r, o) ∷ es) n) refl)
