-- ===== src/Streams/Skew.antt =====
-- The span of the times of the streams.
use xrp_inteliggence_x.Base.{
  ℕ, ◌+◌, ◌≤◌, ◌≡◌, ◌↔◌, ◌⊎◌, inl, inr, refl, sym, subst, false, List, [], ◌∷◌, Memᴰ, min, max, All,
  All-map, All_of_mem, list_order, nat_order, arith,
}
use xrp_inteliggence_x.Streams.Assess.{latest, earliest, skew_of, exceeds}

-- No two times lie further apart than the limit.
abbrev pub AreWithin : ℕ → List ℕ → Type 0
AreWithin limit ts = All (λ t. All (λ u. t ≤ u + limit) ts) ts

pub latest-mem : (t : ℕ) (ts : List ℕ) → Memᴰ (latest t ts) (t ∷ ts)
unfolding latest
latest-mem t [] = Memᴰ.head refl
latest-mem t (u ∷ us) = go (latest u us) (latest-mem u us)
  where
    go : (m : ℕ) → Memᴰ m (u ∷ us) → Memᴰ (max t m) (t ∷ u ∷ us)
    go m n = elim (larger m) [
      | inl e ↦ Memᴰ.head e
      | inr e ↦ Memᴰ.tail (subst (λ l. Memᴰ l (u ∷ us)) (sym e) n)
    ]
      where
        larger : (m : ℕ) → (max t m ≡ t) ⊎ (max t m ≡ m)
        larger m = ground arith

pub latest-All : (t : ℕ) (ts : List ℕ) → All (λ u. u ≤ latest t ts) (t ∷ ts)
unfolding latest
latest-All t [] = (omega arith, tt)
latest-All t (u ∷ us) = (omega arith, All-map _ _ (u ∷ us) (λ x h. omega arith) (latest-All u us))

pub earliest-mem : (t : ℕ) (ts : List ℕ) → Memᴰ (earliest t ts) (t ∷ ts)
unfolding earliest
earliest-mem t [] = Memᴰ.head refl
earliest-mem t (u ∷ us) = go (earliest u us) (earliest-mem u us)
  where
    go : (m : ℕ) → Memᴰ m (u ∷ us) → Memᴰ (min t m) (t ∷ u ∷ us)
    go m n = elim (smaller m) [
      | inl e ↦ Memᴰ.head e
      | inr e ↦ Memᴰ.tail (subst (λ l. Memᴰ l (u ∷ us)) (sym e) n)
    ]
      where
        smaller : (m : ℕ) → (min t m ≡ t) ⊎ (min t m ≡ m)
        smaller m = ground arith

pub earliest-All : (t : ℕ) (ts : List ℕ) → All (λ u. earliest t ts ≤ u) (t ∷ ts)
unfolding earliest
earliest-All t [] = (omega arith, tt)
earliest-All t (u ∷ us) =
    (omega arith, All-map _ _ (u ∷ us) (λ x h. omega arith) (earliest-All u us))

pub skew_of-AreWithin :
    (limit : ℕ) (ts : List ℕ) → (exceeds (skew_of ts) limit ≡ false) ↔ AreWithin limit ts
unfolding skew_of
skew_of-AreWithin limit [] = (λ h. tt, λ h. refl)
skew_of-AreWithin limit (t ∷ []) = (λ h. ((omega arith, tt), tt), λ h. refl)
skew_of-AreWithin limit (t ∷ u ∷ us) = (
  λ h.
      let span : latest t (u ∷ us) ≤ earliest t (u ∷ us) + limit = ground arith in
      All-map _ _ ts (λ x le. All-map _ _ ts (λ y ge. omega arith) (earliest-All t (u ∷ us)))
        (latest-All t (u ∷ us)),
  λ h.
      let span =
        All_of_mem _ ts (All_of_mem _ ts h (latest-mem t (u ∷ us))) (earliest-mem t (u ∷ us)) in
      ground arith,
)
  where
    ts : List ℕ
    ts = t ∷ u ∷ us
