-- ===== src/Base/Dicts.antt =====
-- A Python dict as an association list in insertion order; a SQLite table by its primary key. Keys are
-- compared by their order.
use mathlib.Core.Path.{◌≡◌, refl}
use mathlib.Core.Logic.{◌⊎◌, inl, inr}
use mathlib.Core.Bool.{true, false}
use mathlib.Core.Option.{Option, none, some}
use mathlib.Core.List.{List, [], ◌∷◌, map, Memᴰ}
use native.Mathlib.Omega.{arith}
use xrp_inteliggence_x.Base.Bools.{if◌then◌else◌, Bool-cases, is_some}
use xrp_inteliggence_x.Base.Lists.{All}
use xrp_inteliggence_x.Base.Orders.{Order, same, same_eq, same_refl, AllDistinct}

abbrev pub Dict {ℓ κ} : Type ℓ → Type κ → Type (ℓ ⊔ κ)
Dict K V = List (K × V)

module _ {ℓ κ} {K : Type ℓ} {V : Type κ} where
  abbrev pub keys : Dict K V → List K
  keys = map (λ e. e.0)

  abbrev pub values : Dict K V → List V
  values = map (λ e. e.1)

module _ {ℓ κ} {K : Type ℓ} {V : Type κ} ⦃o : Order K⦄ where
  unfoldable pub lookup : K → Dict K V → Option V
  lookup k [] = none
  lookup k ((j, v) ∷ d) = if same k j then some v else lookup k d

  -- `d[k] = v`
  unfoldable pub insert : K → V → Dict K V → Dict K V
  insert k v [] = (k, v) ∷ []
  insert k v ((j, w) ∷ d) = if same k j then (j, v) ∷ d else (j, w) ∷ insert k v d

  -- `d.pop(k, None)`
  unfoldable pub pop : K → Dict K V → Dict K V
  pop k [] = []
  pop k ((j, w) ∷ d) = if same k j then d else (j, w) ∷ pop k d

  pub lookup-insert :
      (k j : K) (v : V) (d : Dict K V)
      → lookup j (insert k v d) ≡ (if same j k then some v else lookup j d)
  unfolding lookup insert
  lookup-insert k j v [] = refl
  lookup-insert k j v ((i, w) ∷ d) = ground (
    arith,
    same_eq k i,
    same_eq j i,
    same_eq j k,
    same_refl k,
    same_refl j,
    lookup-insert k j v d,
  )

  -- No key is listed twice.
  abbrev pub HasDistinctKeys : Dict K V → Type κ
  HasDistinctKeys [] = Unit
  HasDistinctKeys ((j, w) ∷ d) = (lookup j d ≡ none) × HasDistinctKeys d

  pub insert-HasDistinctKeys :
      (k : K) (v : V) (d : Dict K V) → HasDistinctKeys d → HasDistinctKeys (insert k v d)
  unfolding insert lookup
  insert-HasDistinctKeys k v [] h = (refl, tt)
  insert-HasDistinctKeys k v ((i, w) ∷ d) h = elim (Bool-cases (same k i)) [
    | inl e ↦ rw e h
    | inr e ↦ rw e (
      rw (lookup-insert k i v d) (ground (arith, same_eq i k, same_refl k)),
      insert-HasDistinctKeys k v d h.1,
    )
  ]

  pub lookup-pop :
      (k j : K) (d : Dict K V)
      → HasDistinctKeys d
      → lookup j (pop k d) ≡ (if same j k then none else lookup j d)
  unfolding lookup pop
  lookup-pop k j [] h = ground arith
  lookup-pop k j ((i, w) ∷ d) h =
      ground (
        arith,
        same_eq k i,
        same_eq j i,
        same_eq j k,
        same_refl k,
        same_refl j,
        lookup-pop k j d h.1,
      )

  pub pop-HasDistinctKeys : (k : K) (d : Dict K V) → HasDistinctKeys d → HasDistinctKeys (pop k d)
  unfolding lookup pop
  pop-HasDistinctKeys k [] h = tt
  pop-HasDistinctKeys k ((i, w) ∷ d) h = elim (Bool-cases (same k i)) [
    | inl e ↦ rw e h.1
    | inr e ↦ rw e (rw (lookup-pop k i d h.1) (ground arith), pop-HasDistinctKeys k d h.1)
  ]

  pub mem_of_lookup : (k : K) (v : V) (d : Dict K V) → lookup k d ≡ some v → Memᴰ (k, v) d
  unfolding lookup
  mem_of_lookup k v [] h = cc
  mem_of_lookup k v ((i, w) ∷ d) h = elim (Bool-cases (same k i)) [
    | inl e ↦ Memᴰ.head (ground (arith, same_eq k i))
    | inr e ↦ Memᴰ.tail (mem_of_lookup k v d (rw e at h))
  ]

  pub lookup_of_mem :
      (k : K) (v : V) (d : Dict K V) → HasDistinctKeys d → Memᴰ (k, v) d → lookup k d ≡ some v
  unfolding lookup
  lookup_of_mem k v [] h m = elim m [ ]
  lookup_of_mem k v ((i, w) ∷ d) h (Memᴰ.head e) = ground (arith, same_refl k)
  lookup_of_mem k v ((i, w) ∷ d) h (Memᴰ.tail m) =
      ground (arith, same_eq k i, lookup_of_mem k v d h.1 m)

  pub keys_fresh : (k : K) (d : Dict K V) → lookup k d ≡ none → All (λ j. same k j ≡ false) (keys d)
  unfolding lookup
  keys_fresh k [] h = tt
  keys_fresh k ((j, w) ∷ d) h = elim (Bool-cases (same k j)) [
    | inl e ↦ cc (rw e at h)
    | inr e ↦ (e, keys_fresh k d (rw e at h))
  ]

  pub keys-AllDistinct : (d : Dict K V) → HasDistinctKeys d → AllDistinct (keys d)
  keys-AllDistinct [] h = tt
  keys-AllDistinct ((j, w) ∷ d) h = (keys_fresh j d h.0, keys-AllDistinct d h.1)

  pub mem-keys : (k : K) (v : V) (d : Dict K V) → lookup k d ≡ some v → Memᴰ k (keys d)
  unfolding lookup
  mem-keys k v [] h = cc
  mem-keys k v ((i, w) ∷ d) h = elim (Bool-cases (same k i)) [
    | inl e ↦ Memᴰ.head (same_eq k i e)
    | inr e ↦ Memᴰ.tail (mem-keys k v d (rw e at h))
  ]

  pub lookup_of_mem-keys :
      (k : K) (d : Dict K V) → Memᴰ k (keys d) → (v : V) × (lookup k d ≡ some v)
  unfolding lookup
  lookup_of_mem-keys k [] m = elim m [ ]
  lookup_of_mem-keys k ((i, w) ∷ d) (Memᴰ.head e) = (w, rw (e, same_refl i))
  lookup_of_mem-keys k ((i, w) ∷ d) (Memᴰ.tail m) = elim (Bool-cases (same k i)) [
    | inl e ↦ (w, rw e)
    | inr e ↦ let (v, found) = lookup_of_mem-keys k d m in (v, rw e found)
  ]

  -- An entry after an insertion is the new one or was there.
  pub insert-cases :
      (k j : K) (v w : V) (d : Dict K V)
      → lookup j (insert k v d) ≡ some w
      → ((j ≡ k) × (v ≡ w)) ⊎ (lookup j d ≡ some w)
  insert-cases k j v w d h =
      let e = lookup-insert k j v d in
      elim (Bool-cases (same j k)) [
        | inl s ↦ let same_value = rw (e, s) at h in inl (same_eq j k s, ground arith)
        | inr s ↦ inr (rw (e, s) at h)
      ]

  pub insert-has :
      (k j : K) (v : V) (d : Dict K V)
      → is_some (lookup j d) ≡ true
      → is_some (lookup j (insert k v d)) ≡ true
  insert-has k j v d h = elim (Bool-cases (same j k)) [
    | inl s ↦ rw (lookup-insert k j v d, s) refl
    | inr s ↦ rw (lookup-insert k j v d, s) h
  ]
