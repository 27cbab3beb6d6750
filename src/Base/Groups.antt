-- ===== src/Base/Groups.antt =====
-- `groups.setdefault(key(x), []).append(x)` over a list, and `defaultdict(list)`.
use mathlib.Core.Path.{◌≡◌, refl, sym, ap, ◌∙◌}
use mathlib.Core.Logic.{inl, inr}
use mathlib.Core.Option.{Option, none, some}
use mathlib.Core.List.{List, [], ◌∷◌, ◌++◌, append-nil, append_assoc}
use native.Mathlib.Omega.{arith}
use xrp_inteliggence_x.Base.Bools.{if◌then◌else◌, Bool-cases, Option-cases}
use xrp_inteliggence_x.Base.Lists.{keep}
use xrp_inteliggence_x.Base.Orders.{Order, same, same_eq}
use xrp_inteliggence_x.Base.Dicts.{
  Dict, lookup, insert, lookup-insert, HasDistinctKeys, insert-HasDistinctKeys,
}

module _ {ℓ} {A : Type ℓ} where
  -- A list under a key, added to what stands there.
  abbrev pub joined : Option (List A) → List A → Option (List A)
  joined none [] = none
  joined none (x ∷ xs) = some (x ∷ xs)
  joined (some ys) xs = some (ys ++ xs)

  pub joined-nil : (b : Option (List A)) → joined b [] ≡ b
  joined-nil none = refl
  joined-nil (some ys) = rw (append-nil ys)

  pub joined-cons :
      (b : Option (List A)) (x : A) (xs : List A)
      → joined (joined b (x ∷ [])) xs ≡ joined b (x ∷ xs)
  joined-cons none x xs = refl
  joined-cons (some ys) x xs = rw (append_assoc ys (x ∷ []) xs)

module _ {ℓ κ} {A : Type ℓ} {K : Type κ} ⦃o : Order K⦄ where
  unfoldable pub append_under : K → A → Dict K (List A) → Dict K (List A)
  append_under k x d = elim (lookup k d) [
    | none ↦ insert k (x ∷ []) d
    | some xs ↦ insert k (xs ++ x ∷ []) d
  ]

  unfoldable pub group_by : (A → K) → Dict K (List A) → List A → Dict K (List A)
  group_by key d [] = d
  group_by key d (x ∷ xs) = group_by key (append_under (key x) x d) xs

  pub lookup-append_under :
      (k j : K) (x : A) (d : Dict K (List A))
      → lookup j (append_under k x d)
        ≡ (if same j k then joined (lookup j d) (x ∷ []) else lookup j d)
  unfolding append_under
  lookup-append_under k j x d = elim (Option-cases (lookup k d)) [
    | inl e ↦ ground (arith, e, same_eq j k, lookup-insert k j (x ∷ []) d)
    | inr (ys, e) ↦ ground (arith, e, same_eq j k, lookup-insert k j (ys ++ x ∷ []) d)
  ]

  -- The entry of a key is what was there, then the elements of that key in their order.
  pub lookup-group_by :
      (key : A → K) (k : K) (d : Dict K (List A)) (xs : List A)
      → lookup k (group_by key d xs) ≡ joined (lookup k d) (keep (λ x. same k (key x)) xs)
  unfolding group_by
  lookup-group_by key k d [] = sym (joined-nil (lookup k d))
  lookup-group_by key k d (x ∷ xs) =
      lookup-group_by key k (append_under (key x) x d) xs
      ∙ ap (λ b. joined b (keep (λ y. same k (key y)) xs)) (lookup-append_under (key x) k x d)
      ∙ one (lookup k d)
    where
      one :
          (b : Option (List A))
          → joined (if same k (key x) then joined b (x ∷ []) else b) (keep (λ y. same k (key y)) xs)
            ≡ joined b (keep (λ y. same k (key y)) (x ∷ xs))
      one b = elim (Bool-cases (same k (key x))) [
        | inl e ↦ rw e (joined-cons b x (keep (λ y. same k (key y)) xs))
        | inr e ↦ rw e refl
      ]

  pub append_under-HasDistinctKeys :
      (k : K) (x : A) (d : Dict K (List A))
      → HasDistinctKeys d
      → HasDistinctKeys (append_under k x d)
  unfolding append_under
  append_under-HasDistinctKeys k x d h = elim (Option-cases (lookup k d)) [
    | inl e ↦ rw (append_under, e) (insert-HasDistinctKeys k (x ∷ []) d h)
    | inr (ys, e) ↦ rw (append_under, e) (insert-HasDistinctKeys k (ys ++ x ∷ []) d h)
  ]

  pub group_by-HasDistinctKeys :
      (key : A → K) (d : Dict K (List A)) (xs : List A)
      → HasDistinctKeys d
      → HasDistinctKeys (group_by key d xs)
  unfolding group_by
  group_by-HasDistinctKeys key d [] h = h
  group_by-HasDistinctKeys key d (x ∷ xs) h =
      group_by-HasDistinctKeys key (append_under (key x) x d) xs
        (append_under-HasDistinctKeys (key x) x d h)
