-- ===== src/Base/Sort.antt =====
-- `sorted(xs, key=…)`: a stable insertion sort over an order on the keys. Python's sort is stable
-- too, and the stable ascending arrangement of a list is unique.
use Prim.Native.Nat.{ℕ, zero, suc}
use mathlib.Core.Path.{◌≡◌, refl}
use mathlib.Core.Bool.{true, false}
use mathlib.Core.List.{map, List, [], ◌∷◌, Memᴰ}
use mathlib.Core.Logic.{inl, inr}
use native.Mathlib.Omega.{arith}
use xrp_inteliggence_x.Base.Bools.{if◌then◌else◌, Bool-cases}
use xrp_inteliggence_x.Base.Lists.{
  All-of_map, length, take, drop, All-take, All, All-map, All_of_mem, All-by_mem, exists,
}
use xrp_inteliggence_x.Base.Orders.{Order, same, same_eq, same_sym, AllDistinct, elements}

module _ {ℓ κ} {A : Type ℓ} {K : Type κ} ⦃o : Order K⦄ (key : A → K) where
  unfoldable pub insert_by : A → List A → List A
  insert_by x [] = x ∷ []
  insert_by x (y ∷ ys) = if o.at_most (key x) (key y) then x ∷ y ∷ ys else y ∷ insert_by x ys

  unfoldable pub sort_by : List A → List A
  unfolding insert_by
  sort_by [] = []
  sort_by (x ∷ xs) = insert_by x (sort_by xs)

  -- No later element has a smaller key.
  abbrev pub IsAscending : List A → Type ℓ
  IsAscending [] = Unit
  IsAscending (x ∷ xs) = All (λ y. o.at_most (key x) (key y) ≡ true) xs × IsAscending xs

  All-insert_by {μ} :
      (P : A → Type μ) (x : A) (xs : List A) → P x → All P xs → All P (insert_by x xs)
  unfolding insert_by
  All-insert_by P x [] h k = (h, tt)
  All-insert_by P x (y ∷ ys) h k = elim (Bool-cases (o.at_most (key x) (key y))) [
    | inl e ↦ rw e (h, k)
    | inr e ↦ rw e (k.0, All-insert_by P x ys h k.1)
  ]

  -- A property of all elements survives the sort.
  pub All-sort_by {μ} : (P : A → Type μ) (xs : List A) → All P xs → All P (sort_by xs)
  unfolding sort_by
  All-sort_by P [] h = tt
  All-sort_by P (x ∷ xs) h = All-insert_by P x (sort_by xs) h.0 (All-sort_by P xs h.1)

  mem-insert_by_self : (x : A) (xs : List A) → Memᴰ x (insert_by x xs)
  unfolding insert_by
  mem-insert_by_self x [] = Memᴰ.head refl
  mem-insert_by_self x (y ∷ ys) = elim (Bool-cases (o.at_most (key x) (key y))) [
    | inl e ↦ rw e (Memᴰ.head refl)
    | inr e ↦ rw e (Memᴰ.tail (mem-insert_by_self x ys))
  ]

  mem-insert_by_of_mem : (x : A) {z : A} (xs : List A) → Memᴰ z xs → Memᴰ z (insert_by x xs)
  unfolding insert_by
  mem-insert_by_of_mem x [] m = elim m [ ]
  mem-insert_by_of_mem x (y ∷ ys) (Memᴰ.head p) = elim (Bool-cases (o.at_most (key x) (key y))) [
    | inl e ↦ rw e (Memᴰ.tail (Memᴰ.head p))
    | inr e ↦ rw e (Memᴰ.head p)
  ]
  mem-insert_by_of_mem x (y ∷ ys) (Memᴰ.tail m) =
      let below = mem-insert_by_of_mem x ys m in
      elim (Bool-cases (o.at_most (key x) (key y))) [
        | inl e ↦ rw e (Memᴰ.tail (Memᴰ.tail m))
        | inr e ↦ rw e (Memᴰ.tail below)
      ]

  pub mem-sort_by : {z : A} (xs : List A) → Memᴰ z xs → Memᴰ z (sort_by xs)
  unfolding sort_by
  mem-sort_by [] m = elim m [ ]
  mem-sort_by (x ∷ xs) (Memᴰ.head e) = rw e (mem-insert_by_self x (sort_by xs))
  mem-sort_by (x ∷ xs) (Memᴰ.tail m) = mem-insert_by_of_mem x (sort_by xs) (mem-sort_by xs m)

  pub mem_of_sort_by : {z : A} (xs : List A) → Memᴰ z (sort_by xs) → Memᴰ z xs
  mem_of_sort_by xs m =
      All_of_mem (λ y. Memᴰ y xs) (sort_by xs)
        (All-sort_by (λ y. Memᴰ y xs) xs (All-by_mem (λ y. Memᴰ y xs) xs (λ y n. n))) m

  length-insert_by : (x : A) (xs : List A) → length (insert_by x xs) ≡ suc (length xs)
  unfolding insert_by
  length-insert_by x [] = refl
  length-insert_by x (y ∷ ys) = ground (arith, length-insert_by x ys)

  pub length-sort_by : (xs : List A) → length (sort_by xs) ≡ length xs
  unfolding sort_by
  length-sort_by [] = refl
  length-sort_by (x ∷ xs) = omega (arith, length-insert_by x (sort_by xs), length-sort_by xs)

  insert_by-IsAscending : (x : A) (xs : List A) → IsAscending xs → IsAscending (insert_by x xs)
  unfolding insert_by
  insert_by-IsAscending x [] h = (tt, tt)
  insert_by-IsAscending x (y ∷ ys) h = elim (Bool-cases (o.at_most (key x) (key y))) [
    | inl e ↦ rw e ((e, All-map _ _ ys (λ z p. o.at_most_trans (key x) (key y) (key z) e p) h.0), h)
    | inr e ↦ rw e (
      All-insert_by (λ z. o.at_most (key y) (key z) ≡ true) x ys (o.at_most_total (key x) (key y) e)
          h.0,
      insert_by-IsAscending x ys h.1,
    )
  ]

  -- The result is ascending by key.
  pub sort_by-IsAscending : (xs : List A) → IsAscending (sort_by xs)
  unfolding sort_by
  sort_by-IsAscending [] = tt
  sort_by-IsAscending (x ∷ xs) = insert_by-IsAscending x (sort_by xs) (sort_by-IsAscending xs)

module _ {ℓ} {A : Type ℓ} ⦃o : Order A⦄ where
  insert_by-AllDistinct :
      (x : A) (xs : List A)
      → All (λ y. same x y ≡ false) xs
      → AllDistinct xs
      → AllDistinct (insert_by (λ y. y) x xs)
  unfolding insert_by
  insert_by-AllDistinct x [] h d = (tt, tt)
  insert_by-AllDistinct x (y ∷ ys) h d = elim (Bool-cases (o.at_most x y)) [
    | inl e ↦ rw e (h, d)
    | inr e ↦ rw e (
      All-insert_by (λ y. y) (λ z. same y z ≡ false) x ys (same_sym x y h.0) d.0,
      insert_by-AllDistinct x ys h.1 d.1,
    )
  ]

  -- A sort keeps the elements apart.
  pub sort_by-AllDistinct : (xs : List A) → AllDistinct xs → AllDistinct (sort_by (λ y. y) xs)
  unfolding sort_by
  sort_by-AllDistinct [] d = tt
  sort_by-AllDistinct (x ∷ xs) d =
      insert_by-AllDistinct x (sort_by (λ y. y) xs)
        (All-sort_by (λ y. y) (λ y. same x y ≡ false) xs d.0) (sort_by-AllDistinct xs d.1)

module _ {ℓ κ} {A : Type ℓ} {K : Type κ} ⦃o : Order K⦄ (key : A → K) where
  pub IsAscending-drop : (n : ℕ) (xs : List A) → IsAscending key xs → IsAscending key (drop n xs)
  IsAscending-drop zero xs h = h
  IsAscending-drop (suc n) [] h = tt
  IsAscending-drop (suc n) (x ∷ xs) h = IsAscending-drop n xs h.1

  pub IsAscending-take : (n : ℕ) (xs : List A) → IsAscending key xs → IsAscending key (take n xs)
  IsAscending-take zero xs h = tt
  IsAscending-take (suc n) [] h = tt
  IsAscending-take (suc n) (x ∷ xs) h =
      (All-take (λ y. o.at_most (key x) (key y) ≡ true) n xs h.0, IsAscending-take n xs h.1)

module _ {ℓ} {A : Type ℓ} ⦃o : Order A⦄ where
  mem_of_exists : (y : A) (xs : List A) → exists (same y) xs ≡ true → Memᴰ y xs
  mem_of_exists y [] h = cc
  mem_of_exists y (x ∷ xs) h = elim (Bool-cases (same y x)) [
    | inl e ↦ Memᴰ.head (same_eq y x e)
    | inr e ↦ Memᴰ.tail (mem_of_exists y xs (ground arith))
  ]

  pub mem-elements : {x : A} (xs : List A) → Memᴰ x xs → Memᴰ x (elements xs)
  unfolding elements
  mem-elements [] m = elim m [ ]
  mem-elements {x} (y ∷ xs) (Memᴰ.head e) = elim (Bool-cases (exists (same y) xs)) [
    | inl again ↦ rw again (mem-elements xs (rw e (mem_of_exists y xs again)))
    | inr new ↦ rw new (Memᴰ.head e)
  ]
  mem-elements {x} (y ∷ xs) (Memᴰ.tail m) =
      let below = mem-elements xs m in
      elim (Bool-cases (exists (same y) xs)) [
        | inl again ↦ rw again below
        | inr new ↦ rw new (Memᴰ.tail below)
      ]

  pub mem_of_elements : {x : A} (xs : List A) → Memᴰ x (elements xs) → Memᴰ x xs
  unfolding elements
  mem_of_elements [] m = elim m [ ]
  mem_of_elements {x} (y ∷ xs) m = elim (Bool-cases (exists (same y) xs)) [
    | inl again ↦ Memᴰ.tail (mem_of_elements xs (rw again at m))
    | inr new ↦ split (rw new at m) (mem_of_elements xs)
  ]
    where
      split : Memᴰ x (y ∷ elements xs) → (Memᴰ x (elements xs) → Memᴰ x xs) → Memᴰ x (y ∷ xs)
      split (Memᴰ.head e) below = Memᴰ.head e
      split (Memᴰ.tail n) below = Memᴰ.tail (below n)

pub IsAscending-map :
    {A B K : Type 0} ⦃o : Order K⦄ (key : B → K) (g : A → B) (xs : List A)
    → IsAscending (λ x. key (g x)) xs
    → IsAscending key (map g xs)
IsAscending-map key g [] h = tt
IsAscending-map key g (x ∷ xs) (here, later) =
    (All-of_map _ g xs here, IsAscending-map key g xs later)
