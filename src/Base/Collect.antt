-- ===== src/Base/Collect.antt =====
-- Comprehensions whose body can raise: what a successful one says of each element.
use mathlib.Core.Path.{◌≡◌, refl, ap, sym, ◌∙◌, subst}
use mathlib.Core.List.{List, [], ◌∷◌, map, Memᴰ}
use Prim.Native.Nat.{suc}
use xrp_inteliggence_x.Base.Lists.{length, All}
use xrp_inteliggence_x.Base.Outcomes.{Result, ok, >>=-eq-ok, collect}

module _ {ℓ κ} {A : Type ℓ} {B : Type κ} (f : A → Result B) where
  pub collect-cons :
      (x : A) (xs : List A) {zs : List B}
      → collect f (x ∷ xs) ≡ ok zs
      → (y : B) × (ys : List B) × (f x ≡ ok y) × (collect f xs ≡ ok ys) × (zs ≡ y ∷ ys)
  unfolding collect
  collect-cons x xs h =
      let (y, fy, rest) = >>=-eq-ok (f x) _ h in
      let (ys, fys, last) = >>=-eq-ok (collect f xs) _ rest in (y, ys, fy, fys, cc)

  collect-nil : {ys : List B} → collect f [] ≡ ok ys → ys ≡ []
  unfolding collect
  collect-nil h = cc

  -- Each result comes from an element.
  pub collect_sound :
      (xs : List A) {ys : List B} {y : B}
      → collect f xs ≡ ok ys
      → Memᴰ y ys
      → (x : A) × Memᴰ x xs × (f x ≡ ok y)
  collect_sound [] {y} h m = absurd (no_member (subst (λ l. Memᴰ y l) (collect-nil h) m))
    where
      no_member : Memᴰ y [] → ⊥
      no_member n = elim n [ ]
  collect_sound (x ∷ xs) {y} h m =
      let (z, zs, fz, rest, split) = collect-cons x xs h in
      go z zs fz (subst (λ l. Memᴰ y l) split m) (λ n. collect_sound xs rest n)
    where
      go :
          (z : B) (zs : List B)
          → f x ≡ ok z
          → Memᴰ y (z ∷ zs)
          → (Memᴰ y zs → (w : A) × Memᴰ w xs × (f w ≡ ok y))
          → (w : A) × Memᴰ w (x ∷ xs) × (f w ≡ ok y)
      go z zs fz (Memᴰ.head e) ih = (x, Memᴰ.head refl, rw e fz)
      go z zs fz (Memᴰ.tail n) ih = let (w, k, e) = ih n in (w, Memᴰ.tail k, e)

  -- Each element has a result.
  pub collect_complete :
      (xs : List A) {ys : List B} {x : A}
      → collect f xs ≡ ok ys
      → Memᴰ x xs
      → (y : B) × Memᴰ y ys × (f x ≡ ok y)
  collect_complete [] h m = elim m [ ]
  collect_complete (x' ∷ xs) h (Memᴰ.head e) =
      let (y, ys, fy, rest, split) = collect-cons x' xs h in
      (y, subst (λ l. Memᴰ y l) (sym split) (Memᴰ.head refl), rw e fy)
  collect_complete (x' ∷ xs) h (Memᴰ.tail m) =
      let (y', ys, fy, rest, split) = collect-cons x' xs h in
      let (y, n, e) = collect_complete xs rest m in
      (y, subst (λ l. Memᴰ y l) (sym split) (Memᴰ.tail n), e)

  -- A label that `f` keeps is the same all along.
  pub map-collect {μ} :
      {K : Type μ} (a : A → K) (b : B → K)
      → ((x : A) (y : B) → f x ≡ ok y → b y ≡ a x)
      → (xs : List A) {ys : List B} → collect f xs ≡ ok ys
      → map b ys ≡ map a xs
  unfolding collect
  map-collect a b keeps [] h = rw (collect-nil h)
  map-collect a b keeps (x ∷ xs) h =
      let (y, ys, fy, rest, split) = collect-cons x xs h in
      rw (split, keeps x y fy, map-collect a b keeps xs rest)

  -- If the body never raises, nor does the comprehension.
  pub collect-total :
      (xs : List A)
      → ((x : A) → Memᴰ x xs → (y : B) × (f x ≡ ok y))
      → (ys : List B) × (collect f xs ≡ ok ys)
  unfolding collect
  collect-total [] every_one = ([], refl)
  collect-total (x ∷ xs) every_one =
      let (y, fy) = every_one x (Memᴰ.head refl) in
      let (ys, fys) = collect-total xs (λ z m. every_one z (Memᴰ.tail m)) in (y ∷ ys, rw (fy, fys))

  pub length-collect : (xs : List A) {ys : List B} → collect f xs ≡ ok ys → length ys ≡ length xs
  length-collect [] h = rw (collect-nil h)
  length-collect (x ∷ xs) h =
      let (y, ys, fy, rest, split) = collect-cons x xs h in
      ap length split ∙ ap suc (length-collect xs rest)

-- A comprehension whose body returns `g x` on each element.
pub collect-map :
    {A B : Type 0} (f : A → Result B) (g : A → B) (xs : List A)
    → All (λ x. f x ≡ ok (g x)) xs
    → collect f xs ≡ ok (map g xs)
unfolding collect
collect-map f g [] h = refl
collect-map f g (x ∷ xs) (here, later) = rw (here, collect-map f g xs later) refl
