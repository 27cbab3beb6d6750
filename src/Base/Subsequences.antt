-- ===== src/Base/Subsequences.antt =====
-- Subsequences: some of the elements of a list, in their order.
use Prim.Native.Nat.{ℕ, zero, suc, ◌+◌, ◌≤◌}
use mathlib.Core.Path.{◌≡◌, refl, sym, ◌∙◌}
use mathlib.Core.Bool.{false}
use mathlib.Core.List.{List, [], ◌∷◌, ◌++◌, map}
use native.Mathlib.Nat.{zero-add, suc-add}
use native.Mathlib.Omega.{arith}
use xrp_inteliggence_x.Base.Lists.{All, take, drop}
use xrp_inteliggence_x.Base.Orders.{Order, same, AllDistinct}

pub data Subsequence {ℓ} {A : Type ℓ} : List A → List A → Type ℓ where
  over : {ys : List A} → Subsequence [] ys
  skip : {y : A} {xs ys : List A} → Subsequence xs ys → Subsequence xs (y ∷ ys)
  both : {y : A} {xs ys : List A} → Subsequence xs ys → Subsequence (y ∷ xs) (y ∷ ys)

Subsequence-All {ℓ κ} :
    {A : Type ℓ} (P : A → Type κ) {xs ys : List A} → Subsequence xs ys → All P ys → All P xs
Subsequence-All P over h = tt
Subsequence-All P (skip s) h = Subsequence-All P s h.1
Subsequence-All P (both s) h = (h.0, Subsequence-All P s h.1)

-- What stands once in a list stands at most once in a subsequence.
pub Subsequence-AllDistinct {ℓ} :
    {A : Type ℓ} ⦃o : Order A⦄ {xs ys : List A}
    → Subsequence xs ys
    → AllDistinct ys
    → AllDistinct xs
Subsequence-AllDistinct over h = tt
Subsequence-AllDistinct (skip s) h = Subsequence-AllDistinct s h.1
Subsequence-AllDistinct (both {y = y} s) h =
    (Subsequence-All (λ z. same y z ≡ false) s h.0, Subsequence-AllDistinct s h.1)

module _ {ℓ κ} {A : Type ℓ} {B : Type κ} (f : A → B) where
  -- A subsequence of what is left after a drop is one of the whole.
  pub Subsequence-drop :
      (n : ℕ) (zs : List A) {xs : List B}
      → Subsequence xs (map f (drop n zs))
      → Subsequence xs (map f zs)
  Subsequence-drop zero zs s = s
  Subsequence-drop (suc n) [] s = s
  Subsequence-drop (suc n) (z ∷ zs) s = skip (Subsequence-drop n zs s)

  -- The first elements, then a subsequence of what comes after them.
  pub Subsequence-take :
      (n m : ℕ) (zs : List A) {xs : List B}
      → n ≤ m
      → Subsequence xs (map f (drop m zs))
      → Subsequence (map f (take n zs) ++ xs) (map f zs)
  Subsequence-take zero m zs le s = Subsequence-drop m zs s
  Subsequence-take (suc n) zero zs le s = absurd (omega arith)
  Subsequence-take (suc n) (suc m) [] le s = s
  Subsequence-take (suc n) (suc m) (z ∷ zs) le s = both (Subsequence-take n m zs (omega arith) s)

drop-nil {ℓ} : {A : Type ℓ} (n : ℕ) → drop {A = A} n [] ≡ []
drop-nil zero = refl
drop-nil (suc n) = refl

pub drop-add {ℓ} : {A : Type ℓ} (n m : ℕ) (zs : List A) → drop (n + m) zs ≡ drop m (drop n zs)
drop-add zero m zs = rw zero-add
drop-add {A} (suc n) m [] = drop-nil {A = A} (suc n + m) ∙ sym (drop-nil m)
drop-add (suc n) m (z ∷ zs) = rw suc-add (drop-add n m zs)
