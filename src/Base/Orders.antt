-- ===== src/Base/Orders.antt =====
-- Total orders as an interface. Python compares numbers by value and strings and tuples
-- lexicographically: `list_order` over `nat_order` is the order of strings as code points, and over
-- strings the order of tuples of strings.
use Prim.Native.Nat.{ℕ}
use mathlib.Core.Path.{◌≡◌, refl}
use mathlib.Core.Bool.{Bool, true, false, ◌&&◌, ◌||◌, not}
use mathlib.Core.List.{List, [], ◌∷◌}
use native.Mathlib.Omega.{arith}
use xrp_inteliggence_x.Base.Lists.{All, exists}
use xrp_inteliggence_x.Base.Bools.{leb, &&-true, if◌then◌else◌}

pub record Order {ℓ} (A : Type ℓ) : Type ℓ where
  pub at_most : A → A → Bool
  pub at_most_refl : (a : A) → at_most a a ≡ true
  pub at_most_trans : (a b c : A) → at_most a b ≡ true → at_most b c ≡ true → at_most a c ≡ true
  pub at_most_total : (a b : A) → at_most a b ≡ false → at_most b a ≡ true
  pub at_most_antisym : (a b : A) → at_most a b ≡ true → at_most b a ≡ true → a ≡ b

pub leb_refl : (a : ℕ) → leb a a ≡ true
leb_refl a = ground arith

pub leb_trans : (a b c : ℕ) → leb a b ≡ true → leb b c ≡ true → leb a c ≡ true
leb_trans a b c h k = ground arith

pub leb_total : (a b : ℕ) → leb a b ≡ false → leb b a ≡ true
leb_total a b h = ground arith

pub leb_antisym : (a b : ℕ) → leb a b ≡ true → leb b a ≡ true → a ≡ b
leb_antisym a b h k = ground arith

instance abbrev pub nat_order : Order ℕ
nat_order = record {
  at_most = leb;
  at_most_refl = leb_refl;
  at_most_trans = leb_trans;
  at_most_total = leb_total;
  at_most_antisym = leb_antisym;
}

module _ {ℓ} {A : Type ℓ} ⦃o : Order A⦄ where
  abbrev pub before : A → A → Bool
  before a b = not (o.at_most b a)

  abbrev pub same : A → A → Bool
  same a b = o.at_most a b && o.at_most b a

  pub same_eq : (a b : A) → same a b ≡ true → a ≡ b
  same_eq a b h = let (l, r) = &&-true _ _ h in o.at_most_antisym a b l r

  pub same_refl : (a : A) → same a a ≡ true
  same_refl a = rw (o.at_most_refl a)

  pub before_irrefl : (a : A) → before a a ≡ false
  before_irrefl a = rw (o.at_most_refl a)

  pub same_sym : (a b : A) → same a b ≡ false → same b a ≡ false
  same_sym a b h = ground arith

  -- No element stands twice.
  abbrev pub AllDistinct : List A → Type 0
  AllDistinct [] = Unit
  AllDistinct (x ∷ xs) = All (λ y. same x y ≡ false) xs × AllDistinct xs

  -- The elements of `set(xs)`, each of them once.
  unfoldable pub elements : List A → List A
  elements [] = []
  elements (x ∷ xs) = let rest = elements xs in if exists (same x) xs then rest else x ∷ rest

  unfoldable pub lex_at_most : List A → List A → Bool
  lex_at_most [] ys = true
  lex_at_most (x ∷ xs) [] = false
  lex_at_most (x ∷ xs) (y ∷ ys) = o.at_most x y && (not (o.at_most y x) || lex_at_most xs ys)

  pub lex_at_most_refl : (xs : List A) → lex_at_most xs xs ≡ true
  unfolding lex_at_most
  lex_at_most_refl [] = refl
  lex_at_most_refl (x ∷ xs) = rw (o.at_most_refl x) (lex_at_most_refl xs)

  pub lex_at_most_trans :
      (xs ys zs : List A)
      → lex_at_most xs ys ≡ true
      → lex_at_most ys zs ≡ true
      → lex_at_most xs zs ≡ true
  unfolding lex_at_most
  lex_at_most_trans [] ys zs h k = refl
  lex_at_most_trans (x ∷ xs) [] zs h k = cc
  lex_at_most_trans (x ∷ xs) (y ∷ ys) [] h k = cc
  lex_at_most_trans (x ∷ xs) (y ∷ ys) (z ∷ zs) h k = ground (
    arith,
    o.at_most_trans x y z,
    o.at_most_trans z x y,
    o.at_most_trans y z x,
    lex_at_most_trans xs ys zs,
  )

  pub lex_at_most_total : (xs ys : List A) → lex_at_most xs ys ≡ false → lex_at_most ys xs ≡ true
  unfolding lex_at_most
  lex_at_most_total [] ys h = cc
  lex_at_most_total (x ∷ xs) [] h = refl
  lex_at_most_total (x ∷ xs) (y ∷ ys) h =
      ground (arith, o.at_most_total x y, lex_at_most_total xs ys)

  pub lex_at_most_antisym :
      (xs ys : List A) → lex_at_most xs ys ≡ true → lex_at_most ys xs ≡ true → xs ≡ ys
  unfolding lex_at_most
  lex_at_most_antisym [] [] h k = refl
  lex_at_most_antisym [] (y ∷ ys) h k = cc
  lex_at_most_antisym (x ∷ xs) [] h k = cc
  lex_at_most_antisym (x ∷ xs) (y ∷ ys) h k =
      ground (arith, o.at_most_antisym x y, lex_at_most_antisym xs ys)

  instance abbrev pub list_order : Order (List A)
  list_order = record {
    at_most = lex_at_most;
    at_most_refl = lex_at_most_refl;
    at_most_trans = lex_at_most_trans;
    at_most_total = lex_at_most_total;
    at_most_antisym = lex_at_most_antisym;
  }
