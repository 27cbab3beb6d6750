-- ===== src/Book/Levels.antt =====
-- The quantities of a side after a list of updates, against the last update of each price.
use xrp_inteliggence_x.Base.{
  ℕ, ◌≡◌, refl, ◌∙◌, ap, Option, none, some, List, [], ◌∷◌, ◌==◌, if◌then◌else◌, same, nat_order,
  lookup, insert, lookup-insert, lookup-pop, HasDistinctKeys, insert-HasDistinctKeys,
  pop-HasDistinctKeys, arith, Bool-cases, inl, inr,
}
use xrp_inteliggence_x.Book.Model.{BookLevel, Side, side_of, apply_level, apply_side}

-- The last quantity that the updates give a price.
abbrev pub last_quantity : ℕ → List BookLevel → Option ℕ
last_quantity price [] = none
last_quantity price (l ∷ levels) = elim (last_quantity price levels) [
  | some quantity ↦ some quantity
  | none ↦ if same price l.price then some l.quantity else none
]

-- What stands at a price, if its last update is `update` and `before` stood there.
abbrev pub updated : Option ℕ → Option ℕ → Option ℕ
updated none before = before
updated (some quantity) before = if quantity == 0 then none else some quantity

pub apply_level-HasDistinctKeys :
    (l : BookLevel) (side : Side) → HasDistinctKeys side → HasDistinctKeys (apply_level l side)
unfolding apply_level
apply_level-HasDistinctKeys l side h = elim (Bool-cases (l.quantity == 0)) [
  | inl e ↦ rw e (pop-HasDistinctKeys l.price side h)
  | inr e ↦ rw e (insert-HasDistinctKeys l.price l.quantity side h)
]

pub apply_side-HasDistinctKeys :
    (side : Side) (levels : List BookLevel)
    → HasDistinctKeys side
    → HasDistinctKeys (apply_side side levels)
unfolding apply_side
apply_side-HasDistinctKeys side [] h = h
apply_side-HasDistinctKeys side (l ∷ levels) h =
    apply_side-HasDistinctKeys (apply_level l side) levels (apply_level-HasDistinctKeys l side h)

pub side_of-HasDistinctKeys :
    (side : Side) (levels : List BookLevel)
    → HasDistinctKeys side
    → HasDistinctKeys (side_of side levels)
unfolding side_of
side_of-HasDistinctKeys side [] h = h
side_of-HasDistinctKeys side (l ∷ levels) h =
    side_of-HasDistinctKeys (insert l.price l.quantity side) levels
      (insert-HasDistinctKeys l.price l.quantity side h)

lookup-apply_level :
    (price : ℕ) (l : BookLevel) (side : Side)
    → HasDistinctKeys side
    → lookup price (apply_level l side) ≡ updated (last_quantity price (l ∷ [])) (lookup price side)
unfolding apply_level
lookup-apply_level price l side h =
    ground (arith, lookup-pop l.price price side h, lookup-insert l.price price l.quantity side)

updated_twice :
    (price : ℕ) (l : BookLevel) (levels : List BookLevel) (before : Option ℕ)
    → updated (last_quantity price levels) (updated (last_quantity price (l ∷ [])) before)
      ≡ updated (last_quantity price (l ∷ levels)) before
updated_twice price l levels before = ground arith

-- After `_apply_side`, the quantity at a price is that of its last update, with 0 for a removed
-- level, and without an update it is what it was.
pub lookup-apply_side :
    (price : ℕ) (side : Side) (levels : List BookLevel)
    → HasDistinctKeys side
    → lookup price (apply_side side levels)
      ≡ updated (last_quantity price levels) (lookup price side)
unfolding apply_side
lookup-apply_side price side [] h = refl
lookup-apply_side price side (l ∷ levels) h =
    lookup-apply_side price (apply_level l side) levels (apply_level-HasDistinctKeys l side h)
    ∙ ap (updated (last_quantity price levels)) (lookup-apply_level price l side h)
    ∙ updated_twice price l levels (lookup price side)
