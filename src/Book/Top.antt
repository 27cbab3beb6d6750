-- ===== src/Book/Top.antt =====
-- `LocalOrderBook.top`: the best levels of each side, best first.
use mathlib.Core.List.{reverse, reverse-append}
use xrp_inteliggence_x.Base.{
  map, map-collect, mem_append_right, mem_append_left, ◌≤◌, zero, suc, sym, refl, ◌++◌, lex_at_most,
  IsAscending, sort_by-IsAscending, All-map, All-append, All-take, mem-sort_by, ◌⊎◌, inl, inr, ℕ,
  ◌<◌, ◌≡◌, Bool, true, false, not, List, [], ◌∷◌, Memᴰ, length, take, ltb, nat_order, list_order,
  sort_by, All, All_of_mem, All-by_mem, All-sort_by, All-reverse, mem_of_take, length-take,
  length-reverse, length-sort_by, collect-total, subst, ap, ◌∙◌, min, keys, Result, ok, ◌>>=◌, ◌>>◌,
  raise_if, collect, value_error, book_sequence_error, arith,
}
use xrp_inteliggence_x.Book.Model.{BookLevel, LocalOrderBook, Side, book_level, level_of}
use xrp_inteliggence_x.Book.Consistency.{IsConsistent, IsConsistent-IsTwoSided}

-- The order of Python's pairs of numbers.
abbrev pub pair_key : ℕ × ℕ → List ℕ
pair_key (price, quantity) = price ∷ quantity ∷ []

unfoldable pub best_first : Bool → Side → Side
best_first true side = reverse (sort_by pair_key side)
best_first false side = sort_by pair_key side

unfoldable pub top : ℕ → LocalOrderBook → Result (List BookLevel × List BookLevel)
top levels b = do
  raise_if (not b.synchronized) (book_sequence_error "book is not synchronized")
  raise_if (ltb levels 1) (value_error "levels must be positive")
  bids ← collect level_of (take levels (best_first true b.bids))
  asks ← collect level_of (take levels (best_first false b.asks))
  ok (bids, asks)

sorted_given : (side : Side) → All (λ e. Memᴰ e side) (sort_by pair_key side)
sorted_given side =
    All-sort_by pair_key (λ e. Memᴰ e side) side (All-by_mem (λ e. Memᴰ e side) side (λ e m. m))

best_first-All : (bid : Bool) (side : Side) → All (λ e. Memᴰ e side) (best_first bid side)
unfolding best_first
best_first-All true side =
    All-reverse (λ e. Memᴰ e side) (sort_by pair_key side) (sorted_given side)
best_first-All false side = sorted_given side

length-best_first : (bid : Bool) (side : Side) → length (best_first bid side) ≡ length side
unfolding best_first
length-best_first true side = length-reverse (sort_by pair_key side) ∙ length-sort_by pair_key side
length-best_first false side = length-sort_by pair_key side

level_of-eq-ok : (e : ℕ × ℕ) {l : BookLevel} → level_of e ≡ ok l → e ≡ (l.price, l.quantity)
unfolding book_level
level_of-eq-ok (price, quantity) h = ground arith

mem-price :
    {price quantity : ℕ} (side : Side) → Memᴰ (price, quantity) side → Memᴰ price (keys side)
mem-price [] m = elim m [ ]
mem-price (e ∷ side) (Memᴰ.head p) = Memᴰ.head (ap (λ x. x.0) p)
mem-price (e ∷ side) (Memᴰ.tail m) = Memᴰ.tail (mem-price side m)

top_parts :
    (levels : ℕ) (b : LocalOrderBook) {bids asks : List BookLevel}
    → top levels b ≡ ok (bids, asks)
    → (b.synchronized ≡ true)
      × (collect level_of (take levels (best_first true b.bids)) ≡ ok bids)
      × (collect level_of (take levels (best_first false b.asks)) ≡ ok asks)
unfolding top
top_parts levels b h = (ground arith, ground arith, ground arith)

abbrev pub entry : BookLevel → ℕ × ℕ
entry l = (l.price, l.quantity)

collect-entries :
    (es : Side) {ls : List BookLevel} → collect level_of es ≡ ok ls → map entry ls ≡ es
collect-entries es h =
    map-collect level_of (λ e. e) entry (λ e l k. sym (level_of-eq-ok e k)) es h ∙ same_all es
  where
    same_all : (xs : Side) → map (λ e. e) xs ≡ xs
    same_all [] = refl
    same_all (x ∷ xs) = ap (λ ys. x ∷ ys) (same_all xs)

-- The first of two prices is as good as the second: as high for a bid, as low for an ask.
abbrev pub Outranks : Bool → ℕ → ℕ → Type 0
Outranks true p q = q ≤ p
Outranks false p q = p ≤ q

abbrev pub AreBestFirst : Bool → Side → Type 0
AreBestFirst bid [] = Unit
AreBestFirst bid (e ∷ es) = All (λ f. Outranks bid e.0 f.0) es × AreBestFirst bid es

price_order : (d e : ℕ × ℕ) → lex_at_most (pair_key d) (pair_key e) ≡ true → d.0 ≤ e.0
unfolding lex_at_most
price_order (p, q) (p', q') h = ground arith

AreBestFirst-ask : (es : Side) → IsAscending pair_key es → AreBestFirst false es
AreBestFirst-ask [] h = tt
AreBestFirst-ask (e ∷ es) (first, later) =
    (All-map _ (λ f. e.0 ≤ f.0) es (λ f. price_order e f) first, AreBestFirst-ask es later)

AreBestFirst-snoc :
    (es : Side) (e : ℕ × ℕ)
    → AreBestFirst true es
    → All (λ f. e.0 ≤ f.0) es
    → AreBestFirst true (es ++ e ∷ [])
AreBestFirst-snoc [] e h above = (tt, tt)
AreBestFirst-snoc (f ∷ es) e (first, later) (here, above) =
    (All-append (λ g. g.0 ≤ f.0) es (e ∷ []) first (here, tt), AreBestFirst-snoc es e later above)

AreBestFirst-bid : (es : Side) → IsAscending pair_key es → AreBestFirst true (reverse es)
AreBestFirst-bid [] h = tt
AreBestFirst-bid (e ∷ es) (first, later) = rw (reverse-append (e ∷ []) es) (
    AreBestFirst-snoc (reverse es) e (AreBestFirst-bid es later) (
      All-reverse (λ f. e.0 ≤ f.0) es (All-map _ (λ f. e.0 ≤ f.0) es (λ f. price_order e f) first)))

best_first-AreBestFirst : (bid : Bool) (side : Side) → AreBestFirst bid (best_first bid side)
unfolding best_first
best_first-AreBestFirst true side =
    AreBestFirst-bid (sort_by pair_key side) (sort_by-IsAscending pair_key side)
best_first-AreBestFirst false side =
    AreBestFirst-ask (sort_by pair_key side) (sort_by-IsAscending pair_key side)

mem-reverse : (es : Side) {e : ℕ × ℕ} → Memᴰ e es → Memᴰ e (reverse es)
mem-reverse [] m = elim m [ ]
mem-reverse (f ∷ es) (Memᴰ.head q) =
    rw (reverse-append (f ∷ []) es) (mem_append_right (reverse es) (f ∷ []) (Memᴰ.head q))
mem-reverse (f ∷ es) (Memᴰ.tail m) =
    rw (reverse-append (f ∷ []) es) (mem_append_left (reverse es) (f ∷ []) (mem-reverse es m))

mem-best_first : (bid : Bool) (side : Side) {e : ℕ × ℕ} → Memᴰ e side → Memᴰ e (best_first bid side)
unfolding best_first
mem-best_first true side m = mem-reverse (sort_by pair_key side) (mem-sort_by pair_key side m)
mem-best_first false side m = mem-sort_by pair_key side m

AreBestFirst-take :
    (bid : Bool) (n : ℕ) (es : Side) → AreBestFirst bid es → AreBestFirst bid (take n es)
AreBestFirst-take bid zero es h = tt
AreBestFirst-take bid (suc n) [] h = tt
AreBestFirst-take bid (suc n) (e ∷ es) (first, later) =
    (All-take _ n es first, AreBestFirst-take bid n es later)

-- What is not among the first is outranked by them.
taken_or_outranked :
    (bid : Bool) (n : ℕ) (es : Side) {e : ℕ × ℕ}
    → AreBestFirst bid es
    → Memᴰ e es
    → Memᴰ e (take n es) ⊎ All (λ f. Outranks bid f.0 e.0) (take n es)
taken_or_outranked bid zero es h m = inr tt
taken_or_outranked bid (suc n) [] h m = elim m [ ]
taken_or_outranked bid (suc n) (f ∷ es) h (Memᴰ.head q) = inl (Memᴰ.head q)
taken_or_outranked bid (suc n) (f ∷ es) (first, later) (Memᴰ.tail m) =
    elim (taken_or_outranked bid n es later m) [
      | inl taken ↦ inl (Memᴰ.tail taken)
      | inr below ↦ inr (All_of_mem _ es first m, below)
    ]

-- The best `levels` of the levels of a side, best first.
pub record AreBest (bid : Bool) (levels : ℕ) (side best : Side) : Type 0 where
  pub given : All (λ e. Memᴰ e side) best
  pub count : length best ≡ min levels (length side)
  pub ordered : AreBestFirst bid best
  pub outrank : (e : ℕ × ℕ) → Memᴰ e side → Memᴰ e best ⊎ All (λ f. Outranks bid f.0 e.0) best

best_first-AreBest :
    (bid : Bool) (levels : ℕ) (side : Side)
    → AreBest bid levels side (take levels (best_first bid side))
best_first-AreBest bid levels side =
    let all = best_first bid side in
    let ranked = best_first-AreBestFirst bid side in
    record {
      given = All-take _ levels all (best_first-All bid side);
      count = length-take levels all ∙ ap (min levels) (length-best_first bid side);
      ordered = AreBestFirst-take bid levels all ranked;
      outrank = λ e m. taken_or_outranked bid levels all ranked (mem-best_first bid side m);
    }

-- `top` of a consistent book, when it returns, gives of each side as many levels as asked for or as
-- there are. They are levels of the book, the bids from the highest price down and the asks from the
-- lowest price up; no level that is left out has a better price than one that is returned; and
-- every returned bid lies below every returned ask.
pub top-AreBest :
    (levels : ℕ) (b : LocalOrderBook) {bids asks : List BookLevel}
    → IsConsistent b
    → top levels b ≡ ok (bids, asks)
    → AreBest true levels b.bids (map entry bids)
      × AreBest false levels b.asks (map entry asks)
      × ((bid ask : ℕ × ℕ) → Memᴰ bid (map entry bids) → Memᴰ ask (map entry asks) → bid.0 < ask.0)
top-AreBest levels b c h =
    let (synced, some_bids, some_asks) = top_parts levels b h in
    let best_bids = best true b.bids some_bids in
    let best_asks = best false b.asks some_asks in
    let sides = IsConsistent-IsTwoSided b c synced in
    (
      best_bids,
      best_asks,
      λ bid ask m n.
          sides.uncrossed bid.0 ask.0 (mem-price b.bids (All_of_mem _ _ best_bids.given m))
            (mem-price b.asks (All_of_mem _ _ best_asks.given n)),
    )
  where
    best :
        (bid : Bool) (side : Side) {ls : List BookLevel}
        → collect level_of (take levels (best_first bid side)) ≡ ok ls
        → AreBest bid levels side (map entry ls)
    best bid side e =
        subst (AreBest bid levels side) (sym (collect-entries _ e))
          (best_first-AreBest bid levels side)

level_of-total : (e : ℕ × ℕ) → 0 < e.0 → (l : BookLevel) × (level_of e ≡ ok l)
unfolding book_level
level_of-total (price, quantity) h = (record { price = price; quantity = quantity }, ground arith)

levels_exist :
    (bid : Bool) (levels : ℕ) (side : Side)
    → All (λ e. 0 < e.0) side
    → (ls : List BookLevel) × (collect level_of (take levels (best_first bid side)) ≡ ok ls)
levels_exist bid levels side positive =
    collect-total level_of (take levels (best_first bid side)) (λ e m. level_of-total e (
      All_of_mem (λ x. 0 < x.0) side positive
        (All_of_mem (λ x. Memᴰ x side) (best_first bid side) (best_first-All bid side)
          (mem_of_take levels (best_first bid side) m))))

-- `top` does not raise on a synchronized book of positive prices, if at least one level is asked
-- for.
pub top-total :
    (levels : ℕ) (b : LocalOrderBook)
    → b.synchronized ≡ true
    → 0 < levels
    → All (λ e. 0 < e.0) b.bids
    → All (λ e. 0 < e.0) b.asks
    → (sides : List BookLevel × List BookLevel) × (top levels b ≡ ok sides)
unfolding top
top-total levels b synced positive bids asks =
    let (bid_levels, bid_ok) = levels_exist true levels b.bids bids in
    let (ask_levels, ask_ok) = levels_exist false levels b.asks asks in
    ((bid_levels, ask_levels), ground arith)
