-- ===== src/Book/Consistency.antt =====
-- A synchronized book has both sides and is not crossed, whatever deltas it is given.
use xrp_inteliggence_x.Base.{
  ℕ, ◌+◌, ◌≤◌, ◌<◌, ◌≡◌, refl, ◌≢◌, Bool, true, false, not, ◌&&◌, List, [], ◌∷◌, Memᴰ, ltb, leb,
  if◌then◌else◌, keys, HasDistinctKeys, nat_order, Result, ok, raise, book_sequence_error, arith,
  Bool-cases, inl, inr,
}
use xrp_inteliggence_x.Book.Model.{
  OrderBookSnapshot, DepthDelta, LocalOrderBook, from_snapshot, apply_side, max_price, min_price,
  is_invalid, write_delta, apply, synchronize, apply_first_delta, apply_delta,
}
use xrp_inteliggence_x.Book.Levels.{apply_side-HasDistinctKeys, side_of-HasDistinctKeys}

max_price-start : (best : ℕ) (ps : List ℕ) → best ≤ max_price best ps
unfolding max_price
max_price-start best [] = omega arith
max_price-start best (p ∷ ps) = ground (arith, max_price-start (if ltb best p then p else best) ps)

max_price-each : (best : ℕ) (ps : List ℕ) {p : ℕ} → Memᴰ p (best ∷ ps) → p ≤ max_price best ps
unfolding max_price
max_price-each best [] (Memᴰ.head e) = omega arith
max_price-each best [] (Memᴰ.tail m) = elim m [ ]
max_price-each best (q ∷ ps) (Memᴰ.head e) =
    ground (arith, max_price-start (if ltb best q then q else best) ps)
max_price-each best (q ∷ ps) (Memᴰ.tail (Memᴰ.head e)) =
    ground (arith, max_price-start (if ltb best q then q else best) ps)
max_price-each best (q ∷ ps) (Memᴰ.tail (Memᴰ.tail m)) =
    max_price-each (if ltb best q then q else best) ps (Memᴰ.tail m)

min_price-start : (best : ℕ) (ps : List ℕ) → min_price best ps ≤ best
unfolding min_price
min_price-start best [] = omega arith
min_price-start best (p ∷ ps) = ground (arith, min_price-start (if ltb p best then p else best) ps)

min_price-each : (best : ℕ) (ps : List ℕ) {p : ℕ} → Memᴰ p (best ∷ ps) → min_price best ps ≤ p
unfolding min_price
min_price-each best [] (Memᴰ.head e) = omega arith
min_price-each best [] (Memᴰ.tail m) = elim m [ ]
min_price-each best (q ∷ ps) (Memᴰ.head e) =
    ground (arith, min_price-start (if ltb q best then q else best) ps)
min_price-each best (q ∷ ps) (Memᴰ.tail (Memᴰ.head e)) =
    ground (arith, min_price-start (if ltb q best then q else best) ps)
min_price-each best (q ∷ ps) (Memᴰ.tail (Memᴰ.tail m)) =
    min_price-each (if ltb q best then q else best) ps (Memᴰ.tail m)

-- Both sides are there, and every bid lies below every ask.
pub record IsTwoSided (bids asks : List ℕ) : Type 0 where
  pub some_bid : bids ≢ []
  pub some_ask : asks ≢ []
  pub uncrossed : (bid ask : ℕ) → Memᴰ bid bids → Memᴰ ask asks → bid < ask

pub IsTwoSided-of_valid : (bids asks : List ℕ) → is_invalid bids asks ≡ false → IsTwoSided bids asks
unfolding is_invalid
IsTwoSided-of_valid [] asks h = cc
IsTwoSided-of_valid (b ∷ bids) [] h = cc
IsTwoSided-of_valid (b ∷ bids) (a ∷ asks) h = record {
  some_bid = λ e. cc;
  some_ask = λ e. cc;
  uncrossed = λ bid ask m n. ground (arith, max_price-each b bids m, min_price-each a asks n);
}

skip_second : {x y : ℕ} {ys : List ℕ} (z : ℕ) → Memᴰ x (y ∷ ys) → Memᴰ x (y ∷ z ∷ ys)
skip_second z (Memᴰ.head e) = Memᴰ.head e
skip_second z (Memᴰ.tail m) = Memᴰ.tail (Memᴰ.tail m)

max_price-mem : (best : ℕ) (ps : List ℕ) → Memᴰ (max_price best ps) (best ∷ ps)
unfolding max_price
max_price-mem best [] = Memᴰ.head refl
max_price-mem best (p ∷ ps) = elim (Bool-cases (ltb best p)) [
  | inl e ↦ rw e (Memᴰ.tail (max_price-mem p ps))
  | inr e ↦ rw e (skip_second p (max_price-mem best ps))
]

min_price-mem : (best : ℕ) (ps : List ℕ) → Memᴰ (min_price best ps) (best ∷ ps)
unfolding min_price
min_price-mem best [] = Memᴰ.head refl
min_price-mem best (p ∷ ps) = elim (Bool-cases (ltb p best)) [
  | inl e ↦ rw e (Memᴰ.tail (min_price-mem p ps))
  | inr e ↦ rw e (skip_second p (min_price-mem best ps))
]

pub is_invalid-of_IsTwoSided :
    (bids asks : List ℕ) → IsTwoSided bids asks → is_invalid bids asks ≡ false
unfolding is_invalid
is_invalid-of_IsTwoSided [] asks h = absurd (h.some_bid refl)
is_invalid-of_IsTwoSided (b ∷ bids) [] h = absurd (h.some_ask refl)
is_invalid-of_IsTwoSided (b ∷ bids) (a ∷ asks) h =
    let below = h.uncrossed _ _ (max_price-mem b bids) (min_price-mem a asks) in ground arith

pub record IsConsistent (b : LocalOrderBook) : Type 0 where
  pub distinct_bids : HasDistinctKeys b.bids
  pub distinct_asks : HasDistinctKeys b.asks
  pub valid : b.synchronized ≡ true → is_invalid (keys b.bids) (keys b.asks) ≡ false

pub IsConsistent-IsTwoSided :
    (b : LocalOrderBook)
    → IsConsistent b
    → b.synchronized ≡ true
    → IsTwoSided (keys b.bids) (keys b.asks)
IsConsistent-IsTwoSided b c s = IsTwoSided-of_valid (keys b.bids) (keys b.asks) (c.valid s)

-- A book from a snapshot has no price twice, and waits for its first delta.
pub from_snapshot-IsConsistent : (s : OrderBookSnapshot) → IsConsistent (from_snapshot s)
unfolding from_snapshot
from_snapshot-IsConsistent s = record {
  distinct_bids = side_of-HasDistinctKeys [] s.bids tt;
  distinct_asks = side_of-HasDistinctKeys [] s.asks tt;
  valid = λ h. cc;
}

apply-IsConsistent :
    (d : DepthDelta) (b : LocalOrderBook)
    → IsConsistent b
    → IsConsistent (apply d b).0
      × ((apply d b).1 ≡ ok tt
          → is_invalid (keys (apply d b).0.bids) (keys (apply d b).0.asks) ≡ false)
unfolding apply write_delta
apply-IsConsistent d b c =
    let bids = apply_side-HasDistinctKeys b.bids d.bids c.distinct_bids in
    let asks = apply_side-HasDistinctKeys b.asks d.asks c.distinct_asks in
    elim (Bool-cases
      (is_invalid (keys (apply_side b.bids d.bids)) (keys (apply_side b.asks d.asks)))) [
        | inl e ↦
            rw e (record { distinct_bids = bids; distinct_asks = asks; valid = λ h. cc }, λ h. cc)
        | inr e ↦
            rw e (record { distinct_bids = bids; distinct_asks = asks; valid = λ h. e }, λ h. e)
      ]

set_synchronized :
    (r : LocalOrderBook × Result (Unit {0}))
    → IsConsistent r.0
    → (r.1 ≡ ok tt → is_invalid (keys r.0.bids) (keys r.0.asks) ≡ false)
    → IsConsistent (synchronize r).0
set_synchronized (b, ok tt) c valid = record {
  distinct_bids = c.distinct_bids;
  distinct_asks = c.distinct_asks;
  valid = λ h. valid refl;
}
set_synchronized (b, raise e) c valid = c

pub apply_first_delta-IsConsistent :
    (d : DepthDelta) (b : LocalOrderBook) → IsConsistent b → IsConsistent (apply_first_delta d b).0
unfolding apply_first_delta
apply_first_delta-IsConsistent d b c =
    let (kept, valid) = apply-IsConsistent d b c in
    let synced = set_synchronized (apply d b) kept valid in
    elim (Bool-cases (
      leb d.first_update_id (b.last_update_id + 1)
      && leb (b.last_update_id + 1) d.final_update_id)) [ inl e ↦ rw e synced | inr e ↦ rw e c ]

desynchronized :
    (b : LocalOrderBook) → IsConsistent b → IsConsistent (record b { synchronized = false })
desynchronized b c = record {
  distinct_bids = c.distinct_bids;
  distinct_asks = c.distinct_asks;
  valid = λ h. cc;
}

pub apply_delta-IsConsistent :
    (d : DepthDelta) (b : LocalOrderBook) → IsConsistent b → IsConsistent (apply_delta d b).0
unfolding apply_delta
apply_delta-IsConsistent d b c =
    go (not b.synchronized) (leb d.final_update_id b.last_update_id)
      (ltb (b.last_update_id + 1) d.first_update_id)
  where
    go :
        (unsynced stale gap : Bool)
        → IsConsistent
            (if unsynced
              then (b, raise (book_sequence_error "book is not synchronized"))
              else (if stale
                  then (b, ok tt)
                  else (if gap
                      then (
                        record b { synchronized = false },
                        raise (book_sequence_error "depth sequence gap; resnapshot required"),
                      )
                      else apply d b))).0
    go true stale gap = c
    go false true gap = c
    go false false true = desynchronized b c
    go false false false = (apply-IsConsistent d b c).0

-- The calls that change a book.
pub data Step : LocalOrderBook → LocalOrderBook → Type 0 where
  first : (d : DepthDelta) (b : LocalOrderBook) → Step b (apply_first_delta d b).0
  next : (d : DepthDelta) (b : LocalOrderBook) → Step b (apply_delta d b).0

pub data Reach (s : OrderBookSnapshot) : LocalOrderBook → Type 0 where
  start : Reach s (from_snapshot s)
  more : {b c : LocalOrderBook} → Reach s b → Step b c → Reach s c

Step-IsConsistent : {b c : LocalOrderBook} → Step b c → IsConsistent b → IsConsistent c
Step-IsConsistent (first d b) h = apply_first_delta-IsConsistent d b h
Step-IsConsistent (next d b) h = apply_delta-IsConsistent d b h

Reach-IsConsistent : (s : OrderBookSnapshot) {b : LocalOrderBook} → Reach s b → IsConsistent b
Reach-IsConsistent s start = from_snapshot-IsConsistent s
Reach-IsConsistent s (more r st) = Step-IsConsistent st (Reach-IsConsistent s r)

-- Whatever calls of `apply_first_delta` and `apply_delta` follow a snapshot, with or without
-- exceptions, a book that is synchronized has bids and asks, and every bid lies below every ask.
pub Reach-IsTwoSided :
    (s : OrderBookSnapshot) {b : LocalOrderBook}
    → Reach s b
    → b.synchronized ≡ true
    → IsTwoSided (keys b.bids) (keys b.asks)
Reach-IsTwoSided s {b} r h = IsConsistent-IsTwoSided b (Reach-IsConsistent s r) h
