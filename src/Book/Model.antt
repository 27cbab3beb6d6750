-- ===== src/Book/Model.antt =====
-- `BookLevel`, `OrderBookSnapshot`, `DepthDelta` and `LocalOrderBook`. The book only compares prices
-- with one another and quantities with 0, so both are numbers on a common scale of the stream.
use xrp_inteliggence_x.Base.{
  ℕ, ◌+◌, Bool, true, false, not, ◌&&◌, Option, none, some, List, [], ◌∷◌, ltb, leb, ◌==◌,
  if◌then◌else◌, nat_order, Dict, keys, insert, pop, Str, Result, ok, raise, ◌>>=◌, ◌>>◌, raise_if,
  value_error, type_error, book_sequence_error, DateTime, naive, aware, utc,
}

pub record BookLevel : Type 0 where
  pub price : ℕ
  pub quantity : ℕ

-- `BookLevel(price, quantity)`
unfoldable pub book_level : ℕ → ℕ → Result BookLevel
book_level price quantity = do
  raise_if (price == 0) (value_error "price must be finite and positive")
  ok (record { price = price; quantity = quantity })

-- `a <= b` on times, which Python refuses between a naive and an aware one
unfoldable pub at_or_before : DateTime → DateTime → Result Bool
at_or_before (aware a) (aware b) = ok (leb a b)
at_or_before (naive a) (naive b) = ok (leb a b)
at_or_before (aware a) (naive b) = raise type_error
at_or_before (naive a) (aware b) = raise type_error

pub record OrderBookSnapshot : Type 0 where
  pub symbol : Str
  pub last_update_id : ℕ
  pub observed_at : DateTime
  pub fetched_at : DateTime
  pub bids : List BookLevel
  pub asks : List BookLevel

abbrev pub crossed_at_top : List BookLevel → List BookLevel → Bool
crossed_at_top (bid ∷ bids) (ask ∷ asks) = leb ask.price bid.price
crossed_at_top bids asks = false

abbrev pub lacks_side {ℓ} : {A : Type ℓ} → List A → List A → Bool
lacks_side (bid ∷ bids) (ask ∷ asks) = false
lacks_side bids asks = true

-- `OrderBookSnapshot.__post_init__`
unfoldable pub check_snapshot : OrderBookSnapshot → Result OrderBookSnapshot
check_snapshot s = do
  raise_if (lacks_side s.bids s.asks) (value_error "order book requires bids and asks")
  raise_if (crossed_at_top s.bids s.asks) (value_error "crossed or locked order book")
  in_order ← at_or_before s.observed_at s.fetched_at
  raise_if (not in_order) (value_error "observed_at cannot be later than fetched_at")
  ok s

pub record DepthDelta : Type 0 where
  pub first_update_id : ℕ
  pub final_update_id : ℕ
  pub observed_at : DateTime
  pub bids : List BookLevel
  pub asks : List BookLevel
  pub available_at : Option DateTime
  pub fetched_at : Option DateTime

-- The last tests of `DepthDelta.__post_init__`, on the two optional times.
unfoldable pub check_provenance : ℕ → Option DateTime → Option DateTime → Result (Unit {0})
check_provenance observed none none = ok tt
check_provenance observed none (some f) =
    raise (value_error "available_at and fetched_at must be provided together")
check_provenance observed (some a) none =
    raise (value_error "available_at and fetched_at must be provided together")
check_provenance observed (some a) (some f) = do
  available ← utc a "available_at"
  fetched ← utc f "fetched_at"
  raise_if (not (leb observed available && leb available fetched))
      (value_error "depth timestamps must satisfy observed <= available <= fetched")

-- `DepthDelta.__post_init__`
unfoldable pub check_delta : DepthDelta → Result DepthDelta
check_delta d = do
  raise_if (ltb d.final_update_id d.first_update_id)
      (value_error "first_update_id cannot exceed final_update_id")
  observed ← utc d.observed_at "observed_at"
  check_provenance observed d.available_at d.fetched_at
  ok d

abbrev pub Side : Type 0
Side = Dict ℕ ℕ

pub record LocalOrderBook : Type 0 where
  pub symbol : Str
  pub last_update_id : ℕ
  pub bids : Side
  pub asks : Side
  pub synchronized : Bool
  pub observed_at : Option DateTime
  pub available_at : Option DateTime
  pub fetched_at : Option DateTime

-- `{level.price: level.quantity for level in levels}`
unfoldable pub side_of : Side → List BookLevel → Side
side_of side [] = side
side_of side (l ∷ levels) = side_of (insert l.price l.quantity side) levels

unfoldable pub from_snapshot : OrderBookSnapshot → LocalOrderBook
from_snapshot s = record {
  symbol = s.symbol;
  last_update_id = s.last_update_id;
  bids = side_of [] s.bids;
  asks = side_of [] s.asks;
  synchronized = false;
  observed_at = some s.observed_at;
  available_at = none;
  fetched_at = some s.fetched_at;
}

-- The body of the loop of `_apply_side`.
unfoldable pub apply_level : BookLevel → Side → Side
apply_level l side = if l.quantity == 0 then pop l.price side else insert l.price l.quantity side

unfoldable pub apply_side : Side → List BookLevel → Side
apply_side side [] = side
apply_side side (l ∷ levels) = apply_side (apply_level l side) levels

-- `max` and `min` over the keys of a dict, from the first one on
unfoldable pub max_price : ℕ → List ℕ → ℕ
max_price best [] = best
max_price best (p ∷ ps) = max_price (if ltb best p then p else best) ps

unfoldable pub min_price : ℕ → List ℕ → ℕ
min_price best [] = best
min_price best (p ∷ ps) = min_price (if ltb p best then p else best) ps

-- `not bids or not asks or max(bids) >= min(asks)`
unfoldable pub is_invalid : List ℕ → List ℕ → Bool
is_invalid (bid ∷ bids) (ask ∷ asks) = leb (min_price ask asks) (max_price bid bids)
is_invalid bids asks = true

-- A method returns the book, which keeps what was written before a raise, and its outcome.
abbrev pub Outcome : Type 0 → Type 0
Outcome A = LocalOrderBook × Result A

unfoldable pub write_delta : DepthDelta → LocalOrderBook → LocalOrderBook
write_delta d b = record b {
  bids = apply_side b.bids d.bids;
  asks = apply_side b.asks d.asks;
  last_update_id = d.final_update_id;
  observed_at = some d.observed_at;
  available_at = d.available_at;
  fetched_at = d.fetched_at;
}

-- `_apply`
unfoldable pub apply : DepthDelta → LocalOrderBook → Outcome (Unit {0})
apply d b =
    let c = write_delta d b in
    if is_invalid (keys c.bids) (keys c.asks)
    then (
      record c { synchronized = false },
      raise (book_sequence_error "invalid local book after depth update"),
    )
    else (c, ok tt)

abbrev pub synchronize : Outcome (Unit {0}) → Outcome (Unit {0})
synchronize (b, ok u) = (record b { synchronized = true }, ok u)
synchronize (b, raise e) = (b, raise e)

unfoldable pub apply_first_delta : DepthDelta → LocalOrderBook → Outcome (Unit {0})
apply_first_delta d b =
    let target = b.last_update_id + 1 in
    if leb d.first_update_id target && leb target d.final_update_id
    then synchronize (apply d b)
    else (b, raise (book_sequence_error "first diff event does not bridge REST snapshot"))

unfoldable pub apply_delta : DepthDelta → LocalOrderBook → Outcome (Unit {0})
apply_delta d b =
    if not b.synchronized
    then (b, raise (book_sequence_error "book is not synchronized"))
    else (if leb d.final_update_id b.last_update_id
        then (b, ok tt)
        else (if ltb (b.last_update_id + 1) d.first_update_id
            then (
              record b { synchronized = false },
              raise (book_sequence_error "depth sequence gap; resnapshot required"),
            )
            else apply d b))

abbrev pub level_of : ℕ × ℕ → Result BookLevel
level_of (price, quantity) = book_level price quantity
