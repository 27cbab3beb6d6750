-- ===== src/Book/Tests.antt =====
-- A short session of the local book, and the theorems at its states.
use xrp_inteliggence_x.Base.{
  ℕ, ◌≤◌, ◌<◌, ◌≡◌, refl, ◌↔◌, true, false, none, some, List, [], ◌∷◌, Memᴰ, keys, lookup, insert,
  pop, str, sort_by, lex_at_most, collect, ok, raise, book_sequence_error, aware, utc, arith,
  nat_order, value_error,
}
use xrp_inteliggence_x.Book.Model.{
  BookLevel, OrderBookSnapshot, DepthDelta, LocalOrderBook, from_snapshot, side_of, apply_level,
  apply_side, max_price, min_price, is_invalid, write_delta, apply, apply_first_delta, apply_delta,
  book_level, check_delta, check_provenance, at_or_before, check_snapshot,
}
use xrp_inteliggence_x.Book.Levels.{lookup-apply_side}
use xrp_inteliggence_x.Book.Consistency.{
  IsTwoSided, IsConsistent, first, next, Reach, start, more, Reach-IsTwoSided,
}
use xrp_inteliggence_x.Book.Sequence.{follow, follow-covers, IsTaken, apply_delta-ok_iff}
use xrp_inteliggence_x.Book.Top.{best_first, top, AreBest, top-AreBest, top-total}

program : Unit {0}
unfolding from_snapshot side_of apply_level apply_side max_price min_price is_invalid write_delta
    apply apply_first_delta apply_delta book_level follow best_first top lookup insert pop sort_by
    lex_at_most collect check_delta check_provenance at_or_before check_snapshot utc
program = tt

abbrev level : ℕ → ℕ → BookLevel
level price quantity = record { price = price; quantity = quantity }

abbrev snapshot : OrderBookSnapshot
snapshot = record {
  symbol = str "XRPUSDT";
  last_update_id = 100;
  observed_at = aware 10;
  fetched_at = aware 11;
  bids = level 50 3 ∷ level 49 1 ∷ [];
  asks = level 52 2 ∷ [];
}

abbrev bridging : DepthDelta
bridging = record {
  first_update_id = 99;
  final_update_id = 103;
  observed_at = aware 12;
  bids = level 49 0 ∷ level 51 4 ∷ [];
  asks = [];
  available_at = none;
  fetched_at = none;
}

abbrev following : DepthDelta
following = record bridging {
  first_update_id = 104;
  final_update_id = 105;
  bids = [];
  asks = level 53 7 ∷ [];
}

abbrev late : DepthDelta
late = record bridging { first_update_id = 107; final_update_id = 108 }

abbrev synced : LocalOrderBook
synced = record {
  symbol = str "XRPUSDT";
  last_update_id = 105;
  bids = (50, 3) ∷ (51, 4) ∷ [];
  asks = (52, 2) ∷ (53, 7) ∷ [];
  synchronized = true;
  observed_at = some (aware 12);
  available_at = none;
  fetched_at = none;
}

session : follow (following ∷ []) (apply_first_delta bridging (from_snapshot snapshot)).0 ≡ synced
unfolding program
session = refl

deltas_accepted : (check_delta bridging ≡ ok bridging) × (check_snapshot snapshot ≡ ok snapshot)
unfolding program
deltas_accepted = (refl, refl)

gap : apply_delta late synced ≡ (
  record synced { synchronized = false },
  raise (book_sequence_error "depth sequence gap; resnapshot required"),
)
unfolding program
gap = refl

best : top 1 synced ≡ ok (level 51 4 ∷ [], level 52 2 ∷ [])
unfolding program
best = refl

no_levels : top 0 synced ≡ raise (value_error "levels must be positive")
unfolding program
no_levels = refl

lookup-apply_side_example : lookup 49 (apply_side ((50, 3) ∷ (49, 1) ∷ []) bridging.bids) ≡ none
unfolding program
lookup-apply_side_example =
    lookup-apply_side 49 ((50, 3) ∷ (49, 1) ∷ []) bridging.bids (refl, (refl, tt))

reached :
    Reach snapshot (apply_delta following (apply_first_delta bridging (from_snapshot snapshot)).0).0
reached = more (more start (first bridging _)) (next following _)

Reach-IsTwoSided_example :
    IsTwoSided
      (keys (apply_delta following (apply_first_delta bridging (from_snapshot snapshot)).0).0.bids)
      (keys (apply_delta following (apply_first_delta bridging (from_snapshot snapshot)).0).0.asks)
unfolding program
Reach-IsTwoSided_example = Reach-IsTwoSided snapshot reached refl

follow-covers_example :
    (d : DepthDelta) × Memᴰ d (bridging ∷ following ∷ [])
    × (d.first_update_id ≤ 104)
    × (104 ≤ d.final_update_id)
unfolding program
follow-covers_example =
    follow-covers snapshot bridging (following ∷ []) 104 refl (omega arith) (omega arith)

apply_delta-ok_iff_example :
    (((apply_delta late synced).1 ≡ ok tt) ↔ IsTaken late synced)
    × (((apply_delta late synced).0.synchronized ≡ true) ↔ IsTaken late synced)
apply_delta-ok_iff_example = apply_delta-ok_iff late synced refl

synced-IsConsistent : IsConsistent synced
unfolding program
synced-IsConsistent = record {
  distinct_bids = (refl, (refl, tt));
  distinct_asks = (refl, (refl, tt));
  valid = λ h. refl;
}

top-AreBest_example :
    AreBest true 1 synced.bids ((51, 4) ∷ [])
    × AreBest false 1 synced.asks ((52, 2) ∷ [])
    × ((bid ask : ℕ × ℕ) → Memᴰ bid ((51, 4) ∷ []) → Memᴰ ask ((52, 2) ∷ []) → bid.0 < ask.0)
top-AreBest_example = top-AreBest 1 synced synced-IsConsistent best

top-total_example : (sides : List BookLevel × List BookLevel) × (top 1 synced ≡ ok sides)
top-total_example = top-total 1 synced refl (omega arith) (omega arith) (omega arith)
