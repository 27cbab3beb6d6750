-- ===== src/Book/Sequence.antt =====
-- The sequence protocol of diff-depth streams: no update is lost while a book stays synchronized.
use xrp_inteliggence_x.Base.{
  ℕ, ◌+◌, ◌≤◌, ◌<◌, ◌≡◌, refl, true, false, List, [], ◌∷◌, Memᴰ, leb, ok, raise,
  book_sequence_error, arith, Bool-cases, inl, inr, ◌⊎◌, ◌↔◌, ◌≢◌, keys, ltb, Result, nat_order,
}
use xrp_inteliggence_x.Book.Consistency.{IsTwoSided, IsTwoSided-of_valid, is_invalid-of_IsTwoSided}
use xrp_inteliggence_x.Book.Model.{
  is_invalid, apply_side, OrderBookSnapshot, DepthDelta, LocalOrderBook, from_snapshot, write_delta,
  apply, apply_first_delta, apply_delta,
}

-- A client that goes on whatever is raised.
unfoldable pub follow : List DepthDelta → LocalOrderBook → LocalOrderBook
follow [] b = b
follow (d ∷ ds) b = follow ds (apply_delta d b).0

-- Every update after `start`, up to the book's last one, lies in one of the deltas.
abbrev pub Covers : ℕ → List DepthDelta → LocalOrderBook → Type 0
Covers start ds b =
    (n : ℕ)
    → start < n
    → n ≤ b.last_update_id
    → (d : DepthDelta) × Memᴰ d ds × (d.first_update_id ≤ n) × (n ≤ d.final_update_id)

-- What a call of `apply_delta` leaves: a stale delta changes nothing, an accepted one follows on.
record Accepted (d : DepthDelta) (b c : LocalOrderBook) : Type 0 where
  bridges : d.first_update_id ≤ b.last_update_id + 1
  advances : b.last_update_id < d.final_update_id
  moved : c.last_update_id ≡ d.final_update_id

apply-last :
    (d : DepthDelta) (b : LocalOrderBook) → (apply d b).0.last_update_id ≡ d.final_update_id
unfolding apply write_delta
apply-last d b = ground arith

apply_delta-synchronized :
    (d : DepthDelta) (b : LocalOrderBook)
    → (apply_delta d b).0.synchronized ≡ true
    → ((apply_delta d b).0 ≡ b) ⊎ Accepted d b (apply_delta d b).0
unfolding apply_delta
apply_delta-synchronized d b h = ground (arith, apply-last d b)

apply_delta-unsynchronized :
    (d : DepthDelta) (b : LocalOrderBook)
    → b.synchronized ≡ false
    → apply_delta d b ≡ (b, raise (book_sequence_error "book is not synchronized"))
unfolding apply_delta
apply_delta-unsynchronized d b h = rw h

follow-unsynchronized :
    (ds : List DepthDelta) (b : LocalOrderBook)
    → b.synchronized ≡ false
    → (follow ds b).synchronized ≡ false
unfolding follow
follow-unsynchronized [] b h = h
follow-unsynchronized (d ∷ ds) b h =
    follow-unsynchronized ds (apply_delta d b).0 (rw (apply_delta-unsynchronized d b h) h)

Covers-step :
    (start : ℕ) (all : List DepthDelta) (d : DepthDelta) (b : LocalOrderBook)
    → Memᴰ d all
    → Covers start all b
    → ((apply_delta d b).0 ≡ b) ⊎ Accepted d b (apply_delta d b).0
    → Covers start all (apply_delta d b).0
Covers-step start all d b m covers (inl same_book) = rw same_book covers
Covers-step start all d b m covers (inr a) = λ n lo hi. elim (Bool-cases (leb n b.last_update_id)) [
  | inl e ↦ covers n lo (ground arith)
  | inr e ↦ (d, m, ground (arith, a.bridges), ground (arith, a.moved))
]

Covers-rest :
    (start : ℕ) (all ds : List DepthDelta) (b : LocalOrderBook)
    → ((d : DepthDelta) → Memᴰ d ds → Memᴰ d all)
    → Covers start all b
    → (follow ds b).synchronized ≡ true
    → Covers start all (follow ds b)
unfolding follow
Covers-rest start all [] b inside covers h = covers
Covers-rest start all (d ∷ ds) b inside covers h =
    elim (Bool-cases (apply_delta d b).0.synchronized) [
      | inl e ↦
          Covers-rest start all ds (apply_delta d b).0 (λ x m. inside x (Memᴰ.tail m))
            (Covers-step start all d b (inside d (Memᴰ.head refl)) covers
              (apply_delta-synchronized d b e))
            h
      | inr e ↦ absurd (cc (follow-unsynchronized ds (apply_delta d b).0 e))
    ]

apply_first_delta-synchronized :
    (d : DepthDelta) (b : LocalOrderBook)
    → b.synchronized ≡ false
    → (apply_first_delta d b).0.synchronized ≡ true
    → (d.first_update_id ≤ b.last_update_id + 1)
      × ((apply_first_delta d b).0.last_update_id ≡ d.final_update_id)
unfolding apply_first_delta apply write_delta
apply_first_delta-synchronized d b un h = ground arith

all_covered :
    (s : OrderBookSnapshot) (d : DepthDelta) (ds : List DepthDelta)
    → (follow ds (apply_first_delta d (from_snapshot s)).0).synchronized ≡ true
    → Covers s.last_update_id (d ∷ ds) (follow ds (apply_first_delta d (from_snapshot s)).0)
unfolding from_snapshot
all_covered s d ds h =
    let b = (apply_first_delta d (from_snapshot s)).0 in
    elim (Bool-cases b.synchronized) [
      | inl e ↦
          let (bridges, moved) = apply_first_delta-synchronized d (from_snapshot s) refl e in
          Covers-rest s.last_update_id (d ∷ ds) ds b (λ x m. Memᴰ.tail m)
            (λ n lo hi. (d, Memᴰ.head refl, omega arith, omega arith)) h
      | inr e ↦ absurd (cc (follow-unsynchronized ds b e))
    ]

-- No gap: after a snapshot, its first delta and any further deltas, whatever some of them raised, if
-- the book is still synchronized then every update `n` after the snapshot's last one, up to the
-- book's last one, lay within one of the deltas.
pub follow-covers :
    (s : OrderBookSnapshot) (d : DepthDelta) (ds : List DepthDelta) (n : ℕ)
    → (follow ds (apply_first_delta d (from_snapshot s)).0).synchronized ≡ true
    → s.last_update_id < n
    → n ≤ (follow ds (apply_first_delta d (from_snapshot s)).0).last_update_id
    → (x : DepthDelta) × Memᴰ x (d ∷ ds) × (x.first_update_id ≤ n) × (n ≤ x.final_update_id)
follow-covers s d ds n h lo hi = all_covered s d ds h n lo hi

-- The last update identifier never goes back.
pub apply_delta-last_mono :
    (d : DepthDelta) (b : LocalOrderBook) → b.last_update_id ≤ (apply_delta d b).0.last_update_id
unfolding apply_delta
apply_delta-last_mono d b = ground (arith, apply-last d b)

-- A delta that a book takes: a stale one, or one that leaves no gap, after which both sides are
-- there and not crossed.
abbrev pub IsTaken : DepthDelta → LocalOrderBook → Type 0
IsTaken d b =
    (d.final_update_id ≤ b.last_update_id)
    ⊎ ((d.first_update_id ≤ b.last_update_id + 1)
        × IsTwoSided (keys (apply_side b.bids d.bids)) (keys (apply_side b.asks d.asks)))

-- What a call leaves when the delta is taken, and when it is not.
abbrev Answers : Type 0 → LocalOrderBook × Result (Unit {0}) → Type 0
Answers Taken (c, r) =
    ((r ≡ ok tt) × (c.synchronized ≡ true) × Taken)
    ⊎ ((r ≢ ok tt) × (c.synchronized ≡ false) × (Taken → ⊥))

untaken :
    (d : DepthDelta) (b : LocalOrderBook)
    → leb d.final_update_id b.last_update_id ≡ false
    → ((d.first_update_id ≤ b.last_update_id + 1)
        → IsTwoSided (keys (apply_side b.bids d.bids)) (keys (apply_side b.asks d.asks))
        → ⊥)
    → IsTaken d b
    → ⊥
untaken d b fresh refuse (inl stale) = ground arith
untaken d b fresh refuse (inr (bridges, two)) = refuse bridges two

apply_delta-Answers :
    (d : DepthDelta) (b : LocalOrderBook)
    → b.synchronized ≡ true
    → Answers (IsTaken d b) (apply_delta d b)
unfolding apply_delta apply write_delta
apply_delta-Answers d b synced =
    let bids = keys (apply_side b.bids d.bids) in
    let asks = keys (apply_side b.asks d.asks) in
    elim (Bool-cases (leb d.final_update_id b.last_update_id)) [
      | inl stale ↦ rw (synced, stale) (inl (refl, refl, inl (ground arith)))
      | inr fresh ↦ elim (Bool-cases (ltb (b.last_update_id + 1) d.first_update_id)) [
        | inl gap ↦
            rw (synced, fresh, gap)
              (inr (λ e. cc, refl, λ taken. untaken d b fresh (λ first two. ground arith) taken))
        | inr bridges ↦ elim (Bool-cases (is_invalid bids asks)) [
          | inl invalid ↦
              rw (synced, fresh, bridges, invalid)
                (inr (
                  λ e. cc,
                  refl,
                  λ taken.
                      untaken d b fresh (λ first two. cc (is_invalid-of_IsTwoSided bids asks two))
                        taken,
                ))
          | inr valid ↦
              rw (synced, fresh, bridges, valid)
                (inl (refl, refl, inr (ground arith, IsTwoSided-of_valid bids asks valid)))
        ]
      ]
    ]

-- A call of `apply_delta` on a synchronized book returns exactly if the delta is taken, that is, if
-- it is stale, or if it leaves no gap after the book's last update and both sides of the book are
-- then there and not crossed. The book stays synchronized in exactly those cases.
pub apply_delta-ok_iff :
    (d : DepthDelta) (b : LocalOrderBook)
    → b.synchronized ≡ true
    → (((apply_delta d b).1 ≡ ok tt) ↔ IsTaken d b)
      × (((apply_delta d b).0.synchronized ≡ true) ↔ IsTaken d b)
apply_delta-ok_iff d b synced = split (apply_delta d b) (apply_delta-Answers d b synced)
  where
    split :
        (o : LocalOrderBook × Result (Unit {0}))
        → Answers (IsTaken d b) o
        → ((o.1 ≡ ok tt) ↔ IsTaken d b) × ((o.0.synchronized ≡ true) ↔ IsTaken d b)
    split (c, r) (inl (returned, kept, taken)) =
        ((λ e. taken, λ t. returned), (λ e. taken, λ t. kept))
    split (c, r) (inr (raised, lost, never)) =
        ((λ e. absurd (raised e), λ t. absurd (never t)), (λ e. cc, λ t. absurd (never t)))
