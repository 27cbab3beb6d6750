-- ===== src/WalkForward/Config.antt =====
-- What the configuration's checks establish.
use xrp_inteliggence_x.Base.{
  ℕ, ◌≤◌, ◌<◌, ◌≡◌, refl, false, Option, none, some, ok, ℤ, pos, ltb_ℤ, pos_part, arith,
}
use xrp_inteliggence_x.WalkForward.Rows.{
  WalkForwardMode, RawWalkForwardConfig, WalkForwardConfig, or_else, optional_part, check_mode,
  walk_forward_config, effective_step_size,
}

-- A limit on the training rows is set in rolling mode only, and is no smaller than their minimum.
abbrev pub LimitIsValid : WalkForwardMode → Option ℕ → ℕ → Type 0
LimitIsValid WalkForwardMode.expanding limit least = limit ≡ none
LimitIsValid WalkForwardMode.rolling none least = ⊥
LimitIsValid WalkForwardMode.rolling (some limit) least = least ≤ limit

pub record IsValid (c : WalkForwardConfig) : Type 0 where
  pub trains : 0 < c.min_train_size
  pub tests : 0 < c.test_size
  pub apart : c.test_size ≤ effective_step_size c
  pub limited : LimitIsValid c.mode c.max_train_size c.min_train_size

step-apart :
    (step : Option ℤ) (test : ℤ)
    → ltb_ℤ test (pos 1) ≡ false
    → ltb_ℤ (or_else step test) test ≡ false
    → pos_part test ≤ or_else (optional_part step) (pos_part test)
step-apart none test h k = omega arith
step-apart (some step) test h k = ground arith

limit-valid :
    (mode : WalkForwardMode) (limit : Option ℤ) (least : ℤ)
    → ltb_ℤ least (pos 1) ≡ false
    → check_mode mode least limit ≡ ok tt
    → LimitIsValid mode (optional_part limit) (pos_part least)
unfolding check_mode
limit-valid WalkForwardMode.expanding none least h k = refl
limit-valid WalkForwardMode.expanding (some limit) least h k = cc
limit-valid WalkForwardMode.rolling none least h k = cc
limit-valid WalkForwardMode.rolling (some limit) least h k = ground arith

-- A configuration that is accepted trains and tests on at least one row, advances by at least the
-- size of a test, and limits the training rows in rolling mode only, to no fewer than their minimum.
pub walk_forward_config-IsValid :
    (raw : RawWalkForwardConfig) {c : WalkForwardConfig}
    → walk_forward_config raw ≡ ok c
    → IsValid c
unfolding walk_forward_config
walk_forward_config-IsValid raw {c} h = record {
  trains = ground arith;
  tests = ground arith;
  apart = ground (arith, step-apart raw.step_size raw.test_size);
  limited =
      let mode : c.mode ≡ raw.mode = ground arith in
      let limit : c.max_train_size ≡ optional_part raw.max_train_size = ground arith in
      let least : c.min_train_size ≡ pos_part raw.min_train_size = ground arith in
      rw (mode, limit, least)
        (limit-valid raw.mode raw.max_train_size raw.min_train_size (ground arith) (ground arith));
}
