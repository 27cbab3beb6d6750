-- ===== src/Alerts/Registry.antt =====
-- `AlertRegistry`. The scores of a snapshot are in thousandths, and the clock's reading is an argument.
use xrp_inteliggence_x.Base.{
  ℕ, ◌+◌, Bool, false, not, ◌&&◌, Option, none, some, List, [], ◌∷◌, ◌++◌, ltb, leb, if◌then◌else◌,
  list_order, nat_order, Dict, lookup, insert, Str, str,
}

-- What the registry reads of a `RegimeSnapshot`, whose asset is not empty: `AlertEvent` refuses an empty
-- one.
pub record RegimeSnapshot : Type 0 where
  pub asset : Str
  pub horizon : Str
  pub output_blocked : Bool
  pub bull_score : ℕ
  pub directional_conviction : ℕ
  pub distribution_risk : ℕ

pub record AlertEvent : Type 0 where
  pub alert_id : Str
  pub created_at : ℕ
  pub severity : Str
  pub rule_id : Str
  pub asset : Str
  pub horizon : Str
  pub summary : Str
  pub dedupe_key : Str
  pub payload : RegimeSnapshot

pub record AlertRegistry : Type 0 where
  pub cooldown : ℕ
  pub last_sent : Dict Str ℕ

-- An entry of `rules`.
pub record Rule : Type 0 where
  pub rule_id : Str
  pub condition : Bool
  pub severity : Str
  pub summary : Str

unfoldable pub rules : RegimeSnapshot → List Rule
rules s =
    record {
      rule_id = str "regime_strong_bull";
      condition =
          not s.output_blocked && leb 72000 s.bull_score && leb 350 s.directional_conviction;
      severity = str "high";
      summary = str "XRP entered strong-bull regime";
    }
    ∷ record {
      rule_id = str "distribution_risk";
      condition = not s.output_blocked && leb 75000 s.distribution_risk;
      severity = str "high";
      summary = str "XRP distribution risk is elevated";
    }
    ∷ record {
      rule_id = str "data_degraded";
      condition = s.output_blocked;
      severity = str "critical";
      summary = str "XRP engine output is blocked by data-quality gates";
    }
    ∷ []

unfoldable pub dedupe_key : Rule → RegimeSnapshot → Str
dedupe_key r s = r.rule_id ++ str ":" ++ s.asset ++ str ":" ++ s.horizon

-- `last and now - last < self.cooldown`
unfoldable pub is_cooling : Option ℕ → ℕ → ℕ → Bool
is_cooling none cooldown now = false
is_cooling (some last) cooldown now = ltb now (last + cooldown)

pub record Evaluation : Type 0 where
  pub registry : AlertRegistry
  pub events : List AlertEvent

-- `alert_digest` makes an identifier of the key and the time.
module _ (alert_digest : Str → ℕ → Str) where
  unfoldable pub event : Rule → RegimeSnapshot → ℕ → AlertEvent
  event r s now = record {
    alert_id = alert_digest (dedupe_key r s) now;
    created_at = now;
    severity = r.severity;
    rule_id = r.rule_id;
    asset = s.asset;
    horizon = s.horizon;
    summary = r.summary;
    dedupe_key = dedupe_key r s;
    payload = s;
  }

  unfoldable pub send : AlertEvent → Evaluation → Evaluation
  send a e = record {
    registry = record e.registry {
      last_sent = insert a.dedupe_key a.created_at e.registry.last_sent;
    };
    events = e.events ++ a ∷ [];
  }

  -- The body of the loop.
  unfoldable pub apply_rule : RegimeSnapshot → ℕ → Rule → Evaluation → Evaluation
  apply_rule s now r e =
      if not r.condition
      then e
      else (if is_cooling (lookup (dedupe_key r s) e.registry.last_sent) e.registry.cooldown now
          then e
          else send (event r s now) e)

  unfoldable pub apply_rules : RegimeSnapshot → ℕ → List Rule → Evaluation → Evaluation
  apply_rules s now [] e = e
  apply_rules s now (r ∷ rs) e = apply_rules s now rs (apply_rule s now r e)

  unfoldable pub evaluate : RegimeSnapshot → ℕ → AlertRegistry → Evaluation
  evaluate s now registry =
      apply_rules s now (rules s) (record { registry = registry; events = [] })
