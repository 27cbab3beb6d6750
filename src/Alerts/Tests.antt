-- ===== src/Alerts/Tests.antt =====
-- Three evaluations of one snapshot, with a cooldown of ten.
use xrp_inteliggence_x.Base.{
  ℕ, ◌≡◌, refl, false, List, [], ◌∷◌, map, lookup, insert, lex_at_most, list_order, nat_order, Str,
  str,
}
use xrp_inteliggence_x.Alerts.Registry.{
  RegimeSnapshot, rules, dedupe_key, is_cooling, event, send, apply_rule, apply_rules, evaluate,
}
use xrp_inteliggence_x.Alerts.Cooldown.{AreSpaced, run, run-AreSpaced}

program : Unit {0}
unfolding rules dedupe_key is_cooling event send apply_rule apply_rules evaluate run lookup insert
    lex_at_most
program = tt

abbrev bull : RegimeSnapshot
bull = record {
  asset = str "XRP";
  horizon = str "1d";
  output_blocked = false;
  bull_score = 72000;
  directional_conviction = 350;
  distribution_risk = 80000;
}

abbrev bearish : RegimeSnapshot
bearish = record bull { directional_conviction = 349 }

abbrev digest : Str → ℕ → Str
digest key now = now ∷ key

abbrev calls : List (RegimeSnapshot × ℕ)
calls = (bearish, 100) ∷ (bull, 105) ∷ (bull, 110) ∷ []

alerts :
    map {B = ℕ × Str}
      (λ a. (a.created_at, a.rule_id))
      (run digest calls (record { cooldown = 10; last_sent = [] }))
    ≡ (100, str "distribution_risk")
      ∷ (105, str "regime_strong_bull")
      ∷ (110, str "distribution_risk")
      ∷ []
unfolding program
alerts = refl

run-AreSpaced_example : AreSpaced 10 (run digest calls (record { cooldown = 10; last_sent = [] }))
run-AreSpaced_example = run-AreSpaced digest 10 calls
