-- ===== src/Alerts/Cooldown.antt =====
-- Two alerts of one key lie at least the cooldown apart.
use xrp_inteliggence_x.Base.{
  ℕ, ◌+◌, ◌≤◌, ◌≡◌, refl, ◌∙◌, sym, ap, subst, Bool, true, false, not, some, List, [], ◌∷◌, ◌++◌,
  All, All-map, All-append, if◌then◌else◌, same, same_eq, same_refl, list_order, nat_order,
  Bool-cases, inl, inr, lookup, insert, lookup-insert, arith, Str,
}
use mathlib.Core.List.{append_assoc, append-nil}
use xrp_inteliggence_x.Alerts.Registry.{
  RegimeSnapshot, AlertEvent, AlertRegistry, Rule, rules, dedupe_key, is_cooling, Evaluation, event,
  send, apply_rule, apply_rules, evaluate,
}

abbrev pub IsBeforeIf : Bool → ℕ → ℕ → Type 0
IsBeforeIf true s t = s ≤ t
IsBeforeIf false s t = Unit

-- If two alerts have one key, the second is created the cooldown after the first, or later.
abbrev pub AreApart : ℕ → AlertEvent → AlertEvent → Type 0
AreApart cooldown a b =
    IsBeforeIf (same a.dedupe_key b.dedupe_key) (a.created_at + cooldown) b.created_at

abbrev pub AreSpaced : ℕ → List AlertEvent → Type 0
AreSpaced cooldown [] = Unit
AreSpaced cooldown (a ∷ later) = All (AreApart cooldown a) later × AreSpaced cooldown later

AreSpaced-snoc :
    (cooldown : ℕ) (earlier : List AlertEvent) (b : AlertEvent)
    → AreSpaced cooldown earlier
    → All (λ a. AreApart cooldown a b) earlier
    → AreSpaced cooldown (earlier ++ b ∷ [])
AreSpaced-snoc cooldown [] b h k = (tt, tt)
AreSpaced-snoc cooldown (a ∷ earlier) b h k = (
  All-append (AreApart cooldown a) earlier (b ∷ []) h.0 (k.0, tt),
  AreSpaced-snoc cooldown earlier b h.1 k.1,
)

-- The registry knows a time for the key of an alert, no earlier than the alert.
abbrev IsSeen : AlertRegistry → AlertEvent → Type 0
IsSeen r a = (last : ℕ) × (lookup a.dedupe_key r.last_sent ≡ some last) × (a.created_at ≤ last)

record Keeps (cooldown : ℕ) (r : AlertRegistry) (sent : List AlertEvent) : Type 0 where
  spaced : AreSpaced cooldown sent
  seen : All (IsSeen r) sent
  configured : r.cooldown ≡ cooldown

module _ (alert_digest : Str → ℕ → Str) where
  apart :
      (r : AlertRegistry) (a b : AlertEvent)
      → IsSeen r a
      → is_cooling (lookup b.dedupe_key r.last_sent) r.cooldown b.created_at ≡ false
      → AreApart r.cooldown a b
  unfolding is_cooling
  apart r a b (last, found, le) free = go (same a.dedupe_key b.dedupe_key) refl
    where
      go :
          (c : Bool)
          → same a.dedupe_key b.dedupe_key ≡ c
          → IsBeforeIf c (a.created_at + r.cooldown) b.created_at
      go false e = tt
      go true e =
          let key = same_eq a.dedupe_key b.dedupe_key e in
          let there : lookup b.dedupe_key r.last_sent ≡ some last =
            ap (λ k. lookup k r.last_sent) (sym key) ∙ found in
          ground arith

  IsSeen-after :
      (r : AlertRegistry) (a b : AlertEvent)
      → IsSeen r a
      → is_cooling (lookup b.dedupe_key r.last_sent) r.cooldown b.created_at ≡ false
      → IsSeen (record r { last_sent = insert b.dedupe_key b.created_at r.last_sent }) a
  unfolding is_cooling
  IsSeen-after r a b (last, found, le) free = elim (Bool-cases (same a.dedupe_key b.dedupe_key)) [
    | inl e ↦
        let key = same_eq a.dedupe_key b.dedupe_key e in
        let there : lookup b.dedupe_key r.last_sent ≡ some last =
          ap (λ k. lookup k r.last_sent) (sym key) ∙ found in
        (
          b.created_at,
          ground (arith, lookup-insert b.dedupe_key a.dedupe_key b.created_at r.last_sent),
          ground arith,
        )
    | inr e ↦
        (last, ground (arith, lookup-insert b.dedupe_key a.dedupe_key b.created_at r.last_sent), le)
  ]

  send-Keeps :
      (cooldown : ℕ) (e : Evaluation) (sent : List AlertEvent) (b : AlertEvent)
      → Keeps cooldown e.registry (sent ++ e.events)
      → is_cooling (lookup b.dedupe_key e.registry.last_sent) e.registry.cooldown b.created_at
        ≡ false
      → Keeps cooldown (send alert_digest b e).registry (sent ++ (send alert_digest b e).events)
  unfolding send
  send-Keeps cooldown e sent b k free =
      let all_before = sent ++ e.events in
      let after = record e.registry {
        last_sent = insert b.dedupe_key b.created_at e.registry.last_sent;
      } in
      let self : IsSeen after b = (
        b.created_at,
        ground (
          arith,
          lookup-insert b.dedupe_key b.dedupe_key b.created_at e.registry.last_sent,
          same_refl b.dedupe_key,
        ),
        omega arith,
      ) in
      subst (λ l. Keeps cooldown after l) (append_assoc sent e.events (b ∷ []))
        (record {
          spaced = AreSpaced-snoc cooldown all_before b k.spaced (
              All-map _ _ all_before
                (λ a seen.
                  subst (λ c. AreApart c a b) k.configured (apart e.registry a b seen free))
                k.seen);
          seen =
              All-append (IsSeen after) all_before (b ∷ [])
                (All-map _ _ all_before (λ a seen. IsSeen-after e.registry a b seen free) k.seen)
                (self, tt);
          configured = k.configured;
        })

  apply_rule-Keeps :
      (cooldown : ℕ) (s : RegimeSnapshot) (now : ℕ) (r : Rule) (e : Evaluation)
      (sent : List AlertEvent)
      → Keeps cooldown e.registry (sent ++ e.events)
      → Keeps cooldown
          (apply_rule alert_digest s now r e).registry
          (sent ++ (apply_rule alert_digest s now r e).events)
  unfolding apply_rule event
  apply_rule-Keeps cooldown s now r e sent k =
      go (not r.condition)
        (is_cooling (lookup (dedupe_key r s) e.registry.last_sent) e.registry.cooldown now) refl
    where
      go :
          (off cooling : Bool)
          → is_cooling (lookup (dedupe_key r s) e.registry.last_sent) e.registry.cooldown now
            ≡ cooling
          → Keeps cooldown
              (if off
                then e
                else (if cooling
                    then e
                    else send alert_digest (event alert_digest r s now) e)).registry
              (sent
                ++ (if off
                    then e
                    else (if cooling
                        then e
                        else send alert_digest (event alert_digest r s now) e)).events)
      go true cooling h = k
      go false true h = k
      go false false h = send-Keeps cooldown e sent (event alert_digest r s now) k h

  apply_rules-Keeps :
      (cooldown : ℕ) (s : RegimeSnapshot) (now : ℕ) (rs : List Rule) (e : Evaluation)
      (sent : List AlertEvent)
      → Keeps cooldown e.registry (sent ++ e.events)
      → Keeps cooldown
          (apply_rules alert_digest s now rs e).registry
          (sent ++ (apply_rules alert_digest s now rs e).events)
  unfolding apply_rules
  apply_rules-Keeps cooldown s now [] e sent k = k
  apply_rules-Keeps cooldown s now (r ∷ rs) e sent k =
      apply_rules-Keeps cooldown s now rs (apply_rule alert_digest s now r e) sent
        (apply_rule-Keeps cooldown s now r e sent k)

  evaluate-Keeps :
      (cooldown : ℕ) (s : RegimeSnapshot) (now : ℕ) (r : AlertRegistry) (sent : List AlertEvent)
      → Keeps cooldown r sent
      → Keeps cooldown
          (evaluate alert_digest s now r).registry
          (sent ++ (evaluate alert_digest s now r).events)
  unfolding evaluate
  evaluate-Keeps cooldown s now r sent k =
      apply_rules-Keeps cooldown s now (rules s) (record { registry = r; events = [] }) sent
        (subst (λ l. Keeps cooldown r l) (sym (append-nil sent)) k)

  -- All alerts of successive calls of `evaluate`, each with a snapshot and the clock's reading.
  unfoldable pub run : List (RegimeSnapshot × ℕ) → AlertRegistry → List AlertEvent
  run [] r = []
  run ((s, now) ∷ calls) r =
      let e = evaluate alert_digest s now r in e.events ++ run calls e.registry

  run-Keeps :
      (cooldown : ℕ) (calls : List (RegimeSnapshot × ℕ)) (r : AlertRegistry)
      (sent : List AlertEvent)
      → Keeps cooldown r sent
      → AreSpaced cooldown (sent ++ run calls r)
  unfolding run
  run-Keeps cooldown [] r sent k = subst (AreSpaced cooldown) (sym (append-nil sent)) k.spaced
  run-Keeps cooldown ((s, now) ∷ calls) r sent k =
      let e = evaluate alert_digest s now r in
      subst (AreSpaced cooldown) (append_assoc sent e.events (run calls e.registry)) (
        run-Keeps cooldown calls e.registry (sent ++ e.events)
          (evaluate-Keeps cooldown s now r sent k))

  -- Whatever snapshots a new registry evaluates, and whatever the clock reads, of two alerts with one
  -- key the later one is created at least the cooldown after the earlier one.
  pub run-AreSpaced :
      (cooldown : ℕ) (calls : List (RegimeSnapshot × ℕ))
      → AreSpaced cooldown (run calls (record { cooldown = cooldown; last_sent = [] }))
  run-AreSpaced cooldown calls =
      run-Keeps cooldown calls (record { cooldown = cooldown; last_sent = [] }) []
        (record { spaced = tt; seen = tt; configured = refl })
