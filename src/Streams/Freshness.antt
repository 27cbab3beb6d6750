-- ===== src/Streams/Freshness.antt =====
-- When `_check_stream` lets a stream pass.
use xrp_inteliggence_x.Base.{
  ℕ, ◌+◌, ◌≤◌, ◌≡◌, ◌↔◌, refl, ◌∙◌, sym, Bool, true, false, ◌||◌, Option, none, some, List, ◌++◌,
  ok, >>=-eq-ok, Str, str, String, DateTime, naive, aware, utc, ltb, arith, ltb_ℤ, pos,
}
use xrp_inteliggence_x.Streams.Model.{
  Stream, Marks, mark_if, is_future, check_provenance, since, Checked, check_present, check_stream,
}
use xrp_inteliggence_x.Streams.Marking.{
  IsTimely, IsTimelyIfGiven, is_nil-snoc, mark_if-blocked, Agrees, mark_if-Agrees, late-since,
  check_provenance-Agrees,
}

-- The checks after the provenance.
abbrev later_marks : Str → ℕ → ℕ → ℕ → Bool → Bool → Marks → Marks
later_marks name now observed max_age a f m =
    mark_if (ltb_ℤ (pos max_age) (since now observed)) (name ++ str "_STALE") (
      mark_if f (name ++ str "_FUTURE_KNOWLEDGE") (
        mark_if a (name ++ str "_FUTURE_KNOWLEDGE")
          (mark_if (ltb now observed) (name ++ str "_FUTURE_KNOWLEDGE") m)))

record Parts (name : Str) (s : Stream) (now max_age : ℕ) (flags : List Str) (c : Checked)
    : Type 0 where
  observed : ℕ
  m : Marks
  a : Bool
  f : Bool
  observed_at : s.observed_at ≡ aware observed
  proven :
      check_provenance name observed s.available_at s.fetched_at s.provenance_complete
        (record { flags = flags; blocked = false })
      ≡ ok m
  available_later : is_future s.available_at now ≡ ok a
  fetched_later : is_future s.fetched_at now ≡ ok f
  flagged : c.flags ≡ (later_marks name now observed max_age a f m).flags
  blocked_by : c.blocked ≡ (later_marks name now observed max_age a f m).blocked

utc-eq-ok : (d : DateTime) (field : String) {t : ℕ} → utc d field ≡ ok t → d ≡ aware t
unfolding utc
utc-eq-ok (naive u) field h = cc
utc-eq-ok (aware u) field h = ground arith

check_present-Parts :
    (name : Str) (s : Stream) (now max_age : ℕ) (flags : List Str) {c : Checked}
    → check_present name s now max_age flags ≡ ok c
    → Parts name s now max_age flags c
unfolding check_present
check_present-Parts name s now max_age flags {c} h =
    let (observed, e1, h1) = >>=-eq-ok (utc s.observed_at "observed_at") _ h in
    let (m, e2, h2) =
      >>=-eq-ok
        (check_provenance name observed s.available_at s.fetched_at s.provenance_complete
          (record { flags = flags; blocked = false }))
        _ h1 in
    let (a, e3, h3) = >>=-eq-ok (is_future s.available_at now) _ h2 in
    let (f, e4, h4) = >>=-eq-ok (is_future s.fetched_at now) _ h3 in
    record {
      observed = observed;
      m = m;
      a = a;
      f = f;
      observed_at = utc-eq-ok s.observed_at "observed_at" e1;
      proven = e2;
      available_later = e3;
      fetched_later = e4;
      flagged = ground arith;
      blocked_by = ground arith;
    }

pub check_present-Agrees :
    (name : Str) (s : Stream) (now max_age : ℕ) (flags : List Str) {c : Checked}
    → check_present name s now max_age flags ≡ ok c
    → Agrees flags c.flags c.blocked
check_present-Agrees name s now max_age flags h =
    let p = check_present-Parts name s now max_age flags h in
    rw (p.flagged, p.blocked_by)
      (mark_if-Agrees flags _ _ _ (
        mark_if-Agrees flags _ _ _ (
          mark_if-Agrees flags _ _ _ (
            mark_if-Agrees flags _ _ p.m (
              check_provenance-Agrees flags name p.observed s.available_at s.fetched_at
                s.provenance_complete (record { flags = flags; blocked = false }) (ground arith)
                p.proven)))))

-- Complete and ordered provenance.
abbrev IsProven : ℕ → Option DateTime → Option DateTime → Bool → Type 0
IsProven o a f complete =
    (t : ℕ) × (u : ℕ) × (a ≡ some (aware t))
    × (f ≡ some (aware u))
    × (complete ≡ true)
    × (o ≤ t)
    × (t ≤ u)

check_provenance-IsProven :
    (name : Str) (o : ℕ) (a f : Option DateTime) (complete : Bool) (flags : List Str) {n : Marks}
    → check_provenance name o a f complete (record { flags = flags; blocked = false }) ≡ ok n
    → (n.blocked ≡ false) ↔ IsProven o a f complete
unfolding check_provenance utc mark_if
check_provenance-IsProven name o (some (naive t)) (some f) true flags e = cc
check_provenance-IsProven name o (some (aware t)) (some (naive u)) true flags e = cc
check_provenance-IsProven name o (some (aware t)) (some (aware u)) true flags e = (
  λ free. (t, u, refl, refl, refl, ground arith, ground arith),
  λ (v, w, p, q, c, x, y). ground arith,
)
check_provenance-IsProven name o (some a) (some f) false flags e =
    (λ free. ground arith, λ (v, w, p, q, c, x, y). cc)
check_provenance-IsProven name o (some a) none complete flags e =
    (λ free. ground arith, λ (v, w, p, q, c, x, y). cc)
check_provenance-IsProven name o none f complete flags e =
    (λ free. ground arith, λ (v, w, p, q, c, x, y). cc)

is_future-aware :
    (d : Option DateTime) (t now : ℕ) {b : Bool}
    → d ≡ some (aware t)
    → is_future d now ≡ ok b
    → b ≡ ltb now t
unfolding is_future
is_future-aware none t now p h = cc
is_future-aware (some (naive u)) t now p h = cc
is_future-aware (some (aware u)) t now p h = ground arith

-- A stream with data passes if and only if it is timely.
pub check_present-IsTimely :
    (name : Str) (s : Stream) (now max_age : ℕ) (flags : List Str) {c : Checked}
    → check_present name s now max_age flags ≡ ok c
    → (c.blocked ≡ false) ↔ IsTimely s now max_age
check_present-IsTimely name s now max_age flags {c} h =
    let p = check_present-Parts name s now max_age flags h in
    let iff =
      check_provenance-IsProven name p.observed s.available_at s.fetched_at s.provenance_complete
        flags p.proven in
    let all_of : c.blocked ≡ (
        ltb (p.observed + max_age) now || (p.f || (p.a || (ltb now p.observed || p.m.blocked)))) =
      p.blocked_by ∙ blocked_of p.observed p.a p.f p.m in
    (
      λ free.
          let (t, u, at, fe, complete, x, y) = iff.0 (ground arith) in
          let later = is_future-aware s.fetched_at u now fe p.fetched_later in
          record {
            observed = p.observed;
            available = t;
            fetched = u;
            observed_at = p.observed_at;
            available_at = at;
            fetched_at = fe;
            complete = complete;
            available_after = x;
            fetched_after = y;
            known = ground arith;
            fresh = ground arith;
          },
      λ i.
          let same_o : i.observed ≡ p.observed =
            aware_injective (sym i.observed_at ∙ p.observed_at) in
          let proven = iff.1 (
            i.available,
            i.fetched,
            i.available_at,
            i.fetched_at,
            i.complete,
            (let x = i.available_after in omega arith),
            i.fetched_after,
          ) in
          let later_f = is_future-aware s.fetched_at i.fetched now i.fetched_at p.fetched_later in
          let later_a =
            is_future-aware s.available_at i.available now i.available_at p.available_later in
          let k = i.known in
          let r = i.fresh in let x = i.available_after in let y = i.fetched_after in ground arith,
    )
  where
    blocked_of :
        (o : ℕ) (a f : Bool) (m : Marks)
        → (later_marks name now o max_age a f m).blocked
          ≡ (ltb (o + max_age) now || (f || (a || (ltb now o || m.blocked))))
    blocked_of o a f m =
        rw (mark_if-blocked, mark_if-blocked, mark_if-blocked, mark_if-blocked, late-since) refl

    aware_injective : {t u : ℕ} → aware t ≡ aware u → t ≡ u
    aware_injective e = ground arith

pub check_stream-IsTimely :
    (name : Str) (s : Option Stream) (now max_age : ℕ) (flags : List Str) {c : Checked}
    → check_stream name s now max_age flags ≡ ok c
    → (c.blocked ≡ false) ↔ IsTimelyIfGiven s now max_age
unfolding check_stream
check_stream-IsTimely name none now max_age flags h = (λ free. cc, λ i. elim i [ ])
check_stream-IsTimely name (some s) now max_age flags h =
    check_present-IsTimely name s now max_age flags h

pub check_stream-Agrees :
    (name : Str) (s : Option Stream) (now max_age : ℕ) (flags : List Str) {c : Checked}
    → check_stream name s now max_age flags ≡ ok c
    → Agrees flags c.flags c.blocked
unfolding check_stream
check_stream-Agrees name none now max_age flags h =
    ground (arith, is_nil-snoc flags (name ++ str "_NO_DATA"))
check_stream-Agrees name (some s) now max_age flags h =
    check_present-Agrees name s now max_age flags h
