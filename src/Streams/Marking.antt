-- ===== src/Streams/Marking.antt =====
-- Timely streams, and the marks that agree with their flags.
use xrp_inteliggence_x.Base.{
  ℕ, ◌+◌, ◌≤◌, ◌≡◌, refl, Bool, true, false, not, ◌&&◌, ◌||◌, Option, none, some, List, [], ◌∷◌,
  ◌++◌, is_nil, ok, >>=-eq-ok, Str, str, DateTime, aware, utc, ltb, leb, arith, ltb_ℤ, pos,
}
use xrp_inteliggence_x.Streams.Model.{Stream, Marks, mark_if, check_provenance, since}

-- A stream that was available after it was observed, fetched after that and before the prediction,
-- and observed no longer ago than its limit.
pub record IsTimely (s : Stream) (now max_age : ℕ) : Type 0 where
  pub observed : ℕ
  pub available : ℕ
  pub fetched : ℕ
  pub observed_at : s.observed_at ≡ aware observed
  pub available_at : s.available_at ≡ some (aware available)
  pub fetched_at : s.fetched_at ≡ some (aware fetched)
  pub complete : s.provenance_complete ≡ true
  pub available_after : observed ≤ available
  pub fetched_after : available ≤ fetched
  pub known : fetched ≤ now
  pub fresh : now ≤ observed + max_age

abbrev pub IsTimelyIfGiven : Option Stream → ℕ → ℕ → Type 0
IsTimelyIfGiven none now max_age = ⊥
IsTimelyIfGiven (some s) now max_age = IsTimely s now max_age

pub is_nil-snoc : (fs : List Str) (f : Str) → is_nil (fs ++ f ∷ []) ≡ false
is_nil-snoc [] f = refl
is_nil-snoc (x ∷ fs) f = refl

pub mark_if-blocked : (b : Bool) (f : Str) (m : Marks) → (mark_if b f m).blocked ≡ b || m.blocked
unfolding mark_if
mark_if-blocked true f m = refl
mark_if-blocked false f m = refl

-- The flags are those before, if and only if the stream is not blocked.
abbrev pub Agrees : List Str → List Str → Bool → Type 0
Agrees before flags blocked = is_nil flags ≡ is_nil before && not blocked

pub mark_if-Agrees :
    (before : List Str) (b : Bool) (f : Str) (m : Marks)
    → Agrees before m.flags m.blocked
    → Agrees before (mark_if b f m).flags (mark_if b f m).blocked
unfolding mark_if
mark_if-Agrees before true f m h = ground (arith, is_nil-snoc m.flags f)
mark_if-Agrees before false f m h = h

pub late-since :
    (now observed max_age : ℕ)
    → ltb_ℤ (pos max_age) (since now observed) ≡ ltb (observed + max_age) now
unfolding since
late-since now observed max_age = ground arith

pub check_provenance-Agrees :
    (before : List Str) (name : Str) (o : ℕ) (a f : Option DateTime) (complete : Bool) (m : Marks)
    {n : Marks}
    → Agrees before m.flags m.blocked
    → check_provenance name o a f complete m ≡ ok n
    → Agrees before n.flags n.blocked
unfolding check_provenance
check_provenance-Agrees before name o (some a) (some f) true m {n} h e =
    let (t, _, e1) = >>=-eq-ok (utc a "available_at") _ e in
    let (u, _, e2) = >>=-eq-ok (utc f "fetched_at") _ e1 in
    let marked : n ≡ mark_if (not (leb o t && leb t u)) (name ++ str "_PROVENANCE_INVALID") m =
      ground arith in
    rw marked (mark_if-Agrees before _ _ m h)
check_provenance-Agrees before name o (some a) (some f) false m {n} h e =
    let marked : n ≡ mark_if true (name ++ str "_PROVENANCE_INCOMPLETE") m = ground arith in
    rw marked (mark_if-Agrees before _ _ m h)
check_provenance-Agrees before name o (some a) none complete m {n} h e =
    let marked : n ≡ mark_if true (name ++ str "_PROVENANCE_INCOMPLETE") m = ground arith in
    rw marked (mark_if-Agrees before _ _ m h)
check_provenance-Agrees before name o none f complete m {n} h e =
    let marked : n ≡ mark_if true (name ++ str "_PROVENANCE_INCOMPLETE") m = ground arith in
    rw marked (mark_if-Agrees before _ _ m h)
