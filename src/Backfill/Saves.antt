-- ===== src/Backfill/Saves.antt =====
-- What a checkpoint of the store saves of the progress of a loop, and how a step keeps it.
use xrp_inteliggence_x.Base.{
  ◌≡◌, refl, ◌∙◌, ap, Bool, true, false, Option, none, some, lookup, Bool-cases, inl, inr,
  if◌then◌else◌, Str, Result, ok, raise, Error, aware, list_order, nat_order,
}
use xrp_inteliggence_x.Store.Model.{
  CheckpointRow, Store, Action, ◌>>=◌, continue, return, fail_if, require,
}
use xrp_inteliggence_x.Store.Durable.{IsDurable}
use xrp_inteliggence_x.Store.Triples.{Ends, Any}
use xrp_inteliggence_x.Store.CrashOrder.{checkpoint_of}
use xrp_inteliggence_x.Backfill.Pages.{BackfillPage}
use xrp_inteliggence_x.Backfill.Run.{Progress, completed_cursor, next_cursor, advance}

-- The checkpoint of a job whose loop stands at `p`, where `first` was its checkpoint before the run.
abbrev pub checkpoint_at : Option CheckpointRow → Progress → Option CheckpointRow
checkpoint_at first p = elim p.final_receipt_time [
  | none ↦ first
  | some time ↦
      some (
        checkpoint_of (if p.completed then completed_cursor else p.cursor) p.completed (aware time))
]

-- The store stays durable; a call that raises leaves the checkpoint of the job as it was, and a call
-- that returns establishes `Q`.
abbrev pub Resumes :
    {A : Type 0} → (Str → Str) → Str → (A → Store → Type 0) → Store → Store × Result A → Type 0
Resumes sha256 key Q s (t, raise e) =
    IsDurable sha256 t × (lookup key t.checkpoints ≡ lookup key s.checkpoints)
Resumes sha256 key Q s (t, ok a) = IsDurable sha256 t × Q a t

pub Resumes-of_KeepsCheckpoints :
    {A : Type 0} (sha256 : Str → Str) (key : Str) (s : Store) (r : Store × Result A)
    → Ends sha256 (Any sha256) r
    → r.0.checkpoints ≡ s.checkpoints
    → Resumes sha256 key (λ a t. lookup key t.checkpoints ≡ lookup key s.checkpoints) s r
Resumes-of_KeepsCheckpoints sha256 key s (t, raise e) d k = (d, ap (lookup key) k)
Resumes-of_KeepsCheckpoints sha256 key s (t, ok a) d k = (d.0, ap (lookup key) k)

-- A call that keeps the checkpoint, and then one that may save it.
pub >>=-Resumes :
    {A B : Type 0} (sha256 : Str → Str) (key : Str) (Q : B → Store → Type 0) (call : Action A)
    (next : A → Action B) (s : Store)
    → Resumes sha256 key (λ a t. lookup key t.checkpoints ≡ lookup key s.checkpoints) s (call s)
    → ((a : A) (t : Store)
        → IsDurable sha256 t
        → call s ≡ (t, ok a)
        → Resumes sha256 key Q t (next a t))
    → Resumes sha256 key Q s ((call >>= next) s)
unfolding ◌>>=◌
>>=-Resumes {A} {B} sha256 key Q call next s here later = go (call s) here later
  where
    widen :
        (t : Store) (r : Store × Result B)
        → lookup key t.checkpoints ≡ lookup key s.checkpoints
        → Resumes sha256 key Q t r
        → Resumes sha256 key Q s r
    widen t (u, raise e) k x = (x.0, x.1 ∙ k)
    widen t (u, ok b) k x = x

    go :
        (r : Store × Result A)
        → Resumes sha256 key (λ a t. lookup key t.checkpoints ≡ lookup key s.checkpoints) s r
        → ((a : A) (t : Store)
            → IsDurable sha256 t
            → r ≡ (t, ok a)
            → Resumes sha256 key Q t (next a t))
        → Resumes sha256 key Q s (continue r next)
    go (t, raise e) x later = x
    go (t, ok a) x later = widen t (next a t) x.1 (later a t x.0 refl)

-- A call that saves the checkpoint, and then the value that is returned.
pub return-Resumes :
    {A B : Type 0} (sha256 : Str → Str) (key : Str) (R : A → Store → Type 0)
    (Q : B → Store → Type 0) (call : Action A) (b : B) (s : Store)
    → Resumes sha256 key R s (call s)
    → ((a : A) (t : Store) → R a t → Q b t)
    → Resumes sha256 key Q s ((call >>= λ a. return b) s)
unfolding ◌>>=◌
return-Resumes {A} {B} sha256 key R Q call b s here widen = go (call s) here
  where
    go :
        (r : Store × Result A)
        → Resumes sha256 key R s r
        → Resumes sha256 key Q s (continue r (λ a. return b))
    go (t, raise e) x = x
    go (t, ok a) x = (x.0, widen a t x.1)

pub require-Resumes :
    {A : Type 0} (sha256 : Str → Str) (key : Str) (r : Result A) (s : Store)
    → IsDurable sha256 s
    → Resumes sha256 key
        (λ a t. lookup key t.checkpoints ≡ lookup key s.checkpoints)
        s
        (require r s)
require-Resumes sha256 key (raise e) s d = (d, refl)
require-Resumes sha256 key (ok a) s d = (d, refl)

pub fail_if-Resumes :
    (sha256 : Str → Str) (key : Str) (c : Bool) (e : Error) (s : Store)
    → IsDurable sha256 s
    → Resumes sha256 key
        (λ u t. lookup key t.checkpoints ≡ lookup key s.checkpoints)
        s
        (fail_if c e s)
fail_if-Resumes sha256 key true e s d = (d, refl)
fail_if-Resumes sha256 key false e s d = (d, refl)

pub fail_if-eq-ok :
    (c : Bool) (e : Error) (s t : Store) (u : Unit {0}) → fail_if c e s ≡ (t, ok u) → c ≡ false
fail_if-eq-ok true e s t u h = cc
fail_if-eq-ok false e s t u h = refl

pub require-eq-ok :
    {A : Type 0} (r : Result A) (s t : Store) (a : A) → require r s ≡ (t, ok a) → r ≡ ok a
require-eq-ok r s t a h = cc

pub next_cursor-saved :
    (p : Progress) (page : BackfillPage) (next : Str)
    → next_cursor p page ≡ ok next
    → next ≡ (if page.completed then completed_cursor else (advance p page next).cursor)
unfolding next_cursor
next_cursor-saved p page next h = elim (Bool-cases page.completed) [
  | inl done ↦
      let e : next_cursor p page ≡ ok completed_cursor = rw (next_cursor, done) refl in
      let same_cursor : next ≡ completed_cursor = cc in rw (done, same_cursor) refl
  | inr more ↦ rw more refl
]
