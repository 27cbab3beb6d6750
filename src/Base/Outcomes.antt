-- ===== src/Base/Outcomes.antt =====
-- Python's exceptions as values. An exception keeps its class and its message; where the message
-- is put together from values, it is the constant part.
use Prim.Native.String.{String}
use mathlib.Core.Path.{◌≡◌, refl}
use mathlib.Core.Bool.{Bool, true, false}
use mathlib.Core.List.{List, [], ◌∷◌}

pub data Error : Type 0 where
  value_error runtime_error : String → Error
  key_error index_error type_error overflow_error file_not_found : Error
  book_sequence_error ambiguous_revision_error : String → Error
  integrity_error : String → Error

-- What a call returns, or the exception that it raises.
pub data Result {ℓ} (T : Type ℓ) : Type ℓ where
  raise : Error → Result T
  ok : T → Result T

module _ {ℓ κ} {S : Type ℓ} {T : Type κ} where
  infixl 5 ◌>>=◌
  -- One statement after another: an exception ends the block.
  abbrev pub ◌>>=◌ : Result S → (S → Result T) → Result T
  raise problem >>= next = raise problem
  ok value >>= next = next value

  -- A block that succeeds has a first statement that succeeds.
  pub >>=-eq-ok :
      (call : Result S) (next : S → Result T) {result : T}
      → (call >>= next) ≡ ok result
      → (value : S) × (call ≡ ok value) × (next value ≡ ok result)
  >>=-eq-ok (raise problem) next done = cc
  >>=-eq-ok (ok value) next done = (value, refl, done)

module _ {ℓ} {T : Type ℓ} where
  infixl 5 ◌>>◌
  abbrev pub ◌>>◌ : Result (Unit {0}) → Result T → Result T
  check >> next = check >>= λ nothing. next

-- `if test: raise e`
abbrev pub raise_if : Bool → Error → Result (Unit {0})
raise_if true e = raise e
raise_if false e = ok tt

pub raise_if-eq-ok : (c : Bool) (e : Error) {u : Unit {0}} → raise_if c e ≡ ok u → c ≡ false
raise_if-eq-ok true e h = cc
raise_if-eq-ok false e h = refl

-- `[f(x) for x in xs]` with an `f` that can raise.
unfoldable pub collect {ℓ κ} : {A : Type ℓ} {B : Type κ} → (A → Result B) → List A → Result (List B)
collect f [] = ok []
collect f (x ∷ xs) = do y ← f x; ys ← collect f xs; ok (y ∷ ys)
