-- ===== src/Prelude/Results.antt =====
-- What a call may end in besides returning, and the chaining of such calls.
use mathlib.Core.Path.{◌≡◌, refl}

-- `uncaught`: an exception that no handler catches. `bad_access`: memory read or written outside
-- an object. `no_end`: the fuel of a loop ran out.
pub data Fault : Type 0 where
  uncaught bad_access no_end : Fault

pub data Outcome (A : Type 0) : Type 0 where
  ok : A → Outcome A
  fault : Fault → Outcome A

module _ {A B : Type 0} where
  infixl 5 ◌>>=◌
  abbrev pub ◌>>=◌ : Outcome A → (A → Outcome B) → Outcome B
  fault e >>= next = fault e
  ok x >>= next = next x

  -- A chain that returns has a first call that returns.
  pub >>=-eq-ok :
      (first : Outcome A) (next : A → Outcome B) {y : B}
      → (first >>= next) ≡ ok y
      → (x : A) × (first ≡ ok x) × (next x ≡ ok y)
  >>=-eq-ok (fault e) next returns = cc
  >>=-eq-ok (ok x) next returns = (x, refl, returns)

  -- Chains whose later parts agree on every value.
  pub >>=-cong :
      (first : Outcome A) {next other : A → Outcome B}
      → ((x : A) → next x ≡ other x)
      → (first >>= next) ≡ (first >>= other)
  >>=-cong (ok x) agree = agree x
  >>=-cong (fault e) agree = refl
