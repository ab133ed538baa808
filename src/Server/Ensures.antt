-- ===== src/Server/Ensures.antt =====
-- Properties of what a call returns.
use sever_code.Prelude.{
  ◌≡◌, refl, Bool, true, false, Outcome, Fault, ok, fault, ◌>>=◌, if◌then◌else◌,
}
use mathlib.Core.Path.{subst}

-- What holds of the value that a call returns, if it returns.
pub record Ensures {A : Type 0} (P : A → Type 0) (o : Outcome A) : Type 0 where
  pub held : (a : A) → o ≡ ok a → P a

ok_injective : {A : Type 0} (a b : A) → ok a ≡ ok b → a ≡ b
ok_injective a b e = cc

pub Ensures-ok : {A : Type 0} (P : A → Type 0) (a : A) → P a → Ensures P (ok a)
Ensures-ok P a h = record { held = λ b e. subst P (ok_injective a b e) h }

pub Ensures-fault : {A : Type 0} (P : A → Type 0) (x : Fault) → Ensures P (fault x)
Ensures-fault P x = record { held = λ b e. cc }

-- A chain whose last part has the property whatever the first returns.
pub Ensures-bind :
    {A B : Type 0} (P : B → Type 0) (m : Outcome A) (f : A → Outcome B)
    → ((a : A) → Ensures P (f a))
    → Ensures P (m >>= f)
Ensures-bind P (ok a) f h = h a
Ensures-bind P (fault x) f h = Ensures-fault P x

pub Ensures-then :
    {A B : Type 0} (Q : A → Type 0) (P : B → Type 0) (m : Outcome A) (f : A → Outcome B)
    → Ensures Q m
    → ((a : A) → Q a → Ensures P (f a))
    → Ensures P (m >>= f)
Ensures-then Q P (ok a) f q h = h a (q.held a refl)
Ensures-then Q P (fault x) f q h = Ensures-fault P x

pub Ensures-if :
    {A : Type 0} (P : A → Type 0) (b : Bool) (x y : Outcome A)
    → Ensures P x
    → Ensures P y
    → Ensures P (if b then x else y)
Ensures-if P true x y h k = h
Ensures-if P false x y h k = k
