-- ===== src/Base/Comp.antt =====
-- A method over a state: it returns or throws, and keeps what it did to the state either way.
use mathlib.Core.Bool.{Bool, true, false, ◌&&◌}
use mathlib.Core.Path.{◌≡◌, refl}
use mathlib.Core.Logic.{◌⊎◌, inl, inr}

-- The exceptions that the servers throw, by their class (message texts are left out).
pub data Error : Type 0 where
  runtime_error not_found config_not_set membership_error rpc_no_client rpc_no_result : Error
  rpc_error type_error argument_error ios_failure null_pointer out_of_range : Error

pub data Result {ℓ} (A : Type ℓ) : Type ℓ where
  ok : A → Result A
  throw : Error → Result A

abbrev pub Comp {ℓ} : Type ℓ → Type ℓ → Type ℓ
Comp S A = S → Result A × S

abbrev pub bind_result {ℓ} : {S A B : Type ℓ} → Result A × S → (A → S → Result B × S) → Result B × S
bind_result (ok a, s) f = f a s
bind_result (throw e, s) f = (throw e, s)

infixl 5 ◌>>=◌ ◌>>◌
abbrev pub ◌>>=◌ {ℓ} : {S A B : Type ℓ} → Comp S A → (A → Comp S B) → Comp S B
◌>>=◌ m f s = bind_result (m s) f

abbrev pub ◌>>◌ {ℓ} : {S A B : Type ℓ} → Comp S A → Comp S B → Comp S B
m >> k = m >>= λ _. k

abbrev pub pure {ℓ} : {S A : Type ℓ} → A → Comp S A
pure a s = (ok a, s)

abbrev pub raise {ℓ} : {S A : Type ℓ} → Error → Comp S A
raise e s = (throw e, s)

-- `if (!b) throw e;`
abbrev pub require : {S : Type 0} → Bool → Error → Comp S (Unit {0})
require true e s = (ok tt, s)
require false e s = (throw e, s)

-- `success && m()`: the call is made only while everything has succeeded.
abbrev pub and_then : {S : Type 0} → Bool → Comp S Bool → Comp S Bool
and_then true m s = m s
and_then false m s = (ok false, s)

-- `m() && success`: the call is always made.
abbrev pub and_also : {S : Type 0} → Bool → Comp S Bool → Comp S Bool
and_also b m = do r ← m; pure (r && b)

-- A result without a state, handed on.
abbrev pub then_result {ℓ} : {A B : Type ℓ} → Result A → (A → Result B) → Result B
then_result (ok a) f = f a
then_result (throw e) f = throw e

pub Result-cases {ℓ} :
    {A : Type ℓ} (r : Result A) → ((a : A) × (r ≡ ok a)) ⊎ ((e : Error) × (r ≡ throw e))
Result-cases (ok a) = inl (a, refl)
Result-cases (throw e) = inr (e, refl)
