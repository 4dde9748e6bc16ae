-- ===== src/Base/Int.antt =====
-- `int`, as far as ports and error codes need it: a sign and a native number. `negsuc n` is -(n + 1).
use Prim.Native.Nat.{ℕ, zero, suc}
use jubatus.Base.Tests.{◌==◌, leb, ltb, if◌then◌else◌}
use jubatus.Base.Text.{Text, digits_value, is_digit, AllDigits, digits_value-append}
use mathlib.Core.Bool.{Bool, true, false, ◌&&◌, ◌||◌}
use mathlib.Core.List.{[], ◌∷◌, ◌++◌}
use mathlib.Core.Logic.{◌↔◌}
use mathlib.Core.Path.{◌≡◌, refl}
use native.Mathlib.Omega.{arith}

pub data ℤ : Type 0 where
  pos : ℕ → ℤ
  negsuc : ℕ → ℤ

abbrev pub negate : ℕ → ℤ
negate zero = pos 0
negate (suc n) = negsuc n

unfoldable pub int_eq : ℤ → ℤ → Bool
int_eq (pos a) (pos b) = a == b
int_eq (negsuc a) (negsuc b) = a == b
int_eq _ _ = false

pub int_eq_iff : (a b : ℤ) → (int_eq a b ≡ true) ↔ (a ≡ b)
unfolding int_eq
int_eq_iff (pos a) (pos b) = ground arith
int_eq_iff (pos a) (negsuc b) = ground arith
int_eq_iff (negsuc a) (pos b) = ground arith
int_eq_iff (negsuc a) (negsuc b) = ground arith

-- `a < b`
unfoldable pub int_lt : ℤ → ℤ → Bool
int_lt (pos a) (pos b) = ltb a b
int_lt (negsuc a) (negsuc b) = ltb b a
int_lt (negsuc a) (pos b) = true
int_lt (pos a) (negsuc b) = false

abbrev is_space : ℕ → Bool
is_space c = (c == 32) || (leb 9 c && leb c 13)

signed : Text → ℤ
signed [] = pos 0
signed (c ∷ s) =
    if c == b'-'
    then negate (digits_value 0 s)
    else if c == b'+'
    then pos (digits_value 0 s)
    else pos (digits_value 0 (c ∷ s))

-- `atoi`: blanks, a sign, digits; 0 when there is no number. Values beyond `int` are not modelled.
unfoldable pub atoi : Text → ℤ
unfolding signed
atoi [] = pos 0
atoi (c ∷ s) = if is_space c then atoi s else signed (c ∷ s)

atoi-digits : (c : ℕ) (s : Text) → is_digit c ≡ true → atoi (c ∷ s) ≡ pos (digits_value 0 (c ∷ s))
unfolding atoi
atoi-digits c s h = ground arith

-- A decimal is read back, alone or before a byte that is neither a digit, a blank nor a sign.
pub atoi-decimal : (s : Text) → AllDigits s → atoi s ≡ pos (digits_value 0 s)
unfolding atoi digits_value
atoi-decimal [] h = refl
atoi-decimal (c ∷ s) h = atoi-digits c s h.0

pub atoi-decimal_rest : (s t : Text) → AllDigits s → atoi (s ++ (b'_' ∷ t)) ≡ pos (digits_value 0 s)
unfolding atoi digits_value
atoi-decimal_rest [] t h = refl
atoi-decimal_rest (c ∷ s) t h =
    rw (atoi-digits c (s ++ (b'_' ∷ t)) h.0, digits_value-append 0 (c ∷ s) b'_' t h refl)
