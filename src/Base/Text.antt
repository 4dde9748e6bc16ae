-- ===== src/Base/Text.antt =====
-- `std::string` as the list of its bytes: equality, `find` and `substr` round one byte, and `atoi`.
use Prim.Native.Char.{code}
use Prim.Native.Nat.{ℕ, ◌+◌, ◌-◌, ◌*◌}
use Prim.Native.String.{String}
use jubatus.Base.Tests.{◌==◌, ltb, leb, if◌then◌else◌}
use mathlib.Core.Bool.{Bool, true, false, ◌&&◌}
use mathlib.Core.List.{List, [], ◌∷◌, ◌++◌}
use mathlib.Core.Logic.{◌↔◌}
use mathlib.Core.Path.{◌≡◌, refl}
use native.Mathlib.Omega.{arith}

abbrev pub Text : Type 0
Text = List ℕ

-- The bytes of an ASCII literal.
abbrev pub codes : String → Text
codes String.[] = []
codes (String.◌∷◌ c s) = code c ∷ codes s

-- `operator==` of two strings.
unfoldable pub text_eq : Text → Text → Bool
text_eq [] [] = true
text_eq (a ∷ s) (b ∷ t) = (a == b) && text_eq s t
text_eq _ _ = false

pub text_eq_sound : (s t : Text) → text_eq s t ≡ true → s ≡ t
unfolding text_eq
text_eq_sound [] [] h = refl
text_eq_sound (a ∷ s) (b ∷ t) h = ground (arith, text_eq_sound s t)
text_eq_sound [] (b ∷ t) h = ground arith
text_eq_sound (a ∷ s) [] h = ground arith

pub text_eq_refl : (s : Text) → text_eq s s ≡ true
unfolding text_eq
text_eq_refl [] = refl
text_eq_refl (a ∷ s) = ground (arith, text_eq_refl s)

pub text_eq_iff : (s t : Text) → (text_eq s t ≡ true) ↔ (s ≡ t)
text_eq_iff s t = (text_eq_sound s t, λ e. rw e (text_eq_refl t))

-- `s.substr(0, s.find(c))`: the whole string when the byte does not occur.
unfoldable pub before : ℕ → Text → Text
before c [] = []
before c (x ∷ s) = if x == c then [] else x ∷ before c s

-- What follows the first such byte; `[]` when it does not occur.
after_found : ℕ → Text → Text → Text
after_found c whole [] = whole
after_found c whole (x ∷ s) = if x == c then s else after_found c whole s

-- `s.substr(s.find(c) + 1)`: `npos + 1` is 0, so the whole string when the byte does not occur.
unfoldable pub after : ℕ → Text → Text
unfolding after_found
after c s = after_found c s s

-- The string holds no such byte.
abbrev pub Without : ℕ → Text → Type 0
Without c [] = Unit {0}
Without c (x ∷ s) = ((x == c) ≡ false) × Without c s

pub before-append : (c : ℕ) (s t : Text) → Without c s → before c (s ++ (c ∷ t)) ≡ s
unfolding before
before-append c [] t h = ground arith
before-append c (x ∷ s) t h = ground (arith, before-append c s t h.1)

after_found-append :
    (c : ℕ) (whole s t : Text) → Without c s → after_found c whole (s ++ (c ∷ t)) ≡ t
unfolding after_found
after_found-append c whole [] t h = ground arith
after_found-append c whole (x ∷ s) t h = ground (arith, after_found-append c whole s t h.1)

pub after-append : (c : ℕ) (s t : Text) → Without c s → after c (s ++ (c ∷ t)) ≡ t
unfolding after
after-append c s t h = after_found-append c _ s t h

abbrev pub is_digit : ℕ → Bool
is_digit c = leb b'0' c && leb c b'9'

-- The loop of `atoi` over the leading digits of an unsigned decimal.
unfoldable pub digits_value : ℕ → Text → ℕ
digits_value acc [] = acc
digits_value acc (c ∷ s) =
    let rest = digits_value (acc * 10 + (c - b'0')) s in if is_digit c then rest else acc

-- `s.compare(t) < 0`: the order of the first bytes that differ, then a proper prefix comes first.
unfoldable pub text_lt : Text → Text → Bool
text_lt [] [] = false
text_lt [] (b ∷ t) = true
text_lt (a ∷ s) [] = false
text_lt (a ∷ s) (b ∷ t) = if a == b then text_lt s t else ltb a b

-- All bytes are decimal digits.
abbrev pub AllDigits : Text → Type 0
AllDigits [] = Unit {0}
AllDigits (c ∷ s) = (is_digit c ≡ true) × AllDigits s

-- The digits are read up to the first byte that is none.
pub digits_value-append :
    (acc : ℕ) (s : Text) (c : ℕ) (t : Text)
    → AllDigits s
    → is_digit c ≡ false
    → digits_value acc (s ++ (c ∷ t)) ≡ digits_value acc s
unfolding digits_value
digits_value-append acc [] c t h e = rw e
digits_value-append acc (x ∷ s) c t h e =
    rw (h.0) (digits_value-append (acc * 10 + (x - b'0')) s c t h.1 e)

pub Without-append : (c : ℕ) (s t : Text) → Without c s → Without c t → Without c (s ++ t)
Without-append c [] t hs ht = ht
Without-append c (x ∷ s) t hs ht = (hs.0, Without-append c s t hs.1 ht)

-- A byte that is no digit does not occur in a decimal.
pub AllDigits-Without : (c : ℕ) (s : Text) → is_digit c ≡ false → AllDigits s → Without c s
AllDigits-Without c [] e h = tt
AllDigits-Without c (x ∷ s) e h = (ground arith, AllDigits-Without c s e h.1)
