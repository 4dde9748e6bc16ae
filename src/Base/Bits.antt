-- ===== src/Base/Bits.antt =====
-- `^` on unsigned words, at every width: the law of the lowest digit, cancellation, shifts, bounds.
use Prim.Native.Nat.{
  ℕ, zero, suc, ◌+◌, ◌*◌, ◌/◌, ◌%◌, ◌≤◌, ◌<◌, bit_xor, digits, bit_xor-bitwise, differ,
}
use mathlib.Core.Bool.{Bool, true, ◌&&◌}
use mathlib.Core.Path.{◌≡◌, refl, sym, ◌∙◌, ap}
use native.Mathlib.Nat.{le_refl}
use native.Mathlib.Omega.{arith}

-- The test succeeds on every number under the bound.
unfoldable pub every_below : ℕ → (ℕ → Bool) → Bool
every_below zero test = true
every_below (suc top) test = every_below top test && test top

pub every_below_lem :
    (bound : ℕ) (test : ℕ → Bool)
    → every_below bound test ≡ true
    → (k : ℕ) → k < bound
    → test k ≡ true
unfolding every_below
every_below_lem zero test all k h = elim h [ ]
every_below_lem (suc top) test all k h =
    let below : every_below top test ≡ true → k < top → test k ≡ true =
      λ e. every_below_lem top test e k in
    ground (arith, below)

-- Fuel beyond the number itself changes nothing.
digits_more :
    (f g x y : ℕ) → x ≤ f → x ≤ g → digits (λ z. z) differ f x y ≡ digits (λ z. z) differ g x y
digits_more zero (suc g) (suc x) y hf hg = absurd (omega arith)
digits_more (suc f) zero (suc x) y hf hg = absurd (omega arith)
digits_more (suc f) (suc g) (suc x) y hf hg =
    rw (digits_more f g (suc x / 2) (y / 2) (omega arith) (omega arith))
digits_more zero zero x y hf hg = refl
digits_more (suc f) (suc g) zero y hf hg = refl
digits_more (suc f) zero zero y hf hg = refl
digits_more zero (suc g) zero y hf hg = refl

zero-bit_xor : (b : ℕ) → bit_xor 0 b ≡ b
zero-bit_xor b = bit_xor-bitwise 0 b

pub bit_xor_step : (a b : ℕ) → bit_xor a b ≡ bit_xor (a / 2) (b / 2) * 2 + differ (a % 2) (b % 2)
bit_xor_step zero b = simp bit_xor-bitwise (omega arith)
bit_xor_step (suc a) b =
    simp bit_xor-bitwise
      (omega (arith, digits_more a (suc a / 2) (suc a / 2) (b / 2) (omega arith) (le_refl _)))

-- The exclusive or of two digits, as arithmetic.
differ_cases : (x y : ℕ) → x ≤ 1 → y ≤ 1 → differ x y ≡ (x + y) % 2
differ_cases zero y p q = omega arith
differ_cases (suc zero) zero p q = refl
differ_cases (suc zero) (suc zero) p q = refl
differ_cases (suc zero) (suc (suc y)) p q = absurd (omega arith)
differ_cases (suc (suc x)) y p q = absurd (omega arith)

pub bit_xor_digit : (a b : ℕ) → bit_xor a b ≡ bit_xor (a / 2) (b / 2) * 2 + (a % 2 + b % 2) % 2
bit_xor_digit a b =
    omega (arith, bit_xor_step a b, differ_cases (a % 2) (b % 2) (omega arith) (omega arith))

pub bit_xor-half : (a b : ℕ) → bit_xor a b / 2 ≡ bit_xor (a / 2) (b / 2)
bit_xor-half a b = omega (arith, bit_xor_digit a b)

xor_cancel_fuel : (n a b : ℕ) → a ≤ n → b ≤ n → bit_xor (bit_xor a b) b ≡ a
xor_cancel_fuel zero zero zero p q = refl
xor_cancel_fuel zero zero (suc b) p q = absurd (omega arith)
xor_cancel_fuel zero (suc a) b p q = absurd (omega arith)
xor_cancel_fuel (suc n) a b p q =
    let ih = xor_cancel_fuel n (a / 2) (b / 2) (omega arith) (omega arith) in
    let half = bit_xor-half a b in
    let e : bit_xor (bit_xor a b / 2) (b / 2) ≡ a / 2 = rw half ih in
    omega (arith, e, bit_xor_digit a b, bit_xor_digit (bit_xor a b) b)

pub bit_xor_cancel : (a b : ℕ) → bit_xor (bit_xor a b) b ≡ a
bit_xor_cancel a b = xor_cancel_fuel (a + b) a b (omega arith) (omega arith)

xor_comm_fuel : (n a b : ℕ) → a ≤ n → b ≤ n → bit_xor a b ≡ bit_xor b a
xor_comm_fuel zero zero zero p q = refl
xor_comm_fuel zero zero (suc b) p q = absurd (omega arith)
xor_comm_fuel zero (suc a) b p q = absurd (omega arith)
xor_comm_fuel (suc n) a b p q = omega (
  arith,
  xor_comm_fuel n (a / 2) (b / 2) (omega arith) (omega arith),
  bit_xor_digit a b,
  bit_xor_digit b a,
)

pub bit_xor_comm : (a b : ℕ) → bit_xor a b ≡ bit_xor b a
bit_xor_comm a b = xor_comm_fuel (a + b) a b (omega arith) (omega arith)

pub bit_xor_inj_right : (a b c : ℕ) → bit_xor a c ≡ bit_xor b c → a ≡ b
bit_xor_inj_right a b c h =
    sym (bit_xor_cancel a c) ∙ ap (λ (t : ℕ). bit_xor t c) h ∙ bit_xor_cancel b c

pub bit_xor_inj_left : (a b c : ℕ) → bit_xor c a ≡ bit_xor c b → a ≡ b
bit_xor_inj_left a b c h = bit_xor_inj_right a b c (bit_xor_comm a c ∙ h ∙ bit_xor_comm c b)

quarter : (a b : ℕ) → bit_xor a b / 4 ≡ bit_xor (a / 4) (b / 4)
quarter a b =
    let e : bit_xor a b / 4 ≡ bit_xor a b / 2 / 2 = omega arith in
    let ea : a / 4 ≡ a / 2 / 2 = omega arith in
    let eb : b / 4 ≡ b / 2 / 2 = omega arith in
    rw (e, bit_xor-half a b, bit_xor-half (a / 2) (b / 2), ea, eb)

sixteenth : (a b : ℕ) → bit_xor a b / 16 ≡ bit_xor (a / 16) (b / 16)
sixteenth a b =
    let e : bit_xor a b / 16 ≡ bit_xor a b / 4 / 4 = omega arith in
    let ea : a / 16 ≡ a / 4 / 4 = omega arith in
    let eb : b / 16 ≡ b / 4 / 4 = omega arith in
    rw (e, quarter a b, quarter (a / 4) (b / 4), ea, eb)

-- Shifting right by eight bits commutes with `^`.
pub bit_xor-shr8 : (a b : ℕ) → bit_xor a b / 256 ≡ bit_xor (a / 256) (b / 256)
bit_xor-shr8 a b =
    let e : bit_xor a b / 256 ≡ bit_xor a b / 16 / 16 = omega arith in
    let ea : a / 256 ≡ a / 16 / 16 = omega arith in
    let eb : b / 256 ≡ b / 16 / 16 = omega arith in
    rw (e, sixteenth a b, sixteenth (a / 16) (b / 16), ea, eb)

pub bit_xor-shr24 : (a b : ℕ) → bit_xor a b / 0x1000000 ≡ bit_xor (a / 0x1000000) (b / 0x1000000)
bit_xor-shr24 a b =
    let e : bit_xor a b / 0x1000000 ≡ bit_xor a b / 256 / 256 / 256 = omega arith in
    let ea : a / 0x1000000 ≡ a / 256 / 256 / 256 = omega arith in
    let eb : b / 0x1000000 ≡ b / 256 / 256 / 256 = omega arith in
    rw (
      e,
      bit_xor-shr8 a b,
      bit_xor-shr8 (a / 256) (b / 256),
      bit_xor-shr8 (a / 256 / 256) (b / 256 / 256),
      ea,
      eb,
    )

pub zero-bit_xor_lem : (b : ℕ) → bit_xor 0 b ≡ b
zero-bit_xor_lem = zero-bit_xor

-- The exclusive or of two words is a word.
pub bit_xor-word : (a b : ℕ) → a < 0x100000000 → b < 0x100000000 → bit_xor a b < 0x100000000
bit_xor-word a b ha hb =
    let e : bit_xor a b / 0x1000000 ≡ bit_xor (a / 0x1000000) (b / 0x1000000) = bit_xor-shr24 a b in
    let f : bit_xor (a / 0x1000000) (b / 0x1000000) / 256
        ≡ bit_xor (a / 0x1000000 / 256) (b / 0x1000000 / 256) =
      bit_xor-shr8 _ _ in
    let za : a / 0x1000000 / 256 ≡ 0 = omega arith in
    let zb : b / 0x1000000 / 256 ≡ 0 = omega arith in
    let g : bit_xor (a / 0x1000000 / 256) (b / 0x1000000 / 256) ≡ 0 = rw (za, zb) refl in
    omega arith
