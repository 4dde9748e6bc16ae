-- ===== src/Samples/Notation.antt =====
-- Decimal and big-endian notation of numbers.
use jubatus.Base.{
  ℕ, zero, suc, ◌+◌, ◌-◌, ◌*◌, ◌/◌, ◌%◌, ◌^◌, ◌<◌, ◌≡◌, refl, [], ◌∷◌, ◌++◌, length, length-append,
  ltb, Bool-cases, inl, inr, if◌then◌else◌, arith,
}
use jubatus.Base.Int.{ℤ, pos, negsuc}
use jubatus.Base.Text.{Text, AllDigits, digits_value}
use jubatus.Crc32.Laws.{Bytes, Bytes-append}
use jubatus.Membership.Names.{Decimal}
use jubatus.Mutex.Order.{Sequence}
use native.Mathlib.Nat.{pow-suc}

abbrev pub digit : ℕ → ℕ
digit n = b'0' + n

abbrev pub decimal : ℕ → ℕ → Text
decimal zero n = []
decimal (suc fuel) n =
    let rest = decimal fuel (n / 10) ++ (digit (n % 10) ∷ []) in
    if ltb n 10 then digit n ∷ [] else rest

abbrev pub show_int : ℤ → Text
show_int (pos n) = decimal (suc n) n
show_int (negsuc n) = b'-' ∷ decimal (suc (suc n)) (suc n)

-- Ten digits, as `%010d` prints.
abbrev pub padded : ℕ → ℕ → Text
padded zero n = []
padded (suc k) n = padded k (n / 10) ++ (digit (n % 10) ∷ [])

AllDigits-append : (s t : Text) → AllDigits s → AllDigits t → AllDigits (s ++ t)
AllDigits-append [] t hs ht = ht
AllDigits-append (c ∷ s) t hs ht = (hs.0, AllDigits-append s t hs.1 ht)

digits_value-last :
    (acc : ℕ) (s : Text) (d : ℕ)
    → AllDigits s
    → d < 10
    → digits_value acc (s ++ (digit d ∷ [])) ≡ digits_value acc s * 10 + d
unfolding digits_value
digits_value-last acc [] d hs hd = ground arith
digits_value-last acc (c ∷ s) d hs hd =
    rw (hs.0) (digits_value-last (acc * 10 + (c - b'0')) s d hs.1 hd)

last_digit : (n : ℕ) → AllDigits (digit (n % 10) ∷ [])
last_digit n = (ground arith, tt)

decimal-AllDigits : (fuel n : ℕ) → AllDigits (decimal fuel n)
decimal-AllDigits zero n = tt
decimal-AllDigits (suc fuel) n = elim (Bool-cases (ltb n 10)) [
  | inl small ↦ rw small (ground arith, tt)
  | inr large ↦
      rw large (
        AllDigits-append (decimal fuel (n / 10)) _ (decimal-AllDigits fuel (n / 10)) (last_digit n))
]

decimal_value : (fuel n : ℕ) → n < fuel → digits_value 0 (decimal fuel n) ≡ n
unfolding digits_value
decimal_value zero n h = elim h [ ]
decimal_value (suc fuel) n h = elim (Bool-cases (ltb n 10)) [
  | inl small ↦ rw small (ground arith)
  | inr large ↦
      rw
        (
          large,
          digits_value-last 0 (decimal fuel (n / 10)) (n % 10) (decimal-AllDigits fuel (n / 10))
              (omega arith),
          decimal_value fuel (n / 10) (ground arith),
        )
        (omega arith)
]

pub show_int-Decimal : Decimal show_int
show_int-Decimal = record {
  digits = λ n. decimal-AllDigits (suc n) n;
  value = λ n. decimal_value (suc n) n (omega arith);
}

padded-AllDigits : (k n : ℕ) → AllDigits (padded k n)
padded-AllDigits zero n = tt
padded-AllDigits (suc k) n =
    AllDigits-append (padded k (n / 10)) _ (padded-AllDigits k (n / 10)) (last_digit n)

length-padded : (k n : ℕ) → length (padded k n) ≡ k
length-padded zero n = refl
length-padded (suc k) n =
    omega (arith, length-append (padded k (n / 10)) (digit (n % 10) ∷ []), length-padded k (n / 10))

padded_value : (k n : ℕ) → n < 10 ^ k → digits_value 0 (padded k n) ≡ n
unfolding digits_value
padded_value zero n h = omega arith
padded_value (suc k) n h =
    rw
      (
        digits_value-last 0 (padded k (n / 10)) (n % 10) (padded-AllDigits k (n / 10))
            (omega arith),
        padded_value k (n / 10) (omega (arith, pow-suc 10 k)),
      )
      (omega arith)

abbrev pub seq_limit : ℕ
seq_limit = 2147483648

pub padded-Sequence : Sequence seq_limit (padded 10)
padded-Sequence = record {
  digits = λ n h. padded-AllDigits 10 n;
  width = λ n h. length-padded 10 n;
  value = λ n h. padded_value 10 n (omega arith);
}

abbrev pub big_endian : ℕ → ℕ → Text
big_endian zero n = []
big_endian (suc k) n = big_endian k (n / 256) ++ ((n % 256) ∷ [])

abbrev pub from_big_endian : ℕ → Text → ℕ
from_big_endian acc [] = acc
from_big_endian acc (b ∷ s) = from_big_endian (acc * 256 + b) s

from_big_endian-last :
    (acc : ℕ) (s : Text) (b : ℕ)
    → from_big_endian acc (s ++ (b ∷ [])) ≡ from_big_endian acc s * 256 + b
from_big_endian-last acc [] b = refl
from_big_endian-last acc (c ∷ s) b = from_big_endian-last (acc * 256 + c) s b

pub length-big_endian : (k n : ℕ) → length (big_endian k n) ≡ k
length-big_endian zero n = refl
length-big_endian (suc k) n =
    omega (
      arith,
      length-append (big_endian k (n / 256)) ((n % 256) ∷ []),
      length-big_endian k (n / 256),
    )

pub big_endian-Bytes : (k n : ℕ) → Bytes (big_endian k n)
big_endian-Bytes zero n = tt
big_endian-Bytes (suc k) n =
    Bytes-append (big_endian k (n / 256)) _ (big_endian-Bytes k (n / 256)) (omega arith, tt)

pub from_big_endian-big_endian : (k n : ℕ) → n < 256 ^ k → from_big_endian 0 (big_endian k n) ≡ n
from_big_endian-big_endian zero n h = omega arith
from_big_endian-big_endian (suc k) n h =
    rw
      (
        from_big_endian-last 0 (big_endian k (n / 256)) (n % 256),
        from_big_endian-big_endian k (n / 256) (omega (arith, pow-suc 256 k)),
      )
      (omega arith)
