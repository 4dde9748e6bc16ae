-- ===== src/Zk/Payload/Tests.antt =====
-- A payload that another client makes longer while it is read.
use jubatus.Base.{ℕ, zero, suc, ◌≡◌, ◌≤◌, inr, refl, some, length, take, arith}
use jubatus.Base.Int.{pos}
use jubatus.Base.Text.{Text, codes}
use jubatus.Zk.{zok}
use jubatus.Zk.Payload.{
  Calls, Payloads, found, Whole, read, read_from, read_loop, settled, read_lem,
}

-- What the node holds at each time.
abbrev at : ℕ → Text
at zero = codes "a"
at (suc zero) = codes "ab"
at (suc (suc n)) = codes "abc"

short : (n : ℕ) → length (at n) ≤ 3
short zero = omega arith
short (suc zero) = omega arith
short (suc (suc n)) = omega arith

abbrev changing : Calls ℕ
changing = record {
  zoo_exists = λ p s. ((zok, pos (length (at s))), s);
  zoo_get = λ p n s. ((zok, take n (at (suc s)), pos (length (at (suc s)))), suc s);
}

abbrev changing_payloads : Payloads changing 3
changing_payloads = record {
  content = λ s p. some (at s);
  exists_zok = λ p s e. inr (at s, refl, refl, short s);
  get_zok = λ p n s e. (at (suc s), refl, refl, refl, short (suc s));
}

-- Two rounds find that the payload has grown.
reads_last : read changing 4 (codes "/p") 0 ≡ (found (codes "abc"), 3)
unfolding read read_from read_loop settled
reads_last = refl

read_lem_example : Whole changing 3 changing_payloads (codes "/p") (read changing 4 (codes "/p") 0)
read_lem_example = read_lem changing 3 changing_payloads 4 (codes "/p") 0 (omega arith)
