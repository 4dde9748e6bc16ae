-- ===== src/Cht/First.antt =====
-- The first host that `find` of cht.cpp gives is the one that answers for the key.
use jubatus.Base.{
  ℕ, suc, ◌+◌, ◌%◌, ◌≡◌, ◌<◌, refl, ap, List, [], ◌∷◌, some, length, get_elem?, arith,
}
use jubatus.Base.Comp.{ok}
use jubatus.Base.Int.{ℤ}
use jubatus.Base.Text.{Text}
use jubatus.Cht.{find, cht_path, lower_bound, sort}
use jubatus.Cht.Order.{Answers, sort-length}
use jubatus.Cht.Ring.{AllRead, find_lem}
use jubatus.LockService.{LockService, Reads}
use jubatus.Membership.{revert}
use native.Mathlib.Nat.{mod-lt, mod-eq_of_lt}

head_of :
    {A : Type 0} (xs : List A) (a : A) → get_elem? xs 0 ≡ some a → (rest : List A) × (xs ≡ a ∷ rest)
head_of [] a e = absurd (ground arith)
head_of (x ∷ xs) a e = (xs, ground arith)

start_stays : (a n : ℕ) → 0 < n → (a % n + 0) % n ≡ a % n
start_stays a n h =
    let plain : a % n + 0 ≡ a % n = omega arith in rw (plain, mod-eq_of_lt (mod-lt a h)) refl

module _ (show : ℤ → Text) (make_hash : Text → Text) {S : Type 0} (ls : LockService S)
    (rd : Reads ls) (type name : Text) where
  -- What `find` of one host or more gives on a ring with an entry, all of whose entries can be read.
  pub find-first :
      (key : Text) (n : ℕ) (s : S) (x : Text) (xs : List Text) (loc : Text → Text)
      → (ls.list (cht_path type name) s).0 ≡ some (x ∷ xs)
      → AllRead show make_hash ls rd type name s loc (x ∷ xs)
      → (c : Text) × (rest out : List (Text × ℤ)) × (find show make_hash ls type name key (suc n) s
          ≡ (ok out, s))
        × (out ≡ revert (loc c) ∷ rest)
        × (length rest ≡ n)
        × Answers (make_hash key) (x ∷ xs) c
  find-first key n s x xs loc e readable =
      let (out, run, size, places, first) =
        find_lem show make_hash ls rd type name key (suc n) s x xs loc e readable in
      let hs = sort (x ∷ xs) in
      let (c, here, stored, m) = places 0 (omega arith) in
      let (rest, shape) = head_of out (revert (loc c)) stored in
      let wide : 0 < length hs = omega (arith, sort-length (x ∷ xs)) in
      (
        c,
        rest,
        out,
        run,
        shape,
        omega (arith, ap length shape),
        first c (rw (start_stays (lower_bound (make_hash key) hs) (length hs) wide) at here),
      )
