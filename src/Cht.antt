-- ===== src/Cht.antt =====
-- jubatus/server/common/cht.cpp and cht.hpp: the consistent hash table. `make_hash` (an MD5 digest in hexadecimal)
-- and `show` are jubatus_util's. `std::sort` is written as an insertion sort, `std::lower_bound`
-- as the count of the entries below.
pub mod Order
pub mod Ring
pub mod First
pub mod Registration
mod Tests
use jubatus.Base.{
  ℕ, zero, suc, ◌+◌, ◌%◌, ◌≡◌, Bool, true, false, List, [], ◌∷◌, ◌++◌, Option, none, some, length,
  get_elem?, ltb, if◌then◌else◌, ◌==◌,
}
use jubatus.Base.Comp.{
  Error, runtime_error, not_found, out_of_range, Result, ok, throw, Comp, ◌>>=◌, ◌>>◌, pure, raise,
  require, and_also,
}
use jubatus.Base.Int.{ℤ, pos}
use jubatus.Base.Text.{Text, codes, text_lt}
use jubatus.LockService.{LockService, call, child}
use jubatus.Membership.{build_actor_path, build_loc_str, revert}

abbrev pub num_vserv : ℕ
num_vserv = 8

insert : Text → List Text → List Text
insert x [] = x ∷ []
insert x (y ∷ ys) = if text_lt x y then x ∷ y ∷ ys else y ∷ insert x ys

unfoldable pub sort : List Text → List Text
unfolding insert
sort [] = []
sort (x ∷ xs) = insert x (sort xs)

-- `std::lower_bound(begin, end, hash) - begin`
pub lower_bound : Text → List Text → ℕ
lower_bound hash [] = 0
lower_bound hash (h ∷ hs) = let rest = lower_bound hash hs in if text_lt h hash then suc rest else 0

unfoldable pub cht_path : Text → Text → Text
cht_path type name = build_actor_path type name ++ codes "/cht"

module _ (show : ℤ → Text) (make_hash : Text → Text) {S : Type 0} (ls : LockService S)
    (type name : Text) where
  unfoldable pub setup_cht_dir : Comp S (Unit {0})
  setup_cht_dir = do
    a ← and_also true (call (ls.create (build_actor_path type name) [] false))
    b ← and_also a (call (ls.create (cht_path type name) [] false))
    require b runtime_error

  -- The rounds `i`, …, `i + n - 1` of the loop.
  register_from : ℕ → ℕ → Text → ℤ → Comp S (Unit {0})
  register_from zero i ip port = pure tt
  register_from (suc n) i ip port = do
    created ← call (
        ls.create (child (cht_path type name) (make_hash (build_loc_str show ip port i)))
          (build_loc_str show ip port 0) true)
    require created runtime_error
    register_from n (suc i) ip port

  unfoldable pub register_node : Text → ℤ → Comp S (Unit {0})
  unfolding register_from
  register_node ip port = register_from num_vserv 0 ip port

  sorted_or_none : Option (List Text) → Option (List Text)
  sorted_or_none none = none
  sorted_or_none (some []) = none
  sorted_or_none (some (h ∷ hs)) = some (sort (h ∷ hs))

  -- `none` is the return value `false`.
  pub get_hashlist : S → Option (List Text) × S
  unfolding sorted_or_none
  get_hashlist s = let r = ls.list (cht_path type name) s in (sorted_or_none r.0, r.1)

  read_entry : Option Text → Comp S (Text × ℤ)
  read_entry none s = (throw out_of_range, s)
  read_entry (some h) s =
      let r = ls.read (child (cht_path type name) h) s in
      (elim r.0 [ none ↦ throw not_found | some loc ↦ ok (revert loc) ], r.1)

  -- The loop of `find` with `n` rounds left.
  find_from : List Text → ℕ → ℕ → Comp S (List (Text × ℤ))
  unfolding read_entry
  find_from hlist zero idx = pure []
  find_from hlist (suc n) idx = do
    node ← read_entry (get_elem? hlist idx)
    rest ← find_from hlist n ((idx + 1) % length hlist)
    pure (node ∷ rest)

  find_in : Text → ℕ → Option (List Text) → Comp S (List (Text × ℤ))
  unfolding find_from
  find_in key n none s = (throw not_found, s)
  find_in key n (some hlist) s =
      find_from hlist n (lower_bound (make_hash key) hlist % length hlist) s

  -- The nodes in `out`; the return value, `!hlist.size()`, is false whenever the call returns.
  unfoldable pub find : Text → ℕ → Comp S (List (Text × ℤ))
  unfolding get_hashlist find_in lower_bound
  find key n s = let r = get_hashlist s in find_in key n r.0 r.1

  pub find_host : Text → ℤ → ℕ → Comp S (List (Text × ℤ))
  unfolding find
  find_host host port s = find (build_loc_str show host port 0) s
