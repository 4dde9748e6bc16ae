-- ===== src/GlobalId.antt =====
-- jubatus/server/common/global_id_generator_standalone.cpp and global_id_generator_zk.cpp: the generators of
-- identifiers, a 64-bit counter and a counter that the lock service keeps.
pub mod Distinct
mod Tests
use jubatus.Base.{
  ℕ, zero, suc, ◌+◌, ◌%◌, ◌^◌, ◌≡◌, Bool, true, false, List, [], ◌∷◌, ◌++◌, Option, none, some,
}
use jubatus.Base.Comp.{Error, runtime_error, Result, ok, throw, Comp, ◌>>=◌, ◌>>◌, pure, require}
use jubatus.Base.Text.{Text, codes}
use jubatus.LockService.{LockService, call}

-- The generator's counter is the whole state; `__sync_fetch_and_add` and the mutex make a call one step.
unfoldable pub generate : ℕ → ℕ × ℕ
generate counter = (counter, (counter + 1) % 2 ^ 64)

-- The identifiers of a number of calls.
pub generate_all : ℕ → ℕ → List ℕ × ℕ
unfolding generate
generate_all zero counter = ([], counter)
generate_all (suc n) counter =
    let r = generate counter in let rest = generate_all n r.1 in (r.0 ∷ rest.0, rest.1)

-- `ls_` is null until `set_ls` has been called.
pub record Generator (S : Type 0) : Type 0 where
  pub path : Text
  pub ls : Option (LockService S)
  pub net : S

lift_net : {S A : Type 0} → (S → A × S) → Comp (Generator S) A
lift_net f g = let r = f g.net in (ok r.0, record g { net = r.1 })

id_or_error : {S : Type 0} → Option ℕ → Comp (Generator S) ℕ
id_or_error (some id) g = (ok id, g)
id_or_error none g = (throw runtime_error, g)

pub set_ls : {S : Type 0} → LockService S → Text → Comp (Generator S) (Unit {0})
unfolding lift_net
set_ls ls path_prefix g =
    let path = path_prefix ++ codes "/id_generator" in
    (lift_net (ls.create path [] false) >>= λ created. require created runtime_error)
      (record g { path = path; ls = some ls })

generate_from : {S : Type 0} → Option (LockService S) → Comp (Generator S) ℕ
unfolding lift_net id_or_error
generate_from none g = (throw runtime_error, g)
generate_from (some ls) g = (lift_net (ls.create_id g.path 0) >>= id_or_error) g

pub generate_zk : {S : Type 0} → Comp (Generator S) ℕ
unfolding generate_from
generate_zk g = generate_from g.ls g
