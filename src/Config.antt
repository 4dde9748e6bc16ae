-- ===== src/Config.antt =====
-- jubatus/server/common/config.cpp: the configuration of a cluster in the lock service. `exists` and `set` of the service, the
-- JSON parser and the reading of files are parameters.
pub mod Workers
mod Tests
use jubatus.Base.{
  ℕ, zero, suc, ◌≡◌, Bool, true, false, not, ◌&&◌, List, [], ◌∷◌, ◌++◌, Option, none, some,
  if◌then◌else◌,
}
use jubatus.Base.Comp.{
  Error, runtime_error, Result, ok, throw, Comp, bind_result, ◌>>=◌, ◌>>◌, pure, require, and_also,
}
use jubatus.Base.Int.{ℤ}
use jubatus.Base.Text.{Text, text_eq}
use jubatus.LockService.{LockService, call}
use jubatus.Membership.{build_config_path, build_config_lock_path, get_all_nodes}
use jubatus.Mutex.{ZkMutex, try_lock, unlock, unlock_r}

-- `config_fromlocal`: the file is there with its bytes, or cannot be opened.
pub config_fromlocal : (Text → Option Text) → Text → Result Text
config_fromlocal file path = elim (file path) [ none ↦ throw runtime_error | some bytes ↦ ok bytes ]

no_nodes : Option (List (Text × ℤ)) → Bool
no_nodes none = true
no_nodes (some []) = true
no_nodes (some (n ∷ ns)) = false

module _ {S : Type 0} (ls : LockService S) (exists : Text → S → Bool × S)
    (set : Text → Text → S → Bool × S) (starts_with : Text → Text → Bool) (junk : Text)
    (parses : Text → Bool) (type name : Text) where
  -- The return value of `get_all_nodes` is not tested: a failed listing leaves no nodes.
  pub is_no_workers : S → Bool × S
  unfolding no_nodes
  is_no_workers s = let r = get_all_nodes ls type name s in (no_nodes r.0, r.1)

  found_config : Option Text → Comp S Text
  found_config none s = (throw runtime_error, s)
  found_config (some config) s = (ok config, s)

  unfoldable pub config_fromzk : Comp S Text
  unfolding found_config
  config_fromzk = do
    there ← call (exists (build_config_path type name))
    require there runtime_error
    config ← call (ls.read (build_config_path type name))
    found_config config

  abbrev pub config_lock : ZkMutex
  config_lock = record {
    path = build_config_lock_path type name;
    seqfile = [];
    has_lock = false;
    has_rlock = false;
  }

  -- The destructor of the lock.
  pub release : {A : Type 0} → ZkMutex → Result A × S → Result A × S
  release m r =
      let w = unlock ls starts_with junk m r.1 in (r.0, (unlock_r ls starts_with junk w.0.1 w.1).1)

  -- The loop on `retry`; the body follows with the lock held, and the destructor after either.
  locked : ℕ → Comp S (Unit {0}) → ZkMutex → Comp S (Unit {0})
  unfolding release
  locked zero body m s =
      let r = try_lock ls starts_with junk m s in
      release r.0.1 (if r.0.0 then body r.1 else (throw runtime_error, r.1))
  locked (suc retry) body m s =
      let r = try_lock ls starts_with junk m s in
      let again = locked retry body r.0.1 r.1 in if r.0.0 then release r.0.1 (body r.1) else again

  write_config : Text → Comp S (Unit {0})
  write_config config = do
    idle ← call is_no_workers
    require idle runtime_error
    a ← and_also true (call (ls.create (build_config_path type name) [] false))
    b ← and_also a (call (set (build_config_path type name) config))
    require b runtime_error

  pub config_tozk : Text → Comp S (Unit {0})
  unfolding locked write_config
  config_tozk config = do
    require (not (text_eq config [])) runtime_error
    require (parses config) runtime_error
    there ← call (exists (build_config_lock_path type name))
    require there runtime_error
    locked 3 (write_config config) config_lock

  drop_config : Comp S (Unit {0})
  drop_config = do
    idle ← call is_no_workers
    require idle runtime_error
    there ← call (exists (build_config_path type name))
    require there runtime_error
    gone ← call (ls.remove (build_config_path type name))
    require gone runtime_error

  pub remove_config_fromzk : Comp S (Unit {0})
  unfolding locked drop_config
  remove_config_fromzk = do
    there ← call (exists (build_config_lock_path type name))
    require there runtime_error
    locked 3 drop_config config_lock
