-- ===== src/Config/Tests.antt =====
-- A configuration written to the lock service in memory while a server is registered.
use jubatus.Base.{◌≡◌, refl, Bool, true, false, List, [], ◌∷◌, ◌++◌, none, some}
use jubatus.Base.Comp.{runtime_error, ok, throw}
use jubatus.Base.Int.{ℤ, pos, atoi}
use jubatus.Base.Text.{Text, codes, text_eq, text_lt, before, after, digits_value}
use jubatus.Config.{config_tozk, release, config_lock}
use jubatus.Config.Workers.{config_tozk_lem}
use jubatus.LockService.{child}
use jubatus.Membership.{
  build_config_path, build_config_lock_path, build_actor_path, get_all_nodes, revert,
}
use jubatus.Mutex.{ZkMutex, try_lock, beaten, entry_key}
use jubatus.Samples.Memory.{Memory, memory_service, has}

abbrev exists : Text → Memory → Bool × Memory
exists p s = (has p s.nodes, s)

abbrev set : Text → Text → Memory → Bool × Memory
set p x s = (has p s.nodes, s)

abbrev no_text : Text → Text → Bool
no_text s t = false

abbrev parses : Text → Bool
parses s = true

abbrev kind : Text
kind = codes "t"

abbrev cluster : Text
cluster = codes "c"

abbrev busy : Memory
busy = record {
  nodes =
      (build_config_lock_path kind cluster, [])
      ∷ (child (build_actor_path kind cluster ++ codes "/nodes") (codes "h_9"), [])
      ∷ [];
  functions = [];
  versions = 0;
}

abbrev attempt : (Bool × ZkMutex) × Memory
attempt =
    try_lock memory_service no_text []
      (config_lock memory_service exists set no_text [] parses kind cluster) busy

program : Unit {0}
unfolding build_config_lock_path build_actor_path get_all_nodes try_lock beaten entry_key revert
    text_eq text_lt before after atoi digits_value
program = tt

lock_there : exists (build_config_lock_path kind cluster) busy ≡ (true, busy)
unfolding program
lock_there = refl

lock_taken : attempt ≡ ((true, attempt.0.1), attempt.1)
unfolding program
lock_taken = refl

server_listed :
    get_all_nodes memory_service kind cluster attempt.1
    ≡ (some ((codes "h", pos 9) ∷ []), attempt.1)
unfolding program
server_listed = refl

config_tozk_lem_example :
    let let_go = release memory_service exists set no_text [] parses kind cluster attempt.0.1 in
    let tozk =
      config_tozk memory_service exists set no_text [] parses kind cluster (codes "1") busy in
    let made = memory_service.create (build_config_path kind cluster) [] false attempt.1 in
    let written = set (build_config_path kind cluster) (codes "1") made.1 in
    ((n : Text × ℤ) (ns : List (Text × ℤ))
      → get_all_nodes memory_service kind cluster attempt.1 ≡ (some (n ∷ ns), attempt.1)
      → tozk ≡ let_go (throw runtime_error, attempt.1))
    × (get_all_nodes memory_service kind cluster attempt.1 ≡ (none, attempt.1)
        → made.0 ≡ true
        → written.0 ≡ true
        → tozk ≡ let_go (ok tt, written.1))
config_tozk_lem_example =
    config_tozk_lem memory_service exists set no_text [] parses kind cluster (codes "1") busy busy
      attempt.1 attempt.1 attempt.0.1 (λ e. cc) refl lock_there lock_taken
