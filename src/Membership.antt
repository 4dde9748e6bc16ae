-- ===== src/Membership.antt =====
-- jubatus/server/common/membership.cpp and membership.hpp: the paths of the cluster's nodes in the
-- lock service, and the registration of servers, active servers and proxies. `show` is
-- `lexical_cast<std::string, int>`.
pub mod Names
pub mod Registration
pub mod Failure
mod Tests
use jubatus.Base.{
  ℕ, zero, suc, ◌≡◌, Bool, true, false, ◌&&◌, List, [], ◌∷◌, ◌++◌, map, Option, none, some,
}
use jubatus.Base.Comp.{
  Error, runtime_error, ok, Comp, ◌>>=◌, ◌>>◌, pure, require, and_then, and_also,
}
use jubatus.Base.Int.{ℤ, pos, atoi}
use jubatus.Base.Text.{Text, codes, before, after, text_eq}
use mathlib.Core.Option
use jubatus.LockService.{LockService, Cleanup, shutdown_server, force_exit, call}

abbrev pub jubatus_base_path : Text
jubatus_base_path = codes "/jubatus"

abbrev pub jubavisor_base_path : Text
jubavisor_base_path = codes "/jubatus/supervisors"

abbrev pub jubaproxy_base_path : Text
jubaproxy_base_path = codes "/jubatus/jubaproxies"

abbrev pub actor_base_path : Text
actor_base_path = codes "/jubatus/actors"

abbrev pub config_base_path : Text
config_base_path = codes "/jubatus/config"

unfoldable pub build_actor_path : Text → Text → Text
build_actor_path type name = actor_base_path ++ (b'/' ∷ (type ++ (b'/' ∷ name)))

unfoldable pub build_active_path : Text → Text → Text
build_active_path type name = actor_base_path ++ (b'/' ∷ (type ++ (b'/' ∷ name)))

unfoldable pub build_config_path : Text → Text → Text
build_config_path type name = config_base_path ++ (b'/' ∷ (type ++ (b'/' ∷ name)))

unfoldable pub build_config_lock_path : Text → Text → Text
build_config_lock_path type name = build_actor_path type name ++ codes "/config_lock"

unfoldable pub revert : Text → Text × ℤ
revert name = (before b'_' name, atoi (after b'_' name))

module _ (show : ℤ → Text) where
  abbrev index_suffix : ℕ → Text
  index_suffix zero = []
  index_suffix (suc i) = b'_' ∷ show (pos (suc i))

  unfoldable pub build_loc_str : Text → ℤ → ℕ → Text
  build_loc_str ip port i = ip ++ (b'_' ∷ (show port ++ index_suffix i))

  unfoldable pub build_existence_path : Text → Text → ℤ → Text
  build_existence_path base ip port = base ++ (b'/' ∷ (ip ++ (b'_' ∷ show port)))

  module _ {S : Type 0} (ls : LockService S) where
    -- The directories of a cluster: its node, its master lock and one list of members.
    create_cluster_dirs : Text → Text → Text → Comp S Bool
    create_cluster_dirs type name list_dir = do
      let path = build_actor_path type name
      s1 ← and_then true (call (ls.create path [] false))
      s2 ← and_then s1 (call (ls.create (path ++ codes "/master_lock") [] false))
      and_then s2 (call (ls.create (path ++ list_dir) [] false))

    -- The common body of `register_actor` and `register_active`.
    pub register : Text → Cleanup → Text → Text → Text → ℤ → Comp S (Unit {0})
    unfolding create_cluster_dirs
    register list_dir cleanup type name ip port = do
      let path = build_actor_path type name ++ list_dir
      s ← create_cluster_dirs type name list_dir
      success ← and_then s (call (ls.create (build_existence_path path ip port) [] true))
      require success runtime_error
      call (λ st. (tt, ls.push_cleanup cleanup st))

    unfoldable pub register_actor : Text → Text → Text → ℤ → Comp S (Unit {0})
    unfolding register
    register_actor = register (codes "/nodes") shutdown_server

    unfoldable pub register_active : Text → Text → Text → ℤ → Comp S (Unit {0})
    unfolding register
    register_active = register (codes "/actives") force_exit

    pub unregister_active : Text → Text → Text → ℤ → Comp S (Unit {0})
    unregister_active type name ip port = do
      let path = build_actor_path type name ++ codes "/actives"
      success ← and_then true (call (ls.remove (build_existence_path path ip port)))
      require success runtime_error

    unfoldable pub watch_delete_actor : Text → Text → Text → ℤ → ℕ → Comp S (Unit {0})
    unfolding create_cluster_dirs
    watch_delete_actor type name ip port callback = do
      let path = build_actor_path type name ++ codes "/nodes"
      s ← create_cluster_dirs type name (codes "/nodes")
      require s runtime_error
      bound ← call (ls.bind_delete_watcher (build_existence_path path ip port) callback)
      require bound runtime_error
      call (λ st. (tt, ls.push_cleanup shutdown_server st))

    pub register_proxy : Text → Text → ℤ → Comp S (Unit {0})
    register_proxy type ip port = do
      let path = jubaproxy_base_path ++ (b'/' ∷ type)
      s1 ← and_also true (call (ls.create jubaproxy_base_path [] false))
      s2 ← and_also s1 (call (ls.create path [] false))
      s3 ← and_also s2 (call (ls.create (build_existence_path path ip port) [] true))
      require s3 runtime_error
      call (λ st. (tt, ls.push_cleanup shutdown_server st))

module _ {S : Type 0} (ls : LockService S) where
  -- `none` is the return value `false`; the out parameter is then empty.
  get_all_node : Text → S → Option (List (Text × ℤ)) × S
  get_all_node path s = let (names, s') = ls.list path s in (Option.map (map revert) names, s')

  unfoldable pub get_all_nodes : Text → Text → S → Option (List (Text × ℤ)) × S
  unfolding get_all_node
  get_all_nodes type name = get_all_node (build_actor_path type name ++ codes "/nodes")

  unfoldable pub get_all_actives : Text → Text → S → Option (List (Text × ℤ)) × S
  unfolding get_all_node
  get_all_actives type name = get_all_node (build_active_path type name ++ codes "/actives")

  -- `success = ls.create(path) && success` for each path in turn.
  create_each : Bool → List Text → Comp S Bool
  create_each success [] = pure success
  create_each success (path ∷ paths) = do
    s ← and_also success (call (ls.create path [] false))
    create_each s paths

  abbrev cluster_paths : Text → Text → List Text
  cluster_paths type [] = []
  cluster_paths type (c ∷ name) =
      build_actor_path type (c ∷ name) ∷ build_config_lock_path type (c ∷ name) ∷ []

  unfoldable pub prepare_jubatus : Text → Text → Comp S (Unit {0})
  unfolding create_each
  prepare_jubatus type name = do
    success ← create_each true (
        jubatus_base_path
        ∷ jubavisor_base_path
        ∷ jubaproxy_base_path
        ∷ actor_base_path
        ∷ config_base_path
        ∷ (actor_base_path ++ (b'/' ∷ type))
        ∷ (config_base_path ++ (b'/' ∷ type))
        ∷ cluster_paths type name)
    require success runtime_error
