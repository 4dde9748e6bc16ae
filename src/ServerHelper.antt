-- ===== src/ServerHelper.antt =====
-- jubatus/server/framework/server_helper.cpp and server_helper.hpp, built with ZooKeeper: how a server is made, registered in
-- its cluster, started and stopped. The RPC server, the mixer's thread and the server's methods are parameters.
pub mod ConfigLock
pub mod Cluster
pub mod Construct
use jubatus.Base.{
  ℕ, zero, suc, ◌≡◌, Bool, true, false, not, ◌&&◌, ◌||◌, List, [], ◌∷◌, ◌++◌, Option, none, some,
  if◌then◌else◌,
}
use jubatus.Argv.{ServerArgv, is_standalone, is_empty, Start, ready, exits, fails}
use jubatus.Base.Comp.{
  Error, runtime_error, null_pointer, Result, ok, throw, Comp, bind_result, ◌>>=◌, ◌>>◌, pure,
  require,
}
use jubatus.Base.Int.{ℤ, pos, negsuc}
use jubatus.Base.Text.{Text}
use jubatus.Cht
use jubatus.LockService.{LockService}
use jubatus.Membership.{build_config_lock_path, prepare_jubatus, register_actor, watch_delete_actor}
use jubatus.Mutex.{ZkMutex, try_rlock, unlock, unlock_r}

-- `zk` says that the pointer `zk_` is set, and `registered` that the process has registered it.
pub record Helper (S Server : Type 0) : Type 0 where
  pub zk : Bool
  pub registered : Bool
  pub zk_config_lock : Option ZkMutex
  pub server : Option Server
  pub net : S

-- Which exceptions the handlers catch, and the one that a bad configuration becomes.
pub record Classes : Type 0 where
  pub is_cast_check_error : Error → Bool
  pub is_parse_error : Error → Bool
  pub is_runtime_error : Error → Bool
  pub is_jubatus : Error → Bool
  pub config_exception : Error

-- The server's class: its constructor and two of its methods.
pub record ServerClass (Server : Type 0) : Type 0 where
  pub new : ServerArgv → Server
  pub set_config : Text → Comp Server (Unit {0})
  pub load_file : Text → Comp Server (Unit {0})

-- The RPC server and the mixer.
pub record Running (S : Type 0) : Type 0 where
  pub listen : ℤ → Text → Comp S (Unit {0})
  pub start : ℤ → Comp S (Unit {0})
  pub join : Comp S (Unit {0})
  pub end : S → S
  pub mixer_start : Comp S (Unit {0})
  pub mixer_stop : S → S

pub on_net : {S Server A : Type 0} → Comp S A → Comp (Helper S Server) A
on_net m h = let r = m h.net in (r.0, record h { net = r.1 })

-- The handlers of `start`: a system error is not a jubatus_exception.
start_code : Classes → Result (Unit {0}) → Result ℤ
start_code classes (ok a) = ok (pos 0)
start_code classes (throw e) = if classes.is_jubatus e then throw e else ok (negsuc 0)

module _ (show : ℤ → Text) (make_hash : Text → Text) (starts_with : Text → Text → Bool)
    (junk : Text) {S Server : Type 0} (ls : LockService S) (force_close : S → S) (classes : Classes)
    (class : ServerClass Server) (run : Running S) (a : ServerArgv) where
  -- The destructor of the lock.
  pub drop_lock : Option ZkMutex → S → S
  drop_lock none s = s
  drop_lock (some m) s =
      let w = unlock ls starts_with junk m s in (unlock_r ls starts_with junk w.0.1 w.1).1

  -- `close_lock_service`, and the pointers that are reset before it.
  pub close_lock_service : Helper S Server → Helper S Server
  unfolding drop_lock
  close_lock_service h =
      let s = drop_lock h.zk_config_lock h.net in
      record h {
        zk = false;
        registered = false;
        zk_config_lock = none;
        net = if h.registered then force_close s else s;
      }

  -- The constructor of `server_helper_impl`; `create_lock_service` has connected.
  pub server_helper_impl : Comp (Helper S Server) (Unit {0})
  server_helper_impl h =
      if is_standalone a
      then (ok tt, h)
      else if h.registered
      then (throw runtime_error, record h { zk = true })
      else (ok tt, record h { zk = true; registered = true })

  pub prepare_for_start : Comp (Helper S Server) (Unit {0})
  prepare_for_start h =
      if is_standalone a then (ok tt, h) else on_net (prepare_jubatus ls a.type a.name) h

  -- The path of the node that is watched says which process is to end: the callback is number 0.
  join_cluster : Bool → Comp S (Unit {0})
  join_cluster use_cht = do
    if use_cht then Cht.setup_cht_dir show make_hash ls a.type a.name else pure tt
    if use_cht then Cht.register_node show make_hash ls a.type a.name a.eth a.port else pure tt
    register_actor show ls a.type a.name a.eth a.port
    watch_delete_actor show ls a.type a.name a.eth a.port 0

  pub prepare_for_run : Bool → Comp (Helper S Server) (Unit {0})
  unfolding join_cluster
  prepare_for_run use_cht h =
      if is_standalone a then (ok tt, h) else on_net (join_cluster use_cht) h

  -- The loop, with `retry` attempts left after the next one.
  lock_loop : ℕ → ZkMutex → S → (Result (Unit {0}) × ZkMutex) × S
  lock_loop zero m s =
      let r = try_rlock ls starts_with junk m s in
      ((if r.0.0 then ok tt else throw runtime_error, r.0.1), r.1)
  lock_loop (suc retry) m s =
      let r = try_rlock ls starts_with junk m s in
      let again = lock_loop retry r.0.1 r.1 in if r.0.0 then ((ok tt, r.0.1), r.1) else again

  abbrev config_lock : ZkMutex
  config_lock = record {
    path = build_config_lock_path a.type a.name;
    seqfile = [];
    has_lock = false;
    has_rlock = false;
  }

  pub get_config_lock : ℕ → Comp (Helper S Server) (Unit {0})
  unfolding lock_loop
  get_config_lock retry h =
      let r = lock_loop retry config_lock (drop_lock h.zk_config_lock h.net) in
      if is_standalone a
      then (ok tt, h)
      else (r.0.0, record h { zk_config_lock = some r.0.1; net = r.1 })

  pub prepare_for_stop : Helper S Server → Helper S Server
  prepare_for_stop h =
      let s = drop_lock h.zk_config_lock h.net in
      if is_standalone a
      then record h { zk = false; zk_config_lock = none; net = s }
      else close_lock_service h

  -- A call of a method of the server.
  on_server : Comp Server (Unit {0}) → Option Server → Comp (Helper S Server) (Unit {0})
  on_server m none h = (throw null_pointer, h)
  on_server m (some v) h = let r = m v in (r.0, record h { server = some r.1 })

  start_steps : Bool → Comp (Helper S Server) (Unit {0})
  start_steps use_cht = do
    on_net (run.listen a.port a.bind_address)
    on_net (run.start a.threadnum)
    prepare_for_run use_cht
    if is_standalone a then pure tt else on_net run.mixer_start
    on_net run.join

  pub start : Bool → Comp (Helper S Server) ℤ
  unfolding start_steps start_code
  start use_cht h = let r = start_steps use_cht h in (start_code classes r.0, r.1)

  -- The action on a terminating signal.
  pub stop : Helper S Server → Helper S Server
  stop h =
      let g = prepare_for_stop (record h { net = run.mixer_stop h.net }) in
      let stopped = if is_standalone a then h else g in record stopped { net = run.end stopped.net }
