-- ===== src/ServerHelper/Construct/Tests.antt =====
-- A server of a cluster with the lock service in memory.
use jubatus.Base.{
  ℕ, ◌≡◌, ◌≤◌, ◌<◌, ◌⊎◌, refl, Bool, true, false, List, [], ◌∷◌, Option, none, some, Mem, arith,
}
use jubatus.Argv.{ServerArgv, ready, fails}
use jubatus.Base.Comp.{Error, runtime_error, ok, throw}
use jubatus.Base.Int.{ℤ, pos}
use jubatus.Base.Text.{Text, codes, text_eq, text_lt}
use jubatus.Cht
use jubatus.Cht.Registration.{virtual}
use jubatus.Config.{config_fromzk}
use jubatus.Cht.{setup_cht_dir, register_node}
use jubatus.Membership.{
  build_config_path, build_config_lock_path, build_actor_path, build_existence_path, build_loc_str,
  get_all_nodes, prepare_jubatus, register_actor, watch_delete_actor,
}
use jubatus.Mutex.{ZkMutex, try_rlock, entry_key, beaten_by_writer}
use jubatus.Samples.Arguments.{cluster_argv}
use jubatus.Samples.Memory.{Memory, memory_service, memory_tree, has}
use jubatus.Samples.Notation.{show_int, show_int-Decimal}
use jubatus.ServerHelper.{
  Helper, Classes, ServerClass, Running, get_config_lock, prepare_for_run, join_cluster, on_net,
  server_helper_impl, prepare_for_start, lock_loop, on_server, drop_lock,
}
use jubatus.ServerHelper.Cluster.{prepare_for_run_lem}
use jubatus.ServerHelper.ConfigLock.{get_config_lock_lem, Taken, Failures, locked_by, fresh}
use jubatus.ServerHelper.Construct.{
  construct, after_impl, construct_body, unwound, get_conf, set_conf, load_model, conf_or_exit,
  set_or_exit,
}
use jubatus.ServerHelper.Construct.Life.{construct-stop, stopped, left, Gone}

abbrev hash : Text → Text
hash key = key

abbrev exists : Text → Memory → Bool × Memory
exists p s = (has p s.nodes, s)

abbrev set : Text → Text → Memory → Bool × Memory
set p x s = (has p s.nodes, s)

abbrev no_text : Text → Text → Bool
no_text s t = false

abbrev parses : Text → Bool
parses s = true

abbrev file : Text → Option Text
file path = none

abbrev force_close : Memory → Memory
force_close s = record s { functions = [] }

abbrev classes : Classes
classes = record {
  is_cast_check_error = λ e. false;
  is_parse_error = λ e. false;
  is_runtime_error = λ e. true;
  is_jubatus = λ e. true;
  config_exception = runtime_error;
}

abbrev server_class : ServerClass Text
server_class = record {
  new = λ a. [];
  set_config = λ config s. (ok tt, config);
  load_file = λ path s. (ok tt, s);
}

abbrev running : Running Memory
running = record {
  listen = λ port address s. (ok tt, s);
  start = λ threads s. (ok tt, s);
  join = λ s. (ok tt, s);
  end = λ s. s;
  mixer_start = λ s. (ok tt, s);
  mixer_stop = λ s. s;
}

abbrev argv : ServerArgv
argv = cluster_argv (codes "stat")

abbrev idle : Helper Memory Text
idle = record {
  zk = false;
  registered = false;
  zk_config_lock = none;
  server = none;
  net = record {
    nodes = (build_config_path (codes "stat") (codes "c"), codes "1") ∷ [];
    functions = [];
    versions = 0;
  };
}

program : Unit {0}
unfolding build_config_path build_config_lock_path build_actor_path build_existence_path text_eq
    text_lt entry_key try_rlock config_fromzk prepare_jubatus setup_cht_dir register_node
    register_actor watch_delete_actor build_loc_str Cht.cht_path
program = tt

prepared :
    (prepare_for_run show_int hash no_text [] memory_service force_close classes server_class
      running argv true idle).0
    ≡ ok tt
unfolding program prepare_for_run join_cluster on_net
prepared = refl

-- The server is made with the configuration that is in the lock service.
comes_up :
    let made =
      construct show_int hash no_text [] memory_service force_close classes server_class running
        argv file exists set parses idle in
    (made.0 ≡ ready tt) × (made.1.server ≡ some (codes "1"))
unfolding program construct after_impl construct_body unwound get_conf set_conf load_model
    conf_or_exit beaten_by_writer drop_lock set_or_exit server_helper_impl prepare_for_start
    get_config_lock lock_loop on_server on_net
comes_up = (refl, refl)

get_config_lock_lem_example :
    let r =
      get_config_lock show_int hash no_text [] memory_service force_close classes server_class
        running argv 3 idle in
    let mine =
      fresh show_int hash no_text [] memory_service force_close classes server_class running argv in
    (m : ZkMutex) × (s : Memory) × (r.1
      ≡ locked_by show_int hash no_text [] memory_service force_close classes server_class running
          argv idle m s)
    × (((n : ℕ) × (n ≤ 3) × (r.0 ≡ ok tt) × Taken no_text [] memory_service n mine idle.net m s)
        ⊎ ((r.0 ≡ throw runtime_error) × Failures no_text [] memory_service 4 mine idle.net m s))
get_config_lock_lem_example =
    get_config_lock_lem show_int hash no_text [] memory_service force_close classes server_class
      running argv 3 idle refl refl

construct-stop_example :
    let made =
      construct show_int hash no_text [] memory_service force_close classes server_class running
        argv file exists set parses idle in
    ((made.0 ≡ ready tt)
      → (m : ZkMutex) × (made.1.zk_config_lock ≡ some m)
        × (m.has_lock ≡ false)
        × (m.has_rlock ≡ true)
        × (stopped show_int hash no_text [] memory_service force_close classes server_class running
              argv file exists set parses made.1
            ≡ left show_int hash no_text [] memory_service force_close classes server_class running
                argv file exists set parses m made.1))
    × ((e : Error)
        → made.0 ≡ fails e
        → Gone show_int hash no_text [] memory_service force_close classes server_class running argv
            file exists set parses made.1)
construct-stop_example =
    construct-stop show_int hash no_text [] memory_service force_close classes server_class running
      argv file exists set parses idle refl refl refl

prepare_for_run_lem_example :
    let net =
      (prepare_for_run show_int hash no_text [] memory_service force_close classes server_class
        running argv true idle).1.net in
    ((ret : List (Text × ℤ))
      → (get_all_nodes memory_service argv.type argv.name net).0 ≡ some ret
      → Mem (argv.eth, pos 9) ret)
    × (◌≡◌ {A = Bool} true true
        → (j : ℕ) → j < Cht.num_vserv
        → memory_tree.exists net (
            virtual show_int hash memory_service memory_tree argv.type argv.name argv.eth (pos 9) j)
          ≡ true)
prepare_for_run_lem_example =
    prepare_for_run_lem show_int hash no_text [] memory_service force_close classes server_class
      running argv memory_tree 9 refl (λ p q n st h. h) true idle refl show_int-Decimal
      (ground arith) (ground arith) prepared
