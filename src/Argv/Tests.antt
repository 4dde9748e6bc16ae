-- ===== src/Argv/Tests.antt =====
-- Command lines of a server with and without ZooKeeper.
use jubatus.Base.{◌≡◌, refl, true, false, [], ◌∷◌, some, none}
use jubatus.Base.Comp.{ok}
use jubatus.Base.Int.{pos, negsuc, int_lt}
use jubatus.Base.Text.{Text, codes}
use jubatus.Argv.{
  ServerArgv, Options, System, ready, exits, addresses, resolved, first_argv, standalone_config,
  writable_dir, server_argv, lower_bound_reader, proxy_argv,
}
use jubatus.Argv.Usable.{IsUsable, server_argv-IsUsable}

abbrev machine : System
machine = record {
  program_name = codes "jubastat";
  get_ip = λ nic. ok (codes "10.0.0.1");
  default_v4_address = ok (codes "192.168.0.2");
  real_path = λ path. ok (b'/' ∷ path);
  is_writable = λ path. true;
}

abbrev given : Options
given = record {
  rpc_port = pos 9199;
  listen_addr = [];
  listen_if = [];
  thread = pos 2;
  timeout = pos 10;
  datadir = codes "tmp";
  logdir = [];
  log_config = [];
  configpath = [];
  model_file = [];
  daemon = false;
  zookeeper = codes "localhost:2181";
  name = codes "c";
  mixer = codes "linear_mixer";
  interval_sec = pos 16;
  interval_count = pos 512;
  zookeeper_timeout = pos 10;
  interconnect_timeout = pos 10;
  version = false;
}

abbrev kind : Text
kind = codes "stat"

abbrev started : ServerArgv
started = record {
  port = pos 9199;
  bind_address = codes "0.0.0.0";
  bind_if = [];
  timeout = pos 10;
  zookeeper_timeout = pos 10;
  interconnect_timeout = pos 10;
  threadnum = pos 2;
  program_name = codes "jubastat";
  type = kind;
  z = codes "localhost:2181";
  name = codes "c";
  datadir = codes "/tmp";
  logdir = [];
  log_config = [];
  configpath = [];
  modelpath = [];
  eth = codes "192.168.0.2";
  interval_sec = pos 16;
  interval_count = pos 512;
  mixer = codes "linear_mixer";
  daemon = false;
}

starts : server_argv machine kind given ≡ ready started
unfolding server_argv first_argv addresses resolved standalone_config writable_dir int_lt
starts = refl

server_argv-IsUsable_example : IsUsable machine kind given started
server_argv-IsUsable_example = server_argv-IsUsable machine kind given started starts

needs_name : server_argv machine kind (record given { name = [] }) ≡ exits 1
unfolding server_argv first_argv addresses resolved
needs_name = refl

needs_config : server_argv machine kind (record given { zookeeper = [] }) ≡ exits 1
unfolding server_argv first_argv addresses resolved standalone_config
needs_config = refl

needs_timeout :
    proxy_argv machine kind (record given { zookeeper_timeout = pos 0 }) (pos 60) (pos 0) ≡ exits 1
unfolding proxy_argv addresses resolved int_lt
needs_timeout = refl

-- The bound itself is accepted.
reads_bound : lower_bound_reader (λ s. some (pos 1)) (pos 1) (codes "1") ≡ some (pos 1)
unfolding lower_bound_reader int_lt
reads_bound = refl

refuses_negative : lower_bound_reader (λ s. some (negsuc 0)) (pos 0) (codes "-1") ≡ none
unfolding lower_bound_reader int_lt
refuses_negative = refl
