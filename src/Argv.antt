-- ===== src/Argv.antt =====
-- jubatus/server/framework/server_util.cpp and server_util.hpp, built with ZooKeeper: what the servers and the proxies make of
-- their command lines, and the lock service that the process registers. The parser of
-- options is third-party, and so are the system calls: the values that it returns and the answers of the system are parameters.
pub mod Usable
mod Tests
use jubatus.Base.{
  ℕ, ◌≡◌, Bool, true, false, not, ◌&&◌, ◌||◌, List, [], ◌∷◌, ◌++◌, Option, none, some,
  if◌then◌else◌,
}
use jubatus.Base.Comp.{Error, runtime_error, Result, ok, throw, Comp, then_result}
use jubatus.Base.Int.{ℤ, pos, int_lt}
use jubatus.Base.Text.{Text, codes, text_eq}

-- `daemon` and `boot_message` have no effect on what follows but for signals and logs.
pub record ServerArgv : Type 0 where
  pub port : ℤ
  pub bind_address : Text
  pub bind_if : Text
  pub timeout : ℤ
  pub zookeeper_timeout : ℤ
  pub interconnect_timeout : ℤ
  pub threadnum : ℤ
  pub program_name : Text
  pub type : Text
  pub z : Text
  pub name : Text
  pub datadir : Text
  pub logdir : Text
  pub log_config : Text
  pub configpath : Text
  pub modelpath : Text
  pub eth : Text
  pub interval_sec : ℤ
  pub interval_count : ℤ
  pub mixer : Text
  pub daemon : Bool

abbrev pub is_empty : Text → Bool
is_empty [] = true
is_empty (c ∷ s) = false

abbrev pub is_standalone : ServerArgv → Bool
is_standalone a = is_empty a.z

-- The values of the options, as the parser gives them; `version` says that the option is there.
pub record Options : Type 0 where
  pub rpc_port : ℤ
  pub listen_addr : Text
  pub listen_if : Text
  pub thread : ℤ
  pub timeout : ℤ
  pub datadir : Text
  pub logdir : Text
  pub log_config : Text
  pub configpath : Text
  pub model_file : Text
  pub daemon : Bool
  pub zookeeper : Text
  pub name : Text
  pub mixer : Text
  pub interval_sec : ℤ
  pub interval_count : ℤ
  pub zookeeper_timeout : ℤ
  pub interconnect_timeout : ℤ
  pub version : Bool

-- The system: addresses of interfaces, resolved paths, and directories that can be written to.
pub record System : Type 0 where
  pub program_name : Text
  pub get_ip : Text → Result Text
  pub default_v4_address : Result Text
  pub real_path : Text → Result Text
  pub is_writable : Text → Bool

-- How a constructor ends: it returns, the process exits with a code, or an exception leaves it.
pub data Start (A : Type 0) : Type 0 where
  ready : A → Start A
  exits : ℕ → Start A
  fails : Error → Start A

infixl 5 ◌>>=◌ ◌>>◌
abbrev pub ◌>>=◌ : {A B : Type 0} → Start A → (A → Start B) → Start B
ready a >>= f = f a
exits n >>= f = exits n
fails e >>= f = fails e

abbrev pub ◌>>◌ : {A B : Type 0} → Start A → Start B → Start B
m >> k = m >>= λ _. k

abbrev pub from_result : {A : Type 0} → Result A → Start A
from_result (ok a) = ready a
from_result (throw e) = fails e

-- `if (wrong) exit(code);`
abbrev pub exit_if : Bool → ℕ → Start (Unit {0})
exit_if true code = exits code
exit_if false code = ready tt

-- `lower_bound_reader::operator()`; `none` is a command line error.
pub lower_bound_reader : (Text → Option ℤ) → ℤ → Text → Option ℤ
lower_bound_reader default_reader low s = elim (default_reader s) [
  | none ↦ none
  | some ret ↦ if int_lt ret low then none else some ret
]

-- The addresses to listen at and to be known by.
addresses : System → Text → Text → Result (Text × Text)
addresses sys [] [] = then_result sys.default_v4_address (λ eth. ok (codes "0.0.0.0", eth))
addresses sys [] (c ∷ bind_if) = then_result (sys.get_ip (c ∷ bind_if)) (λ ip. ok (ip, ip))
addresses sys (c ∷ bind_address) bind_if = ok (c ∷ bind_address, c ∷ bind_address)

-- `if (!path.empty()) path = real_path(path);`
resolved : System → Text → Result Text
resolved sys [] = ok []
resolved sys (c ∷ path) = sys.real_path (c ∷ path)

-- The fields as they are read, before the checks.
first_argv : System → Text → Options → Text × Text → Text → ServerArgv
first_argv sys type p ips log_config = record {
  port = p.rpc_port;
  bind_address = ips.0;
  bind_if = p.listen_if;
  timeout = p.timeout;
  zookeeper_timeout = p.zookeeper_timeout;
  interconnect_timeout = p.interconnect_timeout;
  threadnum = p.thread;
  program_name = sys.program_name;
  type = type;
  z = p.zookeeper;
  name = p.name;
  datadir = p.datadir;
  logdir = p.logdir;
  log_config = log_config;
  configpath = p.configpath;
  modelpath = p.model_file;
  eth = ips.1;
  interval_sec = p.interval_sec;
  interval_count = p.interval_count;
  mixer = p.mixer;
  daemon = p.daemon;
}

standalone_config : System → ServerArgv → Start Text
standalone_config sys a =
    if is_standalone a
    then (do exit_if (is_empty a.configpath) 1; from_result (sys.real_path a.configpath))
    else ready a.configpath

-- `if (!dir.empty()) { dir = real_path(dir); if (!is_writable(dir)) exit(1); }`
writable_dir : System → Text → Start Text
writable_dir sys [] = ready []
writable_dir sys (c ∷ dir) = do
  path ← from_result (sys.real_path (c ∷ dir))
  exit_if (not (sys.is_writable path)) 1
  ready path

-- The constructor of `server_argv` on the values of the options.
pub server_argv : System → Text → Options → Start ServerArgv
unfolding addresses resolved first_argv standalone_config writable_dir
server_argv sys type p = do
  exit_if p.version 0
  ips ← from_result (addresses sys p.listen_addr p.listen_if)
  log_config ← from_result (resolved sys p.log_config)
  let a = first_argv sys type p ips log_config
  exit_if (not (is_standalone a) && is_empty a.name) 1
  configpath ← standalone_config sys a
  modelpath ← from_result (resolved sys a.modelpath)
  exit_if (not (is_standalone a) && int_lt a.zookeeper_timeout (pos 1)) 1
  exit_if (not (is_standalone a) && int_lt a.interconnect_timeout (pos 1)) 1
  datadir ← writable_dir sys a.datadir
  logdir ← writable_dir sys a.logdir
  ready (record a {
    configpath = configpath;
    modelpath = modelpath;
    datadir = datadir;
    logdir = logdir;
  })

pub record ProxyArgv : Type 0 where
  pub port : ℤ
  pub bind_address : Text
  pub bind_if : Text
  pub timeout : ℤ
  pub zookeeper_timeout : ℤ
  pub interconnect_timeout : ℤ
  pub threadnum : ℤ
  pub program_name : Text
  pub z : Text
  pub logdir : Text
  pub log_config : Text
  pub eth : Text
  pub type : Text
  pub session_pool_expire : ℤ
  pub session_pool_size : ℤ
  pub daemon : Bool

-- The constructor of `proxy_argv`; the sizes of the session pool are options of their own, and its
-- log directory is not resolved.
pub proxy_argv : System → Text → Options → ℤ → ℤ → Start ProxyArgv
unfolding addresses resolved
proxy_argv sys type p pool_expire pool_size = do
  exit_if p.version 0
  ips ← from_result (addresses sys p.listen_addr p.listen_if)
  log_config ← from_result (resolved sys p.log_config)
  exit_if (int_lt p.zookeeper_timeout (pos 1)) 1
  exit_if (int_lt p.interconnect_timeout (pos 1)) 1
  exit_if (not (is_empty p.logdir) && not (sys.is_writable p.logdir)) 1
  ready (record {
    port = p.rpc_port;
    bind_address = ips.0;
    bind_if = p.listen_if;
    timeout = p.timeout;
    zookeeper_timeout = p.zookeeper_timeout;
    interconnect_timeout = p.interconnect_timeout;
    threadnum = p.thread;
    program_name = sys.program_name;
    z = p.zookeeper;
    logdir = p.logdir;
    log_config = log_config;
    eth = ips.1;
    type = type;
    session_pool_expire = pool_expire;
    session_pool_size = pool_size;
    daemon = p.daemon;
  })

-- `get_server_identifier` and `get_proxy_identifier`
pub get_identifier : (ℤ → Text) → Text → ℤ → Text
get_identifier show eth port = eth ++ (b'_' ∷ show port)
