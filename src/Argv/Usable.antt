-- ===== src/Argv/Usable.antt =====
-- What holds of the arguments of a server that starts.
use jubatus.Base.{ℕ, ◌≡◌, refl, Bool, true, false, not, ◌&&◌, [], ◌∷◌, arith}
use jubatus.Base.Comp.{Result, ok, throw}
use jubatus.Base.Int.{pos, int_lt}
use jubatus.Base.Text.{Text}
use jubatus.Argv.{
  ServerArgv, is_empty, is_standalone, Options, System, Start, ready, exits, fails, ◌>>=◌,
  from_result, exit_if, addresses, resolved, first_argv, standalone_config, writable_dir,
  server_argv,
}

>>=-ready :
    {A B : Type 0} (m : Start A) (f : A → Start B) {b : B}
    → (m >>= f) ≡ ready b
    → (a : A) × (m ≡ ready a) × (f a ≡ ready b)
>>=-ready (ready a) f h = (a, refl, h)
>>=-ready (exits n) f h = cc
>>=-ready (fails e) f h = cc

ready_inj : {A : Type 0} {a b : A} → ready a ≡ ready b → a ≡ b
ready_inj h = cc

exit_if-ready : (t : Bool) (code : ℕ) {u : Unit {0}} → exit_if t code ≡ ready u → t ≡ false
exit_if-ready true code h = absurd (ground arith)
exit_if-ready false code h = refl

from_result-ready : {A : Type 0} (r : Result A) {a : A} → from_result r ≡ ready a → r ≡ ok a
from_result-ready (ok a) h = ground arith
from_result-ready (throw e) h = absurd (ground arith)

writable_dir-ready :
    (sys : System) (dir path : Text)
    → writable_dir sys dir ≡ ready path
    → is_empty dir ≡ false
    → (sys.real_path dir ≡ ok path) × (sys.is_writable path ≡ true)
unfolding writable_dir
writable_dir-ready sys [] path h n = absurd (ground arith)
writable_dir-ready sys (c ∷ dir) path h n =
    let (found, e, h1) = >>=-ready (from_result (sys.real_path (c ∷ dir))) _ h in
    let (u, w, last) = >>=-ready (exit_if (not (sys.is_writable found)) 1) _ h1 in
    let real = from_result-ready (sys.real_path (c ∷ dir)) e in
    let open_dir = exit_if-ready (not (sys.is_writable found)) 1 w in
    let same : found ≡ path = ground arith in (rw (← same) real, rw (← same) (ground arith))

standalone_config-ready :
    (sys : System) (a : ServerArgv) (path : Text)
    → standalone_config sys a ≡ ready path
    → is_standalone a ≡ true
    → (is_empty a.configpath ≡ false) × (sys.real_path a.configpath ≡ ok path)
unfolding standalone_config
standalone_config-ready sys a path h s =
    let (u, e, h1) = >>=-ready (exit_if (is_empty a.configpath) 1) _ (rw s at h) in
    (exit_if-ready (is_empty a.configpath) 1 e, from_result-ready (sys.real_path a.configpath) h1)

addresses-given :
    (sys : System) (addr bind_if : Text) {ips : Text × Text}
    → addresses sys addr bind_if ≡ ok ips
    → is_empty addr ≡ false
    → (ips.0 ≡ addr) × (ips.1 ≡ addr)
unfolding addresses
addresses-given sys [] bind_if h n = absurd (ground arith)
addresses-given sys (c ∷ addr) bind_if h n = ground arith

-- What a check of the distributed mode rules out.
named_part :
    (z : Text) (s : is_empty z ≡ false) (x : Bool) (code : ℕ) {u : Unit {0}}
    → exit_if (not (is_empty z) && x) code ≡ ready u
    → x ≡ false
named_part z s x code e = let r = exit_if-ready (not (is_empty z) && x) code e in rw s at r

module _ (sys : System) (type : Text) (p : Options) where
  -- A server without ZooKeeper has a configuration file, whose path is resolved; one with it has a
  -- name and timeouts of one second or more. Directories that are given can be written to. An
  -- address that is given is listened at, and the server is known by it.
  pub record IsUsable (a : ServerArgv) : Type 0 where
    pub configured :
        is_standalone a ≡ true
        → (is_empty p.configpath ≡ false) × (sys.real_path p.configpath ≡ ok a.configpath)
    pub named :
        is_standalone a ≡ false
        → (is_empty a.name ≡ false)
          × (int_lt a.zookeeper_timeout (pos 1) ≡ false)
          × (int_lt a.interconnect_timeout (pos 1) ≡ false)
    pub data_dir :
        is_empty p.datadir ≡ false
        → (sys.real_path p.datadir ≡ ok a.datadir) × (sys.is_writable a.datadir ≡ true)
    pub log_dir :
        is_empty p.logdir ≡ false
        → (sys.real_path p.logdir ≡ ok a.logdir) × (sys.is_writable a.logdir ≡ true)
    pub bound :
        is_empty p.listen_addr ≡ false → (a.bind_address ≡ p.listen_addr) × (a.eth ≡ p.listen_addr)

  -- When the constructor of `server_argv` returns, neither exiting nor throwing, a server without
  -- ZooKeeper has a configuration file, whose path has been resolved; a server with it has a name, and
  -- timeouts for ZooKeeper and between servers of one second or more; the directories for data and
  -- logs that were given have been resolved and can be written to; and a listen address
  -- that was given is both listened at and the name that the server is known by.
  pub server_argv-IsUsable : (a : ServerArgv) → server_argv sys type p ≡ ready a → IsUsable a
  unfolding server_argv first_argv
  server_argv-IsUsable a h =
      let (u0, e0, h0) = >>=-ready (exit_if p.version 0) _ h in
      let (ips, e1, h1) = >>=-ready (from_result (addresses sys p.listen_addr p.listen_if)) _ h0 in
      let (log, e2, h2) = >>=-ready (from_result (resolved sys p.log_config)) _ h1 in
      let first = first_argv sys type p ips log in
      let (u3, e3, h3) =
        >>=-ready (exit_if (not (is_standalone first) && is_empty p.name) 1) _ h2 in
      let (conf, e4, h4) = >>=-ready (standalone_config sys first) _ h3 in
      let (model, e5, h5) = >>=-ready (from_result (resolved sys p.model_file)) _ h4 in
      let (u6, e6, h6) =
        >>=-ready (exit_if (not (is_standalone first) && int_lt p.zookeeper_timeout (pos 1)) 1) _
          h5 in
      let (u7, e7, h7) =
        >>=-ready (exit_if (not (is_standalone first) && int_lt p.interconnect_timeout (pos 1)) 1) _
          h6 in
      let (dir, e8, h8) = >>=-ready (writable_dir sys p.datadir) _ h7 in
      let (logs, e9, h9) = >>=-ready (writable_dir sys p.logdir) _ h8 in
      let same : record first { configpath = conf; modelpath = model; datadir = dir; logdir = logs }
          ≡ a =
        ready_inj h9 in
      rw (← same) (record {
        configured = λ s. standalone_config-ready sys first conf e4 s;
        named = λ s. (
          named_part p.zookeeper s (is_empty p.name) 1 e3,
          named_part p.zookeeper s (int_lt p.zookeeper_timeout (pos 1)) 1 e6,
          named_part p.zookeeper s (int_lt p.interconnect_timeout (pos 1)) 1 e7,
        );
        data_dir = writable_dir-ready sys p.datadir dir e8;
        log_dir = writable_dir-ready sys p.logdir logs e9;
        bound =
            addresses-given sys p.listen_addr p.listen_if
              (from_result-ready (addresses sys p.listen_addr p.listen_if) e1);
      })
