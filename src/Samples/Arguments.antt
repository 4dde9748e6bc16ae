-- ===== src/Samples/Arguments.antt =====
-- The arguments of a server at the address `h`, port 9, in the cluster `c`, and of one without a cluster.
use jubatus.Argv.{ServerArgv}
use jubatus.Base.{false, []}
use jubatus.Base.Int.{pos}
use jubatus.Base.Text.{Text, codes}

abbrev pub cluster_argv : Text → ServerArgv
cluster_argv kind = record {
  port = pos 9;
  bind_address = [];
  bind_if = [];
  timeout = pos 10;
  zookeeper_timeout = pos 10;
  interconnect_timeout = pos 10;
  threadnum = pos 2;
  program_name = codes "juba";
  type = kind;
  z = codes "z";
  name = codes "c";
  datadir = codes "/tmp";
  logdir = [];
  log_config = [];
  configpath = [];
  modelpath = [];
  eth = codes "h";
  interval_sec = pos 16;
  interval_count = pos 512;
  mixer = codes "linear_mixer";
  daemon = false;
}

abbrev pub alone_argv : Text → ServerArgv
alone_argv kind = record (cluster_argv kind) { z = []; name = []; configpath = codes "/c" }
