-- ===== src/LinearMixer/Zookeeper.antt =====
-- linear_communication_impl in jubatus/server/framework/mixer/linear_mixer.cpp: the communication of the linear mixer over
-- the lock service, with the lock of zk.cpp and the calls of rpc_mclient. What the futures of a call
-- yield, and `get_model`, whose choice of a server depends on the clock, are parameters.
pub mod Registered
mod Tests
use jubatus.Base.{
  ℕ, zero, suc, ◌≡◌, ◌≢◌, refl, ◌∙◌, sym, ap, subst, Bool, true, false, not, List, [], ◌∷◌, ◌++◌,
  Option, none, some, length, Bool-cases, inl, inr, ◌⊎◌, arith,
}
use jubatus.Base.Comp.{
  Error, runtime_error, rpc_no_client, rpc_no_result, Result, ok, throw, Comp, ◌>>=◌,
}
use jubatus.Base.Int.{ℤ}
use jubatus.Base.Text.{Text, codes}
use jubatus.LockService.{LockService, Tree, Exact, force_exit}
use jubatus.Membership.{
  build_actor_path, build_existence_path, get_all_nodes, register, register_active,
  unregister_active,
}
use jubatus.Mutex.{ZkMutex, try_lock, unlock, unlock_r}
use jubatus.RpcMclient.{Host, Outcome, Reply, reply, no_client, no_result, RpcResultObject, wait}
use jubatus.LinearMixer.{Response, Communication}

pub record Link (S : Type 0) : Type 0 where
  pub servers : List Host
  pub lock : ZkMutex
  pub net : S

-- A call that throws passes its exception on; the error list of a reply is only logged.
response_or_throw : {S : Type 0} → Reply (RpcResultObject Response) → S → Result (List Response) × S
response_or_throw (reply r) s = (ok r.response, s)
response_or_throw no_client s = (throw rpc_no_client, s)
response_or_throw (no_result es) s = (throw rpc_no_result, s)

found_or_none : Option (List Host) → List Host
found_or_none none = []
found_or_none (some nodes) = nodes

-- The method of an RPC.
pub data Method : Type 0 where
  get_diff_method : Method
  put_diff_method : Text → Method

module _ (show : ℤ → Text) (starts_with : Text → Text → Bool) (junk : Text) {S : Type 0}
    (ls : LockService S) (futures : List Host → Method → S → List (Host × Outcome Response) × S)
    (fetch_model : List Host → Comp S (ℕ × Text)) (type name : Text) (me : Host) where
  -- The lock that `create_lock` makes.
  abbrev pub fresh_lock : ZkMutex
  fresh_lock = record {
    path = build_actor_path type name ++ codes "/master_lock";
    seqfile = [];
    has_lock = false;
    has_rlock = false;
  }

  on_net : {A : Type 0} → Comp S A → Comp (Link S) A
  on_net m l = let r = m l.net in (r.0, record l { net = r.1 })

  list_servers : Comp (Link S) ℕ
  unfolding found_or_none
  list_servers l =
      let r = get_all_nodes ls type name l.net in
      let nodes = found_or_none r.0 in (ok (length nodes), record l { servers = nodes; net = r.1 })

  rpc : Method → Comp (Link S) (List Response)
  unfolding response_or_throw
  rpc method l =
      let r = futures l.servers method l.net in
      response_or_throw (wait r.0) (record l { net = r.1 })

  try_master : Comp (Link S) Bool
  try_master l =
      let r = try_lock ls starts_with junk l.lock l.net in
      (ok r.0.0, record l { lock = r.0.1; net = r.1 })

  -- A cluster of at most one server has no model to give.
  ask_model : ℕ → Comp (Link S) (ℕ × Text)
  unfolding on_net
  ask_model zero l = (ok (0, []), l)
  ask_model (suc zero) l = (ok (0, []), l)
  ask_model (suc (suc n)) l = on_net (fetch_model l.servers) l

  -- The destructor of the lock; the next round makes another lock.
  drop_master : Link S → Link S
  drop_master l =
      let w = unlock ls starts_with junk l.lock l.net in
      let r = unlock_r ls starts_with junk w.0.1 w.1 in record l { lock = fresh_lock; net = r.1 }

  pub communication : Communication (Link S)
  unfolding on_net list_servers ask_model rpc try_master drop_master
  communication = record {
    update_members = list_servers;
    get_model = list_servers >>= ask_model;
    try_lock = try_master;
    release = drop_master;
    get_diff = rpc get_diff_method;
    put_diff = λ mixed. rpc (put_diff_method mixed);
    register_active_list = on_net (register_active show ls type name me.0 me.1);
    unregister_active_list = on_net (unregister_active show ls type name me.0 me.1);
  }
