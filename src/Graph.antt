-- ===== src/Graph.antt =====
-- jubatus/server/server/graph_serv.cpp, built with ZooKeeper: a server of a graph, whose nodes and edges are kept by the two
-- servers that the hash table gives for their key. The driver of jubatus_core, the clients of the
-- other servers and the generator of identifiers are parameters. Locks are left out: what holds one is a step.
pub mod Storing
pub mod Create
pub mod Edges
pub mod Members
pub mod Queries
mod Tests
use jubatus.Base.{
  ℕ, ◌≡◌, Bool, true, false, not, ◌&&◌, ◌||◌, List, [], ◌∷◌, Option, none, some, if◌then◌else◌,
}
use jubatus.Aggregators.{add}
use jubatus.Argv.{ServerArgv, is_standalone}
use jubatus.Base.Comp.{
  Error, runtime_error, config_not_set, null_pointer, rpc_no_client, Result, ok, throw, Comp,
  bind_result, ◌>>=◌, ◌>>◌, pure, raise, require,
}
use jubatus.Base.Int.{ℤ, pos, int_eq}
use jubatus.Base.Text.{Text, text_eq}
use jubatus.Cht
use jubatus.LockService.{LockService}
use jubatus.Membership.{get_all_nodes}
use jubatus.RpcMclient.{Host, RpcResult, Reply, reply, no_client, no_result}

pub record Edge (Props : Type 0) : Type 0 where
  pub property : Props
  pub source : Text
  pub target : Text

pub record EdgeInfo (Props : Type 0) : Type 0 where
  pub p : Props
  pub src : ℕ
  pub tgt : ℕ

-- `core::driver::graph`; a method that changes the model leaves a model also when it throws.
pub record GraphDriver (Model Props Query Info : Type 0) : Type 0 where
  pub create_node : ℕ → Comp Model (Unit {0})
  pub create_node_here : ℕ → Comp Model (Unit {0})
  pub remove_node : ℕ → Comp Model (Unit {0})
  pub remove_global_node : ℕ → Comp Model (Unit {0})
  pub update_node : ℕ → Props → Comp Model (Unit {0})
  pub create_edge : ℕ → ℕ → ℕ → Props → Comp Model (Unit {0})
  pub create_edge_here : ℕ → ℕ → ℕ → Props → Comp Model (Unit {0})
  pub update_edge : ℕ → Props → Comp Model (Unit {0})
  pub remove_edge : ℕ → Comp Model (Unit {0})
  pub get_centrality : ℕ → Query → Comp Model ℕ
  pub get_shortest_path : ℕ → ℕ → ℕ → Query → Comp Model (List ℕ)
  pub add_centrality_query : Query → Comp Model (Unit {0})
  pub add_shortest_path_query : Query → Comp Model (Unit {0})
  pub remove_centrality_query : Query → Comp Model (Unit {0})
  pub remove_shortest_path_query : Query → Comp Model (Unit {0})
  pub get_node : ℕ → Comp Model Info
  pub get_edge : ℕ → Comp Model (EdgeInfo Props)
  pub update_index : Comp Model (Unit {0})
  pub clear : Comp Model (Unit {0})

-- The clients of the other servers, and the generator of identifiers, over the state of the net.
pub record Peers (S Props : Type 0) : Type 0 where
  pub create_node_here : Host → Text → Comp S (Unit {0})
  pub create_edge_here : Host → ℕ → Edge Props → Comp S (Unit {0})
  pub remove_global_node : (ℕ → ℕ → ℕ) → List Host → Text → S → Reply (RpcResult ℕ) × S
  pub generate : Comp S ℕ

-- Casts between numbers and identifiers, and the classes of exceptions: those derived from
-- std::runtime_error, and local_node_exists with global_node_exists.
pub record Casts : Type 0 where
  pub i2n : ℕ → Text
  pub n2i : Text → Result ℕ
  pub is_runtime_error : Error → Bool
  pub is_node_exists : Error → Bool

-- `updates` is the state that `event_model_updated` of the base class changes.
pub record GraphServ (S Model Updates : Type 0) : Type 0 where
  pub graph : Option Model
  pub config : Text
  pub updates : Updates
  pub net : S

pub is_host : ServerArgv → Host → Bool
is_host argv h = text_eq h.0 argv.eth && int_eq h.1 argv.port

-- `for (it …) if (*it is myself) { it = erase(it); it--; }` and the loop's own `it++`.
pub erase_self : ServerArgv → List Host → List Host
unfolding is_host
erase_self argv [] = []
erase_self argv (h ∷ hs) =
    let rest = erase_self argv hs in if is_host argv h then rest else h ∷ rest

or_none : Option (List Host) → List Host
or_none none = []
or_none (some hosts) = hosts

-- The classes of exceptions in the order of the handlers.
caught : Casts → Result (Unit {0}) → Result (Unit {0})
caught casts (ok a) = ok tt
caught casts (throw e) =
    if casts.is_node_exists e then ok tt else if casts.is_runtime_error e then ok tt else throw e

-- `catch (const std::runtime_error&) { throw runtime_error; }`
failed_first : Casts → Result (Unit {0}) → Result (Unit {0})
failed_first casts (ok a) = ok tt
failed_first casts (throw e) = if casts.is_runtime_error e then throw runtime_error else throw e

no_result_only : Reply (RpcResult ℕ) → Result (Unit {0})
no_result_only (reply r) = ok tt
no_result_only (no_result errors) = ok tt
no_result_only no_client = throw rpc_no_client

abbrev pub Method : Type 0 → Type 0 → Type 0 → Type 0 → Type 0
Method S Model Updates A = Comp (GraphServ S Model Updates) A

pub remote : {S Model Updates A : Type 0} → Comp S A → Method S Model Updates A
remote m g = let r = m g.net in (r.0, record g { net = r.1 })

on_model : {S Model Updates A : Type 0} → Comp Model A → Option Model → Method S Model Updates A
on_model m none g = (throw null_pointer, g)
on_model m (some model) g = let r = m model in (r.0, record g { graph = some r.1 })

-- `graph_->m(…)`, also where nothing has looked at the pointer.
pub local : {S Model Updates A : Type 0} → Comp Model A → Method S Model Updates A
unfolding on_model
local m g = on_model m g.graph g

pub cast : {S Model Updates A : Type 0} → Result A → Method S Model Updates A
cast r g = (r, g)

is_set : {Model : Type 0} → Option Model → Bool
is_set none = false
is_set (some m) = true

pub check_set_config : {S Model Updates : Type 0} → Method S Model Updates (Unit {0})
unfolding is_set
check_set_config g = require (is_set g.graph) config_not_set g

module _ {S Model Updates Props Query Info : Type 0} (show : ℤ → Text) (make_hash : Text → Text)
    (ls : LockService S) (peers : Peers S Props) (driver : GraphDriver Model Props Query Info)
    (casts : Casts) (event_model_updated : Updates → Updates) (argv : ServerArgv) where
  pub find_from_cht : Text → ℕ → Method S Model Updates (List Host)
  find_from_cht key n = remote (Cht.find show make_hash ls argv.type argv.name key n)

  pub get_members : Method S Model Updates (List Host)
  unfolding or_none
  get_members g =
      let r = get_all_nodes ls argv.type argv.name g.net in
      (ok (erase_self argv (or_none r.0)), record g { net = r.1 })

  pub create_node_here : Text → Method S Model Updates Bool
  unfolding cast
  create_node_here nid = do id ← cast (casts.n2i nid); local (driver.create_node_here id); pure true

  pub remove_global_node : Text → Method S Model Updates Bool
  unfolding cast
  remove_global_node nid = do
    id ← cast (casts.n2i nid)
    local (driver.remove_global_node id)
    pure true

  pub create_edge_here : ℕ → Edge Props → Method S Model Updates Bool
  unfolding cast
  create_edge_here eid ei = do
    src ← cast (casts.n2i ei.source)
    tgt ← cast (casts.n2i ei.target)
    local (driver.create_edge_here eid src tgt ei.property)
    pure true

  pub selective_create_node : Host → Text → Method S Model Updates (Unit {0})
  selective_create_node target nid =
      if is_host argv target
      then create_node_here nid >>= (λ _. pure tt)
      else remote (peers.create_node_here target nid)

  -- The loop over the replicas.
  pub create_replicas : List Host → Text → Method S Model Updates (Unit {0})
  unfolding caught
  create_replicas [] nid g = (ok tt, g)
  create_replicas (h ∷ hs) nid g =
      let r = selective_create_node h nid g in
      bind_result (caught casts r.0, r.1) (λ _. create_replicas hs nid)

  create_at : List Host → Text → Method S Model Updates (Unit {0})
  unfolding create_replicas failed_first
  create_at [] nid g = (throw runtime_error, g)
  create_at (h ∷ hs) nid g =
      let r = selective_create_node h nid g in
      bind_result (failed_first casts r.0, r.1) (λ _. create_replicas hs nid)

  create_global : Text → Method S Model Updates (Unit {0})
  unfolding create_at
  create_global nid = do nodes ← find_from_cht nid 2; create_at nodes nid

  pub create_node : Method S Model Updates Text
  unfolding create_global
  create_node = do
    check_set_config
    nid ← remote peers.generate
    if is_standalone argv then local (driver.create_node nid) else create_global (casts.i2n nid)
    pure (casts.i2n nid)

  pub update_node : Text → Props → Method S Model Updates Bool
  unfolding cast
  update_node id p = do
    check_set_config
    nid ← cast (casts.n2i id)
    local (driver.update_node nid p)
    pure true

  remove_elsewhere : List Host → Text → Method S Model Updates (Unit {0})
  unfolding no_result_only
  remove_elsewhere [] nid g = (ok tt, g)
  remove_elsewhere (h ∷ hs) nid g =
      let r = peers.remove_global_node add (h ∷ hs) nid g.net in
      (no_result_only r.0, record g { net = r.1 })

  pub remove_node : Text → Method S Model Updates Bool
  unfolding cast remove_elsewhere
  remove_node nid_str = do
    λ g. (ok tt, record g { updates = event_model_updated g.updates })
    check_set_config
    nid ← cast (casts.n2i nid_str)
    local (driver.remove_node nid)
    members ← if is_standalone argv then pure [] else get_members
    remove_elsewhere members nid_str
    pure true

  edge_elsewhere : Host → ℕ → Edge Props → Method S Model Updates (Unit {0})
  edge_elsewhere h eid ei =
      if is_host argv h then pure tt else remote (peers.create_edge_here h eid ei)

  -- The loop over the replicas; the one that this server is has been written.
  edge_replicas : List Host → ℕ → Edge Props → Method S Model Updates (Unit {0})
  unfolding caught edge_elsewhere
  edge_replicas [] eid ei g = (ok tt, g)
  edge_replicas (h ∷ hs) eid ei g =
      let r = edge_elsewhere h eid ei g in
      bind_result (caught casts r.0, r.1) (λ _. edge_replicas hs eid ei)

  edge_at : List Host → ℕ → Edge Props → Method S Model Updates (Unit {0})
  unfolding edge_replicas
  edge_at [] eid ei = raise runtime_error
  edge_at (h ∷ hs) eid ei = do create_edge_here eid ei; edge_replicas hs eid ei

  edge_global : ℕ → Edge Props → Method S Model Updates (Unit {0})
  unfolding edge_at
  edge_global eid ei = do nodes ← find_from_cht ei.source 2; edge_at nodes eid ei

  edge_alone : ℕ → Edge Props → Method S Model Updates (Unit {0})
  unfolding cast
  edge_alone eid ei = do
    src ← cast (casts.n2i ei.source)
    tgt ← cast (casts.n2i ei.target)
    local (driver.create_edge eid src tgt ei.property)

  pub create_edge : Text → Edge Props → Method S Model Updates ℕ
  unfolding edge_global edge_alone
  create_edge id ei = do
    check_set_config
    eid ← remote peers.generate
    if is_standalone argv then edge_alone eid ei else edge_global eid ei
    pure eid
