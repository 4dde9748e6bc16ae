-- ===== src/Graph/Members.antt =====
-- `remove_node` of graph_serv: which servers are asked to forget the node.
use jubatus.Base.{ℕ, ◌≡◌, ◌↔◌, Bool, false, List, [], ◌∷◌, Option, some, Mem}
use jubatus.Aggregators.{add}
use jubatus.Argv.{ServerArgv}
use jubatus.Base.Int.{ℤ}
use jubatus.Base.Text.{Text}
use jubatus.LockService.{LockService}
use jubatus.Membership.{get_all_nodes}
use jubatus.RpcMclient.{Host, RpcResult, Reply}
use jubatus.Graph.{GraphDriver, Peers, Casts, GraphServ, is_host, Method, remove_node}
use mathlib.Core.Logic.Or

WithoutSelf : ServerArgv → List Host → Type 0
WithoutSelf argv hosts = (h : Host) → Mem h hosts → is_host argv h ≡ false

-- `out` holds the hosts but this server.
abbrev pub Others : ServerArgv → List Host → List Host → Type 0
Others argv hosts out = (h : Host) → Mem h out ↔ (Mem h hosts × (is_host argv h ≡ false))

module _ {S Model Updates Props Query Info : Type 0} (show : ℤ → Text) (make_hash : Text → Text)
    (ls : LockService S) (peers : Peers S Props) (driver : GraphDriver Model Props Query Info)
    (casts : Casts) (event_model_updated : Updates → Updates) (argv : ServerArgv)
    (g : GraphServ S Model Updates) (m : Model) (nid_str : Text) (nid : ℕ) where
  abbrev remove : Method S Model Updates Bool
  remove = remove_node show make_hash ls peers driver casts event_model_updated argv nid_str

  -- The listing of the cluster's servers.
  abbrev pub nodes : Option (List Host) × S
  nodes = get_all_nodes ls argv.type argv.name g.net

  -- This server after the node has been taken out of its own model, with the net in the state `s`.
  abbrev pub removed : S → GraphServ S Model Updates
  removed s = record g {
    graph = some (driver.remove_node nid m).1;
    updates = event_model_updated g.updates;
    net = s;
  }

  abbrev pub ask : List Host → Reply (RpcResult ℕ) × S
  ask others = peers.remove_global_node add others nid_str nodes.1

  -- The state of the net after the call to `others`, which is made when there are any.
  abbrev pub others_asked : List Host → S
  others_asked [] = nodes.1
  others_asked (h ∷ hs) = (ask (h ∷ hs)).1
