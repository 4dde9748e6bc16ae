-- ===== src/Graph/Edges.antt =====
-- `create_edge` of graph_serv: where an edge is written.
use jubatus.Base.{ℕ, ◌≡◌, ◌≢◌, Bool, List}
use jubatus.Argv.{ServerArgv}
use jubatus.Base.Int.{ℤ}
use jubatus.Base.Text.{Text}
use jubatus.Cht
use jubatus.LockService.{LockService}
use jubatus.RpcMclient.{Host}
use jubatus.Graph.{
  Edge, GraphDriver, Peers, Casts, Method, create_edge_here, edge_elsewhere, edge_replicas,
  create_edge,
}

-- Which server has which edge: a call to one server changes no other.
pub record EdgeStores {S Props : Type 0} (peers : Peers S Props) : Type 0 where
  pub has_edge : S → Host → ℕ → Bool
  pub elsewhere :
      (h h' : Host) (eid : ℕ) (ei : Edge Props) (s : S)
      → h ≢ h'
      → has_edge (peers.create_edge_here h' eid ei s).1 h eid ≡ has_edge s h eid

module _ {S Model Updates Props Query Info : Type 0} (show : ℤ → Text) (make_hash : Text → Text)
    (ls : LockService S) (peers : Peers S Props) (driver : GraphDriver Model Props Query Info)
    (casts : Casts) (event_model_updated : Updates → Updates) (argv : ServerArgv)
    (stores : EdgeStores peers) (eid : ℕ) (ei : Edge Props) (h : Host) where
  open stores use {has_edge, elsewhere}

  abbrev replicas : List Host → Method S Model Updates (Unit {0})
  replicas hs =
      edge_replicas show make_hash ls peers driver casts event_model_updated argv hs eid ei

  abbrev there : Host → Method S Model Updates (Unit {0})
  there h' = edge_elsewhere show make_hash ls peers driver casts event_model_updated argv h' eid ei

  abbrev create : Text → Method S Model Updates ℕ
  create id = create_edge show make_hash ls peers driver casts event_model_updated argv id ei

  abbrev here : Method S Model Updates Bool
  here = create_edge_here show make_hash ls peers driver casts event_model_updated argv eid ei
