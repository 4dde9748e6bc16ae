-- ===== src/Graph/Tests.antt =====
-- A cluster of two servers of a graph: this one, `h`, and `g`, whose nodes are kept as entries of the lock service in memory.
use jubatus.Base.{
  ℕ, ◌≡◌, ◌≢◌, refl, Bool, Bool-cases, inl, inr, &&_true, ◌&&◌, true, false, List, [], ◌∷◌, ◌++◌,
  some, ◌==◌, ◌||◌, if◌then◌else◌, arith,
}
use jubatus.Argv.{ServerArgv}
use jubatus.Base.Comp.{ok}
use jubatus.Base.Int.{pos, atoi, int_eq, int_eq_iff}
use jubatus.Base.Text.{
  Text, codes, text_eq, text_eq_iff, text_eq_refl, text_lt, before, after, digits_value,
}
use jubatus.Cht
use jubatus.Cht.Order.{Answers}
use jubatus.LockService.{LockService, child}
use jubatus.Membership.{revert, build_actor_path, get_all_nodes}
use jubatus.RpcMclient.{Host, reply}
use jubatus.Samples.Arguments.{cluster_argv}
use jubatus.Samples.Memory.{Memory, memory_service, memory_reads, has}
use jubatus.Samples.Notation.{show_int}
use jubatus.Graph.{
  Edge, GraphDriver, Peers, Casts, GraphServ, selective_create_node, create_node, remove_node,
  create_edge,
}
use jubatus.Graph.Create.{Decided, create_node_decides}
use jubatus.Graph.Storing.{Stores}
use jubatus.Graph.Edges.{EdgeStores}
use jubatus.Graph.Members.{nodes}

abbrev kind : Text
kind = codes "graph"

abbrev argv : ServerArgv
argv = cluster_argv kind

abbrev elem : ℕ → List ℕ → Bool
elem n [] = false
elem n (m ∷ ms) = (m == n) || elem n ms

abbrev driver : GraphDriver (List ℕ) ℕ ℕ ℕ
driver = record {
  create_node = λ id m. (ok tt, id ∷ m);
  create_node_here = λ id m. (ok tt, id ∷ m);
  remove_node = λ id m. (ok tt, []);
  remove_global_node = λ id m. (ok tt, []);
  update_node = λ id p m. (ok tt, m);
  create_edge = λ e a b p m. (ok tt, m);
  create_edge_here = λ e a b p m. (ok tt, m);
  update_edge = λ e p m. (ok tt, m);
  remove_edge = λ e m. (ok tt, m);
  get_centrality = λ id q m. (ok 0, m);
  get_shortest_path = λ a b n q m. (ok [], m);
  add_centrality_query = λ q m. (ok tt, m);
  add_shortest_path_query = λ q m. (ok tt, m);
  remove_centrality_query = λ q m. (ok tt, m);
  remove_shortest_path_query = λ q m. (ok tt, m);
  get_node = λ id m. (ok 0, m);
  get_edge = λ e m. (ok (record { p = 0; src = 0; tgt = 0 }), m);
  update_index = λ m. (ok tt, m);
  clear = λ m. (ok tt, []);
}

-- The entry that stands for a node on another server.
abbrev entry : Host → Text → Text
entry h nid = h.0 ++ (b'#' ∷ nid)

abbrev peers : Peers Memory ℕ
peers = record {
  create_node_here = λ h nid s. (ok tt, record s { nodes = (entry h nid, []) ∷ s.nodes });
  create_edge_here = λ h eid ei s. (ok tt, s);
  remove_global_node = λ f hs nid s. (reply (record { value = some 1; error = [] }), s);
  generate = λ s. (ok 7, s);
}

abbrev casts : Casts
casts = record {
  i2n = λ n. show_int (pos n);
  n2i = λ t. ok (digits_value 0 t);
  is_runtime_error = λ e. true;
  is_node_exists = λ e. false;
}

elem_first : (n : ℕ) (ms : List ℕ) → elem n (n ∷ ms) ≡ true
elem_first n ms = ground arith

elem_later : (n m : ℕ) (ms : List ℕ) → elem n ms ≡ true → elem n (m ∷ ms) ≡ true
elem_later n m ms h = ground arith

stores : Stores peers driver
stores = record {
  stored = λ s h nid. has (entry h nid) s.nodes;
  holds = λ m id. elem id m;
  peer_true = λ h nid s e. ground (arith, text_eq_refl (entry h nid));
  peer_keeps = λ h k nid s e. ground arith;
  here_true = λ id m e. elem_first id m;
  here_keeps = λ id m e. elem_later id id m e;
}

abbrev net : Memory
net = record {
  nodes =
      (child (Cht.cht_path kind (codes "c")) (codes "4"), codes "h_9")
      ∷ (child (Cht.cht_path kind (codes "c")) (codes "8"), codes "g_8")
      ∷ (build_actor_path kind (codes "c") ++ codes "/nodes/h_9", [])
      ∷ (build_actor_path kind (codes "c") ++ codes "/nodes/g_8", [])
      ∷ [];
  functions = [];
  versions = 0;
}

abbrev world : GraphServ Memory (List ℕ) ℕ
world = record { graph = some []; config = codes "{}"; updates = 0; net = net }

abbrev location : Text → Text
location c = if text_eq c (codes "4") then codes "h_9" else codes "g_8"

abbrev hash : Text → Text
hash key = key

program : Unit {0}
unfolding Cht.cht_path build_actor_path revert text_eq before after atoi digits_value text_lt int_eq
    get_all_nodes
program = tt

create_node_decides_example :
    (c : Text) × Answers (codes "7") (codes "4" ∷ codes "8" ∷ []) c
    × Decided show_int hash memory_service peers driver casts
        (λ n. n)
        argv
        stores
        (codes "7")
        (revert (location c))
        (selective_create_node show_int hash memory_service peers driver casts
          (λ n. n)
          argv
          (revert (location c))
          (codes "7")
          world)
        (create_node show_int hash memory_service peers driver casts (λ n. n) argv world)
unfolding program
create_node_decides_example =
    create_node_decides show_int hash memory_service peers driver casts (λ n. n) argv stores
      memory_reads world [] 7 net (codes "4") (codes "8" ∷ []) location (λ e. refl) refl refl refl
      refl (refl, (refl, tt))

-- For the edges the net is the list of who has which; the ring is fixed.
abbrev Edges : Type 0
Edges = List (Host × ℕ)

abbrev host_eq : Host → Host → Bool
host_eq a b = text_eq a.0 b.0 && int_eq a.1 b.1

abbrev has_edge : Edges → Host → ℕ → Bool
has_edge [] h eid = false
has_edge (e ∷ es) h eid = (host_eq h e.0 && (e.1 == eid)) || has_edge es h eid

abbrev ring_service : LockService Edges
ring_service = record {
  create = λ p x e s. (true, s);
  remove = λ p s. (true, s);
  create_seq = λ p s. (some p, s);
  create_id = λ p n s. (some n, s);
  list = λ p s. (some (codes "8" ∷ codes "4" ∷ []), s);
  read = λ p s. (
    some (
        if text_eq p (child (Cht.cht_path kind (codes "c")) (codes "4"))
        then codes "h_9"
        else codes "g_8"),
    s,
  );
  bind_delete_watcher = λ p c s. (true, s);
  push_cleanup = λ f s. s;
}

abbrev edge_peers : Peers Edges ℕ
edge_peers = record {
  create_node_here = λ h nid s. (ok tt, s);
  create_edge_here = λ h eid ei s. (ok tt, (h, eid) ∷ s);
  remove_global_node = λ f hs nid s. (reply (record { value = some 1; error = [] }), s);
  generate = λ s. (ok 3, s);
}

host_eq-ne : (h k : Host) → h ≢ k → host_eq h k ≡ false
host_eq-ne h k n = elim (Bool-cases (host_eq h k)) [
  | inr e ↦ e
  | inl e ↦
      let parts = &&_true (text_eq h.0 k.0) (int_eq h.1 k.1) e in
      let one = (text_eq_iff h.0 k.0).0 parts.0 in
      let two = (int_eq_iff h.1 k.1).0 parts.1 in absurd (n (λ i. (one i, two i)))
]

edge_stores : EdgeStores edge_peers
edge_stores = record {
  has_edge = has_edge;
  elsewhere = λ h k eid ei s n. rw (host_eq-ne h k n) refl;
}

abbrev first_host : Host
first_host = (codes "g", pos 8)

abbrev edge_world : GraphServ Edges (List ℕ) ℕ
edge_world = record { graph = some []; config = codes "{}"; updates = 0; net = [] }

abbrev edge : Edge ℕ
edge = record { property = 0; source = codes "5"; target = codes "6" }
