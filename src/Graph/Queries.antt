-- ===== src/Graph/Queries.antt =====
-- The methods of graph_serv that touch this server's graph and nothing else.
use jubatus.Base.{ℕ, Bool, true, List, map, ◌==◌}
use jubatus.Argv.{ServerArgv, is_standalone}
use jubatus.Base.Comp.{runtime_error, ok, ◌>>=◌, ◌>>◌, pure, require}
use jubatus.Base.Text.{Text}
use jubatus.Graph.{Edge, GraphDriver, Casts, Method, local, cast, check_set_config}

module _ {S Model Updates Props Query Info : Type 0} (driver : GraphDriver Model Props Query Info)
    (casts : Casts) where
  pub update_edge : ℕ → Edge Props → Method S Model Updates Bool
  update_edge eid ei = do check_set_config; local (driver.update_edge eid ei.property); pure true

  pub remove_edge : ℕ → Method S Model Updates Bool
  remove_edge eid = do check_set_config; local (driver.remove_edge eid); pure true

  pub get_centrality : Text → ℕ → Query → Method S Model Updates ℕ
  get_centrality id s q = do
    check_set_config
    require (s == 0) runtime_error
    nid ← cast (casts.n2i id)
    local (driver.get_centrality nid q)

  -- `graph_` is not looked at before.
  pub get_shortest_path : Text → Text → ℕ → Query → Method S Model Updates (List Text)
  get_shortest_path source target max_hop q = do
    src ← cast (casts.n2i source)
    tgt ← cast (casts.n2i target)
    ids ← local (driver.get_shortest_path src tgt max_hop q)
    pure (map casts.i2n ids)

  pub add_centrality_query : Query → Method S Model Updates Bool
  add_centrality_query q = do check_set_config; local (driver.add_centrality_query q); pure true

  pub add_shortest_path_query : Query → Method S Model Updates Bool
  add_shortest_path_query q = do
    check_set_config
    local (driver.add_shortest_path_query q)
    pure true

  pub remove_centrality_query : Query → Method S Model Updates Bool
  remove_centrality_query q = do
    check_set_config
    local (driver.remove_centrality_query q)
    pure true

  pub remove_shortest_path_query : Query → Method S Model Updates Bool
  remove_shortest_path_query q = do
    check_set_config
    local (driver.remove_shortest_path_query q)
    pure true

  pub get_node : Text → Method S Model Updates Info
  get_node nid = do check_set_config; id ← cast (casts.n2i nid); local (driver.get_node id)

  pub get_edge : ℕ → Method S Model Updates (Edge Props)
  get_edge eid = do
    check_set_config
    info ← local (driver.get_edge eid)
    pure (record { property = info.p; source = casts.i2n info.src; target = casts.i2n info.tgt })

  pub update_index : ServerArgv → Method S Model Updates Bool
  update_index argv = do
    require (is_standalone argv) runtime_error
    check_set_config
    local driver.update_index
    pure true

  pub clear : Method S Model Updates Bool
  clear = do check_set_config; local driver.clear; pure true

  pub get_config : Method S Model Updates Text
  get_config = do check_set_config; λ g. (ok g.config, g)
