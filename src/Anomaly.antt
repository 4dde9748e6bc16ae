-- ===== src/Anomaly.antt =====
-- jubatus/server/server/anomaly_serv.cpp, built with ZooKeeper: a server that scores points, each of which is kept by the two servers
-- that the hash table gives for its identifier. The driver of jubatus_core, the clients of the other servers
-- and the loading of a model file by the base class are parameters; scores are opaque.
pub mod Add
pub mod Fresh
mod Tests
use jubatus.Base.{
  ℕ, ◌+◌, ◌%◌, ◌^◌, ◌≡◌, Bool, true, false, ◌&&◌, List, [], ◌∷◌, Option, none, some, if◌then◌else◌,
}
use jubatus.Argv.{ServerArgv, is_standalone}
use jubatus.Base.Comp.{
  Error, runtime_error, membership_error, config_not_set, null_pointer, Result, ok, throw, Comp,
  bind_result, ◌>>=◌, ◌>>◌, pure, raise, require,
}
use jubatus.Base.Int.{ℤ, int_eq}
use jubatus.Base.Text.{Text, text_eq}
use jubatus.Cht
use jubatus.GlobalId.{generate}
use jubatus.LockService.{LockService}
use jubatus.RpcMclient.{Host}

-- `core::driver::anomaly`
pub record AnomalyDriver (Model Datum Score : Type 0) : Type 0 where
  pub is_updatable : Model → Bool
  pub add : Text → Datum → Comp Model (Text × Score)
  pub update : Text → Datum → Comp Model Score
  pub overwrite : Text → Datum → Comp Model Score
  pub clear_row : Text → Comp Model (Unit {0})
  pub clear : Comp Model (Unit {0})
  pub calc_score : Datum → Comp Model Score
  pub get_all_rows : Comp Model (List Text)
  pub find_max_int_id : Model → ℕ

-- The clients of the other servers and the generator of ZooKeeper, over the state of the net.
pub record Peers (S Datum Score : Type 0) : Type 0 where
  pub update : Host → Text → Datum → Comp S Score
  pub overwrite : Host → Text → Datum → Comp S Score
  pub generate : Comp S ℕ

-- `counter` is the state of the generator of a server without ZooKeeper.
pub record AnomalyServ (S Model Updates : Type 0) : Type 0 where
  pub anomaly : Option Model
  pub config : Text
  pub counter : ℕ
  pub updates : Updates
  pub net : S

abbrev pub Method : Type 0 → Type 0 → Type 0 → Type 0 → Type 0
Method S Model Updates A = Comp (AnomalyServ S Model Updates) A

pub remote : {S Model Updates A : Type 0} → Comp S A → Method S Model Updates A
remote m g = let r = m g.net in (r.0, record g { net = r.1 })

on_model : {S Model Updates A : Type 0} → Comp Model A → Option Model → Method S Model Updates A
on_model m none g = (throw null_pointer, g)
on_model m (some model) g = let r = m model in (r.0, record g { anomaly = some r.1 })

-- `anomaly_->m(…)`
pub local : {S Model Updates A : Type 0} → Comp Model A → Method S Model Updates A
unfolding on_model
local m g = on_model m g.anomaly g

is_set : {Model : Type 0} → Option Model → Bool
is_set none = false
is_set (some m) = true

pub check_set_config : {S Model Updates : Type 0} → Method S Model Updates (Unit {0})
unfolding is_set
check_set_config g = require (is_set g.anomaly) config_not_set g

pub is_host : ServerArgv → Host → Bool
is_host argv h = text_eq h.0 argv.eth && int_eq h.1 argv.port

-- `catch (const std::runtime_error&)` of the first server and of the others.
failed_first : {A : Type 0} → (Error → Bool) → Result A → Result A
failed_first is_runtime_error (ok a) = ok a
failed_first is_runtime_error (throw e) =
    if is_runtime_error e then throw runtime_error else throw e

caught : {A : Type 0} → (Error → Bool) → Result A → Result (Unit {0})
caught is_runtime_error (ok a) = ok tt
caught is_runtime_error (throw e) = if is_runtime_error e then ok tt else throw e

module _ {S Model Updates Datum Score : Type 0} (show : ℤ → Text) (make_hash : Text → Text)
    (ls : LockService S) (peers : Peers S Datum Score) (driver : AnomalyDriver Model Datum Score)
    (i2n : ℕ → Text) (is_runtime_error : Error → Bool) (event_model_updated : Updates → Updates)
    (argv : ServerArgv) where
  pub update : Text → Datum → Method S Model Updates Score
  update id d = do check_set_config; local (driver.update id d)

  pub overwrite : Text → Datum → Method S Model Updates Score
  overwrite id d = do check_set_config; local (driver.overwrite id d)

  -- The pointer is not looked at before; a server that adds has checked it.
  is_updatable : Method S Model Updates Bool
  is_updatable = local (λ m. (ok (driver.is_updatable m), m))

  count_update : Method S Model Updates (Unit {0})
  count_update g = (ok tt, record g { updates = event_model_updated g.updates })

  pub selective_update : Host → Text → Datum → Method S Model Updates Score
  unfolding is_updatable count_update
  selective_update h id d =
      if is_host argv h
      then (do
        count_update
        updatable ← is_updatable
        if updatable then update id d else overwrite id d)
      else (do
        updatable ← is_updatable
        if updatable then remote (peers.update h id d) else remote (peers.overwrite h id d))

  -- The loop over the replicas.
  update_replicas : List Host → Text → Datum → Method S Model Updates (Unit {0})
  unfolding caught
  update_replicas [] id d g = (ok tt, g)
  update_replicas (h ∷ hs) id d g =
      let r = selective_update h id d g in
      bind_result (caught is_runtime_error r.0, r.1) (λ _. update_replicas hs id d)

  update_all : List Host → Text → Datum → Method S Model Updates (Text × Score)
  unfolding failed_first update_replicas
  update_all [] id d g = (throw membership_error, g)
  update_all (h ∷ hs) id d g =
      let r = selective_update h id d g in
      bind_result (failed_first is_runtime_error r.0, r.1)
        (λ score. update_replicas hs id d >>= (λ _. pure (id, score)))

  pub find_from_cht : Text → ℕ → Method S Model Updates (List Host)
  find_from_cht key n = remote (Cht.find show make_hash ls argv.type argv.name key n)

  pub add_zk : Text → Datum → Method S Model Updates (Text × Score)
  unfolding update_all
  add_zk id d = do nodes ← find_from_cht id 2; update_all nodes id d

  -- `idgen_->generate()`, of the one generator or the other.
  next_id : Method S Model Updates ℕ
  next_id g =
      if is_standalone argv
      then (let r = generate g.counter in (ok r.0, record g { counter = r.1 }))
      else remote peers.generate g

  pub add : Datum → Method S Model Updates (Text × Score)
  unfolding next_id count_update
  add d = do
    check_set_config
    id ← next_id
    if is_standalone argv
        then (count_update >> local (driver.add (i2n id) d))
        else add_zk (i2n id) d

  pub clear_row : Text → Method S Model Updates Bool
  clear_row id = do check_set_config; local (driver.clear_row id); pure true

  pub clear : Method S Model Updates Bool
  clear = do check_set_config; local driver.clear; pure true

  pub calc_score : Datum → Method S Model Updates Score
  calc_score d = do check_set_config; local (driver.calc_score d)

  pub get_all_rows : Method S Model Updates (List Text)
  get_all_rows = do check_set_config; local driver.get_all_rows

  pub get_config : Method S Model Updates Text
  get_config = do check_set_config; λ g. (ok g.config, g)

  -- `find_max_int_id() + 1` on a uint64_t.
  reset_id_generator : Option Model → Method S Model Updates (Unit {0})
  reset_id_generator none g = if is_standalone argv then (throw null_pointer, g) else (ok tt, g)
  reset_id_generator (some m) g =
      if is_standalone argv
      then (ok tt, record g { counter = (driver.find_max_int_id m + 1) % 2 ^ 64 })
      else (ok tt, g)

  -- `base_load` is `server_base::load` of the file.
  pub load : Method S Model Updates Bool → Method S Model Updates Bool
  unfolding reset_id_generator
  load base_load = do
    loaded ← base_load
    if loaded then (λ g. reset_id_generator g.anomaly g) else pure tt
    pure loaded

  pub load_file : Method S Model Updates (Unit {0}) → Method S Model Updates (Unit {0})
  unfolding reset_id_generator
  load_file base_load_file = do base_load_file; λ g. reset_id_generator g.anomaly g
