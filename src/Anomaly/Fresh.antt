-- ===== src/Anomaly/Fresh.antt =====
-- The identifiers of a server without ZooKeeper after a model has been loaded.
use jubatus.Base.{ℕ, ◌≤◌, Bool}
use jubatus.Argv.{ServerArgv}
use jubatus.Base.Comp.{Error}
use jubatus.Base.Int.{ℤ}
use jubatus.Base.Text.{Text}
use jubatus.LockService.{LockService}
use jubatus.Anomaly.{AnomalyDriver, Peers, Method, add, load}

-- Which numbers are identifiers of a model; the driver knows a bound of them.
pub record Ids {Model Datum Score : Type 0} (driver : AnomalyDriver Model Datum Score)
    : Type 1 where
  pub HasId : Model → ℕ → Type 0
  pub bounded : (m : Model) (k : ℕ) → HasId m k → k ≤ driver.find_max_int_id m

module _ {S Model Updates Datum Score : Type 0} (show : ℤ → Text) (make_hash : Text → Text)
    (ls : LockService S) (peers : Peers S Datum Score) (driver : AnomalyDriver Model Datum Score)
    (i2n : ℕ → Text) (is_runtime_error : Error → Bool) (event_model_updated : Updates → Updates)
    (argv : ServerArgv) (ids : Ids driver) where
  abbrev loaded : Method S Model Updates Bool → Method S Model Updates Bool
  loaded = load show make_hash ls peers driver i2n is_runtime_error event_model_updated argv

  abbrev added : Datum → Method S Model Updates (Text × Score)
  added = add show make_hash ls peers driver i2n is_runtime_error event_model_updated argv
