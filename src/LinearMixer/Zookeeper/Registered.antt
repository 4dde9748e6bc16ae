-- ===== src/LinearMixer/Zookeeper/Registered.antt =====
-- The linear mixer over the lock service: its active list is the server's node there.
use jubatus.Base.{ℕ, ◌≡◌, Bool, not, List, ◌⊎◌}
use jubatus.Base.Comp.{Error, ok, throw, Comp}
use jubatus.Base.Int.{ℤ}
use jubatus.Base.Text.{Text}
use jubatus.LockService.{LockService, Tree, Exact}
use jubatus.Membership.Failure.{
  own_node, register_active_ok, unregister_active_ok, register_active_throw,
  unregister_active_throw,
}
use jubatus.RpcMclient.{Host, Outcome}
use jubatus.LinearMixer.{Response, Driver, Mixer, Config, put_diff}
use jubatus.LinearMixer.Active.{ActiveList, put_diff_lem}
use jubatus.LinearMixer.Zookeeper.{Link, Method, communication, on_net}

module _ (show : ℤ → Text) (starts_with : Text → Text → Bool) (junk : Text) {S : Type 0}
    (ls : LockService S) (futures : List Host → Method → S → List (Host × Outcome Response) × S)
    (fetch_model : List Host → Comp S (ℕ × Text)) (type name : Text) (me : Host) (tree : Tree ls)
    (exact : Exact ls tree) where
  -- The active list of the implementation, by the theorems on membership.cpp.
  pub own_listing :
      ActiveList (communication show starts_with junk ls futures fetch_model type name me)
  unfolding communication on_net
  own_listing = record {
    active = λ l. tree.exists l.net (own_node show ls tree exact type name me.0 me.1);
    register_ok = λ l h. register_active_ok show ls tree exact type name me.0 me.1 l.net h;
    register_throw =
        λ l e h. register_active_throw show ls tree exact type name me.0 me.1 l.net e h;
    unregister_ok = λ l h. unregister_active_ok show ls tree exact type name me.0 me.1 l.net h;
    unregister_throw =
        λ l e h. unregister_active_throw show ls tree exact type name me.0 me.1 l.net e h;
  }

  -- Whether the server's node stands on the active list.
  abbrev pub listed : Link S → Bool
  listed l = tree.exists l.net (own_node show ls tree exact type name me.0 me.1)

  -- Over the lock service, when the server's node is on the active list exactly if its model is not obsolete,
  -- `put_diff` either returns, and then that is so again with the counter reset and the time noted, or throws,
  -- and then the node is there or not as before and the mixer's view of it is unchanged. It relies on a
  -- failed call of the service changing nothing, and on a call changing no node but the one it names.
  pub put_diff-listed :
      {Model Obj Diff : Type 0} (driver : Driver Model Obj Diff) (config : Config) (now : ℕ)
      (bytes : Text) (w : Mixer (Link S) Model)
      → listed w.net ≡ not w.is_obsolete
      → let r =
          put_diff
            (communication show starts_with junk ls futures fetch_model type name me)
            driver
            config
            now
            bytes
            w in
        ((e : Error) × (r.0 ≡ throw e)
          × (listed r.1.net ≡ listed w.net)
          × (r.1.is_obsolete ≡ w.is_obsolete))
        ⊎ ((r.0 ≡ ok 0)
            × (listed r.1.net ≡ not r.1.is_obsolete)
            × (r.1.counter ≡ 0)
            × (r.1.ticktime ≡ now))
  unfolding own_listing
  put_diff-listed driver config now bytes w a =
      put_diff_lem (communication show starts_with junk ls futures fetch_model type name me) driver
        config own_listing now bytes w a
