-- ===== src/Burst.antt =====
-- jubatus/server/server/burst_serv.cpp, built with ZooKeeper: a server of bursts, which processes the keywords that the hash
-- table assigns to it and works out again which ones those are when the cluster's servers change. The
-- driver of jubatus_core is a parameter; `set_config` has been called, so there is a model. What holds the lock is a step.
pub mod Keywords
pub mod Watch
mod Tests
use jubatus.Base.{
  ℕ, suc, ◌+◌, ◌≡◌, Bool, true, false, not, ◌&&◌, ◌||◌, List, [], ◌∷◌, ◌++◌, map, Option, none,
  some, ltb, if◌then◌else◌,
}
use jubatus.Argv.{ServerArgv, is_standalone}
use jubatus.Base.Comp.{Error, Result, ok, throw, Comp, bind_result, ◌>>=◌, ◌>>◌, pure}
use jubatus.Base.Int.{ℤ, int_eq}
use jubatus.Base.Text.{Text, codes, text_eq}
use jubatus.Cht
use jubatus.LockService.{LockService}
use jubatus.Membership.{build_actor_path}
use jubatus.RpcMclient.{Host}

pub record Keyword (Param : Type 0) : Type 0 where
  pub keyword : Text
  pub scaling_param : Param
  pub gamma : Param

-- `core::driver::burst`
pub record BurstDriver (Model Doc Window Param : Type 0) : Type 0 where
  pub has_been_mixed : Model → Bool
  pub add_document : Doc → Model → Bool × Model
  pub calculate_results : Model → Model
  pub get_result : Text → Model → Window
  pub get_all_keywords : Model → List (Keyword Param)
  pub add_keyword : Keyword Param → Bool → Model → Bool × Model
  pub remove_keyword : Text → Model → Bool × Model
  pub remove_all_keywords : Model → Bool × Model
  pub set_processed_keywords : List Text → Model → Model

pub record BurstServ (S Model : Type 0) : Type 0 where
  pub burst : Model
  pub config : Text
  pub watcher_binded : Bool
  pub net : S

abbrev pub replication_level : ℕ
replication_level = 2

abbrev pub Method : Type 0 → Type 0 → Type 0 → Type 0
Method S Model A = Comp (BurstServ S Model) A

pub remote : {S Model A : Type 0} → Comp S A → Method S Model A
remote m g = let r = m g.net in (r.0, record g { net = r.1 })

-- A call of the driver that does not throw.
pub local : {S Model A : Type 0} → (Model → A × Model) → Method S Model A
local f g = let r = f g.burst in (ok r.0, record g { burst = r.1 })

pub is_host : ServerArgv → Host → Bool
is_host argv h = text_eq h.0 argv.eth && int_eq h.1 argv.port

any_host : ServerArgv → List Host → Bool
unfolding is_host
any_host argv [] = false
any_host argv (h ∷ hs) = let rest = any_host argv hs in if is_host argv h then true else rest

module _ {S Model Doc Window Param : Type 0} (show : ℤ → Text) (make_hash : Text → Text)
    (ls : LockService S) (bind_child_watcher : Text → S → Bool × S)
    (driver : BurstDriver Model Doc Window Param) (argv : ServerArgv) where
  pub is_assigned : Text → Method S Model Bool
  unfolding any_host
  is_assigned keyword = do
    nodes ← remote (Cht.find show make_hash ls argv.type argv.name keyword replication_level)
    pure (any_host argv nodes)

  pub will_process : Text → Method S Model Bool
  unfolding is_assigned
  will_process keyword g = if is_standalone argv then (ok true, g) else is_assigned keyword g

  -- The loop of `rehash_keywords`.
  processed : List (Keyword Param) → Method S Model (List Text)
  processed [] g = (ok [], g)
  processed (k ∷ ks) g = bind_result (will_process k.keyword g) (λ mine g'.
      bind_result (processed ks g')
        (λ rest g''. (ok (if mine then k.keyword ∷ rest else rest), g'')))

  pub rehash_keywords : Method S Model (Unit {0})
  unfolding processed
  rehash_keywords g =
      if is_standalone argv
      then (ok tt, g)
      else bind_result (processed (driver.get_all_keywords g.burst) g)
          (λ ks g'. (ok tt, record g' { burst = driver.set_processed_keywords ks g'.burst }))

  -- Whether the watcher could be bound is not looked at.
  pub bind_watcher : Method S Model (Unit {0})
  bind_watcher g = if is_standalone argv then (ok tt, g) else (
    ok tt,
    record g {
      net = (bind_child_watcher (build_actor_path argv.type argv.name ++ codes "/nodes") g.net).1;
    },
  )

  -- `is_child_event` says that the type of the event is ZOO_CHILD_EVENT.
  pub watcher_impl : Bool → Method S Model (Unit {0})
  unfolding rehash_keywords bind_watcher
  watcher_impl is_child_event = do if is_child_event then rehash_keywords else pure tt; bind_watcher

  first_watch : Method S Model (Unit {0})
  first_watch g =
      if not g.watcher_binded && driver.has_been_mixed g.burst
      then (rehash_keywords >> (bind_watcher >> λ g'. (ok tt, record g' { watcher_binded = true })))
          g
      else (ok tt, g)

  -- The loop over the documents, with the count of those that were taken.
  add_each : ℕ → List Doc → Model → ℕ × Model
  add_each n [] m = (n, m)
  add_each n (d ∷ ds) m =
      let r = driver.add_document d m in add_each (if r.0 then suc n else n) ds r.1

  pub add_documents : List Doc → Method S Model ℕ
  unfolding first_watch add_each
  add_documents docs = do
    first_watch
    n ← local (add_each 0 docs)
    if ltb 0 n then local (λ m. (tt, driver.calculate_results m)) else pure tt
    pure n

  pub add_keyword : Keyword Param → Method S Model Bool
  unfolding will_process local
  add_keyword k = do mine ← will_process k.keyword; local (driver.add_keyword k mine)

  pub remove_keyword : Text → Method S Model Bool
  remove_keyword k = local (driver.remove_keyword k)

  pub remove_all_keywords : Method S Model Bool
  remove_all_keywords = local driver.remove_all_keywords

  pub get_result : Text → Method S Model Window
  get_result k g = (ok (driver.get_result k g.burst), g)

  pub get_all_keywords : Method S Model (List (Keyword Param))
  get_all_keywords g = (ok (driver.get_all_keywords g.burst), g)

  pub get_config : Method S Model Text
  get_config g = (ok g.config, g)
