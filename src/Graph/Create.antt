-- ===== src/Graph/Create.antt =====
-- `create_node` in a cluster: the first server of the ring has to take the node, the others need not.
use jubatus.Base.{ℕ, ◌≡◌, ◌⊎◌, inl, inr, refl, true, false, List, ◌∷◌, some}
use jubatus.Argv.{ServerArgv, is_standalone}
use jubatus.Base.Comp.{Error, runtime_error, Result, ok, throw, bind_result, Result-cases}
use jubatus.Base.Int.{ℤ}
use jubatus.Base.Text.{Text}
use jubatus.Cht
use jubatus.Cht.Order.{Answers}
use jubatus.Cht.First.{find-first}
use jubatus.Cht.Ring.{AllRead}
use jubatus.LockService.{LockService, Reads}
use jubatus.Membership.{revert}
use jubatus.RpcMclient.{Host}
use jubatus.Graph.{
  GraphDriver, Peers, Casts, GraphServ, failed_first, Method, remote, is_set, check_set_config,
  find_from_cht, create_at, create_global, create_node,
}
use jubatus.Graph.Storing
use jubatus.Graph.Storing.{Stores}

module _ {S Model Updates Props Query Info : Type 0} (show : ℤ → Text) (make_hash : Text → Text)
    (ls : LockService S) (peers : Peers S Props) (driver : GraphDriver Model Props Query Info)
    (casts : Casts) (event_model_updated : Updates → Updates) (argv : ServerArgv)
    (stores : Stores peers driver) where
  abbrev sel : Host → Text → Method S Model Updates (Unit {0})
  sel = Storing.sel show make_hash ls peers driver casts event_model_updated argv stores

  abbrev replicas : List Host → Text → Method S Model Updates (Unit {0})
  replicas = Storing.replicas show make_hash ls peers driver casts event_model_updated argv stores

  abbrev create : Method S Model Updates Text
  create = create_node show make_hash ls peers driver casts event_model_updated argv

  abbrev pub with_net : GraphServ S Model Updates → S → GraphServ S Model Updates
  with_net g s = record g { net = s }

  -- After the first server's answer.
  after_first :
      List Host
      → Text
      → Result (Unit {0}) × GraphServ S Model Updates
      → Result Text × GraphServ S Model Updates
  after_first hs nid r =
      bind_result (bind_result (failed_first casts r.0, r.1) (λ _. replicas hs nid))
        (λ _ g. (ok nid, g))

  create-run :
      (g : GraphServ S Model Updates) (m : Model) (id : ℕ) (s : S) (h : Host) (hs out : List Host)
      → g.graph ≡ some m
      → is_standalone argv ≡ false
      → peers.generate g.net ≡ (ok id, s)
      → Cht.find show make_hash ls argv.type argv.name (casts.i2n id) 2 s ≡ (ok out, s)
      → out ≡ h ∷ hs
      → create g ≡ after_first hs (casts.i2n id) (sel h (casts.i2n id) (with_net g s))
  unfolding create_node create_global create_at find_from_cht check_set_config is_set remote
      after_first
  create-run g m id s h hs out set far made_id found shape =
      rw (set, made_id, far, found, shape) refl

  -- The first server refuses the node, or takes it, and then it keeps it.
  abbrev pub Decided :
      Text
      → Host
      → Result (Unit {0}) × GraphServ S Model Updates
      → Result Text × GraphServ S Model Updates
      → Type 0
  Decided nid h first r =
      ((first.0 ≡ ok tt)
        × (r.0 ≡ ok nid)
        × (Storing.has show make_hash ls peers driver casts event_model_updated argv stores r.1 h
              nid
            ≡ true))
      ⊎ ((e : Error) × (first.0 ≡ throw e) × (r ≡ (throw runtime_error, first.1)))

  bind-state :
      (q : Result (Unit {0}) × GraphServ S Model Updates) (nid : Text)
      → q.0 ≡ ok tt
      → bind_result q (λ _ g. (ok nid, g)) ≡ (ok nid, q.1)
  bind-state q nid e = rw e refl

  decide :
      ((e : Error) → casts.is_runtime_error e ≡ true)
      → (h : Host) (hs : List Host) (nid : Text) (g : GraphServ S Model Updates)
      → Decided nid h (sel h nid g) (after_first hs nid (sel h nid g))
  unfolding after_first failed_first
  decide all h hs nid g = elim (Result-cases (sel h nid g).0) [
    | inr (e, failed) ↦ inr (e, failed, rw (failed, all e) refl)
    | inl (u, done) ↦
        let run = bind-state (replicas hs nid (sel h nid g).1) nid (
          Storing.replicas-ok show make_hash ls peers driver casts event_model_updated argv stores
            all hs nid (sel h nid g).1) in
        inl (
          done,
          rw (done, run) refl,
          rw (done, run)
              (Storing.replicas-keeps show make_hash ls peers driver casts event_model_updated argv
                stores hs h nid (sel h nid g).1
                (Storing.sel-true show make_hash ls peers driver casts event_model_updated argv
                  stores h nid g done)),
        )
  ]

  -- `create_node` in a cluster, on a ring with an entry whose entries can all be read, with the graph
  -- set, the identifier generated, and exceptions of the servers that are runtime errors. The first server is
  -- the one stored at the entry that answers for the identifier. When it takes the node, the
  -- identifier is returned, whatever the second server does, and the first still has the node; when it
  -- throws, `create_node` throws a runtime error and no other server has been asked.
  pub create_node_decides :
      (rd : Reads ls) (g : GraphServ S Model Updates) (m : Model) (id : ℕ) (s : S) (x : Text)
      (xs : List Text) (loc : Text → Text)
      → ((e : Error) → casts.is_runtime_error e ≡ true)
      → g.graph ≡ some m
      → is_standalone argv ≡ false
      → peers.generate g.net ≡ (ok id, s)
      → (ls.list (Cht.cht_path argv.type argv.name) s).0 ≡ some (x ∷ xs)
      → AllRead show make_hash ls rd argv.type argv.name s loc (x ∷ xs)
      → (c : Text) × Answers (make_hash (casts.i2n id)) (x ∷ xs) c
        × Decided
            (casts.i2n id)
            (revert (loc c))
            (sel (revert (loc c)) (casts.i2n id) (with_net g s))
            (create g)
  create_node_decides rd g m id s x xs loc all set far made_id listed readable =
      let (c, rest, out, run, shape, count, first) =
        find-first show make_hash ls rd argv.type argv.name (casts.i2n id) 1 s x xs loc listed
          readable in
      (
        c,
        first,
        rw (create-run g m id s (revert (loc c)) rest out set far made_id run shape)
            (decide all (revert (loc c)) rest (casts.i2n id) (with_net g s)),
      )
