-- ===== src/Graph/Storing.antt =====
-- Which servers have a node, through the calls of `create_node_here` that `create_node` makes.
use jubatus.Base.{
  ℕ, ◌≡◌, inl, inr, refl, Bool, true, false, List, [], ◌∷◌, Option, none, some, if◌then◌else◌,
  Bool-cases, arith,
}
use jubatus.Argv.{ServerArgv}
use jubatus.Base.Comp.{Error, null_pointer, Result, ok, throw, bind_result}
use jubatus.Base.Int.{ℤ}
use jubatus.Base.Text.{Text}
use jubatus.LockService.{LockService}
use jubatus.RpcMclient.{Host}
use jubatus.Graph.{
  GraphDriver, Peers, Casts, GraphServ, is_host, caught, Method, remote, local, on_model, cast,
  create_node_here, selective_create_node, create_replicas,
}

-- What is stored where: a call that returns has stored the node, and no call takes one away.
pub record Stores {S Model Props Query Info : Type 0} (peers : Peers S Props)
    (driver : GraphDriver Model Props Query Info) : Type 0 where
  pub stored : S → Host → Text → Bool
  pub holds : Model → ℕ → Bool
  pub peer_true :
      (h : Host) (nid : Text) (s : S)
      → (peers.create_node_here h nid s).0 ≡ ok tt
      → stored (peers.create_node_here h nid s).1 h nid ≡ true
  pub peer_keeps :
      (h h' : Host) (nid : Text) (s : S)
      → stored s h' nid ≡ true
      → stored (peers.create_node_here h nid s).1 h' nid ≡ true
  pub here_true :
      (id : ℕ) (m : Model)
      → (driver.create_node_here id m).0 ≡ ok tt
      → holds (driver.create_node_here id m).1 id ≡ true
  pub here_keeps :
      (id : ℕ) (m : Model) → holds m id ≡ true → holds (driver.create_node_here id m).1 id ≡ true

module _ {S Model Updates Props Query Info : Type 0} (show : ℤ → Text) (make_hash : Text → Text)
    (ls : LockService S) (peers : Peers S Props) (driver : GraphDriver Model Props Query Info)
    (casts : Casts) (event_model_updated : Updates → Updates) (argv : ServerArgv)
    (stores : Stores peers driver) where
  open stores use {stored, holds, peer_true, peer_keeps, here_true, here_keeps}

  abbrev pub has_here : Option Model → Result ℕ → Bool
  has_here none id = false
  has_here (some m) (throw e) = false
  has_here (some m) (ok id) = holds m id

  -- The server `h` has the node.
  abbrev pub has : GraphServ S Model Updates → Host → Text → Bool
  has g h nid = if is_host argv h then has_here g.graph (casts.n2i nid) else stored g.net h nid

  abbrev pub sel : Host → Text → Method S Model Updates (Unit {0})
  sel = selective_create_node show make_hash ls peers driver casts event_model_updated argv

  -- What `create_node_here` does, by whether the graph is set and the id is a number.
  made :
      Result ℕ
      → Option Model
      → GraphServ S Model Updates
      → Result (Unit {0}) × GraphServ S Model Updates
  made (throw e) m g = (throw e, g)
  made (ok id) none g = (throw null_pointer, g)
  made (ok id) (some m) g =
      let r = driver.create_node_here id m in (r.0, record g { graph = some r.1 })

  made-true :
      (id : Result ℕ) (m : Option Model) (g : GraphServ S Model Updates)
      → (made id m g).0 ≡ ok tt
      → has_here (made id m g).1.graph id ≡ true
  unfolding made
  made-true (throw e) m g h = absurd (ground arith)
  made-true (ok id) none g h = absurd (ground arith)
  made-true (ok id) (some m) g h = here_true id m h

  made-keeps :
      (id : Result ℕ) (m : Option Model) (g : GraphServ S Model Updates)
      → g.graph ≡ m
      → has_here m id ≡ true
      → has_here (made id m g).1.graph id ≡ true
  unfolding made
  made-keeps (throw e) none g q h = absurd (ground arith)
  made-keeps (throw e) (some m) g q h = absurd (ground arith)
  made-keeps (ok id) none g q h = absurd (ground arith)
  made-keeps (ok id) (some m) g q h = here_keeps id m h

  made-net :
      (id : Result ℕ) (m : Option Model) (g : GraphServ S Model Updates)
      → (made id m g).1.net ≡ g.net
  unfolding made
  made-net (throw e) m g = refl
  made-net (ok id) none g = refl
  made-net (ok id) (some m) g = refl

  abbrev ignored :
      Result Bool × GraphServ S Model Updates → Result (Unit {0}) × GraphServ S Model Updates
  ignored r = bind_result r (λ _ g. (ok tt, g))

  ignored-made :
      (r : Result (Unit {0})) (g : GraphServ S Model Updates)
      → ignored (bind_result (r, g) (λ _ g'. (ok true, g'))) ≡ (r, g)
  ignored-made (ok tt) g = refl
  ignored-made (throw e) g = refl

  sel-made :
      (id : Result ℕ) (m : Option Model) (nid : Text) (g : GraphServ S Model Updates)
      → casts.n2i nid ≡ id
      → g.graph ≡ m
      → ignored
          (create_node_here show make_hash ls peers driver casts event_model_updated argv nid g)
        ≡ made id m g
  unfolding create_node_here cast local on_model made
  sel-made (throw e) m nid g q p = rw q refl
  sel-made (ok id) none nid g q p = rw (q, p) refl
  sel-made (ok id) (some m) nid g q p =
      rw (q, p)
        (ignored-made (driver.create_node_here id m).0
          (record g { graph = some (driver.create_node_here id m).1 }))

  sel-here :
      (h : Host) (nid : Text) (g : GraphServ S Model Updates)
      → is_host argv h ≡ true
      → sel h nid g ≡ made (casts.n2i nid) g.graph g
  unfolding selective_create_node
  sel-here h nid g me = rw me (sel-made (casts.n2i nid) g.graph nid g refl refl)

  sel-there :
      (h : Host) (nid : Text) (g : GraphServ S Model Updates)
      → is_host argv h ≡ false
      → sel h nid g ≡ (
        (peers.create_node_here h nid g.net).0,
        record g { net = (peers.create_node_here h nid g.net).1 },
      )
  unfolding selective_create_node remote
  sel-there h nid g other = rw other refl

  pub sel-true :
      (h : Host) (nid : Text) (g : GraphServ S Model Updates)
      → (sel h nid g).0 ≡ ok tt
      → has (sel h nid g).1 h nid ≡ true
  sel-true h nid g e = elim (Bool-cases (is_host argv h)) [
    | inr other ↦
        let run = sel-there h nid g other in rw (other, run) (peer_true h nid g.net (rw run at e))
    | inl me ↦
        let run = sel-here h nid g me in
        rw (me, run) (made-true (casts.n2i nid) g.graph g (rw run at e))
  ]

  sel-keeps :
      (h h' : Host) (nid : Text) (g : GraphServ S Model Updates)
      → has g h' nid ≡ true
      → has (sel h nid g).1 h' nid ≡ true
  sel-keeps h h' nid g e = elim (Bool-cases (is_host argv h)) [
    | inr other ↦ rw (sel-there h nid g other) (elim (Bool-cases (is_host argv h')) [
      | inr b ↦ rw b (peer_keeps h h' nid g.net (rw b at e))
      | inl b ↦ rw b (rw b at e)
    ])
    | inl me ↦ rw (sel-here h nid g me) (elim (Bool-cases (is_host argv h')) [
      | inr b ↦ rw (b, made-net (casts.n2i nid) g.graph g) (rw b at e)
      | inl b ↦ rw b (made-keeps (casts.n2i nid) g.graph g refl (rw b at e))
    ])
  ]

  abbrev pub replicas : List Host → Text → Method S Model Updates (Unit {0})
  replicas = create_replicas show make_hash ls peers driver casts event_model_updated argv

  replicas-step :
      (r : Result (Unit {0})) (g : GraphServ S Model Updates) (hs : List Host) (nid : Text)
      (h' : Host)
      → ((g' : GraphServ S Model Updates)
          → has g' h' nid ≡ true
          → has (replicas hs nid g').1 h' nid ≡ true)
      → has g h' nid ≡ true
      → has (bind_result (r, g) (λ _. replicas hs nid)).1 h' nid ≡ true
  replicas-step (ok tt) g hs nid h' ih e = ih g e
  replicas-step (throw x) g hs nid h' ih e = e

  pub replicas-keeps :
      (hs : List Host) (h' : Host) (nid : Text) (g : GraphServ S Model Updates)
      → has g h' nid ≡ true
      → has (replicas hs nid g).1 h' nid ≡ true
  unfolding create_replicas
  replicas-keeps [] h' nid g e = e
  replicas-keeps (h ∷ hs) h' nid g e =
      replicas-step (caught casts (sel h nid g).0) (sel h nid g).1 hs nid h'
        (replicas-keeps hs h' nid) (sel-keeps h h' nid g e)

  caught-ok :
      ((e : Error) → casts.is_runtime_error e ≡ true)
      → (r : Result (Unit {0})) → caught casts r ≡ ok tt
  unfolding caught
  caught-ok all (ok tt) = refl
  caught-ok all (throw e) = ground (arith, all e)

  pub replicas-ok :
      ((e : Error) → casts.is_runtime_error e ≡ true)
      → (hs : List Host) (nid : Text) (g : GraphServ S Model Updates)
      → (replicas hs nid g).0 ≡ ok tt
  unfolding create_replicas
  replicas-ok all [] nid g = refl
  replicas-ok all (h ∷ hs) nid g =
      rw (caught-ok all (sel h nid g).0) (replicas-ok all hs nid (sel h nid g).1)
