-- ===== src/ServerHelper/Construct/Holding.antt =====
-- The lock on the configuration through the steps of the constructor of `server_helper`.
use jubatus.Base.{
  ◌≡◌, inl, inr, refl, ap, ◌∙◌, Bool, true, false, not, ◌&&◌, Option, none, some, Bool-cases, arith,
}
use jubatus.Argv.{ServerArgv, is_standalone, is_empty, Start, ready, exits, fails}
use jubatus.Base.Comp.{Result, ok, throw, Comp}
use jubatus.Base.Int.{ℤ}
use jubatus.Base.Text.{Text}
use jubatus.LockService.{LockService}
use jubatus.Mutex.{ZkMutex}
use jubatus.ServerHelper.{
  Helper, Classes, ServerClass, Running, on_net, prepare_for_start, get_config_lock, on_server,
}
use jubatus.ServerHelper.ConfigLock.{get_config_lock_lem, Taken-held}
use jubatus.ServerHelper.Construct.{
  bind_start, uncaught, get_conf, set_conf, load_model, construct_body,
}

-- A chain of two steps that is ready: what the first leads to, and what the second makes of it.
bind_start-leads :
    {H A B : Type 0} (P Q : H → Type 0) (r : Start A × H) (f : A → H → Start B × H) (b : B)
    → ((a : A) → r.0 ≡ ready a → P r.1)
    → ((a : A) (h : H) → P h → (f a h).0 ≡ ready b → Q (f a h).1)
    → (bind_start r f).0 ≡ ready b
    → Q (bind_start r f).1
bind_start-leads P Q (ready a, h) f b p k e = k a h (p a refl) e
bind_start-leads P Q (exits n, h) f b p k e = absurd cc
bind_start-leads P Q (fails x, h) f b p k e = absurd cc

abbrev returned : {A : Type 0} → Result A → Start A → Result A
returned r (ready a) = ok a
returned r (exits n) = r
returned r (fails e) = r

uncaught-ready : {H A : Type 0} (r : Result A × H) (a : A) → (uncaught r).0 ≡ ready a → r.0 ≡ ok a
uncaught-ready (ok a, h) b e = ap (returned (ok a)) e
uncaught-ready (throw x, h) b e = absurd cc

uncaught-state : {H A : Type 0} (r : Result A × H) → (uncaught r).1 ≡ r.1
uncaught-state (ok a, h) = refl
uncaught-state (throw x, h) = refl

-- The process holds the lock `m` for reading only, and its lock service is registered.
abbrev pub Holds : {S Server : Type 0} → ZkMutex → Helper S Server → Type 0
Holds m h =
    (h.zk_config_lock ≡ some m)
    × (m.has_lock ≡ false)
    × (m.has_rlock ≡ true)
    × (h.registered ≡ true)

-- Ready to take the lock.
abbrev pub Unlocked : {S Server : Type 0} → Helper S Server → Type 0
Unlocked h = (h.zk_config_lock ≡ none) × (h.registered ≡ true)

abbrev pub Locked : {S Server : Type 0} → Helper S Server → Type 0
Locked h = (m : ZkMutex) × Holds m h

module _ (show : ℤ → Text) (make_hash : Text → Text) (starts_with : Text → Text → Bool)
    (junk : Text) {S Server : Type 0} (ls : LockService S) (force_close : S → S) (classes : Classes)
    (class : ServerClass Server) (run : Running S) (a : ServerArgv) (file : Text → Option Text)
    (exists : Text → S → Bool × S) (set : Text → Text → S → Bool × S) (parses : Text → Bool) where
  abbrev conf : Helper S Server → Start Text × Helper S Server
  conf =
      get_conf show make_hash starts_with junk ls force_close classes class run a file exists set
        parses

  abbrev configure : Text → Helper S Server → Start (Unit {0}) × Helper S Server
  configure =
      set_conf show make_hash starts_with junk ls force_close classes class run a file exists set
        parses

  abbrev loaded : Helper S Server → Start (Unit {0}) × Helper S Server
  loaded =
      load_model show make_hash starts_with junk ls force_close classes class run a file exists set
        parses

  abbrev prepared : Comp (Helper S Server) (Unit {0})
  prepared = prepare_for_start show make_hash starts_with junk ls force_close classes class run a

  abbrev locked : Comp (Helper S Server) (Unit {0})
  locked = get_config_lock show make_hash starts_with junk ls force_close classes class run a 3

  -- The pointers to the lock service and to the lock.
  abbrev Kept : Helper S Server → Helper S Server → Type 0
  Kept h h' = (h'.zk_config_lock ≡ h.zk_config_lock) × (h'.registered ≡ h.registered)

  get_conf-Kept : (h : Helper S Server) → Kept h (conf h).1
  unfolding get_conf
  get_conf-Kept h = ground arith

  on_server-Kept :
      (m : Comp Server (Unit {0})) (o : Option Server) (h : Helper S Server)
      → Kept h
          (on_server show make_hash starts_with junk ls force_close classes class run a m o h).1
  unfolding on_server
  on_server-Kept m none h = (refl, refl)
  on_server-Kept m (some v) h = (refl, refl)

  set_conf-Kept : (config : Text) (h : Helper S Server) → Kept h (configure config h).1
  unfolding set_conf
  set_conf-Kept config h = on_server-Kept (class.set_config config) h.server h

  load_model-Kept : (h : Helper S Server) → Kept h (loaded h).1
  unfolding load_model
  load_model-Kept h = elim (Bool-cases (is_standalone a && not (is_empty a.modelpath))) [
    | inl e ↦ rw e (on_server-Kept (class.load_file a.modelpath) h.server h)
    | inr e ↦ rw e (refl, refl)
  ]

  abbrev pub body : Helper S Server → Start (Unit {0}) × Helper S Server
  body =
      construct_body show make_hash starts_with junk ls force_close classes class run a file exists
        set parses

  Holds-Kept : (m : ZkMutex) (h h' : Helper S Server) → Holds m h → Kept h h' → Holds m h'
  Holds-Kept m h h' (l, w, r, g) (kl, kg) = (kl ∙ l, w, r, kg ∙ g)

  -- What is left once there is a lock.
  abbrev configured : Helper S Server → Start (Unit {0}) × Helper S Server
  configured h2 =
      bind_start (conf h2) (λ config h3. bind_start (configure config h3) (λ u h4. loaded h4))

  configured-Holds :
      (m : ZkMutex) (h2 : Helper S Server)
      → Holds m h2
      → (configured h2).0 ≡ ready tt
      → Holds m (configured h2).1
  configured-Holds m h2 holds =
      bind_start-leads (Holds m) (Holds m) (conf h2)
        (λ config h3. bind_start (configure config h3) (λ u h4. loaded h4)) tt
        (λ config c. Holds-Kept m h2 (conf h2).1 holds (get_conf-Kept h2))
        (λ config h3 p3.
          bind_start-leads (Holds m) (Holds m) (configure config h3) (λ u h4. loaded h4) tt
            (λ u c. Holds-Kept m h3 (configure config h3).1 p3 (set_conf-Kept config h3))
            (λ u h4 p4 c. Holds-Kept m h4 (loaded h4).1 p4 (load_model-Kept h4)))

  prepared-Unlocked :
      (h : Helper S Server) → is_standalone a ≡ false → Unlocked h → Unlocked (prepared h).1
  unfolding prepare_for_start on_net
  prepared-Unlocked h c (e, g) = rw c (e, g)

  taken-Locked :
      (h : Helper S Server)
      → is_standalone a ≡ false
      → Unlocked h
      → (locked h).0 ≡ ok tt
      → Locked (locked h).1
  taken-Locked h c (e, g) o =
      let (m, s, shape, why) =
        get_config_lock_lem show make_hash starts_with junk ls force_close classes class run a 3 h c
          e in
      elim why [
        | inl (n, le, got, taken) ↦
            let (w, r) = Taken-held starts_with junk ls _ m h.net s taken refl in
            (m, rw shape (refl, w, r, g))
        | inr (thrown, f) ↦ absurd cc
      ]

  pub started-Locked :
      (h : Helper S Server)
      → is_standalone a ≡ false
      → Unlocked h
      → (body h).0 ≡ ready tt
      → Locked (body h).1
  unfolding construct_body
  started-Locked h c u =
      let with_server : Helper S Server → Helper S Server =
        λ h1. record h1 { server = some (class.new a) } in
      bind_start-leads Unlocked Locked (uncaught (prepared h))
        (λ v h1. bind_start (uncaught (locked (with_server h1))) (λ w h2. configured h2)) tt
        (λ v r. rw (uncaught-state (prepared h)) (prepared-Unlocked h c u))
        (λ v h1 p1.
          let q = locked (with_server h1) in
          bind_start-leads Locked Locked (uncaught q) (λ w h2. configured h2) tt
            (λ w r.
              rw (uncaught-state q) (taken-Locked (with_server h1) c p1 (uncaught-ready q w r)))
            (λ w h2 (m, holds) e. (m, configured-Holds m h2 holds e)))
