-- ===== src/ServerHelper/Construct/Life.antt =====
-- What a server that has been made holds, what a failed constructor leaves, and what `stop` undoes.
use jubatus.Base.{◌≡◌, refl, Bool, true, false, Option, none, some}
use jubatus.Argv.{ServerArgv, is_standalone, Start, ready, exits, fails}
use jubatus.Base.Comp.{Error, ok}
use jubatus.Base.Int.{ℤ}
use jubatus.Base.Text.{Text}
use jubatus.LockService.{LockService}
use jubatus.Mutex.{ZkMutex}
use jubatus.Mutex.Read.{unlock_r-unlock}
use jubatus.ServerHelper.{
  Helper, Classes, ServerClass, Running, close_lock_service, server_helper_impl, stop,
  prepare_for_stop, drop_lock,
}
use jubatus.ServerHelper.Construct.{construct_body, unwound, after_impl, construct}
use jubatus.ServerHelper.Construct.Holding.{Holds, started-Locked}

module _ (show : ℤ → Text) (make_hash : Text → Text) (starts_with : Text → Text → Bool)
    (junk : Text) {S Server : Type 0} (ls : LockService S) (force_close : S → S) (classes : Classes)
    (class : ServerClass Server) (run : Running S) (a : ServerArgv) (file : Text → Option Text)
    (exists : Text → S → Bool × S) (set : Text → Text → S → Bool × S) (parses : Text → Bool) where
  abbrev made : Helper S Server → Start (Unit {0}) × Helper S Server
  made =
      construct show make_hash starts_with junk ls force_close classes class run a file exists set
        parses

  abbrev body : Helper S Server → Start (Unit {0}) × Helper S Server
  body =
      construct_body show make_hash starts_with junk ls force_close classes class run a file exists
        set parses

  abbrev ended : Start (Unit {0}) × Helper S Server → Start (Unit {0}) × Helper S Server
  ended =
      unwound show make_hash starts_with junk ls force_close classes class run a file exists set
        parses

  unwound-ready :
      (x : Start (Unit {0}) × Helper S Server)
      → (ended x).0 ≡ ready tt
      → (x.0 ≡ ready tt) × ((ended x).1 ≡ x.1)
  unfolding unwound
  unwound-ready (ready u, h) e = (refl, refl)
  unwound-ready (exits n, h) e = absurd cc
  unwound-ready (fails x, h) e = absurd cc

  -- Nothing of the server is left.
  abbrev pub Gone : Helper S Server → Type 0
  Gone h = (h.zk ≡ false) × (h.registered ≡ false) × (h.zk_config_lock ≡ none) × (h.server ≡ none)

  unwound-Gone :
      (x : Start (Unit {0}) × Helper S Server) (e : Error)
      → (ended x).0 ≡ fails e
      → Gone (ended x).1
  unfolding unwound close_lock_service
  unwound-Gone (ready u, h) f e = absurd cc
  unwound-Gone (exits n, h) f e = absurd cc
  unwound-Gone (fails x, h) f e = (refl, refl, refl, refl)

  impl-registers :
      (h : Helper S Server)
      → is_standalone a ≡ false
      → h.registered ≡ false
      → server_helper_impl show make_hash starts_with junk ls force_close classes class run a h
        ≡ (ok tt, record h { zk = true; registered = true })
  unfolding server_helper_impl
  impl-registers h c r = rw (c, r) refl

  made-ended :
      (h : Helper S Server)
      → is_standalone a ≡ false
      → h.registered ≡ false
      → made h ≡ ended (body (record h { zk = true; registered = true }))
  unfolding construct after_impl
  made-ended h c r = rw (impl-registers h c r) refl

  abbrev pub stopped : Helper S Server → Helper S Server
  stopped = stop show make_hash starts_with junk ls force_close classes class run a

  -- A server in a cluster that has stopped, with `m` the lock that it held.
  abbrev pub left : ZkMutex → Helper S Server → Helper S Server
  left m g = record g {
    zk = false;
    registered = false;
    zk_config_lock = none;
    net = run.end (force_close (ls.remove m.seqfile (run.mixer_stop g.net)).1);
  }

  drop_lock-held :
      (m : ZkMutex) (s : S)
      → m.has_lock ≡ false
      → m.has_rlock ≡ true
      → drop_lock show make_hash starts_with junk ls force_close classes class run a (some m) s
        ≡ (ls.remove m.seqfile s).1
  unfolding drop_lock
  drop_lock-held m s w r = unlock_r-unlock ls starts_with junk m s w r

  Holds-stop :
      (m : ZkMutex) (g : Helper S Server)
      → is_standalone a ≡ false
      → Holds m g
      → stopped g ≡ left m g
  unfolding stop prepare_for_stop close_lock_service
  Holds-stop m g c (l, w, r, k) = rw (c, k, l, drop_lock-held m (run.mixer_stop g.net) w r) refl

  -- For a server of a cluster, in a process without a lock service: if the constructor returns, the server holds
  -- the lock on its configuration, for reading only, and `stop` then stops the mixer, removes
  -- the lock's node, closes the lock service and ends the RPC server, in this order. If an exception
  -- leaves the constructor, neither the lock, the server nor the registered lock service remain.
  pub construct-stop :
      (h : Helper S Server)
      → is_standalone a ≡ false
      → h.zk_config_lock ≡ none
      → h.registered ≡ false
      → ((made h).0 ≡ ready tt
          → (m : ZkMutex) × ((made h).1.zk_config_lock ≡ some m)
            × (m.has_lock ≡ false)
            × (m.has_rlock ≡ true)
            × (stopped (made h).1 ≡ left m (made h).1))
        × ((e : Error) → (made h).0 ≡ fails e → Gone (made h).1)
  construct-stop h c l r =
      let h0 : Helper S Server = record h { zk = true; registered = true } in
      rw (made-ended h c r) (
        λ e.
            let (b, same) = unwound-ready (body h0) e in
            let (m, (k, w, d, g)) =
              started-Locked show make_hash starts_with junk ls force_close classes class run a file
                exists set parses h0 c (l, refl) b in
            rw same (m, k, w, d, Holds-stop m (body h0).1 c (k, w, d, g)),
        λ x e. unwound-Gone (body h0) x e,
      )
