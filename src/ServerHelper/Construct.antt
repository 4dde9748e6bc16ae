-- ===== src/ServerHelper/Construct.antt =====
-- The constructor of `server_helper`, with `get_conf` of server_util.cpp. `file` says what the file at a path holds, `exists` and
-- `set` are the lock service's, and `parses` is the JSON parser.
pub mod Holding
pub mod Life
mod Tests
use jubatus.Base.{
  ℕ, ◌≡◌, Bool, true, false, not, ◌&&◌, List, [], ◌∷◌, Option, none, some, if◌then◌else◌,
}
use jubatus.Argv.{ServerArgv, is_standalone, is_empty, Start, ready, exits, fails}
use jubatus.Base.Comp.{Error, runtime_error, Result, ok, throw, Comp}
use jubatus.Base.Int.{ℤ}
use jubatus.Base.Text.{Text}
use jubatus.Config.{config_fromlocal, config_fromzk}
use jubatus.LockService.{LockService}
use jubatus.ServerHelper.{
  Helper, Classes, ServerClass, Running, on_net, close_lock_service, server_helper_impl,
  prepare_for_start, get_config_lock, on_server,
}

abbrev pub bind_start : {H A B : Type 0} → Start A × H → (A → H → Start B × H) → Start B × H
bind_start (ready a, h) f = f a h
bind_start (exits n, h) f = (exits n, h)
bind_start (fails e, h) f = (fails e, h)

-- How the step ends when nothing catches what it throws.
abbrev pub uncaught : {H A : Type 0} → Result A × H → Start A × H
uncaught (ok a, h) = (ready a, h)
uncaught (throw e, h) = (fails e, h)

module _ (classes : Classes) where
  -- `get_conf` exits on every jubatus_exception.
  conf_or_exit : Result Text → Start Text
  conf_or_exit (ok config) = ready config
  conf_or_exit (throw e) = if classes.is_jubatus e then exits 1 else fails e

  -- The handlers around `set_config`.
  set_or_exit : Result (Unit {0}) → Start (Unit {0})
  set_or_exit (ok u) = ready tt
  set_or_exit (throw e) =
      if classes.is_cast_check_error e
      then fails classes.config_exception
      else if classes.is_parse_error e
      then exits 1
      else fails e

  -- The handler around `load_file`.
  load_or_exit : Result (Unit {0}) → Start (Unit {0})
  load_or_exit (ok u) = ready tt
  load_or_exit (throw e) = if classes.is_runtime_error e then exits 1 else fails e

module _ (show : ℤ → Text) (make_hash : Text → Text) (starts_with : Text → Text → Bool)
    (junk : Text) {S Server : Type 0} (ls : LockService S) (force_close : S → S) (classes : Classes)
    (class : ServerClass Server) (run : Running S) (a : ServerArgv) (file : Text → Option Text)
    (exists : Text → S → Bool × S) (set : Text → Text → S → Bool × S) (parses : Text → Bool) where
  pub get_conf : Helper S Server → Start Text × Helper S Server
  unfolding conf_or_exit
  get_conf h =
      let r = config_fromzk ls exists set starts_with junk parses a.type a.name h.net in
      if is_standalone a
      then (conf_or_exit classes (config_fromlocal file a.configpath), h)
      else (conf_or_exit classes r.0, record h { net = r.1 })

  set_conf : Text → Helper S Server → Start (Unit {0}) × Helper S Server
  unfolding set_or_exit on_server
  set_conf config h =
      let r =
        on_server show make_hash starts_with junk ls force_close classes class run a
          (class.set_config config) h.server h in
      (set_or_exit classes r.0, r.1)

  load_model : Helper S Server → Start (Unit {0}) × Helper S Server
  unfolding load_or_exit on_server
  load_model h =
      let r =
        on_server show make_hash starts_with junk ls force_close classes class run a
          (class.load_file a.modelpath) h.server h in
      if is_standalone a && not (is_empty a.modelpath)
      then (load_or_exit classes r.0, r.1)
      else (ready tt, h)

  -- What follows the constructor of `impl_`.
  pub construct_body : Helper S Server → Start (Unit {0}) × Helper S Server
  unfolding set_conf load_model
  construct_body h =
      bind_start
        (uncaught
          (prepare_for_start show make_hash starts_with junk ls force_close classes class run a h))
        (λ u h1.
          bind_start
            (uncaught (
              get_config_lock show make_hash starts_with junk ls force_close classes class run a 3
                (record h1 { server = some (class.new a) })))
            (λ u h2.
              bind_start (get_conf h2)
                (λ config h3. bind_start (set_conf config h3) (λ u h4. load_model h4))))

  -- An exception destroys the members that have been made; `exit` does not.
  unwound : Start (Unit {0}) × Helper S Server → Start (Unit {0}) × Helper S Server
  unwound (ready u, h) = (ready tt, h)
  unwound (exits n, h) = (exits n, h)
  unwound (fails e, h) = (
    fails e,
    record (close_lock_service show make_hash starts_with junk ls force_close classes class run a
        h) { server = none },
  )

  after_impl : Result (Unit {0}) × Helper S Server → Start (Unit {0}) × Helper S Server
  unfolding construct_body unwound
  after_impl (ok u, h) = unwound (construct_body h)
  after_impl (throw e, h) = (fails e, record h { zk = false })

  -- The constructor of `server_helper`.
  pub construct : Helper S Server → Start (Unit {0}) × Helper S Server
  unfolding after_impl
  construct h =
      after_impl
        (server_helper_impl show make_hash starts_with junk ls force_close classes class run a h)
