-- ===== src/ServerHelper/ConfigLock.antt =====
-- The loop of `get_config_lock`, and the lock through a server's life.
use jubatus.Base.{
  ℕ, zero, suc, ◌≡◌, ◌≤◌, ◌⊎◌, inl, inr, refl, ◌∙◌, Bool, true, false, none, some, Bool-cases,
  arith,
}
use jubatus.Argv.{ServerArgv, is_standalone}
use jubatus.Base.Comp.{runtime_error, Result, ok, throw}
use jubatus.Base.Int.{ℤ}
use jubatus.Base.Text.{Text}
use jubatus.LockService.{LockService}
use jubatus.Mutex.{ZkMutex, try_rlock}
use jubatus.Mutex.Read.{Reading, try_rlock-Reading}
use jubatus.ServerHelper.{
  Helper, Classes, ServerClass, Running, lock_loop, config_lock, drop_lock, get_config_lock,
}

module _ (starts_with : Text → Text → Bool) (junk : Text) {S : Type 0} (ls : LockService S) where
  -- `Failures n m s m' s'`: `n` attempts in a row that fail, from the lock `m` and the state `s` on.
  pub data Failures : ℕ → ZkMutex → S → ZkMutex → S → Type 0 where
    untried : {m : ZkMutex} {s : S} → Failures zero m s m s
    failed :
        {n : ℕ} {m m' m'' : ZkMutex} {s s' s'' : S}
        → try_rlock ls starts_with junk m s ≡ ((false, m'), s')
        → Failures n m' s' m'' s''
        → Failures (suc n) m s m'' s''

  -- The attempt after `n` failures gets the lock.
  pub record Taken (n : ℕ) (m : ZkMutex) (s : S) (m' : ZkMutex) (s' : S) : Type 0 where
    pub last : ZkMutex
    pub before : S
    pub failures : Failures n m s last before
    pub attempt : try_rlock ls starts_with junk last before ≡ ((true, m'), s')

  Failures-has_lock :
      {n : ℕ} (m m' : ZkMutex) (s s' : S) → Failures n m s m' s' → m'.has_lock ≡ m.has_lock
  Failures-has_lock m m' s s' untried = refl
  Failures-has_lock m m' s s' (failed e f) =
      let kept = Failures-has_lock _ m' _ s' f in
      let first = (try_rlock-Reading ls starts_with junk m s).1 in kept ∙ (rw e at first)

  -- A lock that was free and has been taken is held for reading only.
  pub Taken-held :
      {n : ℕ} (m m' : ZkMutex) (s s' : S)
      → Taken n m s m' s'
      → m.has_lock ≡ false
      → (m'.has_lock ≡ false) × (m'.has_rlock ≡ true)
  Taken-held m m' s s' t free =
      let kept = Failures-has_lock m t.last s t.before t.failures in
      let read = try_rlock-Reading ls starts_with junk t.last t.before in
      let read' : Reading ls starts_with junk t.last.has_lock ((true, m'), s') =
        rw t.attempt at read in
      (read'.1 ∙ kept ∙ free, read'.0 refl)

module _ (show : ℤ → Text) (make_hash : Text → Text) (starts_with : Text → Text → Bool)
    (junk : Text) {S Server : Type 0} (ls : LockService S) (force_close : S → S) (classes : Classes)
    (class : ServerClass Server) (run : Running S) (a : ServerArgv) where
  abbrev loop : ℕ → ZkMutex → S → (Result (Unit {0}) × ZkMutex) × S
  loop = lock_loop show make_hash starts_with junk ls force_close classes class run a

  -- How the loop ends.
  abbrev Ends : ℕ → ZkMutex → S → Type 0
  Ends retry m s =
      let r = loop retry m s in
      ((n : ℕ) × (n ≤ retry) × (r.0.0 ≡ ok tt) × Taken starts_with junk ls n m s r.0.1 r.1)
      ⊎ ((r.0.0 ≡ throw runtime_error) × Failures starts_with junk ls (suc retry) m s r.0.1 r.1)

  attempted :
      (m : ZkMutex) (s : S) (b : Bool)
      → let r = try_rlock ls starts_with junk m s in r.0.0 ≡ b → r ≡ ((b, r.0.1), r.1)
  attempted m s b e = rw e refl

  once_more :
      (retry : ℕ) (m : ZkMutex) (s : S)
      → let r = try_rlock ls starts_with junk m s in
        r.0.0 ≡ false → Ends retry r.0.1 r.1 → Ends (suc retry) m s
  unfolding lock_loop
  once_more retry m s e (inl (n, le, got, t)) = rw e (
      inl (
        suc n,
        omega (arith, le),
        got,
        record {
          last = t.last;
          before = t.before;
          failures = failed (attempted m s false e) t.failures;
          attempt = t.attempt;
        },
      ))
  once_more retry m s e (inr (thrown, f)) = rw e (inr (thrown, failed (attempted m s false e) f))

  at_once :
      (retry : ℕ) (m : ZkMutex) (s : S)
      → (try_rlock ls starts_with junk m s).0.0 ≡ true
      → Ends retry m s
  unfolding lock_loop
  at_once zero m s e = inl (
    0,
    omega arith,
    rw e refl,
    record { last = m; before = s; failures = untried; attempt = attempted m s true e },
  )
  at_once (suc retry) m s e = rw e (
      inl (
        0,
        omega arith,
        refl,
        record { last = m; before = s; failures = untried; attempt = attempted m s true e },
      ))

  lock_loop-Ends : (retry : ℕ) (m : ZkMutex) (s : S) → Ends retry m s
  unfolding lock_loop
  lock_loop-Ends zero m s = elim (Bool-cases (try_rlock ls starts_with junk m s).0.0) [
    | inl e ↦ at_once zero m s e
    | inr e ↦ inr (rw e refl, failed (attempted m s false e) untried)
  ]
  lock_loop-Ends (suc retry) m s =
      let r = try_rlock ls starts_with junk m s in
      elim (Bool-cases r.0.0) [
        | inl e ↦ at_once (suc retry) m s e
        | inr e ↦ once_more retry m s e (lock_loop-Ends retry r.0.1 r.1)
      ]

  abbrev pub locked_by : Helper S Server → ZkMutex → S → Helper S Server
  locked_by h m s = record h { zk_config_lock = some m; net = s }

  abbrev pub fresh : ZkMutex
  fresh = config_lock show make_hash starts_with junk ls force_close classes class run a

  -- For a server of a cluster that has no lock yet, `get_config_lock` ends after at most `retry + 1`
  -- attempts: either it returns, after at most `retry` attempts that failed and one that did not, and keeps
  -- the lock that was taken; or all `retry + 1` attempts failed and it throws.
  pub get_config_lock_lem :
      (retry : ℕ) (h : Helper S Server)
      → is_standalone a ≡ false
      → h.zk_config_lock ≡ none
      → let r =
          get_config_lock show make_hash starts_with junk ls force_close classes class run a retry
            h in
        (m : ZkMutex) × (s : S) × (r.1 ≡ locked_by h m s)
        × (((n : ℕ) × (n ≤ retry) × (r.0 ≡ ok tt) × Taken starts_with junk ls n fresh h.net m s)
            ⊎ ((r.0 ≡ throw runtime_error)
                × Failures starts_with junk ls (suc retry) fresh h.net m s))
  unfolding get_config_lock drop_lock
  get_config_lock_lem retry h c e =
      rw (c, e)
        (let l = loop retry fresh h.net in (l.0.1, l.1, refl, lock_loop-Ends retry fresh h.net))
