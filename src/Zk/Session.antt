-- ===== src/Zk/Session.antt =====
-- The session of the class `zk` in zk.cpp: waiting for a connection, the handler of the session's events, and the cleanup
-- functions. What the state of the connection is when it is asked for, and what a cleanup function does, are parameters.
mod Tests
use jubatus.Base.{
  ℕ, zero, suc, ◌≡◌, ◌≢◌, ◌≤◌, ◌⊎◌, inl, inr, refl, Bool, true, false, not, List, [], ◌∷◌, foldl,
  Bool-cases, if◌then◌else◌, arith,
}
use jubatus.Base.Comp.{Error, runtime_error, Result, ok, throw, Comp}
use jubatus.LockService.{Cleanup}
use jubatus.Zk.{Handle}

-- The types of events and the states of a session, each with a last one for any other code.
pub data EventType : Type 0 where
  created deleted changed child session not_watching unknown_type : EventType

pub data SessionState : Type 0 where
  connected connecting associating expired auth_failed unknown_state : SessionState

abbrev pub is_connected : SessionState → Bool
is_connected connected = true
is_connected connecting = false
is_connected associating = false
is_connected expired = false
is_connected auth_failed = false
is_connected unknown_state = false

module _ {S : Type 0} (zoo_state : S → SessionState × S) (run : Cleanup → S → S) where
  -- The loop, which asks once a second; a negative timeout is as zero.
  wait_loop : ℕ → S → Bool × S
  wait_loop zero s = let r = zoo_state s in (is_connected r.0, r.1)
  wait_loop (suc retry) s =
      let r = zoo_state s in
      let rest = wait_loop retry r.1 in if is_connected r.0 then (true, r.1) else rest

  pub wait_until_connected : ℕ → Handle S → Bool × Handle S
  unfolding wait_loop
  wait_until_connected timeout z = let r = wait_loop timeout z.net in (r.0, record z { net = r.1 })

  -- The constructor, once the session has been initialised.
  pub zk : ℕ → Comp (Handle S) (Unit {0})
  zk timeout z =
      let r = wait_until_connected timeout z in (if r.0 then ok tt else throw runtime_error, r.1)

  run_each : List Cleanup → S → S
  run_each [] s = s
  run_each (f ∷ fs) s = run_each fs (run f s)

  pub run_cleanup : Handle S → Handle S
  unfolding run_each
  run_cleanup z = record z { net = run_each z.cleanups z.net }

  -- The session is lost: `timeout` is the negotiated one in seconds, rounded up.
  recover : ℕ → Handle S → Handle S
  recover timeout z = let r = wait_until_connected timeout z in if r.0 then r.1 else run_cleanup r.1

  session_event : ℕ → SessionState → Handle S → Handle S
  unfolding recover
  session_event timeout connected z = z
  session_event timeout connecting z = recover timeout z
  session_event timeout associating z = z
  session_event timeout expired z = run_cleanup z
  session_event timeout auth_failed z = z
  session_event timeout unknown_state z = z

  pub mywatcher : ℕ → EventType → SessionState → Handle S → Handle S
  unfolding session_event
  mywatcher timeout created state z = z
  mywatcher timeout deleted state z = z
  mywatcher timeout changed state z = z
  mywatcher timeout child state z = z
  mywatcher timeout session state z = session_event timeout state z
  mywatcher timeout not_watching state z = z
  mywatcher timeout unknown_type state z = z

  -- `Lost n s s'`: from `s` on the state is asked for `n` times and is never connected.
  pub data Lost : ℕ → S → S → Type 0 where
    unasked : {s : S} → Lost zero s s
    asked :
        {n : ℕ} {s s' : S}
        → is_connected (zoo_state s).0 ≡ false
        → Lost n (zoo_state s).1 s'
        → Lost (suc n) s s'

  -- The connection is seen after at most `retry` times that it was not; or it is not seen `retry + 1` times.
  abbrev Waited : ℕ → S → Bool × S → Type 0
  Waited retry s r =
      ((r.0 ≡ true)
        × (n : ℕ) × (before : S) × (n ≤ retry)
        × Lost n s before
        × (is_connected (zoo_state before).0 ≡ true)
        × (r.1 ≡ (zoo_state before).1))
      ⊎ ((r.0 ≡ false) × Lost (suc retry) s r.1)

  at_once :
      (retry : ℕ) (s : S) → is_connected (zoo_state s).0 ≡ true → Waited retry s (wait_loop retry s)
  unfolding wait_loop
  at_once zero s e = inl (e, 0, s, omega arith, unasked, e, refl)
  at_once (suc retry) s e = rw e (inl (refl, 0, s, omega arith, unasked, e, refl))

  wait_loop-Waited : (retry : ℕ) (s : S) → Waited retry s (wait_loop retry s)
  unfolding wait_loop
  wait_loop-Waited zero s = elim (Bool-cases (is_connected (zoo_state s).0)) [
    | inl e ↦ at_once zero s e
    | inr e ↦ inr (e, asked e unasked)
  ]
  wait_loop-Waited (suc retry) s = elim (Bool-cases (is_connected (zoo_state s).0)) [
    | inl e ↦ at_once (suc retry) s e
    | inr e ↦ rw e (elim (wait_loop-Waited retry (zoo_state s).1) [
      | inl (yes_it_is, n, before, le, lost, seen, same) ↦
          inl (yes_it_is, suc n, before, omega (arith, le), asked e lost, seen, same)
      | inr (not_seen, lost) ↦ inr (not_seen, asked e lost)
    ])
  ]

  -- Every cleanup function has run once, in the order in which they were registered, from `s` on.
  abbrev pub cleaned : Handle S → S → Handle S
  cleaned z s = record z { net = foldl (λ st f. run f st) s z.cleanups }

  run_each-foldl : (fs : List Cleanup) (s : S) → run_each fs s ≡ foldl (λ st f. run f st) s fs
  unfolding run_each
  run_each-foldl [] s = refl
  run_each-foldl (f ∷ fs) s = run_each-foldl fs (run f s)

  run_cleanup-cleaned : (z : Handle S) → run_cleanup z ≡ cleaned z z.net
  unfolding run_cleanup
  run_cleanup-cleaned z = rw (run_each-foldl z.cleanups z.net) refl

  -- How the loss of a session ends: it is found again, or given up.
  abbrev pub Recovered : ℕ → Handle S → Handle S → Type 0
  Recovered timeout z z' =
      ((n : ℕ) × (before : S) × (n ≤ timeout)
        × Lost n z.net before
        × (is_connected (zoo_state before).0 ≡ true)
        × (z' ≡ record z { net = (zoo_state before).1 }))
      ⊎ ((s : S) × Lost (suc timeout) z.net s × (z' ≡ cleaned z s))

  recover-Recovered : (timeout : ℕ) (z : Handle S) → Recovered timeout z (recover timeout z)
  unfolding recover wait_until_connected
  recover-Recovered timeout z = elim (wait_loop-Waited timeout z.net) [
    | inl (found, n, before, le, lost, seen, same) ↦
        inl (n, before, le, lost, seen, rw (found, same) refl)
    | inr (gone, lost) ↦
        let s = (wait_loop timeout z.net).1 in
        inr (s, lost, rw gone (run_cleanup-cleaned (record z { net = s })))
  ]

  quiet :
      (timeout : ℕ) (state : SessionState) (z : Handle S)
      → state ≢ expired
      → state ≢ connecting
      → session_event timeout state z ≡ z
  unfolding session_event
  quiet timeout connected z h k = refl
  quiet timeout connecting z h k = absurd (k refl)
  quiet timeout associating z h k = refl
  quiet timeout expired z h k = absurd (h refl)
  quiet timeout auth_failed z h k = refl
  quiet timeout unknown_state z h k = refl

  foreign :
      (timeout : ℕ) (type : EventType) (state : SessionState) (z : Handle S)
      → type ≢ session
      → mywatcher timeout type state z ≡ z
  unfolding mywatcher
  foreign timeout created state z h = refl
  foreign timeout deleted state z h = refl
  foreign timeout changed state z h = refl
  foreign timeout child state z h = refl
  foreign timeout session state z h = absurd (h refl)
  foreign timeout not_watching state z h = refl
  foreign timeout unknown_type state z h = refl

  others_quiet :
      (timeout : ℕ) (type : EventType) (state : SessionState) (z : Handle S)
      → state ≢ expired
      → state ≢ connecting
      → mywatcher timeout type state z ≡ z
  unfolding mywatcher
  others_quiet timeout created state z h k = refl
  others_quiet timeout deleted state z h k = refl
  others_quiet timeout changed state z h k = refl
  others_quiet timeout child state z h k = refl
  others_quiet timeout session state z h k = quiet timeout state z h k
  others_quiet timeout not_watching state z h k = refl
  others_quiet timeout unknown_type state z h k = refl

  -- The handler of the session's events runs the cleanup functions, each once and in the order of their
  -- registration, when the session has expired, and when it is lost and the connection has not been seen in `timeout + 1`
  -- questions. A session that is seen again before is left alone, and so is every other event.
  pub mywatcher_lem :
      (timeout : ℕ) (type : EventType) (state : SessionState) (z : Handle S)
      → (type ≡ session → state ≡ expired → mywatcher timeout type state z ≡ cleaned z z.net)
        × (type ≡ session
            → state ≡ connecting
            → Recovered timeout z (mywatcher timeout type state z))
        × (state ≢ expired → state ≢ connecting → mywatcher timeout type state z ≡ z)
        × (type ≢ session → mywatcher timeout type state z ≡ z)
  unfolding mywatcher session_event
  mywatcher_lem timeout type state z = (
    λ t e. rw (t, e) (run_cleanup-cleaned z),
    λ t e. rw (t, e) (recover-Recovered timeout z),
    others_quiet timeout type state z,
    foreign timeout type state z,
  )
