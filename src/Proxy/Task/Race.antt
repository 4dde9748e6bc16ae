-- ===== src/Proxy/Task/Race.antt =====
-- A request and its timeout.
use jubatus.Base.{
  ℕ, suc, ◌-◌, ◌≡◌, ◌<◌, refl, sym, ap, ◌∙◌, Bool, true, false, List, [], ◌∷◌, ◌++◌, Option, length,
  arith,
}
use jubatus.RpcMclient.{Host}
use jubatus.Proxy.Task.{
  Task, result, timeout_error, async_task, call_apply, aggregate, done_one, on_timeout,
}
use jubatus.Proxy.Task.Answers.{
  Call, values, run, run-waits, run-answers, collected, answered, call_apply-running,
}

module _ {R : Type 0} (default : R) (reducer : Option (R → R → R)) where
  done_one-cancelled :
      (c : Call R) (t : Task R)
      → t.cancelled ≡ true
      → done_one default reducer c.0 c.1 t ≡ record t { running_count = t.running_count - 1 }
  unfolding done_one
  done_one-cancelled c t h = ground arith

  run-cancelled :
      (calls : List (Call R)) (t : Task R)
      → t.cancelled ≡ true
      → run default reducer calls t ≡ record t { running_count = t.running_count - length calls }
  run-cancelled [] t h = ground arith
  run-cancelled (c ∷ calls) t h = rw (done_one-cancelled c t h) (
      run-cancelled calls (record t { running_count = t.running_count - 1 }) h
      ∙ ap (λ n. record t { running_count = n }) (omega arith))

  on_timeout-open :
      (is_finished : ℕ → Bool) (t : Task R)
      → t.cancelled ≡ false
      → ((on_timeout is_finished t).cancelled ≡ true)
        × ((on_timeout is_finished t).answers ≡ t.answers ++ (timeout_error ∷ []))
        × ((on_timeout is_finished t).results ≡ t.results)
  unfolding on_timeout
  on_timeout-open is_finished t h = ground arith

  -- When the timeout strikes before all servers have answered, the request is answered with the timeout
  -- error and nothing else, whatever answers come afterwards and in whichever order; they
  -- are not added to the results.
  pub timeout_lem :
      (timeout_sec : ℕ) (hosts : List Host) (is_finished : ℕ → Bool) (calls late : List (Call R))
      → length calls < length hosts
      → let t = run default reducer calls (call_apply timeout_sec (async_task hosts)) in
        let u = run default reducer late (on_timeout is_finished t) in
        (u.answers ≡ timeout_error ∷ []) × (u.results ≡ values calls)
  timeout_lem timeout_sec hosts is_finished calls late h =
      let start = call_apply timeout_sec (async_task {R = R} hosts) in
      let (g, n, rs, es, ans, hs) = call_apply-running {R = R} default reducer timeout_sec hosts in
      let k = length hosts - length calls - 1 in
      let u = collected default reducer calls (suc k) start in
      let (c, a, r) = on_timeout-open is_finished u g in
      rw
        (
          run-waits default reducer calls k start g (omega (arith, n)),
          run-cancelled late (on_timeout is_finished u) c,
        )
        (a ∙ ap (λ x. x ++ (timeout_error ∷ [])) ans, r ∙ ap (λ x. x ++ values calls) rs)

  -- A handler of the timeout that was waiting for the lock while the last answer was handled answers a
  -- second time: nothing records that the request has been answered, and removing the timer
  -- does not stop a handler that has started.
  pub answered_twice :
      (timeout_sec : ℕ) (hosts : List Host) (is_finished : ℕ → Bool) (calls : List (Call R))
      → 0 < length hosts
      → length calls ≡ length hosts
      → let t = run default reducer calls (call_apply timeout_sec (async_task hosts)) in
        (on_timeout is_finished t).answers
        ≡ result (aggregate default reducer (values calls)) ∷ timeout_error ∷ []
  answered_twice timeout_sec hosts is_finished [] h e = absurd (omega arith)
  answered_twice timeout_sec hosts is_finished (c ∷ calls) h e =
      let start = call_apply timeout_sec (async_task {R = R} hosts) in
      let (g, n, rs, es, ans, hs) = call_apply-running {R = R} default reducer timeout_sec hosts in
      let u = answered default reducer (collected default reducer (c ∷ calls) 0 start) in
      rw (run-answers default reducer c calls start g (n ∙ sym e))
        ((on_timeout-open is_finished u g).1 ∙ rw (rs, ans) refl)
