-- ===== src/Proxy/Task/Answers.antt =====
-- The answer of a proxy's request: the fold of what the servers returned, whichever order they answer in.
use jubatus.Base.{
  ℕ, suc, ◌+◌, ◌-◌, ◌≡◌, ◌<◌, refl, sym, ap, ◌∙◌, false, List, [], ◌∷◌, ◌++◌, Option, some, length,
  arith,
}
use jubatus.RpcMclient.{Host, Outcome, returned, raised, RpcError, default_handler}
use jubatus.Proxy.Task.{
  result, Task, host_at, async_task, call_apply, set_timeout, cancel_timeout, aggregate,
  aggregate_results, done_one, done_one_inner,
}
use mathlib.Core.List.{append-nil, append_assoc}

-- An answer of a server: its outcome and the index of its future.
abbrev pub Call : Type 0 → Type 0
Call R = Outcome R × ℕ

abbrev pub values : {R : Type 0} → List (Call R) → List R
values [] = []
values ((returned r, i) ∷ calls) = r ∷ values calls
values ((raised e, i) ∷ calls) = values calls

abbrev pub failures : {R : Type 0} → List Host → List (Call R) → List RpcError
failures hosts [] = []
failures hosts ((returned r, i) ∷ calls) = failures hosts calls
failures hosts ((raised e, i) ∷ calls) =
    record { host = host_at hosts i; error = some (default_handler e) } ∷ failures hosts calls

module _ {R : Type 0} (default : R) (reducer : Option (R → R → R)) where
  -- The callbacks in the order in which they run.
  abbrev pub run : List (Call R) → Task R → Task R
  run [] t = t
  run (c ∷ calls) t = run calls (done_one default reducer c.0 c.1 t)

  abbrev pub collected : List (Call R) → ℕ → Task R → Task R
  collected calls k t = record t {
    running_count = k;
    results = t.results ++ values calls;
    errors = t.errors ++ failures t.hosts calls;
  }

  done_one-more :
      (c : Call R) (k : ℕ) (t : Task R)
      → t.cancelled ≡ false
      → t.running_count ≡ suc (suc k)
      → done_one default reducer c.0 c.1 t ≡ collected (c ∷ []) (suc k) t
  unfolding done_one done_one_inner
  done_one-more (returned r, i) k t h e = ground (arith, append-nil t.errors)
  done_one-more (raised x, i) k t h e = ground (arith, append-nil t.results)

  abbrev pub answered : Task R → Task R
  answered t = record t {
    has_timer = false;
    answers = t.answers ++ (result (aggregate default reducer t.results) ∷ []);
  }

  done_one-last :
      (c : Call R) (t : Task R)
      → t.cancelled ≡ false
      → t.running_count ≡ 1
      → done_one default reducer c.0 c.1 t ≡ answered (collected (c ∷ []) 0 t)
  unfolding done_one done_one_inner cancel_timeout aggregate_results
  done_one-last (returned r, i) t h e = ground (arith, append-nil t.errors)
  done_one-last (raised x, i) t h e = ground (arith, append-nil t.results)

  values-cons :
      (c : Call R) (calls : List (Call R)) → values (c ∷ []) ++ values calls ≡ values (c ∷ calls)
  values-cons (returned r, i) calls = refl
  values-cons (raised e, i) calls = refl

  failures-cons :
      (hosts : List Host) (c : Call R) (calls : List (Call R))
      → failures hosts (c ∷ []) ++ failures hosts calls ≡ failures hosts (c ∷ calls)
  failures-cons hosts (returned r, i) calls = refl
  failures-cons hosts (raised e, i) calls = refl

  collected-cons :
      (c : Call R) (calls : List (Call R)) (j k : ℕ) (t : Task R)
      → collected calls k (collected (c ∷ []) j t) ≡ collected (c ∷ calls) k t
  collected-cons c calls j k t =
      rw
        (
          append_assoc t.results (values (c ∷ [])) (values calls),
          values-cons c calls,
          append_assoc t.errors (failures t.hosts (c ∷ [])) (failures t.hosts calls),
          failures-cons t.hosts c calls,
        )
        refl

  -- While fewer servers have answered than were asked, their outcomes are collected.
  pub run-waits :
      (calls : List (Call R)) (k : ℕ) (t : Task R)
      → t.cancelled ≡ false
      → t.running_count ≡ length calls + suc k
      → run calls t ≡ collected calls (suc k) t
  run-waits [] k t h e = ground (arith, append-nil t.results, append-nil t.errors)
  run-waits (c ∷ calls) k t h e = rw (done_one-more c (length calls + k) t h (omega arith)) (
      run-waits calls k (collected (c ∷ []) (suc (length calls + k)) t) h (omega arith)
      ∙ collected-cons c calls (suc (length calls + k)) (suc k) t)

  pub run-answers :
      (c : Call R) (calls : List (Call R)) (t : Task R)
      → t.cancelled ≡ false
      → t.running_count ≡ length (c ∷ calls)
      → run (c ∷ calls) t ≡ answered (collected (c ∷ calls) 0 t)
  run-answers c [] t h e = done_one-last c t h e
  run-answers c (d ∷ calls) t h e = rw (done_one-more c (length calls) t h e) (
      run-answers d calls (collected (c ∷ []) (suc (length calls)) t) h refl
      ∙ ap answered (collected-cons c (d ∷ calls) (suc (length calls)) 0 t))

  pub call_apply-running :
      (timeout_sec : ℕ) (hosts : List Host)
      → let t = call_apply timeout_sec (async_task {R = R} hosts) in
        (t.cancelled ≡ false)
        × (t.running_count ≡ length hosts)
        × (t.results ≡ [])
        × (t.errors ≡ [])
        × (t.answers ≡ [])
        × (t.hosts ≡ hosts)
  unfolding call_apply set_timeout cancel_timeout async_task
  call_apply-running timeout_sec hosts = ground arith

  answers-all :
      (timeout_sec : ℕ) (hosts : List Host) (calls : List (Call R))
      → let t = run calls (call_apply timeout_sec (async_task hosts)) in
        0 < length hosts
        → length calls ≡ length hosts
        → (t.answers ≡ result (aggregate default reducer (values calls)) ∷ [])
          × (t.errors ≡ failures hosts calls)
          × (t.has_timer ≡ false)
  answers-all timeout_sec hosts [] h e = absurd (omega arith)
  answers-all timeout_sec hosts (c ∷ calls) h e =
      let (g, n, rs, es, ans, hs) = call_apply-running timeout_sec hosts in
      rw
        (run-answers c calls (call_apply timeout_sec (async_task hosts)) g (n ∙ sym e), rs, es, ans)
        (refl, ap (λ h. failures h (c ∷ calls)) hs, refl)

  answers-none :
      (timeout_sec : ℕ) (hosts : List Host) (calls : List (Call R))
      → length calls < length hosts
      → (run calls (call_apply timeout_sec (async_task hosts))).answers ≡ []
  answers-none timeout_sec hosts calls h =
      let (g, n, rs, es, ans, hs) = call_apply-running timeout_sec hosts in
      rw
        (run-waits calls (length hosts - length calls - 1)
          (call_apply timeout_sec (async_task hosts)) g (omega (arith, n)))
        ans

  pub answers_lem :
      (timeout_sec : ℕ) (hosts : List Host) (calls : List (Call R))
      → let t = run calls (call_apply timeout_sec (async_task hosts)) in
        (0 < length hosts
          → length calls ≡ length hosts
          → (t.answers ≡ result (aggregate default reducer (values calls)) ∷ [])
            × (t.errors ≡ failures hosts calls)
            × (t.has_timer ≡ false))
        × (length calls < length hosts → t.answers ≡ [])
  answers_lem timeout_sec hosts calls =
      (answers-all timeout_sec hosts calls, answers-none timeout_sec hosts calls)
