-- ===== src/Proxy/Task/Tests.antt =====
-- A request to three servers, one of which fails.
use jubatus.Base.{
  ℕ, ◌+◌, ◌≡◌, ◌≢◌, ◌↔◌, refl, Bool, true, false, List, [], ◌∷◌, some, All, arith, ℕ_discrete,
}
use jubatus.Aggregators.{all_and}
use jubatus.Base.Int.{pos}
use jubatus.Base.Text.{codes}
use jubatus.RpcMclient.{Host, returned, raised, connect_error}
use jubatus.Proxy.Task.{
  result, timeout_error, async_task, call_apply, set_timeout, cancel_timeout, aggregate,
  aggregate_results, reduce_with, done_one, done_one_inner, on_timeout, unfinished,
}
use jubatus.Proxy.Task.Answers.{Call, values, run}
use jubatus.Proxy.Task.Order.{arrival_order, all_and_lem}
use jubatus.Proxy.Task.Race.{timeout_lem, answered_twice}
use mathlib.Core.List.Perm

abbrev hosts : List Host
hosts = (codes "a", pos 1) ∷ (codes "b", pos 2) ∷ (codes "c", pos 3) ∷ []

abbrev calls : List (Call ℕ)
calls = (returned 5, 1) ∷ (raised connect_error, 0) ∷ (returned 7, 2) ∷ []

abbrev others : List (Call ℕ)
others = (raised connect_error, 0) ∷ (returned 5, 1) ∷ (returned 7, 2) ∷ []

abbrev plus : ℕ → ℕ → ℕ
plus a b = a + b

sums : (run 0 (some plus) calls (call_apply 10 (async_task hosts))).answers ≡ result 12 ∷ []
unfolding call_apply set_timeout cancel_timeout async_task done_one done_one_inner aggregate_results
    aggregate reduce_with
sums = refl

nat_set : IsSet ℕ
nat_set = hlevel ℕ_discrete

arrival_order_example :
    (run 0 (some plus) calls (call_apply 10 (async_task hosts))).answers
    ≡ (run 0 (some plus) others (call_apply 10 (async_task hosts))).answers
arrival_order_example =
    arrival_order nat_set plus (λ a b. omega arith) (λ a b c. omega arith) 0 10 hosts calls others
      (omega arith) refl
      (Perm.swap (raised connect_error, 0) (returned 5, 1) ((returned 7, 2) ∷ []))

abbrev saves : List (Call Bool)
saves = (returned true, 0) ∷ (raised connect_error, 1) ∷ (returned true, 2) ∷ []

all_and_lem_example :
    ((run false (some all_and) saves (call_apply 10 (async_task hosts))).answers ≡ result true ∷ [])
    ↔ ((values saves ≢ []) × All (λ b. b ≡ true) (values saves))
all_and_lem_example = all_and_lem 10 hosts saves (omega arith) refl

-- The second server has saved nothing.
saved_by_two :
    (run false (some all_and) saves (call_apply 10 (async_task hosts))).answers ≡ result true ∷ []
unfolding call_apply set_timeout cancel_timeout async_task done_one done_one_inner aggregate_results
    aggregate reduce_with
saved_by_two = refl

abbrev first_call : List (Call ℕ)
first_call = (returned 5, 1) ∷ []

abbrev late_calls : List (Call ℕ)
late_calls = (returned 7, 2) ∷ (returned 1, 0) ∷ []

abbrev only : ℕ → ℕ → Bool
only k i = elim (ℕ_discrete k i) [ yes e ↦ true | no n ↦ false ]

timeout_lem_example :
    let t = run 0 (some plus) first_call (call_apply 10 (async_task hosts)) in
    let u = run 0 (some plus) late_calls (on_timeout (only 1) t) in
    (u.answers ≡ timeout_error ∷ []) × (u.results ≡ 5 ∷ [])
timeout_lem_example =
    timeout_lem 0 (some plus) 10 hosts (only 1) first_call late_calls (omega arith)

cancels :
    (on_timeout
      (only 1)
      (run 0 (some plus) first_call (call_apply 10 (async_task hosts)))).cancelled_futures
    ≡ 0 ∷ 2 ∷ []
unfolding call_apply set_timeout cancel_timeout async_task done_one done_one_inner on_timeout
    unfinished ℕ_discrete
cancels = refl

answered_twice_example :
    (on_timeout (λ i. true) (run 0 (some plus) calls (call_apply 10 (async_task hosts)))).answers
    ≡ result (aggregate 0 (some plus) (values calls)) ∷ timeout_error ∷ []
answered_twice_example = answered_twice 0 (some plus) 10 hosts (λ i. true) calls (omega arith) refl
