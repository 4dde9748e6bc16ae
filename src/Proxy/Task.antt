-- ===== src/Proxy/Task.antt =====
-- async_task of jubatus/server/framework/proxy.hpp: one request that waits for the answers of several servers. Its
-- methods hold the task's lock, so each is one step. Sessions, futures and timers are msgpack-rpc's;
-- which futures are finished when the timeout strikes is a parameter.
pub mod Answers
pub mod Order
pub mod Race
mod Tests
use jubatus.Base.{
  ℕ, zero, suc, ◌+◌, ◌-◌, ◌≡◌, Bool, true, false, not, ◌&&◌, List, [], ◌∷◌, ◌++◌, foldl, Option,
  none, some, length, ltb, leb, if◌then◌else◌,
}
use jubatus.Base.Int.{pos}
use jubatus.RpcMclient.{Host, Outcome, returned, raised, RpcError, default_handler}

-- What is sent back for the request.
pub data Answer (R : Type 0) : Type 0 where
  result : R → Answer R
  timeout_error : Answer R

-- `answers` holds what has been sent, `cancelled_futures` and `removed_sessions` the indices of the futures that were
-- cancelled and of the sessions taken from the pool. `running_count` is an int, of
-- which the code asks only whether it is positive.
pub record Task (R : Type 0) : Type 0 where
  pub hosts : List Host
  pub running_count : ℕ
  pub cancelled : Bool
  pub has_timer : Bool
  pub results : List R
  pub errors : List RpcError
  pub answers : List (Answer R)
  pub cancelled_futures : List ℕ
  pub removed_sessions : List ℕ

-- The index that a callback is bound to is below the number of hosts.
pub host_at : List Host → ℕ → Host
host_at [] i = ([], pos 0)
host_at (h ∷ hs) zero = h
host_at (h ∷ hs) (suc i) = host_at hs i

-- The constructor.
pub async_task : {R : Type 0} → List Host → Task R
async_task hosts = record {
  hosts = hosts;
  running_count = 0;
  cancelled = false;
  has_timer = false;
  results = [];
  errors = [];
  answers = [];
  cancelled_futures = [];
  removed_sessions = [];
}

pub cancel_timeout : {R : Type 0} → Task R → Task R
cancel_timeout t = record t { has_timer = false }

pub set_timeout : {R : Type 0} → ℕ → Task R → Task R
unfolding cancel_timeout
set_timeout timeout_sec t =
    let u = cancel_timeout t in if ltb 0 timeout_sec then record u { has_timer = true } else u

-- The calls are sent to the hosts in their order; each future gets `done_one` with its index.
pub call_apply : {R : Type 0} → ℕ → Task R → Task R
unfolding set_timeout
call_apply timeout_sec t =
    let u = record t { running_count = length t.hosts } in
    if ltb 0 timeout_sec then set_timeout timeout_sec u else u

module _ {R : Type 0} (default : R) (reducer : Option (R → R → R)) where
  reduce_with : Option (R → R → R) → R → List R → R
  reduce_with none r rs = r
  reduce_with (some f) r rs = foldl f r rs

  unfoldable pub aggregate : List R → R
  unfolding reduce_with
  aggregate [] = default
  aggregate (r ∷ rs) = reduce_with reducer r rs

  pub aggregate_results : Task R → R
  unfolding aggregate
  aggregate_results t = aggregate t.results

  done_one_inner : Outcome R → ℕ → Task R → Task R
  unfolding host_at
  done_one_inner (returned r) i t = record t { results = t.results ++ (r ∷ []) }
  done_one_inner (raised e) i t = record t {
    errors =
        t.errors ++ (record { host = host_at t.hosts i; error = some (default_handler e) } ∷ []);
  }

  pub done_one : Outcome R → ℕ → Task R → Task R
  unfolding done_one_inner cancel_timeout aggregate_results
  done_one o i t =
      let u = if t.cancelled then t else done_one_inner o i t in
      let v = record u { running_count = u.running_count - 1 } in
      if not v.cancelled && leb v.running_count 0
      then record (cancel_timeout v) { answers = v.answers ++ (result (aggregate_results v) ∷ []) }
      else v

-- The indices `i`, … below the number of hosts whose futures are not finished.
unfinished : {A : Type 0} → (ℕ → Bool) → List A → ℕ → List ℕ
unfinished is_finished [] i = []
unfinished is_finished (h ∷ hs) i =
    let rest = unfinished is_finished hs (suc i) in if is_finished i then rest else i ∷ rest

pub on_timeout : {R : Type 0} → (ℕ → Bool) → Task R → Task R
unfolding unfinished
on_timeout is_finished t = if t.cancelled then t else record t {
  cancelled = true;
  cancelled_futures = t.cancelled_futures ++ unfinished is_finished t.hosts 0;
  removed_sessions = t.removed_sessions ++ unfinished is_finished t.hosts 0;
  answers = t.answers ++ (timeout_error ∷ []);
}
