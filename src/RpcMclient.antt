-- ===== src/RpcMclient.antt =====
-- jubatus/server/common/mprpc/rpc_mclient.hpp, rpc_mclient.cpp and rpc_result.hpp: one call to many servers, whose
-- answers are reduced or collected. What each future of msgpack-rpc yields, a value or an
-- exception, is a parameter.
pub mod Reduce
mod Tests
use jubatus.Base.{ℕ, zero, suc, ◌≡◌, Bool, true, false, List, [], ◌∷◌, ◌++◌, Option, none, some}
use jubatus.Base.Int.{ℤ}
use jubatus.Base.Text.{Text}

abbrev pub Host : Type 0
Host = Text × ℤ

-- The exceptions of msgpack-rpc; `type_error` is msgpack's own, for a broken message.
pub data RpcException : Type 0 where
  no_method_error argument_error remote_error connect_error timeout_error type_error
        other_exception :
      RpcException

-- The classes of the exceptions that are stored.
pub data StoredError : Type 0 where
  rpc_method_not_found rpc_type_error rpc_call_error rpc_io_error rpc_timeout_error rpc_no_result
        unmapped :
      StoredError

-- JUBATUS_MSGPACKRPC_EXCEPTION_DEFAULT_HANDLER.
pub default_handler : RpcException → StoredError
default_handler no_method_error = rpc_method_not_found
default_handler argument_error = rpc_type_error
default_handler remote_error = rpc_call_error
default_handler connect_error = rpc_io_error
default_handler timeout_error = rpc_timeout_error
default_handler type_error = rpc_no_result
default_handler other_exception = unmapped

pub data Outcome (A : Type 0) : Type 0 where
  returned : A → Outcome A
  raised : RpcException → Outcome A

-- `rpc_error`, without an exception when the call has returned.
pub record RpcError : Type 0 where
  pub host : Host
  pub error : Option StoredError

pub record RpcResult (A : Type 0) : Type 0 where
  pub value : Option A
  pub error : List RpcError

pub record RpcResultObject (A : Type 0) : Type 0 where
  pub response : List A
  pub error : List RpcError

-- What a call gives: a result, or the exceptions `rpc_no_client` and `rpc_no_result`, which carries the errors.
pub data Reply (R : Type 0) : Type 0 where
  reply : R → Reply R
  no_client : Reply R
  no_result : List RpcError → Reply R

module _ {A : Type 0} (reducer : A → A → A) where
  reduced : Option A → A → A
  reduced none a = a
  reduced (some b) a = reducer b a

  join_one : Host → Outcome A → RpcResult A → RpcResult A
  unfolding reduced
  join_one host (returned a) r = record r { value = some (reduced r.value a) }
  join_one host (raised e) r = record r {
    error = r.error ++ (record { host = host; error = some (default_handler e) } ∷ []);
  }

  -- The loop of `join_` over the futures with their hosts, with the count of results.
  join_loop : List (Host × Outcome A) → ℕ → RpcResult A → ℕ × RpcResult A
  unfolding join_one
  join_loop [] count r = (count, r)
  join_loop ((host, returned a) ∷ calls) count r =
      join_loop calls (suc count) (join_one host (returned a) r)
  join_loop ((host, raised e) ∷ calls) count r = join_loop calls count (join_one host (raised e) r)

  join_end : ℕ × RpcResult A → Reply (RpcResult A)
  join_end (zero, r) = no_result r.error
  join_end (suc n, r) = reply r

  pub join : List (Host × Outcome A) → Reply (RpcResult A)
  unfolding join_loop join_end
  join [] = no_client
  join (call ∷ calls) = join_end (join_loop (call ∷ calls) 0 (record { value = none; error = [] }))

module _ {A : Type 0} where
  -- The loop of `wait`: a call that returns adds to both lists, one that raises to the errors only.
  wait_loop : List (Host × Outcome A) → RpcResultObject A → RpcResultObject A
  wait_loop [] r = r
  wait_loop ((host, returned a) ∷ calls) r = wait_loop calls (record r {
    response = r.response ++ (a ∷ []);
    error = r.error ++ (record { host = host; error = none } ∷ []);
  })
  wait_loop ((host, raised e) ∷ calls) r = wait_loop calls (record r {
    error = r.error ++ (record { host = host; error = some (default_handler e) } ∷ []);
  })

  wait_end : RpcResultObject A → List A → Reply (RpcResultObject A)
  wait_end r [] = no_result r.error
  wait_end r (a ∷ responses) = reply r

  pub wait : List (Host × Outcome A) → Reply (RpcResultObject A)
  unfolding wait_loop wait_end
  wait [] = no_client
  wait (call ∷ calls) =
      let r = wait_loop (call ∷ calls) (record { response = []; error = [] }) in
      wait_end r r.response
