-- ===== src/RpcMclient/Tests.antt =====
-- Calls to three servers, one of which times out.
use jubatus.Base.{ℕ, ◌+◌, ◌≡◌, refl, List, [], ◌∷◌, some}
use jubatus.Base.Int.{ℤ, pos}
use jubatus.Base.Text.{codes}
use jubatus.RpcMclient.{
  Host, timeout_error, default_handler, Outcome, returned, raised, reply, no_client, no_result,
  join, join_end, join_loop, join_one, reduced, rpc_timeout_error, wait, wait_end, wait_loop,
}
use jubatus.RpcMclient.Reduce.{join_lem, Joined, values, failures}

abbrev server : ℤ → Host
server port = (codes "h", port)

abbrev calls : List (Host × Outcome ℕ)
calls =
    (server (pos 1), returned 10)
    ∷ (server (pos 2), raised timeout_error)
    ∷ (server (pos 3), returned 4)
    ∷ []

reduces :
    join (λ a b. a + b) calls
    ≡ reply (record {
      value = some 14;
      error = record { host = server (pos 2); error = some rpc_timeout_error } ∷ [];
    })
unfolding join join_loop join_end join_one reduced default_handler
reduces = refl

none_back :
    wait {A = ℕ} ((server (pos 1), raised timeout_error) ∷ [])
    ≡ no_result (record { host = server (pos 1); error = some rpc_timeout_error } ∷ [])
unfolding wait wait_loop wait_end default_handler
none_back = refl

join_lem_example :
    (join (λ a b. a + b) [] ≡ no_client)
    × ((call : Host × Outcome ℕ) (others : List (Host × Outcome ℕ))
        → Joined
            (λ a b. a + b)
            (values (call ∷ others))
            (failures (call ∷ others))
            (join (λ a b. a + b) (call ∷ others)))
join_lem_example = join_lem (λ a b. a + b)
