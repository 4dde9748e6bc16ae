-- ===== src/RpcMclient/Reduce.antt =====
-- What `join_` and `wait` of rpc_mclient make of the answers.
use jubatus.Base.{
  ℕ, suc, ◌+◌, ◌≡◌, refl, ◌∙◌, sym, ap, subst, List, [], ◌∷◌, ◌++◌, foldl, Option, none, some,
  length, arith,
}
use mathlib.Core.List.{append_assoc, append-nil}
use jubatus.RpcMclient.{
  Host, RpcException, default_handler, Outcome, returned, raised, RpcError, RpcResult,
  RpcResultObject, Reply, reply, no_client, no_result, join, join_end, join_loop, join_one, reduced,
  wait, wait_end, wait_loop,
}

module _ {A : Type 0} where
  -- The values that were returned, in the order of the servers.
  abbrev pub values : List (Host × Outcome A) → List A
  values [] = []
  values ((host, returned a) ∷ calls) = a ∷ values calls
  values ((host, raised e) ∷ calls) = values calls

  -- The exceptions that were raised, with their servers, in the order of the servers.
  abbrev pub failures : List (Host × Outcome A) → List RpcError
  failures [] = []
  failures ((host, returned a) ∷ calls) = failures calls
  failures ((host, raised e) ∷ calls) =
      record { host = host; error = some (default_handler e) } ∷ failures calls

  module _ (reducer : A → A → A) where
    -- The values folded from the left, without one to start from.
    abbrev pub fold_values : Option A → List A → Option A
    fold_values start [] = start
    fold_values none (a ∷ later) = fold_values (some a) later
    fold_values (some b) (a ∷ later) = fold_values (some (reducer b a)) later

    join_loop_lem :
        (calls : List (Host × Outcome A)) (count : ℕ) (v : Option A) (es : List RpcError)
        → join_loop reducer calls count (record { value = v; error = es }) ≡ (
          count + length (values calls),
          record { value = fold_values v (values calls); error = es ++ failures calls },
        )
    unfolding join_loop join_one reduced
    join_loop_lem [] count v es =
        let same : count + 0 ≡ count = omega arith in rw (same, append-nil es) refl
    join_loop_lem ((host, returned a) ∷ calls) count none es =
        let same : count + suc (length (values calls)) ≡ suc count + length (values calls) =
          omega arith in
        join_loop_lem calls (suc count) (some a) es ∙ rw same refl
    join_loop_lem ((host, returned a) ∷ calls) count (some b) es =
        let same : count + suc (length (values calls)) ≡ suc count + length (values calls) =
          omega arith in
        join_loop_lem calls (suc count) (some (reducer b a)) es ∙ rw same refl
    join_loop_lem ((host, raised e) ∷ calls) count v es =
        let x : RpcError = record { host = host; error = some (default_handler e) } in
        join_loop_lem calls count v (es ++ (x ∷ []))
        ∙ rw (append_assoc es (x ∷ []) (failures calls)) refl

    -- What `join_` gives for the outcomes of the calls.
    abbrev pub Joined : List A → List RpcError → Reply (RpcResult A) → Type 0
    Joined [] es r = r ≡ no_result es
    Joined (a ∷ later) es r =
        r ≡ reply (record { value = some (foldl reducer a later); error = es })

    fold_values-foldl :
        (a : A) (later : List A) → fold_values (some a) later ≡ some (foldl reducer a later)
    fold_values-foldl a [] = refl
    fold_values-foldl a (b ∷ later) = fold_values-foldl (reducer a b) later

    join_end-Joined :
        (vs : List A) (es : List RpcError)
        → Joined vs es
            (join_end reducer (length vs, record { value = fold_values none vs; error = es }))
    unfolding join_end
    join_end-Joined [] es = refl
    join_end-Joined (a ∷ later) es = rw (fold_values-foldl a later) refl

    -- A call to at least one server gives the values that were returned, folded from the left by the reducer in the
    -- order of the servers, with the exceptions of the others beside it, each with its server and in the
    -- class that the handler maps it to; when none returned a value it throws `rpc_no_result`
    -- with all the exceptions. Without a server it throws `rpc_no_client`.
    pub join_lem :
        (join reducer [] ≡ no_client)
        × ((call : Host × Outcome A) (calls : List (Host × Outcome A))
            → Joined
                (values (call ∷ calls))
                (failures (call ∷ calls))
                (join reducer (call ∷ calls)))
    unfolding join
    join_lem = (
      refl,
      λ call calls.
          let loop = join_loop_lem (call ∷ calls) 0 none [] in
          let zero_first : 0 + length (values (call ∷ calls)) ≡ length (values (call ∷ calls)) =
            omega arith in
          let loop' =
            loop
            ∙ ap
                (λ n. (
                  n,
                  record {
                    value = fold_values none (values (call ∷ calls));
                    error = failures (call ∷ calls);
                  },
                ))
                zero_first in
          subst (λ x. Joined (values (call ∷ calls)) (failures (call ∷ calls)) (join_end reducer x))
            (sym loop') (join_end-Joined (values (call ∷ calls)) (failures (call ∷ calls))),
    )

  -- An entry for every server, in their order, with the exception that its call raised.
  abbrev pub entries : List (Host × Outcome A) → List RpcError
  entries [] = []
  entries ((host, returned a) ∷ calls) = record { host = host; error = none } ∷ entries calls
  entries ((host, raised e) ∷ calls) =
      record { host = host; error = some (default_handler e) } ∷ entries calls

  wait_loop_lem :
      (calls : List (Host × Outcome A)) (found : List A) (es : List RpcError)
      → wait_loop calls (record { response = found; error = es })
        ≡ record { response = found ++ values calls; error = es ++ entries calls }
  unfolding wait_loop
  wait_loop_lem [] found es = rw (append-nil found, append-nil es) refl
  wait_loop_lem ((host, returned a) ∷ calls) found es =
      let x : RpcError = record { host = host; error = none } in
      wait_loop_lem calls (found ++ (a ∷ [])) (es ++ (x ∷ []))
      ∙ rw (append_assoc found (a ∷ []) (values calls), append_assoc es (x ∷ []) (entries calls))
          refl
  wait_loop_lem ((host, raised e) ∷ calls) found es =
      let x : RpcError = record { host = host; error = some (default_handler e) } in
      wait_loop_lem calls found (es ++ (x ∷ []))
      ∙ rw (append_assoc es (x ∷ []) (entries calls)) refl

  abbrev pub Waited : List A → List RpcError → Reply (RpcResultObject A) → Type 0
  Waited [] es r = r ≡ no_result es
  Waited (a ∷ later) es r = r ≡ reply (record { response = a ∷ later; error = es })

  wait_end-Waited :
      (vs : List A) (es : List RpcError)
      → Waited vs es (wait_end (record { response = vs; error = es }) vs)
  unfolding wait_end
  wait_end-Waited [] es = refl
  wait_end-Waited (a ∷ later) es = refl

  waited :
      (call : Host × Outcome A) (calls : List (Host × Outcome A))
      → Waited (values (call ∷ calls)) (entries (call ∷ calls)) (wait (call ∷ calls))
  unfolding wait
  waited call calls =
      let loop = wait_loop_lem (call ∷ calls) [] [] in
      subst (λ r. Waited (values (call ∷ calls)) (entries (call ∷ calls)) (wait_end r r.response))
        (sym loop) (wait_end-Waited (values (call ∷ calls)) (entries (call ∷ calls)))

  -- `wait` of at least one call gives the values that were returned and, beside them, an entry for every
  -- server, or throws `rpc_no_result` with those entries when no call returned. So the two lists do not
  -- run in step: when the first call raises an exception and the second returns, the first response is the
  -- second server's and the first entry the first server's.
  pub wait_lem :
      ((call : Host × Outcome A) (calls : List (Host × Outcome A))
        → Waited (values (call ∷ calls)) (entries (call ∷ calls)) (wait (call ∷ calls)))
      × ((h h' : Host) (e : RpcException) (a : A) (calls : List (Host × Outcome A))
          → (later : List A) × (rest : List RpcError) × (wait
                ((h, raised e) ∷ (h', returned a) ∷ calls)
              ≡ reply (record {
                response = a ∷ later;
                error =
                    record { host = h; error = some (default_handler e) }
                    ∷ record { host = h'; error = none }
                    ∷ rest;
              })))
  wait_lem = (
    waited,
    λ h h' e a calls.
        (values calls, entries calls, waited (h, raised e) ((h', returned a) ∷ calls)),
  )
