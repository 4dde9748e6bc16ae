-- ===== src/Proxy.antt =====
-- jubatus/server/framework/proxy_common.cpp and the routing of jubatus/server/framework/proxy.hpp: a proxy forwards
-- a request to one active server, to all of them, or to those that the hash table assigns to its key.
-- What a handler gives `async_task_loop::call_apply` is its result: the hosts to ask.
pub mod Task
pub mod Routing
mod Tests
use jubatus.Base.{
  ℕ, ◌+◌, ◌%◌, ◌^◌, ◌≡◌, List, [], ◌∷◌, ◌++◌, map, Option, none, some, length, get_elem?,
}
use jubatus.Base.Comp.{
  Error, runtime_error, out_of_range, Result, ok, throw, Comp, bind_result, ◌>>=◌, ◌>>◌, pure,
}
use jubatus.Base.Int.{ℤ}
use jubatus.Base.Text.{Text, codes}
use jubatus.Cht
use jubatus.LockService.{LockService}
use jubatus.Membership.{build_actor_path, revert}
use jubatus.RpcMclient.{Host}

pub record Proxy (S : Type 0) : Type 0 where
  pub request_counter : ℕ
  pub forward_counter : ℕ
  pub net : S

-- The counters are uint64_t.
pub update_request_counter : {S : Type 0} → Comp (Proxy S) (Unit {0})
update_request_counter p = (ok tt, record p { request_counter = (p.request_counter + 1) % 2 ^ 64 })

pub update_forward_counter : {S : Type 0} → ℕ → Comp (Proxy S) (Unit {0})
update_forward_counter count p =
    (ok tt, record p { forward_counter = (p.forward_counter + count) % 2 ^ 64 })

-- The listing, or no hosts: the return value of `list` is not looked at. `no_worker` is a runtime error.
some_members : Option (List Text) → Result (List Host)
some_members none = throw runtime_error
some_members (some []) = throw runtime_error
some_members (some (n ∷ ns)) = ok (map revert (n ∷ ns))

some_hosts : List Host → Result (List Host)
some_hosts [] = throw runtime_error
some_hosts (h ∷ hs) = ok (h ∷ hs)

-- `list[i]`
element : Option Host → Result Host
element none = throw out_of_range
element (some h) = ok h

lift : {S A : Type 0} → Result A → Comp (Proxy S) A
lift r p = (r, p)

module _ (show : ℤ → Text) (make_hash : Text → Text) {S : Type 0} (ls : LockService S)
    (type : Text) where
  pub get_members : Text → Comp (Proxy S) (List Host)
  unfolding some_members
  get_members name p =
      let r = ls.list (build_actor_path type name ++ codes "/actives") p.net in
      (some_members r.0, record p { net = r.1 })

  pub get_members_from_cht : Text → Text → ℕ → Comp (Proxy S) (List Host)
  unfolding some_hosts
  get_members_from_cht name id n p =
      let r = Cht.find show make_hash ls type name id n p.net in
      bind_result (r.0, record p { net = r.1 }) (λ hosts. lift (some_hosts hosts))

  -- `rng` is the random generator's operator(): a number below its argument.
  pub random_async_vproxy : (ℕ → ℕ) → Text → Comp (Proxy S) (List Host)
  unfolding get_members update_request_counter update_forward_counter lift element
  random_async_vproxy rng name = do
    update_request_counter
    list ← get_members name
    c ← lift (element (get_elem? list (rng (length list))))
    update_forward_counter 1
    pure (c ∷ [])

  pub broadcast_async_vproxy : Text → Comp (Proxy S) (List Host)
  unfolding get_members update_request_counter update_forward_counter
  broadcast_async_vproxy name = do
    update_request_counter
    list ← get_members name
    update_forward_counter (length list)
    pure list

  pub cht_async_vproxy : ℕ → Text → Text → Comp (Proxy S) (List Host)
  unfolding get_members_from_cht update_request_counter update_forward_counter
  cht_async_vproxy n name id = do
    update_request_counter
    list ← get_members_from_cht name id n
    update_forward_counter (length list)
    pure list
