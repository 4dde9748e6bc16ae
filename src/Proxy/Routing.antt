-- ===== src/Proxy/Routing.antt =====
-- Where a proxy sends a request.
use jubatus.Base.{
  ℕ, zero, suc, ◌+◌, ◌%◌, ◌^◌, ◌≡◌, ◌<◌, ◌⊎◌, inl, inr, refl, ap, subst, List, [], ◌∷◌, ◌++◌, map,
  none, some, length, get_elem?, get_elem?_lt, Mem, Option-cases, arith,
}
use jubatus.Base.Comp.{ok, throw, runtime_error, Result}
use jubatus.Base.Int.{ℤ, pos}
use jubatus.Base.Text.{Text, codes, Without}
use jubatus.Cht
use jubatus.LockService.{LockService, Tree}
use jubatus.Membership.{
  build_actor_path, build_active_path, revert, register_active, get_all_actives,
}
use jubatus.Membership.Names.{Decimal}
use jubatus.Membership.Registration.{get_all_actives-register_active}
use jubatus.RpcMclient.{Host}
use jubatus.Proxy.{
  Proxy, update_request_counter, update_forward_counter, some_members, element, lift, get_members,
  random_async_vproxy, broadcast_async_vproxy,
}
use mathlib.Core.Option
use mathlib.Core.List.{mem-cons_self, mem-cons_of_mem}

mem-get_elem? : {A : Type 0} (xs : List A) (i : ℕ) (a : A) → get_elem? xs i ≡ some a → Mem a xs
mem-get_elem? [] i a e = absurd (ground arith)
mem-get_elem? (x ∷ xs) zero a e =
    let same : x ≡ a = cc in subst (λ y. Mem y (x ∷ xs)) same mem-cons_self
mem-get_elem? (x ∷ xs) (suc i) a e = mem-cons_of_mem x (mem-get_elem? xs i a e)

module _ (show : ℤ → Text) (make_hash : Text → Text) {S : Type 0} (ls : LockService S)
    (type : Text) where
  abbrev actives : Text → Text
  actives name = build_actor_path type name ++ codes "/actives"

  -- After a handler: its state but for the part that the lock service has.
  abbrev pub counted : ℕ → Proxy S → S → Proxy S
  counted forwards p net = record {
    request_counter = (p.request_counter + 1) % 2 ^ 64;
    forward_counter = (p.forward_counter + forwards) % 2 ^ 64;
    net = net;
  }

  -- The listing holds no server, or could not be had.
  abbrev pub NoServer : Text → S → Type 0
  NoServer name s = ((ls.list (actives name) s).0 ≡ none) ⊎ ((ls.list (actives name) s).0 ≡ some [])

  -- A request whose cluster has no server: the counter of requests alone goes up.
  pub refused : Text → Proxy S → Result (List Host) × Proxy S
  refused name p = (
    throw runtime_error,
    record p {
      request_counter = (p.request_counter + 1) % 2 ^ 64;
      net = (ls.list (actives name) p.net).1;
    },
  )

  broadcast-refused :
      (name : Text) (p : Proxy S)
      → NoServer name p.net
      → broadcast_async_vproxy show make_hash ls type name p ≡ refused name p
  unfolding broadcast_async_vproxy get_members some_members update_request_counter refused
  broadcast-refused name p (inl e) = rw e refl
  broadcast-refused name p (inr e) = rw e refl

  random-refused :
      (rng : ℕ → ℕ) (name : Text) (p : Proxy S)
      → NoServer name p.net
      → random_async_vproxy show make_hash ls type rng name p ≡ refused name p
  unfolding random_async_vproxy get_members some_members update_request_counter refused
  random-refused rng name p (inl e) = rw e refl
  random-refused rng name p (inr e) = rw e refl

  broadcast-listed :
      (name n : Text) (ns : List Text) (p : Proxy S)
      → (ls.list (actives name) p.net).0 ≡ some (n ∷ ns)
      → broadcast_async_vproxy show make_hash ls type name p ≡ (
        ok (map revert (n ∷ ns)),
        counted (length (map revert (n ∷ ns))) p (ls.list (actives name) p.net).1,
      )
  unfolding broadcast_async_vproxy get_members some_members update_request_counter
      update_forward_counter
  broadcast-listed name n ns p e = rw e refl

  random-listed :
      (rng : ℕ → ℕ) (name n : Text) (ns : List Text) (c : Host) (p : Proxy S)
      → (ls.list (actives name) p.net).0 ≡ some (n ∷ ns)
      → get_elem? (map revert (n ∷ ns)) (rng (length (map revert (n ∷ ns)))) ≡ some c
      → random_async_vproxy show make_hash ls type rng name p
        ≡ (ok (c ∷ []), counted 1 p (ls.list (actives name) p.net).1)
  unfolding random_async_vproxy get_members some_members update_request_counter
      update_forward_counter element lift
  random-listed rng name n ns c p e g = rw (e, g) refl

  -- `random_async_vproxy` forwards to exactly one of the servers that the lock service lists as active,
  -- when it lists any and the random numbers are below their bound, and counts one request and
  -- one forwarded call. When the listing is empty or fails it throws, with the request counted and
  -- nothing forwarded. The counters are taken modulo 2 ^ 64.
  pub random_async_vproxy_lem :
      (rng : ℕ → ℕ) (name : Text) (p : Proxy S)
      → ((k : ℕ) → 0 < k → rng k < k)
      → ((n : Text) (ns : List Text)
          → (ls.list (actives name) p.net).0 ≡ some (n ∷ ns)
          → (c : Host) × (random_async_vproxy show make_hash ls type rng name p
              ≡ (ok (c ∷ []), counted 1 p (ls.list (actives name) p.net).1))
            × Mem c (map revert (n ∷ ns)))
        × (NoServer name p.net
            → random_async_vproxy show make_hash ls type rng name p ≡ refused name p)
  random_async_vproxy_lem rng name p below = (
    λ n ns e.
        let hosts = map revert (n ∷ ns) in
        let g = get_elem?_lt hosts (rng (length hosts)) (below (length hosts) (omega arith)) in
        (
          g.0,
          random-listed rng name n ns g.0 p e g.1,
          mem-get_elem? hosts (rng (length hosts)) g.0 g.1,
        ),
    random-refused rng name p,
  )

  from_names :
      (name : Text) (p : Proxy S) (hosts : List Host) (names : List Text)
      → (ls.list (actives name) p.net).0 ≡ some names
      → (broadcast_async_vproxy show make_hash ls type name p).0 ≡ ok hosts
      → Option.map (map revert) (ls.list (actives name) p.net).0 ≡ some hosts
  unfolding refused
  from_names name p hosts [] e b =
      absurd (let r = ap (λ x. x.0) (broadcast-refused name p (inr e)) in ground arith)
  from_names name p hosts (n ∷ ns) e b =
      let r = ap (λ x. x.0) (broadcast-listed name n ns p e) in rw e (ground arith)

  broadcast-actives :
      (name : Text) (p : Proxy S) (hosts : List Host)
      → (broadcast_async_vproxy show make_hash ls type name p).0 ≡ ok hosts
      → (get_all_actives ls type name p.net).0 ≡ some hosts
  unfolding get_all_actives build_active_path build_actor_path refused
  broadcast-actives name p hosts b =
      let listed = (ls.list (actives name) p.net).0 in
      elim (Option-cases listed) [
        | inl e ↦
            absurd (let r = broadcast-refused name p (inl e) in ground (arith, ap (λ x. x.0) r))
        | inr (names, e) ↦ from_names name p hosts names e b
      ]

  -- A server whose registration as active has returned gets every broadcast that the proxy then
  -- forwards. Its host name has no underscore and no slash, and ports are printed in
  -- decimal.
  pub broadcast-register_active :
      (tree : Tree ls) (name ip : Text) (port : ℕ) (s : S) (p : Proxy S) (hosts : List Host)
      → Decimal show
      → Without b'_' ip
      → Without b'/' ip
      → (register_active show ls type name ip (pos port) s).0 ≡ ok tt
      → p.net ≡ (register_active show ls type name ip (pos port) s).1
      → (broadcast_async_vproxy show make_hash ls type name p).0 ≡ ok hosts
      → Mem (ip, pos port) hosts
  broadcast-register_active tree name ip port s p hosts d hu hs r net b =
      get_all_actives-register_active show ls tree type name ip port s hosts d hu hs r
        (rw (← net) (broadcast-actives name p hosts b))
