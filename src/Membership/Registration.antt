-- ===== src/Membership/Registration.antt =====
-- What the lock service holds after a registration, on success and on failure, and what the
-- listing of the members then returns.
use jubatus.Base.{
  ℕ, ◌≡◌, refl, subst, ◌≢◌, ◌⊎◌, inl, inr, true, false, List, ◌∷◌, ◌++◌, map, some, Mem, arith,
  Option-cases,
}
use jubatus.Base.Comp.{Result, ok, throw, runtime_error}
use jubatus.Base.Int.{ℤ, pos}
use jubatus.Base.Text.{Text, codes, Without, Without-append, AllDigits-Without}
use jubatus.Membership.Names.{Decimal, revert_member}
use jubatus.LockService.{LockService, Tree, Cleanup, force_exit, shutdown_server}
use jubatus.Membership.{
  build_actor_path, build_existence_path, revert, register, register_actor, register_active,
  unregister_active, get_all_actives, get_all_nodes, build_active_path, watch_delete_actor,
}
use mathlib.Core.Option
use mathlib.Core.List.{mem-map_of_mem}

module _ (show : ℤ → Text) {S : Type 0} (ls : LockService S) (tree : Tree ls) where
  open tree use {
    exists, cleanups, create_true, create_keeps, create_cleanups, remove_true, remove_keeps,
    list_children, push_exists, push_cleanups,
  }

  module _ (list_dir : Text) (cleanup : Cleanup) (type name ip : Text) (port : ℤ) (s : S) where
    abbrev done : Result (Unit {0}) × S
    done = register show ls list_dir cleanup type name ip port s

    pub register-exists :
        done.0 ≡ ok tt
        → exists done.1 (build_existence_path show (build_actor_path type name ++ list_dir) ip port)
          ≡ true
    unfolding register
    register-exists h = grind (arith, create_true, push_exists)

    pub register-keeps : (q : Text) → exists s q ≡ true → exists done.1 q ≡ true
    unfolding register
    register-keeps q h = grind (arith, create_keeps, push_exists)

    -- A registration on either list either returns and has added its cleanup function once, or throws
    -- a runtime error and has added none.
    pub register_cleanups :
        ((done.0 ≡ ok tt) × (cleanups done.1 ≡ cleanup ∷ cleanups s))
        ⊎ ((done.0 ≡ throw runtime_error) × (cleanups done.1 ≡ cleanups s))
    unfolding register
    register_cleanups = grind (arith, create_cleanups, push_cleanups)

  module _ (dir ip : Text) (port : ℕ) where
    -- A server whose node is in a directory is in the listing of it.
    listed :
        (ret : List (Text × ℤ)) (st : S)
        → Decimal show
        → Without b'_' ip
        → Without b'/' ip
        → exists st (build_existence_path show dir ip (pos port)) ≡ true
        → Option.map (map revert) (ls.list dir st).0 ≡ some ret
        → Mem (ip, pos port) ret
    unfolding build_existence_path
    listed ret st d hu hs e h = elim (Option-cases (ls.list dir st).0) [
      | inl none_listed ↦ absurd (ground arith)
      | inr (names, found) ↦
          let m =
            list_children dir (ip ++ (b'_' ∷ show (pos port))) st names found
              (Without-append _ ip _ hs (refl, AllDigits-Without _ _ refl (d.digits port))) e in
          let e' : map revert names ≡ ret = ground arith in
          subst (λ a. Mem a ret) (revert_member show d ip port hu)
            (subst (Mem (revert (ip ++ (b'_' ∷ show (pos port))))) e' (mem-map_of_mem revert m))
    ]

  abbrev pub node : Text → Text → Text → ℕ → Text
  node type name ip port =
      build_existence_path show (build_actor_path type name ++ codes "/nodes") ip (pos port)

  abbrev pub actives : Text → Text → Text
  actives type name = build_actor_path type name ++ codes "/actives"

  module _ (type name ip : Text) (port : ℕ) (s : S) where
    abbrev pub member : Text
    member = build_existence_path show (actives type name) ip (pos port)

    -- A server whose registration as active has returned is in the listing of the active servers
    -- that follows, if that succeeds. Its host name has no underscore and no slash, and ports are
    -- printed in decimal.
    pub get_all_actives-register_active :
        (ret : List (Text × ℤ))
        → Decimal show
        → Without b'_' ip
        → Without b'/' ip
        → (register_active show ls type name ip (pos port) s).0 ≡ ok tt
        → (get_all_actives ls type name (register_active show ls type name ip (pos port) s).1).0
          ≡ some ret
        → Mem (ip, pos port) ret
    unfolding register_active get_all_actives build_active_path build_actor_path
    get_all_actives-register_active ret d hu hs r h =
        listed (actives type name) ip port ret _ d hu hs
          (register-exists (codes "/actives") force_exit type name ip (pos port) s r) h

    -- Nodes that were there stay when the server's own node is watched, if watching removes none.
    pub watch_delete_actor-keeps :
        ((p q : Text) (n : ℕ) (st : S)
          → exists st q ≡ true
          → exists (ls.bind_delete_watcher p n st).1 q ≡ true)
        → (callback : ℕ) (q : Text) → exists s q ≡ true
        → exists (watch_delete_actor show ls type name ip (pos port) callback s).1 q ≡ true
    unfolding watch_delete_actor
    watch_delete_actor-keeps keep callback q h = grind (arith, create_keeps, push_exists, keep)

    pub register_actor-exists :
        (register_actor show ls type name ip (pos port) s).0 ≡ ok tt
        → exists (register_actor show ls type name ip (pos port) s).1 (node type name ip port)
          ≡ true
    unfolding register_actor
    register_actor-exists =
        register-exists (codes "/nodes") shutdown_server type name ip (pos port) s

    pub register_actor-keeps :
        (q : Text)
        → exists s q ≡ true
        → exists (register_actor show ls type name ip (pos port) s).1 q ≡ true
    unfolding register_actor
    register_actor-keeps = register-keeps (codes "/nodes") shutdown_server type name ip (pos port) s

    -- A server whose node is there is among the servers that are listed.
    pub get_all_nodes-listed :
        (ret : List (Text × ℤ))
        → Decimal show
        → Without b'_' ip
        → Without b'/' ip
        → exists s (node type name ip port) ≡ true
        → (get_all_nodes ls type name s).0 ≡ some ret
        → Mem (ip, pos port) ret
    unfolding get_all_nodes
    get_all_nodes-listed ret d hu hs e h =
        listed (build_actor_path type name ++ codes "/nodes") ip port ret s d hu hs e h

    unregister_active_keeps :
        (q : Text)
        → q ≢ member
        → exists (unregister_active show ls type name ip (pos port) s).1 q ≡ exists s q
    unfolding unregister_active
    unregister_active_keeps q h = ground (arith, remove_keeps member q s)

    -- `unregister_active` throws exactly when the lock service does not remove the node; otherwise
    -- the server's own node is gone. Either way the node of every other path is as it was.
    pub unregister_active_lem :
        let r = unregister_active show ls type name ip (pos port) s in
        ((((ls.remove member s).0 ≡ true) × (r.0 ≡ ok tt) × (exists r.1 member ≡ false))
          ⊎ (((ls.remove member s).0 ≡ false) × (r.0 ≡ throw runtime_error)))
        × ((q : Text) → q ≢ member → exists r.1 q ≡ exists s q)
    unfolding unregister_active
    unregister_active_lem = (ground (arith, remove_true member s), unregister_active_keeps)
