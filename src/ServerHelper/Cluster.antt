-- ===== src/ServerHelper/Cluster.antt =====
-- What a server that has joined its cluster is found by.
use jubatus.Base.{ℕ, ◌≡◌, ◌<◌, Bool, true, false, List, some, Mem, inl, inr, if◌then◌else◌, arith}
use jubatus.Argv.{ServerArgv, is_standalone}
use jubatus.Base.Comp.{ok, Comp, ◌>>◌, pure, Result-cases}
use jubatus.Base.Int.{ℤ, pos}
use jubatus.Base.Text.{Text, Without}
use jubatus.Cht
use jubatus.Cht.Registration.{register_node-exists, virtual}
use jubatus.LockService.{LockService, Tree}
use jubatus.Membership.{register_actor, watch_delete_actor, get_all_nodes}
use jubatus.Membership.Names.{Decimal}
use jubatus.Membership.Registration.{
  register_actor-exists, register_actor-keeps, node, watch_delete_actor-keeps, get_all_nodes-listed,
}
use jubatus.ServerHelper.{
  Helper, Classes, ServerClass, Running, on_net, join_cluster, prepare_for_run,
}

-- The state after the first of two steps that both return.
>>-ok :
    {S A B : Type 0} (m : Comp S A) (k : Comp S B) (b : B) (s : S)
    → ((m >> k) s).0 ≡ ok b
    → (a : A) × ((m s).0 ≡ ok a) × ((m >> k) s ≡ k (m s).1)
>>-ok m k b s e = elim (Result-cases (m s).0) [
  | inl (a, q) ↦ (a, q, ground (arith, q))
  | inr (x, q) ↦ absurd (ground (arith, q))
]

module _ (show : ℤ → Text) (make_hash : Text → Text) (starts_with : Text → Text → Bool)
    (junk : Text) {S Server : Type 0} (ls : LockService S) (force_close : S → S) (classes : Classes)
    (class : ServerClass Server) (run : Running S) (a : ServerArgv) (tree : Tree ls) where
  open tree use {exists, create_keeps}

  module _ (port : ℕ) (at : a.port ≡ pos port)
      (keep : (p q : Text) (n : ℕ) (st : S)
        → exists st q ≡ true
        → exists (ls.bind_delete_watcher p n st).1 q ≡ true) where
    abbrev mine : Text
    mine = node show ls tree a.type a.name a.eth port

    abbrev entry : ℕ → Text
    entry j = virtual show make_hash ls tree a.type a.name a.eth (pos port) j

    abbrev enter : Bool → Comp S (Unit {0})
    enter use_cht =
        if use_cht
        then Cht.register_node show make_hash ls a.type a.name a.eth (pos port)
        else pure tt

    abbrev member : Comp S (Unit {0})
    member = register_actor show ls a.type a.name a.eth (pos port)

    abbrev watched : Comp S (Unit {0})
    watched = watch_delete_actor show ls a.type a.name a.eth (pos port) 0

    member-watched :
        (s : S)
        → ((member >> watched) s).0 ≡ ok tt
        → (exists ((member >> watched) s).1 mine ≡ true)
          × ((q : Text) → exists s q ≡ true → exists ((member >> watched) s).1 q ≡ true)
    member-watched s e =
        let (u, done, same) = >>-ok member watched tt s e in
        let later =
          watch_delete_actor-keeps show ls tree a.type a.name a.eth port (member s).1 keep 0 in
        rw same (
          later mine (register_actor-exists show ls tree a.type a.name a.eth port s done),
          λ q h. later q (register_actor-keeps show ls tree a.type a.name a.eth port s q h),
        )

    entered :
        (use_cht : Bool) (s : S)
        → (enter use_cht s).0 ≡ ok tt
        → use_cht ≡ true
        → (j : ℕ) → j < Cht.num_vserv
        → exists (enter use_cht s).1 (entry j) ≡ true
    entered true s e c =
        (register_node-exists show make_hash ls tree a.type a.name a.eth (pos port) s).0 e
    entered false s e c = absurd cc

    abbrev set_up : Bool → Comp S (Unit {0})
    set_up use_cht = if use_cht then Cht.setup_cht_dir show make_hash ls a.type a.name else pure tt

    abbrev joined : Bool → Comp S (Unit {0})
    joined use_cht = set_up use_cht >> (enter use_cht >> (member >> watched))

    joined-exists :
        (use_cht : Bool) (s : S)
        → (joined use_cht s).0 ≡ ok tt
        → (exists (joined use_cht s).1 mine ≡ true)
          × (use_cht ≡ true
              → (j : ℕ) → j < Cht.num_vserv
              → exists (joined use_cht s).1 (entry j) ≡ true)
    joined-exists use_cht s e =
        let (u, set, run1) = >>-ok (set_up use_cht) (enter use_cht >> (member >> watched)) tt s e in
        let s1 = (set_up use_cht s).1 in
        let e1 : ((enter use_cht >> (member >> watched)) s1).0 ≡ ok tt = rw run1 at e in
        let (v, done, run2) = >>-ok (enter use_cht) (member >> watched) tt s1 e1 in
        let s2 = (enter use_cht s1).1 in
        let e2 : ((member >> watched) s2).0 ≡ ok tt = rw run2 at e1 in
        let (here, later) = member-watched s2 e2 in
        rw (run1, run2) (here, λ c j lt. later (entry j) (entered use_cht s1 done c j lt))

    -- When `prepare_for_run` returns for a server of a cluster, the server's node is there, so that every listing of the
    -- servers that succeeds on this state holds its address; and if the server uses the hash
    -- table, the entries of its virtual servers are there. It relies on watching a node removing none, on
    -- ports printed in decimal, and on a host name without underscore or slash.
    pub prepare_for_run_lem :
        (use_cht : Bool) (h : Helper S Server)
        → is_standalone a ≡ false
        → Decimal show
        → Without b'_' a.eth
        → Without b'/' a.eth
        → let r =
            prepare_for_run show make_hash starts_with junk ls force_close classes class run a
              use_cht h in
          r.0 ≡ ok tt
          → ((ret : List (Text × ℤ))
              → (get_all_nodes ls a.type a.name r.1.net).0 ≡ some ret
              → Mem (a.eth, pos port) ret)
            × (use_cht ≡ true → (j : ℕ) → j < Cht.num_vserv → exists r.1.net (entry j) ≡ true)
    unfolding prepare_for_run join_cluster on_net
    prepare_for_run_lem use_cht h c d hu hs =
        rw (c, at)
          (λ e.
            let (here, entries) = joined-exists use_cht h.net e in
            (
              λ ret l.
                  get_all_nodes-listed show ls tree a.type a.name a.eth port
                    (joined use_cht h.net).1 ret d hu hs here l,
              entries,
            ))
