-- ===== src/Burst/Watch.antt =====
-- The watcher of the cluster's servers.
use jubatus.Base.{
  ◌≡◌, ◌⊎◌, inl, inr, refl, ap, ◌∙◌, Bool, true, false, ◌++◌, List, [], ◌∷◌, none, some,
}
use jubatus.Argv.{ServerArgv, is_standalone}
use jubatus.Base.Comp.{Result, ok, throw, not_found, bind_result}
use jubatus.Base.Int.{ℤ}
use jubatus.Base.Text.{Text, codes}
use jubatus.Cht
use jubatus.Cht.Ring.{AllRead}
use jubatus.LockService.{LockService, Reads}
use jubatus.Membership.{build_actor_path}
use jubatus.Burst.{
  Keyword, BurstDriver, BurstServ, remote, is_assigned, will_process, processed, rehash_keywords,
  bind_watcher, watcher_impl, replication_level,
}
use jubatus.Burst.Keywords.{mine, rehash_keywords_lem}

module _ {S Model Doc Window Param : Type 0} (show : ℤ → Text) (make_hash : Text → Text)
    (ls : LockService S) (bind_child_watcher : Text → S → Bool × S)
    (driver : BurstDriver Model Doc Window Param) (argv : ServerArgv) (rd : Reads ls)
    (g : BurstServ S Model) (far : is_standalone argv ≡ false) where
  find-none :
      (k : Text)
      → ((ls.list (Cht.cht_path argv.type argv.name) g.net).0 ≡ none)
        ⊎ ((ls.list (Cht.cht_path argv.type argv.name) g.net).0 ≡ some [])
      → Cht.find show make_hash ls argv.type argv.name k replication_level g.net
        ≡ (throw not_found, g.net)
  unfolding Cht.find
  find-none k (inl e) = rw (e, rd.list_keeps (Cht.cht_path argv.type argv.name) g.net) refl
  find-none k (inr e) = rw (e, rd.list_keeps (Cht.cht_path argv.type argv.name) g.net) refl

  processed-none :
      (k : Keyword Param) (ks : List (Keyword Param))
      → Cht.find show make_hash ls argv.type argv.name k.keyword replication_level g.net
        ≡ (throw not_found, g.net)
      → processed show make_hash ls bind_child_watcher driver argv (k ∷ ks) g ≡ (throw not_found, g)
  unfolding processed will_process is_assigned remote
  processed-none k ks e = simp (far, e)

  rehash-none :
      (k : Keyword Param) (ks : List (Keyword Param))
      → driver.get_all_keywords g.burst ≡ k ∷ ks
      → ((ls.list (Cht.cht_path argv.type argv.name) g.net).0 ≡ none)
        ⊎ ((ls.list (Cht.cht_path argv.type argv.name) g.net).0 ≡ some [])
      → rehash_keywords show make_hash ls bind_child_watcher driver argv g ≡ (throw not_found, g)
  unfolding rehash_keywords
  rehash-none k ks e why = simp (far, e, processed-none k ks (find-none k.keyword why))

  watcher-run :
      (r : Result (Unit {0}) × BurstServ S Model)
      → rehash_keywords show make_hash ls bind_child_watcher driver argv g ≡ r
      → watcher_impl show make_hash ls bind_child_watcher driver argv true g
        ≡ bind_result r (λ _. bind_watcher show make_hash ls bind_child_watcher driver argv)
  unfolding watcher_impl
  watcher-run r e =
      ap (λ q. bind_result q (λ _. bind_watcher show make_hash ls bind_child_watcher driver argv)) e

  bind-far :
      (g' : BurstServ S Model)
      → bind_watcher show make_hash ls bind_child_watcher driver argv g' ≡ (
        ok tt,
        record g' {
          net =
              (bind_child_watcher
                (build_actor_path argv.type argv.name ++ codes "/nodes")
                g'.net).1;
        },
      )
  unfolding bind_watcher
  bind-far g' = simp far

  -- The handler of a change of the cluster's servers. On a ring with an entry whose entries can all be
  -- read, it works out the keywords and binds the watcher again. When the ring cannot be listed or is
  -- empty, and there is a keyword, it ends with an exception before the watcher is bound, and the
  -- processed keywords stay as they were: no later change is noticed.
  pub watcher_impl_lem :
      let run = watcher_impl show make_hash ls bind_child_watcher driver argv true g in
      ((x : Text) (xs : List Text) (loc : Text → Text)
          (listed : (ls.list (Cht.cht_path argv.type argv.name) g.net).0 ≡ some (x ∷ xs))
          (readable : AllRead show make_hash ls rd argv.type argv.name g.net loc (x ∷ xs))
        → run ≡ (
          ok tt,
          record g {
            burst =
                driver.set_processed_keywords
                  (mine show make_hash ls bind_child_watcher driver argv rd g x xs loc far listed
                    readable
                    (driver.get_all_keywords g.burst))
                  g.burst;
            net =
                (bind_child_watcher
                  (build_actor_path argv.type argv.name ++ codes "/nodes")
                  g.net).1;
          },
        ))
      × ((k : Keyword Param) (ks : List (Keyword Param))
          → driver.get_all_keywords g.burst ≡ k ∷ ks
          → ((ls.list (Cht.cht_path argv.type argv.name) g.net).0 ≡ none)
            ⊎ ((ls.list (Cht.cht_path argv.type argv.name) g.net).0 ≡ some [])
          → run ≡ (throw not_found, g))
  watcher_impl_lem = (
    λ x xs loc listed readable.
        watcher-run _ (
          rehash_keywords_lem show make_hash ls bind_child_watcher driver argv rd g x xs loc far
            listed readable)
        ∙ bind-far _,
    λ k ks e why. watcher-run (throw not_found, g) (rehash-none k ks e why),
  )
