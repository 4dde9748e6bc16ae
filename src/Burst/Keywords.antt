-- ===== src/Burst/Keywords.antt =====
-- Which server processes which keyword.
use jubatus.Base.{◌≡◌, refl, ap, ◌∙◌, Bool, true, false, List, [], ◌∷◌, some, if◌then◌else◌}
use jubatus.Argv.{ServerArgv, is_standalone}
use jubatus.Base.Comp.{Result, ok}
use jubatus.Base.Int.{ℤ}
use jubatus.Base.Text.{Text}
use jubatus.Cht
use jubatus.Cht.First.{find-first}
use jubatus.Cht.Order.{Answers}
use jubatus.Cht.Ring.{AllRead}
use jubatus.LockService.{LockService, Reads}
use jubatus.Membership.{revert}
use jubatus.RpcMclient.{Host}
use jubatus.Burst.{
  Keyword, BurstDriver, BurstServ, Method, remote, is_host, any_host, is_assigned, will_process,
  processed, rehash_keywords, replication_level,
}

module _ {S Model Doc Window Param : Type 0} (show : ℤ → Text) (make_hash : Text → Text)
    (ls : LockService S) (bind_child_watcher : Text → S → Bool × S)
    (driver : BurstDriver Model Doc Window Param) (argv : ServerArgv) (rd : Reads ls)
    (g : BurstServ S Model) (x : Text) (xs : List Text) (loc : Text → Text)
    (far : is_standalone argv ≡ false)
    (listed : (ls.list (Cht.cht_path argv.type argv.name) g.net).0 ≡ some (x ∷ xs))
    (readable : AllRead show make_hash ls rd argv.type argv.name g.net loc (x ∷ xs)) where
  abbrev will : Text → Method S Model Bool
  will = will_process show make_hash ls bind_child_watcher driver argv

  will-run :
      (k : Text) (out : List Host) (g' : BurstServ S Model)
      → Cht.find show make_hash ls argv.type argv.name k replication_level g'.net ≡ (ok out, g'.net)
      → will k g' ≡ (ok (any_host argv out), g')
  unfolding will_process is_assigned remote
  will-run k out g' found = simp (far, found)

  -- The hosts of a keyword.
  abbrev pub hosts : Text → List Host
  hosts k =
      let (c, rest, out, run, shape, count, first) =
        find-first show make_hash ls rd argv.type argv.name k 1 g.net x xs loc listed readable in
      out

  will-hosts :
      (k : Text) (m : Model)
      → will k (record g { burst = m }) ≡ (ok (any_host argv (hosts k)), record g { burst = m })
  will-hosts k m =
      let (c, rest, out, run, shape, count, first) =
        find-first show make_hash ls rd argv.type argv.name k 1 g.net x xs loc listed readable in
      will-run k out (record g { burst = m }) run

  any_host-first :
      (h : Host) (hs out : List Host)
      → out ≡ h ∷ hs
      → is_host argv h ≡ true
      → any_host argv out ≡ true
  unfolding any_host
  any_host-first h hs out shape me = rw (shape, me) refl

  -- No keyword is left out: on a ring with an entry whose entries can all be read, there is for every
  -- keyword an entry that answers for it, and the server that is stored there, when it is this one, finds that it
  -- processes the keyword. Nothing is changed by the question.
  pub keyword_covered :
      (k : Text)
      → (c : Text) × Answers (make_hash k) (x ∷ xs) c
        × (is_host argv (revert (loc c)) ≡ true → will k g ≡ (ok true, g))
  keyword_covered k =
      let (c, rest, out, run, shape, count, first) =
        find-first show make_hash ls rd argv.type argv.name k 1 g.net x xs loc listed readable in
      (
        c,
        first,
        λ me.
            will-run k out g run
            ∙ ap (λ b. (ok b, g)) (any_host-first (revert (loc c)) rest out shape me),
      )

  -- The keywords for which `will_process` gives true.
  abbrev pub is_true : Result Bool → Bool
  is_true (ok b) = b
  is_true r = false

  abbrev pub mine : List (Keyword Param) → List Text
  mine [] = []
  mine (k ∷ ks) =
      let rest = mine ks in if is_true (will k.keyword g).0 then k.keyword ∷ rest else rest

  processed-mine :
      (ks : List (Keyword Param))
      → processed show make_hash ls bind_child_watcher driver argv ks g ≡ (ok (mine ks), g)
  unfolding processed
  processed-mine [] = refl
  processed-mine (k ∷ ks) = rw (will-hosts k.keyword g.burst, processed-mine ks) refl

  -- On such a ring `rehash_keywords` returns and makes the driver process exactly the keywords that this
  -- server finds it processes, in the driver's order; nothing else changes.
  pub rehash_keywords_lem : rehash_keywords show make_hash ls bind_child_watcher driver argv g ≡ (
    ok tt,
    record g {
      burst = driver.set_processed_keywords (mine (driver.get_all_keywords g.burst)) g.burst;
    },
  )
  unfolding rehash_keywords
  rehash_keywords_lem = simp (far, processed-mine)
