-- ===== src/Anomaly/Add.antt =====
-- `add_zk` of anomaly_serv: the first server of the ring has to take the point and gives the score.
use jubatus.Base.{ℕ, ◌≡◌, ◌⊎◌, inl, inr, refl, Bool, true, false, List, [], ◌∷◌, some, arith}
use jubatus.Argv.{ServerArgv, is_standalone}
use jubatus.Base.Comp.{Error, runtime_error, Result, ok, throw, bind_result, Result-cases}
use jubatus.Base.Int.{ℤ}
use jubatus.Base.Text.{Text}
use jubatus.Cht
use jubatus.Cht.First.{find-first}
use jubatus.Cht.Order.{Answers}
use jubatus.Cht.Ring.{AllRead}
use jubatus.LockService.{LockService, Reads}
use jubatus.Membership.{revert}
use jubatus.RpcMclient.{Host}
use jubatus.Anomaly.{
  AnomalyDriver, Peers, AnomalyServ, Method, remote, check_set_config, is_set, failed_first, caught,
  selective_update, update_replicas, update_all, find_from_cht, add_zk, next_id, add,
}

module _ {S Model Updates Datum Score : Type 0} (show : ℤ → Text) (make_hash : Text → Text)
    (ls : LockService S) (peers : Peers S Datum Score) (driver : AnomalyDriver Model Datum Score)
    (i2n : ℕ → Text) (is_runtime_error : Error → Bool) (event_model_updated : Updates → Updates)
    (argv : ServerArgv) (all : (e : Error) → is_runtime_error e ≡ true) (d : Datum) where
  abbrev pub sel : Host → Text → Method S Model Updates Score
  sel h id =
      selective_update show make_hash ls peers driver i2n is_runtime_error event_model_updated argv
        h id d

  abbrev replicas : List Host → Text → Method S Model Updates (Unit {0})
  replicas hs id =
      update_replicas show make_hash ls peers driver i2n is_runtime_error event_model_updated argv
        hs id d

  caught-ok : {A : Type 0} (r : Result A) → caught is_runtime_error r ≡ ok tt
  unfolding caught
  caught-ok (ok a) = refl
  caught-ok (throw e) = ground (arith, all e)

  replicas-ok :
      (hs : List Host) (id : Text) (g : AnomalyServ S Model Updates) → (replicas hs id g).0 ≡ ok tt
  unfolding update_replicas
  replicas-ok [] id g = refl
  replicas-ok (h ∷ hs) id g = rw (caught-ok (sel h id g).0) (replicas-ok hs id (sel h id g).1)

  abbrev everywhere : List Host → Text → Method S Model Updates (Text × Score)
  everywhere hs id =
      update_all show make_hash ls peers driver i2n is_runtime_error event_model_updated argv hs id
        d

  -- The first server takes the point and its score is the result, or it throws.
  abbrev pub Decided :
      Text
      → Result Score × AnomalyServ S Model Updates
      → Result (Text × Score) × AnomalyServ S Model Updates
      → Type 0
  Decided id first r =
      ((score : Score) × (first.0 ≡ ok score) × (r.0 ≡ ok (id, score)))
      ⊎ ((e : Error) × (first.0 ≡ throw e) × (r ≡ (throw runtime_error, first.1)))

  bind-state :
      (q : Result (Unit {0}) × AnomalyServ S Model Updates) (id : Text) (score : Score)
      → q.0 ≡ ok tt
      → (bind_result {B = Text × Score} q (λ _ g. (ok (id, score), g))).0 ≡ ok (id, score)
  bind-state q id score e = rw e refl

  decide :
      (h : Host) (hs : List Host) (id : Text) (g : AnomalyServ S Model Updates)
      → Decided id (sel h id g) (everywhere (h ∷ hs) id g)
  unfolding update_all failed_first
  decide h hs id g = elim (Result-cases (sel h id g).0) [
    | inr (e, failed) ↦ inr (e, failed, rw (failed, all e) refl)
    | inl (score, done) ↦ inl (
      score,
      done,
      rw done
          (bind-state (replicas hs id (sel h id g).1) id score (replicas-ok hs id (sel h id g).1)),
    )
  ]

  abbrev added : Method S Model Updates (Text × Score)
  added = add show make_hash ls peers driver i2n is_runtime_error event_model_updated argv d

  abbrev pub with_net : AnomalyServ S Model Updates → S → AnomalyServ S Model Updates
  with_net g s = record g { net = s }

  add-run :
      (g : AnomalyServ S Model Updates) (m : Model) (n : ℕ) (s : S) (out hs : List Host)
      → g.anomaly ≡ some m
      → is_standalone argv ≡ false
      → peers.generate g.net ≡ (ok n, s)
      → Cht.find show make_hash ls argv.type argv.name (i2n n) 2 s ≡ (ok out, s)
      → out ≡ hs
      → added g ≡ everywhere hs (i2n n) (with_net g s)
  unfolding add check_set_config is_set next_id remote add_zk find_from_cht
  add-run g m n s out hs set far made_id found shape = rw (set, far, made_id, found, shape) refl

  -- `add` in a cluster, on a ring with an entry whose entries can all be read, with the model set, the
  -- identifier generated, and exceptions of the servers that are runtime errors. The first server is the one
  -- stored at the entry that answers for the identifier. When it takes the point, the identifier is
  -- returned with the score that it gave, whatever the second server does; when it throws, `add`
  -- throws a runtime error and no other server has been asked.
  pub add_decides :
      (rd : Reads ls) (g : AnomalyServ S Model Updates) (m : Model) (n : ℕ) (s : S) (x : Text)
      (xs : List Text) (loc : Text → Text)
      → g.anomaly ≡ some m
      → is_standalone argv ≡ false
      → peers.generate g.net ≡ (ok n, s)
      → (ls.list (Cht.cht_path argv.type argv.name) s).0 ≡ some (x ∷ xs)
      → AllRead show make_hash ls rd argv.type argv.name s loc (x ∷ xs)
      → (c : Text) × Answers (make_hash (i2n n)) (x ∷ xs) c
        × Decided (i2n n) (sel (revert (loc c)) (i2n n) (with_net g s)) (added g)
  add_decides rd g m n s x xs loc set far made_id listed readable =
      let (c, rest, out, run, shape, count, first) =
        find-first show make_hash ls rd argv.type argv.name (i2n n) 1 s x xs loc listed readable in
      (
        c,
        first,
        rw (add-run g m n s out (revert (loc c) ∷ rest) set far made_id run shape)
            (decide (revert (loc c)) rest (i2n n) (with_net g s)),
      )
