-- ===== src/Burst/Tests.antt =====
-- A server of bursts, `h`, in a cluster with `g`.
use jubatus.Base.{
  ℕ, ◌≡◌, ◌⊎◌, refl, Bool, true, false, ◌++◌, List, [], ◌∷◌, none, some, if◌then◌else◌,
}
use jubatus.Argv.{ServerArgv}
use jubatus.Base.Comp.{ok, throw, not_found}
use jubatus.Base.Int.{atoi, int_eq}
use jubatus.Base.Text.{Text, codes, text_eq, text_lt, before, after, digits_value}
use jubatus.Cht
use jubatus.Cht.Order.{Answers}
use jubatus.Cht.Ring.{AllRead}
use jubatus.LockService.{child}
use jubatus.Membership.{revert, build_actor_path}
use jubatus.Samples.Arguments.{cluster_argv}
use jubatus.Samples.Memory.{Memory, memory_service, memory_reads}
use jubatus.Samples.Notation.{show_int}
use jubatus.Burst.{
  Keyword, BurstDriver, BurstServ, is_host, will_process, rehash_keywords, watcher_impl,
  add_documents, local, remote,
}
use jubatus.Burst.Keywords.{keyword_covered, mine}
use jubatus.Burst.Watch.{watcher_impl_lem}

abbrev kind : Text
kind = codes "burst"

-- All keywords with those that are processed.
pub record Words : Type 0 where
  words : List (Keyword ℕ)
  mine_now : List Text

abbrev driver : BurstDriver Words ℕ ℕ ℕ
driver = record {
  has_been_mixed = λ m. false;
  add_document = λ d m. (true, m);
  calculate_results = λ m. m;
  get_result = λ k m. 0;
  get_all_keywords = λ m. m.words;
  add_keyword = λ k b m. (true, record m { words = k ∷ m.words });
  remove_keyword = λ k m. (true, m);
  remove_all_keywords = λ m. (true, record m { words = [] });
  set_processed_keywords = λ ks m. record m { mine_now = ks };
}

-- A watcher that is bound is noted as a node.
abbrev bind_child_watcher : Text → Memory → Bool × Memory
bind_child_watcher path s = (true, record s { nodes = s.nodes ++ ((codes "watch", path) ∷ []) })

abbrev word : Text → Keyword ℕ
word k = record { keyword = k; scaling_param = 1; gamma = 1 }

abbrev net : Memory
net = record {
  nodes =
      (child (Cht.cht_path kind (codes "c")) (codes "4"), codes "h_9")
      ∷ (child (Cht.cht_path kind (codes "c")) (codes "6"), codes "g_8")
      ∷ (child (Cht.cht_path kind (codes "c")) (codes "8"), codes "g_8")
      ∷ [];
  functions = [];
  versions = 0;
}

abbrev world : BurstServ Memory Words
world = record {
  burst = record { words = word (codes "3") ∷ word (codes "5") ∷ []; mine_now = [] };
  config = codes "{}";
  watcher_binded = false;
  net = net;
}

abbrev lonely : BurstServ Memory Words
lonely = record world { net = record { nodes = []; functions = []; versions = 0 } }

abbrev location : Text → Text
location c = if text_eq c (codes "4") then codes "h_9" else codes "g_8"

program : Unit {0}
unfolding Cht.cht_path Cht.find Cht.sort build_actor_path revert text_eq before after atoi
    digits_value text_lt int_eq
program = tt

abbrev hash : Text → Text
hash key = key

abbrev argv : ServerArgv
argv = cluster_argv kind

abbrev entries : List Text
entries = codes "4" ∷ codes "6" ∷ codes "8" ∷ []

readable : AllRead show_int hash memory_service memory_reads kind (codes "c") net location entries
unfolding program
readable = (refl, (refl, (refl, tt)))

listed : (memory_service.list (Cht.cht_path kind (codes "c")) net).0 ≡ some entries
unfolding program
listed = refl

-- The first keyword is kept here and at `g`, the second at `g` alone.
rehashes :
    (rehash_keywords show_int hash memory_service bind_child_watcher driver argv
      world).1.burst.mine_now
    ≡ codes "3" ∷ []
unfolding program rehash_keywords will_process remote
rehashes = refl

counts :
    (add_documents show_int hash memory_service bind_child_watcher driver argv (1 ∷ 2 ∷ []) world).0
    ≡ ok 2
unfolding add_documents local
counts = refl

keyword_covered_example :
    (c : Text) × Answers (codes "3") entries c
    × (is_host argv (revert (location c)) ≡ true
        → will_process show_int hash memory_service bind_child_watcher driver argv (codes "3") world
          ≡ (ok true, world))
keyword_covered_example =
    keyword_covered show_int hash memory_service bind_child_watcher driver argv memory_reads world
      (codes "4") (codes "6" ∷ codes "8" ∷ []) location refl listed readable (codes "3")

watcher_impl_lem_example :
    let run =
      watcher_impl show_int hash memory_service bind_child_watcher driver argv true lonely in
    ((x : Text) (xs : List Text) (loc : Text → Text)
        (found : (memory_service.list (Cht.cht_path kind (codes "c")) lonely.net).0 ≡ some (x ∷ xs))
        (read : AllRead show_int hash memory_service memory_reads kind
          (codes "c")
          lonely.net
          loc
          (x ∷ xs))
      → run ≡ (
        ok tt,
        record lonely {
          burst = record {
            words = word (codes "3") ∷ word (codes "5") ∷ [];
            mine_now =
                mine show_int hash memory_service bind_child_watcher driver argv memory_reads lonely
                  x xs loc refl found read
                  (word (codes "3") ∷ word (codes "5") ∷ []);
          };
          net =
              (bind_child_watcher
                (build_actor_path kind (codes "c") ++ codes "/nodes")
                lonely.net).1;
        },
      ))
    × ((k : Keyword ℕ) (ks : List (Keyword ℕ))
        → lonely.burst.words ≡ k ∷ ks
        → ((memory_service.list (Cht.cht_path kind (codes "c")) lonely.net).0 ≡ none)
          ⊎ ((memory_service.list (Cht.cht_path kind (codes "c")) lonely.net).0 ≡ some [])
        → run ≡ (throw not_found, lonely))
watcher_impl_lem_example =
    watcher_impl_lem show_int hash memory_service bind_child_watcher driver argv memory_reads lonely
      refl
