-- ===== src/Anomaly/Tests.antt =====
-- A server of points, `h`, in a cluster with `g`, and alone.
use jubatus.Base.{
  ℕ, ◌≡◌, ◌≤◌, refl, Bool, true, List, [], ◌∷◌, some, inl, inr, ◌⊎◌, if◌then◌else◌, ltb, arith,
}
use jubatus.Argv.{ServerArgv}
use jubatus.Base.Comp.{ok}
use jubatus.Base.Int.{pos, atoi, int_eq}
use jubatus.Base.Text.{Text, codes, text_eq, text_lt, before, after, digits_value}
use jubatus.Cht
use jubatus.Cht.Order.{Answers}
use jubatus.LockService.{child}
use jubatus.Membership.{revert, build_actor_path}
use jubatus.Samples.Arguments.{cluster_argv, alone_argv}
use jubatus.Samples.Memory.{Memory, memory_service, memory_reads}
use jubatus.Samples.Notation.{show_int}
use jubatus.Anomaly.{AnomalyDriver, Peers, AnomalyServ, Method, add}
use jubatus.Anomaly.Add.{sel, Decided, add_decides}
use jubatus.Anomaly.Fresh.{Ids}

abbrev kind : Text
kind = codes "anomaly"

-- The greatest number of a list.
abbrev greatest : List ℕ → ℕ
greatest [] = 0
greatest (n ∷ ns) = if ltb (greatest ns) n then n else greatest ns

abbrev Among : List ℕ → ℕ → Type 0
Among [] k = ⊥
Among (n ∷ ns) k = (n ≡ k) ⊎ Among ns k

greatest-bound : (ns : List ℕ) (k : ℕ) → Among ns k → k ≤ greatest ns
greatest-bound [] k h = elim h [ ]
greatest-bound (n ∷ ns) k (inl e) = ground arith
greatest-bound (n ∷ ns) k (inr h) = ground (arith, greatest-bound ns k h)

-- A model is the list of its identifiers, and the score is how many there are.
abbrev driver : AnomalyDriver (List ℕ) ℕ ℕ
driver = record {
  is_updatable = λ m. true;
  add = λ id d m. (ok (id, d), digits_value 0 id ∷ m);
  update = λ id d m. (ok d, digits_value 0 id ∷ m);
  overwrite = λ id d m. (ok d, digits_value 0 id ∷ m);
  clear_row = λ id m. (ok tt, m);
  clear = λ m. (ok tt, []);
  calc_score = λ d m. (ok d, m);
  get_all_rows = λ m. (ok [], m);
  find_max_int_id = greatest;
}

abbrev peers : Peers Memory ℕ ℕ
peers = record {
  update = λ h id d s. (ok 2, s);
  overwrite = λ h id d s. (ok 3, s);
  generate = λ s. (ok 7, s);
}

ids : Ids driver
ids = record { HasId = Among; bounded = greatest-bound }

abbrev i2n : ℕ → Text
i2n n = show_int (pos n)

abbrev net : Memory
net = record {
  nodes =
      (child (Cht.cht_path kind (codes "c")) (codes "4"), codes "h_9")
      ∷ (child (Cht.cht_path kind (codes "c")) (codes "8"), codes "g_8")
      ∷ [];
  functions = [];
  versions = 0;
}

abbrev world : AnomalyServ Memory (List ℕ) ℕ
world = record { anomaly = some (3 ∷ []); config = codes "{}"; counter = 0; updates = 0; net = net }

abbrev location : Text → Text
location c = if text_eq c (codes "4") then codes "h_9" else codes "g_8"

program : Unit {0}
unfolding Cht.cht_path build_actor_path revert text_eq before after atoi digits_value text_lt int_eq
program = tt

abbrev hash : Text → Text
hash key = key

abbrev argv : ServerArgv
argv = cluster_argv kind

add_decides_example :
    (c : Text) × Answers (codes "7") (codes "4" ∷ codes "8" ∷ []) c
    × Decided show_int hash memory_service peers driver i2n
        (λ e. true)
        (λ n. n)
        argv
        (λ e. refl)
        5
        (codes "7")
        (sel show_int hash memory_service peers driver i2n
          (λ e. true)
          (λ n. n)
          argv
          (λ e. refl)
          5
          (revert (location c))
          (codes "7")
          world)
        (add show_int hash memory_service peers driver i2n (λ e. true) (λ n. n) argv 5 world)
unfolding program
add_decides_example =
    add_decides show_int hash memory_service peers driver i2n (λ e. true) (λ n. n) argv (λ e. refl)
      5 memory_reads world (3 ∷ []) 7 net (codes "4") (codes "8" ∷ []) location refl refl refl refl
      (refl, (refl, tt))

-- The base class loads a model with the identifiers 4 and 9.
abbrev base_load : Method Memory (List ℕ) ℕ Bool
base_load g = (ok true, record g { anomaly = some (4 ∷ 9 ∷ []) })

abbrev alone : ServerArgv
alone = alone_argv kind
