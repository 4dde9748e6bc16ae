-- ===== src/LinearMixer/Zookeeper/Tests.antt =====
-- A mixer over the lock service in memory whose server is obsolete and not on the active list.
use jubatus.Base.{ℕ, ◌+◌, ◌≡◌, refl, Bool, true, false, not, List, [], ◌∷◌, ltb, ◌⊎◌}
use jubatus.Base.Comp.{Error, type_error, Result, ok, throw, Comp}
use jubatus.Base.Int.{pos}
use jubatus.Base.Text.{Text, codes}
use jubatus.LinearMixer.{Response, raw, Communication, Driver, Mixer, Config, put_diff}
use jubatus.LinearMixer.Zookeeper.{Link, Method, communication, fresh_lock}
use jubatus.LinearMixer.Zookeeper.Registered.{listed, put_diff-listed}
use jubatus.RpcMclient.{Host, Outcome, returned}
use jubatus.Samples.Memory.{Memory, memory_service, memory_tree, memory_exact}
use jubatus.Samples.Notation.{show_int}

abbrev me : Host
me = (codes "h", pos 9)

abbrev no_text : Text → Text → Bool
no_text s t = false

abbrev answers : List Host → Method → Memory → List (Host × Outcome Response) × Memory
answers servers method s = ((me, returned (raw (3 ∷ []))) ∷ [], s)

abbrev model_of_others : List Host → Comp Memory (ℕ × Text)
model_of_others servers s = (ok (1, 7 ∷ []), s)

abbrev first_byte : Text → Result ℕ
first_byte [] = throw type_error
first_byte (b ∷ bs) = ok b

abbrev driver : Driver ℕ ℕ ℕ
driver = record {
  mixable = λ m. true;
  unpack_object = first_byte;
  convert_diff_object = λ o. ok o;
  mix_diff = λ o d. ok (d + o);
  convert_binary = λ d. d ∷ [];
  get_diff = λ m. m ∷ [];
  put_diff = λ d m. (ok (ltb d 10), m + d);
  pack = λ m. m ∷ [];
  unpack = λ o m. (ok tt, o);
}

abbrev config : Config
config = record { count_threshold = 2; tick_threshold = 16; protocol_version = 1 }

abbrev io : Communication (Link Memory)
io =
    communication show_int no_text [] memory_service answers model_of_others (codes "t") (codes "n")
      me

abbrev is_listed : Link Memory → Bool
is_listed =
    listed show_int no_text [] memory_service answers model_of_others (codes "t") (codes "n") me
      memory_tree memory_exact

abbrev fresh : Mixer (Link Memory) ℕ
fresh = record {
  counter = 3;
  ticktime = 0;
  is_running = true;
  is_obsolete = true;
  terminating = false;
  model = 5;
  net = record {
    servers = me ∷ [];
    lock =
        fresh_lock show_int no_text [] memory_service answers model_of_others (codes "t")
          (codes "n") me;
    net = record { nodes = []; functions = []; versions = 0 };
  };
}

put_diff-listed_example :
    let r = put_diff io driver config 100 (3 ∷ []) fresh in
    ((e : Error) × (r.0 ≡ throw e)
      × (is_listed r.1.net ≡ is_listed fresh.net)
      × (r.1.is_obsolete ≡ true))
    ⊎ ((r.0 ≡ ok 0)
        × (is_listed r.1.net ≡ not r.1.is_obsolete)
        × (r.1.counter ≡ 0)
        × (r.1.ticktime ≡ 100))
put_diff-listed_example =
    put_diff-listed show_int no_text [] memory_service answers model_of_others (codes "t")
      (codes "n") me memory_tree memory_exact driver config 100 (3 ∷ []) fresh refl
