-- ===== src/LinearMixer/Tests.antt =====
-- Runs of the linear mixer whose model is a number, a difference a number, and whose cluster is one flag
-- (this server is on the active list) with scripted answers.
use jubatus.Base.{
  if◌then◌else◌, ltb, ℕ, ◌+◌, ◌≡◌, refl, Bool, true, false, not, List, [], ◌∷◌, arith,
}
use jubatus.Base.Comp.{runtime_error, type_error, Result, ok, throw, ◌>>◌, pure}
use jubatus.Base.Text.{Text}
use jubatus.LinearMixer.{
  Response, failed, other, raw, Communication, Driver, Mixer, Config, mix, remote, catch_std,
}
use jubatus.LinearMixer.Fold.{done, step, mix_puts}
use jubatus.LinearMixer.Active.{ActiveList}
use jubatus.LinearMixer.Trigger.{updates-mix, stabilizer_round, updates, catch_all, release_lock}

record Cluster : Type 0 where
  listed : Bool
  putted : List Text

abbrev first_byte : Text → Result ℕ
first_byte [] = throw type_error
first_byte (b ∷ bs) = ok b

-- A registration throws when the server is listed, or always; a removal when it is not.
abbrev communication : Bool → List Response → Communication Cluster
communication reachable rs = record {
  update_members = λ s. (ok 2, s);
  get_model = λ s. (ok (1, []), s);
  try_lock = λ s. (ok true, s);
  release = λ s. s;
  get_diff = λ s. (ok rs, s);
  put_diff = λ b s. (ok rs, record s { putted = b ∷ s.putted });
  register_active_list = λ s.
      if reachable
      then (if s.listed then (throw runtime_error, s) else (ok tt, record s { listed = true }))
      else (throw runtime_error, s);
  unregister_active_list =
      λ s. if s.listed then (ok tt, record s { listed = false }) else (throw runtime_error, s);
}

abbrev communication_list :
    (reachable : Bool) (rs : List Response) → ActiveList (communication reachable rs)
communication_list reachable rs = record {
  active = λ s. s.listed;
  register_ok = λ s h. ground arith;
  register_throw = λ s e h. ground arith;
  unregister_ok = λ s h. ground arith;
  unregister_throw = λ s e h. ground arith;
}

-- A difference is accepted when it is under 10.
abbrev driver : Driver ℕ ℕ ℕ
driver = record {
  mixable = λ m. true;
  unpack_object = first_byte;
  convert_diff_object = λ o. ok o;
  mix_diff = λ o d. ok (d + o);
  convert_binary = λ d. d ∷ [];
  get_diff = λ m. m ∷ [];
  put_diff = λ d m. (ok (ltb d 10), m + d);
  pack = λ m. m ∷ [];
  unpack = λ o m. (ok tt, o);
}

abbrev config : Config
config = record { count_threshold = 2; tick_threshold = 16; protocol_version = 1 }

abbrev fresh : Bool → Mixer Cluster ℕ
fresh obsolete = record {
  counter = 0;
  ticktime = 0;
  is_running = true;
  is_obsolete = obsolete;
  terminating = false;
  model = 5;
  net = record { listed = not obsolete; putted = [] };
}

abbrev answers : List Response
answers = failed ∷ raw (3 ∷ []) ∷ other ∷ raw (4 ∷ []) ∷ []

mix_puts_example :
    mix (communication true answers) driver config (fresh false)
    ≡ catch_std (
        (remote
              (communication true answers)
              driver
              config
              ((communication true answers).put_diff (7 ∷ []))
            >> pure tt)
          (fresh false))
mix_puts_example =
    mix_puts (communication true answers) driver config (fresh false) 1 (fresh false).net
      (fresh false).net answers (3 ∷ []) ((4 ∷ []) ∷ []) 3 3 7 (refl, refl, refl) refl refl refl
      (step 3 7 7 (4 ∷ []) [] 4 refl refl (done 7))

updates-mix_example :
    stabilizer_round
      (communication true answers)
      driver
      config
      50
      (updates (communication true answers) driver config (10 ∷ 20 ∷ 30 ∷ []) (fresh false))
    ≡ release_lock (communication true answers) driver config (
        catch_all
          (mix (communication true answers) driver config (record (fresh false) { ticktime = 50 })))
updates-mix_example =
    updates-mix (communication true answers) driver config (10 ∷ 20 ∷ 30 ∷ []) 50 (fresh false)
      (fresh false).net refl (omega arith) (omega arith) (omega arith) refl refl
