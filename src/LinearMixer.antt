-- ===== src/LinearMixer.antt =====
-- jubatus/server/framework/mixer/linear_mixer.cpp and linear_mixer.hpp: the mixer that folds the
-- differences of all servers. The model and its `linear_mixable`, and msgpack, are parameters; so is the
-- `linear_communication`, an abstract class. Times are counted in microseconds, and each time the
-- code asks for the time it is an argument. Handlers that run while a method waits are steps of their own.
pub mod Fold
pub mod Active
pub mod Stranded
pub mod Trigger
pub mod Control
pub mod Zookeeper
mod Tests
use jubatus.Base.{
  ℕ, zero, suc, ◌+◌, ◌-◌, ◌*◌, ◌%◌, ◌^◌, ◌≡◌, Bool, true, false, not, ◌&&◌, ◌||◌, List, [], ◌∷◌,
  Option, none, some, length, ltb, leb, ◌==◌, if◌then◌else◌,
}
use jubatus.Base.Comp.{
  Error, config_not_set, null_pointer, Result, ok, throw, Comp, bind_result, then_result, ◌>>=◌,
  ◌>>◌, pure, raise, require,
}
use jubatus.Base.Text.{Text}

-- An element of `rpc_result_object::response`: it has an error, or it holds a RAW object or another.
pub data Response : Type 0 where
  failed other : Response
  raw : Text → Response

-- The class `linear_communication`; `try_lock` is called on a lock that `create_lock` made, and
-- `release` is that lock's destructor.
pub record Communication (S : Type 0) : Type 0 where
  pub update_members : Comp S ℕ
  pub get_model : Comp S (ℕ × Text)
  pub try_lock : Comp S Bool
  pub release : S → S
  pub get_diff : Comp S (List Response)
  pub put_diff : Text → Comp S (List Response)
  pub register_active_list : Comp S (Unit {0})
  pub unregister_active_list : Comp S (Unit {0})

-- The driver of jubatus_core with its `linear_mixable` (`mixable` is false when the cast yields
-- null), and msgpack.
pub record Driver (Model Obj Diff : Type 0) : Type 0 where
  pub mixable : Model → Bool
  pub unpack_object : Text → Result Obj
  pub convert_diff_object : Obj → Result Diff
  pub mix_diff : Obj → Diff → Result Diff
  pub convert_binary : Diff → Text
  pub get_diff : Model → Text
  pub put_diff : Diff → Model → Result Bool × Model
  pub pack : Model → Text
  pub unpack : Obj → Model → Result (Unit {0}) × Model

-- `terminating` says that `shutdown_server` has been called.
pub record Mixer (S Model : Type 0) : Type 0 where
  pub counter : ℕ
  pub ticktime : ℕ
  pub is_running : Bool
  pub is_obsolete : Bool
  pub terminating : Bool
  pub model : Model
  pub net : S

pub record Config : Type 0 where
  pub count_threshold : ℕ
  pub tick_threshold : ℕ
  pub protocol_version : ℕ

-- `++counter_` on an unsigned int.
abbrev pub word32 : ℕ
word32 = 0x100000000

-- `now - ticktime_ > tick_threshold_`, the threshold in seconds.
abbrev pub ticked : ℕ → ℕ → ℕ → Bool
ticked now ticktime threshold = ltb (threshold * 1000000) (now - ticktime)

-- `catch (const std::exception&)` around a body without a result: a null dereference is none.
abbrev pub catch_std : {W : Type 0} → Result (Unit {0}) × W → Result (Unit {0}) × W
catch_std (ok a, w) = (ok a, w)
catch_std (throw null_pointer, w) = (throw null_pointer, w)
catch_std (throw e, w) = (ok tt, w)

module _ {S Model Obj Diff : Type 0} (io : Communication S) (driver : Driver Model Obj Diff)
    (config : Config) where
  -- A call of the communication from a method of the mixer.
  abbrev pub remote : {A : Type 0} → Comp S A → Comp (Mixer S Model) A
  remote m w = let r = m w.net in (r.0, record w { net = r.1 })

  -- The return value says whether the condition is notified.
  pub updated : ℕ → Mixer S Model → Bool × Mixer S Model
  updated now w =
      let c = (w.counter + 1) % word32 in
      (
        leb config.count_threshold c || ticked now w.ticktime config.tick_threshold,
        record w { counter = c },
      )

  -- The loop over the responses of `get_diff`.
  add_diff : Obj → Option Diff → Result Diff
  add_diff o none = driver.convert_diff_object o
  add_diff o (some d) = driver.mix_diff o d

  collect : List Response → Option Diff → Result (Option Diff)
  unfolding add_diff
  collect [] d = ok d
  collect (failed ∷ rs) d = collect rs d
  collect (other ∷ rs) d = collect rs d
  collect (raw b ∷ rs) d =
      then_result (driver.unpack_object b)
        (λ o. then_result (add_diff o d) (λ d'. collect rs (some d')))

  -- `diff->convert_binary` and `put_diff`; the pointer is null when there was no usable response.
  send_diff : Result (Option Diff) → Comp (Mixer S Model) (Unit {0})
  send_diff (throw e) w = (throw e, w)
  send_diff (ok none) w = (throw null_pointer, w)
  send_diff (ok (some d)) w = (remote (io.put_diff (driver.convert_binary d)) >> pure tt) w

  -- The body of the `try` block of `mix`.
  mix_body : Comp (Mixer S Model) (Unit {0})
  unfolding collect send_diff
  mix_body w =
      if driver.mixable w.model
      then bind_result (remote io.get_diff w) (λ responses. send_diff (collect responses none))
      else (ok tt, w)

  mix_with : ℕ → Comp (Mixer S Model) (Unit {0})
  unfolding mix_body
  mix_with zero w = remote io.register_active_list w
  mix_with (suc n) w = catch_std (mix_body w)

  pub mix : Comp (Mixer S Model) (Unit {0})
  unfolding mix_with
  mix w = bind_result (remote io.update_members w) mix_with

  pub get_diff : Comp (Mixer S Model) Text
  get_diff w =
      if driver.mixable w.model
      then (ok (driver.get_diff w.model), w)
      else (throw config_not_set, w)

  pub get_model : Comp (Mixer S Model) (ℕ × Text)
  get_model w = (ok (config.protocol_version, driver.pack w.model), w)

  load_model : Result Obj → Comp (Mixer S Model) (Unit {0})
  load_model (throw e) w = (throw e, w)
  load_model (ok o) w = let r = driver.unpack o w.model in (r.0, record w { model = r.1 })

  -- `shutdown_server` sends a signal to the process and returns, so the model is loaded all the same.
  take_model : ℕ × Text → Comp (Mixer S Model) (Unit {0})
  unfolding load_model
  take_model (v, bytes) w =
      if length bytes == 0
      then remote io.register_active_list (record w { is_obsolete = false })
      else load_model (driver.unpack_object bytes)
          (if v == config.protocol_version then w else record w { terminating = true })

  pub update_model : Comp (Mixer S Model) (Unit {0})
  unfolding take_model
  update_model w = bind_result (remote io.get_model w) take_model

  -- The change of the active list that `put_diff` makes.
  change_active : Bool → Bool → Comp (Mixer S Model) (Unit {0})
  change_active true true = remote io.register_active_list
  change_active true false = pure tt
  change_active false true = pure tt
  change_active false false = remote io.unregister_active_list

  finish_put : ℕ → Bool → Comp (Mixer S Model) ℕ
  unfolding change_active
  finish_put now not_obsolete w =
      bind_result (change_active not_obsolete w.is_obsolete w)
        (λ _ w'. (ok 0, record w' { is_obsolete = not not_obsolete; counter = 0; ticktime = now }))

  apply_diff : ℕ → Result Diff → Comp (Mixer S Model) ℕ
  unfolding finish_put
  apply_diff now (throw e) w = (throw e, w)
  apply_diff now (ok d) w =
      let r = driver.put_diff d w.model in
      bind_result (r.0, record w { model = r.1 }) (finish_put now)

  put_object : ℕ → Result Obj → Comp (Mixer S Model) ℕ
  unfolding apply_diff
  put_object now (throw e) w = (throw e, w)
  put_object now (ok o) w =
      if driver.mixable w.model
      then apply_diff now (driver.convert_diff_object o) w
      else (throw config_not_set, w)

  pub put_diff : ℕ → Text → Comp (Mixer S Model) ℕ
  unfolding put_object
  put_diff now bytes w = put_object now (driver.unpack_object bytes) w
