-- ===== src/LinearMixer/Control.antt =====
-- `start`, `stop` and `do_mix` of linear_mixer.cpp. The thread that is started and joined runs the rounds of Trigger.
use jubatus.Base.{ℕ, zero, suc, Bool, true, false, not, if◌then◌else◌}
use jubatus.Base.Comp.{null_pointer, Result, ok, throw}
use jubatus.LinearMixer.{Communication, Driver, Mixer, Config, mix, remote}

-- How `do_mix` ends: with its return value, in the null dereference of `mix`, or not before the fuel is used up.
pub data Forced : Type 0 where
  answered : Bool → Forced
  crashed spinning : Forced

module _ {S Model Obj Diff : Type 0} (io : Communication S) (driver : Driver Model Obj Diff)
    (config : Config) where
  pub start : Mixer S Model → Mixer S Model
  start w = if not w.is_running then record w { is_running = true } else w

  pub stop : Mixer S Model → Mixer S Model
  stop w = if w.is_running then record w { is_running = false } else w

  -- `return true` after `mix`, or one of the handlers.
  mixed : Result (Unit {0}) → Forced
  mixed (ok u) = answered true
  mixed (throw null_pointer) = crashed
  mixed (throw e) = answered false

  force : ℕ → Mixer S Model → Forced × Mixer S Model
  unfolding mixed
  force zero w = (spinning, w)
  force (suc fuel) w =
      let r = remote io driver config io.try_lock w in
      let again = force fuel r.1 in
      let done = mix io driver config r.1 in
      elim r.0 [
        | ok true ↦ (mixed done.0, done.1)
        | ok false ↦ again
        | throw e ↦ (answered false, r.1)
      ]

  -- The loop asks for the lock again at once, and for as long as it takes; the destructor of the lock follows.
  pub do_mix : ℕ → ℕ → Mixer S Model → Forced × Mixer S Model
  unfolding force
  do_mix fuel now w =
      let r = force fuel (record w { counter = 0; ticktime = now }) in
      (r.0, record r.1 { net = io.release r.1.net })
