-- ===== src/LinearMixer/Trigger.antt =====
-- `stabilizer_loop` of linear_mixer.cpp: one round of the loop, and when it mixes.
use jubatus.Base.{
  ℕ, zero, suc, ◌+◌, ◌%◌, ◌≤◌, ◌<◌, ◌≡◌, refl, ◌∙◌, ap, Bool, true, false, ◌&&◌, ◌||◌, List, [],
  ◌∷◌, Option, none, some, length, Bool-cases, inl, inr, ltb, leb, if◌then◌else◌, arith,
}
use jubatus.Base.Comp.{null_pointer, Result, ok, throw, Comp, bind_result, ◌>>=◌, ◌>>◌, pure}
use jubatus.LinearMixer.{
  Communication, Driver, Mixer, Config, mix, mix_with, mix_body, send_diff, collect, catch_std,
  update_model, updated, remote, ticked, word32,
}

-- The handlers of the loop's `try`: everything but a null dereference is caught and logged.
abbrev pub catch_all : {W : Type 0} → Result (Unit {0}) × W → Result (Unit {0}) × W
catch_all (ok a, w) = (ok a, w)
catch_all (throw null_pointer, w) = (throw null_pointer, w)
catch_all (throw e, w) = (ok tt, w)

module _ {S Model Obj Diff : Type 0} (io : Communication S) (driver : Driver Model Obj Diff)
    (config : Config) where
  pub due : ℕ → Mixer S Model → Bool
  due now w =
      ((ltb 0 config.count_threshold && leb config.count_threshold w.counter)
        || (ltb 0 config.tick_threshold && ticked now w.ticktime config.tick_threshold))
      && ltb 0 w.counter

  -- `zklock->try_lock()`, which answers at once when this round holds the lock.
  try_held : Bool → Comp (Mixer S Model) Bool
  try_held true = pure true
  try_held false = remote io driver config io.try_lock

  -- The `if` on the thresholds; the value says whether the round holds the lock.
  mix_locked : ℕ → Bool → Comp (Mixer S Model) Bool
  mix_locked now false w = (ok false, w)
  mix_locked now true w =
      (mix io driver config >> pure true) (record w { counter = 0; ticktime = now })

  mix_if_due : ℕ → Comp (Mixer S Model) Bool
  unfolding mix_locked due
  mix_if_due now w =
      if due now w
      then (remote io driver config io.try_lock >>= mix_locked now) w
      else (ok false, w)

  -- The `if` on `is_obsolete_`.
  refresh_locked : Bool → Comp (Mixer S Model) (Unit {0})
  refresh_locked false w = (ok tt, w)
  refresh_locked true w =
      if w.is_obsolete
      then (update_model io driver config >> mix io driver config) w
      else (ok tt, w)

  refresh_if_obsolete : Bool → Comp (Mixer S Model) (Unit {0})
  unfolding refresh_locked try_held
  refresh_if_obsolete held w =
      if w.is_obsolete then (try_held held >>= refresh_locked) w else (ok tt, w)

  -- The destructor of the round's lock.
  pub release_lock : Result (Unit {0}) × Mixer S Model → Result (Unit {0}) × Mixer S Model
  release_lock (r, w) = (r, record w { net = io.release w.net })

  -- A round of the loop that finds the mixer running, at the time `now`.
  pub stabilizer_round : ℕ → Comp (Mixer S Model) (Unit {0})
  unfolding mix_if_due refresh_if_obsolete release_lock
  stabilizer_round now w = release_lock (catch_all ((mix_if_due now >>= refresh_if_obsolete) w))

  -- The mixer after updates at the given times.
  pub updates : List ℕ → Mixer S Model → Mixer S Model
  updates [] w = w
  updates (now ∷ later) w = updates later (updated io driver config now w).1

  updates_lem :
      (times : List ℕ) (w : Mixer S Model)
      → w.counter < word32
      → updates times w ≡ record w { counter = (w.counter + length times) % word32 }
  unfolding updates updated
  updates_lem [] w h =
      let same : w.counter ≡ (w.counter + 0) % word32 = omega arith in
      ap (λ c. record w { counter = c }) same
  updates_lem (now ∷ later) w h =
      let same : ((w.counter + 1) % word32 + length later) % word32
          ≡ (w.counter + suc (length later)) % word32 =
        omega arith in
      updates_lem later (updated io driver config now w).1 (omega arith)
      ∙ ap (λ c. record w { counter = c }) same

  bind-obsolete :
      {A B : Type 0} (r : Result A × S) (f : A → Comp (Mixer S Model) B) (w : Mixer S Model)
      → ((a : A) (w' : Mixer S Model) → (f a w').1.is_obsolete ≡ w'.is_obsolete)
      → (bind_result (r.0, record w { net = r.1 }) f).1.is_obsolete ≡ w.is_obsolete
  bind-obsolete (ok a, s) f w h = h a (record w { net = s })
  bind-obsolete (throw e, s) f w h = refl

  catch_std-obsolete :
      (r : Result (Unit {0}) × Mixer S Model) → (catch_std r).1.is_obsolete ≡ r.1.is_obsolete
  catch_std-obsolete (ok u, w) = refl
  catch_std-obsolete (throw e, w) =
      elim e as (λ x. (catch_std {W = Mixer S Model} (throw x, w)).1.is_obsolete ≡ w.is_obsolete) [
        | null_pointer ↦ refl
        | _ ↦ refl
      ]

  send_diff-obsolete :
      (d : Result (Option Diff)) (w : Mixer S Model)
      → (send_diff io driver config d w).1.is_obsolete ≡ w.is_obsolete
  unfolding send_diff
  send_diff-obsolete (throw e) w = refl
  send_diff-obsolete (ok none) w = refl
  send_diff-obsolete (ok (some d)) w =
      bind-obsolete (io.put_diff (driver.convert_binary d) w.net) (λ _. pure tt) w (λ _ _. refl)

  mix_with-obsolete :
      (n : ℕ) (w : Mixer S Model) → (mix_with io driver config n w).1.is_obsolete ≡ w.is_obsolete
  unfolding mix_with mix_body
  mix_with-obsolete zero w = refl
  mix_with-obsolete (suc n) w = elim (Bool-cases (driver.mixable w.model)) [
    | inl mixable ↦ rw mixable (
        catch_std-obsolete _
        ∙ bind-obsolete (io.get_diff w.net) _ w
            (λ rs. send_diff-obsolete (collect io driver config rs none)))
    | inr nothing ↦ rw nothing refl
  ]

  mix-obsolete : (w : Mixer S Model) → (mix io driver config w).1.is_obsolete ≡ w.is_obsolete
  unfolding mix
  mix-obsolete w = bind-obsolete (io.update_members w.net) _ w (mix_with-obsolete)

  mix_bind :
      (now : ℕ) (m : Result (Unit {0}) × Mixer S Model)
      → m.1.is_obsolete ≡ false
      → catch_all (bind_result (bind_result m (λ _. pure true)) (refresh_if_obsolete)) ≡ catch_all m
  unfolding refresh_if_obsolete
  mix_bind now (ok u, w) e = rw e refl
  mix_bind now (throw x, w) e = refl

  round_due :
      (now : ℕ) (w : Mixer S Model) (s : S)
      → due now w ≡ true
      → io.try_lock w.net ≡ (ok true, s)
      → w.is_obsolete ≡ false
      → stabilizer_round now w
        ≡ release_lock
            (catch_all (mix io driver config (record w { counter = 0; ticktime = now; net = s })))
  unfolding stabilizer_round mix_if_due mix_locked
  round_due now w s d l o =
      rw (d, l)
        (ap release_lock (
          mix_bind now (mix io driver config (record w { counter = 0; ticktime = now; net = s }))
            (mix-obsolete (record w { counter = 0; ticktime = now; net = s }) ∙ o)))

  -- A mixer that is up to date and whose counter was zero has seen as many updates as the positive
  -- threshold or more, and fewer than an unsigned int counts: whatever the times of the updates
  -- were, the next round that gets the lock resets the counter, notes the time, mixes, and
  -- releases the lock whether or not the mix throws.
  pub updates-mix :
      (times : List ℕ) (now : ℕ) (w : Mixer S Model) (s : S)
      → w.counter ≡ 0
      → 0 < config.count_threshold
      → config.count_threshold ≤ length times
      → length times < word32
      → io.try_lock w.net ≡ (ok true, s)
      → w.is_obsolete ≡ false
      → stabilizer_round now (updates times w)
        ≡ release_lock
            (catch_all (mix io driver config (record w { counter = 0; ticktime = now; net = s })))
  unfolding due
  updates-mix times now w s z p k b l o =
      let count : (w.counter + length times) % word32 ≡ length times = omega arith in
      let enough : due now (record w { counter = (w.counter + length times) % word32 }) ≡ true =
        rw count (ground arith) in
      ap (stabilizer_round now) (updates_lem times w (omega arith)) ∙ round_due now _ s enough l o
