-- ===== src/LinearMixer/Stranded.antt =====
-- `update_model` of linear_mixer.cpp when the change of the active list fails.
use jubatus.Base.{ℕ, ◌≡◌, ◌∙◌, refl, Bool, true, false, [], Bool-cases, inl, inr, arith}
use jubatus.Base.Comp.{Error, Result, ok, throw, bind_result}
use jubatus.Base.Text.{Text}
use jubatus.LinearMixer.{
  Communication, Driver, Mixer, Config, put_diff, put_object, apply_diff, finish_put, change_active,
  update_model, take_model, remote,
}
use jubatus.LinearMixer.Active.{ActiveList}

module _ {S Model Obj Diff : Type 0} (io : Communication S) (driver : Driver Model Obj Diff)
    (config : Config) (listing : ActiveList io) where
  open listing use {active}

  -- If the mixer is not obsolete after the call, the active list is as before it.
  abbrev Calm : Mixer S Model → Result ℕ × Mixer S Model → Type 0
  Calm w r = r.1.is_obsolete ≡ false → active r.1.net ≡ active w.net

  removed-Calm :
      (now : ℕ) (w : Mixer S Model) (r : Result (Unit {0}) × S)
      → ((e : Error) → r.0 ≡ throw e → active r.1 ≡ active w.net)
      → Calm w (
          bind_result {B = ℕ}
            (r.0, record w { net = r.1 })
            (λ _ w'. (ok 0, record w' { is_obsolete = true; counter = 0; ticktime = now })))
  removed-Calm now w (ok u, s) kept h = absurd (ground arith)
  removed-Calm now w (throw e, s) kept h = kept e refl

  finish_put-Calm :
      (now : ℕ) (accepted : Bool) (w : Mixer S Model)
      → w.is_obsolete ≡ false
      → Calm w (finish_put io driver config now accepted w)
  unfolding finish_put change_active
  finish_put-Calm now true w e = rw e (λ _. refl)
  finish_put-Calm now false w e = rw e (
      removed-Calm now (record w { is_obsolete = false }) (io.unregister_active_list w.net)
        (listing.unregister_throw w.net))

  apply-Calm :
      (now : ℕ) (w : Mixer S Model) (r : Result Bool) (model : Model)
      → w.is_obsolete ≡ false
      → Calm w (bind_result (r, record w { model = model }) (finish_put io driver config now))
  apply-Calm now w (ok accepted) model e =
      finish_put-Calm now accepted (record w { model = model }) e
  apply-Calm now w (throw x) model e = λ _. refl

  apply_diff-Calm :
      (now : ℕ) (d : Result Diff) (w : Mixer S Model)
      → w.is_obsolete ≡ false
      → Calm w (apply_diff io driver config now d w)
  unfolding apply_diff
  apply_diff-Calm now (throw x) w e = λ _. refl
  apply_diff-Calm now (ok d) w e =
      apply-Calm now w (driver.put_diff d w.model).0 (driver.put_diff d w.model).1 e

  put_object-Calm :
      (now : ℕ) (o : Result Obj) (w : Mixer S Model)
      → w.is_obsolete ≡ false
      → Calm w (put_object io driver config now o w)
  unfolding put_object
  put_object-Calm now (throw x) w e = λ _. refl
  put_object-Calm now (ok o) w e = elim (Bool-cases (driver.mixable w.model)) [
    | inl yes_mixable ↦ rw yes_mixable (apply_diff-Calm now (driver.convert_diff_object o) w e)
    | inr not_mixable ↦ rw not_mixable (λ _. refl)
  ]

  module _ (w : Mixer S Model) (v : ℕ) (s : S) (e : Error) where
    update_model_alone :
        io.get_model w.net ≡ (ok (v, []), s)
        → update_model io driver config w
          ≡ remote io driver config io.register_active_list
              (record w { is_obsolete = false; net = s })
    unfolding update_model take_model
    update_model_alone g = rw g refl

    -- `update_model` marks the model as up to date before it registers the server. When no other server
    -- has a model and the registration throws, the mixer is not obsolete although the server is not on
    -- the active list, and a later `put_diff` does not repair it: as long as the mixer stays up to
    -- date, the server stays off the list.
    pub update_model_strands :
        (now : ℕ) (bytes : Text)
        → io.get_model w.net ≡ (ok (v, []), s)
        → (io.register_active_list s).0 ≡ throw e
        → active s ≡ false
        → let r = update_model io driver config w in
          let p = put_diff io driver config now bytes r.1 in
          (r.0 ≡ throw e)
          × (r.1.is_obsolete ≡ false)
          × (active r.1.net ≡ false)
          × (p.1.is_obsolete ≡ false → active p.1.net ≡ false)
    unfolding put_diff
    update_model_strands now bytes g t off =
        let off' = listing.register_throw s e t ∙ off in
        rw (update_model_alone g) (
          t,
          refl,
          off',
          λ h.
              put_object-Calm now (driver.unpack_object bytes)
                (remote io driver config io.register_active_list
                  (record w { is_obsolete = false; net = s })).1
                refl h
              ∙ off',
        )
