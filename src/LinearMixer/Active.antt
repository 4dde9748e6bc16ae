-- ===== src/LinearMixer/Active.antt =====
-- `put_diff` and `update_model` of linear_mixer.cpp: the active list against `is_obsolete_`.
use jubatus.Base.{ℕ, ◌≡◌, refl, Bool, true, false, not, Bool-cases, inl, inr, ◌⊎◌, arith}
use jubatus.Base.Comp.{Error, config_not_set, Result, ok, throw, bind_result, Result-cases}
use jubatus.Base.Text.{Text}
use jubatus.LinearMixer.{
  Communication, Driver, Mixer, Config, put_diff, put_object, apply_diff, finish_put, change_active,
}

-- What the mixer relies on of the active list: a call that returns has set or removed this server's entry,
-- and one that throws has left it.
pub record ActiveList {S : Type 0} (io : Communication S) : Type 0 where
  pub active : S → Bool
  pub register_ok :
      (s : S) → (io.register_active_list s).0 ≡ ok tt → active (io.register_active_list s).1 ≡ true
  pub register_throw :
      (s : S) (e : Error)
      → (io.register_active_list s).0 ≡ throw e
      → active (io.register_active_list s).1 ≡ active s
  pub unregister_ok :
      (s : S)
      → (io.unregister_active_list s).0 ≡ ok tt
      → active (io.unregister_active_list s).1 ≡ false
  pub unregister_throw :
      (s : S) (e : Error)
      → (io.unregister_active_list s).0 ≡ throw e
      → active (io.unregister_active_list s).1 ≡ active s

module _ {S Model Obj Diff : Type 0} (io : Communication S) (driver : Driver Model Obj Diff)
    (config : Config) (listing : ActiveList io) where
  open listing use {active}

  -- The server is on the active list exactly when its model is not obsolete.
  abbrev pub Agrees : Mixer S Model → Type 0
  Agrees w = active w.net ≡ not w.is_obsolete

  -- A change of the list that asks for `accepted` has made it so, or has thrown and changed nothing.
  abbrev Changed : Bool → Mixer S Model → Result (Unit {0}) × Mixer S Model → Type 0
  Changed accepted w r =
      (r.1.is_obsolete ≡ w.is_obsolete)
      × (((r.0 ≡ ok tt) × (active r.1.net ≡ accepted))
          ⊎ ((e : Error) × (r.0 ≡ throw e) × (active r.1.net ≡ active w.net)))

  change_active-Changed :
      (accepted obsolete : Bool) (w : Mixer S Model)
      → active w.net ≡ not obsolete
      → Changed accepted w (change_active io driver config accepted obsolete w)
  unfolding change_active
  change_active-Changed true true w a = (
    refl,
    elim (Result-cases (io.register_active_list w.net).0) [
      | inl r ↦ inl (r.1, listing.register_ok w.net r.1)
      | inr r ↦ inr (r.0, r.1, listing.register_throw w.net r.0 r.1)
    ],
  )
  change_active-Changed true false w a = (refl, inl (refl, a))
  change_active-Changed false true w a = (refl, inl (refl, a))
  change_active-Changed false false w a = (
    refl,
    elim (Result-cases (io.unregister_active_list w.net).0) [
      | inl r ↦ inl (r.1, listing.unregister_ok w.net r.1)
      | inr r ↦ inr (r.0, r.1, listing.unregister_throw w.net r.0 r.1)
    ],
  )

  -- What `put_diff` leaves of the mixer that it is called on: it throws and the list is as before, or it
  -- returns, is on the list exactly when not obsolete, and has reset its counter.
  abbrev pub Settled : ℕ → Mixer S Model → Result ℕ × Mixer S Model → Type 0
  Settled now w r =
      ((e : Error) × (r.0 ≡ throw e)
        × (active r.1.net ≡ active w.net)
        × (r.1.is_obsolete ≡ w.is_obsolete))
      ⊎ ((r.0 ≡ ok 0) × Agrees r.1 × (r.1.counter ≡ 0) × (r.1.ticktime ≡ now))

  finish_Settled :
      (now : ℕ) (accepted : Bool) (w : Mixer S Model) (r : Result (Unit {0}) × Mixer S Model)
      → Changed accepted w r
      → Settled now w (
          bind_result r
            (λ _ w'. (ok 0, record w' { is_obsolete = not accepted; counter = 0; ticktime = now })))
  finish_Settled now true w (ok u, w') (k, inl c) = inr (refl, c.1, refl, refl)
  finish_Settled now false w (ok u, w') (k, inl c) = inr (refl, c.1, refl, refl)
  finish_Settled now accepted w (ok u, w') (k, inr c) = absurd (ground (arith, c.1))
  finish_Settled now accepted w (throw e, w') (k, inl c) = absurd (ground (arith, c.0))
  finish_Settled now accepted w (throw e, w') (k, inr c) = inl (e, refl, c.2, k)

  finish_put-Settled :
      (now : ℕ) (accepted : Bool) (w : Mixer S Model)
      → Agrees w
      → Settled now w (finish_put io driver config now accepted w)
  unfolding finish_put
  finish_put-Settled now accepted w a =
      finish_Settled now accepted w _ (change_active-Changed accepted w.is_obsolete w a)

  apply_Settled :
      (now : ℕ) (w : Mixer S Model) (r : Result Bool) (model : Model)
      → Agrees w
      → Settled now w
          (bind_result (r, record w { model = model }) (finish_put io driver config now))
  apply_Settled now w (ok accepted) model a =
      finish_put-Settled now accepted (record w { model = model }) a
  apply_Settled now w (throw e) model a = inl (e, refl, refl, refl)

  apply_diff-Settled :
      (now : ℕ) (d : Result Diff) (w : Mixer S Model)
      → Agrees w
      → Settled now w (apply_diff io driver config now d w)
  unfolding apply_diff
  apply_diff-Settled now (throw e) w a = inl (e, refl, refl, refl)
  apply_diff-Settled now (ok d) w a =
      apply_Settled now w (driver.put_diff d w.model).0 (driver.put_diff d w.model).1 a

  put_object-Settled :
      (now : ℕ) (o : Result Obj) (w : Mixer S Model)
      → Agrees w
      → Settled now w (put_object io driver config now o w)
  unfolding put_object
  put_object-Settled now (throw e) w a = inl (e, refl, refl, refl)
  put_object-Settled now (ok o) w a = elim (Bool-cases (driver.mixable w.model)) [
    | inl yes_mixable ↦ rw yes_mixable (apply_diff-Settled now (driver.convert_diff_object o) w a)
    | inr not_mixable ↦ rw not_mixable (inl (config_not_set, refl, refl, refl))
  ]

  -- When the active list agrees with the mixer, `put_diff` either returns, and then they agree again,
  -- the counter is reset and the time noted, or throws, and then the list and the mixer's view of it are as
  -- they were. The throwing calls include those in which the change of the list itself fails.
  pub put_diff_lem :
      (now : ℕ) (bytes : Text) (w : Mixer S Model)
      → Agrees w
      → Settled now w (put_diff io driver config now bytes w)
  unfolding put_diff
  put_diff_lem now bytes w a = put_object-Settled now (driver.unpack_object bytes) w a
