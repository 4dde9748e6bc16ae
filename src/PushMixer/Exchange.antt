-- ===== src/PushMixer/Exchange.antt =====
-- `mix` of push_mixer.cpp: one exchange, and what a failed one leaves.
use jubatus.Base.{ℕ, suc, ◌+◌, ◌%◌, ◌≡◌, refl, ◌∙◌, ap, sym, subst, true, false, List, [], ◌∷◌}
use jubatus.Base.Comp.{Result, ok, Comp, bind_result}
use jubatus.Base.Text.{Text}
use jubatus.PushMixer.{
  Server, Object, raw, Response, answer, Communication, Mixable, Mixer, any_error, exchange,
  exchange_all, mix, mix_peers, remote, checked, pull, push, unpacked, front, get_pull_argument,
  after_rounds, become_active,
}

module _ {S Model Obj : Type 0} (io : Communication S) (mixable : Mixable Model Obj) where
  -- A call that has answered with the object, without an error.
  abbrev pub Answered : Result (List Response) × S → Object → S → Type 0
  Answered r o s = (rs : List Response) × (r ≡ (ok (answer o ∷ rs), s)) × (any_error rs ≡ false)

  -- A call whose responses have an error.
  abbrev pub Refused : Result (List Response) × S → S → Type 0
  Refused r s = (rs : List Response) × (r ≡ (ok rs, s)) × (any_error rs ≡ true)

  checked_answered :
      (rs : List Response) (o : Object) (next : Object → Comp (Mixer S Model) (Unit {0}))
      (w : Mixer S Model)
      → any_error rs ≡ false
      → checked io mixable (answer o ∷ rs) next w ≡ next o w
  unfolding checked any_error front
  checked_answered rs o next w e = rw e refl

  checked_refused :
      (rs : List Response) (next : Object → Comp (Mixer S Model) (Unit {0})) (w : Mixer S Model)
      → any_error rs ≡ true
      → checked io mixable rs next w ≡ (ok tt, w)
  unfolding checked
  checked_refused rs next w e = rw e refl

  call-Answered :
      (m : Comp S (List Response)) (w : Mixer S Model) (o : Object) (s : S)
      (next : Object → Comp (Mixer S Model) (Unit {0}))
      → Answered (m w.net) o s
      → bind_result (remote io mixable m w) (λ rs. checked io mixable rs next)
        ≡ next o (record w { net = s })
  call-Answered m w o s next (rs, e, none_failed) =
      rw e (checked_answered rs o next (record w { net = s }) none_failed)

  call-Refused :
      (m : Comp S (List Response)) (w : Mixer S Model) (s : S)
      (next : Object → Comp (Mixer S Model) (Unit {0}))
      → Refused (m w.net) s
      → bind_result (remote io mixable m w) (λ rs. checked io mixable rs next)
        ≡ (ok tt, record w { net = s })
  call-Refused m w s next (rs, e, one_failed) =
      rw e (checked_refused rs next (record w { net = s }) one_failed)

  module _ (now : ℕ) (she : Server) (w : Mixer S Model) where
    abbrev pub own_argument : Text
    own_argument = mixable.get_argument w.model

    -- An exchange one of whose calls answers with an error ends there: the loop goes on with the next
    -- candidate, and the own model and the counter are as before, also when it is her push that failed.
    pub exchange-Refused :
        (s₁ s₂ s₃ : S) (her_diff : Object) (her_args : Text) (arg : Obj)
        → (Refused (io.pull she own_argument w.net) s₁
            → exchange io mixable now she w ≡ (ok tt, record w { net = s₁ }))
          × (Answered (io.pull she own_argument w.net) her_diff s₁
              → Refused (io.get_pull_argument she s₁) s₂
              → exchange io mixable now she w ≡ (ok tt, record w { net = s₂ }))
          × (Answered (io.pull she own_argument w.net) her_diff s₁
              → Answered (io.get_pull_argument she s₁) (raw her_args) s₂
              → mixable.unpack_object her_args ≡ ok arg
              → Refused (io.push she (mixable.pull_diff arg w.model) s₂) s₃
              → exchange io mixable now she w ≡ (ok tt, record w { net = s₃ }))
    unfolding exchange pull unpacked get_pull_argument
    exchange-Refused s₁ s₂ s₃ her_diff her_args arg = (
      λ r. call-Refused (io.pull she own_argument) w s₁ _ r,
      λ a r.
          call-Answered (io.pull she own_argument) w her_diff s₁ _ a
          ∙ call-Refused (io.get_pull_argument she) (record w { net = s₁ }) s₂ _ r,
      λ a b u r.
          call-Answered (io.pull she own_argument) w her_diff s₁ _ a
          ∙ call-Answered (io.get_pull_argument she) (record w { net = s₁ }) (raw her_args) s₂ _ b
          ∙ rw u (
              call-Refused (io.push she (mixable.pull_diff arg w.model)) (record w { net = s₂ }) s₃
                _ r),
    )

  exchange_first :
      (now : ℕ) (she : Server) (w : Mixer S Model) (s : S)
      → Refused (io.pull she (mixable.get_argument w.model) w.net) s
      → exchange io mixable now she w ≡ (ok tt, record w { net = s })
  unfolding exchange get_pull_argument
  exchange_first now she w s r = call-Refused (io.pull she (mixable.get_argument w.model)) w s _ r

  -- Every peer answers a pull with an error.
  abbrev pub AllRefuse : Type 0
  AllRefuse = (she : Server) (arg : Text) (s : S) → (s' : S) × Refused (io.pull she arg s) s'

  exchange_all_refused :
      (now : ℕ) (cs : List Server) (w : Mixer S Model)
      → AllRefuse
      → (s : S) × (exchange_all io mixable now cs w ≡ (ok tt, record w { net = s }))
  unfolding exchange_all
  exchange_all_refused now [] w refuse = (w.net, refl)
  exchange_all_refused now (she ∷ cs) w refuse =
      let r = refuse she (mixable.get_argument w.model) w.net in
      let rest = exchange_all_refused now cs (record w { net = r.0 }) refuse in
      (
        rest.0,
        ap (λ x. bind_result x (λ _. exchange_all io mixable now cs))
              (exchange_first now she w r.0 r.1)
            ∙ rest.1,
      )

  mix_rounds :
      (now n : ℕ) (filter_candidates : List Server → List Server) (w : Mixer S Model) (s : S)
      → io.update_members w.net ≡ (suc n, s)
      → mix io mixable now filter_candidates w
        ≡ after_rounds io mixable (
            exchange_all io mixable now
              (filter_candidates (io.servers_list s))
              (record w { net = s }))
  unfolding mix mix_peers
  mix_rounds now n filter_candidates w s e = rw e refl

  -- What an obsolete mixer has become, without a change of its model.
  abbrev pub Joined : Mixer S Model → Result (Unit {0}) × Mixer S Model → Type 0
  Joined w r =
      (r.0 ≡ ok tt)
      × (r.1.is_obsolete ≡ false)
      × (r.1.model ≡ w.model)
      × (r.1.mix_count ≡ (w.mix_count + 1) % 0x100000000)

  after_rounds-Joined :
      (w : Mixer S Model) (s : S)
      → (io.register_active_list s).0 ≡ ok tt
      → w.is_obsolete ≡ true
      → Joined w (after_rounds io mixable (ok tt, record w { net = s }))
  unfolding after_rounds become_active
  after_rounds-Joined w s r o = rw (o, r) (refl, refl, refl, refl)

  -- When every peer refuses the pull, `mix` of an obsolete server with peers nevertheless returns with the
  -- server registered as active and no longer obsolete, if the registration succeeds: its model is the
  -- one it had, and nothing has been exchanged.
  pub mix_refused :
      (now n : ℕ) (filter_candidates : List Server → List Server) (w : Mixer S Model) (s : S)
      → io.update_members w.net ≡ (suc n, s)
      → AllRefuse
      → ((s' : S) → (io.register_active_list s').0 ≡ ok tt)
      → w.is_obsolete ≡ true
      → Joined w (mix io mixable now filter_candidates w)
  mix_refused now n filter_candidates w s e refuse register o =
      let rounds =
        exchange_all_refused now (filter_candidates (io.servers_list s)) (record w { net = s })
          refuse in
      subst (Joined w)
        (sym (mix_rounds now n filter_candidates w s e ∙ ap (after_rounds io mixable) rounds.1))
        (after_rounds-Joined w rounds.0 (register rounds.0) o)
