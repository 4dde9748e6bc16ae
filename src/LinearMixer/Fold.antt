-- ===== src/LinearMixer/Fold.antt =====
-- `mix` of linear_mixer.cpp: what is put to the servers.
use jubatus.Base.{
  ℕ, suc, ◌≡◌, refl, ◌∙◌, sym, subst, true, List, [], ◌∷◌, Option, none, some, arith,
}
use jubatus.Base.Comp.{null_pointer, ok, throw, ◌>>◌, pure}
use jubatus.Base.Text.{Text}
use jubatus.LinearMixer.{
  Response, failed, other, raw, Communication, Driver, Mixer, Config, mix, mix_with, mix_body,
  send_diff, collect, add_diff, remote, catch_std,
}

module _ {S Model Obj Diff : Type 0} (io : Communication S) (driver : Driver Model Obj Diff)
    (config : Config) where
  -- The objects that the usable responses hold: those without an error whose object is RAW.
  abbrev pub payloads : List Response → List Text
  payloads [] = []
  payloads (failed ∷ rs) = payloads rs
  payloads (other ∷ rs) = payloads rs
  payloads (raw b ∷ rs) = b ∷ payloads rs

  -- The difference `d` with those of the objects `bs` mixed in, in their order.
  pub data Mixed : Diff → List Text → Diff → Type 0 where
    done : (d : Diff) → Mixed d [] d
    step :
        (d d' e : Diff) (b : Text) (bs : List Text) (o : Obj)
        → driver.unpack_object b ≡ ok o
        → driver.mix_diff o d ≡ ok d'
        → Mixed d' bs e
        → Mixed d (b ∷ bs) e

  collect_raw :
      (b : Text) (rs : List Response) (d : Option Diff) (o : Obj) (d' : Diff)
      → driver.unpack_object b ≡ ok o
      → add_diff io driver config o d ≡ ok d'
      → collect io driver config (raw b ∷ rs) d ≡ collect io driver config rs (some d')
  unfolding collect
  collect_raw b rs d o d' u x = rw (u, x) refl

  collect-Mixed :
      (rs : List Response) (d e : Diff)
      → Mixed d (payloads rs) e
      → collect io driver config rs (some d) ≡ ok (some e)
  unfolding collect add_diff
  collect-Mixed [] d e (done _) = refl
  collect-Mixed (failed ∷ rs) d e m = collect-Mixed rs d e m
  collect-Mixed (other ∷ rs) d e m = collect-Mixed rs d e m
  collect-Mixed (raw b ∷ rs) d e (step _ d' _ _ _ o u x m) =
      collect_raw b rs (some d) o d' u x ∙ collect-Mixed rs d' e m

  collect-payloads :
      (rs : List Response) (b : Text) (bs : List Text) (o : Obj) (d e : Diff)
      → payloads rs ≡ b ∷ bs
      → driver.unpack_object b ≡ ok o
      → driver.convert_diff_object o ≡ ok d
      → Mixed d bs e
      → collect io driver config rs none ≡ ok (some e)
  unfolding collect add_diff
  collect-payloads [] b bs o d e p u c m = absurd (ground arith)
  collect-payloads (failed ∷ rs) b bs o d e p u c m = collect-payloads rs b bs o d e p u c m
  collect-payloads (other ∷ rs) b bs o d e p u c m = collect-payloads rs b bs o d e p u c m
  collect-payloads (raw x ∷ rs) b bs o d e p u c m =
      let head : x ≡ b = ground arith in
      let tail : payloads rs ≡ bs = ground arith in
      let here : driver.unpack_object x ≡ ok o = rw head u in
      collect_raw x rs none o d here c
      ∙ collect-Mixed rs d e (subst (λ l. Mixed d l e) (sym tail) m)

  collect-none :
      (rs : List Response) → payloads rs ≡ [] → collect io driver config rs none ≡ ok none
  unfolding collect
  collect-none [] p = refl
  collect-none (failed ∷ rs) p = collect-none rs p
  collect-none (other ∷ rs) p = collect-none rs p
  collect-none (raw b ∷ rs) p = absurd (ground arith)

  module _ (w : Mixer S Model) (n : ℕ) (s s' : S) (rs : List Response) where
    -- The listing of the servers succeeds and is not empty, there is something to mix, and the call of
    -- `get_diff` returns the responses.
    abbrev pub Gathered : Type 0
    Gathered =
        (io.update_members w.net ≡ (ok (suc n), s))
        × (driver.mixable w.model ≡ true)
        × (io.get_diff s ≡ (ok rs, s'))

    mix_gathered :
        Gathered
        → mix io driver config w
          ≡ catch_std (
              send_diff io driver config (collect io driver config rs none) (record w { net = s' }))
    unfolding mix mix_with mix_body
    mix_gathered g = rw (g.0, g.1, g.2) refl

    -- When the listing of the servers is not empty, the driver has a linear mixable, `get_diff`
    -- returns responses of which one or more are usable, and their objects can be unpacked and
    -- mixed: `mix` puts one difference to the servers, the first usable response converted, with
    -- those after it mixed in one by one, in the order of the responses; responses with an error
    -- or without a RAW object are passed over. An exception of the put is caught, and nothing of
    -- the mixer itself changes.
    pub mix_puts :
        (b : Text) (bs : List Text) (o : Obj) (d e : Diff)
        → Gathered
        → payloads rs ≡ b ∷ bs
        → driver.unpack_object b ≡ ok o
        → driver.convert_diff_object o ≡ ok d
        → Mixed d bs e
        → mix io driver config w
          ≡ catch_std (
              (remote io driver config (io.put_diff (driver.convert_binary e)) >> pure tt)
                (record w { net = s' }))
    unfolding send_diff
    mix_puts b bs o d e g p u c m =
        mix_gathered g ∙ rw (collect-payloads rs b bs o d e p u c m) refl

    -- When none of the responses that `get_diff` returned is usable, `mix` uses a null pointer: it
    -- does not return, and no handler of its catches that. Nothing is put.
    pub mix_null :
        Gathered
        → payloads rs ≡ []
        → mix io driver config w ≡ (throw null_pointer, record w { net = s' })
    unfolding send_diff
    mix_null g p = mix_gathered g ∙ rw (collect-none rs p) refl
