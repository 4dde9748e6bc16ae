-- ===== src/Mutex/System/Exclusion.antt =====
-- At most one process holds a write lock, and then none holds a read lock.
use jubatus.Base.{
  ℕ, ◌≡◌, ◌≤◌, ◌<◌, refl, sym, subst, Bool, false, List, [], ◌∷◌, Mem, ◌==◌, arith, Bool-cases, inl,
  inr, ◌∙◌,
}
use jubatus.Base.Text.{Text}
use jubatus.Mutex.Order.{
  Attempt, Kind, write, read, Stage, created, losing, holding, Within, Sequence, StartsWith,
  any_less, any_write_less, beaten-any_less, beaten_by_writer-any_write_less,
}
use jubatus.Mutex.System.{
  Directory, remove, is_beaten, verdict, judge_at, Step, create, judge, vanish, Reach, start, step,
}
use mathlib.Core.HLevel.{⊥_prop}
use mathlib.Core.List.{not-mem-nil, mem-cons}
use mathlib.Core.Logic.Or
use native.Mathlib.Nat.{ℕ_set}

module _ (limit : ℕ) (pad : ℕ → Text) (q : Sequence limit pad) (junk path : Text)
    (starts_with : Text → Text → Bool) (sw : StartsWith starts_with) where
  abbrev beats : List Attempt → Kind → ℕ → Bool
  beats = is_beaten limit pad q junk path starts_with sw

  abbrev rejudge : ℕ → List Attempt → List Attempt → List Attempt
  rejudge = judge_at limit pad q junk path starts_with sw

  -- What a holder's place in the directory allows before it.
  abbrev Clear : Kind → List Attempt → Type 0
  Clear write es = es ≡ []
  Clear read es = any_write_less limit es ≡ false

  abbrev Holds : Stage → Kind → List Attempt → Type 0
  Holds holding k es = Clear k es
  Holds _ k es = Unit {0}

  -- Numbers fall along the list, and every holder's place is clear.
  abbrev Ordered : ℕ → List Attempt → Type 0
  Ordered bound [] = Unit {0}
  Ordered bound (e ∷ es) = (e.number < bound) × Holds e.stage e.kind es × Ordered e.number es

  Ordered-Within : (b : ℕ) (es : List Attempt) → b ≤ limit → Ordered b es → Within limit es
  Ordered-Within b [] h o = tt
  Ordered-Within b (e ∷ es) h o = (omega arith, Ordered-Within e.number es (omega arith) o.2)

  any_less-Ordered : (n : ℕ) (es : List Attempt) → Ordered n es → any_less n es ≡ false → es ≡ []
  any_less-Ordered n [] o h = refl
  any_less-Ordered n (e ∷ es) o h = ground arith

  any_write_less-Ordered :
      (n b : ℕ) (es : List Attempt)
      → Ordered b es
      → b ≤ n
      → n ≤ limit
      → any_write_less n es ≡ any_write_less limit es
  any_write_less-Ordered n b [] o h l = refl
  any_write_less-Ordered n b (e ∷ es) o h l =
      ground (arith, any_write_less-Ordered n e.number es o.2)

  -- A suffix of the listing that is known to hold no smaller number.
  abbrev Unbeaten : Kind → ℕ → List Attempt → Type 0
  Unbeaten write n es = any_less n es ≡ false
  Unbeaten read n es = any_write_less n es ≡ false

  Unbeaten-Clear :
      (k : Kind) (n : ℕ) (es : List Attempt)
      → n ≤ limit
      → Ordered n es
      → Unbeaten k n es
      → Clear k es
  Unbeaten-Clear write n es l o u = any_less-Ordered n es o u
  Unbeaten-Clear read n es l o u = sym (any_write_less-Ordered n n es o (omega arith) l) ∙ u

  is_beaten-Unbeaten :
      (k : Kind) (n : ℕ) (es : List Attempt)
      → n < limit
      → Within limit es
      → beats es k n ≡ false
      → Unbeaten k n es
  unfolding is_beaten
  is_beaten-Unbeaten write n es l w h = sym (beaten-any_less limit pad q junk path n es l w) ∙ h
  is_beaten-Unbeaten read n es l w h =
      sym (beaten_by_writer-any_write_less limit pad q junk path starts_with sw n es l w) ∙ h

  Unbeaten-tail :
      (k : Kind) (n : ℕ) (e : Attempt) (es : List Attempt) → Unbeaten k n (e ∷ es) → Unbeaten k n es
  Unbeaten-tail write n e es u = ground arith
  Unbeaten-tail read n e es u = ground arith

  verdict-Holds :
      (whole : List Attempt) (e : Attempt) (st : Stage) (es : List Attempt)
      → (beats whole e.kind e.number ≡ false → Clear e.kind es)
      → Holds st e.kind es
      → Holds (verdict limit pad q junk path starts_with sw whole e st) e.kind es
  unfolding verdict
  verdict-Holds whole e created es c h = elim (Bool-cases (beats whole e.kind e.number)) [
    | inl lost ↦ rw lost tt
    | inr won ↦ rw won (c won)
  ]
  verdict-Holds whole e losing es c h = h
  verdict-Holds whole e holding es c h = h

  -- Judging a node changes no number and no kind.
  any_write_less-rejudge :
      (b n : ℕ) (whole es : List Attempt)
      → any_write_less b (rejudge n whole es) ≡ any_write_less b es
  unfolding judge_at
  any_write_less-rejudge b n whole [] = refl
  any_write_less-rejudge b n whole (e ∷ es) = ground (arith, any_write_less-rejudge b n whole es)

  rejudge-Holds :
      (st : Stage) (k : Kind) (n : ℕ) (whole es : List Attempt)
      → Holds st k es
      → Holds st k (rejudge n whole es)
  unfolding judge_at
  rejudge-Holds holding write n whole es h = rw h refl
  rejudge-Holds holding read n whole es h = any_write_less-rejudge limit n whole es ∙ h
  rejudge-Holds created k n whole es h = tt
  rejudge-Holds losing k n whole es h = tt

  remove-Holds :
      (st : Stage) (k : Kind) (n : ℕ) (es : List Attempt) → Holds st k es → Holds st k (remove n es)
  unfolding remove
  remove-Holds holding write n es h = rw h refl
  remove-Holds holding read n [] h = refl
  remove-Holds holding read n (e ∷ es) h = ground (arith, remove-Holds holding read n es)
  remove-Holds created k n es h = tt
  remove-Holds losing k n es h = tt

  Ordered-mono : (a b : ℕ) (es : List Attempt) → a ≤ b → Ordered a es → Ordered b es
  Ordered-mono a b [] h o = tt
  Ordered-mono a b (e ∷ es) h o = (omega arith, o.1, o.2)

  remove-Ordered : (n b : ℕ) (es : List Attempt) → Ordered b es → Ordered b (remove n es)
  unfolding remove
  remove-Ordered n b [] o = tt
  remove-Ordered n b (e ∷ es) o = elim (Bool-cases (e.number == n)) [
    | inl hit ↦ rw hit (Ordered-mono e.number b es (omega arith) o.2)
    | inr miss ↦
        rw miss (o.0, remove-Holds e.stage e.kind n es o.1, remove-Ordered n e.number es o.2)
  ]

  rejudge-Ordered :
      (n b : ℕ) (whole es : List Attempt)
      → b ≤ limit
      → Within limit whole
      → ((k : Kind) (m : ℕ) → Unbeaten k m whole → Unbeaten k m es)
      → Ordered b es
      → Ordered b (rejudge n whole es)
  unfolding judge_at
  rejudge-Ordered n b whole [] l w u o = tt
  rejudge-Ordered n b whole (e ∷ es) l w u o = elim (Bool-cases (e.number == n)) [
    | inl hit ↦ rw hit (o.0, verdict-Holds whole e e.stage es clear o.1, o.2)
    | inr miss ↦ rw miss (
      o.0,
      rejudge-Holds e.stage e.kind n whole es o.1,
      rejudge-Ordered n e.number whole es (omega arith) w
          (λ k m h. Unbeaten-tail k m e es (u k m h)) o.2,
    )
  ]
    where
      clear : beats whole e.kind e.number ≡ false → Clear e.kind es
      clear h = Unbeaten-Clear e.kind e.number es (omega arith) o.2 (
          Unbeaten-tail e.kind e.number e es
            (u e.kind e.number (is_beaten-Unbeaten e.kind e.number whole (omega arith) w h)))

  abbrev IsSafe : Directory → Type 0
  IsSafe d = (d.next ≤ limit) × Ordered d.next d.nodes

  Step-IsSafe :
      {d e : Directory} → Step limit pad q junk path starts_with sw d e → IsSafe d → IsSafe e
  Step-IsSafe (create k h) s = (h, (omega arith, tt, s.1))
  Step-IsSafe {d} (judge n) s = (
    s.0,
    rejudge-Ordered n d.next d.nodes d.nodes s.0 (Ordered-Within d.next d.nodes s.0 s.1)
        (λ k m h. h) s.1,
  )
  Step-IsSafe {d} (vanish n) s = (s.0, remove-Ordered n d.next d.nodes s.1)

  Reach-IsSafe : {d : Directory} → Reach limit pad q junk path starts_with sw d → IsSafe d
  Reach-IsSafe (start n h) = (h, tt)
  Reach-IsSafe (step r st) = Step-IsSafe st (Reach-IsSafe r)

  writer_is_seen :
      (b : ℕ) (e : Attempt) (es : List Attempt)
      → Ordered b es
      → b ≤ limit
      → Mem e es
      → e.kind ≡ write
      → ¬ (any_write_less limit es ≡ false)
  writer_is_seen b e [] o l m w h = not-mem-nil m
  writer_is_seen b e (x ∷ es) o l m w h =
      Or.elim ⊥_prop (mem-cons.0 m) (λ here. ground arith)
        (λ there. writer_is_seen x.number e es o.2 (omega arith) there w (ground arith))

  Holds-write :
      (st : Stage) (k : Kind) (es : List Attempt)
      → Holds st k es
      → st ≡ holding
      → k ≡ write
      → es ≡ []
  Holds-write holding write es h p r = h
  Holds-write holding read es h p r = absurd (ground arith)
  Holds-write created k es h p r = absurd (ground arith)
  Holds-write losing k es h p r = absurd (ground arith)

  Holds-clear :
      (st : Stage) (k : Kind) (es : List Attempt)
      → Holds st k es
      → st ≡ holding
      → any_write_less limit es ≡ false
  Holds-clear holding write es h p = rw h refl
  Holds-clear holding read es h p = h
  Holds-clear created k es h p = absurd (ground arith)
  Holds-clear losing k es h p = absurd (ground arith)

  Ordered-exclusive :
      (b : ℕ) (e f : Attempt) (es : List Attempt)
      → Ordered b es
      → b ≤ limit
      → Mem e es
      → Mem f es
      → e.stage ≡ holding
      → f.stage ≡ holding
      → e.kind ≡ write
      → e.number ≡ f.number
  Ordered-exclusive b e f [] o l me mf he hf w = absurd (not-mem-nil me)
  Ordered-exclusive b e f (x ∷ es) o l me mf he hf w =
      Or.elim (ℕ_set _ _) (mem-cons.0 me)
        (λ e_here.
          Or.elim (ℕ_set _ _) (mem-cons.0 mf) (λ f_here. ground arith)
            (λ f_there. absurd (
              not-mem-nil (
                subst (Mem f) (Holds-write x.stage x.kind es o.1 (ground arith) (ground arith))
                  f_there))))
        (λ e_there.
          Or.elim (ℕ_set _ _) (mem-cons.0 mf)
            (λ f_here. absurd (
              writer_is_seen x.number e es o.2 (omega arith) e_there w
                (Holds-clear x.stage x.kind es o.1 (ground arith))))
            (λ f_there.
              Ordered-exclusive x.number e f es o.2 (omega arith) e_there f_there he hf w))

  -- However the calls of any number of processes on one directory interleave, while sequence
  -- numbers stay under the limit up to which they are padded to one width: a process that holds
  -- the write lock (its node is in the directory and it found no smaller one) is the only holder
  -- of any lock, read or write.
  pub Reach-exclusive :
      {d : Directory} (e f : Attempt)
      → Reach limit pad q junk path starts_with sw d
      → Mem e d.nodes
      → Mem f d.nodes
      → e.stage ≡ holding
      → f.stage ≡ holding
      → e.kind ≡ write
      → e.number ≡ f.number
  Reach-exclusive {d} e f r me mf he hf w =
      Ordered-exclusive d.next e f d.nodes (Reach-IsSafe r).1 (Reach-IsSafe r).0 me mf he hf w
