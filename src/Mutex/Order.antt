-- ===== src/Mutex/Order.antt =====
-- The comparison of the names of sequence nodes decides the order of their numbers, whatever
-- memory lies behind the names.
use jubatus.Base.{
  ℕ, zero, suc, ◌+◌, ◌-◌, ◌*◌, ◌≡◌, ◌<◌, refl, sym, ap, ◌∙◌, Bool, true, false, List, [], ◌∷◌, ◌++◌,
  map, length, take, drop, drop-append, length-append, Bool-cases, inl, inr, ◌&&◌, if◌then◌else◌,
  ltb, arith,
}
use jubatus.Base.Text.{Text, text_lt, AllDigits, digits_value}
use jubatus.Mutex.{entry_key, beaten, beaten_by_writer, wlock, rlock}
use mathlib.Core.List.{append_assoc}

-- A larger value of the digits read so far stays larger.
digits_value-lt :
    (a b : ℕ) (s t : Text)
    → AllDigits s
    → AllDigits t
    → length s ≡ length t
    → a < b
    → digits_value a s < digits_value b t
unfolding digits_value
digits_value-lt a b [] [] hs ht e h = h
digits_value-lt a b [] (y ∷ t) hs ht e h = absurd (omega arith)
digits_value-lt a b (x ∷ s) [] hs ht e h = absurd (omega arith)
digits_value-lt a b (x ∷ s) (y ∷ t) hs ht e h =
    ground (arith, digits_value-lt (a * 10 + (x - b'0')) (b * 10 + (y - b'0')) s t hs.1 ht.1)

text_lt-digits_value :
    (a : ℕ) (s t : Text)
    → AllDigits s
    → AllDigits t
    → length s ≡ length t
    → text_lt s t ≡ ltb (digits_value a s) (digits_value a t)
unfolding digits_value text_lt
text_lt-digits_value a [] [] hs ht e = ground arith
text_lt-digits_value a [] (y ∷ t) hs ht e = absurd (omega arith)
text_lt-digits_value a (x ∷ s) [] hs ht e = absurd (omega arith)
text_lt-digits_value a (x ∷ s) (y ∷ t) hs ht e = ground (
  arith,
  text_lt-digits_value (a * 10 + (x - b'0')) s t hs.1 ht.1,
  digits_value-lt (a * 10 + (x - b'0')) (a * 10 + (y - b'0')) s t hs.1 ht.1,
  digits_value-lt (a * 10 + (y - b'0')) (a * 10 + (x - b'0')) t s ht.1 hs.1,
)

text_lt-append : (s t z : Text) → length s ≡ length t → text_lt (s ++ z) t ≡ text_lt s t
unfolding text_lt
text_lt-append [] [] [] e = refl
text_lt-append [] [] (c ∷ z) e = refl
text_lt-append [] (y ∷ t) z e = absurd (omega arith)
text_lt-append (x ∷ s) [] z e = absurd (omega arith)
text_lt-append (x ∷ s) (y ∷ t) z e = ground (arith, text_lt-append s t z)

take-append_add : (d z : Text) (n k : ℕ) → n ≡ length d + k → take n (d ++ z) ≡ d ++ take k z
take-append_add [] z n k e = let e' : n ≡ k = omega arith in rw e'
take-append_add (x ∷ d) z zero k e = absurd (omega arith)
take-append_add (x ∷ d) z (suc n) k e = ap (◌∷◌ x) (take-append_add d z n k (omega arith))

regroup : (p t d z : Text) → (p ++ (b'/' ∷ (t ++ d))) ++ z ≡ (p ++ (b'/' ∷ t)) ++ (d ++ z)
regroup p t d z = simp append_assoc

pub data Kind : Type 0 where
  write read : Kind

pub data Stage : Type 0 where
  created losing holding : Stage

-- A lock node in the directory, with what the `try_lock` that made it has come to.
pub record Attempt : Type 0 where
  pub kind : Kind
  pub number : ℕ
  pub stage : Stage

abbrev pub tag : Kind → Text
tag write = wlock
tag read = rlock

abbrev pub any_less : ℕ → List Attempt → Bool
any_less n [] = false
any_less n (e ∷ es) = if ltb e.number n then true else any_less n es

abbrev pub is_write : Kind → Bool
is_write write = true
is_write read = false

abbrev pub any_write_less : ℕ → List Attempt → Bool
any_write_less n [] = false
any_write_less n (e ∷ es) = if is_write e.kind && ltb e.number n then true else any_write_less n es

abbrev pub Within : ℕ → List Attempt → Type 0
Within limit [] = Unit {0}
Within limit (e ∷ es) = (e.number < limit) × Within limit es

-- `starts_with` of jubatus_util.
pub record StartsWith (starts_with : Text → Text → Bool) : Type 0 where
  pub hit : (p s : Text) → starts_with (p ++ s) p ≡ true
  pub only : (p s : Text) → starts_with s p ≡ true → (t : Text) × (s ≡ p ++ t)

-- ZooKeeper's names of sequence nodes end in ten decimal digits, below the overflow of the counter.
pub record Sequence (limit : ℕ) (pad : ℕ → Text) : Type 0 where
  pub digits : (n : ℕ) → n < limit → AllDigits (pad n)
  pub width : (n : ℕ) → n < limit → length (pad n) ≡ 10
  pub value : (n : ℕ) → n < limit → digits_value 0 (pad n) ≡ n

module _ (limit : ℕ) (pad : ℕ → Text) (q : Sequence limit pad) (junk path : Text) where
  entry_key-pad :
      (n : ℕ)
      → n < limit
      → (t : Text)
      → entry_key junk path (length (path ++ (b'/' ∷ t))) (t ++ pad n) ≡ pad n ++ take 6 (0 ∷ junk)
  unfolding entry_key
  entry_key-pad n h t =
      rw
        (
          regroup path t (pad n) (0 ∷ junk),
          take-append_add prefix (pad n ++ (0 ∷ junk)) (length prefix + 16) 16 refl,
          drop-append prefix (take 16 (pad n ++ (0 ∷ junk))),
        )
        (take-append_add (pad n) (0 ∷ junk) 16 6 (omega (arith, q.width n h)))
    where
      prefix : Text
      prefix = path ++ (b'/' ∷ t)

  pad_lt :
      (m n : ℕ) → m < limit → n < limit → text_lt (pad m ++ take 6 (0 ∷ junk)) (pad n) ≡ ltb m n
  pad_lt m n hm hn =
      text_lt-append (pad m) (pad n) _ (q.width m hm ∙ sym (q.width n hn))
      ∙ text_lt-digits_value 0 (pad m) (pad n) (q.digits m hm) (q.digits n hn)
          (q.width m hm ∙ sym (q.width n hn))
      ∙ rw (q.value m hm, q.value n hn)

  prefix_length : (k : Kind) → length (path ++ (b'/' ∷ wlock)) ≡ length (path ++ (b'/' ∷ tag k))
  prefix_length write = refl
  prefix_length read = length-append path (b'/' ∷ wlock) ∙ sym (length-append path (b'/' ∷ rlock))

  abbrev pub seqfile : Kind → ℕ → Text
  seqfile k n = (path ++ (b'/' ∷ tag k)) ++ pad n

  abbrev pub name_of : Attempt → Text
  name_of e = tag e.kind ++ pad e.number

  -- One comparison of `try_lock` and `try_rlock`, for my node's kind `l` and number `n`.
  compare_lem :
      (l : Kind) (n : ℕ) (e : Attempt)
      → n < limit
      → e.number < limit
      → text_lt
          (entry_key junk path (length (path ++ (b'/' ∷ tag l))) (name_of e))
          (drop (length (path ++ (b'/' ∷ tag l))) (seqfile l n))
        ≡ ltb e.number n
  compare_lem l n e hn he =
      rw
        (
          drop-append (path ++ (b'/' ∷ tag l)) (pad n),
          sym (prefix_length l) ∙ prefix_length e.kind,
          entry_key-pad e.number he (tag e.kind),
        )
        (pad_lt e.number n he hn)

  pub beaten-any_less :
      (n : ℕ) (es : List Attempt)
      → n < limit
      → Within limit es
      → beaten junk path (length (path ++ (b'/' ∷ wlock))) (seqfile write n) (map name_of es)
        ≡ any_less n es
  unfolding beaten
  beaten-any_less n [] hn h = refl
  beaten-any_less n (e ∷ es) hn h = rw (compare_lem write n e hn h.0, beaten-any_less n es hn h.1)

  module _ (starts_with : Text → Text → Bool) (sw : StartsWith starts_with) where
    starts_with-tag : (k : Kind) (s : Text) → starts_with (tag k ++ s) wlock ≡ is_write k
    starts_with-tag write s = sw.hit wlock s
    starts_with-tag read s = elim (Bool-cases (starts_with (rlock ++ s) wlock)) [
      | inl e ↦ let (t, p) = sw.only wlock (rlock ++ s) e in absurd (ground arith)
      | inr e ↦ e
    ]

    pub beaten_by_writer-any_write_less :
        (n : ℕ) (es : List Attempt)
        → n < limit
        → Within limit es
        → beaten_by_writer starts_with junk path
            (length (path ++ (b'/' ∷ rlock)))
            (seqfile read n)
            (map name_of es)
          ≡ any_write_less n es
    unfolding beaten_by_writer
    beaten_by_writer-any_write_less n [] hn h = refl
    beaten_by_writer-any_write_less n (e ∷ es) hn h = rw (
      starts_with-tag e.kind (pad e.number),
      compare_lem read n e hn h.0,
      beaten_by_writer-any_write_less n es hn h.1,
    )
