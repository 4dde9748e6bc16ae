-- ===== src/Zk/Payload.antt =====
-- `read` of zk.cpp: the payload of a node, read into a buffer as long as the payload was last seen to be. Other
-- clients may change the node between two calls.
mod Tests
use jubatus.Base.{
  ℕ, zero, suc, ◌+◌, ◌-◌, ◌≡◌, ◌≤◌, ◌<◌, ◌⊎◌, inl, inr, refl, sym, ap, ◌∙◌, Bool, true, false, List,
  [], ◌∷◌, Option, none, some, length, take, length-take, dec_lt, ◌==◌, Bool-cases, if◌then◌else◌,
  arith,
}
use jubatus.Base.Int.{ℤ, pos, negsuc}
use jubatus.Base.Text.{Text}
use jubatus.Zk.{ReturnCode, zok, znodeexists, znonode, zother}

-- `zoo_exists` with the length in its `stat`, and `zoo_get` into a buffer, with the bytes that it copies and the length in
-- its `stat`. A length is a non-negative int, or -1 for a node without data.
pub record Calls (S : Type 0) : Type 0 where
  pub zoo_exists : Text → S → (ReturnCode × ℤ) × S
  pub zoo_get : Text → ℕ → S → (ReturnCode × Text × ℤ) × S

-- How the loop ends: with the return value of `read` and `out`, or not before the fuel is used up.
pub data Read : Type 0 where
  failed : Read
  found : Text → Read
  unfinished : Read

-- `buflen == stat.dataLength`
abbrev same_length : Text → ℤ → Bool
same_length bytes (pos n) = length bytes == n
same_length bytes (negsuc n) = false

module _ {S : Type 0} (lib : Calls S) where
  -- What follows a `zoo_get`; `again` is the next round.
  settled : (ReturnCode × Text × ℤ) × S → Read × S → Read × S
  settled ((zok, bytes, size), s) again = if same_length bytes size then (found bytes, s) else again
  settled ((znodeexists, bytes, size), s) again = (failed, s)
  settled ((znonode, bytes, size), s) again = (failed, s)
  settled ((zother, bytes, size), s) again = (failed, s)

  -- The loop, with the length that was last reported.
  read_loop : ℕ → Text → ℤ → S → Read × S
  unfolding settled
  read_loop zero path size s = (unfinished, s)
  read_loop (suc fuel) path (negsuc k) s = (failed, s)
  read_loop (suc fuel) path (pos zero) s = (found [], s)
  read_loop (suc fuel) path (pos (suc k)) s =
      let r = lib.zoo_get path (suc k) s in
      let again = read_loop fuel path r.0.2 r.1 in settled r again

  read_from : ℕ → Text → (ReturnCode × ℤ) × S → Read × S
  unfolding read_loop
  read_from fuel path ((zok, size), s) = read_loop fuel path size s
  read_from fuel path ((znodeexists, size), s) = (failed, s)
  read_from fuel path ((znonode, size), s) = (failed, s)
  read_from fuel path ((zother, size), s) = (failed, s)

  pub read : ℕ → Text → S → Read × S
  unfolding read_from
  read fuel path s = read_from fuel path (lib.zoo_exists path s)

-- The documented behaviour of the calls, for nodes whose payload is no longer than `limit`: a call that succeeds reports the
-- length of the payload that the node has when it returns, and `zoo_get` copies as much of that payload
-- as fits into the buffer. A node without data is only seen by `zoo_exists`.
pub record Payloads {S : Type 0} (lib : Calls S) (limit : ℕ) : Type 0 where
  pub content : S → Text → Option Text
  pub exists_zok :
      (p : Text) (s : S)
      → (lib.zoo_exists p s).0.0 ≡ zok
      → let r = lib.zoo_exists p s in
        (r.0.1 ≡ negsuc 0)
        ⊎ ((c : Text) × (content r.1 p ≡ some c) × (r.0.1 ≡ pos (length c)) × (length c ≤ limit))
  pub get_zok :
      (p : Text) (n : ℕ) (s : S)
      → (lib.zoo_get p n s).0.0 ≡ zok
      → let r = lib.zoo_get p n s in
        (c : Text) × (content r.1 p ≡ some c)
        × (r.0.1 ≡ take n c)
        × (r.0.2 ≡ pos (length c))
        × (length c ≤ limit)

take_all : {A : Type 0} (n : ℕ) (xs : List A) → length xs ≤ n → take n xs ≡ xs
take_all zero [] h = refl
take_all (suc n) [] h = refl
take_all zero (x ∷ xs) h = absurd (omega arith)
take_all (suc n) (x ∷ xs) h = ap (◌∷◌ x) (take_all n xs (omega arith))

module _ {S : Type 0} (lib : Calls S) (limit : ℕ) (law : Payloads lib limit) where
  -- `read` has failed, or given the whole payload that the node has at the end.
  abbrev pub Whole : Text → Read × S → Type 0
  Whole p r = (r.0 ≡ failed) ⊎ ((c : Text) × (r.0 ≡ found c) × (law.content r.1 p ≡ some c))

  -- What a successful `zoo_get` into a buffer of `n` bytes has returned.
  abbrev Got : Text → ℕ → (ReturnCode × Text × ℤ) × S → Type 0
  Got p n r =
      (c : Text) × (law.content r.1 p ≡ some c)
      × (r.0.1 ≡ take n c)
      × (r.0.2 ≡ pos (length c))
      × (length c ≤ limit)

  -- The payload fits into the buffer, or the next round has a longer buffer than this one.
  settled-Whole :
      (p : Text) (n : ℕ) (r : (ReturnCode × Text × ℤ) × S) (again : Read × S)
      → (r.0.0 ≡ zok → Got p n r)
      → (((c : Text)
          → law.content r.1 p ≡ some c
          → r.0.2 ≡ pos (length c)
          → length c ≤ limit
          → n < length c
          → Whole p again))
      → Whole p (settled lib r again)
  unfolding settled
  settled-Whole p n ((zok, bytes, size), s) again got next =
      let (c, e, cut, l, le) = got refl in
      elim (dec_lt n (length c)) [
        | yes more ↦
            let differ : same_length bytes size ≡ false =
              rw (l, cut, length-take n c (omega arith)) (ground arith) in
            rw differ (next c e l le more)
        | no fits ↦
            let all : bytes ≡ c = cut ∙ take_all n c (omega arith) in
            let same : same_length bytes size ≡ true = rw (l, all) (ground arith) in
            rw same (inr (bytes, refl, rw all e))
      ]
  settled-Whole p n ((znodeexists, bytes, size), s) again got next = inl refl
  settled-Whole p n ((znonode, bytes, size), s) again got next = inl refl
  settled-Whole p n ((zother, bytes, size), s) again got next = inl refl

  loop-Whole :
      (fuel m : ℕ) (p : Text) (c : Text) (s : S)
      → law.content s p ≡ some c
      → m ≡ length c
      → length c ≤ limit
      → limit < fuel + m
      → Whole p (read_loop lib fuel p (pos m) s)
  unfolding read_loop settled
  loop-Whole zero m p c s e l le lt = absurd (omega (arith, l))
  loop-Whole (suc fuel) zero p [] s e l le lt = inr ([], refl, e)
  loop-Whole (suc fuel) zero p (b ∷ c) s e l le lt = absurd (omega (arith, l))
  loop-Whole (suc fuel) (suc k) p c s e l le lt =
      let r = lib.zoo_get p (suc k) s in
      settled-Whole p (suc k) r (read_loop lib fuel p r.0.2 r.1) (law.get_zok p (suc k) s)
        (λ c' e' l' le' more.
          rw l' (loop-Whole fuel (length c') p c' r.1 e' refl le' (omega (arith, more))))

  from-Whole :
      (fuel : ℕ) (p : Text) (r : (ReturnCode × ℤ) × S)
      → limit < fuel
      → (r.0.0 ≡ zok
          → (r.0.1 ≡ negsuc 0)
            ⊎ ((c : Text) × (law.content r.1 p ≡ some c)
                × (r.0.1 ≡ pos (length c))
                × (length c ≤ limit)))
      → Whole p (read_from lib fuel p r)
  unfolding read_from read_loop
  from-Whole zero p r lt there = absurd (omega arith)
  from-Whole (suc fuel) p ((zok, size), s) lt there = elim (there refl) [
    | inl e ↦ rw e (inl refl)
    | inr (c, e, l, le) ↦
        rw l (loop-Whole (suc fuel) (length c) p c s e refl le (omega (arith, lt)))
  ]
  from-Whole (suc fuel) p ((znodeexists, size), s) lt there = inl refl
  from-Whole (suc fuel) p ((znonode, size), s) lt there = inl refl
  from-Whole (suc fuel) p ((zother, size), s) lt there = inl refl

  -- `read` ends, whatever other clients do to the node between its calls, and gives either no payload or exactly the
  -- payload that the node has when it returns, never a part of one. The payloads that the service
  -- keeps are bounded, and one round more than the bound is enough: each round but the last has seen
  -- the payload outgrow the buffer.
  pub read_lem : (fuel : ℕ) (p : Text) (s : S) → limit < fuel → Whole p (read lib fuel p s)
  unfolding read
  read_lem fuel p s lt = from-Whole fuel p (lib.zoo_exists p s) lt (law.exists_zok p s)
