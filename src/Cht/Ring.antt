-- ===== src/Cht/Ring.antt =====
-- `find` of cht.cpp: which nodes of the ring it returns.
use jubatus.Base.{
  ℕ, zero, suc, ◌+◌, ◌%◌, ◌≡◌, ◌<◌, refl, ap, ◌∙◌, List, [], ◌∷◌, some, length, get_elem?,
  get_elem?_lt, All, Mem, arith,
}
use jubatus.Base.Comp.{ok}
use jubatus.Base.Int.{ℤ}
use jubatus.Base.Text.{Text}
use jubatus.LockService.{LockService, Reads, child}
use jubatus.Membership.{revert}
use jubatus.Cht.{
  sort, lower_bound, cht_path, find, find_in, find_from, read_entry, get_hashlist, sorted_or_none,
}
use jubatus.Cht.Order.{
  sort-IsSorted, lower_bound-Answers, Answers, Answers-sort, sort-get, sort-All-get, sort-length,
}
use native.Mathlib.Nat.{mod-lt, mod-add-mod, mod-eq_of_lt}

module _ (show : ℤ → Text) (make_hash : Text → Text) {S : Type 0} (ls : LockService S)
    (rd : Reads ls) (type name : Text) where
  -- Every entry of `names` is read as the payload that `loc` gives.
  abbrev pub AllRead : S → (Text → Text) → List Text → Type 0
  AllRead s loc names = All (λ c. rd.content s (child (cht_path type name) c) ≡ some (loc c)) names

  -- What the rounds from `idx` on put into `out`.
  Rounds : (Text → Text) → List Text → ℕ → ℕ → List (Text × ℤ) → Type 0
  Rounds loc hs idx n out =
      (i : ℕ)
      → i < n
      → (c : Text) × (get_elem? hs ((idx + i) % length hs) ≡ some c)
        × (get_elem? out i ≡ some (revert (loc c)))

  read_entry-ok :
      (s : S) (loc : Text → Text) (c : Text)
      → rd.content s (child (cht_path type name) c) ≡ some (loc c)
      → read_entry show make_hash ls type name (some c) s ≡ (ok (revert (loc c)), s)
  unfolding read_entry
  read_entry-ok s loc c e = rw (rd.read_lem (child (cht_path type name) c) s, e) refl

  find_from-step :
      (s : S) (hs : List Text) (n idx : ℕ) (node : Text × ℤ) (rest : List (Text × ℤ))
      → read_entry show make_hash ls type name (get_elem? hs idx) s ≡ (ok node, s)
      → find_from show make_hash ls type name hs n ((idx + 1) % length hs) s ≡ (ok rest, s)
      → find_from show make_hash ls type name hs (suc n) idx s ≡ (ok (node ∷ rest), s)
  unfolding find_from
  find_from-step s hs n idx node rest e f = rw (e, f) refl

  find_from-ok :
      (s : S) (loc : Text → Text) (hs : List Text) (n idx : ℕ)
      → ((i : ℕ) (c : Text)
          → get_elem? hs i ≡ some c
          → rd.content s (child (cht_path type name) c) ≡ some (loc c))
      → idx < length hs
      → (out : List (Text × ℤ)) × (find_from show make_hash ls type name hs n idx s ≡ (ok out, s))
        × (length out ≡ n)
        × Rounds loc hs idx n out
  unfolding find_from Rounds
  find_from-ok s loc hs zero idx readable h = ([], refl, refl, λ i lt. absurd (omega arith))
  find_from-ok s loc hs (suc n) idx readable h =
      let here = get_elem?_lt hs idx h in
      let c = here.0 in
      let node =
        ap (λ o. read_entry show make_hash ls type name o s) here.1
        ∙ read_entry-ok s loc c (readable idx c here.1) in
      let later =
        find_from-ok s loc hs n ((idx + 1) % length hs) readable (mod-lt (idx + 1) (omega arith)) in
      (
        revert (loc c) ∷ later.0,
        find_from-step s hs n idx (revert (loc c)) later.0 node later.1,
        ap suc later.2,
        λ i.
            elim i
              as (λ i.
                i < suc n
                → (d : Text) × (get_elem? hs ((idx + i) % length hs) ≡ some d)
                  × (get_elem? (revert (loc c) ∷ later.0) i ≡ some (revert (loc d)))) [
                    | zero ↦ λ lt. (
                      c,
                      let same : (idx + 0) % length hs ≡ idx =
                            let plain : idx + 0 ≡ idx = omega arith in
                            rw (plain, mod-eq_of_lt h) refl in
                          rw same here.1,
                      refl,
                    )
                    | suc j ↦ λ lt.
                        let r = later.3 j (omega arith) in
                        let same : (idx + suc j) % length hs
                            ≡ ((idx + 1) % length hs + j) % length hs =
                          let step : idx + suc j ≡ idx + 1 + j = omega arith in
                          rw (step, mod-add-mod (idx + 1) (length hs) j) refl in
                        (r.0, rw same r.1, r.2)
                  ],
      )

  find_run :
      (key : Text) (n : ℕ) (s : S) (x : Text) (xs : List Text)
      → (ls.list (cht_path type name) s).0 ≡ some (x ∷ xs)
      → find show make_hash ls type name key n s
        ≡ find_from show make_hash ls type name
            (sort (x ∷ xs))
            n
            (lower_bound (make_hash key) (sort (x ∷ xs)) % length (sort (x ∷ xs)))
            s
  unfolding find get_hashlist sorted_or_none find_in
  find_run key n s x xs e = rw (e, rd.list_keeps (cht_path type name) s) refl

  pub find_lem :
      (key : Text) (n : ℕ) (s : S) (x : Text) (xs : List Text) (loc : Text → Text)
      → (ls.list (cht_path type name) s).0 ≡ some (x ∷ xs)
      → AllRead s loc (x ∷ xs)
      → let hs = sort (x ∷ xs) in
        let start = lower_bound (make_hash key) hs % length hs in
        (out : List (Text × ℤ)) × (find show make_hash ls type name key n s ≡ (ok out, s))
        × (length out ≡ n)
        × ((i : ℕ)
            → i < n
            → (c : Text) × (get_elem? hs ((start + i) % length hs) ≡ some c)
              × (get_elem? out i ≡ some (revert (loc c)))
              × Mem c (x ∷ xs))
        × ((c : Text) → get_elem? hs start ≡ some c → Answers (make_hash key) (x ∷ xs) c)
  unfolding Rounds
  find_lem key n s x xs loc e readable =
      let hs = sort (x ∷ xs) in
      let start = lower_bound (make_hash key) hs % length hs in
      let size : 0 < length hs = omega (arith, sort-length (x ∷ xs)) in
      let run =
        find_from-ok s loc hs n start
          (λ i c g.
            sort-All-get (λ d. rd.content s (child (cht_path type name) d) ≡ some (loc d)) (x ∷ xs)
              i c readable g)
          (mod-lt (lower_bound (make_hash key) hs) size) in
      (
        run.0,
        rw (find_run key n s x xs e) run.1,
        run.2,
        (λ i lt.
            let r = run.3 i lt in
            (r.0, r.1, r.2, sort-get (x ∷ xs) ((start + i) % length hs) r.0 r.1)),
        λ c g.
            Answers-sort (make_hash key) (x ∷ xs) c
              (lower_bound-Answers (make_hash key) hs c (sort-IsSorted (x ∷ xs)) g),
      )
