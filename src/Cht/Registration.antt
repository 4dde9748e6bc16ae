-- ===== src/Cht/Registration.antt =====
-- `register_node` of cht.cpp over the tree of nodes.
use jubatus.Base.{ℕ, zero, suc, ◌+◌, ◌≡◌, ◌<◌, true, Bool-cases, inl, inr, arith}
use jubatus.Base.Comp.{runtime_error, ok, throw}
use jubatus.Base.Int.{ℤ}
use jubatus.Base.Text.{Text}
use jubatus.LockService.{LockService, Tree, child}
use jubatus.Membership.{build_loc_str}
use jubatus.Cht.{cht_path, num_vserv, register_node, register_from}

module _ (show : ℤ → Text) (make_hash : Text → Text) {S : Type 0} (ls : LockService S) (t : Tree ls)
    (type name : Text) (ip : Text) (port : ℤ) where
  -- The path of the `i`-th virtual server.
  abbrev pub virtual : ℕ → Text
  virtual i = child (cht_path type name) (make_hash (build_loc_str show ip port i))

  register_from-keeps :
      (n i : ℕ) (q : Text) (s : S)
      → t.exists s q ≡ true
      → t.exists (register_from show make_hash ls type name n i ip port s).1 q ≡ true
  unfolding register_from
  register_from-keeps zero i q s h = h
  register_from-keeps (suc n) i q s h =
      let r = ls.create (virtual i) (build_loc_str show ip port 0) true s in
      let kept = t.create_keeps (virtual i) (build_loc_str show ip port 0) q true s h in
      elim (Bool-cases r.0) [
        | inl made ↦ rw made (register_from-keeps n (suc i) q r.1 kept)
        | inr failed ↦ rw failed kept
      ]

  register_from-exists :
      (n i j : ℕ) (s : S)
      → (register_from show make_hash ls type name n i ip port s).0 ≡ ok tt
      → j < n
      → t.exists (register_from show make_hash ls type name n i ip port s).1 (virtual (j + i))
        ≡ true
  unfolding register_from
  register_from-exists zero i j s e h = absurd (omega arith)
  register_from-exists (suc n) i j s e h =
      let r = ls.create (virtual i) (build_loc_str show ip port 0) true s in
      elim (Bool-cases r.0) [
        | inl made ↦
            let rest : (register_from show make_hash ls type name n (suc i) ip port r.1).0 ≡ ok tt =
              rw made at e in
            let first = t.create_true (virtual i) (build_loc_str show ip port 0) true s made in
            rw made (
              elim j
                  as (λ j.
                    j < suc n
                    → t.exists (register_from show make_hash ls type name n (suc i) ip port r.1).1
                        (virtual (j + i))
                      ≡ true) [
                        | zero ↦ λ lt.
                            let same : 0 + i ≡ i = omega arith in
                            rw same (register_from-keeps n (suc i) (virtual i) r.1 first)
                        | suc k ↦ λ lt.
                            let same : suc k + i ≡ k + suc i = omega arith in
                            rw same (register_from-exists n (suc i) k r.1 rest (omega arith))
                      ]
                h)
        | inr failed ↦ absurd (let wrong : throw runtime_error ≡ ok tt = rw failed at e in cc)
      ]

  -- When `register_node` returns, the entry of each of the `num_vserv` virtual servers exists, and
  -- every path that existed still does, also when it throws.
  pub register_node-exists :
      (s : S)
      → ((register_node show make_hash ls type name ip port s).0 ≡ ok tt
          → (j : ℕ) → j < num_vserv
          → t.exists (register_node show make_hash ls type name ip port s).1 (virtual j) ≡ true)
        × ((q : Text)
            → t.exists s q ≡ true
            → t.exists (register_node show make_hash ls type name ip port s).1 q ≡ true)
  unfolding register_node
  register_node-exists s = (
    λ e j h.
        let same : j + 0 ≡ j = omega arith in rw same at (register_from-exists num_vserv 0 j s e h),
    λ q h. register_from-keeps num_vserv 0 q s h,
  )
