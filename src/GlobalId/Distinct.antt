-- ===== src/GlobalId/Distinct.antt =====
-- The identifiers differ from one another.
use jubatus.Base.{
  ℕ, zero, suc, ◌+◌, ◌%◌, ◌^◌, ◌≤◌, ◌<◌, ◌≡◌, ◌≢◌, refl, ◌∙◌, sym, ap, false, [], ◌++◌, some,
  get_elem?, Bool-cases, inl, inr, arith,
}
use jubatus.Base.Comp.{ok}
use jubatus.Base.Text.{Text, codes}
use jubatus.LockService.{LockService}
use jubatus.GlobalId.{
  generate, generate_all, Generator, set_ls, generate_zk, generate_from, lift_net, id_or_error,
}

generate_all-get :
    (n c i : ℕ) → c < 2 ^ 64 → i < n → get_elem? (generate_all n c).0 i ≡ some ((c + i) % 2 ^ 64)
unfolding generate_all generate
generate_all-get zero c i h k = absurd (omega arith)
generate_all-get (suc n) c zero h k = let same : c ≡ (c + 0) % 2 ^ 64 = omega arith in ap some same
generate_all-get (suc n) c (suc i) h k =
    let same : ((c + 1) % 2 ^ 64 + i) % 2 ^ 64 ≡ (c + suc i) % 2 ^ 64 = omega arith in
    generate_all-get n ((c + 1) % 2 ^ 64) i (omega arith) (omega arith) ∙ ap some same

-- Of any number of calls up to two to the power 64, no two give the same identifier, wherever the
-- counter starts, also when it wraps around on the way.
pub generate_distinct :
    (n c i j a b : ℕ)
    → c < 2 ^ 64
    → n ≤ 2 ^ 64
    → i < j
    → j < n
    → get_elem? (generate_all n c).0 i ≡ some a
    → get_elem? (generate_all n c).0 j ≡ some b
    → a ≢ b
generate_distinct n c i j a b h m lt k ea eb same =
    let here : some a ≡ some ((c + i) % 2 ^ 64) = sym ea ∙ generate_all-get n c i h (omega arith) in
    let there : some b ≡ some ((c + j) % 2 ^ 64) = sym eb ∙ generate_all-get n c j h k in
    let x : a ≡ (c + i) % 2 ^ 64 = cc in let y : b ≡ (c + j) % 2 ^ 64 = cc in omega arith

-- What the ZooKeeper generator relies on: a successful `create_id` gives the new version of the node, the
-- next number.
pub record Versions {S : Type 0} (ls : LockService S) : Type 0 where
  pub version : S → Text → ℕ
  pub create_id_some :
      (p : Text) (s s' : S) (id : ℕ)
      → ls.create_id p 0 s ≡ (some id, s')
      → (id ≡ suc (version s p)) × (version s' p ≡ suc (version s p))

set_ls_state :
    {S : Type 0} (ls : LockService S) (prefix : Text) (g : Generator S)
    → (set_ls ls prefix g).1 ≡ record {
      path = prefix ++ codes "/id_generator";
      ls = some ls;
      net = (ls.create (prefix ++ codes "/id_generator") [] false g.net).1;
    }
unfolding set_ls lift_net
set_ls_state ls prefix g =
    elim (Bool-cases (ls.create (prefix ++ codes "/id_generator") [] false g.net).0) [
      | inl made ↦ rw made refl
      | inr failed ↦ rw failed refl
    ]

generate_zk-some :
    {S : Type 0} (ls : LockService S) (p : Text) (s s' : S) (id : ℕ)
    → ls.create_id p 0 s ≡ (some id, s')
    → generate_zk (record { path = p; ls = some ls; net = s })
      ≡ (ok id, record { path = p; ls = some ls; net = s' })
unfolding generate_zk generate_from lift_net id_or_error
generate_zk-some ls p s s' id e = rw e refl

-- Two calls that succeed one after the other give different identifiers, also after a `set_ls`
-- that has thrown because the node could not be created: the service is kept all the same.
pub set_ls-generate_zk :
    {S : Type 0} (ls : LockService S) (versions : Versions ls) (prefix : Text) (g : Generator S)
    (s₁ s₂ : S) (a b : ℕ)
    → let g' = (set_ls ls prefix g).1 in
      let p = prefix ++ codes "/id_generator" in
      ls.create_id p 0 g'.net ≡ (some a, s₁)
      → ls.create_id p 0 s₁ ≡ (some b, s₂)
      → let r = generate_zk g' in let r' = generate_zk r.1 in (r.0 ≡ ok a) × (r'.0 ≡ ok b) × (a < b)
set_ls-generate_zk ls versions prefix g s₁ s₂ a b ea eb =
    let p = prefix ++ codes "/id_generator" in
    let s₀ = (ls.create p [] false g.net).1 in
    let state = set_ls_state ls prefix g in
    let ea' : ls.create_id p 0 s₀ ≡ (some a, s₁) =
      sym (ap (λ h. ls.create_id p 0 h.net) state) ∙ ea in
    let first = generate_zk-some ls p s₀ s₁ a ea' in
    let second = generate_zk-some ls p s₁ s₂ b eb in
    let va = versions.create_id_some p s₀ s₁ a ea' in
    let vb = versions.create_id_some p s₁ s₂ b eb in
    let run = ap (λ h. generate_zk h) state ∙ first in
    (
      ap (λ r. r.0) run,
      ap (λ r. r.0) (ap (λ r. generate_zk r.1) run ∙ second),
      omega (arith, va.0, va.1, vb.0),
    )
