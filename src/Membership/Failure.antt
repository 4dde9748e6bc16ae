-- ===== src/Membership/Failure.antt =====
-- `register_active` and `unregister_active` of membership.cpp when they throw.
use jubatus.Base.{
  ℕ, ◌≡◌, ◌≢◌, ◌∙◌, sym, ap, true, false, [], ◌∷◌, ◌++◌, length, length-append, arith,
}
use jubatus.Base.Comp.{Error, ok, throw}
use jubatus.Base.Int.{ℤ}
use jubatus.Base.Text.{Text, codes}
use jubatus.LockService.{LockService, Tree, Exact, force_exit}
use mathlib.Core.List.{append_assoc}
use jubatus.Membership.Registration.{register-exists}
use jubatus.Membership.{
  build_actor_path, build_existence_path, create_cluster_dirs, register, register_active,
  unregister_active,
}

cancel_prefix : (xs ys zs : Text) → xs ++ ys ≡ xs ++ zs → ys ≡ zs
cancel_prefix [] ys zs e = e
cancel_prefix (x ∷ xs) ys zs e = cancel_prefix xs ys zs (let t : xs ++ ys ≡ xs ++ zs = cc in t)

abbrev second : Text → ℕ
second [] = 0
second (x ∷ []) = 0
second (x ∷ y ∷ s) = y

longer_ne : (xs ys zs : Text) (c : ℕ) → xs ++ (c ∷ ys) ≢ xs
longer_ne xs ys zs c e =
    let same : length (xs ++ (c ∷ ys)) ≡ length xs = ap length e in
    omega (arith, same, length-append xs (c ∷ ys))

module _ (show : ℤ → Text) {S : Type 0} (ls : LockService S) (tree : Tree ls)
    (exact : Exact ls tree) (type name ip : Text) (port : ℤ) where
  open tree use {exists, push_exists}

  -- The server's node on the active list.
  abbrev pub own_node : Text
  own_node = build_existence_path show (build_actor_path type name ++ codes "/actives") ip port

  own_node-ne_list : own_node ≢ build_actor_path type name ++ codes "/actives"
  unfolding build_existence_path
  own_node-ne_list = longer_ne (build_actor_path type name ++ codes "/actives") _ [] b'/'

  below :
      own_node
      ≡ build_actor_path type name ++ (codes "/actives" ++ (b'/' ∷ (ip ++ (b'_' ∷ show port))))
  unfolding build_existence_path
  below =
      append_assoc (build_actor_path type name) (codes "/actives")
        (b'/' ∷ (ip ++ (b'_' ∷ show port)))

  own_node-ne_path : own_node ≢ build_actor_path type name
  own_node-ne_path e = longer_ne (build_actor_path type name) _ [] b'/' (sym below ∙ e)

  own_node-ne_lock : own_node ≢ build_actor_path type name ++ codes "/master_lock"
  own_node-ne_lock e =
      let differ : ◌≡◌ {A = ℕ} b'a' b'm' =
        ap second (cancel_prefix (build_actor_path type name) _ _ (sym below ∙ e)) in
      omega arith

  pub register_active_throw :
      (s : S) (e : Error)
      → (register_active show ls type name ip port s).0 ≡ throw e
      → exists (register_active show ls type name ip port s).1 own_node ≡ exists s own_node
  unfolding register_active register create_cluster_dirs
  register_active_throw s e h = grind (
    arith, exact.create_false, exact.create_other, push_exists, own_node-ne_list, own_node-ne_path,
    own_node-ne_lock,
  )

  pub unregister_active_throw :
      (s : S) (e : Error)
      → (unregister_active show ls type name ip port s).0 ≡ throw e
      → exists (unregister_active show ls type name ip port s).1 own_node ≡ exists s own_node
  unfolding unregister_active
  unregister_active_throw s e h = grind (arith, exact.remove_false)

  pub register_active_ok :
      (s : S)
      → (register_active show ls type name ip port s).0 ≡ ok tt
      → exists (register_active show ls type name ip port s).1 own_node ≡ true
  unfolding register_active
  register_active_ok s h =
      register-exists show ls tree (codes "/actives") force_exit type name ip port s h

  pub unregister_active_ok :
      (s : S)
      → (unregister_active show ls type name ip port s).0 ≡ ok tt
      → exists (unregister_active show ls type name ip port s).1 own_node ≡ false
  unfolding unregister_active
  unregister_active_ok s h = grind (arith, tree.remove_true)
