-- ===== src/Zk/Refines.antt =====
-- The class `zk` of zk.cpp has what the clients of the lock service rely on, if the ZooKeeper library behaves as
-- documented.
use jubatus.Base.{
  ℕ, ◌≡◌, ◌≢◌, refl, ap, subst, Bool, true, false, List, [], ◌∷◌, ◌++◌, Option, some, Mem, arith,
}
use jubatus.Base.Comp.{ok}
use jubatus.Base.Int.{ℤ, pos}
use jubatus.Base.Text.{Text, Without}
use jubatus.Cht.{sort}
use jubatus.Cht.Order.{sort-Perm}
use jubatus.LockService.{Tree, Cleanup, child}
use jubatus.Membership.{register_active, get_all_actives}
use jubatus.Membership.Names.{Decimal}
use jubatus.Membership.Registration.{get_all_actives-register_active}
use jubatus.Zk.{
  Library, Handle, ReturnCode, zok, znodeexists, znonode, zother, is_zok, created, removed, listed,
  some_if, create, remove, list, push_cleanup, zk_service,
}
use mathlib.Core.List.Perm

-- The documented behaviour of the library on the tree of nodes.
pub record Documented {S : Type 0} (lib : Library S) : Type 0 where
  pub node : S → Text → Bool
  pub create_zok :
      (p x : Text) (e : Bool) (s : S)
      → (lib.zoo_create p x e s).0 ≡ zok
      → node (lib.zoo_create p x e s).1 p ≡ true
  pub create_znodeexists :
      (p x : Text) (e : Bool) (s : S)
      → (lib.zoo_create p x e s).0 ≡ znodeexists
      → node (lib.zoo_create p x e s).1 p ≡ true
  pub create_other :
      (p x q : Text) (e : Bool) (s : S) → node s q ≡ true → node (lib.zoo_create p x e s).1 q ≡ true
  pub delete_zok :
      (p : Text) (s : S) → (lib.zoo_delete p s).0 ≡ zok → node (lib.zoo_delete p s).1 p ≡ false
  pub delete_znonode :
      (p : Text) (s : S) → (lib.zoo_delete p s).0 ≡ znonode → node (lib.zoo_delete p s).1 p ≡ false
  pub delete_other : (p q : Text) (s : S) → q ≢ p → node (lib.zoo_delete p s).1 q ≡ node s q
  pub children_zok :
      (p c : Text) (s : S)
      → (lib.zoo_get_children p s).0.0 ≡ zok
      → Without b'/' c
      → node s (child p c) ≡ true
      → Mem c (lib.zoo_get_children p s).0.1
  pub children_znonode :
      (p c : Text) (s : S) → (lib.zoo_get_children p s).0.0 ≡ znonode → node s (child p c) ≡ false

newest_first : List Cleanup → List Cleanup
newest_first [] = []
newest_first (f ∷ fs) = newest_first fs ++ (f ∷ [])

newest_first-push :
    (fs : List Cleanup) (f : Cleanup) → newest_first (fs ++ (f ∷ [])) ≡ f ∷ newest_first fs
unfolding newest_first
newest_first-push [] f = refl
newest_first-push (x ∷ fs) f = ap (λ l. l ++ (x ∷ [])) (newest_first-push fs f)

module _ {S : Type 0} (lib : Library S) (doc : Documented lib) where
  created_lem :
      (p x : Text) (s : S) (e : Bool) (rc : ReturnCode)
      → (lib.zoo_create p x e s).0 ≡ rc
      → created e rc ≡ true
      → doc.node (lib.zoo_create p x e s).1 p ≡ true
  unfolding created is_zok
  created_lem p x s true zok h k = doc.create_zok p x true s h
  created_lem p x s false zok h k = doc.create_zok p x false s h
  created_lem p x s false znodeexists h k = doc.create_znodeexists p x false s h
  created_lem p x s true znodeexists h k = absurd (ground arith)
  created_lem p x s true znonode h k = absurd (ground arith)
  created_lem p x s true zother h k = absurd (ground arith)
  created_lem p x s false znonode h k = absurd (ground arith)
  created_lem p x s false zother h k = absurd (ground arith)

  removed_lem :
      (p : Text) (s : S) (rc : ReturnCode)
      → (lib.zoo_delete p s).0 ≡ rc
      → removed rc ≡ true
      → doc.node (lib.zoo_delete p s).1 p ≡ false
  unfolding removed
  removed_lem p s zok h k = doc.delete_zok p s h
  removed_lem p s znonode h k = doc.delete_znonode p s h
  removed_lem p s znodeexists h k = absurd (ground arith)
  removed_lem p s zother h k = absurd (ground arith)

  listed_lem :
      (p c : Text) (s : S) (rc : ReturnCode) (names : List Text)
      → (lib.zoo_get_children p s).0.0 ≡ rc
      → some_if
          (listed rc (lib.zoo_get_children p s).0.1 []).0
          (listed rc (lib.zoo_get_children p s).0.1 []).1
        ≡ some names
      → Without b'/' c
      → doc.node s (child p c) ≡ true
      → Mem c names
  unfolding listed some_if
  listed_lem p c s zok names h k w e =
      let same : sort (lib.zoo_get_children p s).0.1 ≡ names = cc in
      subst (Mem c) same
        ((Perm.mem_iff (sort-Perm (lib.zoo_get_children p s).0.1)).1 (doc.children_zok p c s h w e))
  listed_lem p c s znonode names h k w e =
      absurd (let none_there = doc.children_znonode p c s h in ground (arith, none_there))
  listed_lem p c s znodeexists names h k w e = absurd (ground arith)
  listed_lem p c s zother names h k w e = absurd (ground arith)

  module _ (read : Text → Handle S → Option Text × Handle S) where
    pub zk_tree : Tree (zk_service lib read)
    unfolding zk_service create remove list push_cleanup
    zk_tree = record {
      exists = λ z p. doc.node z.net p;
      cleanups = λ z. newest_first z.cleanups;
      create_true = λ p x e z h. created_lem p x z.net e (lib.zoo_create p x e z.net).0 refl h;
      create_keeps = λ p x q e z h. doc.create_other p x q e z.net h;
      create_cleanups = λ p x e z. refl;
      remove_true = λ p z h. removed_lem p z.net (lib.zoo_delete p z.net).0 refl h;
      remove_keeps = λ p q z h. doc.delete_other p q z.net h;
      list_children = λ p c z names h w e.
          listed_lem p c z.net (lib.zoo_get_children p z.net).0.0 names refl h w e;
      push_exists = λ f z q. refl;
      push_cleanups = λ f z. newest_first-push z.cleanups f;
    }

    -- The same over the class `zk`, in whatever state the nodes and directories were before: a
    -- server whose registration as active has returned is in the listing of the active servers
    -- that follows, if that succeeds. The ZooKeeper library is taken to behave as documented, the
    -- host name has no underscore and no slash, and ports are printed in decimal.
    pub get_all_actives-zk_service :
        (show : ℤ → Text) (type name ip : Text) (port : ℕ) (z : Handle S) (ret : List (Text × ℤ))
        → Decimal show
        → Without b'_' ip
        → Without b'/' ip
        → let r = register_active show (zk_service lib read) type name ip (pos port) z in
          r.0 ≡ ok tt
          → (get_all_actives (zk_service lib read) type name r.1).0 ≡ some ret
          → Mem (ip, pos port) ret
    get_all_actives-zk_service show type name ip port z ret d u s r l =
        get_all_actives-register_active show (zk_service lib read) zk_tree type name ip port z ret d
          u s r l
