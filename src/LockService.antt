-- ===== src/LockService.antt =====
-- jubatus/server/common/lock_service.hpp: the interface `lock_service` over the state `S` of whatever
-- implements it, and what its clients rely on of the tree of nodes behind it.
use jubatus.Base.{ℕ, ◌≡◌, ◌≢◌, Bool, true, false, Option, some, List, ◌∷◌, ◌++◌, Mem}
use jubatus.Base.Comp.{Result, ok, Comp}
use jubatus.Base.Text.{Text, Without}

-- The functions that `push_cleanup` is given.
pub data Cleanup : Type 0 where
  shutdown_server force_exit on_connection_expired : Cleanup

-- A method returns what the C++ method returns (`none` for `false` beside an out parameter). A
-- callback is an opaque number.
pub record LockService (S : Type 0) : Type 0 where
  pub create : Text → Text → Bool → S → Bool × S
  pub remove : Text → S → Bool × S
  pub create_seq : Text → S → Option Text × S
  pub create_id : Text → ℕ → S → Option ℕ × S
  pub list : Text → S → Option (List Text) × S
  pub read : Text → S → Option Text × S
  pub bind_delete_watcher : Text → ℕ → S → Bool × S
  pub push_cleanup : Cleanup → S → S

abbrev pub pack : {S A : Type 0} → A × S → Result A × S
pack (a, s) = (ok a, s)

-- A call of a method of the service: none of them throws.
abbrev pub call : {S A : Type 0} → (S → A × S) → Comp S A
call f s = pack (f s)

abbrev pub child : Text → Text → Text
child p c = p ++ (b'/' ∷ c)

-- The documented behaviour of the tree of nodes: which paths exist after each call, which names a
-- listing holds, and which cleanup functions are registered.
pub record Tree {S : Type 0} (ls : LockService S) : Type 0 where
  pub exists : S → Text → Bool
  pub cleanups : S → List Cleanup
  pub create_true :
      (p x : Text) (e : Bool) (s : S)
      → (ls.create p x e s).0 ≡ true
      → exists (ls.create p x e s).1 p ≡ true
  pub create_keeps :
      (p x q : Text) (e : Bool) (s : S) → exists s q ≡ true → exists (ls.create p x e s).1 q ≡ true
  pub create_cleanups :
      (p x : Text) (e : Bool) (s : S) → cleanups (ls.create p x e s).1 ≡ cleanups s
  pub remove_true :
      (p : Text) (s : S) → (ls.remove p s).0 ≡ true → exists (ls.remove p s).1 p ≡ false
  pub remove_keeps : (p q : Text) (s : S) → q ≢ p → exists (ls.remove p s).1 q ≡ exists s q
  pub list_children :
      (p c : Text) (s : S) (names : List Text)
      → (ls.list p s).0 ≡ some names
      → Without b'/' c
      → exists s (child p c) ≡ true
      → Mem c names
  pub push_exists : (f : Cleanup) (s : S) (q : Text) → exists (ls.push_cleanup f s) q ≡ exists s q
  pub push_cleanups : (f : Cleanup) (s : S) → cleanups (ls.push_cleanup f s) ≡ f ∷ cleanups s

-- Reading and listing change nothing, and a read returns what is stored at the path.
pub record Reads {S : Type 0} (ls : LockService S) : Type 0 where
  pub content : S → Text → Option Text
  pub read_lem : (p : Text) (s : S) → ls.read p s ≡ (content s p, s)
  pub list_keeps : (p : Text) (s : S) → (ls.list p s).1 ≡ s

-- As the service documents it for every failure but a lost connection: a failed call changes nothing of the tree, and a node is made at the path given and nowhere else.
pub record Exact {S : Type 0} (ls : LockService S) (tree : Tree ls) : Type 0 where
  pub create_false :
      (p x q : Text) (e : Bool) (s : S)
      → (ls.create p x e s).0 ≡ false
      → tree.exists (ls.create p x e s).1 q ≡ tree.exists s q
  pub create_other :
      (p x q : Text) (e : Bool) (s : S)
      → q ≢ p
      → tree.exists (ls.create p x e s).1 q ≡ tree.exists s q
  pub remove_false :
      (p q : Text) (s : S)
      → (ls.remove p s).0 ≡ false
      → tree.exists (ls.remove p s).1 q ≡ tree.exists s q
