-- ===== src/Samples/Memory.antt =====
-- A lock service in memory: the nodes with their payloads, and the registered cleanup functions.
use jubatus.Base.{
  ℕ, suc, ◌≡◌, ◌≢◌, refl, Bool, true, false, not, List, [], ◌∷◌, ◌++◌, Option, none, some, Mem,
  Bool-cases, inl, inr, subst, ◌==◌, if◌then◌else◌, arith,
}
use jubatus.Base.Text.{Text, text_eq, text_eq_refl, text_eq_iff, Without}
use jubatus.LockService.{LockService, Tree, Reads, Exact, Cleanup, child}
use jubatus.Samples.Notation.{padded}
use mathlib.Core.List.{mem-cons_self, mem-cons_of_mem}

pub record Memory : Type 0 where
  pub nodes : List (Text × Text)
  pub functions : List Cleanup
  pub versions : ℕ

abbrev pub has : Text → List (Text × Text) → Bool
has p [] = false
has p (n ∷ ns) = if text_eq n.0 p then true else has p ns

abbrev pub find : Text → List (Text × Text) → Option Text
find p [] = none
find p (n ∷ ns) = if text_eq n.0 p then some n.1 else find p ns

abbrev pub drop_node : Text → List (Text × Text) → List (Text × Text)
drop_node p [] = []
drop_node p (n ∷ ns) = let rest = drop_node p ns in if text_eq n.0 p then rest else n ∷ rest

abbrev pub has_slash : Text → Bool
has_slash [] = false
has_slash (c ∷ s) = if c == b'/' then true else has_slash s

-- The name of `q` below the directory `p`.
abbrev pub strip : Text → Text → Option Text
strip [] [] = none
strip [] (c ∷ q) = if c == b'/' then (if has_slash q then none else some q) else none
strip (a ∷ p) [] = none
strip (a ∷ p) (c ∷ q) = if a == c then strip p q else none

abbrev pub cons_some : Option Text → List Text → List Text
cons_some none cs = cs
cons_some (some c) cs = c ∷ cs

abbrev pub children : Text → List (Text × Text) → List Text
children p [] = []
children p (n ∷ ns) = cons_some (strip p n.0) (children p ns)

abbrev pub memory_service : LockService Memory
memory_service = record {
  create = λ p x e s.
      if has p s.nodes then (not e, s) else (true, record s { nodes = (p, x) ∷ s.nodes });
  remove = λ p s. (true, record s { nodes = drop_node p s.nodes });
  create_seq = λ p s. (
    some (p ++ padded 10 s.versions),
    record s { nodes = (p ++ padded 10 s.versions, []) ∷ s.nodes; versions = suc s.versions },
  );
  create_id = λ p n s. (some s.versions, record s { versions = suc s.versions });
  list = λ p s. (some (children p s.nodes), s);
  read = λ p s. (find p s.nodes, s);
  bind_delete_watcher = λ p c s. (has p s.nodes, s);
  push_cleanup = λ f s. record s { functions = f ∷ s.functions };
}

pub drop_node-has : (p : Text) (ns : List (Text × Text)) → has p (drop_node p ns) ≡ false
drop_node-has p [] = refl
drop_node-has p (n ∷ ns) = ground (arith, drop_node-has p ns)

pub drop_node-has_ne :
    (p q : Text) (ns : List (Text × Text)) → q ≢ p → has q (drop_node p ns) ≡ has q ns
drop_node-has_ne p q [] h = refl
drop_node-has_ne p q (n ∷ ns) h =
    ground (arith, drop_node-has_ne p q ns, text_eq_iff n.0 p, text_eq_iff n.0 q)

Without-has_slash : (c : Text) → Without b'/' c → has_slash c ≡ false
Without-has_slash [] h = refl
Without-has_slash (x ∷ c) h = ground (arith, Without-has_slash c h.1)

strip-child : (p c : Text) → Without b'/' c → strip p (child p c) ≡ some c
strip-child [] c h = rw (Without-has_slash c h)
strip-child (a ∷ p) c h = ground (arith, strip-child p c h)

mem-cons_some : (o : Option Text) (c : Text) (cs : List Text) → Mem c cs → Mem c (cons_some o cs)
mem-cons_some none c cs m = m
mem-cons_some (some d) c cs m = mem-cons_of_mem d m

pub mem-children :
    (p c : Text) (ns : List (Text × Text))
    → Without b'/' c
    → has (child p c) ns ≡ true
    → Mem c (children p ns)
mem-children p c [] w h = absurd (ground arith)
mem-children p c (n ∷ ns) w h = elim (Bool-cases (text_eq n.0 (child p c))) [
  | inl hit ↦ rw ((text_eq_iff n.0 (child p c)).0 hit, strip-child p c w) mem-cons_self
  | inr miss ↦ mem-cons_some (strip p n.0) c (children p ns) (mem-children p c ns w (rw miss at h))
]

pub create_has :
    (p x : Text) (e : Bool) (s : Memory)
    → (memory_service.create p x e s).0 ≡ true
    → has p (memory_service.create p x e s).1.nodes ≡ true
create_has p x e s h = ground (arith, text_eq_refl p)

pub create_has_still :
    (p x q : Text) (e : Bool) (s : Memory)
    → has q s.nodes ≡ true
    → has q (memory_service.create p x e s).1.nodes ≡ true
create_has_still p x q e s h = ground arith

pub create_functions :
    (p x : Text) (e : Bool) (s : Memory) → (memory_service.create p x e s).1.functions ≡ s.functions
create_functions p x e s = ground arith

pub listed :
    (p c : Text) (ns : List (Text × Text)) (names : List Text)
    → some (children p ns) ≡ some names
    → Without b'/' c
    → has (child p c) ns ≡ true
    → Mem c names
listed p c ns names h w e =
    let same : children p ns ≡ names = cc in subst (Mem c) same (mem-children p c ns w e)

abbrev pub memory_tree : Tree memory_service
memory_tree = record {
  exists = λ s p. has p s.nodes;
  cleanups = λ s. s.functions;
  create_true = create_has;
  create_keeps = create_has_still;
  create_cleanups = create_functions;
  remove_true = λ p s h. drop_node-has p s.nodes;
  remove_keeps = λ p q s h. drop_node-has_ne p q s.nodes h;
  list_children = λ p c s names h w e. listed p c s.nodes names h w e;
  push_exists = λ f s q. refl;
  push_cleanups = λ f s. refl;
}

abbrev pub memory_reads : Reads memory_service
memory_reads = record {
  content = λ s p. find p s.nodes;
  read_lem = λ p s. refl;
  list_keeps = λ p s. refl;
}

pub create_failed :
    (p x q : Text) (e : Bool) (s : Memory)
    → (memory_service.create p x e s).0 ≡ false
    → has q (memory_service.create p x e s).1.nodes ≡ has q s.nodes
create_failed p x q e s h = ground arith

pub create_elsewhere :
    (p x q : Text) (e : Bool) (s : Memory)
    → q ≢ p
    → has q (memory_service.create p x e s).1.nodes ≡ has q s.nodes
create_elsewhere p x q e s h = ground (arith, text_eq_iff p q)

abbrev pub memory_exact : Exact memory_service memory_tree
memory_exact = record {
  create_false = create_failed;
  create_other = create_elsewhere;
  remove_false = λ p q s h. absurd (ground arith);
}
