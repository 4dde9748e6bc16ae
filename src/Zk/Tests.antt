-- ===== src/Zk/Tests.antt =====
-- The class over a library that keeps its nodes in memory.
use jubatus.Base.{
  suc, ◌≡◌, ◌≢◌, refl, Bool, true, false, [], ◌∷◌, ◌++◌, Option, none, some, Mem, if◌then◌else◌,
  arith,
}
use jubatus.Base.Comp.{ok}
use jubatus.Base.Int.{ℤ, pos, atoi}
use jubatus.Base.Text.{Text, codes, text_eq, text_eq_refl, before, after, digits_value}
use jubatus.Cht.{sort}
use jubatus.Membership.{
  register_active, get_all_actives, build_active_path, build_actor_path, build_existence_path,
  revert,
}
use jubatus.Samples.Memory.{
  Memory, has, children, drop_node, drop_node-has, drop_node-has_ne, mem-children,
}
use jubatus.Samples.Notation.{padded, show_int, show_int-Decimal}
use jubatus.Zk.{
  Library, Handle, zok, znodeexists, znonode, create, create_id, list, zk_service, created, is_zok,
  listed, some_if,
}
use jubatus.Zk.Refines.{Documented, get_all_actives-zk_service}

abbrev library : Library Memory
library = record {
  zoo_create = λ p x e s.
      if has p s.nodes then (znodeexists, s) else (zok, record s { nodes = (p, x) ∷ s.nodes });
  zoo_create_seq = λ p s. (
    (zok, p ++ padded 10 s.versions),
    record s { nodes = (p ++ padded 10 s.versions, []) ∷ s.nodes; versions = suc s.versions },
  );
  zoo_set = λ p x s. (zok, s);
  zoo_set2 = λ p s. ((zok, s.versions), record s { versions = suc s.versions });
  zoo_delete = λ p s.
      if has p s.nodes then (zok, record s { nodes = drop_node p s.nodes }) else (znonode, s);
  zoo_exists = λ p s. (if has p s.nodes then zok else znonode, s);
  zoo_get_children = λ p s. ((zok, children p s.nodes), s);
  zoo_wexists = λ p f s. (zok, s);
}

made :
    (p x : Text) (e : Bool) (s : Memory)
    → (library.zoo_create p x e s).0 ≡ zok
    → has p (library.zoo_create p x e s).1.nodes ≡ true
made p x e s h = ground (arith, text_eq_refl p)

there :
    (p x : Text) (e : Bool) (s : Memory)
    → (library.zoo_create p x e s).0 ≡ znodeexists
    → has p (library.zoo_create p x e s).1.nodes ≡ true
there p x e s h = ground arith

kept :
    (p x q : Text) (e : Bool) (s : Memory)
    → has q s.nodes ≡ true
    → has q (library.zoo_create p x e s).1.nodes ≡ true
kept p x q e s h = ground arith

gone : (p : Text) (s : Memory) → has p (library.zoo_delete p s).1.nodes ≡ false
gone p s = ground (arith, drop_node-has p s.nodes)

others : (p q : Text) (s : Memory) → q ≢ p → has q (library.zoo_delete p s).1.nodes ≡ has q s.nodes
others p q s h = ground (arith, drop_node-has_ne p q s.nodes h)

abbrev documented : Documented library
documented = record {
  node = λ s p. has p s.nodes;
  create_zok = λ p x e s h. made p x e s h;
  create_znodeexists = λ p x e s h. there p x e s h;
  create_other = λ p x q e s h. kept p x q e s h;
  delete_zok = λ p s h. gone p s;
  delete_znonode = λ p s h. gone p s;
  delete_other = λ p q s h. others p q s h;
  children_zok = λ p c s h w e. mem-children p c s.nodes w e;
  children_znonode = λ p c s h. absurd (ground arith);
}

abbrev no_read : Text → Handle Memory → Option Text × Handle Memory
no_read p z = (none, z)

abbrev empty : Handle Memory
empty = record { cleanups = []; net = record { nodes = []; functions = []; versions = 0 } }

abbrev host : Text
host = codes "127.0.0.1"

id : (create_id library (codes "/x") 2 empty).0 ≡ some 8589934592
unfolding create_id some_if is_zok
id = refl

abbrev registered : Handle Memory
registered =
    (register_active show_int (zk_service library no_read) (codes "t") (codes "c") host (pos 9199)
      empty).1

program : Unit {0}
unfolding register_active get_all_actives build_active_path build_actor_path build_existence_path
    revert text_eq before after atoi digits_value zk_service create list created is_zok listed
    some_if sort
program = tt

returns :
    (register_active show_int
      (zk_service library no_read)
      (codes "t")
      (codes "c")
      host
      (pos 9199)
      empty).0
    ≡ ok tt
unfolding program
returns = refl

listing :
    (get_all_actives (zk_service library no_read) (codes "t") (codes "c") registered).0
    ≡ some ((host, pos 9199) ∷ [])
unfolding program
listing = refl

get_all_actives-zk_service_example : Mem {A = Text × ℤ} (host, pos 9199) ((host, pos 9199) ∷ [])
get_all_actives-zk_service_example =
    get_all_actives-zk_service library documented no_read show_int (codes "t") (codes "c") host 9199
      empty ((host, pos 9199) ∷ []) show_int-Decimal (ground arith) (ground arith) returns listing
