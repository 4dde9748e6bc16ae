-- ===== src/Proxy/Tests.antt =====
-- Requests through a proxy, with the lock service in memory and the key itself as its hash.
use jubatus.Base.{ℕ, ◌-◌, ◌≡◌, refl, [], ◌∷◌}
use jubatus.Base.Comp.{ok}
use jubatus.Base.Int.{pos, atoi}
use jubatus.Base.Text.{Text, codes, before, after, digits_value, text_eq}
use jubatus.Cht
use jubatus.LockService.{child}
use jubatus.Membership.{
  revert, register_active, build_actor_path, build_active_path, build_existence_path,
}
use jubatus.Proxy.{
  Proxy, update_request_counter, update_forward_counter, some_members, element, lift, get_members,
  random_async_vproxy, broadcast_async_vproxy,
}
use jubatus.Samples.Memory.{Memory, memory_service}
use jubatus.Samples.Notation.{show_int}

abbrev kind : Text
kind = codes "graph"

abbrev cluster : Text
cluster = codes "c"

program : Unit {0}
unfolding register_active build_active_path build_actor_path build_existence_path revert text_eq
    before after atoi digits_value
program = tt

abbrev hash : Text → Text
hash key = key

abbrev empty : Memory
empty = record { nodes = []; functions = []; versions = 0 }

abbrev registered : Memory
registered =
    (register_active show_int memory_service kind cluster (codes "h") (pos 9)
      (register_active show_int memory_service kind cluster (codes "g") (pos 8) empty).1).1

abbrev proxy : Proxy Memory
proxy = record { request_counter = 0xffffffffffffffff; forward_counter = 4; net = registered }

abbrev last : ℕ → ℕ
last k = k - 1

broadcasts :
    (broadcast_async_vproxy show_int hash memory_service kind cluster proxy).0
    ≡ ok ((codes "h", pos 9) ∷ (codes "g", pos 8) ∷ [])
unfolding program broadcast_async_vproxy get_members update_request_counter update_forward_counter
    some_members
broadcasts = refl

-- The counter of requests was at its greatest value.
wraps :
    (random_async_vproxy show_int hash memory_service kind last cluster proxy).1.request_counter ≡ 0
unfolding program random_async_vproxy get_members update_request_counter update_forward_counter
    some_members element lift
wraps = refl

abbrev location : Text → Text
location c = codes "h_9"

abbrev ring : Proxy Memory
ring = record {
  request_counter = 0;
  forward_counter = 0;
  net = record {
    nodes =
        (child (Cht.cht_path kind cluster) (codes "d"), codes "h_9")
        ∷ (child (Cht.cht_path kind cluster) (codes "b"), codes "h_9")
        ∷ [];
    functions = [];
    versions = 0;
  };
}
