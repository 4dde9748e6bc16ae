-- ===== src/Cht/Tests.antt =====
-- A ring of three nodes in memory, with the key itself as its hash.
use jubatus.Base.{◌≡◌, refl, [], ◌∷◌, some}
use jubatus.Base.Comp.{ok}
use jubatus.Base.Int.{pos, atoi}
use jubatus.Base.Text.{Text, codes, text_eq, text_lt, before, after, digits_value}
use jubatus.LockService.{child}
use jubatus.Membership.{revert, build_loc_str, build_actor_path, build_existence_path}
use jubatus.Cht.{
  cht_path, find, find_in, find_from, read_entry, get_hashlist, sorted_or_none, sort, insert,
  lower_bound, register_node, register_from,
}
use jubatus.Samples.Memory.{Memory, memory_service}
use jubatus.Samples.Notation.{show_int}

program : Unit {0}
unfolding cht_path find find_in find_from read_entry get_hashlist sorted_or_none sort insert
    lower_bound register_node register_from revert text_eq text_lt before after digits_value
    build_loc_str build_actor_path build_existence_path atoi
program = tt

abbrev kind : Text
kind = codes "nearest"

abbrev cluster : Text
cluster = codes "c"

abbrev location : Text → Text
location c = codes "h_9"

abbrev ring : Memory
ring = record {
  nodes =
      (child (cht_path kind cluster) (codes "d"), codes "h_9")
      ∷ (child (cht_path kind cluster) (codes "b"), codes "h_9")
      ∷ [];
  functions = [];
  versions = 0;
}

listed : (memory_service.list (cht_path kind cluster) ring).0 ≡ some (codes "d" ∷ codes "b" ∷ [])
unfolding program
listed = refl

-- Two entries and three nodes asked for: the first is found twice.
wraps :
    find show_int (λ h. h) memory_service kind cluster (codes "c") 3 ring
    ≡ (ok ((codes "h", pos 9) ∷ (codes "h", pos 9) ∷ (codes "h", pos 9) ∷ []), ring)
unfolding program
wraps = refl

registers :
    (register_node show_int (λ h. h) memory_service kind cluster (codes "h") (pos 9) ring).0 ≡ ok tt
unfolding program
registers = refl
