-- ===== src/Membership/Tests.antt =====
-- Runs of the registration on the lock service in memory.
use jubatus.Base.{◌≡◌, refl, [], ◌∷◌, some}
use jubatus.Base.Comp.{throw, runtime_error}
use jubatus.Base.Int.{pos, atoi}
use jubatus.Base.Text.{Text, codes, text_eq, before, after, digits_value}
use jubatus.Membership.{
  build_loc_str, revert, register_active, get_all_actives, build_actor_path, build_active_path,
  build_existence_path,
}
use jubatus.Samples.Memory.{Memory, memory_service}
use jubatus.Samples.Notation.{show_int}

program : Unit {0}
unfolding register_active get_all_actives build_active_path build_actor_path build_existence_path
    revert text_eq before after atoi digits_value
program = tt

abbrev empty : Memory
empty = record { nodes = []; functions = []; versions = 0 }

abbrev host : Text
host = codes "127.0.0.1"

abbrev kind : Text
kind = codes "classifier"

abbrev cluster : Text
cluster = codes "c"

loc_str : build_loc_str show_int host (pos 9199) 3 ≡ codes "127.0.0.1_9199_3"
unfolding build_loc_str
loc_str = refl

abbrev registered : Memory
registered = (register_active show_int memory_service kind cluster host (pos 9199) empty).1

listing : (get_all_actives memory_service kind cluster registered).0 ≡ some ((host, pos 9199) ∷ [])
unfolding program
listing = refl

-- The node is ephemeral, so a second registration fails while the first one lasts.
registered_twice :
    (register_active show_int memory_service kind cluster host (pos 9199) registered).0
    ≡ throw runtime_error
unfolding program
registered_twice = refl
