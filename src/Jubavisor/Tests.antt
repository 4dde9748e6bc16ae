-- ===== src/Jubavisor/Tests.antt =====
-- Runs of the supervisor over a system that numbers its processes.
use jubatus.Base.{ℕ, suc, ◌+◌, ◌≡◌, ◌≤◌, refl, Bool, true, false, [], ◌∷◌, some}
use jubatus.Base.Assoc.{lookup}
use jubatus.Base.Comp.{ok}
use jubatus.Base.Int.{pos}
use jubatus.Base.Text.{Text, codes, text_eq, before, after}
use jubatus.Jubavisor.{
  System, Supervisor, set_names, or_empty, first_ports, start, start_named, start_running, spawn,
  spawn_with, add_child, with_entry, has_space, is_empty, stop,
}
use jubatus.Jubavisor.Ports.{start_lem, Started, total, used}
use jubatus.Jubavisor.Release.{stop_lem}

abbrev system : Bool → System ℕ
system killed = record { fork = λ s. (some s, suc s); kill = λ pid s. (killed, s) }

abbrev two : Text
two = codes "jubaclassifier/c"

program : Unit {0}
unfolding start start_named start_running spawn spawn_with add_child with_entry has_space is_empty
    set_names or_empty before after text_eq first_ports
program = tt

abbrev fresh : Supervisor ℕ
fresh = record { port_pool = 9200 ∷ 9201 ∷ 9202 ∷ []; children = []; net = 40 }

abbrev busy : Supervisor ℕ
busy = record {
  port_pool = 9202 ∷ [];
  children =
      (
        codes "c",
        record { server = codes "jubaclassifier"; name = codes "c"; rpc_port = 9200; pid = 40 }
            ∷ record {
              server = codes "jubaclassifier";
              name = codes "c";
              rpc_port = 9201;
              pid = 41;
            }
            ∷ [],
      )
      ∷ [];
  net = 42;
}

starts : start (system true) two 2 fresh ≡ (ok (pos 0), busy)
unfolding program
starts = refl

start_lem_example :
    Started (system true) (set_names two).1 2 fresh (start (system true) two 2 fresh)
start_lem_example = start_lem (system true) two 2 fresh

stop_lem_example :
    let w = (stop (system false) two 0 busy).1 in
    (total 9200 w ≤ 1)
    × (((pid : ℕ) (s : ℕ) → false ≡ true) → total 9200 w ≡ 1)
    × (((pid : ℕ) (s : ℕ) → false ≡ false)
        → total 9200 w + used 9200 (or_empty (lookup (set_names two).1 busy.children)) ≡ 1)
stop_lem_example = stop_lem (system false) two 0 9200 busy
