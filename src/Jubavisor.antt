-- ===== src/Jubavisor.antt =====
-- jubatus/server/jubavisor/jubavisor.cpp with process.cpp: the supervisor that starts and stops server processes, each
-- on a port of a pool. `fork`, `kill` and `waitpid` are parameters. The map of children is an
-- association list with one entry for a name.
pub mod Ports
pub mod Release
mod Tests
use jubatus.Base.{
  ℕ, zero, suc, ◌+◌, ◌-◌, ◌≡◌, Bool, true, false, not, ◌&&◌, ◌||◌, List, [], ◌∷◌, ◌++◌, Option,
  none, some, length, ltb, ◌==◌, if◌then◌else◌,
}
use jubatus.Base.Assoc.{lookup, put}
use jubatus.Base.Comp.{Error, out_of_range, Result, ok, throw, bind_result}
use jubatus.Base.Int.{ℤ, pos, negsuc, negate}
use jubatus.Base.Text.{Text, text_eq, before, after}

-- `fork` gives the child's pid, or `none` for a failure; `kill` is `process::kill`, which also waits.
pub record System (S : Type 0) : Type 0 where
  pub fork : S → Option ℕ × S
  pub kill : ℕ → S → Bool × S

pub record Process : Type 0 where
  pub server : Text
  pub name : Text
  pub rpc_port : ℕ
  pub pid : ℕ

pub record Supervisor (S : Type 0) : Type 0 where
  pub port_pool : List ℕ
  pub children : List (Text × List Process)
  pub net : S

has_space : Text → Bool
has_space [] = false
has_space (c ∷ s) = if c == b' ' then true else has_space s

is_empty : Text → Bool
is_empty [] = true
is_empty (c ∷ s) = false

-- The fields `server_` and `name_` after `process::set_names`, and its return value.
pub set_names : Text → Text × Text × Bool
unfolding has_space is_empty
set_names str = if has_space str then ([], [], false) else (
  before b'/' str,
  after b'/' str,
  not (is_empty (before b'/' str) || is_empty (after b'/' str)),
)

pub or_empty : Option (List Process) → List Process
or_empty none = []
or_empty (some ps) = ps

-- The entry of the name is made when there is none.
with_entry : Text → Option (List Process) → List (Text × List Process) → List (Text × List Process)
with_entry name none m = put name [] m
with_entry name (some ps) m = m

-- `children_.erase(it)`: the entry of the name.
pub remove_entry : Text → List (Text × List Process) → List (Text × List Process)
remove_entry name [] = []
remove_entry name (e ∷ m) =
    let rest = remove_entry name m in if text_eq e.0 name then m else e ∷ rest

-- The constructor fills the pool with `max` ports above the base.
pub first_ports : ℕ → ℕ → List ℕ
first_ports zero base = []
first_ports (suc max) base = suc base ∷ first_ports max (suc base)

module _ {S : Type 0} (sys : System S) where
  add_child : Text → Process → Supervisor S → Supervisor S
  unfolding or_empty
  add_child name p v = record v {
    children = put name (or_empty (lookup name v.children) ++ (p ∷ [])) v.children;
  }

  -- The rounds of the loop of `start_`; `front` of an empty queue is an error.
  spawn_with :
      Text
      → Text
      → ℕ
      → Option ℕ
      → Supervisor S
      → (Supervisor S → Result ℤ × Supervisor S)
      → Result ℤ × Supervisor S
  unfolding add_child
  spawn_with server name p1 (some child) v next =
      next (add_child name (record { server = server; name = name; rpc_port = p1; pid = child }) v)
  spawn_with server name p1 none v next =
      (ok (negsuc 0), record v { port_pool = v.port_pool ++ (p1 ∷ []) })

  spawn : ℕ → Text → Text → List ℕ → Supervisor S → Result ℤ × Supervisor S
  unfolding spawn_with
  spawn zero server name pool v = (ok (pos 0), record v { port_pool = pool })
  spawn (suc n) server name [] v = (throw out_of_range, record v { port_pool = [] })
  spawn (suc n) server name (p1 ∷ pool) v =
      let r = sys.fork v.net in
      spawn_with server name p1 r.0 (record v { port_pool = pool; net = r.1 })
        (λ v'. spawn n server name pool v')

  -- The tests on `N` and the loop, with the entry's processes.
  start_running : ℕ → Text → Text → List Process → Supervisor S → Result ℤ × Supervisor S
  unfolding spawn
  start_running n server name running v =
      if ltb n (length running)
      then (ok (negsuc 0), v)
      else if ltb (length v.port_pool) (n - length running)
      then (ok (negsuc 0), v)
      else spawn (n - length running) server name v.port_pool v

  start_named : ℕ → Text × Text × Bool → Supervisor S → Result ℤ × Supervisor S
  unfolding start_running with_entry or_empty
  start_named n (server, name, false) v = (ok (negsuc 0), v)
  start_named n (server, name, true) v =
      start_running n server name (or_empty (lookup name v.children))
        (record v { children = with_entry name (lookup name v.children) v.children })

  pub start : Text → ℕ → Supervisor S → Result ℤ × Supervisor S
  unfolding start_named
  start str n v = start_named n (set_names str) v

  -- The loop of `stop`: the number of processes that could not be killed.
  kill_all : List Process → Supervisor S → ℕ × Supervisor S
  kill_all [] v = (0, v)
  kill_all (p ∷ ps) v =
      let r = sys.kill p.pid v.net in
      let rest = kill_all ps (record v {
        port_pool = if r.0 then v.port_pool ++ (p.rpc_port ∷ []) else v.port_pool;
        net = r.1;
      }) in
      (if r.0 then rest.0 else suc rest.0, rest.1)

  stop_found : Text → Option (List Process) → Supervisor S → ℤ × Supervisor S
  unfolding kill_all
  stop_found name none v = (pos 0, v)
  stop_found name (some ps) v =
      let r = kill_all ps (record v { children = remove_entry name v.children }) in
      (negate r.0, r.1)

  -- The number of processes to leave is ignored.
  pub stop : Text → ℕ → Supervisor S → ℤ × Supervisor S
  unfolding stop_found
  stop str n v = let name = (set_names str).1 in stop_found name (lookup name v.children) v

  -- The loop over the children in `stop_all`, which only logs a failure.
  kill_each : List Process → S → S
  kill_each [] s = s
  kill_each (p ∷ ps) s = kill_each ps (sys.kill p.pid s).1

  kill_every : List (Text × List Process) → S → S
  unfolding kill_each
  kill_every [] s = s
  kill_every (e ∷ m) s = kill_every m (kill_each e.1 s)

  pub stop_all : Supervisor S → Supervisor S
  unfolding kill_every
  stop_all v = record v { children = []; net = kill_every v.children v.net }

-- The process with the pid, taken out of a list: its port and the others.
pub take_process : ℕ → List Process → Option (ℕ × List Process)
take_process pid [] = none
take_process pid (p ∷ ps) =
    let rest = take_process pid ps in
    if pid == p.pid
    then some (p.rpc_port, ps)
    else elim rest [ none ↦ none | some r ↦ some (r.0, p ∷ r.1) ]

-- The search goes on only when the entry `e` has no such process.
take_first :
    Text × List Process
    → List (Text × List Process)
    → Option (ℕ × List Process)
    → Option (ℕ × List (Text × List Process))
    → Option (ℕ × List (Text × List Process))
take_first e m (some r) later = some (r.0, (e.0, r.1) ∷ m)
take_first e m none none = none
take_first e m none (some r) = some (r.0, e ∷ r.1)

pub take_child : ℕ → List (Text × List Process) → Option (ℕ × List (Text × List Process))
unfolding take_process take_first
take_child pid [] = none
take_child pid (e ∷ m) = take_first e m (take_process pid e.1) (take_child pid m)

release : {S : Type 0} → Option (ℕ × List (Text × List Process)) → Supervisor S → Supervisor S
release none v = v
release (some r) v = record v { port_pool = v.port_pool ++ (r.0 ∷ []); children = r.1 }

-- The body of the loop of `sigchld_handler_`, for a child that has exited.
pub child_exited : {S : Type 0} → ℕ → Supervisor S → Supervisor S
unfolding take_child release
child_exited pid v = release (take_child pid v.children) v
