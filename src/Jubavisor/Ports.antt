-- ===== src/Jubavisor/Ports.antt =====
-- The ports of jubavisor.cpp: none is lost or handed out twice.
use jubatus.Base.{
  ℕ, zero, suc, ◌+◌, ◌-◌, ◌≡◌, ◌≤◌, refl, ◌∙◌, subst, ap, Bool, true, false, List, [], ◌∷◌, ◌++◌,
  length, length-append, ◌⊎◌, ltb, ◌==◌, if◌then◌else◌, Bool-cases, Option-cases, inl, inr, arith,
}
use jubatus.Base.Assoc.{lookup, put, lookup-put}
use jubatus.Base.Comp.{Result, ok}
use jubatus.Base.Int.{ℤ, pos, negsuc}
use jubatus.Base.Text.{Text}
use jubatus.Jubavisor.{
  System, Process, Supervisor, set_names, or_empty, with_entry, remove_entry, add_child, spawn_with,
  spawn, start_running, start_named, start,
}

-- How often the port stands in a list of ports, in a list of processes, and among the children.
abbrev pub occurs : ℕ → List ℕ → ℕ
occurs port [] = 0
occurs port (x ∷ xs) = (if x == port then 1 else 0) + occurs port xs

abbrev pub used : ℕ → List Process → ℕ
used port [] = 0
used port (p ∷ ps) = (if p.rpc_port == port then 1 else 0) + used port ps

abbrev pub held : ℕ → List (Text × List Process) → ℕ
held port [] = 0
held port (e ∷ m) = used port e.1 + held port m

-- How often the supervisor has the port, free or in use.
abbrev pub total : {S : Type 0} → ℕ → Supervisor S → ℕ
total port v = occurs port v.port_pool + held port v.children

pub occurs-append :
    (port : ℕ) (xs ys : List ℕ) → occurs port (xs ++ ys) ≡ occurs port xs + occurs port ys
occurs-append port [] ys = omega arith
occurs-append port (x ∷ xs) ys = omega (arith, occurs-append port xs ys)

used-append : (port : ℕ) (ps qs : List Process) → used port (ps ++ qs) ≡ used port ps + used port qs
used-append port [] qs = omega arith
used-append port (p ∷ ps) qs = omega (arith, used-append port ps qs)

held-put :
    (port : ℕ) (name : Text) (ps : List Process) (m : List (Text × List Process))
    → held port (put name ps m) + used port (or_empty (lookup name m)) ≡ held port m + used port ps
unfolding or_empty
held-put port name ps [] = omega arith
held-put port name ps (e ∷ m) = ground (arith, held-put port name ps m)

pub held-remove_entry :
    (port : ℕ) (name : Text) (m : List (Text × List Process))
    → held port (remove_entry name m) + used port (or_empty (lookup name m)) ≡ held port m
unfolding or_empty remove_entry
held-remove_entry port name [] = omega arith
held-remove_entry port name (e ∷ m) = ground (arith, held-remove_entry port name m)

held-with_entry :
    (port : ℕ) (name : Text) (m : List (Text × List Process))
    → held port (with_entry name (lookup name m) m) ≡ held port m
unfolding with_entry or_empty
held-with_entry port name m = elim (Option-cases (lookup name m)) [
  | inl none_there ↦
      rw none_there (let e = rw none_there at (held-put port name [] m) in omega (arith, e))
  | inr there ↦ rw (there.1) refl
]

module _ {S : Type 0} (sys : System S) where
  total-add_child :
      (port : ℕ) (name : Text) (p : Process) (v : Supervisor S)
      → total port (add_child sys name p v) ≡ total port v + (if p.rpc_port == port then 1 else 0)
  unfolding add_child
  total-add_child port name p v = omega (
    arith,
    held-put port name (or_empty (lookup name v.children) ++ (p ∷ [])) v.children,
    used-append port (or_empty (lookup name v.children)) (p ∷ []),
  )

  -- The pool that a round of `spawn` works on is the supervisor's.
  total-spawn :
      (n : ℕ) (port : ℕ) (server name : Text) (pool : List ℕ) (v : Supervisor S)
      → total port (spawn sys n server name pool (record v { port_pool = pool })).1
        ≡ total port (record v { port_pool = pool })
  unfolding spawn spawn_with
  total-spawn zero port server name pool v = refl
  total-spawn (suc n) port server name [] v = refl
  total-spawn (suc n) port server name (p1 ∷ pool) v = elim (Option-cases (sys.fork v.net).0) [
    | inl failed ↦ rw failed (omega (arith, occurs-append port pool (p1 ∷ [])))
    | inr forked ↦
        let p : Process = record { server = server; name = name; rpc_port = p1; pid = forked.0 } in
        let v' = record v { port_pool = pool; net = (sys.fork v.net).1 } in
        let rest = total-spawn n port server name pool (add_child sys name p v') in
        let one = total-add_child port name p v' in rw (forked.1) (omega (arith, rest, one))
  ]

  -- The number of processes of the name.
  abbrev pub running : Text → Supervisor S → ℕ
  running name v = length (or_empty (lookup name v.children))

  add_child-running :
      (name : Text) (p : Process) (v : Supervisor S)
      → running name (add_child sys name p v) ≡ suc (running name v)
  unfolding add_child or_empty
  add_child-running name p v =
      rw (lookup-put name (or_empty (lookup name v.children) ++ (p ∷ [])) v.children)
        (omega (arith, length-append (or_empty (lookup name v.children)) (p ∷ [])))

  -- With ports enough, the loop never takes the front of an empty pool, and when it returns zero it has
  -- added the processes asked for.
  spawn-running :
      (n : ℕ) (server name : Text) (pool : List ℕ) (v : Supervisor S)
      → n ≤ length pool
      → let r = spawn sys n server name pool v in
        ((r.0 ≡ ok (pos 0)) × (running name r.1 ≡ running name v + n)) ⊎ (r.0 ≡ ok (negsuc 0))
  unfolding spawn spawn_with
  spawn-running zero server name pool v h = inl (refl, omega arith)
  spawn-running (suc n) server name [] v h = absurd (omega arith)
  spawn-running (suc n) server name (p1 ∷ pool) v h = elim (Option-cases (sys.fork v.net).0) [
    | inl failed ↦ rw failed (inr refl)
    | inr forked ↦
        let p : Process = record { server = server; name = name; rpc_port = p1; pid = forked.0 } in
        let v' = record v { port_pool = pool; net = (sys.fork v.net).1 } in
        let rest = spawn-running n server name pool (add_child sys name p v') (omega arith) in
        rw (forked.1) (elim rest [
          | inl done ↦ inl (done.0, omega (arith, done.1, add_child-running name p v'))
          | inr failed ↦ inr failed
        ])
  ]

  -- What `start` leaves for a supervisor: a return value of zero with `n` processes of the name, or of minus
  -- one; either way every port stands in the pool and among the children as often as before.
  abbrev pub Started : Text → ℕ → Supervisor S → Result ℤ × Supervisor S → Type 0
  Started name n v r =
      (((r.0 ≡ ok (pos 0)) × (running name r.1 ≡ n)) ⊎ (r.0 ≡ ok (negsuc 0)))
      × ((port : ℕ) → total port r.1 ≡ total port v)

  start_running-Started :
      (n : ℕ) (server name : Text) (v : Supervisor S)
      → Started name n v (start_running sys n server name (or_empty (lookup name v.children)) v)
  unfolding start_running
  start_running-Started n server name v = elim (Bool-cases (ltb n (running name v))) [
    | inl many ↦ rw many (inr refl, λ port. refl)
    | inr room ↦ elim (Bool-cases (ltb (length v.port_pool) (n - running name v))) [
      | inl short ↦ rw (room, short) (inr refl, λ port. refl)
      | inr enough ↦
          rw (room, enough)
            (
              elim (spawn-running (n - running name v) server name v.port_pool v (ground arith)) [
                | inl done ↦ inl (done.0, ground (arith, done.1))
                | inr failed ↦ inr failed
              ],
              λ port. total-spawn (n - running name v) port server name v.port_pool v,
            )
    ]
  ]

  entry_running :
      (name : Text) (m : List (Text × List Process))
      → or_empty (lookup name (with_entry name (lookup name m) m)) ≡ or_empty (lookup name m)
  unfolding or_empty with_entry
  entry_running name m = elim (Option-cases (lookup name m)) [
    | inl none_there ↦ rw none_there (rw (lookup-put {A = List Process} name [] m) refl)
    | inr there ↦ rw (there.1, there.1) refl
  ]

  start_named-Started :
      (n : ℕ) (server name : Text) (good : Bool) (v : Supervisor S)
      → Started name n v (start_named sys n (server, name, good) v)
  unfolding start_named
  start_named-Started n server name false v = (inr refl, λ port. refl)
  start_named-Started n server name true v =
      let v' = record v { children = with_entry name (lookup name v.children) v.children } in
      let run = start_running-Started n server name v' in
      let same = entry_running name v.children in
      let run' = subst (λ ps. Started name n v' (start_running sys n server name ps v')) same run in
      (
        run'.0,
        λ port.
            run'.1 port
            ∙ ap (λ h. occurs port v.port_pool + h) (held-with_entry port name v.children),
      )

  -- `start` returns zero or minus one, never more. When it returns zero, exactly `n` processes of the name
  -- run. On every branch, a failing fork in the middle included, no port is lost or handed out twice:
  -- each one stands in the pool and among the children as often as before.
  pub start_lem :
      (str : Text) (n : ℕ) (v : Supervisor S) → Started (set_names str).1 n v (start sys str n v)
  unfolding start
  start_lem str n v = let names = set_names str in start_named-Started n names.0 names.1 names.2 v
