-- ===== src/Jubavisor/Release.antt =====
-- `stop` and the handler of a child's exit in jubavisor.cpp: where the ports go.
use jubatus.Base.{
  ℕ, ◌+◌, ◌≡◌, ◌≤◌, refl, subst, true, false, List, [], ◌∷◌, ◌++◌, none, some, ◌==◌, Bool-cases,
  Option-cases, inl, inr, arith,
}
use jubatus.Base.Assoc.{lookup}
use jubatus.Base.Text.{Text}
use jubatus.Jubavisor.{
  System, Process, Supervisor, set_names, or_empty, remove_entry, kill_all, stop_found, stop,
  take_process, take_child, take_first, release, child_exited,
}
use jubatus.Jubavisor.Ports.{occurs, used, held, total, occurs-append, held-remove_entry}

module _ {S : Type 0} (sys : System S) where
  total-kill_all :
      (ps : List Process) (port : ℕ) (v : Supervisor S)
      → let w = (kill_all sys ps v).1 in
        (total port w ≤ total port v + used port ps)
        × (((pid : ℕ) (s : S) → (sys.kill pid s).0 ≡ true)
            → total port w ≡ total port v + used port ps)
        × (((pid : ℕ) (s : S) → (sys.kill pid s).0 ≡ false) → total port w ≡ total port v)
  unfolding kill_all
  total-kill_all [] port v = (omega arith, λ h. omega arith, λ h. refl)
  total-kill_all (p ∷ ps) port v = elim (Bool-cases (sys.kill p.pid v.net).0) [
    | inl killed ↦
        let v' = record v {
          port_pool = v.port_pool ++ (p.rpc_port ∷ []);
          net = (sys.kill p.pid v.net).1;
        } in
        let rest = total-kill_all ps port v' in
        let more = occurs-append port v.port_pool (p.rpc_port ∷ []) in
        rw killed (
          omega (arith, rest.0, more),
          λ h. omega (arith, rest.1 h, more),
          λ h. absurd (let no_kill = h p.pid v.net in ground (arith, no_kill, killed)),
        )
    | inr failed ↦
        let v' = record v { net = (sys.kill p.pid v.net).1 } in
        let rest = total-kill_all ps port v' in
        rw failed (
          omega (arith, rest.0),
          λ h. absurd (let kill = h p.pid v.net in ground (arith, kill, failed)),
          λ h. rest.2 h,
        )
  ]

  -- `stop` never hands a port out twice. When every kill succeeds all the ports of the processes of the name
  -- return to the pool, so each port is there as often as before. A kill that fails loses the port: when
  -- all of them fail, the supervisor has each port less often by the number of those processes on it,
  -- although they run on.
  pub stop_lem :
      (str : Text) (n port : ℕ) (v : Supervisor S)
      → let w = (stop sys str n v).1 in
        (total port w ≤ total port v)
        × (((pid : ℕ) (s : S) → (sys.kill pid s).0 ≡ true) → total port w ≡ total port v)
        × (((pid : ℕ) (s : S) → (sys.kill pid s).0 ≡ false)
            → total port w + used port (or_empty (lookup (set_names str).1 v.children))
              ≡ total port v)
  unfolding stop stop_found or_empty
  stop_lem str n port v =
      let name = (set_names str).1 in
      let removed = held-remove_entry port name v.children in
      elim (Option-cases (lookup name v.children)) [
        | inl none_there ↦ rw none_there (omega arith, λ h. refl, λ h. omega arith)
        | inr there ↦
            let run =
              total-kill_all there.0 port (record v { children = remove_entry name v.children }) in
            let e : held port (remove_entry name v.children) + used port there.0
                ≡ held port v.children =
              rw (there.1) at removed in
            rw (there.1) (
              omega (arith, run.0, e),
              λ h. omega (arith, run.1 h, e),
              λ h. omega (arith, run.2 h, e),
            )
      ]

take_process-used :
    (pid port : ℕ) (ps : List Process) (r : ℕ × List Process)
    → take_process pid ps ≡ some r
    → used port ps ≡ occurs port (r.0 ∷ []) + used port r.1
unfolding take_process
take_process-used pid port [] r e = absurd (ground arith)
take_process-used pid port (p ∷ ps) r e = elim (Bool-cases (pid == p.pid)) [
  | inl here ↦
      let e' : some (p.rpc_port, ps) ≡ some r = rw here at e in
      let same : (p.rpc_port, ps) ≡ r = cc in
      subst (λ x. used port (p ∷ ps) ≡ occurs port (x.0 ∷ []) + used port x.1) same (omega arith)
  | inr later ↦ elim (Option-cases (take_process pid ps)) [
    | inl absent ↦ absurd (let e' : none ≡ some r = rw (later, absent) at e in ground (arith, e'))
    | inr found ↦
        let e' : some (found.0.0, p ∷ found.0.1) ≡ some r = rw (later, found.1) at e in
        let same : (found.0.0, p ∷ found.0.1) ≡ r = cc in
        let ih = take_process-used pid port ps found.0 (found.1) in
        subst (λ x. used port (p ∷ ps) ≡ occurs port (x.0 ∷ []) + used port x.1) same
          (omega (arith, ih))
  ]
]

take_child-held :
    (pid port : ℕ) (m : List (Text × List Process)) (r : ℕ × List (Text × List Process))
    → take_child pid m ≡ some r
    → held port m ≡ occurs port (r.0 ∷ []) + held port r.1
unfolding take_child take_first
take_child-held pid port [] r e = absurd (ground arith)
take_child-held pid port (x ∷ m) r e = elim (Option-cases (take_process pid x.1)) [
  | inr found ↦
      let e' : some (found.0.0, (x.0, found.0.1) ∷ m) ≡ some r = rw (found.1) at e in
      let same : (found.0.0, (x.0, found.0.1) ∷ m) ≡ r = cc in
      let here = take_process-used pid port x.1 found.0 (found.1) in
      subst (λ y. held port (x ∷ m) ≡ occurs port (y.0 ∷ []) + held port y.1) same
        (omega (arith, here))
  | inl absent ↦ elim (Option-cases (take_child pid m)) [
    | inl nowhere ↦
        absurd (let e' : none ≡ some r = rw (absent, nowhere) at e in ground (arith, e'))
    | inr later ↦
        let e' : some (later.0.0, x ∷ later.0.1) ≡ some r = rw (absent, later.1) at e in
        let same : (later.0.0, x ∷ later.0.1) ≡ r = cc in
        let ih = take_child-held pid port m later.0 (later.1) in
        subst (λ y. held port (x ∷ m) ≡ occurs port (y.0 ∷ []) + held port y.1) same
          (omega (arith, ih))
  ]
]

-- The handler of a child's exit gives the port of the child back: every port is there as often as before,
-- whether or not the child is known.
pub total-child_exited :
    {S : Type 0} (pid port : ℕ) (v : Supervisor S) → total port (child_exited pid v) ≡ total port v
unfolding child_exited release
total-child_exited pid port v = elim (Option-cases (take_child pid v.children)) [
  | inl unknown ↦ rw unknown refl
  | inr found ↦
      let e = take_child-held pid port v.children found.0 (found.1) in
      rw (found.1) (omega (arith, e, occurs-append port v.port_pool (found.0.0 ∷ [])))
]
