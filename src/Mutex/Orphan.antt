-- ===== src/Mutex/Orphan.antt =====
-- A client of zk.cpp whose listing has failed, and the node that it has left in the directory.
use jubatus.Base.{
  ℕ, ◌≡◌, ◌<◌, refl, Bool, true, false, List, [], ◌∷◌, ◌++◌, map, some, none, Mem, Bool-cases, inl,
  inr, arith,
}
use jubatus.Base.Text.{Text}
use jubatus.LockService.{LockService}
use jubatus.Mutex.{ZkMutex, wlock, try_lock}
use jubatus.Mutex.Calls.{try_lock_leaves_node, try_lock_decides, seqfile_ne}
use jubatus.Mutex.Order.{Attempt, write, Within, Sequence, any_less, seqfile, name_of}
use mathlib.Core.HLevel.{⊥_prop}
use mathlib.Core.List.{not-mem-nil, mem-cons}
use mathlib.Core.Logic.Or

not_less :
    (n : ℕ) (e : Attempt) (es : List Attempt) → Mem e es → e.number < n → ¬ (any_less n es ≡ false)
not_less n e [] m h none_less = not-mem-nil m
not_less n e (x ∷ es) m h none_less =
    Or.elim ⊥_prop (mem-cons.0 m) (λ here. ground arith)
      (λ there. not_less n e es there h (ground arith))

any_less-Mem :
    (n : ℕ) (e : Attempt) (es : List Attempt) → Mem e es → e.number < n → any_less n es ≡ true
any_less-Mem n e es m h = elim (Bool-cases (any_less n es)) [
  | inl some_less ↦ some_less
  | inr none_less ↦ absurd (not_less n e es m h none_less)
]

module _ {S : Type 0} (ls : LockService S) (starts_with : Text → Text → Bool) (junk : Text)
    (limit : ℕ) (pad : ℕ → Text) (q : Sequence limit pad) where
  -- For a mutex that is not held: when a call of `try_lock` has made its node, with the number `n`, and its listing has failed,
  -- it returns false and leaves the node. The next call, whose node has a greater number and whose listing succeeds
  -- and holds the node that was left, then returns false as well, removes only its own node, and leaves the
  -- mutex free: the client is beaten by its own node for as long as that stays there.
  pub orphan_blocks :
      (m : ZkMutex) (s s1 s2 s3 s4 : S) (n k : ℕ) (e : Attempt) (es : List Attempt)
      → m.has_lock ≡ false
      → n < k
      → k < limit
      → ls.create_seq (m.path ++ (b'/' ∷ wlock)) s
        ≡ (some (seqfile limit pad q junk m.path write n), s1)
      → ls.list m.path s1 ≡ (none, s2)
      → ls.create_seq (m.path ++ (b'/' ∷ wlock)) s2
        ≡ (some (seqfile limit pad q junk m.path write k), s3)
      → ls.list m.path s3 ≡ (some (map (name_of limit pad q junk m.path) (e ∷ es)), s4)
      → Within limit (e ∷ es)
      → (o : Attempt) → o.number ≡ n
      → Mem o (e ∷ es)
      → let first = try_lock ls starts_with junk m s in
        let second = try_lock ls starts_with junk first.0.1 first.1 in
        let mine = seqfile limit pad q junk m.path write k in
        (first.0.0 ≡ false)
        × (second ≡ ((false, record m { seqfile = mine; has_lock = false }), (ls.remove mine s4).1))
  orphan_blocks m s s1 s2 s3 s4 n k e es free lt below c1 l1 c2 l2 within o same mem =
      let left =
        try_lock_leaves_node ls starts_with junk m s s1 s2 free
          (seqfile limit pad q junk m.path write n)
          (seqfile_ne ls starts_with junk m s s1 s2 free limit pad q m.path n) c1 l1 in
      let m2 : ZkMutex = record m { seqfile = seqfile limit pad q junk m.path write n } in
      let next =
        try_lock_decides ls starts_with junk m2 s2 s3 s4 free limit pad q k e es below within c2
          l2 in
      let before = any_less-Mem k o (e ∷ es) mem (omega (arith, same)) in
      rw left (refl, rw before at next)
