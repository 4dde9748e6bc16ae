-- ===== src/Mutex/Read.antt =====
-- The read lock of zk.cpp in one process: `try_rlock`, and `unlock` with `unlock_r` on what it leaves.
use jubatus.Base.{
  ◌≡◌, refl, Bool, true, false, List, [], ◌∷◌, ◌++◌, Option, none, some, inl, inr, Bool-cases,
  arith,
}
use jubatus.Base.Text.{Text}
use jubatus.LockService.{LockService}
use jubatus.Mutex.{ZkMutex, rlock, settle_r, judge_r, enlist_r, try_rlock, unlock, unlock_r}

module _ {S : Type 0} (ls : LockService S) (starts_with : Text → Text → Bool) (junk : Text) where
  -- A result of the call: a lock that is held when it is true, and the write lock as it was.
  abbrev pub Reading : Bool → (Bool × ZkMutex) × S → Type 0
  Reading w r = ((r.0.0 ≡ true) → r.0.1.has_rlock ≡ true) × (r.0.1.has_lock ≡ w)

  settle_r-Reading :
      (m : ZkMutex) (b : Bool) (s : S) → Reading m.has_lock (settle_r ls starts_with junk m b s)
  unfolding settle_r
  settle_r-Reading m true s = (λ e. cc, refl)
  settle_r-Reading m false s = (λ e. refl, refl)

  judge_r-Reading :
      (m : ZkMutex) (o : Option (List Text)) (s : S)
      → Reading m.has_lock (judge_r ls starts_with junk m o s)
  unfolding judge_r
  judge_r-Reading m none s = (λ e. cc, refl)
  judge_r-Reading m (some []) s = (λ e. cc, refl)
  judge_r-Reading m (some (c ∷ cs)) s = settle_r-Reading m _ s

  enlist_r-Reading :
      (m : ZkMutex) (o : Option Text) (s : S)
      → Reading m.has_lock (enlist_r ls starts_with junk m o s)
  unfolding enlist_r
  enlist_r-Reading m none s = (λ e. cc, refl)
  enlist_r-Reading m (some []) s = (λ e. cc, refl)
  enlist_r-Reading m (some (c ∷ f)) s =
      judge_r-Reading (record m { seqfile = c ∷ f }) (ls.list m.path s).0 (ls.list m.path s).1

  try_rlock_free :
      (m : ZkMutex) (s : S)
      → m.has_rlock ≡ false
      → let r = ls.create_seq (m.path ++ (b'/' ∷ rlock)) s in
        try_rlock ls starts_with junk m s ≡ enlist_r ls starts_with junk m r.0 r.1
  unfolding try_rlock
  try_rlock_free m s h = ground arith

  -- After `try_rlock` the read lock is held if it returned true, and the write lock is held or not as before.
  pub try_rlock-Reading :
      (m : ZkMutex) (s : S) → Reading m.has_lock (try_rlock ls starts_with junk m s)
  unfolding try_rlock
  try_rlock-Reading m s = elim (Bool-cases m.has_rlock) [
    | inl e ↦ rw e (λ t. refl, refl)
    | inr e ↦
        let r = ls.create_seq (m.path ++ (b'/' ∷ rlock)) s in
        rw (try_rlock_free m s e) (enlist_r-Reading m r.0 r.1)
  ]

  -- The destructor of a lock that is held for reading only asks for its node to be removed, once.
  pub unlock_r-unlock :
      (m : ZkMutex) (s : S)
      → m.has_lock ≡ false
      → m.has_rlock ≡ true
      → let w = unlock ls starts_with junk m s in
        (unlock_r ls starts_with junk w.0.1 w.1).1 ≡ (ls.remove m.seqfile s).1
  unfolding unlock unlock_r
  unlock_r-unlock m s e f = rw (e, f) refl
