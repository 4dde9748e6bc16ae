-- ===== src/Mutex/Calls.antt =====
-- What one call of `try_lock` decides, and what it leaves behind when the lock service fails.
use jubatus.Base.{
  ℕ, ◌≡◌, ◌<◌, ◌≢◌, refl, ap, ◌∙◌, Bool, true, false, List, [], ◌∷◌, ◌++◌, map, some, none, length,
  length-append, if◌then◌else◌, arith,
}
use jubatus.Base.Text.{Text}
use jubatus.LockService.{LockService}
use jubatus.Mutex.{ZkMutex, wlock, settle, judge, enlist, try_lock, unlock, try_rlock, unlock_r}
use jubatus.Mutex.Order.{
  Attempt, write, Within, Sequence, any_less, seqfile, name_of, beaten-any_less,
}

module _ {S : Type 0} (ls : LockService S) (starts_with : Text → Text → Bool) (junk : Text) where
  enlist_lem :
      (m : ZkMutex) (f : Text) (s : S)
      → f ≢ []
      → enlist ls starts_with junk m (some f) s
        ≡ judge ls starts_with junk
            (record m { seqfile = f })
            (ls.list m.path s).0
            (ls.list m.path s).1
  unfolding enlist
  enlist_lem m [] s h = absurd (h refl)
  enlist_lem m (c ∷ f) s h = refl

  settle_lem :
      (m : ZkMutex) (s : S) (b : Bool)
      → settle ls starts_with junk m b s ≡ (
          if b
          then ((false, record m { has_lock = false }), (ls.remove m.seqfile s).1)
          else ((true, record m { has_lock = true }), s))
  unfolding settle
  settle_lem m s true = refl
  settle_lem m s false = refl

  try_lock_free :
      (m : ZkMutex) (s : S)
      → m.has_lock ≡ false
      → let r = ls.create_seq (m.path ++ (b'/' ∷ wlock)) s in
        try_lock ls starts_with junk m s ≡ enlist ls starts_with junk m r.0 r.1
  unfolding try_lock
  try_lock_free m s h = ground arith

  -- A mutex that has been unlocked still counts as locked: the next `try_lock` returns true and
  -- does not ask the lock service, whatever nodes are there. So does `try_rlock` after `unlock_r`.
  pub try_lock-unlock :
      (m : ZkMutex) (s : S)
      → ((m.has_lock ≡ true)
          → try_lock ls starts_with junk
              (unlock ls starts_with junk m s).0.1
              (unlock ls starts_with junk m s).1
            ≡ ((true, m), (ls.remove m.seqfile s).1))
        × ((m.has_rlock ≡ true)
            → try_rlock ls starts_with junk
                (unlock_r ls starts_with junk m s).0.1
                (unlock_r ls starts_with junk m s).1
              ≡ ((true, m), (ls.remove m.seqfile s).1))
  unfolding try_lock unlock try_rlock unlock_r
  try_lock-unlock m s = (λ h. ground arith, λ h. ground arith)

  module _ (m : ZkMutex) (s s1 s2 : S) (free : m.has_lock ≡ false) where
    -- For a mutex that is not held: when the node was made and the listing fails, `try_lock`
    -- returns false and removes nothing: the state is the one that the listing left, with the new
    -- node in it.
    pub try_lock_leaves_node :
        (f : Text)
        → f ≢ []
        → ls.create_seq (m.path ++ (b'/' ∷ wlock)) s ≡ (some f, s1)
        → ls.list m.path s1 ≡ (none, s2)
        → try_lock ls starts_with junk m s ≡ ((false, record m { seqfile = f }), s2)
    unfolding judge
    try_lock_leaves_node f ne c l = try_lock_free m s free ∙ rw (c, enlist_lem m f s1 ne, l)

    module _ (limit : ℕ) (pad : ℕ → Text) (q : Sequence limit pad) where
      pub seqfile_ne : (path : Text) (n : ℕ) → seqfile limit pad q junk path write n ≢ []
      seqfile_ne path n e = omega (
        arith,
        ap length e,
        length-append (path ++ (b'/' ∷ wlock)) (pad n),
        length-append path (b'/' ∷ wlock),
      )

      -- For a mutex that is not held, whose node was made with the number `n`, and a directory
      -- whose listing succeeds and is not empty: `try_lock` returns true exactly when no node in
      -- the listing has a smaller number; when it returns false it has asked for its own node to
      -- be removed.
      pub try_lock_decides :
          (n : ℕ) (e : Attempt) (es : List Attempt)
          → n < limit
          → Within limit (e ∷ es)
          → ls.create_seq (m.path ++ (b'/' ∷ wlock)) s
            ≡ (some (seqfile limit pad q junk m.path write n), s1)
          → ls.list m.path s1 ≡ (some (map (name_of limit pad q junk m.path) (e ∷ es)), s2)
          → let mine = seqfile limit pad q junk m.path write n in
            try_lock ls starts_with junk m s ≡ (
              if any_less n (e ∷ es)
              then ((false, record m { seqfile = mine; has_lock = false }), (ls.remove mine s2).1)
              else ((true, record m { seqfile = mine; has_lock = true }), s2))
      unfolding judge
      try_lock_decides n e es hn h c l =
          try_lock_free m s free
          ∙ rw
              (
                c,
                enlist_lem m (seqfile limit pad q junk m.path write n) s1 (seqfile_ne m.path n),
                l,
                beaten-any_less limit pad q junk m.path n (e ∷ es) hn h,
              )
              (settle_lem (record m { seqfile = seqfile limit pad q junk m.path write n }) s2
                (any_less n (e ∷ es)))
