-- ===== src/Mutex.antt =====
-- `zkmutex` of jubatus/server/common/zk.hpp and zk.cpp: the try-locks on a directory of sequence
-- nodes. `starts_with` is jubatus_util's; `junk` is the memory behind a name's terminating zero,
-- which the comparison of the names also copies.
pub mod Order
pub mod Calls
pub mod Read
pub mod Orphan
pub mod System
mod Tests
use jubatus.Base.{
  ℕ, ◌+◌, ◌≡◌, Bool, true, false, ◌&&◌, not, List, [], ◌∷◌, ◌++◌, Option, none, some, length, take,
  drop, if◌then◌else◌,
}
use jubatus.Base.Text.{Text, codes, text_lt}
use jubatus.LockService.{LockService}

pub record ZkMutex : Type 0 where
  pub path : Text
  pub seqfile : Text
  pub has_lock : Bool
  pub has_rlock : Bool

abbrev pub wlock : Text
wlock = codes "wlock_"

abbrev pub rlock : Text
rlock = codes "rlock_"

-- The bytes of `path1` behind the prefix: `string(c_str, prefix.size() + 16)` from `prefix.length()`.
unfoldable pub entry_key : Text → Text → ℕ → Text → Text
entry_key junk path n name = drop n (take (n + 16) ((path ++ (b'/' ∷ name)) ++ (0 ∷ junk)))

-- The loop of `try_lock`: is there a lock node before mine?
unfoldable pub beaten : Text → Text → ℕ → Text → List Text → Bool
unfolding entry_key
beaten junk path n seqfile [] = false
beaten junk path n seqfile (name ∷ names) =
    let rest = beaten junk path n seqfile names in
    if text_lt (entry_key junk path n name) (drop n seqfile) then true else rest

-- The loop of `try_rlock`: is there a write lock node before mine?
unfoldable pub beaten_by_writer : (Text → Text → Bool) → Text → Text → ℕ → Text → List Text → Bool
unfolding entry_key
beaten_by_writer starts_with junk path n seqfile [] = false
beaten_by_writer starts_with junk path n seqfile (name ∷ names) =
    let rest = beaten_by_writer starts_with junk path n seqfile names in
    if starts_with name wlock && text_lt (entry_key junk path n name) (drop n seqfile)
    then true
    else rest

module _ {S : Type 0} (ls : LockService S) (starts_with : Text → Text → Bool) (junk : Text) where
  -- What follows the loop of `try_lock`: the result of the loop decides.
  settle : ZkMutex → Bool → S → (Bool × ZkMutex) × S
  settle m true s = ((false, record m { has_lock = false }), (ls.remove m.seqfile s).1)
  settle m false s = ((true, record m { has_lock = true }), s)

  judge : ZkMutex → Option (List Text) → S → (Bool × ZkMutex) × S
  unfolding settle
  judge m none s = ((false, m), s)
  judge m (some []) s = ((false, m), s)
  judge m (some (c ∷ cs)) s =
      settle m (beaten junk m.path (length (m.path ++ (b'/' ∷ wlock))) m.seqfile (c ∷ cs)) s

  enlist : ZkMutex → Option Text → S → (Bool × ZkMutex) × S
  unfolding judge
  enlist m none s = ((false, record m { seqfile = [] }), s)
  enlist m (some []) s = ((false, record m { seqfile = [] }), s)
  enlist m (some (c ∷ f)) s =
      judge (record m { seqfile = c ∷ f }) (ls.list m.path s).0 (ls.list m.path s).1

  unfoldable pub try_lock : ZkMutex → S → (Bool × ZkMutex) × S
  unfolding enlist
  try_lock m s =
      let r = ls.create_seq (m.path ++ (b'/' ∷ wlock)) s in
      if m.has_lock then ((true, m), s) else enlist m r.0 r.1

  pub unlock : ZkMutex → S → (Bool × ZkMutex) × S
  unlock m s =
      let r = ls.remove m.seqfile s in if m.has_lock then ((r.0, m), r.1) else ((true, m), s)

  settle_r : ZkMutex → Bool → S → (Bool × ZkMutex) × S
  settle_r m true s = ((false, record m { has_rlock = false }), (ls.remove m.seqfile s).1)
  settle_r m false s = ((true, record m { has_rlock = true }), s)

  judge_r : ZkMutex → Option (List Text) → S → (Bool × ZkMutex) × S
  unfolding settle_r
  judge_r m none s = ((false, m), s)
  judge_r m (some []) s = ((false, m), s)
  judge_r m (some (c ∷ cs)) s =
      settle_r m
        (beaten_by_writer starts_with junk m.path (length (m.path ++ (b'/' ∷ rlock))) m.seqfile
          (c ∷ cs))
        s

  enlist_r : ZkMutex → Option Text → S → (Bool × ZkMutex) × S
  unfolding judge_r
  enlist_r m none s = ((false, record m { seqfile = [] }), s)
  enlist_r m (some []) s = ((false, record m { seqfile = [] }), s)
  enlist_r m (some (c ∷ f)) s =
      judge_r (record m { seqfile = c ∷ f }) (ls.list m.path s).0 (ls.list m.path s).1

  unfoldable pub try_rlock : ZkMutex → S → (Bool × ZkMutex) × S
  unfolding enlist_r
  try_rlock m s =
      let r = ls.create_seq (m.path ++ (b'/' ∷ rlock)) s in
      if m.has_rlock then ((true, m), s) else enlist_r m r.0 r.1

  pub unlock_r : ZkMutex → S → (Bool × ZkMutex) × S
  unlock_r m s =
      let r = ls.remove m.seqfile s in if m.has_rlock then ((r.0, m), r.1) else ((true, m), s)
