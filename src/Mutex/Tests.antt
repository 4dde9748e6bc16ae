-- ===== src/Mutex/Tests.antt =====
-- Runs of the try-locks on the lock service in memory, and of two processes on one directory.
use jubatus.Base.{ℕ, ◌≡◌, ◌==◌, refl, Bool, true, false, [], ◌∷◌, ◌++◌, none, if◌then◌else◌, arith}
use jubatus.Base.Text.{Text, codes, text_lt}
use jubatus.LockService.{LockService, shutdown_server}
use jubatus.Mutex.{ZkMutex, wlock, beaten, try_lock}
use jubatus.Mutex.Order.{Attempt, seqfile, write, created, losing, holding, StartsWith}
use jubatus.Mutex.Orphan.{orphan_blocks}
use jubatus.Mutex.System.{Directory, create, judge, Reach, start, step, judge_at}
use jubatus.Mutex.System.Exclusion.{Reach-exclusive}
use jubatus.Samples.Memory.{Memory, memory_service}
use jubatus.Samples.Notation.{padded, seq_limit, padded-Sequence}
use mathlib.Core.List.{mem-cons_self, mem-cons_of_mem}

abbrev starts_with : Text → Text → Bool
starts_with s [] = true
starts_with [] (c ∷ p) = false
starts_with (a ∷ s) (c ∷ p) = if a == c then starts_with s p else false

starts_with-append : (p s : Text) → starts_with (p ++ s) p ≡ true
starts_with-append [] s = refl
starts_with-append (c ∷ p) s = ground (arith, starts_with-append p s)

starts_with_rest : (p s : Text) → starts_with s p ≡ true → (t : Text) × (s ≡ p ++ t)
starts_with_rest [] s h = (s, refl)
starts_with_rest (c ∷ p) [] h = absurd (ground arith)
starts_with_rest (c ∷ p) (a ∷ s) h =
    let r = starts_with_rest p s (ground arith) in (r.0, ground (arith, r.1))

starts_with-StartsWith : StartsWith starts_with
starts_with-StartsWith = record { hit = starts_with-append; only = starts_with_rest }

abbrev dir : Text
dir = codes "/master_lock"

abbrev fresh : ZkMutex
fresh = record { path = dir; seqfile = []; has_lock = false; has_rlock = false }

abbrev empty : Memory
empty = record { nodes = []; functions = []; versions = 0 }

abbrev locked : ZkMutex
locked = record {
  path = dir;
  seqfile = codes "/master_lock/wlock_0000000000";
  has_lock = true;
  has_rlock = true;
}

first_try : (try_lock memory_service starts_with [] fresh empty).0.0 ≡ true
unfolding try_lock beaten text_lt
first_try = refl

second_try :
    (try_lock memory_service starts_with [] fresh
      (try_lock memory_service starts_with [] fresh empty).1).0.0
    ≡ false
unfolding try_lock beaten text_lt
second_try = refl

-- A service on which listings fail.
abbrev unlisted : LockService Memory
unlisted = record memory_service { list = λ p s. (none, s) }

abbrev after_create : Memory
after_create = (unlisted.create_seq (dir ++ (b'/' ∷ wlock)) empty).1

abbrev attempt : ℕ → Attempt
attempt n = record { kind = write; number = n; stage = created }

abbrev holder : Attempt
holder = record { kind = write; number = 0; stage = holding }

-- The first of two processes makes its node, then the second, and both list the directory.
abbrev contended : Directory
contended = record {
  next = 2;
  nodes = record { kind = write; number = 1; stage = losing } ∷ holder ∷ [];
}

contended-Reach :
    Reach seq_limit (padded 10) padded-Sequence [] dir starts_with starts_with-StartsWith contended
unfolding judge_at beaten text_lt
contended-Reach =
    step
      (step
        (step (step (start 0 (omega arith)) (create write (omega arith)))
          (create write (omega arith)))
        (judge 0))
      (judge 1)

Reach-exclusive_example : holder.number ≡ holder.number
Reach-exclusive_example =
    Reach-exclusive seq_limit (padded 10) padded-Sequence [] dir starts_with starts_with-StartsWith
      holder holder contended-Reach (mem-cons_of_mem _ mem-cons_self)
      (mem-cons_of_mem _ mem-cons_self) refl refl refl

-- A service on which the first listing fails: `functions` is empty until then.
abbrev flaky : LockService Memory
flaky = record memory_service {
  list = λ p s. elim s.functions [
    | [] ↦ (none, record s { functions = shutdown_server ∷ [] })
    | f ∷ fs ↦ memory_service.list p s
  ];
}

abbrev listed_once : Memory
listed_once = record after_create { functions = shutdown_server ∷ [] }

abbrev second_node : Memory
second_node = (flaky.create_seq (dir ++ (b'/' ∷ wlock)) listed_once).1

orphan_blocks_example :
    let first = try_lock flaky starts_with [] fresh empty in
    let second = try_lock flaky starts_with [] first.0.1 first.1 in
    let mine = seqfile seq_limit (padded 10) padded-Sequence [] dir write 1 in
    (first.0.0 ≡ false)
    × (second ≡ (
      (false, record fresh { seqfile = mine; has_lock = false }),
      (flaky.remove mine second_node).1,
    ))
orphan_blocks_example =
    orphan_blocks flaky starts_with [] seq_limit (padded 10) padded-Sequence fresh empty
      after_create listed_once second_node second_node 0 1 (attempt 1) (attempt 0 ∷ []) refl
      (omega arith) (omega arith) refl refl refl refl (omega arith, (omega arith, tt)) (attempt 0)
      refl (mem-cons_of_mem _ mem-cons_self)
