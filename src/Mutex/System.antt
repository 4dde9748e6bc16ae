-- ===== src/Mutex/System.antt =====
-- Any number of processes that call `try_lock` and `try_rlock` on one directory. The calls
-- interleave between making the node, listing the directory and removing the node. ZooKeeper numbers the
-- nodes upwards; a node may go away at any moment (a failed attempt, `unlock`, a dead session).
pub mod Exclusion
use jubatus.Base.{
  ℕ, suc, ◌≡◌, ◌≤◌, ◌<◌, refl, sym, Bool, true, false, List, [], ◌∷◌, map, Mem, length, ◌++◌,
  if◌then◌else◌, ltb, ◌==◌, ◌&&◌, arith, Bool-cases, inl, inr, ◌∙◌,
}
use jubatus.Base.Text.{Text}
use jubatus.Mutex.{beaten, beaten_by_writer, wlock, rlock}
use jubatus.Mutex.Order.{
  Attempt, Kind, write, read, Stage, created, losing, holding, Within, Sequence, StartsWith,
  any_less, any_write_less, is_write, seqfile, name_of, beaten-any_less,
  beaten_by_writer-any_write_less,
}
use mathlib.Core.List.{not-mem-nil, mem-cons}
use mathlib.Core.Logic.Or
use native.Mathlib.Nat.{ℕ_set}

-- The directory, newest node first, and the next sequence number.
pub record Directory : Type 0 where
  pub next : ℕ
  pub nodes : List Attempt

pub remove : ℕ → List Attempt → List Attempt
remove n [] = []
remove n (e ∷ es) = if e.number == n then es else e ∷ remove n es

module _ (limit : ℕ) (pad : ℕ → Text) (q : Sequence limit pad) (junk path : Text)
    (starts_with : Text → Text → Bool) (sw : StartsWith starts_with) where
  -- What the loops of `try_lock` and `try_rlock` find for a node in this listing.
  pub is_beaten : List Attempt → Kind → ℕ → Bool
  is_beaten es write n =
      beaten junk path (length (path ++ (b'/' ∷ wlock))) (seqfile limit pad q junk path write n)
        (map (name_of limit pad q junk path) es)
  is_beaten es read n =
      beaten_by_writer starts_with junk path (length (path ++ (b'/' ∷ rlock)))
        (seqfile limit pad q junk path read n) (map (name_of limit pad q junk path) es)

  pub verdict : List Attempt → Attempt → Stage → Stage
  unfolding is_beaten
  verdict whole e created = if is_beaten whole e.kind e.number then losing else holding
  verdict whole e other = other

  -- The process that made node `n` lists the directory and takes its decision.
  unfoldable pub judge_at : ℕ → List Attempt → List Attempt → List Attempt
  unfolding verdict
  judge_at n whole [] = []
  judge_at n whole (e ∷ es) =
      if e.number == n
      then record e { stage = verdict whole e e.stage } ∷ es
      else e ∷ judge_at n whole es

  pub data Step (d : Directory) : Directory → Type 0 where
    create :
        (k : Kind)
        → d.next < limit
        → Step d (record {
          next = suc d.next;
          nodes = record { kind = k; number = d.next; stage = created } ∷ d.nodes;
        })
    judge : (n : ℕ) → Step d (record d { nodes = judge_at n d.nodes d.nodes })
    vanish : (n : ℕ) → Step d (record d { nodes = remove n d.nodes })

  pub data Reach : Directory → Type 0 where
    start : (n : ℕ) → n ≤ limit → Reach (record { next = n; nodes = [] })
    step : {d e : Directory} → Reach d → Step d e → Reach e
