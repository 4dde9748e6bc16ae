-- ===== src/Zk/Watchers.antt =====
-- The handlers of watched nodes in zk.cpp, my_znode_watcher and my_znode_delete_watcher. Each is bound with a pointer to
-- a function on the heap, which it calls and deletes; the state follows one such pointer.
mod Tests
use jubatus.Base.{ℕ, zero, suc, ◌+◌, ◌≡◌, Bool, true, false, not, ◌||◌, List, [], ◌∷◌, ltb}
use jubatus.Zk.Session.{
  EventType, created, deleted, changed, child, session, not_watching, unknown_type,
}

-- `live` says that the function has not been deleted, `calls` counts its calls, and `faulted` says that it was called or
-- deleted after it had been deleted.
pub record Watched (S : Type 0) : Type 0 where
  pub live : Bool
  pub calls : ℕ
  pub faulted : Bool
  pub net : S

-- `(*fp)(…)`, whose exceptions are caught, and `delete fp`.
call_and_delete : {S : Type 0} → (S → S) → Watched S → Watched S
call_and_delete f w = record {
  live = false;
  calls = suc w.calls;
  faulted = w.faulted || not w.live;
  net = f w.net;
}

module _ {S : Type 0} (f : S → S) (zoo_wexists : S → S) where
  pub my_znode_watcher : EventType → Watched S → Watched S
  unfolding call_and_delete
  my_znode_watcher type w = call_and_delete f w

  -- Binding the handler again, with the pointer that it was given.
  bind_again : Watched S → Watched S
  bind_again w = record w { net = zoo_wexists w.net }

  pub my_znode_delete_watcher : EventType → Watched S → Watched S
  unfolding call_and_delete bind_again
  my_znode_delete_watcher deleted w = bind_again (call_and_delete f w)
  my_znode_delete_watcher session w = w
  my_znode_delete_watcher created w = bind_again w
  my_znode_delete_watcher changed w = bind_again w
  my_znode_delete_watcher child w = bind_again w
  my_znode_delete_watcher not_watching w = bind_again w
  my_znode_delete_watcher unknown_type w = bind_again w

-- The events that a handler gets one after the other.
pub handle_all :
    {S : Type 0} → (EventType → Watched S → Watched S) → List EventType → Watched S → Watched S
handle_all handler [] w = w
handle_all handler (e ∷ es) w = handle_all handler es (handler e w)

abbrev pub deletions : List EventType → ℕ
deletions [] = 0
deletions (deleted ∷ es) = suc (deletions es)
deletions (created ∷ es) = deletions es
deletions (changed ∷ es) = deletions es
deletions (child ∷ es) = deletions es
deletions (session ∷ es) = deletions es
deletions (not_watching ∷ es) = deletions es
deletions (unknown_type ∷ es) = deletions es

-- After `n` calls that delete.
abbrev faults : Bool → ℕ → Bool
faults true n = ltb 1 n
faults false n = ltb 0 n

module _ {S : Type 0} (f : S → S) (zoo_wexists : S → S) where
  -- The function has been called `n` times more, and its deletion has been outlived or not.
  abbrev pub Called : ℕ → Watched S → Watched S → Type 0
  Called n w r = (r.calls ≡ w.calls + n) × (r.faulted ≡ (w.faulted || faults w.live n))
