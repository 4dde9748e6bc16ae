-- ===== src/Zk/Watchers/Tests.antt =====
-- A watched node that is deleted, made again and deleted again.
use jubatus.Base.{ℕ, true, false, List, [], ◌∷◌}
use jubatus.Zk.Session.{EventType, created, deleted}
use jubatus.Zk.Watchers.{Watched}

abbrev events : List EventType
events = deleted ∷ created ∷ deleted ∷ []

abbrev bound : Watched ℕ
bound = record { live = true; calls = 0; faulted = false; net = 0 }
