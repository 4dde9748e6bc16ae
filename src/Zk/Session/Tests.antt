-- ===== src/Zk/Session/Tests.antt =====
-- A connection that is seen again after a number of questions, and cleanup functions that are counted.
use jubatus.Base.{ℕ, zero, suc, ◌+◌, ◌≡◌, ◌≢◌, refl, [], ◌∷◌}
use jubatus.LockService.{Cleanup, shutdown_server, force_exit}
use jubatus.Zk.{Handle}
use jubatus.Zk.Session.{
  session, SessionState, connected, connecting, expired, mywatcher, mywatcher_lem, session_event,
  recover, wait_until_connected, wait_loop, run_cleanup, run_each, cleaned, Recovered,
}

abbrev zoo_state : ℕ → SessionState × ℕ
zoo_state zero = (connected, 0)
zoo_state (suc n) = (connecting, n)

abbrev run : Cleanup → ℕ → ℕ
run f s = s + 10

abbrev handle : Handle ℕ
handle = record { cleanups = shutdown_server ∷ force_exit ∷ []; net = 2 }

comes_back : mywatcher zoo_state run 2 session connecting handle ≡ record handle { net = 0 }
unfolding mywatcher session_event recover wait_until_connected wait_loop
comes_back = refl

-- Two questions are too few.
stays_away : mywatcher zoo_state run 1 session connecting handle ≡ record handle { net = 20 }
unfolding mywatcher session_event recover wait_until_connected wait_loop run_cleanup run_each
stays_away = refl

mywatcher_lem_example :
    ((session ≡ session)
      → connecting ≡ expired
      → mywatcher zoo_state run 1 session connecting handle
        ≡ cleaned zoo_state run handle handle.net)
    × ((session ≡ session)
        → connecting ≡ connecting
        → Recovered zoo_state run 1 handle (mywatcher zoo_state run 1 session connecting handle))
    × (connecting ≢ expired
        → connecting ≢ connecting
        → mywatcher zoo_state run 1 session connecting handle ≡ handle)
    × (session ≢ session → mywatcher zoo_state run 1 session connecting handle ≡ handle)
mywatcher_lem_example = mywatcher_lem zoo_state run 1 session connecting handle
