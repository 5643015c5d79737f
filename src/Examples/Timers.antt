-- ===== src/Examples/Timers.antt =====
-- The inactivity timer of resource 4 after its initialisation.
use postmarketos_x00td_cellu.Common.{◌≡◌, refl, true, false, [], ◌∷◌, suc, arith}
use postmarketos_x00td_cellu.Common.Int.{pos}
use postmarketos_x00td_cellu.Rm.InactivityTimer.{Timers, no_handle, timer_init}
use postmarketos_x00td_cellu.Rm.TimerRuns.{
  requests, releases, expires, acts, released_times, IsTimer, request_holds, release_ends,
}

abbrev at_boot : Timers
at_boot = record { handle = λ n. no_handle; queued = λ n. false; calls = [] }

abbrev ready : Timers
unfolding timer_init
ready = (timer_init 4 100 true at_boot).1

ready-IsTimer : IsTimer 4 ready
unfolding ready
ready-IsTimer = record { named = omega arith; initied = refl; in_progress = refl }

-- A release is pending when the request comes.
abbrev pending : Timers
unfolding acts ready
pending = acts 4 (releases ∷ []) ready

pending-IsTimer : IsTimer 4 pending
unfolding pending
pending-IsTimer = record { named = omega arith; initied = refl; in_progress = refl }

request_holds_example :
    released_times 4
      (acts 4 (requests (pos 0) ∷ expires ∷ requests (pos 0) ∷ expires ∷ []) pending).calls
    ≡ released_times 4 pending.calls
request_holds_example =
    request_holds 4 (pos 0) (expires ∷ requests (pos 0) ∷ expires ∷ []) pending pending-IsTimer
      (tt, (tt, (tt, tt)))

release_ends_example :
    let t' = acts 4 (releases ∷ expires ∷ expires ∷ []) pending in
    (released_times 4 t'.calls ≡ suc (released_times 4 pending.calls))
    × (t'.queued 4 ≡ false)
    × IsTimer 4 t'
release_ends_example = release_ends 4 pending pending-IsTimer
