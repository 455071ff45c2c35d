-- ===== src/Readiness/Examples.antt =====
-- Two starts of a server, of which the first is notified before the second begins.
use helios_horizon.Common.{◌≤◌, ◌≡◌, refl, true, false, List, [], ◌∷◌, get, put}
use helios_horizon.Slot.Values.{value, terraria_vanilla}
use helios_horizon.Controller.Lifecycle.Script.{success, failed, timeout}
use helios_horizon.Readiness.{Ticket, notified_of, outcome_of, begin, notify, wake, empty}
use helios_horizon.Readiness.Store.{count_of}
use helios_horizon.Readiness.Notified.{Event, begun, notified, finished, woke, run, run-counts}
use helios_horizon.Readiness.Final.{notify-final}

abbrev first_ticket : Ticket
first_ticket = record { profile = terraria_vanilla; generation = 1 }

abbrev started : List Event
started = begun terraria_vanilla ∷ []

abbrev started_again : List Event
started_again = finished first_ticket ∷ begun terraria_vanilla ∷ notified first_ticket failed ∷ []

run-counts_example :
    let s = run (begun terraria_vanilla ∷ notified first_ticket success ∷ woke 1 true ∷ []) empty in
    (count_of success s.cells ≡ s.successes)
    × (count_of failed s.cells ≡ s.failures)
    × (count_of timeout s.cells ≤ s.timeouts)
run-counts_example =
    run-counts (begun terraria_vanilla ∷ notified first_ticket success ∷ woke 1 true ∷ [])

notify-final_example :
    let s = run started_again (notify first_ticket success (run started empty)).1 in
    ((wake 1 false s).0 ≡ notified_of success) × ((notify first_ticket failed s).0 ≡ false)
unfolding begin notify get put outcome_of value
notify-final_example = notify-final started started_again first_ticket success failed refl
