-- ===== src/Readiness/Final.antt =====
-- What a start was notified of is final, and a start that was replaced is not notified any more
-- (src/game_control/health.py).
use helios_horizon.Common.{
  ℕ, ◌+◌, ◌≤◌, ◌≡◌, refl, Bool, true, false, ◌&&◌, Option, none, some, List, [], ◌∷◌, ◌==◌, arith,
  get, get-put_self, Bool-cases, inl, inr,
}
use helios_horizon.Slot.Values.{ProfileId, value}
use helios_horizon.Controller.Lifecycle.Script.{Outcome, success, failed, timeout}
use helios_horizon.Readiness.{
  Ticket, Coordinator, notified_of, outcome_of, resolve, is_current, is_none, counted, begin,
  notify, finish_ticket, latest, woken, wake, empty,
}
use helios_horizon.Readiness.Store.{
  outcome-deactivate, outcome-resolve, outcome-resolve_self, outcome-has_cell,
}
use helios_horizon.Readiness.Notified.{
  Event, begun, notified, finished, woke, step, run, IsConsistent, empty-IsConsistent,
  run-IsConsistent, step-IsConsistent, notify-IsConsistent, current-has_cell, unset-none,
}

counted-cells : (o : Outcome) (s : Coordinator) → (counted o s).cells ≡ s.cells
counted-cells success s = refl
counted-cells failed s = refl
counted-cells timeout s = refl

woken-cells :
    (late : Bool) (r : Option Outcome) (s : Coordinator) → (woken late r s).1.cells ≡ s.cells
woken-cells true none s = refl
woken-cells true (some o) s = refl
woken-cells false none s = refl
woken-cells false (some o) s = refl

module _ (g : ℕ) (o : Outcome) where
  abbrev HasOutcome : Coordinator → Type 0
  HasOutcome s = outcome_of g s.cells ≡ some o

  begin-outcome :
      (p : ProfileId) (s : Coordinator) → IsConsistent s → HasOutcome s → HasOutcome (begin p s).1
  unfolding begin outcome_of
  begin-outcome p s ok set = ground (arith, ok.bounded g (outcome-has_cell g o s.cells set))

  notify-outcome :
      (ticket : Ticket) (o' : Outcome) (s : Coordinator)
      → HasOutcome s
      → HasOutcome (notify ticket o' s).1
  unfolding notify
  notify-outcome ticket o' s set =
      elim (Bool-cases (
        is_current ticket (get s.entries (value ticket.profile))
        && is_none (outcome_of ticket.generation s.cells))) [
          | inl h ↦
              rw (h, counted-cells o' (record s { cells = resolve ticket.generation o' s.cells }))
                (outcome-resolve ticket.generation g o' o s.cells
                  (unset-none (outcome_of ticket.generation s.cells) (ground arith)) set)
          | inr h ↦ rw h set
        ]

  finish-outcome :
      (ticket : Ticket) (s : Coordinator) → HasOutcome s → HasOutcome (finish_ticket ticket s)
  unfolding finish_ticket
  finish-outcome ticket s set = ground (arith, outcome-deactivate ticket.generation g s.cells)

  step-outcome :
      (e : Event) (s : Coordinator) → IsConsistent s → HasOutcome s → HasOutcome (step e s)
  unfolding wake
  step-outcome (begun p) s ok set = begin-outcome p s ok set
  step-outcome (notified ticket o') s ok set = notify-outcome ticket o' s set
  step-outcome (finished ticket) s ok set = finish-outcome ticket s set
  step-outcome (woke h late) s ok set = rw (woken-cells late (outcome_of h s.cells) s) set

  run-outcome :
      (events : List Event) (s : Coordinator)
      → IsConsistent s
      → HasOutcome s
      → HasOutcome (run events s)
  run-outcome [] s ok set = set
  run-outcome (e ∷ events) s ok set =
      run-outcome events (step e s) (step-IsConsistent e s ok) (step-outcome e s ok set)

-- A notification that is taken sets the outcome of its start.
notify-sets :
    (ticket : Ticket) (o : Outcome) (s : Coordinator)
    → IsConsistent s
    → (notify ticket o s).0 ≡ true
    → outcome_of ticket.generation (notify ticket o s).1.cells ≡ some o
unfolding notify
notify-sets ticket o s ok taken =
    elim (Bool-cases (
      is_current ticket (get s.entries (value ticket.profile))
      && is_none (outcome_of ticket.generation s.cells))) [
        | inl h ↦
            rw (h, counted-cells o (record s { cells = resolve ticket.generation o s.cells }))
              (outcome-resolve_self ticket.generation o s.cells
                (current-has_cell s ticket ok (ground arith)))
        | inr h ↦ ground arith
      ]

wake-notified :
    (g : ℕ) (o : Outcome) (s : Coordinator)
    → outcome_of g s.cells ≡ some o
    → (wake g false s).0 ≡ notified_of o
unfolding wake
wake-notified g o s set = rw set refl

notify-refused :
    (ticket : Ticket) (o o' : Outcome) (s : Coordinator)
    → outcome_of ticket.generation s.cells ≡ some o
    → (notify ticket o' s).0 ≡ false
unfolding notify
notify-refused ticket o o' s set = ground arith

-- Whatever happened before and happens after: once a notification of a start is taken, every
-- waiter for that start that is woken by its event gets that outcome, also when the profile has
-- been started again, and every further notification of that start is refused.
pub notify-final :
    (before after : List Event) (ticket : Ticket) (o o' : Outcome)
    → (notify ticket o (run before empty)).0 ≡ true
    → let s = run after (notify ticket o (run before empty)).1 in
      ((wake ticket.generation false s).0 ≡ notified_of o) × ((notify ticket o' s).0 ≡ false)
notify-final before after ticket o o' taken =
    let ok = run-IsConsistent before empty empty-IsConsistent in
    let ok' = notify-IsConsistent ticket o (run before empty) ok in
    let set =
      run-outcome ticket.generation o after (notify ticket o (run before empty)).1 ok'
        (notify-sets ticket o (run before empty) ok taken) in
    (
      wake-notified ticket.generation o (run after (notify ticket o (run before empty)).1) set,
      notify-refused ticket o o' (run after (notify ticket o (run before empty)).1) set,
    )

-- After a new start of its profile a ticket from before is refused, and nothing changes; `latest`
-- with its generation is refused too, and without one it gives the new ticket.
pub begin-supersedes :
    (p : ProfileId) (s : Coordinator) (g : ℕ) (o : Outcome)
    → g ≤ s.generation
    → let (ticket, s') = begin p s in
      (notify (record { profile = p; generation = g }) o s' ≡ (false, s'))
      × (latest p (some g) s' ≡ none)
      × (latest p none s' ≡ some ticket)
unfolding notify latest begin
begin-supersedes p s g o old =
    rw (get-put_self s.entries (value p) (s.generation + 1), newer, older) (refl, refl, refl)
  where
    newer : (s.generation + 1 == g) ≡ false
    newer = ground arith

    older : (g == s.generation + 1) ≡ false
    older = ground arith
