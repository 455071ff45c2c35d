-- ===== src/Readiness/Notified.antt =====
-- Each start of the coordinator of src/game_control/health.py is notified of at most one outcome,
-- which stays and is counted once.
use helios_horizon.Common.{
  ℕ, ◌+◌, ◌≤◌, ◌≡◌, refl, sym, ◌∙◌, String, Bool, true, false, ◌&&◌, Option, none, some, List, [],
  ◌∷◌, arith, get, get-put, Bool-cases, inl, inr,
}
use helios_horizon.Slot.Values.{ProfileId, value}
use helios_horizon.Controller.Lifecycle.Script.{Outcome, success, failed, timeout}
use helios_horizon.Readiness.Store.{
  count_of, has_cell, has_cell-resolve, has_cell-deactivate, count-deactivate, count-resolve,
}
use helios_horizon.Readiness.{
  Ticket, Coordinator, outcome_of, resolve, is_current, is_none, counted, begin, notify,
  finish_ticket, woken, wake, empty,
}

-- What happens to a coordinator.
pub data Event : Type 0 where
  begun : ProfileId → Event
  notified : Ticket → Outcome → Event
  finished : Ticket → Event
  woke : ℕ → Bool → Event

abbrev pub step : Event → Coordinator → Coordinator
step (begun p) s = (begin p s).1
step (notified ticket o) s = (notify ticket o s).1
step (finished ticket) s = finish_ticket ticket s
step (woke g late) s = (wake g late s).1

-- The events in their order
abbrev pub run : List Event → Coordinator → Coordinator
run [] s = s
run (e ∷ events) s = run events (step e s)

-- The entries name cells, the generations go up to the last one, and the counts are those of the
-- cells.
pub record IsConsistent (s : Coordinator) : Type 0 where
  pub linked : (key : String) (g : ℕ) → get s.entries key ≡ some g → has_cell g s.cells ≡ true
  pub bounded : (g : ℕ) → has_cell g s.cells ≡ true → g ≤ s.generation
  pub successes : count_of success s.cells ≡ s.successes
  pub failures : count_of failed s.cells ≡ s.failures
  pub timeouts : count_of timeout s.cells ≤ s.timeouts

pub empty-IsConsistent : IsConsistent empty
unfolding get has_cell count_of
empty-IsConsistent = record {
  linked = λ key g h. ground arith;
  bounded = λ g h. ground arith;
  successes = refl;
  failures = refl;
  timeouts = omega arith;
}

begin-IsConsistent : (p : ProfileId) (s : Coordinator) → IsConsistent s → IsConsistent (begin p s).1
unfolding begin has_cell count_of
begin-IsConsistent p s ok = record {
  linked = λ key g h.
      ground (arith, get-put s.entries (value p) key (s.generation + 1), ok.linked key g);
  bounded = λ g h. ground (arith, ok.bounded g);
  successes = ok.successes;
  failures = ok.failures;
  timeouts = ok.timeouts;
}

-- An entry that is current has a cell.
pub current-has_cell :
    (s : Coordinator) (ticket : Ticket)
    → IsConsistent s
    → is_current ticket (get s.entries (value ticket.profile)) ≡ true
    → has_cell ticket.generation s.cells ≡ true
current-has_cell s ticket ok current =
    ground (arith, ok.linked (value ticket.profile) ticket.generation)

resolved-IsConsistent :
    (g : ℕ) (o : Outcome) (s : Coordinator)
    → IsConsistent s
    → outcome_of g s.cells ≡ none
    → has_cell g s.cells ≡ true
    → IsConsistent (counted o (record s { cells = resolve g o s.cells }))
resolved-IsConsistent g success s ok unset there = record {
  linked = λ key h e. has_cell-resolve g h success s.cells ∙ ok.linked key h e;
  bounded = λ h e. ok.bounded h (sym (has_cell-resolve g h success s.cells) ∙ e);
  successes = omega (arith, count-resolve g success success s.cells unset there, ok.successes);
  failures = omega (arith, count-resolve g success failed s.cells unset there, ok.failures);
  timeouts = omega (arith, count-resolve g success timeout s.cells unset there, ok.timeouts);
}
resolved-IsConsistent g failed s ok unset there = record {
  linked = λ key h e. has_cell-resolve g h failed s.cells ∙ ok.linked key h e;
  bounded = λ h e. ok.bounded h (sym (has_cell-resolve g h failed s.cells) ∙ e);
  successes = omega (arith, count-resolve g failed success s.cells unset there, ok.successes);
  failures = omega (arith, count-resolve g failed failed s.cells unset there, ok.failures);
  timeouts = omega (arith, count-resolve g failed timeout s.cells unset there, ok.timeouts);
}
resolved-IsConsistent g timeout s ok unset there = record {
  linked = λ key h e. has_cell-resolve g h timeout s.cells ∙ ok.linked key h e;
  bounded = λ h e. ok.bounded h (sym (has_cell-resolve g h timeout s.cells) ∙ e);
  successes = omega (arith, count-resolve g timeout success s.cells unset there, ok.successes);
  failures = omega (arith, count-resolve g timeout failed s.cells unset there, ok.failures);
  timeouts = omega (arith, count-resolve g timeout timeout s.cells unset there, ok.timeouts);
}

pub unset-none : (r : Option Outcome) → is_none r ≡ true → r ≡ none
unset-none none h = refl
unset-none (some o) h = ground arith

pub notify-IsConsistent :
    (ticket : Ticket) (o : Outcome) (s : Coordinator)
    → IsConsistent s
    → IsConsistent (notify ticket o s).1
unfolding notify
notify-IsConsistent ticket o s ok =
    elim (Bool-cases (
      is_current ticket (get s.entries (value ticket.profile))
      && is_none (outcome_of ticket.generation s.cells))) [
        | inl h ↦ rw h (
            resolved-IsConsistent ticket.generation o s ok
              (unset-none (outcome_of ticket.generation s.cells) (ground arith))
              (current-has_cell s ticket ok (ground arith)))
        | inr h ↦ rw h ok
      ]

finish-IsConsistent :
    (ticket : Ticket) (s : Coordinator) → IsConsistent s → IsConsistent (finish_ticket ticket s)
unfolding finish_ticket
finish-IsConsistent ticket s ok =
    elim (Bool-cases (is_current ticket (get s.entries (value ticket.profile)))) [
      | inl h ↦ rw h (record {
        linked = λ key g e. has_cell-deactivate ticket.generation g s.cells ∙ ok.linked key g e;
        bounded = λ g e. ok.bounded g (sym (has_cell-deactivate ticket.generation g s.cells) ∙ e);
        successes = count-deactivate ticket.generation success s.cells ∙ ok.successes;
        failures = count-deactivate ticket.generation failed s.cells ∙ ok.failures;
        timeouts = omega (arith, count-deactivate ticket.generation timeout s.cells, ok.timeouts);
      })
      | inr h ↦ rw h ok
    ]

woken-IsConsistent :
    (late : Bool) (r : Option Outcome) (s : Coordinator)
    → IsConsistent s
    → IsConsistent (woken late r s).1
woken-IsConsistent true none s ok = record {
  linked = ok.linked;
  bounded = ok.bounded;
  successes = ok.successes;
  failures = ok.failures;
  timeouts = omega (arith, ok.timeouts);
}
woken-IsConsistent true (some o) s ok = ok
woken-IsConsistent false none s ok = ok
woken-IsConsistent false (some o) s ok = ok

pub step-IsConsistent : (e : Event) (s : Coordinator) → IsConsistent s → IsConsistent (step e s)
unfolding wake
step-IsConsistent (begun p) s ok = begin-IsConsistent p s ok
step-IsConsistent (notified ticket o) s ok = notify-IsConsistent ticket o s ok
step-IsConsistent (finished ticket) s ok = finish-IsConsistent ticket s ok
step-IsConsistent (woke g late) s ok = woken-IsConsistent late (outcome_of g s.cells) s ok

pub run-IsConsistent :
    (events : List Event) (s : Coordinator) → IsConsistent s → IsConsistent (run events s)
run-IsConsistent [] s ok = ok
run-IsConsistent (e ∷ events) s ok = run-IsConsistent events (step e s) (step-IsConsistent e s ok)

-- Whatever happened since the coordinator was made, its successes and failures are the numbers of
-- starts that were notified of them, and its timeouts are at least those of which a start was
-- notified.
pub run-counts :
    (events : List Event)
    → let s = run events empty in
      (count_of success s.cells ≡ s.successes)
      × (count_of failed s.cells ≡ s.failures)
      × (count_of timeout s.cells ≤ s.timeouts)
run-counts events =
    let ok = run-IsConsistent events empty empty-IsConsistent in
    (ok.successes, ok.failures, ok.timeouts)
