-- ===== src/IdleStop/Streaks.antt =====
-- An automatic stop comes at the end of an idle time, and once in it
-- (src/game_control/idle_stop.py).
use helios_horizon.Common.{
  ℕ, ◌+◌, ◌≤◌, String, ◌≡◌, refl, sym, ◌⊎◌, inl, inr, Bool, true, false, not, ◌&&◌, ◌||◌,
  Bool-cases, Option-cases, none, some, List, [], ◌∷◌, ◌++◌, All, arith, str_eq, eq_iff, Dict, get,
  get-put, get-remove, get-put_self,
}
use helios_horizon.IdleStop.{
  Streak, Profile, Status, idle_limit, is_idle, continue_streak, observe_idle, observe, reset,
  Event, sample, resetting, step, after,
}

-- The call is no end of an idle time of the profile: it is of another, or an idle sample.
unfoldable pub is_quiet : String → Event → Bool
is_quiet id (sample now profile status) = not (str_eq profile.id id) || is_idle profile status
is_quiet id (resetting other) = not (str_eq other id)

-- Since an idle sample at the time, the history (the last call first) has no end of the idle time.
pub data IsIdleSince (id : String) (start : ℕ) : List Event → Type 0 where
  begins :
      (now : ℕ) (profile : Profile) (status : Status) (history : List Event)
      → now ≡ start
      → profile.id ≡ id
      → is_idle profile status ≡ true
      → IsIdleSince id start (sample now profile status ∷ history)
  lasts :
      (e : Event) (history : List Event)
      → is_quiet id e ≡ true
      → IsIdleSince id start history
      → IsIdleSince id start (e ∷ history)

-- What an idle sample leaves of the streak of an id: it is the old one, perhaps marked, or it
-- begins.
observe_idle-streak :
    (now : ℕ) (profile : Profile) (id : String) (streaks : Dict Streak) (s : Streak)
    → get (observe_idle now profile streaks).1 id ≡ some s
    → ((old : Streak) × (get streaks id ≡ some old) × (old.started_at ≡ s.started_at))
      ⊎ ((profile.id ≡ id) × (now ≡ s.started_at))
unfolding observe_idle continue_streak
observe_idle-streak now profile id streaks s h = elim (Option-cases (get streaks profile.id)) [
  | inl absent ↦ ground (
    arith,
    eq_iff profile.id id,
    get-put streaks profile.id id (record { started_at = now; attempted = false }),
  )
  | inr (old, present) ↦
      ground (
        arith,
        eq_iff profile.id id,
        get-put streaks profile.id id (record old { attempted = true }),
      )
]

-- A streak that is there began with an idle sample, and only idle samples and calls for others came
-- after.
after-IsIdleSince :
    (id : String) (history : List Event) (s : Streak)
    → get (after history) id ≡ some s
    → IsIdleSince id s.started_at history
unfolding after step observe reset get is_quiet
after-IsIdleSince id [] s h = absurd (ground arith)
after-IsIdleSince id (resetting other ∷ history) s h =
    lasts (resetting other) history (ground (arith, get-remove (after history) other id))
      (after-IsIdleSince id history s (ground (arith, get-remove (after history) other id)))
after-IsIdleSince id (sample now profile status ∷ history) s h =
    elim (Bool-cases (is_idle profile status)) [
      | inr busy ↦
          lasts (sample now profile status) history
            (ground (arith, get-remove (after history) profile.id id))
            (after-IsIdleSince id history s
              (ground (arith, get-remove (after history) profile.id id)))
      | inl idle ↦ elim (observe_idle-streak now profile id (after history) s (ground arith)) [
        | inl (old, present, same) ↦
            lasts (sample now profile status) history (ground arith)
              (rw (sym same) (after-IsIdleSince id history old present))
        | inr (same, starts) ↦ begins now profile status history starts same idle
      ]
    ]

observe_idle-stop :
    (now : ℕ) (profile : Profile) (streaks : Dict Streak)
    → (observe_idle now profile streaks).0 ≡ true
    → (s : Streak) × (get streaks profile.id ≡ some s)
      × (s.started_at + idle_limit profile ≤ now)
      × (get (observe_idle now profile streaks).1 profile.id ≡ some (record s { attempted = true }))
unfolding observe_idle continue_streak
observe_idle-stop now profile streaks h = elim (Option-cases (get streaks profile.id)) [
  | inl absent ↦ absurd (ground arith)
  | inr (s, present) ↦ (
    s,
    present,
    ground arith,
    ground (arith, get-put_self streaks profile.id (record s { attempted = true })),
  )
]

-- A stop is asked for on an idle sample only, and the profile was idle in every sample for at least
-- the time of the setting.
pub observe-stop :
    (now : ℕ) (profile : Profile) (status : Status) (history : List Event)
    → (observe now profile status (after history)).0 ≡ true
    → (is_idle profile status ≡ true)
      × ((start : ℕ) × (start + idle_limit profile ≤ now) × IsIdleSince profile.id start history)
unfolding observe
observe-stop now profile status history h = elim (Bool-cases (is_idle profile status)) [
  | inr busy ↦ absurd (ground arith)
  | inl idle ↦
      let (s, present, long, marked) =
        observe_idle-stop now profile (after history) (ground arith) in
      (idle, (s.started_at, long, after-IsIdleSince profile.id history s present))
]

-- A streak that was used is kept through quiet calls.
step-used :
    (id : String) (e : Event) (streaks : Dict Streak) (s : Streak)
    → get streaks id ≡ some s
    → s.attempted ≡ true
    → is_quiet id e ≡ true
    → get (step e streaks) id ≡ some s
unfolding step observe observe_idle continue_streak reset is_quiet
step-used id (resetting other) streaks s present used quiet =
    ground (arith, get-remove streaks other id)
step-used id (sample now profile status) streaks s present used quiet =
    elim (Bool-cases (is_idle profile status)) [
      | inr busy ↦ ground (arith, get-remove streaks profile.id id)
      | inl idle ↦ elim (Option-cases (get streaks profile.id)) [
        | inl absent ↦ ground (
          arith,
          eq_iff profile.id id,
          get-put streaks profile.id id (record { started_at = now; attempted = false }),
        )
        | inr (old, there) ↦ ground (
          arith,
          eq_iff profile.id id,
          get-put streaks profile.id id (record old { attempted = true }),
        )
      ]
    ]

after-used :
    (id : String) (middle history : List Event) (s : Streak)
    → get (after history) id ≡ some s
    → s.attempted ≡ true
    → All (λ e. is_quiet id e ≡ true) middle
    → get (after (middle ++ history)) id ≡ some s
unfolding after
after-used id [] history s present used quiet = present
after-used id (e ∷ middle) history s present used (here, rest) =
    step-used id e (after (middle ++ history)) s (after-used id middle history s present used rest)
      used here

observe-used :
    (now : ℕ) (profile : Profile) (status : Status) (streaks : Dict Streak) (s : Streak)
    → get streaks profile.id ≡ some s
    → s.attempted ≡ true
    → (observe now profile status streaks).0 ≡ false
unfolding observe observe_idle continue_streak
observe-used now profile status streaks s present used = ground arith

-- The streak of a profile that was asked to stop is used.
after-stop :
    (now : ℕ) (profile : Profile) (status : Status) (history : List Event)
    → (observe now profile status (after history)).0 ≡ true
    → (s : Streak) × (get (after (sample now profile status ∷ history)) profile.id ≡ some s)
      × (s.attempted ≡ true)
unfolding after step observe
after-stop now profile status history h = elim (Bool-cases (is_idle profile status)) [
  | inr busy ↦ absurd (ground arith)
  | inl idle ↦
      let (s, present, long, marked) =
        observe_idle-stop now profile (after history) (ground arith) in
      (record s { attempted = true }, ground (arith, marked), refl)
]

-- After a stop was asked for, no further one is while the profile stays idle.
pub observe-once :
    (now later : ℕ) (profile profile' : Profile) (status status' : Status)
    (middle history : List Event)
    → profile'.id ≡ profile.id
    → (observe now profile status (after history)).0 ≡ true
    → All (λ e. is_quiet profile.id e ≡ true) middle
    → (observe later profile' status' (after (middle ++ sample now profile status ∷ history))).0
      ≡ false
observe-once now later profile profile' status status' middle history same stop quiet =
    let (s, present, used) = after-stop now profile status history stop in
    let kept =
      after-used profile.id middle (sample now profile status ∷ history) s present used quiet in
    observe-used later profile' status' (after (middle ++ sample now profile status ∷ history)) s
      (rw same kept) used

-- Whether some sample of the profile in the later calls asks for a stop.
unfoldable pub stops : String → List Event → List Event → Bool
stops id [] history = false
stops id (sample now profile status ∷ middle) history =
    let rest = stops id middle history in
    (str_eq profile.id id && (observe now profile status (after (middle ++ history))).0) || rest
stops id (resetting other ∷ middle) history = stops id middle history

-- A streak that is unused is kept through quiet calls that ask for no stop.
after-unused :
    (id : String) (middle history : List Event) (s : Streak)
    → get (after history) id ≡ some s
    → s.attempted ≡ false
    → All (λ e. is_quiet id e ≡ true) middle
    → stops id middle history ≡ false
    → get (after (middle ++ history)) id ≡ some s
unfolding after stops step observe observe_idle continue_streak reset is_quiet
after-unused id [] history s present unused quiet h = present
after-unused id (resetting other ∷ middle) history s present unused (here, rest) h = ground (
  arith,
  get-remove (after (middle ++ history)) other id,
  after-unused id middle history s present unused rest,
)
after-unused id (sample now profile status ∷ middle) history s present unused (here, rest) h =
    let streaks = after (middle ++ history) in
    let kept = after-unused id middle history s present unused rest in
    elim (Bool-cases (is_idle profile status)) [
      | inr busy ↦ ground (arith, kept, get-remove streaks profile.id id)
      | inl idle ↦ elim (Option-cases (get streaks profile.id)) [
        | inl absent ↦ ground (
          arith,
          kept,
          eq_iff profile.id id,
          get-put streaks profile.id id (record { started_at = now; attempted = false }),
        )
        | inr (old, there) ↦ ground (
          arith,
          kept,
          eq_iff profile.id id,
          get-put streaks profile.id id (record old { attempted = true }),
        )
      ]
    ]

after-fresh :
    (now : ℕ) (profile : Profile) (status : Status) (history : List Event)
    → get (after history) profile.id ≡ none
    → is_idle profile status ≡ true
    → get (after (sample now profile status ∷ history)) profile.id
      ≡ some (record { started_at = now; attempted = false })
unfolding after step observe observe_idle
after-fresh now profile status history fresh idle = ground (
  arith,
  get-put_self (after history) profile.id (record { started_at = now; attempted = false }),
)

observe-long :
    (now : ℕ) (profile : Profile) (status : Status) (streaks : Dict Streak) (s : Streak)
    → get streaks profile.id ≡ some s
    → s.attempted ≡ false
    → is_idle profile status ≡ true
    → s.started_at + idle_limit profile ≤ now
    → (observe now profile status streaks).0 ≡ true
unfolding observe observe_idle continue_streak
observe-long now profile status streaks s present unused idle long = ground arith

-- A profile that is idle from a sample on has been asked to stop by the first sample after the time
-- of the setting, if it had no streak before: one of the samples in between asked, or this one
-- does.
pub observe-due :
    (start now : ℕ) (profile : Profile) (status status' : Status) (middle history : List Event)
    → get (after history) profile.id ≡ none
    → is_idle profile status ≡ true
    → is_idle profile status' ≡ true
    → All (λ e. is_quiet profile.id e ≡ true) middle
    → start + idle_limit profile ≤ now
    → (stops profile.id middle (sample start profile status ∷ history)
        || (observe now profile status'
            (after (middle ++ sample start profile status ∷ history))).0)
      ≡ true
observe-due start now profile status status' middle history fresh idle idle' quiet due =
    let begun : Streak = record { started_at = start; attempted = false } in
    let first = sample start profile status in
    elim (Bool-cases (stops profile.id middle (first ∷ history))) [
      | inl stopped ↦ rw stopped refl
      | inr unstopped ↦
          let kept =
            after-unused profile.id middle (first ∷ history) begun
              (after-fresh start profile status history fresh idle) refl quiet unstopped in
          rw unstopped (
            observe-long now profile status' (after (middle ++ first ∷ history)) begun kept refl
              idle' due)
    ]
