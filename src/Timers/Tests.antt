-- ===== src/Timers/Tests.antt =====
-- One timer, set up, ticking, given a new period and dropped.
use guinea.Base.{
  ℕ, ◌+◌, ◌<◌, ◌≡◌, subst, ◌==◌, if◌then◌else◌, ◌≢◌, refl, Bool, true, false, none, some, List, [],
  ◌∷◌, ◌⊎◌, Any, All, codes, arith,
}
use guinea.Timers.{
  fixed, Entry, Wake, Timers, Call, starts, drops, start, put, new_entry, wake_after, armed, next,
  call, tick, set_period, drop_ticking, running, running_below, upgrade, running_entry, calls,
  run_timer, finish_tick, asked, u64_bound,
}
use guinea.Timers.Chains.{WakesUp}
use guinea.Timers.Keeping.{InBounds, SoundWith}
use guinea.Timers.Stepping.{Steps, calls_it, fires, passes, stays, steps, Step-Sound, Steps-Sound}
use guinea.Timers.Restarting.{set_period-restarts}
use guinea.Timers.Stopping.{runs_of, Steps-IsStopped}
use guinea.Timers.Listing.{IsTold, known, Steps-IsTold}

abbrev no_timers : Timers ℕ
no_timers = record {
  world = 0;
  now = 0;
  next_id = 1;
  entries = λ i. none;
  wakes = [];
  told = [];
  ran = [];
}

abbrev counts : ℕ → ℕ → ℕ × List (Call ℕ)
counts id world = (world + 1, [])

abbrev first : Call ℕ
first = starts (codes "main.rs:4") none none (fixed 5)

no_timers-InBounds : InBounds no_timers
no_timers-InBounds = (omega arith, λ i e h. absurd (cc h))

abbrev first_wake : Wake
first_wake = record { timer = 1; generation = 0; due = 5 }

abbrev one_timer : Timers ℕ
one_timer = call first no_timers

abbrev later : Timers ℕ
later = record one_timer { now = one_timer.now + 5 }

abbrev ticked : Timers ℕ
ticked = tick counts 1 0 (record later { wakes = [] })

abbrev entry : Entry ℕ
entry = new_entry (codes "main.rs:4") none none (fixed 5) (some 5)

only_entry :
    (b : Bool) (d e : Entry ℕ)
    → (if b then some d else none) ≡ some e
    → d.generation ≡ 0
    → e.generation + 1 < u64_bound
only_entry true d e h new =
    let same : d ≡ e = cc h in omega (arith, subst (λ (x : Entry ℕ). x.generation ≡ 0) same new)
only_entry false d e h new = absurd (cc h)

one_timer-InBounds : InBounds one_timer
unfolding call start wake_after armed next put new_entry
one_timer-InBounds = (omega arith, λ i e h. only_entry (i == 1) entry e h refl)

no_timers-Sound : SoundWith [] no_timers
no_timers-Sound = (tt, tt, (λ i le. refl), (λ i e h held paced. absurd (cc h)))

one_timer-Sound : SoundWith [] one_timer
one_timer-Sound =
    Step-Sound counts no_timers one_timer no_timers-Sound (calls_it first no_timers-InBounds)

ticks-fires : Steps counts no_timers ticked
unfolding call start wake_after armed next put
ticks-fires =
    steps (calls_it first no_timers-InBounds)
      (steps (passes 5) (steps (fires [] first_wake [] refl (omega arith) (λ e at. tt)) stays))

ticked-runs : ticked.ran ≡ 1 ∷ []
unfolding call start wake_after armed next put tick running_entry run_timer calls finish_tick
    new_entry asked
ticked-runs = refl

Steps-Sound_example : SoundWith [] ticked
Steps-Sound_example = Steps-Sound counts no_timers ticked no_timers-Sound ticks-fires

Steps-IsTold_example : IsTold ticked
unfolding running known running_below
Steps-IsTold_example = Steps-IsTold counts no_timers ticked ((λ i le. refl), refl) ticks-fires

ticked-running : running ticked ≡ 1 ∷ []
unfolding call start wake_after armed next put tick running_entry run_timer calls finish_tick
    new_entry asked running running_below
ticked-running = refl

-- It is dropped, and the wake-up that waits does nothing.
abbrev dropped : Timers ℕ
dropped = call (drops 1) one_timer

Steps-IsStopped_example :
    runs_of 1 (tick counts 1 0 (record dropped { now = dropped.now + 5; wakes = [] })).ran ≡ 0
unfolding call start wake_after armed next put new_entry drop_ticking running_entry
Steps-IsStopped_example =
    Steps-IsStopped counts 1 dropped _ (omega arith, refl)
      (steps (passes 5) (steps (fires [] first_wake [] refl (omega arith) (λ e at. tt)) stays))

set_period-restarts_example :
    All
      (λ w.
        (w.timer ≢ 1)
        ⊎ (w.due ≡ 2)
        ⊎ (tick counts w.timer w.generation (set_period 1 (fixed 2) one_timer)
            ≡ set_period 1 (fixed 2) one_timer))
      (set_period 1 (fixed 2) one_timer).wakes
    × Any (λ w. WakesUp 1 1 w × (w.due ≡ 2)) (set_period 1 (fixed 2) one_timer).wakes
unfolding call start wake_after armed next put new_entry upgrade
set_period-restarts_example =
    set_period-restarts counts 1 (fixed 2) 2 entry one_timer one_timer-Sound one_timer-InBounds refl
      refl
