-- ===== src/Timers.antt =====
-- crates/guinea-app/src/timers.rs: the timers of one thread, on a clock that counts from 0. What a
-- period, a condition or a scope's `Awake` reads is the world; what a timer runs is a parameter. A
-- wake-up waits until it is due, and the ones that are due come in any order.
pub mod Chains
pub mod Firing
pub mod Keeping
pub mod Stepping
pub mod Pacing
pub mod Stopping
pub mod Restarting
pub mod Listing
mod Tests
use guinea.Base.{
  ℕ, zero, suc, ◌+◌, ◌-◌, ◌%◌, Bool, true, false, ◌&&◌, ◌||◌, Option, none, some, List, [], ◌∷◌,
  ◌++◌, Text, if◌then◌else◌, ◌==◌, map_or,
}

-- The bound of a `u64`.
abbrev pub u64_bound : ℕ
u64_bound = 18446744073709551616

pub data Period (W : Type 0) : Type 0 where
  fixed : ℕ → Period W
  varying : (W → ℕ) → Period W
  following : (W → Option ℕ) → Period W

-- `Entry` with its `TimerInfo`. A `Ticking` holds it, and a tick does while it runs; when neither
-- does, it is gone.
pub record Entry (W : Type 0) : Type 0 where
  pub name : Option Text
  pub place : Text
  pub feature : Option Text
  pub scope : Option ℕ
  pub last : ℕ
  pub period : Period W
  pub generation : ℕ
  pub active : Option (W → Bool)
  pub awake : Option (W → Bool)
  pub watching : Bool
  pub traced : Bool
  pub held : Bool
  pub ticking : Bool

-- One tick that was armed.
pub record Wake : Type 0 where
  pub timer : ℕ
  pub generation : ℕ
  pub due : ℕ

-- What devtools are told.
pub data Change : Type 0 where
  timer_started timer_stopped : ℕ → Change

-- The timers, with the clock, what was armed, what devtools were told and which timers' runs were
-- called, the last first.
pub record Timers (W : Type 0) : Type 0 where
  pub world : W
  pub now : ℕ
  pub next_id : ℕ
  pub entries : ℕ → Option (Entry W)
  pub wakes : List Wake
  pub told : List Change
  pub ran : List ℕ

-- What a program may do with timers: set one up, say more about one, or drop what keeps it running.
pub data Call (W : Type 0) : Type 0 where
  starts : Text → Option Text → Option (ℕ × (W → Bool)) → Period W → Call W
  names : ℕ → Text → Call W
  limits : ℕ → (W → Bool) → Call W
  paces : ℕ → Period W → Call W
  hides : ℕ → Call W
  drops : ℕ → Call W

-- The wake-up that a wait arms, if there is anything to wait by.
unfoldable pub armed : ℕ → ℕ → ℕ → Option ℕ → List Wake
armed id generation now none = []
armed id generation now (some after) =
    (record { timer = id; generation = generation; due = now + after }) ∷ []

abbrev pub or_else : ℕ → Option ℕ → ℕ
or_else old none = old
or_else old (some n) = n

abbrev pub stopped_told : Bool → ℕ → List Change → List Change
stopped_told traced id told = if traced then timer_stopped id ∷ told else told

module _ {W : Type 0} where
  -- `Period::next`
  unfoldable pub next : Period W → W → Option ℕ
  next (fixed period) world = some period
  next (varying period) world = some (period world)
  next (following now) world = now world

  -- `Period::watch`: whether there is something to watch.
  unfoldable pub watch : Period W → Bool
  watch (following now) = true
  watch _ = false

  abbrev pub is_held : Option (Entry W) → Option (Entry W)
  is_held none = none
  is_held (some e) = if e.held then some e else none

  abbrev pub is_alive : Option (Entry W) → Option (Entry W)
  is_alive none = none
  is_alive (some e) = if e.held || e.ticking then some e else none

  -- The entry that RUNNING has under a number.
  unfoldable pub running_entry : ℕ → Timers W → Option (Entry W)
  running_entry id s = is_held (s.entries id)

  -- `Weak::upgrade` of a timer's entry
  unfoldable pub upgrade : ℕ → Timers W → Option (Entry W)
  upgrade id s = is_alive (s.entries id)

  abbrev pub put_at : ℕ → Entry W → (ℕ → Option (Entry W)) → ℕ → Option (Entry W)
  put_at id e entries i = if i == id then some e else entries i

  unfoldable pub put : ℕ → Entry W → Timers W → Timers W
  put id e s = record s { entries = put_at id e s.entries }

  abbrev pub tell : Change → Timers W → Timers W
  tell change s = record s { told = change ∷ s.told }

  -- `wake_after`
  unfoldable pub wake_after : ℕ → ℕ → Option ℕ → Timers W → Timers W
  unfolding armed
  wake_after id generation after s = record s { wakes = s.wakes ++ armed id generation s.now after }

  -- The entry with the period that was just asked for.
  unfoldable pub asked : Option ℕ → Entry W → Entry W
  asked period e = record e { last = or_else e.last period }

  abbrev pub owner_scope : Option (ℕ × (W → Bool)) → Option ℕ
  owner_scope none = none
  owner_scope (some (scope, awake)) = some scope

  abbrev pub owner_awake : Option (ℕ × (W → Bool)) → Option (W → Bool)
  owner_awake none = none
  owner_awake (some (scope, awake)) = some awake

  unfoldable pub new_entry :
      Text → Option Text → Option (ℕ × (W → Bool)) → Period W → Option ℕ → Entry W
  unfolding watch
  new_entry place feature owner period first = record {
    name = none;
    place = place;
    feature = feature;
    scope = owner_scope owner;
    last = or_else 0 first;
    period = period;
    generation = 0;
    active = none;
    awake = owner_awake owner;
    watching = watch period;
    traced = true;
    held = true;
    ticking = false;
  }

  -- `start`
  unfoldable pub start :
      Text → Option Text → Option (ℕ × (W → Bool)) → Period W → Timers W → Timers W
  start place feature owner period s = wake_after s.next_id 0 (next period s.world) (
      tell (timer_started s.next_id)
        (record (put s.next_id (new_entry place feature owner period (next period s.world)) s) {
          next_id = (s.next_id + 1) % u64_bound;
        }))

  -- `Timer::change`, and `named` and `when` by it
  unfoldable pub change : ℕ → (Entry W → Entry W) → Timers W → Timers W
  change id f s = map_or s (λ e. put id (f e) s) (upgrade id s)

  unfoldable pub named : ℕ → Text → Timers W → Timers W
  named id name s = change id (λ e. record e { name = some name }) s

  unfoldable pub when : ℕ → (W → Bool) → Timers W → Timers W
  when id active s = change id (λ e. record e { active = some active }) s

  -- A new chain of wake-ups for an entry, from now.
  unfoldable pub rearm : ℕ → Entry W → Timers W → Timers W
  rearm id e s = wake_after id ((e.generation + 1) % u64_bound) (next e.period s.world) (
      put id
        (asked (next e.period s.world) (record e { generation = (e.generation + 1) % u64_bound }))
        s)

  -- `Timer::period`
  unfoldable pub set_period : ℕ → Period W → Timers W → Timers W
  set_period id period s =
      map_or s (λ e. rearm id (record e { period = period; watching = watch period }) s)
        (upgrade id s)

  -- `follow`
  unfoldable pub follow : ℕ → Timers W → Timers W
  follow id s = map_or s (λ e. rearm id e s) (running_entry id s)

  abbrev pub tell_stopped : Bool → ℕ → Timers W → Timers W
  tell_stopped traced id s = record s { told = stopped_told traced id s.told }

  -- `Timer::untraced`
  unfoldable pub untraced : ℕ → Timers W → Timers W
  untraced id s =
      map_or s (λ e. tell_stopped e.traced id (put id (record e { traced = false }) s))
        (upgrade id s)

  -- `Ticking::drop`, for a `Ticking` that there is
  unfoldable pub drop_ticking : ℕ → Timers W → Timers W
  drop_ticking id s =
      map_or s (λ e. tell_stopped e.traced id (put id (record e { held = false }) s))
        (running_entry id s)

  unfoldable pub call : Call W → Timers W → Timers W
  call (starts place feature owner period) s = start place feature owner period s
  call (names id name) s = named id name s
  call (limits id active) s = when id active s
  call (paces id period) s = set_period id period s
  call (hides id) s = untraced id s
  call (drops id) s = drop_ticking id s

  unfoldable pub calls : List (Call W) → Timers W → Timers W
  calls [] s = s
  calls (c ∷ cs) s = calls cs (call c s)

  abbrev pub is_none_or : Option (W → Bool) → W → Bool
  is_none_or none world = true
  is_none_or (some test) world = test world

  -- Whether a tick of an entry runs anything.
  abbrev pub is_active : Entry W → W → Bool
  is_active e world = is_none_or e.active world && is_none_or e.awake world

  abbrev pub begin_tick : ℕ → Entry W → Timers W → Timers W
  begin_tick id e s = put id (record e { ticking = true }) s

  -- What is left of a tick after the run: the entry's period is asked, and the next tick armed with
  -- the generation this one came from.
  unfoldable pub finish_tick : ℕ → ℕ → Timers W → Timers W
  finish_tick id generation s =
      map_or s
        (λ e.
          wake_after id generation (next e.period s.world)
            (put id (asked (next e.period s.world) (record e { ticking = false })) s))
        (s.entries id)

  module _ (run : ℕ → W → W × List (Call W)) where
    unfoldable pub run_timer : ℕ → Timers W → Timers W
    run_timer id s =
        calls (run id s.world).1 (record s { world = (run id s.world).0; ran = id ∷ s.ran })

    -- `tick`
    unfoldable pub tick : ℕ → ℕ → Timers W → Timers W
    tick id generation s =
        map_or s
          (λ e.
            if e.generation == generation
            then finish_tick id generation (
                if is_active e s.world then run_timer id (begin_tick id e s) else begin_tick id e s)
            else s)
          (running_entry id s)

  abbrev pub traced_id : ℕ → Option (Entry W) → List ℕ → List ℕ
  traced_id id none ids = ids
  traced_id id (some e) ids = if e.held && e.traced then ids ++ id ∷ [] else ids

  -- `running`: the ones devtools may see, by their numbers, which are below a bound.
  unfoldable pub running_below : ℕ → (ℕ → Option (Entry W)) → List ℕ
  running_below zero entries = []
  running_below (suc id) entries = traced_id id (entries id) (running_below id entries)

  unfoldable pub running : Timers W → List ℕ
  running s = running_below s.next_id s.entries
