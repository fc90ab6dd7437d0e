-- ===== src/Contents.antt =====
-- crates/guinea-core/src/scope/state.rs: the reducers' states that a living scope holds. A reducer is
-- known by its type, a number, and its default and `reduce` are parameters; a state is a number. A
-- slot is shared by whoever holds it, so the values stand apart from the cells.
pub mod Slots
pub mod Replay
pub mod Restoring
mod Tests
use guinea.Base.{
  ℕ, zero, suc, ◌+◌, ◌%◌, Bool, true, false, not, Option, none, some, List, [], ◌∷◌, ◌++◌, ◌==◌,
  if◌then◌else◌, map, retain, map_or,
}

-- `Cell`: its slot, and who is told of it, each by the number of the subscription.
pub record Cell : Type 0 where
  pub slot : ℕ
  pub listeners : List (ℕ × ℕ)
  pub observers : List (ℕ × ℕ)

-- The cells of one scope, the values of the slots, the numbers not given out, and what was marked: a
-- type, and the update where someone observes it.
pub record Contents : Type 0 where
  pub cells : ℕ → Option Cell
  pub values : ℕ → ℕ
  pub next_slot : ℕ
  pub next_subscriber : ℕ
  pub marks : List (ℕ × Option ℕ)

-- The bound of a `u64`.
abbrev pub u64_bound : ℕ
u64_bound = 18446744073709551616

-- `Cell::holding`
abbrev pub holding : ℕ → Cell
holding slot = record { slot = slot; listeners = []; observers = [] }

abbrev pub put_at {ℓ} : {A : Type ℓ} → ℕ → A → (ℕ → A) → ℕ → A
put_at i a f j = if j == i then a else f j

-- A new cell with a slot of its own; what stood there is dropped.
abbrev pub hold : ℕ → ℕ → Contents → Contents
hold ty value s = record s {
  cells = put_at ty (some (holding s.next_slot)) s.cells;
  values = put_at s.next_slot value s.values;
  next_slot = suc s.next_slot;
}

-- `Scope::seed`
abbrev pub seed : ℕ → ℕ → Contents → Contents
seed ty value s = hold ty value s

abbrev pub is_empty : List (ℕ × ℕ) → Bool
is_empty [] = true
is_empty (o ∷ observers) = false

-- `ScopeData::is_observed`
abbrev pub is_observed : ℕ → Contents → Bool
is_observed ty s = map_or false (λ c. not (is_empty c.observers)) (s.cells ty)

-- `Scope::peek`, as the value of the slot
abbrev pub peek : ℕ → Contents → Option ℕ
peek ty s = map_or none (λ c. some (s.values c.slot)) (s.cells ty)

abbrev pub numbers : List (ℕ × ℕ) → List ℕ
numbers subscribers = map (λ p. p.1) subscribers

-- `Scope::listeners_of` and `Scope::observers_of`
abbrev pub listeners_of : ℕ → Contents → List ℕ
listeners_of ty s = map_or [] (λ c. numbers c.listeners) (s.cells ty)

abbrev pub observers_of : ℕ → Contents → List ℕ
observers_of ty s = map_or [] (λ c. numbers c.observers) (s.cells ty)

abbrev pub but : ℕ → List (ℕ × ℕ) → List (ℕ × ℕ)
but id subscribers = retain (λ p. not (p.0 == id)) subscribers

abbrev pub set_cell : ℕ → Cell → Contents → Contents
set_cell ty c s = record s { cells = put_at ty (some c) s.cells }

-- The drop of a `Subscription` of `subscribe`, and of one of `observe`.
unfoldable pub unsubscribe : ℕ → ℕ → Contents → Contents
unsubscribe ty id s =
    map_or s (λ c. set_cell ty (record c { listeners = but id c.listeners }) s) (s.cells ty)

unfoldable pub stop_observing : ℕ → ℕ → Contents → Contents
stop_observing ty id s =
    map_or s (λ c. set_cell ty (record c { observers = but id c.observers }) s) (s.cells ty)

-- `Scope::snapshot_states`
abbrev pub snapshot_states : Contents → ℕ → Option ℕ
snapshot_states s ty = map_or none (λ c. some c.slot) (s.cells ty)

-- `Scope::restore_states`
unfoldable pub restore_states : (ℕ → Option ℕ) → Contents → Contents
restore_states states s = record s {
  cells = λ ty. map_or (s.cells ty) (λ slot. some (holding slot)) (states ty);
}

-- What is done with a scope's states, one call after the other.
pub data Op : Type 0 where
  reads : ℕ → Op
  seeds pushes subscribes observes : ℕ → ℕ → Op
  unsubscribes stops_observing : ℕ → ℕ → Op

module _ (default : ℕ → ℕ) (reduce : ℕ → ℕ → ℕ → ℕ) where
  -- The cell of a type, made where there is none: `entry` and `or_insert_with`.
  unfoldable pub ensure : ℕ → Contents → Contents
  ensure ty s = map_or (hold ty (default ty) s) (λ c. s) (s.cells ty)

  -- `Scope::state`, as the value that a reader is given
  abbrev pub state : ℕ → Contents → ℕ
  state ty s = map_or (default ty) (λ c. s.values c.slot) (s.cells ty)

  abbrev pub write : ℕ → ℕ → Contents → Contents
  write ty update s =
      map_or s
        (λ c. record s { values = put_at c.slot (reduce ty (s.values c.slot) update) s.values })
        (s.cells ty)

  -- `Scope::push`
  unfoldable pub push : ℕ → ℕ → Contents → Contents
  push ty update s =
      let changed : Contents = write ty update (ensure ty s) in
      record changed {
        marks = changed.marks ++ (ty, if is_observed ty s then some update else none) ∷ [];
      }

  abbrev pub add_listener : ℕ → ℕ → Contents → Contents
  add_listener ty callback s =
      map_or s
        (λ c.
          record (set_cell ty
            (record c { listeners = c.listeners ++ (s.next_subscriber, callback) ∷ [] }) s) {
              next_subscriber = (s.next_subscriber + 1) % u64_bound;
            })
        (s.cells ty)

  abbrev pub add_observer : ℕ → ℕ → Contents → Contents
  add_observer ty callback s =
      map_or s
        (λ c.
          record (set_cell ty
            (record c { observers = c.observers ++ (s.next_subscriber, callback) ∷ [] }) s) {
              next_subscriber = (s.next_subscriber + 1) % u64_bound;
            })
        (s.cells ty)

  -- `Scope::subscribe` and `Scope::observe`; the subscription's number is the next one.
  unfoldable pub subscribe : ℕ → ℕ → Contents → Contents
  subscribe ty callback s = add_listener ty callback (ensure ty s)

  unfoldable pub observe : ℕ → ℕ → Contents → Contents
  observe ty callback s = add_observer ty callback (ensure ty s)

  unfoldable pub do_op : Op → Contents → Contents
  do_op (reads ty) s = ensure ty s
  do_op (seeds ty value) s = seed ty value s
  do_op (pushes ty update) s = push ty update s
  do_op (subscribes ty callback) s = subscribe ty callback s
  do_op (observes ty callback) s = observe ty callback s
  do_op (unsubscribes ty id) s = unsubscribe ty id s
  do_op (stops_observing ty id) s = stop_observing ty id s

  unfoldable pub run : List Op → Contents → Contents
  run [] s = s
  run (op ∷ ops) s = run ops (do_op op s)
