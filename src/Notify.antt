-- ===== src/Notify.antt =====
-- crates/guinea-core/src/notify.rs: what was marked in a turn, and the drain that tells who watches.
-- What an observer or a listener does to the rest of the program is a parameter: it moves the world
-- and marks cells, in turns of its own or not, which end inside the drain and start none.
pub mod Marking
pub mod Turns
pub mod Worlds
pub mod Telling
mod Tests
use guinea.Base.{
  ℕ, zero, suc, ◌+◌, ◌-◌, ◌%◌, Bool, true, false, not, ◌&&◌, ◌||◌, Option, none, some, List, [],
  ◌∷◌, ◌++◌, ◌==◌, if◌then◌else◌, any,
}

-- A cell of a scope: the scope's index and serial, and the cell's type.
pub record Cell : Type 0 where
  pub scope : ℕ
  pub serial : ℕ
  pub ty : ℕ

-- `Change`
pub record Change (U : Type 0) : Type 0 where
  pub cell : Cell
  pub update : Option U

-- The statics MARKED, DEPTH and DRAINING, with the world and the cells whose listeners were run, in
-- order, and whether a drain gave up.
pub record Notices (W : Type 0) (U : Type 0) : Type 0 where
  pub world : W
  pub marked : List (Change U)
  pub depth : ℕ
  pub draining : Bool
  pub told : List Cell
  pub gave_up : Bool

-- `SETTLE_ROUNDS`
abbrev pub settle_rounds : ℕ
settle_rounds = 16

-- The bound of a `u32`.
abbrev pub u32_bound : ℕ
u32_bound = 4294967296

abbrev pub same_cell : Cell → Cell → Bool
same_cell a b = (a.scope == b.scope) && (a.serial == b.serial) && (a.ty == b.ty)

abbrev pub touch : Cell → List Cell → List Cell
touch cell touched = if any (λ c. same_cell c cell) touched then touched else touched ++ cell ∷ []

module _ {U : Type 0} where
  abbrev pub is_some : Option U → Bool
  is_some none = false
  is_some (some u) = true

  abbrev pub is_empty : List (Change U) → Bool
  is_empty [] = true
  is_empty (c ∷ marked) = false

  abbrev pub seen : Cell → List (Change U) → Bool
  seen cell marked = any (λ c. same_cell c.cell cell) marked

  -- What `mark` adds to MARKED.
  unfoldable pub push_mark : Change U → List (Change U) → List (Change U)
  push_mark c marked =
      if is_some c.update || not (seen c.cell marked) then marked ++ c ∷ [] else marked

  unfoldable pub push_marks : List (Change U) → List (Change U) → List (Change U)
  push_marks [] marked = marked
  push_marks (c ∷ cs) marked = push_marks cs (push_mark c marked)

-- What is called with an update, or to redraw.
abbrev pub Observer : Type 0 → Type 0 → Type 0
Observer W U = U → W → W × List (Change U)

abbrev pub Listener : Type 0 → Type 0 → Type 0
Listener W U = W → W × List (Change U)

-- The scopes of the program: which live, and who watches a cell.
pub record Watching (W : Type 0) (U : Type 0) : Type 0 where
  pub is_alive : W → Cell → Bool
  pub observers_of : W → Cell → List (Observer W U)
  pub listeners_of : W → Cell → List (Listener W U)

-- What runs in a turn, one thing after the other: it marks cells, and opens turns.
pub data Body (U : Type 0) : Type 0 where
  ends : Body U
  marks : Change U → Body U → Body U
  turns : Body U → Body U → Body U

module _ {W : Type 0} {U : Type 0} where
  abbrev pub apply : W × List (Change U) → Notices W U → Notices W U
  apply (world, cs) s = record s { world = world; marked = push_marks cs s.marked }

  unfoldable pub observe_all : List (Observer W U) → U → Notices W U → Notices W U
  observe_all [] u s = s
  observe_all (f ∷ fs) u s = observe_all fs u (apply (f u s.world) s)

  unfoldable pub listen_all : List (Listener W U) → Notices W U → Notices W U
  listen_all [] s = s
  listen_all (f ∷ fs) s = listen_all fs (apply (f s.world) s)

  -- `turn` up to what it runs.
  abbrev pub enter : Notices W U → Notices W U
  enter s = record s { depth = (s.depth + 1) % u32_bound }

module _ {W : Type 0} {U : Type 0} (watching : Watching W U) where
  abbrev pub tell_update : Cell → Option U → Notices W U → Notices W U
  tell_update cell none s = s
  tell_update cell (some u) s = observe_all (watching.observers_of s.world cell) u s

  -- The loop of `drain` over a batch, with the cells touched.
  unfoldable pub run_batch : List (Change U) → List Cell → Notices W U → List Cell × Notices W U
  run_batch [] touched s = (touched, s)
  run_batch (c ∷ batch) touched s =
      if watching.is_alive s.world c.cell
      then run_batch batch (touch c.cell touched) (tell_update c.cell c.update s)
      else run_batch batch touched s

  -- The loop of `drain` over the cells touched.
  unfoldable pub tell_all : List Cell → Notices W U → Notices W U
  tell_all [] s = s
  tell_all (cell ∷ touched) s =
      if watching.is_alive s.world cell
      then tell_all touched (
          listen_all (watching.listeners_of s.world cell) (record s { told = s.told ++ cell ∷ [] }))
      else tell_all touched s

  -- What follows a batch: the next round, or the listeners, and a round for what they marked.
  unfoldable pub after_batch :
      (List Cell → Notices W U → Notices W U) → List Cell → Notices W U → Notices W U
  after_batch next touched s =
      if is_empty s.marked
      then (let told = tell_all touched s in if is_empty told.marked then told else next [] told)
      else next touched s

  -- The rounds of `drain` that are left, where something is marked.
  unfoldable pub rounds : ℕ → List Cell → Notices W U → Notices W U
  rounds zero touched s = record s { marked = []; gave_up = true }
  rounds (suc left) touched s =
      let (now, t) = run_batch s.marked touched (record s { marked = [] }) in
      after_batch (rounds left) now t

  -- `drain`
  unfoldable pub drain : Notices W U → Notices W U
  drain s =
      if s.draining || is_empty s.marked
      then s
      else record (rounds settle_rounds [] (record s { draining = true })) { draining = false }

  -- `mark`
  unfoldable pub mark : Change U → Notices W U → Notices W U
  mark c s =
      let marked = record s { marked = push_mark c s.marked } in
      if (marked.depth == 0) && not marked.draining then drain marked else marked

  -- The end of a turn, `Guard::drop`, outside a panic.
  unfoldable pub leave : Notices W U → Notices W U
  leave s =
      let left = record s { depth = s.depth - 1 } in if left.depth == 0 then drain left else left

  unfoldable pub act : Body U → Notices W U → Notices W U
  act ends s = s
  act (marks c rest) s = act rest (mark c s)
  act (turns body rest) s = act rest (leave (act body (enter s)))

  -- `turn`
  abbrev pub turn : Body U → Notices W U → Notices W U
  turn body s = leave (act body (enter s))

-- `pending`
abbrev pub pending : {W : Type 0} {U : Type 0} → Notices W U → Bool
pending s = not (is_empty s.marked)
