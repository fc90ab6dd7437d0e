-- ===== src/Acts.antt =====
-- crates/guinea-app/src/app/acts.rs: what an action set off, as a recorder heard it: the log, whether
-- everything under a point has finished, and the chain of points that grows from one. Of a point only
-- the kind is kept that the recorder asks for.
pub mod Chains
pub mod Settled
mod Tests
use guinea.Base.{
  ℕ, zero, suc, Bool, true, false, not, ◌&&◌, Option, none, some, List, [], ◌∷◌, ◌++◌, ◌==◌,
  if◌then◌else◌, any, map_or,
}

-- The kinds of a `Point`.
pub data Point : Type 0 where
  action spawn settled cancelled other : Point

-- `Log`
pub record Log : Type 0 where
  pub order : List ℕ
  pub points : ℕ → Option Point
  pub children : ℕ → List ℕ
  pub open_points : ℕ → Bool

-- `Trace`: a point that begins, one that is marked, and the end of one.
pub data Trace : Type 0 where
  begins marked : ℕ → Option ℕ → Point → Trace
  finishes : ℕ → Trace

abbrev pub put_at {ℓ} : {A : Type ℓ} → ℕ → A → (ℕ → A) → ℕ → A
put_at i a f j = if j == i then a else f j

abbrev pub add_child : Option ℕ → ℕ → (ℕ → List ℕ) → ℕ → List ℕ
add_child none id children = children
add_child (some parent) id children = put_at parent (children parent ++ id ∷ []) children

-- `Log::note`
unfoldable pub note : ℕ → Option ℕ → Point → Log → Log
note id parent point log = record log {
  order = log.order ++ id ∷ [];
  points = put_at id (some point) log.points;
  children = add_child parent id log.children;
}

-- `Log::hear`
unfoldable pub hear : Trace → Log → Log
hear (begins id parent point) log =
    note id parent point (record log { open_points = put_at id true log.open_points })
hear (marked id parent point) log = note id parent point log
hear (finishes id) log = record log { open_points = put_at id false log.open_points }

unfoldable pub hear_all : List Trace → Log → Log
hear_all [] log = log
hear_all (trace ∷ traces) log = hear_all traces (hear trace log)

abbrev pub no_log : Log
no_log = record { order = []; points = λ id. none; children = λ id. []; open_points = λ id. false }

abbrev pub is_end : Option Point → Bool
is_end (some settled) = true
is_end (some cancelled) = true
is_end _ = false

abbrev pub is_spawn : Option Point → Bool
is_spawn (some spawn) = true
is_spawn _ = false

-- `Log::ended`
abbrev pub ended : Log → ℕ → Bool
ended log at = any (λ child. is_end (log.points child)) (log.children at)

-- A point that is closed, and, if it is a task's, whose task has ended.
abbrev pub is_done : Log → ℕ → Bool
is_done log at = not (log.open_points at) && not (is_spawn (log.points at) && not (ended log at))

-- What is pushed on a stack, the last on top.
abbrev pub push_all : List ℕ → List ℕ → List ℕ
push_all [] unseen = unseen
push_all (x ∷ xs) unseen = push_all xs (x ∷ unseen)

-- The loop of `Recorder::is_settled` over the points unseen, the last one first, on fuel.
unfoldable pub settled_loop : ℕ → Log → List ℕ → Option Bool
settled_loop zero log unseen = none
settled_loop (suc fuel) log [] = some true
settled_loop (suc fuel) log (at ∷ unseen) =
    let rest = settled_loop fuel log (push_all (log.children at) unseen) in
    if log.open_points at
    then some false
    else (if is_spawn (log.points at) && not (ended log at) then some false else rest)

-- `Recorder::is_settled`
abbrev pub is_settled : ℕ → Log → ℕ → Option Bool
is_settled fuel log cause = settled_loop fuel log (cause ∷ [])

-- Chains side by side: a point, what it caused, and the chains after it.
pub data Chain : Type 0 where
  nothing : Chain
  grown : ℕ → Chain → Chain → Chain

abbrev pub grow_each : (ℕ → Chain) → List ℕ → Chain
grow_each grow_one [] = nothing
grow_each grow_one (at ∷ rest) = grown at (grow_one at) (grow_each grow_one rest)

-- `Chain::grow` of each of some points, as deep as given.
unfoldable pub grow : ℕ → Log → List ℕ → Chain
grow zero log ids = nothing
grow (suc depth) log ids = grow_each (λ at. grow depth log (log.children at)) ids

-- `Chain::points`
unfoldable pub points_of : Chain → List ℕ
points_of nothing = []
points_of (grown at then_ next) = at ∷ points_of then_ ++ points_of next
