-- ===== src/Router/Install.antt =====
-- How crates/guinea-router/src/router.rs builds a chain and puts the one before back when that fails.
-- A panic of the code is a result of its own.
use guinea.Base.{
  ℕ, ◌+◌, ◌&&◌, Option, none, some, List, [], ◌∷◌, ◌++◌, if◌then◌else◌, length, get_elem?, drop,
}
use guinea.Router.Cache.{Key, lookup, remove_key, take}
use guinea.Router.Chain.{SegmentEntry, kept_until}
use guinea.Router.Host.{Host}
use guinea.Router.Leaving.{
  Cached, Sleeping, ActiveChain, Chains, cache_key, forget, leave, tear_down, cache_from,
}

-- What `Router::build` returns.
pub data BuildResult (Scope Error : Type 0) : Type 0 where
  built : List Scope → BuildResult Scope Error
  failed : Error → List Scope → BuildResult Scope Error
  panicked : BuildResult Scope Error

-- What `Router::install_from` returns: the leaf, or the error.
pub data Installing (Scope Error : Type 0) : Type 0 where
  installed : Scope → Installing Scope Error
  refused : Error → Installing Scope Error
  broken : Installing Scope Error

-- `scopes.last()`
abbrev pub last_of {ℓ} : {A : Type ℓ} → A → List A → A
last_of default [] = default
last_of default (x ∷ xs) = last_of x xs

-- The chain that is put back when the next one fails, with the params to make it again.
abbrev pub previous_of :
    {P Scope : Type 0} → Option (ActiveChain P Scope) → Option (List (SegmentEntry P) × List P)
previous_of none = none
previous_of (some before) = elim before.again [
  | none ↦ none
  | some params ↦ some (before.entries, params)
]

module _ {P Scope States Error World : Type 0} (host : Host P Scope States Error World) where
  -- `Router::parent_of`
  abbrev pub parent_of : List Scope → Scope
  parent_of standing = last_of host.root standing

  abbrev pub wakeable_at :
      Key
      → SegmentEntry P
      → List Scope
      → P
      → Option (Sleeping P Scope)
      → Chains P Scope States World
      → Option Scope × Chains P Scope States World
  wakeable_at key entry standing captured none st = (none, st)
  wakeable_at key entry standing captured (some asleep) st =
      let woken = record st { sleeping = remove_key key st.sleeping } in
      if entry.keep
        && (host.sits_under asleep.scope (parent_of standing) st.world
            && entry.same_params asleep.params captured)
      then (some asleep.scope, woken)
      else (none, forget host asleep.scope woken)

  -- `Router::wakeable`
  unfoldable pub wakeable :
      List (SegmentEntry P)
      → ℕ
      → SegmentEntry P
      → List Scope
      → P
      → Chains P Scope States World
      → Option Scope × Chains P Scope States World
  wakeable chain index entry standing captured st =
      let key = cache_key host chain index in
      wakeable_at key entry standing captured (lookup key st.sleeping) st

  abbrev pub restore_cached : SegmentEntry P → P → Scope → Option (Cached P States) → World → World
  restore_cached entry captured scope none world = world
  restore_cached entry captured scope (some cached) world =
      if entry.same_params cached.params captured
      then host.restore_states scope cached.states world
      else world

  -- The states of a new scope, from the cache.
  abbrev pub restore :
      List (SegmentEntry P)
      → ℕ
      → SegmentEntry P
      → P
      → Scope
      → Chains P Scope States World
      → Chains P Scope States World
  restore chain index entry captured scope st =
      if entry.cache_state
      then (let (found, cache) = take (cache_key host chain index) st.cache in
          record st { cache = cache; world = restore_cached entry captured scope found st.world })
      else st

  -- A segment that no scope wakes for is installed in a new scope.
  abbrev pub install_new :
      List (SegmentEntry P)
      → ℕ
      → SegmentEntry P
      → P
      → List Scope
      → Chains P Scope States World
      → Scope × Option Error × Chains P Scope States World
  install_new chain index entry captured scopes st =
      let (scope, world) = host.child (parent_of scopes) st.world in
      let ready = restore chain index entry captured scope (record st { world = world }) in
      let (error, after) = host.install entry scope index captured ready.world in
      (scope, error, record ready { world = after })

  -- The rest of the loop of `Router::build`, from some standing scopes.
  abbrev pub Next : Type 0
  Next =
      List Scope
      → Chains P Scope States World
      → BuildResult Scope Error × Chains P Scope States World

  -- A turn's end: the loop goes on below the new scope, or what was built comes down, with the scope
  -- of the segment that failed.
  abbrev pub after_install :
      ℕ
      → List Scope
      → Scope × Option Error × Chains P Scope States World
      → Next
      → BuildResult Scope Error × Chains P Scope States World
  after_install standing scopes (scope, none, after) next = next (scopes ++ scope ∷ []) after
  after_install standing scopes (scope, some error, after) next =
      let (kept, down) = tear_down host (scopes ++ scope ∷ []) standing after in
      (failed error kept, down)

  abbrev pub after_wakeable :
      List (SegmentEntry P)
      → ℕ
      → SegmentEntry P
      → P
      → ℕ
      → List Scope
      → Option Scope × Chains P Scope States World
      → Next
      → BuildResult Scope Error × Chains P Scope States World
  after_wakeable chain index entry captured standing scopes (some asleep, after) next =
      next (scopes ++ asleep ∷ []) after
  after_wakeable chain index entry captured standing scopes (none, after) next =
      after_install standing scopes (install_new chain index entry captured scopes after) next

  -- One turn of the loop, where the segment's params are there.
  abbrev pub build_one :
      List (SegmentEntry P)
      → ℕ
      → SegmentEntry P
      → Option P
      → ℕ
      → List Scope
      → Chains P Scope States World
      → Next
      → BuildResult Scope Error × Chains P Scope States World
  build_one chain index entry none standing scopes st next = (panicked, st)
  build_one chain index entry (some captured) standing scopes st next =
      after_wakeable chain index entry captured standing scopes
        (wakeable chain index entry scopes captured st) next

  -- The loop of `Router::build`, over the segments still to come.
  unfoldable pub build_from : List (SegmentEntry P) → List P → ℕ → ℕ → List (SegmentEntry P) → Next
  unfolding wakeable
  build_from chain params standing index [] scopes st = (built scopes, st)
  build_from chain params standing index (entry ∷ rest) scopes st =
      build_one chain index entry (get_elem? params index) standing scopes st
        (build_from chain params standing (index + 1) rest)

  -- `Router::build`
  unfoldable pub build :
      List (SegmentEntry P)
      → List Scope
      → List P
      → Chains P Scope States World
      → BuildResult Scope Error × Chains P Scope States World
  unfolding build_from
  build chain scopes params st =
      build_from chain params (length scopes) (length scopes) (drop (length scopes) chain) scopes st

  abbrev pub wake_one : Scope → World → World
  wake_one scope world = if host.is_awake scope world then world else host.wake scope world

  -- The loop of `Router::wake_standing`. The code picks each scope as it comes to it.
  abbrev pub wake_all : List Scope → World → World
  wake_all [] world = world
  wake_all (scope ∷ rest) world = wake_all rest (wake_one scope world)

  -- `Router::stand`, then `Router::wake_standing`
  abbrev pub stand :
      List (SegmentEntry P)
      → List Scope
      → List P
      → Option (List P)
      → Chains P Scope States World
      → Chains P Scope States World
  stand chain scopes params again st = record st {
    active = some (record { entries = chain; scopes = scopes; params = params; again = again });
    world = wake_all scopes st.world;
  }

  -- The state that `Router::install_from` takes the chain before out of, and what is left standing.
  abbrev pub take_down :
      ℕ
      → Option (ActiveChain P Scope)
      → Chains P Scope States World
      → List Scope × Chains P Scope States World
  take_down shared none st = ([], st)
  take_down shared (some before) st =
      let keeping = kept_until before.entries shared in
      leave host before.entries before.scopes before.params shared keeping (
        cache_from host before.entries before.params keeping (drop keeping before.entries)
          (drop keeping before.scopes) (record st { active = none }))

  -- The end of `Router::install_from` after the chain before was built again.
  abbrev pub after_back :
      Error
      → List (SegmentEntry P)
      → List P
      → BuildResult Scope Error × Chains P Scope States World
      → Installing Scope Error × Chains P Scope States World
  after_back error entries params (built [], st) = (broken, st)
  after_back error entries params (built (scope ∷ scopes), st) =
      (refused error, stand entries (scope ∷ scopes) params (some params) st)
  after_back error entries params (failed again kept, st) =
      (refused error, (tear_down host kept 0 st).1)
  after_back error entries params (panicked, st) = (broken, st)

  abbrev pub put_back :
      Error
      → List Scope
      → Option (List (SegmentEntry P) × List P)
      → Chains P Scope States World
      → Installing Scope Error × Chains P Scope States World
  put_back error kept none st = (refused error, (tear_down host kept 0 st).1)
  put_back error kept (some (entries, params)) st =
      after_back error entries params (build entries kept params st)

  abbrev pub after_build :
      List (SegmentEntry P)
      → List P
      → Option (List P)
      → Option (List (SegmentEntry P) × List P)
      → BuildResult Scope Error × Chains P Scope States World
      → Installing Scope Error × Chains P Scope States World
  after_build chain params again previous (built [], st) = (broken, st)
  after_build chain params again previous (built (scope ∷ scopes), st) =
      (installed (last_of scope scopes), stand chain (scope ∷ scopes) params again st)
  after_build chain params again previous (failed error kept, st) = put_back error kept previous st
  after_build chain params again previous (panicked, st) = (broken, st)

  -- `Router::install_from`
  unfoldable pub install_from :
      List (SegmentEntry P)
      → ℕ
      → List P
      → Option (List P)
      → Chains P Scope States World
      → Installing Scope Error × Chains P Scope States World
  unfolding build
  install_from chain shared params again st =
      let (standing, down) = take_down shared st.active st in
      after_build chain params again (previous_of st.active) (build chain standing params down)
