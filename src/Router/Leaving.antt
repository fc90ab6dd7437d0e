-- ===== src/Router/Leaving.antt =====
-- How crates/guinea-router/src/router.rs takes a chain down: the states it caches, the segments it
-- puts to sleep and the ones it removes. A `HashMap` is an association list with distinct keys.
use guinea.Base.{
  ℕ, zero, suc, ◌+◌, Bool, Option, none, some, List, [], ◌∷◌, map, if◌then◌else◌, ltb, get_elem?,
  drop, retain,
}
use guinea.Router.Cache.{Key, StateCache, lookup, put, insert}
use guinea.Router.Chain.{SegmentEntry}
use guinea.Router.Host.{Host}

-- `Cached`
pub record Cached (P States : Type 0) : Type 0 where
  pub states : States
  pub params : P

pub record Sleeping (P Scope : Type 0) : Type 0 where
  pub scope : Scope
  pub params : P

-- `ActiveChain`; `again` is what the route makes its params with again, if it came with a route.
pub record ActiveChain (P Scope : Type 0) : Type 0 where
  pub entries : List (SegmentEntry P)
  pub scopes : List Scope
  pub params : List P
  pub again : Option (List P)

-- The part of `Router` that installing works on.
pub record Chains (P Scope States World : Type 0) : Type 0 where
  pub active : Option (ActiveChain P Scope)
  pub cache : StateCache (Cached P States)
  pub sleeping : List (Key × Sleeping P Scope)
  pub world : World

-- The first so many items, or all of them.
abbrev pub first_of {ℓ} : {A : Type ℓ} → ℕ → List A → List A
first_of zero xs = []
first_of (suc n) [] = []
first_of (suc n) (x ∷ xs) = x ∷ first_of n xs

-- What a segment is put to sleep with: of the segments below `keeping`, the one at the index.
abbrev pub sleeps_with {ℓ} : {P : Type ℓ} → List P → ℕ → ℕ → Option P
sleeps_with captured keeping index = if ltb index keeping then get_elem? captured index else none

module _ {P Scope States Error World : Type 0} (host : Host P Scope States Error World) where
  -- `cache_key`, with `placement_hash`.
  abbrev pub cache_key : List (SegmentEntry P) → ℕ → Key
  cache_key chain index =
      (index, host.hash (map (λ entry. entry.type_id) (first_of (index + 1) chain)))

  -- `Router::forget`
  abbrev pub forget : Scope → Chains P Scope States World → Chains P Scope States World
  forget scope st =
      let world = host.remove scope st.world in
      record st {
        world = world;
        sleeping = retain (λ e. host.is_alive e.1.scope world) st.sleeping;
      }

  abbrev pub forget_replaced :
      Option (Sleeping P Scope) → Chains P Scope States World → Chains P Scope States World
  forget_replaced none st = st
  forget_replaced (some replaced) st = forget replaced.scope st

  -- One turn of the loop of `Router::leave`: the segment at an index goes, or sleeps where there is
  -- something it captured to wake it with.
  abbrev pub leave_one :
      List (SegmentEntry P)
      → ℕ
      → Scope
      → Option P
      → Chains P Scope States World
      → Chains P Scope States World
  leave_one entries index scope none st = forget scope st
  leave_one entries index scope (some params) st =
      let key = cache_key entries index in
      forget_replaced (lookup key st.sleeping) (record st {
        world = host.sleep scope st.world;
        sleeping = put key (record { scope = scope; params = params }) st.sleeping;
      })

  -- The loop of `Router::leave` over the segments below what stays, the innermost first.
  unfoldable pub leave_from :
      List (SegmentEntry P)
      → List P
      → ℕ
      → ℕ
      → List Scope
      → Chains P Scope States World
      → Chains P Scope States World
  leave_from entries captured keeping index [] st = st
  leave_from entries captured keeping index (scope ∷ rest) st =
      leave_one entries index scope (sleeps_with captured keeping index)
        (leave_from entries captured keeping (index + 1) rest st)

  -- `Router::leave`
  unfoldable pub leave :
      List (SegmentEntry P)
      → List Scope
      → List P
      → ℕ
      → ℕ
      → Chains P Scope States World
      → List Scope × Chains P Scope States World
  unfolding leave_from
  leave entries scopes captured shared keeping st =
      (first_of shared scopes, leave_from entries captured keeping shared (drop shared scopes) st)

  -- `Router::tear_down`
  unfoldable pub tear_down :
      List Scope → ℕ → Chains P Scope States World → List Scope × Chains P Scope States World
  unfolding leave
  tear_down scopes shared st = leave [] scopes [] shared shared st

  abbrev pub cache_one :
      List (SegmentEntry P)
      → ℕ
      → Bool
      → Scope
      → Option P
      → Chains P Scope States World
      → Chains P Scope States World
  cache_one chain index cache_state scope none st = st
  cache_one chain index cache_state scope (some params) st =
      if cache_state
      then record st {
        cache =
            insert (cache_key chain index)
              (record { states = host.snapshot_states scope st.world; params = params }) st.cache;
      }
      else st

  -- The loop of `Router::install_from` that caches the states of the segments that go.
  unfoldable pub cache_from :
      List (SegmentEntry P)
      → List P
      → ℕ
      → List (SegmentEntry P)
      → List Scope
      → Chains P Scope States World
      → Chains P Scope States World
  cache_from chain captured index (entry ∷ entries) (scope ∷ scopes) st =
      cache_from chain captured (index + 1) entries scopes
        (cache_one chain index entry.cache_state scope (get_elem? captured index) st)
  cache_from chain captured index _ _ st = st
