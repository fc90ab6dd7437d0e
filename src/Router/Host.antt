-- ===== src/Router/Host.antt =====
-- What the router of crates/guinea-router/src/router.rs calls: the scopes of crates/guinea-core/src/scope
-- and the installing of a segment, as a record of functions on a world that they change. A hook that
-- a call runs does not come back into the router here.
use guinea.Base.{ℕ, Bool, Option, List}
use guinea.Router.Chain.{SegmentEntry}

pub record Host (P Scope States Error World : Type 0) : Type 0 where
  -- The scope that a chain's first segment goes under.
  pub root : Scope
  pub child : Scope → World → Scope × World
  pub remove : Scope → World → World
  pub is_alive : Scope → World → Bool
  -- Whether the parent of the first scope is the second one.
  pub sits_under : Scope → Scope → World → Bool
  pub sleep : Scope → World → World
  pub wake : Scope → World → World
  pub is_awake : Scope → World → Bool
  pub snapshot_states : Scope → World → States
  pub restore_states : Scope → States → World → World
  -- Installing a segment in a scope at an index, with what it captured: an error, or none.
  pub install : SegmentEntry P → Scope → ℕ → P → World → Option Error × World
  -- The hash of the segment types from the root down.
  pub hash : List ℕ → ℕ
