-- ===== src/Router/Navigate.antt =====
-- `Router::navigate_then`, `answer`, `settle` and `commit` of crates/guinea-router/src/router.rs, and
-- the `Decision` of crates/guinea-core/src/guard.rs that a question waits on. What a caller wants done
-- once a navigation is settled is a number, and running it is an event of a log. No callback comes
-- back into the router here.
use guinea.Base.{
  ℕ, ◌+◌, ◌%◌, Bool, true, false, Option, none, some, List, [], ◌∷◌, ◌++◌, Text, if◌then◌else◌,
  ◌==◌, drop,
}
use guinea.Router.Chain.{SegmentEntry, shared_len, kept_until}
use guinea.Router.Host.{Host}
use guinea.Router.Leaving.{ActiveChain, Chains}
use guinea.Router.Install.{Installing, installed, refused, broken, install_from}

-- The bound of a `u64`, of which a generation is.
abbrev pub u64_bound : ℕ
u64_bound = 18446744073709551616

-- A guard's verdict. A question comes with the answer that the guard gave itself, if it did.
pub data Verdict : Type 0 where
  allow : Verdict
  block : Verdict
  ask : Text → Option Bool → Verdict

-- `RouteChain`, and `Arrival` with it.
pub record Route (P : Type 0) : Type 0 where
  pub name : Text
  pub described : Text
  pub chain : List (SegmentEntry P)
  pub params : List P

-- What waits to be committed: `Held`, and the same part of `Parked`.
pub record Held (P : Type 0) : Type 0 where
  pub route : Route P
  pub shared : ℕ
  pub settled : ℕ

pub record Parked (P : Type 0) : Type 0 where
  pub question : Text
  pub going : Held P

pub data Event : Type 0 where
  settled : ℕ → Bool → Event
  crashed : ℕ → Event
  questioned : Event

-- What `Router::navigate_then` returns.
pub data Navigation (Scope Error : Type 0) : Type 0 where
  done : Scope → Navigation Scope Error
  deferred : Navigation Scope Error
  blocked : Navigation Scope Error
  error : Error → Navigation Scope Error
  panic : Navigation Scope Error

pub record Router (P Scope States World : Type 0) : Type 0 where
  pub chains : Chains P Scope States World
  pub pending : Option (Parked P)
  pub drawing : Bool
  pub held : Option (Held P)
  pub generation : ℕ
  pub prev_route : Option (Route P)
  pub described : Option Text
  pub log : List Event

-- The first verdict that is not `Allow`.
abbrev pub first_refusal : List Verdict → Verdict
first_refusal [] = allow
first_refusal (allow ∷ rest) = first_refusal rest
first_refusal (v ∷ rest) = v

abbrev pub or_else : Verdict → Verdict → Verdict
or_else allow later = later
or_else v later = v

module _ {P Scope States Error World : Type 0} (host : Host P Scope States Error World)
    (enter_guards : Route P → World → List Verdict)
    (leave_guards : Scope → World → List Verdict) where
  -- `Router::may_enter`
  abbrev pub may_enter : Route P → Router P Scope States World → Verdict
  may_enter route st = first_refusal (enter_guards route st.chains.world)

  -- The guards of the scopes that go, the innermost scope first.
  abbrev pub leaving : List Scope → World → List Verdict
  leaving [] world = []
  leaving (scope ∷ rest) world = leaving rest world ++ leave_guards scope world

  abbrev pub may_leave_chain : ℕ → Option (ActiveChain P Scope) → World → Verdict
  may_leave_chain shared none world = allow
  may_leave_chain shared (some a) world =
      first_refusal (leaving (drop (kept_until a.entries shared) a.scopes) world)

  -- `Router::may_leave`
  abbrev pub may_leave : ℕ → Router P Scope States World → Verdict
  may_leave shared st = may_leave_chain shared st.chains.active st.chains.world

  abbrev pub shared_with : Option (ActiveChain P Scope) → Route P → ℕ
  shared_with none route = 0
  shared_with (some a) route = shared_len a.entries a.params route.chain route.params

  abbrev pub is_none {ℓ} : {A : Type ℓ} → Option A → Bool
  is_none none = true
  is_none (some a) = false

  abbrev pub run : Event → Router P Scope States World → Router P Scope States World
  run event st = record st { log = event ∷ st.log }

  -- The end of `Router::commit`, and of its callers: what waited on it is run.
  abbrev pub after_commit :
      Held P
      → Installing Scope Error × Chains P Scope States World
      → Router P Scope States World
      → Navigation Scope Error × Router P Scope States World
  after_commit going (installed leaf, chains) st = (
    done leaf,
    run (settled going.settled true) (record st {
      chains = chains;
      prev_route = some going.route;
      described = some going.route.described;
    }),
  )
  after_commit going (refused e, chains) st = (
    error e,
    run (settled going.settled false) (record st {
      chains = chains;
      prev_route = if is_none chains.active then none else st.prev_route;
      described = if is_none chains.active then none else st.described;
    }),
  )
  after_commit going (broken, chains) st =
      (panic, run (crashed going.settled) (record st { chains = chains }))

  -- `Router::commit`
  unfoldable pub commit :
      Held P → Router P Scope States World → Navigation Scope Error × Router P Scope States World
  commit going st =
      after_commit going
        (install_from host going.route.chain going.shared going.route.params
          (some going.route.params) st.chains)
        st

  -- A question of a navigation that a later one supersedes.
  abbrev pub supersede :
      Option (Parked P) → Router P Scope States World → Router P Scope States World
  supersede none st = st
  supersede (some parked) st =
      run questioned (run (settled parked.going.settled false) (record st { pending = none }))

  abbrev pub drop_held : Option (Held P) → Router P Scope States World → Router P Scope States World
  drop_held none st = st
  drop_held (some held) st = run (settled held.settled false) st

  abbrev pub answered :
      Bool → Option (Parked P) → Router P Scope States World → Router P Scope States World
  answered allowed none st = st
  answered allowed (some parked) st =
      let open_router = run questioned (record st { pending = none }) in
      if allowed
      then (commit parked.going open_router).1
      else run (settled parked.going.settled false) open_router

  -- What the answer to the question of one generation does: the closure of `Decision::on_answer`.
  unfoldable pub resume : ℕ → Bool → Router P Scope States World → Router P Scope States World
  unfolding commit
  resume generation allowed st =
      if st.generation == generation then answered allowed st.pending st else st

  -- `Decision::on_answer` where the guard may have answered already.
  abbrev pub on_answer : ℕ → Option Bool → Router P Scope States World → Router P Scope States World
  on_answer generation none st = st
  on_answer generation (some allowed) st = resume generation allowed st

  abbrev pub announce :
      Option (Parked P) → Router P Scope States World → Router P Scope States World
  announce none st = st
  announce (some parked) st = run questioned st

  -- The `match verdict` of `Router::navigate_then`.
  abbrev pub decide :
      Verdict
      → Held P
      → Router P Scope States World
      → Navigation Scope Error × Router P Scope States World
  decide allow going st =
      if st.drawing
      then (deferred, drop_held st.held (record st { held = some going }))
      else commit going st
  decide block going st = (blocked, run (settled going.settled false) st)
  decide (ask question early) going st =
      let parked = record st { pending = some (record { question = question; going = going }) } in
      let heard = on_answer st.generation early parked in (deferred, announce heard.pending heard)

  -- What `Router::navigate_then` does before it asks the guards.
  abbrev pub begin : Router P Scope States World → Router P Scope States World
  begin st = supersede st.pending (record st { generation = (st.generation + 1) % u64_bound })

  -- `Router::navigate_then`
  unfoldable pub navigate_then :
      Route P
      → ℕ
      → Router P Scope States World
      → Navigation Scope Error × Router P Scope States World
  unfolding resume
  navigate_then route token st =
      let begun = begin st in
      let shared = shared_with begun.chains.active route in
      decide (or_else (may_enter route begun) (may_leave shared begun))
        (record { route = route; shared = shared; settled = token }) begun

  abbrev pub settle_held :
      Option (Held P) → Router P Scope States World → Router P Scope States World
  settle_held none st = st
  settle_held (some held) st = (commit held (record st { held = none })).1

  -- `Router::settle`, the end of a frame
  unfoldable pub settle : Router P Scope States World → Router P Scope States World
  unfolding commit
  settle st = settle_held st.held st

  -- `Router::answer`: the pending question's decision is not settled yet.
  unfoldable pub answer : Bool → Router P Scope States World → Router P Scope States World
  unfolding resume
  answer allowed st = if is_none st.pending then st else resume st.generation allowed st
