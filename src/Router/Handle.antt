-- ===== src/Router/Handle.antt =====
-- `NavigateHandle` of crates/guinea-router/src/router.rs: going to a route, and back and forward, over the
-- router and its history. What the router runs once a navigation is settled is one of its events; the
-- closure that stands for is kept by its number. A handle that only records is a plain publication.
pub mod Whole
pub mod Waiting
pub mod Going
pub mod Outcomes
mod Tests
use guinea.Base.{
  ℕ, ◌+◌, Bool, true, false, not, Option, none, some, List, [], ◌∷◌, ◌++◌, Text, if◌then◌else◌,
  ◌==◌, map_or,
}
use guinea.Router.Host.{Host}
use guinea.Router.History.{
  History, remember, take_back, take_forward, restore_back, restore_forward,
}
use guinea.Router.Navigate.{
  Verdict, Route, Event, settled, crashed, questioned, Navigation, done, Router, navigate_then,
  answer, resume, settle,
}

-- What `to` and `arrive` want done once a navigation is settled.
pub data After (P : Type 0) : Type 0 where
  remembers : Option (Route P) → After P
  undoes_back undoes_forward : Route P → After P

-- The closure of `NavigateHandle::go`.
pub record Closure (P : Type 0) : Type 0 where
  pub published : Route P
  pub after : After P

-- What is heard of a navigation: by the hooks, and by the sink.
pub data Heard (P : Type 0) : Type 0 where
  route_changed : Text → Heard P
  publish : Route P → Heard P

-- A router with its history, and the closures that wait.
pub record Moving (P Scope States World : Type 0) : Type 0 where
  pub router : Router P Scope States World
  pub history : History (Route P)
  pub waiting : ℕ → Option (Closure P)
  pub next : ℕ
  pub heard : List (Heard P)
  pub panicked : Bool

module _ {P : Type 0} where
  abbrev pub put_at : ℕ → Option (Closure P) → (ℕ → Option (Closure P)) → ℕ → Option (Closure P)
  put_at i c waiting j = if j == i then c else waiting j

  -- The history after the closure that `to` and `arrive` give to `go`.
  abbrev pub after_call : After P → Bool → History (Route P) → History (Route P)
  after_call (remembers none) arrived h = h
  after_call (remembers (some leaving)) arrived h = if arrived then remember leaving h else h
  after_call (undoes_back entry) arrived h = if arrived then h else restore_back entry h
  after_call (undoes_forward entry) arrived h = if arrived then h else restore_forward entry h

  -- What the closure of `go` tells.
  abbrev pub tells : Closure P → Bool → List (Heard P)
  tells c arrived =
      if arrived then (route_changed c.published.name ∷ publish c.published ∷ []) else []

module _ {P Scope States World : Type 0} where
  abbrev pub call : ℕ → Closure P → Bool → Moving P Scope States World → Moving P Scope States World
  call token c arrived m = record m {
    history = after_call c.after arrived m.history;
    waiting = put_at token none m.waiting;
    heard = m.heard ++ tells c arrived;
  }

  abbrev pub fire : Event → Moving P Scope States World → Moving P Scope States World
  fire (settled token arrived) m = map_or m (λ c. call token c arrived m) (m.waiting token)
  fire (crashed token) m = record m { panicked = true }
  fire questioned m = m

  abbrev pub fire_all : List Event → Moving P Scope States World → Moving P Scope States World
  fire_all [] m = m
  fire_all (event ∷ earlier) m = fire event (fire_all earlier m)

  -- What the router ran of the closures.
  abbrev pub drain : Moving P Scope States World → Moving P Scope States World
  drain m = fire_all m.router.log (record m { router = record m.router { log = [] } })

  -- `NavigateHandle::current`
  abbrev pub current : Moving P Scope States World → Option (Route P)
  current m = m.router.prev_route

abbrev pub is_done : {Scope Error : Type 0} → Navigation Scope Error → Bool
is_done (done scope) = true
is_done _ = false

-- What is asked of a handle.
pub data Ask (P : Type 0) : Type 0 where
  goes_to : Route P → Ask P
  goes_back goes_forward : Ask P

-- What settles a navigation that waits: the answer to a question, the answer to an earlier one that comes
-- late, or `settle`; and a frame begins and ends.
pub data Settling : Type 0 where
  answers : Bool → Settling
  resumes : ℕ → Bool → Settling
  settles begins_frame ends_frame : Settling

module _ {P Scope States Error World : Type 0} (host : Host P Scope States Error World)
    (enter_guards : Route P → World → List Verdict)
    (leave_guards : Scope → World → List Verdict) where
  -- `NavigateHandle::go`
  abbrev pub go :
      Route P → After P → Moving P Scope States World → Bool × Moving P Scope States World
  go route after m =
      let (outcome, router) = navigate_then host enter_guards leave_guards route m.next m.router in
      (
        is_done outcome,
        drain (record m {
          router = router;
          waiting = put_at m.next (some (record { published = route; after = after })) m.waiting;
          next = m.next + 1;
        }),
      )

  -- `NavigateHandle::to`
  abbrev pub to : Route P → Moving P Scope States World → Moving P Scope States World
  to route m = (go route (remembers (current m)) m).1

  abbrev pub arrive_back :
      Option (Route P) × History (Route P)
      → Moving P Scope States World
      → Bool × Moving P Scope States World
  arrive_back (none, history) m = (false, m)
  arrive_back (some entry, history) m =
      go entry (undoes_back entry) (record m { history = history })

  -- `NavigateHandle::back`, with `arrive`
  abbrev pub back : Moving P Scope States World → Bool × Moving P Scope States World
  back m = arrive_back (take_back (current m) m.history) m

  abbrev pub arrive_forward :
      Option (Route P) × History (Route P)
      → Moving P Scope States World
      → Bool × Moving P Scope States World
  arrive_forward (none, history) m = (false, m)
  arrive_forward (some entry, history) m =
      go entry (undoes_forward entry) (record m { history = history })

  -- `NavigateHandle::forward`, with `arrive`
  abbrev pub forward : Moving P Scope States World → Bool × Moving P Scope States World
  forward m = arrive_forward (take_forward (current m) m.history) m

  abbrev pub ask_handle : Ask P → Moving P Scope States World → Moving P Scope States World
  ask_handle (goes_to route) m = to route m
  ask_handle goes_back m = (back m).1
  ask_handle goes_forward m = (forward m).1

  abbrev pub settle_router : Settling → Router P Scope States World → Router P Scope States World
  settle_router (answers allowed) r = answer host enter_guards leave_guards allowed r
  settle_router (resumes generation allowed) r =
      resume host enter_guards leave_guards generation allowed r
  settle_router settles r = settle host enter_guards leave_guards r
  settle_router begins_frame r = record r { drawing = true }
  settle_router ends_frame r = record r { drawing = false }

  abbrev pub settle_all : List Settling → Moving P Scope States World → Moving P Scope States World
  settle_all [] m = m
  settle_all (s ∷ later) m =
      settle_all later (drain (record m { router = settle_router s m.router }))
