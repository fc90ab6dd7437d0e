-- ===== src/Router/Handle/Outcomes.antt =====
-- What becomes of a step of a handle of crates/guinea-router/src/router.rs that nothing interrupts.
use guinea.Base.{◌≡◌, some, [], ◌∷◌, ◌++◌, ◌⊎◌}
use guinea.Router.Host.{Host}
use guinea.Router.History.{History, remember, take_back, take_forward}
use guinea.Router.Navigate.{Route}
use guinea.Router.Handle.{route_changed, publish, Moving, Ask, goes_to, goes_back, goes_forward}

-- What a step from a route leads to, if it happens: the route, and the history then.
abbrev pub LeadsTo :
    {P : Type 0} → Ask P → Route P → History (Route P) → Route P → History (Route P) → Type 0
LeadsTo (goes_to route) leaving h there h' = (route ≡ there) × (remember leaving h ≡ h')
LeadsTo goes_back leaving h there h' = take_back (some leaving) h ≡ (some there, h')
LeadsTo goes_forward leaving h there h' = take_forward (some leaving) h ≡ (some there, h')

-- A step happened, and was told of; or the history and what was told are as they were.
abbrev pub HappenedOrNot :
    {P Scope States World : Type 0}
    → Route P
    → History (Route P)
    → Moving P Scope States World
    → Moving P Scope States World
    → Type 0
HappenedOrNot there h' m t =
    ((t.router.prev_route ≡ some there)
      × (t.history ≡ h')
      × (t.heard ≡ m.heard ++ route_changed there.name ∷ publish there ∷ []))
    ⊎ ((t.history ≡ m.history) × (t.heard ≡ m.heard))
