-- ===== src/Router/Handle/Tests.antt =====
-- Steps back of a handle, where every route is asked about first.
use guinea.Base.{ℕ, ◌≡◌, refl, true, false, none, some, [], ◌∷◌}
use guinea.Router.History.{take_back, restore_back}
use guinea.Router.Navigate.{Route, navigate_then, answer, resume}
use guinea.Router.Handle.{Moving, goes_back, ask_handle, answers, settles, settle_all}
use guinea.Router.Tests.{numbered, router, to_logs, asking, no_guards}

abbrev named : ℕ → Route ℕ
named n = record to_logs { name = n ∷ [] }

-- At the third of three routes, with the second and the first behind.
abbrev at_third : Moving ℕ ℕ ℕ ℕ
at_third = record {
  router = record router { prev_route = some (named 3) };
  history = record { back = named 2 ∷ named 1 ∷ []; forward = [] };
  waiting = λ token. none;
  next = 0;
  heard = [];
  panicked = false;
}

abbrev refused_back : Moving ℕ ℕ ℕ ℕ
refused_back =
    settle_all numbered asking no_guards (answers false ∷ [])
      (ask_handle numbered asking no_guards goes_back at_third)

abbrev allowed_back : Moving ℕ ℕ ℕ ℕ
allowed_back =
    settle_all numbered asking no_guards (answers true ∷ settles ∷ [])
      (ask_handle numbered asking no_guards goes_back at_third)

-- A second step back while the first waits, and is refused, leaves what is behind in another order.
two_back :
    (settle_all numbered asking no_guards (answers false ∷ []) (
      ask_handle numbered asking no_guards goes_back
        (ask_handle numbered asking no_guards goes_back at_third))).history
    ≡ record { back = named 1 ∷ named 2 ∷ []; forward = [] }
unfolding take_back restore_back navigate_then answer resume
two_back = refl

-- A step back that is refused where no route stands loses what is ahead.
nowhere_back :
    (settle_all numbered asking no_guards (answers false ∷ []) (
      ask_handle numbered asking no_guards goes_back (record at_third {
        router = router;
        history = record { back = named 2 ∷ []; forward = named 4 ∷ [] };
      }))).history
    ≡ record { back = named 2 ∷ []; forward = [] }
unfolding take_back restore_back navigate_then answer resume
nowhere_back = refl
