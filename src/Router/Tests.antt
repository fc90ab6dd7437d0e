-- ===== src/Router/Tests.antt =====
-- The router at concrete states, with a host that numbers its scopes and refuses one segment.
use guinea.Base.{
  ℕ, ◌+◌, ◌<◌, Bool, true, false, ◌≡◌, refl, none, some, List, [], ◌∷◌, if◌then◌else◌, ◌==◌, length,
  arith, codes,
}
use guinea.Router.Cache.{StateCache, IsSynced}
use guinea.Router.Chain.{SegmentEntry, shared_len}
use guinea.Router.History.{History, take_back}
use guinea.Router.Host.{Host}
use guinea.Router.Leaving.{Chains}
use guinea.Router.Install.{install_from}
use guinea.Router.Installing.{Ends, install_from-Ends}
use guinea.Router.Navigate.{Verdict, ask, Route, Router, navigate_then, resume}
use guinea.Router.Settling.{times, once, navigate_then-times}
use guinea.Router.Stale.{resume-navigate_then}

abbrev one_cached : StateCache ℕ
one_cached = record { entries = ((0, 7), 3) ∷ []; order = (0, 7) ∷ [] }

one_cached-IsSynced : IsSynced one_cached
one_cached-IsSynced = record { distinct = (refl, tt); listed = λ key. refl; bounded = omega arith }

abbrev segment : ℕ → Bool → SegmentEntry ℕ
segment ty keep = record {
  type_id = ty;
  keep = keep;
  cache_state = true;
  same_params = λ before now. before == now;
}

abbrev pub overview : List (SegmentEntry ℕ)
overview = segment 1 false ∷ segment 2 true ∷ []

abbrev pub logs : List (SegmentEntry ℕ)
logs = segment 1 false ∷ segment 3 false ∷ []

one_shared : 0 < shared_len overview (5 ∷ 6 ∷ []) logs (5 ∷ 6 ∷ [])
unfolding shared_len
one_shared = omega arith

abbrev visited : History ℕ
visited = record { back = 2 ∷ 1 ∷ []; forward = [] }

took_two : (take_back (some 3) visited).0 ≡ some 2
unfolding take_back
took_two = refl

-- The world is the number of the next scope. The segment of type 9 refuses to install.
abbrev pub numbered : Host ℕ ℕ ℕ ℕ ℕ
numbered = record {
  root = 0;
  child = λ scope world. (world, world + 1);
  remove = λ scope world. world;
  is_alive = λ scope world. true;
  sits_under = λ scope parent world. true;
  sleep = λ scope world. world;
  wake = λ scope world. world;
  is_awake = λ scope world. true;
  snapshot_states = λ scope world. scope;
  restore_states = λ scope states world. world;
  install =
      λ entry scope index captured world. (if entry.type_id == 9 then some 9 else none, world);
  hash = λ types. length types;
}

abbrev pub at_overview : Chains ℕ ℕ ℕ ℕ
at_overview = record {
  active = some (record {
    entries = overview;
    scopes = 1 ∷ 2 ∷ [];
    params = 5 ∷ 6 ∷ [];
    again = some (5 ∷ 6 ∷ []);
  });
  cache = record { entries = []; order = [] };
  sleeping = [];
  world = 3;
}

install_from-Ends_example :
    Ends
      (1 ∷ [])
      logs
      (5 ∷ 6 ∷ [])
      (some (5 ∷ 6 ∷ []))
      at_overview.active
      (install_from numbered logs 1 (5 ∷ 6 ∷ []) (some (5 ∷ 6 ∷ [])) at_overview).0
      (install_from numbered logs 1 (5 ∷ 6 ∷ []) (some (5 ∷ 6 ∷ [])) at_overview).1.active
install_from-Ends_example =
    install_from-Ends numbered logs 1 (5 ∷ 6 ∷ []) (some (5 ∷ 6 ∷ [])) at_overview
      (refl, omega arith, omega arith) (omega arith) (omega arith) (omega arith) (omega arith)

abbrev pub router : Router ℕ ℕ ℕ ℕ
router = record {
  chains = at_overview;
  pending = none;
  drawing = false;
  held = none;
  generation = 4;
  prev_route = none;
  described = none;
  log = [];
}

abbrev pub to_logs : Route ℕ
to_logs = record {
  name = codes "logs";
  described = codes "Logs";
  chain = logs;
  params = 5 ∷ 6 ∷ [];
}

-- A guard that asks before every route.
abbrev pub asking : Route ℕ → ℕ → List Verdict
asking route world = ask (codes "Sure?") none ∷ []

abbrev pub no_guards : ℕ → ℕ → List Verdict
no_guards scope world = []

navigate_then-times_example :
    times 7 (navigate_then numbered asking no_guards to_logs 7 router).1 ≡ times 7 router + once 7 7
navigate_then-times_example = navigate_then-times numbered asking no_guards 7 to_logs 7 router

resume-navigate_then_example :
    resume numbered asking no_guards 4 true
      (navigate_then numbered asking no_guards to_logs 7 router).1
    ≡ (navigate_then numbered asking no_guards to_logs 7 router).1
resume-navigate_then_example =
    resume-navigate_then numbered asking no_guards 4 true to_logs 7 router (omega arith)
      (omega arith)
