-- ===== src/Router/Settling.antt =====
-- How often a navigation of crates/guinea-router/src/router.rs is settled: what its caller wanted done
-- is run once, unless the code panics on the way.
use guinea.Base.{
  ℕ, ◌+◌, ◌%◌, Bool, true, false, ◌≡◌, refl, ap, ◌∙◌, Option, none, some, List, [], ◌∷◌,
  if◌then◌else◌, ◌==◌, arith, Bool-cases, inl, inr,
}
use guinea.Router.Host.{Host}
use guinea.Router.Leaving.{Chains}
use guinea.Router.Install.{Installing, installed, refused, broken, install_from}
use guinea.Router.Navigate.{
  Verdict, allow, block, ask, Route, Held, Parked, Event, settled, crashed, questioned, Navigation,
  Router, run, after_commit, commit, supersede, drop_held, answered, resume, on_answer, announce,
  u64_bound, decide, begin, navigate_then, settle_held, settle,
}

abbrev pub once : ℕ → ℕ → ℕ
once token other = if token == other then 1 else 0

-- How often a token was run.
abbrev pub runs : ℕ → List Event → ℕ
runs token [] = 0
runs token (settled other arrived ∷ log) = once token other + runs token log
runs token (crashed other ∷ log) = runs token log
runs token (questioned ∷ log) = runs token log

-- How often the code panicked on the way to running a token, which was dropped then.
abbrev pub drops : ℕ → List Event → ℕ
drops token [] = 0
drops token (settled other arrived ∷ log) = drops token log
drops token (crashed other ∷ log) = once token other + drops token log
drops token (questioned ∷ log) = drops token log

-- How often a token waits.
abbrev pub parks : {P : Type 0} → ℕ → Option (Parked P) → ℕ
parks token none = 0
parks token (some parked) = once token parked.going.settled

abbrev pub holds : {P : Type 0} → ℕ → Option (Held P) → ℕ
holds token none = 0
holds token (some held) = once token held.settled

-- How often a token waits, was run, or was dropped by a panic.
abbrev pub times : {P Scope States World : Type 0} → ℕ → Router P Scope States World → ℕ
times token st =
    parks token st.pending + holds token st.held + runs token st.log + drops token st.log

module _ {P Scope States Error World : Type 0} (host : Host P Scope States Error World)
    (enter_guards : Route P → World → List Verdict)
    (leave_guards : Scope → World → List Verdict) where
  commit-times :
      (token : ℕ) (going : Held P) (st : Router P Scope States World)
      → times token (commit host enter_guards leave_guards going st).1
        ≡ times token st + once token going.settled
  unfolding commit
  commit-times token going st =
      let r =
        install_from host going.route.chain going.shared going.route.params
          (some going.route.params) st.chains in
      after r.0 r.1
    where
      after :
          (i : Installing Scope Error) (chains : Chains P Scope States World)
          → times token (after_commit host enter_guards leave_guards going (i, chains) st).1
            ≡ times token st + once token going.settled
      after (installed leaf) chains = omega arith
      after (refused e) chains = omega arith
      after broken chains = omega arith

  answered-times :
      (token : ℕ) (allowed : Bool) (o : Option (Parked P)) (st : Router P Scope States World)
      → st.pending ≡ o
      → times token (answered host enter_guards leave_guards allowed o st) ≡ times token st
  answered-times token allowed none st e = refl
  answered-times token true (some parked) st e =
      commit-times token parked.going
        (run host enter_guards leave_guards questioned (record st { pending = none }))
      ∙ rw e (omega arith)
  answered-times token false (some parked) st e = rw e (omega arith)

  -- An answer settles what waits on it, and nothing else.
  pub resume-times :
      (token generation : ℕ) (allowed : Bool) (st : Router P Scope States World)
      → times token (resume host enter_guards leave_guards generation allowed st) ≡ times token st
  unfolding resume
  resume-times token generation allowed st = elim (Bool-cases (st.generation == generation)) [
    | inl current ↦ rw current (answered-times token allowed st.pending st refl)
    | inr stale ↦ rw stale (refl)
  ]

  supersede-times :
      (token : ℕ) (o : Option (Parked P)) (st : Router P Scope States World)
      → st.pending ≡ o
      → times token (supersede host enter_guards leave_guards o st) ≡ times token st
  supersede-times token none st e = refl
  supersede-times token (some parked) st e = rw e (omega arith)

  drop_held-times :
      (token : ℕ) (o : Option (Held P)) (going : Held P) (st : Router P Scope States World)
      → st.held ≡ o
      → times token (drop_held host enter_guards leave_guards o (record st { held = some going }))
        ≡ times token st + once token going.settled
  drop_held-times token none going st e = rw e (omega arith)
  drop_held-times token (some held) going st e = rw e (omega arith)

  announce-times :
      (token : ℕ) (o : Option (Parked P)) (st : Router P Scope States World)
      → times token (announce host enter_guards leave_guards o st) ≡ times token st
  announce-times token none st = refl
  announce-times token (some parked) st = refl

  on_answer-times :
      (token generation : ℕ) (early : Option Bool) (st : Router P Scope States World)
      → times token (on_answer host enter_guards leave_guards generation early st) ≡ times token st
  on_answer-times token generation none st = refl
  on_answer-times token generation (some allowed) st = resume-times token generation allowed st

  if-times :
      (token : ℕ) (b : Bool) (x y : Navigation Scope Error × Router P Scope States World) {n : ℕ}
      → times token x.1 ≡ n
      → times token y.1 ≡ n
      → times token (if b then x else y).1 ≡ n
  if-times token true x y e f = e
  if-times token false x y e f = f

  decide-times :
      (token : ℕ) (v : Verdict) (going : Held P) (st : Router P Scope States World)
      → st.pending ≡ none
      → times token (decide host enter_guards leave_guards v going st).1
        ≡ times token st + once token going.settled
  decide-times token allow going st n =
      if-times token st.drawing _ _ (drop_held-times token st.held going st refl)
        (commit-times token going st)
  decide-times token block going st n = omega arith
  decide-times token (ask question early) going st n =
      let parked = record st { pending = some (record { question = question; going = going }) } in
      announce-times token _ (on_answer host enter_guards leave_guards st.generation early parked)
      ∙ (on_answer-times token st.generation early parked ∙ rw n (omega arith))

  supersede-pending :
      (o : Option (Parked P)) (st : Router P Scope States World)
      → st.pending ≡ o
      → (supersede host enter_guards leave_guards o st).pending ≡ none
  supersede-pending none st e = e
  supersede-pending (some parked) st e = refl

  -- After a navigation what its caller wanted done waits, was run, or was dropped by a panic on the way,
  -- once more than before; and of any other callback, how often it waits, was run or was so dropped is, in
  -- all, as before: none is run twice, and none is lost but by a panic.
  pub navigate_then-times :
      (token : ℕ) (route : Route P) (other : ℕ) (st : Router P Scope States World)
      → times token (navigate_then host enter_guards leave_guards route other st).1
        ≡ times token st + once token other
  unfolding navigate_then
  navigate_then-times token route other st =
      let begun = begin host enter_guards leave_guards st in
      let bumped = record st { generation = (st.generation + 1) % u64_bound } in
      decide-times token _ _ begun (supersede-pending st.pending bumped refl)
      ∙ ap (λ n. n + once token other) (supersede-times token st.pending bumped refl)

  -- The end of a frame settles what was held, and nothing else.
  pub settle-times :
      (token : ℕ) (st : Router P Scope States World)
      → times token (settle host enter_guards leave_guards st) ≡ times token st
  unfolding settle
  settle-times token st = held st.held refl
    where
      held :
          (o : Option (Held P))
          → st.held ≡ o
          → times token (settle_held host enter_guards leave_guards o st) ≡ times token st
      held none e = refl
      held (some going) e =
          commit-times token going (record st { held = none }) ∙ rw e (omega arith)
