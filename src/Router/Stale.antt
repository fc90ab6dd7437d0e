-- ===== src/Router/Stale.antt =====
-- The generations of `Router::navigate_then`, of crates/guinea-router/src/router.rs: an answer to a
-- question that a later navigation superseded.
use guinea.Base.{
  ℕ, ◌+◌, ◌%◌, ◌<◌, ◌≤◌, Bool, true, false, ◌≡◌, refl, ◌∙◌, Option, none, some, List, if◌then◌else◌,
  ◌==◌, arith,
}
use guinea.Router.Host.{Host}
use guinea.Router.Leaving.{Chains}
use guinea.Router.Install.{Installing, installed, refused, broken, install_from}
use guinea.Router.Navigate.{
  Verdict, allow, block, ask, Route, Held, Parked, Navigation, Router, after_commit, commit,
  supersede, drop_held, answered, resume, on_answer, announce, u64_bound, decide, begin,
  navigate_then,
}

module _ {P Scope States Error World : Type 0} (host : Host P Scope States Error World)
    (enter_guards : Route P → World → List Verdict)
    (leave_guards : Scope → World → List Verdict) where
  commit-generation :
      (going : Held P) (st : Router P Scope States World)
      → (commit host enter_guards leave_guards going st).1.generation ≡ st.generation
  unfolding commit
  commit-generation going st =
      let r =
        install_from host going.route.chain going.shared going.route.params
          (some going.route.params) st.chains in
      after r.0 r.1
    where
      after :
          (i : Installing Scope Error) (chains : Chains P Scope States World)
          → (after_commit host enter_guards leave_guards going (i, chains) st).1.generation
            ≡ st.generation
      after (installed leaf) chains = refl
      after (refused e) chains = refl
      after broken chains = refl

  if-generation :
      (b : Bool) (x y : Router P Scope States World) {n : ℕ}
      → x.generation ≡ n
      → y.generation ≡ n
      → (if b then x else y).generation ≡ n
  if-generation true x y e f = e
  if-generation false x y e f = f

  pair-generation :
      (b : Bool) (x y : Navigation Scope Error × Router P Scope States World) {n : ℕ}
      → x.1.generation ≡ n
      → y.1.generation ≡ n
      → (if b then x else y).1.generation ≡ n
  pair-generation true x y e f = e
  pair-generation false x y e f = f

  answered-generation :
      (allowed : Bool) (o : Option (Parked P)) (st : Router P Scope States World)
      → (answered host enter_guards leave_guards allowed o st).generation ≡ st.generation
  answered-generation allowed none st = refl
  answered-generation true (some parked) st = commit-generation parked.going _
  answered-generation false (some parked) st = refl

  on_answer-generation :
      (generation : ℕ) (early : Option Bool) (st : Router P Scope States World)
      → (on_answer host enter_guards leave_guards generation early st).generation ≡ st.generation
  unfolding resume
  on_answer-generation generation none st = refl
  on_answer-generation generation (some allowed) st =
      if-generation (st.generation == generation) _ _ (answered-generation allowed st.pending st)
        refl

  announce-generation :
      (o : Option (Parked P)) (st : Router P Scope States World)
      → (announce host enter_guards leave_guards o st).generation ≡ st.generation
  announce-generation none st = refl
  announce-generation (some parked) st = refl

  drop_held-generation :
      (o : Option (Held P)) (st : Router P Scope States World)
      → (drop_held host enter_guards leave_guards o st).generation ≡ st.generation
  drop_held-generation none st = refl
  drop_held-generation (some held) st = refl

  supersede-generation :
      (o : Option (Parked P)) (st : Router P Scope States World)
      → (supersede host enter_guards leave_guards o st).generation ≡ st.generation
  supersede-generation none st = refl
  supersede-generation (some parked) st = refl

  decide-generation :
      (v : Verdict) (going : Held P) (st : Router P Scope States World)
      → (decide host enter_guards leave_guards v going st).1.generation ≡ st.generation
  decide-generation allow going st =
      pair-generation st.drawing _ _ (drop_held-generation st.held _) (commit-generation going st)
  decide-generation block going st = refl
  decide-generation (ask question early) going st =
      announce-generation _ (on_answer host enter_guards leave_guards st.generation early _)
      ∙ on_answer-generation st.generation early _

  navigate_then-generation :
      (route : Route P) (token : ℕ) (st : Router P Scope States World)
      → st.generation + 1 < u64_bound
      → (navigate_then host enter_guards leave_guards route token st).1.generation
        ≡ st.generation + 1
  unfolding navigate_then
  navigate_then-generation route token st below =
      let up : (st.generation + 1) % u64_bound ≡ st.generation + 1 = omega (arith, below) in
      decide-generation _ _ (begin host enter_guards leave_guards st)
      ∙ supersede-generation st.pending (record st { generation = (st.generation + 1) % u64_bound })
      ∙ up

  if-false {ℓ} : {A : Type ℓ} (b : Bool) (x y : A) → b ≡ false → (if b then x else y) ≡ y
  if-false true x y e = cc
  if-false false x y e = refl

  -- After a navigation an answer to the question of any earlier one changes nothing, where the
  -- generations, which are counted in a u64, have not come round.
  pub resume-navigate_then :
      (generation : ℕ) (allowed : Bool) (route : Route P) (token : ℕ)
      (st : Router P Scope States World)
      → generation ≤ st.generation
      → st.generation + 1 < u64_bound
      → resume host enter_guards leave_guards generation allowed
          (navigate_then host enter_guards leave_guards route token st).1
        ≡ (navigate_then host enter_guards leave_guards route token st).1
  unfolding resume
  resume-navigate_then generation allowed route token st h below =
      let next = (navigate_then host enter_guards leave_guards route token st).1 in
      if-false (next.generation == generation) _ next
        (ground (arith, navigate_then-generation route token st below))
