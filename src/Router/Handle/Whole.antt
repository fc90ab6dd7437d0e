-- ===== src/Router/Handle/Whole.antt =====
-- A navigation of a handle of crates/guinea-router/src/router.rs happens whole or not at all.
use guinea.Base.{
  ℕ, ◌≡◌, refl, sym, ap, subst, ◌∙◌, Bool, true, false, none, some, List, [], ◌∷◌, ◌++◌, append-nil,
  map_or, All,
}
use guinea.Router.Host.{Host}
use guinea.Router.History.{History}
use guinea.Router.Leaving.{Chains}
use guinea.Router.Install.{Installing, installed, refused, broken, install_from}
use guinea.Router.Navigate.{
  Verdict, Route, Held, Parked, Event, settled, questioned, Router, run, after_commit, commit,
  answered,
}
use guinea.Router.Handle.{Closure, Heard, Moving, after_call, tells, call, fire, fire_all, drain}

abbrev pub AreQuestions : List Event → Type 0
AreQuestions log = All (λ event. event ≡ questioned) log

-- Nothing waits.
abbrev pub IsIdle : {P Scope States World : Type 0} → Moving P Scope States World → Type 0
IsIdle m = (m.router.pending ≡ none) × (m.router.held ≡ none) × (m.router.log ≡ [])

module _ {P Scope States World : Type 0} where
  pub fire_all-AreQuestions :
      (log : List Event) (m : Moving P Scope States World) → AreQuestions log → fire_all log m ≡ m
  fire_all-AreQuestions [] m h = refl
  fire_all-AreQuestions (event ∷ log) m h =
      ap (λ e. fire e (fire_all log m)) h.0 ∙ fire_all-AreQuestions log m h.1

  -- What came of a navigation that was made from some history, with what was heard before it: it happened,
  -- it was undone, or the code panicked.
  pub data Ended (c : Closure P) (h : History (Route P)) (heard : List (Heard P))
      (m : Moving P Scope States World) : Type 0 where
    happened :
        IsIdle m
        → m.router.prev_route ≡ some c.published
        → m.history ≡ after_call c.after true h
        → m.heard ≡ heard ++ tells c true
        → Ended c h heard m
    undone : IsIdle m → m.history ≡ after_call c.after false h → m.heard ≡ heard → Ended c h heard m
    lost : m.panicked ≡ true → Ended c h heard m

  -- Where it stands: it waits for an answer or for a frame, and nothing has come of it yet; or it ended.
  pub data Stands (c : Closure P) (token : ℕ) (h : History (Route P)) (heard : List (Heard P))
      (m : Moving P Scope States World) : Type 0 where
    waits_answer :
        (parked : Parked P)
        → m.router.pending ≡ some parked
        → parked.going.settled ≡ token
        → parked.going.route ≡ c.published
        → m.router.held ≡ none
        → m.router.log ≡ []
        → m.waiting token ≡ some c
        → m.history ≡ h
        → m.heard ≡ heard
        → Stands c token h heard m
    waits_frame :
        (held : Held P)
        → m.router.held ≡ some held
        → held.settled ≡ token
        → held.route ≡ c.published
        → m.router.pending ≡ none
        → m.router.log ≡ []
        → m.waiting token ≡ some c
        → m.history ≡ h
        → m.heard ≡ heard
        → Stands c token h heard m
    ended : Ended c h heard m → Stands c token h heard m

  called-Ended :
      (c : Closure P) (token : ℕ) (h : History (Route P)) (heard : List (Heard P)) (arrived : Bool)
      (m : Moving P Scope States World)
      → IsIdle m
      → (arrived ≡ true → m.router.prev_route ≡ some c.published)
      → m.history ≡ h
      → m.heard ≡ heard
      → Ended c h heard (call token c arrived m)
  called-Ended c token h heard true m idle route history told =
      happened idle (route refl) (ap (after_call c.after true) history)
        (ap (λ xs. xs ++ tells c true) told)
  called-Ended c token h heard false m idle route history told =
      undone idle (ap (after_call c.after false) history) (append-nil m.heard ∙ told)

  -- What a settled navigation leaves, once its closure has run.
  fired-Ended :
      (c : Closure P) (token : ℕ) (h : History (Route P)) (heard : List (Heard P)) (arrived : Bool)
      (m : Moving P Scope States World)
      → IsIdle m
      → (arrived ≡ true → m.router.prev_route ≡ some c.published)
      → m.waiting token ≡ some c
      → m.history ≡ h
      → m.heard ≡ heard
      → Ended c h heard (fire (settled token arrived) m)
  fired-Ended c token h heard arrived m idle route waiting history told =
      subst (λ o. Ended c h heard (map_or m (λ c'. call token c' arrived m) o)) (sym waiting)
        (called-Ended c token h heard arrived m idle route history told)

  -- What a navigation that is settled leaves of the events before it: questions run nothing.
  pub settled-Ended :
      (c : Closure P) (token other : ℕ) (h : History (Route P)) (heard : List (Heard P))
      (arrived : Bool) (log : List Event) (m : Moving P Scope States World)
      → other ≡ token
      → AreQuestions log
      → IsIdle m
      → (arrived ≡ true → m.router.prev_route ≡ some c.published)
      → m.waiting token ≡ some c
      → m.history ≡ h
      → m.heard ≡ heard
      → Ended c h heard (fire (settled other arrived) (fire_all log m))
  settled-Ended c token other h heard arrived log m its questions idle route waiting history told =
      subst (λ m'. Ended c h heard (fire (settled other arrived) m'))
        (sym (fire_all-AreQuestions log m questions))
        (subst (λ t. Ended c h heard (fire (settled t arrived) m)) (sym its)
          (fired-Ended c token h heard arrived m idle route waiting history told))

module _ {P Scope States Error World : Type 0} (host : Host P Scope States Error World)
    (enter_guards : Route P → World → List Verdict) (leave_guards : Scope → World → List Verdict)
    (c : Closure P) (token : ℕ) (h : History (Route P)) (heard : List (Heard P)) where
  -- A state of the handle in which the closure waits and all else is as before.
  abbrev pub IsBefore : Moving P Scope States World → Type 0
  IsBefore m = (m.waiting token ≡ some c) × (m.history ≡ h) × (m.heard ≡ heard)

  abbrev pub IsIts : Held P → Type 0
  IsIts going = (going.settled ≡ token) × (going.route ≡ c.published)

  after_commit-Ended :
      (going : Held P) (r : Installing Scope Error) (chains : Chains P Scope States World)
      (st : Router P Scope States World) (m : Moving P Scope States World)
      → IsIts going
      → (st.pending ≡ none) × (st.held ≡ none) × AreQuestions st.log
      → IsBefore m
      → Ended c h heard (
          drain (record m {
            router = (after_commit host enter_guards leave_guards going (r, chains) st).1;
          }))
  after_commit-Ended going (installed leaf) chains st m its free before =
      settled-Ended c token going.settled h heard true st.log _ its.0 free.2 (free.0, free.1, refl)
        (λ e. ap some its.1) before.0 before.1 before.2
  after_commit-Ended going (refused e) chains st m its free before =
      settled-Ended c token going.settled h heard false st.log _ its.0 free.2 (free.0, free.1, refl)
        (λ e. absurd (cc e)) before.0 before.1 before.2
  after_commit-Ended going broken chains st m its free before = lost refl

  pub commit-Ended :
      (going : Held P) (st : Router P Scope States World) (m : Moving P Scope States World)
      → IsIts going
      → (st.pending ≡ none) × (st.held ≡ none) × AreQuestions st.log
      → IsBefore m
      → Ended c h heard
          (drain (record m { router = (commit host enter_guards leave_guards going st).1 }))
  unfolding commit
  commit-Ended going st m its free before =
      let i =
        install_from host going.route.chain going.shared going.route.params
          (some going.route.params) st.chains in
      after_commit-Ended going i.0 i.1 st m its free before

  -- The answer to the question that a navigation waits on.
  pub answered-Ended :
      (allowed : Bool) (parked : Parked P) (st : Router P Scope States World)
      (m : Moving P Scope States World)
      → IsIts parked.going
      → st.held ≡ none
      → AreQuestions st.log
      → IsBefore m
      → Ended c h heard (
          drain (record m {
            router = answered host enter_guards leave_guards allowed (some parked) st;
          }))
  answered-Ended true parked st m its free questions before =
      commit-Ended parked.going
        (run host enter_guards leave_guards questioned (record st { pending = none })) m its
        (refl, free, (refl, questions)) before
  answered-Ended false parked st m its free questions before =
      settled-Ended c token parked.going.settled h heard false (questioned ∷ st.log) _ its.0
        (refl, questions) (refl, free, refl) (λ e. absurd (cc e)) before.0 before.1 before.2
