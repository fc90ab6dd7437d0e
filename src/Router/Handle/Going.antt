-- ===== src/Router/Handle/Going.antt =====
-- A navigation of a handle of crates/guinea-router/src/router.rs, as it begins where nothing waits.
use guinea.Base.{
  ℕ, ◌+◌, ◌%◌, ◌≡◌, refl, sym, subst, Bool, false, Option, none, some, List, [], ◌==◌, ==_refl,
  if-intro, if-true,
}
use guinea.Router.Host.{Host}
use guinea.Router.History.{History}
use guinea.Router.Navigate.{
  Verdict, allow, block, ask, Route, Held, Parked, Navigation, Router, commit, supersede, drop_held,
  on_answer, announce, u64_bound, decide, begin, navigate_then,
}
use guinea.Router.Handle.{After, Closure, Heard, Moving, put_at, drain, go}
use guinea.Router.Handle.Whole.{
  AreQuestions, IsIdle, Stands, waits_answer, waits_frame, ended, settled-Ended, IsBefore, IsIts,
  commit-Ended,
}
use guinea.Router.Handle.Waiting.{Stands-same, resume-Stands}

module _ {P Scope States Error World : Type 0} (host : Host P Scope States Error World)
    (enter_guards : Route P → World → List Verdict)
    (leave_guards : Scope → World → List Verdict) where
  announce_same :
      (o : Option (Parked P)) (r : Router P Scope States World) (m : Moving P Scope States World)
      → drain (record m { router = announce host enter_guards leave_guards o r })
        ≡ drain (record m { router = r })
  announce_same none r m = refl
  announce_same (some parked) r m = refl

  module _ (c : Closure P) (token : ℕ) (h : History (Route P)) (heard : List (Heard P)) where
    on_answer-Stands :
        (early : Option Bool) (m : Moving P Scope States World)
        → Stands c token h heard m
        → Stands c token h heard (
            drain (record m {
              router = on_answer host enter_guards leave_guards m.router.generation early m.router;
            }))
    on_answer-Stands none m s = Stands-same c token h heard m m.router.drawing s
    on_answer-Stands (some allowed) m s =
        resume-Stands host enter_guards leave_guards c token h heard m.router.generation allowed m s

    decide-Stands :
        (verdict : Verdict) (going : Held P) (r : Router P Scope States World)
        (m : Moving P Scope States World)
        → IsIts host enter_guards leave_guards c token h heard going
        → (r.pending ≡ none) × (r.held ≡ none) × (r.log ≡ [])
        → IsBefore host enter_guards leave_guards c token h heard m
        → Stands c token h heard (
            drain (record m { router = (decide host enter_guards leave_guards verdict going r).1 }))
    decide-Stands allow going r m its free before =
        if-intro
          (λ (p : Navigation Scope Error × Router P Scope States World).
            Stands c token h heard (drain (record m { router = p.1 })))
          r.drawing _ (commit host enter_guards leave_guards going r)
          (λ e.
            subst
              (λ o. Stands c token h heard (
                drain (record m {
                  router =
                      drop_held host enter_guards leave_guards o (record r { held = some going });
                })))
              (sym free.1)
              (Stands-same c token h heard (record m { router = record r { held = some going } })
                r.drawing
                (waits_frame going refl its.0 its.1 free.0 free.2 before.0 before.1 before.2)))
          (λ e. ended (
            commit-Ended host enter_guards leave_guards c token h heard going r m its
              (free.0, free.1, subst AreQuestions (sym free.2) tt) before))
    decide-Stands block going r m its free before = ended (
        settled-Ended c token going.settled h heard false r.log
          (record m { router = record r { log = [] } }) its.0 (subst AreQuestions (sym free.2) tt)
          (free.0, free.1, refl) (λ e. absurd (cc e)) before.0 before.1 before.2)
    decide-Stands (ask question early) going r m its free before =
        let parked : Router P Scope States World = record r {
          pending = some (record { question = question; going = going });
        } in
        let told : Router P Scope States World =
          on_answer host enter_guards leave_guards r.generation early parked in
        subst (Stands c token h heard) (sym (announce_same told.pending told m)) (
          on_answer-Stands early (record m { router = parked })
            (waits_answer (record { question = question; going = going }) refl its.0 its.1 free.1
              free.2 before.0 before.1 before.2))

  pub go-Stands :
      (route : Route P) (after : After P) (m : Moving P Scope States World)
      → IsIdle m
      → Stands
          (record { published = route; after = after })
          m.next
          m.history
          m.heard
          (go host enter_guards leave_guards route after m).1
  unfolding navigate_then
  go-Stands route after m idle =
      let c : Closure P = record { published = route; after = after } in
      let bumped : Router P Scope States World = record m.router {
        generation = (m.router.generation + 1) % u64_bound;
      } in
      let begun : Router P Scope States World = begin host enter_guards leave_guards m.router in
      decide-Stands c m.next m.history m.heard _ _ begun
        (record m { waiting = put_at m.next (some c) m.waiting; next = m.next + 1 }) (refl, refl)
        (subst
          (λ o.
            ((supersede host enter_guards leave_guards o bumped).pending ≡ none)
            × ((supersede host enter_guards leave_guards o bumped).held ≡ none)
            × ((supersede host enter_guards leave_guards o bumped).log ≡ []))
          (sym idle.0) idle)
        (if-true (m.next == m.next) _ _ (==_refl m.next), refl, refl)
