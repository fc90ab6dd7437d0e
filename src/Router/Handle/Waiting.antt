-- ===== src/Router/Handle/Waiting.antt =====
-- A navigation of a handle of crates/guinea-router/src/router.rs that waits, until it is settled.
use guinea.Base.{
  ℕ, ◌≡◌, refl, sym, ap, ◌∙◌, subst, Bool, true, false, none, some, if-true, if-false, ==_refl,
  List, [], ◌∷◌, ◌==◌, if-intro, map_or-cases,
}
use guinea.Router.Host.{Host}
use guinea.Router.History.{History}
use guinea.Router.Navigate.{
  Verdict, Route, Held, Parked, Event, settled, crashed, questioned, Router, answered, resume,
  settle_held, settle, answer, is_none,
}
use guinea.Router.Handle.{
  Closure, Heard, Moving, call, fire, fire_all, drain, Settling, answers, resumes, settles,
  begins_frame, ends_frame, settle_router, settle_all,
}
use guinea.Router.Handle.Whole.{
  AreQuestions, IsIdle, Stands, waits_answer, waits_frame, Ended, ended, happened, undone, lost,
  IsBefore, IsIts, commit-Ended, answered-Ended,
}

module _ {P Scope States World : Type 0} where
  fire-panicked :
      (event : Event) (m : Moving P Scope States World)
      → m.panicked ≡ true
      → (fire event m).panicked ≡ true
  fire-panicked (settled token arrived) m h =
      map_or-cases (λ (m' : Moving P Scope States World). m'.panicked ≡ true) m
        (λ c. call token c arrived m) (m.waiting token) (λ e. h) (λ c e. h)
  fire-panicked (crashed token) m h = refl
  fire-panicked questioned m h = h

  fire_all-panicked :
      (log : List Event) (m : Moving P Scope States World)
      → m.panicked ≡ true
      → (fire_all log m).panicked ≡ true
  fire_all-panicked [] m h = h
  fire_all-panicked (event ∷ log) m h =
      fire-panicked event (fire_all log m) (fire_all-panicked log m h)

  abbrev ran : List Event → Moving P Scope States World → Bool → Moving P Scope States World
  ran log m drawing =
      fire_all log (record m { router = record m.router { drawing = drawing; log = [] } })

  pub Ended-same :
      (c : Closure P) (h : History (Route P)) (heard : List (Heard P))
      (m : Moving P Scope States World) (drawing : Bool)
      → Ended c h heard m
      → Ended c h heard (drain (record m { router = record m.router { drawing = drawing } }))
  Ended-same c h heard m drawing (happened idle r hi he) =
      subst (λ log. Ended c h heard (ran log m drawing)) (sym idle.2)
        (happened (idle.0, idle.1, refl) r hi he)
  Ended-same c h heard m drawing (undone idle hi he) =
      subst (λ log. Ended c h heard (ran log m drawing)) (sym idle.2)
        (undone (idle.0, idle.1, refl) hi he)
  Ended-same c h heard m drawing (lost e) = lost (
      fire_all-panicked m.router.log
        (record m { router = record m.router { drawing = drawing; log = [] } }) e)

  -- Where only the flag of the frame changes, a navigation stands as before.
  pub Stands-same :
      (c : Closure P) (token : ℕ) (h : History (Route P)) (heard : List (Heard P))
      (m : Moving P Scope States World) (drawing : Bool)
      → Stands c token h heard m
      → Stands c token h heard (drain (record m { router = record m.router { drawing = drawing } }))
  Stands-same c token h heard m drawing (waits_answer parked p t r d l w hi he) =
      subst (λ log. Stands c token h heard (ran log m drawing)) (sym l)
        (waits_answer parked p t r d refl w hi he)
  Stands-same c token h heard m drawing (waits_frame held d t r p l w hi he) =
      subst (λ log. Stands c token h heard (ran log m drawing)) (sym l)
        (waits_frame held d t r p refl w hi he)
  Stands-same c token h heard m drawing (ended e) = ended (Ended-same c h heard m drawing e)

module _ {P Scope States Error World : Type 0} (host : Host P Scope States Error World)
    (enter_guards : Route P → World → List Verdict) (leave_guards : Scope → World → List Verdict)
    (c : Closure P) (token : ℕ) (h : History (Route P)) (heard : List (Heard P)) where
  abbrev StandsWith : Moving P Scope States World → Router P Scope States World → Type 0
  StandsWith m r = Stands c token h heard (drain (record m { router = r }))

  abbrev EndedWith : Moving P Scope States World → Router P Scope States World → Type 0
  EndedWith m r = Ended c h heard (drain (record m { router = r }))

  questions : (log : List Event) → log ≡ [] → AreQuestions log
  questions log e = subst AreQuestions (sym e) tt

  -- What has ended stays so where the router does nothing with nothing waiting.
  Ended-stays :
      (m : Moving P Scope States World) (r : Router P Scope States World)
      → (IsIdle m → r ≡ m.router)
      → Ended c h heard m
      → EndedWith m r
  Ended-stays m r same (happened idle p hi he) =
      subst (EndedWith m) (sym (same idle))
        (Ended-same c h heard m m.router.drawing (happened idle p hi he))
  Ended-stays m r same (undone idle hi he) =
      subst (EndedWith m) (sym (same idle))
        (Ended-same c h heard m m.router.drawing (undone idle hi he))
  Ended-stays m r same (lost e) =
      lost (fire_all-panicked r.log (record m { router = record r { log = [] } }) e)

  answered_any :
      (allowed : Bool) (m : Moving P Scope States World)
      → Stands c token h heard m
      → StandsWith m (answered host enter_guards leave_guards allowed m.router.pending m.router)
  answered_any allowed m (waits_answer parked p t r d l w hi he) =
      subst (λ o. StandsWith m (answered host enter_guards leave_guards allowed o m.router)) (sym p)
        (ended (
          answered-Ended host enter_guards leave_guards c token h heard allowed parked m.router m
            (t, r) d (questions m.router.log l) (w, hi, he)))
  answered_any allowed m (waits_frame held d t r p l w hi he) =
      subst (λ o. StandsWith m (answered host enter_guards leave_guards allowed o m.router)) (sym p)
        (Stands-same c token h heard m m.router.drawing (waits_frame held d t r p l w hi he))
  answered_any allowed m (ended e) = ended (
      Ended-stays m (answered host enter_guards leave_guards allowed m.router.pending m.router)
        (λ idle. ap (λ o. answered host enter_guards leave_guards allowed o m.router) idle.0) e)

  pub resume-Stands :
      (generation : ℕ) (allowed : Bool) (m : Moving P Scope States World)
      → Stands c token h heard m
      → StandsWith m (resume host enter_guards leave_guards generation allowed m.router)
  unfolding resume
  resume-Stands generation allowed m s =
      if-intro (StandsWith m) (m.router.generation == generation)
        (answered host enter_guards leave_guards allowed m.router.pending m.router) m.router
        (λ e. answered_any allowed m s) (λ e. Stands-same c token h heard m m.router.drawing s)

  answer-Stands :
      (allowed : Bool) (m : Moving P Scope States World)
      → Stands c token h heard m
      → StandsWith m (answer host enter_guards leave_guards allowed m.router)
  unfolding answer
  answer-Stands allowed m s =
      if-intro (StandsWith m) (is_none host enter_guards leave_guards m.router.pending) m.router
        (resume host enter_guards leave_guards m.router.generation allowed m.router)
        (λ e. Stands-same c token h heard m m.router.drawing s)
        (λ e. resume-Stands m.router.generation allowed m s)

  -- The frame's end settles what waited for it.
  settle_frame :
      (held : Held P) (m : Moving P Scope States World)
      → m.router.held ≡ some held
      → IsIts host enter_guards leave_guards c token h heard held
      → m.router.pending ≡ none
      → m.router.log ≡ []
      → IsBefore host enter_guards leave_guards c token h heard m
      → EndedWith m (settle host enter_guards leave_guards m.router)
  unfolding settle
  settle_frame held m d its p l before =
      subst (λ o. EndedWith m (settle_held host enter_guards leave_guards o m.router)) (sym d)
        (commit-Ended host enter_guards leave_guards c token h heard held
          (record m.router { held = none }) m its (p, refl, questions m.router.log l) before)

  settle-Ended :
      (m : Moving P Scope States World)
      → Ended c h heard m
      → EndedWith m (settle host enter_guards leave_guards m.router)
  unfolding settle
  settle-Ended m e =
      Ended-stays m (settle_held host enter_guards leave_guards m.router.held m.router)
        (λ idle. ap (λ o. settle_held host enter_guards leave_guards o m.router) idle.1) e

  settle-Stands :
      (m : Moving P Scope States World)
      → Stands c token h heard m
      → StandsWith m (settle host enter_guards leave_guards m.router)
  unfolding settle
  settle-Stands m (waits_frame held d t r p l w hi he) =
      ended (settle_frame held m d (t, r) p l (w, hi, he))
  settle-Stands m (waits_answer parked p t r d l w hi he) =
      subst (λ o. StandsWith m (settle_held host enter_guards leave_guards o m.router)) (sym d)
        (Stands-same c token h heard m m.router.drawing (waits_answer parked p t r d l w hi he))
  settle-Stands m (ended e) = ended (settle-Ended m e)

  settle_router-Stands :
      (s : Settling) (m : Moving P Scope States World)
      → Stands c token h heard m
      → StandsWith m (settle_router host enter_guards leave_guards s m.router)
  settle_router-Stands (answers allowed) m s = answer-Stands allowed m s
  settle_router-Stands (resumes generation allowed) m s = resume-Stands generation allowed m s
  settle_router-Stands settles m s = settle-Stands m s
  settle_router-Stands begins_frame m s = Stands-same c token h heard m true s
  settle_router-Stands ends_frame m s = Stands-same c token h heard m false s

  pub settle_all-Stands :
      (later : List Settling) (m : Moving P Scope States World)
      → Stands c token h heard m
      → Stands c token h heard (settle_all host enter_guards leave_guards later m)
  settle_all-Stands [] m s = s
  settle_all-Stands (one ∷ later) m s =
      settle_all-Stands later
        (drain (record m { router = settle_router host enter_guards leave_guards one m.router }))
        (settle_router-Stands one m s)

  -- An answer ends what waits for one.
  answer_question :
      (allowed : Bool) (parked : Parked P) (m : Moving P Scope States World)
      → m.router.pending ≡ some parked
      → IsIts host enter_guards leave_guards c token h heard parked.going
      → m.router.held ≡ none
      → m.router.log ≡ []
      → IsBefore host enter_guards leave_guards c token h heard m
      → EndedWith m (answer host enter_guards leave_guards allowed m.router)
  unfolding answer resume
  answer_question allowed parked m p its d l before =
      subst (EndedWith m)
        (sym (
          if-false (is_none host enter_guards leave_guards m.router.pending) _ _
            (ap (is_none host enter_guards leave_guards) p)
          ∙ if-true (m.router.generation == m.router.generation) _ _ (==_refl m.router.generation)))
        (subst (λ o. EndedWith m (answered host enter_guards leave_guards allowed o m.router))
          (sym p)
          (answered-Ended host enter_guards leave_guards c token h heard allowed parked m.router m
            its d (questions m.router.log l) before))

  answer_nothing :
      (allowed : Bool) (r : Router P Scope States World)
      → r.pending ≡ none
      → answer host enter_guards leave_guards allowed r ≡ r
  unfolding answer
  answer_nothing allowed r p =
      if-true (is_none host enter_guards leave_guards r.pending) _ _
        (ap (is_none host enter_guards leave_guards) p)

  abbrev SettledAfter :
      List Event → Router P Scope States World → Moving P Scope States World → Type 0
  SettledAfter log r m =
      let m' : Moving P Scope States World =
        fire_all log (record m { router = record r { log = [] } }) in
      EndedWith m' (settle host enter_guards leave_guards m'.router)

  pub settle_all-Ended :
      (allowed : Bool) (m : Moving P Scope States World)
      → Stands c token h heard m
      → Ended c h heard
          (settle_all host enter_guards leave_guards (answers allowed ∷ settles ∷ []) m)
  settle_all-Ended allowed m (waits_answer parked p t r d l w hi he) =
      settle-Ended
        (drain (record m { router = answer host enter_guards leave_guards allowed m.router }))
        (answer_question allowed parked m p (t, r) d l (w, hi, he))
  settle_all-Ended allowed m (waits_frame held d t r p l w hi he) =
      subst (λ r'. SettledAfter r'.log r' m) (sym (answer_nothing allowed m.router p))
        (subst (λ log. SettledAfter log m.router m) (sym l)
          (settle_frame held (record m { router = record m.router { log = [] } }) d (t, r) p refl
            (w, hi, he)))
  settle_all-Ended allowed m (ended e) =
      settle-Ended
        (drain (record m { router = answer host enter_guards leave_guards allowed m.router }))
        (Ended-stays m (answer host enter_guards leave_guards allowed m.router)
          (λ idle. answer_nothing allowed m.router idle.0) e)
