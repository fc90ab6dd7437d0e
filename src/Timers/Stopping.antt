-- ===== src/Timers/Stopping.antt =====
-- What ends a timer of crates/guinea-app/src/timers.rs: dropping what keeps it running.
use guinea.Base.{
  ℕ, suc, ◌<◌, ◌≡◌, ◌≢◌, ◌∙◌, refl, sym, subst, ap, true, false, Option, none, some, List, [], ◌∷◌,
  inl, inr, ◌==◌, if◌then◌else◌, map_or-intro, if-intro, arith,
}
use guinea.Timers.{
  Entry, Wake, Timers, Call, starts, names, limits, paces, hides, drops, running_entry, upgrade,
  put, put_at, wake_after, asked, run_timer, begin_tick, is_active, finish_tick, tick, start,
  change, named, when, rearm, set_period, follow, untraced, drop_ticking, call, calls,
}
use guinea.Timers.Chains.{put_at-cases}
use guinea.Timers.Keeping.{InBounds, Fits, upgrade-some, running_entry-some}
use guinea.Timers.Stepping.{
  RunFits, Step, calls_it, changes, fires, passes, moves, Steps, stays, steps,
}
use guinea.Timers.Pacing.{call-ran, follow-ran, finish_tick-ran, run_timer-ran}

-- How often a timer ran.
abbrev pub runs_of : ℕ → List ℕ → ℕ
runs_of id [] = 0
runs_of id (i ∷ ran) = if i == id then suc (runs_of id ran) else runs_of id ran

runs_of-other : (id i : ℕ) (ran : List ℕ) → i ≢ id → runs_of id (i ∷ ran) ≡ runs_of id ran
runs_of-other id i ran h = ground (arith, h)

module _ {W : Type 0} where
  -- A number that was given out, with an entry that nothing holds, or none.
  abbrev pub IsLoose : Option (Entry W) → Type 0
  IsLoose none = Unit
  IsLoose (some e) = e.held ≡ false

  abbrev pub IsStopped : ℕ → Timers W → Type 0
  IsStopped id s = (id < s.next_id) × IsLoose (s.entries id)

  IsLoose-put_at :
      (id i : ℕ) (e : Entry W) (E : ℕ → Option (Entry W))
      → (id ≡ i → IsLoose (E i) → e.held ≡ false)
      → IsLoose (E i)
      → IsLoose (put_at id e E i)
  IsLoose-put_at id i e E k h = elim (put_at-cases id i e E) [
    | inl (same, eq) ↦ subst IsLoose (sym eq) (k (sym same) h)
    | inr (other, eq) ↦ subst IsLoose (sym eq) h
  ]

  -- An entry that is held only where the one in its place was.
  IsLoose-put :
      (id i : ℕ) (old e : Entry W) (E : ℕ → Option (Entry W))
      → E id ≡ some old
      → (old.held ≡ false → e.held ≡ false)
      → IsLoose (E i)
      → IsLoose (put_at id e E i)
  IsLoose-put id i old e E at k h =
      IsLoose-put_at id i e E
        (λ same loose. k (subst IsLoose at (subst (λ j. IsLoose (E j)) (sym same) loose))) h

  call-IsStopped :
      (c : Call W) (id : ℕ) (s : Timers W) → InBounds s → IsStopped id s → IsStopped id (call c s)
  unfolding call start named when change set_period rearm untraced drop_ticking wake_after put asked
  call-IsStopped (starts place feature owner period) id s bound h = (
    omega (arith, h.0, bound.0),
    IsLoose-put_at s.next_id id _ s.entries (λ same. absurd (omega (arith, same, h.0))) h.1,
  )
  call-IsStopped (names i name) id s bound h =
      map_or-intro (IsStopped id) s _ (upgrade i s) h
        (λ e eq. (h.0, IsLoose-put i id e _ s.entries (upgrade-some i s e eq) (λ k. k) h.1))
  call-IsStopped (limits i active) id s bound h =
      map_or-intro (IsStopped id) s _ (upgrade i s) h
        (λ e eq. (h.0, IsLoose-put i id e _ s.entries (upgrade-some i s e eq) (λ k. k) h.1))
  call-IsStopped (paces i period) id s bound h =
      map_or-intro (IsStopped id) s _ (upgrade i s) h
        (λ e eq. (h.0, IsLoose-put i id e _ s.entries (upgrade-some i s e eq) (λ k. k) h.1))
  call-IsStopped (hides i) id s bound h =
      map_or-intro (IsStopped id) s _ (upgrade i s) h
        (λ e eq. (h.0, IsLoose-put i id e _ s.entries (upgrade-some i s e eq) (λ k. k) h.1))
  call-IsStopped (drops i) id s bound h =
      map_or-intro (IsStopped id) s _ (running_entry i s) h (λ e eq.
        (h.0, IsLoose-put i id e _ s.entries (running_entry-some i s e eq).0 (λ k. refl) h.1))

  calls-IsStopped :
      (cs : List (Call W)) (id : ℕ) (s : Timers W)
      → Fits cs s
      → IsStopped id s
      → IsStopped id (calls cs s)
  unfolding calls
  calls-IsStopped [] id s fits h = h
  calls-IsStopped (c ∷ cs) id s fits h =
      calls-IsStopped cs id (call c s) fits.1 (call-IsStopped c id s fits.0 h)

  follow-IsStopped : (i id : ℕ) (s : Timers W) → IsStopped id s → IsStopped id (follow i s)
  unfolding follow rearm wake_after put asked
  follow-IsStopped i id s h =
      map_or-intro (IsStopped id) s _ (running_entry i s) h
        (λ e eq. (h.0, IsLoose-put i id e _ s.entries (running_entry-some i s e eq).0 (λ k. k) h.1))

  finish_tick-IsStopped :
      (i generation id : ℕ) (s : Timers W)
      → IsStopped id s
      → IsStopped id (finish_tick i generation s)
  unfolding finish_tick wake_after put asked
  finish_tick-IsStopped i generation id s h =
      map_or-intro (IsStopped id) s _ (s.entries i) h
        (λ e eq. (h.0, IsLoose-put i id e _ s.entries eq (λ k. k) h.1))

  held-IsLoose :
      (i id : ℕ) (e : Entry W) (E : ℕ → Option (Entry W))
      → E i ≡ some e
      → e.held ≡ true
      → i ≡ id
      → ¬ (IsLoose (E id))
  held-IsLoose i id e E at held same loose =
      let free : e.held ≡ false = subst IsLoose at (subst (λ j. IsLoose (E j)) (sym same) loose) in
      absurd (cc (held, free))

  module _ (run : ℕ → W → W × List (Call W)) where
    -- Stopped, and as often run as before.
    abbrev Rests : ℕ → ℕ → Timers W → Type 0
    Rests id times s = IsStopped id s × (runs_of id s.ran ≡ times)

    begin-Rests :
        (i id times : ℕ) (e : Entry W) (s : Timers W)
        → s.entries i ≡ some e
        → Rests id times s
        → Rests id times (begin_tick i e s)
    unfolding put
    begin-Rests i id times e s at h =
        ((h.0.0, IsLoose-put i id e _ s.entries at (λ k. k) h.0.1), h.1)

    running-Rests :
        (i id times : ℕ) (e : Entry W) (s : Timers W)
        → Fits
            (run i s.world).1
            (record (begin_tick i e s) { world = (run i s.world).0; ran = i ∷ s.ran })
        → s.entries i ≡ some e
        → e.held ≡ true
        → Rests id times s
        → Rests id times (run_timer run i (begin_tick i e s))
    unfolding run_timer put
    running-Rests i id times e s fits at held h = (
      calls-IsStopped (run i s.world).1 id _ fits (begin-Rests i id times e s at h).0,
      ap (runs_of id) (run_timer-ran run i (begin_tick i e s))
          ∙ runs_of-other id i s.ran (λ same. held-IsLoose i id e s.entries at held same h.0.1)
          ∙ h.1,
    )

    tick-Rests :
        (w : Wake) (id times : ℕ) (s : Timers W)
        → RunFits run w.timer s
        → Rests id times s
        → Rests id times (tick run w.timer w.generation s)
    unfolding tick
    tick-Rests w id times s fits h =
        map_or-intro (Rests id times) s _ (running_entry w.timer s) h (λ e eq.
          let (at, held) = running_entry-some w.timer s e eq in
          if-intro (Rests id times) (e.generation == w.generation) _ s
            (λ same.
              let ran =
                if-intro (Rests id times) (is_active e s.world) _ _
                  (λ active. running-Rests w.timer id times e s (fits e at) at held h)
                  (λ idle. begin-Rests w.timer id times e s at h) in
              (
                finish_tick-IsStopped w.timer w.generation id _ ran.0,
                ap (runs_of id) (finish_tick-ran w.timer w.generation _) ∙ ran.1,
              ))
            (λ stale. h))

    Step-Rests :
        (id times : ℕ) (s t : Timers W) → Rests id times s → Step run s t → Rests id times t
    Step-Rests id times s t h (calls_it c bound) =
        (call-IsStopped c id s bound h.0, ap (runs_of id) (call-ran c s) ∙ h.1)
    Step-Rests id times s t h (changes i bound) =
        (follow-IsStopped i id s h.0, ap (runs_of id) (follow-ran i s) ∙ h.1)
    Step-Rests id times s t h (fires before w after eq due fits) = tick-Rests w id times _ fits h
    Step-Rests id times s t h (passes wait) = h
    Step-Rests id times s t h (moves world) = h

    Steps-Rests :
        (id times : ℕ) (s t : Timers W) → Rests id times s → Steps run s t → Rests id times t
    Steps-Rests id times s t h stays = h
    Steps-Rests id times s t h (steps one rest) =
        Steps-Rests id times _ t (Step-Rests id times s _ h one) rest

    -- A timer that was dropped never runs again, whatever happens after.
    pub Steps-IsStopped :
        (id : ℕ) (s t : Timers W)
        → IsStopped id s
        → Steps run s t
        → runs_of id t.ran ≡ runs_of id s.ran
    Steps-IsStopped id s t h k = (Steps-Rests id (runs_of id s.ran) s t (h, refl) k).1
