-- ===== src/Timers/Stepping.antt =====
-- Histories of the timers of crates/guinea-app/src/timers.rs: calls, wake-ups that come due, periods
-- that change, time that passes and a world that moves, in any order.
use guinea.Base.{
  ℕ, ◌+◌, ◌≤◌, ◌≡◌, ◌≢◌, refl, sym, subst, true, false, Option, none, some, List, [], ◌∷◌, ◌++◌,
  ◌==◌, append-nil, map_or-cases, if-intro, arith,
}
use guinea.Timers.{
  Entry, Wake, Timers, Call, next, is_held, running_entry, put, put_at, wake_after, asked, armed,
  run_timer, begin_tick, is_active, finish_tick, tick, follow, call,
}
use guinea.Timers.Chains.{IsPaced, Sound, put_at-Sound}
use guinea.Timers.Firing.{front-Sound, renew-Sound}
use guinea.Timers.Keeping.{
  InBounds, Fits, SoundWith, running_entry-some, next-IsPaced, follow-Sound, call-Sound,
  calls-Sound,
}

module _ {W : Type 0} where
  -- A wake-up that no timer waits for may go.
  gone-Sound :
      (w : Wake) (s : Timers W)
      → ((e : Entry W) → s.entries w.timer ≡ some e → e.generation ≡ w.generation → e.held ≢ true)
      → SoundWith (w ∷ []) s
      → SoundWith [] s
  unfolding armed
  gone-Sound w s k h = subst (Sound s.next_id s.entries) (append-nil s.wakes) (
      renew-Sound s.next_id s.now s.entries w s.wakes none
        (λ e at g held paced. absurd (k e at g held)) h)

  is_held-none :
      (o : Option (Entry W)) (e : Entry W) → is_held o ≡ none → o ≡ some e → e.held ≢ true
  is_held-none none e h at = absurd (cc at)
  is_held-none (some d) e h at = λ held.
      let same : d ≡ e = cc at in
      ground (arith, h, subst (λ (x : Entry W). x.held ≡ true) (sym same) held)

  running_entry-none :
      (id : ℕ) (s : Timers W) (e : Entry W)
      → running_entry id s ≡ none
      → s.entries id ≡ some e
      → e.held ≢ true
  unfolding running_entry
  running_entry-none id s e h at = is_held-none (s.entries id) e h at

  stale-generation :
      (d e : Entry W) (o : Option (Entry W)) (generation : ℕ)
      → o ≡ some e
      → o ≡ some d
      → (e.generation == generation) ≡ false
      → d.generation ≢ generation
  stale-generation d e o generation at found stale g =
      let same : d ≡ e = cc (at, found) in
      ground (arith, stale, subst (λ (x : Entry W). x.generation ≡ generation) same g)

  put_at-found :
      (id : ℕ) (d e : Entry W) (E : ℕ → Option (Entry W)) → put_at id d E id ≡ some e → d ≡ e
  put_at-found id d e E h = ground (arith, h)

  finish_tick-Sound :
      (w : Wake) (s : Timers W)
      → SoundWith (w ∷ []) s
      → SoundWith [] (finish_tick w.timer w.generation s)
  unfolding finish_tick wake_after put asked
  finish_tick-Sound w s h =
      map_or-cases (SoundWith []) s _ (s.entries w.timer)
        (λ none. gone-Sound w s (λ e at. absurd (cc (none, at))) h)
        (λ e at.
          renew-Sound s.next_id s.now _ w s.wakes (next e.period s.world)
            (λ d found g held paced. next-IsPaced e.period s.world (
              subst (λ x. IsPaced x.period) (sym (put_at-found w.timer _ d s.entries found)) paced))
            (put_at-Sound s.next_id w.timer e _ s.entries _ at refl (λ k. k) refl h))

module _ {W : Type 0} (run : ℕ → W → W × List (Call W)) where
  -- The counters stay in bounds while a timer runs.
  abbrev pub RunFits : ℕ → Timers W → Type 0
  RunFits id s =
      (e : Entry W)
      → s.entries id ≡ some e
      → Fits (run id s.world).1
          (record (begin_tick id e s) { world = (run id s.world).0; ran = id ∷ s.ran })

  begin-Sound :
      (w : Wake) (e : Entry W) (s : Timers W)
      → s.entries w.timer ≡ some e
      → SoundWith (w ∷ []) s
      → SoundWith (w ∷ []) (begin_tick w.timer e s)
  unfolding put
  begin-Sound w e s at h = put_at-Sound s.next_id w.timer e _ s.entries _ at refl (λ k. k) refl h

  run-Sound :
      (w : Wake) (e : Entry W) (s : Timers W)
      → Fits (run w.timer s.world).1 (record (begin_tick w.timer e s) {
        world = (run w.timer s.world).0;
        ran = w.timer ∷ s.ran;
      })
      → SoundWith (w ∷ []) (begin_tick w.timer e s)
      → SoundWith (w ∷ []) (run_timer run w.timer (begin_tick w.timer e s))
  unfolding run_timer put
  run-Sound w e s fits h = calls-Sound (run w.timer s.world).1 (w ∷ []) _ fits h

  pub tick-Sound :
      (w : Wake) (s : Timers W)
      → RunFits w.timer s
      → SoundWith (w ∷ []) s
      → SoundWith [] (tick run w.timer w.generation s)
  unfolding tick
  tick-Sound w s fits h =
      map_or-cases (SoundWith []) s _ (running_entry w.timer s)
        (λ gone. gone-Sound w s (λ e at g. running_entry-none w.timer s e gone at) h)
        (λ e eq.
          let (at, held) = running_entry-some w.timer s e eq in
          if-intro (SoundWith []) (e.generation == w.generation) _ s
            (λ same. finish_tick-Sound w _ (
              if-intro (SoundWith (w ∷ [])) (is_active e s.world) _ _
                (λ active. run-Sound w e s (fits e at) (begin-Sound w e s at h))
                (λ idle. begin-Sound w e s at h)))
            (λ stale.
              gone-Sound w s
                (λ d found g. absurd (stale-generation d e _ w.generation at found stale g)) h))

  -- What may happen next.
  pub data Step (s : Timers W) : Timers W → Type 0 where
    calls_it : (c : Call W) → InBounds s → Step s (call c s)
    changes : (id : ℕ) → InBounds s → Step s (follow id s)
    fires :
        (before : List Wake) (w : Wake) (after : List Wake)
        → s.wakes ≡ before ++ w ∷ after
        → w.due ≤ s.now
        → RunFits w.timer (record s { wakes = before ++ after })
        → Step s (tick run w.timer w.generation (record s { wakes = before ++ after }))
    passes : (wait : ℕ) → Step s (record s { now = s.now + wait })
    moves : (world : W) → Step s (record s { world = world })

  pub data Steps : Timers W → Timers W → Type 0 where
    stays : {s : Timers W} → Steps s s
    steps : {s t u : Timers W} → Step s t → Steps t u → Steps s u

  pub Step-Sound : (s t : Timers W) → SoundWith [] s → Step s t → SoundWith [] t
  Step-Sound s t h (calls_it c bound) = call-Sound c [] s bound h
  Step-Sound s t h (changes id bound) = follow-Sound id [] s bound h
  Step-Sound s t h (fires before w after eq due fits) =
      tick-Sound w _ fits
        (front-Sound s.next_id s.entries before w after (subst (Sound s.next_id s.entries) eq h))
  Step-Sound s t h (passes wait) = h
  Step-Sound s t h (moves world) = h

  pub Steps-Sound : (s t : Timers W) → SoundWith [] s → Steps s t → SoundWith [] t
  Steps-Sound s t h stays = h
  Steps-Sound s t h (steps one rest) = Steps-Sound _ t (Step-Sound s _ h one) rest
