-- ===== src/Timers/Keeping.antt =====
-- Each call of crates/guinea-app/src/timers.rs keeps the wake-ups sound.
use guinea.Base.{
  ℕ, ◌+◌, ◌<◌, ◌≡◌, ◌≢◌, ◌∙◌, refl, sym, subst, Bool, true, false, Option, none, some, List, [],
  ◌∷◌, ◌++◌, inl, inr, Text, ap, ltb, if◌then◌else◌, append_assoc, map_or-intro, Bool-cases, arith,
}
use guinea.Timers.{
  Period, fixed, varying, following, Entry, Wake, Timers, Call, starts, names, limits, paces, hides,
  drops, next, is_held, is_alive, running_entry, upgrade, put, wake_after, asked, new_entry, start,
  change, named, when, rearm, set_period, follow, untraced, drop_ticking, call, calls, u64_bound,
}
use guinea.Timers.Chains.{IsPaced, Had, IsFresh, Sound, put_at-Sound, arm-Sound}

module _ {W : Type 0} where
  -- The counters of a `u64` do not come round at the next step.
  abbrev pub InBounds : Timers W → Type 0
  InBounds s =
      (s.next_id + 1 < u64_bound)
      × ((i : ℕ) (e : Entry W) → s.entries i ≡ some e → e.generation + 1 < u64_bound)

  abbrev pub Fits : List (Call W) → Timers W → Type 0
  Fits [] s = Unit
  Fits (c ∷ cs) s = InBounds s × Fits cs (call c s)

  -- The wake-ups are sound, with some that are not armed any more counted in.
  abbrev pub SoundWith : List Wake → Timers W → Type 0
  SoundWith base s = Sound s.next_id s.entries (base ++ s.wakes)

  is_alive-some : (o : Option (Entry W)) (e : Entry W) → is_alive o ≡ some e → o ≡ some e
  is_alive-some none e h = h
  is_alive-some (some d) e h = ground (arith, h)

  if-some :
      (b : Bool) (d e : Entry W) → (if b then some d else none) ≡ some e → (b ≡ true) × (d ≡ e)
  if-some true d e h = (refl, cc h)
  if-some false d e h = absurd (cc h)

  is_held-some :
      (o : Option (Entry W)) (e : Entry W) → is_held o ≡ some e → (o ≡ some e) × (e.held ≡ true)
  is_held-some none e h = absurd (cc h)
  is_held-some (some d) e h =
      let (held, same) = if-some d.held d e h in
      (ap (λ x. some x) same, subst (λ x. x.held ≡ true) same held)

  pub upgrade-some :
      (id : ℕ) (s : Timers W) (e : Entry W) → upgrade id s ≡ some e → s.entries id ≡ some e
  unfolding upgrade
  upgrade-some id s e h = is_alive-some (s.entries id) e h

  pub running_entry-some :
      (id : ℕ) (s : Timers W) (e : Entry W)
      → running_entry id s ≡ some e
      → (s.entries id ≡ some e) × (e.held ≡ true)
  unfolding running_entry
  running_entry-some id s e h = is_held-some (s.entries id) e h

  IsFresh-below :
      (s : Timers W) (id : ℕ) (e : Entry W)
      → IsFresh s.next_id s.entries
      → s.entries id ≡ some e
      → id < s.next_id
  IsFresh-below s id e fresh at = elim (Bool-cases (ltb id s.next_id)) [
    | inl below ↦ ground (arith, below)
    | inr above ↦ absurd (cc (fresh id (ground (arith, above)), at))
  ]

  pub next-IsPaced : (period : Period W) (world : W) → IsPaced period → next period world ≢ none
  unfolding next
  next-IsPaced (fixed wait) world p = λ h. cc h
  next-IsPaced (varying wait) world p = λ h. cc h
  next-IsPaced (following now) world p = elim p [ ]

  change-Sound :
      (id : ℕ) (f : Entry W → Entry W)
      → ((e : Entry W)
          → ((f e).generation ≡ e.generation) × ((f e).held ≡ e.held) × ((f e).period ≡ e.period))
      → (base : List Wake) (s : Timers W) → SoundWith base s
      → SoundWith base (change id f s)
  unfolding change put
  change-Sound id f keeps base s h =
      map_or-intro (SoundWith base) s (λ e. put id (f e) s) (upgrade id s) h
        (λ e eq.
          put_at-Sound s.next_id id e (f e) s.entries _ (upgrade-some id s e eq) ((keeps e).0)
            (λ k. sym ((keeps e).1) ∙ k) ((keeps e).2) h)

  rearm-Sound :
      (id : ℕ) (old e : Entry W) (base : List Wake) (s : Timers W)
      → InBounds s
      → s.entries id ≡ some old
      → e.generation ≡ old.generation
      → SoundWith base s
      → SoundWith base (rearm id e s)
  unfolding rearm wake_after put asked
  rearm-Sound id old e base s bound at g h =
      subst (Sound s.next_id _) (append_assoc base s.wakes _) (
        arm-Sound s.next_id s.now id _ (next e.period s.world) s.entries _
          (λ n k. omega (arith, subst (λ o. Had o n) at k, g, bound.1 id old at))
          (IsFresh-below s id old h.2 at) (next-IsPaced e.period s.world) h)

  pub follow-Sound :
      (id : ℕ) (base : List Wake) (s : Timers W)
      → InBounds s
      → SoundWith base s
      → SoundWith base (follow id s)
  unfolding follow
  follow-Sound id base s bound h =
      map_or-intro (SoundWith base) s (λ e. rearm id e s) (running_entry id s) h
        (λ e eq. rearm-Sound id e e base s bound (running_entry-some id s e eq).0 refl h)

  set_period-Sound :
      (id : ℕ) (period : Period W) (base : List Wake) (s : Timers W)
      → InBounds s
      → SoundWith base s
      → SoundWith base (set_period id period s)
  unfolding set_period
  set_period-Sound id period base s bound h =
      map_or-intro (SoundWith base) s _ (upgrade id s) h
        (λ e eq. rearm-Sound id e _ base s bound (upgrade-some id s e eq) refl h)

  start-Sound :
      (place : Text) (feature : Option Text) (owner : Option (ℕ × (W → Bool))) (period : Period W)
      → (base : List Wake) (s : Timers W) → InBounds s
      → SoundWith base s
      → SoundWith base (start place feature owner period s)
  unfolding start wake_after put new_entry
  start-Sound place feature owner period base s bound h =
      subst (Sound _ _) (append_assoc base s.wakes _) (
        arm-Sound _ s.now s.next_id _ (next period s.world) s.entries _
          (λ n k. absurd (subst (λ o. Had o n) (h.2 s.next_id (omega arith)) k))
          (omega (arith, bound.0)) (next-IsPaced period s.world)
          (h.0, h.1, (λ i le. h.2 i (omega (arith, le, bound.0))), h.3))

  untraced-Sound :
      (id : ℕ) (base : List Wake) (s : Timers W) → SoundWith base s → SoundWith base (untraced id s)
  unfolding untraced put
  untraced-Sound id base s h = map_or-intro (SoundWith base) s _ (upgrade id s) h (λ e eq.
      put_at-Sound s.next_id id e _ s.entries _ (upgrade-some id s e eq) refl (λ k. k) refl h)

  drop_ticking-Sound :
      (id : ℕ) (base : List Wake) (s : Timers W)
      → SoundWith base s
      → SoundWith base (drop_ticking id s)
  unfolding drop_ticking put
  drop_ticking-Sound id base s h = map_or-intro (SoundWith base) s _ (running_entry id s) h (λ e eq.
      put_at-Sound s.next_id id e _ s.entries _ (running_entry-some id s e eq).0 refl
        (λ k. absurd (cc k)) refl h)

  pub call-Sound :
      (c : Call W) (base : List Wake) (s : Timers W)
      → InBounds s
      → SoundWith base s
      → SoundWith base (call c s)
  unfolding call named when
  call-Sound (starts place feature owner period) base s bound h =
      start-Sound place feature owner period base s bound h
  call-Sound (names id name) base s bound h = change-Sound id _ (λ e. (refl, refl, refl)) base s h
  call-Sound (limits id active) base s bound h =
      change-Sound id _ (λ e. (refl, refl, refl)) base s h
  call-Sound (paces id period) base s bound h = set_period-Sound id period base s bound h
  call-Sound (hides id) base s bound h = untraced-Sound id base s h
  call-Sound (drops id) base s bound h = drop_ticking-Sound id base s h

  pub calls-Sound :
      (cs : List (Call W)) (base : List Wake) (s : Timers W)
      → Fits cs s
      → SoundWith base s
      → SoundWith base (calls cs s)
  unfolding calls
  calls-Sound [] base s fits h = h
  calls-Sound (c ∷ cs) base s fits h =
      calls-Sound cs base (call c s) fits.1 (call-Sound c base s fits.0 h)
