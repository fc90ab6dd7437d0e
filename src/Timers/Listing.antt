-- ===== src/Timers/Listing.antt =====
-- What devtools are told of the timers of crates/guinea-app/src/timers.rs, against the list of the ones
-- that run.
use guinea.Base.{
  ℕ, zero, suc, ◌+◌, ◌%◌, ◌≤◌, ◌<◌, ◌≡◌, ◌≢◌, ◌∙◌, refl, sym, subst, ap, Bool, true, false, not,
  ◌&&◌, Option, none, some, List, [], ◌∷◌, ◌++◌, inl, inr, Text, ◌==◌, ==_iff, ==_ne, Bool-cases,
  retain, append-nil, map_or-intro, if-intro, arith,
}
use guinea.Timers.{
  Period, Entry, Timers, Change, timer_started, timer_stopped, Call, starts, names, limits, paces,
  hides, drops, next, running_entry, upgrade, put, put_at, wake_after, asked, run_timer, begin_tick,
  is_active, finish_tick, tick, start, change, named, when, rearm, set_period, follow, untraced,
  drop_ticking, call, calls, new_entry, stopped_told, traced_id, running_below, running, u64_bound,
}
use guinea.Timers.Stepping.{
  RunFits, Step, calls_it, changes, fires, passes, moves, Steps, stays, steps,
}
use guinea.Timers.Chains.{IsFresh, put_at-cases, put_at-eq}
use guinea.Timers.Keeping.{InBounds, Fits, upgrade-some, running_entry-some}

abbrev pub except : ℕ → List ℕ → List ℕ
except id ids = retain (λ i. not (i == id)) ids

-- The timers that devtools know of: the ones they were told had started, less the ones that stopped.
unfoldable pub known : List Change → List ℕ
known [] = []
known (timer_started id ∷ told) = known told ++ id ∷ []
known (timer_stopped id ∷ told) = except id (known told)

except-append : (id : ℕ) (xs ys : List ℕ) → except id (xs ++ ys) ≡ except id xs ++ except id ys
except-append id [] ys = refl
except-append id (x ∷ xs) ys = ground (arith, except-append id xs ys)

except-one : (id i : ℕ) → i ≢ id → except id (i ∷ []) ≡ i ∷ []
except-one id i other = ground (arith, other)

except_self : (id : ℕ) → except id (id ∷ []) ≡ []
except_self id = ground arith

and-false : (a b : Bool) → b ≡ false → (a && b) ≡ false
and-false true b h = h
and-false false b h = refl

next-in-bounds : (n : ℕ) → n + 1 < u64_bound → suc n ≡ (n + 1) % u64_bound
next-in-bounds n h = omega (arith, h)

module _ {W : Type 0} where
  put_at-other :
      (id i : ℕ) (e : Entry W) (E : ℕ → Option (Entry W)) → i ≢ id → put_at id e E i ≡ E i
  put_at-other id i e E other = rw (==_ne i id other) refl

  -- Whether devtools may see it.
  abbrev is_shown : Option (Entry W) → Bool
  is_shown none = false
  is_shown (some e) = e.held && e.traced

  traced_id-is_shown :
      (id : ℕ) (o p : Option (Entry W)) (ids : List ℕ)
      → is_shown o ≡ is_shown p
      → traced_id id o ids ≡ traced_id id p ids
  traced_id-is_shown id none none ids h = refl
  traced_id-is_shown id none (some e) ids h = ground (arith, h)
  traced_id-is_shown id (some d) none ids h = ground (arith, h)
  traced_id-is_shown id (some d) (some e) ids h = ground (arith, h)

  -- Entries that devtools may see alike are listed alike.
  running_below-alike :
      (n : ℕ) (s t : ℕ → Option (Entry W))
      → ((i : ℕ) → i < n → is_shown (s i) ≡ is_shown (t i))
      → running_below n s ≡ running_below n t
  unfolding running_below
  running_below-alike zero s t h = refl
  running_below-alike (suc n) s t h =
      traced_id-is_shown n (s n) (t n) _ (h n (omega arith))
      ∙ ap (traced_id n (t n)) (running_below-alike n s t (λ i b. h i (omega (arith, b))))

  except-traced_id :
      (id i : ℕ) (o : Option (Entry W)) (ids : List ℕ)
      → i ≢ id
      → except id (traced_id i o ids) ≡ traced_id i o (except id ids)
  except-traced_id id i none ids other = refl
  except-traced_id id i (some e) ids other = elim (Bool-cases (e.held && e.traced)) [
    | inl shown ↦
        rw shown
          (except-append id ids (i ∷ []) ∙ ap (λ l. except id ids ++ l) (except-one id i other))
    | inr hidden ↦ rw hidden refl
  ]

  except-traced_id_self :
      (id : ℕ) (o : Option (Entry W)) (ids : List ℕ)
      → except id (traced_id id o ids) ≡ except id ids
  except-traced_id_self id none ids = refl
  except-traced_id_self id (some e) ids = elim (Bool-cases (e.held && e.traced)) [
    | inl shown ↦ rw shown (
        except-append id ids (id ∷ [])
        ∙ ap (λ l. except id ids ++ l) (except_self id)
        ∙ append-nil (except id ids))
    | inr hidden ↦ rw hidden refl
  ]

  -- What is listed is below the bound.
  except-running_below :
      (n id : ℕ) (s : ℕ → Option (Entry W))
      → n ≤ id
      → except id (running_below n s) ≡ running_below n s
  unfolding running_below
  except-running_below zero id s h = refl
  except-running_below (suc n) id s h =
      except-traced_id id n (s n) _ (λ e. omega (arith, e, h))
      ∙ ap (traced_id n (s n)) (except-running_below n id s (omega (arith, h)))

  -- An entry that devtools may not see any more leaves the list.
  running_below-hidden :
      (n id : ℕ) (s t : ℕ → Option (Entry W))
      → is_shown (t id) ≡ false
      → ((i : ℕ) → i ≢ id → s i ≡ t i)
      → running_below n t ≡ except id (running_below n s)
  unfolding running_below
  running_below-hidden zero id s t h k = refl
  running_below-hidden (suc n) id s t h k = elim (Bool-cases (n == id)) [
    | inl here ↦
        let same : n ≡ id = (==_iff n id).0 here in
        traced_id-is_shown n (t n) none _ (ap (λ i. is_shown (t i)) same ∙ h)
        ∙ running_below-hidden n id s t h k
        ∙ sym (except-traced_id_self id (s n) _)
        ∙ subst
            (λ i.
              except id (traced_id id (s n) (running_below n s))
              ≡ except id (traced_id i (s n) (running_below n s)))
            (sym same) refl
    | inr other ↦
        let apart : n ≢ id = ground (arith, other) in
        ap (λ o. traced_id n o (running_below n t)) (sym (k n apart))
        ∙ ap (traced_id n (s n)) (running_below-hidden n id s t h k)
        ∙ sym (except-traced_id id n (s n) _ apart)
  ]

  -- What devtools know is what runs.
  abbrev pub IsTold : Timers W → Type 0
  IsTold s = IsFresh s.next_id s.entries × (known s.told ≡ running s)

  shown-put_at :
      (id : ℕ) (old e : Entry W) (E : ℕ → Option (Entry W))
      → E id ≡ some old
      → (e.held && e.traced) ≡ (old.held && old.traced)
      → (i : ℕ) → is_shown (E i) ≡ is_shown (put_at id e E i)
  shown-put_at id old e E at same i = elim (put_at-cases id i e E) [
    | inl (here, eq) ↦
        ap (λ j. is_shown (E j)) here ∙ ap is_shown at ∙ sym same ∙ sym (ap is_shown eq)
    | inr (other, eq) ↦ sym (ap is_shown eq)
  ]

  IsFresh-put :
      (next id : ℕ) (old e : Entry W) (E : ℕ → Option (Entry W))
      → E id ≡ some old
      → IsFresh next E
      → IsFresh next (put_at id e E)
  IsFresh-put next id old e E at fresh i le = elim (put_at-cases id i e E) [
    | inl (same, eq) ↦ cc (fresh i le, at, same)
    | inr (other, eq) ↦ cc (eq, fresh i le)
  ]

  -- A change that devtools do not see.
  put-IsTold :
      (id : ℕ) (old e : Entry W) (s : Timers W)
      → s.entries id ≡ some old
      → (e.held && e.traced) ≡ (old.held && old.traced)
      → IsTold s
      → IsTold (put id e s)
  unfolding put running
  put-IsTold id old e s at same (fresh, told) = (
    IsFresh-put s.next_id id old e s.entries at fresh,
    told
        ∙ running_below-alike s.next_id s.entries _
            (λ i b. shown-put_at id old e s.entries at same i),
  )

  -- A timer that devtools may not see any more, and are told has stopped if they might.
  stop-IsTold :
      (id : ℕ) (old e : Entry W) (s : Timers W)
      → s.entries id ≡ some old
      → (e.held && e.traced) ≡ false
      → IsTold s
      → IsTold (record (put id e s) { told = stopped_told old.traced id s.told })
  unfolding put running known
  stop-IsTold id old e s at hidden (fresh, told) = (
    IsFresh-put s.next_id id old e s.entries at fresh,
    elim (Bool-cases old.traced) [
      | inl traced ↦
          ap (λ b. known (stopped_told b id s.told)) traced
          ∙ ap (except id) told
          ∙ sym (
              running_below-hidden s.next_id id s.entries (put_at id e s.entries)
                (ap is_shown (put_at-eq id e s.entries) ∙ hidden)
                (λ i other. sym (put_at-other id i e s.entries other)))
      | inr untraced ↦
          ap (λ b. known (stopped_told b id s.told)) untraced
          ∙ told
          ∙ running_below-alike s.next_id s.entries _ (λ i b.
            shown-put_at id old e s.entries at
              (hidden ∙ sym (and-false old.held old.traced untraced)) i)
    ],
  )

  change-IsTold :
      (id : ℕ) (f : Entry W → Entry W)
      → ((e : Entry W) → ((f e).held && (f e).traced) ≡ (e.held && e.traced))
      → (s : Timers W) → IsTold s
      → IsTold (change id f s)
  unfolding change
  change-IsTold id f keeps s h =
      map_or-intro IsTold s _ (upgrade id s) h
        (λ e eq. put-IsTold id e (f e) s (upgrade-some id s e eq) (keeps e) h)

  rearm-IsTold :
      (id : ℕ) (old e : Entry W) (s : Timers W)
      → s.entries id ≡ some old
      → (e.held && e.traced) ≡ (old.held && old.traced)
      → IsTold s
      → IsTold (rearm id e s)
  unfolding rearm wake_after asked running put
  rearm-IsTold id old e s at same h =
      put-IsTold id old
        (asked (next e.period s.world) (record e { generation = (e.generation + 1) % u64_bound })) s
        at same h

  start-IsTold :
      (place : Text) (feature : Option Text) (owner : Option (ℕ × (W → Bool))) (period : Period W)
      → (s : Timers W) → InBounds s
      → IsTold s
      → IsTold (start place feature owner period s)
  unfolding start wake_after put new_entry running known running_below
  start-IsTold place feature owner period s bound (fresh, told) =
      let e : Entry W = new_entry place feature owner period (next period s.world) in
      subst
        (λ n.
          IsFresh n (put_at s.next_id e s.entries)
          × (known s.told ++ s.next_id ∷ [] ≡ running_below n (put_at s.next_id e s.entries)))
        (next-in-bounds s.next_id bound.0)
        (
          (λ i le.
              put_at-other s.next_id i e s.entries (λ same. omega (arith, same, le))
              ∙ fresh i (omega (arith, le))),
          ap (λ l. l ++ s.next_id ∷ [])
                (told
                  ∙ running_below-alike s.next_id s.entries (put_at s.next_id e s.entries)
                      (λ i below. ap is_shown (
                        sym (
                          put_at-other s.next_id i e s.entries
                            (λ same. omega (arith, same, below))))))
              ∙ sym (
                  ap
                    (λ o.
                      traced_id s.next_id o
                        (running_below s.next_id (put_at s.next_id e s.entries)))
                    (put_at-eq s.next_id e s.entries)),
        )

  pub call-IsTold : (c : Call W) (s : Timers W) → InBounds s → IsTold s → IsTold (call c s)
  unfolding call named when set_period untraced drop_ticking put running
  call-IsTold (starts place feature owner period) s bound h =
      start-IsTold place feature owner period s bound h
  call-IsTold (names id name) s bound h = change-IsTold id _ (λ e. refl) s h
  call-IsTold (limits id active) s bound h = change-IsTold id _ (λ e. refl) s h
  call-IsTold (paces id period) s bound h =
      map_or-intro IsTold s _ (upgrade id s) h
        (λ e eq. rearm-IsTold id e _ s (upgrade-some id s e eq) refl h)
  call-IsTold (hides id) s bound h =
      map_or-intro IsTold s _ (upgrade id s) h
        (λ e eq. stop-IsTold id e _ s (upgrade-some id s e eq) (and-false e.held false refl) h)
  call-IsTold (drops id) s bound h =
      map_or-intro IsTold s _ (running_entry id s) h
        (λ e eq. stop-IsTold id e _ s (running_entry-some id s e eq).0 refl h)

  calls-IsTold : (cs : List (Call W)) (s : Timers W) → Fits cs s → IsTold s → IsTold (calls cs s)
  unfolding calls
  calls-IsTold [] s fits h = h
  calls-IsTold (c ∷ cs) s fits h = calls-IsTold cs (call c s) fits.1 (call-IsTold c s fits.0 h)

  follow-IsTold : (id : ℕ) (s : Timers W) → IsTold s → IsTold (follow id s)
  unfolding follow
  follow-IsTold id s h =
      map_or-intro IsTold s _ (running_entry id s) h
        (λ e eq. rearm-IsTold id e e s (running_entry-some id s e eq).0 refl h)

  finish_tick-IsTold :
      (id generation : ℕ) (s : Timers W) → IsTold s → IsTold (finish_tick id generation s)
  unfolding finish_tick wake_after running put asked
  finish_tick-IsTold id generation s h = map_or-intro IsTold s _ (s.entries id) h (λ e eq.
      put-IsTold id e (asked (next e.period s.world) (record e { ticking = false })) s eq refl h)

  module _ (run : ℕ → W → W × List (Call W)) where
    run-IsTold :
        (id : ℕ) (e : Entry W) (s : Timers W)
        → Fits
            (run id s.world).1
            (record (begin_tick id e s) { world = (run id s.world).0; ran = id ∷ s.ran })
        → IsTold (begin_tick id e s)
        → IsTold (run_timer run id (begin_tick id e s))
    unfolding run_timer put running
    run-IsTold id e s fits h = calls-IsTold (run id s.world).1 _ fits h

    tick-IsTold :
        (id generation : ℕ) (s : Timers W)
        → RunFits run id s
        → IsTold s
        → IsTold (tick run id generation s)
    unfolding tick
    tick-IsTold id generation s fits h = map_or-intro IsTold s _ (running_entry id s) h (λ e eq.
        let at = (running_entry-some id s e eq).0 in
        if-intro IsTold (e.generation == generation) _ s
          (λ same. finish_tick-IsTold id generation _ (
            if-intro IsTold (is_active e s.world) _ _
              (λ active. run-IsTold id e s (fits e at) (put-IsTold id e _ s at refl h))
              (λ idle. put-IsTold id e _ s at refl h)))
          (λ stale. h))

    Step-IsTold : (s t : Timers W) → IsTold s → Step run s t → IsTold t
    unfolding running
    Step-IsTold s t h (calls_it c bound) = call-IsTold c s bound h
    Step-IsTold s t h (changes id bound) = follow-IsTold id s h
    Step-IsTold s t h (fires before w after eq due fits) =
        tick-IsTold w.timer w.generation (record s { wakes = before ++ after }) fits h
    Step-IsTold s t h (passes wait) = h
    Step-IsTold s t h (moves world) = h

    -- What devtools know from what they were told, start by start and stop by stop, is the list of
    -- the timers that run and that they may see, and stays so whatever happens.
    pub Steps-IsTold : (s t : Timers W) → IsTold s → Steps run s t → IsTold t
    Steps-IsTold s t h stays = h
    Steps-IsTold s t h (steps one rest) = Steps-IsTold _ t (Step-IsTold s _ h one) rest
