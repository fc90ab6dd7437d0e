-- ===== src/Timers/Restarting.antt =====
-- A new period of a timer of crates/guinea-app/src/timers.rs, which starts a chain from now.
use guinea.Base.{
  ℕ, ◌+◌, ◌%◌, ◌≡◌, ◌≢◌, refl, sym, subst, Option, some, List, [], ◌⊎◌, inl, inr, ◌==◌, Bool-cases,
  ==_iff, ==_ne, Any, All, here, All-map, All-append, Any-append_right, arith,
}
use guinea.Timers.{
  Period, Entry, Timers, Call, next, watch, running_entry, upgrade, put, put_at, wake_after, asked,
  armed, tick, rearm, set_period, u64_bound,
}
use guinea.Timers.Chains.{Had, WakesUp, put_at-eq}
use guinea.Timers.Keeping.{InBounds, SoundWith, upgrade-some}

module _ {W : Type 0} where
  put_at-there :
      (id timer : ℕ) (e : Entry W) (E : ℕ → Option (Entry W))
      → timer ≡ id
      → put_at id e E timer ≡ some e
  put_at-there id timer e E there =
      subst (λ i. put_at id e E i ≡ some e) (sym there) (put_at-eq id e E)

  past-generation :
      (id timer generation : ℕ) (old e : Entry W) (s : Timers W)
      → InBounds s
      → s.entries id ≡ some old
      → e.generation ≡ old.generation
      → timer ≡ id
      → Had (s.entries timer) generation
      → (e.generation + 1) % u64_bound ≢ generation
  past-generation id timer generation old e s bound at same there had =
      let past : Had (some old) generation =
        subst (λ o. Had o generation) at (subst (λ i. Had (s.entries i) generation) there had) in
      omega (arith, past, same, bound.1 id old at)

module _ {W : Type 0} (run : ℕ → W → W × List (Call W)) where
  -- A wake-up of another generation than its entry's does nothing.
  tick-stale :
      (id generation : ℕ) (e : Entry W) (s : Timers W)
      → s.entries id ≡ some e
      → e.generation ≢ generation
      → tick run id generation s ≡ s
  unfolding tick running_entry
  tick-stale id generation e s at other = rw at (elim (Bool-cases e.held) [
    | inl held ↦ rw held (rw (==_ne e.generation generation other) refl)
    | inr free ↦ rw free refl
  ])

  rearm-restarts :
      (id : ℕ) (wait : ℕ) (old e : Entry W) (s : Timers W)
      → SoundWith [] s
      → InBounds s
      → s.entries id ≡ some old
      → e.generation ≡ old.generation
      → next e.period s.world ≡ some wait
      → All
          (λ w.
            (w.timer ≢ id)
            ⊎ (w.due ≡ s.now + wait)
            ⊎ (tick run w.timer w.generation (rearm id e s) ≡ rearm id e s))
          (rearm id e s).wakes
        × Any
            (λ w. WakesUp id ((e.generation + 1) % u64_bound) w × (w.due ≡ s.now + wait))
            (rearm id e s).wakes
  unfolding rearm wake_after armed put asked
  rearm-restarts id wait old e s h bound at same eq = rw eq (
    All-append _ s.wakes _
        (All-map
          (λ w had. elim (Bool-cases (w.timer == id)) [
            | inl here' ↦
                let there' : w.timer ≡ id = (==_iff w.timer id).0 here' in
                inr (
                  inr (
                    tick-stale w.timer w.generation
                      (record e { last = wait; generation = (e.generation + 1) % u64_bound }) _
                      (put_at-there id w.timer
                        (record e { last = wait; generation = (e.generation + 1) % u64_bound })
                        s.entries there')
                      (past-generation id w.timer w.generation old e s bound at same there' had)))
            | inr other ↦ inl (ground (arith, other))
          ])
          s.wakes h.0)
        (inr (inl refl), tt),
    Any-append_right s.wakes (here ((refl, refl), refl)),
  )

  -- A new period that has an answer: every wake-up that waits is another timer's, is due a new period
  -- from now, or does nothing now when it comes due, and one that is due then waits.
  pub set_period-restarts :
      (id : ℕ) (period : Period W) (wait : ℕ) (e : Entry W) (s : Timers W)
      → SoundWith [] s
      → InBounds s
      → upgrade id s ≡ some e
      → next period s.world ≡ some wait
      → All
          (λ w.
            (w.timer ≢ id)
            ⊎ (w.due ≡ s.now + wait)
            ⊎ (tick run w.timer w.generation (set_period id period s) ≡ set_period id period s))
          (set_period id period s).wakes
        × Any
            (λ w. WakesUp id ((e.generation + 1) % u64_bound) w × (w.due ≡ s.now + wait))
            (set_period id period s).wakes
  unfolding set_period
  set_period-restarts id period wait e s h bound alive eq = rw alive (
      rearm-restarts id wait e (record e { period = period; watching = watch period }) s h bound
        (upgrade-some id s e alive) refl eq)
