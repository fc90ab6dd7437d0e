-- ===== src/Timers/Pacing.antt =====
-- What was run by the timers of crates/guinea-app/src/timers.rs, call by call.
use guinea.Base.{
  ℕ, ◌≡◌, ◌∙◌, refl, ap, true, some, List, [], ◌∷◌, ◌++◌, Any, here, there, map_or-intro,
}
use guinea.Timers.{
  Entry, Timers, Call, starts, names, limits, paces, hides, drops, running_entry, upgrade, put,
  wake_after, run_timer, finish_tick, start, change, named, when, rearm, follow, set_period,
  untraced, drop_ticking, call, calls,
}

module _ {ℓ κ} {A : Type ℓ} where
  -- An item that has a property, with what stands before and after it.
  Any-split :
      {P : A → Type κ} {xs : List A}
      → Any P xs
      → (before : List A) × (x : A) × (after : List A) × P x × (xs ≡ before ++ x ∷ after)
  Any-split (here {xs = xs} p) = ([], _, xs, p, refl)
  Any-split (there {x = x} a) =
      let (before, y, after, p, eq) = Any-split a in (x ∷ before, y, after, p, ap (λ l. x ∷ l) eq)

module _ {W : Type 0} where
  -- No call runs anything.
  pub call-ran : (c : Call W) (s : Timers W) → (call c s).ran ≡ s.ran
  unfolding call start named when change set_period rearm untraced drop_ticking wake_after put
  call-ran (starts place feature owner period) s = refl
  call-ran (names id name) s =
      map_or-intro (λ t. t.ran ≡ s.ran) s _ (upgrade id s) refl (λ e eq. refl)
  call-ran (limits id active) s =
      map_or-intro (λ t. t.ran ≡ s.ran) s _ (upgrade id s) refl (λ e eq. refl)
  call-ran (paces id period) s =
      map_or-intro (λ t. t.ran ≡ s.ran) s _ (upgrade id s) refl (λ e eq. refl)
  call-ran (hides id) s = map_or-intro (λ t. t.ran ≡ s.ran) s _ (upgrade id s) refl (λ e eq. refl)
  call-ran (drops id) s =
      map_or-intro (λ t. t.ran ≡ s.ran) s _ (running_entry id s) refl (λ e eq. refl)

  pub calls-ran : (cs : List (Call W)) (s : Timers W) → (calls cs s).ran ≡ s.ran
  unfolding calls
  calls-ran [] s = refl
  calls-ran (c ∷ cs) s = calls-ran cs (call c s) ∙ call-ran c s

  pub follow-ran : (id : ℕ) (s : Timers W) → (follow id s).ran ≡ s.ran
  unfolding follow rearm wake_after put
  follow-ran id s = map_or-intro (λ t. t.ran ≡ s.ran) s _ (running_entry id s) refl (λ e eq. refl)

  pub finish_tick-ran :
      (id generation : ℕ) (s : Timers W) → (finish_tick id generation s).ran ≡ s.ran
  unfolding finish_tick wake_after put
  finish_tick-ran id generation s =
      map_or-intro (λ t. t.ran ≡ s.ran) s _ (s.entries id) refl (λ e eq. refl)

  running_entry-held :
      (id : ℕ) (s : Timers W) (e : Entry W)
      → s.entries id ≡ some e
      → e.held ≡ true
      → running_entry id s ≡ some e
  unfolding running_entry
  running_entry-held id s e at held = rw at (rw held refl)

  module _ (run : ℕ → W → W × List (Call W)) where
    pub run_timer-ran : (id : ℕ) (s : Timers W) → (run_timer run id s).ran ≡ id ∷ s.ran
    unfolding run_timer
    run_timer-ran id s = calls-ran (run id s.world).1 _
