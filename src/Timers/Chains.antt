-- ===== src/Timers/Chains.antt =====
-- What holds of the wake-ups of crates/guinea-app/src/timers.rs and of the entries they wake, and what
-- a new entry in a timer's place leaves of it.
use guinea.Base.{
  ℕ, ◌≤◌, ◌<◌, ◌≡◌, ◌≢◌, ◌∙◌, refl, sym, subst, true, Option, none, some, List, [], ◌∷◌, ◌++◌, ◌⊎◌,
  inl, inr, All, Any, here, All-map, All-append, Any-append_left, Any-append_right, append-nil,
  arith,
}
use guinea.Timers.{Period, fixed, varying, following, Entry, Wake, armed, put_at}

-- Two wake-ups of different chains.
abbrev pub Differ : Wake → Wake → Type 0
Differ w v = ¬ ((w.timer ≡ v.timer) × (w.generation ≡ v.generation))

abbrev pub AreDistinct : List Wake → Type 0
AreDistinct [] = Unit
AreDistinct (w ∷ ws) = All (Differ w) ws × AreDistinct ws

-- The wake-up of a timer's chain.
abbrev pub WakesUp : ℕ → ℕ → Wake → Type 0
WakesUp id generation w = (w.timer ≡ id) × (w.generation ≡ generation)

module _ {W : Type 0} where
  -- Every question about the period has an answer.
  abbrev pub IsPaced : Period W → Type 0
  IsPaced (fixed period) = Unit
  IsPaced (varying period) = Unit
  IsPaced (following now) = ⊥

  -- A generation that an entry has had.
  abbrev pub Had : Option (Entry W) → ℕ → Type 0
  Had none generation = ⊥
  Had (some e) generation = generation ≤ e.generation

  abbrev pub IsHad : (ℕ → Option (Entry W)) → Wake → Type 0
  IsHad entries w = Had (entries w.timer) w.generation

  -- No entry stands under a number that was not given out.
  abbrev pub IsFresh : ℕ → (ℕ → Option (Entry W)) → Type 0
  IsFresh next entries = (i : ℕ) → next ≤ i → entries i ≡ none

  -- A timer that is kept running and is paced has a wake-up of its own generation.
  abbrev pub HasChain : (ℕ → Option (Entry W)) → List Wake → Type 0
  HasChain entries ws =
      (i : ℕ) (e : Entry W)
      → entries i ≡ some e
      → e.held ≡ true
      → IsPaced e.period
      → Any (WakesUp i e.generation) ws

  -- The wake-ups are of generations their entries have had, no two of one chain, and every timer has
  -- its own.
  abbrev pub Sound : ℕ → (ℕ → Option (Entry W)) → List Wake → Type 0
  Sound next entries ws =
      All (IsHad entries) ws × AreDistinct ws × IsFresh next entries × HasChain entries ws

  pub put_at-eq : (id : ℕ) (e : Entry W) (E : ℕ → Option (Entry W)) → put_at id e E id ≡ some e
  put_at-eq id e E = ground arith

  pub put_at-cases :
      (id i : ℕ) (e : Entry W) (E : ℕ → Option (Entry W))
      → ((i ≡ id) × (put_at id e E i ≡ some e)) ⊎ ((i ≢ id) × (put_at id e E i ≡ E i))
  put_at-cases id i e E = ground arith

  pub Had-put_at :
      (id i generation : ℕ) (e : Entry W) (E : ℕ → Option (Entry W))
      → ((g : ℕ) → Had (E id) g → g ≤ e.generation)
      → Had (E i) generation
      → Had (put_at id e E i) generation
  Had-put_at id i generation e E k h = elim (put_at-cases id i e E) [
    | inl (same, eq) ↦
        subst (λ o. Had o generation) (sym eq)
          (k generation (subst (λ j. Had (E j) generation) same h))
    | inr (other, eq) ↦ subst (λ o. Had o generation) (sym eq) h
  ]

  IsHad-put_at :
      (id : ℕ) (e : Entry W) (E : ℕ → Option (Entry W)) (ws : List Wake)
      → ((g : ℕ) → Had (E id) g → g ≤ e.generation)
      → All (IsHad E) ws
      → All (IsHad (put_at id e E)) ws
  IsHad-put_at id e E ws k h = All-map (λ w j. Had-put_at id w.timer w.generation e E k j) ws h

  IsFresh-put_at :
      (next id : ℕ) (e : Entry W) (E : ℕ → Option (Entry W))
      → id < next
      → ((i : ℕ) → next ≤ i → E i ≡ none)
      → IsFresh next (put_at id e E)
  IsFresh-put_at next id e E b h i le = elim (put_at-cases id i e E) [
    | inl (same, eq) ↦ absurd (omega (arith, same, b, le))
    | inr (other, eq) ↦ cc (eq, h i le)
  ]

  -- A wake-up of a generation that its entry has not had is of no chain there is.
  AreDistinct-append :
      (E : ℕ → Option (Entry W)) (ws : List Wake) (w : Wake)
      → All (IsHad E) ws
      → ¬ (IsHad E w)
      → AreDistinct ws
      → AreDistinct (ws ++ w ∷ [])
  AreDistinct-append E [] w h n d = (tt, tt)
  AreDistinct-append E (v ∷ ws) w h n d = (
    All-append (Differ v) ws (w ∷ []) d.0 (
      (λ same. n (
          subst (λ g. Had (E w.timer) g) (same.1)
            (subst (λ i. Had (E i) v.generation) (same.0) h.0))),
      tt,
    ),
    AreDistinct-append E ws w h.1 n d.1,
  )

  HasChain-put_at :
      (id : ℕ) (e : Entry W) (E : ℕ → Option (Entry W)) (ws : List Wake)
      → (e.held ≡ true → IsPaced e.period → Any (WakesUp id e.generation) ws)
      → HasChain E ws
      → HasChain (put_at id e E) ws
  HasChain-put_at id e E ws k chain i f found h paced = elim (put_at-cases id i e E) [
    | inl (same, eq) ↦
        let is : e ≡ f = cc (eq, found) in
        subst (λ d. Any (WakesUp i d.generation) ws) is
          (subst (λ j. Any (WakesUp j e.generation) ws) (sym same)
            (k (subst (λ d. d.held ≡ true) (sym is) h)
              (subst (λ d. IsPaced d.period) (sym is) paced)))
    | inr (other, eq) ↦ chain i f (sym eq ∙ found) h paced
  ]

  HasChain-append :
      (E : ℕ → Option (Entry W)) (ws vs : List Wake) → HasChain E ws → HasChain E (ws ++ vs)
  HasChain-append E ws vs chain i e found h paced = Any-append_left vs (chain i e found h paced)

  -- An entry that differs in nothing that counts.
  pub put_at-Sound :
      (next id : ℕ) (old e : Entry W) (E : ℕ → Option (Entry W)) (ws : List Wake)
      → E id ≡ some old
      → e.generation ≡ old.generation
      → (e.held ≡ true → old.held ≡ true)
      → e.period ≡ old.period
      → Sound next E ws
      → Sound next (put_at id e E) ws
  put_at-Sound next id old e E ws at g held period (had, distinct, fresh, chain) = (
    IsHad-put_at id e E ws (λ n h. subst (λ m. n ≤ m) (sym g) (subst (λ o. Had o n) at h)) had,
    distinct,
    (λ i le. elim (put_at-cases id i e E) [
      | inl (same, eq) ↦ cc (fresh i le, at, same)
      | inr (other, eq) ↦ cc (eq, fresh i le)
    ]),
    HasChain-put_at id e E ws
        (λ h paced.
          subst (λ n. Any (WakesUp id n) ws) (sym g)
            (chain id old at (held h) (subst IsPaced period paced)))
        chain,
  )

  -- A new generation of an entry, with the wake-up that its period asks for.
  pub arm-Sound :
      (next now id : ℕ) (e : Entry W) (wait : Option ℕ) (E : ℕ → Option (Entry W)) (ws : List Wake)
      → ((g : ℕ) → Had (E id) g → g < e.generation)
      → id < next
      → (IsPaced e.period → wait ≢ none)
      → Sound next E ws
      → Sound next (put_at id e E) (ws ++ armed id e.generation now wait)
  unfolding armed
  arm-Sound next now id e none E ws later below paced (had, distinct, fresh, chain) =
      subst (Sound next (put_at id e E)) (sym (append-nil ws)) (
        IsHad-put_at id e E ws (λ n h. omega (arith, later n h)) had,
        distinct,
        IsFresh-put_at next id e E below fresh,
        HasChain-put_at id e E ws (λ h p. absurd (paced p refl)) chain,
      )
  arm-Sound next now id e (some wait) E ws later below paced (had, distinct, fresh, chain) = (
    All-append (IsHad (put_at id e E)) ws _
        (IsHad-put_at id e E ws (λ n h. omega (arith, later n h)) had)
        (subst (λ o. Had o e.generation) (sym (put_at-eq id e E)) (omega arith), tt),
    AreDistinct-append E ws _ had (λ h. omega (arith, later e.generation h)) distinct,
    IsFresh-put_at next id e E below fresh,
    HasChain-put_at id e E _ (λ h p. Any-append_right ws (here (refl, refl)))
        (HasChain-append E ws _ chain),
  )
