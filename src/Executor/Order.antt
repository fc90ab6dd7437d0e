-- ===== src/Executor/Order.antt =====
-- What the seeded executor of crates/guinea-core/src/executor.rs takes, and in which order it runs the
-- jobs of the UI thread.
use native.Mathlib.Nat.{mod-lt}
use guinea.Base.{
  ℕ, zero, suc, ◌+◌, ◌%◌, ◌<◌, ◌≡◌, refl, sym, ap, ap₂, subst, ◌∙◌, Bool, false, none, some, List,
  [], ◌∷◌, ◌++◌, ◌⊎◌, inl, inr, ◌==◌, ==_iff, Bool-cases, if-intro, if-true, if-false,
  if◌then◌else◌, length, any, map_or, append_assoc, arith,
}
use guinea.Executor.{
  Work, polls_task, ui_job, Effect, wakes, posts, spawns, Executor, push, spawn, apply_all,
  one_if_any, pop_last, swap_remove, take_ui, take_poll, take_at, take_from, take_work, drawn,
  advanced, poll, run_job, run_work, step,
}

-- How often a number is listed.
abbrev pub occurrences : ℕ → List ℕ → ℕ
occurrences i [] = 0
occurrences i (x ∷ xs) = (if x == i then 1 else 0) + occurrences i xs

pop_last-occurrences :
    (i x : ℕ) (xs : List ℕ)
    → occurrences i (x ∷ xs) ≡ occurrences i ((pop_last x xs).0 ∷ (pop_last x xs).1)
pop_last-occurrences i x [] = refl
pop_last-occurrences i x (y ∷ ys) = omega (arith, pop_last-occurrences i y ys)

pop_last-length : (x : ℕ) (xs : List ℕ) → length (pop_last x xs).1 ≡ length xs
pop_last-length x [] = refl
pop_last-length x (y ∷ ys) = ap suc (pop_last-length y ys)

-- One item is out, and the others are all there.
abbrev pub Removes : ℕ → List ℕ → List ℕ → Type 0
Removes x xs rest =
    (length xs ≡ suc (length rest)) × ((i : ℕ) → occurrences i xs ≡ occurrences i (x ∷ rest))

swap_remove-Removes :
    (at : ℕ) (xs : List ℕ)
    → at < length xs
    → (x : ℕ) × (rest : List ℕ) × (swap_remove at xs ≡ some (x, rest)) × Removes x xs rest
unfolding swap_remove
swap_remove-Removes at [] h = absurd (omega (arith, h))
swap_remove-Removes zero (x ∷ []) h = (x, [], refl, (refl, λ i. refl))
swap_remove-Removes zero (x ∷ y ∷ ys) h = (
  x,
  (pop_last y ys).0 ∷ (pop_last y ys).1,
  refl,
  (
    ap (λ n. suc (suc n)) (sym (pop_last-length y ys)),
    λ i. ap (λ n. (if x == i then 1 else 0) + n) (pop_last-occurrences i y ys),
  ),
)
swap_remove-Removes (suc at) (x ∷ xs) h =
    let (taken, rest, eq, (len, occ)) = swap_remove-Removes at xs (omega (arith, h)) in
    (
      taken,
      x ∷ rest,
      ap (map_or none (λ removed. some (removed.0, x ∷ removed.1))) eq,
      (ap suc len, λ i. omega (arith, occ i)),
    )

-- A task of the ready ones is taken, or the job at the head of the queue; the rest is as it was.
abbrev pub IsTaken : Work → List ℕ → List ℕ → List ℕ → List ℕ → Type 0
IsTaken (polls_task id) polls ui polls' ui' = Removes id polls polls' × (ui' ≡ ui)
IsTaken (ui_job job) polls ui polls' ui' = (ui ≡ job ∷ ui') × (polls' ≡ polls)

-- What may happen to an executor: a step, or something from outside, as a timer of the clock.
pub data Event : Type 0 where
  steps : Event
  sets_off : Effect → Event

poll-below : (at n : ℕ) (ui : List ℕ) → (at == n) ≡ false → at < n + one_if_any ui → at < n
poll-below at n [] other h = omega (arith, h)
poll-below at n (job ∷ ui) other h = ground (arith, other, h)

ui-head :
    (n : ℕ) (ui : List ℕ) → n < n + one_if_any ui → (job : ℕ) × (rest : List ℕ) × (ui ≡ job ∷ rest)
ui-head n [] h = absurd (omega (arith, h))
ui-head n (job ∷ ui) h = (job, ui, refl)

module _ {W : Type 0} where
  abbrev pub Takes : Work → Executor W → Executor W → Type 0
  Takes work s rest = IsTaken work s.polls s.ui rest.polls rest.ui

  -- What runs, what was posted, the tasks and the world are as they were.
  abbrev pub Keeps : Executor W → Executor W → Type 0
  Keeps s rest =
      (rest.ran_ui ≡ s.ran_ui)
      × (rest.posted ≡ s.posted)
      × (rest.world ≡ s.world)
      × (rest.tasks ≡ s.tasks)

  take_at-Takes :
      (at : ℕ) (s : Executor W)
      → at < length s.polls + one_if_any s.ui
      → (work : Work) × (rest : Executor W) × (take_at at s ≡ some (work, rest))
        × Takes work s rest
        × Keeps s rest
  unfolding take_at
  take_at-Takes at s h = elim (Bool-cases (at == length s.polls)) [
    | inl last ↦
        let same : at ≡ length s.polls = (==_iff at (length s.polls)).0 last in
        let (job, rest, eq) = ui-head (length s.polls) s.ui (omega (arith, same, h)) in
        (
          ui_job job,
          record s { ui = rest },
          if-true (at == length s.polls) (take_ui s.ui s) _ last ∙ ap (λ ui. take_ui ui s) eq,
          (eq, refl),
          (refl, refl, refl, refl),
        )
    | inr task ↦
        let (id, polls, eq, removes) =
          swap_remove-Removes at s.polls (poll-below at (length s.polls) s.ui task h) in
        (
          polls_task id,
          record s { polls = polls },
          if-false (at == length s.polls) (take_ui s.ui s) _ task ∙ ap (λ r. take_poll r s) eq,
          (removes, refl),
          (refl, refl, refl, refl),
        )
  ]

  take_from-Takes :
      (choices : ℕ) (s : Executor W)
      → choices ≡ length s.polls + one_if_any s.ui
      → 0 < choices
      → (work : Work) × (rest : Executor W) × (take_from choices s ≡ some (work, rest))
        × Takes work s rest
        × Keeps s rest
  unfolding take_from
  take_from-Takes zero s eq h = absurd (omega (arith, h))
  take_from-Takes (suc less) s eq h =
      take_at-Takes (drawn (advanced s.state) % suc less) (record s { state = advanced s.state })
        (subst (λ n. drawn (advanced s.state) % suc less < n) eq
          (mod-lt (drawn (advanced s.state)) (omega arith)))

  -- Whatever the seed: where something is ready, one piece of it is taken, a task that was ready or
  -- the job at the head of the queue, and all else stays ready.
  pub take_work-Takes :
      (s : Executor W)
      → 0 < length s.polls + one_if_any s.ui
      → (work : Work) × (rest : Executor W) × (take_work s ≡ some (work, rest))
        × Takes work s rest
        × Keeps s rest
  unfolding take_work
  take_work-Takes s h = take_from-Takes _ s refl h

  -- The jobs that ran, then the ones that wait, are the ones that were posted, in order.
  abbrev pub IsInOrder : Executor W → Type 0
  IsInOrder s = s.ran_ui ++ s.ui ≡ s.posted

  apply_all-IsInOrder :
      (effects : List Effect) (s : Executor W) → IsInOrder s → IsInOrder (apply_all effects s)
  unfolding apply_all push spawn
  apply_all-IsInOrder [] s h = h
  apply_all-IsInOrder (wakes id ∷ effects) s h = apply_all-IsInOrder effects _ h
  apply_all-IsInOrder (posts job ∷ effects) s h =
      apply_all-IsInOrder effects _
        (sym (append_assoc s.ran_ui s.ui (job ∷ [])) ∙ ap (λ l. l ++ job ∷ []) h)
  apply_all-IsInOrder (spawns ∷ effects) s h = apply_all-IsInOrder effects _ h

  module _ (poll_of : ℕ → W → W × List Effect × Bool) (job_of : ℕ → W → W × List Effect) where
    abbrev pub happen : Event → Executor W → Executor W
    happen steps s = map_or s (λ t. t) (step poll_of job_of s)
    happen (sets_off effect) s = apply_all (effect ∷ []) s

    unfoldable pub happen_all : List Event → Executor W → Executor W
    happen_all [] s = s
    happen_all (e ∷ events) s = happen_all events (happen e s)

    poll-IsInOrder : (id : ℕ) (s : Executor W) → IsInOrder s → IsInOrder (poll poll_of job_of id s)
    unfolding poll
    poll-IsInOrder id s h =
        let (world, effects, done) = poll_of id s.world in
        if-intro IsInOrder (any (λ t. t == id) s.tasks) _ s
          (λ here.
            if-intro IsInOrder done _ _
              (λ yes. apply_all-IsInOrder effects (record s { world = world }) h)
              (λ no. apply_all-IsInOrder effects (record s { world = world }) h))
          (λ gone. h)

    run_work-IsInOrder :
        (work : Work) (s rest : Executor W)
        → Takes work s rest
        → Keeps s rest
        → IsInOrder s
        → IsInOrder (run_work poll_of job_of work rest)
    unfolding run_work run_job
    run_work-IsInOrder (polls_task id) s rest (removes, ui) (ran, posted, world, tasks) h =
        poll-IsInOrder id rest (ap₂ (λ a b. a ++ b) ran ui ∙ h ∙ sym posted)
    run_work-IsInOrder (ui_job job) s rest (ui, polls) (ran, posted, world, tasks) h =
        apply_all-IsInOrder (job_of job rest.world).1 _ (
          append_assoc rest.ran_ui (job ∷ []) rest.ui
          ∙ ap₂ (λ a b. a ++ b) ran (sym ui)
          ∙ h
          ∙ sym posted)

    step-choices :
        (choices : ℕ) (s : Executor W)
        → length s.polls + one_if_any s.ui ≡ choices
        → ((step poll_of job_of s ≡ none) × (choices ≡ 0))
          ⊎ ((work : Work) × (rest : Executor W) × (step poll_of job_of s
                ≡ some (run_work poll_of job_of work rest))
              × Takes work s rest
              × Keeps s rest)
    unfolding step take_work take_from
    step-choices zero s eq = inl (rw eq refl, refl)
    step-choices (suc less) s eq =
        let (work, rest, took, takes, keeps) = take_work-Takes s (omega (arith, eq)) in
        inr (
          work,
          rest,
          ap (map_or none (λ t. some (run_work poll_of job_of t.0 t.1))) took,
          takes,
          keeps,
        )

    -- A step runs one piece of what is ready, unless nothing is.
    pub step-cases :
        (s : Executor W)
        → ((step poll_of job_of s ≡ none) × (length s.polls + one_if_any s.ui ≡ 0))
          ⊎ ((work : Work) × (rest : Executor W) × (step poll_of job_of s
                ≡ some (run_work poll_of job_of work rest))
              × Takes work s rest
              × Keeps s rest)
    step-cases s = step-choices (length s.polls + one_if_any s.ui) s refl

    step-IsInOrder : (s : Executor W) → IsInOrder s → IsInOrder (happen steps s)
    step-IsInOrder s h = elim (step-cases s) [
      | inl (parked, empty) ↦ subst (λ o. IsInOrder (map_or s (λ t. t) o)) (sym parked) h
      | inr (work, rest, ran, takes, keeps) ↦
          subst (λ o. IsInOrder (map_or s (λ t. t) o)) (sym ran)
            (run_work-IsInOrder work s rest takes keeps h)
    ]

    -- Whatever the seed, the tasks and the jobs do, and whatever is set off from outside between two
    -- steps, the jobs of the UI thread run in the order they were posted, none twice and none lost,
    -- if that was so at the start.
    pub happen_all-IsInOrder :
        (events : List Event) (s : Executor W) → IsInOrder s → IsInOrder (happen_all events s)
    unfolding happen_all
    happen_all-IsInOrder [] s h = h
    happen_all-IsInOrder (steps ∷ events) s h = happen_all-IsInOrder events _ (step-IsInOrder s h)
    happen_all-IsInOrder (sets_off effect ∷ events) s h =
        happen_all-IsInOrder events _ (apply_all-IsInOrder (effect ∷ []) s h)
