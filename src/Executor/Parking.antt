-- ===== src/Executor/Parking.antt =====
-- How the seeded executor of crates/guinea-core/src/executor.rs comes to rest.
use guinea.Base.{
  ℕ, zero, suc, ◌+◌, ◌<◌, ◌≡◌, refl, sym, ap, ◌∙◌, Bool, none, some, List, [], ◌∷◌, ◌++◌, inl, inr,
  ◌==◌, if-intro, length, any, map_or, arith,
}
use guinea.Executor.{
  Work, polls_task, ui_job, Effect, Executor, apply_all, one_if_any, poll, run_job, run_work,
  run_until_parked,
}
use guinea.Executor.Order.{Takes, step-cases}

ready-empty : (polls ui : List ℕ) → length polls + one_if_any ui ≡ 0 → length polls + length ui ≡ 0
ready-empty polls [] h = h
ready-empty polls (job ∷ ui) h = absurd (omega (arith, h))

-- How many pieces of work are ready.
abbrev pub ready : {W : Type 0} → Executor W → ℕ
ready s = length s.polls + length s.ui

module _ {W : Type 0} (poll_of : ℕ → W → W × List Effect × Bool)
    (job_of : ℕ → W → W × List Effect) where
  -- No piece of work sets anything off.
  abbrev pub IsQuiet : Type 0
  IsQuiet = ((id : ℕ) (w : W) → (poll_of id w).1 ≡ []) × ((job : ℕ) (w : W) → (job_of job w).1 ≡ [])

  poll-ready : (id : ℕ) (s : Executor W) → IsQuiet → ready (poll poll_of job_of id s) ≡ ready s
  unfolding poll apply_all
  poll-ready id s q =
      let (world, effects, done) = poll_of id s.world in
      let same : ready (apply_all effects (record s { world = world })) ≡ ready s =
        ap (λ es. ready (apply_all es (record s { world = world }))) (q.0 id s.world) in
      if-intro (λ (t : Executor W). ready t ≡ ready s) (any (λ t. t == id) s.tasks) _ s
        (λ here.
          if-intro (λ (t : Executor W). ready t ≡ ready s) done _ _ (λ yes. same) (λ no. same))
        (λ gone. refl)

  run_work-ready :
      (work : Work) (s rest : Executor W)
      → IsQuiet
      → Takes work s rest
      → suc (ready (run_work poll_of job_of work rest)) ≡ ready s
  unfolding run_work run_job apply_all
  run_work-ready (polls_task id) s rest q (removes, ui) =
      omega (arith, poll-ready id rest q, removes.0, ap length ui)
  run_work-ready (ui_job job) s rest q (ui, polls) =
      let same =
        ap
          (λ es. ready (
            apply_all es (record rest {
              world = (job_of job rest.world).0;
              ran_ui = rest.ran_ui ++ job ∷ [];
            })))
          (q.1 job rest.world) in
      omega (arith, same, ap length ui, ap length polls)

  -- Where no piece of work sets anything off, whatever the seed, the executor runs each piece that is
  -- ready, as many as there are, and comes to rest with nothing ready, on any fuel above their number.
  pub run_until_parked-ready :
      (fuel : ℕ) (s : Executor W)
      → IsQuiet
      → ready s < fuel
      → (t : Executor W) × (run_until_parked poll_of job_of fuel s ≡ some (ready s, t))
        × (ready t ≡ 0)
  unfolding run_until_parked
  run_until_parked-ready zero s q h = absurd (omega (arith, h))
  run_until_parked-ready (suc fuel) s q h = elim (step-cases poll_of job_of s) [
    | inl (parked, empty) ↦
        let none_left = ready-empty s.polls s.ui empty in
        (
          s,
          ap
                (map_or (some (0, s)) (λ after.
                  map_or none (λ result. some (suc result.0, result.1))
                    (run_until_parked poll_of job_of fuel after)))
                parked
              ∙ ap (λ n. some (n, s)) (sym none_left),
          none_left,
        )
    | inr (work, rest, ran, takes, keeps) ↦
        let less = run_work-ready work s rest q takes in
        let (t, eq, done) =
          run_until_parked-ready fuel (run_work poll_of job_of work rest) q
            (omega (arith, less, h)) in
        (
          t,
          ap
                (map_or (some (0, s)) (λ after.
                  map_or none (λ result. some (suc result.0, result.1))
                    (run_until_parked poll_of job_of fuel after)))
                ran
              ∙ ap (map_or none (λ result. some (suc result.0, result.1))) eq
              ∙ ap (λ n. some (n, t)) less,
          done,
        )
  ]
