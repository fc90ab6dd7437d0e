-- ===== src/Executor.antt =====
-- crates/guinea-core/src/executor.rs, the module `seeded`: the executor of a test, whose order a seed
-- decides. What a task's poll and a job do is a parameter: they move the world, wake tasks, spawn
-- them and post jobs. The paused clock is another library's; here a timer that fires is a waking.
pub mod Order
pub mod Parking
mod Tests
use Prim.Native.Nat.{bit_xor}
use guinea.Base.{
  ℕ, zero, suc, ◌+◌, ◌*◌, ◌/◌, ◌%◌, Bool, true, false, not, ◌&&◌, Option, none, some, List, [], ◌∷◌,
  ◌++◌, ◌==◌, if◌then◌else◌, length, get_elem?, any, retain, map_or,
}

-- `Work`: tasks and jobs by number.
pub data Work : Type 0 where
  polls_task : ℕ → Work
  ui_job : ℕ → Work

-- What a piece of work sets off.
pub data Effect : Type 0 where
  wakes : ℕ → Effect
  posts : ℕ → Effect
  spawns : Effect

-- `Seeded` with its `Ready`, the world, and what it ran and what was posted to the UI thread, in order.
pub record Executor (W : Type 0) : Type 0 where
  pub world : W
  pub state : ℕ
  pub polls : List ℕ
  pub ui : List ℕ
  pub tasks : List ℕ
  pub next : ℕ
  pub ran_ui : List ℕ
  pub posted : List ℕ

abbrev pub u64_bound : ℕ
u64_bound = 18446744073709551616

-- The steps of SplitMix64 in `Seeded::below`: the state after, and what is drawn from it.
unfoldable pub advanced : ℕ → ℕ
advanced state = (state + 11400714819323198485) % u64_bound

unfoldable pub drawn : ℕ → ℕ
drawn z =
    let a = bit_xor z (z / 1073741824) * 13787848793156543929 % u64_bound in
    let b = bit_xor a (a / 134217728) * 10723151780598845931 % u64_bound in
    bit_xor b (b / 2147483648)

-- `Vec::swap_remove`
abbrev pub pop_last {ℓ} : {A : Type ℓ} → A → List A → A × List A
pop_last x [] = (x, [])
pop_last x (y ∷ ys) = let (last, rest) = pop_last y ys in (last, x ∷ rest)

unfoldable pub swap_remove {ℓ} : {A : Type ℓ} → ℕ → List A → Option (A × List A)
swap_remove at [] = none
swap_remove zero (x ∷ []) = some (x, [])
swap_remove zero (x ∷ y ∷ ys) = let (last, rest) = pop_last y ys in some (x, last ∷ rest)
swap_remove (suc at) (x ∷ xs) =
    map_or none (λ removed. some (removed.0, x ∷ removed.1)) (swap_remove at xs)

abbrev pub one_if_any : List ℕ → ℕ
one_if_any [] = 0
one_if_any (job ∷ ui) = 1

module _ {W : Type 0} where
  -- `Ready::push`
  unfoldable pub push : Work → Executor W → Executor W
  push (polls_task id) s = record s { polls = s.polls ++ id ∷ [] }
  push (ui_job job) s = record s { ui = s.ui ++ job ∷ []; posted = s.posted ++ job ∷ [] }

  -- `Seeded::spawn`
  unfoldable pub spawn : Executor W → Executor W
  spawn s = record s {
    next = (s.next + 1) % u64_bound;
    tasks = s.tasks ++ s.next ∷ [];
    polls = s.polls ++ s.next ∷ [];
  }

  unfoldable pub apply_all : List Effect → Executor W → Executor W
  apply_all [] s = s
  apply_all (wakes id ∷ effects) s = apply_all effects (push (polls_task id) s)
  apply_all (posts job ∷ effects) s = apply_all effects (push (ui_job job) s)
  apply_all (spawns ∷ effects) s = apply_all effects (spawn s)

  -- `Ready::is_empty`
  abbrev pub is_empty : Executor W → Bool
  is_empty s = (length s.polls == 0) && (length s.ui == 0)

  abbrev pub take_ui : List ℕ → Executor W → Option (Work × Executor W)
  take_ui [] s = none
  take_ui (job ∷ ui) s = some (ui_job job, record s { ui = ui })

  abbrev pub take_poll : Option (ℕ × List ℕ) → Executor W → Option (Work × Executor W)
  take_poll none s = none
  take_poll (some (id, polls)) s = some (polls_task id, record s { polls = polls })

  -- `Seeded::take` once there is a choice, with the one that was drawn.
  unfoldable pub take_at : ℕ → Executor W → Option (Work × Executor W)
  take_at at s =
      if at == length s.polls then take_ui s.ui s else take_poll (swap_remove at s.polls) s

  -- `Seeded::take` with `Seeded::below`
  unfoldable pub take_from : ℕ → Executor W → Option (Work × Executor W)
  take_from zero s = none
  take_from (suc less) s =
      take_at (drawn (advanced s.state) % suc less) (record s { state = advanced s.state })

  unfoldable pub take_work : Executor W → Option (Work × Executor W)
  take_work s = take_from (length s.polls + one_if_any s.ui) s

  -- What a poll and a job do: the world after, what they set off, and whether the task is done.
  module _ (poll_of : ℕ → W → W × List Effect × Bool) (job_of : ℕ → W → W × List Effect) where
    abbrev pub forget_task : ℕ → Bool → Executor W → Executor W
    forget_task id done s =
        if done then record s { tasks = retain (λ t. not (t == id)) s.tasks } else s

    -- `Seeded::poll`: a task that is gone is not polled.
    unfoldable pub poll : ℕ → Executor W → Executor W
    poll id s =
        if any (λ t. t == id) s.tasks
        then (let (world, effects, done) = poll_of id s.world in
            forget_task id done (apply_all effects (record s { world = world })))
        else s

    unfoldable pub run_job : ℕ → Executor W → Executor W
    run_job job s =
        let (world, effects) = job_of job s.world in
        apply_all effects (record s { world = world; ran_ui = s.ran_ui ++ job ∷ [] })

    unfoldable pub run_work : Work → Executor W → Executor W
    run_work (polls_task id) s = poll id s
    run_work (ui_job job) s = run_job job s

    -- `Seeded::step`, from no work that runs: what is after, or nothing where nothing was ready.
    unfoldable pub step : Executor W → Option (Executor W)
    step s = map_or none (λ taken. some (run_work taken.0 taken.1)) (take_work s)

    -- `Seeded::run_until_parked`, on fuel: how many pieces ran.
    unfoldable pub run_until_parked : ℕ → Executor W → Option (ℕ × Executor W)
    run_until_parked zero s = none
    run_until_parked (suc fuel) s =
        let run_rest = run_until_parked fuel in
        map_or (some (0, s))
          (λ after. map_or none (λ result. some (suc result.0, result.1)) (run_rest after)) (step s)
