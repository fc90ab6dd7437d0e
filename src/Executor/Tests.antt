-- ===== src/Executor/Tests.antt =====
-- Two tasks and two jobs, one of which posts a third.
use guinea.Base.{ℕ, ◌+◌, ◌*◌, ◌≡◌, refl, Bool, true, List, [], ◌∷◌, ◌==◌, if◌then◌else◌, map_or}
use guinea.Executor.{
  Effect, posts, Executor, take_work, step, run_until_parked, swap_remove, take_at, take_from,
  drawn, advanced, apply_all, poll, run_job, run_work,
}
use guinea.Executor.Order.{IsInOrder, steps, sets_off, happen_all, happen_all-IsInOrder}

abbrev waiting : Executor ℕ
waiting = record {
  world = 0;
  state = 7;
  polls = 1 ∷ 2 ∷ [];
  ui = 10 ∷ 11 ∷ [];
  tasks = 1 ∷ 2 ∷ [];
  next = 3;
  ran_ui = [];
  posted = 10 ∷ 11 ∷ [];
}

abbrev finishes : ℕ → ℕ → ℕ × List Effect × Bool
finishes id world = (world + 1, [], true)

abbrev counts : ℕ → ℕ → ℕ × List Effect
counts job world = (world + job, [])

abbrev posts_more : ℕ → ℕ → ℕ × List Effect
posts_more job world = (world, if job == 10 then posts 12 ∷ [] else [])

run_until_parked-world :
    map_or 0 (λ r. 100 * r.0 + r.1.world) (run_until_parked finishes counts 5 waiting) ≡ 423
unfolding run_until_parked step take_work take_from take_at swap_remove drawn advanced apply_all
    poll run_job run_work
run_until_parked-world = refl

happen_all-IsInOrder_example :
    IsInOrder
      (happen_all finishes posts_more (steps ∷ sets_off (posts 13) ∷ steps ∷ steps ∷ []) waiting)
happen_all-IsInOrder_example =
    happen_all-IsInOrder finishes posts_more (steps ∷ sets_off (posts 13) ∷ steps ∷ steps ∷ [])
      waiting refl
