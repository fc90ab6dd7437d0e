-- ===== src/Acts/Tests.antt =====
-- An action that spawned a task, which settled.
use guinea.Base.{◌≡◌, refl, false, none, some, [], ◌∷◌, List, all, arith}
use guinea.Acts.{
  action, spawn, settled, other, Trace, begins, marked, finishes, no_log, note, hear, hear_all,
  is_done, settled_loop, is_settled, grow, points_of,
}
use guinea.Acts.Settled.{is_settled-chain}

-- The action 1 spawns the task 2 and ends; 5 is where the task settled.
abbrev one_action : List Trace
one_action =
    begins 1 none action
    ∷ begins 2 (some 1) spawn
    ∷ marked 4 (some 2) other
    ∷ finishes 2
    ∷ finishes 1
    ∷ marked 5 (some 2) settled
    ∷ []

unsettled :
    is_settled 9
      (hear_all (begins 1 none action ∷ marked 2 (some 1) spawn ∷ finishes 1 ∷ []) no_log)
      1
    ≡ some false
unfolding hear_all hear note settled_loop
unsettled = refl

is_settled-chain_example :
    is_settled 9 (hear_all one_action no_log) 1
    ≡ some (
        all
          (is_done (hear_all one_action no_log))
          (points_of (grow 6 (hear_all one_action no_log) (1 ∷ []))))
unfolding grow points_of hear_all hear note
is_settled-chain_example =
    is_settled-chain 6 6 9 1 one_action
      (
        tt,
        (
          (omega arith, omega arith),
          ((omega arith, omega arith), (tt, (tt, ((omega arith, omega arith), tt)))),
        ),
      )
      (omega arith) (omega arith) (omega arith)
