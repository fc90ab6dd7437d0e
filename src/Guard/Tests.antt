-- ===== src/Guard/Tests.antt =====
-- Decisions at concrete answers.
use guinea.Base.{true, false, [], ◌∷◌}
use guinea.Guard.{undecided, waits, answers, act_all}
use guinea.Guard.Answers.{act_all-IsTold, IsTold}

act_all-IsTold_example :
    IsTold (act_all (waits 4 ∷ answers false ∷ answers true ∷ waits 5 ∷ []) undecided)
act_all-IsTold_example =
    act_all-IsTold (waits 4 ∷ answers false ∷ answers true ∷ waits 5 ∷ []) undecided tt
