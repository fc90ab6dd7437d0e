-- ===== src/Guard.antt =====
-- `Decision` of crates/guinea-core/src/guard.rs: the answer to a guard's question, before there is
-- one. What is to run on the answer is a number, and running it is an entry of a log.
pub mod Answers
mod Tests
use guinea.Base.{ℕ, Bool, true, false, Option, none, some, List, [], ◌∷◌, if◌then◌else◌}

-- `Inner`, with what has been run and on which answer, the last first.
pub record Decision : Type 0 where
  pub settled : Bool
  pub answer : Bool
  pub resume : Option ℕ
  pub ran : List (ℕ × Bool)

-- `Decision::new`
abbrev pub undecided : Decision
undecided = record { settled = false; answer = false; resume = none; ran = [] }

-- `Decision::on_answer`
unfoldable pub on_answer : ℕ → Decision → Decision
on_answer resume d =
    if d.settled
    then record d { ran = (resume, d.answer) ∷ d.ran }
    else record d { resume = some resume }

abbrev pub run_resume : Option ℕ → Bool → List (ℕ × Bool) → List (ℕ × Bool)
run_resume none allowed ran = ran
run_resume (some resume) allowed ran = (resume, allowed) ∷ ran

-- `Decision::settle`
unfoldable pub settle : Bool → Decision → Decision
settle allowed d = if d.settled then d else record {
  settled = true;
  answer = allowed;
  resume = none;
  ran = run_resume d.resume allowed d.ran;
}

-- What may be done with a token: someone waits on it, or it is allowed or blocked.
pub data Action : Type 0 where
  waits : ℕ → Action
  answers : Bool → Action

abbrev pub act : Action → Decision → Decision
act (waits resume) d = on_answer resume d
act (answers allowed) d = settle allowed d

unfoldable pub act_all : List Action → Decision → Decision
act_all [] d = d
act_all (a ∷ rest) d = act_all rest (act a d)
