-- ===== src/Guard/Answers.antt =====
-- What whoever waits on a `Decision` of crates/guinea-core/src/guard.rs is told.
use mathlib.Core.Bool.{false≢true}
use guinea.Base.{
  sym, ◌∙◌, if◌then◌else◌, ℕ, Bool, true, false, ◌≡◌, refl, Option, none, some, List, [], ◌∷◌, All,
  Bool-cases, inl, inr, arith,
}
use guinea.Guard.{Decision, on_answer, settle, run_resume, Action, waits, answers, act, act_all}

-- Settling twice does nothing: whatever the second answer, the decision is as after the first.
pub settle-settle :
    (first second : Bool) (d : Decision) → settle second (settle first d) ≡ settle first d
unfolding settle
settle-settle first second d = elim (Bool-cases d.settled) [
  | inl old ↦ ground arith
  | inr new ↦ ground arith
]

-- Nothing depends on which came first, the answer or the one who waits on it, where nothing was
-- answered and nobody waited before.
pub on_answer-settle :
    (resume : ℕ) (allowed : Bool) (d : Decision)
    → d.settled ≡ false
    → d.resume ≡ none
    → on_answer resume (settle allowed d) ≡ settle allowed (on_answer resume d)
unfolding settle on_answer
on_answer-settle resume allowed d e f = ground arith

-- Everyone who was told was told the answer, and before there is one nobody is.
abbrev pub IsTold : Decision → Type 0
IsTold d = All (λ (e : ℕ × Bool). (e.1 ≡ d.answer) × (d.settled ≡ true)) d.ran

if-IsTold :
    (b : Bool) (x y : Decision)
    → (b ≡ true → IsTold x)
    → (b ≡ false → IsTold y)
    → IsTold (if b then x else y)
if-IsTold true x y h k = h refl
if-IsTold false x y h k = k refl

on_answer-IsTold : (resume : ℕ) (d : Decision) → IsTold d → IsTold (on_answer resume d)
unfolding on_answer
on_answer-IsTold resume d t = if-IsTold d.settled _ _ (λ e. ((refl, e), t)) (λ e. t)

-- Before there is an answer nobody was told.
nobody :
    (answer settled : Bool) (ran : List (ℕ × Bool))
    → All (λ (e : ℕ × Bool). (e.1 ≡ answer) × (settled ≡ true)) ran
    → settled ≡ false
    → ran ≡ []
nobody answer settled [] h e = refl
nobody answer settled (x ∷ ran) h e = absurd (false≢true (sym e ∙ h.0.1))

told_now :
    (resume : Option ℕ) (allowed : Bool) (ran : List (ℕ × Bool))
    → ran ≡ []
    → All (λ (e : ℕ × Bool). (e.1 ≡ allowed) × (true ≡ true)) (run_resume resume allowed ran)
told_now none allowed ran e = rw e (tt)
told_now (some resume) allowed ran e = rw e ((refl, refl), tt)

settle-IsTold : (allowed : Bool) (d : Decision) → IsTold d → IsTold (settle allowed d)
unfolding settle
settle-IsTold allowed d t =
    if-IsTold d.settled d _ (λ e. t)
      (λ e. told_now d.resume allowed d.ran (nobody d.answer d.settled d.ran t e))

act-IsTold : (a : Action) (d : Decision) → IsTold d → IsTold (act a d)
act-IsTold (waits resume) d t = on_answer-IsTold resume d t
act-IsTold (answers allowed) d t = settle-IsTold allowed d t

-- Whatever is done with a token, and in whatever order: if nobody was told anything but the answer
-- before, then nobody is after, and before there is an answer nobody is told.
pub act_all-IsTold : (actions : List Action) (d : Decision) → IsTold d → IsTold (act_all actions d)
unfolding act_all
act_all-IsTold [] d t = t
act_all-IsTold (a ∷ rest) d t = act_all-IsTold rest (act a d) (act-IsTold a d t)
