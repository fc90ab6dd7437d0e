-- ===== src/Notify/Tests.antt =====
-- A turn that marks two cells, one of them three times, and what is told of it.
use guinea.Base.{ℕ, ◌+◌, ◌≡◌, refl, false, ◌==◌, none, some, [], ◌∷◌, retain, arith}
use guinea.Notify.{
  Cell, Change, Notices, Watching, Body, ends, marks, turns, seen, push_mark, push_marks, act, turn,
  drain, mark, leave, rounds, run_batch, after_batch, tell_all, listen_all, observe_all,
}
use guinea.Notify.Marking.{is_update, AreOnce, push_marks-AreOnce}
use guinea.Notify.Turns.{flat, nesting, turn-flat, drain-is_empty}
use guinea.Notify.Telling.{IsQuiet, firsts, drain-quiet}
use guinea.Notify.Worlds.{heard_world, seen_world, observed_world, told_world}

abbrev cell_a : Cell
cell_a = record { scope = 1; serial = 1; ty = 7 }

abbrev cell_b : Cell
cell_b = record { scope = 2; serial = 3; ty = 7 }

abbrev bare : Cell → Change ℕ
bare cell = record { cell = cell; update = none }

abbrev observed : Cell → ℕ → Change ℕ
observed cell u = record { cell = cell; update = some u }

-- A world that counts the calls.
abbrev counting : Watching ℕ ℕ
counting = record {
  is_alive = λ w c. c.scope == 1;
  observers_of = λ w c. (λ u v. (v + u, [])) ∷ [];
  listeners_of = λ w c. (λ v. (v + 1, [])) ∷ [];
}

abbrev start : Notices ℕ ℕ
start = record { world = 0; marked = []; depth = 0; draining = false; told = []; gave_up = false }

abbrev body : Body ℕ
body =
    marks (bare cell_a) (
      turns (marks (observed cell_b 4) ends) (marks (bare cell_a) (marks (observed cell_a 5) ends)))

abbrev marked : Notices ℕ ℕ
marked = record start { marked = bare cell_b ∷ bare cell_a ∷ observed cell_a 5 ∷ [] }

counting-IsQuiet : IsQuiet counting
counting-IsQuiet = ((λ w c. (λ u v. refl, tt)), (λ w c. (λ v. refl, tt)), (λ w v c. refl))

turn-told : (turn counting body start).told ≡ cell_a ∷ []
unfolding act leave mark push_mark push_marks drain rounds run_batch after_batch tell_all listen_all
    observe_all
turn-told = refl

push_marks-AreOnce_example :
    (retain is_update (push_marks (bare cell_a ∷ observed cell_a 5 ∷ []) (bare cell_a ∷ []))
      ≡ observed cell_a 5 ∷ [])
    × (seen cell_b (push_marks (bare cell_a ∷ observed cell_a 5 ∷ []) (bare cell_a ∷ [])) ≡ false)
    × AreOnce [] (push_marks (bare cell_a ∷ observed cell_a 5 ∷ []) (bare cell_a ∷ []))
push_marks-AreOnce_example =
    push_marks-AreOnce (bare cell_a ∷ observed cell_a 5 ∷ []) (bare cell_a ∷ []) cell_b (refl, tt)

turn-flat_example :
    turn counting body start ≡ drain counting (record start { marked = push_marks (flat body) [] })
unfolding nesting
turn-flat_example = turn-flat counting body start refl (omega arith)

drain-is_empty_example :
    ((drain counting marked).marked ≡ []) × ((drain counting marked).draining ≡ false)
drain-is_empty_example = drain-is_empty counting marked refl

drain-quiet_example :
    ((drain counting marked).told ≡ cell_a ∷ [])
    × ((drain counting marked).gave_up ≡ false)
    × ((drain counting marked).world ≡ 6)
unfolding firsts observed_world told_world seen_world heard_world
drain-quiet_example = drain-quiet counting marked refl counting-IsQuiet
