-- ===== src/Lifetime/Tests.antt =====
-- Two scopes and what they own.
use guinea.Base.{◌≡◌, refl, false, none, some, List, [], ◌∷◌, ◌++◌, ◌==◌, if◌then◌else◌}
use guinea.Lifetime.{Held, Scopes, Op, owns, wakes_by, sleeps, wakes, removes, apply, apply_all}
use guinea.Lifetime.Releases.{of_scope, held_of, lets_go_all}
use guinea.Lifetime.Accounts.{released-lets_go_all}

abbrev owning_nothing : Held
owning_nothing = record { teardowns = []; leave_guards = []; wake_hooks = []; asleep = false }

abbrev two_scopes : Scopes
two_scopes = record {
  data_of =
      λ i. if i == 1 then some owning_nothing else (if i == 2 then some owning_nothing else none);
  released = [];
  hooks_run = [];
}

-- The scope 1 owns 7 and 8, and is given 9 once it is gone.
abbrev one_removed : List Op
one_removed = owns 1 7 ∷ owns 2 5 ∷ owns 1 8 ∷ removes (1 ∷ []) ∷ owns 1 9 ∷ []

one_removed-released : of_scope 1 (apply_all one_removed two_scopes).released ≡ 8 ∷ 7 ∷ 9 ∷ []
unfolding apply_all apply
one_removed-released = refl

woken :
    (apply_all (wakes_by 2 4 ∷ wakes_by 2 6 ∷ sleeps 2 ∷ wakes 2 ∷ []) two_scopes).hooks_run
    ≡ 4 ∷ 6 ∷ []
unfolding apply_all apply
woken = refl

released-lets_go_all_example :
    of_scope 1 (apply_all one_removed two_scopes).released
    ≡ [] ++ lets_go_all 1 one_removed (held_of (two_scopes.data_of 1))
released-lets_go_all_example = released-lets_go_all 1 one_removed two_scopes
