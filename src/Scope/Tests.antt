-- ===== src/Scope/Tests.antt =====
-- A tree of scopes at concrete states.
use guinea.Base.{ℕ, ◌≡◌, refl, none, some, List, [], ◌∷◌, Text, codes, arith}
use guinea.Scope.{Node, Tree, insert, node, detach, collect}
use guinea.Scope.Order.{nothing, made, node-Leads}
use guinea.Scope.Collecting.{node-detach}
use guinea.Scope.Walking.{Walk, reverse, collect-Walk}

abbrev main : Text
main = codes "main"

-- A root, numbered 1, with a child, numbered 2.
abbrev two : List (Node ℕ)
two =
    record { serial = 1; contents = some 10; parent = none; outlet = main; children = 1 ∷ [] }
    ∷ record { serial = 2; contents = some 20; parent = some 0; outlet = main; children = [] }
    ∷ []

abbrev tree : Tree ℕ
tree = record { nodes = two; free = []; next = 3 }

-- The child is torn down before the root.
detach_root : (detach 0 1 tree).0 ≡ 20 ∷ 10 ∷ []
unfolding detach
detach_root = refl

-- The slot of the child is taken again; the child's name is not.
node-Leads_example : node 1 2 (insert (some 0) main 30 (detach 1 2 tree).1).2 ≡ none
unfolding detach
node-Leads_example =
    node-Leads (detach 1 2 tree).1 (insert (some 0) main 30 (detach 1 2 tree).1).2 1 2 (omega arith)
      (node-detach 1 2 tree) (made (some 0) main 30 (omega arith) nothing)

-- A root with two children, the older of which has a child that was made last.
abbrev four : List (Node ℕ)
four =
    record { serial = 1; contents = some 10; parent = none; outlet = main; children = 1 ∷ 2 ∷ [] }
    ∷ record { serial = 2; contents = some 20; parent = some 0; outlet = main; children = 3 ∷ [] }
    ∷ record { serial = 3; contents = some 30; parent = some 0; outlet = main; children = [] }
    ∷ record { serial = 4; contents = some 40; parent = some 1; outlet = main; children = [] }
    ∷ []

abbrev none_yet : Tree ℕ
none_yet = record { nodes = []; free = []; next = 1 }

-- It is what four scopes made one after the other give.
four_made :
    (insert
      (some 1)
      main
      40
      (insert
        (some 0)
        main
        30
        (insert (some 0) main 20 (insert none main 10 none_yet).2).2).2).2.nodes
    ≡ four
unfolding insert
four_made = refl

four_collected : collect 6 four 0 ≡ 2 ∷ 3 ∷ 1 ∷ 0 ∷ []
unfolding collect
four_collected = refl

collect-Walk_example :
    (order : List ℕ) × Walk four (0 ∷ []) order × (collect 6 four 0 ≡ reverse order)
collect-Walk_example =
    collect-Walk four 5 6 0 ((omega arith, (omega arith, tt)), ((omega arith, tt), (tt, (tt, tt))))
      (omega arith, (omega arith, (omega arith, (omega arith, tt)))) (omega arith)
