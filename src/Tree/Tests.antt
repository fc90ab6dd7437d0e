-- ===== src/Tree/Tests.antt =====
-- The route tree at a concrete declaration.
use guinea.Base.{
  true, false, ◌≡◌, ◌↔◌, refl, none, some, List, [], ◌∷◌, codes, same_text, Any, here, Text,
}
use guinea.Tree.{TypeName, Guards, Field, Nodes, layout, page, end, more, Leaf, fold_into}
use guinea.Tree.Checks.{check_guards}
use guinea.Tree.Effects.{HasEffect, check_guards-HasEffect}
use guinea.Tree.Placing.{check_layouts, placements}

abbrev pub guard_by : List TypeName → List TypeName → Guards
guard_by added removed = record { added = added; removed = removed }

abbrev pub host_field : Field
host_field = record { name = codes "host"; ty = codes "String"; identity = true }

abbrev pub two_pages : Nodes
two_pages =
    more
      (page (codes "Overview") (some (codes "/:host")) (guard_by [] []) false false
        (host_field ∷ []))
      (more
        (page (codes "Logs") (some (codes "/:host/logs")) (guard_by [] []) false true
          (host_field ∷ []))
        end)

abbrev pub area : Nodes
area = more (layout (codes "Main") (guard_by (codes "Auth" ∷ []) []) true true two_pages) end

-- An area whose second page opts out of the layout's guard.
abbrev opening : Nodes
opening =
    more
      (layout (codes "Main") (guard_by (codes "Auth" ∷ []) []) true true (
        more (page (codes "Overview") none (guard_by [] []) false false [])
          (more (page (codes "Login") none (guard_by [] (codes "Auth" ∷ [])) false false []) end)))
      end

check_guards-HasEffect_example : (check_guards opening ≡ []) ↔ HasEffect opening []
check_guards-HasEffect_example = check_guards-HasEffect opening

-- An opt-out that is said twice is not reported.
said_twice :
    check_guards (
      more
        (layout (codes "Main") (guard_by (codes "Auth" ∷ []) []) true true (
          more
            (page
              (codes "Login")
              none
              (guard_by [] (codes "Auth" ∷ codes "Auth" ∷ []))
              false
              false
              [])
            end))
        end)
    ≡ []
unfolding check_guards fold_into same_text
said_twice = refl

area_checked : check_layouts area ≡ []
unfolding check_layouts
area_checked = refl

main_placed : Any (λ p. p ≡ (codes "Main", [])) (placements area)
unfolding placements
main_placed = here refl

abbrev nowhere : List TypeName
nowhere = []

abbrev pub leaf_with : Text → List Field → Leaf
leaf_with link fields = record {
  ancestors = [];
  ty = codes "Overview";
  link = some link;
  fields = fields;
  guards = [];
  restorable = false;
  keep = false ∷ [];
}

abbrev host_page : Leaf
host_page = leaf_with (codes "/:host") (host_field ∷ [])
