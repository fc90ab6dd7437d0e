-- ===== src/Scope/Collecting.antt =====
-- `Tree::collect` and `Tree::detach` of crates/guinea-core/src/scope/tree.rs: what is under an
-- index was made later, and a scope that is taken out is gone.
use guinea.Base.{
  ℕ, zero, suc, ◌<◌, ◌≡◌, refl, ap, ◌∙◌, subst, Option, none, some, List, [], ◌∷◌, ◌++◌, get_elem?,
  All, arith,
}
use guinea.Scope.{
  Node, Tree, collect, children_at, concat_map, reverse_onto, named, node, kill, kill_all, unlinked,
  detach_node, detach,
}
use guinea.Scope.Update.{changed, get_elem?-update_same}

abbrev pub serial_at : {D : Type 0} → Option (Node D) → ℕ
serial_at none = 0
serial_at (some node) = node.serial

-- Every child has a larger serial than its parent: it was made later.
abbrev pub IsOrdered : {D : Type 0} → List (Node D) → Type 0
IsOrdered {D = D} nodes =
    All (λ (n : Node D). All (λ child. n.serial < serial_at (get_elem? nodes child)) n.children)
      nodes

module _ {ℓ κ} {A : Type ℓ} where
  some-injective : {a b : A} → some a ≡ some b → a ≡ b
  some-injective {a} e = ap (λ (o : Option A). elim o [ none ↦ a | some c ↦ c ]) e

  All-get_elem? :
      (P : A → Type κ) (xs : List A) (i : ℕ) {x : A} → All P xs → get_elem? xs i ≡ some x → P x
  All-get_elem? P [] i h e = cc
  All-get_elem? P (y ∷ xs) zero {x} h e = subst P (some-injective e) h.0
  All-get_elem? P (y ∷ xs) (suc i) h e = All-get_elem? P xs i h.1 e

module _ {D : Type 0} where
  pub children-later :
      (nodes : List (Node D)) (index : ℕ) (o : Option (Node D))
      → IsOrdered nodes
      → get_elem? nodes index ≡ o
      → All (λ child. serial_at o < serial_at (get_elem? nodes child)) (children_at o)
  children-later nodes index none h e = tt
  children-later nodes index (some found) h e =
      All-get_elem?
        (λ (n : Node D). All (λ child. n.serial < serial_at (get_elem? nodes child)) n.children)
        nodes index h e

  pub below :
      (next : ℕ) (nodes : List (Node D)) (i : ℕ)
      → All (λ (n : Node D). n.serial < next) nodes
      → next < serial_at (get_elem? nodes i)
      → ⊥
  below next [] i g l = omega arith
  below next (n ∷ nodes) zero g l = omega (arith, g.0)
  below next (n ∷ nodes) (suc i) g l = below next nodes i g.1 l

  kill_all-last :
      (order : List ℕ) (index serial : ℕ) (detached : List D) (tree : Tree D)
      → node index serial (kill_all (order ++ index ∷ []) detached tree).1 ≡ none
  unfolding kill_all node
  kill_all-last [] index serial detached tree =
      ap (named serial) (get_elem?-update_same index kill tree.nodes)
      ∙ killed (get_elem? tree.nodes index)
    where
      killed : (o : Option (Node D)) → named serial (changed kill o) ≡ none
      killed none = refl
      killed (some n) = ground arith
  kill_all-last (i ∷ order) index serial detached tree = kill_all-last order index serial _ _

  detach_node-gone :
      (index serial : ℕ) (o : Option (Node D)) (tree : Tree D)
      → named serial (get_elem? tree.nodes index) ≡ o
      → node index serial (detach_node o index tree).1 ≡ none
  unfolding detach collect
  detach_node-gone index serial none tree e = e
  detach_node-gone index serial (some found) tree e =
      let down = unlinked found index tree in
      kill_all-last
        (concat_map (collect down.next down.nodes)
          (reverse_onto (children_at (get_elem? down.nodes index)) []))
        index serial [] down

  -- A scope that is removed names nothing from then on.
  pub node-detach :
      (index serial : ℕ) (tree : Tree D) → node index serial (detach index serial tree).1 ≡ none
  unfolding detach
  node-detach index serial tree = detach_node-gone index serial (node index serial tree) tree refl
