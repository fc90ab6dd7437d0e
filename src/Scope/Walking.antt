-- ===== src/Scope/Walking.antt =====
-- The order of `Tree::collect` of crates/guinea-core/src/scope/tree.rs, compared with a walk that has no
-- fuel.
use guinea.Base.{
  ℕ, zero, suc, ◌+◌, ◌<◌, ◌≡◌, refl, sym, ap, ap₂, ◌∙◌, List, [], ◌∷◌, ◌++◌, append-nil,
  append_assoc, get_elem?, All, All-map, arith,
}
use guinea.Scope.{Node, collect, children_at, concat_map, reverse_onto}
use guinea.Scope.Collecting.{serial_at, IsOrdered, children-later, below}

-- A walk from some indices: each, what is under it, and then the others, the oldest child first.
pub data Walk {D : Type 0} (nodes : List (Node D)) : List ℕ → List ℕ → Type 0 where
  over : Walk nodes [] []
  visits :
      {index : ℕ} {rest under after : List ℕ}
      → Walk nodes (children_at (get_elem? nodes index)) under
      → Walk nodes rest after
      → Walk nodes (index ∷ rest) (index ∷ (under ++ after))

abbrev pub reverse : List ℕ → List ℕ
reverse [] = []
reverse (x ∷ xs) = reverse xs ++ x ∷ []

reverse_onto-reverse : (xs done : List ℕ) → reverse_onto xs done ≡ reverse xs ++ done
reverse_onto-reverse [] done = refl
reverse_onto-reverse (x ∷ xs) done =
    reverse_onto-reverse xs (x ∷ done) ∙ sym (append_assoc (reverse xs) (x ∷ []) done)

reverse-append : (xs ys : List ℕ) → reverse (xs ++ ys) ≡ reverse ys ++ reverse xs
reverse-append [] ys = sym (append-nil (reverse ys))
reverse-append (x ∷ xs) ys =
    ap (λ l. l ++ x ∷ []) (reverse-append xs ys) ∙ append_assoc (reverse ys) (reverse xs) (x ∷ [])

concat_map-append :
    (f : ℕ → List ℕ) (xs ys : List ℕ) → concat_map f (xs ++ ys) ≡ concat_map f xs ++ concat_map f ys
concat_map-append f [] ys = refl
concat_map-append f (x ∷ xs) ys =
    ap (λ l. f x ++ l) (concat_map-append f xs ys)
    ∙ sym (append_assoc (f x) (concat_map f xs) (concat_map f ys))

module _ {D : Type 0} where
  -- An index's order is a walk of what is under it, backwards, and then the index.
  abbrev EndsAt : List (Node D) → (ℕ → List ℕ) → ℕ → Type 0
  EndsAt nodes f index =
      (under : List ℕ) × Walk nodes (children_at (get_elem? nodes index)) under
      × (f index ≡ reverse under ++ index ∷ [])

  orders :
      (nodes : List (Node D)) (f : ℕ → List ℕ) (indices : List ℕ)
      → All (EndsAt nodes f) indices
      → (order : List ℕ) × Walk nodes indices order
        × (concat_map f (reverse indices) ≡ reverse order)
  orders nodes f [] h = ([], over, refl)
  orders nodes f (index ∷ rest) h =
      let (under, down, own) = h.0 in
      let (after, along, others) = orders nodes f rest h.1 in
      (
        index ∷ (under ++ after),
        visits down along,
        concat_map-append f (reverse rest) (index ∷ [])
            ∙ ap₂ (λ a b. a ++ b) others (append-nil (f index) ∙ own)
            ∙ sym (append_assoc (reverse after) (reverse under) (index ∷ []))
            ∙ ap (λ l. l ++ index ∷ []) (sym (reverse-append under after)),
      )

  collect-EndsAt :
      (nodes : List (Node D)) (next fuel index : ℕ)
      → IsOrdered nodes
      → All (λ (n : Node D). n.serial < next) nodes
      → next < fuel + serial_at (get_elem? nodes index)
      → EndsAt nodes (collect fuel nodes) index
  unfolding collect
  collect-EndsAt nodes next zero index o f h = absurd (below next nodes index f (omega (arith, h)))
  collect-EndsAt nodes next (suc fuel) index o f h =
      let children = children_at (get_elem? nodes index) in
      let (order, down, same) = orders nodes (collect fuel nodes) children (
        All-map (λ child later. collect-EndsAt nodes next fuel child o f (omega (arith, h, later)))
          children (children-later nodes index (get_elem? nodes index) o refl)) in
      (
        order,
        down,
        ap (λ l. concat_map (collect fuel nodes) l ++ index ∷ [])
              (reverse_onto-reverse children [] ∙ append-nil (reverse children))
            ∙ ap (λ l. l ++ index ∷ []) same,
      )

  -- Where each child has a larger serial than its parent and all serials are below a bound, the walk from an
  -- index ends, and with fuel that reaches above the bound collect gives its order backwards: what is
  -- under a node comes before the node, and all that is under a newer child before an older one.
  pub collect-Walk :
      (nodes : List (Node D)) (next fuel index : ℕ)
      → IsOrdered nodes
      → All (λ (n : Node D). n.serial < next) nodes
      → next < fuel + serial_at (get_elem? nodes index)
      → (order : List ℕ) × Walk nodes (index ∷ []) order
        × (collect fuel nodes index ≡ reverse order)
  collect-Walk nodes next fuel index o f h =
      let (order, walk, same) =
        orders nodes (collect fuel nodes) (index ∷ [])
          (collect-EndsAt nodes next fuel index o f h, tt) in
      (order, walk, sym (append-nil (collect fuel nodes index)) ∙ same)
