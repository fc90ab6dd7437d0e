-- ===== src/Scope.antt =====
-- crates/guinea-core/src/scope/tree.rs and scope/mod.rs: the tree of scopes. The counter of serials,
-- a static of the program, is a field of the tree's state here; what a scope holds is a parameter.
pub mod Update
pub mod Names
pub mod Order
pub mod Collecting
pub mod Walking
mod Tests
use guinea.Base.{
  ℕ, zero, suc, ◌+◌, ◌%◌, Bool, true, false, not, ◌&&◌, Option, none, some, List, [], ◌∷◌, ◌++◌,
  Text, if◌then◌else◌, ◌==◌, length, get_elem?, retain,
}

pub record Node (D : Type 0) : Type 0 where
  pub serial : ℕ
  pub contents : Option D
  pub parent : Option ℕ
  pub outlet : Text
  pub children : List ℕ

-- `Tree`, with the next serial. The free slots are a stack.
pub record Tree (D : Type 0) : Type 0 where
  pub nodes : List (Node D)
  pub free : List ℕ
  pub next : ℕ

-- The bound of a `u64`.
abbrev pub u64_bound : ℕ
u64_bound = 18446744073709551616

-- An index is kept as a `u32`.
abbrev pub u32_bound : ℕ
u32_bound = 4294967296

-- A change of the item at an index; the code panics where there is none.
abbrev pub update {ℓ} : {A : Type ℓ} → ℕ → (A → A) → List A → List A
update i change [] = []
update zero change (x ∷ xs) = change x ∷ xs
update (suc i) change (x ∷ xs) = x ∷ update i change xs

abbrev pub reverse_onto {ℓ} : {A : Type ℓ} → List A → List A → List A
reverse_onto [] done = done
reverse_onto (x ∷ xs) done = reverse_onto xs (x ∷ done)

abbrev pub concat_map {ℓ κ} : {A : Type ℓ} {B : Type κ} → (A → List B) → List A → List B
concat_map f [] = []
concat_map f (x ∷ xs) = f x ++ concat_map f xs

module _ {D : Type 0} where
  -- The slot of `Tree::insert`: a free one, or a new one at the end.
  abbrev pub place : Node D → List ℕ → List (Node D) → ℕ × List ℕ × List (Node D)
  place node [] nodes = (length nodes % u32_bound, [], nodes ++ node ∷ [])
  place node (index ∷ free) nodes = (
    index,
    free,
    update index
        (λ old. record old {
          serial = node.serial;
          contents = node.contents;
          parent = node.parent;
          outlet = node.outlet;
        })
        nodes,
  )

  abbrev pub add_child : ℕ → Node D → Node D
  add_child index node = record node { children = node.children ++ index ∷ [] }

  abbrev pub link_parent : Option ℕ → ℕ → List (Node D) → List (Node D)
  link_parent none index nodes = nodes
  link_parent (some parent) index nodes = update parent (add_child index) nodes

  -- `Tree::insert`
  unfoldable pub insert : Option ℕ → Text → D → Tree D → ℕ × ℕ × Tree D
  insert parent outlet contents tree =
      let made : Node D = record {
        serial = tree.next;
        contents = some contents;
        parent = parent;
        outlet = outlet;
        children = [];
      } in
      let (index, free, nodes) = place made tree.free tree.nodes in
      (
        index,
        tree.next,
        record {
          nodes = link_parent parent index nodes;
          free = free;
          next = (tree.next + 1) % u64_bound;
        },
      )

  abbrev pub holds : Option D → Bool
  holds none = false
  holds (some contents) = true

  abbrev pub named : ℕ → Option (Node D) → Option (Node D)
  named serial none = none
  named serial (some node) =
      if node.serial == serial && holds node.contents then some node else none

  -- `Tree::node`
  unfoldable pub node : ℕ → ℕ → Tree D → Option (Node D)
  node index serial tree = named serial (get_elem? tree.nodes index)

  abbrev pub children_at : Option (Node D) → List ℕ
  children_at none = []
  children_at (some node) = node.children

  -- `Tree::collect`: what stands under an index, the newest child first and each before its parent.
  unfoldable pub collect : ℕ → List (Node D) → ℕ → List ℕ
  collect zero nodes index = []
  collect (suc fuel) nodes index =
      concat_map (collect fuel nodes) (reverse_onto (children_at (get_elem? nodes index)) [])
      ++ index ∷ []

  abbrev pub kill : Node D → Node D
  kill node = record node { serial = 0; parent = none; children = []; contents = none }

  abbrev pub push_data : Option (Node D) → List D → List D
  push_data none detached = detached
  push_data (some node) detached = elim node.contents [
    | none ↦ detached
    | some contents ↦ detached ++ contents ∷ []
  ]

  -- The loop of `Tree::detach` over the order.
  unfoldable pub kill_all : List ℕ → List D → Tree D → List D × Tree D
  kill_all [] detached tree = (detached, tree)
  kill_all (index ∷ order) detached tree =
      kill_all order (push_data (get_elem? tree.nodes index) detached)
        (record tree { nodes = update index kill tree.nodes; free = index ∷ tree.free })

  abbrev pub unlink : Option ℕ → ℕ → List (Node D) → List (Node D)
  unlink none index nodes = nodes
  unlink (some parent) index nodes =
      update parent (λ n. record n { children = retain (λ child. not (child == index)) n.children })
        nodes

  abbrev pub unlinked : Node D → ℕ → Tree D → Tree D
  unlinked found index tree = record tree { nodes = unlink found.parent index tree.nodes }

  abbrev pub order_of : ℕ → Tree D → List ℕ
  order_of index tree = collect (suc tree.next) tree.nodes index

  abbrev pub detach_node : Option (Node D) → ℕ → Tree D → List D × Tree D
  detach_node none index tree = ([], tree)
  detach_node (some found) index tree =
      kill_all (order_of index (unlinked found index tree)) [] (unlinked found index tree)

  -- `Tree::detach`, which `Scope::remove` calls
  unfoldable pub detach : ℕ → ℕ → Tree D → List D × Tree D
  unfolding node collect kill_all
  detach index serial tree = detach_node (node index serial tree) index tree

  -- `Scope::is_alive`
  abbrev pub is_alive : ℕ → ℕ → Tree D → Bool
  is_alive index serial tree = elim (node index serial tree) [ none ↦ false | some found ↦ true ]
