-- ===== src/Scope/Names.antt =====
-- The names of scopes, of crates/guinea-core/src/scope: a name that is dead stays dead, for the
-- serials are given out once.
use guinea.Base.{
  ℕ, zero, suc, ◌+◌, ◌%◌, ◌<◌, ◌≤◌, ◌≡◌, refl, Option, none, some, List, [], ◌∷◌, ◌++◌, Text,
  get_elem?, All, All-append, arith,
}
use guinea.Scope.{
  Node, Tree, u64_bound, update, place, link_parent, insert, named, node, kill, kill_all, unlink,
  unlinked, order_of, detach_node, detach, add_child,
}
use guinea.Scope.Update.{All-update}

module _ {D : Type 0} where
  -- No scope has a serial that is still to come.
  abbrev pub IsFresh : Tree D → Type 0
  IsFresh tree = All (λ (n : Node D). n.serial < tree.next) tree.nodes

  -- A slot under which a serial is no living scope's.
  abbrev IsDead : ℕ → Option (Node D) → Type 0
  IsDead serial o = named serial o ≡ none

  -- A change that brings no name to life.
  abbrev KeepsDead : ℕ → (Node D → Node D) → Type 0
  KeepsDead serial change = (n : Node D) → IsDead serial (some n) → IsDead serial (some (change n))

  update-IsDead :
      (serial i j : ℕ) (change : Node D → Node D) (nodes : List (Node D))
      → KeepsDead serial change
      → IsDead serial (get_elem? nodes j)
      → IsDead serial (get_elem? (update i change nodes) j)
  update-IsDead serial i j change [] k h = h
  update-IsDead serial zero zero change (n ∷ nodes) k h = k n h
  update-IsDead serial zero (suc j) change (n ∷ nodes) k h = h
  update-IsDead serial (suc i) zero change (n ∷ nodes) k h = h
  update-IsDead serial (suc i) (suc j) change (n ∷ nodes) k h =
      update-IsDead serial i j change nodes k h

  append-IsDead :
      (serial j : ℕ) (made : Node D) (nodes : List (Node D))
      → IsDead serial (some made)
      → IsDead serial (get_elem? nodes j)
      → IsDead serial (get_elem? (nodes ++ made ∷ []) j)
  append-IsDead serial zero made [] k h = k
  append-IsDead serial (suc j) made [] k h = refl
  append-IsDead serial zero made (n ∷ nodes) k h = h
  append-IsDead serial (suc j) made (n ∷ nodes) k h = append-IsDead serial j made nodes k h

  link_parent-IsDead :
      (serial j : ℕ) (parent : Option ℕ) (index : ℕ) (nodes : List (Node D))
      → IsDead serial (get_elem? nodes j)
      → IsDead serial (get_elem? (link_parent parent index nodes) j)
  link_parent-IsDead serial j none index nodes h = h
  link_parent-IsDead serial j (some parent) index nodes h =
      update-IsDead serial parent j (add_child index) nodes (λ n d. ground (arith, d)) h

  -- A new scope takes no name of one that is gone.
  pub insert-dead :
      (index serial : ℕ) (parent : Option ℕ) (outlet : Text) (contents : D) (tree : Tree D)
      → serial < tree.next
      → node index serial tree ≡ none
      → node index serial (insert parent outlet contents tree).2 ≡ none
  unfolding node insert
  insert-dead index serial parent outlet contents tree old h =
      link_parent-IsDead serial index parent _ _ (placed tree.free)
    where
      placed :
          (free : List ℕ)
          → IsDead serial (
              get_elem?
                (place
                  (record {
                    serial = tree.next;
                    contents = some contents;
                    parent = parent;
                    outlet = outlet;
                    children = [];
                  })
                  free
                  tree.nodes).2
                index)
      placed [] = append-IsDead serial index _ tree.nodes (ground (arith, old)) h
      placed (slot ∷ free) =
          update-IsDead serial slot index _ tree.nodes (λ n d. ground (arith, old)) h

  kill_all-IsDead :
      (index serial : ℕ) (order : List ℕ) (detached : List D) (tree : Tree D)
      → IsDead serial (get_elem? tree.nodes index)
      → IsDead serial (get_elem? (kill_all order detached tree).1.nodes index)
  unfolding kill_all
  kill_all-IsDead index serial [] detached tree h = h
  kill_all-IsDead index serial (i ∷ order) detached tree h =
      kill_all-IsDead index serial order _ _
        (update-IsDead serial i index kill tree.nodes (λ n d. ground arith) h)

  unlink-IsDead :
      (index serial : ℕ) (parent : Option ℕ) (gone : ℕ) (nodes : List (Node D))
      → IsDead serial (get_elem? nodes index)
      → IsDead serial (get_elem? (unlink parent gone nodes) index)
  unlink-IsDead index serial none gone nodes h = h
  unlink-IsDead index serial (some parent) gone nodes h =
      update-IsDead serial parent index _ nodes (λ n d. ground (arith, d)) h

  detach_node-IsDead :
      (index serial gone : ℕ) (o : Option (Node D)) (tree : Tree D)
      → IsDead serial (get_elem? tree.nodes index)
      → IsDead serial (get_elem? (detach_node o gone tree).1.nodes index)
  unfolding detach
  detach_node-IsDead index serial gone none tree h = h
  detach_node-IsDead index serial gone (some found) tree h =
      kill_all-IsDead index serial (order_of gone (unlinked found gone tree)) []
        (unlinked found gone tree) (unlink-IsDead index serial found.parent gone tree.nodes h)

  -- Taking scopes out brings no name back.
  pub detach-dead :
      (index serial gone number : ℕ) (tree : Tree D)
      → node index serial tree ≡ none
      → node index serial (detach gone number tree).1 ≡ none
  unfolding node detach
  detach-dead index serial gone number tree h =
      detach_node-IsDead index serial gone (named number (get_elem? tree.nodes gone)) tree h

  fresh_le :
      (nodes : List (Node D)) (m n : ℕ)
      → m ≤ n
      → All (λ (x : Node D). x.serial < m) nodes
      → All (λ (x : Node D). x.serial < n) nodes
  fresh_le [] m n l h = tt
  fresh_le (x ∷ nodes) m n l h = (omega (arith, l, h.0), fresh_le nodes m n l h.1)

  placed-fresh :
      (made : Node D) (free : List ℕ) (nodes : List (Node D)) (n : ℕ)
      → made.serial < n
      → All (λ (x : Node D). x.serial < n) nodes
      → All (λ (x : Node D). x.serial < n) (place made free nodes).2
  placed-fresh made [] nodes n k h = All-append _ nodes (made ∷ []) h (k, tt)
  placed-fresh made (index ∷ free) nodes n k h = All-update _ index _ nodes (λ x l. k) h

  linked-fresh :
      (parent : Option ℕ) (index : ℕ) (nodes : List (Node D)) (n : ℕ)
      → All (λ (x : Node D). x.serial < n) nodes
      → All (λ (x : Node D). x.serial < n) (link_parent parent index nodes)
  linked-fresh none index nodes n h = h
  linked-fresh (some parent) index nodes n h =
      All-update _ parent (add_child index) nodes (λ x l. l) h

  -- The next serial stays above all that are in use, until the counter is at its bound.
  pub insert-IsFresh :
      (parent : Option ℕ) (outlet : Text) (contents : D) (tree : Tree D)
      → tree.next + 1 < u64_bound
      → IsFresh tree
      → IsFresh (insert parent outlet contents tree).2
  unfolding insert
  insert-IsFresh parent outlet contents tree bound h =
      let up : tree.next + 1 ≡ (tree.next + 1) % u64_bound = omega (arith, bound) in
      linked-fresh parent _ _ _ (
        placed-fresh _ tree.free tree.nodes _ (omega (arith, up))
          (fresh_le tree.nodes tree.next _ (omega (arith, up)) h))

  kill_all-IsFresh :
      (order : List ℕ) (detached : List D) (tree : Tree D)
      → 0 < tree.next
      → IsFresh tree
      → (0 < (kill_all order detached tree).1.next) × IsFresh (kill_all order detached tree).1
  unfolding kill_all
  kill_all-IsFresh [] detached tree k h = (k, h)
  kill_all-IsFresh (i ∷ order) detached tree k h =
      kill_all-IsFresh order _ _ k (All-update _ i kill tree.nodes (λ x l. k) h)

  unlinked-fresh :
      (parent : Option ℕ) (gone : ℕ) (nodes : List (Node D)) (n : ℕ)
      → All (λ (x : Node D). x.serial < n) nodes
      → All (λ (x : Node D). x.serial < n) (unlink parent gone nodes)
  unlinked-fresh none gone nodes n h = h
  unlinked-fresh (some parent) gone nodes n h = All-update _ parent _ nodes (λ x l. l) h

  detach_node-IsFresh :
      (gone : ℕ) (o : Option (Node D)) (tree : Tree D)
      → 0 < tree.next
      → IsFresh tree
      → IsFresh (detach_node o gone tree).1
  unfolding detach
  detach_node-IsFresh gone none tree k h = h
  detach_node-IsFresh gone (some found) tree k h =
      (kill_all-IsFresh (order_of gone (unlinked found gone tree)) [] (unlinked found gone tree) k
        (unlinked-fresh found.parent gone tree.nodes tree.next h)).1

  pub detach-IsFresh :
      (gone number : ℕ) (tree : Tree D)
      → 0 < tree.next
      → IsFresh tree
      → IsFresh (detach gone number tree).1
  unfolding detach
  detach-IsFresh gone number tree k h =
      detach_node-IsFresh gone (named number (get_elem? tree.nodes gone)) tree k h

  kill_all-next :
      (order : List ℕ) (detached : List D) (tree : Tree D)
      → (kill_all order detached tree).1.next ≡ tree.next
  unfolding kill_all
  kill_all-next [] detached tree = refl
  kill_all-next (i ∷ order) detached tree = kill_all-next order _ _

  detach_node-next :
      (gone : ℕ) (o : Option (Node D)) (tree : Tree D)
      → (detach_node o gone tree).1.next ≡ tree.next
  unfolding detach
  detach_node-next gone none tree = refl
  detach_node-next gone (some found) tree =
      kill_all-next (order_of gone (unlinked found gone tree)) [] (unlinked found gone tree)

  pub detach-next : (gone number : ℕ) (tree : Tree D) → (detach gone number tree).1.next ≡ tree.next
  unfolding detach
  detach-next gone number tree =
      detach_node-next gone (named number (get_elem? tree.nodes gone)) tree
