-- ===== src/Scope/Order.antt =====
-- Histories of a tree of crates/guinea-core/src/scope: scopes made and removed in any order.
use guinea.Base.{ℕ, ◌+◌, ◌<◌, ◌≡◌, Option, none, Text, arith}
use guinea.Scope.{Tree, u64_bound, insert, node, detach}
use guinea.Scope.Names.{
  IsFresh, insert-dead, detach-dead, insert-IsFresh, detach-IsFresh, detach-next,
}

-- What may happen to a tree, one call after the other. A counter at its bound makes no scope.
pub data Leads {D : Type 0} : Tree D → Tree D → Type 0 where
  nothing : {tree : Tree D} → Leads tree tree
  made :
      {tree after : Tree D} (parent : Option ℕ) (outlet : Text) (contents : D)
      → tree.next + 1 < u64_bound
      → Leads (insert parent outlet contents tree).2 after
      → Leads tree after
  removed :
      {tree after : Tree D} (index serial : ℕ)
      → Leads (detach index serial tree).1 after
      → Leads tree after

module _ {D : Type 0} where
  insert-next :
      (parent : Option ℕ) (outlet : Text) (contents : D) (tree : Tree D)
      → tree.next + 1 < u64_bound
      → (insert parent outlet contents tree).2.next ≡ tree.next + 1
  unfolding insert
  insert-next parent outlet contents tree h = omega (arith, h)

  -- A removed scope's name never comes back: whatever scopes are made and removed after, a name with
  -- a serial that was given out and that names no living scope goes on naming none.
  pub node-Leads :
      (tree after : Tree D) (index serial : ℕ)
      → serial < tree.next
      → node index serial tree ≡ none
      → Leads tree after
      → node index serial after ≡ none
  node-Leads tree after index serial old h nothing = h
  node-Leads tree after index serial old h (made parent outlet contents bound rest) =
      node-Leads _ after index serial (omega (arith, insert-next parent outlet contents tree bound))
        (insert-dead index serial parent outlet contents tree old h) rest
  node-Leads tree after index serial old h (removed gone number rest) =
      node-Leads _ after index serial (omega (arith, detach-next gone number tree))
        (detach-dead index serial gone number tree h) rest

  -- Where the serials in use are below the next one, which is not 0, they stay so, whatever scopes
  -- are made, while the counter is below its bound, and removed.
  pub Leads-IsFresh :
      (tree after : Tree D) → 0 < tree.next → IsFresh tree → Leads tree after → IsFresh after
  Leads-IsFresh tree after k h nothing = h
  Leads-IsFresh tree after k h (made parent outlet contents bound rest) =
      Leads-IsFresh _ after (omega (arith, insert-next parent outlet contents tree bound))
        (insert-IsFresh parent outlet contents tree bound h) rest
  Leads-IsFresh tree after k h (removed gone number rest) =
      Leads-IsFresh _ after (omega (arith, detach-next gone number tree))
        (detach-IsFresh gone number tree k h) rest
