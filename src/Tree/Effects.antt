-- ===== src/Tree/Effects.antt =====
-- What `check_guards` of crates/guinea-route-dsl/src/lib.rs makes of a tree, by what stands on the way
-- to each node and without the guards that `fold_into` carries down.
use guinea.Base.{◌≡◌, refl, sym, ◌∙◌, ◌↔◌, true, false, ◌&&◌, not, List, [], ◌∷◌, ◌++◌, All, arith}
use guinea.Tree.{TypeName, Guards, Node, Nodes, layout, page, end, more, contains, fold_into}
use guinea.Tree.Guarding.{stands, fold_into-stands}
use guinea.Tree.Checks.{
  IsFresh, IsWellGuardedNode, IsWellGuardedAt, IsWellGuarded, check_guards, check_guards-eq-nil_iff,
}

-- Each guard of a list that is added would not stand with only those before it.
abbrev pub AddsEach : List TypeName → List TypeName → List TypeName → List Guards → Type 0
AddsEach removed earlier [] above = Unit
AddsEach removed earlier (guard ∷ added) above =
    (stands guard (record { added = earlier; removed = removed } ∷ above) ≡ false)
    × AddsEach removed (earlier ++ guard ∷ []) added above

-- What a node says of guards, below a way: each that it takes out stands, and each that it adds would
-- not stand without that.
abbrev pub HasEffectNode : Guards → List Guards → Type 0
HasEffectNode guards above =
    All (λ guard. stands guard above ≡ true) guards.removed
    × AddsEach guards.removed [] guards.added above

abbrev mutual
  pub HasEffectAt : Node → List Guards → Type 0
  HasEffectAt (layout ty guards restorable keep children) above =
      HasEffectNode guards above × HasEffect children (guards ∷ above)
  HasEffectAt (page ty link guards restorable keep fields) above = HasEffectNode guards above

  pub HasEffect : Nodes → List Guards → Type 0
  HasEffect end above = Unit
  HasEffect (more node rest) above = HasEffectAt node above × HasEffect rest above

-- Some guards are those that stand at the end of a way.
abbrev AreStanding : List TypeName → List Guards → Type 0
AreStanding standing above = (guard : TypeName) → contains standing guard ≡ stands guard above

removed_stand :
    (standing removed : List TypeName) (above : List Guards)
    → AreStanding standing above
    → All (λ guard. contains standing guard ≡ true) removed
      ↔ All (λ guard. stands guard above ≡ true) removed
removed_stand standing [] above s = (λ h. tt, λ h. tt)
removed_stand standing (guard ∷ removed) above s =
    let (to, from) = removed_stand standing removed above s in
    (λ h. (sym (s guard) ∙ h.0, to h.1), λ h. (s guard ∙ h.0, from h.1))

added_fresh :
    (standing removed earlier : List TypeName) (guard : TypeName) (above : List Guards)
    → AreStanding standing above
    → ((contains standing guard && not (contains removed guard) ≡ false)
        × (contains earlier guard ≡ false))
      ↔ (stands guard (record { added = earlier; removed = removed } ∷ above) ≡ false)
unfolding stands
added_fresh standing removed earlier guard above s = ground (arith, s guard)

added_stand :
    (standing removed earlier added : List TypeName) (above : List Guards)
    → AreStanding standing above
    → IsFresh standing removed earlier added ↔ AddsEach removed earlier added above
added_stand standing removed earlier [] above s = (λ h. tt, λ h. tt)
added_stand standing removed earlier (guard ∷ added) above s =
    let (to, from) = added_stand standing removed (earlier ++ guard ∷ []) added above s in
    let (new, fresh) = added_fresh standing removed earlier guard above s in
    (λ h. (new (h.0, h.1), to h.2), λ h. let f = fresh h.0 in (f.0, f.1, from h.1))

node_stands :
    (guards : Guards) (standing : List TypeName) (above : List Guards)
    → AreStanding standing above
    → IsWellGuardedNode guards standing ↔ HasEffectNode guards above
node_stands guards standing above s =
    let (to, from) = removed_stand standing guards.removed above s in
    let (into, back) = added_stand standing guards.removed [] guards.added above s in
    (λ h. (to h.0, into h.1), λ h. (from h.0, back h.1))

mutual
  IsWellGuardedAt-HasEffectAt :
      (n : Node) (standing : List TypeName) (above : List Guards)
      → AreStanding standing above
      → IsWellGuardedAt n standing ↔ HasEffectAt n above
  IsWellGuardedAt-HasEffectAt (layout ty guards restorable keep children) standing above s =
      let (to, from) = node_stands guards standing above s in
      let (into, back) =
        IsWellGuarded-HasEffect children (fold_into guards standing) (guards ∷ above)
          (λ guard. fold_into-stands guard guards above standing (s guard)) in
      (λ h. (to h.0, into h.1), λ h. (from h.0, back h.1))
  IsWellGuardedAt-HasEffectAt (page ty link guards restorable keep fields) standing above s =
      node_stands guards standing above s

  IsWellGuarded-HasEffect :
      (ns : Nodes) (standing : List TypeName) (above : List Guards)
      → AreStanding standing above
      → IsWellGuarded ns standing ↔ HasEffect ns above
  IsWellGuarded-HasEffect end standing above s = (λ h. tt, λ h. tt)
  IsWellGuarded-HasEffect (more n rest) standing above s =
      let (to, from) = IsWellGuardedAt-HasEffectAt n standing above s in
      let (into, back) = IsWellGuarded-HasEffect rest standing above s in
      (λ h. (to h.0, into h.1), λ h. (from h.0, back h.1))

-- check_guards reports nothing exactly when each guard that a node takes out, though it says so twice, stands
-- on the way to the node, and each that a node adds would not stand in front of it by what stands on the
-- way, what the node takes out, and what the node adds before it.
pub check_guards-HasEffect : (nodes : Nodes) → (check_guards nodes ≡ []) ↔ HasEffect nodes []
unfolding stands
check_guards-HasEffect nodes =
    let (to, from) = check_guards-eq-nil_iff nodes in
    let (into, back) = IsWellGuarded-HasEffect nodes [] [] (λ guard. refl) in
    (λ e. into (to e), λ h. from (back h))
