-- ===== src/Acts/Chains.antt =====
-- The chain that grows from a point of the log of crates/guinea-app/src/app/acts.rs is whole.
use guinea.Base.{
  ℕ, zero, suc, ◌+◌, ◌<◌, ◌≡◌, refl, subst, none, some, List, [], ◌∷◌, ◌++◌, ◌==◌, ==_iff, if-intro,
  All, All-append, All-map, arith,
}
use guinea.Acts.{
  Log, Trace, begins, marked, finishes, add_child, note, hear, hear_all, Chain, nothing, grown,
  grow_each, grow,
}

-- The chain of some points holds all that they caused.
unfoldable pub IsWhole : Log → List ℕ → Chain → Type 0
IsWhole log [] nothing = Unit
IsWhole log [] (grown at then_ next) = ⊥
IsWhole log (id ∷ ids) nothing = ⊥
IsWhole log (id ∷ ids) (grown at then_ next) =
    (id ≡ at) × IsWhole log (log.children at) then_ × IsWhole log ids next

-- A point comes after the one that caused it, and below a bound.
abbrev IsOrdered : ℕ → Log → Type 0
IsOrdered bound log = (p : ℕ) → All (λ c. (p < c) × (c < bound)) (log.children p)

grow_each-IsWhole :
    (log : Log) (grow_one : ℕ → Chain) (ids : List ℕ)
    → All (λ at. IsWhole log (log.children at) (grow_one at)) ids
    → IsWhole log ids (grow_each grow_one ids)
unfolding IsWhole
grow_each-IsWhole log grow_one [] h = tt
grow_each-IsWhole log grow_one (at ∷ ids) h = (refl, h.0, grow_each-IsWhole log grow_one ids h.1)

pub grow-IsWhole :
    (depth bound : ℕ) (log : Log) (ids : List ℕ)
    → IsOrdered bound log
    → All (λ at. bound < at + depth) ids
    → All (λ at. at < bound) ids
    → IsWhole log ids (grow depth log ids)
unfolding grow IsWhole
grow-IsWhole zero bound log [] h deep below = tt
grow-IsWhole zero bound log (at ∷ ids) h deep below = omega (arith, deep.0, below.0)
grow-IsWhole (suc depth) bound log ids h deep below = grow_each-IsWhole log _ ids (
    All-map
      (λ at d.
        grow-IsWhole depth bound log (log.children at) h
          (All-map (λ c k. omega (arith, k.0, d)) (log.children at) (h at))
          (All-map (λ c k. k.1) (log.children at) (h at)))
      ids deep)

-- A trace whose ids come after their parents' and below a bound.
abbrev pub IsLater : ℕ → Trace → Type 0
IsLater bound (begins id (some parent) point) = (parent < id) × (id < bound)
IsLater bound (marked id (some parent) point) = (parent < id) × (id < bound)
IsLater bound _ = Unit

add_child-IsOrdered :
    (bound id : ℕ) (parent : ℕ) (log : Log)
    → (parent < id) × (id < bound)
    → IsOrdered bound log
    → (p : ℕ) → All (λ c. (p < c) × (c < bound)) (add_child (some parent) id log.children p)
add_child-IsOrdered bound id parent log k h p =
    if-intro (All (λ c. (p < c) × (c < bound))) (p == parent) (log.children parent ++ id ∷ [])
      (log.children p)
      (λ here.
        let same : p ≡ parent = (==_iff p parent).0 here in
        All-append (λ c. (p < c) × (c < bound)) (log.children parent) (id ∷ [])
          (subst (λ q. All (λ c. (p < c) × (c < bound)) (log.children q)) same (h p))
          ((omega (arith, same, k.0), k.1), tt))
      (λ other. h p)

hear-IsOrdered :
    (bound : ℕ) (trace : Trace) (log : Log)
    → IsLater bound trace
    → IsOrdered bound log
    → IsOrdered bound (hear trace log)
unfolding hear note
hear-IsOrdered bound (begins id none point) log k h = h
hear-IsOrdered bound (begins id (some parent) point) log k h =
    add_child-IsOrdered bound id parent log k h
hear-IsOrdered bound (marked id none point) log k h = h
hear-IsOrdered bound (marked id (some parent) point) log k h =
    add_child-IsOrdered bound id parent log k h
hear-IsOrdered bound (finishes id) log k h = h

pub hear_all-IsOrdered :
    (bound : ℕ) (traces : List Trace) (log : Log)
    → All (IsLater bound) traces
    → IsOrdered bound log
    → IsOrdered bound (hear_all traces log)
unfolding hear_all
hear_all-IsOrdered bound [] log k h = h
hear_all-IsOrdered bound (trace ∷ traces) log k h =
    hear_all-IsOrdered bound traces (hear trace log) k.1 (hear-IsOrdered bound trace log k.0 h)
