-- ===== src/Router/History.antt =====
-- The history of crates/guinea-router/src/router.rs: `remember`, `take_back`, `take_forward` and
-- the two that put a refused step back. A `Vec` used as a stack is a list with its last item first.
use guinea.Base.{◌≡◌, Option, none, some, List, [], ◌∷◌, arith}

pub record History (R : Type 0) : Type 0 where
  pub back : List R
  pub forward : List R

module _ {R : Type 0} where
  -- `Router::remember`
  unfoldable pub remember : R → History R → History R
  remember route h = record { back = route ∷ h.back; forward = [] }

  abbrev pub push_leaving : Option R → List R → List R
  push_leaving none stack = stack
  push_leaving (some route) stack = route ∷ stack

  -- `Router::take_back`
  unfoldable pub take_back : Option R → History R → Option R × History R
  take_back leaving h = elim h.back [
    | [] ↦ (none, h)
    | entry ∷ rest ↦ (some entry, record { back = rest; forward = push_leaving leaving h.forward })
  ]

  -- `Router::take_forward`
  unfoldable pub take_forward : Option R → History R → Option R × History R
  take_forward leaving h = elim h.forward [
    | [] ↦ (none, h)
    | entry ∷ rest ↦ (some entry, record { back = push_leaving leaving h.back; forward = rest })
  ]

  abbrev pub pop : List R → List R
  pop [] = []
  pop (route ∷ rest) = rest

  -- `Router::restore_back` and `Router::restore_forward`
  unfoldable pub restore_back : R → History R → History R
  restore_back route h = record { back = route ∷ h.back; forward = pop h.forward }

  unfoldable pub restore_forward : R → History R → History R
  restore_forward route h = record { back = pop h.back; forward = route ∷ h.forward }

  -- Where a step back from a route takes an entry, the step forward after it gives the route that
  -- was left, and the stacks are as before.
  pub take_forward-take_back :
      (leaving entry : R) (h : History R)
      → (take_back (some leaving) h).0 ≡ some entry
      → take_forward (some entry) (take_back (some leaving) h).1 ≡ (some leaving, h)
  unfolding take_back take_forward
  take_forward-take_back leaving entry h e = ground arith

  -- Where a route was left and a step back took an entry, putting the entry back leaves the history
  -- as it was.
  pub restore_back-take_back :
      (leaving entry : R) (h : History R)
      → (take_back (some leaving) h).0 ≡ some entry
      → restore_back entry (take_back (some leaving) h).1 ≡ h
  unfolding take_back restore_back
  restore_back-take_back leaving entry h e = ground arith

  -- The same of a step forward.
  pub restore_forward-take_forward :
      (leaving entry : R) (h : History R)
      → (take_forward (some leaving) h).0 ≡ some entry
      → restore_forward entry (take_forward (some leaving) h).1 ≡ h
  unfolding take_forward restore_forward
  restore_forward-take_forward leaving entry h e = ground arith
