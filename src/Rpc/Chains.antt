-- ===== src/Rpc/Chains.antt =====
-- What holds of every request of crates/guinea-core/src/actor/event_bus/rpc.rs: its chain and
-- its stage.
use guinea.Base.{
  ℕ, ◌≡◌, refl, sym, subst, ◌∙◌, true, false, Option, none, some, List, [], ◌∷◌, ◌++◌, ◌⊎◌, inl,
  inr, ◌==◌, Bool-cases, if-true, if-false, any, map_or, arith,
}
use guinea.Rpc.{Message, Request, Calls, put, request, received}
use guinea.Rpc.Stages.{
  Stage, waits, IsKept, Stage-IsKept, Under, Step-Under, Steps, stays, steps, put_at-cases,
}

-- No type stands twice.
abbrev pub AreDistinct : List ℕ → Type 0
AreDistinct [] = Unit
AreDistinct (x ∷ xs) = (any (λ t. t == x) xs ≡ false) × AreDistinct xs

any-append :
    (x y : ℕ) (xs : List ℕ)
    → any (λ t. t == x) xs ≡ false
    → (x == y) ≡ false
    → any (λ t. t == x) (xs ++ y ∷ []) ≡ false
any-append x y [] h other = ground (arith, other)
any-append x y (z ∷ xs) h other = ground (arith, any-append x y xs, h, other)

AreDistinct-append :
    (y : ℕ) (xs : List ℕ)
    → any (λ t. t == y) xs ≡ false
    → AreDistinct xs
    → AreDistinct (xs ++ y ∷ [])
AreDistinct-append y [] h d = (refl, tt)
AreDistinct-append y (x ∷ xs) h d =
    (any-append x y xs d.0 (ground (arith, h)), AreDistinct-append y xs (ground (arith, h)) d.1)

-- A request at one of its stages, whose chain has no type twice.
abbrev pub IsSound : Request → Type 0
IsSound r = Stage r × AreDistinct r.chain

abbrev pub new_request : ℕ → ℕ → List ℕ → Request
new_request ty wants chain = record {
  ty = ty;
  wants = wants;
  chain = chain ++ ty ∷ [];
  pending = true;
  listens = true;
  channel = none;
  sends = 0;
  outcome = none;
}

pub request-made :
    (id ty wants : ℕ) (chain : List ℕ) (s t : Calls)
    → request id ty wants chain s ≡ some t
    → (any (λ u. u == ty) chain ≡ false) × (t ≡ put id (new_request ty wants chain) s)
unfolding request
request-made id ty wants chain s t h = elim (Bool-cases (any (λ u. u == ty) chain)) [
  | inl cycle ↦
      absurd (cc (sym (if-true _ none (some (put id (new_request ty wants chain) s)) cycle) ∙ h))
  | inr fine ↦ (
    fine,
    (let made : some (put id (new_request ty wants chain) s) ≡ some t =
          sym (if-false _ none (some (put id (new_request ty wants chain) s)) fine) ∙ h in
        cc made),
  )
]

new-Under :
    (D : Type 0) (P : Request → Type 0) (i id : ℕ) (r : Request) (s : Calls)
    → (i ≡ id → Under D P (s.requests i) → P r)
    → Under D P (s.requests i)
    → Under D P ((put id r s).requests i)
new-Under D P i id r s k h = elim (put_at-cases id i r s.requests) [
  | inl (same, eq) ↦ subst (Under D P) (sym eq) (k same h)
  | inr eq ↦ subst (Under D P) (sym eq) h
]

received-chain : (r : Request) (o : Option Message) → (received r o).chain ≡ r.chain
received-chain r none = refl
received-chain r (some message) = refl

-- The chain of a request under way, or none.
parent-AreDistinct :
    (s : Calls) (parent : Option Request)
    → ((i : ℕ) → Under Unit IsSound (s.requests i))
    → (parent ≡ none) ⊎ ((p : ℕ) × (s.requests p ≡ parent))
    → AreDistinct (map_or [] (λ r. r.chain) parent)
parent-AreDistinct s none h from = tt
parent-AreDistinct s (some r) h (inl e) = absurd (cc e)
parent-AreDistinct s (some r) h (inr (p, at)) = (subst (Under Unit IsSound) at (h p)).1

IsSound-IsKept : IsKept IsSound
IsSound-IsKept = (
  (λ m r p h. (Stage-IsKept.0 m r p h.0, h.1)),
  (λ r l h. (Stage-IsKept.1 r l h.0, subst AreDistinct (sym (received-chain r r.channel)) h.1)),
  (λ r l h. (Stage-IsKept.2 r l h.0, h.1)),
  (λ r l h. (Stage-IsKept.3 r l h.0, h.1)),
)

-- Where every request is at one of its stages and no chain has a type twice, that stays so, whatever
-- is done in whatever order, where an id that is drawn is of no request.
pub Steps-IsSound :
    (s t : Calls)
    → ((i : ℕ) → Under Unit IsSound (s.requests i))
    → Steps s t
    → (i : ℕ) → Under Unit IsSound (t.requests i)
Steps-IsSound s t h stays i = h i
Steps-IsSound s t h (steps one rest) i =
    Steps-IsSound _ t
      (λ j.
        Step-Under Unit IsSound j s _ IsSound-IsKept
          (λ id ty wants parent u fresh from made old.
            let (fine, eq) = request-made id ty wants _ s u made in
            subst (λ (c : Calls). Under Unit IsSound (c.requests j)) (sym eq)
              (new-Under Unit IsSound j id _ s
                (λ same k. (
                  waits refl refl refl refl refl,
                  AreDistinct-append ty _ fine (parent-AreDistinct s parent h from),
                ))
                old))
          (h j) one)
      rest i
