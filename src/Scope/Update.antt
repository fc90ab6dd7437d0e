-- ===== src/Scope/Update.antt =====
-- One changed item of a list: how crates/guinea-core/src/scope/tree.rs changes a node.
use guinea.Base.{ℕ, zero, suc, ◌≡◌, refl, ap, Option, none, some, List, [], ◌∷◌, get_elem?, All}
use guinea.Scope.{update}

-- What a change does to what may be there.
abbrev pub changed {ℓ} : {A : Type ℓ} → (A → A) → Option A → Option A
changed change none = none
changed change (some a) = some (change a)

module _ {ℓ} {A : Type ℓ} where
  pub get_elem?-update_same :
      (i : ℕ) (change : A → A) (xs : List A)
      → get_elem? (update i change xs) i ≡ changed change (get_elem? xs i)
  get_elem?-update_same i change [] = refl
  get_elem?-update_same zero change (x ∷ xs) = refl
  get_elem?-update_same (suc i) change (x ∷ xs) = get_elem?-update_same i change xs

  pub get_elem?-update_other :
      (i j : ℕ) (change : A → A) (xs : List A)
      → ¬ (i ≡ j)
      → get_elem? (update i change xs) j ≡ get_elem? xs j
  get_elem?-update_other i j change [] h = refl
  get_elem?-update_other zero zero change (x ∷ xs) h = absurd (h refl)
  get_elem?-update_other zero (suc j) change (x ∷ xs) h = refl
  get_elem?-update_other (suc i) zero change (x ∷ xs) h = refl
  get_elem?-update_other (suc i) (suc j) change (x ∷ xs) h =
      get_elem?-update_other i j change xs (λ e. h (ap (λ n. suc n) e))

  pub All-update {κ} :
      (P : A → Type κ) (i : ℕ) (change : A → A) (xs : List A)
      → ((x : A) → P x → P (change x))
      → All P xs
      → All P (update i change xs)
  All-update P i change [] k h = tt
  All-update P zero change (x ∷ xs) k h = (k x h.0, h.1)
  All-update P (suc i) change (x ∷ xs) k h = (h.0, All-update P i change xs k h.1)
