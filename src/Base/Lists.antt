-- ===== src/Base/Lists.antt =====
-- Lists measured by native numbers, under the library's names, and predicates over their items.
use Prim.Native.Nat.{ℕ, zero, suc, ◌+◌, ◌≤◌}
use mathlib.Core.Path.{◌≡◌, refl, sym, subst}
use mathlib.Core.Logic.{◌↔◌, ◌⊎◌, inl, inr}
use mathlib.Core.Bool.{Bool, true, false, ◌&&◌, ◌||◌}
use mathlib.Core.List.{List, [], ◌∷◌, ◌++◌}
use mathlib.Core.Option.{Option, none, some}
use native.Mathlib.Omega.{arith}
use guinea.Base.Tests.{if◌then◌else◌}

module _ {ℓ} {A : Type ℓ} where
  abbrev pub length : List A → ℕ
  length [] = 0
  length (x ∷ xs) = suc (length xs)

  abbrev pub get_elem? : List A → ℕ → Option A
  get_elem? [] i = none
  get_elem? (x ∷ xs) zero = some x
  get_elem? (x ∷ xs) (suc i) = get_elem? xs i

  -- A write out of bounds changes nothing.
  abbrev pub set : List A → ℕ → A → List A
  set [] i v = []
  set (x ∷ xs) zero v = v ∷ xs
  set (x ∷ xs) (suc i) v = x ∷ set xs i v

  abbrev pub take : ℕ → List A → List A
  take zero xs = []
  take (suc n) [] = []
  take (suc n) (x ∷ xs) = x ∷ take n xs

  abbrev pub drop : ℕ → List A → List A
  drop zero xs = xs
  drop (suc n) [] = []
  drop (suc n) (x ∷ xs) = drop n xs

  -- `Iterator::any`, `Iterator::all` and `Vec::retain`.
  abbrev pub any : (A → Bool) → List A → Bool
  any p [] = false
  any p (x ∷ xs) = p x || any p xs

  abbrev pub all : (A → Bool) → List A → Bool
  all p [] = true
  all p (x ∷ xs) = p x && all p xs

  abbrev pub retain : (A → Bool) → List A → List A
  retain p [] = []
  retain p (x ∷ xs) = if p x then x ∷ retain p xs else retain p xs

  pub append-eq-nil : (xs ys : List A) → (xs ++ ys ≡ []) ↔ ((xs ≡ []) × (ys ≡ []))
  append-eq-nil [] ys = (λ e. (refl, e), λ h. h.1)
  append-eq-nil (x ∷ xs) ys = (λ e. cc, λ h. cc (h.0))

  pub length-append : (xs ys : List A) → length (xs ++ ys) ≡ length xs + length ys
  length-append [] ys = omega arith
  length-append (x ∷ xs) ys = omega (arith, length-append xs ys)

  pub length-retain-le : (p : A → Bool) (xs : List A) → length (retain p xs) ≤ length xs
  length-retain-le p [] = omega arith
  length-retain-le p (x ∷ xs) = ground (arith, length-retain-le p xs)

module _ {ℓ κ} {A : Type ℓ} where
  abbrev pub All : (A → Type κ) → List A → Type κ
  All P [] = Unit
  All P (x ∷ xs) = P x × All P xs

  -- Some item has the property; a proof says which.
  pub data Any (P : A → Type κ) : List A → Type (ℓ ⊔ κ) where
    here : {x : A} {xs : List A} → P x → Any P (x ∷ xs)
    there : {x : A} {xs : List A} → Any P xs → Any P (x ∷ xs)

  pub All-map :
      {P : A → Type κ} {Q : A → Type κ}
      → ((x : A) → P x → Q x)
      → (xs : List A) → All P xs
      → All Q xs
  All-map k [] h = tt
  All-map k (x ∷ xs) h = (k x h.0, All-map k xs h.1)

  pub All-append : (P : A → Type κ) (xs ys : List A) → All P xs → All P ys → All P (xs ++ ys)
  All-append P [] ys h k = k
  All-append P (x ∷ xs) ys h k = (h.0, All-append P xs ys h.1 k)

  pub All-append_left : (P : A → Type κ) (xs ys : List A) → All P (xs ++ ys) → All P xs
  All-append_left P [] ys h = tt
  All-append_left P (x ∷ xs) ys h = (h.0, All-append_left P xs ys h.1)

  pub All-append_right : (P : A → Type κ) (xs ys : List A) → All P (xs ++ ys) → All P ys
  All-append_right P [] ys h = h
  All-append_right P (x ∷ xs) ys h = All-append_right P xs ys h.1

  pub All-retain : (P : A → Type κ) (p : A → Bool) (xs : List A) → All P xs → All P (retain p xs)
  All-retain P p [] h = tt
  All-retain P p (x ∷ xs) h = ground (arith, All-retain P p xs h.1)

  pub Any-append_left : {P : A → Type κ} {xs : List A} (ys : List A) → Any P xs → Any P (xs ++ ys)
  Any-append_left ys (here p) = here p
  Any-append_left ys (there a) = there (Any-append_left ys a)

  pub Any-append_right : {P : A → Type κ} (xs : List A) {ys : List A} → Any P ys → Any P (xs ++ ys)
  Any-append_right [] a = a
  Any-append_right (x ∷ xs) a = there (Any-append_right xs a)

  pub Any-append_cases :
      {P : A → Type κ} (xs : List A) {ys : List A} → Any P (xs ++ ys) → Any P xs ⊎ Any P ys
  Any-append_cases [] a = inr a
  Any-append_cases (x ∷ xs) (here p) = inl (here p)
  Any-append_cases (x ∷ xs) (there a) = elim (Any-append_cases xs a) [
    | inl b ↦ inl (there b)
    | inr b ↦ inr b
  ]

  pub Any-elim {μ} :
      {P : A → Type κ} {B : Type μ} {xs : List A} → Any P xs → ((x : A) → P x → B) → B
  Any-elim (here p) k = k _ p
  Any-elim (there a) k = Any-elim a k

  pub Any-map :
      {P : A → Type κ} {Q : A → Type κ} {xs : List A} → ((x : A) → P x → Q x) → Any P xs → Any Q xs
  Any-map k (here p) = here (k _ p)
  Any-map k (there a) = there (Any-map k a)

module _ {ℓ κ} {A : Type ℓ} where
  -- The item that has the property, and that it is listed.
  pub Any-item : {P : A → Type κ} {xs : List A} → Any P xs → (x : A) × Any (λ y. y ≡ x) xs × P x
  Any-item (here p) = (_, here refl, p)
  Any-item (there a) = let (x, listed, p) = Any-item a in (x, there listed, p)

  pub Any-intro : {P : A → Type κ} {x : A} {xs : List A} → Any (λ y. y ≡ x) xs → P x → Any P xs
  Any-intro {P = P} (here e) p = here (subst P (sym e) p)
  Any-intro (there a) p = there (Any-intro a p)

  pub listed-All : (P : A → Type κ) {x : A} {xs : List A} → Any (λ y. y ≡ x) xs → All P xs → P x
  listed-All P (here e) h = subst P e h.0
  listed-All P (there a) h = listed-All P a h.1

  -- "Some" against "every".
  pub Any-All-absurd : {P : A → Type κ} {xs : List A} → Any (λ x. ¬ (P x)) xs → All P xs → ⊥
  Any-All-absurd (here n) h = n h.0
  Any-All-absurd (there a) h = Any-All-absurd a h.1
