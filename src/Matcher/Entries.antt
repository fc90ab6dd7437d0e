-- ===== src/Matcher/Entries.antt =====
-- What a match tree holds, as a list of patterns with their pages in the order of the walk, and the
-- walk of crates/guinea-route-dsl/src/matcher.rs as the first of them that answers.
use guinea.Base.{
  ℕ, ◌+◌, ◌&&◌, ◌≡◌, refl, ap₂, Option, none, some, List, [], ◌∷◌, ◌++◌, map, Text, if◌then◌else◌,
  leb, length, get_elem?, Bool-cases, inl, inr, arith,
}
use guinea.Tree.{Segment, literal, capture}
use guinea.Matcher.{MatchLeaf, MatchNode, node, Branches, end, branch}
use guinea.Matcher.Walk.{Route, first, part_is, leaf_here, walk, walk_literals, walk_captures}

abbrev pub Entry : Type 0
Entry = List Segment × MatchLeaf

abbrev pub own : Option MatchLeaf → List Entry
own none = []
own (some leaf) = ([], leaf) ∷ []

abbrev pub under : Segment → Entry → Entry
under x (segments, leaf) = (x ∷ segments, leaf)

unfoldable mutual
  pub entries : MatchNode → List Entry
  entries (node literals captures leaf) =
      own leaf ++ (branch_entries literal literals ++ branch_entries capture captures)

  pub branch_entries : (Text → Segment) → Branches → List Entry
  branch_entries kind end = []
  branch_entries kind (branch text child rest) =
      map (under (kind text)) (entries child) ++ branch_entries kind rest

-- The first item with an answer, `Iterator::find_map`.
module _ {ℓ κ} {A : Type ℓ} {B : Type κ} where
  unfoldable pub find_map : (A → Option B) → List A → Option B
  find_map f [] = none
  find_map f (x ∷ xs) = first (f x) (find_map f xs)

  pub find_map-append :
      (f : A → Option B) (xs ys : List A)
      → find_map f (xs ++ ys) ≡ first (find_map f xs) (find_map f ys)
  unfolding find_map
  find_map-append f [] ys = refl
  find_map-append f (x ∷ xs) ys = ground (arith, find_map-append f xs ys)

  pub find_map-none :
      (f : A → Option B) (xs : List A) → ((x : A) → f x ≡ none) → find_map f xs ≡ none
  unfolding find_map
  find_map-none f [] h = refl
  find_map-none f (x ∷ xs) h = rw (h x) (find_map-none f xs h)

module _ {V : Type 0} (decode : Text → Text → Text → Option V) (parts : List Text) where
  -- One pattern tried alone, with the tests that the walk makes.
  unfoldable pub attempt : ℕ → List (Text × ℕ) → List Segment → MatchLeaf → Option (Route V)
  attempt depth bound [] leaf = leaf_here decode parts (some leaf) depth bound
  attempt depth bound (literal text ∷ rest) leaf =
      if leb (depth + 1) (length parts) && part_is (get_elem? parts depth) text
      then attempt (depth + 1) bound rest leaf
      else none
  attempt depth bound (capture name ∷ rest) leaf =
      if leb (depth + 1) (length parts)
      then attempt (depth + 1) (bound ++ (name, depth) ∷ []) rest leaf
      else none

  abbrev pub attempt_entry : ℕ → List (Text × ℕ) → Entry → Option (Route V)
  attempt_entry depth bound (segments, leaf) = attempt depth bound segments leaf

  under_literal :
      (depth : ℕ) (bound : List (Text × ℕ)) (text : Text) (es : List Entry)
      → find_map (attempt_entry depth bound) (map (under (literal text)) es) ≡ (
          if leb (depth + 1) (length parts) && part_is (get_elem? parts depth) text
          then find_map (attempt_entry (depth + 1) bound) es
          else none)
  unfolding find_map attempt
  under_literal depth bound text [] = ground arith
  under_literal depth bound text ((segments, leaf) ∷ es) =
      elim (Bool-cases (leb (depth + 1) (length parts) && part_is (get_elem? parts depth) text)) [
        | inl taken ↦ ground (arith, under_literal depth bound text es)
        | inr left ↦ ground (arith, under_literal depth bound text es)
      ]

  under_capture :
      (depth : ℕ) (bound : List (Text × ℕ)) (name : Text) (es : List Entry)
      → find_map (attempt_entry depth bound) (map (under (capture name)) es) ≡ (
          if leb (depth + 1) (length parts)
          then find_map (attempt_entry (depth + 1) (bound ++ (name, depth) ∷ [])) es
          else none)
  unfolding find_map attempt
  under_capture depth bound name [] = ground arith
  under_capture depth bound name ((segments, leaf) ∷ es) =
      elim (Bool-cases (leb (depth + 1) (length parts))) [
        | inl taken ↦ ground (arith, under_capture depth bound name es)
        | inr left ↦ ground (arith, under_capture depth bound name es)
      ]

  first-none {ℓ} : {A : Type ℓ} (o : Option A) → first o none ≡ o
  first-none none = refl
  first-none (some a) = refl

  own-leaf :
      (leaf : Option MatchLeaf) (depth : ℕ) (bound : List (Text × ℕ))
      → find_map (attempt_entry depth bound) (own leaf) ≡ leaf_here decode parts leaf depth bound
  unfolding find_map attempt
  own-leaf none depth bound = refl
  own-leaf (some leaf) depth bound = first-none (leaf_here decode parts (some leaf) depth bound)

  mutual
    unfolding walk entries find_map

    pub walk-eq :
        (n : MatchNode) (depth : ℕ) (bound : List (Text × ℕ))
        → walk decode parts n depth bound ≡ find_map (attempt_entry depth bound) (entries n)
    walk-eq (node literals captures leaf) depth bound =
        rw
          (
            find_map-append (attempt_entry depth bound) (own leaf)
                (branch_entries literal literals ++ branch_entries capture captures),
            find_map-append (attempt_entry depth bound) (branch_entries literal literals)
                (branch_entries capture captures),
            own-leaf leaf depth bound,
          )
          (ap₂ (λ a b. first (leaf_here decode parts leaf depth bound) (first a b))
            (walk_literals-eq literals depth bound) (walk_captures-eq captures depth bound))

    walk_literals-eq :
        (bs : Branches) (depth : ℕ) (bound : List (Text × ℕ))
        → walk_literals decode parts bs depth bound
          ≡ find_map (attempt_entry depth bound) (branch_entries literal bs)
    walk_literals-eq end depth bound = refl
    walk_literals-eq (branch text child rest) depth bound = rw (
      find_map-append (attempt_entry depth bound) (map (under (literal text)) (entries child))
          (branch_entries literal rest),
      under_literal depth bound text (entries child),
      walk-eq child (depth + 1) bound,
      walk_literals-eq rest depth bound,
    )

    walk_captures-eq :
        (bs : Branches) (depth : ℕ) (bound : List (Text × ℕ))
        → walk_captures decode parts bs depth bound
          ≡ find_map (attempt_entry depth bound) (branch_entries capture bs)
    walk_captures-eq end depth bound = refl
    walk_captures-eq (branch name child rest) depth bound = rw (
      find_map-append (attempt_entry depth bound) (map (under (capture name)) (entries child))
          (branch_entries capture rest),
      under_capture depth bound name (entries child),
      walk-eq child (depth + 1) (bound ++ (name, depth) ∷ []),
      walk_captures-eq rest depth bound,
    )
