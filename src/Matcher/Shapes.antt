-- ===== src/Matcher/Shapes.antt =====
-- What it is for two patterns to have one shape, and how `shape_of` of
-- crates/guinea-route-dsl/src/matcher.rs spells that.
use guinea.Base.{
  ℕ, ◌≡◌, ◌≢◌, refl, sym, ap, subst, map, ◌∙◌, ◌↔◌, Option, none, some, List, [], ◌∷◌, ◌++◌, Text,
  All, arith,
}
use guinea.Tree.{Segment, literal, capture, Leaf}
use guinea.Matcher.{tree, MatchNode, shape_from, shape_of, build}
use guinea.Matcher.Building.{IsDistinct, shapes, shapes_cons, build-tree_iff}

-- Patterns have one shape where they are as long, with the same literals at the same places, and
-- captures, of whatever name, at the same places.
abbrev pub SameSegment : Segment → Segment → Type 0
SameSegment (literal s) (literal t) = s ≡ t
SameSegment (capture m) (capture n) = Unit
SameSegment (literal s) (capture n) = ⊥
SameSegment (capture m) (literal t) = ⊥

abbrev pub SameShape : List Segment → List Segment → Type 0
SameShape [] [] = Unit
SameShape (x ∷ xs) (y ∷ ys) = SameSegment x y × SameShape xs ys
SameShape [] (y ∷ ys) = ⊥
SameShape (x ∷ xs) [] = ⊥

-- A literal that is spelled with something, without a slash, and is not one star.
abbrev pub IsPlain : Segment → Type 0
IsPlain (literal text) = (text ≢ []) × All (λ c. c ≢ b'/') text × (text ≢ b'*' ∷ [])
IsPlain (capture name) = Unit

abbrev label : Segment → Text
label (literal text) = text
label (capture name) = b'*' ∷ []

abbrev HasNoSlash : Text → Type 0
HasNoSlash text = All (λ c. c ≢ b'/') text

star-ne-slash : ◌≢◌ {A = ℕ} b'*' b'/'
star-ne-slash e = omega (arith, e)

label-HasNoSlash : (s : Segment) → IsPlain s → HasNoSlash (label s)
label-HasNoSlash (literal text) h = h.1
label-HasNoSlash (capture name) h = (star-ne-slash, tt)

label-ne-nil : (s : Segment) → IsPlain s → label s ≢ []
label-ne-nil (literal text) h = h.0
label-ne-nil (capture name) h = cc

left_nil : (s t : Text) → s ++ t ≡ [] → s ≡ []
left_nil [] t e = refl
left_nil (c ∷ s) t e = cc e

shape_from-label :
    (s : Segment) (rest : List Segment)
    → shape_from (s ∷ rest) ≡ b'/' ∷ (label s ++ shape_from rest)
unfolding shape_from
shape_from-label (literal text) rest = refl
shape_from-label (capture name) rest = refl

shape_from-ne-cons : (xs : List Segment) (c : ℕ) (rest : Text) → c ≢ b'/' → shape_from xs ≢ c ∷ rest
unfolding shape_from
shape_from-ne-cons [] c rest h e = cc e
shape_from-ne-cons (x ∷ xs) c rest h e =
    h (let head : b'/' ≡ c = cc (sym e, shape_from-label x xs) in sym head)

-- What comes up to the first slash is found in one way.
split_slash :
    (s t : Text) (xs ys : List Segment)
    → HasNoSlash s
    → HasNoSlash t
    → s ++ shape_from xs ≡ t ++ shape_from ys
    → (s ≡ t) × (shape_from xs ≡ shape_from ys)
split_slash [] [] xs ys h k e = (refl, e)
split_slash [] (c ∷ t) xs ys h k e = absurd (shape_from-ne-cons xs c (t ++ shape_from ys) k.0 e)
split_slash (c ∷ s) [] xs ys h k e =
    absurd (shape_from-ne-cons ys c (s ++ shape_from xs) h.0 (sym e))
split_slash (c ∷ s) (d ∷ t) xs ys h k e =
    let rest : s ++ shape_from xs ≡ t ++ shape_from ys = cc e in
    let (same, left) = split_slash s t xs ys h.1 k.1 rest in
    let head : c ≡ d = cc e in (cc (head, same), left)

label-SameSegment : (x y : Segment) → IsPlain x → IsPlain y → label x ≡ label y → SameSegment x y
label-SameSegment (literal s) (literal t) h k e = e
label-SameSegment (capture m) (capture n) h k e = tt
label-SameSegment (literal s) (capture n) h k e = h.2 e
label-SameSegment (capture m) (literal t) h k e = k.2 (sym e)

SameSegment-label : (x y : Segment) → SameSegment x y → label x ≡ label y
SameSegment-label (literal s) (literal t) e = e
SameSegment-label (capture m) (capture n) e = refl
SameSegment-label (literal s) (capture n) e = absurd e
SameSegment-label (capture m) (literal t) e = absurd e

shape_from-SameShape :
    (xs ys : List Segment)
    → All IsPlain xs
    → All IsPlain ys
    → shape_from xs ≡ shape_from ys
    → SameShape xs ys
unfolding shape_from
shape_from-SameShape [] [] h k e = tt
shape_from-SameShape [] (y ∷ ys) h k e = absurd (cc (e, shape_from-label y ys))
shape_from-SameShape (x ∷ xs) [] h k e = absurd (cc (e, shape_from-label x xs))
shape_from-SameShape (x ∷ xs) (y ∷ ys) h k e =
    let text : label x ++ shape_from xs ≡ label y ++ shape_from ys =
      cc (e, shape_from-label x xs, shape_from-label y ys) in
    let (same, rest) =
      split_slash (label x) (label y) xs ys (label-HasNoSlash x h.0) (label-HasNoSlash y k.0)
        text in
    (label-SameSegment x y h.0 k.0 same, shape_from-SameShape xs ys h.1 k.1 rest)

SameShape-shape_from : (xs ys : List Segment) → SameShape xs ys → shape_from xs ≡ shape_from ys
SameShape-shape_from [] [] h = refl
SameShape-shape_from [] (y ∷ ys) h = absurd h
SameShape-shape_from (x ∷ xs) [] h = absurd h
SameShape-shape_from (x ∷ xs) (y ∷ ys) h = cc (
  shape_from-label x xs,
  shape_from-label y ys,
  SameSegment-label x y h.0,
  SameShape-shape_from xs ys h.1,
)

shape_of-SameShape_iff :
    (xs ys : List Segment)
    → All IsPlain xs
    → All IsPlain ys
    → (shape_of xs ≡ shape_of ys) ↔ SameShape xs ys
unfolding shape_of shape_from
shape_of-SameShape_iff [] [] h k = (λ e. tt, λ e. refl)
shape_of-SameShape_iff [] (y ∷ ys) h k = (
  λ e. label-ne-nil y k.0 (left_nil (label y) (shape_from ys) (cc (e, shape_from-label y ys))),
  λ e. absurd e,
)
shape_of-SameShape_iff (x ∷ xs) [] h k = (
  λ e. label-ne-nil x h.0 (left_nil (label x) (shape_from xs) (cc (e, shape_from-label x xs))),
  λ e. absurd e,
)
shape_of-SameShape_iff (x ∷ xs) (y ∷ ys) h k =
    (shape_from-SameShape (x ∷ xs) (y ∷ ys) h k, SameShape-shape_from (x ∷ xs) (y ∷ ys))

-- No two of some patterns have one shape.
abbrev pub AreApart : List (List Segment) → Type 0
AreApart [] = Unit
AreApart (p ∷ rest) = All (λ q. ¬ SameShape q p) rest × AreApart rest

All-apart :
    (p : List Segment) (qs : List (List Segment))
    → All IsPlain p
    → All (All IsPlain) qs
    → All (λ s. s ≢ shape_of p) (map shape_of qs) ↔ All (λ q. ¬ SameShape q p) qs
All-apart p [] h k = (λ e. tt, λ e. tt)
All-apart p (q ∷ qs) h k =
    let (to, from) = All-apart p qs h k.1 in
    let (same, spelled) = shape_of-SameShape_iff q p k.0 h in
    (λ e. (λ one. e.0 (spelled one), to e.1), λ e. (λ one. e.0 (same one), from e.1))

IsDistinct-AreApart :
    (ps : List (List Segment)) → All (All IsPlain) ps → IsDistinct (map shape_of ps) ↔ AreApart ps
IsDistinct-AreApart [] h = (λ e. tt, λ e. tt)
IsDistinct-AreApart (p ∷ ps) h =
    let (to, from) = All-apart p ps h.0 h.1 in
    let (apart, distinct) = IsDistinct-AreApart ps h.1 in
    (λ e. (to e.0, apart e.1), λ e. (from e.0, distinct e.1))

module _ (segments_of : Text → List Segment) where
  -- The patterns of the addressable leaves, in order.
  abbrev pub patterns_cons : Option Text → List (List Segment) → List (List Segment)
  patterns_cons none rest = rest
  patterns_cons (some link) rest = segments_of link ∷ rest

  abbrev pub patterns : List Leaf → List (List Segment)
  patterns [] = []
  patterns (leaf ∷ rest) = patterns_cons leaf.link (patterns rest)

  patterns-cons_map :
      (link : Option Text) (rest : List (List Segment))
      → map shape_of (patterns_cons link rest) ≡ shapes_cons segments_of link (map shape_of rest)
  patterns-cons_map none rest = refl
  patterns-cons_map (some link) rest = refl

  map-patterns : (leaves : List Leaf) → map shape_of (patterns leaves) ≡ shapes segments_of leaves
  map-patterns [] = refl
  map-patterns (leaf ∷ rest) =
      patterns-cons_map leaf.link (patterns rest)
      ∙ ap (shapes_cons segments_of leaf.link) (map-patterns rest)

  -- Where no literal of a declared pattern is empty, has a slash in it, or is one star, build returns a tree
  -- exactly when no two addressable leaves have patterns of one shape: as long, with the same literals
  -- at the same places and captures, of whatever name, at the same places.
  pub build-AreApart :
      (leaves : List Leaf)
      → All (All IsPlain) (patterns leaves)
      → ((root : MatchNode) × (build segments_of leaves ≡ tree root)) ↔ AreApart (patterns leaves)
  build-AreApart leaves plain =
      let (to, from) = build-tree_iff segments_of leaves in
      let (apart, distinct) = IsDistinct-AreApart (patterns leaves) plain in
      (
        λ t. apart (subst IsDistinct (sym (map-patterns leaves)) (to t)),
        λ a. from (subst IsDistinct (map-patterns leaves) (distinct a)),
      )
