-- ===== src/Matcher/Parsing.antt =====
-- The generated `parse` of crates/guinea-route-dsl/src/matcher.rs against the declaration: it
-- answers with a declared page whose pattern matches, and misses none.
use guinea.Base.{
  ◌≡◌, ◌≢◌, refl, ap, sym, ◌∙◌, true, Option, none, some, List, [], ◌∷◌, Text, Any, here, there,
  Any-map, fun_ext, arith,
}
use guinea.Tree.{TypeName, Segment, Leaf}
use guinea.Matcher.{MatchNode, node, end, match_leaf, tree, build}
use guinea.Matcher.Walk.{Route, first, walk, parts_of, is_empty, parse}
use guinea.Matcher.Entries.{Entry, entries, find_map, attempt_entry, walk-eq}
use guinea.Matcher.Answer.{answer, attempt-answer}
use guinea.Matcher.Holding.{build-entries}

module _ {ℓ κ} {A : Type ℓ} {B : Type κ} (f : A → Option B) where
  find_map-some : (xs : List A) {b : B} → find_map f xs ≡ some b → Any (λ x. f x ≡ some b) xs
  unfolding find_map
  find_map-some [] e = cc
  find_map-some (x ∷ xs) {b} e = step (f x) refl (find_map-some xs) e
    where
      step :
          (o : Option B)
          → f x ≡ o
          → (find_map f xs ≡ some b → Any (λ y. f y ≡ some b) xs)
          → first o (find_map f xs) ≡ some b
          → Any (λ y. f y ≡ some b) (x ∷ xs)
      step none p ih q = there (ih q)
      step (some c) p ih q = here (p ∙ q)

  find_map-ne-none : (xs : List A) → Any (λ x. f x ≢ none) xs → find_map f xs ≢ none
  unfolding find_map
  find_map-ne-none [] a = elim a [ ]
  find_map-ne-none (x ∷ xs) (here p) = found (f x) p
    where
      found : (o : Option B) → o ≢ none → first o (find_map f xs) ≢ none
      found none q = absurd (q refl)
      found (some c) q = cc
  find_map-ne-none (x ∷ xs) (there a) = later (f x) (find_map-ne-none xs a)
    where
      later : (o : Option B) → find_map f xs ≢ none → first o (find_map f xs) ≢ none
      later none q = q
      later (some c) q = cc

module _ {V : Type 0} (decode : TypeName → Text → Text → Option V) where
  empty-walk :
      (n : MatchNode) (parts : List Text) → is_empty n ≡ true → walk decode parts n 0 [] ≡ none
  unfolding walk
  empty-walk (node end end none) parts e = refl
  empty-walk n parts e = cc

  parse-walk :
      (n : MatchNode) (path : Text) → parse decode n path ≡ walk decode (parts_of path) n 0 []
  unfolding parse
  parse-walk n path = ground (arith, empty-walk n (parts_of path))

  attempt_answer :
      (parts : List Text)
      → attempt_entry decode parts 0 [] ≡ (λ (e : Entry). answer decode e.0 e.1 parts)
  attempt_answer parts = fun_ext (λ e. attempt-answer decode parts e.0 e.1)

  parse-eq :
      (n : MatchNode) (path : Text)
      → parse decode n path
        ≡ find_map (λ (e : Entry). answer decode e.0 e.1 (parts_of path)) (entries n)
  parse-eq n path =
      parse-walk n path
      ∙ (walk-eq decode (parts_of path) n 0 []
          ∙ ap (λ f. find_map f (entries n)) (attempt_answer (parts_of path)))

module _ (segments_of : Text → List Segment) {V : Type 0}
    (decode : TypeName → Text → Text → Option V) where
  -- What one declared page answers on a path, as its own declaration says it.
  abbrev answer_link : Leaf → Option Text → Text → Option (Route V)
  answer_link leaf none path = none
  answer_link leaf (some link) path =
      answer decode (segments_of link) (match_leaf leaf) (parts_of path)

  abbrev pub answer_of : Leaf → Text → Option (Route V)
  answer_of leaf path = answer_link leaf leaf.link path

  -- Whatever `parse` returns is the answer of a declared page whose own pattern matches the path.
  pub parse_sound :
      (leaves : List Leaf) {root : MatchNode} (path : Text) {route : Route V}
      → build segments_of leaves ≡ tree root
      → parse decode root path ≡ some route
      → Any (λ leaf. answer_of leaf path ≡ some route) leaves
  parse_sound leaves {root} path {route} built e =
      Any-map (λ leaf linked. ap (λ l. answer_link leaf l path) linked.1 ∙ linked.2)
        ((build-entries segments_of (λ x. answer decode x.0 x.1 (parts_of path) ≡ some route) leaves
            built).0
          (find_map-some _ (entries root) (sym (parse-eq decode root path) ∙ e)))

  -- Where some declared page answers, `parse` does: the walk gives up no branch too early.
  pub parse_complete :
      (leaves : List Leaf) {root : MatchNode} (path : Text)
      → build segments_of leaves ≡ tree root
      → Any (λ leaf. answer_of leaf path ≢ none) leaves
      → parse decode root path ≢ none
  parse_complete leaves {root} path built a = rw (parse-eq decode root path) (
      find_map-ne-none _ (entries root) (
        (build-entries segments_of (λ x. answer decode x.0 x.1 (parts_of path) ≢ none) leaves
            built).1
          (Any-map (λ leaf. linked leaf leaf.link refl) a)))
    where
      linked :
          (leaf : Leaf) (link : Option Text)
          → leaf.link ≡ link
          → answer_link leaf link path ≢ none
          → (l : Text) × (leaf.link ≡ some l)
            × (answer decode (segments_of l) (match_leaf leaf) (parts_of path) ≢ none)
      linked leaf none e n = absurd (n refl)
      linked leaf (some l) e n = (l, e, n)
