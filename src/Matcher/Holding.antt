-- ===== src/Matcher/Holding.antt =====
-- What the tree of `build` of crates/guinea-route-dsl/src/matcher.rs holds: the addressable leaves and
-- nothing else.
use guinea.Base.{
  ◌≡◌, ◌≢◌, refl, ap, sym, ◌∙◌, subst, ◌⊎◌, inl, inr, ◌↔◌, Option, none, some, List, [], ◌∷◌, Text,
  same_text_iff, Any, here, there, Any-item, Any-intro, Option-cases, arith,
}
use guinea.Tree.{TypeName, Segment, Leaf}
use guinea.Matcher.{
  match_leaf, empty, insert, shape_of, claimed_by, tree, MatchNode, Folding, fold_linked, fold_link,
  fold_leaves, build,
}
use guinea.Matcher.Entries.{Entry, entries}
use guinea.Matcher.Contents.{insert-adds, insert-has, insert-keeps}
use guinea.Matcher.Building.{
  tree-nothing, start, fold_leaves-found, append-ne-nil, claimed_by-append,
}

module _ (segments_of : Text → List Segment) where
  -- A leaf with an address, and what holds of its pattern.
  abbrev pub Linked : (Entry → Type 0) → Leaf → Type 0
  Linked P leaf = (link : Text) × (leaf.link ≡ some link) × P (segments_of link, match_leaf leaf)

  fold_linked_sound :
      (P : Entry → Type 0) (leaf : Leaf) (segments : List Segment) (first : Option TypeName)
      (st : Folding)
      → Any P (entries (fold_linked leaf segments first st).root)
      → P (segments, match_leaf leaf) ⊎ Any P (entries st.root)
  fold_linked_sound P leaf segments none st a = insert-adds segments (match_leaf leaf) P st.root a
  fold_linked_sound P leaf segments (some first) st a = inr a

  fold_leaves_sound :
      (P : Entry → Type 0) (leaves : List Leaf) (st : Folding)
      → Any P (entries (fold_leaves segments_of leaves st).root)
      → Any (Linked P) leaves ⊎ Any P (entries st.root)
  unfolding fold_leaves fold_link
  fold_leaves_sound P [] st a = inr a
  fold_leaves_sound P (leaf ∷ rest) st a = elim (Option-cases leaf.link) [
    | inl plain ↦ elim (fold_leaves_sound P rest _ a) [
      | inl later ↦ inl (there later)
      | inr before ↦ inr (rw (plain, fold_link) at before)
    ]
    | inr (link, linked) ↦ elim (fold_leaves_sound P rest _ a) [
      | inl later ↦ inl (there later)
      | inr before ↦
          elim (fold_linked_sound P leaf (segments_of link) _ st
            (rw (linked, fold_link) at before)) [
              | inl new ↦ inl (here (link, linked, new))
              | inr old ↦ inr old
            ]
    ]
  ]

  -- The patterns of every state are claimed.
  abbrev IsClaimed : Folding → Type 0
  IsClaimed st =
      (e : Entry) → Any (λ x. x ≡ e) (entries st.root) → claimed_by (shape_of e.0) st.claimed ≢ none

  fold_linked-IsClaimed :
      (leaf : Leaf) (segments : List Segment) (st : Folding) (first : Option TypeName)
      → IsClaimed st
      → IsClaimed (fold_linked leaf segments first st)
  fold_linked-IsClaimed leaf segments st (some earlier) h e a = h e a
  fold_linked-IsClaimed leaf segments st none h e a =
      elim (insert-adds segments (match_leaf leaf) (λ x. x ≡ e) st.root a) [
        | inl new ↦ ground (
          arith,
          claimed_by-append (shape_of e.0) (shape_of segments) leaf.ty st.claimed,
          same_text_iff (shape_of segments) (shape_of e.0),
          ap (λ (x : Entry). shape_of x.0) new,
        )
        | inr old ↦ ground (
          arith,
          claimed_by-append (shape_of e.0) (shape_of segments) leaf.ty st.claimed,
          h e old,
        )
      ]

  -- A pattern of a new shape overwrites none.
  fold_linked-keeps :
      (P : Entry → Type 0) (leaf : Leaf) (segments : List Segment) (st : Folding)
      → IsClaimed st
      → claimed_by (shape_of segments) st.claimed ≡ none
      → Any P (entries st.root)
      → Any P (entries (insert segments (match_leaf leaf) st.root))
  fold_linked-keeps P leaf segments st h new a =
      let (e, listed, p) = Any-item a in
      insert-keeps segments (match_leaf leaf) P st.root (
        Any-intro listed
          (p, λ same. h e listed (ap (λ s. claimed_by (shape_of s) st.claimed) same ∙ new)))

  -- What a leaf with an address does, where it reports nothing.
  linked_keeps :
      (P : Entry → Type 0) (leaf : Leaf) (segments : List Segment) (st : Folding)
      (first : Option TypeName)
      → claimed_by (shape_of segments) st.claimed ≡ first
      → IsClaimed st
      → (fold_linked leaf segments first st).found ≡ []
      → Any P (entries st.root) ⊎ P (segments, match_leaf leaf)
      → Any P (entries (fold_linked leaf segments first st).root)
  linked_keeps P leaf segments st (some earlier) q h e a = absurd (append-ne-nil st.found _ e)
  linked_keeps P leaf segments st none q h e (inl a) = fold_linked-keeps P leaf segments st h q a
  linked_keeps P leaf segments st none q h e (inr p) =
      insert-has segments (match_leaf leaf) P st.root p

  abbrev Asked : (Entry → Type 0) → Leaf → Option Text → Type 0
  Asked P leaf none = ⊥
  Asked P leaf (some link) = P (segments_of link, match_leaf leaf)

  link_keeps :
      (P : Entry → Type 0) (leaf : Leaf) (link : Option Text) (st : Folding)
      → IsClaimed st
      → (fold_link segments_of leaf link st).found ≡ []
      → Any P (entries st.root) ⊎ Asked P leaf link
      → Any P (entries (fold_link segments_of leaf link st).root)
  unfolding fold_link
  link_keeps P leaf none st h e (inl a) = a
  link_keeps P leaf none st h e (inr p) = absurd p
  link_keeps P leaf (some link) st h e a = linked_keeps P leaf (segments_of link) st _ refl h e a

  link_IsClaimed :
      (leaf : Leaf) (link : Option Text) (st : Folding)
      → IsClaimed st
      → IsClaimed (fold_link segments_of leaf link st)
  unfolding fold_link
  link_IsClaimed leaf none st h = h
  link_IsClaimed leaf (some link) st h = fold_linked-IsClaimed leaf (segments_of link) st _ h

  Asked-intro : (P : Entry → Type 0) (leaf : Leaf) → Linked P leaf → Asked P leaf leaf.link
  Asked-intro P leaf (link, linked, p) = subst (Asked P leaf) (sym linked) p

  fold_leaves-keeps :
      (P : Entry → Type 0) (leaves : List Leaf) (st : Folding)
      → IsClaimed st
      → (fold_leaves segments_of leaves st).found ≡ []
      → Any P (entries st.root) ⊎ Any (Linked P) leaves
      → Any P (entries (fold_leaves segments_of leaves st).root)
  unfolding fold_leaves
  fold_leaves-keeps P [] st h e (inl a) = a
  fold_leaves-keeps P [] st h e (inr a) = elim a [ ]
  fold_leaves-keeps P (leaf ∷ rest) st h e a =
      let after = fold_link segments_of leaf leaf.link st in
      let nothing = ((fold_leaves-found segments_of rest after).0 e).0 in
      fold_leaves-keeps P rest after (link_IsClaimed leaf leaf.link st h) e
        (split a (λ b. link_keeps P leaf leaf.link st h nothing b))
    where
      split :
          Any P (entries st.root) ⊎ Any (Linked P) (leaf ∷ rest)
          → (Any P (entries st.root) ⊎ Asked P leaf leaf.link
              → Any P (entries (fold_link segments_of leaf leaf.link st).root))
          → Any P (entries (fold_link segments_of leaf leaf.link st).root) ⊎ Any (Linked P) rest
      split (inl b) k = inl (k (inl b))
      split (inr (here p)) k = inl (k (inr (Asked-intro P leaf p)))
      split (inr (there b)) k = inr b

  -- A tree that is built holds the addressable leaves, each with its pattern, and nothing else.
  pub build-entries :
      (P : Entry → Type 0) (leaves : List Leaf) {root : MatchNode}
      → build segments_of leaves ≡ tree root
      → Any P (entries root) ↔ Any (Linked P) leaves
  unfolding build entries
  build-entries P leaves {root} e =
      let (nothing, same) =
        tree-nothing segments_of (fold_leaves segments_of leaves (start segments_of)) e in
      (
        λ a. only (fold_leaves_sound P leaves (start segments_of) (rw (← same) at a)),
        λ a.
            rw (← same)
              (fold_leaves-keeps P leaves (start segments_of) (λ x b. elim b [ ]) nothing (inr a)),
      )
    where
      only : Any (Linked P) leaves ⊎ Any P (entries empty) → Any (Linked P) leaves
      only (inl a) = a
      only (inr a) = elim a [ ]
