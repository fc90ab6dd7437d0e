-- ===== src/Matcher/Contents.antt =====
-- What `insert` of crates/guinea-route-dsl/src/matcher.rs does to the patterns that a tree holds.
use guinea.Base.{
  ◌≡◌, ◌≢◌, refl, ◌⊎◌, inl, inr, Option, none, some, List, [], ◌∷◌, map, Text, same_text,
  same_text_iff, Any, here, there, Any-append_left, Any-append_right, Any-append_cases, Bool-cases,
  Any-map, ap₂,
}
use guinea.Tree.{Segment, literal, capture}
use guinea.Matcher.{MatchLeaf, MatchNode, node, Branches, end, branch, empty, at_branch, insert}
use guinea.Matcher.Entries.{Entry, own, under, entries, branch_entries}

Any-under :
    (P : Entry → Type 0) (x : Segment) (es : List Entry)
    → Any P (map (under x) es)
    → Any (λ e. P (under x e)) es
Any-under P x [] a = elim a [ ]
Any-under P x (e ∷ es) (here p) = here p
Any-under P x (e ∷ es) (there a) = there (Any-under P x es a)

under-Any :
    (P : Entry → Type 0) (x : Segment) (es : List Entry)
    → Any (λ e. P (under x e)) es
    → Any P (map (under x) es)
under-Any P x [] a = elim a [ ]
under-Any P x (e ∷ es) (here p) = here p
under-Any P x (e ∷ es) (there a) = there (under-Any P x es a)

no-empty : (P : Entry → Type 0) → Any P (entries empty) → ⊥
unfolding entries
no-empty P a = elim a [ ]

-- What a change of one node does to its patterns, as `insert` does it.
module _ (rest : List Segment) (leaf : MatchLeaf) (change : MatchNode → MatchNode) where
  abbrev Adds : Type 1
  Adds =
      (P : Entry → Type 0) (n : MatchNode)
      → Any P (entries (change n))
      → P (rest, leaf) ⊎ Any P (entries n)

  at_branch-adds :
      (kind : Text → Segment) (name : Text) (P : Entry → Type 0) (bs : Branches)
      → Adds
      → Any P (branch_entries kind (at_branch name change bs))
      → P (kind name ∷ rest, leaf) ⊎ Any P (branch_entries kind bs)
  unfolding entries at_branch
  at_branch-adds kind name P end h a =
      elim (Any-append_cases (map (under (kind name)) (entries (change empty))) a) [
        | inl new ↦ elim (h _ empty (Any-under P (kind name) _ new)) [
          | inl p ↦ inl p
          | inr old ↦ absurd (no-empty _ old)
        ]
        | inr more ↦ elim more [ ]
      ]
  at_branch-adds kind name P (branch other child bs) h a =
      elim (Bool-cases (same_text other name)) [
        | inl same ↦ found (rw ((same_text_iff other name).0 same) refl) (rw (same, at_branch) at a)
        | inr differs ↦ passed (at_branch-adds kind name P bs h) (rw (differs, at_branch) at a)
      ]
    where
      found :
          kind other ≡ kind name
          → Any P (branch_entries kind (branch other (change child) bs))
          → P (kind name ∷ rest, leaf) ⊎ Any P (branch_entries kind (branch other child bs))
      found e b = elim (Any-append_cases (map (under (kind other)) (entries (change child))) b) [
        | inl new ↦ elim (h _ child (Any-under P (kind other) _ new)) [
          | inl p ↦ inl (rw e at p)
          | inr old ↦ inr (Any-append_left _ (under-Any P (kind other) _ old))
        ]
        | inr more ↦ inr (Any-append_right (map (under (kind other)) (entries child)) more)
      ]

      passed :
          (Any P (branch_entries kind (at_branch name change bs))
            → P (kind name ∷ rest, leaf) ⊎ Any P (branch_entries kind bs))
          → Any P (branch_entries kind (branch other child (at_branch name change bs)))
          → P (kind name ∷ rest, leaf) ⊎ Any P (branch_entries kind (branch other child bs))
      passed ih b = elim (Any-append_cases (map (under (kind other)) (entries child)) b) [
        | inl old ↦ inr (Any-append_left _ old)
        | inr more ↦ elim (ih more) [
          | inl p ↦ inl p
          | inr old ↦ inr (Any-append_right (map (under (kind other)) (entries child)) old)
        ]
      ]

  abbrev Has : Type 1
  Has = (P : Entry → Type 0) (n : MatchNode) → P (rest, leaf) → Any P (entries (change n))

  abbrev Keeps : Type 1
  Keeps =
      (P : Entry → Type 0) (n : MatchNode)
      → Any (λ e. P e × (e.0 ≢ rest)) (entries n)
      → Any P (entries (change n))

  at_branch-has :
      (kind : Text → Segment) (name : Text) (P : Entry → Type 0) (bs : Branches)
      → Has
      → P (kind name ∷ rest, leaf)
      → Any P (branch_entries kind (at_branch name change bs))
  unfolding entries at_branch
  at_branch-has kind name P end h p =
      Any-append_left [] (under-Any P (kind name) _ (h (λ e. P (under (kind name) e)) empty p))
  at_branch-has kind name P (branch other child bs) h p = elim (Bool-cases (same_text other name)) [
    | inl same ↦
        rw (same, at_branch)
          (Any-append_left _ (
            under-Any P (kind other) _
              (h (λ e. P (under (kind other) e)) child (rw ((same_text_iff other name).0 same) p))))
    | inr differs ↦
        rw (differs, at_branch)
          (Any-append_right (map (under (kind other)) (entries child))
            (at_branch-has kind name P bs h p))
  ]

  at_branch-keeps :
      (kind : Text → Segment) (name : Text) (P : Entry → Type 0) (bs : Branches)
      → Keeps
      → Any (λ e. P e × (e.0 ≢ kind name ∷ rest)) (branch_entries kind bs)
      → Any P (branch_entries kind (at_branch name change bs))
  unfolding entries at_branch
  at_branch-keeps kind name P end h a = elim a [ ]
  at_branch-keeps kind name P (branch other child bs) h a =
      elim (Bool-cases (same_text other name)) [
        | inl same ↦ rw (same, at_branch) (found ((same_text_iff other name).0 same) a)
        | inr differs ↦ rw (differs, at_branch) (passed (at_branch-keeps kind name P bs h) a)
      ]
    where
      found :
          other ≡ name
          → Any (λ e. P e × (e.0 ≢ kind name ∷ rest)) (branch_entries kind (branch other child bs))
          → Any P (branch_entries kind (branch other (change child) bs))
      found e b = elim (Any-append_cases (map (under (kind other)) (entries child)) b) [
        | inl old ↦ Any-append_left _ (
            under-Any P (kind other) _ (
              h (λ x. P (under (kind other) x)) child
                (Any-map (λ x k. (k.0, λ same. k.1 (ap₂ (λ n r. kind n ∷ r) e same)))
                  (Any-under _ (kind other) _ old))))
        | inr more ↦
            Any-append_right (map (under (kind other)) (entries (change child)))
              (Any-map (λ x k. k.0) more)
      ]

      passed :
          (Any (λ e. P e × (e.0 ≢ kind name ∷ rest)) (branch_entries kind bs)
            → Any P (branch_entries kind (at_branch name change bs)))
          → Any (λ e. P e × (e.0 ≢ kind name ∷ rest)) (branch_entries kind (branch other child bs))
          → Any P (branch_entries kind (branch other child (at_branch name change bs)))
      passed ih b = elim (Any-append_cases (map (under (kind other)) (entries child)) b) [
        | inl old ↦ Any-append_left _ (Any-map (λ x k. k.0) old)
        | inr more ↦ Any-append_right (map (under (kind other)) (entries child)) (ih more)
      ]

-- What a tree holds after an insertion is the new pattern and what it held before.
pub insert-adds :
    (segments : List Segment) (leaf : MatchLeaf) (P : Entry → Type 0) (n : MatchNode)
    → Any P (entries (insert segments leaf n))
    → P (segments, leaf) ⊎ Any P (entries n)
unfolding insert entries
insert-adds [] leaf P (node literals captures old) (here p) = inl p
insert-adds [] leaf P (node literals captures old) (there a) = inr (Any-append_right (own old) a)
insert-adds (literal text ∷ rest) leaf P (node literals captures old) a =
    let change = insert rest leaf in
    elim (Any-append_cases (own old) a) [
      | inl at_node ↦ inr (Any-append_left _ at_node)
      | inr below ↦
          elim (Any-append_cases (branch_entries literal (at_branch text change literals)) below) [
            | inl changed ↦
                elim (at_branch-adds rest leaf change literal text P literals
                  (insert-adds rest leaf) changed) [
                    | inl new ↦ inl new
                    | inr kept ↦ inr (Any-append_right (own old) (Any-append_left _ kept))
                  ]
            | inr other ↦ inr (
                Any-append_right (own old)
                  (Any-append_right (branch_entries literal literals) other))
          ]
    ]
insert-adds (capture name ∷ rest) leaf P (node literals captures old) a =
    let change = insert rest leaf in
    elim (Any-append_cases (own old) a) [
      | inl at_node ↦ inr (Any-append_left _ at_node)
      | inr below ↦ elim (Any-append_cases (branch_entries literal literals) below) [
        | inl other ↦ inr (Any-append_right (own old) (Any-append_left _ other))
        | inr changed ↦
            elim (at_branch-adds rest leaf change capture name P captures (insert-adds rest leaf)
              changed) [
                | inl new ↦ inl new
                | inr kept ↦ inr (
                    Any-append_right (own old)
                      (Any-append_right (branch_entries literal literals) kept))
              ]
      ]
    ]

-- The new pattern is there.
pub insert-has :
    (segments : List Segment) (leaf : MatchLeaf) (P : Entry → Type 0) (n : MatchNode)
    → P (segments, leaf)
    → Any P (entries (insert segments leaf n))
unfolding insert entries
insert-has [] leaf P (node literals captures old) p = here p
insert-has (literal text ∷ rest) leaf P (node literals captures old) p =
    Any-append_right (own old) (
      Any-append_left _ (
        at_branch-has rest leaf (insert rest leaf) literal text P literals (insert-has rest leaf)
          p))
insert-has (capture name ∷ rest) leaf P (node literals captures old) p =
    Any-append_right (own old) (
      Any-append_right (branch_entries literal literals) (
        at_branch-has rest leaf (insert rest leaf) capture name P captures (insert-has rest leaf)
          p))

-- And so is every pattern of another spelling.
pub insert-keeps :
    (segments : List Segment) (leaf : MatchLeaf) (P : Entry → Type 0) (n : MatchNode)
    → Any (λ e. P e × (e.0 ≢ segments)) (entries n)
    → Any P (entries (insert segments leaf n))
unfolding insert entries
insert-keeps [] leaf P (node literals captures old) a = elim (Any-append_cases (own old) a) [
  | inl old_leaf ↦ absurd (own-spelled old old_leaf)
  | inr below ↦ there (Any-map (λ x k. k.0) below)
]
  where
    own-spelled :
        (o : Option MatchLeaf) → Any (λ e. P e × ◌≢◌ {A = List Segment} e.0 []) (own o) → ⊥
    own-spelled none b = elim b [ ]
    own-spelled (some l) (here p) = p.1 refl
    own-spelled (some l) (there b) = elim b [ ]
insert-keeps (literal text ∷ rest) leaf P (node literals captures old) a =
    elim (Any-append_cases (own old) a) [
      | inl kept ↦ Any-append_left _ (Any-map (λ x k. k.0) kept)
      | inr below ↦ elim (Any-append_cases (branch_entries literal literals) below) [
        | inl changed ↦ Any-append_right (own old) (
            Any-append_left _ (
              at_branch-keeps rest leaf (insert rest leaf) literal text P literals
                (insert-keeps rest leaf) changed))
        | inr other ↦ Any-append_right (own old) (
            Any-append_right (branch_entries literal (at_branch text (insert rest leaf) literals))
              (Any-map (λ x k. k.0) other))
      ]
    ]
insert-keeps (capture name ∷ rest) leaf P (node literals captures old) a =
    elim (Any-append_cases (own old) a) [
      | inl kept ↦ Any-append_left _ (Any-map (λ x k. k.0) kept)
      | inr below ↦ elim (Any-append_cases (branch_entries literal literals) below) [
        | inl other ↦ Any-append_right (own old) (Any-append_left _ (Any-map (λ x k. k.0) other))
        | inr changed ↦ Any-append_right (own old) (
            Any-append_right (branch_entries literal literals) (
              at_branch-keeps rest leaf (insert rest leaf) capture name P captures
                (insert-keeps rest leaf) changed))
      ]
    ]
