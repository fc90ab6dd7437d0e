-- ===== src/Matcher/Answer.antt =====
-- What a declared pattern answers on a path, said without the tree: the specification that the walk
-- of crates/guinea-route-dsl/src/matcher.rs is held to.
use guinea.Base.{
  ℕ, zero, suc, ◌+◌, ◌≤◌, Bool, true, false, ◌&&◌, ◌≡◌, refl, Option, none, some, List, [], ◌∷◌,
  ◌++◌, append_assoc, append-nil, Text, same_text, if◌then◌else◌, leb, length, get_elem?, drop,
  arith,
}
use native.Mathlib.Numerals.{add-one}
use guinea.Tree.{TypeName, Segment, literal, capture}
use guinea.Matcher.{MatchLeaf}
use guinea.Matcher.Walk.{Route, collect, depth_of, decode_part, decode_at, decode_fields, route_of}
use guinea.Matcher.Entries.{attempt}

-- A pattern matches a path of the same length, with its literals where they are.
unfoldable pub matches : List Segment → List Text → Bool
matches [] [] = true
matches [] (part ∷ parts) = false
matches (literal text ∷ rest) [] = false
matches (capture name ∷ rest) [] = false
matches (literal text ∷ rest) (part ∷ parts) = same_text part text && matches rest parts
matches (capture name ∷ rest) (part ∷ parts) = matches rest parts

-- The captures with what they took.
unfoldable pub captured : List Segment → List Text → List (Text × Text)
captured (capture name ∷ rest) (part ∷ parts) = (name, part) ∷ captured rest parts
captured (literal text ∷ rest) (part ∷ parts) = captured rest parts
captured _ _ = []

unfoldable pub part_for : Text → List (Text × Text) → Option Text
part_for field [] = none
part_for field ((name, part) ∷ rest) =
    if same_text field name then some part else part_for field rest

module _ {V : Type 0} (decode : TypeName → Text → Text → Option V) where
  -- Each field decoded from the first capture of its name.
  unfoldable pub decode_named : TypeName → List Text → List (Text × Text) → Option (List V)
  decode_named page [] names = some []
  decode_named page (field ∷ rest) names =
      collect (decode_part decode page field (part_for field names)) (decode_named page rest names)

  unfoldable pub answer : List Segment → MatchLeaf → List Text → Option (Route V)
  unfolding matches captured part_for decode_named
  answer segments leaf parts =
      if matches segments parts
      then route_of leaf.ty (decode_named leaf.ty leaf.fields (captured segments parts))
      else none

drop-cons {ℓ} :
    {A : Type ℓ} (d : ℕ) (xs : List A) (x : A) (rest : List A)
    → drop d xs ≡ x ∷ rest
    → (get_elem? xs d ≡ some x) × (drop (suc d) xs ≡ rest) × (suc d ≤ length xs)
drop-cons zero [] x rest e = cc
drop-cons zero (y ∷ xs) x rest e = (cc, cc, omega arith)
drop-cons (suc d) [] x rest e = cc
drop-cons (suc d) (y ∷ xs) x rest e =
    let (here, after, fits) = drop-cons d xs x rest e in (here, after, omega arith)

drop-nil {ℓ} : {A : Type ℓ} (d : ℕ) (xs : List A) → drop d xs ≡ [] → length xs ≤ d
drop-nil zero [] e = omega arith
drop-nil zero (x ∷ xs) e = cc
drop-nil (suc d) [] e = omega arith
drop-nil (suc d) (x ∷ xs) e = omega (arith, drop-nil d xs e)

module _ {V : Type 0} (decode : TypeName → Text → Text → Option V) (parts : List Text) where
  -- The depths that the walk bound and the parts that are there.
  abbrev IsSynced : List (Text × ℕ) → List (Text × Text) → Type 0
  IsSynced [] [] = Unit
  IsSynced ((name, depth) ∷ bound) ((other, part) ∷ names) =
      (name ≡ other) × (get_elem? parts depth ≡ some part) × IsSynced bound names
  IsSynced _ _ = ⊥

  IsSynced-concat :
      (bound : List (Text × ℕ)) (names : List (Text × Text)) (name part : Text) (depth : ℕ)
      → IsSynced bound names
      → get_elem? parts depth ≡ some part
      → IsSynced (bound ++ (name, depth) ∷ []) (names ++ (name, part) ∷ [])
  IsSynced-concat [] [] name part depth s h = (refl, h, tt)
  IsSynced-concat [] (n ∷ names) name part depth s h = absurd s
  IsSynced-concat (b ∷ bound) [] name part depth s h = absurd s
  IsSynced-concat (b ∷ bound) (n ∷ names) name part depth s h =
      (s.0, s.1, IsSynced-concat bound names name part depth s.2 h)

  decode_at-part :
      (page field : Text) (bound : List (Text × ℕ)) (names : List (Text × Text))
      → IsSynced bound names
      → decode_at decode parts page field (depth_of field bound)
        ≡ decode_part decode page field (part_for field names)
  unfolding depth_of part_for
  decode_at-part page field [] [] s = refl
  decode_at-part page field [] (n ∷ names) s = absurd s
  decode_at-part page field (b ∷ bound) [] s = absurd s
  decode_at-part page field ((name, depth) ∷ bound) ((other, part) ∷ names) s =
      ground (arith, decode_at-part page field bound names s.2)

  decode_fields-eq :
      (page : TypeName) (fields : List Text) (bound : List (Text × ℕ)) (names : List (Text × Text))
      → IsSynced bound names
      → decode_fields decode parts page fields bound ≡ decode_named decode page fields names
  unfolding decode_fields decode_named
  decode_fields-eq page [] bound names s = refl
  decode_fields-eq page (field ∷ rest) bound names s =
      rw (decode_at-part page field bound names s, decode_fields-eq page rest bound names s)

  drop-next :
      (depth : ℕ) (part : Text) (rest : List Text)
      → drop depth parts ≡ part ∷ rest
      → (get_elem? parts depth ≡ some part)
        × (drop (depth + 1) parts ≡ rest)
        × (leb (depth + 1) (length parts) ≡ true)
        × (depth + 1 ≤ length parts)
  drop-next depth part rest e =
      let (here, after, fits) = drop-cons depth parts part rest e in
      (here, rw add-one after, ground arith, omega arith)

  attempt-eq :
      (depth : ℕ) (bound : List (Text × ℕ)) (names : List (Text × Text)) (segments : List Segment)
      (leaf : MatchLeaf) (rest : List Text)
      → IsSynced bound names
      → drop depth parts ≡ rest
      → depth ≤ length parts
      → attempt decode parts depth bound segments leaf ≡ (
          if matches segments rest
          then route_of leaf.ty
              (decode_named decode leaf.ty leaf.fields (names ++ captured segments rest))
          else none)
  unfolding attempt matches captured
  attempt-eq depth bound names [] leaf [] s e h =
      rw (append-nil names, decode_fields-eq leaf.ty leaf.fields bound names s)
        (ground (arith, drop-nil depth parts e))
  attempt-eq depth bound names [] leaf (part ∷ rest) s e h =
      ground (arith, drop-next depth part rest e)
  attempt-eq depth bound names (literal text ∷ segments) leaf [] s e h =
      ground (arith, drop-nil depth parts e)
  attempt-eq depth bound names (capture name ∷ segments) leaf [] s e h =
      ground (arith, drop-nil depth parts e)
  attempt-eq depth bound names (literal text ∷ segments) leaf (part ∷ rest) s e h =
      let (here, after, test, fits) = drop-next depth part rest e in
      rw (test, here, attempt-eq (depth + 1) bound names segments leaf rest s after fits)
        (ground arith)
  attempt-eq depth bound names (capture name ∷ segments) leaf (part ∷ rest) s e h =
      let (here, after, test, fits) = drop-next depth part rest e in
      rw (
        test,
        attempt-eq (depth + 1) (bound ++ (name, depth) ∷ []) (names ++ (name, part) ∷ []) segments
            leaf rest (IsSynced-concat bound names name part depth s here) after fits,
        append_assoc names ((name, part) ∷ []) (captured segments rest),
      )

  -- A pattern of the tree, tried by the walk's tests, gives what the specification says.
  pub attempt-answer :
      (segments : List Segment) (leaf : MatchLeaf)
      → attempt decode parts 0 [] segments leaf ≡ answer decode segments leaf parts
  unfolding answer
  attempt-answer segments leaf = attempt-eq 0 [] [] segments leaf parts tt refl (omega arith)
