-- ===== src/Router/Outcome.antt =====
-- What stands after `Router::build` and `Router::install_from` of crates/guinea-router/src/router.rs.
use guinea.Base.{
  ℕ, zero, suc, ◌+◌, ◌≤◌, ◌≡◌, refl, ap, ◌∙◌, subst, Option, none, some, List, [], ◌∷◌, ◌++◌,
  length, length-append, get_elem?, drop, arith,
}
use guinea.Router.Chain.{SegmentEntry}
use guinea.Router.Host.{Host}
use guinea.Router.Leaving.{Chains, first_of, tear_down}
use guinea.Router.Install.{
  BuildResult, built, failed, panicked, wakeable, install_new, Next, after_install, after_wakeable,
  build_from, build,
}
use guinea.Router.Standing.{build_from-active}

module _ {ℓ} {A : Type ℓ} where
  first_of-append : (xs ys : List A) → first_of (length xs) (xs ++ ys) ≡ xs
  first_of-append [] ys = refl
  first_of-append (x ∷ xs) ys = ap (λ zs. x ∷ zs) (first_of-append xs ys)

  first_of-concat : (n : ℕ) (xs ys : List A) → n ≤ length xs → first_of n (xs ++ ys) ≡ first_of n xs
  first_of-concat zero xs ys h = refl
  first_of-concat (suc n) [] ys h = absurd (omega arith)
  first_of-concat (suc n) (x ∷ xs) ys h = ap (λ zs. x ∷ zs) (first_of-concat n xs ys (omega arith))

  pub length-first_of : (n : ℕ) (xs : List A) → n ≤ length xs → length (first_of n xs) ≡ n
  length-first_of zero xs h = refl
  length-first_of (suc n) [] h = absurd (omega arith)
  length-first_of (suc n) (x ∷ xs) h = omega (arith, length-first_of n xs (omega arith))

  first_of-length : (xs : List A) → first_of (length xs) xs ≡ xs
  first_of-length [] = refl
  first_of-length (x ∷ xs) = ap (λ zs. x ∷ zs) (first_of-length xs)

  get_elem?-some : (xs : List A) (i : ℕ) → suc i ≤ length xs → (x : A) × (get_elem? xs i ≡ some x)
  get_elem?-some [] i h = absurd (omega arith)
  get_elem?-some (x ∷ xs) zero h = (x, refl)
  get_elem?-some (x ∷ xs) (suc i) h = get_elem?-some xs i (omega arith)

  length-drop_add : (n : ℕ) (xs : List A) → n ≤ length xs → n + length (drop n xs) ≡ length xs
  length-drop_add zero xs h = omega arith
  length-drop_add (suc n) [] h = absurd (omega arith)
  length-drop_add (suc n) (x ∷ xs) h = omega (arith, length-drop_add n xs (omega arith))

-- What `build` may give on a chain of so many segments, when some scopes stood before: a chain of
-- scopes as long that starts with those, or, on an error, just those. No panic.
abbrev pub Outcome : {Scope Error : Type 0} → List Scope → ℕ → BuildResult Scope Error → Type 0
Outcome keep n (built scopes) = (first_of (length keep) scopes ≡ keep) × (length scopes ≡ n)
Outcome keep n (failed error kept) = kept ≡ keep
Outcome keep n panicked = ⊥

module _ {P Scope States Error World : Type 0} (host : Host P Scope States Error World) where
  move_length :
      (keep : List Scope) (r : BuildResult Scope Error) {a b : ℕ}
      → a ≡ b
      → Outcome keep a r
      → Outcome keep b r
  move_length keep r e = subst (λ n. Outcome keep n r) e

  -- Scopes that start with those that are to stay.
  abbrev StartsWith : List Scope → List Scope → Type 0
  StartsWith keep scopes = (length keep ≤ length scopes) × (first_of (length keep) scopes ≡ keep)

  StartsWith-concat :
      (keep scopes : List Scope) (scope : Scope)
      → StartsWith keep scopes
      → StartsWith keep (scopes ++ scope ∷ [])
  StartsWith-concat keep scopes scope h = (
    omega (arith, h.0, length-append scopes (scope ∷ [])),
    first_of-concat (length keep) scopes (scope ∷ []) h.0 ∙ h.1,
  )

  -- The rest of a loop gives an outcome, from scopes that start with those that are to stay.
  abbrev GoesOn : List Scope → ℕ → ℕ → Next host → Type 0
  GoesOn keep at n next =
      (scopes : List Scope) (st : Chains P Scope States World)
      → StartsWith keep scopes
      → length scopes ≡ at
      → Outcome keep n (next scopes st).0

  length-concat :
      (scopes : List Scope) (scope : Scope) (at : ℕ)
      → length scopes ≡ at
      → length (scopes ++ scope ∷ []) ≡ at + 1
  length-concat scopes scope at e = omega (arith, e, length-append scopes (scope ∷ []))

  after_install-Outcome :
      (keep : List Scope) (at n : ℕ) (scopes : List Scope) (scope : Scope) (o : Option Error)
      (st : Chains P Scope States World) (next : Next host)
      → GoesOn keep (at + 1) n next
      → StartsWith keep scopes
      → length scopes ≡ at
      → Outcome keep n (after_install host (length keep) scopes (scope, o, st) next).0
  unfolding tear_down
  after_install-Outcome keep at n scopes scope none st next k h e =
      k (scopes ++ scope ∷ []) st (StartsWith-concat keep scopes scope h)
        (length-concat scopes scope at e)
  after_install-Outcome keep at n scopes scope (some error) st next k h e =
      (StartsWith-concat keep scopes scope h).1

  after_wakeable-Outcome :
      (chain : List (SegmentEntry P)) (index : ℕ) (entry : SegmentEntry P) (captured : P)
      (keep : List Scope) (at n : ℕ) (scopes : List Scope) (o : Option Scope)
      (st : Chains P Scope States World) (next : Next host)
      → GoesOn keep (at + 1) n next
      → StartsWith keep scopes
      → length scopes ≡ at
      → Outcome keep n
          (after_wakeable host chain index entry captured (length keep) scopes (o, st) next).0
  after_wakeable-Outcome chain index entry captured keep at n scopes (some asleep) st next k h e =
      k (scopes ++ asleep ∷ []) st (StartsWith-concat keep scopes asleep h)
        (length-concat scopes asleep at e)
  after_wakeable-Outcome chain index entry captured keep at n scopes none st next k h e =
      let (scope, error, after) = install_new host chain index entry captured scopes st in
      after_install-Outcome keep at n scopes scope error after next k h e

  build_from-Outcome :
      (chain : List (SegmentEntry P)) (params : List P) (keep : List Scope) (at : ℕ)
      (rest : List (SegmentEntry P))
      → at + length rest ≤ length params
      → GoesOn keep at (at + length rest) (build_from host chain params (length keep) at rest)
  unfolding build_from
  build_from-Outcome chain params keep at [] l scopes st h e = (h.1, omega (arith, e))
  build_from-Outcome chain params keep at (entry ∷ rest) l scopes st h e =
      let (captured, there) = get_elem?-some params at (omega arith) in
      let (woken, after) = wakeable host chain at entry scopes captured st in
      let same : at + 1 + length rest ≡ at + length (entry ∷ rest) = omega arith in
      rw there (
        after_wakeable-Outcome chain at entry captured keep at (at + length (entry ∷ rest)) scopes
          woken after _
          (λ more st' h' e'.
            move_length keep _ same
              (build_from-Outcome chain params keep (at + 1) rest (omega arith) more st' h' e'))
          h e)

  -- Building below some scopes gives a chain of scopes that starts with those, one for each segment;
  -- on a failure just those stand again. Where each segment has its params, it never panics.
  pub build-Outcome :
      (chain : List (SegmentEntry P)) (scopes : List Scope) (params : List P)
      (st : Chains P Scope States World)
      → length scopes ≤ length chain
      → length chain ≤ length params
      → Outcome scopes (length chain) (build host chain scopes params st).0
  unfolding build
  build-Outcome chain scopes params st h l =
      let all = length-drop_add (length scopes) chain h in
      move_length scopes _ all (
        build_from-Outcome chain params scopes (length scopes) (drop (length scopes) chain)
          (omega (arith, all, l)) scopes st (omega arith, first_of-length scopes) refl)

  -- Building leaves the active chain alone.
  pub build-active :
      (chain : List (SegmentEntry P)) (scopes : List Scope) (params : List P)
      (st : Chains P Scope States World)
      → (build host chain scopes params st).1.active ≡ st.active
  unfolding build
  build-active chain scopes params st =
      build_from-active host chain params (length scopes) (length scopes)
        (drop (length scopes) chain) scopes st
