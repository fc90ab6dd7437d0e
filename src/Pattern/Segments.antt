-- ===== src/Pattern/Segments.antt =====
-- `segment` and `separated` of crates/guinea-route-dsl/src/lib.rs with the combinators worked out: the
-- segments of a pattern, read on fuel.
use mathlib.Core.Bool.{false≢true}
use guinea.Base.{
  ℕ, zero, suc, ◌≤◌, ◌≡◌, ◌≢◌, refl, sym, ◌∙◌, ◌<◌, inl, inr, Option, none, some, List, [], ◌∷◌,
  ◌++◌, Text, if◌then◌else◌, ◌==◌, length, All, arith, Bool-cases, Option-cases, ==_iff,
}
use guinea.Tree.{Segment, literal, capture}
use guinea.Pattern.Combinators.{Winnow, span, IsConsuming}
use guinea.Pattern.{is_slash, segment}

-- A text without a slash.
abbrev pub NoSlash : Text → Type 0
NoSlash = All (λ c. c ≢ b'/')

-- The end of a segment: the end of the text, or a slash.
abbrev pub EndsHere : Text → Type 0
EndsHere [] = Unit
EndsHere (c ∷ rest) = c ≡ b'/'

span-append : (s rest : Text) → NoSlash s → EndsHere rest → span is_slash (s ++ rest) ≡ (s, rest)
unfolding span
span-append [] [] h e = refl
span-append [] (c ∷ rest) h e = ground arith
span-append (c ∷ s) rest h e = ground (arith, span-append s rest h.1 e)

span-length : (s : Text) → length (span is_slash s).1 ≤ length s
unfolding span
span-length [] = omega arith
span-length (c ∷ s) = ground (arith, span-length s)

-- A segment that the pattern syntax can spell.
abbrev pub IsSpelled : Segment → Type 0
IsSpelled (literal []) = ⊥
IsSpelled (literal (c ∷ rest)) = (c ≢ b':') × NoSlash (c ∷ rest)
IsSpelled (capture name) = NoSlash name

-- How a segment is written in a pattern.
abbrev pub spell : Segment → Text
spell (literal text) = text
spell (capture name) = b':' ∷ name

-- `segment` with the combinators worked out.
abbrev pub read_segment : Text → Option (Segment × Text)
read_segment [] = none
read_segment (c ∷ rest) =
    if c == b':'
    then some (capture (span is_slash rest).0, (span is_slash rest).1)
    else if c == b'/'
    then none
    else some (literal (c ∷ (span is_slash rest).0), (span is_slash rest).1)

read_segment-IsConsuming : IsConsuming read_segment
read_segment-IsConsuming [] r x e = cc
read_segment-IsConsuming (c ∷ s) r x e = ground (arith, span-length s)

pub read_segment-spell :
    (x : Segment) (rest : Text)
    → IsSpelled x
    → EndsHere rest
    → read_segment (spell x ++ rest) ≡ some (x, rest)
read_segment-spell (literal []) rest h e = absurd h
read_segment-spell (literal (c ∷ t)) rest h e = ground (arith, span-append t rest h.1.1 e)
read_segment-spell (capture name) rest h e = ground (arith, span-append name rest h e)

-- `separated(1.., segment, '/')` worked out, on fuel.
abbrev join_read : Segment → Text → Option (List Segment × Text) → Option (List Segment × Text)
join_read x left none = some (x ∷ [], left)
join_read x left (some (xs, rest)) = some (x ∷ xs, rest)

abbrev pub after_one :
    Segment → Text → (Text → Option (List Segment × Text)) → Option (List Segment × Text)
after_one x [] next = some (x ∷ [], [])
after_one x (d ∷ rest) next =
    if d == b'/' then join_read x (d ∷ rest) (next rest) else some (x ∷ [], d ∷ rest)

pub after_one-some :
    (x : Segment) (rest : Text) (next : Text → Option (List Segment × Text))
    → after_one x rest next ≢ none
after_one-some x [] next = cc
after_one-some x (d ∷ rest) next = ground arith

unfoldable pub read_all : ℕ → Text → Option (List Segment × Text)
read_all zero s = none
read_all (suc n) s = elim (read_segment s) [
  | none ↦ none
  | some (x, rest) ↦ after_one x rest (read_all n)
]

module _ (w : Winnow) where
  open w use {
    take_till, preceded, alt, mapped, separated, take_till_lem, preceded-nil, preceded-cons,
    alt_first, alt_second, mapped_some, mapped_none, separated_none, separated_end, separated_other,
    separated_more,
  }

  take_one :
      (c : ℕ) (s : Text)
      → take_till 1 is_slash (c ∷ s)
        ≡ (if c == b'/' then none else some (c ∷ (span is_slash s).0, (span is_slash s).1))
  unfolding span
  take_one c s = take_till_lem 1 is_slash (c ∷ s) ∙ ground arith

  take_any : (s : Text) → take_till 0 is_slash s ≡ some (span is_slash s)
  take_any s = take_till_lem 0 is_slash s ∙ ground arith

  second :
      (c : ℕ) (s : Text)
      → mapped literal (take_till 1 is_slash) (c ∷ s) ≡ (
          if c == b'/' then none else some (literal (c ∷ (span is_slash s).0), (span is_slash s).1))
  second c s = elim (Bool-cases (c == b'/')) [
    | inl slash ↦ rw slash (mapped_none _ _ _ (take_one c s ∙ rw slash))
    | inr other ↦ rw other (mapped_some _ _ _ _ _ (take_one c s ∙ rw other))
  ]

  segment-eq : (s : Text) → segment w s ≡ read_segment s
  unfolding segment span
  segment-eq [] =
      alt_second _ _ _ (mapped_none _ _ _ (preceded-nil _ _))
      ∙ mapped_none _ _ _ (take_till_lem 1 is_slash [] ∙ ground arith)
  segment-eq (c ∷ s) = elim (Bool-cases (c == b':')) [
    | inl colon ↦ rw colon (
        alt_first _ _ _ _
          (mapped_some _ _ _ _ _ (preceded-cons b':' c _ s ∙ rw colon (take_any s))))
    | inr other ↦
        rw other
          (alt_second _ _ _ (mapped_none _ _ _ (preceded-cons b':' c _ s ∙ rw other)) ∙ second c s)
  ]

  segment-IsConsuming : IsConsuming (segment w)
  segment-IsConsuming s r x e = read_segment-IsConsuming s r x (sym (segment-eq s) ∙ e)

  read_all-none : (n : ℕ) (s : Text) → read_all n s ≡ none → length s < n → segment w s ≡ none
  unfolding read_all
  read_all-none zero s e h = absurd (omega arith)
  read_all-none (suc n) s e h = segment-eq s ∙ failed (read_segment s) refl
    where
      failed : (o : Option (Segment × Text)) → read_segment s ≡ o → read_segment s ≡ none
      failed none p = p
      failed (some (x, rest)) p =
          absurd (after_one-some x rest (read_all n) (rw (p, read_all) at e))

  module _ (n : ℕ) (s : Text) (h : length s < suc n) where
    shorter :
        {x : Segment} {d : ℕ} {rest : Text} → segment w s ≡ some (x, d ∷ rest) → length rest < n
    shorter e = omega (arith, segment-IsConsuming s _ _ e)

    continued :
        (x : Segment) (d : ℕ) (rest : Text)
        → d ≡ b'/'
        → segment w s ≡ some (x, d ∷ rest)
        → length rest < n
        → separated (segment w) b'/' rest ≡ read_all n rest
        → separated (segment w) b'/' s ≡ join_read x (d ∷ rest) (read_all n rest)
    continued x d rest slash e short ih = elim (Option-cases (read_all n rest)) [
      | inl stopped ↦ rw stopped (
          separated_other _ _ _ _ _ _ segment-IsConsuming e
            (λ _. read_all-none n rest stopped short))
      | inr ((xs, left), went) ↦
          rw went (separated_more _ _ _ _ _ _ _ segment-IsConsuming (rw slash at e) (ih ∙ went))
    ]

  -- Enough fuel gives what the combinator gives.
  pub separated-eq : (n : ℕ) (s : Text) → length s < n → separated (segment w) b'/' s ≡ read_all n s
  unfolding read_all
  separated-eq zero s h = absurd (omega arith)
  separated-eq (suc n) s h = elim (Option-cases (read_segment s)) [
    | inl e ↦ rw (e, read_all) (separated_none _ _ _ segment-IsConsuming (segment-eq s ∙ e))
    | inr ((x, rest), e) ↦ rw (e, read_all) (one x rest (segment-eq s ∙ e) (separated-eq n))
  ]
    where
      one :
          (x : Segment) (rest : Text)
          → segment w s ≡ some (x, rest)
          → ((t : Text) → length t < n → separated (segment w) b'/' t ≡ read_all n t)
          → separated (segment w) b'/' s ≡ after_one x rest (read_all n)
      one x [] e ih = separated_end _ _ _ _ segment-IsConsuming e
      one x (d ∷ rest) e ih = elim (Bool-cases (d == b'/')) [
        | inl slash ↦ rw slash (
            continued n s h x d rest ((==_iff _ _).0 slash) e (shorter n s h e)
              (ih rest (shorter n s h e)))
        | inr other ↦ rw other (
            separated_other _ _ _ _ _ _ segment-IsConsuming e
              (λ same. absurd (false≢true (sym other ∙ (==_iff d b'/').1 same))))
      ]
