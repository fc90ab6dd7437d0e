-- ===== src/Matcher/Names.antt =====
-- The names that a pattern captures, as `captures_of` of crates/guinea-route-dsl/src/matcher.rs lists
-- them, and the tests of `check_fields` on them.
use mathlib.Core.Bool.{false≢true}
use guinea.Base.{
  Bool, true, ◌||◌, ◌≡◌, ◌↔◌, ◌⊎◌, inl, inr, refl, sym, ap, List, [], ◌∷◌, ◌++◌, Text, same_text,
  same_text_iff, same_text_refl, if◌then◌else◌, All, Any, here, there, arith, Bool-cases,
}
use guinea.Tree.{Segment, literal, capture}
use guinea.Matcher.Fields.{FieldError, report, has_name, captures_from}

pub report-eq-nil {ℓ} :
    {A : Type ℓ} (passes : A → Bool) (error : A → FieldError) (xs : List A)
    → (report passes error xs ≡ []) ↔ All (λ x. passes x ≡ true) xs
report-eq-nil passes error [] = (λ e. tt, λ h. refl)
report-eq-nil passes error (x ∷ xs) = elim (Bool-cases (passes x)) [
  | inl ok ↦
      rw ok (
        λ e. (refl, (report-eq-nil passes error xs).0 e),
        λ h. (report-eq-nil passes error xs).1 h.1,
      )
  | inr fails ↦ rw fails (λ e. cc, λ h. absurd (false≢true h.0))
]

pub has_name-append :
    (name : Text) (xs : List Text) (x : Text)
    → has_name name (xs ++ x ∷ []) ≡ (has_name name xs || same_text name x)
has_name-append name [] x = ground arith
has_name-append name (y ∷ xs) x = ground (arith, has_name-append name xs x)

-- A pattern that captures a name.
abbrev pub Captures : List Segment → Text → Type 0
Captures segments name = Any (λ s. s ≡ capture name) segments

pub has_name-captures_from :
    (segments : List Segment) (found : List Text) (name : Text)
    → has_name name (captures_from segments found) ≡ true
    → (has_name name found ≡ true) ⊎ Captures segments name
unfolding captures_from
has_name-captures_from [] found name h = inl h
has_name-captures_from (literal text ∷ rest) found name h =
    elim (has_name-captures_from rest found name h) [ inl old ↦ inl old | inr c ↦ inr (there c) ]
has_name-captures_from (capture other ∷ rest) found name h =
    elim (Bool-cases (has_name other found)) [
      | inl seen ↦ elim (has_name-captures_from rest found name (rw seen at h)) [
        | inl old ↦ inl old
        | inr c ↦ inr (there c)
      ]
      | inr new ↦ elim (has_name-captures_from rest (found ++ other ∷ []) name (rw new at h)) [
        | inl old ↦ elim (Bool-cases (same_text name other)) [
          | inl same ↦ inr (here (ap capture (sym ((same_text_iff name other).0 same))))
          | inr differs ↦ inl (ground (arith, has_name-append name found other))
        ]
        | inr c ↦ inr (there c)
      ]
    ]

pub capture-injective : {a b : Text} → capture a ≡ capture b → a ≡ b
capture-injective e = ap name_of e
  where
    name_of : Segment → Text
    name_of (literal text) = text
    name_of (capture text) = text

pub captures_from-has_name :
    (segments : List Segment) (found : List Text) (name : Text)
    → (has_name name found ≡ true) ⊎ Captures segments name
    → has_name name (captures_from segments found) ≡ true
unfolding captures_from
captures_from-has_name [] found name (inl h) = h
captures_from-has_name [] found name (inr a) = elim a [ ]
captures_from-has_name (literal text ∷ rest) found name (inl h) =
    captures_from-has_name rest found name (inl h)
captures_from-has_name (literal text ∷ rest) found name (inr (here e)) = cc
captures_from-has_name (literal text ∷ rest) found name (inr (there a)) =
    captures_from-has_name rest found name (inr a)
captures_from-has_name (capture other ∷ rest) found name (inl h) =
    captures_from-has_name rest _ name (inl (ground (arith, has_name-append name found other)))
captures_from-has_name (capture other ∷ rest) found name (inr (here e)) =
    captures_from-has_name rest _ name (inl (added (capture-injective e)))
  where
    added :
        other ≡ name
        → has_name name (if has_name other found then found else found ++ other ∷ []) ≡ true
    added e = rw (← e) (ground (arith, has_name-append other found other, same_text_refl other))
captures_from-has_name (capture other ∷ rest) found name (inr (there a)) =
    captures_from-has_name rest _ name (inr a)
