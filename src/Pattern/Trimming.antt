-- ===== src/Pattern/Trimming.antt =====
-- `trim_matches('/')` of crates/guinea-route-dsl/src/lib.rs on the text of a pattern.
use guinea.Base.{
  ℕ, ◌≡◌, ◌≢◌, refl, ap, sym, ◌∙◌, ◌⊎◌, inl, inr, List, [], ◌∷◌, ◌++◌, Text, ◌==◌, All, arith,
  append_assoc, Bool-cases,
}
use guinea.Tree.{Segment, literal, capture}
use guinea.Pattern.{keep_unless_slash, trim_start, trim_end}
use guinea.Pattern.Segments.{NoSlash, IsSpelled, spell}

-- The text of the pattern that declares some segments, without its first slash.
abbrev pub body : List Segment → Text
body [] = []
body (x ∷ []) = spell x
body (x ∷ y ∷ rest) = spell x ++ b'/' ∷ body (y ∷ rest)

-- What can stand after the part that is read: nothing, or an empty segment.
abbrev pub StopsHere : Text → Type 0
StopsHere [] = Unit
StopsHere (c ∷ []) = ⊥
StopsHere (c ∷ d ∷ rest) = (c ≡ b'/') × (d ≡ b'/')

spell-NoSlash : (x : Segment) → IsSpelled x → NoSlash (spell x)
spell-NoSlash (literal []) h = absurd h
spell-NoSlash (literal (c ∷ t)) h = h.1
spell-NoSlash (capture name) h = (omega arith, h)

-- The first code point of a spelled segment.
spell-first : (x : Segment) → IsSpelled x → (c : ℕ) × (t : Text) × (spell x ≡ c ∷ t) × (c ≢ b'/')
spell-first (literal []) h = absurd h
spell-first (literal (c ∷ t)) h = (c, t, refl, h.1.0)
spell-first (capture name) h = (b':', name, refl, omega arith)

kept : (c : ℕ) (u : Text) → c ≢ b'/' → keep_unless_slash c u ≡ c ∷ u
kept c [] n = ground arith
kept c (d ∷ u) n = refl

trim_end-append : (s t : Text) → NoSlash s → trim_end (s ++ t) ≡ s ++ trim_end t
unfolding trim_end
trim_end-append [] t h = refl
trim_end-append (c ∷ s) t h = rw (trim_end-append s t h.1) (kept c (s ++ trim_end t) h.0)

pub body-first :
    (x : Segment) (segments : List Segment)
    → IsSpelled x
    → (c : ℕ) × (t : Text) × (body (x ∷ segments) ≡ c ∷ t) × (c ≢ b'/')
body-first x [] h = spell-first x h
body-first x (y ∷ segments) h =
    let (c, t, same, other) = spell-first x h in
    (c, t ++ b'/' ∷ body (y ∷ segments), rw same, other)

keep_slash :
    (u v : Text)
    → ((c : ℕ) × (t : Text) × (u ≡ c ∷ t) × (c ≢ b'/'))
    → keep_unless_slash b'/' (u ++ v) ≡ b'/' ∷ (u ++ v)
keep_slash u v (c, t, same, other) = rw same

pub trim_end-body :
    (x : Segment) (segments : List Segment) (rest : Text)
    → All IsSpelled (x ∷ segments)
    → trim_end (body (x ∷ segments) ++ rest) ≡ body (x ∷ segments) ++ trim_end rest
unfolding trim_end
trim_end-body x [] rest h = trim_end-append (spell x) rest (spell-NoSlash x h.0)
trim_end-body x (y ∷ segments) rest h =
    let B = body (y ∷ segments) in
    ap trim_end (append_assoc (spell x) (b'/' ∷ B) rest)
    ∙ (trim_end-append (spell x) (b'/' ∷ (B ++ rest)) (spell-NoSlash x h.0)
        ∙ (ap (λ u. spell x ++ u)
              (ap (keep_unless_slash b'/') (trim_end-body y segments rest h.1)
                ∙ keep_slash B (trim_end rest) (body-first y segments h.1.0))
            ∙ sym (append_assoc (spell x) (b'/' ∷ B) (trim_end rest))))

pub trim_end-StopsHere : (rest : Text) → StopsHere rest → StopsHere (trim_end rest)
unfolding trim_end
trim_end-StopsHere [] e = tt
trim_end-StopsHere (c ∷ []) e = absurd e
trim_end-StopsHere (c ∷ d ∷ rest) e = ends (trim_end rest)
  where
    ends : (u : Text) → StopsHere (keep_unless_slash c (keep_unless_slash d u))
    ends [] = ground arith
    ends (f ∷ u) = e

-- A text whose first code point is there and no slash.
abbrev pub StartsPlain : Text → Type 0
StartsPlain s = (c : ℕ) × (t : Text) × (s ≡ c ∷ t) × (c ≢ b'/')

pub trim_start-plain : (s : Text) → StartsPlain s → trim_start s ≡ s
unfolding trim_start
trim_start-plain [] (c, t, same, other) = refl
trim_start-plain (d ∷ s) (c, t, same, other) = ground arith

pub trim_start-cases : (s : Text) → (trim_start s ≡ []) ⊎ StartsPlain (trim_start s)
unfolding trim_start
trim_start-cases [] = inl refl
trim_start-cases (c ∷ s) = elim (Bool-cases (c == b'/')) [
  | inl slash ↦ rw slash (trim_start-cases s)
  | inr other ↦ rw other (inr (c, s, refl, ground arith))
]

pub trim_end-plain : (s : Text) → StartsPlain s → StartsPlain (trim_end s)
unfolding trim_end
trim_end-plain s (c, t, same, other) = (c, trim_end t, rw same (kept c (trim_end t) other), other)
