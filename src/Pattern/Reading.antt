-- ===== src/Pattern/Reading.antt =====
-- What `parse_pattern` of crates/guinea-route-dsl/src/lib.rs reads.
use guinea.Base.{
  ℕ, zero, suc, ◌≡◌, ◌≢◌, refl, ap, sym, ◌∙◌, ◌<◌, inl, inr, Option, none, some, List, [], ◌∷◌,
  ◌++◌, Text, length, All, arith, append_assoc, length-append,
}
use guinea.Tree.{Segment}
use guinea.Pattern.Combinators.{Winnow}
use guinea.Pattern.{found_all, read_trimmed, trim_slashes, trim_start, trim_end, parse_pattern}
use guinea.Pattern.Segments.{
  read_segment, after_one, after_one-some, read_all, separated-eq, read_segment-spell, IsSpelled,
  spell,
}
use guinea.Pattern.Trimming.{
  body, StopsHere, StartsPlain, body-first, trim_end-body, trim_end-StopsHere, trim_start-plain,
  trim_start-cases, trim_end-plain,
}

read_all-body :
    (x : Segment) (segments : List Segment) (rest : Text) (n : ℕ)
    → All IsSpelled (x ∷ segments)
    → StopsHere rest
    → length (body (x ∷ segments) ++ rest) < n
    → read_all n (body (x ∷ segments) ++ rest) ≡ some (x ∷ segments, rest)
unfolding read_all
read_all-body x segments rest zero h e l = absurd (omega arith)
read_all-body x [] [] (suc n) h e l = rw (read_segment-spell x [] h.0 tt, read_all)
read_all-body x [] (c ∷ []) (suc n) h e l = absurd e
read_all-body x [] (c ∷ d ∷ rest) (suc n) h e l =
    rw (read_segment-spell x (c ∷ d ∷ rest) h.0 e.0, read_all) (stopped n c d rest e.0 e.1)
  where
    stopped :
        (n c d : ℕ) (rest : Text)
        → c ≡ b'/'
        → d ≡ b'/'
        → after_one x (c ∷ d ∷ rest) (read_all n) ≡ some (x ∷ [], c ∷ d ∷ rest)
    stopped zero c d rest p q = ground arith
    stopped (suc n) c d rest p q = ground arith
read_all-body x (y ∷ segments) rest (suc n) h e l = rw (
  append_assoc (spell x) (b'/' ∷ body (y ∷ segments)) rest,
  read_segment-spell x (b'/' ∷ (body (y ∷ segments) ++ rest)) h.0 refl,
  read_all,
  read_all-body y segments rest n h.1 e (
      omega (
        arith,
        rw (append_assoc (spell x) (b'/' ∷ body (y ∷ segments)) rest) at l,
        length-append (spell x) (b'/' ∷ (body (y ∷ segments) ++ rest)),
      )),
)

read_trimmed-plain :
    (w : Winnow) (s : Text)
    → StartsPlain s
    → read_trimmed w s ≡ found_all (read_all (suc (length s)) s)
unfolding read_trimmed
read_trimmed-plain w s (c, t, same, other) =
    rw same (ap found_all (separated-eq w (suc (length (c ∷ t))) (c ∷ t) (omega arith)))

found_all-none : (o : Option (List Segment × Text)) → found_all o ≡ none → o ≡ none
found_all-none none e = refl
found_all-none (some (xs, rest)) e = cc

read_all-plain : (n : ℕ) (s : Text) → StartsPlain s → found_all (read_all (suc n) s) ≢ none
unfolding read_all
read_all-plain n s (c, t, same, other) =
    rw same (λ e. missing (read_segment (c ∷ t)) refl (ground arith) e)
  where
    missing :
        (o : Option (Segment × Text))
        → read_segment (c ∷ t) ≡ o
        → o ≢ none
        → found_all (read_all (suc n) (c ∷ t)) ≢ none
    missing none p q = absurd (q refl)
    missing (some (x, rest)) p q =
        rw (p, read_all) (λ e. after_one-some x rest (read_all n) (found_all-none _ e))

-- A declared pattern, with one slash in front, reads as the segments that it spells. From an empty
-- segment on (two slashes in a row) whatever follows is dropped without a word.
pub parse_pattern-body :
    (w : Winnow) (x : Segment) (segments : List Segment) (rest : Text)
    → All IsSpelled (x ∷ segments)
    → StopsHere rest
    → parse_pattern w (b'/' ∷ (body (x ∷ segments) ++ rest)) ≡ some (x ∷ segments)
unfolding parse_pattern
parse_pattern-body w x segments rest h e =
    let (c, t, same, other) = body-first x segments h.0 in
    let left = trim_end rest in
    let full = body (x ∷ segments) ++ left in
    ap (read_trimmed w) (
      ap trim_end (trim_start-plain (body (x ∷ segments) ++ rest) (c, t ++ rest, rw same, other))
      ∙ trim_end-body x segments rest h)
    ∙ (read_trimmed-plain w full (c, t ++ left, rw same, other)
        ∙ ap found_all (
            read_all-body x segments left (suc (length full)) h (trim_end-StopsHere rest e)
              (omega arith)))

-- No pattern makes the reading panic.
pub parse_pattern-ne-none : (w : Winnow) (pattern : Text) → parse_pattern w pattern ≢ none
unfolding parse_pattern trim_end
parse_pattern-ne-none w pattern = elim (trim_start-cases pattern) [
  | inl nothing ↦ rw (nothing, trim_slashes, trim_end, read_trimmed) (cc)
  | inr plain ↦ λ e.
      let starts = trim_end-plain (trim_start pattern) plain in
      read_all-plain _ _ starts (sym (read_trimmed-plain w _ starts) ∙ e)
]
