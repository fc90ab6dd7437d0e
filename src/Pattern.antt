-- ===== src/Pattern.antt =====
-- The reading of a route pattern, `parse_pattern` and `segment` of
-- crates/guinea-route-dsl/src/lib.rs. The parser combinators of the package winnow are a
-- parameter, with what its documentation says of the five that the code calls.
pub mod Combinators
pub mod Segments
pub mod Trimming
pub mod Reading
pub mod Plain
pub mod Tests
use guinea.Base.{
  ℕ, Bool, true, false, ◌&&◌, Option, none, some, List, [], ◌∷◌, ◌++◌, Text, if◌then◌else◌, ◌==◌,
}
use guinea.Tree.{Segment, literal, capture}
use Combinators.{Winnow, Parser}

-- `str::trim_matches('/')`
unfoldable pub trim_start : Text → Text
trim_start [] = []
trim_start (c ∷ rest) = if c == b'/' then trim_start rest else c ∷ rest

abbrev pub keep_unless_slash : ℕ → Text → Text
keep_unless_slash c [] = if c == b'/' then [] else c ∷ []
keep_unless_slash c (d ∷ rest) = c ∷ d ∷ rest

unfoldable pub trim_end : Text → Text
trim_end [] = []
trim_end (c ∷ rest) = keep_unless_slash c (trim_end rest)

unfoldable pub trim_slashes : Text → Text
unfolding trim_start trim_end
trim_slashes pattern = trim_end (trim_start pattern)

abbrev pub is_slash : ℕ → Bool
is_slash c = c == b'/'

abbrev pub found_all : Option (List Segment × Text) → Option (List Segment)
found_all none = none
found_all (some (segments, rest)) = some segments

module _ (w : Winnow) where
  open w use {take_till, preceded, alt, mapped, separated}

  -- `segment`
  unfoldable pub segment : Parser Segment
  segment =
      alt (mapped capture (preceded b':' (take_till 0 is_slash)))
        (mapped literal (take_till 1 is_slash))

  pub read_trimmed : Text → Option (List Segment)
  read_trimmed [] = some []
  read_trimmed (c ∷ rest) = found_all (separated segment b'/' (c ∷ rest))

  -- `parse_pattern`; `none` is its panic. What `separated` leaves unread is dropped.
  unfoldable pub parse_pattern : Text → Option (List Segment)
  unfolding trim_slashes read_trimmed
  parse_pattern pattern = read_trimmed (trim_slashes pattern)

  -- The patterns of the other modules: a pattern never panics (`Pattern.Reading`).
  abbrev pub segments_of : Text → List Segment
  segments_of pattern = elim (parse_pattern pattern) [ none ↦ [] | some segments ↦ segments ]
