-- ===== src/Matcher/Tests.antt =====
-- The matcher at concrete pages.
use guinea.Base.{
  true, ◌≡◌, ◌≢◌, ◌↔◌, refl, Option, none, some, List, [], ◌∷◌, codes, same_text, All, Any, here,
  Text, arith,
}
use guinea.Tree.{TypeName, Leaf}
use guinea.Tree.Tests.{host_field, leaf_with}
use guinea.Pattern.{segments_of, parse_pattern, segment}
use guinea.Pattern.Combinators.{span}
use guinea.Pattern.Plain.{plain, repeat}
use guinea.Matcher.{
  MatchNode, node, branch, end, tree, build, claimed_by, shape_of, shape_from, insert, at_branch,
}
use guinea.Matcher.Walk.{Route, parse, walk, parts_of, decode_fields, depth_of}
use guinea.Matcher.Answer.{matches, captured, part_for, answer, decode_named}
use guinea.Matcher.Shapes.{IsPlain, AreApart, patterns, build-AreApart}
use guinea.Matcher.Parsing.{parse_sound, parse_complete, answer_of}
use guinea.Matcher.Entries.{Entry, entries}
use guinea.Matcher.Holding.{build-entries, Linked}
use guinea.Matcher.Fields.{check_fields, captures_from}

abbrev decode_text : TypeName → Text → Text → Option Text
decode_text page field part = some part

abbrev host : Leaf
host = leaf_with (codes "/:host") (host_field ∷ [])

abbrev home : Leaf
home = leaf_with (codes "/home") []

abbrev pages : List Leaf
pages = host ∷ home ∷ []

abbrev root : MatchNode
root =
    node
      (branch (codes "home") (node end end (some (record { ty = codes "Overview"; fields = [] })))
        end)
      (branch (codes "host")
        (node end end (some (record { ty = codes "Overview"; fields = codes "host" ∷ [] }))) end)
      none

pages_built : build (segments_of plain) pages ≡ tree root
unfolding build claimed_by same_text shape_of parse_pattern repeat segment span shape_from insert
    at_branch
pages_built = refl

-- The literal is tried before the capture.
home_first :
    parse decode_text root (codes "/home") ≡ some (record { page = codes "Overview"; values = [] })
unfolding parse walk parts_of same_text decode_fields
home_first = refl

abbrev host_route : Route Text
host_route = record { page = codes "Overview"; values = codes "db" ∷ [] }

host_parsed : parse decode_text root (codes "/db") ≡ some host_route
unfolding parse walk parts_of same_text decode_fields depth_of
host_parsed = refl

parse_sound_example :
    Any
      (λ leaf. answer_of (segments_of plain) decode_text leaf (codes "/db") ≡ some host_route)
      pages
parse_sound_example =
    parse_sound (segments_of plain) decode_text pages (codes "/db") pages_built host_parsed

host_answers :
    Any (λ leaf. answer_of (segments_of plain) decode_text leaf (codes "/db") ≢ none) pages
unfolding answer matches captured part_for parse_pattern repeat segment span parts_of same_text
    decode_named
host_answers = here (λ e. cc)

parse_complete_example : parse decode_text root (codes "/db") ≢ none
parse_complete_example =
    parse_complete (segments_of plain) decode_text pages (codes "/db") pages_built host_answers

pages-IsPlain : All (All IsPlain) (patterns (segments_of plain) pages)
unfolding parse_pattern repeat segment span
pages-IsPlain = (
  (tt, tt),
  (
    (
      (
        cc,
        (
          (λ e. omega (arith, e)),
          ((λ e. omega (arith, e)), ((λ e. omega (arith, e)), ((λ e. omega (arith, e)), tt))),
        ),
        cc,
      ),
      tt,
    ),
    tt,
  ),
)

build-AreApart_example :
    ((n : MatchNode) × (build (segments_of plain) pages ≡ tree n))
    ↔ AreApart (patterns (segments_of plain) pages)
build-AreApart_example = build-AreApart (segments_of plain) pages pages-IsPlain

pages_checked : check_fields (segments_of plain) pages ≡ []
unfolding check_fields captures_from parse_pattern repeat segment span same_text
pages_checked = refl

host_matches : matches (segments_of plain (codes "/:host")) (codes "db" ∷ []) ≡ true
unfolding matches parse_pattern repeat segment span same_text
host_matches = refl

abbrev OnOverview : Entry → Type 0
OnOverview e = e.1.ty ≡ codes "Overview"

build-entries_example :
    Any OnOverview (entries root) ↔ Any (Linked (segments_of plain) OnOverview) pages
build-entries_example = build-entries (segments_of plain) OnOverview pages pages_built
