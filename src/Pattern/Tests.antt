-- ===== src/Pattern/Tests.antt =====
-- Patterns read at concrete texts.
use guinea.Base.{◌≡◌, some, List, [], ◌∷◌, ◌++◌, codes, arith}
use guinea.Tree.{Segment, literal, capture}
use guinea.Pattern.{parse_pattern}
use guinea.Pattern.Plain.{plain}
use guinea.Pattern.Trimming.{body}
use guinea.Pattern.Reading.{parse_pattern-body}

abbrev host : Segment
host = capture (codes "host")

abbrev processes : List Segment
processes = literal (codes "processes") ∷ []

-- `/:host/processes//more` reads as `/:host/processes`.
parse_pattern-body_example :
    parse_pattern plain (b'/' ∷ (body (host ∷ processes) ++ codes "//more"))
    ≡ some (host ∷ processes)
parse_pattern-body_example =
    parse_pattern-body plain host processes (codes "//more") (ground arith) (ground arith)
