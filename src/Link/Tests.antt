-- ===== src/Link/Tests.antt =====
-- Captures written and read at concrete texts.
use guinea.Base.{ℕ, true, ◌≡◌, refl, some, none, List, [], ◌∷◌, codes}
use guinea.Link.Utf8.{is_utf8}
use guinea.Link.{escape, unescape, unescape_bytes}
use guinea.Link.RoundTrip.{unescape-escape}

-- A text with a slash, a space and an umlaut.
abbrev sample : List ℕ
sample = b'a' ∷ b'/' ∷ b' ' ∷ 0xc3 ∷ 0xa4 ∷ []

sample_utf8 : is_utf8 sample ≡ true
unfolding is_utf8
sample_utf8 = refl

escape-sample : escape sample ≡ codes "a%2F%20%C3%A4"
unfolding escape
escape-sample = refl

-- A `+` in front of one digit passes for two.
plus_digit : unescape (codes "%+F") ≡ some (15 ∷ [])
unfolding unescape unescape_bytes is_utf8
plus_digit = refl

truncated : unescape (codes "%2") ≡ none
unfolding unescape unescape_bytes is_utf8
truncated = refl

unescape-escape_example : unescape (escape sample) ≡ some sample
unescape-escape_example = unescape-escape sample sample_utf8
