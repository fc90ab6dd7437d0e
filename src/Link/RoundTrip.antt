-- ===== src/Link/RoundTrip.antt =====
-- The round trip of a capture through `escape` and `unescape` of crates/guinea-router/src/link.rs.
use guinea.Base.{
  ℕ, ◌/◌, ◌%◌, ◌<◌, true, false, ◌≡◌, ◌⊎◌, refl, some, [], ◌∷◌, Text, All, arith, ◌==◌, Bool-cases,
  inl, inr,
}
use guinea.Link.Utf8.{is_utf8, is_utf8-IsByte}
use guinea.Link.{unreserved, prepend, hex_digit, hex_byte, escape, unescape_bytes, unescape}

hex_byte-hex_digit : (b : ℕ) → b < 256 → hex_byte (hex_digit (b / 16)) (hex_digit (b % 16)) ≡ some b
hex_byte-hex_digit b h = ground arith

-- A byte that is no `%` is read as itself.
unescape_bytes-plain :
    (c : ℕ) (rest : Text)
    → (c == b'%') ≡ false
    → unescape_bytes (c ∷ rest) ≡ prepend (some c) (unescape_bytes rest)
unfolding unescape_bytes
unescape_bytes-plain c [] h = ground arith
unescape_bytes-plain c (a ∷ []) h = ground arith
unescape_bytes-plain c (a ∷ b ∷ rest) h = ground arith

unreserved-ne-percent : (b : ℕ) → unreserved b ≡ true → (b == b'%') ≡ false
unreserved-ne-percent b h = ground arith

unescape_bytes-escape : (s : Text) → All (λ b. b < 256) s → unescape_bytes (escape s) ≡ some s
unfolding unescape_bytes escape
unescape_bytes-escape [] h = refl
unescape_bytes-escape (b ∷ rest) h = elim (Bool-cases (unreserved b)) [
  | inl plain ↦ rw (
    plain,
    unescape_bytes-plain b (escape rest) (unreserved-ne-percent b plain),
    unescape_bytes-escape rest h.1,
  )
  | inr escaped ↦ rw (escaped, hex_byte-hex_digit b h.0, unescape_bytes-escape rest h.1)
]

-- What `escape` writes is what `unescape` reads back, for every string.
pub unescape-escape : (s : Text) → is_utf8 s ≡ true → unescape (escape s) ≡ some s
unfolding unescape
unescape-escape s h = rw (unescape_bytes-escape s (is_utf8-IsByte s h), h)

-- A byte that may stand in one path segment.
abbrev pub IsSegmentByte : ℕ → Type 0
IsSegmentByte b = (unreserved b ≡ true) ⊎ (b ≡ b'%')

hex_digit-unreserved : (d : ℕ) → d < 16 → unreserved (hex_digit d) ≡ true
hex_digit-unreserved d h = ground arith

-- What `escape` writes holds only unreserved bytes and `%`.
pub escape-IsSegmentByte : (s : Text) → All (λ b. b < 256) s → All IsSegmentByte (escape s)
unfolding escape
escape-IsSegmentByte [] h = tt
escape-IsSegmentByte (b ∷ rest) h = elim (Bool-cases (unreserved b)) [
  | inl plain ↦ rw plain (inl plain, escape-IsSegmentByte rest h.1)
  | inr escaped ↦ rw escaped (
    inr refl,
    (
      inl (hex_digit-unreserved (b / 16) (omega (arith, h.0))),
      (inl (hex_digit-unreserved (b % 16) (omega arith)), escape-IsSegmentByte rest h.1),
    ),
  )
]
