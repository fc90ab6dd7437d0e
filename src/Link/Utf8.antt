-- ===== src/Link/Utf8.antt =====
-- Which bytes `String::from_utf8` takes: the well-formed UTF-8 of the Unicode standard, as the
-- standard library of the language documents it. Used by crates/guinea-router/src/link.rs.
use mathlib.Core.Bool.{false≢true}
use guinea.Base.{
  ℕ, zero, suc, ◌<◌, Bool, true, false, ◌&&◌, ◌≡◌, Option, none, some, [], ◌∷◌, Text, ◌==◌, leb,
  ltb, if◌then◌else◌, All, arith, Option-cases, inl, inr,
}

-- What may follow a first byte: how many bytes, and the bounds of the next one.
record Follow : Type 0 where
  count : ℕ
  low : ℕ
  high : ℕ

abbrev follow : ℕ → ℕ → ℕ → Follow
follow count low high = record { count = count; low = low; high = high }

lead : ℕ → Option Follow
lead b =
    if ltb b 0x80
    then some (follow 0 0x80 0xbf)
    else if ltb b 0xc2
    then none
    else if ltb b 0xe0
    then some (follow 1 0x80 0xbf)
    else if b == 0xe0
    then some (follow 2 0xa0 0xbf)
    else if b == 0xed
    then some (follow 2 0x80 0x9f)
    else if ltb b 0xf0
    then some (follow 2 0x80 0xbf)
    else if b == 0xf0
    then some (follow 3 0x90 0xbf)
    else if ltb b 0xf4
    then some (follow 3 0x80 0xbf)
    else if b == 0xf4
    then some (follow 3 0x80 0x8f)
    else none

well_formed : Follow → ℕ → Text → Bool
well_formed f zero [] = true
well_formed f (suc n) [] = false
well_formed f zero (b ∷ rest) = elim (lead b) [ none ↦ false | some g ↦ well_formed g g.count rest ]
well_formed f (suc n) (b ∷ rest) =
    leb f.low b && leb b f.high && well_formed (follow n 0x80 0xbf) n rest

unfoldable pub is_utf8 : Text → Bool
unfolding well_formed lead
is_utf8 bytes = well_formed (follow 0 0x80 0xbf) 0 bytes

abbrev IsByte : ℕ → Type 0
IsByte b = b < 256

record IsFollow (f : Follow) : Type 0 where
  below : f.high < 256

lead-IsByte : (b : ℕ) {f : Follow} → lead b ≡ some f → IsByte b × IsFollow f
unfolding lead
lead-IsByte b e = (ground arith, ground arith)

well_formed-IsByte :
    (f : Follow) (n : ℕ) (s : Text) → IsFollow f → well_formed f n s ≡ true → All IsByte s
unfolding well_formed
well_formed-IsByte f zero [] v h = tt
well_formed-IsByte f (suc n) [] v h = tt
well_formed-IsByte f zero (b ∷ rest) v h = elim (Option-cases (lead b)) [
  | inl none_led ↦ absurd (false≢true (rw (none_led, well_formed) at h))
  | inr (g, led) ↦
      let (byte, next) = lead-IsByte b led in
      (byte, well_formed-IsByte g g.count rest next (rw (led, well_formed) at h))
]
well_formed-IsByte f (suc n) (b ∷ rest) v h =
    (ground arith, well_formed-IsByte (follow n 0x80 0xbf) n rest (omega arith) (ground arith))

-- Only bytes are well formed.
pub is_utf8-IsByte : (s : Text) → is_utf8 s ≡ true → All (λ b. b < 256) s
unfolding is_utf8
is_utf8-IsByte s h = well_formed-IsByte (follow 0 0x80 0xbf) 0 s (omega arith) h
