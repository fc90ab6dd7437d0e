-- ===== src/Pattern/Plain.antt =====
-- The combinators of `Combinators` as plain functions, with their laws: what the documentation says
-- of them can hold.
use guinea.Base.{
  ℕ, zero, suc, ◌<◌, Bool, ◌≡◌, refl, Option, none, some, List, [], ◌∷◌, Text, if◌then◌else◌, ◌==◌,
  leb, length, arith, Bool-cases, ==_iff, inl, inr,
}
use guinea.Tree.{Segment}
use guinea.Pattern.Combinators.{Winnow, Parser, span, IsConsuming}

abbrev join_read : Segment → Text → Option (List Segment × Text) → Option (List Segment × Text)
join_read x left none = some (x ∷ [], left)
join_read x left (some (xs, rest)) = some (x ∷ xs, rest)

abbrev after_one :
    ℕ
    → (Text → Option (List Segment × Text))
    → Option (Segment × Text)
    → Option (List Segment × Text)
after_one c next none = none
after_one c next (some (x, [])) = some (x ∷ [], [])
after_one c next (some (x, d ∷ rest)) =
    if d == c then join_read x (d ∷ rest) (next rest) else some (x ∷ [], d ∷ rest)

-- `p` after each `c`, at most so many times.
unfoldable pub repeat : Parser Segment → ℕ → ℕ → Parser (List Segment)
repeat p c zero s = none
repeat p c (suc n) s = after_one c (repeat p c n) (p s)

pub repeat-none : (p : Parser Segment) (c n : ℕ) (s : Text) → p s ≡ none → repeat p c n s ≡ none
unfolding repeat
repeat-none p c zero s e = refl
repeat-none p c (suc n) s e = rw e

-- The fuel does not matter, once there is enough.
repeat-fuel :
    (p : Parser Segment) (c n m : ℕ) (s : Text)
    → IsConsuming p
    → length s < n
    → length s < m
    → repeat p c n s ≡ repeat p c m s
unfolding repeat
repeat-fuel p c zero m s k h l = absurd (omega arith)
repeat-fuel p c (suc n) zero s k h l = absurd (omega arith)
repeat-fuel p c (suc n) (suc m) s k h l = next (repeat-fuel p c n m) (p s) refl
  where
    next :
        ((t : Text) → IsConsuming p → length t < n → length t < m → repeat p c n t ≡ repeat p c m t)
        → (o : Option (Segment × Text)) → p s ≡ o
        → after_one c (repeat p c n) o ≡ after_one c (repeat p c m) o
    next ih none e = refl
    next ih (some (x, [])) e = refl
    next ih (some (x, d ∷ rest)) e =
        let short = k s (d ∷ rest) x e in rw (ih rest k (omega arith) (omega arith))

abbrev alternative : Option (Segment × Text) → Option (Segment × Text) → Option (Segment × Text)
alternative none q = q
alternative (some r) q = some r

abbrev changed : (Text → Segment) → Option (Text × Text) → Option (Segment × Text)
changed f none = none
changed f (some (x, r)) = some (f x, r)

abbrev take_till : ℕ → (ℕ → Bool) → Parser Text
take_till m stop s = if leb m (length (span stop s).0) then some (span stop s) else none

abbrev preceded : ℕ → Parser Text → Parser Text
preceded c p [] = none
preceded c p (d ∷ s) = if d == c then p s else none

abbrev alt : Parser Segment → Parser Segment → Parser Segment
alt p q s = alternative (p s) (q s)

abbrev mapped : (Text → Segment) → Parser Text → Parser Segment
mapped f p s = changed f (p s)

abbrev separated : Parser Segment → ℕ → Parser (List Segment)
separated p c s = repeat p c (suc (length s)) s

pub separated_end :
    (p : Parser Segment) (c : ℕ) (s : Text) (x : Segment)
    → p s ≡ some (x, [])
    → separated p c s ≡ some (x ∷ [], [])
unfolding repeat
separated_end p c s x e = rw e

pub separated_other :
    (p : Parser Segment) (c d : ℕ) (s r : Text) (x : Segment)
    → p s ≡ some (x, d ∷ r)
    → (d ≡ c → p r ≡ none)
    → separated p c s ≡ some (x ∷ [], d ∷ r)
unfolding repeat
separated_other p c d s r x e h = rw e (elim (Bool-cases (d == c)) [
  | inl same ↦ rw (same, repeat-none p c (length s) r (h ((==_iff _ _).0 same)))
  | inr other ↦ rw other
])

pub separated_more :
    (p : Parser Segment) (c : ℕ) (s r rest : Text) (x : Segment) (xs : List Segment)
    → IsConsuming p
    → p s ≡ some (x, c ∷ r)
    → separated p c r ≡ some (xs, rest)
    → separated p c s ≡ some (x ∷ xs, rest)
unfolding repeat
separated_more p c s r rest x xs k e h =
    let short = k s (c ∷ r) x e in
    rw (
      e,
      (==_iff c c).1 refl,
      repeat-fuel p c (length s) (suc (length r)) r k (omega arith) (omega arith),
      h,
    )

abbrev pub plain : Winnow
plain = record {
  take_till = take_till;
  preceded = preceded;
  alt = alt;
  mapped = mapped;
  separated = separated;
  take_till_lem = λ m stop s. refl;
  preceded-nil = λ c p. refl;
  preceded-cons = λ c d p s. refl;
  alt_first = λ p q s r e. rw e;
  alt_second = λ p q s e. rw e;
  mapped_some = λ f p s x r e. rw e;
  mapped_none = λ f p s e. rw e;
  separated_none = λ p c s k e. repeat-none p c (suc (length s)) s e;
  separated_end = λ p c s x k e. separated_end p c s x e;
  separated_other = λ p c d s r x k e h. separated_other p c d s r x e h;
  separated_more = separated_more;
}
