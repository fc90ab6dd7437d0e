-- ===== src/Pattern/Combinators.antt =====
-- The parser combinators of winnow that crates/guinea-route-dsl/src/lib.rs calls on a pattern, as a
-- record of functions and of their documented behaviour. A parser returns what it read and what is
-- left, or nothing.
use guinea.Base.{
  ℕ, ◌≤◌, Bool, ◌≡◌, Option, none, some, List, [], ◌∷◌, Text, if◌then◌else◌, ◌==◌, leb, length,
}
use guinea.Tree.{Segment}

abbrev pub Parser : Type 0 → Type 0
Parser A = Text → Option (A × Text)

-- The longest run of items at which `stop` does not hold, and the rest.
unfoldable pub span : (ℕ → Bool) → Text → Text × Text
span stop [] = ([], [])
span stop (c ∷ rest) =
    if stop c then ([], c ∷ rest) else (c ∷ (span stop rest).0, (span stop rest).1)

-- A parser that reads nothing twice: what is left is no longer than what there was.
abbrev pub IsConsuming {ℓ} : {A : Type ℓ} → (Text → Option (A × Text)) → Type ℓ
IsConsuming {A = A} p = (s r : Text) (x : A) → p s ≡ some (x, r) → length r ≤ length s

pub record Winnow : Type 0 where
  pub take_till : ℕ → (ℕ → Bool) → Parser Text
  pub preceded : ℕ → Parser Text → Parser Text
  pub alt : Parser Segment → Parser Segment → Parser Segment
  pub mapped : (Text → Segment) → Parser Text → Parser Segment
  pub separated : Parser Segment → ℕ → Parser (List Segment)
  -- `take_till(m.., stop)`: the longest run before `stop`, if it has m items at least.
  pub take_till_lem :
      (m : ℕ) (stop : ℕ → Bool) (s : Text)
      → take_till m stop s ≡ (if leb m (length (span stop s).0) then some (span stop s) else none)
  -- `preceded(c, p)`: `p` after one item `c`.
  pub preceded-nil : (c : ℕ) (p : Parser Text) → preceded c p [] ≡ none
  pub preceded-cons :
      (c d : ℕ) (p : Parser Text) (s : Text) → preceded c p (d ∷ s) ≡ (if d == c then p s else none)
  -- `alt((p, q))`: `p`, or `q` where `p` fails.
  pub alt_first :
      (p q : Parser Segment) (s : Text) (r : Segment × Text) → p s ≡ some r → alt p q s ≡ some r
  pub alt_second : (p q : Parser Segment) (s : Text) → p s ≡ none → alt p q s ≡ q s
  -- `p.map(f)`
  pub mapped_some :
      (f : Text → Segment) (p : Parser Text) (s x r : Text)
      → p s ≡ some (x, r)
      → mapped f p s ≡ some (f x, r)
  pub mapped_none :
      (f : Text → Segment) (p : Parser Text) (s : Text) → p s ≡ none → mapped f p s ≡ none
  -- `separated(1.., p, c)`: one `p`, then `p` after each `c`, for as long as both are there; what
  -- is not read so is left, the separator included.
  pub separated_none :
      (p : Parser Segment) (c : ℕ) (s : Text) → IsConsuming p → p s ≡ none → separated p c s ≡ none
  pub separated_end :
      (p : Parser Segment) (c : ℕ) (s : Text) (x : Segment)
      → IsConsuming p
      → p s ≡ some (x, [])
      → separated p c s ≡ some (x ∷ [], [])
  pub separated_other :
      (p : Parser Segment) (c d : ℕ) (s r : Text) (x : Segment)
      → IsConsuming p
      → p s ≡ some (x, d ∷ r)
      → (d ≡ c → p r ≡ none)
      → separated p c s ≡ some (x ∷ [], d ∷ r)
  pub separated_more :
      (p : Parser Segment) (c : ℕ) (s r rest : Text) (x : Segment) (xs : List Segment)
      → IsConsuming p
      → p s ≡ some (x, c ∷ r)
      → separated p c r ≡ some (xs, rest)
      → separated p c s ≡ some (x ∷ xs, rest)
