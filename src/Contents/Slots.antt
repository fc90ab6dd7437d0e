-- ===== src/Contents/Slots.antt =====
-- The slots of the cells of crates/guinea-core/src/scope/state.rs, each of one cell.
use guinea.Base.{
  ℕ, suc, ◌<◌, ◌≡◌, ◌≢◌, refl, sym, ap, subst, ◌∙◌, Option, none, some, ◌⊎◌, inl, inr, ◌==◌, ==_iff,
  ==_ne, Bool-cases, if-true, if-false, map_or, arith,
}
use guinea.Contents.{Cell, Contents, holding, put_at, hold}

-- The cells' slots are given out, and each cell's is its own.
abbrev pub AreApart : ℕ → (ℕ → Option Cell) → Type 0
AreApart next cells =
    ((ty : ℕ) (c : Cell) → cells ty ≡ some c → c.slot < next)
    × ((ty other : ℕ) (c d : Cell)
        → cells ty ≡ some c
        → cells other ≡ some d
        → c.slot ≡ d.slot
        → ty ≡ other)

abbrev pub IsSound : Contents → Type 0
IsSound s = AreApart s.next_slot s.cells

pub put_at-cases {ℓ} :
    {A : Type ℓ} (i j : ℕ) (a : A) (f : ℕ → A)
    → ((j ≡ i) × (put_at i a f j ≡ a)) ⊎ ((j ≢ i) × (put_at i a f j ≡ f j))
put_at-cases i j a f = elim (Bool-cases (j == i)) [
  | inl same ↦ inl ((==_iff j i).0 same, if-true (j == i) a (f j) same)
  | inr other ↦ inr (ground (arith, other), if-false (j == i) a (f j) other)
]

-- A cell that keeps its slot.
pub kept-AreApart :
    (next ty : ℕ) (c d : Cell) (E : ℕ → Option Cell)
    → E ty ≡ some c
    → d.slot ≡ c.slot
    → AreApart next E
    → AreApart next (put_at ty (some d) E)
kept-AreApart next ty c d E at same (below, apart) = (
  (λ t e found.
      let (e', found', eq) = before t e found in
      subst (λ n. n < next) (sym eq) (below t e' found')),
  (λ t u e f found found2 eq.
      let (e', found', eq') = before t e found in
      let (f', found2', eq'') = before u f found2 in
      apart t u e' f' found' found2' (sym eq' ∙ eq ∙ eq'')),
)
  where
    before :
        (t : ℕ) (e : Cell)
        → put_at ty (some d) E t ≡ some e
        → (e' : Cell) × (E t ≡ some e') × (e.slot ≡ e'.slot)
    before t e found = elim (put_at-cases ty t (some d) E) [
      | inl (here, eq) ↦
          let is : e ≡ d = cc (found, eq) in
          (c, ap E here ∙ at, subst (λ (x : Cell). x.slot ≡ c.slot) (sym is) same)
      | inr (other, eq) ↦ (e, sym eq ∙ found, refl)
    ]

pub hold-IsSound : (ty value : ℕ) (s : Contents) → IsSound s → IsSound (hold ty value s)
hold-IsSound ty value s (below, apart) = (
  (λ t e found. elim (put_at-cases ty t (some (holding s.next_slot)) s.cells) [
    | inl (here, eq) ↦
        let is : holding s.next_slot ≡ e = cc (found, eq) in
        subst (λ (x : Cell). x.slot < suc s.next_slot) is (omega arith)
    | inr (other, eq) ↦ omega (arith, below t e (sym eq ∙ found))
  ]),
  (λ t u e f found found2 same. elim (put_at-cases ty t (some (holding s.next_slot)) s.cells) [
    | inl (here, eq) ↦ elim (put_at-cases ty u (some (holding s.next_slot)) s.cells) [
      | inl (here2, eq2) ↦ here ∙ sym here2
      | inr (other2, eq2) ↦
          let is : holding s.next_slot ≡ e = cc (found, eq) in
          absurd (omega (arith, below u f (sym eq2 ∙ found2), same, ap (λ (x : Cell). x.slot) is))
    ]
    | inr (other, eq) ↦ elim (put_at-cases ty u (some (holding s.next_slot)) s.cells) [
      | inl (here2, eq2) ↦
          let is : holding s.next_slot ≡ f = cc (found2, eq2) in
          absurd (omega (arith, below t e (sym eq ∙ found), same, ap (λ (x : Cell). x.slot) is))
      | inr (other2, eq2) ↦ apart t u e f (sym eq ∙ found) (sym eq2 ∙ found2) same
    ]
  ]),
)

pub put_at-eq {ℓ} : {A : Type ℓ} (i : ℕ) (a : A) (f : ℕ → A) → put_at i a f i ≡ a
put_at-eq i a f = if-true (i == i) a (f i) ((==_iff i i).1 refl)

pub put_at-other {ℓ} : {A : Type ℓ} (i j : ℕ) (a : A) (f : ℕ → A) → j ≢ i → put_at i a f j ≡ f j
put_at-other i j a f h = if-false (j == i) a (f j) (==_ne j i h)

-- The value of a slot that is not written.
pub other-slot :
    (missing slot value : ℕ) (values : ℕ → ℕ) (o : Option Cell)
    → ((c : Cell) → o ≡ some c → c.slot ≢ slot)
    → map_or missing (λ (c : Cell). put_at slot value values c.slot) o
      ≡ map_or missing (λ c. values c.slot) o
other-slot missing slot value values none h = refl
other-slot missing slot value values (some c) h = put_at-other slot c.slot value values (h c refl)
