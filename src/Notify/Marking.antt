-- ===== src/Notify/Marking.antt =====
-- What `mark` of crates/guinea-core/src/notify.rs keeps, and what it folds into one.
use guinea.Base.{
  ◌≡◌, refl, sym, ap, subst, ◌∙◌, Bool, true, false, not, ◌||◌, List, [], ◌∷◌, ◌++◌, inl, inr,
  Bool-cases, if◌then◌else◌, any, retain, append_assoc, append-nil, arith,
}
use guinea.Notify.{Cell, Change, same_cell, is_some, seen, push_mark, push_marks}

or-false-left : (a b : Bool) → (a || b) ≡ false → a ≡ false
or-false-left true b h = h
or-false-left false b h = refl

or-false-right : (a b : Bool) → (a || not b) ≡ false → b ≡ true
or-false-right true b h = absurd (cc h)
or-false-right false true h = refl
or-false-right false false h = absurd (cc h)

or_assoc : (a b c : Bool) → ((a || b) || c) ≡ (a || (b || c))
or_assoc true b c = refl
or_assoc false b c = refl

or-nil : (a : Bool) → a ≡ (a || false)
or-nil true = refl
or-nil false = refl

pub same_cell-eq : (a b : Cell) → same_cell a b ≡ true → a ≡ b
same_cell-eq a b h = ground (arith, h)

module _ {U : Type 0} where
  abbrev pub is_update : Change U → Bool
  is_update c = is_some c.update

  -- After some marks, a mark is of an update or of a cell that is not marked yet.
  abbrev pub AreOnce : List (Change U) → List (Change U) → Type 0
  AreOnce before [] = Unit
  AreOnce before (c ∷ cs) =
      ((is_some c.update || not (seen c.cell before)) ≡ true) × AreOnce (before ++ c ∷ []) cs

  retain-append :
      (p : Change U → Bool) (xs ys : List (Change U))
      → retain p (xs ++ ys) ≡ retain p xs ++ retain p ys
  retain-append p [] ys = refl
  retain-append p (x ∷ xs) ys = ground (arith, retain-append p xs ys)

  any-append :
      (p : Change U → Bool) (xs ys : List (Change U)) → any p (xs ++ ys) ≡ (any p xs || any p ys)
  any-append p [] ys = refl
  any-append p (x ∷ xs) ys = ground (arith, any-append p xs ys)

  AreOnce-append :
      (before cs : List (Change U)) (c : Change U)
      → AreOnce before cs
      → (is_some c.update || not (seen c.cell (before ++ cs))) ≡ true
      → AreOnce before (cs ++ c ∷ [])
  AreOnce-append before [] c h k =
      (subst (λ l. (is_some c.update || not (seen c.cell l)) ≡ true) (append-nil before) k, tt)
  AreOnce-append before (d ∷ cs) c h k = (
    h.0,
    AreOnce-append (before ++ d ∷ []) cs c h.1 (
        subst (λ l. (is_some c.update || not (seen c.cell l)) ≡ true)
          (sym (append_assoc before (d ∷ []) cs)) k),
  )

  push_mark-updates :
      (c : Change U) (ms : List (Change U))
      → retain is_update (push_mark c ms) ≡ retain is_update ms ++ retain is_update (c ∷ [])
  unfolding push_mark
  push_mark-updates c ms = elim (Bool-cases (is_some c.update || not (seen c.cell ms))) [
    | inl new ↦ rw new (retain-append is_update ms (c ∷ []))
    | inr old ↦ rw old (
        let bare : is_some c.update ≡ false = or-false-left _ _ old in
        sym (append-nil _) ∙ ap (λ b. retain is_update ms ++ (if b then c ∷ [] else [])) (sym bare))
  ]

  seen-absorbs :
      (cell : Cell) (c : Change U) (ms : List (Change U))
      → seen c.cell ms ≡ true
      → seen cell ms ≡ (seen cell ms || same_cell c.cell cell)
  seen-absorbs cell c ms h = elim (Bool-cases (same_cell c.cell cell)) [
    | inl same ↦
        let there : seen cell ms ≡ true =
          subst (λ k. seen k ms ≡ true) (same_cell-eq c.cell cell same) h in
        there ∙ ap (λ b. b || same_cell c.cell cell) (sym there)
    | inr other ↦ or-nil _ ∙ ap (λ b. seen cell ms || b) (sym other)
  ]

  push_mark-seen :
      (cell : Cell) (c : Change U) (ms : List (Change U))
      → seen cell (push_mark c ms) ≡ (seen cell ms || same_cell c.cell cell)
  unfolding push_mark
  push_mark-seen cell c ms = elim (Bool-cases (is_some c.update || not (seen c.cell ms))) [
    | inl new ↦ rw new (
        any-append (λ d. same_cell d.cell cell) ms (c ∷ [])
        ∙ ap (λ b. seen cell ms || b) (sym (or-nil (same_cell c.cell cell))))
    | inr old ↦ rw old (seen-absorbs cell c ms (or-false-right _ _ old))
  ]

  push_mark-AreOnce :
      (c : Change U) (ms : List (Change U)) → AreOnce [] ms → AreOnce [] (push_mark c ms)
  unfolding push_mark
  push_mark-AreOnce c ms h = elim (Bool-cases (is_some c.update || not (seen c.cell ms))) [
    | inl new ↦ rw new (AreOnce-append [] ms c h new)
    | inr old ↦ rw old h
  ]

  -- Of what is marked, every observed update is kept, in order; a cell stands marked exactly when it
  -- was or some mark is of it; and where a bare mark came only to cells that were not marked, it stays so.
  pub push_marks-AreOnce :
      (cs ms : List (Change U)) (cell : Cell)
      → AreOnce [] ms
      → (retain is_update (push_marks cs ms) ≡ retain is_update ms ++ retain is_update cs)
        × (seen cell (push_marks cs ms) ≡ (seen cell ms || seen cell cs))
        × AreOnce [] (push_marks cs ms)
  unfolding push_marks
  push_marks-AreOnce [] ms cell h = (sym (append-nil _), or-nil _, h)
  push_marks-AreOnce (c ∷ cs) ms cell h =
      let (updates, cells, once) =
        push_marks-AreOnce cs (push_mark c ms) cell (push_mark-AreOnce c ms h) in
      (
        updates
            ∙ ap (λ l. l ++ retain is_update cs) (push_mark-updates c ms)
            ∙ append_assoc (retain is_update ms) (retain is_update (c ∷ [])) (retain is_update cs)
            ∙ ap (λ l. retain is_update ms ++ l) (sym (retain-append is_update (c ∷ []) cs)),
        cells
            ∙ ap (λ b. b || seen cell cs) (push_mark-seen cell c ms)
            ∙ or_assoc (seen cell ms) (same_cell c.cell cell) (seen cell cs),
        once,
      )
