-- ===== src/Notify/Turns.antt =====
-- Turns of crates/guinea-core/src/notify.rs, one in the other, and the end of a drain.
use guinea.Base.{
  ℕ, zero, suc, ◌+◌, ◌-◌, ◌<◌, ◌≡◌, refl, sym, ap, ◌∙◌, true, false, not, ◌&&◌, ◌||◌, List, [], ◌∷◌,
  ◌++◌, if-intro, if-true, if-false, and-left-false, ==_iff, ◌==◌, ==_ne, arith,
}
use guinea.Notify.{
  Cell, Change, Notices, Watching, Body, ends, marks, turns, is_empty, push_mark, push_marks, mark,
  enter, leave, act, turn, after_batch, run_batch, tell_all, rounds, drain, settle_rounds,
  u32_bound,
}

abbrev pub max : ℕ → ℕ → ℕ
max a b = a + (b - a)

module _ {U : Type 0} where
  -- All that a body marks, in order.
  unfoldable pub flat : Body U → List (Change U)
  flat ends = []
  flat (marks c rest) = c ∷ flat rest
  flat (turns body rest) = flat body ++ flat rest

  -- How deep its turns go.
  unfoldable pub nesting : Body U → ℕ
  nesting ends = 0
  nesting (marks c rest) = nesting rest
  nesting (turns body rest) = max (suc (nesting body)) (nesting rest)

  pub is_empty-eq : (ms : List (Change U)) → is_empty ms ≡ true → ms ≡ []
  is_empty-eq [] h = refl
  is_empty-eq (c ∷ ms) h = absurd (cc h)

  push_marks-append :
      (cs ds ms : List (Change U)) → push_marks (cs ++ ds) ms ≡ push_marks ds (push_marks cs ms)
  unfolding push_marks
  push_marks-append [] ds ms = refl
  push_marks-append (c ∷ cs) ds ms = push_marks-append cs ds (push_mark c ms)

module _ {W : Type 0} {U : Type 0} (watching : Watching W U) where
  mark-inside :
      (c : Change U) (s : Notices W U)
      → 0 < s.depth
      → mark watching c s ≡ record s { marked = push_mark c s.marked }
  unfolding mark
  mark-inside c s h =
      if-false ((s.depth == 0) && not s.draining)
        (drain watching (record s { marked = push_mark c s.marked }))
        (record s { marked = push_mark c s.marked })
        (and-left-false _ _ (==_ne s.depth 0 (λ e. omega (arith, e, h))))

  leave-inside :
      (s : Notices W U) → 1 < s.depth → leave watching s ≡ record s { depth = s.depth - 1 }
  unfolding leave
  leave-inside s h =
      if-false (s.depth - 1 == 0) (drain watching (record s { depth = s.depth - 1 }))
        (record s { depth = s.depth - 1 }) (==_ne (s.depth - 1) 0 (λ e. omega (arith, e, h)))

  leave-outside :
      (s : Notices W U) → s.depth ≡ 1 → leave watching s ≡ drain watching (record s { depth = 0 })
  unfolding leave
  leave-outside s h =
      if-true (s.depth - 1 == 0) (drain watching (record s { depth = s.depth - 1 }))
        (record s { depth = s.depth - 1 }) ((==_iff (s.depth - 1) 0).1 (omega (arith, h)))
      ∙ ap (λ n. drain watching (record s { depth = n })) (omega (arith, h))

  -- In a turn, a body only marks.
  act-inside :
      (body : Body U) (s : Notices W U)
      → 0 < s.depth
      → s.depth + nesting body < u32_bound
      → act watching body s ≡ record s { marked = push_marks (flat body) s.marked }
  unfolding act flat nesting push_marks
  act-inside ends s h b = refl
  act-inside (marks c rest) s h b =
      ap (act watching rest) (mark-inside c s h) ∙ act-inside rest _ h b
  act-inside (turns body rest) s h b =
      ap (λ t. act watching rest (leave watching t))
        (act-inside body (enter s) (omega (arith, h, b)) (omega (arith, h, b)))
      ∙ ap (act watching rest) (
          leave-inside (record (enter s) { marked = push_marks (flat body) s.marked })
            (omega (arith, h, b)))
      ∙ ap
          (λ n.
            act watching rest (record s { depth = n; marked = push_marks (flat body) s.marked }))
          (omega (arith, h, b))
      ∙ act-inside rest (record s { marked = push_marks (flat body) s.marked }) h (omega (arith, b))
      ∙ ap (λ l. record s { marked = l }) (sym (push_marks-append (flat body) (flat rest) s.marked))

  -- A turn that nothing is around, whatever turns it opens, marks all in order, and then there is
  -- one drain, while its turns do not go as deep as the counter's bound.
  pub turn-flat :
      (body : Body U) (s : Notices W U)
      → s.depth ≡ 0
      → 1 + nesting body < u32_bound
      → turn watching body s
        ≡ drain watching (record s { marked = push_marks (flat body) s.marked })
  turn-flat body s h b =
      ap (leave watching) (act-inside body (enter s) (omega (arith, h)) (omega (arith, h, b)))
      ∙ leave-outside (record (enter s) { marked = push_marks (flat body) s.marked })
          (omega (arith, h))
      ∙ ap (λ n. drain watching (record s { depth = n; marked = push_marks (flat body) s.marked }))
          (sym h)

  after_batch-is_empty :
      (next : List Cell → Notices W U → Notices W U)
      → ((touched : List Cell) (s : Notices W U) → (next touched s).marked ≡ [])
      → (touched : List Cell) (s : Notices W U) → (after_batch watching next touched s).marked ≡ []
  unfolding after_batch
  after_batch-is_empty next k touched s =
      if-intro {A = Notices W U} (λ t. t.marked ≡ []) (is_empty s.marked) _ _
        (λ quiet.
          if-intro {A = Notices W U} (λ t. t.marked ≡ [])
            (is_empty (tell_all watching touched s).marked) (tell_all watching touched s)
            (next [] (tell_all watching touched s)) (λ e. is_empty-eq _ e) (λ e. k [] _))
        (λ busy. k touched s)

  rounds-is_empty :
      (left : ℕ) (touched : List Cell) (s : Notices W U)
      → (rounds watching left touched s).marked ≡ []
  unfolding rounds
  rounds-is_empty zero touched s = refl
  rounds-is_empty (suc left) touched s =
      let (now, t) = run_batch watching s.marked touched (record s { marked = [] }) in
      after_batch-is_empty (rounds watching left) (rounds-is_empty left) now t

  -- After a drain that no drain is around, nothing is marked and no drain runs, whatever the
  -- observers and the listeners marked in it.
  pub drain-is_empty :
      (s : Notices W U)
      → s.draining ≡ false
      → ((drain watching s).marked ≡ []) × ((drain watching s).draining ≡ false)
  unfolding drain
  drain-is_empty s h =
      if-intro {A = Notices W U} (λ t. (t.marked ≡ []) × (t.draining ≡ false))
        (s.draining || is_empty s.marked) s _
        (λ idle. (is_empty-eq s.marked (ap (λ b. b || is_empty s.marked) (sym h) ∙ idle), h))
        (λ busy. (rounds-is_empty settle_rounds [] (record s { draining = true }), refl))
