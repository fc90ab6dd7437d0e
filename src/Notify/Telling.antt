-- ===== src/Notify/Telling.antt =====
-- The cells that a drain of crates/guinea-core/src/notify.rs tells of, where what it calls only moves
-- the world.
use guinea.Base.{
  ℕ, suc, ◌≡◌, refl, sym, ap, subst, ◌∙◌, fun_ext, Bool, true, false, not, ◌&&◌, ◌||◌, Option, none,
  some, List, [], ◌∷◌, ◌++◌, inl, inr, Bool-cases, if-intro, if-true, if-false, if◌then◌else◌, any,
  retain, map, All, All-retain, append_assoc, append-nil, arith,
}
use guinea.Notify.{
  Cell, Change, Notices, Watching, Observer, Listener, same_cell, is_empty, touch, push_marks,
  apply, observe_all, listen_all, tell_update, run_batch, tell_all, after_batch, rounds, drain,
}
use guinea.Notify.Turns.{is_empty-eq}
use guinea.Notify.Worlds.{observed_world, told_world, run_batch-world, tell_all-world}
use guinea.Notify.Marking.{same_cell-eq}

-- Each cell where it stands first.
unfoldable pub firsts : List Cell → List Cell
firsts [] = []
firsts (c ∷ cells) = c ∷ retain (λ d. not (same_cell c d)) (firsts cells)

touch_all : List Cell → List Cell → List Cell
touch_all [] touched = touched
touch_all (c ∷ cells) touched = touch_all cells (touch c touched)

abbrev is_new : List Cell → Cell → Bool
is_new touched d = not (any (λ c. same_cell c d) touched)

retain-retain :
    (p q : Cell → Bool) (xs : List Cell) → retain p (retain q xs) ≡ retain (λ x. q x && p x) xs
retain-retain p q [] = refl
retain-retain p q (x ∷ xs) = ground (arith, retain-retain p q xs)

is_new-append :
    (touched : List Cell) (c d : Cell)
    → is_new (touched ++ c ∷ []) d ≡ (not (same_cell c d) && is_new touched d)
is_new-append [] c d = ground arith
is_new-append (t ∷ touched) c d = ground (arith, is_new-append touched c d)

-- What was touched before is none of the others.
is_new-touched :
    (touched : List Cell) (c d : Cell)
    → any (λ t. same_cell t c) touched ≡ true
    → (not (same_cell c d) && is_new touched d) ≡ is_new touched d
is_new-touched touched c d h = elim (Bool-cases (same_cell c d)) [
  | inl same ↦
      let there : any (λ t. same_cell t d) touched ≡ true =
        subst (λ k. any (λ t. same_cell t k) touched ≡ true) (same_cell-eq c d same) h in
      ap (λ b. not b && is_new touched d) same ∙ ap not (sym there)
  | inr other ↦ ap (λ b. not b && is_new touched d) other
]

touch_all-firsts :
    (cells touched : List Cell)
    → touch_all cells touched ≡ touched ++ retain (is_new touched) (firsts cells)
unfolding touch_all firsts
touch_all-firsts [] touched = sym (append-nil touched)
touch_all-firsts (c ∷ cells) touched =
    let rest : List Cell = firsts cells in
    elim (Bool-cases (any (λ t. same_cell t c) touched)) [
      | inl old ↦
          ap (touch_all cells) (if-true _ touched (touched ++ c ∷ []) old)
          ∙ touch_all-firsts cells touched
          ∙ ap (λ p. touched ++ retain p rest) (sym (fun_ext (λ d. is_new-touched touched c d old)))
          ∙ ap (λ l. touched ++ l)
              (sym (
                if-false (is_new touched c) _ _ (ap not old)
                ∙ retain-retain (is_new touched) (λ x. not (same_cell c x)) rest))
      | inr new ↦
          ap (touch_all cells) (if-false _ touched (touched ++ c ∷ []) new)
          ∙ touch_all-firsts cells (touched ++ c ∷ [])
          ∙ append_assoc touched (c ∷ []) _
          ∙ ap (λ p. touched ++ c ∷ retain p rest) (fun_ext (λ d. is_new-append touched c d))
          ∙ ap (λ l. touched ++ l)
              (sym (
                if-true (is_new touched c) _ _ (ap not new)
                ∙ ap (λ l. c ∷ l) (retain-retain (is_new touched) (λ x. not (same_cell c x)) rest)))
    ]

retain_same : (p : Cell → Bool) (xs : List Cell) → All (λ x. p x ≡ true) xs → retain p xs ≡ xs
retain_same p [] h = refl
retain_same p (x ∷ xs) h = if-true (p x) _ _ h.0 ∙ ap (λ l. x ∷ l) (retain_same p xs h.1)

firsts-All :
    (p : Cell → Bool) (xs : List Cell)
    → All (λ x. p x ≡ true) xs
    → All (λ x. p x ≡ true) (firsts xs)
unfolding firsts
firsts-All p [] h = tt
firsts-All p (x ∷ xs) h = (h.0, All-retain (λ y. p y ≡ true) _ (firsts xs) (firsts-All p xs h.1))

All-true : (xs : List Cell) → All (λ x. true ≡ true) xs
All-true [] = tt
All-true (x ∷ xs) = (refl, All-true xs)

retain-All : (p : Cell → Bool) (xs : List Cell) → All (λ x. p x ≡ true) (retain p xs)
retain-All p [] = tt
retain-All p (x ∷ xs) =
    if-intro (All (λ y. p y ≡ true)) (p x) (x ∷ retain p xs) (retain p xs)
      (λ e. (e, retain-All p xs)) (λ e. retain-All p xs)

module _ {W : Type 0} {U : Type 0} where
  -- What is called marks nothing, and no scope goes or comes.
  abbrev pub IsQuiet : Watching W U → Type 0
  IsQuiet watching =
      ((w : W) (c : Cell) → All (λ f. (u : U) (v : W) → (f u v).1 ≡ []) (watching.observers_of w c))
      × ((w : W) (c : Cell) → All (λ f. (v : W) → (f v).1 ≡ []) (watching.listeners_of w c))
      × ((w v : W) (c : Cell) → watching.is_alive w c ≡ watching.is_alive v c)

  -- The states differ in the world at most.
  abbrev Moved : Notices W U → Notices W U → Type 0
  Moved s t =
      (t.marked ≡ s.marked) × (t.told ≡ s.told) × (t.depth ≡ s.depth) × (t.gave_up ≡ s.gave_up)

  observe_all-Moved :
      (fs : List (Observer W U)) (u : U) (s : Notices W U)
      → All (λ f. (u : U) (v : W) → (f u v).1 ≡ []) fs
      → Moved s (observe_all fs u s)
  unfolding observe_all push_marks
  observe_all-Moved [] u s h = (refl, refl, refl, refl)
  observe_all-Moved (f ∷ fs) u s h =
      let (marked, told, depth, up) = observe_all-Moved fs u (apply (f u s.world) s) h.1 in
      (marked ∙ ap (λ cs. push_marks cs s.marked) (h.0 u s.world), told, depth, up)

  listen_all-Moved :
      (fs : List (Listener W U)) (s : Notices W U)
      → All (λ f. (v : W) → (f v).1 ≡ []) fs
      → Moved s (listen_all fs s)
  unfolding listen_all push_marks
  listen_all-Moved [] s h = (refl, refl, refl, refl)
  listen_all-Moved (f ∷ fs) s h =
      let (marked, told, depth, up) = listen_all-Moved fs (apply (f s.world) s) h.1 in
      (marked ∙ ap (λ cs. push_marks cs s.marked) (h.0 s.world), told, depth, up)

  module _ (watching : Watching W U) where
    tell_update-Moved :
        (cell : Cell) (o : Option U) (s : Notices W U)
        → IsQuiet watching
        → Moved s (tell_update watching cell o s)
    tell_update-Moved cell none s q = (refl, refl, refl, refl)
    tell_update-Moved cell (some u) s q = observe_all-Moved _ u s (q.0 s.world cell)

    run_batch-quiet :
        (batch : List (Change U)) (touched : List Cell) (s : Notices W U) (w : W)
        → IsQuiet watching
        → ((run_batch watching batch touched s).0
            ≡ touch_all (retain (watching.is_alive w) (map (λ c. c.cell) batch)) touched)
          × Moved s (run_batch watching batch touched s).1
    unfolding run_batch touch_all
    run_batch-quiet [] touched s w q = (refl, (refl, refl, refl, refl))
    run_batch-quiet (c ∷ batch) touched s w q =
        let alive = watching.is_alive w in
        let cells = retain alive (map (λ (d : Change U). d.cell) batch) in
        if-intro {A = List Cell × Notices W U}
          (λ r.
            (r.0 ≡ touch_all (if alive c.cell then c.cell ∷ cells else cells) touched)
            × Moved s r.1)
          (watching.is_alive s.world c.cell) _ _
          (λ yes.
            let (marked, told, depth, up) = tell_update-Moved c.cell c.update s q in
            let (same, (marked', told', depth', up')) =
              run_batch-quiet batch (touch c.cell touched) (tell_update watching c.cell c.update s)
                w q in
            (
              same
                  ∙ ap (λ l. touch_all l touched)
                      (sym (
                        if-true (alive c.cell) (c.cell ∷ cells) cells
                          (q.2 w s.world c.cell ∙ yes))),
              (marked' ∙ marked, told' ∙ told, depth' ∙ depth, up' ∙ up),
            ))
          (λ no.
            let (same, moved) = run_batch-quiet batch touched s w q in
            (
              same
                  ∙ ap (λ l. touch_all l touched)
                      (sym (
                        if-false (alive c.cell) (c.cell ∷ cells) cells
                          (q.2 w s.world c.cell ∙ no))),
              moved,
            ))

    tell_all-quiet :
        (touched : List Cell) (s : Notices W U) (w : W)
        → IsQuiet watching
        → ((tell_all watching touched s).told ≡ s.told ++ retain (watching.is_alive w) touched)
          × ((tell_all watching touched s).marked ≡ s.marked)
          × ((tell_all watching touched s).gave_up ≡ s.gave_up)
    unfolding tell_all
    tell_all-quiet [] s w q = (sym (append-nil s.told), refl, refl)
    tell_all-quiet (cell ∷ touched) s w q =
        let alive = watching.is_alive w in
        let rest = retain alive touched in
        if-intro {A = Notices W U}
          (λ t.
            (t.told ≡ s.told ++ (if alive cell then cell ∷ rest else rest))
            × (t.marked ≡ s.marked)
            × (t.gave_up ≡ s.gave_up))
          (watching.is_alive s.world cell) _ _
          (λ yes.
            let begun : Notices W U = record s { told = s.told ++ cell ∷ [] } in
            let heard : Notices W U = listen_all (watching.listeners_of s.world cell) begun in
            let (marked, told, depth, up) = listen_all-Moved _ begun (q.1 s.world cell) in
            let (told', marked', up') = tell_all-quiet touched heard w q in
            (
              told'
                  ∙ ap (λ l. l ++ rest) told
                  ∙ append_assoc s.told (cell ∷ []) rest
                  ∙ ap (λ l. s.told ++ l)
                      (sym (if-true (alive cell) (cell ∷ rest) rest (q.2 w s.world cell ∙ yes))),
              marked' ∙ marked,
              up' ∙ up,
            ))
          (λ no.
            let (told', marked', up') = tell_all-quiet touched s w q in
            (
              told'
                  ∙ ap (λ l. s.told ++ l)
                      (sym (if-false (alive cell) (cell ∷ rest) rest (q.2 w s.world cell ∙ no))),
              marked',
              up',
            ))

    -- The cells of some marks that are of live scopes, each once, in the order of their first marks.
    abbrev pub live_firsts : W → List (Change U) → List Cell
    live_firsts w marked = firsts (retain (watching.is_alive w) (map (λ c. c.cell) marked))

    touched-told :
        (w : W) (cells : List Cell)
        → retain (watching.is_alive w) (touch_all (retain (watching.is_alive w) cells) [])
          ≡ firsts (retain (watching.is_alive w) cells)
    touched-told w cells =
        let alive = watching.is_alive w in
        let all = firsts-All alive (retain alive cells) (retain-All alive cells) in
        ap (retain alive) (
          touch_all-firsts (retain alive cells) []
          ∙ retain_same (λ d. true) (firsts (retain alive cells))
              (All-true (firsts (retain alive cells))))
        ∙ retain_same alive (firsts (retain alive cells)) all

    after_batch-quiet :
        (next : List Cell → Notices W U → Notices W U) (touched : List Cell) (s : Notices W U)
        → s.marked ≡ []
        → (tell_all watching touched s).marked ≡ []
        → after_batch watching next touched s ≡ tell_all watching touched s
    unfolding after_batch
    after_batch-quiet next touched s h k =
        if-true (is_empty s.marked) _ (next touched s) (ap is_empty h)
        ∙ if-true (is_empty (tell_all watching touched s).marked) (tell_all watching touched s) _
            (ap is_empty k)

    rounds-quiet :
        (left : ℕ) (s : Notices W U)
        → IsQuiet watching
        → ((rounds watching (suc left) [] s).told ≡ s.told ++ live_firsts s.world s.marked)
          × ((rounds watching (suc left) [] s).gave_up ≡ s.gave_up)
          × ((rounds watching (suc left) [] s).world
              ≡ told_world watching
                  (live_firsts s.world s.marked)
                  (observed_world watching s.marked s.world))
    unfolding rounds after_batch
    rounds-quiet left s q =
        let begun : Notices W U = record s { marked = [] } in
        let (now, t) = run_batch watching s.marked [] begun in
        let (touched, (marked, told, depth, up)) = run_batch-quiet s.marked [] begun s.world q in
        let (told', marked', up') = tell_all-quiet now t s.world q in
        let same = after_batch-quiet (rounds watching left) now t marked (marked' ∙ marked) in
        (
          ap (λ (u : Notices W U). u.told) same
              ∙ told'
              ∙ ap (λ l. l ++ retain (watching.is_alive s.world) now) told
              ∙ ap (λ l. s.told ++ retain (watching.is_alive s.world) l) touched
              ∙ ap (λ l. s.told ++ l) (touched-told s.world (map (λ c. c.cell) s.marked)),
          ap (λ (u : Notices W U). u.gave_up) same ∙ up' ∙ up,
          ap (λ (u : Notices W U). u.world) same
              ∙ tell_all-world watching now t s.world q.2
              ∙ ap (told_world watching (retain (watching.is_alive s.world) now))
                  (run_batch-world watching s.marked [] begun)
              ∙ ap
                  (λ l.
                    told_world watching (retain (watching.is_alive s.world) l)
                      (observed_world watching s.marked s.world))
                  touched
              ∙ ap (λ l. told_world watching l (observed_world watching s.marked s.world))
                  (touched-told s.world (map (λ c. c.cell) s.marked)),
        )

    -- Where what is called marks nothing, and no scope goes or comes, a drain that no drain is around
    -- does not give up, and the world is then what first the observers make of it, those of each mark of
    -- a live scope with an update, in order, and then the listeners, all those that each cell marked of a
    -- live scope has as its turn comes, in the order of the cells' first marks, each cell once.
    pub drain-quiet :
        (s : Notices W U)
        → s.draining ≡ false
        → IsQuiet watching
        → ((drain watching s).told ≡ s.told ++ live_firsts s.world s.marked)
          × ((drain watching s).gave_up ≡ s.gave_up)
          × ((drain watching s).world
              ≡ told_world watching
                  (live_firsts s.world s.marked)
                  (observed_world watching s.marked s.world))
    unfolding drain firsts told_world observed_world
    drain-quiet s h q =
        if-intro {A = Notices W U}
          (λ t.
            (t.told ≡ s.told ++ live_firsts s.world s.marked)
            × (t.gave_up ≡ s.gave_up)
            × (t.world
                ≡ told_world watching (live_firsts s.world s.marked)
                    (observed_world watching s.marked s.world)))
          (s.draining || is_empty s.marked) s _
          (λ idle. (
            sym (append-nil s.told)
                ∙ ap (λ l. s.told ++ live_firsts s.world l)
                    (sym (is_empty-eq s.marked (ap (λ b. b || is_empty s.marked) (sym h) ∙ idle))),
            refl,
            ap
                (λ l.
                  told_world watching (live_firsts s.world l) (observed_world watching l s.world))
                (sym (is_empty-eq s.marked (ap (λ b. b || is_empty s.marked) (sym h) ∙ idle))),
          ))
          (λ busy. rounds-quiet 15 (record s { draining = true }) q)
