-- ===== src/Notify/Worlds.antt =====
-- What the observers and the listeners of crates/guinea-core/src/notify.rs make of the world, with what
-- a batch of `drain` and its loop over the cells touched make of it.
use guinea.Base.{
  ◌≡◌, refl, sym, ap, ◌∙◌, Bool, true, false, Option, none, some, List, [], ◌∷◌, retain, if-intro,
  if-true, if-false, if◌then◌else◌,
}
use guinea.Notify.{
  Cell, Change, Notices, Watching, Observer, Listener, apply, observe_all, listen_all, tell_update,
  run_batch, tell_all,
}

if-map {ℓ} :
    {A : Type ℓ} {W : Type 0} (g : A → W) (b : Bool) (x y : A) {v w : W}
    → g x ≡ v
    → g y ≡ w
    → g (if b then x else y) ≡ (if b then v else w)
if-map g true x y e f = e
if-map g false x y e f = f

module _ {W : Type 0} {U : Type 0} where
  -- What listeners, observers, and an update make of the world, one after the other.
  unfoldable pub heard_world : List (Listener W U) → W → W
  heard_world [] w = w
  heard_world (f ∷ fs) w = heard_world fs (f w).0

  unfoldable pub seen_world : List (Observer W U) → U → W → W
  seen_world [] u w = w
  seen_world (f ∷ fs) u w = seen_world fs u (f u w).0

  listen_all-world :
      (fs : List (Listener W U)) (s : Notices W U)
      → (listen_all fs s).world ≡ heard_world fs s.world
  unfolding listen_all heard_world
  listen_all-world [] s = refl
  listen_all-world (f ∷ fs) s = listen_all-world fs (apply (f s.world) s)

  observe_all-world :
      (fs : List (Observer W U)) (u : U) (s : Notices W U)
      → (observe_all fs u s).world ≡ seen_world fs u s.world
  unfolding observe_all seen_world
  observe_all-world [] u s = refl
  observe_all-world (f ∷ fs) u s = observe_all-world fs u (apply (f u s.world) s)

  module _ (watching : Watching W U) where
    abbrev pub update_world : Cell → Option U → W → W
    update_world cell none w = w
    update_world cell (some u) w = seen_world (watching.observers_of w cell) u w

    -- What the observers of each live cell make of the world, each told every update, in order.
    unfoldable pub observed_world : List (Change U) → W → W
    observed_world [] w = w
    observed_world (c ∷ marked) w =
        if watching.is_alive w c.cell
        then observed_world marked (update_world c.cell c.update w)
        else observed_world marked w

    -- What the listeners of some cells make of the world, all of each cell's, in order.
    unfoldable pub told_world : List Cell → W → W
    told_world [] w = w
    told_world (cell ∷ cells) w = told_world cells (heard_world (watching.listeners_of w cell) w)

    tell_update-world :
        (cell : Cell) (o : Option U) (s : Notices W U)
        → (tell_update watching cell o s).world ≡ update_world cell o s.world
    tell_update-world cell none s = refl
    tell_update-world cell (some u) s = observe_all-world (watching.observers_of s.world cell) u s

    pub run_batch-world :
        (batch : List (Change U)) (touched : List Cell) (s : Notices W U)
        → (run_batch watching batch touched s).1.world ≡ observed_world batch s.world
    unfolding run_batch observed_world
    run_batch-world [] touched s = refl
    run_batch-world (c ∷ batch) touched s =
        if-map (λ (r : List Cell × Notices W U). r.1.world) (watching.is_alive s.world c.cell) _ _
          (run_batch-world batch _ (tell_update watching c.cell c.update s)
            ∙ ap (observed_world batch) (tell_update-world c.cell c.update s))
          (run_batch-world batch touched s)

    pub tell_all-world :
        (touched : List Cell) (s : Notices W U) (w : W)
        → ((v u : W) (c : Cell) → watching.is_alive v c ≡ watching.is_alive u c)
        → (tell_all watching touched s).world
          ≡ told_world (retain (watching.is_alive w) touched) s.world
    unfolding tell_all told_world
    tell_all-world [] s w q = refl
    tell_all-world (cell ∷ touched) s w q =
        let alive = watching.is_alive w in
        let rest = retain alive touched in
        if-intro {A = Notices W U}
          (λ t. t.world ≡ told_world (if alive cell then cell ∷ rest else rest) s.world)
          (watching.is_alive s.world cell) _ _
          (λ yes.
            tell_all-world touched _ w q
            ∙ ap (told_world rest) (listen_all-world (watching.listeners_of s.world cell) _)
            ∙ ap (λ l. told_world l s.world)
                (sym (if-true (alive cell) (cell ∷ rest) rest (q w s.world cell ∙ yes))))
          (λ no.
            tell_all-world touched s w q
            ∙ ap (λ l. told_world l s.world)
                (sym (if-false (alive cell) (cell ∷ rest) rest (q w s.world cell ∙ no))))
