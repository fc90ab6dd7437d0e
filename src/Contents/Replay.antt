-- ===== src/Contents/Replay.antt =====
-- The states of crates/guinea-core/src/scope/state.rs against a plain map from types to states, on
-- which only seeding and pushing do anything.
use guinea.Base.{
  ℕ, ◌≡◌, refl, sym, ap, ap₂, subst, ◌∙◌, none, some, List, [], ◌∷◌, ◌++◌, inl, inr, ◌==◌, ==_iff,
  Bool-cases, if-true, if-false, if◌then◌else◌, map_or, map_or-cases, arith,
}
use guinea.Contents.{
  Cell, Contents, holding, put_at, hold, set_cell, unsubscribe, stop_observing, ensure, state,
  write, push, add_listener, add_observer, subscribe, observe, Op, reads, seeds, pushes, subscribes,
  observes, unsubscribes, stops_observing, do_op, run,
}
use guinea.Contents.Slots.{
  IsSound, put_at-cases, kept-AreApart, hold-IsSound, put_at-eq, put_at-other, other-slot,
}

module _ (default : ℕ → ℕ) (reduce : ℕ → ℕ → ℕ → ℕ) where
  abbrev pub states : Contents → ℕ → ℕ
  states s ty = state default reduce ty s

  hold-states :
      (ty value : ℕ) (s : Contents)
      → IsSound s
      → (t : ℕ) → states (hold ty value s) t ≡ put_at ty value (states s) t
  hold-states ty value s (below, apart) t =
      elim (put_at-cases ty t (some (holding s.next_slot)) s.cells) [
        | inl (here, eq) ↦
            ap (map_or (default t) (λ (c : Cell). put_at s.next_slot value s.values c.slot)) eq
            ∙ put_at-eq s.next_slot value s.values
            ∙ sym (if-true (t == ty) value (states s t) ((==_iff t ty).1 here))
        | inr (other, eq) ↦
            ap (map_or (default t) (λ (c : Cell). put_at s.next_slot value s.values c.slot)) eq
            ∙ other-slot (default t) s.next_slot value s.values (s.cells t)
                (λ c at e. omega (arith, below t c at, e))
            ∙ sym (put_at-other ty t value (states s) other)
      ]

  -- A write to a cell's slot changes that state and no other.
  write-states :
      (ty update : ℕ) (c : Cell) (s : Contents)
      → IsSound s
      → s.cells ty ≡ some c
      → (t : ℕ)
      → states (write default reduce ty update s) t
        ≡ put_at ty (reduce ty (states s ty) update) (states s) t
  write-states ty update c s (below, apart) at t =
      let value : ℕ = reduce ty (s.values c.slot) update in
      let written : Contents = record s { values = put_at c.slot value s.values } in
      let read : states s ty ≡ s.values c.slot =
        ap (map_or (default ty) (λ (d : Cell). s.values d.slot)) at in
      ap
        (λ o.
          states
            (map_or s
              (λ (d : Cell). record s {
                values = put_at d.slot (reduce ty (s.values d.slot) update) s.values;
              })
              o)
            t)
        at
      ∙ elim (Bool-cases (t == ty)) [
        | inl same ↦
            let here : t ≡ ty = (==_iff t ty).0 same in
            ap (map_or (default t) (λ (d : Cell). put_at c.slot value s.values d.slot))
              (ap s.cells here ∙ at)
            ∙ put_at-eq c.slot value s.values
            ∙ ap (λ v. reduce ty v update) (sym read)
            ∙ sym (if-true (t == ty) (reduce ty (states s ty) update) (states s t) same)
        | inr other ↦
            other-slot (default t) c.slot value s.values (s.cells t)
              (λ d at' e. absurd (ground (arith, other, apart t ty d c at' at e)))
            ∙ sym (if-false (t == ty) (reduce ty (states s ty) update) (states s t) other)
      ]

  -- What is not there yet reads as the default.
  missing-state :
      (ty t : ℕ) (s : Contents)
      → s.cells ty ≡ none
      → put_at ty (default ty) (states s) t ≡ states s t
  missing-state ty t s missing = elim (Bool-cases (t == ty)) [
    | inl same ↦
        let here : t ≡ ty = (==_iff t ty).0 same in
        if-true (t == ty) (default ty) (states s t) same
        ∙ ap default (sym here)
        ∙ sym (ap (map_or (default t) (λ (d : Cell). s.values d.slot)) (ap s.cells here ∙ missing))
    | inr other ↦ if-false (t == ty) (default ty) (states s t) other
  ]

  ensure-cases :
      (ty : ℕ) (s : Contents)
      → IsSound s
      → IsSound (ensure default reduce ty s)
        × ((t : ℕ) → states (ensure default reduce ty s) t ≡ states s t)
        × ((c : Cell) × ((ensure default reduce ty s).cells ty ≡ some c))
  unfolding ensure
  ensure-cases ty s h =
      map_or-cases
        (λ (u : Contents).
          IsSound u × ((t : ℕ) → states u t ≡ states s t) × ((c : Cell) × (u.cells ty ≡ some c)))
        (hold ty (default ty) s) (λ c. s) (s.cells ty)
        (λ missing. (
          hold-IsSound ty (default ty) s h,
          (λ t. hold-states ty (default ty) s h t ∙ missing-state ty t s missing),
          (holding s.next_slot, put_at-eq ty (some (holding s.next_slot)) s.cells),
        ))
        (λ c at. (h, (λ t. refl), (c, at)))

  -- A cell that keeps its slot keeps every state.
  kept-states :
      (ty : ℕ) (c d : Cell) (s : Contents)
      → s.cells ty ≡ some c
      → d.slot ≡ c.slot
      → (t : ℕ) → states (set_cell ty d s) t ≡ states s t
  kept-states ty c d s at same t = elim (put_at-cases ty t (some d) s.cells) [
    | inl (here, eq) ↦
        ap (map_or (default t) (λ (e : Cell). s.values e.slot)) eq
        ∙ ap s.values same
        ∙ sym (ap (map_or (default t) (λ (e : Cell). s.values e.slot)) (ap s.cells here ∙ at))
    | inr (other, eq) ↦ ap (map_or (default t) (λ (e : Cell). s.values e.slot)) eq
  ]

  -- What an operation does to the states, and nothing else does.
  abbrev pub replay_op : Op → (ℕ → ℕ) → ℕ → ℕ
  replay_op (seeds ty value) f = put_at ty value f
  replay_op (pushes ty update) f = put_at ty (reduce ty (f ty) update) f
  replay_op (reads ty) f = f
  replay_op (subscribes ty callback) f = f
  replay_op (observes ty callback) f = f
  replay_op (unsubscribes ty id) f = f
  replay_op (stops_observing ty id) f = f

  unfoldable pub replay : List Op → (ℕ → ℕ) → ℕ → ℕ
  replay [] f = f
  replay (op ∷ ops) f = replay ops (replay_op op f)

  abbrev Refines : (ℕ → ℕ) → Contents → Type 0
  Refines f s = IsSound s × ((t : ℕ) → states s t ≡ f t)

  -- A cell that is there keeps its slot.
  kept-Refines :
      (ty : ℕ) (change : Cell → Cell) (f : ℕ → ℕ) (s : Contents)
      → ((c : Cell) → (change c).slot ≡ c.slot)
      → Refines f s
      → Refines f (map_or s (λ c. set_cell ty (change c) s) (s.cells ty))
  kept-Refines ty change f s same h =
      map_or-cases (Refines f) s (λ c. set_cell ty (change c) s) (s.cells ty) (λ e. h)
        (λ c at. (
          kept-AreApart s.next_slot ty c (change c) s.cells at (same c) h.0,
          (λ t. kept-states ty c (change c) s at (same c) t ∙ h.1 t),
        ))

  ensure-Refines :
      (ty : ℕ) (f : ℕ → ℕ) (s : Contents) → Refines f s → Refines f (ensure default reduce ty s)
  ensure-Refines ty f s h =
      let (sound, same, there) = ensure-cases ty s h.0 in (sound, (λ t. same t ∙ h.1 t))

  listener-Refines :
      (ty callback : ℕ) (f : ℕ → ℕ) (s : Contents)
      → Refines f s
      → Refines f (add_listener default reduce ty callback s)
  listener-Refines ty callback f s h =
      map_or-cases (Refines f) s _ (s.cells ty) (λ e. h)
        (λ c at. (
          kept-AreApart s.next_slot ty c
              (record c { listeners = c.listeners ++ (s.next_subscriber, callback) ∷ [] }) s.cells
              at refl h.0,
          (λ t.
              kept-states ty c
                (record c { listeners = c.listeners ++ (s.next_subscriber, callback) ∷ [] }) s at
                refl t
              ∙ h.1 t),
        ))

  observer-Refines :
      (ty callback : ℕ) (f : ℕ → ℕ) (s : Contents)
      → Refines f s
      → Refines f (add_observer default reduce ty callback s)
  observer-Refines ty callback f s h =
      map_or-cases (Refines f) s _ (s.cells ty) (λ e. h)
        (λ c at. (
          kept-AreApart s.next_slot ty c
              (record c { observers = c.observers ++ (s.next_subscriber, callback) ∷ [] }) s.cells
              at refl h.0,
          (λ t.
              kept-states ty c
                (record c { observers = c.observers ++ (s.next_subscriber, callback) ∷ [] }) s at
                refl t
              ∙ h.1 t),
        ))

  put_at-ext :
      (i a b : ℕ) (f g : ℕ → ℕ)
      → a ≡ b
      → ((t : ℕ) → f t ≡ g t)
      → (t : ℕ) → put_at i a f t ≡ put_at i b g t
  put_at-ext i a b f g h k t = ap₂ (λ x y. if t == i then x else y) h (k t)

  push-Refines :
      (ty update : ℕ) (f : ℕ → ℕ) (s : Contents)
      → Refines f s
      → Refines (put_at ty (reduce ty (f ty) update) f) (push default reduce ty update s)
  unfolding push
  push-Refines ty update f s h =
      let (sound, same, (c, at)) = ensure-cases ty s h.0 in
      let made : Contents = ensure default reduce ty s in
      (
        subst
            (λ o. IsSound (
              map_or made
                (λ (d : Cell). record made {
                  values = put_at d.slot (reduce ty (made.values d.slot) update) made.values;
                })
                o))
            (sym at) sound,
        (λ t.
            write-states ty update c made sound at t
            ∙ put_at-ext ty _ _ (states made) f (ap (λ v. reduce ty v update) (same ty ∙ h.1 ty))
                (λ u. same u ∙ h.1 u) t),
      )

  do_op-Refines :
      (op : Op) (f : ℕ → ℕ) (s : Contents)
      → Refines f s
      → Refines (replay_op op f) (do_op default reduce op s)
  unfolding do_op subscribe observe unsubscribe stop_observing
  do_op-Refines (reads ty) f s h = ensure-Refines ty f s h
  do_op-Refines (seeds ty value) f s h = (
    hold-IsSound ty value s h.0,
    (λ t. hold-states ty value s h.0 t ∙ put_at-ext ty value value (states s) f refl h.1 t),
  )
  do_op-Refines (pushes ty update) f s h = push-Refines ty update f s h
  do_op-Refines (subscribes ty callback) f s h =
      listener-Refines ty callback f _ (ensure-Refines ty f s h)
  do_op-Refines (observes ty callback) f s h =
      observer-Refines ty callback f _ (ensure-Refines ty f s h)
  do_op-Refines (unsubscribes ty id) f s h = kept-Refines ty _ f s (λ c. refl) h
  do_op-Refines (stops_observing ty id) f s h = kept-Refines ty _ f s (λ c. refl) h

  run-Refines :
      (ops : List Op) (f : ℕ → ℕ) (s : Contents)
      → Refines f s
      → Refines (replay ops f) (run default reduce ops s)
  unfolding run replay
  run-Refines [] f s h = h
  run-Refines (op ∷ ops) f s h = run-Refines ops _ _ (do_op-Refines op f s h)

  -- Where each cell has a slot of its own, the states read after any calls are those of a plain map on
  -- which seeding sets, pushing reduces and nothing else does anything; and each cell has a slot of
  -- its own still.
  pub run-replay :
      (ops : List Op) (s : Contents)
      → IsSound s
      → IsSound (run default reduce ops s)
        × ((t : ℕ) → state default reduce t (run default reduce ops s) ≡ replay ops (states s) t)
  run-replay ops s h = run-Refines ops (states s) s (h, (λ t. refl))
