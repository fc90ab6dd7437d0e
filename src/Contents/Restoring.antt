-- ===== src/Contents/Restoring.antt =====
-- States that go through the cache, and subscriptions that end: crates/guinea-core/src/scope/state.rs.
use guinea.Base.{
  ℕ, ◌+◌, ◌%◌, ◌<◌, ◌≡◌, refl, sym, ap, subst, ◌∙◌, not, Option, none, some, List, [], ◌∷◌, ◌++◌,
  inl, inr, ◌==◌, ==_iff, ==_ne, if-true, if-false, All, map_or, map_or-cases, arith,
}
use guinea.Contents.{
  Cell, Contents, holding, put_at, hold, set_cell, but, numbers, peek, listeners_of,
  snapshot_states, restore_states, unsubscribe, ensure, state, add_listener, subscribe, u64_bound,
}
use guinea.Contents.Slots.{put_at-cases, put_at-eq, put_at-other}

module _ (default : ℕ → ℕ) (reduce : ℕ → ℕ → ℕ → ℕ) where
  restored-one :
      (missing : ℕ) (values : ℕ → ℕ) (o p : Option Cell)
      → map_or missing
          (λ (c : Cell). values c.slot)
          (map_or p (λ slot. some (holding slot)) (map_or none (λ (c : Cell). some c.slot) o))
        ≡ map_or
            (map_or missing (λ (c : Cell). values c.slot) p)
            (λ v. v)
            (map_or none (λ (c : Cell). some (values c.slot)) o)
  restored-one missing values none p = refl
  restored-one missing values (some c) p = refl

  restored-listeners :
      (o p : Option Cell)
      → map_or []
          (λ (c : Cell). numbers c.listeners)
          (map_or p (λ slot. some (holding slot)) (map_or none (λ (c : Cell). some c.slot) o))
        ≡ map_or (map_or [] (λ (c : Cell). numbers c.listeners) p) (λ (c : Cell). []) o
  restored-listeners none p = refl
  restored-listeners (some c) p = refl

  -- Restored into a scope over the same slots, a snapshot's states read as in the scope it was taken
  -- of, with nobody listening; a type that the snapshot has not is as it was.
  pub restore_states-snapshot_states :
      (s t : Contents) (ty : ℕ)
      → t.values ≡ s.values
      → (state default reduce ty (restore_states (snapshot_states s) t)
          ≡ map_or (state default reduce ty t) (λ v. v) (peek ty s))
        × (listeners_of ty (restore_states (snapshot_states s) t)
            ≡ map_or (listeners_of ty t) (λ (c : Cell). []) (s.cells ty))
  unfolding restore_states
  restore_states-snapshot_states s t ty shared = (
    restored-one (default ty) t.values (s.cells ty) (t.cells ty)
        ∙ ap
            (λ (values : ℕ → ℕ).
              map_or (state default reduce ty t) (λ v. v)
                (map_or none (λ (c : Cell). some (values c.slot)) (s.cells ty)))
            shared,
    restored-listeners (s.cells ty) (t.cells ty),
  )

  but-below :
      (id callback : ℕ) (listeners : List (ℕ × ℕ))
      → All (λ p. p.0 < id) listeners
      → but id (listeners ++ (id, callback) ∷ []) ≡ listeners
  but-below id callback [] h = if-false (not (id == id)) _ [] (ap not ((==_iff id id).1 refl))
  but-below id callback (p ∷ listeners) h =
      if-true (not (p.0 == id)) _ _ (ap not (==_ne p.0 id (λ e. omega (arith, e, h.0))))
      ∙ ap (λ l. p ∷ l) (but-below id callback listeners h.1)

  abbrev heard : Option Cell → List ℕ
  heard o = map_or [] (λ (d : Cell). numbers d.listeners) o

  -- A new cell that nobody is told of, where there was none.
  unheard :
      (ty t : ℕ) (c : Cell) (E : ℕ → Option Cell)
      → E ty ≡ none
      → numbers c.listeners ≡ []
      → heard (put_at ty (some c) E t) ≡ heard (E t)
  unheard ty t c E missing quiet = elim (put_at-cases ty t (some c) E) [
    | inl (here, eq) ↦ ap heard eq ∙ quiet ∙ sym (ap heard (ap E here ∙ missing))
    | inr (other, eq) ↦ ap heard eq
  ]

  unsubscribe-add_listener :
      (ty callback : ℕ) (c : Cell) (s : Contents)
      → s.cells ty ≡ some c
      → All (λ p. p.0 < s.next_subscriber) c.listeners
      → (t : ℕ)
      → listeners_of t
          (unsubscribe ty s.next_subscriber (add_listener default reduce ty callback s))
        ≡ listeners_of t s
  unfolding unsubscribe
  unsubscribe-add_listener ty callback c s at below t =
      let id : ℕ = s.next_subscriber in
      let told : Cell = record c { listeners = c.listeners ++ (id, callback) ∷ [] } in
      let left : Cell = record c { listeners = but id (c.listeners ++ (id, callback) ∷ []) } in
      let with_it : Contents = record (set_cell ty told s) {
        next_subscriber = (id + 1) % u64_bound;
      } in
      ap
        (λ o. listeners_of t (
          unsubscribe ty id (
            map_or s
              (λ (d : Cell).
                record (set_cell ty (record d { listeners = d.listeners ++ (id, callback) ∷ [] })
                  s) { next_subscriber = (id + 1) % u64_bound })
              o)))
        at
      ∙ ap
          (λ o. listeners_of t (
            map_or with_it
              (λ (d : Cell). set_cell ty (record d { listeners = but id d.listeners }) with_it) o))
          (put_at-eq ty (some told) s.cells)
      ∙ elim (put_at-cases ty t (some left) (put_at ty (some told) s.cells)) [
        | inl (here, eq) ↦
            ap heard eq
            ∙ ap numbers (but-below id callback c.listeners below)
            ∙ sym (ap heard (ap s.cells here ∙ at))
        | inr (other, eq) ↦ ap heard eq ∙ ap heard (put_at-other ty t (some told) s.cells other)
      ]

  -- A subscription that ends leaves who is told of each state as before it, in the same order, where
  -- the numbers of those told of its own state were given out before.
  pub unsubscribe-subscribe :
      (ty callback : ℕ) (s : Contents)
      → All (λ p. p.0 < s.next_subscriber) (map_or [] (λ (c : Cell). c.listeners) (s.cells ty))
      → (t : ℕ)
      → listeners_of t (unsubscribe ty s.next_subscriber (subscribe default reduce ty callback s))
        ≡ listeners_of t s
  unfolding subscribe ensure
  unsubscribe-subscribe ty callback s below t =
      map_or-cases
        (λ (u : Contents).
          listeners_of t
            (unsubscribe ty s.next_subscriber (add_listener default reduce ty callback u))
          ≡ listeners_of t s)
        (hold ty (default ty) s) (λ c. s) (s.cells ty)
        (λ missing.
          unsubscribe-add_listener ty callback (holding s.next_slot) (hold ty (default ty) s)
            (put_at-eq ty (some (holding s.next_slot)) s.cells) tt t
          ∙ unheard ty t (holding s.next_slot) s.cells missing refl)
        (λ c at.
          unsubscribe-add_listener ty callback c s at
            (subst
              (λ o. All (λ p. p.0 < s.next_subscriber) (map_or [] (λ (d : Cell). d.listeners) o)) at
              below)
            t)
