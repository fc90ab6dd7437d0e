-- ===== src/Bus/Keeping.antt =====
-- A bus of crates/guinea-core/src/actor/event_bus stays sound as one subscribes to it or goes.
use guinea.Base.{
  ℕ, ◌+◌, ◌%◌, ◌≤◌, ◌<◌, ◌≡◌, refl, sym, ap, subst, ◌∙◌, Bool, false, Option, none, some, List, [],
  ◌∷◌, ◌++◌, ◌==◌, ==_iff, ==_refl, Bool-cases, if◌then◌else◌, if-true, if-false, length-append,
  map_or, map_or-cases, All-append, append-nil, inl, inr, arith,
}
use guinea.Bus.{
  u64_bound, Ear, Subscriber, EventBus, answerer, put_at, push, claim, insert, subscribe,
}
use guinea.Bus.Soundness.{
  answers_from, answers_of, holders, Ascends, Fits, IsSound, Ascends-widen, Ascends-append,
  length-le-Ascends, answers_of-append,
}

-- The claim of a bus that came about, if it did not panic.
abbrev pub IfAny : (EventBus → Type 0) → Option EventBus → Type 0
IfAny P o = map_or Unit P o

pushed-Fits :
    (event next next' count : ℕ) (held held' : Option (ℕ × ℕ)) (sub : Subscriber)
    (subs : List Subscriber)
    → Fits event next subs count held
    → sub.event ≡ event
    → sub.seq ≡ next
    → next' ≡ sub.seq + 1
    → next' < u64_bound
    → holders held' ≡ holders held ++ answers_of (sub ∷ [])
    → Fits event next' (subs ++ sub ∷ []) ((count + 1) % u64_bound) held'
pushed-Fits event next next' count held held' sub subs f own seq up below answers = (
  subst (λ n. Ascends 0 n (subs ++ sub ∷ [])) (sym up)
      (Ascends-append 0 next subs sub (omega (arith, seq)) f.0),
  omega (
    arith,
    f.1,
    length-append subs (sub ∷ []),
    length-le-Ascends 0 next subs f.0,
    seq,
    up,
    below,
  ),
  answers ∙ ap (λ xs. xs ++ answers_of (sub ∷ [])) f.2 ∙ sym (answers_of-append subs (sub ∷ [])),
  All-append (λ s. s.event ≡ event) subs (sub ∷ []) f.3 (own, tt),
)

Fits-widen :
    (event next next' count : ℕ) (held : Option (ℕ × ℕ)) (subs : List Subscriber)
    → next ≤ next'
    → Fits event next subs count held
    → Fits event next' subs count held
Fits-widen event next next' count held subs h f =
    (Ascends-widen 0 next next' subs h f.0, f.1, f.2, f.3)

push-Fits :
    (bus : EventBus) (sub : Subscriber) (held : ℕ → Option (ℕ × ℕ)) (event : ℕ)
    → IsSound bus
    → bus.next_id + 1 < u64_bound
    → sub.seq ≡ bus.next_id
    → holders (held sub.event) ≡ holders (bus.answerers sub.event) ++ answers_of (sub ∷ [])
    → ((event == sub.event) ≡ false → held event ≡ bus.answerers event)
    → Fits event
        ((bus.next_id + 1) % u64_bound)
        (put_at sub.event (bus.subscribers sub.event ++ sub ∷ []) bus.subscribers event)
        (put_at sub.event ((bus.counts sub.event + 1) % u64_bound) bus.counts event)
        (held event)
push-Fits bus sub held event sound below seq own other =
    let next' : ℕ = (bus.next_id + 1) % u64_bound in
    let Split : Bool → Type 0 = λ b.
      Fits event next' (if b then bus.subscribers sub.event ++ sub ∷ [] else bus.subscribers event)
        (if b then (bus.counts sub.event + 1) % u64_bound else bus.counts event) (held event) in
    elim (Bool-cases (event == sub.event)) [
      | inl e ↦ subst Split (sym e) (
          subst
            (λ v.
              Fits v next' (bus.subscribers sub.event ++ sub ∷ [])
                ((bus.counts sub.event + 1) % u64_bound) (held v))
            (sym ((==_iff event sub.event).0 e))
            (pushed-Fits sub.event bus.next_id next' (bus.counts sub.event)
              (bus.answerers sub.event) (held sub.event) sub (bus.subscribers sub.event)
              (sound sub.event) refl seq (omega (arith, below, seq)) (omega (arith, below)) own))
      | inr e ↦ subst Split (sym e) (
          subst (λ h. Fits event next' (bus.subscribers event) (bus.counts event) h) (sym (other e))
            (Fits-widen event bus.next_id next' (bus.counts event) (bus.answerers event)
              (bus.subscribers event) (omega (arith, below)) (sound event)))
    ]

pub subscribe-IsSound :
    (event : ℕ) (ear : Ear) (bus : EventBus)
    → bus.next_id + 1 < u64_bound
    → IsSound bus
    → IfAny IsSound (subscribe event ear bus)
unfolding insert
subscribe-IsSound event ear bus below sound =
    let sub : Subscriber = record { seq = bus.next_id; event = event; ear = ear } in
    let next_bus : EventBus = record bus { next_id = (bus.next_id + 1) % u64_bound } in
    map_or-cases (IfAny IsSound) (some (push sub next_bus))
      (λ name.
        map_or (some (push sub (claim sub name next_bus))) (λ already. none) (bus.answerers event))
      (answerer sub)
      (λ e v.
        push-Fits bus sub bus.answerers v sound below refl
          (sym (append-nil (holders (bus.answerers event)))
            ∙ ap (λ o. holders (bus.answerers event) ++ answers_from bus.next_id o []) (sym e))
          (λ k. refl))
      (λ name e.
        map_or-cases (IfAny IsSound) (some (push sub (claim sub name next_bus))) (λ already. none)
          (bus.answerers event)
          (λ free v.
            push-Fits bus sub (put_at event (some (bus.next_id, name)) bus.answerers) v sound below
              refl
              (ap holders (if-true (event == event) _ _ (==_refl event))
                ∙ ap (λ o. answers_from bus.next_id o []) (sym e)
                ∙ ap (λ o. holders o ++ answers_of (sub ∷ [])) (sym free))
              (λ k. if-false (v == event) _ _ k))
          (λ already held. tt))
