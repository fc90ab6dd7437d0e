-- ===== src/Bus/Going.antt =====
-- A bus of crates/guinea-core/src/actor/event_bus stays sound as a subscription ends.
use guinea.Base.{
  ℕ, ◌+◌, ◌-◌, ◌≡◌, refl, sym, ap, subst, ◌∙◌, Bool, true, false, not, Option, none, some, List, [],
  ◌∷◌, ◌==◌, ==_iff, ==_refl, Bool-cases, if◌then◌else◌, if-intro, if-true, if-false, length,
  length-retain-le, retain, map_or-cases, All-retain, inl, inr, arith,
}
use guinea.Bus.{Subscriber, EventBus, SubscriptionId, put_at, has_seq, release_answer, remove}
use guinea.Bus.Soundness.{
  answers_of, holders, Fits, IsSound, keeps, Ascends-retain, answers_of-retain,
}

abbrev goes_on : ℕ → Subscriber → Bool
goes_on seq sub = not (has_seq seq sub)

-- Nothing goes where the list does not get shorter.
retain_all :
    (p : Subscriber → Bool) (subs : List Subscriber)
    → length subs - length (retain p subs) ≡ 0
    → retain p subs ≡ subs
retain_all p [] h = refl
retain_all p (sub ∷ subs) h = elim (Bool-cases (p sub)) [
  | inl e ↦
      let drops : length (sub ∷ subs) - length (sub ∷ retain p subs) ≡ 0 =
        subst
          (λ b. length (sub ∷ subs) - length (if b then sub ∷ retain p subs else retain p subs) ≡ 0)
          e h in
      if-true (p sub) _ _ e
      ∙ ap (λ xs. sub ∷ xs) (retain_all p subs (omega (arith, drops, length-retain-le p subs)))
  | inr e ↦
      let drops : length (sub ∷ subs) - length (retain p subs) ≡ 0 =
        subst
          (λ b. length (sub ∷ subs) - length (if b then sub ∷ retain p subs else retain p subs) ≡ 0)
          e h in
      absurd (omega (arith, drops, length-retain-le p subs))
]

released_keeps :
    (b : Bool) (seq : ℕ) (held : ℕ × ℕ)
    → (held.0 == seq) ≡ b
    → holders (if b then none else some held) ≡ retain (keeps seq) (held ∷ [])
released_keeps true seq held e = sym (if-false (keeps seq held) _ _ (ap not e))
released_keeps false seq held e = sym (if-true (keeps seq held) _ _ (ap not e))

-- Who is held to answer the event of a subscription that ends: whoever was, unless it is that one.
released_own :
    (id : SubscriptionId) (bus : EventBus)
    → holders ((release_answer id bus).answerers id.event)
      ≡ retain (keeps id.seq) (holders (bus.answerers id.event))
released_own id bus =
    map_or-cases
      (λ (answerers : ℕ → Option (ℕ × ℕ)).
        holders (answerers id.event) ≡ retain (keeps id.seq) (holders (bus.answerers id.event)))
      bus.answerers
      (λ (held : ℕ × ℕ).
        if held.0 == id.seq then put_at id.event none bus.answerers else bus.answerers)
      (bus.answerers id.event)
      (λ e. ap holders e ∙ sym (ap (λ o. retain (keeps id.seq) (holders o)) e))
      (λ held e.
        if-intro
          (λ (answerers : ℕ → Option (ℕ × ℕ)).
            holders (answerers id.event) ≡ retain (keeps id.seq) (holders (bus.answerers id.event)))
          (held.0 == id.seq) (put_at id.event none bus.answerers) bus.answerers
          (λ its.
            ap holders (if-true (id.event == id.event) _ _ (==_refl id.event))
            ∙ released_keeps true id.seq held its
            ∙ sym (ap (λ o. retain (keeps id.seq) (holders o)) e))
          (λ its.
            ap holders e
            ∙ released_keeps false id.seq held its
            ∙ sym (ap (λ o. retain (keeps id.seq) (holders o)) e)))

released_other :
    (id : SubscriptionId) (bus : EventBus) (event : ℕ)
    → (event == id.event) ≡ false
    → (release_answer id bus).answerers event ≡ bus.answerers event
released_other id bus event k =
    map_or-cases (λ (answerers : ℕ → Option (ℕ × ℕ)). answerers event ≡ bus.answerers event)
      bus.answerers
      (λ (held : ℕ × ℕ).
        if held.0 == id.seq then put_at id.event none bus.answerers else bus.answerers)
      (bus.answerers id.event) (λ e. refl)
      (λ held e.
        if-intro (λ (answerers : ℕ → Option (ℕ × ℕ)). answerers event ≡ bus.answerers event)
          (held.0 == id.seq) (put_at id.event none bus.answerers) bus.answerers
          (λ its. if-false (event == id.event) _ _ k) (λ its. refl))

gone-Fits :
    (id : SubscriptionId) (bus : EventBus)
    → IsSound bus
    → Fits id.event bus.next_id
        (retain (goes_on id.seq) (bus.subscribers id.event))
        (bus.counts id.event
          - (length (bus.subscribers id.event)
              - length (retain (goes_on id.seq) (bus.subscribers id.event))))
        ((release_answer id bus).answerers id.event)
gone-Fits id bus sound =
    let f = sound id.event in
    let subs : List Subscriber = bus.subscribers id.event in
    (
      Ascends-retain (goes_on id.seq) 0 bus.next_id subs f.0,
      omega (arith, f.1, length-retain-le (goes_on id.seq) subs),
      released_own id bus ∙ ap (retain (keeps id.seq)) f.2 ∙ sym (answers_of-retain id.seq subs),
      All-retain (λ s. s.event ≡ id.event) (goes_on id.seq) subs f.3,
    )

unchanged-Fits :
    (id : SubscriptionId) (bus : EventBus)
    → IsSound bus
    → length (bus.subscribers id.event)
        - length (retain (goes_on id.seq) (bus.subscribers id.event))
      ≡ 0
    → Fits id.event bus.next_id
        (bus.subscribers id.event)
        (bus.counts id.event)
        ((release_answer id bus).answerers id.event)
unchanged-Fits id bus sound h =
    let f = sound id.event in
    let all_stay : retain (goes_on id.seq) (bus.subscribers id.event) ≡ bus.subscribers id.event =
      retain_all (goes_on id.seq) (bus.subscribers id.event) h in
    (f.0, f.1, (gone-Fits id bus sound).2 ∙ ap answers_of all_stay, f.3)

pub remove-IsSound : (id : SubscriptionId) (bus : EventBus) → IsSound bus → IsSound (remove id bus)
unfolding remove
remove-IsSound id bus sound =
    let freed : EventBus = release_answer id bus in
    let subs : List Subscriber = bus.subscribers id.event in
    let kept : List Subscriber = retain (goes_on id.seq) subs in
    let removed : ℕ = length subs - length kept in
    let after : EventBus = record freed {
      subscribers = put_at id.event kept freed.subscribers;
      counts = put_at id.event (freed.counts id.event - removed) freed.counts;
      changes = freed.changes + 1;
    } in
    if-intro IsSound (removed == 0) freed after
      (λ (none_went : (removed == 0) ≡ true) (event : ℕ). elim (Bool-cases (event == id.event)) [
        | inl e ↦
            subst (λ v. Fits v bus.next_id (bus.subscribers v) (bus.counts v) (freed.answerers v))
              (sym ((==_iff event id.event).0 e))
              (unchanged-Fits id bus sound ((==_iff removed 0).0 none_went))
        | inr e ↦
            subst (λ h. Fits event bus.next_id (bus.subscribers event) (bus.counts event) h)
              (sym (released_other id bus event e)) (sound event)
      ])
      (λ some_went event. elim (Bool-cases (event == id.event)) [
        | inl e ↦
            subst
              (λ b.
                Fits event bus.next_id (if b then kept else bus.subscribers event)
                  (if b then bus.counts id.event - removed else bus.counts event)
                  (freed.answerers event))
              (sym e)
              (subst
                (λ v. Fits v bus.next_id kept (bus.counts id.event - removed) (freed.answerers v))
                (sym ((==_iff event id.event).0 e)) (gone-Fits id bus sound))
        | inr e ↦
            subst
              (λ b.
                Fits event bus.next_id (if b then kept else bus.subscribers event)
                  (if b then bus.counts id.event - removed else bus.counts event)
                  (freed.answerers event))
              (sym e)
              (subst (λ h. Fits event bus.next_id (bus.subscribers event) (bus.counts event) h)
                (sym (released_other id bus event e)) (sound event))
      ])
