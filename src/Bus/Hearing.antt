-- ===== src/Bus/Hearing.antt =====
-- Whom a publication on a bus of crates/guinea-core/src/actor/event_bus is delivered to, whatever
-- those that are told do meanwhile.
use guinea.Base.{
  ℕ, ◌<◌, ◌≡◌, refl, sym, ap, subst, ◌∙◌, Bool, true, false, List, [], ◌∷◌, ◌++◌, ◌==◌, ==_ne,
  ==_refl, if◌then◌else◌, if-true, if-false, append-nil, append_assoc, All, All-append, All-map,
  arith,
}
use guinea.Bus.{
  Subscriber, EventBus, Publication, Delivery, Publishing, publish, deliver_next, go_on_with, go_on,
}
use guinea.Bus.Publications.{
  Step, subscribes, ends, publishes, goes_on, Steps, stays, steps, quiet, go_on-published,
  Steps-bus-IsSound,
}
use guinea.Bus.Soundness.{Ascends, IsSound}
use guinea.Bus.Handing.{IsHanded, Steps-AreHanded}

-- Those that a publication was delivered to, in order, whatever each was handed: an actor that sleeps is
-- handed nothing.
abbrev pub reached_by : ℕ → List Delivery → List Subscriber
reached_by n [] = []
reached_by n (d ∷ delivered) =
    let rest = reached_by n delivered in if d.publication == n then d.subscriber ∷ rest else rest

-- Those that a publication is still to be delivered to.
abbrev pub left_of : ℕ → List Publication → List Subscriber
left_of n [] = []
left_of n (p ∷ outer) = let rest = left_of n outer in if p.number == n then p.left ++ rest else rest

abbrev to_hear : ℕ → Publishing → List Subscriber
to_hear n s = reached_by n s.delivered ++ left_of n s.going_on

float :
    (b : Bool) (sub : Subscriber) (xs ys : List Subscriber)
    → (if b then sub ∷ (xs ++ ys) else (xs ++ ys)) ≡ (if b then sub ∷ xs else xs) ++ ys
float true sub xs ys = refl
float false sub xs ys = refl

reached_by-append :
    (n : ℕ) (xs : List Delivery) (d : Delivery)
    → reached_by n (xs ++ d ∷ [])
      ≡ reached_by n xs ++ (if d.publication == n then d.subscriber ∷ [] else [])
reached_by-append n [] d = refl
reached_by-append n (x ∷ xs) d =
    ap (λ rest. if x.publication == n then x.subscriber ∷ rest else rest) (reached_by-append n xs d)
    ∙ float (x.publication == n) x.subscriber (reached_by n xs)
        (if d.publication == n then d.subscriber ∷ [] else [])

moved :
    (b : Bool) (sub : Subscriber) (heard left outer : List Subscriber)
    → (heard ++ (if b then sub ∷ [] else [])) ++ (if b then left ++ outer else outer)
      ≡ heard ++ (if b then sub ∷ (left ++ outer) else outer)
moved true sub heard left outer = append_assoc heard (sub ∷ []) (left ++ outer)
moved false sub heard left outer = ap (λ xs. xs ++ outer) (append-nil heard)

finished : (b : Bool) (outer : List Subscriber) → outer ≡ (if b then outer else outer)
finished true outer = refl
finished false outer = refl

deliver_next-to_hear :
    (n : ℕ) (sleeps : ℕ → Bool) (p : Publication) (outer : List Publication)
    (left : List Subscriber) (s : Publishing)
    → to_hear n (deliver_next sleeps p outer left s)
      ≡ reached_by n s.delivered
        ++ (if p.number == n then left ++ left_of n outer else left_of n outer)
deliver_next-to_hear n sleeps p outer [] s =
    ap (λ xs. reached_by n s.delivered ++ xs) (finished (p.number == n) (left_of n outer))
deliver_next-to_hear n sleeps p outer (sub ∷ left) s =
    ap (λ xs. xs ++ (if p.number == n then left ++ left_of n outer else left_of n outer))
      (reached_by-append n s.delivered _)
    ∙ moved (p.number == n) sub (reached_by n s.delivered) left (left_of n outer)

go_on-to_hear :
    (n : ℕ) (sleeps : ℕ → Bool) (going_on : List Publication) (s : Publishing)
    → s.going_on ≡ going_on
    → to_hear n (go_on_with sleeps going_on s) ≡ reached_by n s.delivered ++ left_of n going_on
go_on-to_hear n sleeps [] s e = ap (λ g. reached_by n s.delivered ++ left_of n g) e
go_on-to_hear n sleeps (p ∷ outer) s e = deliver_next-to_hear n sleeps p outer p.left s

Step-to_hear :
    (n : ℕ) {s t : Publishing}
    → Step s t
    → n < s.published
    → (to_hear n t ≡ to_hear n s) × (n < t.published)
unfolding publish go_on
Step-to_hear n (subscribes event ear bus below e) h = (refl, h)
Step-to_hear n (ends id) h = (refl, h)
Step-to_hear n {s = s} (publishes event) h = (
  ap (λ xs. reached_by n s.delivered ++ xs)
      (if-false (s.published == n) _ _ (==_ne s.published n (λ e. omega (arith, h, e)))),
  omega (arith, h),
)
Step-to_hear n {s = s} (goes_on sleeps) h = (
  go_on-to_hear n sleeps s.going_on s refl,
  subst (λ k. n < k) (sym (go_on-published sleeps s.going_on s)) h,
)

Steps-to_hear :
    (n : ℕ) (s t : Publishing)
    → Steps s t
    → n < s.published
    → (to_hear n t ≡ to_hear n s) × (n < t.published)
Steps-to_hear n s t stays h = (refl, h)
Steps-to_hear n s t (steps {t = between} before step) h =
    let ih = Steps-to_hear n s between before h in
    let last = Step-to_hear n step ih.1 in (last.0 ∙ ih.0, last.1)

-- The publications and deliveries have numbers that were given out.
abbrev IsNumbered : ℕ → List Delivery → List Publication → Type 0
IsNumbered bound delivered going_on =
    All (λ d. d.publication < bound) delivered × All (λ p. p.number < bound) going_on

unheard :
    (n : ℕ) (delivered : List Delivery)
    → All (λ d. d.publication < n) delivered
    → reached_by n delivered ≡ []
unheard n [] h = refl
unheard n (d ∷ delivered) h =
    if-false (d.publication == n) _ _ (==_ne d.publication n (λ e. omega (arith, h.0, e)))
    ∙ unheard n delivered h.1

unleft :
    (n : ℕ) (going_on : List Publication)
    → All (λ p. p.number < n) going_on
    → left_of n going_on ≡ []
unleft n [] h = refl
unleft n (p ∷ outer) h =
    if-false (p.number == n) _ _ (==_ne p.number n (λ e. omega (arith, h.0, e)))
    ∙ unleft n outer h.1

deliver_next-IsNumbered :
    (sleeps : ℕ → Bool) (p : Publication) (outer : List Publication) (left : List Subscriber)
    (s : Publishing)
    → All (λ d. d.publication < s.published) s.delivered
    → p.number < s.published
    → All (λ q. q.number < s.published) outer
    → IsNumbered s.published
        (deliver_next sleeps p outer left s).delivered
        (deliver_next sleeps p outer left s).going_on
deliver_next-IsNumbered sleeps p outer [] s h k l = (h, l)
deliver_next-IsNumbered sleeps p outer (sub ∷ left) s h k l =
    (All-append (λ d. d.publication < s.published) s.delivered (_ ∷ []) h (k, tt), (k, l))

go_on-IsNumbered :
    (sleeps : ℕ → Bool) (going_on : List Publication) (s : Publishing)
    → s.going_on ≡ going_on
    → IsNumbered s.published s.delivered going_on
    → IsNumbered s.published
        (go_on_with sleeps going_on s).delivered
        (go_on_with sleeps going_on s).going_on
go_on-IsNumbered sleeps [] s e h = subst (IsNumbered s.published s.delivered) (sym e) h
go_on-IsNumbered sleeps (p ∷ outer) s e h =
    deliver_next-IsNumbered sleeps p outer p.left s h.0 h.1.0 h.1.1

Step-IsNumbered :
    {s t : Publishing}
    → Step s t
    → IsNumbered s.published s.delivered s.going_on
    → IsNumbered t.published t.delivered t.going_on
unfolding publish go_on
Step-IsNumbered (subscribes event ear bus below e) h = h
Step-IsNumbered (ends id) h = h
Step-IsNumbered {s = s} (publishes event) h = (
  All-map (λ d k. omega (arith, k)) s.delivered h.0,
  (omega arith, All-map (λ p k. omega (arith, k)) s.going_on h.1),
)
Step-IsNumbered {s = s} (goes_on sleeps) h =
    subst (λ n. IsNumbered n (go_on sleeps s).delivered (go_on sleeps s).going_on)
      (sym (go_on-published sleeps s.going_on s)) (go_on-IsNumbered sleeps s.going_on s refl h)

Steps-IsNumbered :
    (s t : Publishing)
    → IsNumbered s.published s.delivered s.going_on
    → Steps s t
    → IsNumbered t.published t.delivered t.going_on
Steps-IsNumbered s t h stays = h
Steps-IsNumbered s t h (steps {t = between} before step) =
    Step-IsNumbered step (Steps-IsNumbered s between h before)

pub published-reached_by :
    (event : ℕ) (bus : EventBus) (s t : Publishing)
    → IsSound bus
    → Steps (quiet bus) s
    → Steps (publish event s) t
    → (reached_by s.published t.delivered ++ left_of s.published t.going_on
        ≡ s.bus.subscribers event)
      × Ascends 0 s.bus.next_id
          (reached_by s.published t.delivered ++ left_of s.published t.going_on)
      × All IsHanded t.delivered
unfolding publish
published-reached_by event bus s t sound before after =
    let fresh = Steps-IsNumbered (quiet bus) s (tt, tt) before in
    let here = Steps-bus-IsSound (quiet bus) s sound before in
    let handed = Steps-AreHanded (quiet bus) s sound (tt, tt) before in
    let all : to_hear s.published t ≡ s.bus.subscribers event =
      (Steps-to_hear s.published (publish event s) t after (omega arith)).0
      ∙ ap (λ xs. xs ++ left_of s.published (publish event s).going_on)
          (unheard s.published s.delivered fresh.0)
      ∙ if-true (s.published == s.published) _ _ (==_refl s.published)
      ∙ ap (λ xs. s.bus.subscribers event ++ xs) (unleft s.published s.going_on fresh.1)
      ∙ append-nil (s.bus.subscribers event) in
    (
      all,
      subst (Ascends 0 s.bus.next_id) (sym all) (here event).0,
      (Steps-AreHanded (publish event s) t here (handed.0, ((here event).3, handed.1)) after).0,
    )
