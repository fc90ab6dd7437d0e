-- ===== src/Bus/Once.antt =====
-- A request on a bus of crates/guinea-core/src/actor/event_bus is handed whole to one that answers it.
use guinea.Base.{
  ℕ, ◌+◌, ◌≤◌, ◌≡◌, sym, ap, ◌∙◌, Bool, true, false, Option, none, some, List, [], ◌∷◌, ◌++◌, ◌==◌,
  if◌then◌else◌, if-intro, length, length-append, All, All-append, arith,
}
use guinea.Bus.{
  Ear, actor, callback, answer_fn, Subscriber, EventBus, Heard, whole, overheard, nothing, answerer,
  ear_answerer, hand, deliver, Publication, Delivery, Publishing, publish, deliver_next, go_on_with,
  go_on,
}
use guinea.Bus.Soundness.{answers_from, answers_of, answers_of-append, holders, IsSound}
use guinea.Bus.Publications.{
  Step, subscribes, ends, publishes, goes_on, Steps, stays, steps, quiet, Steps-bus-IsSound,
}
use guinea.Bus.Hearing.{reached_by, left_of, published-reached_by}

abbrev weight : Heard → ℕ
weight whole = 1
weight overheard = 0
weight nothing = 0

-- How often a publication was handed over whole.
abbrev pub wholes : ℕ → List Delivery → ℕ
wholes n [] = 0
wholes n (d ∷ delivered) =
    let rest = wholes n delivered in if d.publication == n then weight d.heard + rest else rest

abbrev voices : Subscriber → ℕ
voices sub = length (answers_from sub.seq (answerer sub) [])

-- What is handed over whole is so to one that answers.
abbrev AreFair : List Delivery → Type 0
AreFair delivered = All (λ d. weight d.heard ≤ voices d.subscriber) delivered

hand-fair :
    (sleeps : ℕ → Bool) (seq : ℕ) (ear : Ear)
    → weight (hand sleeps ear) ≤ length (answers_from seq (ear_answerer ear) [])
hand-fair sleeps seq (actor addr name true) =
    if-intro (λ h. weight h ≤ 1) (sleeps addr) nothing whole (λ e. omega arith) (λ e. omega arith)
hand-fair sleeps seq (actor addr name false) =
    if-intro (λ h. weight h ≤ 0) (sleeps addr) nothing overheard (λ e. omega arith)
      (λ e. omega arith)
hand-fair sleeps seq callback = omega arith
hand-fair sleeps seq answer_fn = omega arith

deliver-fair :
    (sleeps : ℕ → Bool) (event : ℕ) (sub : Subscriber)
    → weight (deliver sleeps event sub) ≤ voices sub
deliver-fair sleeps event sub =
    if-intro (λ h. weight h ≤ voices sub) (sub.event == event) (hand sleeps sub.ear) nothing
      (λ e. hand-fair sleeps sub.seq sub.ear) (λ e. omega arith)

deliver_next-fair :
    (sleeps : ℕ → Bool) (p : Publication) (outer : List Publication) (left : List Subscriber)
    (s : Publishing)
    → AreFair s.delivered
    → AreFair (deliver_next sleeps p outer left s).delivered
deliver_next-fair sleeps p outer [] s h = h
deliver_next-fair sleeps p outer (sub ∷ left) s h =
    All-append (λ d. weight d.heard ≤ voices d.subscriber) s.delivered (_ ∷ []) h
      (deliver-fair sleeps p.event sub, tt)

go_on-fair :
    (sleeps : ℕ → Bool) (going_on : List Publication) (s : Publishing)
    → AreFair s.delivered
    → AreFair (go_on_with sleeps going_on s).delivered
go_on-fair sleeps [] s h = h
go_on-fair sleeps (p ∷ outer) s h = deliver_next-fair sleeps p outer p.left s h

Step-fair : {s t : Publishing} → Step s t → AreFair s.delivered → AreFair t.delivered
unfolding publish go_on
Step-fair (subscribes event ear bus below e) h = h
Step-fair (ends id) h = h
Step-fair (publishes event) h = h
Step-fair {s = s} (goes_on sleeps) h = go_on-fair sleeps s.going_on s h

Steps-fair : (s t : Publishing) → Steps s t → AreFair s.delivered → AreFair t.delivered
Steps-fair s t stays h = h
Steps-fair s t (steps {t = between} before step) h = Step-fair step (Steps-fair s between before h)

answers_from-length :
    (seq : ℕ) (o : Option ℕ) (rest : List (ℕ × ℕ))
    → length (answers_from seq o rest) ≡ length (answers_from seq o []) + length rest
answers_from-length seq none rest = omega arith
answers_from-length seq (some name) rest = omega arith

counted :
    (b : Bool) (d : Delivery) (heard : List Subscriber) (n : ℕ)
    → weight d.heard ≤ voices d.subscriber
    → n ≤ length (answers_of heard)
    → (if b then weight d.heard + n else n)
      ≤ length (answers_of (if b then d.subscriber ∷ heard else heard))
counted true d heard n h k =
    omega
      (arith, h, k, answers_from-length d.subscriber.seq (answerer d.subscriber) (answers_of heard))
counted false d heard n h k = k

holders-le : (held : Option (ℕ × ℕ)) → length (holders held) ≤ 1
holders-le none = omega arith
holders-le (some held) = omega arith

wholes-le :
    (n : ℕ) (delivered : List Delivery)
    → AreFair delivered
    → wholes n delivered ≤ length (answers_of (reached_by n delivered))
wholes-le n [] h = omega arith
wholes-le n (d ∷ delivered) h =
    counted (d.publication == n) d (reached_by n delivered) (wholes n delivered) h.0
      (wholes-le n delivered h.1)

-- Of what is published on a sound bus, at most one that hears it is handed it whole, so that a
-- request is answered at most once, whatever happens before and while it is published.
pub published-wholes-le :
    (event : ℕ) (bus : EventBus) (s t : Publishing)
    → IsSound bus
    → Steps (quiet bus) s
    → Steps (publish event s) t
    → wholes s.published t.delivered ≤ 1
unfolding publish
published-wholes-le event bus s t sound before after =
    let fair = Steps-fair (publish event s) t after (Steps-fair (quiet bus) s before tt) in
    let heard : List Subscriber = reached_by s.published t.delivered in
    let left : List Subscriber = left_of s.published t.going_on in
    let one : length (holders (s.bus.answerers event)) ≤ 1 = holders-le (s.bus.answerers event) in
    let split : holders (s.bus.answerers event) ≡ answers_of heard ++ answers_of left =
      (Steps-bus-IsSound (quiet bus) s sound before event).2
      ∙ ap answers_of (sym (published-reached_by event bus s t sound before after).0)
      ∙ answers_of-append heard left in
    omega (
      arith,
      wholes-le s.published t.delivered fair,
      one,
      ap length split,
      length-append (answers_of heard) (answers_of left),
    )
