-- ===== src/Bus.antt =====
-- crates/guinea-core/src/actor/event_bus/mod.rs and subscribe.rs: a bus, who is subscribed to it, who
-- answers a request, and a publication. An event type, an actor and the name of an actor's type are
-- numbers; whether an actor sleeps is a parameter, asked at each delivery. A panic is none.
pub mod Soundness
pub mod Keeping
pub mod Going
pub mod Publications
pub mod Handing
pub mod Hearing
pub mod Once
pub mod Ending
pub mod Answers
mod Tests
use guinea.Rpc.{Answering, awake, nobody_answers, answerer_sleeps}
use guinea.Base.{
  ℕ, zero, suc, ◌+◌, ◌-◌, ◌%◌, Bool, true, false, not, Option, none, some, List, [], ◌∷◌, ◌++◌,
  ◌==◌, if◌then◌else◌, length, retain, map_or,
}

-- The bound of a `u64` and of a `usize`.
abbrev pub u64_bound : ℕ
u64_bound = 18446744073709551616

-- `Subscriber`, `FnSubscriber` and `AnswerFn`: an actor, with its type and whether its handler answers.
pub data Ear : Type 0 where
  actor : (addr name : ℕ) (answers : Bool) → Ear
  callback answer_fn : Ear

-- An `UntypedSubscriber`.
pub record Subscriber : Type 0 where
  pub seq : ℕ
  pub event : ℕ
  pub ear : Ear

-- `EventBus`; of a change only how many devtools were told of.
pub record EventBus : Type 0 where
  pub subscribers : ℕ → List Subscriber
  pub counts : ℕ → ℕ
  pub answerers : ℕ → Option (ℕ × ℕ)
  pub next_id : ℕ
  pub changes : ℕ

-- `SubscriptionId`
pub record SubscriptionId : Type 0 where
  pub seq : ℕ
  pub event : ℕ

-- What a subscriber is handed: the event, only a copy that it overhears, or nothing.
pub data Heard : Type 0 where
  whole overheard nothing : Heard

-- The name of what answers by a callback.
abbrev pub a_callback : ℕ
a_callback = 0

-- `UntypedSubscriber::answerer`
abbrev pub ear_answerer : Ear → Option ℕ
ear_answerer (actor addr name true) = some name
ear_answerer (actor addr name false) = none
ear_answerer callback = none
ear_answerer answer_fn = some a_callback

abbrev pub answerer : Subscriber → Option ℕ
answerer sub = ear_answerer sub.ear

-- `UntypedSubscriber::is_asleep`
abbrev pub ear_is_asleep : (ℕ → Bool) → Ear → Bool
ear_is_asleep sleeps (actor addr name answers) = sleeps addr
ear_is_asleep sleeps _ = false

abbrev pub hand : (ℕ → Bool) → Ear → Heard
hand sleeps (actor addr name answers) =
    if sleeps addr then nothing else (if answers then whole else overheard)
hand sleeps callback = overheard
hand sleeps answer_fn = whole

-- `UntypedSubscriber::deliver`: a message of another type is of no use to it.
abbrev pub deliver : (ℕ → Bool) → ℕ → Subscriber → Heard
deliver sleeps event sub = if sub.event == event then hand sleeps sub.ear else nothing

abbrev pub put_at {ℓ} : {A : Type ℓ} → ℕ → A → (ℕ → A) → ℕ → A
put_at i a f j = if j == i then a else f j

-- `EventBus::new`
abbrev pub new_bus : EventBus
new_bus = record {
  subscribers = λ event. [];
  counts = λ event. 0;
  answerers = λ event. none;
  next_id = 0;
  changes = 0;
}

-- The end of `EventBus::insert`.
abbrev pub push : Subscriber → EventBus → EventBus
push sub bus = record bus {
  counts = put_at sub.event ((bus.counts sub.event + 1) % u64_bound) bus.counts;
  subscribers = put_at sub.event (bus.subscribers sub.event ++ sub ∷ []) bus.subscribers;
  changes = bus.changes + 1;
}

abbrev pub claim : Subscriber → ℕ → EventBus → EventBus
claim sub name bus = record bus {
  answerers = put_at sub.event (some (sub.seq, name)) bus.answerers;
}

-- `EventBus::insert`; none is the panic over a second answerer.
unfoldable pub insert : Subscriber → EventBus → Option EventBus
insert sub bus =
    map_or (some (push sub bus))
      (λ name.
        map_or (some (push sub (claim sub name bus))) (λ already. none) (bus.answerers sub.event))
      (answerer sub)

-- `EventBus::subscribe`, `subscribe_fn` and `answer_fn`, with `next_id`.
abbrev pub subscribe : ℕ → Ear → EventBus → Option EventBus
subscribe event ear bus =
    insert (record { seq = bus.next_id; event = event; ear = ear })
      (record bus { next_id = (bus.next_id + 1) % u64_bound })

abbrev pub has_seq : ℕ → Subscriber → Bool
has_seq seq sub = sub.seq == seq

abbrev pub release_answer : SubscriptionId → EventBus → EventBus
release_answer id bus = record bus {
  answerers =
      map_or bus.answerers
        (λ (held : ℕ × ℕ).
          if held.0 == id.seq then put_at id.event none bus.answerers else bus.answerers)
        (bus.answerers id.event);
}

-- `EventBus::remove`
unfoldable pub remove : SubscriptionId → EventBus → EventBus
remove id bus =
    let freed = release_answer id bus in
    let list = freed.subscribers id.event in
    let kept = retain (λ sub. not (has_seq id.seq sub)) list in
    let removed = length list - length kept in
    if removed == 0 then freed else (record freed {
      subscribers = put_at id.event kept freed.subscribers;
      counts = put_at id.event (freed.counts id.event - removed) freed.counts;
      changes = freed.changes + 1;
    })

-- `EventBus::count_subscribers`
abbrev pub count_subscribers : ℕ → EventBus → ℕ
count_subscribers event bus = bus.counts event

abbrev pub find : ℕ → List Subscriber → Option Subscriber
find seq [] = none
find seq (sub ∷ subs) = if has_seq seq sub then some sub else find seq subs

-- `EventBus::answering`
unfoldable pub answering : (ℕ → Bool) → ℕ → EventBus → Answering
answering sleeps event bus =
    map_or nobody_answers
      (λ (held : ℕ × ℕ).
        if map_or false (λ sub. ear_is_asleep sleeps sub.ear) (find held.0 (bus.subscribers event))
        then answerer_sleeps held.1
        else awake)
      (bus.answerers event)

-- A publication that goes on: its event, and those of the copied list that are still to be told.
pub record Publication : Type 0 where
  pub number : ℕ
  pub event : ℕ
  pub left : List Subscriber

-- A delivery, by the number of its publication.
pub record Delivery : Type 0 where
  pub publication : ℕ
  pub subscriber : Subscriber
  pub heard : Heard

-- A bus with the publications that go on, the innermost first, and what was delivered.
pub record Publishing : Type 0 where
  pub bus : EventBus
  pub going_on : List Publication
  pub delivered : List Delivery
  pub published : ℕ

-- `EventBus::publish` up to its loop.
unfoldable pub publish : ℕ → Publishing → Publishing
publish event s = record s {
  going_on =
      record { number = s.published; event = event; left = s.bus.subscribers event } ∷ s.going_on;
  published = s.published + 1;
}

abbrev pub deliver_next :
    (ℕ → Bool) → Publication → List Publication → List Subscriber → Publishing → Publishing
deliver_next sleeps p outer [] s = record s { going_on = outer }
deliver_next sleeps p outer (sub ∷ left) s = record s {
  going_on = record p { left = left } ∷ outer;
  delivered =
      s.delivered
      ++ record { publication = p.number; subscriber = sub; heard = deliver sleeps p.event sub }
        ∷ [];
}

abbrev pub go_on_with : (ℕ → Bool) → List Publication → Publishing → Publishing
go_on_with sleeps [] s = s
go_on_with sleeps (p ∷ outer) s = deliver_next sleeps p outer p.left s

-- One round of the loop of `EventBus::publish` of the innermost publication, or its end.
unfoldable pub go_on : (ℕ → Bool) → Publishing → Publishing
go_on sleeps s = go_on_with sleeps s.going_on s
