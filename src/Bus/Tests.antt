-- ===== src/Bus/Tests.antt =====
-- A bus with one that listens and one that answers.
use guinea.Base.{ℕ, ◌≡◌, ◌≤◌, refl, Bool, true, false, none, [], ◌∷◌, length, ◌==◌, arith}
use guinea.Rpc.{answerer_sleeps}
use guinea.Bus.{
  actor, callback, answer_fn, Subscriber, EventBus, SubscriptionId, new_bus, push, claim, insert,
  subscribe, remove, count_subscribers, answering, Publishing, publish, go_on,
}
use guinea.Bus.Soundness.{IsSound, new_bus-IsSound}
use guinea.Bus.Publications.{
  Steps, subscribes, ends, goes_on, stays, steps, quiet, Steps-bus-IsSound,
}
use guinea.Bus.Once.{wholes, published-wholes-le}
use guinea.Bus.Answers.{answering_of, answering-of}
use guinea.Bus.Ending.{rounds, deliveries, publish-rounds, count_subscribers-le}

abbrev nobody_sleeps : ℕ → Bool
nobody_sleeps addr = false

abbrev hearer : Subscriber
hearer = record { seq = 0; event = 7; ear = callback }

abbrev replier : Subscriber
replier = record { seq = 1; event = 7; ear = actor 3 9 true }

abbrev one_hears : EventBus
one_hears = push hearer (record new_bus { next_id = 1 })

abbrev two_hear : EventBus
two_hear = push replier (claim replier 9 (record one_hears { next_id = 2 }))

abbrev of_hearer : SubscriptionId
of_hearer = record { seq = 0; event = 7 }

-- A second answerer of the same event panics.
second_answerer : subscribe 7 answer_fn two_hear ≡ none
unfolding insert
second_answerer = refl

two_heard : Steps (quiet new_bus) (quiet two_hear)
unfolding insert
two_heard =
    steps (steps stays (subscribes 7 callback one_hears (omega arith) refl))
      (subscribes 7 (actor 3 9 true) two_hear (omega arith) refl)

-- The first that is told goes, and so does not stand on the bus, while it is told.
abbrev first_goes : Publishing
first_goes =
    let told : Publishing = go_on nobody_sleeps (publish 7 (quiet two_hear)) in
    go_on nobody_sleeps (record told { bus = remove of_hearer told.bus })

first_goes-Steps : Steps (publish 7 (quiet two_hear)) first_goes
first_goes-Steps =
    steps (steps (steps stays (goes_on nobody_sleeps)) (ends of_hearer)) (goes_on nobody_sleeps)

Steps-bus-IsSound_example : IsSound first_goes.bus
unfolding publish
Steps-bus-IsSound_example =
    Steps-bus-IsSound (publish 7 (quiet two_hear)) first_goes
      (Steps-bus-IsSound (quiet new_bus) (quiet two_hear) new_bus-IsSound two_heard)
      first_goes-Steps

published-wholes-le_example : wholes 0 first_goes.delivered ≤ 1
published-wholes-le_example =
    published-wholes-le 7 two_hear (quiet two_hear) first_goes
      (Steps-bus-IsSound (quiet new_bus) (quiet two_hear) new_bus-IsSound two_heard) stays
      first_goes-Steps

answering-of_example :
    answering (λ addr. addr == 3) 7 two_hear
    ≡ answering_of (λ addr. addr == 3) (hearer ∷ replier ∷ [])
answering-of_example =
    answering-of (λ addr. addr == 3) 7 two_hear
      (Steps-bus-IsSound (quiet new_bus) (quiet two_hear) new_bus-IsSound two_heard)

asleep : answering (λ addr. addr == 3) 7 two_hear ≡ answerer_sleeps 9
unfolding answering
asleep = refl

publish-rounds_example :
    rounds 3 nobody_sleeps (publish 7 (quiet two_hear)) ≡ record (quiet two_hear) {
      delivered = deliveries nobody_sleeps 0 7 (hearer ∷ replier ∷ []);
      published = 1;
    }
publish-rounds_example = publish-rounds nobody_sleeps 7 (quiet two_hear)

count_subscribers-le_example :
    (count_subscribers 7 two_hear ≡ length (two_hear.subscribers 7))
    × (count_subscribers 7 two_hear ≤ two_hear.next_id)
count_subscribers-le_example = count_subscribers-le 7 (quiet two_hear) two_heard
