-- ===== src/Bus/Ending.antt =====
-- The loop of a publication on a bus of crates/guinea-core/src/actor/event_bus ends, and what is
-- counted stays in bounds.
use guinea.Base.{
  ℕ, zero, suc, ◌+◌, ◌≤◌, ◌≡◌, sym, ap, ◌∙◌, Bool, List, [], ◌∷◌, ◌++◌, length, append-nil,
  append_assoc, arith,
}
use guinea.Bus.{
  Subscriber, new_bus, count_subscribers, deliver, Publication, Delivery, Publishing, publish,
  go_on,
}
use guinea.Bus.Soundness.{length-le-Ascends, new_bus-IsSound}
use guinea.Bus.Publications.{Steps, quiet, Steps-bus-IsSound}

-- Rounds of the loop, where those that are told do nothing to the bus.
abbrev pub rounds : ℕ → (ℕ → Bool) → Publishing → Publishing
rounds zero sleeps s = s
rounds (suc n) sleeps s = rounds n sleeps (go_on sleeps s)

-- What each is handed.
abbrev pub deliveries : (ℕ → Bool) → ℕ → ℕ → List Subscriber → List Delivery
deliveries sleeps number event [] = []
deliveries sleeps number event (sub ∷ subs) =
    record { publication = number; subscriber = sub; heard = deliver sleeps event sub }
    ∷ deliveries sleeps number event subs

rounds-left :
    (sleeps : ℕ → Bool) (number event : ℕ) (left : List Subscriber) (outer : List Publication)
    (s : Publishing)
    → rounds
        (suc (length left))
        sleeps
        (record s { going_on = record { number = number; event = event; left = left } ∷ outer })
      ≡ record s {
        going_on = outer;
        delivered = s.delivered ++ deliveries sleeps number event left;
      }
unfolding go_on
rounds-left sleeps number event [] outer s =
    ap (λ ds. record s { going_on = outer; delivered = ds }) (sym (append-nil s.delivered))
rounds-left sleeps number event (sub ∷ left) outer s =
    rounds-left sleeps number event left outer (record s {
      delivered =
          s.delivered
          ++ record { publication = number; subscriber = sub; heard = deliver sleeps event sub }
            ∷ [];
    })
    ∙ ap (λ ds. record s { going_on = outer; delivered = ds })
        (append_assoc s.delivered (_ ∷ []) (deliveries sleeps number event left))

-- Where those that are told do nothing to the bus, the loop of a publication ends after one round
-- for each, having told each once, in order, and all else is as before.
pub publish-rounds :
    (sleeps : ℕ → Bool) (event : ℕ) (s : Publishing)
    → rounds (suc (length (s.bus.subscribers event))) sleeps (publish event s) ≡ record s {
      delivered = s.delivered ++ deliveries sleeps s.published event (s.bus.subscribers event);
      published = s.published + 1;
    }
unfolding publish
publish-rounds sleeps event s =
    rounds-left sleeps s.published event (s.bus.subscribers event) s.going_on
      (record s { published = s.published + 1 })

-- Whatever happens on a new bus while its numbers are in bounds, the count of an event's subscribers
-- is how many there are, and no more than the numbers given out, so that it never wraps.
pub count_subscribers-le :
    (event : ℕ) (t : Publishing)
    → Steps (quiet new_bus) t
    → (count_subscribers event t.bus ≡ length (t.bus.subscribers event))
      × (count_subscribers event t.bus ≤ t.bus.next_id)
count_subscribers-le event t happened =
    let f = Steps-bus-IsSound (quiet new_bus) t new_bus-IsSound happened event in
    (f.1, omega (arith, f.1, length-le-Ascends 0 t.bus.next_id (t.bus.subscribers event) f.0))
