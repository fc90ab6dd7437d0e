-- ===== src/Bus/Publications.antt =====
-- The publications on a bus of crates/guinea-core/src/actor/event_bus: who hears one, whatever
-- those that are told do meanwhile.
use guinea.Base.{ℕ, ◌+◌, ◌<◌, ◌≡◌, refl, sym, subst, Bool, some, List, [], ◌∷◌}
use guinea.Bus.{
  u64_bound, Ear, Subscriber, EventBus, SubscriptionId, subscribe, remove, Publication, Publishing,
  publish, deliver_next, go_on_with, go_on,
}
use guinea.Bus.Soundness.{IsSound}
use guinea.Bus.Keeping.{IfAny, subscribe-IsSound}
use guinea.Bus.Going.{remove-IsSound}

-- What happens to a bus: something subscribes, a subscription ends, an event is published, and the
-- innermost publication goes on. What one that is told does while it is told comes before that.
pub data Step (s : Publishing) : Publishing → Type 0 where
  subscribes :
      (event : ℕ) (ear : Ear) (bus : EventBus)
      → s.bus.next_id + 1 < u64_bound
      → subscribe event ear s.bus ≡ some bus
      → Step s (record s { bus = bus })
  ends : (id : SubscriptionId) → Step s (record s { bus = remove id s.bus })
  publishes : (event : ℕ) → Step s (publish event s)
  goes_on : (sleeps : ℕ → Bool) → Step s (go_on sleeps s)

pub data Steps (s : Publishing) : Publishing → Type 0 where
  stays : Steps s s
  steps : {t u : Publishing} → Steps s t → Step t u → Steps s u

abbrev pub quiet : EventBus → Publishing
quiet bus = record { bus = bus; going_on = []; delivered = []; published = 0 }

deliver_next-bus :
    (sleeps : ℕ → Bool) (p : Publication) (outer : List Publication) (left : List Subscriber)
    (s : Publishing)
    → (deliver_next sleeps p outer left s).bus ≡ s.bus
deliver_next-bus sleeps p outer [] s = refl
deliver_next-bus sleeps p outer (sub ∷ left) s = refl

go_on-bus :
    (sleeps : ℕ → Bool) (going_on : List Publication) (s : Publishing)
    → (go_on_with sleeps going_on s).bus ≡ s.bus
go_on-bus sleeps [] s = refl
go_on-bus sleeps (p ∷ outer) s = deliver_next-bus sleeps p outer p.left s

pub deliver_next-published :
    (sleeps : ℕ → Bool) (p : Publication) (outer : List Publication) (left : List Subscriber)
    (s : Publishing)
    → (deliver_next sleeps p outer left s).published ≡ s.published
deliver_next-published sleeps p outer [] s = refl
deliver_next-published sleeps p outer (sub ∷ left) s = refl

pub go_on-published :
    (sleeps : ℕ → Bool) (going_on : List Publication) (s : Publishing)
    → (go_on_with sleeps going_on s).published ≡ s.published
go_on-published sleeps [] s = refl
go_on-published sleeps (p ∷ outer) s = deliver_next-published sleeps p outer p.left s

Step-IsSound : {s t : Publishing} → Step s t → IsSound s.bus → IsSound t.bus
unfolding publish go_on
Step-IsSound {s = s} (subscribes event ear bus below e) h =
    subst (IfAny IsSound) e (subscribe-IsSound event ear s.bus below h)
Step-IsSound {s = s} (ends id) h = remove-IsSound id s.bus h
Step-IsSound (publishes event) h = h
Step-IsSound {s = s} (goes_on sleeps) h = subst IsSound (sym (go_on-bus sleeps s.going_on s)) h

-- Where a bus is sound it stays so, whatever happens, while its numbers are in bounds: of each event, the
-- subscribers stand in the order they came, each once and under its own event, the count is how many there
-- are, and who is held to answer is the one subscriber that answers, if there is one.
pub Steps-bus-IsSound : (s t : Publishing) → IsSound s.bus → Steps s t → IsSound t.bus
Steps-bus-IsSound s t h stays = h
Steps-bus-IsSound s t h (steps {t = between} before step) =
    Step-IsSound step (Steps-bus-IsSound s between h before)
