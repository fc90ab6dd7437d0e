-- ===== src/Bus/Handing.antt =====
-- What is handed over on a bus of crates/guinea-core/src/actor/event_bus: `Subscriber::deliver` never
-- meets an event of another type.
use guinea.Base.{
  ℕ, ◌≡◌, refl, sym, subst, Bool, List, [], ◌∷◌, ◌==◌, ==_iff, if-true, All, All-append,
}
use guinea.Bus.{
  Subscriber, hand, Publication, Delivery, Publishing, publish, deliver_next, go_on_with, go_on,
}
use guinea.Bus.Soundness.{IsSound}
use guinea.Bus.Publications.{
  Step, subscribes, ends, publishes, goes_on, Steps, stays, steps, Steps-bus-IsSound,
}

-- What was handed over is what the subscriber is for, whether it slept or not.
abbrev pub IsHanded : Delivery → Type 0
IsHanded d = (sleeps : (ℕ → Bool)) × (d.heard ≡ hand sleeps d.subscriber.ear)

abbrev IsTyped : Publication → Type 0
IsTyped p = All (λ (sub : Subscriber). sub.event ≡ p.event) p.left

abbrev pub AreHanded : List Delivery → List Publication → Type 0
AreHanded delivered going_on = All IsHanded delivered × All IsTyped going_on

deliver_next-AreHanded :
    (sleeps : ℕ → Bool) (p : Publication) (outer : List Publication) (left : List Subscriber)
    (s : Publishing)
    → All IsHanded s.delivered
    → All (λ (sub : Subscriber). sub.event ≡ p.event) left
    → All IsTyped outer
    → AreHanded
        (deliver_next sleeps p outer left s).delivered
        (deliver_next sleeps p outer left s).going_on
deliver_next-AreHanded sleeps p outer [] s h k l = (h, l)
deliver_next-AreHanded sleeps p outer (sub ∷ left) s h k l = (
  All-append IsHanded s.delivered (_ ∷ []) h
      ((sleeps, if-true (sub.event == p.event) _ _ ((==_iff sub.event p.event).1 k.0)), tt),
  (k.1, l),
)

go_on-AreHanded :
    (sleeps : ℕ → Bool) (going_on : List Publication) (s : Publishing)
    → s.going_on ≡ going_on
    → AreHanded s.delivered going_on
    → AreHanded (go_on_with sleeps going_on s).delivered (go_on_with sleeps going_on s).going_on
go_on-AreHanded sleeps [] s e h = subst (AreHanded s.delivered) (sym e) h
go_on-AreHanded sleeps (p ∷ outer) s e h =
    deliver_next-AreHanded sleeps p outer p.left s h.0 h.1.0 h.1.1

Step-AreHanded :
    {s t : Publishing}
    → Step s t
    → IsSound s.bus
    → AreHanded s.delivered s.going_on
    → AreHanded t.delivered t.going_on
unfolding publish go_on
Step-AreHanded (subscribes event ear bus below e) sound h = h
Step-AreHanded (ends id) sound h = h
Step-AreHanded (publishes event) sound h = (h.0, ((sound event).3, h.1))
Step-AreHanded {s = s} (goes_on sleeps) sound h = go_on-AreHanded sleeps s.going_on s refl h

pub Steps-AreHanded :
    (s t : Publishing)
    → IsSound s.bus
    → AreHanded s.delivered s.going_on
    → Steps s t
    → AreHanded t.delivered t.going_on
Steps-AreHanded s t sound h stays = h
Steps-AreHanded s t sound h (steps {t = between} before step) =
    Step-AreHanded step (Steps-bus-IsSound s between sound before)
      (Steps-AreHanded s between sound h before)
