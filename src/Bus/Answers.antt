-- ===== src/Bus/Answers.antt =====
-- Who answers a request on a bus of crates/guinea-core/src/actor/event_bus.
use guinea.Base.{
  ℕ, ◌+◌, ◌≤◌, ◌≡◌, refl, sym, ap, ◌∙◌, Bool, false, Option, none, some, List, [], ◌∷◌, ◌==◌,
  ==_iff, ==_ne, if◌then◌else◌, if-true, if-false, map_or, arith,
}
use guinea.Rpc.{Answering, awake, nobody_answers, answerer_sleeps}
use guinea.Bus.{Subscriber, EventBus, answerer, ear_is_asleep, find, answering}
use guinea.Bus.Soundness.{answers_from, answers_of, holders, Ascends, IsSound}

-- Whether a request is answered, read off those that are subscribed to it.
abbrev pub answering_of : (ℕ → Bool) → List Subscriber → Answering
answering_of sleeps [] = nobody_answers
answering_of sleeps (sub ∷ subs) =
    map_or (answering_of sleeps subs)
      (λ name. if ear_is_asleep sleeps sub.ear then answerer_sleeps name else awake) (answerer sub)

abbrev answering_by : (ℕ → Bool) → List Subscriber → Option (ℕ × ℕ) → Answering
answering_by sleeps subs held =
    map_or nobody_answers
      (λ (held : ℕ × ℕ).
        if map_or false (λ sub. ear_is_asleep sleeps sub.ear) (find held.0 subs)
        then answerer_sleeps held.1
        else awake)
      held

abbrev told : (ℕ → Bool) → Subscriber → List Subscriber → Option ℕ → Answering
told sleeps sub subs o =
    map_or (answering_of sleeps subs)
      (λ name. if ear_is_asleep sleeps sub.ear then answerer_sleeps name else awake) o

abbrev found : (ℕ → Bool) → ℕ → Option Subscriber → Answering
found sleeps name o =
    if map_or false (λ sub. ear_is_asleep sleeps sub.ear) o then answerer_sleeps name else awake

le_answers :
    (lo hi seq name : ℕ) (subs : List Subscriber)
    → Ascends lo hi subs
    → answers_of subs ≡ (seq, name) ∷ []
    → lo ≤ seq
le_answers lo hi seq name [] h e = absurd (cc e)
le_answers lo hi seq name (sub ∷ subs) h e =
    elim (answerer sub) as (λ o. answerer sub ≡ o → lo ≤ seq) [
      | none ↦ λ k.
          let rest : answers_of subs ≡ (seq, name) ∷ [] =
            ap (λ o. answers_from sub.seq o (answers_of subs)) (sym k) ∙ e in
          omega (arith, h.0, le_answers (sub.seq + 1) hi seq name subs h.1 rest)
      | some n ↦ λ k.
          let first : (sub.seq, n) ∷ answers_of subs ≡ (seq, name) ∷ [] =
            ap (λ o. answers_from sub.seq o (answers_of subs)) (sym k) ∙ e in
          let same : sub.seq ≡ seq = cc first in omega (arith, h.0, same)
    ]
      refl

answering_by-of :
    (sleeps : ℕ → Bool) (lo hi : ℕ) (held : Option (ℕ × ℕ)) (subs : List Subscriber)
    → Ascends lo hi subs
    → holders held ≡ answers_of subs
    → answering_by sleeps subs held ≡ answering_of sleeps subs
answering_by-of sleeps lo hi none [] h e = refl
answering_by-of sleeps lo hi (some held) [] h e = absurd (cc e)
answering_by-of sleeps lo hi none (sub ∷ subs) h e =
    elim (answerer sub) as (λ o. answerer sub ≡ o → nobody_answers ≡ told sleeps sub subs o) [
      | none ↦ λ k.
          let rest : [] ≡ answers_of subs =
            e ∙ ap (λ o. answers_from sub.seq o (answers_of subs)) k in
          answering_by-of sleeps (sub.seq + 1) hi none subs h.1 rest
      | some n ↦ λ k.
          let rest : [] ≡ (sub.seq, n) ∷ answers_of subs =
            e ∙ ap (λ o. answers_from sub.seq o (answers_of subs)) k in
          absurd (cc rest)
    ]
      refl
answering_by-of sleeps lo hi (some (seq, name)) (sub ∷ subs) h e =
    elim (answerer sub)
        as (λ o.
          answerer sub ≡ o → found sleeps name (find seq (sub ∷ subs)) ≡ told sleeps sub subs o) [
            | none ↦ λ k.
                let rest : (seq, name) ∷ [] ≡ answers_of subs =
                  e ∙ ap (λ o. answers_from sub.seq o (answers_of subs)) k in
                let later : sub.seq + 1 ≤ seq =
                  le_answers (sub.seq + 1) hi seq name subs h.1 (sym rest) in
                ap (found sleeps name) (
                  if-false (sub.seq == seq) _ _
                    (==_ne sub.seq seq (λ same. omega (arith, later, same))))
                ∙ answering_by-of sleeps (sub.seq + 1) hi (some (seq, name)) subs h.1 rest
            | some n ↦ λ k.
                let rest : (seq, name) ∷ [] ≡ (sub.seq, n) ∷ answers_of subs =
                  e ∙ ap (λ o. answers_from sub.seq o (answers_of subs)) k in
                let same : sub.seq ≡ seq = cc rest in
                let named : name ≡ n = cc rest in
                ap (found sleeps name) (if-true (sub.seq == seq) _ _ ((==_iff sub.seq seq).1 same))
                ∙ ap (λ m. if ear_is_asleep sleeps sub.ear then answerer_sleeps m else awake) named
          ]
      refl

-- Where a bus is sound, a request is answered by whichever of those that are subscribed to it answers:
-- nobody does where none of them does, and otherwise it sleeps or wakes as that one does.
pub answering-of :
    (sleeps : ℕ → Bool) (event : ℕ) (bus : EventBus)
    → IsSound bus
    → answering sleeps event bus ≡ answering_of sleeps (bus.subscribers event)
unfolding answering
answering-of sleeps event bus h =
    answering_by-of sleeps 0 bus.next_id (bus.answerers event) (bus.subscribers event) (h event).0
      (h event).2
