-- ===== src/Rpc/Stages.antt =====
-- How a request of crates/guinea-core/src/actor/event_bus/rpc.rs gets on, whatever is done in whatever
-- order on whichever thread.
use guinea.Base.{
  ℕ, suc, ◌≤◌, ◌≡◌, refl, sym, ap, subst, ◌∙◌, true, false, ◌&&◌, Option, none, some, [], ◌⊎◌, inl,
  inr, ◌==◌, if-intro, if◌then◌else◌, map_or, map_or-cases, arith,
}
use guinea.Rpc.{
  Message, response, timed_out, Request, Answering, awake, nobody_answers, answerer_sleeps, Calls,
  put_at, put, request, sent, resolve, deliver, reply, outcome_of, received, receive, is_none,
  expire, is_timed_out, forget,
}

-- The stages of a request: it waits; it gave up, with its sender there still or not; a message is in
-- its channel; or the message was received, and the outcome is what it says.
pub data Stage (r : Request) : Type 0 where
  waits :
      r.pending ≡ true
      → r.listens ≡ true
      → r.channel ≡ none
      → r.sends ≡ 0
      → r.outcome ≡ none
      → Stage r
  gave_up :
      r.listens ≡ false
      → r.channel ≡ none
      → r.sends ≤ 1
      → (r.pending ≡ true → r.sends ≡ 0)
      → r.outcome ≡ some timed_out
      → Stage r
  holds :
      (message : Message)
      → r.pending ≡ false
      → r.listens ≡ true
      → r.channel ≡ some message
      → r.sends ≡ 1
      → r.outcome ≡ none
      → Stage r
  ended :
      (message : Message)
      → r.pending ≡ false
      → r.listens ≡ false
      → r.channel ≡ none
      → r.sends ≡ 1
      → r.outcome ≡ some (outcome_of r.wants message)
      → Stage r

sent-Stage : (message : Message) (r : Request) → r.pending ≡ true → Stage r → Stage (sent message r)
sent-Stage message r h (waits p l c n o) =
    holds message refl l (ap (λ b. if b then some message else none) l) (ap suc n) o
sent-Stage message r h (gave_up l c n k o) =
    gave_up l (ap (λ b. if b then some message else none) l) (omega (arith, k h))
      (λ e. absurd (cc e)) o
sent-Stage message r h (holds m p l c n o) = absurd (cc (h, p))
sent-Stage message r h (ended m p l c n o) = absurd (cc (h, p))

received-Stage : (r : Request) → r.listens ≡ true → Stage r → Stage (received r r.channel)
received-Stage r h (waits p l c n o) = subst (λ x. Stage (received r x)) (sym c) (waits p l c n o)
received-Stage r h (gave_up l c n k o) = absurd (cc (h, l))
received-Stage r h (holds m p l c n o) =
    subst (λ x. Stage (received r x)) (sym c) (ended m p refl refl n refl)
received-Stage r h (ended m p l c n o) = absurd (cc (h, l))

expired-Stage :
    (r : Request)
    → (r.listens && is_none r.channel) ≡ true
    → Stage r
    → Stage (record r { outcome = some timed_out; listens = false })
expired-Stage r h (waits p l c n o) = gave_up refl c (omega (arith, n)) (λ e. n) refl
expired-Stage r h (gave_up l c n k o) = absurd (ground (arith, h, l))
expired-Stage r h (holds m p l c n o) =
    let none_left : (r.listens && false) ≡ true =
      subst (λ x. (r.listens && is_none x) ≡ true) c h in
    absurd (ground (arith, none_left, l))
expired-Stage r h (ended m p l c n o) = absurd (ground (arith, h, l))

forgotten-Stage :
    (r : Request) → is_timed_out r.outcome ≡ true → Stage r → Stage (record r { pending = false })
forgotten-Stage r h (waits p l c n o) =
    let early : false ≡ true = subst (λ x. is_timed_out x ≡ true) o h in absurd (cc early)
forgotten-Stage r h (gave_up l c n k o) = gave_up l c n (λ e. absurd (cc e)) o
forgotten-Stage r h (holds m p l c n o) = holds m refl l c n o
forgotten-Stage r h (ended m p l c n o) = ended m refl l c n o

pub put_at-cases :
    (id i : ℕ) (r : Request) (E : ℕ → Option Request)
    → ((i ≡ id) × (put_at id r E i ≡ some r)) ⊎ (put_at id r E i ≡ E i)
put_at-cases id i r E = ground arith

-- What is kept by whatever may be done with a request.
abbrev pub IsKept : (Request → Type 0) → Type 0
IsKept P =
    ((message : Message) (r : Request) → r.pending ≡ true → P r → P (sent message r))
    × ((r : Request) → r.listens ≡ true → P r → P (received r r.channel))
    × ((r : Request)
        → (r.listens && is_none r.channel) ≡ true
        → P r
        → P (record r { outcome = some timed_out; listens = false }))
    × ((r : Request) → is_timed_out r.outcome ≡ true → P r → P (record r { pending = false }))

pub Stage-IsKept : IsKept Stage
Stage-IsKept = (sent-Stage, received-Stage, expired-Stage, forgotten-Stage)

-- What may happen: a request is made with an id of its own, in the chain of one under way or in none;
-- or something is done with a request.
pub data Step (s : Calls) : Calls → Type 0 where
  requests :
      (id ty wants : ℕ) (parent : Option Request) (t : Calls)
      → s.requests id ≡ none
      → (parent ≡ none) ⊎ ((p : ℕ) × (s.requests p ≡ parent))
      → request id ty wants (map_or [] (λ r. r.chain) parent) s ≡ some t
      → Step s t
  delivers : (answering : Answering) (id ty : ℕ) → Step s (deliver answering id ty s)
  replies : (id ty value : ℕ) → Step s (reply id ty value s)
  receives : (id : ℕ) → Step s (receive id s)
  expires : (id : ℕ) → Step s (expire id s)
  forgets : (id : ℕ) → Step s (forget id s)

pub data Steps : Calls → Calls → Type 0 where
  stays : {s : Calls} → Steps s s
  steps : {s t u : Calls} → Step s t → Steps t u → Steps s u

module _ (D : Type 0) (P : Request → Type 0) where
  -- The request that there may be under an id.
  abbrev pub Under : Option Request → Type 0
  Under none = D
  Under (some r) = P r

  touch-Under :
      (id i : ℕ) (old r : Request) (E : ℕ → Option Request)
      → E id ≡ some old
      → (P old → P r)
      → Under (E i)
      → Under (put_at id r E i)
  touch-Under id i old r E at k h = elim (put_at-cases id i r E) [
    | inl (same, eq) ↦ subst Under (sym eq) (k (subst Under (ap E same ∙ at) h))
    | inr eq ↦ subst Under (sym eq) h
  ]

  resolve-Under :
      (id i : ℕ) (message : Message) (s : Calls)
      → IsKept P
      → Under (s.requests i)
      → Under ((resolve id message s).requests i)
  unfolding resolve
  resolve-Under id i message s kept h =
      map_or-cases (λ (t : Calls). Under (t.requests i)) s _ (s.requests id) (λ e. h)
        (λ r at.
          if-intro (λ (t : Calls). Under (t.requests i)) r.pending (put id (sent message r) s) s
            (λ p. touch-Under id i r _ s.requests at (kept.0 message r p) h) (λ n. h))

  pub Step-Under :
      (i : ℕ) (s t : Calls)
      → IsKept P
      → ((id ty wants : ℕ) (parent : Option Request) (t : Calls)
          → s.requests id ≡ none
          → (parent ≡ none) ⊎ ((p : ℕ) × (s.requests p ≡ parent))
          → request id ty wants (map_or [] (λ r. r.chain) parent) s ≡ some t
          → Under (s.requests i)
          → Under (t.requests i))
      → Under (s.requests i)
      → Step s t
      → Under (t.requests i)
  unfolding deliver reply receive expire forget
  Step-Under i s t kept new h (requests id ty wants parent t' fresh from made) =
      new id ty wants parent t' fresh from made h
  Step-Under i s t kept new h (delivers awake id ty) = h
  Step-Under i s t kept new h (delivers nobody_answers id ty) = resolve-Under id i _ s kept h
  Step-Under i s t kept new h (delivers (answerer_sleeps answerer) id ty) =
      resolve-Under id i _ s kept h
  Step-Under i s t kept new h (replies id ty value) =
      if-intro (λ (u : Calls). Under (u.requests i)) (id == 0) s _ (λ nil. h)
        (λ other. resolve-Under id i (response ty value) s kept h)
  Step-Under i s t kept new h (receives id) =
      map_or-cases (λ (u : Calls). Under (u.requests i)) s _ (s.requests id) (λ e. h)
        (λ r at.
          if-intro (λ (u : Calls). Under (u.requests i)) r.listens (put id (received r r.channel) s)
            s (λ p. touch-Under id i r _ s.requests at (kept.1 r p) h) (λ n. h))
  Step-Under i s t kept new h (expires id) =
      map_or-cases (λ (u : Calls). Under (u.requests i)) s _ (s.requests id) (λ e. h)
        (λ r at.
          if-intro (λ (u : Calls). Under (u.requests i)) (r.listens && is_none r.channel)
            (put id (record r { outcome = some timed_out; listens = false }) s) s
            (λ p. touch-Under id i r _ s.requests at (kept.2 r p) h) (λ n. h))
  Step-Under i s t kept new h (forgets id) =
      map_or-cases (λ (u : Calls). Under (u.requests i)) s _ (s.requests id) (λ e. h)
        (λ r at.
          if-intro (λ (u : Calls). Under (u.requests i)) (is_timed_out r.outcome)
            (put id (record r { pending = false }) s) s
            (λ p. touch-Under id i r _ s.requests at (kept.3 r p) h) (λ n. h))
