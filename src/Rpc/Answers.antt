-- ===== src/Rpc/Answers.antt =====
-- What a request of crates/guinea-core/src/actor/event_bus/rpc.rs comes to.
use guinea.Base.{
  ℕ, ◌≡◌, ◌≢◌, refl, sym, ap, subst, ◌∙◌, true, false, Option, none, some, List, [], ◌∷◌, ◌++◌,
  ◌==◌, ==_iff, ==_ne, if-true, if-false, if◌then◌else◌, any, map_or,
}
use guinea.Rpc.{
  nobody, asleep, Message, response, unanswered, Outcome, answered, refused, mismatched, timed_out,
  Request, awake, nobody_answers, answerer_sleeps, Calls, put, request, sent, resolve, deliver,
  reply, outcome_of, received, receive, expire,
}
use guinea.Rpc.Chains.{new_request, request-made}

abbrev pub outcome_at : ℕ → Calls → Option Outcome
outcome_at id s = map_or none (λ r. r.outcome) (s.requests id)

put-at : (id : ℕ) (r : Request) (s : Calls) → (put id r s).requests id ≡ some r
put-at id r s = if-true (id == id) (some r) (s.requests id) ((==_iff id id).1 refl)

resolve-at :
    (id : ℕ) (message : Message) (r : Request) (s : Calls)
    → s.requests id ≡ some r
    → r.pending ≡ true
    → (resolve id message s).requests id ≡ some (sent message r)
unfolding resolve
resolve-at id message r s at h =
    ap
      (λ o.
        (map_or s (λ (r : Request). if r.pending then put id (sent message r) s else s) o).requests
          id)
      at
    ∙ ap (λ (t : Calls). t.requests id) (if-true r.pending (put id (sent message r) s) s h)
    ∙ put-at id (sent message r) s

receive-at :
    (id : ℕ) (message : Message) (r : Request) (s : Calls)
    → s.requests id ≡ some r
    → r.listens ≡ true
    → r.channel ≡ some message
    → outcome_at id (receive id s) ≡ some (outcome_of r.wants message)
unfolding receive
receive-at id message r s at h k =
    ap
      (λ o.
        outcome_at id
          (map_or s (λ (r : Request). if r.listens then put id (received r r.channel) s else s) o))
      at
    ∙ ap (outcome_at id) (if-true r.listens (put id (received r r.channel) s) s h)
    ∙ ap (map_or none (λ (r : Request). r.outcome)) (put-at id (received r r.channel) s)
    ∙ ap (λ c. (received r c).outcome) k

resolved-outcome :
    (id ty wants : ℕ) (chain : List ℕ) (message : Message) (s : Calls)
    → outcome_at id (receive id (resolve id message (put id (new_request ty wants chain) s)))
      ≡ some (outcome_of wants message)
resolved-outcome id ty wants chain message s =
    receive-at id message (sent message (new_request ty wants chain)) _
      (resolve-at id message (new_request ty wants chain) (put id (new_request ty wants chain) s)
        (put-at id (new_request ty wants chain) s) refl)
      refl refl

expired-outcome :
    (id ty wants : ℕ) (chain : List ℕ) (s : Calls)
    → outcome_at id (expire id (put id (new_request ty wants chain) s)) ≡ some timed_out
unfolding expire
expired-outcome id ty wants chain s = rw ((==_iff id id).1 refl) (rw ((==_iff id id).1 refl) refl)

replied-outcome :
    (id ty wants value : ℕ) (chain : List ℕ) (s : Calls)
    → id ≢ 0
    → outcome_at id (
        receive id
          (reply id wants value (deliver awake id ty (put id (new_request ty wants chain) s))))
      ≡ some (answered value)
unfolding reply deliver
replied-outcome id ty wants value chain s h =
    let made : Calls = deliver awake id ty (put id (new_request ty wants chain) s) in
    let answer : Calls = resolve id (response wants value) made in
    let done : Calls = record answer { replies = answer.replies ++ (id, wants, value) ∷ [] } in
    ap (λ (t : Calls). outcome_at id (receive id t)) (if-false (id == 0) made done (==_ne id 0 h))
    ∙ receive-at id (response wants value)
        (sent (response wants value) (new_request ty wants chain)) done
        (resolve-at id (response wants value) (new_request ty wants chain) made
          (put-at id (new_request ty wants chain) s) refl)
        refl refl
    ∙ ap some (if-true (wants == wants) (answered value) mismatched ((==_iff wants wants).1 refl))

-- What a request that is made, with an id that is not nil, comes to: where nobody answers it or what
-- answers it is asleep, the reason, at once; where it is answered with a response of its type, the
-- response; and where it expires first, that it timed out. A type that its chain holds makes none.
pub request-outcome :
    (id ty wants value answerer : ℕ) (chain : List ℕ) (s t : Calls)
    → id ≢ 0
    → request id ty wants chain s ≡ some t
    → (any (λ u. u == ty) chain ≡ false)
      × (outcome_at id (receive id (deliver nobody_answers id ty t)) ≡ some (refused (nobody ty)))
      × (outcome_at id (receive id (deliver (answerer_sleeps answerer) id ty t))
          ≡ some (refused (asleep answerer ty)))
      × (outcome_at id (receive id (reply id wants value (deliver awake id ty t)))
          ≡ some (answered value))
      × (outcome_at id (expire id t) ≡ some timed_out)
unfolding deliver
request-outcome id ty wants value answerer chain s t h made =
    let (fine, eq) = request-made id ty wants chain s t made in
    let same : put id (new_request ty wants chain) s ≡ t = sym eq in
    (
      fine,
      subst
          (λ u.
            outcome_at id (receive id (deliver nobody_answers id ty u))
            ≡ some (refused (nobody ty)))
          same (resolved-outcome id ty wants chain (unanswered (nobody ty)) s),
      subst
          (λ u.
            outcome_at id (receive id (deliver (answerer_sleeps answerer) id ty u))
            ≡ some (refused (asleep answerer ty)))
          same (resolved-outcome id ty wants chain (unanswered (asleep answerer ty)) s),
      subst
          (λ u.
            outcome_at id (receive id (reply id wants value (deliver awake id ty u)))
            ≡ some (answered value))
          same (replied-outcome id ty wants value chain s h),
      subst (λ u. outcome_at id (expire id u) ≡ some timed_out) same
          (expired-outcome id ty wants chain s),
    )
