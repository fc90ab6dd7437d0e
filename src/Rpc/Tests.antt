-- ===== src/Rpc/Tests.antt =====
-- One request, answered, refused and expired.
use guinea.Base.{◌≡◌, refl, false, none, some, [], ◌∷◌, inl, ◌==◌, any, arith}
use guinea.Rpc.{
  nobody, asleep, answered, refused, timed_out, awake, nobody_answers, answerer_sleeps, Calls, put,
  request, deliver, reply, receive, expire,
}
use guinea.Rpc.Stages.{requests, replies, receives, Steps, stays, steps, Under}
use guinea.Rpc.Chains.{IsSound, new_request, Steps-IsSound}
use guinea.Rpc.Answers.{outcome_at, request-outcome}

abbrev no_calls : Calls
no_calls = record { requests = λ i. none; published = []; replies = [] }

abbrev one_call : Calls
one_call = put 7 (new_request 3 4 []) no_calls

abbrev expired : Calls
expired = expire 7 one_call

one_call-Steps : Steps no_calls (receive 7 (reply 7 4 90 one_call))
unfolding request
one_call-Steps =
    steps (requests 7 3 4 none one_call refl (inl refl) refl)
      (steps (replies 7 4 90) (steps (receives 7) stays))

Steps-IsSound_example : Under Unit IsSound ((receive 7 (reply 7 4 90 one_call)).requests 7)
Steps-IsSound_example =
    Steps-IsSound no_calls (receive 7 (reply 7 4 90 one_call)) (λ i. tt) one_call-Steps 7

request-outcome_example :
    (any (λ u. u == 3) (5 ∷ []) ≡ false)
    × (outcome_at 7
          (receive 7 (deliver nobody_answers 7 3 (put 7 (new_request 3 4 (5 ∷ [])) no_calls)))
        ≡ some (refused (nobody 3)))
    × (outcome_at 7
          (receive 7 (deliver (answerer_sleeps 2) 7 3 (put 7 (new_request 3 4 (5 ∷ [])) no_calls)))
        ≡ some (refused (asleep 2 3)))
    × (outcome_at 7
          (receive 7 (reply 7 4 90 (deliver awake 7 3 (put 7 (new_request 3 4 (5 ∷ [])) no_calls))))
        ≡ some (answered 90))
    × (outcome_at 7 (expire 7 (put 7 (new_request 3 4 (5 ∷ [])) no_calls)) ≡ some timed_out)
unfolding request
request-outcome_example =
    request-outcome 7 3 4 90 2 (5 ∷ []) no_calls (put 7 (new_request 3 4 (5 ∷ [])) no_calls)
      (omega arith) refl
