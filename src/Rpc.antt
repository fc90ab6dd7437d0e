-- ===== src/Rpc.antt =====
-- crates/guinea-core/src/actor/event_bus/rpc.rs: requests on the global bus and their answers. A
-- request's id is drawn by another library, so it is given to `request`; 0 is the nil id. Types are
-- numbers. Whether anyone answers a type is the bus's to say, when the request is published.
pub mod Stages
pub mod Chains
pub mod Answers
mod Tests
use guinea.Base.{
  ℕ, zero, suc, ◌+◌, Bool, true, false, ◌&&◌, not, Option, none, some, List, [], ◌∷◌, ◌++◌, ◌==◌,
  if◌then◌else◌, any, map_or,
}

-- Why a request was not published: nobody answers its type, or what does is asleep.
pub data Reason : Type 0 where
  nobody : ℕ → Reason
  asleep : ℕ → ℕ → Reason

-- What goes through the channel of a request: `RpcResponse` of some type, or `Unanswered`.
pub data Message : Type 0 where
  response : ℕ → ℕ → Message
  unanswered : Reason → Message

-- What `AsyncBus::request` comes to.
pub data Outcome : Type 0 where
  answered : ℕ → Outcome
  refused : Reason → Outcome
  mismatched timed_out : Outcome

-- A request under way: its type and the one of its response, the chain it was made in with itself at
-- the end, whether its sender stands in PENDING_REQUESTS and its receiver waits, and what came of it.
pub record Request : Type 0 where
  pub ty : ℕ
  pub wants : ℕ
  pub chain : List ℕ
  pub pending : Bool
  pub listens : Bool
  pub channel : Option Message
  pub sends : ℕ
  pub outcome : Option Outcome

-- `Answering`
pub data Answering : Type 0 where
  awake nobody_answers : Answering
  answerer_sleeps : ℕ → Answering

-- The requests by their ids, the ids of the requests published, and the responses published.
pub record Calls : Type 0 where
  pub requests : ℕ → Option Request
  pub published : List ℕ
  pub replies : List (ℕ × ℕ × ℕ)

abbrev pub put_at : ℕ → Request → (ℕ → Option Request) → ℕ → Option Request
put_at id r requests i = if i == id then some r else requests i

abbrev pub put : ℕ → Request → Calls → Calls
put id r s = record s { requests = put_at id r s.requests }

-- The start of `AsyncBus::request`, made in a chain; a cycle panics.
unfoldable pub request : ℕ → ℕ → ℕ → List ℕ → Calls → Option Calls
request id ty wants chain s =
    if any (λ t. t == ty) chain
    then none
    else some (
        put id
          (record {
            ty = ty;
            wants = wants;
            chain = chain ++ ty ∷ [];
            pending = true;
            listens = true;
            channel = none;
            sends = 0;
            outcome = none;
          })
          s)

-- What a sender leaves in the channel; a receiver that is gone gets nothing.
abbrev pub sent : Message → Request → Request
sent message r = record r {
  pending = false;
  sends = suc r.sends;
  channel = if r.listens then some message else none;
}

-- Taking the sender out of PENDING_REQUESTS and sending by it.
unfoldable pub resolve : ℕ → Message → Calls → Calls
resolve id message s =
    map_or s (λ r. if r.pending then put id (sent message r) s else s) (s.requests id)

-- What the UI thread does with a request: it publishes it, or says why not.
unfoldable pub deliver : Answering → ℕ → ℕ → Calls → Calls
deliver awake id ty s = record s { published = s.published ++ id ∷ [] }
deliver nobody_answers id ty s = resolve id (unanswered (nobody ty)) s
deliver (answerer_sleeps answerer) id ty s = resolve id (unanswered (asleep answerer ty)) s

-- `AsyncBus::reply`
unfoldable pub reply : ℕ → ℕ → ℕ → Calls → Calls
reply id ty value s =
    if id == 0
    then s
    else (let sent : Calls = resolve id (response ty value) s in
        record sent { replies = sent.replies ++ (id, ty, value) ∷ [] })

abbrev pub outcome_of : ℕ → Message → Outcome
outcome_of wants (response ty value) = if ty == wants then answered value else mismatched
outcome_of wants (unanswered reason) = refused reason

abbrev pub received : Request → Option Message → Request
received r none = r
received r (some message) = record r {
  outcome = some (outcome_of r.wants message);
  channel = none;
  listens = false;
}

-- The await of a request finds a message in its channel.
unfoldable pub receive : ℕ → Calls → Calls
receive id s =
    map_or s (λ r. if r.listens then put id (received r r.channel) s else s) (s.requests id)

abbrev pub is_none : Option Message → Bool
is_none none = true
is_none (some message) = false

-- The await gives up, the channel being empty, before the sender is taken out of PENDING_REQUESTS.
unfoldable pub expire : ℕ → Calls → Calls
expire id s =
    map_or s
      (λ r.
        if r.listens && is_none r.channel
        then put id (record r { outcome = some timed_out; listens = false }) s
        else s)
      (s.requests id)

abbrev pub is_timed_out : Option Outcome → Bool
is_timed_out (some timed_out) = true
is_timed_out _ = false

-- The sender of a request that gave up is taken out.
unfoldable pub forget : ℕ → Calls → Calls
forget id s =
    map_or s (λ r. if is_timed_out r.outcome then put id (record r { pending = false }) s else s)
      (s.requests id)

-- What the trait `Event` makes of a request for a listener: the id to reply to is nil.
abbrev pub overheard : ℕ → ℕ
overheard id = 0
