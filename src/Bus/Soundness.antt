-- ===== src/Bus/Soundness.antt =====
-- What stays so of a bus of crates/guinea-core/src/actor/event_bus, whoever subscribes to it and goes.
use guinea.Base.{
  ℕ, ◌+◌, ◌≤◌, ◌≡◌, refl, sym, ap, ◌∙◌, Bool, true, false, not, Option, none, some, List, [], ◌∷◌,
  ◌++◌, ◌==◌, if◌then◌else◌, if-intro, if-true, if-false, length, retain, All, arith,
}
use guinea.Bus.{Subscriber, EventBus, answerer, new_bus, has_seq}

abbrev pub answers_from : ℕ → Option ℕ → List (ℕ × ℕ) → List (ℕ × ℕ)
answers_from seq none rest = rest
answers_from seq (some name) rest = (seq, name) ∷ rest

-- Those that answer, by their numbers and names.
abbrev pub answers_of : List Subscriber → List (ℕ × ℕ)
answers_of [] = []
answers_of (sub ∷ subs) = answers_from sub.seq (answerer sub) (answers_of subs)

abbrev pub holders : Option (ℕ × ℕ) → List (ℕ × ℕ)
holders none = []
holders (some held) = held ∷ []

-- The numbers of some subscribers rise, from one bound to below another.
abbrev pub Ascends : ℕ → ℕ → List Subscriber → Type 0
Ascends lo hi [] = lo ≤ hi
Ascends lo hi (sub ∷ subs) = (lo ≤ sub.seq) × Ascends (sub.seq + 1) hi subs

-- The list of an event's subscribers, with their count and with who answers: the numbers rise, they
-- are as many as is counted, at most one answers and is the one that is held to, and each is of the event.
abbrev pub Fits : ℕ → ℕ → List Subscriber → ℕ → Option (ℕ × ℕ) → Type 0
Fits event next subs count held =
    Ascends 0 next subs
    × (count ≡ length subs)
    × (holders held ≡ answers_of subs)
    × All (λ sub. sub.event ≡ event) subs

abbrev pub IsSound : EventBus → Type 0
IsSound bus =
    (event : ℕ)
    → Fits event bus.next_id (bus.subscribers event) (bus.counts event) (bus.answerers event)

pub Ascends-widen :
    (lo hi hi' : ℕ) (subs : List Subscriber) → hi ≤ hi' → Ascends lo hi subs → Ascends lo hi' subs
Ascends-widen lo hi hi' [] h k = omega (arith, h, k)
Ascends-widen lo hi hi' (sub ∷ subs) h k = (k.0, Ascends-widen (sub.seq + 1) hi hi' subs h k.1)

Ascends-lower :
    (lo lo' hi : ℕ) (subs : List Subscriber) → lo' ≤ lo → Ascends lo hi subs → Ascends lo' hi subs
Ascends-lower lo lo' hi [] h k = omega (arith, h, k)
Ascends-lower lo lo' hi (sub ∷ subs) h k = (omega (arith, h, k.0), k.1)

pub Ascends-append :
    (lo hi : ℕ) (subs : List Subscriber) (sub : Subscriber)
    → hi ≤ sub.seq
    → Ascends lo hi subs
    → Ascends lo (sub.seq + 1) (subs ++ sub ∷ [])
Ascends-append lo hi [] sub h k = (omega (arith, h, k), omega arith)
Ascends-append lo hi (x ∷ subs) sub h k = (k.0, Ascends-append (x.seq + 1) hi subs sub h k.1)

pub Ascends-retain :
    (p : Subscriber → Bool) (lo hi : ℕ) (subs : List Subscriber)
    → Ascends lo hi subs
    → Ascends lo hi (retain p subs)
Ascends-retain p lo hi [] k = k
Ascends-retain p lo hi (sub ∷ subs) k =
    if-intro (Ascends lo hi) (p sub) (sub ∷ retain p subs) (retain p subs)
      (λ e. (k.0, Ascends-retain p (sub.seq + 1) hi subs k.1))
      (λ e.
        Ascends-lower (sub.seq + 1) lo hi (retain p subs) (omega (arith, k.0))
          (Ascends-retain p (sub.seq + 1) hi subs k.1))

-- No more subscribers than numbers.
pub length-le-Ascends :
    (lo hi : ℕ) (subs : List Subscriber) → Ascends lo hi subs → length subs + lo ≤ hi
length-le-Ascends lo hi [] k = omega (arith, k)
length-le-Ascends lo hi (sub ∷ subs) k =
    omega (arith, k.0, length-le-Ascends (sub.seq + 1) hi subs k.1)

answers_from-append :
    (seq : ℕ) (o : Option ℕ) (xs ys : List (ℕ × ℕ))
    → answers_from seq o (xs ++ ys) ≡ answers_from seq o xs ++ ys
answers_from-append seq none xs ys = refl
answers_from-append seq (some name) xs ys = refl

pub answers_of-append :
    (xs ys : List Subscriber) → answers_of (xs ++ ys) ≡ answers_of xs ++ answers_of ys
answers_of-append [] ys = refl
answers_of-append (x ∷ xs) ys =
    ap (answers_from x.seq (answerer x)) (answers_of-append xs ys)
    ∙ answers_from-append x.seq (answerer x) (answers_of xs) (answers_of ys)

abbrev pub keeps : ℕ → (ℕ × ℕ) → Bool
keeps seq held = not (held.0 == seq)

answers_from-retain :
    (b : Bool) (seq : ℕ) (o : Option ℕ) (gone : ℕ) (rest : List (ℕ × ℕ))
    → (seq == gone) ≡ b
    → (if not b then answers_from seq o (retain (keeps gone) rest) else retain (keeps gone) rest)
      ≡ retain (keeps gone) (answers_from seq o rest)
answers_from-retain true seq none gone rest e = refl
answers_from-retain false seq none gone rest e = refl
answers_from-retain true seq (some name) gone rest e =
    sym (if-false (not (seq == gone)) _ _ (ap not e))
answers_from-retain false seq (some name) gone rest e =
    sym (if-true (not (seq == gone)) _ _ (ap not e))

pull :
    (b : Bool) (sub : Subscriber) (subs : List Subscriber)
    → answers_of (if b then sub ∷ subs else subs)
      ≡ (if b then answers_from sub.seq (answerer sub) (answers_of subs) else answers_of subs)
pull true sub subs = refl
pull false sub subs = refl

pub answers_of-retain :
    (gone : ℕ) (subs : List Subscriber)
    → answers_of (retain (λ sub. not (has_seq gone sub)) subs)
      ≡ retain (keeps gone) (answers_of subs)
answers_of-retain gone [] = refl
answers_of-retain gone (sub ∷ subs) =
    pull (not (has_seq gone sub)) sub (retain (λ s. not (has_seq gone s)) subs)
    ∙ ap (λ rest. if not (has_seq gone sub) then answers_from sub.seq (answerer sub) rest else rest)
        (answers_of-retain gone subs)
    ∙ answers_from-retain (has_seq gone sub) sub.seq (answerer sub) gone (answers_of subs) refl

pub new_bus-IsSound : IsSound new_bus
new_bus-IsSound event = (omega arith, refl, refl, tt)
