-- ===== src/Acts/Settled.antt =====
-- When `Recorder::is_settled` of crates/guinea-app/src/app/acts.rs finds an action settled.
use guinea.Base.{
  ℕ, zero, suc, ◌+◌, ◌<◌, ◌≡◌, refl, sym, ap, subst, ◌∙◌, Bool, true, false, not, ◌&&◌, Option,
  some, List, [], ◌∷◌, ◌++◌, if◌then◌else◌, All, length, length-append, all, arith,
}
use guinea.Acts.{
  Log, Trace, no_log, hear_all, is_spawn, ended, is_done, push_all, settled_loop, is_settled, Chain,
  nothing, grown, grow, points_of,
}
use guinea.Acts.Chains.{IsWhole, IsLater, grow-IsWhole, hear_all-IsOrdered}

-- The chains of what is pushed, the last on top.
abbrev push_chains : Chain → Chain → Chain
push_chains nothing unseen = unseen
push_chains (grown at then_ next) unseen = push_chains next (grown at then_ unseen)

push_all-IsWhole :
    (log : Log) (ids below : List ℕ) (chain unseen : Chain)
    → IsWhole log ids chain
    → IsWhole log below unseen
    → IsWhole log (push_all ids below) (push_chains chain unseen)
unfolding IsWhole
push_all-IsWhole log [] below nothing unseen h k = k
push_all-IsWhole log [] below (grown at then_ next) unseen h k = absurd h
push_all-IsWhole log (id ∷ ids) below nothing unseen h k = absurd h
push_all-IsWhole log (id ∷ ids) below (grown at then_ next) unseen h k =
    push_all-IsWhole log ids (id ∷ below) next (grown at then_ unseen) h.2 (h.0, h.1, k)

length-push_chains :
    (chain unseen : Chain)
    → length (points_of (push_chains chain unseen))
      ≡ length (points_of chain) + length (points_of unseen)
unfolding points_of
length-push_chains nothing unseen = omega arith
length-push_chains (grown at then_ next) unseen = omega (
  arith,
  length-push_chains next (grown at then_ unseen),
  length-append (points_of then_) (points_of next),
  length-append (points_of then_) (points_of unseen),
)

and_assoc : (a b c : Bool) → (a && (b && c)) ≡ ((a && b) && c)
and_assoc true b c = refl
and_assoc false b c = refl

all-append : (p : ℕ → Bool) (xs ys : List ℕ) → all p (xs ++ ys) ≡ (all p xs && all p ys)
all-append p [] ys = refl
all-append p (x ∷ xs) ys =
    ap (λ b. p x && b) (all-append p xs ys) ∙ and_assoc (p x) (all p xs) (all p ys)

and_rotate : (n a t u : Bool) → (n && (a && (t && u))) ≡ ((a && (t && n)) && u)
and_rotate true true true u = refl
and_rotate true true false u = refl
and_rotate true false t u = refl
and_rotate false true true u = refl
and_rotate false true false u = refl
and_rotate false false t u = refl

all-push_chains :
    (p : ℕ → Bool) (chain unseen : Chain)
    → all p (points_of (push_chains chain unseen))
      ≡ (all p (points_of chain) && all p (points_of unseen))
unfolding points_of
all-push_chains p nothing unseen = refl
all-push_chains p (grown at then_ next) unseen =
    all-push_chains p next (grown at then_ unseen)
    ∙ ap (λ b. all p (points_of next) && (p at && b))
        (all-append p (points_of then_) (points_of unseen))
    ∙ and_rotate (all p (points_of next)) (p at) (all p (points_of then_))
        (all p (points_of unseen))
    ∙ ap (λ b. (p at && b) && all p (points_of unseen))
        (sym (all-append p (points_of then_) (points_of next)))

settle_step :
    (o x b : Bool) (rest : Option Bool)
    → rest ≡ some b
    → (if o then some false else (if x then some false else rest)) ≡ some ((not o && not x) && b)
settle_step true x b rest h = refl
settle_step false true b rest h = refl
settle_step false false b rest h = h

settled_loop-all :
    (fuel : ℕ) (log : Log) (ids : List ℕ) (chain : Chain)
    → IsWhole log ids chain
    → length (points_of chain) < fuel
    → settled_loop fuel log ids ≡ some (all (is_done log) (points_of chain))
unfolding settled_loop IsWhole points_of
settled_loop-all zero log ids chain h k = absurd (omega (arith, k))
settled_loop-all (suc fuel) log [] nothing h k = refl
settled_loop-all (suc fuel) log [] (grown at then_ next) h k = absurd h
settled_loop-all (suc fuel) log (id ∷ ids) nothing h k = absurd h
settled_loop-all (suc fuel) log (id ∷ ids) (grown at then_ next) h k =
    settle_step (log.open_points id) (is_spawn (log.points id) && not (ended log id))
      (all (is_done log) (points_of then_ ++ points_of next))
      (settled_loop fuel log (push_all (log.children id) ids))
      (settled_loop-all fuel log (push_all (log.children id) ids) (push_chains then_ next)
          (push_all-IsWhole log (log.children id) ids then_ next
            (subst (λ i. IsWhole log (log.children i) then_) (sym h.0) h.1) h.2)
          (omega (
            arith,
            k,
            length-push_chains then_ next,
            length-append (points_of then_) (points_of next),
          ))
        ∙ ap some (
            all-push_chains (is_done log) then_ next
            ∙ sym (all-append (is_done log) (points_of then_) (points_of next))))
    ∙ ap (λ i. some (is_done log i && all (is_done log) (points_of then_ ++ points_of next))) h.0

-- Of an action of a trace whose ids come after their parents' and below a bound, `is_settled` answers,
-- given enough fuel, whether every point of the chain that grows from the action is done: closed, and,
-- where it spawned a task, with an end of that task under it.
pub is_settled-chain :
    (bound depth fuel cause : ℕ) (traces : List Trace)
    → All (IsLater bound) traces
    → cause < bound
    → bound < cause + depth
    → length (points_of (grow depth (hear_all traces no_log) (cause ∷ []))) < fuel
    → is_settled fuel (hear_all traces no_log) cause
      ≡ some (
          all
            (is_done (hear_all traces no_log))
            (points_of (grow depth (hear_all traces no_log) (cause ∷ []))))
is_settled-chain bound depth fuel cause traces h below deep fueled =
    settled_loop-all fuel (hear_all traces no_log) (cause ∷ [])
      (grow depth (hear_all traces no_log) (cause ∷ []))
      (grow-IsWhole depth bound (hear_all traces no_log) (cause ∷ [])
        (hear_all-IsOrdered bound traces no_log h (λ p. tt)) (deep, tt) (below, tt))
      fueled
