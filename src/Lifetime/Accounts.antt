-- ===== src/Lifetime/Accounts.antt =====
-- What a scope of crates/guinea-core/src/scope/lifetime.rs lets go of, whatever is asked of the scopes.
use guinea.Base.{
  ℕ, ◌≡◌, refl, sym, ap, ◌∙◌, Bool, true, false, ◌||◌, Option, none, some, List, [], ◌∷◌, ◌++◌,
  ◌==◌, if◌then◌else◌, any, map_or, map_or-cases, append-nil, append_assoc, ==_iff,
}
use guinea.Scope.{reverse_onto}
use guinea.Lifetime.{
  Held, Scopes, put_at, put, tear_down, detach_all, tear_down_each, Op, owns, leaves_by, wakes_by,
  sleeps, wakes, removes, or_same, apply, apply_all,
}
use guinea.Lifetime.Releases.{
  of_scope, held_of, lets_removed, has_removed, lets_go, has_after, lets_go_all, kept, Does,
  own-Does, same-Does, put-Does, of_scope-release_all, data_of-release_all,
}

tear_kept :
    (b : Bool) (held : Held) (o : Option Held)
    → (b ≡ true → o ≡ some held)
    → kept b (reverse_onto held.teardowns []) ≡ lets_removed b (held_of o)
tear_kept true held o h = ap (λ o. lets_removed true (held_of o)) (sym (h refl))
tear_kept false held o h = refl

tear_none : (b : Bool) (o : Option Held) → (b ≡ true → o ≡ none) → [] ≡ lets_removed b (held_of o)
tear_none true o h = ap (λ o. lets_removed true (held_of o)) (sym (h refl))
tear_none false o h = refl

removed_lets :
    (b a : Bool) (o : Option Held)
    → lets_removed b (held_of o) ++ lets_removed a (held_of (if b then none else o))
      ≡ lets_removed (b || a) (held_of o)
removed_lets true true none = refl
removed_lets true false none = refl
removed_lets true true (some held) = append-nil _
removed_lets true false (some held) = append-nil _
removed_lets false a o = refl

removed_has :
    (b a : Bool) (o : Option Held)
    → has_removed a (held_of (if b then none else o)) ≡ has_removed (b || a) (held_of o)
removed_has true true o = refl
removed_has true false o = refl
removed_has false a o = refl

of_scope-tear_down :
    (k i : ℕ) (data_of : ℕ → Option Held) (s : Scopes)
    → of_scope k (map_or s (λ held. tear_down i held s) (data_of i)).released
      ≡ of_scope k s.released ++ lets_removed (k == i) (held_of (data_of k))
of_scope-tear_down k i data_of s =
    map_or-cases
      (λ s'.
        of_scope k s'.released
        ≡ of_scope k s.released ++ lets_removed (k == i) (held_of (data_of k)))
      s (λ held. tear_down i held s) (data_of i)
      (λ e.
        sym (append-nil (of_scope k s.released))
        ∙ ap (λ xs. of_scope k s.released ++ xs)
            (tear_none (k == i) (data_of k) (λ t. ap data_of ((==_iff k i).0 t) ∙ e)))
      (λ held e.
        of_scope-release_all k i (reverse_onto held.teardowns []) s
        ∙ ap (λ xs. of_scope k s.released ++ xs)
            (tear_kept (k == i) held (data_of k) (λ t. ap data_of ((==_iff k i).0 t) ∙ e)))

of_scope-tear_down_each :
    (k : ℕ) (detached : List ℕ) (data_of : ℕ → Option Held) (s : Scopes)
    → of_scope k (tear_down_each detached data_of s).released
      ≡ of_scope k s.released ++ lets_removed (any (λ i. k == i) detached) (held_of (data_of k))
of_scope-tear_down_each k [] data_of s = sym (append-nil (of_scope k s.released))
of_scope-tear_down_each k (i ∷ detached) data_of s =
    of_scope-tear_down_each k detached (put_at i none data_of)
      (map_or s (λ held. tear_down i held s) (data_of i))
    ∙ ap (λ xs. xs ++ lets_removed (any (λ i. k == i) detached) (held_of (put_at i none data_of k)))
        (of_scope-tear_down k i data_of s)
    ∙ append_assoc (of_scope k s.released) _ _
    ∙ ap (λ xs. of_scope k s.released ++ xs)
        (removed_lets (k == i) (any (λ i. k == i) detached) (data_of k))

data_of-tear_down_each :
    (detached : List ℕ) (data_of : ℕ → Option Held) (s : Scopes)
    → (tear_down_each detached data_of s).data_of ≡ s.data_of
data_of-tear_down_each [] data_of s = refl
data_of-tear_down_each (i ∷ detached) data_of s =
    data_of-tear_down_each detached (put_at i none data_of)
      (map_or s (λ held. tear_down i held s) (data_of i))
    ∙ map_or-cases (λ s'. s'.data_of ≡ s.data_of) s (λ held. tear_down i held s) (data_of i)
        (λ e. refl) (λ held e. data_of-release_all i (reverse_onto held.teardowns []) s)

held_of-detach_all :
    (k : ℕ) (detached : List ℕ) (s : Scopes)
    → held_of ((detach_all detached s).data_of k)
      ≡ has_removed (any (λ i. k == i) detached) (held_of (s.data_of k))
held_of-detach_all k [] s = refl
held_of-detach_all k (i ∷ detached) s =
    held_of-detach_all k detached (put i none s)
    ∙ removed_has (k == i) (any (λ i. k == i) detached) (s.data_of k)

released-detach_all :
    (detached : List ℕ) (s : Scopes) → (detach_all detached s).released ≡ s.released
released-detach_all [] s = refl
released-detach_all (i ∷ detached) s = released-detach_all detached (put i none s)

apply-Does :
    (k : ℕ) (op : Op) (s : Scopes)
    → Does k
        (lets_go k op (held_of (s.data_of k)))
        (has_after k op (held_of (s.data_of k)))
        s
        (apply op s)
unfolding apply
apply-Does k (owns i resource) s = own-Does k i resource s
apply-Does k (leaves_by i guard) s =
    map_or-cases (λ o. Does k [] (held_of (s.data_of k)) s (or_same o s)) none
      (λ held.
        some (put i (some (record held { leave_guards = held.leave_guards ++ guard ∷ [] })) s))
      (s.data_of i) (λ e. same-Does k s) (λ held e. put-Does k i held _ s e refl)
apply-Does k (wakes_by i hook) s =
    map_or-cases (λ o. Does k [] (held_of (s.data_of k)) s (or_same o s)) none
      (λ held. some (put i (some (record held { wake_hooks = held.wake_hooks ++ hook ∷ [] })) s))
      (s.data_of i) (λ e. same-Does k s) (λ held e. put-Does k i held _ s e refl)
apply-Does k (sleeps i) s =
    map_or-cases (Does k [] (held_of (s.data_of k)) s) s
      (λ held. put i (some (record held { asleep = true })) s) (s.data_of i) (λ e. same-Does k s)
      (λ held e. put-Does k i held _ s e refl)
apply-Does k (wakes i) s =
    map_or-cases (Does k [] (held_of (s.data_of k)) s) s
      (λ held. record (put i (some (record held { asleep = false })) s) {
        hooks_run = s.hooks_run ++ held.wake_hooks;
      })
      (s.data_of i) (λ e. same-Does k s) (λ held e. put-Does k i held _ s e refl)
apply-Does k (removes detached) s = (
  of_scope-tear_down_each k detached s.data_of (detach_all detached s)
      ∙ ap (λ r. of_scope k r ++ lets_removed (any (λ i. k == i) detached) (held_of (s.data_of k)))
          (released-detach_all detached s),
  ap (λ f. held_of (f k)) (data_of-tear_down_each detached s.data_of (detach_all detached s))
      ∙ held_of-detach_all k detached s,
)

-- Whatever is asked of the scopes, and in whatever order, each lets go of what an account of it alone
-- says: of nothing while it is there; of what it owns, the last first, when it is removed; and after
-- that of what it is given at once, as it is given.
pub released-lets_go_all :
    (k : ℕ) (ops : List Op) (s : Scopes)
    → of_scope k (apply_all ops s).released
      ≡ of_scope k s.released ++ lets_go_all k ops (held_of (s.data_of k))
unfolding apply_all
released-lets_go_all k [] s = sym (append-nil (of_scope k s.released))
released-lets_go_all k (op ∷ ops) s =
    released-lets_go_all k ops (apply op s)
    ∙ ap (λ xs. xs ++ lets_go_all k ops (held_of ((apply op s).data_of k))) (apply-Does k op s).0
    ∙ append_assoc (of_scope k s.released) (lets_go k op (held_of (s.data_of k)))
        (lets_go_all k ops (held_of ((apply op s).data_of k)))
    ∙ ap
        (λ owned.
          of_scope k s.released
          ++ (lets_go k op (held_of (s.data_of k)) ++ lets_go_all k ops owned))
        (apply-Does k op s).1
