-- ===== src/Timers/Firing.antt =====
-- What a wake-up of crates/guinea-app/src/timers.rs that comes due, and the one that takes its place,
-- leave of the others.
use guinea.Base.{
  ℕ, ◌≡◌, ◌≢◌, refl, sym, subst, true, Option, none, some, List, [], ◌∷◌, ◌++◌, All, Any, here,
  there, All-append, Any-append_left, Any-append_right, append-nil,
}
use guinea.Timers.{Entry, Wake, armed}
use guinea.Timers.Chains.{Differ, AreDistinct, IsPaced, IsHad, Sound}

module _ {ℓ κ} {A : Type ℓ} where
  All-move :
      (P : A → Type κ) (xs : List A) (x : A) (ys : List A)
      → All P (xs ++ x ∷ ys)
      → P x × All P (xs ++ ys)
  All-move P [] x ys h = h
  All-move P (y ∷ xs) x ys h = let (k, rest) = All-move P xs x ys h.1 in (k, (h.0, rest))

  Any-move :
      {P : A → Type κ} (xs : List A) (x : A) (ys : List A)
      → Any P (xs ++ x ∷ ys)
      → Any P (x ∷ xs ++ ys)
  Any-move [] x ys h = h
  Any-move (y ∷ xs) x ys (here p) = there (here p)
  Any-move (y ∷ xs) x ys (there a) = elim (Any-move xs x ys a) [
    | here p ↦ here p
    | there b ↦ there (there b)
  ]

Differ-sym : (w v : Wake) → Differ w v → Differ v w
Differ-sym w v h same = h (sym (same.0), sym (same.1))

AreDistinct-move :
    (xs : List Wake) (w : Wake) (ys : List Wake)
    → AreDistinct (xs ++ w ∷ ys)
    → AreDistinct (w ∷ xs ++ ys)
AreDistinct-move [] w ys h = h
AreDistinct-move (x ∷ xs) w ys (far, rest) =
    let (k, others) = All-move (Differ x) xs w ys far in
    let (front, back) = AreDistinct-move xs w ys rest in ((Differ-sym x w k, front), (others, back))

AreDistinct-append :
    (ws : List Wake) (v : Wake) → All (Differ v) ws → AreDistinct ws → AreDistinct (ws ++ v ∷ [])
AreDistinct-append [] v far h = (tt, tt)
AreDistinct-append (w ∷ ws) v far h = (
  All-append (Differ w) ws (v ∷ []) h.0 (Differ-sym v w far.0, tt),
  AreDistinct-append ws v far.1 h.1,
)

module _ {W : Type 0} where
  -- The wake-up that comes due may be told apart from the rest.
  pub front-Sound :
      (next : ℕ) (E : ℕ → Option (Entry W)) (ws : List Wake) (w : Wake) (vs : List Wake)
      → Sound next E (ws ++ w ∷ vs)
      → Sound next E (w ∷ ws ++ vs)
  front-Sound next E ws w vs (had, distinct, fresh, chain) = (
    All-move (IsHad E) ws w vs had,
    AreDistinct-move ws w vs distinct,
    fresh,
    (λ i e found h paced. Any-move ws w vs (chain i e found h paced)),
  )

  -- Its place is taken by what the period asks for, and needs not be taken where no timer waits for it.
  pub renew-Sound :
      (next now : ℕ) (E : ℕ → Option (Entry W)) (w : Wake) (ws : List Wake) (wait : Option ℕ)
      → ((e : Entry W)
          → E w.timer ≡ some e
          → e.generation ≡ w.generation
          → e.held ≡ true
          → IsPaced e.period
          → wait ≢ none)
      → Sound next E (w ∷ ws)
      → Sound next E (ws ++ armed w.timer w.generation now wait)
  unfolding armed
  renew-Sound next now E w ws none k (had, distinct, fresh, chain) =
      subst (Sound next E) (sym (append-nil ws)) (
        had.1,
        distinct.1,
        fresh,
        (λ i e found h paced. elim (chain i e found h paced) [
          | here p ↦
              absurd (k e (subst (λ j. E j ≡ some e) (sym (p.0)) found) (sym (p.1)) h paced refl)
          | there a ↦ a
        ]),
      )
  renew-Sound next now E w ws (some wait) k (had, distinct, fresh, chain) = (
    All-append (IsHad E) ws _ had.1 (had.0, tt),
    AreDistinct-append ws _ distinct.0 distinct.1,
    fresh,
    (λ i e found h paced. elim (chain i e found h paced) [
      | here p ↦ Any-append_right ws (here p)
      | there a ↦ Any-append_left _ a
    ]),
  )
