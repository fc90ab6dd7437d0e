-- ===== src/Lifetime/Releases.antt =====
-- What the scopes of crates/guinea-core/src/scope/lifetime.rs let go of, and in which order.
use guinea.Base.{
  ℕ, ◌≡◌, refl, sym, ap, ◌∙◌, Bool, true, false, Option, none, some, List, [], ◌∷◌, ◌++◌, ◌==◌,
  if◌then◌else◌, any, map_or-cases, append-nil, append_assoc, ==_iff,
}
use guinea.Scope.{reverse_onto}
use guinea.Lifetime.{Held, Release, Scopes, put, release, own, release_all, Op, owns, removes}

-- What a scope let go of, in order.
abbrev pub of_scope : ℕ → List Release → List ℕ
of_scope k [] = []
of_scope k (r ∷ released) =
    let rest = of_scope k released in if k == r.scope then r.resource ∷ rest else rest

-- What one scope owns, or none once it is gone, after what is asked, and what it has let go of: an
-- account of one scope alone, that knows no others.
abbrev pub held_of : Option Held → Option (List ℕ)
held_of none = none
held_of (some held) = some held.teardowns

abbrev pub lets_own : Bool → ℕ → Option (List ℕ) → List ℕ
lets_own true resource none = resource ∷ []
lets_own _ resource _ = []

abbrev pub has_own : Bool → ℕ → Option (List ℕ) → Option (List ℕ)
has_own true resource (some owned) = some (owned ++ resource ∷ [])
has_own _ resource owned = owned

abbrev pub lets_removed : Bool → Option (List ℕ) → List ℕ
lets_removed true (some owned) = reverse_onto owned []
lets_removed _ _ = []

abbrev pub has_removed : Bool → Option (List ℕ) → Option (List ℕ)
has_removed true owned = none
has_removed false owned = owned

abbrev pub lets_go : ℕ → Op → Option (List ℕ) → List ℕ
lets_go k (owns i resource) owned = lets_own (k == i) resource owned
lets_go k (removes detached) owned = lets_removed (any (λ i. k == i) detached) owned
lets_go k _ owned = []

abbrev pub has_after : ℕ → Op → Option (List ℕ) → Option (List ℕ)
has_after k (owns i resource) owned = has_own (k == i) resource owned
has_after k (removes detached) owned = has_removed (any (λ i. k == i) detached) owned
has_after k _ owned = owned

abbrev pub lets_go_all : ℕ → List Op → Option (List ℕ) → List ℕ
lets_go_all k [] owned = []
lets_go_all k (op ∷ ops) owned = lets_go k op owned ++ lets_go_all k ops (has_after k op owned)

float :
    (b : Bool) (x : ℕ) (xs ys : List ℕ)
    → (if b then x ∷ (xs ++ ys) else (xs ++ ys)) ≡ (if b then x ∷ xs else xs) ++ ys
float true x xs ys = refl
float false x xs ys = refl

of_scope-append :
    (k : ℕ) (xs ys : List Release) → of_scope k (xs ++ ys) ≡ of_scope k xs ++ of_scope k ys
of_scope-append k [] ys = refl
of_scope-append k (x ∷ xs) ys =
    ap (λ rest. if k == x.scope then x.resource ∷ rest else rest) (of_scope-append k xs ys)
    ∙ float (k == x.scope) x.resource (of_scope k xs) (of_scope k ys)

abbrev pub kept : Bool → List ℕ → List ℕ
kept b xs = if b then xs else []

kept_nil : (b : Bool) → [] ≡ kept b []
kept_nil true = refl
kept_nil false = refl

kept_cons :
    (b : Bool) (x : ℕ) (xs : List ℕ) → (if b then x ∷ [] else []) ++ kept b xs ≡ kept b (x ∷ xs)
kept_cons true x xs = refl
kept_cons false x xs = refl

pub of_scope-release_all :
    (k i : ℕ) (resources : List ℕ) (s : Scopes)
    → of_scope k (release_all i resources s).released
      ≡ of_scope k s.released ++ kept (k == i) resources
of_scope-release_all k i [] s =
    sym (append-nil (of_scope k s.released))
    ∙ ap (λ xs. of_scope k s.released ++ xs) (kept_nil (k == i))
of_scope-release_all k i (resource ∷ resources) s =
    of_scope-release_all k i resources (release i resource s)
    ∙ ap (λ xs. xs ++ kept (k == i) resources) (of_scope-append k s.released _)
    ∙ append_assoc (of_scope k s.released) _ _
    ∙ ap (λ xs. of_scope k s.released ++ xs) (kept_cons (k == i) resource resources)

pub data_of-release_all :
    (i : ℕ) (resources : List ℕ) (s : Scopes) → (release_all i resources s).data_of ≡ s.data_of
data_of-release_all i [] s = refl
data_of-release_all i (resource ∷ resources) s =
    data_of-release_all i resources (release i resource s)

-- What a step let go of, of one scope, and what that scope owns after it.
abbrev pub Does : ℕ → List ℕ → Option (List ℕ) → Scopes → Scopes → Type 0
Does k let_go owned s s' =
    (of_scope k s'.released ≡ of_scope k s.released ++ let_go) × (held_of (s'.data_of k) ≡ owned)

gone_lets :
    (b : Bool) (resource : ℕ) (held : Option Held)
    → (b ≡ true → held ≡ none)
    → (if b then resource ∷ [] else []) ≡ lets_own b resource (held_of held)
gone_lets true resource held h = ap (λ o. lets_own true resource (held_of o)) (sym (h refl))
gone_lets false resource held h = refl

gone_has :
    (b : Bool) (resource : ℕ) (held : Option Held)
    → (b ≡ true → held ≡ none)
    → held_of held ≡ has_own b resource (held_of held)
gone_has true resource none h = refl
gone_has true resource (some held) h = absurd (cc (h refl))
gone_has false resource held h = refl

there_lets :
    (b : Bool) (resource : ℕ) (held : Held) (o : Option Held)
    → (b ≡ true → o ≡ some held)
    → [] ≡ lets_own b resource (held_of o)
there_lets true resource held o h = ap (λ o. lets_own true resource (held_of o)) (sym (h refl))
there_lets false resource held o h = refl

there_has :
    (b : Bool) (resource : ℕ) (held : Held) (o : Option Held)
    → (b ≡ true → o ≡ some held)
    → held_of (if b then some (record held { teardowns = held.teardowns ++ resource ∷ [] }) else o)
      ≡ has_own b resource (held_of o)
there_has true resource held o h = ap (λ o. has_own true resource (held_of o)) (sym (h refl))
there_has false resource held o h = refl

pub own-Does :
    (k i resource : ℕ) (s : Scopes)
    → Does k
        (lets_own (k == i) resource (held_of (s.data_of k)))
        (has_own (k == i) resource (held_of (s.data_of k)))
        s
        (own i resource s)
own-Does k i resource s =
    map_or-cases
      (λ s'.
        Does k (lets_own (k == i) resource (held_of (s.data_of k)))
          (has_own (k == i) resource (held_of (s.data_of k))) s s')
      (release i resource s)
      (λ held. put i (some (record held { teardowns = held.teardowns ++ resource ∷ [] })) s)
      (s.data_of i)
      (λ e. (
        of_scope-append k s.released _
            ∙ ap (λ xs. of_scope k s.released ++ xs)
                (gone_lets (k == i) resource (s.data_of k)
                  (λ t. ap s.data_of ((==_iff k i).0 t) ∙ e)),
        gone_has (k == i) resource (s.data_of k) (λ t. ap s.data_of ((==_iff k i).0 t) ∙ e),
      ))
      (λ held e. (
        sym (append-nil (of_scope k s.released))
            ∙ ap (λ xs. of_scope k s.released ++ xs)
                (there_lets (k == i) resource held (s.data_of k)
                  (λ t. ap s.data_of ((==_iff k i).0 t) ∙ e)),
        there_has (k == i) resource held (s.data_of k) (λ t. ap s.data_of ((==_iff k i).0 t) ∙ e),
      ))

pub same-Does : (k : ℕ) (s : Scopes) → Does k [] (held_of (s.data_of k)) s s
same-Does k s = (sym (append-nil (of_scope k s.released)), refl)

put_same :
    (b : Bool) (held changed : Held) (o : Option Held)
    → (b ≡ true → o ≡ some held)
    → changed.teardowns ≡ held.teardowns
    → held_of (if b then some changed else o) ≡ held_of o
put_same true held changed o h e = ap some e ∙ ap held_of (sym (h refl))
put_same false held changed o h e = refl

-- What a scope owns stands where only the rest of what it holds is changed.
pub put-Does :
    (k i : ℕ) (held changed : Held) (s : Scopes)
    → s.data_of i ≡ some held
    → changed.teardowns ≡ held.teardowns
    → Does k [] (held_of (s.data_of k)) s (put i (some changed) s)
put-Does k i held changed s e same = (
  sym (append-nil (of_scope k s.released)),
  put_same (k == i) held changed (s.data_of k) (λ t. ap s.data_of ((==_iff k i).0 t) ∙ e) same,
)
