-- ===== src/Installing/Sections.antt =====
-- What an install leaves of the sections of crates/guinea-core/src/scope/features.rs.
use guinea.Base.{
  ℕ, zero, suc, ◌≡◌, refl, sym, ap, subst, ◌∙◌, Bool, true, false, not, ◌&&◌, ◌||◌, Option, none,
  some, List, [], ◌∷◌, ◌⊎◌, inl, inr, ◌==◌, ==_iff, ==_ne, and-left-false, Bool-cases, if-false,
  if-intro, if◌then◌else◌, get_elem?, All, map_or, map_or-cases, arith,
}
use mathlib.Core.Bool.{true≢false}
use guinea.Installing.{
  Held, Body, ends, fails, claims_it, answers_it, exports_it, installs, lookup, is_some,
  current_section, mark_feature_installed, claims, note_reducer_owner, note_export, mark_exports,
  open_section, close_section, answer_in, answers, answerer, unclaimed, checked, install, run_body,
  has, tail,
}

-- The same sections are being installed, and what was claimed belongs where it did.
abbrev pub Extends : Held → Held → Type 0
Extends d t =
    (t.installing ≡ d.installing)
    × ((reducer section : ℕ)
        → lookup reducer d.owners ≡ some section
        → lookup reducer t.owners ≡ some section)

Extends-trans : (d t u : Held) → Extends d t → Extends t u → Extends d u
Extends-trans d t u h k = (k.0 ∙ h.0, λ r s e. k.1 r s (h.1 r s e))

-- What holds of what is held after, unless there was a panic.
abbrev AllSome : (Held → Type 0) → Option (Bool × Held) → Type 0
AllSome P none = Unit
AllSome P (some r) = P r.1

claim-Extends : (reducer : ℕ) (d : Held) → Extends d (note_reducer_owner reducer d)
unfolding note_reducer_owner lookup
claim-Extends reducer d = (
  refl,
  λ r s e.
      if-intro (λ owners. lookup r owners ≡ some s) (claims reducer d) d.owners
        ((reducer, current_section d) ∷ d.owners) (λ old. e)
        (λ new.
          if-intro (λ o. o ≡ some s) (reducer == r) (some (current_section d)) (lookup r d.owners)
            (λ same.
              let there : claims reducer d ≡ true =
                ap is_some (ap (λ i. lookup i d.owners) ((==_iff reducer r).0 same) ∙ e) in
              absurd (cc (there, new)))
            (λ other. e)),
)

AllSome-map :
    (P Q : Held → Type 0) (o : Option (Bool × Held)) (f : Bool × Held → Option (Bool × Held))
    → AllSome P o
    → ((r : Bool × Held) → P r.1 → AllSome Q (f r))
    → AllSome Q (map_or none f o)
AllSome-map P Q none f h k = tt
AllSome-map P Q (some r) f h k = k r h

AllSome-mono :
    (P Q : Held → Type 0) (o : Option (Bool × Held))
    → AllSome P o
    → ((t : Held) → P t → Q t)
    → AllSome Q o
AllSome-mono P Q none h k = tt
AllSome-mono P Q (some r) h k = k r.1 h

mark_exports-Extends : (reducers : List ℕ) (d : Held) → Extends d (mark_exports reducers d)
unfolding mark_exports
mark_exports-Extends [] d = (refl, λ r s e. e)
mark_exports-Extends (reducer ∷ reducers) d = mark_exports-Extends reducers (note_export reducer d)

checked-AllSome :
    (P : Held → Type 0) (exports : List ℕ) (ok : Bool) (d : Held)
    → P d
    → AllSome P (checked exports ok d)
checked-AllSome P exports ok d h =
    if-intro (AllSome P) (ok && unclaimed exports d) none (some (ok, d)) (λ e. tt) (λ e. h)

install-Extends :
    (body : Held → Option (Bool × Held)) (feature : ℕ) (exports : List ℕ) (d : Held)
    → ((t : Held) → AllSome (Extends t) (body t))
    → AllSome (Extends d) (install body feature exports d)
unfolding install open_section
install-Extends body feature exports d k =
    let begun : Held = record d { installed = feature ∷ d.installed } in
    let named : Held = mark_exports exports begun in
    let opened : Held = open_section (some feature) named in
    let marks : Extends begun named = mark_exports-Extends exports begun in
    if-intro
      (λ o. AllSome (Extends d) (
        map_or none
          (λ marked.
            map_or none (λ done. checked exports done.0 (close_section done.1))
              (body (open_section (some feature) (mark_exports exports marked))))
          o))
      (has feature d.installed) none (some begun) (λ twice. tt)
      (λ once. AllSome-map (Extends opened) (Extends d) (body opened) _ (k opened) (λ done ext.
        checked-AllSome (Extends d) exports done.0 (close_section done.1)
          (ap tail ext.0 ∙ marks.0, λ r s e. ext.1 r s (marks.1 r s e))))

run_body-Extends : (body : Body) (d : Held) → AllSome (Extends d) (run_body body d)
unfolding run_body answers
run_body-Extends ends d = (refl, λ r s e. e)
run_body-Extends fails d = (refl, λ r s e. e)
run_body-Extends (claims_it reducer rest) d =
    AllSome-mono (Extends (note_reducer_owner reducer d)) (Extends d) _
      (run_body-Extends rest (note_reducer_owner reducer d))
      (λ t h. Extends-trans d (note_reducer_owner reducer d) t (claim-Extends reducer d) h)
run_body-Extends (answers_it action answer rest) d = run_body-Extends rest (answers action answer d)
run_body-Extends (exports_it reducer rest) d = run_body-Extends rest (note_export reducer d)
run_body-Extends (installs must feature exports body rest) d =
    AllSome-map (Extends d) (Extends d) (install (run_body body) feature exports d) _
      (install-Extends (run_body body) feature exports d (run_body-Extends body))
      (λ done ext.
        if-intro (AllSome (Extends d)) (must && not done.0) (some (false, done.1))
          (run_body rest done.1) (λ failed. ext)
          (λ fine.
            AllSome-mono (Extends done.1) (Extends d) _ (run_body-Extends rest done.1)
              (λ t h. Extends-trans d done.1 t ext h)))

-- A feature that failed, or each reducer it exports was claimed.
abbrev pub IsFulfilled : List ℕ → Bool → Held → Type 0
IsFulfilled exports ok t = (ok ≡ false) ⊎ All (λ r. claims r t ≡ true) exports

abbrev Every : (Bool → Held → Type 0) → Option (Bool × Held) → Type 0
Every P none = Unit
Every P (some r) = P r.0 r.1

unclaimed-claims :
    (exports : List ℕ) (d : Held)
    → unclaimed exports d ≡ false
    → All (λ r. claims r d ≡ true) exports
unclaimed-claims [] d h = tt
unclaimed-claims (r ∷ exports) d h = elim (Bool-cases (claims r d)) [
  | inl there ↦
      (there, unclaimed-claims exports d (ap (λ b. not b || unclaimed exports d) (sym there) ∙ h))
  | inr missing ↦ absurd (true≢false (ap (λ b. not b || unclaimed exports d) (sym missing) ∙ h))
]

checked-IsFulfilled :
    (exports : List ℕ) (ok : Bool) (d : Held) → Every (IsFulfilled exports) (checked exports ok d)
checked-IsFulfilled exports true d =
    if-intro (Every (IsFulfilled exports)) (unclaimed exports d) none (some (true, d)) (λ bad. tt)
      (λ fine. inr (unclaimed-claims exports d fine))
checked-IsFulfilled exports false d = inl refl

install-IsFulfilled :
    (body : Held → Option (Bool × Held)) (feature : ℕ) (exports : List ℕ) (d : Held)
    → Every (IsFulfilled exports) (install body feature exports d)
unfolding install
install-IsFulfilled body feature exports d =
    map_or-cases (Every (IsFulfilled exports)) none _ (mark_feature_installed feature d) (λ e. tt)
      (λ marked e.
        map_or-cases (Every (IsFulfilled exports)) none _
          (body (open_section (some feature) (mark_exports exports marked))) (λ e. tt)
          (λ done e. checked-IsFulfilled exports done.0 (close_section done.1)))

-- An install that is done, whatever its body does, installing others and failing or not: the sections
-- being installed are as before, what was claimed before belongs where it did, and where the feature
-- did not fail, each reducer it exports was claimed.
pub install-Extends-IsFulfilled :
    (body : Body) (feature : ℕ) (exports : List ℕ) (ok : Bool) (d t : Held)
    → install (run_body body) feature exports d ≡ some (ok, t)
    → Extends d t × IsFulfilled exports ok t
install-Extends-IsFulfilled body feature exports ok d t h = (
  subst (AllSome (Extends d)) h
      (install-Extends (run_body body) feature exports d (run_body-Extends body)),
  subst (Every (IsFulfilled exports)) h (install-IsFulfilled (run_body body) feature exports d),
)

untouched {ℓ} : {A : Type ℓ} (b c : Bool) (x y : A) → b ≡ false → y ≡ (if b && c then x else y)
untouched b c x y h = sym (if-false (b && c) x y (and-left-false b c h))

suc-eq : (a b : ℕ) → (a == b) ≡ (suc a == suc b)
suc-eq a b = ground arith

get_elem?-answer_in :
    (section at action answer : ℕ) (sections : List (List (ℕ × ℕ))) (wanted : ℕ)
    → map_or none (lookup wanted) (get_elem? (answer_in section action answer sections) at) ≡ (
        if (at == section) && (action == wanted)
        then some answer
        else map_or none (lookup wanted) (get_elem? sections at))
unfolding answer_in lookup
get_elem?-answer_in zero zero action answer [] wanted = refl
get_elem?-answer_in zero zero action answer (s ∷ sections) wanted = refl
get_elem?-answer_in zero (suc at) action answer [] wanted =
    untouched (suc at == 0) (action == wanted) (some answer) _
      (==_ne (suc at) 0 (λ e. omega (arith, e)))
get_elem?-answer_in zero (suc at) action answer (s ∷ sections) wanted =
    untouched (suc at == 0) (action == wanted) (some answer) _
      (==_ne (suc at) 0 (λ e. omega (arith, e)))
get_elem?-answer_in (suc section) zero action answer [] wanted =
    untouched (0 == suc section) (action == wanted) (some answer) _
      (==_ne 0 (suc section) (λ e. omega (arith, e)))
get_elem?-answer_in (suc section) zero action answer (s ∷ sections) wanted =
    untouched (0 == suc section) (action == wanted) (some answer) _
      (==_ne 0 (suc section) (λ e. omega (arith, e)))
get_elem?-answer_in (suc section) (suc at) action answer [] wanted =
    get_elem?-answer_in section at action answer [] wanted
    ∙ ap (λ b. if b && (action == wanted) then some answer else none) (suc-eq at section)
get_elem?-answer_in (suc section) (suc at) action answer (s ∷ sections) wanted =
    get_elem?-answer_in section at action answer sections wanted
    ∙ ap
        (λ b.
          if b && (action == wanted)
          then some answer
          else map_or none (lookup wanted) (get_elem? sections at))
        (suc-eq at section)

-- An answer is found in the section being installed, under its action, in place of an earlier one; any
-- other section, and any other action, is answered as before.
pub answerer-answers :
    (action answer wanted section : ℕ) (d : Held)
    → answerer wanted section (answers action answer d) ≡ (
        if (section == current_section d) && (action == wanted)
        then some answer
        else answerer wanted section d)
unfolding answerer answers
answerer-answers action answer wanted section d =
    get_elem?-answer_in (current_section d) section action answer d.sections wanted
