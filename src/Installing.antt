-- ===== src/Installing.antt =====
-- crates/guinea-core/src/scope/features.rs, with `FeatureInitContext::install` of
-- crates/guinea-app/src/feature/traits.rs: what the features of a living scope claim, export and
-- answer, each in a section of its own. Features, reducers and actions are known by numbers, and so
-- is what answers. A map is an association list, the newest entry first.
pub mod Sections
mod Tests
use guinea.Base.{
  ℕ, zero, suc, ◌+◌, ◌-◌, Bool, true, false, not, ◌&&◌, ◌||◌, Option, none, some, List, [], ◌∷◌,
  ◌++◌, ◌==◌, if◌then◌else◌, length, get_elem?, set, any, map_or,
}

-- The maps of `ScopeData` that features fill. The sections being installed stand innermost first.
pub record Held : Type 0 where
  pub installed : List ℕ
  pub exported : List ℕ
  pub sections : List (List (ℕ × ℕ))
  pub names : List (Option ℕ)
  pub owners : List (ℕ × ℕ)
  pub installing : List ℕ

-- What an install function does, one thing after the other: it claims reducers, answers actions,
-- exports, fails, and installs features with what they export, failing with them or not.
pub data Body : Type 0 where
  ends fails : Body
  claims_it : ℕ → Body → Body
  answers_it : ℕ → ℕ → Body → Body
  exports_it : ℕ → Body → Body
  installs : Bool → ℕ → List ℕ → Body → Body → Body

abbrev pub has : ℕ → List ℕ → Bool
has x xs = any (λ y. y == x) xs

unfoldable pub lookup : ℕ → List (ℕ × ℕ) → Option ℕ
lookup key [] = none
lookup key (e ∷ entries) = if e.0 == key then some e.1 else lookup key entries

abbrev pub is_some : Option ℕ → Bool
is_some none = false
is_some (some n) = true

abbrev pub head_or : ℕ → List ℕ → ℕ
head_or n [] = n
head_or n (x ∷ xs) = x

-- `ScopeData::current_section`
abbrev pub current_section : Held → ℕ
current_section d = head_or 0 d.installing

-- `Scope::mark_feature_installed`, which panics where the feature is marked already
abbrev pub mark_feature_installed : ℕ → Held → Option Held
mark_feature_installed feature d =
    if has feature d.installed then none else some (record d { installed = feature ∷ d.installed })

-- `Scope::claims`
abbrev pub claims : ℕ → Held → Bool
claims reducer d = is_some (lookup reducer d.owners)

-- `Scope::section_of`
abbrev pub section_of : ℕ → Held → ℕ
section_of reducer d = map_or 0 (λ section. section) (lookup reducer d.owners)

-- `Scope::note_reducer_owner`: the first claim wins.
unfoldable pub note_reducer_owner : ℕ → Held → Held
note_reducer_owner reducer d = record d {
  installed = reducer ∷ d.installed;
  owners = if claims reducer d then d.owners else (reducer, current_section d) ∷ d.owners;
}

-- `Scope::note_export`
abbrev pub note_export : ℕ → Held → Held
note_export reducer d = record d { exported = reducer ∷ d.exported }

-- `Exported::mark` of what a feature exports
unfoldable pub mark_exports : List ℕ → Held → Held
mark_exports [] d = d
mark_exports (reducer ∷ reducers) d = mark_exports reducers (note_export reducer d)

-- `Vec::resize` with nothing
unfoldable pub resize : ℕ → List (Option ℕ) → List (Option ℕ)
resize zero names = []
resize (suc n) [] = none ∷ resize n []
resize (suc n) (name ∷ names) = name ∷ resize n names

-- The segment's own section comes before the first feature's.
abbrev pub with_own : List (List (ℕ × ℕ)) → List (List (ℕ × ℕ))
with_own [] = [] ∷ []
with_own (s ∷ sections) = s ∷ sections

-- `Scope::open_section`; the section is the last one.
unfoldable pub open_section : Option ℕ → Held → Held
open_section name d =
    let index : ℕ = length (with_own d.sections) in
    record d {
      sections = with_own d.sections ++ [] ∷ [];
      names = set (resize (suc index) d.names) index name;
      installing = index ∷ d.installing;
    }

abbrev pub tail : List ℕ → List ℕ
tail [] = []
tail (x ∷ xs) = xs

-- `Scope::close_section`
abbrev pub close_section : Held → Held
close_section d = record d { installing = tail d.installing }

-- An answer in a section, with sections up to it where they are missing.
unfoldable pub answer_in : ℕ → ℕ → ℕ → List (List (ℕ × ℕ)) → List (List (ℕ × ℕ))
answer_in zero action answer [] = ((action, answer) ∷ []) ∷ []
answer_in zero action answer (s ∷ sections) = ((action, answer) ∷ s) ∷ sections
answer_in (suc section) action answer [] = [] ∷ answer_in section action answer []
answer_in (suc section) action answer (s ∷ sections) = s ∷ answer_in section action answer sections

-- `Scope::answers`
unfoldable pub answers : ℕ → ℕ → Held → Held
answers action answer d = record d {
  sections = answer_in (current_section d) action answer d.sections;
}

-- `ScopeData::answerer`
unfoldable pub answerer : ℕ → ℕ → Held → Option ℕ
answerer action section d = map_or none (lookup action) (get_elem? d.sections section)

abbrev pub or_else : Option ℕ → Option ℕ → Option ℕ
or_else none o = o
or_else (some n) o = some n

unfoldable pub first_in : ℕ → List (List (ℕ × ℕ)) → Option ℕ
first_in action [] = none
first_in action (s ∷ sections) = or_else (lookup action s) (first_in action sections)

-- `Scope::first_answerer`
abbrev pub first_answerer : ℕ → Held → Option ℕ
first_answerer action d = first_in action d.sections

-- `Scope::features`, by their names
unfoldable pub features : List (Option ℕ) → List ℕ
features [] = []
features (none ∷ names) = features names
features (some name ∷ names) = name ∷ features names

-- `Exported::unclaimed`: whether some export was claimed by nothing
abbrev pub unclaimed : List ℕ → Held → Bool
unclaimed reducers d = any (λ r. not (claims r d)) reducers

-- The end of `FeatureInitContext::install`, which panics where a feature that did not fail exports
-- what nothing claimed.
abbrev pub checked : List ℕ → Bool → Held → Option (Bool × Held)
checked exports ok d = if ok && unclaimed exports d then none else some (ok, d)

-- `FeatureInitContext::install` of a feature whose body is run by a function: whether it did not
-- fail, and what is held then; or nothing, where it panics.
unfoldable pub install : (Held → Option (Bool × Held)) → ℕ → List ℕ → Held → Option (Bool × Held)
install body feature exports d =
    map_or none
      (λ marked.
        map_or none (λ done. checked exports done.0 (close_section done.1))
          (body (open_section (some feature) (mark_exports exports marked))))
      (mark_feature_installed feature d)

unfoldable pub run_body : Body → Held → Option (Bool × Held)
run_body ends d = some (true, d)
run_body fails d = some (false, d)
run_body (claims_it reducer rest) d = run_body rest (note_reducer_owner reducer d)
run_body (answers_it action answer rest) d = run_body rest (answers action answer d)
run_body (exports_it reducer rest) d = run_body rest (note_export reducer d)
run_body (installs must feature exports body rest) d =
    map_or none (λ done. if must && not done.0 then some (false, done.1) else run_body rest done.1)
      (install (run_body body) feature exports d)
