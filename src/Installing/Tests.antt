-- ===== src/Installing/Tests.antt =====
-- Two instances of one feature in a segment, which answer the same action.
use guinea.Base.{ℕ, suc, ◌≡◌, refl, true, none, some, [], ◌∷◌, map_or}
use guinea.Installing.{
  Held, Body, ends, claims_it, answers_it, installs, lookup, section_of, first_answerer, first_in,
  features, note_reducer_owner, mark_exports, resize, open_section, answer_in, answers, install,
  run_body,
}
use guinea.Installing.Sections.{Extends, IsFulfilled, install-Extends-IsFulfilled}

abbrev empty : Held
empty = record {
  installed = [];
  exported = [];
  sections = [];
  names = [];
  owners = [];
  installing = [];
}

-- A feature that claims one reducer and answers the action 5.
abbrev listing : ℕ → Body
listing reducer = claims_it reducer (answers_it 5 (suc reducer) ends)

abbrev segment : Body
segment = installs true 1 (20 ∷ []) (listing 20) (installs true 2 (30 ∷ []) (listing 30) ends)

after-sections : map_or 0 (λ r. section_of 30 r.1) (run_body segment empty) ≡ 2
unfolding run_body install mark_exports open_section resize note_reducer_owner answers answer_in
    lookup
after-sections = refl

after-features : map_or [] (λ r. features r.1.names) (run_body segment empty) ≡ 1 ∷ 2 ∷ []
unfolding run_body install mark_exports open_section resize note_reducer_owner answers answer_in
    lookup features
after-features = refl

after-first_answerer : map_or none (λ r. first_answerer 5 r.1) (run_body segment empty) ≡ some 21
unfolding run_body install mark_exports open_section resize note_reducer_owner answers answer_in
    lookup first_in
after-first_answerer = refl

-- An export that nothing claimed.
unclaimed-panics : install (run_body ends) 1 (20 ∷ []) empty ≡ none
unfolding run_body install mark_exports open_section resize lookup
unclaimed-panics = refl

abbrev installed : Held
installed = map_or empty (λ r. r.1) (install (run_body (listing 20)) 1 (20 ∷ []) empty)

install-Extends-IsFulfilled_example : Extends empty installed × IsFulfilled (20 ∷ []) true installed
unfolding run_body install mark_exports open_section resize note_reducer_owner answers answer_in
    lookup
install-Extends-IsFulfilled_example =
    install-Extends-IsFulfilled (listing 20) 1 (20 ∷ []) true empty installed refl
