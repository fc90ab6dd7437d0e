-- ===== src/Router/Installing.antt =====
-- What `Router::install_from` of crates/guinea-router/src/router.rs leaves standing, when it installs
-- and when it does not.
use guinea.Base.{
  ℕ, zero, suc, ◌≤◌, ◌≡◌, ◌⊎◌, inl, inr, refl, sym, ◌∙◌, subst, Option, none, some, List, [], ◌∷◌,
  length, drop, arith, Option-cases,
}
use guinea.Router.Chain.{SegmentEntry, kept_until}
use guinea.Router.Host.{Host}
use guinea.Router.Leaving.{ActiveChain, Chains, first_of, leave}
use guinea.Router.Install.{
  BuildResult, built, failed, panicked, Installing, installed, refused, broken, last_of, build,
  take_down, previous_of, after_back, put_back, after_build, install_from,
}
use guinea.Router.Standing.{tear_down-active, cache_from-active, leave_from-active}
use guinea.Router.Outcome.{Outcome, build-Outcome, build-active, length-first_of}

abbrev pub AgainFits : {P : Type 0} → ℕ → Option (List P) → Type 0
AgainFits n none = Unit
AgainFits n (some params) = n ≤ length params

module _ {P Scope : Type 0} where
  -- A chain stands: all its segments, one scope each, below the scopes that were kept.
  abbrev pub Stands :
      List Scope
      → List (SegmentEntry P)
      → List P
      → Option (List P)
      → Option (ActiveChain P Scope)
      → Type 0
  Stands keep chain params again none = ⊥
  Stands keep chain params again (some a) =
      (a.entries ≡ chain)
      × (a.params ≡ params)
      × (a.again ≡ again)
      × (first_of (length keep) a.scopes ≡ keep)
      × (length a.scopes ≡ length chain)

  abbrev pub StandsAgain :
      List Scope → List (SegmentEntry P) → Option (List P) → Option (ActiveChain P Scope) → Type 0
  StandsAgain keep entries none after = ⊥
  StandsAgain keep entries (some params) after = Stands keep entries params (some params) after

  -- The chain before stands again, made with the params of its own route.
  abbrev pub IsBack :
      List Scope → Option (ActiveChain P Scope) → Option (ActiveChain P Scope) → Type 0
  IsBack keep none after = ⊥
  IsBack keep (some before) after = StandsAgain keep before.entries before.again after

  abbrev pub scopes_of : Option (ActiveChain P Scope) → List Scope
  scopes_of none = []
  scopes_of (some a) = a.scopes

  -- A whole chain is active, or none: each segment has a scope, and its route makes as many params.
  abbrev pub IsWhole : Option (ActiveChain P Scope) → Type 0
  IsWhole none = Unit
  IsWhole (some a) =
      (length a.scopes ≡ length a.entries)
      × (1 ≤ length a.entries)
      × AgainFits (length a.entries) a.again

-- What `install_from` may end with.
abbrev pub Ends :
    {P Scope Error : Type 0}
    → List Scope
    → List (SegmentEntry P)
    → List P
    → Option (List P)
    → Option (ActiveChain P Scope)
    → Installing Scope Error
    → Option (ActiveChain P Scope)
    → Type 0
Ends keep chain params again before (installed leaf) after =
    Stands keep chain params again after × (last_of leaf (scopes_of after) ≡ leaf)
Ends keep chain params again before (refused error) after =
    (after ≡ none) ⊎ IsBack keep before after
Ends keep chain params again before broken after = ⊥

module _ {P Scope States Error World : Type 0} (host : Host P Scope States Error World) where
  abbrev EndsWith :
      List Scope
      → List (SegmentEntry P)
      → List P
      → Option (List P)
      → Option (ActiveChain P Scope)
      → Installing Scope Error × Chains P Scope States World
      → Type 0
  EndsWith keep chain params again before r = Ends keep chain params again before r.0 r.1.active

  after_back-Ends :
      (keep : List Scope) (chain : List (SegmentEntry P)) (params : List P)
      (again : Option (List P)) (before : ActiveChain P Scope) (back : List P) (error : Error)
      (r : BuildResult Scope Error) (st : Chains P Scope States World)
      → 1 ≤ length before.entries
      → before.again ≡ some back
      → Outcome keep (length before.entries) r
      → st.active ≡ none
      → EndsWith keep chain params again
          (some before)
          (after_back host error before.entries back (r, st))
  after_back-Ends keep chain params again before back error (built []) st l e h n =
      absurd (omega (arith, h.1))
  after_back-Ends keep chain params again before back error (built (scope ∷ scopes)) st l e h n =
      inr (rw e (refl, refl, refl, h.0, h.1))
  after_back-Ends keep chain params again before back error (failed other kept) st l e h n =
      inl (tear_down-active host kept 0 st ∙ n)
  after_back-Ends keep chain params again before back error panicked st l e h n = absurd h

  put_back-Ends :
      (keep : List Scope) (chain : List (SegmentEntry P)) (params : List P)
      (again : Option (List P)) (before : Option (ActiveChain P Scope)) (error : Error)
      (st : Chains P Scope States World)
      → IsWhole before
      → length keep ≤ length (scopes_of before)
      → st.active ≡ none
      → EndsWith keep chain params again before (put_back host error keep (previous_of before) st)
  put_back-Ends keep chain params again none error st w l n =
      inl (tear_down-active host keep 0 st ∙ n)
  put_back-Ends keep chain params again (some before) error st w l n =
      elim (Option-cases before.again) [
        | inl gone ↦
            at_previous none (previous_none gone) (inl (tear_down-active host keep 0 st ∙ n))
        | inr (back, e) ↦
            at_previous (some (before.entries, back)) (previous_some back e) (goes_back back e)
      ]
    where
      at_previous :
          (o : Option (List (SegmentEntry P) × List P))
          → previous_of (some before) ≡ o
          → EndsWith keep chain params again (some before) (put_back host error keep o st)
          → EndsWith keep chain params again
              (some before)
              (put_back host error keep (previous_of (some before)) st)
      at_previous o e =
          subst
            (λ p. EndsWith keep chain params again (some before) (put_back host error keep p st))
            (sym e)

      previous_none : before.again ≡ none → previous_of (some before) ≡ none
      previous_none e = rw e

      previous_some :
          (back : List P)
          → before.again ≡ some back
          → previous_of (some before) ≡ some (before.entries, back)
      previous_some back e = rw e

      goes_back :
          (back : List P)
          → before.again ≡ some back
          → EndsWith keep chain params again
              (some before)
              (after_back host error before.entries back (build host before.entries keep back st))
      goes_back back e =
          after_back-Ends keep chain params again before back error
            (build host before.entries keep back st).0 (build host before.entries keep back st).1
            w.1 e
            (build-Outcome host before.entries keep back st (omega (arith, l, w.0)) (rw e at w).2)
            (build-active host before.entries keep back st ∙ n)

  after_build-Ends :
      (keep : List Scope) (chain : List (SegmentEntry P)) (params : List P)
      (again : Option (List P)) (before : Option (ActiveChain P Scope))
      (r : BuildResult Scope Error) (st : Chains P Scope States World)
      → 1 ≤ length chain
      → IsWhole before
      → length keep ≤ length (scopes_of before)
      → Outcome keep (length chain) r
      → st.active ≡ none
      → EndsWith keep chain params again before
          (after_build host chain params again (previous_of before) (r, st))
  after_build-Ends keep chain params again before (built []) st c w l h n =
      absurd (omega (arith, h.1))
  after_build-Ends keep chain params again before (built (scope ∷ scopes)) st c w l h n =
      ((refl, refl, refl, h.0, h.1), refl)
  after_build-Ends keep chain params again before (failed error kept) st c w l h n =
      subst
        (λ k.
          EndsWith keep chain params again before (put_back host error k (previous_of before) st))
        (sym h) (put_back-Ends keep chain params again before error st w l n)
  after_build-Ends keep chain params again before panicked st c w l h n = absurd h

  take_down-keeps :
      (shared : ℕ) (before : Option (ActiveChain P Scope)) (st : Chains P Scope States World)
      → (take_down host shared before st).0 ≡ first_of shared (scopes_of before)
  unfolding leave
  take_down-keeps zero none st = refl
  take_down-keeps (suc shared) none st = refl
  take_down-keeps shared (some before) st = refl

  take_down-active :
      (shared : ℕ) (before : Option (ActiveChain P Scope)) (st : Chains P Scope States World)
      → st.active ≡ before
      → (take_down host shared before st).1.active ≡ none
  unfolding leave
  take_down-active shared none st e = e
  take_down-active shared (some before) st e =
      leave_from-active host before.entries before.params (kept_until before.entries shared) shared
        (drop shared before.scopes) _
      ∙ cache_from-active host before.entries before.params (kept_until before.entries shared)
          (drop (kept_until before.entries shared) before.entries)
          (drop (kept_until before.entries shared) before.scopes) _

  -- A navigation that installs leaves its whole chain standing below the scopes it shares with the
  -- chain before, and gives its leaf. One that fails leaves the chain before standing again, below
  -- those same scopes and with the params of its own route, or no chain at all. There is no panic and
  -- no half-built chain, where the chain before was whole, what is shared fits both chains, and the
  -- new chain has a segment and params for each.
  pub install_from-Ends :
      (chain : List (SegmentEntry P)) (shared : ℕ) (params : List P) (again : Option (List P))
      (st : Chains P Scope States World)
      → IsWhole st.active
      → 1 ≤ length chain
      → length chain ≤ length params
      → shared ≤ length chain
      → shared ≤ length (scopes_of st.active)
      → Ends
          (first_of shared (scopes_of st.active))
          chain
          params
          again
          st.active
          (install_from host chain shared params again st).0
          (install_from host chain shared params again st).1.active
  unfolding install_from
  install_from-Ends chain shared params again st w c p s k =
      let keep = first_of shared (scopes_of st.active) in
      let down = (take_down host shared st.active st).1 in
      let fits : length keep ≡ shared = length-first_of shared (scopes_of st.active) k in
      subst
        (λ standing. EndsWith keep chain params again st.active (
          after_build host chain params again (previous_of st.active)
            (build host chain standing params down)))
        (sym (take_down-keeps shared st.active st))
        (after_build-Ends keep chain params again st.active (build host chain keep params down).0
          (build host chain keep params down).1 c w (omega (arith, fits, k))
          (build-Outcome host chain keep params down (omega (arith, fits, s)) p)
          (build-active host chain keep params down ∙ take_down-active shared st.active st refl))
