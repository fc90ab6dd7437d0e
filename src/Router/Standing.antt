-- ===== src/Router/Standing.antt =====
-- Taking down and building, of crates/guinea-router/src/router.rs, leave the active chain as it is:
-- only `Router::install_from` itself changes it.
use guinea.Base.{
  ℕ, ◌+◌, Bool, true, false, ◌≡◌, refl, ◌∙◌, Option, none, some, List, [], ◌∷◌, ◌++◌, if◌then◌else◌,
  get_elem?, drop,
}
use guinea.Router.Cache.{Key, lookup}
use guinea.Router.Chain.{SegmentEntry}
use guinea.Router.Host.{Host}
use guinea.Router.Leaving.{
  Sleeping, ActiveChain, Chains, cache_key, forget_replaced, leave_one, leave_from, tear_down,
  cache_one, cache_from, sleeps_with,
}
use guinea.Router.Install.{
  last_of, wakeable_at, wakeable, restore, install_new, Next, after_install, after_wakeable,
  build_one, build_from,
}

module _ {P Scope States Error World : Type 0} (host : Host P Scope States Error World) where
  forget_replaced-active :
      (o : Option (Sleeping P Scope)) (st : Chains P Scope States World)
      → (forget_replaced host o st).active ≡ st.active
  forget_replaced-active none st = refl
  forget_replaced-active (some asleep) st = refl

  if-active :
      (b : Bool) {a : Option (ActiveChain P Scope)} (x y : Chains P Scope States World)
      → x.active ≡ a
      → y.active ≡ a
      → (if b then x else y).active ≡ a
  if-active true x y e f = e
  if-active false x y e f = f

  pair-active :
      (b : Bool) {a : Option (ActiveChain P Scope)}
      (x y : Option Scope × Chains P Scope States World)
      → x.1.active ≡ a
      → y.1.active ≡ a
      → (if b then x else y).1.active ≡ a
  pair-active true x y e f = e
  pair-active false x y e f = f

  -- Taking down and building leave the active chain alone.
  leave_one-active :
      (entries : List (SegmentEntry P)) (index : ℕ) (scope : Scope) (o : Option P)
      (st : Chains P Scope States World)
      → (leave_one host entries index scope o st).active ≡ st.active
  leave_one-active entries index scope none st = refl
  leave_one-active entries index scope (some params) st =
      forget_replaced-active (lookup (cache_key host entries index) st.sleeping) _

  pub leave_from-active :
      (entries : List (SegmentEntry P)) (captured : List P) (keeping index : ℕ)
      (scopes : List Scope) (st : Chains P Scope States World)
      → (leave_from host entries captured keeping index scopes st).active ≡ st.active
  unfolding leave_from
  leave_from-active entries captured keeping index [] st = refl
  leave_from-active entries captured keeping index (scope ∷ rest) st =
      leave_one-active entries index scope (sleeps_with captured keeping index) _
      ∙ leave_from-active entries captured keeping (index + 1) rest st

  pub tear_down-active :
      (scopes : List Scope) (shared : ℕ) (st : Chains P Scope States World)
      → (tear_down host scopes shared st).1.active ≡ st.active
  unfolding tear_down
  tear_down-active scopes shared st = leave_from-active [] [] shared shared (drop shared scopes) st

  wakeable_at-active :
      (key : Key) (entry : SegmentEntry P) (standing : List Scope) (captured : P)
      (o : Option (Sleeping P Scope)) (st : Chains P Scope States World)
      → (wakeable_at host key entry standing captured o st).1.active ≡ st.active
  wakeable_at-active key entry standing captured none st = refl
  wakeable_at-active key entry standing captured (some asleep) st = pair-active _ _ _ refl refl

  wakeable-active :
      (chain : List (SegmentEntry P)) (index : ℕ) (entry : SegmentEntry P) (standing : List Scope)
      (captured : P) (st : Chains P Scope States World)
      → (wakeable host chain index entry standing captured st).1.active ≡ st.active
  unfolding wakeable
  wakeable-active chain index entry standing captured st =
      wakeable_at-active (cache_key host chain index) entry standing captured
        (lookup (cache_key host chain index) st.sleeping) st

  restore-active :
      (chain : List (SegmentEntry P)) (index : ℕ) (entry : SegmentEntry P) (captured : P)
      (scope : Scope) (st : Chains P Scope States World)
      → (restore host chain index entry captured scope st).active ≡ st.active
  restore-active chain index entry captured scope st = if-active entry.cache_state _ _ refl refl

  pub cache_from-active :
      (chain : List (SegmentEntry P)) (captured : List P) (index : ℕ)
      (entries : List (SegmentEntry P)) (scopes : List Scope) (st : Chains P Scope States World)
      → (cache_from host chain captured index entries scopes st).active ≡ st.active
  unfolding cache_from
  cache_from-active chain captured index [] scopes st = refl
  cache_from-active chain captured index (entry ∷ entries) [] st = refl
  cache_from-active chain captured index (entry ∷ entries) (scope ∷ scopes) st =
      cache_from-active chain captured (index + 1) entries scopes _
      ∙ one entry.cache_state (get_elem? captured index)
    where
      one : (b : Bool) (o : Option P) → (cache_one host chain index b scope o st).active ≡ st.active
      one b none = refl
      one true (some params) = refl
      one false (some params) = refl

  install_new-active :
      (chain : List (SegmentEntry P)) (index : ℕ) (entry : SegmentEntry P) (captured : P)
      (scopes : List Scope) (st : Chains P Scope States World)
      → (install_new host chain index entry captured scopes st).2.active ≡ st.active
  install_new-active chain index entry captured scopes st =
      restore-active chain index entry captured (host.child (last_of host.root scopes) st.world).0
        (record st { world = (host.child (last_of host.root scopes) st.world).1 })

  -- The rest of a loop leaves the active chain alone.
  abbrev pub LeavesActive : Next host → Type 0
  LeavesActive next =
      (scopes : List Scope) (st : Chains P Scope States World)
      → (next scopes st).1.active ≡ st.active

  after_install-active :
      (standing : ℕ) (scopes : List Scope) (scope : Scope) (o : Option Error)
      (st : Chains P Scope States World) (next : Next host)
      → LeavesActive next
      → (after_install host standing scopes (scope, o, st) next).1.active ≡ st.active
  after_install-active standing scopes scope none st next h = h _ st
  after_install-active standing scopes scope (some error) st next h =
      tear_down-active (scopes ++ scope ∷ []) standing st

  after_wakeable-active :
      (chain : List (SegmentEntry P)) (index : ℕ) (entry : SegmentEntry P) (captured : P)
      (standing : ℕ) (scopes : List Scope) (o : Option Scope) (st : Chains P Scope States World)
      (next : Next host)
      → LeavesActive next
      → (after_wakeable host chain index entry captured standing scopes (o, st) next).1.active
        ≡ st.active
  after_wakeable-active chain index entry captured standing scopes (some asleep) st next h = h _ st
  after_wakeable-active chain index entry captured standing scopes none st next h =
      let (scope, error, after) = install_new host chain index entry captured scopes st in
      after_install-active standing scopes scope error after next h
      ∙ install_new-active chain index entry captured scopes st

  build_one-active :
      (chain : List (SegmentEntry P)) (index : ℕ) (entry : SegmentEntry P) (o : Option P)
      (standing : ℕ) (scopes : List Scope) (st : Chains P Scope States World) (next : Next host)
      → LeavesActive next
      → (build_one host chain index entry o standing scopes st next).1.active ≡ st.active
  build_one-active chain index entry none standing scopes st next h = refl
  build_one-active chain index entry (some captured) standing scopes st next h =
      let (woken, after) = wakeable host chain index entry scopes captured st in
      after_wakeable-active chain index entry captured standing scopes woken after next h
      ∙ wakeable-active chain index entry scopes captured st

  pub build_from-active :
      (chain : List (SegmentEntry P)) (params : List P) (standing index : ℕ)
      (rest : List (SegmentEntry P))
      → LeavesActive (build_from host chain params standing index rest)
  unfolding build_from
  build_from-active chain params standing index [] scopes st = refl
  build_from-active chain params standing index (entry ∷ rest) scopes st =
      build_one-active chain index entry (get_elem? params index) standing scopes st _
        (build_from-active chain params standing (index + 1) rest)
