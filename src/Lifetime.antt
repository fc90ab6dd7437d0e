-- ===== src/Lifetime.antt =====
-- crates/guinea-core/src/scope/lifetime.rs: what a scope owns, its sleep and what it runs when it wakes,
-- with `Scope::remove` of scope/mod.rs. What a scope owns, a hook and a guard are numbers; that one is let
-- go of, or run, is an event of a log.
pub mod Releases
pub mod Accounts
mod Tests
use guinea.Base.{
  ℕ, Bool, true, false, not, Option, none, some, List, [], ◌∷◌, ◌++◌, ◌==◌, if◌then◌else◌, map_or,
}
use guinea.Scope.{reverse_onto}

-- What `ScopeData` keeps of it.
pub record Held : Type 0 where
  pub teardowns : List ℕ
  pub leave_guards : List ℕ
  pub wake_hooks : List ℕ
  pub asleep : Bool

pub record Release : Type 0 where
  pub scope : ℕ
  pub resource : ℕ

-- What each scope that is there holds, and what happened.
pub record Scopes : Type 0 where
  pub data_of : ℕ → Option Held
  pub released : List Release
  pub hooks_run : List ℕ

abbrev pub put_at {ℓ} : {A : Type ℓ} → ℕ → A → (ℕ → A) → ℕ → A
put_at i a f j = if j == i then a else f j

abbrev pub put : ℕ → Option Held → Scopes → Scopes
put i held s = record s { data_of = put_at i held s.data_of }

-- `Teardown::teardown`
abbrev pub release : ℕ → ℕ → Scopes → Scopes
release i resource s = record s {
  released = s.released ++ record { scope = i; resource = resource } ∷ [];
}

-- `Scope::own`
abbrev pub own : ℕ → ℕ → Scopes → Scopes
own i resource s =
    map_or (release i resource s)
      (λ held. put i (some (record held { teardowns = held.teardowns ++ resource ∷ [] })) s)
      (s.data_of i)

-- `Scope::on_leave`; none is the panic.
abbrev pub on_leave : ℕ → ℕ → Scopes → Option Scopes
on_leave i guard s =
    map_or none
      (λ held.
        some (put i (some (record held { leave_guards = held.leave_guards ++ guard ∷ [] })) s))
      (s.data_of i)

-- `Scope::leave_guards`
abbrev pub leave_guards_of : ℕ → Scopes → List ℕ
leave_guards_of i s = map_or [] (λ held. held.leave_guards) (s.data_of i)

-- `Scope::on_wake`; none is the panic.
abbrev pub on_wake : ℕ → ℕ → Scopes → Option Scopes
on_wake i hook s =
    map_or none
      (λ held. some (put i (some (record held { wake_hooks = held.wake_hooks ++ hook ∷ [] })) s))
      (s.data_of i)

-- `Scope::sleep`
abbrev pub sleep : ℕ → Scopes → Scopes
sleep i s = map_or s (λ held. put i (some (record held { asleep = true })) s) (s.data_of i)

-- `Scope::wake`
abbrev pub wake : ℕ → Scopes → Scopes
wake i s =
    map_or s
      (λ held. record (put i (some (record held { asleep = false })) s) {
        hooks_run = s.hooks_run ++ held.wake_hooks;
      })
      (s.data_of i)

-- `Scope::is_awake`
abbrev pub is_awake : ℕ → Scopes → Bool
is_awake i s = map_or false (λ held. not held.asleep) (s.data_of i)

abbrev pub release_all : ℕ → List ℕ → Scopes → Scopes
release_all i [] s = s
release_all i (resource ∷ resources) s = release_all i resources (release i resource s)

-- `ScopeData::tear_down`
abbrev pub tear_down : ℕ → Held → Scopes → Scopes
tear_down i held s = release_all i (reverse_onto held.teardowns []) s

-- `Scope::remove`, given the scopes that `Tree::detach` took: each is gone before one is torn down.
abbrev pub detach_all : List ℕ → Scopes → Scopes
detach_all [] s = s
detach_all (i ∷ detached) s = detach_all detached (put i none s)

abbrev pub tear_down_each : List ℕ → (ℕ → Option Held) → Scopes → Scopes
tear_down_each [] data_of s = s
tear_down_each (i ∷ detached) data_of s =
    tear_down_each detached (put_at i none data_of)
      (map_or s (λ held. tear_down i held s) (data_of i))

abbrev pub remove : List ℕ → Scopes → Scopes
remove detached s = tear_down_each detached s.data_of (detach_all detached s)

-- What is asked of a scope; what panics changes nothing.
pub data Op : Type 0 where
  owns leaves_by wakes_by : ℕ → ℕ → Op
  sleeps wakes : ℕ → Op
  removes : List ℕ → Op

abbrev pub or_same : Option Scopes → Scopes → Scopes
or_same none s = s
or_same (some s') s = s'

unfoldable pub apply : Op → Scopes → Scopes
apply (owns i resource) s = own i resource s
apply (leaves_by i guard) s = or_same (on_leave i guard s) s
apply (wakes_by i hook) s = or_same (on_wake i hook s) s
apply (sleeps i) s = sleep i s
apply (wakes i) s = wake i s
apply (removes detached) s = remove detached s

unfoldable pub apply_all : List Op → Scopes → Scopes
apply_all [] s = s
apply_all (op ∷ ops) s = apply_all ops (apply op s)
