-- ===== src/Lib.antt =====
-- Verification of guinea, a library for applications made of routes, scopes and features.
--
-- The program and its parts. `routes!` declares a tree of layouts and pages. The crate
-- guinea-route-dsl reads the declaration, flattens it to its leaves, checks it, and folds the
-- patterns of the pages into a match tree, from which the macro generates the function `parse` that
-- turns a path into a route. The crate guinea-router holds the router: it compares a route's chain
-- of segments with the chain that stands, asks the guards, takes down what goes and builds what
-- comes, in scopes of the crate guinea-core.
--
-- The files.
--   Base: the shared names, lists measured by native numbers, texts as lists of code points.
--   Link: crates/guinea-router/src/link.rs, `escape`, `unescape` and the `bool` capture, over
--     bytes. Link/Utf8 is `String::from_utf8` as the standard library documents it.
--   Tree: crates/guinea-route-dsl/src/lib.rs, the declared tree (`Node`, `Guards`, `Leaf`),
--     `flatten`, `layouts`, `layout_params`; `check_guards` in Tree/Checks and `check_layouts` in
--     Tree/Placing. A `syn::Type` is its text, by which `same_type` compares. A `Vec<Node>` inside
--     `Node` is the type `Nodes`. An error is data in place of its message.
--   Pattern: `parse_pattern` and `segment` of the same file. The combinators of winnow are the
--     record Pattern/Combinators.Winnow of functions with their documented behaviour;
--     Pattern/Plain is such a record, by plain functions.
--   Matcher: crates/guinea-route-dsl/src/matcher.rs, `insert`, `build`, `shape_of`; `check_fields`
--     in Matcher/Fields; what one shape is in Matcher/Shapes; the generated `parse` in Matcher/Walk, as what the emitted tokens compute.
--     Matcher/Answer says without the tree what one pattern answers. `LinkValue::decode` is a
--     parameter, and so is the reading of a pattern where only its result matters.
--   Router: crates/guinea-router/src/router.rs. Router/Chain has `common_prefix_len`, `shared_len`
--     and `kept_until`; Router/Cache the `StateCache`; Router/Leaving `leave`, `tear_down` and the
--     caching of states; Router/Install `wakeable`, `build` and `install_from`; Router/History the
--     two stacks; Router/Navigate `navigate_then`, `commit`, `settle` and `answer`, with the
--     `Decision` of crates/guinea-core/src/guard.rs as an answer that comes early, later or never.
--     Router/Handle has `NavigateHandle`, whose closures are kept by their numbers and run on the events.
--     State is passed on explicitly. Router/Host is the interface to the scopes and to the install
--     functions of the segments. What a caller wants done once a navigation is settled is a number,
--     and its running an event of a log. A panic of the code is a result.
--
--   Guard: `Decision` of crates/guinea-core/src/guard.rs, whose callbacks are numbers too.
--   Scope: crates/guinea-core/src/scope/tree.rs, `Tree::insert`, `node`, `collect` and `detach`, and
--     `Scope::is_alive` of scope/mod.rs. The counter NEXT_SERIAL is a field of the tree; serials wrap
--     at 2 ^ 64 and indices at 2 ^ 32, as `u64` and `u32` do. `Vec` used as a stack is a list.
--   Lifetime: crates/guinea-core/src/scope/lifetime.rs, `own`, `sleep`, `wake`, the wake hooks and the leave
--     guards, with `Scope::remove` of scope/mod.rs, given what `Tree::detach` took. Lifetime/Releases
--     has an account of one scope alone. A teardown and a hook are events of a log.
--   Contents: crates/guinea-core/src/scope/state.rs, the cells of a living scope: `state`, `seed`,
--     `push`, `subscribe`, `observe` and the end of both, `snapshot_states` and `restore_states`. The
--     values of the slots stand apart, since a slot is shared. Contents/Replay compares them with a
--     plain map.
--   Installing: crates/guinea-core/src/scope/features.rs, sections, claims, exports and answers, with
--     `FeatureInitContext::install` of crates/guinea-app/src/feature/traits.rs. What an install
--     function does is a value of the type `Body`, other installs included.
--   Notify: crates/guinea-core/src/notify.rs, `mark`, `turn` and `drain`. What an observer and a
--     listener do is a parameter, so is which scopes live and who watches; the world is passed on.
--   Executor: the module `seeded` of crates/guinea-core/src/executor.rs: `push`, `spawn`, `take` with
--     `below`, `poll`, `step` and `run_until_parked`. What a task and a job do is a parameter.
--   Bus: crates/guinea-core/src/actor/event_bus/mod.rs and subscribe.rs: `insert` with the three ways to
--     subscribe, `remove`, `answering`, and `publish` as the rounds of its loop, between which those
--     that are told may do to the bus what they like. Bus/Publications has the relation of steps.
--   Rpc: crates/guinea-core/src/actor/event_bus/rpc.rs: `AsyncBus::request` as the steps it takes,
--     which threads may interleave (it is made, delivered, received, expires, is forgotten), and
--     `AsyncBus::reply`. Rpc/Stages has the relation of steps.
--   Timers: crates/guinea-app/src/timers.rs: `start`, `named`, `when`, `period`, `untraced`, the drop of
--     a `Ticking`, `follow`, `tick`, `wake_after` and `running`. A wake-up that was armed is an item of
--     a list, with when it is due. Timers/Stepping has the relation of steps. What a timer runs is a
--     parameter; it moves the world and calls the timers again.
--   Acts: crates/guinea-app/src/app/acts.rs, the log of a recorder, `is_settled`, and `Chain` with `grow`
--     and `points`. Chains side by side are one `Chain`, since a chain holds a list of chains; `grow`
--     takes the chains of several points, to a depth. Of a point only its kind stands.
--
-- Bounds and fuel. `Tree::collect` runs on fuel: `detach` gives one more than the next serial, which
-- is what Scope/Walking asks for; that compares the order with a walk that has no fuel.
-- `separated` of Pattern/Plain and the worked-out reading of Pattern/Segments run on fuel one more
-- than the length of the text, which is enough
-- since each segment and separator takes a character; Pattern/Segments and Pattern/Plain say so.
-- A drain recurses on the rounds that are left, SETTLE_ROUNDS at first. `run_until_parked` runs
-- on fuel, one more than the pieces of work being enough where none sets more off. `is_settled`
-- and `grow` run on fuel and to a depth, enough being more than the chain's points, and what
-- takes an id past every id. Counters that wrap do so in the model: a step of the timers, a
-- subscription on a bus, and what is said of stale answers of the router ask that theirs do not come
-- round. Everything else is structural.
--
-- Not modelled: the parsing of the declaration's tokens and the tokens that are generated, the
-- macros, the UI adapters, tracing and devtools, what a chain is asked and its shapes, hooks and
-- callbacks that come back into the router, teardowns and wake hooks that call the scopes again,
-- the bindings, the actors with their queues, and the builder of an application
-- with its windows and roots.
pub mod Base
pub mod Link
pub mod Tree
pub mod Pattern
pub mod Matcher
pub mod Router
pub mod Scope
pub mod Guard
pub mod Timers
pub mod Notify
pub mod Executor
pub mod Rpc
pub mod Contents
pub mod Installing
pub mod Acts
pub mod Lifetime
pub mod Bus
