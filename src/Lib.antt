-- ===== src/Lib.antt =====
-- KoRkuma is a macro engine: hooks send events, the router selects the macros that an event fires, and
-- a scheduler runs their workflows. A desktop application edits the macros and sends the engine what
-- changed. This library models the core crate (crates/core), the application (crates/app), the
-- choice of interaction backends (crates/interact) and the triggers of the hooks (crates/hooks), by
-- shallow embedding: each function of the source is a function here, stateful code passes its state.
--
-- Parts and files
-- - Domain.antt and its children are crates/core/src/domain.rs, value.rs, event.rs, engine.rs and
--   error.rs: the types of a macro, of events, commands and errors.
-- - Permission.antt is crates/core/src/permission.rs: the grant (`allows`) and the static aggregation
--   (`aggregate_from_configs`, `aggregate_from_workflow`). Permission/Exact and Distinct are
--   about the latter.
-- - Context.antt is crates/core/src/context.rs and traits.rs: what a context owns (`ExecContext`) and
--   what it shares with others (`Shared`: the store and the cancellation flag).
-- - Registry.antt is crates/core/src/registry.rs; Registry/Evaluate is `ConstraintExpr::evaluate`.
-- - Workflow.antt and Workflow/Steps are crates/core/src/workflow.rs: `run_node` and its loops,
--   `run_action` with the permission gate. Workflow/Every, Sound, Same, Agree, Loud and AtMost hold
--   the inductions over the tree, ActionRule the case of an action, and Tags, Grants, DryRun, Gate,
--   Reports and Bounds what follows from them.
-- - Router.antt and Router/Dispatch are crates/core/src/router.rs, with the commands of
--   crates/core/src/engine_loop.rs (`apply_command`). Router/Index is about the index, Firing and
--   Order about `dispatch_scheduled`.
-- - Scheduler.antt is crates/core/src/scheduler.rs: the critical sections of `apply_policy` and
--   `execute` as steps of a system. Scheduler/Running, Queue, Restart, Throttle, Debounce and
--   its child Fires are about runs, with the lemmas on tokens in Tracking.
-- - Builtins.antt is crates/core/src/builtins.rs: triggers, constraints and actions of the core.
-- - Permission/Describe is the text that a permission is shown with.
-- - Editor.antt and its children are crates/app/src/tree_model.rs. Editor/Rows is the flattening of a
--   constraint into rows, Editor.antt, Replace, Delete and Move are the edits of a constraint, Meaning
--   and Outside are about its value, Positions about the positions of rows. Editor/Steps and its
--   children are the same for workflows; Steps/Grants is about the permissions of an edited workflow,
--   Steps/Loops about its `ForEach` nodes.
-- - App.antt and its children are crates/app/src/callbacks.rs, model.rs, trigger.rs, watcher.rs and the
--   loading in main.rs. App/State is the state, with what the callbacks share; MacroList, Constraints,
--   Steps and Triggers are the callbacks (`on_add_macro` is `add_macro`, and so on), Callback is
--   `wire_callbacks`; TriggerForm is the form of a trigger, Watcher the reload of macros.json. App/Find,
--   Engine and Held are about the list of macros and the engine's router; Sync and its children, Reload,
--   Start, Approval, Panic and FormRoundTrip are about the callbacks.
-- - Interact.antt is crates/interact/src/backend.rs, error.rs and negotiator.rs; Interact/Choice is about
--   the backend that `dispatch` calls, Interact/Action is action.rs, Interact/Stub is backends/stub.rs.
-- - Hooks.antt is crates/hooks/src/trigger_spec.rs; Hooks/Modifiers is about the modifiers of a hotkey,
--   with lists as sets in Hooks/Subset.
-- - Prelude.antt and its children are the shared notation and lemmas; Examples.antt and its children
--   are concrete runs.
--
-- How the model corresponds to the code
-- - A `Uuid` is a number. An `i32` priority is the number with 2^31 added, so that the order is the
--   same. An `f64` is carried as its 64 bits. A `SystemTime` is in whole seconds. A path and a
--   `serde_json::Value` are their texts, so that two spellings of one path differ, where `PathBuf`
--   compares components. A text built by `format!` is a value with its arguments.
-- - What other tasks do is the parameter `others` of `Runtime`: at each moment at which they may run
--   (a cancellation test, a sleep, the wait for resource locks) it changes the shared state in any
--   way. The branches of a `Parallel` node run one after the other in the order of their results, and
--   `others` stands for what they do to each other. A condition is evaluated on one state of the store.
-- - Whether tokio's timer cuts off the body of a `Timeout`, and in which state, is the parameter
--   `elapsed`.
-- - `sort_unstable_by` is the interface `SortUnstable`: the same elements, in the order of the
--   comparison that it is given, if that is a total order. `dispatch_scheduled` reads one store for all
--   candidates of an event, where another task of the program could change it in between.
-- - A critical section of the scheduler is one step; an `Input` says which task goes on. A restart
--   cancels the tokens that it has drained behind its section, one in each step (`cancel`). One macro
--   is modelled, since the sections of two macros touch different entries; all work shares one
--   registry. `running` counts live tasks and does not reach 2^32.
-- - The texts of the rows of an editor are lists of their pieces (`Text`). serde_json and the number
--   formats are parameters (`Formats`, `to_json`, `from_json`).
-- - A callback of the window is a function on the state `App`: the local macros, the commands that were
--   sent, what macros.json holds and the window's properties. An index of the window is `none` where
--   the source has a negative number. Whether `save_macros` succeeds is an argument, as is a fresh
--   `Uuid`. A panic is `none`. The locks are not modelled: a callback and a reload run one at a time.
-- - Loops are structural recursion on the list, or on the number of rounds that are left (`max_iter`,
--   `times`), so nothing runs out of fuel.
--
-- Not modelled: the calls of the platform that the hooks make, the backends that call it or a browser,
-- the Rhai interpreter, processes and notifications, the state store and the thread of the engine loop,
-- the file format, the layout of the window, the monitor of variables, the formatting of engine events
-- and the choice of a renderer.
pub mod Prelude
pub mod Domain
pub mod Permission
pub mod Context
pub mod Registry
pub mod Workflow
pub mod Router
pub mod Scheduler
pub mod Builtins
pub mod Editor
pub mod App
pub mod Interact
pub mod Hooks
pub mod Examples
