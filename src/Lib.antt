-- ===== src/Lib.antt =====
-- Verification of HydraMind: the control plane of a multi-agent runtime, and the kernel that schedules
-- the agents of a team. Paths are from the root of the repository.
--
-- The parts and how they interact. A session (src/hydramind/control/models.py) holds the nodes of a
-- workflow with their attempts and gates, the durable records of team interactions, a ledger of
-- idempotency keys and a count of repairs. `SessionService` (control/session_service.py) is its only
-- writer: each method fetches the session from a store, changes the copy with a function of one of the
-- session_*.py files, and puts it back; the store refuses a write with an old version. A node that a
-- team works on runs an interaction: `TeamSpec` (mas/contracts.py) says who takes part and by which
-- protocol, mas/capability.py which protocols are executed, kernel/scheduler.py whose turn is next, and
-- orchestration/collaboration_runtime.py records each turn. Votes are counted by
-- mas/protocol_outcomes.py. Agents report to the control plane: it checks the lease of the report, lets
-- a gate and a deriver choose an intent, and carries the intent out by calls of `SessionService`
-- (control/control_reports.py, control_apply.py, control_gate_decisions.py). Session ids wait for a
-- worker in a queue (queue/in_memory.py), and orchestration/graph.py says in which order the nodes of a
-- workflow may run.
--
-- The files:
--   Prelude           lists, texts, Python dictionaries, sorted texts, results and the monad `Exec` of
--                     a state and a result; what is written before an exception stays written
--   Mas/Contracts     src/hydramind/mas/contracts.py: enums, records and validators
--   Mas/Capability    src/hydramind/mas/capability.py
--   Mas/Votes         src/hydramind/mas/protocol_outcomes.py: the tally and the outcome
--   Kernel/Contracts  src/hydramind/kernel/contracts.py
--   Kernel/Scheduler  src/hydramind/kernel/scheduler.py: `next_turn` and `visible_messages` by strategy
--   Kernel/Runner     record_member_message of src/hydramind/orchestration/collaboration_runtime.py and
--                     the loop of collaboration_team.py; what a member answers is a function argument
--   Control/States, Models, Interactions
--                     src/hydramind/control/states.py, models.py, interaction_state.py
--   Control/Execution, NodeLifecycle, TurnLease, Durable, Gates, Lifecycle, Workflow
--                     the functions of src/hydramind/control/session_execution.py,
--                     session_node_lifecycle.py, interaction_turn_lease.py,
--                     session_durable_interactions.py, session_gates.py, session_lifecycle.py and
--                     session_workflow.py, from a session to a session or an exception
--   Control/ToolRecords, InteractionLog
--                     the records of tool calls of src/hydramind/control/session_execution.py, and
--                     session_interactions.py
--   Control/Store     the in-memory store of src/hydramind/control/store.py. Store/Extension says what
--                     no write may undo, Store/Rules how an action is shown to respect it
--   Control/Service   the methods of `SessionService`, as actions on the store
--   Control/Intents, Apply, Reports
--                     the intents and reports of src/hydramind/control/models.py, control_apply.py with
--                     control_gate_decisions.py, and control_reports.py
--   Control/History   the writing methods and those of the control plane as values, and runs of lists
--                     of them
--   Queue/Contracts   src/hydramind/queue/base.py
--   Queue/InMemory    src/hydramind/queue/in_memory.py. Its child Calls has the pieces of the methods
--                     that run without a pause as steps, and the counting queue that they refine
--   Gating/Registry   src/hydramind/gating/base.py: contracts and the gate function of a registry
--   Orchestration/Graph
--                     src/hydramind/orchestration/graph.py: the topological sort and the ready nodes
--   Examples          runs of all of this on small data
--
-- How the model corresponds to the code. A function has the name that it has in the source; the helper
-- definitions beside it cut a long function into its steps. A time is a number of microseconds and one
-- reading of the clock serves a whole method; ids and tokens that the source draws at random, and the
-- ISO text of a time, are arguments. An exception is a value of `Error`, one for each class; its
-- message is left out. A turn index, which the source checks not to be negative, is a natural number; the index of a
-- resumption, which it does not check, is an integer. A
-- time to live is an integer, as callers may pass a negative one. Where the source changes an object of
-- the fetched session in place, the model writes the new value back to the place where it was found.
-- A method of the control plane reads the clock once for each call of the service, and a round of
-- `dequeue` four times. The queue has no bound on its size (`maxsize=0`, the default), so that a `put`
-- does not wait; a `dequeue` that waits is a step that ends the round and one that resumes.
--
-- Fuel. `lowest_from` gets one step more than there are turns, `descend` one more than there are roots
-- and nodes; the theorems on both show that this is enough. `run_turns` has its fuel as an argument,
-- and its theorem says how much is enough. `drain`, the
-- loop of the topological sort, gets one step more than `in_degree` has entries, which is enough.
--
-- What is not modelled: events and traces (no session depends on them), redaction (the redacted
-- arguments of a tool call are given by a function argument), the SQLite store,
-- adapters to models and tools (I/O), the command line, and the overflow of a date.
-- Floating-point numbers in a payload
-- are not represented: no modelled test reads one. The Redis queue, the gate evaluators, the memory, the
-- facade of the control plane and the harnesses are not in this library.
pub mod Prelude
pub mod Mas
pub mod Kernel
pub mod Control
pub mod Queue
pub mod Gating
pub mod Orchestration
pub mod Examples
