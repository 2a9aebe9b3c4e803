-- ===== src/Lib.antt =====
-- The concierge-agent backend (backend/app): workflows and plans, the admission of runs, the ambient
-- mode, the tools and the settings.
--
-- A workflow document is validated before it is saved (factory/dag.py); the worker factory compiles
-- what passed. The ambient mode keeps an append-only table of events (ambient/store.py). Everything
-- that wakes a routine is a row of that table, and the guards against cascades stand where a row is
-- written. What the ambient mode wants a human to see is a row of the outbox (ambient/deliver.py),
-- which a tick, or the return of the user, delivers under the user's settings. Schedules, pollers and
-- state conditions (ambient/triggers.py) and wakeups (ambient/wakeups.py) write events. A run of the
-- orchestrator waits for a place before it executes (orchestrator/admission.py). The tools that a run may
-- call are rows that MCP servers list and that an operator edits (toolschema.py, mcp/manager.py,
-- api/tools.py). What runs leave behind is a table of memories (memory/store.py), which reviews,
-- extractions and periodic jobs change. Live settings are validated before they are stored (settings_store.py).
--
-- Factory.Json holds the documents as json.loads gives them, with Python's `==` and hashing: a number
-- is an integer, True is 1, and a list or a dictionary has no hash. Factory.Dag follows
-- validate_workflow of backend/app/factory/dag.py from top to bottom: Nodes the loop over the nodes,
-- Edges the loop over the edges and the tests of its counts, Cycle the nested has_cycle and the `any`
-- around it, Reach the search from START, Validate the whole. A message is a constructor of DagError
-- with the values that the message quotes. A TypeError of hashing is a way to end (Py.type_error), as
-- is a bounded search cut short (Py.out_of_rounds). The depth of
-- has_cycle is bounded by the number of nodes, since a node on the stack is not entered again; the
-- rounds of the search from START by one more than the edges, since an edge pushes its target once at
-- most. A set is a list in the order of insertion; the order in which Python walks a set is that list's.
-- Factory.Dag.Graph says what a valid graph is without the code: paths, one START edge, at most one
-- error edge for a node.
--
-- Ambient.Events follows emit_event and _routine_in_chain of backend/app/ambient/store.py. The table
-- is the list of its rows, the newest first. The setting, the two clocks and the fresh UUID are inputs
-- (Env); an exception is a value of the outcome. The walk along a chain has MAX_DEPTH + 1 rounds, as
-- in the code. Ambient.Events.Lineage says what a sound table is, Ambient.Events.Guards what the
-- dedupe key and the kill switch keep.
--
-- Ambient.Deliver follows backend/app/ambient/deliver.py: Outbox the table, the policies and
-- add_delivery; Settings the settings of an owner, quiet hours and digest times; Flush the pieces of a
-- pass (_pending, _deliver_batch, _flush_tier1, _digest_flush); Tick _digest_due, _flush_bucket,
-- flush_deliveries and on_user_returned. ORDER BY is an insertion sort; a statement that marks rows is
-- a map over the table. A zone of the tz database is a parameter with the wall clock of an instant and
-- the instant of a reading; times HH:MM are pairs of numbers; dispatch_delivered, which sends over the
-- network, is a function of the mode and the batch. Steps puts the operations in any order.
--
-- Ambient.Wakeups follows backend/app/ambient/wakeups.py: schedule_wakeup, cancel_wakeup and
-- fire_due_wakeups, which emits through Ambient.Events. An exception of emit_event that is no
-- ChainGuardError ends the loop. The texts of the dedupe key and of the payload are inputs.
--
-- Ambient.Triggers follows backend/app/ambient/triggers.py: Schedules _schedule_due, evaluate_schedules
-- with _evaluate_routine_schedules and _record_trigger_failure; Polls poll_due_intents; States
-- evaluate_state_conditions. All three emit through Ambient.Events. croniter, the floats of the probes
-- with their comparisons, the probes and the poll sources are parameters, and int(n * multiplier) is a
-- function of the row. An exception that the loop does not catch ends the pass (Pass.error).
--
-- Ambient.Drain follows drain_once of backend/app/ambient/drain.py: claim is its first transaction, a
-- step that no other transaction splits; drain_event the processing of one event and its write back.
-- What the processor answers is an input; events received at the same time are claimed in the order
-- of the table.
--
-- Orchestrator.Admission follows backend/app/orchestrator/admission.py. Its module globals are a
-- record, with the free places of every semaphore that was built; the coroutine slot is cut into the
-- pieces between its awaits (enter_slot, hold_slot, abandon_slot, leave_slot). Slots puts the pieces
-- of many tasks in any order, under one setting; Capacity says what a pool of places is, without
-- semaphores, and which event of the pool each piece is (event_of); Capacity.Moves and Bounded relate
-- the two.
--
-- Orchestrator.Plan follows validate_plan of backend/app/orchestrator/planner.py, over registries that
-- are lists of rows, and dispatch_ready of backend/app/orchestrator/graph_mode.py. A round sends a
-- batch and merges its outputs; run_plan is the loop of the graph between "coordinate" and
-- "dispatch", on rounds, of which one more than the entries are enough since a round adds an output.
-- Orchestrator.Plan.Graph is that loop under the recursion limit of _run_graph in
-- backend/app/orchestrator/runner.py, where a node, or a batch, takes a superstep; how many supersteps
-- LangGraph grants under a limit is a parameter.
-- Orchestrator.Plan.Planner is run_planner with its two attempts; what the model answers to the errors
-- of the attempt before is a function.
--
-- Tools follows backend/app/toolschema.py: the fingerprints of schemas and descriptions, with SHA-256,
-- json.dumps and str.strip as parameters (Python). Tools.Ingest follows McpManager._ingest of
-- backend/app/mcp/manager.py: the table before and after a server lists its tools; a round of the loop
-- over the list is list_tool, the loop over the rows that the list does not name is unlist_tools.
-- Tools.Names is sanitize_tool_name of backend/app/factory/worker.py, and Tools.Operator the handlers of
-- backend/app/api/tools.py with their helpers of backend/app/api/deps.py; a request is refused with
-- the status code of its HTTPException. All readings of the clock within one ingest are one.
--
-- Settings follows backend/app/settings_store.py: Value the values that json.loads gives, a float as a
-- fraction m / 2^k; Defaults DEFAULTS and the sets of keys; Check the chain of tests in
-- validate_updates, cut into three after its branches, with the tests of whole values in Parts; Update
-- the rest of the file. A set test of a value without a hash is the TypeError (Check.type_error). A
-- branch for the key at hand whose value passes falls through, in the source, to branches of other
-- keys; here it ends. Ranges lists the integer settings with their ranges, without the code, and Runs
-- reads the settings as the admission of runs does.
--
-- Memory follows backend/app/memory: Words the normal form of a text, on its code points; Tokens the
-- hashes that a tombstone keeps, with str.lower and SHA-256 as parameters (Unicode); Rows the tables of
-- models/memory.py; Tombstones and Store the first and the second half of the writes of store.py;
-- Changes supersede, forget, tombstone_forget and hard_delete; Review the handler patch of
-- api/memories.py and the credit of feedback.py; Sweeps the two sweeps of lifecycle.py; Jobs its ticks
-- with the clock of jobclock.py; Extract reconcile_and_write of extract.py; Past the temporal predicate
-- of rank.py. A write that raises leaves the tables as the code does; a foreign key that no row answers
-- is refused, as by the database. A replacement is cut in two, since it goes by a row that its session
-- read before: Steps puts all operations in any order, with the rows that were read. A row_number among
-- rows that tie counts in the order of the table. A tick of the jobs is one step: a job is due and gets
-- its lock at once. Embeddings, the search of pgvector, the language model's verdicts and the float test
-- of the decay are inputs. Sound says what a sound table is.
--
-- Not modelled: str() of a value that is no text is a parameter (`show`); the texts of the messages;
-- Python's recursion limit, by which has_cycle raises RecursionError on a very long chain of nodes; floats in documents; the notification of the drain, metrics and logs; two
-- calls of emit_event at once, whose checks may both pass before either row is written, and likewise
-- two passes at once; feedback on deliveries; the registries of poll sources and probes; the planner's
-- prompts, the resolution of capabilities and the execution of an entry; the fingerprint of a
-- server's configuration and the embeddings of tools; settings that are NaN, infinite or too large for
-- a float; the links of memories to entities, the admission gate of candidates with its regular
-- expression, reflection and the backfill of embeddings, the purge; two replicas that test one job at
-- once; a review or an operator's patch of a memory reads its row and writes it as one step; and the rest of the backend, behind which language
-- models, the network and the database stand.
mod Prelude
pub mod Ambient
pub mod Factory
pub mod Memory
pub mod Orchestrator
pub mod Settings
pub mod Tools
