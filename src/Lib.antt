-- ===== src/Lib.antt =====
-- A model of the reality layer: an order's state is compiled from observations of source systems, and an
-- agent's action on it is proposed, judged by a policy, approved, executed once, verified by reading the
-- order back, and recorded in hash chains.
--
-- The parts, by file, with the sources they model (paths from the repository's root):
-- - Prelude, Dict, Errors: tests, lists, numbers and texts; Python's `dict` as an association list in
--   the order of insertion; exceptions as values. A method that raises returns the exception beside the
--   state it leaves, so what it wrote before stays written.
-- - Json: JSON values, Python's `==` on them, and src/reality_layer/reality_git/hashing.py
--   (`_canonicalize`, `canonical_json`, `hash_json`).
-- - RealityGit: src/reality_layer/reality_git/validation.py. `validate_event_chain` and
--   `validate_commit_chain` are one loop (`check_from`) over two kinds of record; Actions/Audit.antt and
--   WorldState/Service/Commit.antt say what the loop reads of an event and of a commit.
-- - WorldState/Models.antt: src/reality_layer/world_state/models.py.
-- - WorldState/Service.antt and WorldState/Service: `WorldStateService` of
--   src/reality_layer/world_state/service.py. Commit has `_latest_hash` and `_create_commit`, Ingest has
--   `ingest` and `_record_conflict`, Conflicts has `resolve_conflict`, `hydrate_conflict` and the
--   queries on conflicts, Queries has `hydrate`, `list_entities`, `list_commits` and the other queries.
--   Calls makes the methods that change the service the steps of one machine; Lineage and History
--   follow the commits that it makes, Fuel the walks along them.
--   A conflict is an object that two dictionaries share, so it lives in a store of objects. Frame,
--   Outcome, Merge, Dedup, Protect, Versions and Resolve hold lemmas and theorems.
-- - Actions/Models.antt, Events.antt, Policy.antt: src/reality_layer/actions/models.py and policy.py.
-- - Actions/Service.antt and Actions/Service: `ActionService` of src/reality_layer/actions/service.py.
--   Lifecycle has `propose`, `approve`, `reject` and `verify`, Execute has `execute`, Restore has
--   `restore`; Actions/Proof.antt has `proof`. Actions/Calls.antt makes the public methods the steps of
--   one machine, together with the world that the provider changes; the modules below it say what a
--   step may do, and what a replica makes of its events.
-- - Onboarding: src/reality_layer/connectors/onboarding.py.
-- - Connectors: base.py, shopify.py, easypost.py, observe.py and persistence.py of
--   src/reality_layer/connectors/.
-- - Database: the rows of src/reality_layer/db/models.py, and the tables of a session.
-- - WorldState/Persistence: `CompilerPersistenceService` of src/reality_layer/world_state/persistence.py
--   over the repositories of src/reality_layer/db/repositories.py. Actions/Persistence.antt has
--   `ActionEventPersistenceService` of src/reality_layer/actions/persistence.py.
-- - Workspaces: `WorkspaceService` of src/reality_layer/workspaces.py.
-- - Api: the handlers of src/reality_layer/api/app.py, which join all of these. State has the
--   functions that they share, World the handlers for workspaces, observations, states and commits,
--   Conflicts those for conflicts, Actions, Execution and ActionReads those for actions. What a
--   handler answers is a value: the answer, an `HTTPException` with its status, or an exception that
--   is not caught. A session that is not committed leaves the database of before; what a handler did
--   to the services in memory stays.
-- - Worker: `verify_action` and `run_once` of src/reality_layer/worker/verifier.py, which drives both
--   services.
-- - Tests: runs of the program, and every theorem at a concrete input.
--
-- Parameters. `Platform` (Json.antt) holds what comes from Python's libraries: the text of a JSON value,
-- SHA-256, `repr`, the format of a float, the ISO text of a time, `lower` and `capitalize`. `uuid4`, the
-- clocks, the provider, the HTTP clients, the object store and the observations that a worker reads are
-- arguments. Nothing is assumed of them; where a theorem speaks of collisions of the hash or of ids
-- not in use, it says so. `Sql` (Database.antt) is SQLAlchemy with its database: what a query selects
-- and what an insert or an update makes of a table. `IsSql` (Database/Laws.antt) names what the
-- theorems rely on of it, and is proved there of a database of lists. A JSON column is taken to hold
-- its value as it is. `Outside` (Api.antt) adds
-- `float`, which may refuse or overflow, reading a time, the JSON of an observation and the object store.
--
-- Numbers. Floats are finite doubles, a whole number over a power of two, so comparing them is exact;
-- times are microseconds, with a flag that tells a time without a zone. JSON values are finite.
--
-- Loops. All are structural but two: the walks along the parents of commits
-- (WorldState/Service/Queries.antt) run on fuel. A walk goes on only from a commit that it finds in the
-- dictionary and has not seen, so the number of commits and one or two more is enough;
-- WorldState/Service/Fuel.antt proves it.
-- `verify_action` counts its attempts down.
--
-- Not modelled: FastAPI, the constraints and the connection of the database, the health check and the
-- page, the database and the pauses of the worker, the MCP servers, the command line, the demo and its
-- rehearsal, the HTTP clients, the object store's files, the migrations, and the coercions of
-- pydantic, of which the refusals are kept. `restore` and `hydrate` are modelled but are not among the
-- calls of Actions/Calls.antt and WorldState/Service/Calls.antt: a restored service is a replica,
-- which Actions/Calls/Replay.antt compares with the service.
pub mod Actions
pub mod Api
pub mod Connectors
pub mod Database
pub mod Dict
pub mod Errors
pub mod Json
pub mod Onboarding
pub mod Prelude
pub mod RealityGit
pub mod Tests
pub mod Worker
pub mod Workspaces
pub mod WorldState
