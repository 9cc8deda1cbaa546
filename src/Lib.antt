-- ===== src/Lib.antt =====
-- The rheo core: what lets a caller run an operation in its own workspace, and what it cannot do.
--
-- The program. Every operation of a workspace goes through `dispatch`, which authorizes a
-- `WorkspaceContext` against the registry of operations, validates the payload, opens a unit of work on
-- the database that the control plane names for the context's workspace, runs the handler, and commits
-- or rolls back. Settings are layered: package defaults, then the deployment's file and environment, then
-- the override rows of a workspace or a member, which a floor keeps from relaxing what the deployment
-- set. A context comes from a session, a token, the operator or the test harness; the control plane holds
-- the sessions, whose secrets are per host and whose one-time grants carry them to other hosts, and it
-- lists the workspaces, which provisioning brings to `active` step by step. Tokens carry a snapshot of the operations that their holder may run; `core.token.issue` writes
-- them and `resolve_token` reads them where they are presented.
--
-- The parts, with their sources under packages/core/src/rheo_core unless a path says otherwise.
--   Prelude         Python's dictionaries, sets, integers and text methods, and calls that raise.
--   Contracts       packages/contracts/src/rheo_contracts: context.py, safety.py, manifest.py.
--   Refusals        the refusal states, and what a call can raise.
--   Settings        settings/schema.py (Value, Spec, Codec, Registry, Keys), settings/deployment.py and
--                   settings/defaults.py (Deployment), settings/resolver.py (Floor, Resolver),
--                   settings/write_path.py (WritePath).
--   Operations      operations/registry.py (Registry, Registry.Authorize), operations/dispatch.py
--                   (Dispatch).
--   Storage         storage/pools.py (Pools), storage/backend.py (UnitOfWork), storage/routing.py
--                   (Routing), storage/control_tables.py (Tables), storage/control_plane.py (ControlPlane),
--                   storage/repositories.py with storage/core_tables.py (Repositories),
--                   storage/provisioning.py with parts of storage/postgres.py and
--                   migrations/orchestrator.py (Provisioning).
--   Sessions        sessions/service.py (Service), sessions/grants.py (Grants), sessions/cookies.py
--                   (Cookies), and their calls in sequence (Calls).
--   Boundary        boundary/factories.py (Factories).
--   Identity        identity/accounts.py (Accounts).
--   Tokens          tokens/policy.py and tokens/sets.py (Policy), tokens/format.py (Format),
--                   tokens/issue.py (Issue), tokens/presentation.py (Presentation).
--   Tests           runs of the code and the theorems at concrete inputs.
--
-- How the code is rendered. A function keeps its name; a method is a function of its object, and what it
-- changes is a result. A Python exception is the `raise` of a `Result`. A dictionary is a list of keys
-- and values in insertion order, a frozenset a list with a membership test, an int a `ℤ`, a UUID a number
-- that is only compared, a timestamp the number of its seconds. A table of the control plane is the list
-- of its rows, and a statement is what SQL says of it. `System` is what a dispatch reads and writes: the
-- workspace databases, the control plane and the pool. A handler may do anything to it; the theorems on
-- dispatch say which handlers they are about.
--
-- Parameters, for code that is not in the repository: pydantic's validation and `isinstance`
-- (`Pydantic`), the database server with SQLAlchemy (`Server`), the override source, the clock, UUIDs,
-- random bytes and SHA-256 (`Surroundings`), base64 (`Base64`), and `str()` of an object that is no text,
-- number or Boolean (`show`); for provisioning, `CREATE DATABASE`,
-- Alembic's script directory and its upgrade, and the package's version (`Cluster`).
--
-- Recursion is structural throughout; the printing of an integer recurses on as much fuel as the number
-- itself and one more, which is never used up because each digit divides it by ten. Python's integers
-- have no bound, and the model's have none.
--
-- Not modelled: the texts of details and the log, `workspace_state` of a refusal, the case mapping and
-- digits beyond ASCII, the range of `datetime`, the limit of CPython on the digits that `str(int)` and
-- `int(str)` convert (an integer of the model has as many as it needs), the parsing of TOML and the
-- place of the data root, locks and threads, exceptions outside `Exception`, the order of rows by a
-- collation, tables that do not exist yet (a database that is not migrated has them empty); the OAuth
-- provider, the handlers of operations/core_ops.py, the migration of many workspaces and its marking
-- as unavailable, URL routing, references, secrets, and the applications over the core.
pub mod Prelude
pub mod Contracts
pub mod Refusals
pub mod Settings
pub mod Operations
pub mod Storage
pub mod Tokens
pub mod Sessions
pub mod Boundary
pub mod Identity
pub mod Tests
