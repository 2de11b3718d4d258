-- ===== src/Lib.antt =====
-- AI HQ: the control plane that decides which actions agents may take, asks people for approval,
-- and carries out the steps of missions through a gateway.
--
-- The parts, and the files that model them. Python paths are from the root of the repository.
--   Tables (and Tables/*): the rows of src/ai_hq/missions/models.py, ledger/models.py,
--     approvals/models.py, agents/models.py, models/system_state.py, delivery/models.py and
--     recovery/models.py, and the database `Db` that holds them.
--   Ledger: src/ai_hq/ledger/service.py (`add_to_session`, `record`, `for_mission`).
--   Missions/Transitions, Lifecycle, Plan, Leases: src/ai_hq/missions/service.py, `MissionService`:
--     missions and their statuses, plans and the claims of their steps, leases on code changes.
--   Missions/Executor, Missions/Worker: src/ai_hq/missions/executor.py and missions/worker.py.
--   Approvals/Requests, Approvals/Rules: src/ai_hq/approvals/service.py, `ApprovalService`:
--     requests and decisions, and scoped rules, which permit an action a limited number of times.
--   Safety/Policy, Safety/Service: src/ai_hq/safety/policy.py and safety/service.py.
--   Config/Paths, Settings: src/ai_hq/config.py, the validators of `Settings`, and
--     repository_source_policy.py. Safety/Start: system_state.py, the first state of the system.
--   Agents/Registry: src/ai_hq/agents/registry.py, `AgentRegistry`: the agents and their permissions,
--     which the gateway reads.
--   Tools, Gateway/Service: src/ai_hq/tool_gateway/contracts.py, registry.py and service.py.
--   Recovery/Policy, Bounded, Incidents, Claims: src/ai_hq/recovery/policy.py and
--     recovery/service.py, `RecoveryService`: incidents of the watched services. Their tables are
--     `RecoveryDb`, which no other modelled part uses.
--   Operations/Targets, Texts, Adapters, Bootstrap: src/ai_hq/operations/targets.py, adapters.py and
--     bootstrap.py: the adapters of the gateway in operation, and what they ask of the transport.
--   Delivery/Identity, Proposals, Releases, Decisions: src/ai_hq/delivery/service.py,
--     `DeliveryService`: the delivery of a proposed change from the developer's proposal through
--     QA and a person's approval to its publication, deployment and rollback.
--   Delivery/Workspace, Values, Verifier, Runner, Runtime: src/ai_hq/delivery/repository_workspace.py,
--     candidate_verifier.py, agent_runner.py and runtime.py: how an agent's change in a sandbox
--     becomes a verified candidate that is handed to the delivery service.
--   CodeChanges/Service, Releases, Queue: src/ai_hq/code_changes/service.py, `CodeChangeService`, and
--     worker.py: preparing a candidate, and carrying out an approved release.
--   CodeChanges/Candidates, Store, Files, Deployers: src/ai_hq/code_changes/publisher.py,
--     candidate_store.py, deployer.py and rollbacker.py: the values they pass, the check and the files
--     of a stored candidate, and the deployer and rollbacker over the transport of the adapters.
--   CodeChanges/Github/*: src/ai_hq/code_changes/publisher.py, `GitHubCandidatePublisher`: the
--     targets, the requests to GitHub's API, and the publication of a candidate as a new branch.
--   Prelude (and Prelude/*), Json: shared notation, results, queries over tables, JSON values.
--   Tests: each theorem at concrete tables.
-- The other files hold the theorems on these.
--
-- How the parts interact. The executor claims the first step of a mission that has not succeeded,
-- hands it to the gateway, and moves step and mission by the outcome. The gateway looks for an
-- adapter and for the exact permission of the agent, asks the safety service, uses up a scoped
-- rule when one covers a mutation, runs the adapter and records what happened. The safety service
-- reads the system state, the approvals and the scoped rules, decides by the policy and asks for
-- approval where the policy wants one. Every step is logged in the ledger. A code change is prepared
-- by the delivery runner, which hands the candidate to the delivery service; the code-change service
-- reads the delivery and the approval of the change, has the work done outside by the publisher, the
-- deployer or the rollbacker, and records through the delivery service what they answered.
--
-- How the program is modelled.
--   * A service call is a function of the database: `Exec Db A` gives a result or an exception, and
--     the database that it leaves. A session that is never committed leaves the tables alone.
--   * Rows are lists in the order of insertion. A generated id is the next value of a counter; the
--     ids of the program are random and assumed not to collide. The counter also serves where the
--     source keeps a uuid that it never compares in order.
--   * A moment is a natural number. A call that reads the clock several times takes its readings
--     as a function of the number of the reading, so another process may act in between.
--   * An interleaving of processes is a list of calls. An `UPDATE ... WHERE` is one step, as the
--     database makes it; the read of a row that follows in the same call sees that step. A call that
--     reads a row and writes it back is one step too: that two such calls overlap is not modelled.
--   * SHA-256 over canonical JSON is a parameter `digest`, Python's `str` on other values than text
--     is a parameter `repr`, and `casefold` on texts is one. Nothing is assumed of them but what a
--     theorem names.
--   * GitHub's API is a parameter; its answers may depend on all requests before, which the state of
--     a publication lists. Headers that never change are left out.
--   * What is done outside the tables by the code-change service (the candidate store, the publisher,
--     the deployer, the rollbacker, the runner of a repository) is a parameter; its answers may depend
--     on all that was done before, which the state lists. What other processes do to the tables
--     meanwhile is a parameter `elsewhere`, and the moment before and after the work are two moments.
--   * An adapter is a parameter; its answer may depend on all requests that adapters were given
--     before, and `Db.calls` lists them. An adapter fails only by the error that it documents.
--   * No function needs fuel: the loops of these parts run over rows and lists.
--
-- What is not modelled: the HTTP routes, views, command line and start-up; chat and the model
-- providers; authentication; the sandboxes, git and the prompts of the developer and QA agents, and
-- the file system, which are I/O; the socket of the operational transport and the host helper behind
-- it; the observer of watched services, the departments and the worker loop; and the columns
-- `created_at` and `updated_at`, which no modelled code reads except to order rows by insertion.
-- Failures of the database itself are left out, but for the reading of the system state, which the
-- safety service handles.
pub mod Prelude
pub mod Json
pub mod Tables
pub mod Tools
pub mod Ledger
pub mod Missions
pub mod Approvals
pub mod Safety
pub mod Config
pub mod Agents
pub mod Gateway
pub mod Recovery
pub mod Operations
mod Tests
pub mod Delivery
pub mod CodeChanges
