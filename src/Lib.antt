-- ===== src/Lib.antt =====
-- lark-plat: the core services of an operations platform (backend/app).
--
-- A request runs one service function over a database session. The services modelled here decide
-- what is executed on hosts: workflows (a definition is validated, stored, and driven node by
-- node), approvals (a decision releases or drops an execution task or a terminal session),
-- execution tasks (a command or a script on hosts, held for an approval where it is sensitive),
-- tickets (a lifecycle with permissions), and releases (a lifecycle with an audit, and a
-- workflow run of its own). The engine creates approvals and execution tasks for its nodes and
-- then follows their status columns; an approval of kind "workflow" changes nothing but its own
-- row.
--
-- Files:
--   Json, Errors, Session, Table, Features, Statuses: what the services share. JSON values; the
--     exceptions of backend/app/core/exceptions.py; the session of backend/app/db/session.py (a view,
--     and what is durable: `commit` copies the view, a request that raises drops it) with the caller
--     of backend/app/api/deps.py; tables with an autoincrement key; the feature flags.
--     Session/After has the rules to reason about a request, one for each way to build it.
--   Workflow/Dag: `_assert_acyclic` of backend/app/services/workflow_service.py. The recursion of
--     `visit` takes fuel, one more than the number of keys; Dag/Fuel shows that this is enough where
--     all edges end in keys, which the validation ensures.
--   Workflow/Definition: `_validate_definition`, and the nodes as the engine reads them back
--     (`_load_definition`).
--   Workflow/Model: the rows of backend/app/db/models/workflow.py.
--   Workflow/Engine: `step` of backend/app/services/workflow_engine.py and all that it calls, over the
--     rows of one run. Verdict is `_edges` and `_verdict`, Timeout is `_cfg`, `_timeout_sec` and
--     `_elapsed`, Nodes is the first loop, Advance is `_advance_running` and `_advance_waiting` with
--     what they call, Step is `step`. Port lists what the engine uses of other services.
--   Workflow/Service: the operations of backend/app/services/workflow_service.py. Model has the
--     database, Versions the workflows with their versions, Runs and Requests `run_workflow`,
--     `retry_run` and `cancel_run`, Callback `callback_node` (with `jwt.decode`, `int` on a text and the
--     length of `json.dumps` as parameters). cancel_run works on the task tables of Exec. History sees
--     the version rows as a map, Traces joins the requests into sequences. The notify of the driver
--     thread after a start or a callback is left out.
--   Approval: approve, reject and cancel of backend/app/services/approval_service.py, with the linkages
--     of backend/app/services/terminal_service.py and the optimistic updates of
--     backend/app/repositories/__init__.py. `decide` is the transaction of all three.
--     Rules has the rules of approval.
--   Exec: execution tasks. Sensitive is `detect_sensitive` (with `contains` of Text), Create and Hold
--     the body of `create_exec_task_record`, Cancel that of `cancel_exec_task_record` and `retry_task`,
--     Service the requests of backend/app/services/exec_service.py; Dispatch has the commits of
--     backend/app/tasks/exec_tasks.py and the results of backend/app/ws/agent_ws.py, Orchestrator
--     `run_exec` of backend/app/services/executors/orchestrator.py. Traces joins them with the decisions
--     on approvals into one list of events. The task rows are those of Approval/Model, so that both
--     services work on the same tables. Python's `str.lower` and the semaphores of redis are
--     parameters; the reasons of a sensitive task are kept before they are written out as a text.
--   Automation: `resolve_auto_policy` of backend/app/services/ai_automation_service.py, which approves a
--     task without a person.
--   Release: backend/app/services/cicd_service.py over backend/app/db/models/cicd.py. Secrets is the
--     encryption of configurations, Runs the workflow run of a release (with `_start_run` of
--     backend/app/services/workflow_service.py), Service the releases, Providers the providers and the
--     webhook. `move_release` is the request of all six actions.
--   Ticket: backend/app/services/ticket_service.py over backend/app/db/models/ticket.py; Requests joins
--     the operations that write into one step relation.
--
-- Conventions: instants are numbers of one clock, and one request or tick reads the clock once. Ids are
-- keys of tables; a counter of keys stands for the key that the next stored row gets, and the gaps that
-- a rolled back request leaves in a sequence are not modelled. The number of a ticket, which
-- `nextval('seq_ticket_no')` draws outside the transaction, is an argument of the request. Numbers in
-- JSON are integers. The unique constraints on the references of a ticket, on `biz_id` of an approval
-- and on the hosts of a task are part of the model; an IntegrityError is the error `internal`. The
-- broker is a list that tasks are handed to, outside the transaction; whether it takes a task when an
-- approval is given is a parameter, while the dispatch of the execution service falls back to a run in
-- the process and so always happens.
--
-- Not modelled: HTTP routing, websockets, broadcasts and audit rows of the middleware; tokens and
-- cryptography; the driver threads of the engine (a tick is one call of `step`); list and detail
-- queries; monitoring, transfers, schedules, assets, the knowledge base and the AI services.
mod Prelude
pub mod Json
pub mod Errors
pub mod Automation
pub mod Exec
pub mod Session
pub mod Statuses
pub mod Table
pub mod Features
pub mod Ticket
pub mod Approval
pub mod Release
pub mod Workflow
