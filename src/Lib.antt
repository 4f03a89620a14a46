-- ===== src/Lib.antt =====
-- RevPilot AI: a model of the parts of the backend that decide whether money is spent and whether
-- an action on customers is carried out, with the theorems that make those parts correct.
--
-- All paths are below packages/backend/src/revpilot/.
--
-- How the parts interact. A candidate intervention passes the hard constraints
-- (modules/constraints/) and becomes a request for approval, sealed by a digest
-- (modules/approval/). A human of sufficient tier grants it, and at each later checkpoint it is
-- revalidated; a kill switch (modules/safety/killswitch/) can block the action. For an approved
-- request an intent is recorded under an idempotency key, with a journal of the attempts
-- (modules/action/ledger.py); a saga carries it out in steps, compensates the completed ones when
-- a step fails, and asks the provider when a step times out (modules/action/saga/). A call of a
-- provider leaves through the tool gateway, which checks the request, exchanges it for a token of at
-- most 15 minutes, and scrubs what it digests (modules/tool_gateway/action/). The spend is
-- reserved against a tenant's quota (modules/finops/quota.py), and each event goes into a hash chain
-- (modules/finops/audit_chain.py). An investigation, which leads to such candidates, is a durable
-- workflow with its own lifecycle and budget (modules/investigation/). The data that it looks at comes
-- in through connectors (modules/connectors/): each has a lifecycle, an inbox for its events, and a
-- quarantine for payloads that no longer fit its schema.
--
-- Files.
--   Base: what the modules share: numbers, texts and lists; `Dict` for Python's dictionaries; `Action`
--     for methods that read and write a state and may raise; `Int` for signed amounts.
--   Approval/StateMachine: modules/approval/state_machine.py; `Paths` has its lifecycle as a relation.
--   Approval/Domain, Digest, Repository: domain.py, digest.py and the in-memory repository of ports.py.
--   Approval/Service: service.py. `Create`, `Grant` and `Change` hold its methods under their names;
--     `Requests` gathers them as one `handle`, with the abstract step that each refines.
--   Approval/Policy: policy/authority.py and policy/revalidation.py.
--   Action/Domain, Repository, Ledger: modules/action/domain.py, ports.py and ledger.py;
--     `Ledger/Calls` has sequences of the ledger's calls.
--   Action/Saga: saga/reconciliation.py, saga/activities.py and saga/workflow.py.
--   Action/DryRun: modules/action/dryrun.py.
--   Finops/Quota: modules/finops/quota.py. Finops/Audit: modules/finops/audit_chain.py.
--   Constraints: modules/constraints/domain.py and evaluator.py; `Budget` is ports.py.
--   Investigation: modules/investigation/domain/state_machine.py and the budget of domain/models.py.
--   Investigation/Workflow: workflows/investigation_workflow.py: the state, the signals and the gate
--     (`_check_pause_and_cancellation`); its child `Run` has `run` and the validation of signals.py.
--   Connectors: modules/connectors/domain.py and `transition_state` of lifecycle.py; `Lifecycle` has the
--     other methods of lifecycle.py, `Health` is health.py, `Inbox`, `Drift` and
--     `Quarantine` are ingestion/inbox.py, drift.py and quarantine.py.
--   Safety: modules/safety/killswitch/. A `System` is the bus, the service called and its peers.
--   ToolGateway: modules/tool_gateway/action/. `Broker` is credential_broker.py, `Scrub` is
--     `scrub_secrets` of gateway.py over a type of JSON values, `Gateway` is its `dispatch_action`.
--   Tests, in the parts: its theorems at concrete inputs.
--
-- Conventions. A method of a service or manager becomes a function from its arguments and the
-- state to a result and a state; what it writes before it raises stays written. Its readings of
-- the clock and its fresh identifiers are arguments. A lock, or a method without a wait between
-- its reads and its writes, makes it one step; sequences of calls are lists of steps. An exception
-- is one constructor for each error code, its message left out. An object that the code mutates in
-- place is written back to where it is stored. Times are whole microseconds. Amounts are whole
-- millionths of a dollar: a `Decimal` is its value, so two texts of one value (1.0 and 1.00),
-- which the digest would tell apart, are one here. Python's integers have no bound, so no width is
-- modelled. Loops are recursions on the list they go through; the inquiry loop recurses on its
-- rounds, which are `max_attempts`, so no fuel is needed.
-- The loop of the health probe recurses on the attempts that are left. Where the
-- reconciliation and the saga read the clock several times in a call, one reading stands for all of
-- them; no theorem depends on their difference. `lower` turns ASCII letters only, so targets of a
-- switch and keys of a JSON object that differ in the case of other letters are told apart. A value of
-- a connector's payload has one of the seven JSON types.
--
-- The durable workflow is a function of the events that reach it: signals, and how each activity ends,
-- in order. A signal is handled while the workflow waits, for an activity or at the gate; where the
-- events end, it waits on. Its condition is tested after each event. What an activity does is not part of it.
--
-- Parameters. SHA-256 and JSON are the record `Hasher`, the provider's answers are a function of
-- the number of the inquiry, and the saga's clock and identifiers are the record `Environment`. The
-- audit chain takes SHA-256, the JSON text of the details and the text of a time as functions. The
-- tool gateway takes the provider, the digests and the regular expression for bearer tokens; one theorem
-- assumes that a replaced token leaves the replacement in the text. No other theorem assumes anything
-- of the parameters. That a generated identifier is not empty and does not repeat (UUIDv7.generate) is a
-- condition of the theorems that need it.
--
-- Not modelled: the mock adapter, the gateway's constructor and its socket barrier; the queries of the
-- durable workflow; a kill switch service that joins the bus later; the connectors' provider adapters
-- and webhook signatures; the other modules (identity, tenancy, decision, analytics and
-- what surrounds them); the applications, migrations and deployment, which are I/O; logging and
-- messages.
pub mod Base
pub mod Connectors
pub mod Approval
pub mod Action
pub mod Finops
pub mod Constraints
pub mod Investigation
pub mod Safety
pub mod ToolGateway
