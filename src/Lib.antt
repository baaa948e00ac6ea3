-- ===== src/Lib.antt =====
-- The operations front end: what its state machines, readers and preview workflow guarantee.
--
-- The front end (frontend/lib) lets a planner review a Decision Case, approve or reject a candidate
-- plan, commit it, and follow the case's history. Its parts, and the files that model them:
--   * Decision: the transport types that the parts exchange (frontend/lib/operations-api/client.ts,
--     decision-case-reads.ts and frontend/types/generated/operations.ts).
--   * Preview: the in-memory workflow behind the preview mode
--     (frontend/lib/operations-api/mock.ts, createMockOperationsApiClient with persist = false).
--     Preview holds the store, Preview/Requests the request comparison and the receipts,
--     Preview/Create, Preview/Decide and Preview/Commands the writes, Preview/Reads the reads; the
--     other files of the folder are proofs. Operations take the store and return the new one.
--     Fresh ids and the clock are an argument (Env) of each call; the fixture is a parameter.
--   * CaseEvents: the paged read of a history (operations-api/use-decision-case-events.ts,
--     readDecisionCaseEvents). The server is a function from the round and the cursor to an answer;
--     the source loops without a bound, the model takes fuel, and CaseEvents/Complete shows how
--     much is enough.
--   * Journal: the hook that sends a command with an idempotency key and keeps it until it is
--     answered (operations-api/use-operations-action.ts, useOperationsAction). The refs, the state
--     and the journal in storage are a record; each render callback, effect and continuation of an
--     await is an event of the step function, so that a run is an interleaving of them.
--   * Recommendation: the data source that binds a recommendation to its case
--     (frontend/lib/recommendation-center/data-source.ts), and in Recommendation/Polling the hook
--     that polls it (use-recommendation-center.ts), as a step function over events.
--   * WorkOrders: the command form (frontend/lib/work-orders/commands.ts), in WorkOrders/Intent the
--     hook that keeps a write until it is reviewed (use-work-order-intent.ts) with the memory that
--     such hooks share, and in WorkOrders/Replies the checks of a response (client.ts) and the
--     paged history (use-work-orders.ts), whose loop is bounded by the pages loaded before. What
--     the transport returns or throws is an argument.
--   * Scenario: the draft form (frontend/lib/scenario-planning/inputs.ts, validateDraft), and in
--     Scenario/Context the check that a job belongs to its workspace (client.ts,
--     assertScenarioContext). The verdicts of the JSON schema and of the weights are arguments.
--     Scenario/Reading is the polling read hook and Scenario/Writing the write hook (hooks.ts,
--     useScenarioRead and useScenarioIntent).
--   * Cases: the paged list of Decision Cases (operations-api/use-decision-cases.ts) and the kinds
--     of failed reads (read-error.ts).
--   * Overview: the check of a summary (operations-api/overview.ts), in Overview/Reading the hook
--     that reads it (use-operations-overview.ts) and in Overview/Basis the hook that reads snapshot
--     and schedule together (use-operations-context.ts).
--   * Json and Product: JSON values with the tests on them that the normalizers share
--     (frontend/lib/decision-api/normalize.ts), and the error of a failed response
--     (frontend/lib/product-api/errors.ts) in Product/Errors. Numbers are exact decimals or
--     infinite, as `JSON.parse` makes an infinity of a literal that is too large.
--     Product/Normalize is what the product client makes of policies, experiments, episodes with
--     their steps, and pages of the list (frontend/lib/product-api/normalize.ts).
--   * Decisions: the maintenance decisions (frontend/lib/decision-api). Decisions/Wire is what the
--     client makes of answers and Decisions/Paging its loops over pages (client.ts), with fuel and
--     a number of rounds that is enough; Decisions/Rows is the queue made of events and its order
--     (normalize.ts), whose `toUpperCase` and `localeCompare` are arguments; Decisions/Review is the
--     preview of the service (mock.ts), a map of decisions that calls change, with the queue that it
--     lists.
--
-- Not modelled: the transport and the validation of JSON against the generated schemas, whose
-- outcomes are arguments; the session storage of the preview and its list and overview
-- projections; React's rendering and scheduling, of which the models keep the order of effects,
-- calls and continuations; display texts; arithmetic on floating-point numbers; the requests and
-- the preview of the product client, authentication and navigation; and the services in other
-- languages.
--
-- In the hooks a fresh key of crypto.randomUUID is an argument of the event, and a theorem that
-- needs it to be new says so. A hook's state is one record, so that a callback sees the state of the
-- moment; an aborted request brings no event.

mod Prelude
pub mod Decision
pub mod Preview
pub mod CaseEvents
pub mod Journal
pub mod Recommendation
pub mod WorkOrders
pub mod Scenario
pub mod Cases
pub mod Overview
pub mod Json
pub mod Product
pub mod Decisions
