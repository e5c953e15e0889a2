-- ===== src/Lib.antt =====
-- The policy assignment system: which policies an employee holds, and why.
--
-- An organisation writes rules. A rule has conditions on an employee, a priority, a window of days
-- and a policy of some category; a category is SINGLE or MULTIPLE. The engine resolves one employee
-- on one day: each rule passes its gates or leaves a trail entry, and in each category the rules that
-- passed are put in order and give the winners. Reconciliation compares the winners with the
-- assignments in force, ends some, creates others, and logs each decision. A change writes an outbox
-- row in its own transaction; the relay claims such rows and makes jobs of them, and a job runs a
-- reconciliation.
--
-- Prelude       shared names: Boolean tests on native numbers, lists, membership, integers, texts,
--               and a stable insertion sort with its laws
-- Dates         packages/shared/src/date.ts: daysBetween, tenureDaysAsOf, isEffectiveOn, toIsoDate.
--               A Date is a count of milliseconds, so no day is before the year 100
-- Conditions    packages/shared/src/conditions.ts and packages/core/src/engine/conditions.ts: the
--               grammar of conditions (ConditionClause, RuleConditions) and evaluateConditions.
--               A JavaScript number is an integer, or a fraction, which stands as its text with the
--               integer below it: the tenures that it is compared with are whole
-- Engine        packages/core/src/engine/types.ts, packages/shared/src/enums.ts: the vocabulary; and
--               packages/core/src/engine/resolve.ts in four steps, each with its laws:
--   Order       compareRules, and the order as a relation (Outranks)
--   Triage      the gates of the loop over the rules, the explanations, buildEmployeeContext
--   Decide      the decision in one bucket, SINGLE (decide_single) and MULTIPLE (decide_several)
--   Resolve     bucketFor (file), the loop (fill) and resolve; Winners has the specification of a
--               win (Wins) and its refinement, Trail the account of every rule
-- Assignments   packages/core/src/repositories/assignment.repository.ts: the table as a list of rows
-- Reconcile     packages/core/src/services/resolution.ts: reconcile; its transaction is materialize,
--               on a Store of assignments, decision log and audit rows. Writes has the laws of the
--               two loops, Current and Again what a run reaches, Refusals and Blocked where the partial
--               unique index on open SINGLE rows (packages/db, assignments_single_current_uniq)
--               refuses a row and the transaction is rolled back, History and Decisions what it keeps
-- Outbox        packages/core/src/repositories/outbox-event.repository.ts: enqueue, claimPending,
--               releaseExpired and the three marks
-- Relay         apps/worker/src/relay.ts: plan, dispatch, retry, backoffMs and drain
-- Narrowing     packages/core/src/engine/candidates.ts and findCandidates of
--               packages/core/src/repositories/employee.repository.ts (selects), on whole days; Laws
--               and Steps follow a clause into the query, Sound and Candidates the loop
-- Preview       packages/core/src/services/resolution.ts: preview, for an employee that was found
-- Validation    apps/api/src/validators/conditions.ts: which conditions are accepted; Types says what
--               they are, Laws joins them to Narrowing
-- Rules         apps/api/src/services/rule.ts, with the writes of the repositories of rules and of
--               versions: Json (the comparison of conditions), Writes (the transactions), Requests (the
--               operations), Versions and Minting (snapshots), Edits, Reachable (runs of requests),
--               Laws (single requests, and the relay's plan for their events). Requests run one after
--               another; the dates of a request are parsed already
-- FanOut        packages/core/src/services/rule-fan-out.ts: Edits joins it to Rules
-- Processor     apps/worker/src/processor.ts: handle, without its log and the publisher
-- Employees     packages/core/src/repositories/employee.repository.ts and apps/api/src/services/employee.ts:
--               Chart (the walk down the org chart; Laws, Cycles), Service (history, flags, the checks of a
--               manager), Requests (create, update), Termination; Flags, Sync, Moves, Laws and Reachable
--               are about the derived flags, Edges and Acyclic about the chart
-- RateLimit     apps/api/src/middlewares/rate-limit/store.ts and packages/shared/src/rate-limit.ts: the
--               token buckets in memory, in exact amounts; Refill is about one bucket, Laws about runs
--
-- The Map of buckets is an association list in the order of insertion, and JavaScript's stable sort
-- is insertion sort. Ties in an SQL ORDER BY keep the order of the table. Every loop is structural
-- recursion on its list, so no fuel is needed; the walk down the org chart is recursion on the steps
-- that its bound of 64 leaves.
--
-- Parameters: the id that the database gives a new assignment (new_id), the queue of jobs (add), the
-- population of a rule (affected) and of a deleted group (former_members); the last three may fail.
-- RuleEnv and EmployeeEnv hold the clocks, the ids that the database gives and the reads of a request.
-- An employee id, in Employees, is no empty text.
-- Hypotheses: ids are keys (IsConsistent, Keyed, HasKeys), as the primary keys of the schema say, and
-- the rules of one category agree on its cardinality, which they read from one row.
--
-- Not modelled: row locks, since statements here run one after another; clocks, which are arguments;
-- the permissions of a caller; the services of policies and of groups, but for the memberships that a
-- termination ends; the match previews of the rule service; the Redis store of the rate limiter; HTTP,
-- authentication and the front end.
pub mod Prelude
pub mod Dates
pub mod Conditions
pub mod Engine
pub mod Assignments
pub mod Reconcile
pub mod Outbox
pub mod Relay
pub mod Narrowing
pub mod Preview
pub mod Validation
pub mod Rules
pub mod FanOut
pub mod Processor
pub mod Employees
pub mod RateLimit
