-- ===== src/Reconcile.antt =====
-- packages/core/src/services/resolution.ts: `reconcile`, which makes the table of assignments agree
-- with the engine. What the transaction writes is a `Store`; what it reads of the employee, the rules
-- and the groups is `Loads`.
pub mod Writes
pub mod Refusals
pub mod Blocked
pub mod Current
pub mod Again
pub mod History
pub mod Decisions
pub mod Tests
use policy_assignment_system.Prelude.{
  ℕ, String, Bool, true, false, not, ◌&&◌, any, Option, none, some, List, [], ◌∷◌, ◌++◌, keep, map,
  includes, length, concat, show, str_eq, if◌then◌else◌,
}
use policy_assignment_system.Dates.{Date, to_iso_date}
use policy_assignment_system.Conditions.{AttributeValues, ConditionClause}
use policy_assignment_system.Engine.{
  Cardinality, one_only, several, EngineEmployee, EngineRule, ResolutionDecision, ResolutionResult,
  ResolvedPolicy, RuleTrailEntry,
}
use policy_assignment_system.Engine.Resolve.{resolve}
use policy_assignment_system.Assignments.{Assignment, close, find_for_employee_as_of}

pub data EmployeeStatus : Type 0 where
  working terminated : EmployeeStatus

-- The employee's row, the rules that may concern them and their groups on the day.
pub record Loads : Type 0 where
  pub employee : Option (EmployeeStatus × EngineEmployee)
  pub rules : List EngineRule
  pub group_ids : List String

-- `before` and `after` states and metadata, by action.
pub data AuditDetail : Type 0 where
  assignment_ended :
      (policy_id category_id source_rule_id : String) (source_rule_version : ℕ)
      (effective_to employee_id : String)
      → AuditDetail
  assignment_created :
      (policy_id category_id source_rule_id : String) (source_rule_version : ℕ)
      (effective_from resolution_reason employee_id : String)
      → AuditDetail
  reconciliation_ran :
      (as_of : String) (evaluated_at : Date) (added removed unchanged rules_considered : ℕ)
      → AuditDetail

pub record AuditRow : Type 0 where
  pub actor_id : Option String
  pub entity_id : String
  pub detail : AuditDetail

-- One row of the decision log.
pub record ResolutionEvent : Type 0 where
  pub employee_id : String
  pub assignment_id : Option String
  pub rule_id : String
  pub rule_version : ℕ
  pub policy_id : String
  pub category_id : String
  pub decision : ResolutionDecision
  pub reason : String
  pub matched_clauses : List ConditionClause
  pub failed_clause : Option ConditionClause
  pub attribute_values : AttributeValues
  pub evaluated_at : Date

pub record Store : Type 0 where
  pub assignments : List Assignment
  pub events : List ResolutionEvent
  pub audits : List AuditRow

pub record ReconciliationResult : Type 0 where
  pub added : List Assignment
  pub removed : List Assignment
  pub unchanged : List Assignment

-- What the caller gets: one of the two errors of the service, the database's P2002, with which the
-- transaction is rolled back, or what the committed transaction left and returned.
pub data Outcome : Type 0 where
  employee_not_found : Outcome
  employee_terminated : Outcome
  conflicted : Outcome
  done : Store → ReconciliationResult → Outcome

-- `${policyId}|${ruleId}|${ruleVersion}`
abbrev pub key_of : String → String → ℕ → String
key_of policy_id rule_id version = concat (policy_id ∷ "|" ∷ rule_id ∷ "|" ∷ show version ∷ [])

abbrev pub assignment_key : ResolvedPolicy → String
assignment_key winner = key_of winner.policy_id winner.rule_id winner.rule_version

abbrev pub current_key : Assignment → String
current_key row = key_of row.policy_id row.source_rule_id row.source_rule_version

abbrev pub is_desired : List ResolvedPolicy → Assignment → Bool
is_desired winners row = includes (map assignment_key winners) (current_key row)

abbrev pub is_held : List Assignment → ResolvedPolicy → Bool
is_held current winner = includes (map current_key current) (assignment_key winner)

-- `toEngineEmployee` with no changes
to_engine_employee : EngineEmployee → List String → EngineEmployee
to_engine_employee employee group_ids = record employee { group_ids = group_ids }

unfoldable pub evaluate : EngineEmployee → Loads → Date → ResolutionResult
unfolding to_engine_employee
evaluate employee loads as_of = resolve (record {
  employee = to_engine_employee employee loads.group_ids;
  rules = loads.rules;
  as_of = as_of;
})

abbrev audited : AuditRow → Store → Store
audited row store = record store { audits = store.audits ++ row ∷ [] }

is_exclusive : Cardinality → Bool
is_exclusive one_only = true
is_exclusive several = false

-- An open row of a SINGLE category: what the partial unique index of the table holds.
pub is_indexed : Assignment → Bool
unfolding is_exclusive
is_indexed row =
    is_exclusive row.cardinality && elim row.effective_to [ none ↦ true | some _ ↦ false ]

-- Two rows with one key of the index.
pub is_rival : Assignment → Assignment → Bool
unfolding is_indexed
is_rival row other =
    is_indexed row
    && is_indexed other
    && str_eq row.organization_id other.organization_id
    && str_eq row.employee_id other.employee_id
    && str_eq row.category_id other.category_id

-- Does the unique index refuse the row?
pub is_refused : Assignment → List Assignment → Bool
unfolding is_rival
is_refused row rows = any (is_rival row) rows

module _ (organization_id : String) (actor_id : Option String) (employee_id : String)
    (as_of : Date) where
  close_one : Assignment → Store → Store
  close_one row store =
      audited
        (record {
          actor_id = actor_id;
          entity_id = row.id;
          detail =
              assignment_ended row.policy_id row.category_id row.source_rule_id
                row.source_rule_version (to_iso_date as_of) employee_id;
        })
        (record store { assignments = close organization_id row.id as_of store.assignments })

  -- The loop over the removed assignments.
  pub close_all : List Assignment → Store → Store
  unfolding close_one
  close_all [] store = store
  close_all (row ∷ rows) store = close_all rows (close_one row store)

  module _ (new_id : List Assignment → String) where
    pub row_for : ResolvedPolicy → List Assignment → Assignment
    row_for winner rows = record {
      id = new_id rows;
      organization_id = organization_id;
      employee_id = employee_id;
      policy_id = winner.policy_id;
      category_id = winner.category_id;
      cardinality = winner.cardinality;
      source_rule_id = winner.rule_id;
      source_rule_version = winner.rule_version;
      effective_from = as_of;
      effective_to = none;
      resolution_status = winner.resolution_status;
      resolution_reason = winner.reason;
    }

    inserted_one : ResolvedPolicy → Store → Store
    unfolding row_for
    inserted_one winner store =
        let row = row_for winner store.assignments in
        audited
          (record {
            actor_id = actor_id;
            entity_id = row.id;
            detail =
                assignment_created winner.policy_id winner.category_id winner.rule_id
                  winner.rule_version (to_iso_date as_of) winner.reason employee_id;
          })
          (record store { assignments = store.assignments ++ row ∷ [] })

    -- `assignments_single_current_uniq`: a second open row of a SINGLE category is refused.
    create_one : ResolvedPolicy → Store → Option Store
    unfolding inserted_one is_refused row_for
    create_one winner store =
        if is_refused (row_for winner store.assignments) store.assignments
        then none
        else some (inserted_one winner store)

    -- The loop over the winners that are not held, and the rows it created.
    pub create_all : List ResolvedPolicy → Store → Option (Store × List Assignment)
    unfolding create_one row_for
    create_all [] store = some (store, [])
    create_all (winner ∷ winners) store = elim (create_one winner store) [
      | none ↦ none
      | some next ↦ elim (create_all winners next) [
        | none ↦ none
        | some (after, created) ↦ some (after, row_for winner store.assignments ∷ created)
      ]
    ]

-- `assignmentIds`: of two rows with one key the later is found.
assignment_id_for : List Assignment → String → Option String
assignment_id_for [] key = none
assignment_id_for (row ∷ rows) key = elim (assignment_id_for rows key) [
  | some id ↦ some id
  | none ↦ if str_eq (current_key row) key then some row.id else none
]

decision_for : String → Date → List Assignment → RuleTrailEntry → ResolutionEvent
unfolding assignment_id_for
decision_for employee_id evaluated_at rows entry = record {
  employee_id = employee_id;
  assignment_id = assignment_id_for rows (key_of entry.policy_id entry.rule_id entry.rule_version);
  rule_id = entry.rule_id;
  rule_version = entry.rule_version;
  policy_id = entry.policy_id;
  category_id = entry.category_id;
  decision = entry.decision;
  reason = entry.reason;
  matched_clauses = entry.matched_clauses;
  failed_clause = entry.failed_clause;
  attribute_values = entry.attribute_values;
  evaluated_at = evaluated_at;
}

module _ (new_id : List Assignment → String) (organization_id : String) (actor_id : Option String)
    (employee_id : String) where
  -- The end of the transaction, with the rows in force before it and what its two loops left.
  pub log_run :
      ResolutionResult
      → Date
      → Date
      → List Assignment
      → Store × List Assignment
      → Store × ReconciliationResult
  unfolding decision_for
  log_run resolution as_of evaluated_at current (written, created) =
      let removed = keep (λ row. not (is_desired resolution.winners row)) current in
      let unchanged = keep (is_desired resolution.winners) current in
      let decisions =
        map (decision_for employee_id evaluated_at (created ++ unchanged)) resolution.trail in
      let logged = record written { events = written.events ++ decisions } in
      let final =
        audited
          (record {
            actor_id = actor_id;
            entity_id = employee_id;
            detail =
                reconciliation_ran (to_iso_date as_of) evaluated_at (length created)
                  (length removed) (length unchanged) (length resolution.trail);
          })
          logged in
      let after = find_for_employee_as_of organization_id employee_id as_of final.assignments in
      (
        final,
        record {
          added = keep (λ row. includes (map (λ r. r.id) created) row.id) after;
          removed = removed;
          unchanged = unchanged;
        },
      )

  -- The transaction, for a resolution already made: `none` if it is rolled back.
  pub materialize : ResolutionResult → Date → Date → Store → Option (Store × ReconciliationResult)
  unfolding close_all create_all log_run
  materialize resolution as_of evaluated_at store =
      let current = find_for_employee_as_of organization_id employee_id as_of store.assignments in
      let removed = keep (λ row. not (is_desired resolution.winners row)) current in
      let to_add = keep (λ winner. not (is_held current winner)) resolution.winners in
      let closed = close_all organization_id actor_id employee_id as_of removed store in
      elim (create_all organization_id actor_id employee_id as_of new_id to_add closed) [
        | none ↦ none
        | some written ↦ some (log_run resolution as_of evaluated_at current written)
      ]

  pub reconcile : Loads → Date → Date → Store → Outcome
  unfolding materialize
  reconcile loads as_of evaluated_at store = elim loads.employee [
    | none ↦ employee_not_found
    | some (terminated, _) ↦ employee_terminated
    | some (working, employee) ↦
        elim (materialize (evaluate employee loads as_of) as_of evaluated_at store) [
          | none ↦ conflicted
          | some (final, result) ↦ done final result
        ]
  ]
