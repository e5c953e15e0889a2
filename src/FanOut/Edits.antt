-- ===== src/FanOut/Edits.antt =====
-- An edit of a rule and the fan-out of its event: whom it reaches.
use policy_assignment_system.Prelude.{String, ◌≡◌, true, [], In, All}
use policy_assignment_system.Dates.{Date}
use policy_assignment_system.Conditions.{RuleConditions}
use policy_assignment_system.Assignments.{Assignment}
use policy_assignment_system.Validation.{conditions_issues}
use policy_assignment_system.Narrowing.Candidates.{IsExact}
use policy_assignment_system.FanOut.{Staff, FanOutReads, is_match}
use policy_assignment_system.FanOut.Laws.{IsCandidate}

-- Why a rule's change may concern an employee: accepted and exact conditions, those before the edit or
-- those after it, match them, or they hold an assignment that comes from the rule.
pub data Concerned (reads : FanOutReads) (organization_id rule_id : String) (as_of : Date)
    (before next : RuleConditions) : String → Type 0 where
  matched_before :
      (row : Staff)
      → IsCandidate reads organization_id as_of row
      → conditions_issues before ≡ []
      → All IsExact before.clauses
      → is_match reads before as_of row ≡ true
      → Concerned reads organization_id rule_id as_of before next row.employee.id
  matches_after :
      (row : Staff)
      → IsCandidate reads organization_id as_of row
      → conditions_issues next ≡ []
      → All IsExact next.clauses
      → is_match reads next as_of row ≡ true
      → Concerned reads organization_id rule_id as_of before next row.employee.id
  holds :
      (assignment : Assignment)
      → In assignment reads.assignments
      → assignment.organization_id ≡ organization_id
      → assignment.source_rule_id ≡ rule_id
      → Concerned reads organization_id rule_id as_of before next assignment.employee_id
