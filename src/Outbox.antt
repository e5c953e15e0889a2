-- ===== src/Outbox.antt =====
-- packages/core/src/repositories/outbox-event.repository.ts: the table of outbox rows, and the
-- statements by which the relay claims, releases and settles them. Each statement is one
-- transaction, and they run one after another.
pub mod Laws
mod Tests
use policy_assignment_system.Prelude.{
  ℕ, zero, suc, ◌+◌, String, Bool, true, false, ◌&&◌, Option, none, some, List, [], ◌∷◌, ◌++◌, keep,
  map, includes, leb, str_eq, if◌then◌else◌, ℤ, sub_ℕ,
}
use policy_assignment_system.Prelude.Sorting.{sort}
use policy_assignment_system.Dates.{Date}

pub data OutboxStatus : Type 0 where
  pending processing processed failed : OutboxStatus

-- What a field of a payload may be, as far as the relay tells values apart: not one of its kinds, a
-- text, an integer, or an array, each entry of which is a text or not.
pub data Field : Type 0 where
  other : Field
  text : String → Field
  integer : ℤ → Field
  array : List (Option String) → Field

pub record OutboxPayload : Type 0 where
  pub employee_id : Field
  pub changed_attributes : Field
  pub effective_from : Field
  pub rule_id : Field
  pub rule_version : Field
  pub group_id : Field
  pub deleted_on : Field

-- The payload is `none` where the column holds no object.
pub record OutboxEvent : Type 0 where
  pub id : String
  pub organization_id : String
  pub event_type : String
  pub aggregate_type : String
  pub aggregate_id : String
  pub payload : Option OutboxPayload
  pub status : OutboxStatus
  pub attempts : ℕ
  pub available_at : Date
  pub processed_at : Option Date
  pub created_at : Date

-- The id and the two instants are the database's.
unfoldable pub enqueue :
    String
    → Date
    → Option Date
    → String
    → String
    → String
    → String
    → OutboxPayload
    → List OutboxEvent
    → List OutboxEvent
enqueue id now available_at organization_id event_type aggregate_type aggregate_id payload rows =
    rows
    ++ record {
      id = id;
      organization_id = organization_id;
      event_type = event_type;
      aggregate_type = aggregate_type;
      aggregate_id = aggregate_id;
      payload = some payload;
      status = pending;
      attempts = 0;
      available_at = elim available_at [ none ↦ now | some at ↦ at ];
      processed_at = none;
      created_at = now;
    }
      ∷ []

abbrev pub is_pending : OutboxStatus → Bool
is_pending pending = true
is_pending _ = false

abbrev pub is_processing : OutboxStatus → Bool
is_processing processing = true
is_processing _ = false

-- `status = 'PENDING' AND available_at <= now`
abbrev pub is_due : Date → OutboxEvent → Bool
is_due now row = is_pending row.status && leb row.available_at now

-- `status = 'PROCESSING' AND available_at <= now`
abbrev pub is_expired : Date → OutboxEvent → Bool
is_expired now row = is_processing row.status && leb row.available_at now

abbrev pub earliest_first : OutboxEvent → OutboxEvent → ℤ
earliest_first left right = sub_ℕ left.available_at right.available_at

-- `LIMIT`
unfoldable pub take : {A : Type 0} → ℕ → List A → List A
take zero xs = []
take (suc n) [] = []
take (suc n) (x ∷ xs) = x ∷ take n xs

-- `findPending`, and the inner SELECT of the claim.
unfoldable pub find_pending : ℕ → Date → List OutboxEvent → List OutboxEvent
unfolding take
find_pending limit now rows = take limit (sort earliest_first (keep (is_due now) rows))

abbrev pub leased : Date → OutboxEvent → OutboxEvent
leased lease_until row = record row { status = processing; available_at = lease_until }

-- The table after the claim, and the rows it returns.
unfoldable pub claim_pending :
    ℕ → Date → Date → List OutboxEvent → List OutboxEvent × List OutboxEvent
claim_pending limit now lease_until rows =
    let ids = map (λ row. row.id) (find_pending limit now rows) in
    let update =
      λ (row : OutboxEvent). if includes ids row.id then leased lease_until row else row in
    (map update rows, map (leased lease_until) (keep (λ row. includes ids row.id) rows))

unfoldable pub release_expired : Date → List OutboxEvent → List OutboxEvent
release_expired now rows =
    map (λ row. if is_expired now row then record row { status = pending } else row) rows

-- `UPDATE ... WHERE id`
unfoldable pub update : String → (OutboxEvent → OutboxEvent) → List OutboxEvent → List OutboxEvent
update id change rows = map (λ row. if str_eq row.id id then change row else row) rows

abbrev pub settled : Date → OutboxEvent → OutboxEvent
settled at row = record row { status = processed; processed_at = some at }

abbrev pub postponed : Date → OutboxEvent → OutboxEvent
postponed next_attempt_at row = record row {
  status = pending;
  available_at = next_attempt_at;
  attempts = row.attempts + 1;
}

abbrev pub abandoned : Date → OutboxEvent → OutboxEvent
abandoned at row = record row {
  status = failed;
  attempts = row.attempts + 1;
  processed_at = some at;
}

abbrev pub mark_processed : String → Date → List OutboxEvent → List OutboxEvent
mark_processed id at rows = update id (settled at) rows

abbrev pub mark_failed : String → Date → List OutboxEvent → List OutboxEvent
mark_failed id next_attempt_at rows = update id (postponed next_attempt_at) rows

abbrev pub mark_permanently_failed : String → Date → List OutboxEvent → List OutboxEvent
mark_permanently_failed id at rows = update id (abandoned at) rows
