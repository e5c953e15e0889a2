-- ===== src/Employees/Flags.antt =====
-- apps/api/src/services/employee.ts: what it is for the derived flags to agree with the org chart.
use policy_assignment_system.Prelude.{
  String, ◌≡◌, ◌≢◌, refl, sym, ap, ◌∙◌, subst, ◌⊎◌, ◌↔◌, inl, inr, Bool, true, Bool-cases,
  Bool-clash, none, some, List, [], ◌∷◌, keep, map, length, ltb, In, In-of_map, arith, eq_iff,
}
use policy_assignment_system.Employees.{
  Employee, is_row, find_employee, counts_for, count_direct_reports,
}

-- The flag says whether anybody active reports to the employee.
abbrev pub FlagIsRight : List Employee → Employee → Type 0
FlagIsRight rows row = row.is_manager ≡ ltb 0 (count_direct_reports row.organization_id row.id rows)

-- The table has one row for each id, and every flag agrees with the chart.
pub record IsConsistent (rows : List Employee) : Type 0 where
  pub keyed : (r s : Employee) → In r rows → In s rows → r.id ≡ s.id → r ≡ s
  pub flags : (row : Employee) → In row rows → FlagIsRight rows row

-- The same, but for the flags of some employees of an organization.
pub record IsConsistentBut (organization_id : String) (ids : List String) (rows : List Employee)
    : Type 0 where
  pub keyed : (r s : Employee) → In r rows → In s rows → r.id ≡ s.id → r ≡ s
  pub flags :
      (row : Employee)
      → In row rows
      → ((row.organization_id ≡ organization_id) × In row.id ids) ⊎ FlagIsRight rows row

length-keep-map :
    (p : Employee → Bool) (f : Employee → Employee) (rows : List Employee)
    → ((row : Employee) → In row rows → p (f row) ≡ p row)
    → length (keep p (map f rows)) ≡ length (keep p rows)
length-keep-map p f [] same = refl
length-keep-map p f (row ∷ rows) same =
    let rest = length-keep-map p f rows (λ r m. same r (inr m)) in
    elim (Bool-cases (p row)) [
      | inl yes_kept ↦ rw (same row (inl refl), yes_kept, rest) refl
      | inr lost ↦ rw (same row (inl refl), lost) rest
    ]

-- Changing rows one by one leaves a count as it was, if it leaves every row's part in it.
pub count-map :
    (f : Employee → Employee) (organization_id id : String) (rows : List Employee)
    → ((row : Employee)
        → In row rows
        → counts_for organization_id id (f row) ≡ counts_for organization_id id row)
    → count_direct_reports organization_id id (map f rows)
      ≡ count_direct_reports organization_id id rows
count-map f organization_id id rows same =
    length-keep-map (counts_for organization_id id) f rows same

-- Changing rows but not ids keeps one row for each id.
pub keyed-map :
    (f : Employee → Employee) (rows : List Employee)
    → ((row : Employee) → (f row).id ≡ row.id)
    → ((r s : Employee) → In r rows → In s rows → r.id ≡ s.id → r ≡ s)
    → (r s : Employee) → In r (map f rows)
    → In s (map f rows)
    → r.id ≡ s.id
    → r ≡ s
keyed-map f rows same keyed r s m n e =
    let (r', m', e') = In-of_map f rows m in
    let (s', n', f') = In-of_map f rows n in
    let ids = sym (same r') ∙ (ap (λ x. x.id) (sym e') ∙ (e ∙ (ap (λ x. x.id) f' ∙ same s'))) in
    e' ∙ (ap f (keyed r' s' m' n' ids) ∙ sym f')

pub is_row_iff :
    (organization_id id : String) (row : Employee)
    → (is_row organization_id id row ≡ true)
      ↔ ((row.id ≡ id) × (row.organization_id ≡ organization_id))
is_row_iff organization_id id row =
    ground (arith, eq_iff row.id id, eq_iff row.organization_id organization_id)

pub find_employee_sound :
    (organization_id id : String) (rows : List Employee) {row : Employee}
    → find_employee organization_id id rows ≡ some row
    → In row rows × (row.id ≡ id) × (row.organization_id ≡ organization_id)
unfolding find_employee
find_employee_sound organization_id id [] h = cc
find_employee_sound organization_id id (r ∷ rows) {row} h =
    elim (Bool-cases (is_row organization_id id r)) [
      | inl hit ↦
          let same : r ≡ row = injective (rw hit at h) in
          let (e, f) = (is_row_iff organization_id id r).0 hit in
          (
            inl (sym same),
            sym (ap (λ x. x.id) same) ∙ e,
            sym (ap (λ x. x.organization_id) same) ∙ f,
          )
      | inr miss ↦
          let (m, e, f) = find_employee_sound organization_id id rows (rw miss at h) in
          (inr m, e, f)
    ]
  where
    injective : {a b : Employee} → some a ≡ some b → a ≡ b
    injective e = cc e

pub find_employee_complete :
    (organization_id id : String) (rows : List Employee) (row : Employee)
    → In row rows
    → row.id ≡ id
    → row.organization_id ≡ organization_id
    → find_employee organization_id id rows ≢ none
unfolding find_employee
find_employee_complete organization_id id [] row m e f h = elim m [ ]
find_employee_complete organization_id id (r ∷ rows) row m e f h =
    elim (Bool-cases (is_row organization_id id r)) [
      | inl hit ↦ cc (rw hit at h)
      | inr miss ↦ elim m [
        | inl here ↦ Bool-clash miss (
            subst (λ x. is_row organization_id id x ≡ true) here
              ((is_row_iff organization_id id row).1 (e, f)))
        | inr later ↦ find_employee_complete organization_id id rows row later e f (rw miss at h)
      ]
    ]
