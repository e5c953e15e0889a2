-- ===== src/Employees/Chart/Cycles.antt =====
-- A report who is given a manager from outside their own subtree closes no cycle.
use policy_assignment_system.Prelude.{
  ℕ, ◌+◌, ◌<◌, String, ◌≡◌, ◌≢◌, refl, subst, ◌⊎◌, ◌↔◌, inl, inr, Bool, true, false, Bool-clash,
  some, List, arith, if◌then◌else◌,
}
use policy_assignment_system.Employees.{Employee, find_employee}
use policy_assignment_system.Employees.Chart.{is_in_subtree}
use policy_assignment_system.Employees.Chart.Laws.{
  Reports, IsBelow, direct, further, HasLevels, is_in_subtree_iff,
}

-- The chart after one employee was given a manager: every edge is the new one, or was there.
abbrev pub IsReassigned : String → List Employee → String → String → List Employee → Type 0
IsReassigned organization_id rows employee manager next =
    (row : Employee) (top : String)
    → Reports organization_id next row top
    → ((row.id ≡ employee) × (top ≡ manager))
      ⊎ ((old : Employee) × Reports organization_id rows old top
          × (old.id ≡ row.id)
          × (row.id ≢ employee))

module _ (organization_id : String) (rows : List Employee) (level : String → ℕ)
    (levels : HasLevels organization_id rows level) (id manager : String) (employee : Employee)
    (found : find_employee organization_id id rows ≡ some employee)
    (outside : is_in_subtree organization_id id manager rows ≡ false) where
  is_inside : String → Bool
  is_inside x = is_in_subtree organization_id id x rows

  -- The subtree moves below all that was there.
  new_level : String → ℕ
  unfolding is_inside
  new_level x = if is_inside x then level x + 64 else level x

  inside_iff : (x : String) → (is_inside x ≡ true) ↔ ((x ≡ id) ⊎ IsBelow organization_id rows id x)
  unfolding is_inside
  inside_iff x = is_in_subtree_iff organization_id rows levels id x employee found

  inside_descends :
      (row : Employee) (top : String)
      → Reports organization_id rows row top
      → is_inside top ≡ true
      → is_inside row.id ≡ true
  inside_descends row top r h = (inside_iff row.id).1 (elim ((inside_iff top).0 h) [
    | inl same ↦ inr (direct row (subst (Reports organization_id rows row) same r))
    | inr below ↦ inr (further row below r)
  ])

  old_edge-lower :
      (row : Employee) (top : String)
      → Reports organization_id rows row top
      → new_level top < new_level row.id
  unfolding new_level
  old_edge-lower row top r =
      by_cases (is_inside top) (is_inside row.id) refl refl (levels.lower row top r)
    where
      by_cases :
          (a b : Bool)
          → is_inside top ≡ a
          → is_inside row.id ≡ b
          → level top < level row.id
          → new_level top < new_level row.id
      by_cases true true e f lower = rw (e, f) (omega (arith, lower))
      by_cases true false e f lower = absurd (Bool-clash f (inside_descends row top r e))
      by_cases false true e f lower = rw (e, f) (omega (arith, lower))
      by_cases false false e f lower = rw (e, f) lower

  new_edge-lower : new_level manager < new_level id
  unfolding new_level is_inside
  new_edge-lower = rw (outside, (inside_iff id).1 (inl refl)) (omega (arith, levels.few manager))

  module _ {next : List Employee}
      (reassigned : IsReassigned organization_id rows id manager next) where
    edge-lower :
        (row : Employee) (top : String)
        → Reports organization_id next row top
        → new_level top < new_level row.id
    edge-lower row top r = elim (reassigned row top r) [
      | inl (e, f) ↦ rw (e, f) new_edge-lower
      | inr (old, s, e, _) ↦ subst (λ x. new_level top < new_level x) e (old_edge-lower old top s)
    ]

    below-lower :
        (top low : String) → IsBelow organization_id next top low → new_level top < new_level low
    below-lower top _ (direct row r) = edge-lower row top r
    below-lower top _ (further row above r) =
        omega (arith, below-lower top _ above, edge-lower row _ r)

    -- In a chart of at most 64 levels, a manager whom the check finds outside of the employee's
    -- subtree can be given to that employee, and nobody is then below themselves.
    pub reassigned-acyclic : (x : String) → ¬ IsBelow organization_id next x x
    reassigned-acyclic x below = omega (arith, below-lower x x below)
