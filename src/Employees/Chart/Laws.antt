-- ===== src/Employees/Chart/Laws.antt =====
-- The walk finds whoever is below a root, in a chart of at most 64 levels, and nobody else.
use policy_assignment_system.Prelude.{
  ℕ, zero, suc, ◌+◌, ◌≤◌, ◌<◌, String, ◌≡◌, refl, sym, ap, ◌∙◌, subst, ◌⊎◌, ◌↔◌, inl, inr, true,
  Bool-cases, Option, none, some, List, [], ◌∷◌, In, In-keep, In-of_keep, In-map, In-of_map,
  In-flat_map, In-of_flat_map, includes, includes_iff, arith, str_eq, eq_iff,
}
use policy_assignment_system.Employees.{Employee, is_report, find_employee}
use policy_assignment_system.Employees.Chart.{report_ids, walk, find_subtree_ids, is_in_subtree}

-- One edge of the chart: who reports to whom, in an organization.
pub record Reports (organization_id : String) (rows : List Employee) (row : Employee)
    (manager : String) : Type 0 where
  pub listed : In row rows
  pub organization : row.organization_id ≡ organization_id
  pub edge : row.manager_id ≡ some manager

-- `IsBelow top id`: a chain of one or more edges leads from `id` up to `top`.
pub data IsBelow (organization_id : String) (rows : List Employee) : String → String → Type 0 where
  direct :
      {top : String} (row : Employee)
      → Reports organization_id rows row top
      → IsBelow organization_id rows top row.id
  further :
      {top middle : String} (row : Employee)
      → IsBelow organization_id rows top middle
      → Reports organization_id rows row middle
      → IsBelow organization_id rows top row.id

-- A numbering of the levels: a report stands lower than its manager, and there are at most 64 levels.
pub record HasLevels (organization_id : String) (rows : List Employee) (level : String → ℕ)
    : Type 0 where
  pub lower :
      (row : Employee) (manager : String)
      → Reports organization_id rows row manager
      → level manager < level row.id
  pub few : (id : String) → level id < 64

module _ (organization_id : String) (rows : List Employee) where
  is_report_iff :
      (manager : String) (row : Employee)
      → (is_report organization_id manager row ≡ true)
        ↔ ((row.organization_id ≡ organization_id) × (row.manager_id ≡ some manager))
  is_report_iff manager row = by_manager row.manager_id refl
    where
      by_manager :
          (found : Option String)
          → row.manager_id ≡ found
          → (is_report organization_id manager row ≡ true)
            ↔ ((row.organization_id ≡ organization_id) × (row.manager_id ≡ some manager))
      by_manager none e = rw e (ground (arith, eq_iff row.organization_id organization_id))
      by_manager (some other) e =
          rw e (ground (arith, eq_iff row.organization_id organization_id, eq_iff other manager))

  In-report_ids :
      (row : Employee) (manager : String)
      → Reports organization_id rows row manager
      → In row.id (report_ids organization_id rows manager)
  In-report_ids row manager r =
      In-map (λ x. x.id) row _
        (In-keep _ rows r.listed ((is_report_iff manager row).1 (r.organization, r.edge)))

  In-of_report_ids :
      (id manager : String)
      → In id (report_ids organization_id rows manager)
      → (row : Employee) × Reports organization_id rows row manager × (id ≡ row.id)
  In-of_report_ids id manager m =
      let (row, n, e) = In-of_map (λ x. x.id) _ m in
      let (k, h) = In-of_keep _ rows n in
      let (o, f) = (is_report_iff manager row).0 h in
      (row, record { listed = k; organization = o; edge = f }, e)

  -- What a walk finds is its root, or below it.
  walk_sound :
      (left : ℕ) (path : List String) (root id : String)
      → In id (walk organization_id rows left path root)
      → (id ≡ root) ⊎ IsBelow organization_id rows root id
  unfolding walk
  walk_sound zero path root id (inl e) = inl e
  walk_sound zero path root id (inr m) = elim m [ ]
  walk_sound (suc left) path root id (inl e) = inl e
  walk_sound (suc left) path root id (inr m) =
      let (child, n, k) = In-of_flat_map _ id (report_ids organization_id rows root) m in
      let (row, r, e) = In-of_report_ids child root n in
      elim (Bool-cases (includes path child)) [
        | inl visited ↦ elim (rw visited at k) [ ]
        | inr new ↦ elim (walk_sound left (child ∷ path) child id (rw new at k)) [
          | inl same ↦
              inr (subst (IsBelow organization_id rows root) (sym (same ∙ e)) (direct row r))
          | inr lower ↦ inr (
              chain root child id (subst (IsBelow organization_id rows root) (sym e) (direct row r))
                lower)
        ]
      ]
    where
      chain :
          (top middle low : String)
          → IsBelow organization_id rows top middle
          → IsBelow organization_id rows middle low
          → IsBelow organization_id rows top low
      chain top middle _ a (direct row r) = further row a r
      chain top middle _ a (further row b r) = further row (chain top middle _ a b) r

  In-walk_root :
      (left : ℕ) (path : List String) (root : String)
      → In root (walk organization_id rows left path root)
  unfolding walk
  In-walk_root zero path root = inl refl
  In-walk_root (suc left) path root = inl refl

  module _ {level : String → ℕ} (levels : HasLevels organization_id rows level) where
    -- Who reports to somebody whom a walk found is found too, or was visited before the walk began.
    walk_closed :
        (left : ℕ) (path : List String) (root found : String) (row : Employee)
        → 63 ≤ level root + left
        → In found (walk organization_id rows left path root)
        → Reports organization_id rows row found
        → In row.id (walk organization_id rows left path root) ⊎ In row.id path
    unfolding walk
    walk_closed zero path root found row deep (inl e) r =
        absurd (too_low (levels.lower row found r) (ap level e) (levels.few row.id))
      where
        too_low : level found < level row.id → level found ≡ level root → level row.id < 64 → ⊥
        too_low a b c = omega (arith, a, b, c, deep)
    walk_closed zero path root found row deep (inr m) r = elim m [ ]
    walk_closed (suc left) path root found row deep (inl e) r =
        elim (Bool-cases (includes path row.id)) [
          | inl visited ↦ inr ((includes_iff path row.id).0 visited)
          | inr new ↦ inl (
              inr (
                In-flat_map _ row.id row.id _ (In-report_ids row root (rw e at r))
                  (rw new (In-walk_root left (row.id ∷ path) row.id))))
        ]
    walk_closed (suc left) path root found row deep (inr m) r =
        let (child, n, k) = In-of_flat_map _ found (report_ids organization_id rows root) m in
        let (middle, edge, e) = In-of_report_ids child root n in
        let lower = subst (λ x. level root < level x) (sym e) (levels.lower middle root edge) in
        elim (Bool-cases (includes path child)) [
          | inl visited ↦ elim (rw visited at k) [ ]
          | inr new ↦
              elim (walk_closed left (child ∷ path) child found row (omega (arith, deep, lower))
                (rw new at k) r) [
                  | inl below ↦ inl (inr (In-flat_map _ row.id child _ n (rw new below)))
                  | inr (inl same) ↦ inl (
                      inr (
                        In-flat_map _ row.id child _ n
                          (rw (new, same) (In-walk_root left (child ∷ path) child))))
                  | inr (inr visited) ↦ inr visited
                ]
        ]

    walk_descends :
        (root found : String) (row : Employee)
        → In found (walk organization_id rows 63 (root ∷ []) root)
        → Reports organization_id rows row found
        → In row.id (walk organization_id rows 63 (root ∷ []) root)
    walk_descends root found row m r =
        elim (walk_closed 63 (root ∷ []) root found row (omega arith) m r) [
          | inl here ↦ here
          | inr (inl same) ↦
              subst (λ x. In x (walk organization_id rows 63 (root ∷ []) root)) (sym same)
                (In-walk_root 63 (root ∷ []) root)
          | inr (inr nowhere) ↦ elim nowhere [ ]
        ]

    walk_complete :
        (root id : String)
        → IsBelow organization_id rows root id
        → In id (walk organization_id rows 63 (root ∷ []) root)
    walk_complete root _ (direct row r) =
        walk_descends root root row (In-walk_root 63 (root ∷ []) root) r
    walk_complete root _ (further row above r) =
        walk_descends root _ row (walk_complete root _ above) r

    -- In a chart of at most 64 levels, and for a root that is in the organization, the check answers
    -- exactly whether the candidate is the root, or below it.
    pub is_in_subtree_iff :
        (root candidate : String) (employee : Employee)
        → find_employee organization_id root rows ≡ some employee
        → (is_in_subtree organization_id root candidate rows ≡ true)
          ↔ ((candidate ≡ root) ⊎ IsBelow organization_id rows root candidate)
    unfolding is_in_subtree find_subtree_ids
    is_in_subtree_iff root candidate employee found = (to, from)
      where
        found_ids :
            find_subtree_ids organization_id root rows
            ≡ walk organization_id rows 63 (root ∷ []) root
        found_ids = rw (find_subtree_ids, found) refl

        to :
            is_in_subtree organization_id root candidate rows ≡ true
            → (candidate ≡ root) ⊎ IsBelow organization_id rows root candidate
        to h = elim (Bool-cases (str_eq root candidate)) [
          | inl same ↦ inl (sym ((eq_iff root candidate).0 same))
          | inr other ↦ walk_sound 63 (root ∷ []) root candidate (
              subst (In candidate) found_ids (
                (includes_iff (find_subtree_ids organization_id root rows) candidate).0
                  (rw other at h)))
        ]

        from :
            (candidate ≡ root) ⊎ IsBelow organization_id rows root candidate
            → is_in_subtree organization_id root candidate rows ≡ true
        from (inl same) = rw ((eq_iff root candidate).1 (sym same)) refl
        from (inr below) = elim (Bool-cases (str_eq root candidate)) [
          | inl same ↦ rw same refl
          | inr other ↦ rw other (
              (includes_iff (find_subtree_ids organization_id root rows) candidate).1
                (subst (In candidate) (sym found_ids) (walk_complete root candidate below)))
        ]
