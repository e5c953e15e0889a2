-- ===== src/Employees/Moves.antt =====
-- apps/api/src/services/employee.ts: a change of one row, or a new row, puts no flag out of step but those
-- of the managers on either end of the edges that moved.
use policy_assignment_system.Prelude.{
  String, ◌≡◌, ◌≢◌, refl, sym, ap, ◌∙◌, subst, ◌⊎◌, ◌↔◌, inl, inr, true, false, ◌&&◌, Bool-cases,
  Option, none, some, List, [], ◌∷◌, ◌++◌, map, ltb, In, In-of_map, In-snoc_cases, arith, str_eq,
  eq_iff, includes, includes_iff, if◌then◌else◌,
}
use policy_assignment_system.Employees.{
  Employee, is_row, find_employee, reports_to, counts_for, count_direct_reports,
}
use policy_assignment_system.Employees.Requests.{update_employee}
use policy_assignment_system.Employees.Flags.{
  FlagIsRight, IsConsistent, IsConsistentBut, count-map, keyed-map, is_row_iff, find_employee_sound,
}

-- Whether an employee is one of those listed, in the organization.
listed_or_not :
    (organization_id o id : String) (ids : List String)
    → ((o ≡ organization_id) × In id ids) ⊎ (¬ ((o ≡ organization_id) × In id ids))
listed_or_not organization_id o id ids =
    elim (Bool-cases (str_eq o organization_id && includes ids id)) [
      | inl yes_listed ↦ inl (both yes_listed)
      | inr unlisted ↦ inr (λ (e, m). neither unlisted e m)
    ]
  where
    both : (str_eq o organization_id && includes ids id) ≡ true → (o ≡ organization_id) × In id ids
    both h = ground (arith, eq_iff o organization_id, includes_iff ids id)

    neither :
        (str_eq o organization_id && includes ids id) ≡ false → o ≡ organization_id → In id ids → ⊥
    neither h e m = ground (arith, eq_iff o organization_id, includes_iff ids id)

module _ (organization_id id : String) (rows : List Employee) (ok : IsConsistent rows)
    (before : Employee) (found : find_employee organization_id id rows ≡ some before)
    (change : Employee → Employee) (same_id : (row : Employee) → (change row).id ≡ row.id)
    (same_org : (row : Employee) → (change row).organization_id ≡ row.organization_id)
    (same_flag : (change before).is_manager ≡ before.is_manager) (ids : List String)
    (same_edges : (m : String)
      → ¬ In m ids
      → counts_for organization_id m (change before) ≡ counts_for organization_id m before) where
  changed : Employee → Employee
  changed row = if is_row organization_id id row then change row else row

  -- In the table, the row that is changed is the one that was found.
  changed-cases :
      (row : Employee)
      → In row rows
      → ((row ≡ before) × (changed row ≡ change before)) ⊎ (changed row ≡ row)
  unfolding changed
  changed-cases row m = elim (Bool-cases (is_row organization_id id row)) [
    | inr miss ↦ rw miss (inr refl)
    | inl hit ↦
        let (n, e, _) = find_employee_sound organization_id id rows found in
        let same =
          ok.keyed row before m n (((is_row_iff organization_id id row).0 hit).0 ∙ sym e) in
        inl (same, (rw hit refl) ∙ ap change same)
  ]

  changed-id : (row : Employee) → (changed row).id ≡ row.id
  unfolding changed
  changed-id row = elim (Bool-cases (is_row organization_id id row)) [
    | inl hit ↦ rw hit (same_id row)
    | inr miss ↦ rw miss refl
  ]

  change-counts :
      (o m : String)
      → ¬ ((o ≡ organization_id) × In m ids)
      → counts_for o m (change before) ≡ counts_for o m before
  change-counts o m unlisted = elim (Bool-cases (str_eq before.organization_id o)) [
    | inr elsewhere ↦ rw (same_org before, elsewhere) refl
    | inl here ↦
        let (_, _, home) = find_employee_sound organization_id id rows found in
        let e = sym ((eq_iff before.organization_id o).0 here) ∙ home in
        subst (λ x. counts_for x m (change before) ≡ counts_for x m before) (sym e)
          (same_edges m (λ n. unlisted (e, n)))
  ]

  changed-count :
      (o m : String)
      → ¬ ((o ≡ organization_id) × In m ids)
      → count_direct_reports o m (map changed rows) ≡ count_direct_reports o m rows
  changed-count o m unlisted = count-map changed o m rows (λ row n. elim (changed-cases row n) [
    | inl (e, f) ↦
        ap (counts_for o m) f ∙ (change-counts o m unlisted ∙ sym (ap (counts_for o m) e))
    | inr f ↦ ap (counts_for o m) f
  ])

  abbrev Settled : Employee → Type 0
  Settled row =
      ((row.organization_id ≡ organization_id) × In row.id ids) ⊎ FlagIsRight (map changed rows) row

  -- A flag that was right and is not listed is right still.
  still_right :
      (row old : Employee)
      → FlagIsRight rows old
      → row.id ≡ old.id
      → row.organization_id ≡ old.organization_id
      → row.is_manager ≡ old.is_manager
      → Settled row
  still_right row old right e f g =
      elim (listed_or_not organization_id row.organization_id row.id ids) [
        | inl listed ↦ inl listed
        | inr unlisted ↦ inr (
            g
            ∙ (right
                ∙ sym (
                    ap (ltb 0) (
                      changed-count row.organization_id row.id unlisted
                      ∙ (ap (λ o. count_direct_reports o row.id rows) f
                          ∙ ap (λ m. count_direct_reports old.organization_id m rows) e)))))
      ]

  changed-Settled : (old : Employee) → In old rows → Settled (changed old)
  changed-Settled old n = elim (changed-cases old n) [
    | inr f ↦ subst Settled (sym f) (still_right old old (ok.flags old n) refl refl refl)
    | inl (e, f) ↦ subst Settled (sym f) (
        still_right (change before) before (subst (FlagIsRight rows) e (ok.flags old n))
          (same_id before) (same_org before) same_flag)
  ]

  pub changed-IsConsistentBut :
      IsConsistentBut organization_id ids (update_employee organization_id id change rows)
  unfolding changed
  changed-IsConsistentBut = record {
    keyed = keyed-map changed rows changed-id ok.keyed;
    flags = λ row m.
        let (old, n, e) = In-of_map changed rows m in subst Settled (sym e) (changed-Settled old n);
  }

-- A new row with a new id, to which nobody reports yet.
module _ (organization_id : String) (rows : List Employee) (ok : IsConsistent rows) (row : Employee)
    (home : row.organization_id ≡ organization_id) (no_manager : row.is_manager ≡ false)
    (fresh : (r : Employee) → In r rows → (r.id ≢ row.id) × (r.manager_id ≢ some row.id))
    (not_self : row.manager_id ≢ some row.id) (ids : List String)
    (listed : (m : String) → row.manager_id ≡ some m → In m ids) where
  reports_to_iff :
      (manager : Option String) (m : String) → (reports_to manager m ≡ true) ↔ (manager ≡ some m)
  reports_to_iff none m = ground arith
  reports_to_iff (some s) m = ground (arith, eq_iff s m)

  counts-unlisted :
      (o m : String) → ¬ ((o ≡ organization_id) × In m ids) → counts_for o m row ≡ false
  counts-unlisted o m unlisted = elim (Bool-cases (counts_for o m row)) [
    | inr no_count ↦ no_count
    | inl counted ↦ let (e, f) = parts counted in absurd (unlisted (sym e ∙ home, listed m f))
  ]
    where
      parts : counts_for o m row ≡ true → (row.organization_id ≡ o) × (row.manager_id ≡ some m)
      parts h = ground (arith, eq_iff row.organization_id o, reports_to_iff row.manager_id m)

  count-snoc :
      (o m : String) (xs : List Employee)
      → counts_for o m row ≡ false
      → count_direct_reports o m (xs ++ row ∷ []) ≡ count_direct_reports o m xs
  count-snoc o m [] h = rw h refl
  count-snoc o m (x ∷ xs) h = elim (Bool-cases (counts_for o m x)) [
    | inl kept ↦ rw (kept, count-snoc o m xs h) refl
    | inr lost ↦ rw lost (count-snoc o m xs h)
  ]

  count-nobody :
      (o m : String) (xs : List Employee)
      → ((r : Employee) → In r xs → r.manager_id ≢ some m)
      → count_direct_reports o m xs ≡ 0
  count-nobody o m [] h = refl
  count-nobody o m (x ∷ xs) h = elim (Bool-cases (counts_for o m x)) [
    | inl kept ↦ absurd (h x (inl refl) (edge x kept))
    | inr lost ↦ rw lost (count-nobody o m xs (λ r n. h r (inr n)))
  ]
    where
      edge : (x : Employee) → counts_for o m x ≡ true → x.manager_id ≡ some m
      edge x h = ground (arith, reports_to_iff x.manager_id m)

  pub created-IsConsistentBut : IsConsistentBut organization_id ids (rows ++ row ∷ [])
  created-IsConsistentBut = record {
    keyed = λ r s m n e. one_row r s (In-snoc_cases r row rows m) (In-snoc_cases s row rows n) e;
    flags = λ r m. elim (In-snoc_cases r row rows m) [
      | inl old ↦ elim (listed_or_not organization_id r.organization_id r.id ids) [
        | inl inside ↦ inl inside
        | inr unlisted ↦ inr (
            ok.flags r old
            ∙ sym (
                ap (ltb 0) (
                  count-snoc r.organization_id r.id rows
                    (counts-unlisted r.organization_id r.id unlisted))))
      ]
      | inr e ↦ inr (
          subst (FlagIsRight (rows ++ row ∷ [])) (sym e) (
            no_manager
            ∙ sym (ap (ltb 0) (count-nobody row.organization_id row.id (rows ++ row ∷ []) nobody))))
    ];
  }
    where
      one_row :
          (r s : Employee) → In r rows ⊎ (r ≡ row) → In s rows ⊎ (s ≡ row) → r.id ≡ s.id → r ≡ s
      one_row r s (inl m) (inl n) e = ok.keyed r s m n e
      one_row r s (inl m) (inr f) e = absurd ((fresh r m).0 (e ∙ ap (λ x. x.id) f))
      one_row r s (inr f) (inl n) e = absurd ((fresh s n).0 (sym e ∙ ap (λ x. x.id) f))
      one_row r s (inr f) (inr g) e = f ∙ sym g

      nobody : (r : Employee) → In r (rows ++ row ∷ []) → r.manager_id ≢ some row.id
      nobody r m = elim (In-snoc_cases r row rows m) [
        | inl old ↦ (fresh r old).1
        | inr e ↦ λ h. not_self (sym (ap (λ x. x.manager_id) e) ∙ h)
      ]
