-- ===== src/Reconcile/Current.antt =====
-- After a run the assignments in force are those that the engine wants, and a second run changes
-- nothing.
use policy_assignment_system.Prelude.{
  String, ◌≡◌, ◌≢◌, refl, sym, ap, ◌∙◌, subst, inl, inr, true, not, Bool-cases, Option, none, List,
  [], In, In-map, In-of_map, In-keep, In-of_keep, includes_iff, keep, keep-nil, map, arith,
}
use policy_assignment_system.Dates.{Date}
use policy_assignment_system.Engine.{ResolvedPolicy}
use policy_assignment_system.Assignments.{Assignment, effective_on, find_for_employee_as_of}
use policy_assignment_system.Assignments.Laws.{
  IsCurrent, find_for_employee_as_of_iff, ended, ended-out_of_force,
}
use policy_assignment_system.Reconcile.{
  Store, assignment_key, current_key, is_desired, is_held, close_all,
}
use policy_assignment_system.Reconcile.Writes.{
  inserted_all, Named, close_all-keeps, close_all-from, IsRowFor, inserted_all-keeps,
  inserted_all-makes, inserted_all-from,
}

-- The id is the table's key.
abbrev pub Keyed : List Assignment → Type 0
Keyed rows = (a b : Assignment) → In a rows → In b rows → a.id ≡ b.id → a ≡ b

-- Some row in force for the employee on the day has the key.
abbrev pub HasKey : String → String → Date → List Assignment → String → Type 0
HasKey organization_id employee_id as_of rows key =
    (row : Assignment) × In row rows
    × IsCurrent organization_id employee_id as_of row
    × (key ≡ current_key row)

module _ (new_id : List Assignment → String) (organization_id : String) (actor_id : Option String)
    (employee_id : String) (winners : List ResolvedPolicy) (as_of : Date) where
  abbrev pub current : List Assignment → List Assignment
  current rows = find_for_employee_as_of organization_id employee_id as_of rows

  abbrev pub to_remove : List Assignment → List Assignment
  to_remove rows = keep (λ row. not (is_desired winners row)) (current rows)

  abbrev pub to_create : List Assignment → List ResolvedPolicy
  to_create rows = keep (λ winner. not (is_held (current rows) winner)) winners

  abbrev pub closed : Store → Store
  closed store =
      close_all organization_id actor_id employee_id as_of (to_remove store.assignments) store

  abbrev pub written : Store → Store × List Assignment
  written store =
      inserted_all organization_id actor_id employee_id as_of new_id (to_create store.assignments)
        (closed store)

  IsCurrent-of_row :
      (winner : ResolvedPolicy) (row : Assignment)
      → IsRowFor organization_id actor_id employee_id as_of new_id winner row
      → IsCurrent organization_id employee_id as_of row
  unfolding effective_on
  IsCurrent-of_row winner row made = record {
    organization = made.organization;
    employee = made.employee;
    in_force = in_force made.start made.open_ended;
  }
    where
      in_force :
          row.effective_from ≡ as_of → row.effective_to ≡ none → effective_on as_of row ≡ true
      in_force s o = rw (s, o) (ground arith)

  pub desired_of_current :
      (rows : List Assignment) (row : Assignment)
      → In row rows
      → IsCurrent organization_id employee_id as_of row
      → ¬ Named organization_id (to_remove rows) row
      → In (current_key row) (map assignment_key winners)
  desired_of_current rows row m c unnamed = elim (Bool-cases (is_desired winners row)) [
    | inl wanted ↦ (includes_iff (map assignment_key winners) (current_key row)).0 wanted
    | inr unwanted ↦ absurd (
        unnamed (
          row,
          In-keep (λ r. not (is_desired winners r)) (current rows)
              ((find_for_employee_as_of_iff organization_id employee_id as_of rows row).1 (m, c))
              (ap not unwanted),
          refl,
          c.organization,
        ))
  ]

  pub written-wanted :
      (store : Store) (key : String)
      → HasKey organization_id employee_id as_of (written store).0.assignments key
      → In key (map assignment_key winners)
  written-wanted store key (row, m, c, e) =
      elim (inserted_all-from organization_id actor_id employee_id as_of new_id row
        (to_create store.assignments) (closed store) m) [
          | inr (w, n, made) ↦
              subst (λ k. In k (map assignment_key winners)) (sym (e ∙ made.key))
                (In-map assignment_key w winners (In-of_keep _ winners n).0)
          | inl n ↦
              elim (close_all-from organization_id actor_id employee_id as_of row
                (to_remove store.assignments) store n) [
                  | inl (k, unnamed) ↦
                      subst (λ k. In k (map assignment_key winners)) (sym e)
                        (desired_of_current store.assignments row k c unnamed)
                  | inr (old, _, f) ↦ absurd (gone old (ap (effective_on as_of) f) c.in_force)
                ]
        ]
    where
      gone :
          (old : Assignment)
          → effective_on as_of row ≡ effective_on as_of (ended as_of old)
          → effective_on as_of row ≡ true
          → ⊥
      gone old f h = let out = ended-out_of_force as_of old in cc (f, h, out)

  stays :
      (store : Store)
      → Keyed store.assignments
      → (row : Assignment) → In row (current store.assignments)
      → is_desired winners row ≡ true
      → In row (closed store).assignments
  stays store keyed row m wanted =
      close_all-keeps organization_id actor_id employee_id as_of row (to_remove store.assignments)
        store apart (there row m)
    where
      there : (r : Assignment) → In r (current store.assignments) → In r store.assignments
      there r n =
          ((find_for_employee_as_of_iff organization_id employee_id as_of store.assignments r).0
            n).0

      apart : (r : Assignment) → In r (to_remove store.assignments) → row.id ≢ r.id
      apart r n same =
          let (k, unwanted) = In-of_keep _ (current store.assignments) n in
          let f = ap (is_desired winners) (keyed row r (there row m) (there r k) same) in
          ground (arith, f)

  pub written_complete :
      (store : Store)
      → Keyed store.assignments
      → (key : String) → In key (map assignment_key winners)
      → HasKey organization_id employee_id as_of (written store).0.assignments key
  written_complete store keyed key m =
      let (w, n, e) = In-of_map assignment_key winners m in
      elim (Bool-cases (is_held (current store.assignments) w)) [
        | inl held ↦
            let k = (includes_iff _ (assignment_key w)).0 held in
            let (row, i, f) = In-of_map current_key (current store.assignments) k in
            let wanted =
              (includes_iff (map assignment_key winners) (current_key row)).1
                (subst (λ x. In x (map assignment_key winners)) (e ∙ f) m) in
            (
              row,
              inserted_all-keeps organization_id actor_id employee_id as_of new_id row
                  (to_create store.assignments) (closed store) (stays store keyed row i wanted),
              ((find_for_employee_as_of_iff organization_id employee_id as_of store.assignments
                    row).0
                  i).1,
              e ∙ f,
            )
        | inr missing ↦
            let (row, i, made) =
              inserted_all-makes organization_id actor_id employee_id as_of new_id w
                (to_create store.assignments) (closed store)
                (In-keep _ winners n (ap not missing)) in
            (row, i, IsCurrent-of_row w row made, e ∙ sym made.key)
      ]

  -- Where the table agrees with the engine there is nothing to do.
  pub settled-to_remove :
      (rows : List Assignment)
      → ((key : String)
          → HasKey organization_id employee_id as_of rows key
          → In key (map assignment_key winners))
      → to_remove rows ≡ []
  settled-to_remove rows h = keep-nil _ (current rows) (λ row m.
      let (n, c) = (find_for_employee_as_of_iff organization_id employee_id as_of rows row).0 m in
      ap not (
        (includes_iff (map assignment_key winners) (current_key row)).1
          (h (current_key row) (row, n, c, refl))))

  pub settled-to_create :
      (rows : List Assignment)
      → ((key : String)
          → In key (map assignment_key winners)
          → HasKey organization_id employee_id as_of rows key)
      → to_create rows ≡ []
  settled-to_create rows h = keep-nil _ winners (λ w m.
      let (row, n, c, e) = h (assignment_key w) (In-map assignment_key w winners m) in
      ap not (
        (includes_iff (map current_key (current rows)) (assignment_key w)).1 (
          subst (λ x. In x (map current_key (current rows))) (sym e)
            (In-map current_key row (current rows) (
              (find_for_employee_as_of_iff organization_id employee_id as_of rows row).1 (n, c))))))
