-- ===== src/Reconcile/Writes.antt =====
-- What the two loops of a run write to the table.
use policy_assignment_system.Prelude.{
  String, ◌≡◌, ◌≢◌, refl, sym, ap, ◌∙◌, subst, ◌⊎◌, inl, inr, Option, none, List, [], ◌∷◌, ◌++◌, In,
  In-append_left, In-append_right, In-append_cases,
}
use policy_assignment_system.Dates.{Date}
use policy_assignment_system.Engine.{ResolvedPolicy}
use policy_assignment_system.Assignments.{Assignment, close, end_row}
use policy_assignment_system.Assignments.Laws.{
  ended, end_row-miss, end_row-cases, In-close, In-of_close,
}
use policy_assignment_system.Reconcile.{
  Store, close_one, close_all, row_for, inserted_one, assignment_key, current_key,
}

-- A row that a list of removed rows names by its id.
abbrev pub Named : String → List Assignment → Assignment → Type 0
Named organization_id removed row =
    (r : Assignment) × In r removed × (row.id ≡ r.id) × (row.organization_id ≡ organization_id)

module _ (organization_id : String) (actor_id : Option String) (employee_id : String)
    (as_of : Date) where
  abbrev closing : List Assignment → Store → List Assignment
  closing removed store =
      (close_all organization_id actor_id employee_id as_of removed store).assignments

  close_one-assignments :
      (r : Assignment) (store : Store)
      → (close_one organization_id actor_id employee_id as_of r store).assignments
        ≡ close organization_id r.id as_of store.assignments
  unfolding close_one
  close_one-assignments r store = refl

  -- A row that no removed row names stays as it was.
  pub close_all-keeps :
      (row : Assignment) (removed : List Assignment) (store : Store)
      → ((r : Assignment) → In r removed → row.id ≢ r.id)
      → In row store.assignments
      → In row (closing removed store)
  unfolding close_all
  close_all-keeps row [] store h m = m
  close_all-keeps row (r ∷ removed) store h m =
      close_all-keeps row removed _ (λ s n. h s (inr n))
        (rw (close_one-assignments r store) (
          subst (λ x. In x (close organization_id r.id as_of store.assignments))
            (end_row-miss organization_id r.id as_of row (h r (inl refl)))
            (In-close organization_id r.id as_of row store.assignments m)))

  -- An ended row stays ended, whatever else is closed.
  close_all-ended :
      (row : Assignment) (removed : List Assignment) (store : Store)
      → In (ended as_of row) store.assignments
      → In (ended as_of row) (closing removed store)
  unfolding close_all
  close_all-ended row [] store m = m
  close_all-ended row (r ∷ removed) store m = close_all-ended row removed _ (
      rw (close_one-assignments r store) (
        subst (λ x. In x (close organization_id r.id as_of store.assignments)) (still r)
          (In-close organization_id r.id as_of (ended as_of row) store.assignments m)))
    where
      still :
          (r : Assignment) → end_row organization_id r.id as_of (ended as_of row) ≡ ended as_of row
      still r = elim (end_row-cases organization_id r.id as_of (ended as_of row)) [
        | inl e ↦ e
        | inr (e, _) ↦ e
      ]

  -- A row that a removed row names is there with its end.
  pub close_all-ends :
      (row : Assignment) (removed : List Assignment) (store : Store)
      → Named organization_id removed row
      → In row store.assignments
      → In (ended as_of row) (closing removed store)
  unfolding close_all
  close_all-ends row [] store (r, m, _, _) n = elim m [ ]
  close_all-ends row (x ∷ removed) store (r, m, same, mine) n =
      elim (end_row-cases organization_id x.id as_of row) [
        | inl e ↦ close_all-ended row removed _ (moved e)
        | inr (e, unlike) ↦ elim m [
          | inl f ↦ absurd (unlike (same ∙ ap (λ y. y.id) f, mine))
          | inr k ↦ close_all-ends row removed _ (r, k, same, mine) (moved e)
        ]
      ]
    where
      moved :
          {y : Assignment}
          → end_row organization_id x.id as_of row ≡ y
          → In y (close_one organization_id actor_id employee_id as_of x store).assignments
      moved e = rw (close_one-assignments x store) (
          subst (λ z. In z (close organization_id x.id as_of store.assignments)) e
            (In-close organization_id x.id as_of row store.assignments n))

  -- Each row after the closes was there before: as it is, and then no removed row names it, or
  -- without its end.
  pub close_all-from :
      (row : Assignment) (removed : List Assignment) (store : Store)
      → In row (closing removed store)
      → (In row store.assignments × ¬ Named organization_id removed row)
        ⊎ ((old : Assignment) × In old store.assignments × (row ≡ ended as_of old))
  unfolding close_all
  close_all-from row [] store m = inl (m, λ (r, n, _, _). elim n [ ])
  close_all-from row (x ∷ removed) store m = elim (close_all-from row removed _ m) [
    | inl (n, unnamed_later) ↦
        let (old, k, e) = earlier n in
        elim (end_row-cases organization_id x.id as_of old) [
          | inl f ↦ inr (old, k, e ∙ f)
          | inr (f, other) ↦ inl (
            subst (λ y. In y store.assignments) (sym (e ∙ f)) k,
            unnamed (sym (e ∙ f)) other unnamed_later,
          )
        ]
    | inr (mid, n, g) ↦
        let (old, k, e) = earlier n in
        elim (end_row-cases organization_id x.id as_of old) [
          | inl f ↦ inr (old, k, g ∙ ap (ended as_of) (e ∙ f))
          | inr (f, _) ↦ inr (old, k, g ∙ ap (ended as_of) (e ∙ f))
        ]
  ]
    where
      earlier :
          {y : Assignment}
          → In y (close_one organization_id actor_id employee_id as_of x store).assignments
          → (old : Assignment) × In old store.assignments
            × (y ≡ end_row organization_id x.id as_of old)
      earlier {y} n =
          In-of_close organization_id x.id as_of y store.assignments
            (rw (close_one-assignments x store) at n)

      unnamed :
          {old : Assignment}
          → old ≡ row
          → ¬ ((old.id ≡ x.id) × (old.organization_id ≡ organization_id))
          → ¬ Named organization_id removed row
          → ¬ Named organization_id (x ∷ removed) row
      unnamed e other later (r, inl f, same, mine) =
          other (ap (λ y. y.id) e ∙ same ∙ ap (λ y. y.id) f, ap (λ y. y.organization_id) e ∙ mine)
      unnamed e other later (r, inr n, same, mine) = later (r, n, same, mine)

  module _ (new_id : List Assignment → String) where
    -- A row made on the day for a winner.
    pub record IsRowFor (winner : ResolvedPolicy) (row : Assignment) : Type 0 where
      pub key : current_key row ≡ assignment_key winner
      pub organization : row.organization_id ≡ organization_id
      pub employee : row.employee_id ≡ employee_id
      pub start : row.effective_from ≡ as_of
      pub category : row.category_id ≡ winner.category_id
      pub cardinality : row.cardinality ≡ winner.cardinality
      pub open_ended : row.effective_to ≡ none

    -- The loop of the creates as it runs where the index refuses no row.
    unfoldable pub inserted_all : List ResolvedPolicy → Store → Store × List Assignment
    unfolding inserted_one row_for
    inserted_all [] store = (store, [])
    inserted_all (winner ∷ winners) store =
        let (after, created) =
          inserted_all winners
            (inserted_one organization_id actor_id employee_id as_of new_id winner store) in
        (
          after,
          row_for organization_id actor_id employee_id as_of new_id winner store.assignments
              ∷ created,
        )

    abbrev pub creating : List ResolvedPolicy → Store → List Assignment
    creating winners store = (inserted_all winners store).0.assignments

    row_for-IsRowFor :
        (winner : ResolvedPolicy) (rows : List Assignment)
        → IsRowFor winner (row_for organization_id actor_id employee_id as_of new_id winner rows)
    unfolding row_for
    row_for-IsRowFor winner rows = record {
      key = refl;
      organization = refl;
      employee = refl;
      start = refl;
      category = refl;
      cardinality = refl;
      open_ended = refl;
    }

    inserted_one-assignments :
        (winner : ResolvedPolicy) (store : Store)
        → (inserted_one organization_id actor_id employee_id as_of new_id winner store).assignments
          ≡ store.assignments
            ++ row_for organization_id actor_id employee_id as_of new_id winner store.assignments
              ∷ []
    unfolding inserted_one
    inserted_one-assignments winner store = refl

    pub inserted_all-keeps :
        (row : Assignment) (winners : List ResolvedPolicy) (store : Store)
        → In row store.assignments
        → In row (creating winners store)
    unfolding inserted_all
    inserted_all-keeps row [] store m = m
    inserted_all-keeps row (w ∷ winners) store m =
        inserted_all-keeps row winners _
          (rw (inserted_one-assignments w store) (In-append_left row store.assignments _ m))

    -- Each winner of the loop has a row.
    pub inserted_all-makes :
        (winner : ResolvedPolicy) (winners : List ResolvedPolicy) (store : Store)
        → In winner winners
        → (row : Assignment) × In row (creating winners store) × IsRowFor winner row
    unfolding inserted_all
    inserted_all-makes w [] store m = elim m [ ]
    inserted_all-makes w (v ∷ winners) store (inl e) =
        let row = row_for organization_id actor_id employee_id as_of new_id v store.assignments in
        (
          row,
          inserted_all-keeps row winners _ (
              rw (inserted_one-assignments v store)
                (In-append_right row store.assignments _ (inl refl))),
          subst (λ x. IsRowFor x row) (sym e) (row_for-IsRowFor v store.assignments),
        )
    inserted_all-makes w (v ∷ winners) store (inr m) = inserted_all-makes w winners _ m

    -- Each row after the loop was there before it, or is made for a winner of the loop.
    pub inserted_all-from :
        (row : Assignment) (winners : List ResolvedPolicy) (store : Store)
        → In row (creating winners store)
        → In row store.assignments
          ⊎ ((winner : ResolvedPolicy) × In winner winners × IsRowFor winner row)
    unfolding inserted_all
    inserted_all-from row [] store m = inl m
    inserted_all-from row (w ∷ winners) store m = elim (inserted_all-from row winners _ m) [
      | inr (v, n, made) ↦ inr (v, inr n, made)
      | inl n ↦
          elim (In-append_cases row store.assignments _
            (rw (inserted_one-assignments w store) at n)) [
              | inl old ↦ inl old
              | inr (inl e) ↦ inr (
                w,
                inl refl,
                subst (λ x. IsRowFor w x) (sym e) (row_for-IsRowFor w store.assignments),
              )
              | inr (inr none_left) ↦ elim none_left [ ]
            ]
    ]
