-- ===== src/Reconcile/Blocked.antt =====
-- What stands in the way of a winner whose row the unique index refuses.
use policy_assignment_system.Prelude.{
  String, ◌≡◌, refl, sym, ap, ◌∙◌, ◌⊎◌, inl, inr, true, false, Option, none, some, List, ◌∷◌, ◌++◌,
  In, In-of_any, eq_iff, str_eq, map, arith,
}
use policy_assignment_system.Dates.{Date}
use policy_assignment_system.Engine.{Cardinality, one_only, several, ResolvedPolicy}
use policy_assignment_system.Assignments.{Assignment}
use policy_assignment_system.Assignments.Laws.{IsCurrent}
use policy_assignment_system.Reconcile.{
  Store, row_for, is_exclusive, is_indexed, is_rival, is_refused, assignment_key, current_key,
}
use policy_assignment_system.Reconcile.Writes.{close_all-from, inserted_all-from, creating}
use policy_assignment_system.Reconcile.Current.{to_remove, to_create, closed, desired_of_current}
use policy_assignment_system.Reconcile.Refusals.{Stops}

-- An open row of a SINGLE category, which the index holds under the employee and the category.
pub record IsOpenSingle (organization_id employee_id category_id : String) (row : Assignment)
    : Type 0 where
  pub organization : row.organization_id ≡ organization_id
  pub employee : row.employee_id ≡ employee_id
  pub category : row.category_id ≡ category_id
  pub cardinality : row.cardinality ≡ one_only
  pub open_ended : row.effective_to ≡ none

is_indexed-facts :
    (row : Assignment)
    → is_indexed row ≡ true
    → (row.cardinality ≡ one_only) × (row.effective_to ≡ none)
unfolding is_indexed is_exclusive
is_indexed-facts row h = (single row.cardinality (first h), open_end row.effective_to (second h))
  where
    first : is_indexed row ≡ true → is_exclusive row.cardinality ≡ true
    first e = ground arith

    second : is_indexed row ≡ true → elim row.effective_to [ none ↦ true | some _ ↦ false ] ≡ true
    second e = ground arith

    single : (c : Cardinality) → is_exclusive c ≡ true → c ≡ one_only
    single one_only e = refl
    single several e = cc e

    open_end : (o : Option Date) → elim o [ none ↦ true | some _ ↦ false ] ≡ true → o ≡ none
    open_end none e = refl
    open_end (some _) e = cc e

is_rival-facts :
    (row other : Assignment)
    → is_rival row other ≡ true
    → (row.cardinality ≡ one_only)
      × IsOpenSingle row.organization_id row.employee_id row.category_id other
unfolding is_rival
is_rival-facts row other h =
    let (mine, its, o, e, c) = parts h in
    let (single, _) = is_indexed-facts row mine in
    let (cardinality, open_ended) = is_indexed-facts other its in
    (
      single,
      record {
        organization = sym ((eq_iff row.organization_id other.organization_id).0 o);
        employee = sym ((eq_iff row.employee_id other.employee_id).0 e);
        category = sym ((eq_iff row.category_id other.category_id).0 c);
        cardinality = cardinality;
        open_ended = open_ended;
      },
    )
  where
    parts :
        is_rival row other ≡ true
        → (is_indexed row ≡ true)
          × (is_indexed other ≡ true)
          × (str_eq row.organization_id other.organization_id ≡ true)
          × (str_eq row.employee_id other.employee_id ≡ true)
          × (str_eq row.category_id other.category_id ≡ true)
    parts k = (ground arith, ground arith, ground arith, ground arith, ground arith)

-- A winner of a SINGLE category without a row of its key, in front of which the run stops: an open
-- row of the category stands in the table that the run does not end, since it is not in force on
-- the day or is wanted, or an earlier winner to create is of the same SINGLE category.
pub record IsBlocked (organization_id employee_id : String) (as_of : Date)
    (winners to_create : List ResolvedPolicy) (table : List Assignment) : Type 0 where
  pub before : List ResolvedPolicy
  pub winner : ResolvedPolicy
  pub after : List ResolvedPolicy
  pub split : to_create ≡ before ++ winner ∷ after
  pub single : winner.cardinality ≡ one_only
  pub obstacle :
      ((row : Assignment) × In row table
        × IsOpenSingle organization_id employee_id winner.category_id row
        × (IsCurrent organization_id employee_id as_of row
            → In (current_key row) (map assignment_key winners)))
      ⊎ ((other : ResolvedPolicy) × In other before
          × (other.cardinality ≡ one_only)
          × (other.category_id ≡ winner.category_id))

module _ (new_id : List Assignment → String) (organization_id : String) (actor_id : Option String)
    (employee_id : String) (winners : List ResolvedPolicy) (as_of : Date) where
  pub Stops-IsBlocked :
      (store : Store)
      → Stops new_id organization_id actor_id employee_id as_of
          (to_create new_id organization_id actor_id employee_id winners as_of store.assignments)
          (closed new_id organization_id actor_id employee_id winners as_of store)
      → IsBlocked organization_id employee_id as_of winners
          (to_create new_id organization_id actor_id employee_id winners as_of store.assignments)
          store.assignments
  unfolding is_refused row_for
  Stops-IsBlocked store stops =
      let (row, m, rival) = In-of_any _ _ stops.refused in
      let (single, facts) =
        is_rival-facts
          (row_for organization_id actor_id employee_id as_of new_id stops.winner (
            creating organization_id actor_id employee_id as_of new_id stops.before
              (closed new_id organization_id actor_id employee_id winners as_of store)))
          row rival in
      record {
        before = stops.before;
        winner = stops.winner;
        after = stops.after;
        split = stops.split;
        single = single;
        obstacle =
            elim (inserted_all-from organization_id actor_id employee_id as_of new_id row
              stops.before _ m) [
                | inr (other, n, made) ↦ inr (
                  other,
                  n,
                  sym made.cardinality ∙ facts.cardinality,
                  sym made.category ∙ facts.category,
                )
                | inl n ↦
                    elim (close_all-from organization_id actor_id employee_id as_of row
                      (to_remove new_id organization_id actor_id employee_id winners as_of
                        store.assignments)
                      store n) [
                        | inl (k, unnamed) ↦ inl (
                          row,
                          k,
                          facts,
                          λ c.
                              desired_of_current new_id organization_id actor_id employee_id winners
                                as_of store.assignments row k c unnamed,
                        )
                        | inr (old, _, e) ↦
                            absurd (shut (sym (ap (λ r. r.effective_to) e) ∙ facts.open_ended))
                      ]
              ];
      }
    where
      shut : some as_of ≡ none → ⊥
      shut h = cc h
