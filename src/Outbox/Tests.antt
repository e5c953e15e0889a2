-- ===== src/Outbox/Tests.antt =====
-- Two rows that are due, claimed one by one.
use policy_assignment_system.Prelude.{
  ◌≡◌, ◌≢◌, refl, sym, ap, ◌∙◌, inl, inr, true, false, none, List, [], ◌∷◌, In, eq_iff,
}
use policy_assignment_system.Prelude.Sorting.{sort}
use policy_assignment_system.Outbox.{
  OutboxEvent, pending, leased, take, find_pending, claim_pending,
}
use policy_assignment_system.Outbox.Laws.{
  HasKeys, IsClaimable, claim_pending_sound, claim_pending_exclusive,
}

abbrev early : OutboxEvent
early = record {
  id = "x1";
  organization_id = "o1";
  event_type = "employee.created";
  aggregate_type = "employee";
  aggregate_id = "e1";
  payload = none;
  status = pending;
  attempts = 0;
  available_at = 10;
  processed_at = none;
  created_at = 10;
}

abbrev late : OutboxEvent
late = record early { id = "x2"; available_at = 20 }

abbrev rows : List OutboxEvent
rows = late ∷ early ∷ []

rows_keyed : HasKeys rows
rows_keyed a b (inl e) (inl f) _ = e ∙ sym f
rows_keyed a b (inr (inl e)) (inr (inl f)) _ = e ∙ sym f
rows_keyed a b (inl e) (inr (inl f)) same =
    absurd (apart (sym (ap (λ x. x.id) e) ∙ same ∙ ap (λ x. x.id) f))
  where
    apart : ¬ (late.id ≡ early.id)
    apart h = let k : false ≡ true = (eq_iff late.id early.id).1 h in cc k
rows_keyed a b (inr (inl e)) (inl f) same =
    absurd (apart (sym (ap (λ x. x.id) f) ∙ sym same ∙ ap (λ x. x.id) e))
  where
    apart : ¬ (late.id ≡ early.id)
    apart h = let k : false ≡ true = (eq_iff late.id early.id).1 h in cc k
rows_keyed a b (inr (inr m)) _ _ = elim m [ ]
rows_keyed a b _ (inr (inr m)) _ = elim m [ ]

early_taken : In (leased 90 early) (claim_pending 1 30 90 rows).1
unfolding claim_pending find_pending sort take
early_taken = inl refl

late_taken : In (leased 95 late) (claim_pending 1 35 95 (claim_pending 1 30 90 rows).0).1
unfolding claim_pending find_pending sort take
late_taken = inl refl

claim_pending_sound_example :
    In (leased 90 early) (claim_pending 1 30 90 rows).0
    × ((old : OutboxEvent) × In old rows × IsClaimable 30 old × (leased 90 early ≡ leased 90 old))
claim_pending_sound_example =
    claim_pending_sound 1 30 90 rows rows_keyed (leased 90 early) early_taken

claim_pending_exclusive_example : early.id ≢ late.id
claim_pending_exclusive_example =
    claim_pending_exclusive 1 30 90 35 95 rows (leased 90 early) (leased 95 late) rows_keyed
      early_taken late_taken
