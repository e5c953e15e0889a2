-- ===== src/Outbox/Laws.antt =====
-- What a claim takes.
use policy_assignment_system.Prelude.{
  ℕ, zero, suc, ◌≤◌, leb, ◌&&◌, ◌≡◌, ◌≢◌, refl, sym, ap, ◌∙◌, subst, inl, inr, true, false, Bool,
  List, [], ◌∷◌, In, In-map, In-of_map, In-of_keep, includes, includes_iff, map, length,
  if◌then◌else◌, arith,
}
use policy_assignment_system.Prelude.Sorting.{In-of_sort}
use policy_assignment_system.Dates.{Date}
use policy_assignment_system.Outbox.{
  OutboxEvent, OutboxStatus, pending, processing, processed, failed, is_due, is_pending, take,
  find_pending, earliest_first, leased, claim_pending,
}

-- The id is the table's key.
abbrev pub HasKeys : List OutboxEvent → Type 0
HasKeys rows = (a b : OutboxEvent) → In a rows → In b rows → a.id ≡ b.id → a ≡ b

In-of_take : {A : Type 0} (a : A) (n : ℕ) (xs : List A) → In a (take n xs) → In a xs
unfolding take
In-of_take a zero xs m = elim m [ ]
In-of_take a (suc n) [] m = elim m [ ]
In-of_take a (suc n) (x ∷ xs) (inl e) = inl e
In-of_take a (suc n) (x ∷ xs) (inr m) = inr (In-of_take a n xs m)

length-take : {A : Type 0} (n : ℕ) (xs : List A) → length (take n xs) ≤ n
unfolding take
length-take zero xs = omega arith
length-take (suc n) [] = omega arith
length-take (suc n) (x ∷ xs) = omega (arith, length-take n xs)

-- A row that may be claimed.
pub record IsClaimable (now : Date) (row : OutboxEvent) : Type 0 where
  pub waiting : row.status ≡ pending
  pub in_time : row.available_at ≤ now

find_pending-length :
    (limit : ℕ) (now : Date) (rows : List OutboxEvent)
    → length (find_pending limit now rows) ≤ limit
unfolding find_pending
find_pending-length limit now rows = length-take limit _

due-IsClaimable : (now : Date) (row : OutboxEvent) → is_due now row ≡ true → IsClaimable now row
due-IsClaimable now row h = record { waiting = waits row.status h; in_time = ground arith }
  where
    waits :
        (status : OutboxStatus)
        → (is_pending status && leb row.available_at now) ≡ true
        → status ≡ pending
    waits pending k = refl
    waits processing k = cc k
    waits processed k = cc k
    waits failed k = cc k

In-find_pending :
    (limit : ℕ) (now : Date) (rows : List OutboxEvent) (row : OutboxEvent)
    → In row (find_pending limit now rows)
    → In row rows × IsClaimable now row
unfolding find_pending
In-find_pending limit now rows row m =
    let (n, h) = In-of_keep _ rows (In-of_sort earliest_first row _ (In-of_take row limit _ m)) in
    (n, due-IsClaimable now row h)

module _ (limit : ℕ) (now lease_until : Date) (rows : List OutboxEvent) (keys : HasKeys rows) where
  abbrev table_after : List OutboxEvent
  table_after = (claim_pending limit now lease_until rows).0

  abbrev taken : List OutboxEvent
  taken = (claim_pending limit now lease_until rows).1

  -- Each row that a claim returns was in the table, PENDING and due, and is returned with its lease;
  -- that is also how it now stands in the table.
  pub claim_pending_sound :
      (row : OutboxEvent)
      → In row taken
      → In row table_after
        × ((old : OutboxEvent) × In old rows × IsClaimable now old × (row ≡ leased lease_until old))
  unfolding claim_pending
  claim_pending_sound row m =
      let ids = map (λ (r : OutboxEvent). r.id) (find_pending limit now rows) in
      let (old, n, e) = In-of_map (leased lease_until) _ m in
      let (k, named) = In-of_keep _ rows n in
      let (r, i, f) =
        In-of_map (λ (r : OutboxEvent). r.id) (find_pending limit now rows)
          ((includes_iff ids old.id).0 named) in
      let update = λ (x : OutboxEvent). if includes ids x.id then leased lease_until x else x in
      let changed : update old ≡ leased lease_until old = rw named refl in
      let (j, due) = In-find_pending limit now rows r i in
      (
        subst (λ x. In x table_after) (changed ∙ sym e) (In-map update old rows k),
        (old, k, subst (IsClaimable now) (sym (keys old r k j f)) due, e),
      )

map-HasKeys :
    (f : OutboxEvent → OutboxEvent) (rows : List OutboxEvent)
    → ((row : OutboxEvent) → (f row).id ≡ row.id)
    → HasKeys rows
    → HasKeys (map f rows)
map-HasKeys f rows same keys a b m n e =
    let (x, i, p) = In-of_map f rows m in
    let (y, j, q) = In-of_map f rows n in
    p
    ∙ ap f (keys x y i j (sym (same x) ∙ ap (λ r. r.id) (sym p) ∙ e ∙ ap (λ r. r.id) q ∙ same y))
    ∙ sym q

-- A claim keeps the ids.
claim_pending-HasKeys :
    (limit : ℕ) (now lease_until : Date) (rows : List OutboxEvent)
    → HasKeys rows
    → HasKeys (claim_pending limit now lease_until rows).0
unfolding claim_pending
claim_pending-HasKeys limit now lease_until rows keys =
    let ids = map (λ (r : OutboxEvent). r.id) (find_pending limit now rows) in
    map-HasKeys _ rows (λ row. kept_id (includes ids row.id) row) keys
  where
    kept_id :
        (named : Bool) (row : OutboxEvent)
        → (if named then leased lease_until row else row).id ≡ row.id
    kept_id true row = refl
    kept_id false row = refl

-- Of two claims, one after the other, the second returns no row that the first returned.
pub claim_pending_exclusive :
    (limit : ℕ) (now lease_until later later_lease : Date) (rows : List OutboxEvent)
    (first second : OutboxEvent)
    → HasKeys rows
    → In first (claim_pending limit now lease_until rows).1
    → In second
        (claim_pending limit later later_lease (claim_pending limit now lease_until rows).0).1
    → first.id ≢ second.id
claim_pending_exclusive limit now lease_until later later_lease rows first second keys m n same =
    let after = (claim_pending limit now lease_until rows).0 in
    let keys_after = claim_pending-HasKeys limit now lease_until rows keys in
    let (i, (_, _, _, e)) = claim_pending_sound limit now lease_until rows keys first m in
    let (_, (mid, j, due, f)) =
      claim_pending_sound limit later later_lease after keys_after second n in
    let one = keys_after first mid i j (same ∙ ap (λ r. r.id) f) in
    let clash : processing ≡ pending =
      sym (ap (λ r. r.status) e) ∙ ap (λ r. r.status) one ∙ due.waiting in
    cc clash
