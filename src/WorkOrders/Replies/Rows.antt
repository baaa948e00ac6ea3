-- ===== src/WorkOrders/Replies/Rows.antt =====
-- What the rows that the client shows satisfy (frontend/lib/work-orders/client.ts).
use mathlib.Core.List.{Memᴰ}
use reinforcement_learning_c.Prelude.{
  String, Bool, true, false, not, some, List, [], ◌∷◌, map, ◌≡◌, ◌≢◌, refl, arith, All, any, Result,
  ok, is_empty, ◌==◌, string_eq, checked-eq-ok, is_text-eq, eq_iff, sym, Bool-cases, inl, inr,
  subst, if◌then◌else◌,
}
use reinforcement_learning_c.WorkOrders.Intent.{WorkOrdersError}
use reinforcement_learning_c.WorkOrders.Replies.{
  invalid_response, has_duplicate, WorkOrderSummary, WorkOrderQuery, ListReply, is_bad_row,
  has_cursor, is_bad_list, list_orders, unique_from, unique_ids, rows_match, order_summaries,
}

abbrev pub IsDistinct : List String → Type 0
IsDistinct [] = Unit
IsDistinct (id ∷ ids) = (Memᴰ id ids → ⊥) × IsDistinct ids

not_any : (id : String) (ids : List String) → any (λ j. j == id) ids ≡ false → Memᴰ id ids → ⊥
not_any id [] u m = elim m [ ]
not_any id (j ∷ ids) u (Memᴰ.head e) = ground (arith, eq_iff j id, e, sym e)
not_any id (j ∷ ids) u (Memᴰ.tail m) = not_any id ids (ground arith) m

pub has_duplicate-IsDistinct : (ids : List String) → has_duplicate ids ≡ false → IsDistinct ids
unfolding has_duplicate
has_duplicate-IsDistinct [] h = tt
has_duplicate-IsDistinct (id ∷ ids) h =
    (not_any id ids (ground arith), has_duplicate-IsDistinct ids (ground arith))

-- A row that the query asked for: a filter that is given and not empty holds of it.
pub record IsWanted (q : WorkOrderQuery) (row : WorkOrderSummary) : Type 0 where
  pub factory : row.factory_id ≡ q.factory_id
  pub basis : row.basis_snapshot_id ≡ row.source_basis_snapshot_id
  pub status : (w : String) → q.status ≡ some w → is_empty w ≡ false → row.status ≡ w
  pub machine : (w : String) → q.machine_id ≡ some w → is_empty w ≡ false → row.machine_id ≡ w
  pub assignee :
      (w : String) → q.assignee_user_id ≡ some w → is_empty w ≡ false → row.assignee ≡ some w
  pub overdue : (w : Bool) → q.overdue ≡ some w → row.overdue ≡ w

row-IsWanted :
    (q : WorkOrderQuery) (row : WorkOrderSummary) → is_bad_row q row ≡ false → IsWanted q row
unfolding is_bad_row
row-IsWanted q row h = record {
  factory = ground (arith, eq_iff row.factory_id q.factory_id);
  basis = ground (arith, eq_iff row.basis_snapshot_id row.source_basis_snapshot_id);
  status = λ w e n. ground (arith, eq_iff row.status w);
  machine = λ w e n. ground (arith, eq_iff row.machine_id w);
  assignee = λ w e n. is_text-eq row.assignee w (ground arith);
  overdue = λ w e. ground arith;
}

rows-IsWanted :
    (q : WorkOrderQuery) (rows : List WorkOrderSummary)
    → any (is_bad_row q) rows ≡ false
    → All (IsWanted q) rows
rows-IsWanted q [] h = tt
rows-IsWanted q (row ∷ rows) h =
    (row-IsWanted q row (ground arith), rows-IsWanted q rows (ground arith))

-- A list that the client shows is the server's, has only rows of the factory that the given filters
-- ask for, no order twice, and a cursor exactly if there is more, when it is not empty.
pub list_orders_sound :
    (fetched : Result WorkOrdersError ListReply) (q : WorkOrderQuery) (r : ListReply)
    → list_orders fetched q ≡ ok r
    → (fetched ≡ ok r)
      × All (IsWanted q) r.rows
      × IsDistinct (map (λ row. row.id) r.rows)
      × (has_cursor r.next_cursor ≡ r.has_more)
      × (r.has_more ≡ true → r.rows ≢ [])
unfolding list_orders is_bad_list
list_orders_sound fetched q r h =
    let (same, fine) = checked-eq-ok fetched (is_bad_list q) invalid_response h in
    (
      same,
      rows-IsWanted q r.rows (ground arith),
      has_duplicate-IsDistinct (map (λ row. row.id) r.rows) (ground arith),
      ground arith,
      ground arith,
    )

match-ids :
    (factory_id : String) (rows : List WorkOrderSummary) (ids : List String)
    → rows_match factory_id rows ids ≡ true
    → (map (λ row. row.id) rows ≡ ids) × All (λ row. row.factory_id ≡ factory_id) rows
unfolding rows_match
match-ids f [] [] h = (refl, tt)
match-ids f [] (id ∷ ids) h = ground arith
match-ids f (row ∷ rows) [] h = ground arith
match-ids f (row ∷ rows) (id ∷ ids) h =
    let (same, all_of) = match-ids f rows ids (ground arith) in
    let e : row.id ≡ id = ground (arith, eq_iff row.id id) in
    (cc, (ground (arith, eq_iff row.factory_id f), all_of))

-- The ids of a list without the copies of an id.
abbrev pub without : String → List String → List String
without id [] = []
without id (j ∷ js) = let rest = without id js in if id == j then rest else (j ∷ rest)

-- The second list has each id of the first at its first place: the head is the same, and the rest is
-- what remains of the other ids.
abbrev pub AreFirstOccurrences : List String → List String → Type 0
AreFirstOccurrences ids [] = ids ≡ []
AreFirstOccurrences ids (j ∷ js) =
    (rest : List String) × (ids ≡ j ∷ rest) × AreFirstOccurrences (without j rest) js

-- The ids that are not among `seen`.
outside : List String → List String → List String
outside seen [] = []
outside seen (id ∷ ids) =
    let rest = outside seen ids in if any (λ j. j == id) seen then rest else (id ∷ rest)

outside-nil : (ids : List String) → outside [] ids ≡ ids
unfolding outside
outside-nil [] = refl
outside-nil (id ∷ ids) = ground (arith, outside-nil ids)

without-outside :
    (id : String) (seen ids : List String) → without id (outside seen ids) ≡ outside (id ∷ seen) ids
unfolding outside
without-outside id seen [] = refl
without-outside id seen (j ∷ js) =
    let again = without-outside id seen js in
    elim (Bool-cases (any (λ k. k == j) seen)) [
      | inl old ↦ rw old (ground (arith, again))
      | inr new ↦ rw new (ground (arith, again))
    ]

outside-seen :
    (id : String) (seen ids : List String)
    → any (λ j. j == id) seen ≡ true
    → outside (id ∷ seen) ids ≡ outside seen ids
unfolding outside
outside-seen id seen [] h = refl
outside-seen id seen (j ∷ js) h = elim (Bool-cases (id == j)) [
  | inl same ↦
      rw (same, subst (λ x. any (λ k. k == x) seen ≡ true) ((eq_iff id j).0 same) h)
        (outside-seen id seen js h)
  | inr other ↦ rw other (ground (arith, outside-seen id seen js h))
]

unique_from-AreFirstOccurrences :
    (seen ids : List String) → AreFirstOccurrences (outside seen ids) (unique_from seen ids)
unfolding outside unique_from
unique_from-AreFirstOccurrences seen [] = refl
unique_from-AreFirstOccurrences seen (id ∷ ids) =
    let later = unique_from-AreFirstOccurrences (id ∷ seen) ids in
    elim (Bool-cases (any (λ j. j == id) seen)) [
      | inl old ↦ rw old (
          subst (λ x. AreFirstOccurrences x (unique_from (id ∷ seen) ids))
            (outside-seen id seen ids old) later)
      | inr new ↦ rw new (
        outside seen ids,
        refl,
        subst (λ x. AreFirstOccurrences x (unique_from (id ∷ seen) ids))
            (sym (without-outside id seen ids)) later,
      )
    ]

unique_ids-AreFirstOccurrences : (ids : List String) → AreFirstOccurrences ids (unique_ids ids)
unfolding unique_ids
unique_ids-AreFirstOccurrences ids =
    subst (λ x. AreFirstOccurrences x (unique_from [] ids)) (outside-nil ids)
      (unique_from-AreFirstOccurrences [] ids)

-- The summaries that the client shows are one for each id asked for, in the order in which the ids
-- first occur, all of the factory.
pub order_summaries_sound :
    (fetched : Result WorkOrdersError (List WorkOrderSummary)) (factory_id : String)
    (ids : List String) (rows : List WorkOrderSummary)
    → order_summaries fetched factory_id ids ≡ ok rows
    → AreFirstOccurrences ids (map (λ row. row.id) rows)
      × All (λ row. row.factory_id ≡ factory_id) rows
unfolding order_summaries
order_summaries_sound fetched factory_id ids rows h =
    let fit : rows_match factory_id rows (unique_ids ids) ≡ true = ground (
      arith,
      (checked-eq-ok fetched (λ x. not (rows_match factory_id x (unique_ids ids))) invalid_response
          h).1,
    ) in
    let (same, all_of) = match-ids factory_id rows (unique_ids ids) fit in
    (subst (AreFirstOccurrences ids) (sym same) (unique_ids-AreFirstOccurrences ids), all_of)
