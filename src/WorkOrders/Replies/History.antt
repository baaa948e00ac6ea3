-- ===== src/WorkOrders/Replies/History.antt =====
-- The history of a work order is read without gaps
-- (frontend/lib/work-orders/client.ts and use-work-orders.ts).
use reinforcement_learning_c.Prelude.{
  ℕ, zero, suc, ◌+◌, ◌-◌, String, Bool, true, false, not, Option, some, List, [], ◌∷◌, ◌++◌, ◌≡◌,
  inl, inr, arith, length, Result, ok, string_eq, eq_iff, checked-eq-ok, >>=-eq-ok, Bool-cases,
  if◌then◌else◌, ◌>>=◌, subst, ap, ◌∙◌, throw_if, throw_if-eq-ok,
}
use reinforcement_learning_c.WorkOrders.Intent.{WorkOrdersError, Actor, same_actor, session_changed}
use reinforcement_learning_c.WorkOrders.Replies.{
  invalid_response, WorkOrderEvent, EventsReply, rows_follow, last_sequence, same_sequence, is_nil,
  is_bad_history, order_events, cursor_after, load_pages, verified_read, load_history,
}

-- Events of the order, numbered one by one from `next`.
abbrev pub IsGapless : String → ℕ → List WorkOrderEvent → Type 0
IsGapless id next [] = Unit
IsGapless id next (row ∷ rows) =
    (row.work_order_id ≡ id) × (row.sequence ≡ next) × IsGapless id (next + 1) rows

follow-IsGapless :
    (id : String) (next : ℕ) (rows : List WorkOrderEvent)
    → rows_follow id next rows ≡ true
    → IsGapless id next rows
unfolding rows_follow
follow-IsGapless id next [] h = tt
follow-IsGapless id next (row ∷ rows) h = (
  ground (arith, eq_iff row.work_order_id id),
  ground arith,
  follow-IsGapless id (next + 1) rows (ground arith),
)

append-IsGapless :
    (id : String) (next : ℕ) (xs ys : List WorkOrderEvent)
    → IsGapless id next xs
    → IsGapless id (next + length xs) ys
    → IsGapless id next (xs ++ ys)
append-IsGapless id next [] ys hx hy =
    let e : next + 0 ≡ next = omega arith in subst (λ n. IsGapless id n ys) e hy
append-IsGapless id next (x ∷ xs) ys (a, b, hx) hy =
    let e : next + suc (length xs) ≡ next + 1 + length xs = omega arith in
    (a, b, append-IsGapless id (next + 1) xs ys hx (subst (λ n. IsGapless id n ys) e hy))

last_of :
    (id : String) (next : ℕ) (row : WorkOrderEvent) (rows : List WorkOrderEvent)
    → IsGapless id next (row ∷ rows)
    → last_sequence (row ∷ rows) ≡ some (next + length rows)
last_of id next row [] (a, b, h) = ground arith
last_of id next row (x ∷ xs) (a, b, h) = ground (arith, last_of id (next + 1) x xs h)

-- Where there is more, the next cursor is the sequence that the page ends with.
next_cursor_of :
    (id : String) (after : ℕ) (next : Option ℕ) (rows : List WorkOrderEvent)
    → IsGapless id (after + 1) rows
    → is_nil rows ≡ false
    → same_sequence next (last_sequence rows) ≡ true
    → cursor_after next after ≡ after + length rows
next_cursor_of id after next [] g filled same = ground arith
next_cursor_of id after next (row ∷ rows) g filled same =
    let last = last_of id (after + 1) row rows g in ground (arith, last)

record IsPage (id : String) (after : ℕ) (r : EventsReply) : Type 0 where
  gapless : IsGapless id (after + 1) r.rows
  cursor : r.has_more ≡ true → cursor_after r.next_after_sequence after ≡ after + length r.rows

order_events-IsPage :
    (fetched : Result WorkOrdersError EventsReply) (id : String) (after : ℕ) {r : EventsReply}
    → order_events fetched id after ≡ ok r
    → IsPage id after r
unfolding order_events is_bad_history
order_events-IsPage fetched id after {r} h =
    let (same, fine) = checked-eq-ok fetched (is_bad_history id after) invalid_response h in
    let gapless = follow-IsGapless id (after + 1) r.rows (ground arith) in
    record {
      gapless = gapless;
      cursor = λ more.
          next_cursor_of id after r.next_after_sequence r.rows gapless (ground arith)
            (ground arith);
    }

-- One page and what follows it.
join-IsGapless :
    (id : String) (cursor : ℕ) (r : EventsReply)
    (rest : Result WorkOrdersError (List WorkOrderEvent)) {rows : List WorkOrderEvent}
    → IsPage id cursor r
    → ((ys : List WorkOrderEvent)
        → rest ≡ ok ys
        → IsGapless id (cursor_after r.next_after_sequence cursor + 1) ys)
    → (if r.has_more then (rest >>= λ ys. ok (r.rows ++ ys)) else ok r.rows) ≡ ok rows
    → IsGapless id (cursor + 1) rows
join-IsGapless id cursor r rest {rows} p later h = elim (Bool-cases r.has_more) [
  | inl more ↦
      let (ys, got, e) = >>=-eq-ok rest (λ ys. ok (r.rows ++ ys)) (rw more at h) in
      let whole : r.rows ++ ys ≡ rows = cc in
      let at_end : cursor_after r.next_after_sequence cursor + 1 ≡ cursor + 1 + length r.rows =
        omega (arith, p.cursor more) in
      subst (IsGapless id (cursor + 1)) whole (
        append-IsGapless id (cursor + 1) r.rows ys p.gapless
          (subst (λ n. IsGapless id n ys) at_end (later ys got)))
  | inr last ↦
      let last_page : ok r.rows ≡ ok rows = rw last at h in
      let whole : r.rows ≡ rows = cc in subst (IsGapless id (cursor + 1)) whole p.gapless
]

load_pages-IsGapless :
    (server : ℕ → Result WorkOrdersError EventsReply) (id : String) (left cursor : ℕ)
    {rows : List WorkOrderEvent}
    → load_pages server id left cursor ≡ ok rows
    → IsGapless id (cursor + 1) rows
unfolding load_pages
load_pages-IsGapless server id zero cursor {rows} h =
    let (r, got, h₁) = >>=-eq-ok (order_events (server cursor) id cursor) _ h in
    let p = order_events-IsPage (server cursor) id cursor got in
    let e : r.rows ≡ rows = cc in subst (IsGapless id (cursor + 1)) e p.gapless
load_pages-IsGapless server id (suc left) cursor h =
    let (r, got, h₁) = >>=-eq-ok (order_events (server cursor) id cursor) _ h in
    let next = cursor_after r.next_after_sequence cursor in
    join-IsGapless id cursor r (load_pages server id left next)
      (order_events-IsPage (server cursor) id cursor got)
      (λ ys e. load_pages-IsGapless server id left next e) h₁

same_actor-eq : (a b : Actor) → same_actor a b ≡ true → a ≡ b
unfolding same_actor
same_actor-eq a b h = ground (arith, eq_iff a.id b.id, eq_iff a.role b.role)

verified_read-eq-ok :
    {A : Type 0} (fetched : Result WorkOrdersError A) (identity : Result WorkOrdersError Actor)
    (aborted : Bool) (actor : Actor) {a : A}
    → verified_read fetched identity aborted actor ≡ ok a
    → (fetched ≡ ok a) × (identity ≡ ok actor)
unfolding verified_read
verified_read-eq-ok fetched identity aborted actor {a} h =
    let (value, got, h₁) = >>=-eq-ok fetched _ h in
    let (current, known, h₂) = >>=-eq-ok identity _ h₁ in
    let (u, quiet, h₃) = >>=-eq-ok (throw_if aborted _) _ h₂ in
    let (v, same, h₄) =
      >>=-eq-ok (throw_if (not (same_actor current actor)) session_changed) _ h₃ in
    let fits : same_actor current actor ≡ true =
      ground (arith, throw_if-eq-ok (not (same_actor current actor)) session_changed same) in
    let e : value ≡ a = cc in (got ∙ ap ok e, known ∙ ap ok (same_actor-eq current actor fits))

-- A history that is shown was read by the actor who asked for it, and is the order's events
-- numbered one by one from the cursor, with no gap within or between the pages.
pub load_history-IsGapless :
    (server : ℕ → Result WorkOrdersError EventsReply) (identity : Result WorkOrdersError Actor)
    (aborted : Bool) (actor : Actor) (id : String) (append : Bool) (loaded_pages after : ℕ)
    {rows : List WorkOrderEvent}
    → load_history server identity aborted actor id append loaded_pages after ≡ ok rows
    → (identity ≡ ok actor) × IsGapless id (after + 1) rows
unfolding load_history
load_history-IsGapless server identity aborted actor id append loaded_pages after h =
    let left = if append then 0 else (loaded_pages - 1) in
    let (got, known) =
      verified_read-eq-ok (load_pages server id left after) identity aborted actor h in
    (known, load_pages-IsGapless server id left after got)
