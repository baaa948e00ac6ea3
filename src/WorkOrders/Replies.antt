-- ===== src/WorkOrders/Replies.antt =====
-- The checks that the work-order client makes on a response before it shows it
-- (frontend/lib/work-orders/client.ts), and the reads built on them (use-work-orders.ts). The
-- response itself, which the client fetches and validates against the generated schema, is an
-- argument: what `read` returns or throws.
use reinforcement_learning_c.Prelude.{
  ℕ, zero, suc, ◌+◌, ◌-◌, String, Bool, true, false, ◌&&◌, ◌||◌, not, Option, none, some, List, [],
  ◌∷◌, ◌++◌, map, ◌==◌, string_eq, nat_eq, is_text, is_empty, any, Result, ok, err, ◌>>=◌, ◌>>◌,
  throw_if, if◌then◌else◌,
}
use reinforcement_learning_c.WorkOrders.Intent.{WorkOrdersError, Actor, same_actor, session_changed}
pub mod Rows
pub mod History

abbrev pub invalid_response : WorkOrdersError
invalid_response = record { status = 502; code = "INVALID_RESPONSE" }

-- `new Set(ids).size !== ids.length`
unfoldable pub has_duplicate : List String → Bool
has_duplicate [] = false
has_duplicate (id ∷ ids) = any (λ j. j == id) ids || has_duplicate ids

pub record WorkOrderSummary : Type 0 where
  pub id : String
  pub factory_id : String
  pub basis_snapshot_id : String
  pub source_basis_snapshot_id : String  -- source.basis_snapshot_id
  pub status : String
  pub machine_id : String
  pub assignee : Option String  -- assignee?.user_id
  pub overdue : Bool

pub record WorkOrderQuery : Type 0 where
  pub factory_id : String
  pub status : Option String
  pub machine_id : Option String
  pub assignee_user_id : Option String
  pub overdue : Option Bool

pub record ListReply : Type 0 where
  pub rows : List WorkOrderSummary
  pub has_more : Bool
  pub next_cursor : Option String

-- `wanted && given !== wanted`: an absent or empty filter rejects nothing.
abbrev pub is_filtered_out : Option String → Option String → Bool
is_filtered_out none given = false
is_filtered_out (some wanted) given = not (is_empty wanted) && not (is_text given wanted)

abbrev pub same_bool : Bool → Bool → Bool
same_bool true b = b
same_bool false b = not b

abbrev pub is_overdue_out : Option Bool → Bool → Bool
is_overdue_out none given = false
is_overdue_out (some wanted) given = not (same_bool given wanted)

unfoldable pub is_bad_row : WorkOrderQuery → WorkOrderSummary → Bool
is_bad_row q row =
    not (row.factory_id == q.factory_id)
    || not (row.basis_snapshot_id == row.source_basis_snapshot_id)
    || is_filtered_out q.status (some row.status)
    || is_filtered_out q.machine_id (some row.machine_id)
    || is_filtered_out q.assignee_user_id row.assignee
    || is_overdue_out q.overdue row.overdue

-- `Boolean(cursor)`
abbrev pub has_cursor : Option String → Bool
has_cursor none = false
has_cursor (some c) = not (is_empty c)

abbrev pub is_nil : {A : Type 0} → List A → Bool
is_nil [] = true
is_nil (x ∷ xs) = false

unfoldable pub is_bad_list : WorkOrderQuery → ListReply → Bool
is_bad_list q r =
    any (is_bad_row q) r.rows
    || has_duplicate (map (λ row. row.id) r.rows)
    || not (same_bool r.has_more (has_cursor r.next_cursor))
    || (r.has_more && is_nil r.rows)

unfoldable pub list_orders :
    Result WorkOrdersError ListReply → WorkOrderQuery → Result WorkOrdersError ListReply
list_orders fetched q = do r ← fetched; throw_if (is_bad_list q r) invalid_response; ok r

unfoldable pub order_detail :
    Result WorkOrdersError WorkOrderSummary → String → Result WorkOrdersError WorkOrderSummary
order_detail fetched id = do
  row ← fetched
  throw_if (not (row.id == id) || not (row.basis_snapshot_id == row.source_basis_snapshot_id))
      invalid_response
  ok row

-- `[...new Set(ids)]`, in the order of the first occurrences; `seen` are the ids before.
unfoldable pub unique_from : List String → List String → List String
unique_from seen [] = []
unique_from seen (id ∷ ids) =
    let rest = unique_from (id ∷ seen) ids in if any (λ j. j == id) seen then rest else (id ∷ rest)

unfoldable pub unique_ids : List String → List String
unfolding unique_from
unique_ids ids = unique_from [] ids

-- The lengths agree and each row is the one of its place.
unfoldable pub rows_match : String → List WorkOrderSummary → List String → Bool
rows_match factory_id [] [] = true
rows_match factory_id [] (id ∷ ids) = false
rows_match factory_id (row ∷ rows) [] = false
rows_match factory_id (row ∷ rows) (id ∷ ids) =
    (row.id == id
      && row.factory_id == factory_id
      && row.basis_snapshot_id == row.source_basis_snapshot_id)
    && rows_match factory_id rows ids

unfoldable pub order_summaries :
    Result WorkOrdersError (List WorkOrderSummary)
    → String
    → List String
    → Result WorkOrdersError (List WorkOrderSummary)
order_summaries fetched factory_id ids = do
  rows ← fetched
  throw_if (not (rows_match factory_id rows (unique_ids ids))) invalid_response
  ok rows

pub record WorkOrderEvent : Type 0 where
  pub id : String
  pub work_order_id : String
  pub sequence : ℕ

pub record EventsReply : Type 0 where
  pub rows : List WorkOrderEvent
  pub has_more : Bool
  pub next_after_sequence : Option ℕ

-- `rows.every((row, index) => row.sequence === next + index)` and all are of the order.
unfoldable pub rows_follow : String → ℕ → List WorkOrderEvent → Bool
rows_follow id next [] = true
rows_follow id next (row ∷ rows) =
    (row.work_order_id == id && row.sequence == next) && rows_follow id (next + 1) rows

abbrev pub last_sequence : List WorkOrderEvent → Option ℕ
last_sequence [] = none
last_sequence (row ∷ []) = some row.sequence
last_sequence (row ∷ next ∷ rows) = last_sequence (next ∷ rows)

abbrev pub same_sequence : Option ℕ → Option ℕ → Bool
same_sequence none none = true
same_sequence (some a) (some b) = a == b
same_sequence _ _ = false

unfoldable pub is_bad_history : String → ℕ → EventsReply → Bool
is_bad_history id after r =
    not (rows_follow id (after + 1) r.rows)
    || has_duplicate (map (λ row. row.id) r.rows)
    || (r.has_more
        && (is_nil r.rows || not (same_sequence r.next_after_sequence (last_sequence r.rows))))

unfoldable pub order_events :
    Result WorkOrdersError EventsReply → String → ℕ → Result WorkOrdersError EventsReply
order_events fetched id after = do
  r ← fetched
  throw_if (is_bad_history id after r) invalid_response
  ok r

abbrev pub cursor_after : Option ℕ → ℕ → ℕ
cursor_after none cursor = cursor
cursor_after (some next) cursor = next

-- The loop of `load`: the pages that are left after this one, the server by the cursor.
unfoldable pub load_pages :
    (ℕ → Result WorkOrdersError EventsReply)
    → String
    → ℕ
    → ℕ
    → Result WorkOrdersError (List WorkOrderEvent)
load_pages server id zero cursor = do r ← order_events (server cursor) id cursor; ok r.rows
load_pages server id (suc left) cursor = do
  r ← order_events (server cursor) id cursor
  let rest = load_pages server id left (cursor_after r.next_after_sequence cursor)
  if r.has_more then (rest >>= λ rows. ok (r.rows ++ rows)) else ok r.rows

-- `verifiedRead`: the actor is looked up again after the read, and the signal tested.
unfoldable pub verified_read :
    {A : Type 0}
    → Result WorkOrdersError A
    → Result WorkOrdersError Actor
    → Bool
    → Actor
    → Result WorkOrdersError A
verified_read fetched identity aborted actor = do
  value ← fetched
  current ← identity
  throw_if aborted (record { status = 0; code = "NETWORK_ERROR" })
  throw_if (not (same_actor current actor)) session_changed
  ok value

-- `load(append, after)`; `loaded_pages` is at least one.
unfoldable pub load_history :
    (ℕ → Result WorkOrdersError EventsReply)
    → Result WorkOrdersError Actor
    → Bool
    → Actor
    → String
    → (append : Bool) → (loaded_pages after : ℕ) → Result WorkOrdersError (List WorkOrderEvent)
load_history server identity aborted actor id append loaded_pages after =
    verified_read (load_pages server id (if append then 0 else (loaded_pages - 1)) after) identity
      aborted actor
