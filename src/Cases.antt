-- ===== src/Cases.antt =====
-- The paged list of Decision Cases (frontend/lib/operations-api/use-decision-cases.ts) and the kinds
-- of failed reads (read-error.ts). The events are the effect and its cleanup, the user's calls and
-- the answer of the request that is under way; an aborted or superseded request is dropped. The
-- page limit is only passed on, so it is left out.
use reinforcement_learning_c.Prelude.{
  ℕ, String, Bool, true, false, ◌&&◌, ◌||◌, not, Option, none, some, List, [], ◌∷◌, ◌==◌, string_eq,
  nat_eq, any, is_text, is_empty, is_blank, if◌then◌else◌,
}
use reinforcement_learning_c.WorkOrders.Replies.{is_filtered_out, is_nil}
pub mod Rows
mod Tests

pub data Thrown : Type 0 where
  contract_error : Thrown
  auth_redirect : Thrown
  api_error : (status : ℕ) (code : Option String) → Thrown
  other_error : Thrown

pub data FailureKind : Type 0 where
  unauthorized not_found unavailable invalid_cursor network_error error : FailureKind

abbrev pub is_cursor_error : ℕ → Option String → Bool
is_cursor_error status code = status == 400 && is_text code "INVALID_CURSOR"

-- `operationsReadFailure`, without the texts.
unfoldable pub operations_read_failure : Thrown → FailureKind
operations_read_failure contract_error = error
operations_read_failure auth_redirect = unauthorized
operations_read_failure (api_error status code) =
    if status == 401 || status == 403
    then unauthorized
    else if status == 404
    then not_found
    else if status == 503
    then unavailable
    else if is_cursor_error status code
    then invalid_cursor
    else error
operations_read_failure other_error = network_error

pub record CaseRow : Type 0 where
  pub decision_case_id : String
  pub factory_id : String
  pub status : String
  pub mode : String

pub record Query : Type 0 where
  pub factory_id : String
  pub status : Option String
  pub mode : Option String
  pub limit : ℕ  -- 25 where the page gives none

pub record PageMeta : Type 0 where
  pub factory_id : String
  pub has_more : Bool
  pub next_cursor : Option String

pub record Page : Type 0 where
  pub rows : List CaseRow
  pub meta : PageMeta

pub data ListKind : Type 0 where
  loading ready missing_factory : ListKind
  failed : FailureKind → ListKind

pub record ListState : Type 0 where
  pub scope : Query
  pub kind : ListKind
  pub items : List CaseRow
  pub meta : Option PageMeta
  pub busy : Bool

-- The request under way: its cursor and the rows that were there before.
pub record Reading : Type 0 where
  pub cursor : Option String
  pub previous : List CaseRow

pub record CaseList : Type 0 where
  pub query : Query
  pub state : ListState
  pub last_cursor : Option String
  pub last_append : Bool
  pub reading : Option Reading

abbrev pub same_option : Option String → Option String → Bool
same_option none none = true
same_option (some a) (some b) = a == b
same_option _ _ = false

unfoldable pub same_query : Query → Query → Bool
same_query a b =
    a.factory_id == b.factory_id
    && same_option a.status b.status
    && same_option a.mode b.mode
    && a.limit == b.limit

unfoldable pub is_out_of_scope : Query → CaseRow → Bool
is_out_of_scope q row =
    not (row.factory_id == q.factory_id)
    || is_filtered_out q.status (some row.status)
    || is_filtered_out q.mode (some row.mode)

-- A page that promises more must have rows and a new cursor.
abbrev pub is_bad_cursor : Option String → Option String → Bool
is_bad_cursor cursor none = true
is_bad_cursor cursor (some next) = is_empty next || is_text cursor next

abbrev pub is_set : Option String → Bool
is_set none = false
is_set (some c) = true

unfoldable pub is_bad_page : Query → Option String → Page → Bool
is_bad_page q cursor p =
    not (p.meta.factory_id == q.factory_id)
    || any (is_out_of_scope q) p.rows
    || (p.meta.has_more && (is_bad_cursor cursor p.meta.next_cursor || is_nil p.rows))
    || (not p.meta.has_more && is_set p.meta.next_cursor)

-- `items.set(id, item)`: an old row is replaced in its place.
unfoldable pub put_row : CaseRow → List CaseRow → List CaseRow
put_row row [] = row ∷ []
put_row row (old ∷ rest) =
    let later = put_row row rest in
    if old.decision_case_id == row.decision_case_id then (row ∷ rest) else (old ∷ later)

unfoldable pub put_rows : List CaseRow → List CaseRow → List CaseRow
put_rows [] rows = rows
put_rows (row ∷ more) rows = put_rows more (put_row row rows)

abbrev pub kind_of : List CaseRow → ListKind
kind_of [] = loading
kind_of (row ∷ rows) = ready

-- `read(cursor, append)`, up to its await.
unfoldable pub read_page : Option String → Bool → CaseList → CaseList
read_page cursor append l =
    let previous = if append && same_query l.state.scope l.query then l.state.items else [] in
    let attempt = record l { last_cursor = cursor; last_append = append } in
    if is_blank l.query.factory_id
    then record attempt {
      reading = none;
      state = record {
        scope = l.query;
        kind = missing_factory;
        items = [];
        meta = none;
        busy = false;
      };
    }
    else record attempt {
      reading = some (record { cursor = cursor; previous = previous });
      state = record {
        scope = l.query;
        kind = kind_of previous;
        items = previous;
        meta = if append then l.state.meta else none;
        busy = true;
      };
    }

-- Whether the rows stay after a failure: access or consistency was not at stake.
unfoldable pub keeps_rows : FailureKind → Bool
keeps_rows network_error = true
keeps_rows unavailable = true
keeps_rows _ = false

unfoldable pub on_failure : Thrown → Reading → CaseList → CaseList
unfolding operations_read_failure
on_failure t r l =
    let kind = operations_read_failure t in
    record l {
      reading = none;
      state = record {
        scope = l.query;
        kind = failed kind;
        items = if keeps_rows kind then r.previous else [];
        meta = if keeps_rows kind then l.state.meta else none;
        busy = false;
      };
    }

unfoldable pub on_page : Page → Reading → CaseList → CaseList
on_page p r l = if is_bad_page l.query r.cursor p then on_failure contract_error r l else record l {
  reading = none;
  state = record {
    scope = l.query;
    kind = ready;
    items = put_rows p.rows (put_rows r.previous []);
    meta = some p.meta;
    busy = false;
  };
}

unfoldable pub restarts : ListKind → Bool
restarts (failed invalid_cursor) = true
restarts (failed unauthorized) = true
restarts _ = false

abbrev pub is_ready : ListKind → Bool
is_ready ready = true
is_ready _ = false

-- `loadMore` with the cursor of the page before.
unfoldable pub load_more : Option PageMeta → CaseList → CaseList
unfolding read_page
load_more none l = l
load_more (some m) l =
    if same_query l.state.scope l.query
      && not l.state.busy
      && is_ready l.state.kind
      && m.has_more
      && not (is_bad_cursor none m.next_cursor)
    then read_page m.next_cursor true l
    else l

pub data ListEvent : Type 0 where
  effect : Query → ListEvent
  cleanup refresh retry more : ListEvent
  page : Page → ListEvent
  thrown : Thrown → ListEvent

unfoldable pub with_reading : (Reading → CaseList → CaseList) → Option Reading → CaseList → CaseList
with_reading f none l = l
with_reading f (some r) l = f r l

unfoldable pub list_step : ListEvent → CaseList → CaseList
unfolding read_page load_more with_reading on_page on_failure restarts
list_step (effect q) l = read_page none false (record l { query = q })
list_step cleanup l = record l { reading = none }
list_step refresh l = read_page none false l
list_step retry l =
    if restarts l.state.kind
    then read_page none false l
    else read_page l.last_cursor l.last_append l
list_step more l = load_more l.state.meta l
list_step (page p) l = with_reading (on_page p) l.reading l
list_step (thrown t) l = with_reading (on_failure t) l.reading l

unfoldable pub list_run : List ListEvent → CaseList → CaseList
list_run [] l = l
list_run (e ∷ es) l = list_run es (list_step e l)
